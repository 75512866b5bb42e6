-- ===== src/Bemu80/Examples.antt =====
-- The theorems on the emulator at concrete values.
use manux.Common.{ltb, if◌then◌else◌, IsBytes, ◌+◌, ◌*◌, ◌%◌, ◌≡◌, refl, true, false, some, arith}
use manux.Bemu80.Machine.{Ram, Cpu}
use manux.Bemu80.Alu
use manux.Bemu80.Alu.Laws.{ArithFlags, CopiedFlags}
use manux.Bemu80.Alu.Arith.{sum_overflows, adc8_lem}
use manux.Bemu80.Devices.{Image, Fdc, fdc_cmd}
use manux.Bemu80.Devices.Laws.{InRam}
use manux.Bemu80.Devices.Contract.{disk_of, fdc_cmd-disk_read, fdc_cmd-disk_write}
use manux.Fs.Disk.{disk_read, disk_write}

abbrev demo_cpu : Cpu
demo_cpu = record {
  regs = λ i. i;
  shadow_regs = λ _. 0;
  flags = 1;
  shadow_flags = 0;
  ix = 0;
  iy = 0;
  pc = 0x1234;
  sp = 0x9000;
  wz = 0;
  i = 0;
  r = 0;
  im = 1;
  iff1 = true;
  iff2 = true;
  halt = false;
  cycles = 0;
}

abbrev demo_ram : Ram
demo_ram = record { bytes = λ i. i % 256; rom_size = 0x2000 }

adc8_example :
    ((Alu.adc8 1 0x7F 0x80).0 ≡ 0)
    × ArithFlags (Alu.adc8 1 0x7F 0x80).1 0 1 1 (sum_overflows 0x7F 0x80 1) 0
    × CopiedFlags (Alu.adc8 1 0x7F 0x80).1 0
adc8_example = adc8_lem 1 0x7F 0x80 (omega arith) (omega arith)

abbrev demo_image : Image
demo_image = record { bytes = λ i. if ltb i 2048 then (i * 7) % 256 else 0; length = 2048 }

abbrev demo_fdc : Fdc
demo_fdc = record { status = 0; count = 1; lba = 2; dma = 0x3000; disk = some demo_image }

demo-InRam : InRam demo_ram 0x3000 512
demo-InRam = record { behind_rom = omega arith; below_top = omega arith }

image-IsBytes : IsBytes demo_image.bytes
image-IsBytes i = ground arith

disk_read_example :
    (fdc_cmd 1 demo_fdc demo_ram).1.bytes (0x3000 + 5) ≡ disk_read (disk_of demo_image) (λ _. 0) 2 5
disk_read_example =
    fdc_cmd-disk_read demo_fdc demo_image demo_ram (λ _. 0) 5 refl refl demo-InRam (omega arith)
      image-IsBytes (omega arith)

disk_write_example :
    (written : Image) × ((fdc_cmd 2 demo_fdc demo_ram).0.disk ≡ some written)
    × ((disk_of written).sectors 2 5
        ≡ (disk_write (disk_of demo_image) (λ k. demo_ram.bytes (0x3000 + k)) 2).sectors 2 5)
disk_write_example =
    fdc_cmd-disk_write demo_fdc demo_image demo_ram 2 5 refl refl demo-InRam (omega arith)
      (λ i. omega arith) (omega arith)
