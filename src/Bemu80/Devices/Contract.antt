-- ===== src/Bemu80/Devices/Contract.antt =====
-- The floppy controller of bemu80/bemu80.c keeps the contract that fs/mfs.c has with its disk
-- driver.
use manux.Common.{Bytes, IsBytes, copy, ℕ, ◌+◌, ◌*◌, ◌≤◌, ◌<◌, ◌≡◌, ap, ◌∙◌, some, arith}
use manux.Bemu80.Machine.{Ram}
use manux.Bemu80.Devices.{Image, Fdc, write_sector, fdc_cmd, fdc_init}
use manux.Bemu80.Devices.Laws.{InRam, fdc_cmd-read, fdc_cmd-write}
use manux.Fs.Disk.{Disk, disk_read, disk_write}

-- An image as the file system sees it.
abbrev pub disk_of : Image → Disk
disk_of image = record { sectors = λ s i. image.bytes (s * 512 + i); status = 0 }

-- A read command of the controller for one sector inside the mounted image, with the target in RAM,
-- puts into memory what disk_read of fs/mfs.c puts into its buffer.
pub fdc_cmd-disk_read :
    (fdc : Fdc) (image : Image) (m : Ram) (buf : Bytes) (i : ℕ)
    → fdc.disk ≡ some image
    → fdc.count ≡ 1
    → InRam m fdc.dma 512
    → fdc.lba * 512 + 512 ≤ image.length
    → IsBytes image.bytes
    → i < 512
    → (fdc_cmd 1 fdc m).1.bytes (fdc.dma + i) ≡ disk_read (disk_of image) buf fdc.lba i
unfolding disk_read copy
fdc_cmd-disk_read fdc image m buf i mounted one fits len ok h =
    (fdc_cmd-read fdc image m mounted one fits len ok).0 (fdc.dma + i) ∙ ground arith

-- A write command of the controller for one sector inside the mounted image, with the source in
-- RAM, makes of the image the disk that disk_write of fs/mfs.c makes, sector by sector and byte by
-- byte.
pub fdc_cmd-disk_write :
    (fdc : Fdc) (image : Image) (m : Ram) (s i : ℕ)
    → fdc.disk ≡ some image
    → fdc.count ≡ 1
    → InRam m fdc.dma 512
    → fdc.lba * 512 + 512 ≤ image.length
    → IsBytes m.bytes
    → i < 512
    → (written : Image) × ((fdc_cmd 2 fdc m).0.disk ≡ some written)
      × ((disk_of written).sectors s i
          ≡ (disk_write (disk_of image) (λ k. m.bytes (fdc.dma + k)) fdc.lba).sectors s i)
unfolding disk_write copy fdc_init
fdc_cmd-disk_write fdc image m s i mounted one fits len ok h =
    let w = fdc_cmd-write fdc image m mounted one fits len ok in
    (
      write_sector 512 image (fdc.lba * 512) fdc.dma 0 m,
      ap (λ f. f.disk) w.0,
      w.2 (s * 512 + i) ∙ ground arith,
    )
