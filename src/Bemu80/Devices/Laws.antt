-- ===== src/Bemu80/Devices/Laws.antt =====
-- The floppy controller of bemu80/bemu80.c moves whole sectors: what its commands do to the memory
-- and to the disk image.
use manux.Common.{
  ltb, leb, if◌then◌else◌, add16, IsBytes, store, copy, ℕ, zero, suc, ◌+◌, ◌-◌, ◌*◌, ◌^◌, ◌≤◌, ◌<◌,
  bit_and, ◌≡◌, refl, ◌∙◌, true, false, ◌&&◌, ◌||◌, some, arith,
}
use manux.Common.Digits.{digit, digit-bit_and, bit_and-power}
use manux.Bemu80.Machine.{Ram, mem_size, mwrite8, mread8}
use manux.Bemu80.Devices.{
  Image, Fdc, Machine, fputc, read_sector, write_sector, transfer, transfers, fdc_cmd, fdc_init,
  acia_rdrf, acia_ovrn, acia_read_data, receive_char,
}

-- `n` bytes from `at` on lie in RAM: behind the ROM and below the last address.
pub record InRam (m : Ram) (at n : ℕ) : Type 0 where
  pub behind_rom : m.rom_size ≤ at
  pub below_top : at + n ≤ 0xFFFF

mwrite8-InRam :
    (m : Ram) (dma i n value : ℕ)
    → InRam m dma (i + suc n)
    → mwrite8 m (add16 dma i) value ≡ record m { bytes = store m.bytes (dma + i) value }
unfolding mwrite8
mwrite8-InRam m dma i n value fits =
    let here : add16 dma i ≡ dma + i = omega (arith, fits.below_top) in
    let inside : (leb mem_size (dma + i) || ltb (dma + i) m.rom_size) ≡ false =
      ground (arith, fits.below_top, fits.behind_rom) in
    rw (here, inside) refl

mread8-InRam :
    (m : Ram) (dma i n : ℕ) → InRam m dma (i + suc n) → mread8 m (add16 dma i) ≡ m.bytes (dma + i)
unfolding mread8
mread8-InRam m dma i n fits =
    let here : add16 dma i ≡ dma + i = omega (arith, fits.below_top) in
    rw here (ground (arith, fits.below_top))

-- What the loop of a read leaves in memory.
read_sector-get :
    (n : ℕ) (disk : Image) (offset dma i : ℕ) (m : Ram) (j : ℕ)
    → InRam m dma (i + n)
    → offset + i + n ≤ disk.length
    → IsBytes disk.bytes
    → (read_sector n disk offset dma i m).bytes j ≡ (
        if leb (dma + i) j && ltb j (dma + i + n)
        then disk.bytes (offset + (j - dma))
        else m.bytes j)
unfolding read_sector store
read_sector-get zero disk offset dma i m j fits len ok = ground arith
read_sector-get (suc n) disk offset dma i m j fits len ok =
    let inside : ltb (offset + i) disk.length ≡ true = ground arith in
    let b = disk.bytes (offset + i) in
    let m1 = record m { bytes = store m.bytes (dma + i) b } in
    let next : InRam m1 dma (i + 1 + n) = record {
      behind_rom = fits.behind_rom;
      below_top = omega (arith, fits.below_top);
    } in
    rw (read_sector, inside, mwrite8-InRam m dma i n b fits)
      (read_sector-get n disk offset dma (i + 1) m1 j next (omega arith) ok
        ∙ ground (arith, ok (offset + i)))

-- What the loop of a write leaves in the image.
write_sector-get :
    (n : ℕ) (disk : Image) (offset dma i : ℕ) (m : Ram) (j : ℕ)
    → InRam m dma (i + n)
    → IsBytes m.bytes
    → (write_sector n disk offset dma i m).bytes j ≡ (
        if leb (offset + i) j && ltb j (offset + i + n)
        then m.bytes (dma + (j - offset))
        else disk.bytes j)
unfolding write_sector store
write_sector-get zero disk offset dma i m j fits ok = ground arith
write_sector-get (suc n) disk offset dma i m j fits ok =
    let b = m.bytes (dma + i) in
    let next : InRam m dma (i + 1 + n) = record {
      behind_rom = fits.behind_rom;
      below_top = omega (arith, fits.below_top);
    } in
    rw (write_sector, mread8-InRam m dma i n fits)
      (write_sector-get n (fputc disk (offset + i) b) offset dma (i + 1) m j next ok
        ∙ ground (arith, ok (dma + i)))

write_sector-length :
    (n : ℕ) (disk : Image) (offset dma i : ℕ) (m : Ram)
    → offset + i + n ≤ disk.length
    → (write_sector n disk offset dma i m).length ≡ disk.length
unfolding write_sector
write_sector-length zero disk offset dma i m len = refl
write_sector-length (suc n) disk offset dma i m len =
    let inside : ltb (offset + i) disk.length ≡ true = ground arith in
    let b = mread8 m (add16 dma i) in
    write_sector-length n (fputc disk (offset + i) b) offset dma (i + 1) m (ground arith)
    ∙ ground arith

-- A read command for one sector that lies in the image, to RAM: the memory is that of disk_read's
-- contract, the 512 bytes of the sector at the address and every other byte as it was, the image is
-- unchanged, the registers are reset and the status is OK.
pub fdc_cmd-read :
    (fdc : Fdc) (disk : Image) (m : Ram)
    → fdc.disk ≡ some disk
    → fdc.count ≡ 1
    → InRam m fdc.dma 512
    → fdc.lba * 512 + 512 ≤ disk.length
    → IsBytes disk.bytes
    → let (fdc1, m1) = fdc_cmd 1 fdc m in
      ((j : ℕ) → m1.bytes j ≡ copy m.bytes fdc.dma disk.bytes (fdc.lba * 512) 512 j)
      × (fdc1 ≡ fdc_init disk)
unfolding fdc_cmd transfers transfer copy fdc_init
fdc_cmd-read fdc disk m mounted one fits len ok =
    rw (mounted, one)
      (
        (λ j.
            read_sector-get 512 disk (fdc.lba * 512) fdc.dma 0 m j fits (omega arith) ok
            ∙ ground arith),
        refl,
      )

-- A write command for one sector of the image: the image then has the 512 bytes of memory at the
-- sector's place and is otherwise as it was, no longer and no shorter, and the memory is unchanged.
pub fdc_cmd-write :
    (fdc : Fdc) (disk : Image) (m : Ram)
    → fdc.disk ≡ some disk
    → fdc.count ≡ 1
    → InRam m fdc.dma 512
    → fdc.lba * 512 + 512 ≤ disk.length
    → IsBytes m.bytes
    → let (fdc1, m1) = fdc_cmd 2 fdc m in
      let written = write_sector 512 disk (fdc.lba * 512) fdc.dma 0 m in
      (fdc1 ≡ fdc_init written)
      × (written.length ≡ disk.length)
      × ((j : ℕ) → written.bytes j ≡ copy disk.bytes (fdc.lba * 512) m.bytes fdc.dma 512 j)
      × (m1 ≡ m)
unfolding fdc_cmd transfers transfer copy fdc_init
fdc_cmd-write fdc disk m mounted one fits len ok =
    rw (mounted, one)
      (
        refl,
        write_sector-length 512 disk (fdc.lba * 512) fdc.dma 0 m (omega arith),
        (λ j. write_sector-get 512 disk (fdc.lba * 512) fdc.dma 0 m j fits ok ∙ ground arith),
        refl,
      )

masked : (k x mask : ℕ) → digit k mask ≡ 0 → bit_and (bit_and x mask) (2 ^ k) ≡ 0
masked k x mask e =
    let none_left : digit k (bit_and x mask) ≡ 0 = omega (arith, digit-bit_and k x mask) in
    bit_and-power k (bit_and x mask) ∙ rw none_left (omega arith)

-- The handshake of the serial line: a character that arrives is the next one read, and reading it
-- clears the status bit that says so, and the overrun.
pub acia_read_data-receive_char :
    (m : Machine) (ch : ℕ)
    → m.old_format ≡ false
    → ch < 256
    → let (c, acia) = acia_read_data (receive_char m ch).acia in
      (c ≡ ch) × (bit_and acia.status acia_rdrf ≡ 0) × (bit_and acia.status acia_ovrn ≡ 0)
unfolding acia_read_data receive_char
acia_read_data-receive_char m ch format h =
    rw format (omega arith, masked 0 _ 222 refl, masked 5 _ 222 refl)
