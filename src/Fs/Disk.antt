-- ===== src/Fs/Disk.antt =====
-- disk_read and disk_write of fs/mfs.c, each a call of the disk driver for one sector.
use manux.Common.{◌==◌, if◌then◌else◌, Bytes, copy, ℕ}

-- The device: 512 bytes for each sector, and the status that it answers a command with (0 is
-- success; a device that has no disk answers 1 and moves no data).
pub record Disk : Type 0 where
  pub sectors : ℕ → Bytes
  pub status : ℕ

abbrev pub block_size : ℕ
block_size = 512

-- The buffer after the read.
unfoldable pub disk_read : Disk → Bytes → ℕ → Bytes
disk_read d buf sector = if d.status == 0 then copy buf 0 (d.sectors sector) 0 block_size else buf

unfoldable pub disk_write : Disk → Bytes → ℕ → Disk
disk_write d buf sector =
    if d.status == 0
    then record d {
      sectors = λ s. if s == sector then copy (d.sectors s) 0 buf 0 block_size else d.sectors s;
    }
    else d
