-- ===== src/Fs/State.antt =====
-- The kernel's file system state: the cached sectors of fs/mfs.c and the table of fs/fd.c.
use manux.Common.{◌==◌, if◌then◌else◌, Bytes, IsBytes, ℕ, ◌≤◌, ◌<◌, Option, none}
use manux.Fs.Disk.{Disk}
use manux.Fs.Layout.{total_sectors, data_start_sector, max_files, filecount}

-- fd_entry. `file` is the index of the entry that the pointer points at, `none` for NULL.
pub record FdEntry : Type 0 where
  pub type : ℕ
  pub flags : ℕ
  pub pos : ℕ
  pub cur_block : ℕ
  pub prev_block : ℕ
  pub block_offset : ℕ
  pub file : Option ℕ

abbrev pub fd_max : ℕ
fd_max = 8

abbrev pub type_none : ℕ
type_none = 0

abbrev pub type_stdin : ℕ
type_stdin = 1

abbrev pub type_stdout : ℕ
type_stdout = 2

abbrev pub type_stderr : ℕ
type_stderr = 3

abbrev pub type_file : ℕ
type_file = 4

abbrev pub flags_read : ℕ
flags_read = 1

abbrev pub flags_write : ℕ
flags_write = 2

-- A zeroed entry
abbrev pub empty_entry : FdEntry
empty_entry = record {
  type = 0;
  flags = 0;
  pos = 0;
  cur_block = 0;
  prev_block = 0;
  block_offset = 0;
  file = none;
}

-- The caches at FS_ROOT_MADDR, FS_BITMAP_ADDR, FS_FENTRY_ADDR and FS_BUF, the disk, and the table
-- of open files with its count (an `int`, as a bit pattern).
pub record State : Type 0 where
  pub root : Bytes
  pub bitmap : Bytes
  pub files : Bytes
  pub tempbuf : Bytes
  pub disk : Disk
  pub fd_table : ℕ → FdEntry
  pub fd_count : ℕ

abbrev pub set_fd : (ℕ → FdEntry) → ℕ → FdEntry → ℕ → FdEntry
set_fd table fd e j = if j == fd then e else table j

-- What mfs-util's format and every operation keep: the geometry fits the one-sector caches.
pub record IsMounted (s : State) : Type 0 where
  pub root_bytes : IsBytes s.root
  pub bitmap_bytes : IsBytes s.bitmap
  pub files_bytes : IsBytes s.files
  pub data_after_tables : 0 < data_start_sector s.root
  pub data_in_disk : data_start_sector s.root ≤ total_sectors s.root
  pub bitmap_covers : total_sectors s.root ≤ 4096
  pub files_fit : max_files s.root ≤ 24
  pub counted : filecount s.root ≤ max_files s.root
