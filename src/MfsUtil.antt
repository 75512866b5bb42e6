-- ===== src/MfsUtil.antt =====
-- mfs-util.c, the tool of the host that prepares disk images: its format of an image, and how it
-- reads a file. bitmap_set, disk_read and disk_write are the functions of fs/mfs.c, on an image
-- file in place of the device, and the loop of load_to_memory is the one of load_executable at the
-- address 0, where no pointer wraps as long as the file fits fs_program_buf.
pub mod Wipe
pub mod Load
pub mod Format
pub mod Tests
use manux.Common.{
  Option, none, some, ◌==◌, if◌then◌else◌, copy, Bytes, store, store_word, clear, ℕ, zero, suc, ◌+◌,
  ◌-◌,
}
use manux.Fs.Disk.{Disk, disk_write}
use manux.Fs.Layout.{mfs_checksum, set_filecount, size_of, block_of}
use manux.Fs.Names.{search_name}
use manux.Fs.Read.{Loading, load_loop}
use manux.Fs.Bitmap.{bitmap_set}

-- fs_emulation_buf, one part for each pointer into it, the image, fs_program_buf, and current_file
-- as the index of the entry it points at
pub record Util : Type 0 where
  pub tempbuf : Bytes
  pub root : Bytes
  pub bitmap : Bytes
  pub files : Bytes
  pub disk : Disk
  pub program : Bytes
  pub current_file : Option ℕ

-- FS_MAX_SECTORS
abbrev pub fs_max_sectors : ℕ
fs_max_sectors = 2877

-- FS_BLOCK_SECTOR
abbrev pub fs_block_sector : ℕ
fs_block_sector = 3

-- The root: the checksum, the sectors of the disk, of the bitmap and of the file entries, the first
-- data block, the number of entries, and no file.
unfoldable pub format_root : Bytes → Bytes
format_root root =
    let magic = store_word (clear root 0 512) 3 mfs_checksum in
    let total = store_word magic 5 fs_max_sectors in
    let bitmap = store_word total 7 1 in
    let fentry = store_word bitmap 9 2 in
    let data_start = store_word fentry 11 3 in
    let files = store_word data_start 13 24 in set_filecount files 0

-- The root, the bitmap and the file entries are marked used.
unfoldable pub format_bitmap : Bytes → Bytes
format_bitmap bm = bitmap_set (bitmap_set (bitmap_set (clear bm 0 512) 0) 1) 2

-- `for (i = ...; i < FS_MAX_SECTORS; i++)`, with the rounds that are left
unfoldable pub wipe : (rounds i : ℕ) → Bytes → Disk → Disk
wipe zero i buf d = d
wipe (suc n) i buf d = wipe n (i + 1) buf (disk_write d buf i)

unfoldable pub mfs_format : Util → Util
mfs_format u =
    let root = format_root u.root in
    let bitmap = format_bitmap u.bitmap in
    let files = clear u.files 0 512 in
    let tables = disk_write (disk_write (disk_write u.disk root 0) bitmap 1) files 2 in
    let blank = clear u.tempbuf 0 512 in
    record {
      tempbuf = blank;
      root = root;
      bitmap = bitmap;
      files = files;
      disk = wipe (fs_max_sectors - fs_block_sector) fs_block_sector blank tables;
      program = u.program;
      current_file = u.current_file;
    }

-- get_file_index: the loop goes over all MAX_FILES entries.
unfoldable pub table_index : Util → Bytes → ℕ
table_index u fname = elim (search_name 24 0 u.files fname) [ some i ↦ i | none ↦ 0xFF ]

-- The code, and the tool with the file in `fs_program_buf`
unfoldable pub load_to_memory : Util → Bytes → ℕ × Util
load_to_memory u fname =
    let i = table_index u fname in
    let size = size_of u.files i in
    let start : Loading = record {
      remaining = size;
      sector = block_of u.files i;
      offset = 0;
      temp = u.tempbuf;
      mem = u.program;
    } in
    let done = load_loop u.disk fs_max_sectors 0 (size + 1) start in
    if i == 0xFF then (1, u) else (0, record u { tempbuf = done.temp; program = done.mem })

-- mfs_read: the code, and the buffer
unfoldable pub read_program : Util → Bytes → ℕ → ℕ × Bytes
read_program u buf count = elim u.current_file [
  | none ↦ (1, buf)
  | some i ↦ (0, copy buf 0 u.program 0 count)
]
