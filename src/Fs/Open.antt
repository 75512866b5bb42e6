-- ===== src/Fs/Open.antt =====
-- mfs_open of fs/mfs.c. -1 is `none`.
pub mod Entry
pub mod Laws
pub mod Session
use manux.Common.{
  leb, ◌==◌, if◌then◌else◌, Bytes, store, clear, ℕ, zero, suc, ◌+◌, ◌-◌, bit_and, bit_or, ◌||◌,
  Option, none, some,
}
use manux.Fs.Disk.{disk_write}
use manux.Fs.Layout.{
  max_files, filecount, set_filecount, max_fname_len, used, name_at, size_of, block_of, set_used,
  set_flags, set_size, set_block_size, set_block, o_rdonly, o_wronly, o_rdwr, o_accmode, o_append,
  o_creat,
}
use manux.Fs.State.{FdEntry, type_file, flags_read, flags_write, State}
use manux.Fs.Bitmap.{alloc_block}
use manux.Fs.Names.{strncpy, find_file}
use manux.Fs.Fd.{fd_create, write_changes}

-- for (index = 0; index < fs->max_files; ++index) if (files[index].used == 0) break; with the
-- rounds that are left. `index` is a uint8_t, and `max_files` is at most 24.
unfoldable pub free_slot : ℕ → ℕ → Bytes → ℕ
free_slot zero index files = index
free_slot (suc n) index files =
    let rest = free_slot n (index + 1) files in if used files index == 0 then index else rest

-- The name, `used`, `flags`, `size`, `block_size` and `block` of a new file.
pub new_entry : Bytes → ℕ → Bytes → ℕ → ℕ → Bytes
new_entry files index fname flags block =
    let named = strncpy files (name_at index) fname (max_fname_len - 1) in
    let marked = set_used named index 1 in
    let flagged = set_flags marked index (bit_and flags (65535 - o_creat)) in
    let empty = set_size flagged index 0 in
    let unsized = set_block_size empty index 0 in set_block unsized index block

-- `memset(tempbuf, 0, 512); tempbuf[0] = 1; disk_write(tempbuf, block, 1);`
pub blank_block : State → ℕ → State
blank_block s block =
    let blank = store (clear s.tempbuf 0 512) 0 1 in
    record s { tempbuf = blank; disk = disk_write s.disk blank block }

-- The statements behind the search for a slot: the entry and its first block are written, and the
-- caches saved.
pub add_file : State → Bytes → (flags index block : ℕ) → State
unfolding new_entry blank_block
add_file s fname flags index block =
    let named = record s { files = new_entry s.files index fname flags block } in
    let blank = blank_block named block in
    write_changes (record blank { root = set_filecount blank.root (filecount blank.root + 1) })

-- The branch for a file that does not exist: its index, or `none` for -1. The block that
-- alloc_block has marked stays marked when the slots run out.
unfoldable pub create_file : State → Bytes → ℕ → Option ℕ × State
create_file s fname flags =
    let (block, s1) = alloc_block s in
    let index = free_slot (max_files s1.root) 0 s1.files in
    if (block == 0) || leb (max_files s1.root) (filecount s1.root)
    then (none, s1)
    else if index == max_files s1.root
    then (none, s1)
    else (some index, add_file s1 fname flags index block)

-- The descriptor. `junk` is what `entry.pos` holds before it is set; the access mode 3 leaves it.
unfoldable pub open_entry : (junk : ℕ) → Bytes → ℕ → ℕ → FdEntry
open_entry junk files i flags =
    let acc = bit_and flags o_accmode in
    let start = if bit_and flags o_append == 0 then 0 else size_of files i in
    record {
      type = type_file;
      flags =
          if acc == o_rdonly
          then flags_read
          else if acc == o_wronly
          then flags_write
          else if acc == o_rdwr
          then bit_or flags_read flags_write
          else 0;
      pos =
          if acc == o_rdonly
          then 0
          else if acc == o_wronly
          then start
          else if acc == o_rdwr
          then start
          else junk;
      cur_block = block_of files i;
      prev_block = 0;
      block_offset = 0;
      file = some i;
    }

-- The end of mfs_open, for the file at index `i`.
pub open_file : (junk : ℕ) → State → ℕ → ℕ → Option ℕ × State
open_file junk s i flags = fd_create s (open_entry junk s.files i flags)

open_created : (junk : ℕ) → Option ℕ × State → ℕ → Option ℕ × State
open_created junk (none, s) flags = (none, s)
open_created junk (some i, s) flags = open_file junk s i flags

unfoldable pub mfs_open : (junk : ℕ) → State → Bytes → ℕ → Option ℕ × State
unfolding open_created
mfs_open junk s fname flags = elim (find_file s fname) [
  | some i ↦ open_file junk s i flags
  | none ↦
      if bit_and flags o_creat == 0
      then (none, s)
      else open_created junk (create_file s fname flags) flags
]
