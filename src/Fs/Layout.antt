-- ===== src/Fs/Layout.antt =====
-- The structures of include/fs/mfs.h as they lie in memory (sdcc pads nothing): MFS_root, the file
-- entries and the header of a data block, each read and written at its byte offset.
use manux.Common.{Bytes, store, clear, word, store_word, ℕ, ◌+◌, ◌*◌, ◌<◌, ◌≡◌, arith}

-- Offsets in MFS_root. Bytes 0 to 2 are `jmp`.
abbrev pub checksum : Bytes → ℕ
checksum root = word root 3

abbrev pub total_sectors : Bytes → ℕ
total_sectors root = word root 5

abbrev pub bitmap_sector : Bytes → ℕ
bitmap_sector root = word root 7

abbrev pub fentry_sector : Bytes → ℕ
fentry_sector root = word root 9

abbrev pub data_start_sector : Bytes → ℕ
data_start_sector root = word root 11

abbrev pub max_files : Bytes → ℕ
max_files root = word root 13

abbrev pub filecount : Bytes → ℕ
filecount root = root 15

abbrev pub set_filecount : Bytes → ℕ → Bytes
set_filecount root n = store root 15 n

pub set_filecount_lem : (root : Bytes) (n : ℕ) → n < 256 → filecount (set_filecount root n) ≡ n
unfolding store
set_filecount_lem root n h = ground arith

-- `file files[]`: an entry is 21 bytes.
abbrev pub entry_size : ℕ
entry_size = 21

abbrev pub max_fname_len : ℕ
max_fname_len = 12

abbrev pub used : Bytes → ℕ → ℕ
used files i = files (21 * i)

abbrev pub flags_of : Bytes → ℕ → ℕ
flags_of files i = files (21 * i + 1)

-- The offset of `files[i].name`
abbrev pub name_at : ℕ → ℕ
name_at i = 21 * i + 3

abbrev pub size_of : Bytes → ℕ → ℕ
size_of files i = word files (21 * i + 15)

abbrev pub block_size_of : Bytes → ℕ → ℕ
block_size_of files i = word files (21 * i + 17)

abbrev pub block_of : Bytes → ℕ → ℕ
block_of files i = word files (21 * i + 19)

abbrev pub set_used : Bytes → ℕ → ℕ → Bytes
set_used files i v = store files (21 * i) v

abbrev pub set_flags : Bytes → ℕ → ℕ → Bytes
set_flags files i v = store files (21 * i + 1) v

abbrev pub set_size : Bytes → ℕ → ℕ → Bytes
set_size files i v = store_word files (21 * i + 15) v

abbrev pub set_block_size : Bytes → ℕ → ℕ → Bytes
set_block_size files i v = store_word files (21 * i + 17) v

abbrev pub set_block : Bytes → ℕ → ℕ → Bytes
set_block files i v = store_word files (21 * i + 19) v

-- `memset(tempfile, 0, sizeof(file))`
abbrev pub clear_entry : Bytes → ℕ → Bytes
clear_entry files i = clear files (21 * i) 21

-- data_block: the used flag, the next block (0 is the end of the file), a reserved byte, and data.
abbrev pub header_size : ℕ
header_size = 4

-- BLOCK_SIZE - 4
abbrev pub data_size : ℕ
data_size = 508

abbrev pub next_block : Bytes → ℕ
next_block block = word block 1

abbrev pub set_next_block : Bytes → ℕ → Bytes
set_next_block block n = store_word block 1 n

-- The flags of sys/fcntl.h and the values of `whence`.
abbrev pub o_rdonly : ℕ
o_rdonly = 0x00

abbrev pub o_wronly : ℕ
o_wronly = 0x01

abbrev pub o_rdwr : ℕ
o_rdwr = 0x02

abbrev pub o_accmode : ℕ
o_accmode = 0x03

abbrev pub o_append : ℕ
o_append = 0x08

abbrev pub o_creat : ℕ
o_creat = 0x200

abbrev pub o_trunc : ℕ
o_trunc = 0x400

abbrev pub seek_set : ℕ
seek_set = 1

abbrev pub seek_cur : ℕ
seek_cur = 2

abbrev pub seek_end : ℕ
seek_end = 3

-- The values that include/sys/fcntl.h and doc/syscalls.md give a program.
abbrev pub user_seek_set : ℕ
user_seek_set = 0

abbrev pub user_seek_end : ℕ
user_seek_end = 2

-- CHECKSUM
abbrev pub mfs_checksum : ℕ
mfs_checksum = 0xABCD
