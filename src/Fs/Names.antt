-- ===== src/Fs/Names.antt =====
-- The C library's strncmp and strncpy, as fs/mfs.c uses them on file names, and the lookups of a
-- name in the file table: find_file, get_file_block, get_file_index, get_file_size, mfs_filesize.
pub mod Laws
use manux.Common.{
  ◌==◌, if◌then◌else◌, Bytes, store, copy, ℕ, zero, suc, ◌+◌, Bool, true, false, ◌||◌, Option, none,
  some,
}
use manux.Fs.Layout.{filecount, max_fname_len, name_at, size_of, block_of}
use manux.Fs.State.{State}

-- strncmp(a + i, b + j, n) == 0
unfoldable pub strncmp_eq : ℕ → Bytes → ℕ → Bytes → ℕ → Bool
strncmp_eq zero a i b j = true
strncmp_eq (suc n) a i b j =
    if a i == b j then (a i == 0) || strncmp_eq n a (i + 1) b (j + 1) else false

-- strncpy(dst + at, src, n): behind the NUL of `src` it writes zeros. The flag says that the NUL
-- has been met.
pub strncpy_from : ℕ → Bool → Bytes → ℕ → Bytes → ℕ → Bytes
strncpy_from zero ended dst at src i = dst
strncpy_from (suc n) ended dst at src i =
    let over = ended || src i == 0 in
    strncpy_from n over (store dst at (if over then 0 else src i)) (at + 1) src (i + 1)

pub strncpy : Bytes → ℕ → Bytes → ℕ → Bytes
unfolding strncpy_from
strncpy dst at src n = strncpy_from n false dst at src 0

-- Whether `files[i].name` is `fname`
unfoldable pub has_name : Bytes → Bytes → ℕ → Bool
has_name files fname i = strncmp_eq max_fname_len fname 0 files (name_at i)

-- for (uint8_t i = 0; i < fs->filecount; ++i): the rounds that are left, and `i`, which is below
-- 255 whenever it is incremented.
unfoldable pub search_name : ℕ → ℕ → Bytes → Bytes → Option ℕ
search_name zero i files fname = none
search_name (suc n) i files fname =
    let rest = search_name n (i + 1) files fname in if has_name files fname i then some i else rest

-- The index of the entry that the pointer points at, `none` for NULL.
unfoldable pub find_file : State → Bytes → Option ℕ
find_file s fname = search_name (filecount s.root) 0 s.files fname

pub get_file_block : State → Bytes → ℕ
get_file_block s fname = elim (find_file s fname) [ some i ↦ block_of s.files i | none ↦ 0 ]

unfoldable pub get_file_index : State → Bytes → ℕ
get_file_index s fname = elim (find_file s fname) [ some i ↦ i | none ↦ 0xFF ]

-- (uint16_t)-1 for a name that is not there.
pub get_file_size : State → Bytes → ℕ
get_file_size s fname = elim (find_file s fname) [ some i ↦ size_of s.files i | none ↦ 0xFFFF ]

-- -1 as the bit pattern of an `int`.
pub mfs_filesize : State → Bytes → ℕ
mfs_filesize s fname = elim (find_file s fname) [ some i ↦ size_of s.files i | none ↦ 0xFFFF ]

-- for (i = 0; i < filecount; ++i) memcpy(buf + 12 * i, files[i].name, 12)
list_from : ℕ → ℕ → Bytes → Bytes → ℕ → Bytes
list_from zero i files buf at = buf
list_from (suc n) i files buf at =
    list_from n (i + 1) files (copy buf at files (name_at i) max_fname_len) (at + max_fname_len)

-- The count, and the buffer with the names.
pub mfs_list : State → Bytes → ℕ × Bytes
unfolding list_from
mfs_list s buf = (filecount s.root, list_from (filecount s.root) 0 s.files buf 0)
