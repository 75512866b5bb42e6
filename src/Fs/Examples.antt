-- ===== src/Fs/Examples.antt =====
-- A small disk, and the theorems on fs/mfs.c and fs/fd.c at work on it. Sector 10 and 12 are the
-- blocks of the file "A" of 600 bytes, and sector 11 is that of "B".
use manux.Common.{
  ltb, ◌==◌, if◌then◌else◌, Bytes, IsBytes, word, text, ℕ, zero, suc, ◌+◌, ◌-◌, ◌*◌, ◌%◌, ◌≤◌, ◌<◌,
  min, ◌≡◌, refl, ◌≢◌, Bool, true, false, ◌&&◌, some, List, [], ◌∷◌, arith,
}
use manux.Fs.Disk.{Disk}
use manux.Fs.Layout.{size_of, o_rdonly, o_wronly, o_append, seek_set}
use manux.Fs.State.{FdEntry, empty_entry, State, IsMounted}
use manux.Fs.Bitmap.{bitmap_get, is_free, alloc_from, alloc_block}
use manux.Fs.Bitmap.Laws.{Allocation, alloc_block_lem}
use manux.Fs.Names.{strncmp_eq, strncpy, has_name, search_name, find_file}
use manux.Fs.Names.Laws.{IsText, strncpy-get}
use manux.Fs.Fd.{fd_search, fd_alloc, fd_create, write_changes, is_open_file, fd_close}
use manux.Fs.Fd.Laws.{Closed, fd_close_lem, fd_count-fd_close-fd_create}
use manux.Fs.Open.{free_slot, new_entry, create_file, open_entry, mfs_open}
use manux.Fs.Open.Entry.{has_name-new_entry_long}
use manux.Fs.Open.Laws.{MadeFile, create_file_lem}
use manux.Fs.Read.{mfs_read, load_executable}
use manux.Fs.Read.Chain.{block_at, content, IsChain}
use manux.Fs.Read.Round.{IsAt}
use manux.Fs.Read.Laws.{CanRead, ReadDone, mfs_read_lem}
use manux.Fs.Read.Load.{LoadDone, load_executable_lem}
use manux.Fs.Write.{mfs_write}
use manux.Fs.Write.Blocks.{HasBlocks}
use manux.Fs.Write.Laws.{CanWrite, WriteDone, mfs_write_lem}
use manux.Fs.Seek.{seek_offset, mfs_seek}
use manux.Fs.Seek.Laws.{CanSeek, SeekDone, mfs_seek_lem}
use manux.Fs.Delete.{mfs_delete, mfs_init}
use manux.Fs.Delete.Laws.{Deleted, mfs_delete_lem, mfs_delete_hides}
use manux.Fs.Write.Append.{mfs_write-open_entry_append}
use manux.Fs.Delete.Reload.{IsFormatted, mfs_init-write_changes}
use manux.Fs.Open.Session.{mfs_read-mfs_open}
use manux.Fs.Roundtrip.{mfs_read-mfs_seek-mfs_write}

abbrev all_small : List ℕ → Bool
all_small [] = true
all_small (c ∷ cs) = ltb c 256 && all_small cs

text-IsBytes : (cs : List ℕ) → all_small cs ≡ true → IsBytes (text cs)
text-IsBytes [] h i = omega arith
text-IsBytes (c ∷ cs) h i = ground (arith, text-IsBytes cs, text-IsBytes cs (ground arith) (i - 1))

abbrev root_sector : List ℕ
root_sector = 0 ∷ 0 ∷ 0 ∷ 0xCD ∷ 0xAB ∷ 20 ∷ 0 ∷ 1 ∷ 0 ∷ 2 ∷ 0 ∷ 10 ∷ 0 ∷ 24 ∷ 0 ∷ 2 ∷ []

abbrev bitmap_bytes : List ℕ
bitmap_bytes = 0xFF ∷ 0x1F ∷ []

abbrev file_table : List ℕ
file_table =
    1 ∷ 0 ∷ 0 ∷ 65 ∷ 0 ∷ 0 ∷ 0 ∷ 0 ∷ 0 ∷ 0 ∷ 0 ∷ 0 ∷ 0 ∷ 0 ∷ 0 ∷ 88 ∷ 2 ∷ 0 ∷ 0 ∷ 10 ∷ 0 ∷ 1 ∷ 0 ∷ 0
    ∷ 66 ∷ 0 ∷ 0 ∷ 0 ∷ 0 ∷ 0 ∷ 0 ∷ 0 ∷ 0 ∷ 0 ∷ 0 ∷ 0 ∷ 3 ∷ 0 ∷ 0 ∷ 0 ∷ 11 ∷ 0 ∷ []

abbrev demo_disk : Disk
demo_disk = record {
  status = 0;
  sectors = λ b.
      if b == 10
      then text (1 ∷ 12 ∷ 0 ∷ 0 ∷ 72 ∷ 105 ∷ [])
      else if b == 11
      then text (1 ∷ 0 ∷ 0 ∷ 0 ∷ 97 ∷ 98 ∷ 99 ∷ [])
      else if b == 12
      then text (1 ∷ 0 ∷ 0 ∷ 0 ∷ 90 ∷ [])
      else text [];
}

-- Descriptor 3 is "A", open for reading and writing.
abbrev demo_entry : FdEntry
demo_entry = record {
  type = 4;
  flags = 3;
  pos = 0;
  cur_block = 10;
  prev_block = 0;
  block_offset = 0;
  file = some 0;
}

abbrev demo : State
demo = record {
  root = text root_sector;
  bitmap = text bitmap_bytes;
  files = text file_table;
  tempbuf = text [];
  disk = demo_disk;
  fd_table = λ j. if j == 3 then demo_entry else empty_entry;
  fd_count = 4;
}

demo-IsMounted : IsMounted demo
unfolding word
demo-IsMounted = record {
  root_bytes = text-IsBytes root_sector refl;
  bitmap_bytes = text-IsBytes bitmap_bytes refl;
  files_bytes = text-IsBytes file_table refl;
  data_after_tables = omega arith;
  data_in_disk = omega arith;
  bitmap_covers = omega arith;
  files_fit = omega arith;
  counted = omega arith;
}

demo-IsChain : IsChain demo_disk 20 10 600
unfolding word
demo-IsChain zero h = ((λ e. absurd (omega arith)), omega arith)
demo-IsChain (suc zero) h = ((λ e. absurd (omega arith)), omega arith)
demo-IsChain (suc (suc k)) h = absurd (omega arith)

demo-HasBlocks : HasBlocks demo_disk 20 10 2
unfolding word
demo-HasBlocks = record { valid = λ k h. demo-IsChain k (omega arith); distinct = apart }
  where
    apart : (j k : ℕ) → j < 2 → k < 2 → block_at demo_disk 10 j ≡ block_at demo_disk 10 k → j ≡ k
    apart zero zero lj lk e = refl
    apart (suc zero) (suc zero) lj lk e = refl
    apart zero (suc zero) lj lk e = absurd (omega (arith, e))
    apart (suc zero) zero lj lk e = absurd (omega (arith, e))
    apart (suc (suc j)) k lj lk e = absurd (omega arith)
    apart j (suc (suc k)) lj lk e = absurd (omega arith)

demo-finds : find_file demo (text (65 ∷ [])) ≡ some 0
unfolding find_file search_name has_name strncmp_eq
demo-finds = refl

alloc_block_example : Allocation demo (alloc_block demo)
alloc_block_example = alloc_block_lem demo demo-IsMounted

fd_close_example : Closed demo 3 (fd_close 3 demo 3)
fd_close_example = fd_close_lem 0 demo 3 (omega arith) (omega arith)

demo-create : (fd_create demo demo_entry).0 ≡ some 4
unfolding fd_create fd_alloc fd_search
demo-create = refl

fd_count_example : (fd_close 3 (fd_create demo demo_entry).1 4).1.fd_count ≡ 3
unfolding is_open_file
fd_count_example = fd_count-fd_close-fd_create demo demo_entry refl demo-create

short_name : IsText (text (67 ∷ 68 ∷ [])) 2
short_name = record {
  bytes = text-IsBytes (67 ∷ 68 ∷ []) refl;
  before = λ i h. ground arith;
  nul = refl;
}

strncpy_example : strncpy (text []) 3 (text (67 ∷ 68 ∷ [])) 11 4 ≡ 68
strncpy_example = strncpy-get (text []) 3 (text (67 ∷ 68 ∷ [])) 11 2 4 short_name

abbrev twelve : List ℕ
twelve = 65 ∷ 65 ∷ 65 ∷ 65 ∷ 65 ∷ 65 ∷ 65 ∷ 65 ∷ 65 ∷ 65 ∷ 65 ∷ 65 ∷ []

long_name : IsText (text twelve) 12
long_name = record {
  bytes = text-IsBytes twelve refl;
  before = λ i h e. absurd (ground arith);
  nul = refl;
}

has_name_long_example : has_name (new_entry demo.files 2 (text twelve) 2 13) (text twelve) 2 ≡ false
has_name_long_example =
    has_name-new_entry_long demo.files 2 (text twelve) 2 13 12 long_name (omega arith) refl

demo-creates : (create_file demo (text (67 ∷ [])) 2).0 ≡ some 2
unfolding create_file alloc_block alloc_from is_free bitmap_get free_slot word
demo-creates = refl

create_file_example : MadeFile demo 2 2 (create_file demo (text (67 ∷ [])) 2).1
create_file_example = create_file_lem demo (text (67 ∷ [])) 2 demo-IsMounted demo-creates

demo-IsAt : IsAt demo_disk 10 demo_entry
demo-IsAt = record { block = refl; offset = refl }

demo-CanRead : CanRead demo 3 0
unfolding word
demo-CanRead = record {
  in_table = omega arith;
  is_file = refl;
  points_at = refl;
  readable = refl;
  disk_ready = refl;
  small = omega arith;
  chain = demo-IsChain;
  at = demo-IsAt;
}

mfs_read_example :
    ReadDone demo 3 0 (text []) (min 520 (size_of demo.files 0 - 0)) (mfs_read demo 3 (text []) 520)
mfs_read_example = mfs_read_lem demo 3 0 (text []) 520 demo-CanRead (omega arith)

load_executable_example :
    LoadDone demo 0 0x8000 (text []) (load_executable demo (text (65 ∷ [])) 0x8000 (text []))
unfolding word
load_executable_example =
    load_executable_lem demo (text (65 ∷ [])) 0 0x8000 (text []) demo-finds (omega arith) refl
      (omega arith) (omega arith) demo-IsChain

demo-CanWrite : CanWrite demo 3 0 2 520
unfolding word
demo-CanWrite = record {
  in_table = omega arith;
  is_file = refl;
  points_at = refl;
  writable = refl;
  disk_ready = refl;
  blocks = demo-HasBlocks;
  fits = omega arith;
  small = omega arith;
  at = demo-IsAt;
  within = omega arith;
}

mfs_write_example : WriteDone demo 3 0 2 (λ i. i % 256) 520 (mfs_write demo 3 (λ i. i % 256) 520)
mfs_write_example = mfs_write_lem demo 3 0 2 (λ i. i % 256) 520 demo-CanWrite

demo-CanSeek : (target : ℕ) → target ≤ 600 → CanSeek demo 3 0 target
unfolding word
demo-CanSeek target h = record {
  in_table = omega arith;
  is_file = refl;
  points_at = refl;
  disk_ready = refl;
  within = omega arith;
  small = omega arith;
  chain = demo-IsChain;
}

mfs_seek_example : SeekDone demo 3 0 520 520 (mfs_seek 7 demo 3 520 seek_set)
unfolding seek_offset
mfs_seek_example = mfs_seek_lem 7 demo 3 0 520 seek_set (demo-CanSeek 520 (omega arith))

mfs_delete_example : Deleted demo 0 2 (mfs_delete demo (text (65 ∷ [])))
unfolding word
mfs_delete_example =
    mfs_delete_lem demo (text (65 ∷ [])) 0 2 demo-finds demo-IsMounted refl demo-HasBlocks refl
      (omega arith)

mfs_delete_hides_example :
    ((i : ℕ)
      → i < 21
      → (mfs_delete demo (text (65 ∷ []))).1.files (21 * 1 + i) ≡ demo.files (21 * 1 + i))
    × ((other : Bytes) → find_file (mfs_delete demo (text (65 ∷ []))).1 other ≢ some 1)
unfolding word
mfs_delete_hides_example =
    mfs_delete_hides demo (text (65 ∷ [])) 0 2 1 demo-finds demo-IsMounted refl demo-HasBlocks refl
      (omega arith) (omega arith) refl

roundtrip_example :
    let again =
      mfs_read
        (mfs_seek 7 (mfs_write demo 3 (λ i. i % 256) 520).1 3 0 seek_set).1
        3
        (text [])
        520 in
    (again.0 ≡ some 520) × ((i : ℕ) → i < 520 → again.2 i ≡ i % 256)
unfolding word
roundtrip_example =
    mfs_read-mfs_seek-mfs_write demo 3 0 2 (λ i. i % 256) (text []) 520 demo-CanWrite (omega arith)
      refl 7

-- Descriptor 3 is "A", opened for appending.
abbrev appending : State
appending = record demo {
  fd_table = λ j. if j == 3 then open_entry 0 demo.files 0 (o_wronly + o_append) else empty_entry;
}

append_example :
    ((appending.fd_table 3).pos ≡ 600)
    × ((mfs_write appending 3 (λ i. i) 5).0 ≡ some 5)
    × ((i : ℕ) → i < 5 → content (mfs_write appending 3 (λ i. i) 5).1.disk 10 i ≡ i)
unfolding word
append_example =
    mfs_write-open_entry_append 0 appending 3 0 (λ i. i) 5 (omega arith) refl refl
      ((λ e. absurd (omega arith)), omega arith) (omega arith) (omega arith)

demo-IsFormatted : IsFormatted demo
unfolding word
demo-IsFormatted = record {
  disk_ready = refl;
  checksum_set = refl;
  bitmap_elsewhere = λ e. absurd (omega arith);
  files_elsewhere = λ e. absurd (omega arith);
  apart = λ e. absurd (omega arith);
}

mfs_init_example :
    let (ok, loaded) = mfs_init (record appending { disk = (write_changes demo).disk }) in
    (ok ≡ true)
    × ((i : ℕ) → i < 512 → loaded.root i ≡ demo.root i)
    × ((i : ℕ) → i < 512 → loaded.bitmap i ≡ demo.bitmap i)
    × ((i : ℕ) → i < 512 → loaded.files i ≡ demo.files i)
mfs_init_example = mfs_init-write_changes demo demo-IsFormatted appending

demo-free : fd_alloc demo ≡ some 4
unfolding fd_alloc fd_search
demo-free = refl

session_example :
    let (descriptor, t) = mfs_open 0 demo (text (65 ∷ [])) o_rdonly in
    (descriptor ≡ some 4)
    × ((mfs_read t 4 (text []) 520).0 ≡ some (min 520 600))
    × ((i : ℕ) → i < min 520 600 → (mfs_read t 4 (text []) 520).2 i ≡ content demo_disk 10 i)
unfolding word
session_example =
    mfs_read-mfs_open 0 demo (text (65 ∷ [])) 0 4 (text []) 520 demo-finds demo-free refl
      (omega arith) demo-IsChain (omega arith)
