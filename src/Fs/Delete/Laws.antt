-- ===== src/Fs/Delete/Laws.antt =====
-- mfs_delete frees exactly the blocks of the file.
use manux.Common.{
  ◌==◌, if◌then◌else◌, sub8, Bytes, IsBytes, word, clear-inside, clear-outside, while, while-stop,
  while-step, ℕ, zero, suc, ◌+◌, ◌*◌, ◌≤◌, ◌<◌, ◌≡◌, refl, ap, ◌∙◌, ◌≢◌, ◌⊎◌, inr, Bool, true,
  false, ◌||◌, some, arith,
}
use manux.Fs.Disk.{Disk}
use manux.Fs.Layout.{total_sectors, filecount, set_filecount_lem, block_of}
use manux.Fs.State.{State, IsMounted}
use manux.Fs.Bitmap.{is_free}
use manux.Fs.Bitmap.Laws.{bitmap_clear-IsBytes, is_free-bitmap_clear}
use manux.Fs.Names.{find_file}
use manux.Fs.Names.Laws.{find_file-lt}
use manux.Fs.Fd.{write_changes}
use manux.Fs.Read.Chain.{block_at, disk_read-get}
use manux.Fs.Write.Blocks.{HasBlocks, disk_write-get, status-disk_write}
use manux.Fs.Delete.{Deleting, delete_test, delete_round, delete_loop, after_delete, mfs_delete}

-- `b` is one of the first `k` blocks of the chain.
abbrev pub is_among : Disk → (first k b : ℕ) → Bool
is_among d first zero b = false
is_among d first (suc k) b = is_among d first k b || (b == block_at d first k)

-- The blocks of a chain are distinct, so the next one is not among those before it.
is_among-later :
    (d : Disk) (total first n k j : ℕ)
    → HasBlocks d total first n
    → j < n
    → k ≤ j
    → is_among d first k (block_at d first j) ≡ false
is_among-later d total first n zero j h lt le = refl
is_among-later d total first n (suc k) j h lt le =
    ground (arith, is_among-later d total first n k j h lt, h.distinct j k)

-- After `k` rounds the first `k` blocks are zero and free, and all others are as they were.
record Inv (d : Disk) (bm : Bytes) (first k : ℕ) (r : Deleting) : Type 0 where
  block : r.current ≡ block_at d first k
  ready : r.disk.status ≡ 0
  bytes : IsBytes r.bitmap
  free : (b : ℕ) → is_free r.bitmap b ≡ (if is_among d first k b then true else is_free bm b)
  sectors :
      (b i : ℕ) → i < 512 → r.disk.sectors b i ≡ (if is_among d first k b then 0 else d.sectors b i)

round_Inv :
    (d : Disk) (bm : Bytes) (total first n k : ℕ) (r : Deleting)
    → HasBlocks d total first n
    → k < n
    → Inv d bm first k r
    → Inv d bm first (suc k) (delete_round r)
unfolding delete_round word
round_Inv d bm total first n k r h lt v =
    let fresh = is_among-later d total first n k k h lt (omega arith) in
    record {
      block = ground (
        arith,
        disk_read-get r.disk r.temp r.current 1 v.ready,
        disk_read-get r.disk r.temp r.current 2 v.ready,
        v.sectors (block_at d first k) 1,
        v.sectors (block_at d first k) 2,
        fresh,
        v.block,
      );
      ready = status-disk_write r.disk _ r.current ∙ v.ready;
      bytes = bitmap_clear-IsBytes r.current v.bytes;
      free = λ b. ground (arith, is_free-bitmap_clear v.bytes r.current b, v.free b, v.block);
      sectors = λ b i lt. ground (
        arith,
        disk_write-get r.disk (λ _. 0) b r.current i v.ready lt,
        v.sectors b i lt,
        v.block,
      );
    }

-- The loop passes the blocks one after the other, and stops behind the last one.
delete_loop-Inv :
    (d : Disk) (bm : Bytes) (total first n : ℕ)
    → HasBlocks d total first n
    → block_at d first n ≡ 0
    → (m fuel k : ℕ) (r : Deleting) → k + m ≡ n
    → m < fuel
    → Inv d bm first k r
    → Inv d bm first n (delete_loop total fuel r)
unfolding delete_loop
delete_loop-Inv d bm total first n h end zero fuel k r e lt v =
    let last : k ≡ n = omega arith in
    let stop : delete_test total r ≡ false = stops (v.block ∙ ap (block_at d first) last ∙ end) in
    rw (while-stop (delete_test total) delete_round r fuel stop, ← last) v
  where
    stops : r.current ≡ 0 → delete_test total r ≡ false
    stops z = unfold delete_test in ground arith
delete_loop-Inv d bm total first n h end (suc m) zero k r e lt v = absurd (omega arith)
delete_loop-Inv d bm total first n h end (suc m) (suc fuel) k r e lt v =
    rw (while-step (delete_test total) delete_round r fuel goes) (
      delete_loop-Inv d bm total first n h end m fuel (suc k) (delete_round r) (omega arith)
        (omega arith) (round_Inv d bm total first n k r h (omega arith) v))
  where
    goes : delete_test total r ≡ true
    goes = unfold delete_test in ground (arith, h.valid k, v.block)

-- What mfs_delete has done to the file at index `f`, whose blocks were the `n` of its chain.
pub record Deleted (s : State) (f n : ℕ) (r : Bool × State) : Type 0 where
  pub found : r.0 ≡ true
  pub freed :
      (b : ℕ)
      → is_free r.1.bitmap b
        ≡ (if is_among s.disk (block_of s.files f) n b then true else is_free s.bitmap b)
  pub entry : (i : ℕ) → i < 21 → r.1.files (21 * f + i) ≡ 0
  pub other_entries : (i : ℕ) → i < 21 * f ⊎ 21 * f + 21 ≤ i → r.1.files i ≡ s.files i
  pub count : filecount r.1.root ≡ sub8 (filecount s.root) 1
  pub table : r.1.fd_table ≡ s.fd_table

-- Deleting a file whose `n` distinct blocks end with a next pointer of 0 frees exactly these blocks
-- in the bitmap, zeroes its entry and no other, and lowers the count of files by one.
pub mfs_delete_lem :
    (s : State) (fname : Bytes) (f n : ℕ)
    → find_file s fname ≡ some f
    → IsMounted s
    → s.disk.status ≡ 0
    → HasBlocks s.disk (total_sectors s.root) (block_of s.files f) n
    → block_at s.disk (block_of s.files f) n ≡ 0
    → n ≤ total_sectors s.root
    → Deleted s f n (mfs_delete s fname)
unfolding mfs_delete after_delete write_changes while
mfs_delete_lem s fname f n found m ready h end fits =
    let v =
      delete_loop-Inv s.disk s.bitmap (total_sectors s.root) (block_of s.files f) n h end n
        (total_sectors s.root + 1) 0
        (record {
          current = block_of s.files f;
          temp = s.tempbuf;
          bitmap = s.bitmap;
          disk = s.disk;
        })
        (omega arith) (omega arith)
        (record {
          block = refl;
          ready = ready;
          bytes = m.bitmap_bytes;
          free = λ b. refl;
          sectors = λ b i lt. refl;
        }) in
    rw (found, mfs_delete)
      (record {
        found = refl;
        freed = v.free;
        entry = λ i lt. clear-inside s.files (21 * f) 21 i lt;
        other_entries = λ i out. clear-outside s.files (21 * f) 21 i out;
        count = set_filecount_lem s.root (sub8 (filecount s.root) 1) (omega arith);
        table = refl;
      })

-- A deleted file leaves a hole in the table, and lookups stop at the number of files. So after
-- deleting any other file, the file in the last counted slot has its entry unchanged and is found
-- under no name.
pub mfs_delete_hides :
    (s : State) (fname : Bytes) (f n g : ℕ)
    → find_file s fname ≡ some f
    → IsMounted s
    → s.disk.status ≡ 0
    → HasBlocks s.disk (total_sectors s.root) (block_of s.files f) n
    → block_at s.disk (block_of s.files f) n ≡ 0
    → n ≤ total_sectors s.root
    → f < g
    → g + 1 ≡ filecount s.root
    → ((i : ℕ) → i < 21 → (mfs_delete s fname).1.files (21 * g + i) ≡ s.files (21 * g + i))
      × ((other : Bytes) → find_file (mfs_delete s fname).1 other ≢ some g)
mfs_delete_hides s fname f n g found m ready h end fits before last =
    let d = mfs_delete_lem s fname f n found m ready h end fits in
    (
      λ i lt. d.other_entries (21 * g + i) (inr (omega arith)),
      λ other e.
          omega (arith, find_file-lt (mfs_delete s fname).1 other e, d.count, m.root_bytes 15),
    )
