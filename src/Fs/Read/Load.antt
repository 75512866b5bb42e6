-- ===== src/Fs/Read/Load.antt =====
-- load_executable puts the bytes of the file at the address, in order.
use manux.Common.{
  ltb, if◌then◌else◌, not, ◌&&◌, add16, is_negative, copy_wrapped-inside, ne→==, Bytes, copy,
  while-Inv, ℕ, ◌+◌, ◌-◌, ◌/◌, ◌%◌, ◌≤◌, ◌<◌, min, ◌≡◌, refl, sym, ap, ◌∙◌, ◌≢◌, ◌⊎◌, Bool, true,
  false, some, arith,
}
use manux.Fs.Disk.{Disk, disk_read}
use manux.Fs.Layout.{total_sectors, size_of, block_of}
use manux.Fs.State.{State}
use manux.Fs.Names.{find_file}
use manux.Fs.Names.Laws.{get_file_index-some}
use manux.Fs.Read.{Loading, load_test, load_round, load_loop, load_executable}
use manux.Fs.Read.Chain.{
  block_at, content, IsChain, disk_read-get, disk_read-next, content-add, block_at-next,
}

-- After some rounds `offset` bytes of `size` are in memory, and the next block is theirs.
record Inv (d : Disk) (first size addr : ℕ) (mem : Bytes) (r : Loading) : Type 0 where
  progress : r.offset + r.remaining ≡ size
  block : r.remaining ≢ 0 → r.offset % 508 ≡ 0
  sector : r.remaining ≢ 0 → r.sector ≡ block_at d first (r.offset / 508)
  loaded : (i : ℕ) → i < r.offset → r.mem (addr + i) ≡ content d first i
  kept : (i : ℕ) → i < addr ⊎ addr + r.offset ≤ i → r.mem i ≡ mem i

module _ (d : Disk) (total first size addr : ℕ) (mem : Bytes) (ready : d.status ≡ 0)
    (positive : size < 32768) (fits : addr + size ≤ 65536) (r : Loading)
    (v : Inv d first size addr mem r) (t : load_test total r ≡ true) where
  left : 0 < r.remaining
  unfolding load_test
  left = ground arith

  aligned : r.offset % 508 ≡ 0
  aligned = v.block (omega (arith, left))

  -- The amount of a round: a whole block, or what is left.
  amount : (load_round d addr r).remaining ≡ r.remaining - min 508 r.remaining
  unfolding load_round
  amount = ground (arith, v.progress)

  offset-round : (load_round d addr r).offset ≡ r.offset + min 508 r.remaining
  unfolding load_round
  offset-round = ground (arith, v.progress)

  -- The round copies into place: the pointer does not wrap.
  mem-round :
      (j : ℕ)
      → (load_round d addr r).mem j
        ≡ copy r.mem (addr + r.offset) (disk_read d r.temp r.sector) 4 (min 508 r.remaining) j
  unfolding load_round
  mem-round j =
      let some_left = left in
      let place : add16 addr r.offset ≡ addr + r.offset = omega (arith, v.progress, left) in
      let whole : (if not (is_negative r.remaining) && ltb 508 r.remaining
            then 508
            else r.remaining)
          ≡ min 508 r.remaining =
        ground (arith, v.progress) in
      rw (place, whole)
        (copy_wrapped-inside r.mem (addr + r.offset) (disk_read d r.temp r.sector) 4
          (min 508 r.remaining) j (omega (arith, v.progress, left)) (omega (arith, v.progress)))

  loaded-round :
      (i : ℕ)
      → i < r.offset + min 508 r.remaining
      → (load_round d addr r).mem (addr + i) ≡ content d first i
  unfolding copy
  loaded-round i h =
      let k : ℕ = i - r.offset in
      mem-round (addr + i)
      ∙ ground (
        arith,
        left,
        v.progress,
        v.block,
        v.sector,
        v.loaded i,
        disk_read-get d r.temp r.sector (4 + k) ready,
        content-add d first r.offset k,
      )

  sector-round :
      r.remaining - min 508 r.remaining ≢ 0
      → (load_round d addr r).sector ≡ block_at d first ((r.offset + min 508 r.remaining) / 508)
  unfolding load_round
  sector-round ne =
      disk_read-next d r.temp r.sector ready
      ∙ rw (v.sector (omega arith))
          (sym (block_at-next d first r.offset (min 508 r.remaining) (omega (arith, aligned))))

  kept-round :
      (i : ℕ)
      → i < addr ⊎ addr + (r.offset + min 508 r.remaining) ≤ i
      → (load_round d addr r).mem i ≡ mem i
  unfolding copy
  kept-round i h = mem-round i ∙ ground (arith, left, v.progress, v.kept i)

  round_Inv :
      Inv d first size addr mem (load_round d addr r)
      × ((load_round d addr r).remaining < r.remaining)
  round_Inv = (
    record {
      progress = omega (arith, amount, offset-round, v.progress);
      block = λ ne. omega (arith, amount, offset-round, aligned, left);
      sector = λ ne.
          sector-round (rw amount at ne) ∙ ap (λ k. block_at d first (k / 508)) (sym offset-round);
      loaded = λ i h. loaded-round i (omega (arith, offset-round));
      kept = λ i h. kept-round i (rw offset-round at h);
    },
    omega (arith, amount, left),
  )

-- The loop ends because nothing is left: no block of the file is missing.
loaded_all :
    {d : Disk} {total first size addr : ℕ} {mem : Bytes} {r : Loading}
    → Inv d first size addr mem r
    → load_test total r ≡ false
    → IsChain d total first size
    → r.offset ≡ size
unfolding load_test
loaded_all {r} v stop chain = ground (arith, v.progress, v.block, v.sector, chain (r.offset / 508))

-- The variables before the first round
abbrev pub load_start : (size first : ℕ) → (temp mem : Bytes) → Loading
load_start size first temp mem = record {
  remaining = size;
  sector = first;
  offset = 0;
  temp = temp;
  mem = mem;
}

-- The loop puts the whole file into memory, and nothing else.
pub load_loop_lem :
    (d : Disk) (total first size addr : ℕ) (temp mem : Bytes)
    → d.status ≡ 0
    → size < 32768
    → addr + size ≤ 65536
    → IsChain d total first size
    → ((i : ℕ)
        → i < size
        → (load_loop d total addr (size + 1) (load_start size first temp mem)).mem (addr + i)
          ≡ content d first i)
      × ((i : ℕ)
          → i < addr ⊎ addr + size ≤ i
          → (load_loop d total addr (size + 1) (load_start size first temp mem)).mem i ≡ mem i)
unfolding load_loop
load_loop_lem d total first size addr temp mem ready positive fits chain =
    let (v, stop) =
      while-Inv (Inv d first size addr mem) (λ r. r.remaining) (load_test total) (load_round d addr)
        (round_Inv d total first size addr mem ready positive fits) (size + 1)
        (load_start size first temp mem) (omega arith)
        (record {
          progress = omega arith;
          block = λ ne. refl;
          sector = λ ne. refl;
          loaded = λ i h. absurd (omega arith);
          kept = λ i h. refl;
        }) in
    let all = loaded_all v stop chain in
    ((λ i h. v.loaded i (omega (arith, all))), (λ i h. v.kept i (rw all h)))

-- The outcome of loading a file of `size` bytes.
pub record LoadDone (s : State) (f addr : ℕ) (mem : Bytes) (r : Bool × State × Bytes) : Type 0 where
  pub found : r.0 ≡ true
  pub bytes :
      (i : ℕ) → i < size_of s.files f → r.2 (addr + i) ≡ content s.disk (block_of s.files f) i
  pub outside : (i : ℕ) → i < addr ⊎ addr + size_of s.files f ≤ i → r.2 i ≡ mem i
  pub unchanged :
      (r.1.disk ≡ s.disk)
      × (r.1.files ≡ s.files)
      × (r.1.bitmap ≡ s.bitmap)
      × (r.1.root ≡ s.root)
      × (r.1.fd_count ≡ s.fd_count)

-- An executable of fewer than 32768 bytes whose blocks lie on the disk, at an address from which it
-- ends at the top of memory or below, is loaded whole: the memory
-- from the address on holds its bytes in order, and nothing outside them is written.
pub load_executable_lem :
    (s : State) (fname : Bytes) (f addr : ℕ) (mem : Bytes)
    → find_file s fname ≡ some f
    → f < 255
    → s.disk.status ≡ 0
    → size_of s.files f < 32768
    → addr + size_of s.files f ≤ 65536
    → IsChain s.disk (total_sectors s.root) (block_of s.files f) (size_of s.files f)
    → LoadDone s f addr mem (load_executable s fname addr mem)
unfolding load_executable
load_executable_lem s fname f addr mem found small ready positive fits chain =
    let (bytes, outside) =
      load_loop_lem s.disk (total_sectors s.root) (block_of s.files f) (size_of s.files f) addr
        s.tempbuf mem ready positive fits chain in
    rw (get_file_index-some s fname found, ne→== f 0xFF (omega arith))
      (record {
        found = refl;
        bytes = bytes;
        outside = outside;
        unchanged = (refl, refl, refl, refl, refl);
      })
