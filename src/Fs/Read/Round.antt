-- ===== src/Fs/Read/Round.antt =====
-- The loop of mfs_read.
use manux.Common.{
  ltb, leb, Bool-cases, ltb→lt, ltb→ge, add16, Bytes, copy, while-Inv, ℕ, ◌+◌, ◌-◌, ◌/◌, ◌%◌, ◌≤◌,
  ◌<◌, min, ◌≡◌, refl, sym, ◌∙◌, ◌⊎◌, inl, inr, true, false, arith,
}
use manux.Fs.Disk.{Disk}
use manux.Fs.State.{FdEntry}
use manux.Fs.Read.{Reading, read_test, read_amount, read_round, read_loop}
use manux.Fs.Read.Chain.{
  block_at, content, IsChain, disk_read-get, disk_read-next, content-add, block_at-next,
  block_at-same,
}

-- A descriptor stands at its position: the block and the offset in it are those of `pos`.
pub record IsAt (d : Disk) (first : ℕ) (e : FdEntry) : Type 0 where
  pub block : e.cur_block ≡ block_at d first (e.pos / 508)
  pub offset : e.block_offset ≡ e.pos % 508

-- Bounds of one round's amount
record Amount (size : ℕ) (r : Reading) (n : ℕ) : Type 0 where
  some_byte : 0 < n
  le_remaining : n ≤ r.remaining
  in_block : r.entry.block_offset + n ≤ 508
  in_file : r.entry.pos + n ≤ size

read_amount-Amount :
    (total size : ℕ) (r : Reading)
    → size < 65536
    → r.entry.block_offset < 508
    → read_test total size r ≡ true
    → Amount size r (read_amount size r)
unfolding read_test read_amount
read_amount-Amount total size r hs ho t = ground arith

module _ (d : Disk) (first size : ℕ) (r : Reading) (ready : d.status ≡ 0) (hs : size < 65536)
    (a : Amount size r (read_amount size r)) (at : IsAt d first r.entry) where
  pos-read_round : (read_round d size r).entry.pos ≡ r.entry.pos + read_amount size r
  unfolding read_round
  pos-read_round = omega arith

  round_block :
      (read_round d size r).entry.cur_block
      ≡ block_at d first ((r.entry.pos + read_amount size r) / 508)
  unfolding read_round
  round_block = elim (Bool-cases (leb 508 (add16 r.entry.block_offset (read_amount size r)))) [
    | inl end ↦ rw end (
        disk_read-next d r.temp r.entry.cur_block ready
        ∙ rw at.block (
            sym
              (block_at-next d first r.entry.pos (read_amount size r) (ground (arith, at.offset)))))
    | inr more ↦ rw more (
        at.block
        ∙ sym (block_at-same d first r.entry.pos (read_amount size r) (ground (arith, at.offset))))
  ]

  round_offset : (read_round d size r).entry.block_offset ≡ (r.entry.pos + read_amount size r) % 508
  unfolding read_round
  round_offset = ground (arith, at.offset)

  round-IsAt : IsAt d first (read_round d size r).entry
  round-IsAt = record {
    block = rw pos-read_round round_block;
    offset = rw pos-read_round round_offset;
  }

  -- The bytes that the round copies are those of the file.
  round_copied :
      (i : ℕ)
      → i < read_amount size r
      → (read_round d size r).buf (r.written + i) ≡ content d first (r.entry.pos + i)
  unfolding read_round copy
  round_copied i h = ground (
    arith,
    disk_read-get d r.temp r.entry.cur_block (4 + r.entry.block_offset + i) ready,
    content-add d first r.entry.pos i,
    at.block,
    at.offset,
  )

  round_kept :
      (i : ℕ)
      → r.written + read_amount size r ≤ i ⊎ i < r.written
      → (read_round d size r).buf i ≡ r.buf i
  unfolding read_round copy
  round_kept i h = ground arith

  round_same :
      ((read_round d size r).entry.type ≡ r.entry.type)
      × ((read_round d size r).entry.flags ≡ r.entry.flags)
      × ((read_round d size r).entry.prev_block ≡ r.entry.prev_block)
      × ((read_round d size r).entry.file ≡ r.entry.file)
  unfolding read_round
  round_same = (refl, refl, refl, refl)

-- What the loop has done when it has copied `written` bytes, started from `e` and `buf`.
pub record Inv (d : Disk) (first size : ℕ) (e : FdEntry) (buf : Bytes) (count : ℕ) (r : Reading)
    : Type 0 where
  pub progress : r.written + r.remaining ≡ count
  pub position : r.entry.pos ≡ e.pos + r.written
  pub in_file : r.entry.pos ≤ size
  pub at : IsAt d first r.entry
  pub copied : (i : ℕ) → i < r.written → r.buf i ≡ content d first (e.pos + i)
  pub kept : (i : ℕ) → r.written ≤ i → r.buf i ≡ buf i
  pub same :
      (r.entry.type ≡ e.type)
      × (r.entry.flags ≡ e.flags)
      × (r.entry.prev_block ≡ e.prev_block)
      × (r.entry.file ≡ e.file)

module _ (d : Disk) (total first size : ℕ) (e : FdEntry) (buf : Bytes) (count : ℕ)
    (ready : d.status ≡ 0) (hs : size < 65536) (hc : count < 65536) where
  round_Inv :
      (r : Reading)
      → Inv d first size e buf count r
      → read_test total size r ≡ true
      → Inv d first size e buf count (read_round d size r)
        × ((read_round d size r).remaining < r.remaining)
  unfolding read_round
  round_Inv r v t =
      let a = read_amount-Amount total size r hs (omega (arith, v.at.offset)) t in
      let n : ℕ = read_amount size r in
      (
        record {
          progress = omega (arith, v.progress, a.le_remaining);
          position = omega (arith, v.position, a.in_file);
          in_file = omega (arith, a.in_file);
          at = round-IsAt d first size r ready hs a v.at;
          copied = λ i h. elim (Bool-cases (ltb i r.written)) [
            | inl old ↦
                round_kept d first size r ready hs a v.at i (inr (ltb→lt _ _ old))
                ∙ v.copied i (ltb→lt _ _ old)
            | inr new ↦ ground (
              arith,
              round_copied d first size r ready hs a v.at (i - r.written),
              ltb→ge _ _ new,
              v.position,
            )
          ];
          kept = λ i h.
              round_kept d first size r ready hs a v.at i
                (inl (omega (arith, v.progress, a.le_remaining)))
              ∙ v.kept i (omega (arith, v.progress, a.le_remaining));
          same = v.same;
        },
        omega (arith, a.some_byte, a.le_remaining, v.progress),
      )

-- At the end of the loop the bytes that were asked for have been copied, or the file is at its end.
pub read_loop-Inv :
    (d : Disk) (total first size : ℕ) (e : FdEntry) (buf temp : Bytes) (count : ℕ)
    → d.status ≡ 0
    → size < 65536
    → count < 65536
    → IsChain d total first size
    → IsAt d first e
    → e.pos ≤ size
    → let start : Reading = record {
      entry = e;
      temp = temp;
      buf = buf;
      written = 0;
      remaining = count;
    } in
      let done = read_loop d total size (count + 1) start in
      Inv d first size e buf count done × (done.written ≡ min count (size - e.pos))
unfolding read_loop
read_loop-Inv d total first size e buf temp count ready hs hc chain at le =
    let start : Reading = record {
      entry = e;
      temp = temp;
      buf = buf;
      written = 0;
      remaining = count;
    } in
    let (v, stop) =
      while-Inv (Inv d first size e buf count) (λ r. r.remaining) (read_test total size)
        (read_round d size) (round_Inv d total first size e buf count ready hs hc) (count + 1) start
        (omega arith)
        (record {
          progress = omega arith;
          position = omega arith;
          in_file = le;
          at = at;
          copied = λ i h. absurd (omega arith);
          kept = λ i h. refl;
          same = (refl, refl, refl, refl);
        }) in
    (v, stopped v stop)
  where
    stopped :
        {r : Reading}
        → Inv d first size e buf count r
        → read_test total size r ≡ false
        → r.written ≡ min count (size - e.pos)
    stopped {r} v stop =
        unfold read_test in
        ground (arith, chain (r.entry.pos / 508), v.progress, v.position, v.in_file, v.at.block)
