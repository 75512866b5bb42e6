-- ===== src/Fs/Write/Round.antt =====
-- One round of the loop of mfs_write inside the blocks that a file has.
use Prim.Native.Nat.{max}
use manux.Common.{
  ltb, leb, ◌==◌, if◌then◌else◌, Bool-cases, ltb→lt, ltb→ge, leb→le, ==→eq, ==→ne, eq→==, ne→==,
  leb→gt, Bytes, copy, word, word-store_word, word-store_word_ne, ℕ, ◌+◌, ◌-◌, ◌*◌, ◌/◌, ◌%◌, ◌≤◌,
  ◌<◌, ◌≡◌, refl, sym, ap, ◌∙◌, inl, inr, true, false, ◌&&◌, ◌||◌, arith,
}
use manux.Fs.Disk.{disk_read}
use manux.Fs.Layout.{total_sectors, size_of, block_of, set_size, next_block}
use manux.Fs.State.{FdEntry, State}
use manux.Fs.Read.Chain.{block_at, content, disk_read-get, block_at-next, block_at-same}
use manux.Fs.Read.Round.{IsAt}
use manux.Fs.Write.{Writing, write_block, needs_block, write_round, write_test}
use manux.Fs.Write.Blocks.{HasBlocks, status-disk_write, write_amount, write_block-get}

-- What the loop has done when it has written `written` bytes into the `n` blocks of the file.
pub record Overwritten (s : State) (f : ℕ) (e : FdEntry) (n : ℕ) (buf : Bytes) (count : ℕ)
    (w : Writing) : Type 0 where
  pub going : w.failed ≡ false
  pub progress : w.written + w.remaining ≡ count
  pub position : w.entry.pos ≡ e.pos + w.written
  pub at : IsAt s.disk (block_of s.files f) w.entry
  pub ready : w.st.disk.status ≡ 0
  pub headers : (b i : ℕ) → i < 4 → w.st.disk.sectors b i ≡ s.disk.sectors b i
  pub bytes :
      (p : ℕ)
      → p < 508 * n
      → w.st.disk.sectors (block_at s.disk (block_of s.files f) (p / 508)) (4 + p % 508) ≡ (
          if leb e.pos p && ltb p (e.pos + w.written)
          then buf (p - e.pos)
          else content s.disk (block_of s.files f) p)
  pub size : size_of w.st.files f ≡ max (size_of s.files f) (e.pos + w.written)
  pub first : block_of w.st.files f ≡ block_of s.files f
  pub same :
      (w.st.root ≡ s.root)
      × (w.st.bitmap ≡ s.bitmap)
      × (w.st.fd_table ≡ s.fd_table)
      × (w.st.fd_count ≡ s.fd_count)
      × (w.entry.file ≡ e.file)
      × (w.entry.type ≡ e.type)
      × (w.entry.flags ≡ e.flags)

module _ (s : State) (f : ℕ) (e : FdEntry) (n : ℕ) (buf : Bytes) (count : ℕ)
    (blocks : HasBlocks s.disk (total_sectors s.root) (block_of s.files f) n)
    (fits : e.pos + count ≤ 508 * n) (small : 508 * n < 65536) (w : Writing)
    (v : Overwritten s f e n buf count w) (t : write_test w ≡ true) where
  left : 0 < w.remaining
  unfolding write_test
  left = ground arith

  amount_bounds :
      (0 < write_amount w)
      × (write_amount w ≤ w.remaining)
      × (w.entry.block_offset + write_amount w ≤ 508)
  unfolding write_amount
  amount_bounds = ground (arith, left, v.at.offset)

  -- The position lies in a block that the file has, so none is taken.
  in_chain : needs_block w ≡ false
  unfolding needs_block
  in_chain = ground (
    arith,
    left,
    blocks.valid (w.entry.pos / 508) (omega (arith, left, v.position, v.progress, fits)),
    v.at.block,
    v.same,
  )

  -- Of the file's blocks only that of the position is the current one.
  same_block :
      (p : ℕ)
      → p < 508 * n
      → (block_at s.disk (block_of s.files f) (p / 508) == w.entry.cur_block)
        ≡ (p / 508 == w.entry.pos / 508)
  same_block p h = elim (Bool-cases (p / 508 == w.entry.pos / 508)) [
    | inl e ↦
        rw e (eq→== _ _ (ap (block_at s.disk (block_of s.files f)) (==→eq _ _ e) ∙ sym v.at.block))
    | inr e ↦ rw e (
        ne→== _ _ λ q. ==→ne _ _ e (
          blocks.distinct (p / 508) (w.entry.pos / 508) (omega arith)
            (omega (arith, left, v.position, v.progress, fits)) (q ∙ v.at.block)))
  ]

  -- The positions that the round writes, in terms of the block and the offset in it.
  window :
      (p : ℕ)
      → ((p / 508 == w.entry.pos / 508)
          && (leb (4 + w.entry.block_offset) (4 + p % 508)
              && ltb (4 + p % 508) (4 + w.entry.block_offset + write_amount w)))
        ≡ (leb w.entry.pos p && ltb p (w.entry.pos + write_amount w))
  window p = ground (arith, v.at.offset, amount_bounds)

  window_later :
      (p : ℕ)
      → (leb e.pos p && ltb p (e.pos + (w.written + write_amount w))) ≡ (
          (leb w.entry.pos p && ltb p (w.entry.pos + write_amount w))
          || (leb e.pos p && ltb p (e.pos + w.written)))
  window_later p = ground (arith, v.position)

  source_index :
      (p : ℕ)
      → (leb w.entry.pos p && ltb p (w.entry.pos + write_amount w)) ≡ true
      → w.written + (4 + p % 508 - (4 + w.entry.block_offset)) ≡ p - e.pos
  source_index p q = ground (arith, v.position, v.at.offset, amount_bounds)

  bytes_round :
      (p : ℕ)
      → p < 508 * n
      → (write_block f buf w).st.disk.sectors
          (block_at s.disk (block_of s.files f) (p / 508))
          (4 + p % 508)
        ≡ (if leb e.pos p && ltb p (e.pos + (w.written + write_amount w))
            then buf (p - e.pos)
            else content s.disk (block_of s.files f) p)
  bytes_round p h =
      write_block-get f buf w _ (4 + p % 508) v.ready (omega (arith, v.at.offset)) (omega arith)
      ∙ rw (same_block p h, window p, window_later p)
          (elim (Bool-cases (leb w.entry.pos p && ltb p (w.entry.pos + write_amount w))) [
            | inl now ↦ rw now (ap buf (source_index p now))
            | inr before ↦ rw before (v.bytes p h)
          ])

  written_round :
      ((write_block f buf w).written ≡ w.written + write_amount w)
      × ((write_block f buf w).remaining ≡ w.remaining - write_amount w)
      × ((write_block f buf w).entry.pos ≡ w.entry.pos + write_amount w)
  unfolding write_block write_amount
  written_round =
      ground (arith, left, amount_bounds, v.progress, v.position, fits, small, v.at.offset)

  -- The header of the block that is written stays, so its successor does.
  next_filled :
      next_block (
        copy
          (disk_read w.st.disk w.st.tempbuf w.entry.cur_block)
          (4 + w.entry.block_offset)
          buf
          w.written
          (write_amount w))
      ≡ next_block (s.disk.sectors w.entry.cur_block)
  unfolding word copy
  next_filled = ground (
    arith,
    disk_read-get w.st.disk w.st.tempbuf w.entry.cur_block 1 v.ready,
    disk_read-get w.st.disk w.st.tempbuf w.entry.cur_block 2 v.ready,
    v.headers w.entry.cur_block 1,
    v.headers w.entry.cur_block 2,
  )

  block_round : (write_block f buf w).entry.cur_block ≡ (
      if leb 508 (w.entry.block_offset + write_amount w)
      then next_block (s.disk.sectors w.entry.cur_block)
      else w.entry.cur_block)
  unfolding write_block write_amount
  block_round = ground (arith, next_filled, v.at.offset, left)

  offset_round : (write_block f buf w).entry.block_offset ≡ (w.entry.pos + write_amount w) % 508
  unfolding write_block write_amount
  offset_round = ground (arith, v.at.offset, left)

  IsAt-round : IsAt s.disk (block_of s.files f) (write_block f buf w).entry
  unfolding write_amount
  IsAt-round = record {
    block = block_round ∙ elim (Bool-cases (leb 508 (w.entry.block_offset + write_amount w))) [
      | inl end ↦
          rw (end, written_round.2, v.at.block)
            (sym (
              block_at-next s.disk (block_of s.files f) w.entry.pos (write_amount w)
                (omega (arith, leb→le _ _ end, amount_bounds, v.at.offset))))
      | inr more ↦
          rw (more, written_round.2, v.at.block)
            (sym (
              block_at-same s.disk (block_of s.files f) w.entry.pos (write_amount w)
                (omega (arith, leb→gt _ _ more, v.at.offset))))
    ];
    offset = offset_round ∙ ap (λ k. k % 508) (sym written_round.2);
  }

  files_round :
      size_of (write_block f buf w).st.files f
      ≡ size_of
          (if ltb (size_of w.st.files f) (w.entry.pos + write_amount w)
            then set_size w.st.files f (w.entry.pos + write_amount w)
            else w.st.files)
          f
  unfolding write_block
  files_round =
      ap
        (λ p.
          size_of (if ltb (size_of w.st.files f) p then set_size w.st.files f p else w.st.files) f)
        written_round.2

  size_round :
      size_of (write_block f buf w).st.files f
      ≡ max (size_of w.st.files f) (w.entry.pos + write_amount w)
  size_round =
      files_round ∙ elim (Bool-cases (ltb (size_of w.st.files f) (w.entry.pos + write_amount w))) [
        | inl bigger ↦ rw bigger (
            word-store_word w.st.files (21 * f + 15) (w.entry.pos + write_amount w)
              (omega (arith, amount_bounds, v.progress, v.position, fits, small))
            ∙ omega (arith, ltb→lt _ _ bigger))
        | inr same ↦ rw same (omega (arith, ltb→ge _ _ same))
      ]

  first_round : block_of (write_block f buf w).st.files f ≡ block_of w.st.files f
  unfolding write_block
  first_round = elim (Bool-cases (ltb (size_of w.st.files f) (write_block f buf w).entry.pos)) [
    | inl bigger ↦
        rw bigger (word-store_word_ne w.st.files (21 * f + 15) (21 * f + 19) _ (inl (omega arith)))
    | inr same ↦ rw same
  ]

  headers_round : (b i : ℕ) → i < 4 → (write_block f buf w).st.disk.sectors b i ≡ s.disk.sectors b i
  headers_round b i h =
      write_block-get f buf w b i v.ready (omega (arith, v.at.offset)) (omega arith)
      ∙ ground (arith, v.headers b i)

  pub round_Overwritten :
      Overwritten s f e n buf count (write_round f buf w)
      × ((write_round f buf w).remaining < w.remaining)
  unfolding write_round
  round_Overwritten =
      let amounts = amount_bounds in
      rw (in_chain, v.going)
        (
          record {
            going = unfold write_block in refl;
            progress = omega (arith, written_round, v.progress, amounts);
            position = omega (arith, written_round, v.position);
            at = IsAt-round;
            ready = unfold write_block in status-disk_write w.st.disk _ w.entry.cur_block ∙ v.ready;
            headers = headers_round;
            bytes = λ p h.
                bytes_round p h
                ∙ ap
                    (λ k.
                      if leb e.pos p && ltb p (e.pos + k)
                      then buf (p - e.pos)
                      else content s.disk (block_of s.files f) p)
                    (sym written_round.0);
            size = size_round ∙ omega (arith, v.size, v.position, written_round);
            first = first_round ∙ v.first;
            same = unfold write_block in v.same;
          },
          omega (arith, written_round, amounts),
        )
