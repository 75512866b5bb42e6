-- ===== src/Fs/Write/Append.antt =====
-- What a write through a descriptor that mfs_open made for appending does.
use manux.Common.{
  Bytes, while, while-stop, while-step, ℕ, suc, ◌+◌, ◌/◌, ◌%◌, ◌≤◌, ◌<◌, ◌≡◌, refl, ap, ◌∙◌, ◌≢◌,
  true, false, some, arith,
}
use manux.Fs.Disk.{Disk}
use manux.Fs.Layout.{total_sectors, size_of, block_of, o_wronly, o_append}
use manux.Fs.State.{FdEntry, State}
use manux.Fs.Fd.Laws.{fd_get-some}
use manux.Fs.Open.{open_entry}
use manux.Fs.Read.Chain.{block_at, content}
use manux.Fs.Write.{
  Writing, write_block, needs_block, write_round, write_test, write_loop, after_write, mfs_write,
}
use manux.Fs.Write.Blocks.{write_amount, write_block-get}

abbrev starting : State → FdEntry → ℕ → Writing
starting s e count = record { st = s; entry = e; written = 0; remaining = count; failed = false }

module _ (s : State) (f : ℕ) (buf : Bytes) (e : FdEntry) (count : ℕ) (some_byte : 0 < count)
    (one_block : count ≤ 508) (ready : s.disk.status ≡ 0) (at_block_start : e.block_offset ≡ 0)
    (block_ok : (e.cur_block ≢ 0) × (e.cur_block < total_sectors s.root)) where
  one_round : write_round f buf (starting s e count) ≡ write_block f buf (starting s e count)
  unfolding write_round needs_block
  one_round = ground (arith, block_ok)

  finished : write_test (write_block f buf (starting s e count)) ≡ false
  unfolding write_test write_block
  finished = ground (arith, at_block_start)

  loop :
      (fuel : ℕ)
      → write_loop f buf (suc fuel) (starting s e count) ≡ write_block f buf (starting s e count)
  unfolding write_loop
  loop fuel =
      while-step write_test (write_round f buf) (starting s e count) fuel goes
      ∙ ap (while fuel write_test (write_round f buf)) one_round
      ∙ while-stop write_test (write_round f buf) (write_block f buf (starting s e count)) fuel
          finished
    where
      goes : write_test (starting s e count) ≡ true
      goes = unfold write_test in ground arith

  placed :
      (i : ℕ)
      → i < count
      → (write_block f buf (starting s e count)).st.disk.sectors e.cur_block (4 + i) ≡ buf i
  unfolding write_amount
  placed i h =
      write_block-get f buf (starting s e count) e.cur_block (4 + i) ready
        (omega (arith, at_block_start)) (omega arith)
      ∙ ground (arith, at_block_start)

appending-form :
    (junk : ℕ) (s : State) (fd f : ℕ) (buf : Bytes) (count : ℕ)
    → fd < 8
    → s.fd_table fd ≡ open_entry junk s.files f (o_wronly + o_append)
    → mfs_write s fd buf count
      ≡ after_write fd (
          write_loop f buf
            (count + 1)
            (starting s (open_entry junk s.files f (o_wronly + o_append)) count))
unfolding mfs_write open_entry
appending-form junk s fd f buf count in_table opened =
    rw (mfs_write, fd_get-some fd in_table, opened, opened) refl

-- O_APPEND leaves a descriptor whose position is the end of the file, but which stands at the start
-- of its first block: the next write of at most 508 bytes, on a file of any size, answers `count`
-- and replaces the first bytes of the file.
pub mfs_write-open_entry_append :
    (junk : ℕ) (s : State) (fd f : ℕ) (buf : Bytes) (count : ℕ)
    → fd < 8
    → s.fd_table fd ≡ open_entry junk s.files f (o_wronly + o_append)
    → s.disk.status ≡ 0
    → (block_of s.files f ≢ 0) × (block_of s.files f < total_sectors s.root)
    → 0 < count
    → count ≤ 508
    → ((s.fd_table fd).pos ≡ size_of s.files f)
      × ((mfs_write s fd buf count).0 ≡ some count)
      × ((i : ℕ)
          → i < count
          → content (mfs_write s fd buf count).1.disk (block_of s.files f) i ≡ buf i)
unfolding open_entry after_write
mfs_write-open_entry_append junk s fd f buf count in_table opened ready ok some_byte one_block =
    let e = open_entry junk s.files f (o_wronly + o_append) in
    let more : count + 1 ≡ suc count = omega arith in
    let form =
      appending-form junk s fd f buf count in_table opened
      ∙ ap (λ n. after_write fd (write_loop f buf n (starting s e count))) more
      ∙ ap (after_write fd) (loop s f buf e count some_byte one_block ready refl ok count) in
    rw form (
      ap (λ e. e.pos) opened,
      written_all,
      λ i h.
          here (write_block f buf (starting s e count)).st.disk i (omega arith)
          ∙ placed s f buf e count some_byte one_block ready refl ok i h,
    )
  where
    here :
        (d : Disk) (i : ℕ)
        → i < 508
        → content d (block_of s.files f) i ≡ d.sectors (block_of s.files f) (4 + i)
    here d i h =
        let q : i / 508 ≡ 0 = omega arith in
        let r : 4 + i % 508 ≡ 4 + i = omega arith in
        λ l. d.sectors (block_at d (block_of s.files f) (q l)) (r l)

    written_all :
        (after_write fd (
          write_block f buf (starting s (open_entry junk s.files f (o_wronly + o_append)) count))).0
        ≡ some count
    written_all = unfold write_block in ground arith
