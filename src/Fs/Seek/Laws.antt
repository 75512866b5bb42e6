-- ===== src/Fs/Seek/Laws.antt =====
-- Where mfs_seek puts a descriptor.
use manux.Common.{
  sub16, Bytes, while-Inv, ℕ, ◌+◌, ◌-◌, ◌/◌, ◌%◌, ◌≤◌, ◌<◌, ◌≡◌, sym, ap, ◌∙◌, ◌≢◌, true, false,
  Option, some, arith,
}
use manux.Fs.Disk.{Disk}
use manux.Fs.Layout.{total_sectors, size_of, block_of, seek_set, seek_end, user_seek_set}
use manux.Fs.State.{FdEntry, type_file, State}
use manux.Fs.Fd.Laws.{fd_get-some}
use manux.Fs.Read.Chain.{block_at, IsChain, disk_read-next, block_at-next}
use manux.Fs.Seek.{Seeking, seek_test, seek_round, seek_loop, seek_offset, mfs_seek}

-- After `k` rounds the block is the `k`-th and the offset has lost 508 for each.
record Inv (d : Disk) (first target : ℕ) (r : Seeking) : Type 0 where
  done : r.offset ≤ target
  whole : (target - r.offset) % 508 ≡ 0
  block : r.block ≡ block_at d first ((target - r.offset) / 508)

round_Inv :
    (d : Disk) (total first target : ℕ) (r : Seeking)
    → d.status ≡ 0
    → target < 65536
    → Inv d first target r
    → seek_test total r ≡ true
    → Inv d first target (seek_round d r) × ((seek_round d r).offset < r.offset)
unfolding seek_test seek_round
round_Inv d total first target r ready small v t =
    let enough : 508 ≤ r.offset = ground arith in
    let less : sub16 r.offset 508 ≡ r.offset - 508 = omega (arith, v.done) in
    (
      record {
        done = omega (arith, v.done);
        whole = omega (arith, v.done, v.whole);
        block =
            disk_read-next d r.temp r.block ready
            ∙ rw v.block (
                sym (block_at-next d first (target - r.offset) 508 (omega (arith, v.whole)))
                ∙ ap (λ k. block_at d first (k / 508)) (omega (arith, v.done)));
      },
      omega arith,
    )

-- The block of the target position, and the offset in it.
pub seek_loop_lem :
    (d : Disk) (total first size target : ℕ) (temp : Bytes)
    → d.status ≡ 0
    → target < 65536
    → target ≤ size
    → IsChain d total first size
    → let done =
        seek_loop d total (target + 1) (record { block = first; offset = target; temp = temp }) in
      (done.block ≡ block_at d first (target / 508)) × (done.offset ≡ target % 508)
unfolding seek_loop
seek_loop_lem d total first size target temp ready small le chain =
    let start : Seeking = record { block = first; offset = target; temp = temp } in
    let (v, stop) =
      while-Inv (Inv d first target) (λ r. r.offset) (seek_test total) (seek_round d)
        (λ r v t. round_Inv d total first target r ready small v t) (target + 1) start (omega arith)
        (record {
          done = omega arith;
          whole = omega arith;
          block = ap (block_at d first) {x = 0} (omega arith);
        }) in
    let rest = in_block v stop in
    (
      v.block ∙ ap (block_at d first) (omega (arith, v.done, v.whole, rest)),
      omega (arith, v.done, v.whole, rest),
    )
  where
    in_block : {r : Seeking} → Inv d first target r → seek_test total r ≡ false → r.offset < 508
    in_block {r} v stop =
        unfold seek_test in
        ground (arith, v.done, v.whole, v.block, chain ((target - r.offset) / 508))

-- What a descriptor must satisfy for a seek to `target`: it is an open file whose bytes lie on the
-- disk, and the target is no further than its end.
pub record CanSeek (s : State) (fd f target : ℕ) : Type 0 where
  pub in_table : fd < 8
  pub is_file : (s.fd_table fd).type ≡ type_file
  pub points_at : (s.fd_table fd).file ≡ some f
  pub disk_ready : s.disk.status ≡ 0
  pub within : target ≤ size_of s.files f
  pub small : target < 65536
  pub chain : IsChain s.disk (total_sectors s.root) (block_of s.files f) (size_of s.files f)

pub record SeekDone (s : State) (fd f target pos : ℕ) (r : Option ℕ × State) : Type 0 where
  pub result : r.0 ≡ some pos
  pub position : (r.1.fd_table fd).pos ≡ pos
  pub block : (r.1.fd_table fd).cur_block ≡ block_at s.disk (block_of s.files f) (target / 508)
  pub offset : (r.1.fd_table fd).block_offset ≡ target % 508
  pub prev_block : (r.1.fd_table fd).prev_block ≡ (s.fd_table fd).prev_block
  pub entry :
      ((r.1.fd_table fd).file ≡ (s.fd_table fd).file)
      × ((r.1.fd_table fd).type ≡ (s.fd_table fd).type)
      × ((r.1.fd_table fd).flags ≡ (s.fd_table fd).flags)
  pub others : (j : ℕ) → j ≢ fd → r.1.fd_table j ≡ s.fd_table j
  pub unchanged : (r.1.disk ≡ s.disk) × (r.1.files ≡ s.files) × (r.1.root ≡ s.root)

-- A seek to a position inside the file, by any `whence`, finds the block of that position and the
-- offset in it. It records and answers its argument `pos`, which is that position only for
-- SEEK_SET, and it leaves the previous block as it was.
pub mfs_seek_lem :
    (junk : ℕ) (s : State) (fd f pos whence : ℕ)
    → CanSeek s fd f (seek_offset junk (s.fd_table fd) (size_of s.files f) pos whence)
    → SeekDone s fd f
        (seek_offset junk (s.fd_table fd) (size_of s.files f) pos whence)
        pos
        (mfs_seek junk s fd pos whence)
unfolding mfs_seek
mfs_seek_lem junk s fd f pos whence c =
    let target = seek_offset junk (s.fd_table fd) (size_of s.files f) pos whence in
    let loop =
      seek_loop_lem s.disk (total_sectors s.root) (block_of s.files f) (size_of s.files f) target
        s.tempbuf c.disk_ready c.small c.within c.chain in
    record {
      result = ground (arith, fd_get-some fd c.in_table, c.points_at, c.is_file);
      position = ground (arith, fd_get-some fd c.in_table, c.points_at, c.is_file);
      block = ground (arith, fd_get-some fd c.in_table, c.points_at, c.is_file, loop);
      offset = ground (arith, fd_get-some fd c.in_table, c.points_at, c.is_file, loop);
      prev_block = ground (arith, fd_get-some fd c.in_table, c.points_at, c.is_file);
      entry = ground (arith, fd_get-some fd c.in_table, c.points_at, c.is_file);
      others = λ j ne. ground (arith, fd_get-some fd c.in_table, c.points_at, c.is_file);
      unchanged = ground (arith, fd_get-some fd c.in_table, c.points_at, c.is_file);
    }

seek_offset-end :
    (junk : ℕ) (e : FdEntry) (size : ℕ) → size < 65536 → seek_offset junk e size 0 seek_end ≡ size
unfolding seek_offset
seek_offset-end junk e size h = ground arith

-- lseek(fd, 0, SEEK_END), with which m80asm asks for a file's size, answers 0 for every open file.
-- The descriptor then stands at the end of the file, and its recorded position says 0.
pub mfs_seek_end :
    (junk : ℕ) (s : State) (fd f : ℕ)
    → CanSeek s fd f (size_of s.files f)
    → ((mfs_seek junk s fd 0 seek_end).0 ≡ some 0)
      × (((mfs_seek junk s fd 0 seek_end).1.fd_table fd).pos ≡ 0)
      × (((mfs_seek junk s fd 0 seek_end).1.fd_table fd).cur_block
          ≡ block_at s.disk (block_of s.files f) (size_of s.files f / 508))
      × (((mfs_seek junk s fd 0 seek_end).1.fd_table fd).block_offset ≡ size_of s.files f % 508)
mfs_seek_end junk s fd f c =
    let e = seek_offset-end junk (s.fd_table fd) (size_of s.files f) c.small in
    let done = mfs_seek_lem junk s fd f 0 seek_end (rw e c) in
    (
      done.result,
      done.position,
      done.block ∙ ap (λ k. block_at s.disk (block_of s.files f) (k / 508)) e,
      done.offset ∙ ap (λ k. k % 508) e,
    )

pub mfs_seek_set :
    (junk : ℕ) (s : State) (fd f pos : ℕ)
    → CanSeek s fd f pos
    → SeekDone s fd f pos pos (mfs_seek junk s fd pos seek_set)
unfolding seek_offset
mfs_seek_set junk s fd f pos c = mfs_seek_lem junk s fd f pos seek_set c

-- SEEK_SET of include/sys/fcntl.h and doc/syscalls.md is 0, which mfs_seek does not know: a
-- program's lseek(fd, pos, SEEK_SET) answers `pos`, but puts the descriptor where the uninitialised
-- `offset` says (`junk`, where it lies in the file), whatever `pos` is.
pub mfs_seek_documented :
    (junk : ℕ) (s : State) (fd f pos : ℕ)
    → CanSeek s fd f junk
    → let (result, t) = mfs_seek junk s fd pos user_seek_set in
      (result ≡ some pos)
      × ((t.fd_table fd).cur_block ≡ block_at s.disk (block_of s.files f) (junk / 508))
      × ((t.fd_table fd).block_offset ≡ junk % 508)
unfolding seek_offset
mfs_seek_documented junk s fd f pos c =
    let done = mfs_seek_lem junk s fd f pos user_seek_set c in
    (done.result, done.block, done.offset)
