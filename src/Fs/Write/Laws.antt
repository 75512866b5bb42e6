-- ===== src/Fs/Write/Laws.antt =====
-- mfs_write overwrites exactly the bytes from the position on.
use Prim.Native.Nat.{max}
use manux.Common.{
  ltb, leb, ◌==◌, if◌then◌else◌, Bytes, while-Inv, ℕ, ◌+◌, ◌-◌, ◌*◌, ◌/◌, ◌%◌, ◌≤◌, ◌<◌, bit_and,
  ◌≡◌, refl, ap, ◌∙◌, ◌≢◌, false, ◌&&◌, Option, some, arith,
}
use manux.Fs.Layout.{total_sectors, size_of, block_of}
use manux.Fs.State.{type_file, flags_write, State}
use manux.Fs.Fd.{fd_get}
use manux.Fs.Read.Chain.{block_at, content}
use manux.Fs.Read.Round.{IsAt}
use manux.Fs.Write.{Writing, write_round, write_test, write_loop, after_write, mfs_write}
use manux.Fs.Write.Blocks.{HasBlocks, block_at-headers}
use manux.Fs.Write.Round.{Overwritten, round_Overwritten}

-- What a descriptor must satisfy for a write of `count` bytes inside the `n` blocks of its file.
pub record CanWrite (s : State) (fd f n count : ℕ) : Type 0 where
  pub in_table : fd < 8
  pub is_file : (s.fd_table fd).type ≡ type_file
  pub points_at : (s.fd_table fd).file ≡ some f
  pub writable : (bit_and (s.fd_table fd).flags flags_write == 0) ≡ false
  pub disk_ready : s.disk.status ≡ 0
  pub blocks : HasBlocks s.disk (total_sectors s.root) (block_of s.files f) n
  pub fits : (s.fd_table fd).pos + count ≤ 508 * n
  pub small : 508 * n < 65536
  pub at : IsAt s.disk (block_of s.files f) (s.fd_table fd)
  pub within : (s.fd_table fd).pos ≤ size_of s.files f

pub record WriteDone (s : State) (fd f n : ℕ) (buf : Bytes) (count : ℕ) (r : Option ℕ × State)
    : Type 0 where
  pub result : r.0 ≡ some count
  pub bytes :
      (p : ℕ)
      → p < 508 * n
      → content r.1.disk (block_of s.files f) p ≡ (
          if leb (s.fd_table fd).pos p && ltb p ((s.fd_table fd).pos + count)
          then buf (p - (s.fd_table fd).pos)
          else content s.disk (block_of s.files f) p)
  pub size : size_of r.1.files f ≡ max (size_of s.files f) ((s.fd_table fd).pos + count)
  pub moved : (r.1.fd_table fd).pos ≡ (s.fd_table fd).pos + count
  pub still_at : IsAt r.1.disk (block_of s.files f) (r.1.fd_table fd)
  pub chain :
      (k : ℕ) → block_at r.1.disk (block_of s.files f) k ≡ block_at s.disk (block_of s.files f) k
  pub first : block_of r.1.files f ≡ block_of s.files f
  pub ready : r.1.disk.status ≡ 0
  pub entry :
      ((r.1.fd_table fd).file ≡ (s.fd_table fd).file)
      × ((r.1.fd_table fd).type ≡ (s.fd_table fd).type)
      × ((r.1.fd_table fd).flags ≡ (s.fd_table fd).flags)
  pub others : (j : ℕ) → j ≢ fd → r.1.fd_table j ≡ s.fd_table j
  pub unchanged : (r.1.root ≡ s.root) × (r.1.bitmap ≡ s.bitmap) × (r.1.fd_count ≡ s.fd_count)

mfs_write-open :
    (s : State) (fd f n : ℕ) (buf : Bytes) (count : ℕ)
    → CanWrite s fd f n count
    → mfs_write s fd buf count
      ≡ after_write fd (
          write_loop f buf (count + 1) (record {
            st = s;
            entry = s.fd_table fd;
            written = 0;
            remaining = count;
            failed = false;
          }))
unfolding mfs_write fd_get
mfs_write-open s fd f n buf count c = ground (arith, c.points_at, c.writable, c.is_file, c.in_table)

after_write-WriteDone :
    (s : State) (fd f n : ℕ) (buf : Bytes) (count : ℕ) (w : Writing)
    → CanWrite s fd f n count
    → Overwritten s f (s.fd_table fd) n buf count w
    → write_test w ≡ false
    → WriteDone s fd f n buf count (after_write fd w)
unfolding write_test after_write
after_write-WriteDone s fd f n buf count w c v stop =
    let all : w.written ≡ count = ground (arith, v.progress, v.going) in
    let chain = block_at-headers s.disk w.st.disk (block_of s.files f) v.headers in
    record {
      result = ground (arith, v.going, all);
      bytes = λ p h.
          ap (λ b. w.st.disk.sectors b (4 + p % 508)) (chain (p / 508))
          ∙ v.bytes p h
          ∙ ap
              (λ k.
                if leb (s.fd_table fd).pos p && ltb p ((s.fd_table fd).pos + k)
                then buf (p - (s.fd_table fd).pos)
                else content s.disk (block_of s.files f) p)
              all;
      size = omega (arith, v.size, all);
      moved = ground (arith, v.position, all);
      still_at = record {
        block = ground (arith, v.at.block, chain (w.entry.pos / 508));
        offset = ground (arith, v.at.offset);
      };
      chain = chain;
      first = v.first;
      ready = v.ready;
      entry = ground (arith, v.same);
      others = λ j ne. ground (arith, v.same);
      unchanged = ground (arith, v.same);
    }

-- A write inside the blocks that the file has answers `count`, replaces exactly the bytes of the
-- file from the position on by those of the buffer, grows the size where it goes beyond it, moves
-- the position behind the last byte, and takes no block.
pub mfs_write_lem :
    (s : State) (fd f n : ℕ) (buf : Bytes) (count : ℕ)
    → CanWrite s fd f n count
    → WriteDone s fd f n buf count (mfs_write s fd buf count)
unfolding write_loop
mfs_write_lem s fd f n buf count c =
    let e = s.fd_table fd in
    let start : Writing = record {
      st = s;
      entry = e;
      written = 0;
      remaining = count;
      failed = false;
    } in
    let (v, stop) =
      while-Inv (Overwritten s f e n buf count) (λ w. w.remaining) write_test (write_round f buf)
        (λ w v t. round_Overwritten s f e n buf count c.blocks c.fits c.small w v t) (count + 1)
        start (omega arith)
        (record {
          going = refl;
          progress = omega arith;
          position = omega arith;
          at = c.at;
          ready = c.disk_ready;
          headers = λ b i h. refl;
          bytes = λ p h. ground arith;
          size = omega (arith, c.within);
          first = refl;
          same = (refl, refl, refl, refl, refl, refl, refl);
        }) in
    rw (mfs_write-open s fd f n buf count c) (after_write-WriteDone s fd f n buf count _ c v stop)
