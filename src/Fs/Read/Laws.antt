-- ===== src/Fs/Read/Laws.antt =====
-- mfs_read copies the bytes of the file from the position on, as many as there are.
use manux.Common.{
  leb, ◌==◌, if◌then◌else◌, Bool-cases, leb→le, leb→gt, Bytes, ℕ, ◌+◌, ◌-◌, ◌≤◌, ◌<◌, min, bit_and,
  ◌≡◌, refl, sym, ap, ◌≢◌, inl, inr, false, Option, some, arith,
}
use manux.Fs.State.{type_file, flags_read, State, set_fd}
use manux.Fs.Layout.{total_sectors, size_of, block_of}
use manux.Fs.Fd.{fd_get}
use manux.Fs.Read.{Reading, read_loop, mfs_read}
use manux.Fs.Read.Chain.{content, IsChain}
use manux.Fs.Read.Round.{IsAt, Inv, read_loop-Inv}

-- What a descriptor open for reading must satisfy: it points at an entry of the file table whose
-- bytes lie on the disk, and stands at its position.
pub record CanRead (s : State) (fd f : ℕ) : Type 0 where
  pub in_table : fd < 8
  pub is_file : (s.fd_table fd).type ≡ type_file
  pub points_at : (s.fd_table fd).file ≡ some f
  pub readable : (bit_and (s.fd_table fd).flags flags_read == 0) ≡ false
  pub disk_ready : s.disk.status ≡ 0
  pub small : size_of s.files f < 65536
  pub chain : IsChain s.disk (total_sectors s.root) (block_of s.files f) (size_of s.files f)
  pub at : IsAt s.disk (block_of s.files f) (s.fd_table fd)

-- What mfs_read answers when the loop has ended.
abbrev after_loop : State → ℕ → Bytes → Reading → Option ℕ × State × Bytes
after_loop s fd buf r =
    (some r.written, record s { tempbuf = r.temp; fd_table = set_fd s.fd_table fd r.entry }, r.buf)

-- The outcome of reading `n` bytes.
pub record ReadDone (s : State) (fd f : ℕ) (buf : Bytes) (n : ℕ) (r : Option ℕ × State × Bytes)
    : Type 0 where
  pub result : r.0 ≡ some n
  pub bytes :
      (i : ℕ) → i < n → r.2 i ≡ content s.disk (block_of s.files f) ((s.fd_table fd).pos + i)
  pub beyond : (i : ℕ) → n ≤ i → r.2 i ≡ buf i
  pub moved : (r.1.fd_table fd).pos ≡ (s.fd_table fd).pos + n
  pub still_at : IsAt s.disk (block_of s.files f) (r.1.fd_table fd)
  pub others : (j : ℕ) → j ≢ fd → r.1.fd_table j ≡ s.fd_table j
  pub unchanged :
      (r.1.root ≡ s.root)
      × (r.1.bitmap ≡ s.bitmap)
      × (r.1.files ≡ s.files)
      × (r.1.disk ≡ s.disk)
      × (r.1.fd_count ≡ s.fd_count)

mfs_read-open :
    (s : State) (fd f : ℕ) (buf : Bytes) (count : ℕ)
    → CanRead s fd f
    → mfs_read s fd buf count ≡ (
        if leb (size_of s.files f) (s.fd_table fd).pos
        then (some 0, s, buf)
        else after_loop s fd buf (
            read_loop s.disk (total_sectors s.root) (size_of s.files f) (count + 1) (record {
              entry = s.fd_table fd;
              temp = s.tempbuf;
              buf = buf;
              written = 0;
              remaining = count;
            })))
unfolding mfs_read fd_get
mfs_read-open s fd f buf count c = ground (arith, c.points_at, c.readable, c.is_file, c.in_table)

after_loop-ReadDone :
    (s : State) (fd f : ℕ) (buf : Bytes) {count n : ℕ} (r : Reading)
    → Inv s.disk (block_of s.files f) (size_of s.files f) (s.fd_table fd) buf count r
    → r.written ≡ n
    → fd < 8
    → ReadDone s fd f buf n (after_loop s fd buf r)
after_loop-ReadDone s fd f buf r v e h = record {
  result = ap some e;
  bytes = λ i lt. v.copied i (omega arith);
  beyond = λ i le. v.kept i (omega arith);
  moved = ground (arith, v.position);
  still_at = ground (arith, v.at);
  others = λ j ne. ground arith;
  unchanged = (refl, refl, refl, refl, refl);
}

-- Reading `count` bytes, fewer than 65536, from a descriptor that can read answers as many as
-- lie between the position and the end of the file, at most `count`. The buffer holds exactly
-- these bytes of the file and is untouched behind them, the position moves by them, and nothing
-- else of the state changes but the scratch sector.
pub mfs_read_lem :
    (s : State) (fd f : ℕ) (buf : Bytes) (count : ℕ)
    → CanRead s fd f
    → count < 65536
    → ReadDone s fd f buf
        (min count (size_of s.files f - (s.fd_table fd).pos))
        (mfs_read s fd buf count)
mfs_read_lem s fd f buf count c hc =
    rw (mfs_read-open s fd f buf count c)
      (elim (Bool-cases (leb (size_of s.files f) (s.fd_table fd).pos)) [
        | inl at_end ↦ rw at_end (
            let none_left : min count (size_of s.files f - (s.fd_table fd).pos) ≡ 0 =
              omega (arith, leb→le _ _ at_end) in
            record {
              result = ap some (sym none_left);
              bytes = λ i h. absurd (omega (arith, none_left));
              beyond = λ i h. refl;
              moved = omega (arith, none_left);
              still_at = c.at;
              others = λ j h. refl;
              unchanged = (refl, refl, refl, refl, refl);
            })
        | inr more ↦ rw more (
            let (v, n) =
              read_loop-Inv s.disk (total_sectors s.root) (block_of s.files f) (size_of s.files f)
                (s.fd_table fd) buf s.tempbuf count c.disk_ready c.small hc c.chain c.at
                (omega (arith, leb→gt _ _ more)) in
            after_loop-ReadDone s fd f buf _ v n c.in_table)
      ])
