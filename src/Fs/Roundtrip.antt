-- ===== src/Fs/Roundtrip.antt =====
-- What mfs_write puts into a file, mfs_read takes out again after a seek.
use manux.Common.{
  ltb, leb, ◌==◌, if◌then◌else◌, Bytes, word, ℕ, ◌+◌, ◌-◌, ◌*◌, ◌≤◌, ◌<◌, min, bit_and, ◌≡◌, ap,
  ◌∙◌, false, ◌&&◌, Option, some, arith,
}
use manux.Fs.Layout.{total_sectors, size_of, block_of, seek_set}
use manux.Fs.State.{flags_read, State}
use manux.Fs.Read.{mfs_read}
use manux.Fs.Read.Chain.{content, IsChain}
use manux.Fs.Read.Round.{IsAt}
use manux.Fs.Read.Laws.{CanRead, mfs_read_lem}
use manux.Fs.Seek.{mfs_seek}
use manux.Fs.Seek.Laws.{CanSeek, SeekDone, mfs_seek_set}
use manux.Fs.Write.{mfs_write}
use manux.Fs.Write.Laws.{CanWrite, WriteDone, mfs_write_lem}

module _ (s : State) (fd f n : ℕ) (buf out : Bytes) (count : ℕ) (c : CanWrite s fd f n count)
    (covered : size_of s.files f ≤ 508 * n)
    (readable : (bit_and (s.fd_table fd).flags flags_read == 0) ≡ false) where
  start : ℕ
  start = (s.fd_table fd).pos

  written : State
  written = (mfs_write s fd buf count).1

  w : WriteDone s fd f n buf count (mfs_write s fd buf count)
  w = mfs_write_lem s fd f n buf count c

  IsChain-written :
      IsChain written.disk
        (total_sectors written.root)
        (block_of written.files f)
        (size_of written.files f)
  unfolding written
  IsChain-written k h =
      ground (arith, w.first, w.size, w.chain k, w.unchanged, covered, c.fits, c.blocks.valid k)

  can_seek : CanSeek written fd f start
  unfolding written start
  can_seek = record {
    in_table = c.in_table;
    is_file = w.entry.1 ∙ c.is_file;
    points_at = w.entry.0 ∙ c.points_at;
    disk_ready = w.ready;
    within = omega (arith, w.size, c.within);
    small = omega (arith, c.fits, c.small);
    chain = IsChain-written;
  }

  module _ (junk : ℕ) where
    sought : Option ℕ × State
    sought = mfs_seek junk written fd start seek_set

    k : SeekDone written fd f start start sought
    unfolding sought
    k = mfs_seek_set junk written fd f start can_seek

    IsAt-start : IsAt sought.1.disk (block_of sought.1.files f) (sought.1.fd_table fd)
    IsAt-start = record {
      block = ground (arith, k.block, k.unchanged, k.position);
      offset = ground (arith, k.offset, k.position);
    }

    can_read : CanRead sought.1 fd f
    unfolding start written
    can_read = record {
      in_table = c.in_table;
      is_file = ground (arith, k.entry, w.entry, c.is_file);
      points_at = ground (arith, k.entry, w.entry, c.points_at);
      readable = ground (arith, k.entry, w.entry, readable);
      disk_ready = ground (arith, k.unchanged, w.ready);
      small = ground (arith, k.unchanged, w.size, covered, c.fits, c.small);
      chain = λ i h. ground (arith, k.unchanged, IsChain-written i);
      at = IsAt-start;
    }

    amount : min count (size_of sought.1.files f - (sought.1.fd_table fd).pos) ≡ count
    unfolding start word sought written
    amount = omega (arith, ap (λ files. size_of files f) k.unchanged.1, k.position, w.size)

    shifted :
        (i : ℕ)
        → i < count
        → (if leb start (start + i) && ltb (start + i) (start + count)
            then buf (start + i - start)
            else content s.disk (block_of s.files f) (start + i))
          ≡ buf i
    shifted i h = ground arith

    byte :
        (i : ℕ)
        → i < count
        → content sought.1.disk (block_of sought.1.files f) ((sought.1.fd_table fd).pos + i) ≡ buf i
    unfolding start written
    byte i h =
        (λ l. content (k.unchanged.0 l) (block_of (k.unchanged.1 l) f) (k.position l + i))
        ∙ ap (λ b. content written.disk b (start + i)) w.first
        ∙ w.bytes (start + i) (omega (arith, c.fits))
        ∙ shifted i h

    -- On a descriptor open for reading and writing, inside the blocks that the file has: mfs_write
    -- of `count` bytes, mfs_seek back to where they began, and mfs_read of `count` bytes give
    -- `count` and the bytes that were written.
    pub mfs_read-mfs_seek-mfs_write :
        let again =
          mfs_read
            (mfs_seek junk (mfs_write s fd buf count).1 fd (s.fd_table fd).pos seek_set).1
            fd
            out
            count in
        (again.0 ≡ some count) × ((i : ℕ) → i < count → again.2 i ≡ buf i)
    unfolding start written sought
    mfs_read-mfs_seek-mfs_write =
        let r = mfs_read_lem sought.1 fd f out count can_read (omega (arith, c.fits, c.small)) in
        (r.result ∙ ap some amount, λ i h. r.bytes i (omega (arith, amount)) ∙ byte i h)
