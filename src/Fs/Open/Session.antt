-- ===== src/Fs/Open/Session.antt =====
-- A program that opens a file and reads it.
use manux.Common.{
  ◌==◌, ==-refl, add16, Bytes, ℕ, ◌+◌, ◌-◌, ◌<◌, min, bit_and, ◌≡◌, refl, ap, ◌∙◌, some, arith,
}
use manux.Fs.Layout.{total_sectors, size_of, block_of, o_rdonly}
use manux.Fs.State.{FdEntry, flags_read, State, set_fd}
use manux.Fs.Names.{find_file}
use manux.Fs.Fd.{fd_alloc, fd_create}
use manux.Fs.Fd.Laws.{fd_alloc-range}
use manux.Fs.Read.{mfs_read}
use manux.Fs.Read.Chain.{content, IsChain}
use manux.Fs.Read.Laws.{CanRead, mfs_read_lem}
use manux.Fs.Open.{open_entry, open_file, mfs_open}

-- A state with a new descriptor.
abbrev opened : State → ℕ → FdEntry → State
opened s fd e = record s { fd_table = set_fd s.fd_table fd e; fd_count = add16 s.fd_count 1 }

fd_create-fd_alloc :
    (s : State) (e : FdEntry) {fd : ℕ}
    → fd_alloc s ≡ some fd
    → fd_create s e ≡ (some fd, opened s fd e)
unfolding fd_create
fd_create-fd_alloc s e free = rw (fd_create, free) refl

mfs_open-found :
    (junk : ℕ) (s : State) (fname : Bytes) (flags f : ℕ) {fd : ℕ}
    → find_file s fname ≡ some f
    → fd_alloc s ≡ some fd
    → mfs_open junk s fname flags ≡ (some fd, opened s fd (open_entry junk s.files f flags))
unfolding mfs_open open_file
mfs_open-found junk s fname flags f found free =
    rw (found, mfs_open) (fd_create-fd_alloc s (open_entry junk s.files f flags) free)

module _ (junk : ℕ) (s : State) (f fd : ℕ) (free : fd_alloc s ≡ some fd) (ready : s.disk.status ≡ 0)
    (small : size_of s.files f < 65536)
    (chain : IsChain s.disk (total_sectors s.root) (block_of s.files f) (size_of s.files f)) where
  t : State
  t = opened s fd (open_entry junk s.files f o_rdonly)

  entry : t.fd_table fd ≡ open_entry junk s.files f o_rdonly
  unfolding t
  entry = rw (==-refl fd) refl

  can_read : CanRead t fd f
  unfolding t open_entry
  can_read = record {
    in_table = (fd_alloc-range s free).1;
    is_file = ap (λ e. e.type) entry;
    points_at = ap (λ e. e.file) entry;
    readable = ap (λ e. bit_and e.flags flags_read == 0) entry;
    disk_ready = ready;
    small = small;
    chain = chain;
    at = rw entry (record { block = refl; offset = refl });
  }

-- A program that opens a file for reading and reads: with a free descriptor and the file's blocks
-- on the disk, mfs_open answers that descriptor, and mfs_read of `count` bytes answers the smaller
-- of `count` and the file's size, and copies that many of its first bytes, in order.
pub mfs_read-mfs_open :
    (junk : ℕ) (s : State) (fname : Bytes) (f fd : ℕ) (buf : Bytes) (count : ℕ)
    → find_file s fname ≡ some f
    → fd_alloc s ≡ some fd
    → s.disk.status ≡ 0
    → size_of s.files f < 65536
    → IsChain s.disk (total_sectors s.root) (block_of s.files f) (size_of s.files f)
    → count < 65536
    → let (descriptor, t) = mfs_open junk s fname o_rdonly in
      (descriptor ≡ some fd)
      × ((mfs_read t fd buf count).0 ≡ some (min count (size_of s.files f)))
      × ((i : ℕ)
          → i < min count (size_of s.files f)
          → (mfs_read t fd buf count).2 i ≡ content s.disk (block_of s.files f) i)
unfolding t open_entry
mfs_read-mfs_open junk s fname f fd buf count found free ready small chain hc =
    let e = entry junk s f fd free ready small chain in
    let r =
      mfs_read_lem (opened s fd (open_entry junk s.files f o_rdonly)) fd f buf count
        (can_read junk s f fd free ready small chain) hc in
    let t1 = opened s fd (open_entry junk s.files f o_rdonly) in
    let zero_pos : (t1.fd_table fd).pos ≡ 0 = ap (λ d. d.pos) e in
    let amount : min count (size_of s.files f - (t1.fd_table fd).pos)
        ≡ min count (size_of s.files f) =
      ap (λ p. min count (size_of s.files f - p)) zero_pos ∙ omega arith in
    rw (mfs_open-found junk s fname o_rdonly f found free) (
      refl,
      r.result ∙ ap some amount,
      λ i h.
          r.bytes i (omega (arith, amount))
          ∙ ap (λ p. content s.disk (block_of s.files f) (p + i)) zero_pos
          ∙ ap (content s.disk (block_of s.files f)) (omega arith),
    )
