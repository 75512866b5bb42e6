-- ===== src/Fs/Fd/Laws.antt =====
-- The table of open files: which slot is taken, what closing leaves, and the count.
use manux.Common.{
  leb, ◌==◌, if◌then◌else◌, Bool-cases, ==→eq, ==→ne, gt→leb, add16, sub16, ℕ, zero, suc, ◌+◌, ◌≤◌,
  ◌<◌, ◌≡◌, refl, ◌≢◌, ◌⊎◌, inl, inr, true, false, Option, none, some, arith,
}
use manux.Fs.Layout.{used}
use manux.Fs.State.{FdEntry, fd_max, type_none, type_file, empty_entry, State, set_fd}
use manux.Fs.Fd.{
  fd_get, fd_search, fd_alloc, fd_create, write_changes, fd_release, is_open_file, is_reserved,
  fd_close, mfs_close,
}

pub fd_get-some : (fd : ℕ) → fd < 8 → fd_get fd ≡ some fd
unfolding fd_get
fd_get-some fd h = ground arith

pub fd_get-none : (fd : ℕ) → 8 ≤ fd → fd_get fd ≡ none
unfolding fd_get
fd_get-none fd h = ground arith

-- The slot is the first free one from `start`, or there is none.
pub data Slot (table : ℕ → FdEntry) (start n : ℕ) : Option ℕ → Type 0 where
  free :
      {fd : ℕ}
      → start ≤ fd
      → fd < start + n
      → (table fd).type ≡ type_none
      → ((j : ℕ) → start ≤ j → j < fd → (table j).type ≢ type_none)
      → Slot table start n (some fd)
  taken :
      ((j : ℕ) → start ≤ j → j < start + n → (table j).type ≢ type_none) → Slot table start n none

Slot-later :
    {table : ℕ → FdEntry} {start n : ℕ} {r : Option ℕ}
    → (table start).type ≢ type_none
    → Slot table (start + 1) n r
    → Slot table start (suc n) r
Slot-later {table} {start} used (free {fd} lo hi e all) =
    free (omega arith) (omega arith) e λ j l h. elim (Bool-cases (j == start)) [
      | inl same ↦ rw (==→eq j start same) used
      | inr other ↦ all j (omega (arith, ==→ne j start other)) h
    ]
Slot-later {table} {start} used (taken all) = taken λ j l h. elim (Bool-cases (j == start)) [
  | inl same ↦ rw (==→eq j start same) used
  | inr other ↦ all j (omega (arith, ==→ne j start other)) (omega arith)
]

fd_search-Slot : (n start : ℕ) (table : ℕ → FdEntry) → Slot table start n (fd_search n start table)
unfolding fd_search
fd_search-Slot zero start table = taken λ j l h. absurd (omega arith)
fd_search-Slot (suc n) start table = elim (Bool-cases ((table start).type == type_none)) [
  | inl e ↦ rw e (free (omega arith) (omega arith) (==→eq _ _ e) λ j l h. absurd (omega arith))
  | inr e ↦ rw e (Slot-later (==→ne _ _ e) (fd_search-Slot n (start + 1) table))
]

-- fd_alloc answers the lowest free descriptor above the three standard ones, and -1 exactly when
-- all five are open.
pub fd_alloc_lem : (s : State) → Slot s.fd_table 3 5 (fd_alloc s)
unfolding fd_alloc
fd_alloc_lem s = fd_search-Slot 5 3 s.fd_table

-- Closing what is no open file: one call.
pub fd_close-other :
    (n : ℕ) (s : State) (fd : ℕ)
    → is_open_file (s.fd_table fd) ≡ false
    → fd_close (suc n) s fd ≡ (if is_reserved fd then (some 1, s) else (some 0, fd_release s fd))
unfolding fd_close
fd_close-other n s fd h = rw h

-- The state behind mfs_close's last call of fd_close: the sectors are written if the descriptor is
-- a file, and the pointer is NULL.
pub detached : State → ℕ → State
detached s fd =
    let saved = if (s.fd_table fd).type == type_file then write_changes s else s in
    record saved { fd_table = set_fd saved.fd_table fd (record (s.fd_table fd) { file = none }) }

write_changes-table : (s : State) → (write_changes s).fd_table ≡ s.fd_table
unfolding write_changes
write_changes-table s = refl

detached-closed : (s : State) (fd : ℕ) → is_open_file ((detached s fd).fd_table fd) ≡ false
unfolding detached is_open_file write_changes
detached-closed s fd = ground arith

-- mfs_close ends with two calls, whatever it is given.
pub mfs_close_lem :
    (n : ℕ) (s : State) (fd : ℕ)
    → mfs_close (suc (suc n)) s fd ≡ (
        if leb fd_max fd
        then (none, s)
        else if is_reserved fd
        then (some 1, detached s fd)
        else (some 0, fd_release (detached s fd) fd))
unfolding mfs_close fd_get detached
mfs_close_lem n s fd = ground (arith, fd_close-other n (detached s fd) fd (detached-closed s fd))

-- What closing a descriptor above the standard ones leaves.
pub record Closed (s : State) (fd : ℕ) (r : Option ℕ × State) : Type 0 where
  pub status : r.0 ≡ some 0
  pub slot : r.1.fd_table fd ≡ empty_entry
  pub others : (j : ℕ) → j ≢ fd → r.1.fd_table j ≡ s.fd_table j
  pub caches : (r.1.root ≡ s.root) × (r.1.bitmap ≡ s.bitmap) × (r.1.files ≡ s.files)
  pub written : r.1.disk ≡ (if is_open_file (s.fd_table fd) then (write_changes s).disk else s.disk)
  pub count :
      r.1.fd_count
      ≡ (if is_open_file (s.fd_table fd) then sub16 (sub16 s.fd_count 1) 1 else sub16 s.fd_count 1)

is_reserved-outside : (fd : ℕ) → 3 ≤ fd → fd < 8 → is_reserved fd ≡ false
unfolding is_reserved
is_reserved-outside fd lo hi = ground arith

fd_close_form :
    (n : ℕ) (s : State) (fd : ℕ)
    → 3 ≤ fd
    → fd < 8
    → fd_close (suc (suc (suc n))) s fd ≡ (
      some 0,
      fd_release (if is_open_file (s.fd_table fd) then fd_release (detached s fd) fd else s) fd,
    )
unfolding fd_close
fd_close_form n s fd lo hi =
    rw (is_reserved-outside fd lo hi)
      (ground (arith, mfs_close_lem n s fd, is_reserved-outside fd lo hi, gt→leb 8 fd hi))

-- fd_close and mfs_close, which call each other, end within three calls. fd_close of a descriptor
-- from 3 to 7 empties its slot and no other, and, where it is an open file, writes the cached
-- sectors to the disk. The count falls by one, but by two for an open file: both the call inside
-- mfs_close and the one around it count.
pub fd_close_lem :
    (n : ℕ) (s : State) (fd : ℕ) → 3 ≤ fd → fd < 8 → Closed s fd (fd_close (suc (suc (suc n))) s fd)
unfolding fd_release detached is_open_file write_changes
fd_close_lem n s fd lo hi = rw (fd_close_form n s fd lo hi) (record {
  status = refl;
  slot = ground arith;
  others = λ j h. ground arith;
  caches = ground arith;
  written = ground arith;
  count = ground arith;
})

-- The standard descriptors and everything outside the table cannot be closed.
pub fd_close_reserved :
    (n : ℕ) (s : State) (fd : ℕ) → fd < 3 ⊎ 8 ≤ fd → fd_close (suc n) s fd ≡ (some 1, s)
unfolding fd_close is_reserved
fd_close_reserved n s fd h = ground arith

pub fd_alloc-range : (s : State) {fd : ℕ} → fd_alloc s ≡ some fd → (3 ≤ fd) × (fd < 8)
fd_alloc-range s {fd} e = go (fd_alloc s) e (fd_alloc_lem s)
  where
    go : (r : Option ℕ) → r ≡ some fd → Slot s.fd_table 3 5 r → (3 ≤ fd) × (fd < 8)
    go (some k) e (free lo hi _ _) = ground arith
    go none e (taken _) = cc

-- What fd_create has done when it answers a descriptor.
pub record Created (s : State) (entry : FdEntry) (fd : ℕ) : Type 0 where
  pub above_standard : 3 ≤ fd
  pub in_table : fd < 8
  pub state :
      (fd_create s entry).1
      ≡ record s { fd_table = set_fd s.fd_table fd entry; fd_count = add16 s.fd_count 1 }

pub fd_create_lem :
    (s : State) (entry : FdEntry) {fd : ℕ} → (fd_create s entry).0 ≡ some fd → Created s entry fd
unfolding fd_create
fd_create_lem s entry {fd} made = go (fd_alloc s) refl
  where
    go : (r : Option ℕ) → fd_alloc s ≡ r → Created s entry fd
    go none e = ground (arith, e)
    go (some k) e =
        let same : k ≡ fd = ground (arith, e) in
        let (lo, hi) = fd_alloc-range s e in
        record {
          above_standard = omega (arith, same);
          in_table = omega (arith, same);
          state = ground (arith, e, same);
        }

-- Opening a file and closing it again lowers `fd_count` by one for good.
pub fd_count-fd_close-fd_create :
    (s : State) (entry : FdEntry) {fd : ℕ}
    → is_open_file entry ≡ true
    → (fd_create s entry).0 ≡ some fd
    → (fd_close 3 (fd_create s entry).1 fd).1.fd_count ≡ sub16 s.fd_count 1
fd_count-fd_close-fd_create s entry {fd} file made =
    let c = fd_create_lem s entry made in
    let closed = fd_close_lem 0 (fd_create s entry).1 fd c.above_standard c.in_table in
    ground (arith, closed.count, c.state, file)
