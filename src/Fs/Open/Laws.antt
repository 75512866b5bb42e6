-- ===== src/Fs/Open/Laws.antt =====
-- What mfs_open does when it makes a file, when it cannot, and where the descriptor stands.
use manux.Common.{
  ◌==◌, if◌then◌else◌, Bool-cases, ==→eq, ==→ne, true, Bytes, ℕ, zero, suc, ◌+◌, ◌-◌, ◌*◌, ◌%◌, ◌≤◌,
  ◌<◌, bit_and, ◌≡◌, refl, sym, ap, ◌∙◌, ◌≢◌, ◌⊎◌, inl, inr, false, some, arith,
}
use mathlib.Core.Path.{subst}
use manux.Fs.Layout.{
  total_sectors, data_start_sector, max_files, filecount, set_filecount_lem, used, flags_of,
  size_of, block_of, o_creat,
}
use manux.Fs.State.{State, IsMounted}
use manux.Fs.Bitmap.{is_free, alloc_block}
use manux.Fs.Bitmap.Laws.{FirstFree, alloc_block_lem}
use manux.Fs.Fd.{write_changes}
use manux.Fs.Open.{free_slot, add_file, create_file}
use manux.Fs.Open.Entry.{new_entry-fields, new_entry-others}

free_slot-le : (n index : ℕ) (files : Bytes) → free_slot n index files ≤ index + n
unfolding free_slot
free_slot-le zero index files = omega arith
free_slot-le (suc n) index files = ground (arith, free_slot-le n (index + 1) files)

free_slot-free :
    (n index : ℕ) (files : Bytes)
    → free_slot n index files < index + n
    → used files (free_slot n index files) ≡ 0
unfolding free_slot
free_slot-free zero index files h = absurd (omega arith)
free_slot-free (suc n) index files h = elim (Bool-cases (used files index == 0)) [
  | inl e ↦ rw e (==→eq _ _ e)
  | inr e ↦ rw e (free_slot-free n (index + 1) files (omega (arith, later e h)))
]
  where
    later :
        (used files index == 0) ≡ false
        → free_slot (suc n) index files < index + suc n
        → free_slot n (index + 1) files < index + suc n
    later e h = rw e at h

-- No slot before it is free.
free_slot-first :
    (n index : ℕ) (files : Bytes) (j : ℕ)
    → index ≤ j
    → j < free_slot n index files
    → used files j ≢ 0
unfolding free_slot
free_slot-first zero index files j lo hi = absurd (omega arith)
free_slot-first (suc n) index files j lo hi = elim (Bool-cases (used files index == 0)) [
  | inl e ↦ absurd (none_between e hi)
  | inr e ↦ elim (Bool-cases (j == index)) [
    | inl here ↦
        subst (λ k. used files k ≢ 0) (sym (==→eq j index here)) (==→ne (used files index) 0 e)
    | inr above ↦
        let ne = ==→ne j index above in
        free_slot-first n (index + 1) files j (omega arith) (later e hi)
  ]
]
  where
    none_between : (used files index == 0) ≡ true → j < free_slot (suc n) index files → ⊥
    none_between e h = let before : j < index = rw e at h in omega arith

    later :
        (used files index == 0) ≡ false
        → j < free_slot (suc n) index files
        → j < free_slot n (index + 1) files
    later e h = rw e at h

-- When create_file answers a file.
record Answers (s : State) (fname : Bytes) (flags index : ℕ) : Type 0 where
  block : (alloc_block s).0 ≢ 0
  room : filecount s.root < max_files s.root
  slot : free_slot (max_files s.root) 0 s.files ≡ index
  slot_in_range : index ≢ max_files s.root
  state :
      (create_file s fname flags).1 ≡ add_file (alloc_block s).1 fname flags index (alloc_block s).0

create_file-Answers :
    (s : State) (fname : Bytes) (flags : ℕ) {index : ℕ}
    → (create_file s fname flags).0 ≡ some index
    → Answers s fname flags index
unfolding create_file alloc_block
create_file-Answers s fname flags e = record {
  block = ground arith;
  room = ground arith;
  slot = ground arith;
  slot_in_range = ground arith;
  state = ground arith;
}

-- A file that create_file has made.
pub record MadeFile (s : State) (flags index : ℕ) (t : State) : Type 0 where
  pub in_range : index < max_files s.root
  pub was_free : used s.files index ≡ 0
  pub first_slot : (j : ℕ) → j < index → used s.files j ≢ 0
  pub entry :
      (used t.files index ≡ 1)
      × (size_of t.files index ≡ 0)
      × (flags_of t.files index ≡ bit_and flags (65535 - o_creat) % 256)
  pub others : (j : ℕ) → j < 21 * index ⊎ 21 * index + 21 ≤ j → t.files j ≡ s.files j
  pub counted : filecount t.root ≡ filecount s.root + 1
  pub first_block :
      FirstFree s.bitmap
        (data_start_sector s.root)
        (total_sectors s.root - data_start_sector s.root)
        (block_of t.files index)
  pub bitmap :
      (c : ℕ)
      → is_free t.bitmap c ≡ (if c == block_of t.files index then false else is_free s.bitmap c)
  pub table : (t.fd_table ≡ s.fd_table) × (t.fd_count ≡ s.fd_count)

-- When create_file answers a file on a mounted file system, the file has the first free slot, with
-- every slot before it used, and the first free block: its entry is used, empty and has the flags
-- of the call without O_CREAT, the block is marked and no other, no other entry changes, and the
-- count goes up by one.
pub create_file_lem :
    (s : State) (fname : Bytes) (flags : ℕ) {index : ℕ}
    → IsMounted s
    → (create_file s fname flags).0 ≡ some index
    → MadeFile s flags index (create_file s fname flags).1
create_file_lem s fname flags {index} m e =
    let a = create_file-Answers s fname flags e in
    let (first, marked) = (alloc_block_lem s m).taken a.block in
    let slot_le = free_slot-le (max_files s.root) 0 s.files in
    let small : (alloc_block s).0 < 65536 = omega (arith, first.below, m.bitmap_covers) in
    let fields = new_entry-fields s.files index fname flags (alloc_block s).0 small in
    rw a.state (
      unfold add_file alloc_block write_changes in
      record {
        in_range = omega (arith, slot_le, a.slot, a.slot_in_range);
        was_free =
            ap (used s.files) (sym a.slot)
            ∙ free_slot-free (max_files s.root) 0 s.files
                (omega (arith, slot_le, a.slot, a.slot_in_range));
        first_slot = λ j h.
            free_slot-first (max_files s.root) 0 s.files j (omega arith) (omega (arith, h, a.slot));
        entry = (fields.0, fields.1, fields.3);
        others = new_entry-others s.files index fname flags (alloc_block s).0;
        counted = set_filecount_lem s.root _ (omega (arith, a.room, m.files_fit));
        first_block = rw fields.2 first;
        bitmap = rw fields.2 marked;
        table = (refl, refl);
      })
