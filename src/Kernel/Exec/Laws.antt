-- ===== src/Kernel/Exec/Laws.antt =====
-- The argument table that execv of kernel/kernel.c leaves for a program.
use manux.Common.{
  ltb, leb, ◌==◌, if◌then◌else◌, Bool-cases, ==→eq, ==→ne, length, Bytes, store, copy, clear, word,
  store_word, text, word-store_word, word-store_word_ne, ℕ, zero, suc, ◌+◌, ◌-◌, ◌*◌, ◌≤◌, ◌<◌, ◌≡◌,
  refl, ap, ◌∙◌, ◌⊎◌, inl, inr, true, false, ◌&&◌, List, [], ◌∷◌, arith,
}
use manux.Kernel.Exec.{pih_argv, Copying, copy_args, set_pointers, lay_out}

-- The bytes that the arguments take, with their NULs, and where the `i`-th begins.
abbrev pub total : List (List ℕ) → ℕ
total [] = 0
total (arg ∷ args) = length arg + 1 + total args

abbrev pub start : List (List ℕ) → ℕ → ℕ
start [] i = 0
start (arg ∷ args) zero = 0
start (arg ∷ args) (suc i) = length arg + 1 + start args i

-- The arguments one behind the other, each with its NUL.
abbrev pub joined : List (List ℕ) → Bytes
joined [] p = 0
joined (arg ∷ args) p =
    if ltb p (length arg + 1) then text arg p else joined args (p - (length arg + 1))

-- What copying leaves: all arguments are counted, their bytes lie from `strpos` on, and their
-- offsets are noted.
record Copied (args : List (List ℕ)) (before after : Copying) : Type 0 where
  argc : after.argc ≡ before.argc + length args
  table :
      (p : ℕ)
      → after.table p ≡ (
          if leb before.strpos p && ltb p (before.strpos + total args)
          then joined args (p - before.strpos)
          else before.table p)
  offsets :
      (i : ℕ) → i < length args → after.offsets (before.argc + i) ≡ before.strpos + start args i
  earlier : (i : ℕ) → i < before.argc → after.offsets i ≡ before.offsets i

-- The variables behind one round.
abbrev with_arg : List ℕ → Copying → Copying
with_arg arg r = record {
  argc = r.argc + 1;
  strpos = r.strpos + (length arg + 1);
  table = copy r.table r.strpos (text arg) 0 (length arg + 1);
  offsets = store r.offsets r.argc r.strpos;
}

with_arg-Copied :
    (arg : List ℕ) (args : List (List ℕ)) (r after : Copying)
    → r.strpos < 256
    → Copied args (with_arg arg r) after
    → Copied (arg ∷ args) r after
unfolding copy store
with_arg-Copied arg args r after small k = record {
  argc = omega (arith, k.argc);
  table = λ p. k.table p ∙ ground arith;
  offsets = noted;
  earlier = λ i h. k.earlier i (omega arith) ∙ ground arith;
}
  where
    noted :
        (i : ℕ)
        → i < suc (length args)
        → after.offsets (r.argc + i) ≡ r.strpos + start (arg ∷ args) i
    noted zero h =
        ap after.offsets {y = r.argc} (omega arith) ∙ k.earlier r.argc (omega arith) ∙ ground arith
    noted (suc i) h =
        ap after.offsets {y = r.argc + 1 + i} (omega arith)
        ∙ k.offsets i (omega arith)
        ∙ omega arith

copy_args-Copied :
    (args : List (List ℕ)) (r : Copying)
    → r.argc + length args ≤ 16
    → r.strpos + total args ≤ 210
    → Copied args r (copy_args args r)
unfolding copy_args
copy_args-Copied [] r few fits = record {
  argc = omega arith;
  table = λ p. ground arith;
  offsets = λ i h. absurd (omega arith);
  earlier = λ i h. refl;
}
copy_args-Copied (arg ∷ args) r few fits =
    let k = copy_args-Copied args (with_arg arg r) (omega arith) (omega arith) in
    let room : ltb r.argc 16 ≡ true = ground arith in
    let in_area : ltb 210 (r.strpos + (length arg + 1)) ≡ false = ground arith in
    rw (copy_args, room, in_area)
      (with_arg-Copied arg args r (copy_args args (with_arg arg r)) (omega arith) k)

set_pointers-outside :
    (n i ptrpos : ℕ) (offsets : ℕ → ℕ) (table : Bytes) (p : ℕ)
    → p < ptrpos + i * 2 ⊎ ptrpos + (i + n) * 2 ≤ p
    → set_pointers n i ptrpos offsets table p ≡ table p
unfolding set_pointers store_word
set_pointers-outside zero i ptrpos offsets table p h = refl
set_pointers-outside (suc n) i ptrpos offsets table p h =
    set_pointers-outside n (i + 1) ptrpos offsets
      (store_word table (ptrpos + i * 2) (pih_argv + offsets i)) p
      (elim h [ inl a ↦ inl (omega arith) | inr b ↦ inr (omega arith) ])
    ∙ ground arith

set_pointers-word :
    (n i ptrpos : ℕ) (offsets : ℕ → ℕ) (table : Bytes) (j : ℕ)
    → i ≤ j
    → j < i + n
    → offsets j < 256
    → word (set_pointers n i ptrpos offsets table) (ptrpos + j * 2) ≡ pih_argv + offsets j
unfolding set_pointers word
set_pointers-word zero i ptrpos offsets table j lo hi small = absurd (omega arith)
set_pointers-word (suc n) i ptrpos offsets table j lo hi small =
    let stored = store_word table (ptrpos + i * 2) (pih_argv + offsets i) in
    elim (Bool-cases (j == i)) [
      | inl same ↦
          (let e = ==→eq j i same in
            let at_i : word (set_pointers n (i + 1) ptrpos offsets stored) (ptrpos + i * 2)
                ≡ word stored (ptrpos + i * 2) =
              λ q.
                set_pointers-outside n (i + 1) ptrpos offsets stored (ptrpos + i * 2)
                  (inl (omega arith)) q
                + 256
                  * set_pointers-outside n (i + 1) ptrpos offsets stored (ptrpos + i * 2 + 1)
                      (inl (omega arith)) q in
            rw e (
              at_i
              ∙ word-store_word table (ptrpos + i * 2) (pih_argv + offsets i)
                  (omega (arith, ap offsets e))))
      | inr other ↦
          set_pointers-word n (i + 1) ptrpos offsets stored j (omega (arith, ==→ne j i other))
            (omega arith) small
    ]

-- The table of a program's arguments: the strings from the start on, a pointer to each at the end,
-- and a NULL behind the pointers.
pub record ArgvTable (args : List (List ℕ)) (r : ℕ × Bytes) : Type 0 where
  pub argc : r.0 ≡ length args
  pub strings : (p : ℕ) → p < total args → r.1 p ≡ joined args p
  pub pointers :
      (i : ℕ)
      → i < length args
      → word r.1 (242 - (length args + 1) * 2 + i * 2) ≡ 0x4F0C + start args i
  pub null : word r.1 240 ≡ 0

start-lt : (args : List (List ℕ)) (i : ℕ) → i < length args → start args i < total args
start-lt [] i h = absurd (omega arith)
start-lt (arg ∷ args) zero h = omega arith
start-lt (arg ∷ args) (suc i) h = omega (arith, start-lt args i (omega arith))

-- The last step: the pointers and the NULL lie behind the strings.
pointed :
    (args : List (List ℕ)) (r c : Copying)
    → r.argc ≡ 0
    → r.strpos ≡ 0
    → Copied args r c
    → length args ≤ 16
    → total args + (length args + 1) * 2 ≤ 242
    → total args ≤ 210
    → let ptrpos = 242 - (length args + 1) * 2 in
      ArgvTable args (
        length args,
        store_word
            (set_pointers (length args) 0 ptrpos c.offsets c.table)
            (ptrpos + length args * 2)
            0,
      )
unfolding word store_word
pointed args r c zero_args zero_at k few apart fits = record {
  argc = refl;
  strings = λ p h. ground (
    arith,
    set_pointers-outside n 0 ptrpos c.offsets c.table p (inl (omega arith)),
    k.table p,
    at_start p,
  );
  pointers = λ i h.
      word-store_word_ne made (ptrpos + n * 2) (ptrpos + i * 2) 0 (inr (omega arith))
      ∙ set_pointers-word n 0 ptrpos c.offsets c.table i (omega arith) (omega arith)
          (omega (arith, offset i h, start-lt args i h))
      ∙ omega (arith, offset i h);
  null =
      ap (word (store_word made (ptrpos + n * 2) 0)) {x = 240} (omega arith)
      ∙ word-store_word made (ptrpos + n * 2) 0 (omega arith);
}
  where
    n : ℕ
    n = length args

    ptrpos : ℕ
    ptrpos = 242 - (length args + 1) * 2

    made : Bytes
    made = set_pointers n 0 ptrpos c.offsets c.table

    at_start : (p : ℕ) → joined args (p - r.strpos) ≡ joined args p
    at_start p = ap (joined args) (omega arith)

    offset : (i : ℕ) → i < length args → c.offsets i ≡ start args i
    offset i h = ap c.offsets {y = r.argc + i} (omega arith) ∙ k.offsets i h ∙ omega arith

-- For at most 16 arguments whose strings take at most 210 bytes and end before the pointers
-- begin, the argument count is theirs, every argument is in the table with its NUL, the pointers
-- point at their first characters in order, and a NULL ends them.
pub lay_out_lem :
    (args : List (List ℕ)) (table : Bytes)
    → length args ≤ 16
    → total args + (length args + 1) * 2 ≤ 242
    → total args ≤ 210
    → ArgvTable args (lay_out args table)
unfolding lay_out
lay_out_lem args table few apart fits =
    let r : Copying = record {
      argc = 0;
      strpos = 0;
      table = clear table 0 242;
      offsets = λ _. 0;
    } in
    let k = copy_args-Copied args r (omega arith) (omega arith) in
    let n : (copy_args args r).argc ≡ length args = omega (arith, k.argc) in
    rw n (pointed args r (copy_args args r) refl refl k few apart fits)
