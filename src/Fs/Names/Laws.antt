-- ===== src/Fs/Names/Laws.antt =====
-- What a lookup finds, and what a name that strncpy stored compares equal to.
use manux.Common.{
  ltb, leb, ◌==◌, if◌then◌else◌, Bool-cases, ==→eq, ==→ne, Bytes, IsBytes, store, ℕ, zero, suc, ◌+◌,
  ◌-◌, ◌≤◌, ◌<◌, ◌≡◌, refl, ap, ◌∙◌, ◌≢◌, ◌⊎◌, inl, inr, Bool, true, false, ◌&&◌, ◌||◌, Option,
  none, some, arith,
}
use manux.Fs.Layout.{filecount}
use manux.Fs.State.{State}
use manux.Fs.Names.{
  strncmp_eq, strncpy_from, strncpy, has_name, search_name, find_file, get_file_index,
}

-- `i` is the first of the entries from `start` up to `start + n` that has the name.
pub record FirstNamed (files fname : Bytes) (start n i : ℕ) : Type 0 where
  pub from : start ≤ i
  pub below : i < start + n
  pub named : has_name files fname i ≡ true
  pub first : (j : ℕ) → start ≤ j → j < i → has_name files fname j ≡ false

pub data Found (files fname : Bytes) (start n : ℕ) : Option ℕ → Type 0 where
  hit : {i : ℕ} → FirstNamed files fname start n i → Found files fname start n (some i)
  miss :
      ((j : ℕ) → start ≤ j → j < start + n → has_name files fname j ≡ false)
      → Found files fname start n none

Found-later :
    {files fname : Bytes} {start n : ℕ} {r : Option ℕ}
    → has_name files fname start ≡ false
    → Found files fname (start + 1) n r
    → Found files fname start (suc n) r
Found-later {start} no_match (hit f) = hit (record {
  from = omega (arith, f.from);
  below = omega (arith, f.below);
  named = f.named;
  first = λ j lo hi. elim (Bool-cases (j == start)) [
    | inl e ↦ rw (==→eq j start e) no_match
    | inr e ↦ f.first j (omega (arith, ==→ne j start e)) hi
  ];
})
Found-later {start} no_match (miss all) = miss λ j lo hi. elim (Bool-cases (j == start)) [
  | inl e ↦ rw (==→eq j start e) no_match
  | inr e ↦ all j (omega (arith, ==→ne j start e)) (omega arith)
]

pub search_name-Found :
    (n start : ℕ) (files fname : Bytes)
    → Found files fname start n (search_name n start files fname)
unfolding search_name
search_name-Found zero start files fname = miss λ j lo hi. absurd (omega arith)
search_name-Found (suc n) start files fname = elim (Bool-cases (has_name files fname start)) [
  | inl yes_match ↦ rw yes_match (
      hit (record {
        from = omega arith;
        below = omega arith;
        named = yes_match;
        first = λ j lo hi. absurd (omega arith);
      }))
  | inr no_match ↦ rw no_match (Found-later no_match (search_name-Found n (start + 1) files fname))
]

-- find_file answers the first of the first `filecount` entries whose name compares equal, and NULL
-- exactly when none of them does.
pub find_file_lem :
    (s : State) (fname : Bytes) → Found s.files fname 0 (filecount s.root) (find_file s fname)
unfolding find_file
find_file_lem s fname = search_name-Found (filecount s.root) 0 s.files fname

-- An entry at or behind `filecount` is never found, whatever its name.
pub find_file-lt :
    (s : State) (fname : Bytes) {i : ℕ} → find_file s fname ≡ some i → i < filecount s.root
find_file-lt s fname {i} e = go (find_file s fname) e (find_file_lem s fname)
  where
    go :
        (r : Option ℕ)
        → r ≡ some i
        → Found s.files fname 0 (filecount s.root) r
        → i < filecount s.root
    go (some k) e (hit f) = ground (arith, f.below)
    go none e (miss _) = cc

pub get_file_index-some :
    (s : State) (fname : Bytes) {f : ℕ} → find_file s fname ≡ some f → get_file_index s fname ≡ f
unfolding get_file_index
get_file_index-some s fname e = ground (arith, e)

-- `src` is a C string of length `n`.
pub record IsText (src : Bytes) (n : ℕ) : Type 0 where
  pub bytes : IsBytes src
  pub before : (i : ℕ) → i < n → src i ≢ 0
  pub nul : src n ≡ 0

-- Behind the NUL there are only zeros.
strncpy_from-zeros :
    (n : ℕ) (dst : Bytes) (at : ℕ) (src : Bytes) (i j : ℕ)
    → strncpy_from n true dst at src i j ≡ (if leb at j && ltb j (at + n) then 0 else dst j)
unfolding strncpy_from store
strncpy_from-zeros zero dst at src i j = ground arith
strncpy_from-zeros (suc n) dst at src i j =
    ground (arith, strncpy_from-zeros n (store dst at 0) (at + 1) src (i + 1) j)

-- What strncpy writes, from position `i` of the source on.
strncpy_from-get :
    (n : ℕ) (dst : Bytes) (at : ℕ) (src : Bytes) (l i j : ℕ)
    → IsText src l
    → i ≤ l
    → strncpy_from n false dst at src i j ≡ (
        if leb at j && ltb j (at + n)
        then (if ltb (i + (j - at)) l then src (i + (j - at)) else 0)
        else dst j)
unfolding strncpy_from store
strncpy_from-get zero dst at src l i j t le = ground arith
strncpy_from-get (suc n) dst at src l i j t le = ground (
  arith,
  t.before i,
  t.nul,
  t.bytes i,
  strncpy_from-zeros n (store dst at 0) (at + 1) src (i + 1) j,
  strncpy_from-get n (store dst at (src i)) (at + 1) src l (i + 1) j t,
)

-- strncpy of a C string: its characters, then zeros, `n` bytes in all, and nothing outside them.
pub strncpy-get :
    (dst : Bytes) (at : ℕ) (src : Bytes) (n l j : ℕ)
    → IsText src l
    → strncpy dst at src n j
      ≡ (if leb at j && ltb j (at + n) then (if ltb (j - at) l then src (j - at) else 0) else dst j)
unfolding strncpy
strncpy-get dst at src n l j t =
    strncpy_from-get n dst at src l 0 j t (omega arith)
    ∙ ap (λ k. if leb at j && ltb j (at + n) then (if ltb k l then src k else 0) else dst j)
        (omega arith)

-- Two texts compare equal when they agree up to the NUL.
pub strncmp_eq-agree :
    (n : ℕ) (a b : Bytes) (i j l : ℕ)
    → ((k : ℕ) → k < l → a (i + k) ≡ b (j + k))
    → a (i + l) ≡ 0
    → b (j + l) ≡ 0
    → strncmp_eq n a i b j ≡ true
unfolding strncmp_eq
strncmp_eq-agree zero a b i j l same ea eb = refl
strncmp_eq-agree (suc n) a b i j zero same ea eb =
    let ei : a i ≡ 0 = ap a {y = i + 0} (omega arith) ∙ ea in
    let ej : b j ≡ 0 = ap b {y = j + 0} (omega arith) ∙ eb in ground arith
strncmp_eq-agree (suc n) a b i j (suc l) same ea eb =
    let first : a i ≡ b j =
      ap a {y = i + 0} (omega arith) ∙ same 0 (omega arith) ∙ ap b {y = j} (omega arith) in
    ground (
      arith,
      first,
      strncmp_eq-agree n a b (i + 1) (j + 1) l
          (λ k h.
            ap a {y = i + suc k} (omega arith) ∙ same (suc k) (omega arith) ∙ ap b (omega arith))
          (ap a (omega arith) ∙ ea) (ap b (omega arith) ∙ eb),
    )

-- Texts that differ at a place before which neither ends do not compare equal.
pub strncmp_eq-differ :
    (n : ℕ) (a b : Bytes) (i j l : ℕ)
    → l < n
    → ((k : ℕ) → k < l → a (i + k) ≢ 0)
    → a (i + l) ≢ b (j + l)
    → strncmp_eq n a i b j ≡ false
unfolding strncmp_eq
strncmp_eq-differ (suc n) a b i j zero h live ne =
    let here : a i ≢ b j = λ e. ne (ap a {y = i} (omega arith) ∙ e ∙ ap b (omega arith)) in
    ground arith
strncmp_eq-differ (suc n) a b i j (suc l) h live ne =
    let here : a i ≢ 0 = λ e. live 0 (omega arith) (ap a {y = i} (omega arith) ∙ e) in
    ground (
      arith,
      here,
      strncmp_eq-differ n a b (i + 1) (j + 1) l (omega arith)
          (λ k lt e. live (suc k) (omega arith) (ap a (omega arith) ∙ e))
          (λ e. ne (ap a (omega arith) ∙ e ∙ ap b (omega arith))),
    )
strncmp_eq-differ zero a b i j l h live ne = absurd (omega arith)

strncpy_from-outside :
    (n : ℕ) (ended : Bool) (dst : Bytes) (at : ℕ) (src : Bytes) (i j : ℕ)
    → j < at ⊎ at + n ≤ j
    → strncpy_from n ended dst at src i j ≡ dst j
unfolding strncpy_from store
strncpy_from-outside zero ended dst at src i j h = refl
strncpy_from-outside (suc n) ended dst at src i j h =
    let over = ended || src i == 0 in
    strncpy_from-outside n over (store dst at (if over then 0 else src i)) (at + 1) src (i + 1) j
      (elim h [ inl a ↦ inl (omega arith) | inr b ↦ inr (omega arith) ])
    ∙ ground arith

pub strncpy-outside :
    (dst : Bytes) (at : ℕ) (src : Bytes) (n j : ℕ)
    → j < at ⊎ at + n ≤ j
    → strncpy dst at src n j ≡ dst j
unfolding strncpy
strncpy-outside dst at src n j h = strncpy_from-outside n false dst at src 0 j h
