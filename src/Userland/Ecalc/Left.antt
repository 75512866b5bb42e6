-- ===== src/Userland/Ecalc/Left.antt =====
-- What is left of a line of userland/ecalc.c gets shorter with every token, so its loops end.
use manux.Common.{
  ◌==◌, if◌then◌else◌, Bool-cases, length, ℕ, zero, suc, ◌≤◌, ◌<◌, ◌≡◌, refl, ap, ◌∙◌, ◌≢◌, inl,
  inr, Bool, true, false, Option, some, List, [], ◌∷◌, arith,
}
use manux.Userland.Ecalc.{
  Calc, token_eof, next_token, scan, skip_digits, skip_spaces, drop, starts_with, is_digit, is_ans,
}
use manux.Userland.Ecalc.Parse.{Parser, Apply, ◌>>=◌, rounds, once}
use manux.Userland.Ecalc.Rounds.{rounds-stop, rounds-more, once-stop, once-more}

-- The tokens that are left, at most.
abbrev pub left : Calc → ℕ
left s = if s.token == token_eof then 0 else suc (length s.src)

length-skip_digits : (cs : List ℕ) → length (skip_digits cs) ≤ length cs
unfolding skip_digits
length-skip_digits [] = omega arith
length-skip_digits (c ∷ cs) = ground (arith, length-skip_digits cs)

length-skip_spaces : (cs : List ℕ) → length (skip_spaces cs) ≤ length cs
unfolding skip_spaces
length-skip_spaces [] = omega arith
length-skip_spaces (c ∷ cs) = ground (arith, length-skip_spaces cs)

length-drop : (cs : List ℕ) → is_ans cs ≡ true → length (drop 3 cs) < length cs
unfolding drop starts_with
length-drop [] e = cc
length-drop (a ∷ []) e = ground arith
length-drop (a ∷ b ∷ []) e = ground arith
length-drop (a ∷ n ∷ s ∷ cs) e = omega arith

skip_digits-digit :
    (c : ℕ) (cs : List ℕ) → is_digit c ≡ true → length (skip_digits (c ∷ cs)) ≤ length cs
unfolding skip_digits
skip_digits-digit c cs e = rw e (length-skip_digits cs)

left-scan : (cs : List ℕ) (s : Calc) → left (scan cs s) ≤ length cs
unfolding scan
left-scan [] s = omega arith
left-scan (c ∷ cs) s = elim (Bool-cases (is_digit c)) [
  | inl digit ↦ rw digit (ground (arith, skip_digits-digit c cs digit))
  | inr other ↦ elim (Bool-cases (is_ans (c ∷ cs))) [
    | inl ans ↦ rw (other, ans) (ground (arith, length-drop (c ∷ cs) ans))
    | inr sign ↦ rw (other, sign) (ground arith)
  ]
]

pub left-start : (s : Calc) → left (next_token s) ≤ length s.src
unfolding next_token
left-start s =
    let skipped = length-skip_spaces s.src in
    let scanned = left-scan (skip_spaces s.src) s in omega arith

pub left-next_token : (s : Calc) → s.token ≢ token_eof → left (next_token s) < left s
unfolding next_token
left-next_token s h =
    let skipped = length-skip_spaces s.src in
    let scanned = left-scan (skip_spaces s.src) s in ground (arith, skipped, scanned)

-- There is a result, and no more is left than there was.
abbrev pub Given : ℕ → Option (ℕ × Calc) → Type 0
Given n o = (r : ℕ × Calc) × (o ≡ some r) × (left r.1 ≤ n)

pub pick :
    {n : ℕ} {x y : Option (ℕ × Calc)} (b : Bool)
    → (b ≡ true → Given n x)
    → (b ≡ false → Given n y)
    → Given n (if b then x else y)
pick true h k = h refl
pick false h k = k refl

-- With this fuel a parser gives a result.
abbrev pub Ends : ℕ → Parser → Type 0
Ends fuel parser = (s : Calc) → left s < fuel → Given (left s) (parser s)

-- An operation that reads nothing
abbrev pub ReadsNothing : Apply → Type 0
ReadsNothing apply = (op val rs : ℕ) (s : Calc) → left (apply op val rs s).1 ≡ left s

module _ {fuel : ℕ} (sub : Parser) (test : ℕ → Bool) (apply : Apply) (ends : Ends fuel sub)
    (no_eof : test token_eof ≡ false) (reads_nothing : ReadsNothing apply) where
  test-more : (t : ℕ) → test t ≡ true → t ≢ token_eof
  test-more t e h = cc (ap test h, e, no_eof)

  rounds-Ends :
      (n : ℕ) (r : ℕ × Calc)
      → left r.1 < n
      → left r.1 < fuel
      → Given (left r.1) (rounds sub test apply n r)
  rounds-Ends zero r m h = absurd (omega arith)
  rounds-Ends (suc n) r m h = elim (Bool-cases (test r.1.token)) [
    | inr stop ↦ (r, rounds-stop sub test apply r n stop, omega arith)
    | inl more ↦
        let shorter = left-next_token r.1 (test-more r.1.token more) in
        let (rs, read, behind) = ends (next_token r.1) (omega arith) in
        let same = reads_nothing r.1.token r.0 rs.0 rs.1 in
        let (r', rest, last) =
          rounds-Ends n (apply r.1.token r.0 rs.0 rs.1) (omega arith) (omega arith) in
        (r', rounds-more sub test apply r rs more read n ∙ rest, omega arith)
  ]

  pub loop-Ends : Ends fuel (λ s. sub s >>= rounds sub test apply fuel)
  loop-Ends s h =
      let (r, first, behind) = ends s h in
      let (r', rest, last) = rounds-Ends fuel r (omega arith) (omega arith) in
      (r', ap (λ o. o >>= rounds sub test apply fuel) first ∙ rest, omega arith)

  pub once-Ends : Ends fuel (λ s. sub s >>= once sub test apply)
  once-Ends s h =
      let (r, first, behind) = ends s h in
      let start = ap (λ o. o >>= once sub test apply) first in
      elim (Bool-cases (test r.1.token)) [
        | inr stop ↦ (r, start ∙ once-stop sub test apply r stop, behind)
        | inl more ↦
            let shorter = left-next_token r.1 (test-more r.1.token more) in
            let (rs, read, rest) = ends (next_token r.1) (omega arith) in
            let same = reads_nothing r.1.token r.0 rs.0 rs.1 in
            let result = apply r.1.token r.0 rs.0 rs.1 in
            (result, start ∙ once-more sub test apply r rs more read, omega arith)
      ]
