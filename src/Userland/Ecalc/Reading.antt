-- ===== src/Userland/Ecalc/Reading.antt =====
-- The parser of userland/ecalc.c on the text of a term, one level after the other.
use manux.Common.{
  leb, Bool-cases, length, ℕ, suc, ◌-◌, ◌≤◌, ◌<◌, ◌≡◌, ◌≢◌, ap, ◌∙◌, inl, inr, Bool, true, false,
  some, List, [], ◌∷◌, arith,
}
use mathlib.Core.Path.{subst}
use manux.Userland.Ecalc.{Calc, next_token, scan, skip_spaces}
use manux.Userland.Ecalc.Parse.{◌>>=◌, rounds}
use manux.Userland.Ecalc.Rounds.{rounds-end, once-stop}
use manux.Userland.Ecalc.Terms.{
  symbol, level, is_chain, Term, number, answer, signed, binary, term_level, left_level, bare,
  digits, text, enclosed, value, seen,
}
use manux.Userland.Ecalc.Lexing.{
  ready, Follow, at_end, at_rpar, at_op, Follow-below, ready-close, ready-op,
}
use manux.Userland.Ecalc.Levels.{
  test_at, test-above, test-eof, test-rpar, apply_at, parser_at, further, parser_at-suc,
}

length-digits : (ds rest : List ℕ) → length rest ≤ length (digits ds rest)
unfolding digits
length-digits [] rest = omega arith
length-digits (d ∷ ds) rest = let more = length-digits ds rest in omega arith

length-enclosed :
    (b : Bool) (written : List ℕ → List ℕ)
    → ((rest : List ℕ) → length rest ≤ length (written rest))
    → (rest : List ℕ) → length rest ≤ length (enclosed b written rest)
length-enclosed true written h rest = h rest
length-enclosed false written h rest = let more = h (41 ∷ rest) in omega arith

-- A term is at least as long as what stands behind it.
pub length-bare : (t : Term) (rest : List ℕ) → length rest ≤ length (bare t rest)
unfolding bare
length-bare (number d ds) rest = length-digits (d ∷ ds) rest
length-bare answer rest = omega arith
length-bare (signed g t) rest =
    let more = length-enclosed (leb (term_level t) 0) (bare t) (length-bare t) rest in omega arith
length-bare (binary op a b) rest =
    let right = length-enclosed (leb (term_level b) (level op - 1)) (bare b) (length-bare b) rest in
    let left =
      length-enclosed (leb (term_level a) (left_level op)) (bare a) (length-bare a)
        (32 ∷ symbol op ∷ 32 ∷ enclosed (leb (term_level b) (level op - 1)) (bare b) rest) in
    omega arith

pub length-text : (l : ℕ) (t : Term) (rest : List ℕ) → length rest ≤ length (text l t rest)
length-text l t rest = length-enclosed (leb (term_level t) l) (bare t) (length-bare t) rest

-- Two levels write a term alike if no operation stands between them.
pub text-same :
    (l : ℕ) (t : Term) (rest : List ℕ) → term_level t ≢ suc l → text (suc l) t rest ≡ text l t rest
text-same l t rest h =
    let same : leb (term_level t) (suc l) ≡ leb (term_level t) l = ground arith in
    ap (λ b. enclosed b (bare t) rest) same

test-Follow :
    (l : ℕ) (rest : List ℕ) (s : Calc)
    → Follow (suc l) rest
    → test_at l (ready rest s).token ≡ false
unfolding next_token scan skip_spaces
test-Follow l _ s (at_end _) = test-eof l
test-Follow l _ s (at_rpar _ cs) = ap (λ s. test_at l s.token) (ready-close cs s) ∙ test-rpar l
test-Follow l _ s (at_op _ op cs h) =
    ap (λ s. test_at l s.token) (ready-op op cs s) ∙ test-above l op h

module _ (by_zero : ℕ → ℕ) where
  -- A level reads a term: its value, and the state at the token behind it.
  abbrev pub Reads : ℕ → Term → Type 0
  Reads l t =
      (fuel : ℕ) (rest : List ℕ) (s : Calc)
      → Follow l rest
      → length (text l t rest) < fuel
      → parser_at by_zero l fuel (ready (text l t rest) s)
        ≡ some (value by_zero s.result t, ready rest (seen by_zero t s))

  -- Level `l + 1` reads a term, and is then in its loop with fuel for what stands behind it.
  abbrev pub Opens : ℕ → Term → Type 0
  Opens l t =
      (fuel : ℕ) (rest : List ℕ) (s : Calc)
      → Follow l rest
      → length (text (suc l) t rest) < fuel
      → (m : ℕ) × (length rest < m)
        × (parser_at by_zero (suc l) fuel (ready (text (suc l) t rest) s)
            ≡ rounds (parser_at by_zero l fuel) (test_at l) (apply_at by_zero l) m
                (value by_zero s.result t, ready rest (seen by_zero t s)))

  -- A level above begins with the level below.
  pub begins :
      (l : ℕ) (t : Term)
      → l < 6
      → term_level t ≢ suc l
      → Reads l t
      → (fuel : ℕ) (rest : List ℕ) (s : Calc) → Follow l rest
      → length (text (suc l) t rest) < fuel
      → parser_at by_zero (suc l) fuel (ready (text (suc l) t rest) s)
        ≡ further by_zero
            (is_chain (suc l))
            l
            fuel
            (value by_zero s.result t, ready rest (seen by_zero t s))
  begins l t h other reads fuel rest s follow enough =
      let same = text-same l t rest other in
      let short : length (text l t rest) < fuel = subst (λ cs. length cs < fuel) same enough in
      ap (λ cs. parser_at by_zero (suc l) fuel (ready cs s)) same
      ∙ parser_at-suc by_zero l fuel (ready (text l t rest) s) h
      ∙ ap (λ o. o >>= further by_zero (is_chain (suc l)) l fuel) (reads fuel rest s follow short)

  pub Opens-up :
      (l : ℕ) (t : Term)
      → l < 6
      → term_level t ≢ suc l
      → is_chain (suc l) ≡ true
      → Reads l t
      → Opens l t
  Opens-up l t h other chain reads fuel rest s follow enough =
      let behind = length-text (suc l) t rest in
      (
        fuel,
        omega arith,
        begins l t h other reads fuel rest s follow enough
            ∙ ap
                (λ b.
                  further by_zero b l fuel
                    (value by_zero s.result t, ready rest (seen by_zero t s)))
                chain,
      )

  pub Reads-Opens : (l : ℕ) (t : Term) → Opens l t → Reads (suc l) t
  Reads-Opens l t opens fuel rest s follow enough =
      let (m, h, e) = opens fuel rest s (Follow-below l rest follow) enough in
      e
      ∙ rounds-end (parser_at by_zero l fuel) (test_at l) (apply_at by_zero l)
          (value by_zero s.result t, ready rest (seen by_zero t s)) (length rest) m h
          (test-Follow l rest (seen by_zero t s) follow)

  pub Reads-up : (l : ℕ) (t : Term) → l < 6 → term_level t ≢ suc l → Reads l t → Reads (suc l) t
  Reads-up l t h other reads = elim (Bool-cases (is_chain (suc l))) [
    | inl chain ↦ Reads-Opens l t (Opens-up l t h other chain reads)
    | inr single ↦ λ fuel rest s follow enough.
        begins l t h other reads fuel rest s (Follow-below l rest follow) enough
        ∙ ap
            (λ b.
              further by_zero b l fuel (value by_zero s.result t, ready rest (seen by_zero t s)))
            single
        ∙ once-stop (parser_at by_zero l fuel) (test_at l) (apply_at by_zero l)
            (value by_zero s.result t, ready rest (seen by_zero t s))
            (test-Follow l rest (seen by_zero t s) follow)
  ]
