-- ===== src/Userland/Ecalc/Factors.antt =====
-- parse_factor of userland/ecalc.c on the text of a term.
use manux.Common.{length, ℕ, zero, suc, ◌-◌, ◌%◌, ◌≡◌, refl, ap, ◌∙◌, some, List, ◌∷◌, arith}
use manux.Userland.Ecalc.{Calc, operator, next_token, token_num, token_ans, token_lpar, token_rpar}
use manux.Userland.Ecalc.Parse.{◌>>=◌, negate, parse_factor, expr_by, close}
use manux.Userland.Ecalc.Terms.{
  Sign, positive, negative, complement, sign_symbol, sign_value, Op, power, times, over,
  conjunction, exclusive, disjunction, plus, minus, Term, number, answer, signed, binary, bare,
  text, decimal, value, seen,
}
use manux.Userland.Ecalc.Lexing.{
  ready, next_token-any, at_rpar, ready-number, ready-answer, ready-open, ready-close, ready-sign,
}
use manux.Userland.Ecalc.Reading.{Reads}

text-group :
    (op : Op) (a b : Term) (rest : List ℕ)
    → text 0 (binary op a b) rest ≡ 40 ∷ text 6 (binary op a b) (41 ∷ rest)
text-group power a b rest = refl
text-group times a b rest = refl
text-group over a b rest = refl
text-group conjunction a b rest = refl
text-group exclusive a b rest = refl
text-group disjunction a b rest = refl
text-group plus a b rest = refl
text-group minus a b rest = refl

module _ (by_zero : ℕ → ℕ) where
  pub Reads-number : (d : ℕ) (ds : List ℕ) → Reads by_zero 0 (number d ds)
  unfolding parse_factor value seen bare
  Reads-number d ds zero rest s follow h = absurd (omega arith)
  Reads-number d ds (suc fuel) rest s follow h =
      let n = decimal 0 (d ∷ ds) % 65536 in
      ap (parse_factor by_zero (suc fuel)) (ready-number 0 d ds rest s follow)
      ∙ ap (λ u. some (n, u)) (next_token-any rest token_num (record s { num = n }))

  pub Reads-answer : Reads by_zero 0 answer
  unfolding parse_factor value seen bare
  Reads-answer zero rest s follow h = absurd (omega arith)
  Reads-answer (suc fuel) rest s follow h =
      ap (parse_factor by_zero (suc fuel)) (ready-answer rest s)
      ∙ ap (λ u. some (s.result, u)) (next_token-any rest token_ans s)

  -- What a sign makes of the result of the factor behind it
  after_sign : Sign → ℕ × Calc → ℕ × Calc
  after_sign g r = (sign_value g r.0, r.1)

  factor-sign :
      (g : Sign) (fuel : ℕ) (cs : List ℕ) (s : Calc) (r : ℕ × Calc)
      → parse_factor by_zero fuel
          (next_token (record s { src = cs; token = operator (sign_symbol g) }))
        ≡ some r
      → parse_factor by_zero (suc fuel) (record s { src = cs; token = operator (sign_symbol g) })
        ≡ some (sign_value g r.0, r.1)
  unfolding parse_factor operator
  factor-sign positive fuel cs s r e = e
  factor-sign negative fuel cs s r e = ap (λ o. o >>= λ r. some (negate r.0, r.1)) e
  factor-sign complement fuel cs s r e = ap (λ o. o >>= λ r. some (65535 - r.0, r.1)) e

  pub Reads-signed : (g : Sign) (t : Term) → Reads by_zero 0 t → Reads by_zero 0 (signed g t)
  unfolding value seen bare
  Reads-signed g t reads zero rest s follow h = absurd (omega arith)
  Reads-signed g t reads (suc fuel) rest s follow h =
      ap (parse_factor by_zero (suc fuel)) (ready-sign g (text 0 t rest) s)
      ∙ factor-sign g fuel (text 0 t rest) s
          (value by_zero s.result t, ready rest (seen by_zero t s))
          (ap (parse_factor by_zero fuel)
              (next_token-any (text 0 t rest) (operator (sign_symbol g)) s)
            ∙ reads fuel rest s follow (omega arith))

  close-ready :
      (v : ℕ) (rest : List ℕ) (s : Calc)
      → close by_zero (v, ready (41 ∷ rest) s) ≡ (v, ready rest s)
  unfolding close
  close-ready v rest s =
      ap (λ u. close by_zero (v, u)) (ready-close rest s)
      ∙ ap (λ u. (v, u)) (next_token-any rest token_rpar s)

  -- An expression in parentheses
  pub Reads-group :
      (op : Op) (a b : Term) → Reads by_zero 6 (binary op a b) → Reads by_zero 0 (binary op a b)
  unfolding parse_factor
  Reads-group op a b reads zero rest s follow h = absurd (omega arith)
  Reads-group op a b reads (suc fuel) rest s follow h =
      let t = binary op a b in
      let same = text-group op a b rest in
      let inner : List ℕ = text 6 t (41 ∷ rest) in
      let long = ap length same in
      ap (λ cs. parse_factor by_zero (suc fuel) (ready cs s)) same
      ∙ ap (parse_factor by_zero (suc fuel)) (ready-open inner s)
      ∙ ap (λ u. expr_by by_zero (parse_factor by_zero fuel) fuel u >>= λ r. some (close by_zero r))
          (next_token-any inner token_lpar s)
      ∙ ap (λ o. o >>= λ r. some (close by_zero r))
          (reads fuel (41 ∷ rest) s (at_rpar 6 rest) (omega arith))
      ∙ ap some (close-ready (value by_zero s.result t) rest (seen by_zero t s))
