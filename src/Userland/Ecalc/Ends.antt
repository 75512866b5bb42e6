-- ===== src/Userland/Ecalc/Ends.antt =====
-- The parser of userland/ecalc.c ends: what is left of a line gets shorter with every token.
use manux.Userland.Ecalc.Left.{
  left, left-start, left-next_token, Given, pick, Ends, ReadsNothing, loop-Ends, once-Ends,
}
use manux.Common.{
  ◌==◌, ◌-◌, Bool-cases, ==→eq, length, ℕ, zero, suc, ◌≤◌, ◌<◌, ◌≡◌, refl, sym, ap, ◌∙◌, ◌≢◌, inl,
  inr, true, some, List, [], ◌∷◌, arith,
}
use manux.Userland.Ecalc.{
  Calc, print, expected_operand, equals, token_num, token_lpar, token_rpar, token_ans, token_add,
  token_sub, token_not, token_mul, token_eof, next_token,
}
use manux.Userland.Ecalc.Parse.{
  negate, Parser, ◌>>=◌, exponent_by, term_by, and_by, xor_by, or_by, expr_by, exponent_op, term_op,
  and_op, xor_op, or_op, expr_op, is_exponent, is_product, is_and, is_xor, is_or, is_sum, close,
  parse_factor, parse_expr, calculate, main, quits,
}

module _ (by_zero : ℕ → ℕ) where
  term_op-ReadsNothing : ReadsNothing (term_op by_zero)
  unfolding print
  term_op-ReadsNothing op val rs s = elim (Bool-cases (op == token_mul)) [
    | inl times ↦ rw times refl
    | inr over ↦ elim (Bool-cases (rs == 0)) [
      | inl zero_divisor ↦ rw (over, zero_divisor) refl
      | inr divisor ↦ rw (over, divisor) refl
    ]
  ]

  expr_by-Ends :
      {fuel : ℕ} (factor : Parser) → Ends fuel factor → Ends fuel (expr_by by_zero factor fuel)
  unfolding expr_by or_by xor_by and_by term_by exponent_by
  expr_by-Ends {fuel} factor ends =
      loop-Ends (or_by by_zero factor fuel) is_sum expr_op
        (once-Ends (xor_by by_zero factor fuel) is_or or_op
          (once-Ends (and_by by_zero factor fuel) is_xor xor_op
            (once-Ends (term_by by_zero factor fuel) is_and and_op
              (loop-Ends (exponent_by by_zero factor fuel) is_product (term_op by_zero)
                (loop-Ends factor is_exponent exponent_op ends refl (λ op val rs s. refl)) refl
                term_op-ReadsNothing)
              refl (λ op val rs s. refl))
            refl (λ op val rs s. refl))
          refl (λ op val rs s. refl))
        refl (λ op val rs s. refl)

  left-close : (r : ℕ × Calc) → left (close by_zero r).1 ≤ left r.1
  unfolding close print
  left-close r = elim (Bool-cases (r.1.token == token_rpar)) [
    | inl closed ↦
        let shorter = left-next_token r.1 (λ e. cc (ap (λ t. t == token_rpar) e, closed)) in
        rw closed (omega arith)
    | inr open_ ↦ rw open_ (omega arith)
  ]

  module _ (fuel : ℕ) (ends : Ends fuel (parse_factor by_zero fuel)) (s : Calc)
      (enough : left s < suc fuel) where
    token-ne : (t : ℕ) → t ≢ token_eof → (s.token == t) ≡ true → s.token ≢ token_eof
    token-ne t h e k = h (sym (==→eq s.token t e) ∙ k)

    -- A factor of one token
    only :
        (t val : ℕ)
        → t ≢ token_eof
        → (s.token == t) ≡ true
        → Given (left s) (some (val, next_token s))
    only t val h e =
        let shorter = left-next_token s (token-ne t h e) in ((val, next_token s), refl, omega arith)

    -- A token, and what is parsed behind it
    behind :
        (t : ℕ) (parser : Parser) (finish : ℕ × Calc → ℕ × Calc)
        → Ends fuel parser
        → ((r : ℕ × Calc) → left (finish r).1 ≤ left r.1)
        → t ≢ token_eof
        → (s.token == t) ≡ true
        → Given (left s) (parser (next_token s) >>= λ r. some (finish r))
    behind t parser finish sub keeps h e =
        let shorter = left-next_token s (token-ne t h e) in
        let (r, read, rest) = sub (next_token s) (omega arith) in
        let last = keeps r in (finish r, ap (λ o. o >>= λ r. some (finish r)) read, omega arith)

    sign :
        (t : ℕ)
        → t ≢ token_eof
        → (s.token == t) ≡ true
        → Given (left s) (parse_factor by_zero fuel (next_token s))
    sign t h e =
        let shorter = left-next_token s (token-ne t h e) in
        let (r, read, rest) = ends (next_token s) (omega arith) in (r, read, omega arith)

    factor-Given : Given (left s) (parse_factor by_zero (suc fuel) s)
    unfolding parse_factor print
    factor-Given = pick (s.token == token_num) (only token_num s.num (λ e. omega arith)) (λ _.
        pick (s.token == token_lpar)
          (behind token_lpar (expr_by by_zero (parse_factor by_zero fuel) fuel) (close by_zero)
            (expr_by-Ends (parse_factor by_zero fuel) ends) left-close (λ e. omega arith))
          (λ _. pick (s.token == token_add) (sign token_add (λ e. omega arith)) (λ _.
            pick (s.token == token_sub)
              (behind token_sub (parse_factor by_zero fuel) (λ r. (negate r.0, r.1)) ends
                (λ r. omega arith) (λ e. omega arith))
              (λ _.
                pick (s.token == token_not)
                  (behind token_not (parse_factor by_zero fuel) (λ r. (65535 - r.0, r.1)) ends
                    (λ r. omega arith) (λ e. omega arith))
                  (λ _.
                    pick (s.token == token_ans) (only token_ans s.result (λ e. omega arith))
                      (λ _. ((0, print expected_operand s), refl, omega arith)))))))

  parse_factor-Ends : (fuel : ℕ) → Ends fuel (parse_factor by_zero fuel)
  parse_factor-Ends zero s h = absurd (omega arith)
  parse_factor-Ends (suc fuel) s h = factor-Given fuel (parse_factor-Ends fuel) s h

  pub parse_expr-Ends : (fuel : ℕ) → Ends fuel (parse_expr by_zero fuel)
  unfolding parse_expr
  parse_expr-Ends fuel = expr_by-Ends (parse_factor by_zero fuel) (parse_factor-Ends fuel)

  -- Every line is worked out, its result printed last.
  calculate-ends :
      (line : List ℕ) (s : Calc)
      → (r : ℕ × Calc) × (calculate by_zero line s
          ≡ some (print (equals r.0) (record r.1 { result = r.0 })))
  unfolding calculate
  calculate-ends line s =
      let start : Calc = record s { src = line } in
      let first = left-start start in
      let (r, read, rest) =
        parse_expr-Ends (suc (suc (length line))) (next_token start) (omega arith) in
      (r, ap (λ o. o >>= λ r. some (print (equals r.0) (record r.1 { result = r.0 }))) read)

  -- For every list of lines, whatever they hold, the rounds of `main` come to a state: the parser
  -- gives a result for each line with the fuel that the line gives it.
  pub main_ends : (lines : List (List ℕ)) (s : Calc) → (t : Calc) × (main by_zero lines s ≡ some t)
  unfolding main
  main_ends [] s = (s, refl)
  main_ends (line ∷ lines) s = elim (Bool-cases (quits line)) [
    | inl quit ↦ (s, rw (quit, main) refl)
    | inr next ↦
        let (r, done) = calculate-ends line s in
        let (t, rest) = main_ends lines (print (equals r.0) (record r.1 { result = r.0 })) in
        (t, rw (next, done, main) rest)
  ]
