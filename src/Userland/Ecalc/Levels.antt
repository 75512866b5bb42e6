-- ===== src/Userland/Ecalc/Levels.antt =====
-- The levels of the parser of userland/ecalc.c by their number, and what each operation does there.
use manux.Common.{
  ◌==◌, if◌then◌else◌, mul16, Bool-cases, ==→eq, is_negative, ℕ, zero, suc, ◌+◌, ◌-◌, ◌*◌, ◌/◌, ◌%◌,
  ◌^◌, ◌<◌, ◌≡◌, refl, sym, ap, ◌∙◌, inl, inr, Bool, true, false, Option, arith,
}
use native.Mathlib.Nat.{add-mul, mul_assoc, pow-zero, pow-succ', one-mul, add-mul-mod_self_left}
use manux.Userland.Ecalc.{Calc, operator, token_eof, token_rpar}
use manux.Userland.Ecalc.Parse.{
  Parser, Apply, ◌>>=◌, rounds, once, exponent_by, term_by, and_by, xor_by, or_by, expr_by,
  exponent_op, term_op, and_op, xor_op, or_op, expr_op, is_exponent, is_product, is_and, is_xor,
  is_or, is_sum, parse_factor, ipow, power_rounds,
}
use manux.Userland.Ecalc.Terms.{
  Op, power, times, over, conjunction, exclusive, disjunction, plus, minus, symbol, level, is_chain,
  op_value, op_seen,
}

-- The test with which level `l + 1` goes on
abbrev pub test_at : ℕ → ℕ → Bool
test_at zero = is_exponent
test_at (suc zero) = is_product
test_at (suc (suc zero)) = is_and
test_at (suc (suc (suc zero))) = is_xor
test_at (suc (suc (suc (suc zero)))) = is_or
test_at (suc (suc (suc (suc (suc l))))) = is_sum

pub test-op : (op : Op) → test_at (level op - 1) (operator (symbol op)) ≡ true
unfolding operator
test-op power = refl
test-op times = refl
test-op over = refl
test-op conjunction = refl
test-op exclusive = refl
test-op disjunction = refl
test-op plus = refl
test-op minus = refl

-- No level goes on with an operation of a higher one.
pub test-above : (l : ℕ) (op : Op) → suc l < level op → test_at l (operator (symbol op)) ≡ false
unfolding operator
test-above l power h = absurd (omega arith)
test-above zero times h = refl
test-above (suc l) times h = absurd (omega arith)
test-above zero over h = refl
test-above (suc l) over h = absurd (omega arith)
test-above zero conjunction h = refl
test-above (suc zero) conjunction h = refl
test-above (suc (suc l)) conjunction h = absurd (omega arith)
test-above zero exclusive h = refl
test-above (suc zero) exclusive h = refl
test-above (suc (suc zero)) exclusive h = refl
test-above (suc (suc (suc l))) exclusive h = absurd (omega arith)
test-above zero disjunction h = refl
test-above (suc zero) disjunction h = refl
test-above (suc (suc zero)) disjunction h = refl
test-above (suc (suc (suc zero))) disjunction h = refl
test-above (suc (suc (suc (suc l)))) disjunction h = absurd (omega arith)
test-above zero plus h = refl
test-above (suc zero) plus h = refl
test-above (suc (suc zero)) plus h = refl
test-above (suc (suc (suc zero))) plus h = refl
test-above (suc (suc (suc (suc zero)))) plus h = refl
test-above (suc (suc (suc (suc (suc l))))) plus h = absurd (omega arith)
test-above zero minus h = refl
test-above (suc zero) minus h = refl
test-above (suc (suc zero)) minus h = refl
test-above (suc (suc (suc zero))) minus h = refl
test-above (suc (suc (suc (suc zero)))) minus h = refl
test-above (suc (suc (suc (suc (suc l))))) minus h = absurd (omega arith)

pub test-eof : (l : ℕ) → test_at l token_eof ≡ false
test-eof zero = refl
test-eof (suc zero) = refl
test-eof (suc (suc zero)) = refl
test-eof (suc (suc (suc zero))) = refl
test-eof (suc (suc (suc (suc zero)))) = refl
test-eof (suc (suc (suc (suc (suc l))))) = refl

pub test-rpar : (l : ℕ) → test_at l token_rpar ≡ false
test-rpar zero = refl
test-rpar (suc zero) = refl
test-rpar (suc (suc zero)) = refl
test-rpar (suc (suc (suc zero))) = refl
test-rpar (suc (suc (suc (suc zero)))) = refl
test-rpar (suc (suc (suc (suc (suc l))))) = refl

mul16-mod : (r x : ℕ) → mul16 (r % 65536) x ≡ r * x % 65536
mul16-mod r x =
    let parts : r ≡ r % 65536 + 65536 * (r / 65536) = omega arith in
    let whole : r * x ≡ r % 65536 * x + 65536 * (r / 65536 * x) =
      ap (λ a. a * x) parts
      ∙ add-mul (r % 65536) (65536 * (r / 65536)) x
      ∙ ap (λ a. r % 65536 * x + a) (mul_assoc 65536 (r / 65536) x) in
    sym (ap (λ a. a % 65536) whole ∙ add-mul-mod_self_left (r % 65536 * x) 65536 (r / 65536 * x))

power_rounds-lem : (x y r : ℕ) → power_rounds x y (r % 65536) ≡ r * x ^ y % 65536
unfolding power_rounds
power_rounds-lem x zero r = rw (pow-zero x) (omega arith)
power_rounds-lem x (suc y) r =
    ap (power_rounds x y) (mul16-mod r x)
    ∙ power_rounds-lem x y (r * x)
    ∙ ap (λ a. a % 65536) (mul_assoc r x (x ^ y) ∙ ap (λ a. r * a) (sym (pow-succ' x y)))

-- The loop of ipow computes the power.
ipow-lem : (x y : ℕ) → ipow x y ≡ (if is_negative y then 0 else x ^ y % 65536)
unfolding ipow
ipow-lem x y = elim (Bool-cases (is_negative y)) [
  | inl negative ↦ rw (negative, ipow) refl
  | inr positive ↦ elim (Bool-cases (y == 0)) [
    | inl zero_power ↦
        rw (positive, zero_power, ipow) (rw (==→eq y 0 zero_power) (rw (pow-zero x) refl))
    | inr rounds_run ↦
        rw (positive, rounds_run, ipow)
          (power_rounds-lem x y 1 ∙ ap (λ a. a % 65536) (one-mul (x ^ y)))
  ]
]

module _ (by_zero : ℕ → ℕ) where
  abbrev pub apply_at : ℕ → Apply
  apply_at zero = exponent_op
  apply_at (suc zero) = term_op by_zero
  apply_at (suc (suc zero)) = and_op
  apply_at (suc (suc (suc zero))) = xor_op
  apply_at (suc (suc (suc (suc zero)))) = or_op
  apply_at (suc (suc (suc (suc (suc l))))) = expr_op

  abbrev pub parser_at : ℕ → ℕ → Parser
  parser_at zero fuel = parse_factor by_zero fuel
  parser_at (suc zero) fuel = exponent_by by_zero (parse_factor by_zero fuel) fuel
  parser_at (suc (suc zero)) fuel = term_by by_zero (parse_factor by_zero fuel) fuel
  parser_at (suc (suc (suc zero))) fuel = and_by by_zero (parse_factor by_zero fuel) fuel
  parser_at (suc (suc (suc (suc zero)))) fuel = xor_by by_zero (parse_factor by_zero fuel) fuel
  parser_at (suc (suc (suc (suc (suc zero))))) fuel = or_by by_zero (parse_factor by_zero fuel) fuel
  parser_at (suc (suc (suc (suc (suc (suc l)))))) fuel =
      expr_by by_zero (parse_factor by_zero fuel) fuel

  -- What level `l + 1` does behind its first operand
  abbrev pub further : Bool → ℕ → ℕ → ℕ × Calc → Option (ℕ × Calc)
  further true l fuel = rounds (parser_at l fuel) (test_at l) (apply_at l) fuel
  further false l fuel = once (parser_at l fuel) (test_at l) (apply_at l)

  pub parser_at-suc :
      (l fuel : ℕ) (s : Calc)
      → l < 6
      → parser_at (suc l) fuel s ≡ (parser_at l fuel s >>= further (is_chain (suc l)) l fuel)
  unfolding exponent_by term_by and_by xor_by or_by expr_by
  parser_at-suc zero fuel s h = refl
  parser_at-suc (suc zero) fuel s h = refl
  parser_at-suc (suc (suc zero)) fuel s h = refl
  parser_at-suc (suc (suc (suc zero))) fuel s h = refl
  parser_at-suc (suc (suc (suc (suc zero)))) fuel s h = refl
  parser_at-suc (suc (suc (suc (suc (suc zero))))) fuel s h = refl
  parser_at-suc (suc (suc (suc (suc (suc (suc l)))))) fuel s h = absurd (omega arith)

  pub apply-op :
      (op : Op) (x y : ℕ) (s : Calc)
      → apply_at (level op - 1) (operator (symbol op)) x y s
        ≡ (op_value by_zero op x y, op_seen op y s)
  unfolding operator
  apply-op power x y s = ap (λ v. (v, s)) (ipow-lem x y)
  apply-op times x y s = refl
  apply-op over x y s = elim (Bool-cases (y == 0)) [ inl z ↦ rw z refl | inr n ↦ rw n refl ]
  apply-op conjunction x y s = refl
  apply-op exclusive x y s = refl
  apply-op disjunction x y s = refl
  apply-op plus x y s = refl
  apply-op minus x y s = refl
