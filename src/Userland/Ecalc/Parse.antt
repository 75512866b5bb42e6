-- ===== src/Userland/Ecalc/Parse.antt =====
-- The parser of userland/ecalc.c, which computes as it reads, and the rounds of `main`. `by_zero`
-- is what the division instruction of the machine makes of a division by zero.
use Prim.Native.Nat.{bit_and, bit_or, bit_xor}
use manux.Common.{
  ◌==◌, if◌then◌else◌, add16, sub16, mul16, is_negative, length, ℕ, zero, suc, ◌-◌, ◌/◌, Bool, true,
  false, ◌||◌, Option, none, some, List, [], ◌∷◌,
}
use manux.Userland.Ecalc.{
  Calc, expected_rpar, expected_operand, division_by_zero, equals, print, next_token, token_num,
  token_lpar, token_rpar, token_ans, token_add, token_sub, token_mul, token_div, token_exp,
  token_and, token_or, token_xor, token_not,
}

-- A value and the state behind it; `none` when the fuel is used up
abbrev pub Parser : Type 0
Parser = Calc → Option (ℕ × Calc)

infixl 5 ◌>>=◌
abbrev pub ◌>>=◌ {ℓ κ} : {A : Type ℓ} {B : Type κ} → Option A → (A → Option B) → Option B
some a >>= f = f a
none >>= f = none

-- The rounds `while (y > 0) { r *= x; y--; }`
unfoldable pub power_rounds : (x y r : ℕ) → ℕ
power_rounds x zero r = r
power_rounds x (suc y) r = power_rounds x y (mul16 r x)

unfoldable pub ipow : ℕ → ℕ → ℕ
ipow x y = if is_negative y then 0 else if y == 0 then 1 else power_rounds x y 1

-- -a of an `int`
abbrev pub negate : ℕ → ℕ
negate a = sub16 0 a

-- Division rounds toward 0.
unfoldable pub divide : ℕ → ℕ → ℕ
divide a b =
    if is_negative a
    then (if is_negative b then (65536 - a) / (65536 - b) else negate ((65536 - a) / b))
    else if is_negative b
    then negate (a / (65536 - b))
    else a / b

-- What an operation does with the values of its operands, and with the state behind them
abbrev pub Apply : Type 0
Apply = ℕ → ℕ → ℕ → Calc → ℕ × Calc

module _ (sub : Parser) (test : ℕ → Bool) (apply : Apply) where
  -- The rounds of `while (test(token)) { op = token; next_token(); rs = sub(); ... }`
  unfoldable pub rounds : ℕ → ℕ × Calc → Option (ℕ × Calc)
  rounds zero r = none
  rounds (suc fuel) r = elim (test r.1.token) [
    | false ↦ some r
    | true ↦ sub (next_token r.1) >>= λ rs. rounds fuel (apply r.1.token r.0 rs.0 rs.1)
  ]

  unfoldable pub once : ℕ × Calc → Option (ℕ × Calc)
  once r = elim (test r.1.token) [
    | false ↦ some r
    | true ↦ sub (next_token r.1) >>= λ rs. some (apply r.1.token r.0 rs.0 rs.1)
  ]

-- The tokens that each level goes on with
abbrev pub is_exponent : ℕ → Bool
is_exponent t = t == token_exp

abbrev pub is_product : ℕ → Bool
is_product t = (t == token_mul) || (t == token_div)

abbrev pub is_and : ℕ → Bool
is_and t = t == token_and

abbrev pub is_xor : ℕ → Bool
is_xor t = t == token_xor

abbrev pub is_or : ℕ → Bool
is_or t = t == token_or

abbrev pub is_sum : ℕ → Bool
is_sum t = (t == token_add) || (t == token_sub)

abbrev pub exponent_op : Apply
exponent_op op val rs s = (ipow val rs, s)

abbrev pub and_op : Apply
and_op op val rs s = (bit_and val rs, s)

abbrev pub xor_op : Apply
xor_op op val rs s = (bit_xor val rs, s)

abbrev pub or_op : Apply
or_op op val rs s = (bit_or val rs, s)

abbrev pub expr_op : Apply
expr_op op val rs s = (if op == token_add then add16 val rs else sub16 val rs, s)

-- line[0] == 'q'
unfoldable pub quits : List ℕ → Bool
quits [] = false
quits (c ∷ cs) = c == 113

module _ (by_zero : ℕ → ℕ) where
  abbrev pub term_op : Apply
  term_op op val rs s =
      if op == token_mul
      then (mul16 val rs, s)
      else if rs == 0
      then (by_zero val, print division_by_zero s)
      else (divide val rs, s)

  -- The levels above parse_factor, with the fuel of their loops
  module _ (parse_factor : Parser) (fuel : ℕ) where
    unfoldable pub exponent_by : Parser
    exponent_by s = parse_factor s >>= rounds parse_factor is_exponent exponent_op fuel

    unfoldable pub term_by : Parser
    term_by s = exponent_by s >>= rounds exponent_by is_product term_op fuel

    unfoldable pub and_by : Parser
    and_by s = term_by s >>= once term_by is_and and_op

    unfoldable pub xor_by : Parser
    xor_by s = and_by s >>= once and_by is_xor xor_op

    unfoldable pub or_by : Parser
    or_by s = xor_by s >>= once xor_by is_or or_op

    unfoldable pub expr_by : Parser
    expr_by s = or_by s >>= rounds or_by is_sum expr_op fuel

  -- Behind the expression in parentheses
  unfoldable pub close : ℕ × Calc → ℕ × Calc
  close r = (r.0, if r.1.token == token_rpar then next_token r.1 else print expected_rpar r.1)

  unfoldable pub parse_factor : (fuel : ℕ) → Parser
  parse_factor zero s = none
  parse_factor (suc fuel) s =
      if s.token == token_num
      then some (s.num, next_token s)
      else if s.token == token_lpar
      then (expr_by (parse_factor fuel) fuel (next_token s) >>= λ r. some (close r))
      else if s.token == token_add
      then parse_factor fuel (next_token s)
      else if s.token == token_sub
      then (parse_factor fuel (next_token s) >>= λ r. some (negate r.0, r.1))
      else if s.token == token_not
      then (parse_factor fuel (next_token s) >>= λ r. some (65535 - r.0, r.1))
      else if s.token == token_ans
      then some (s.result, next_token s)
      else some (0, print expected_operand s)

  -- parse_expr with its fuel
  unfoldable pub parse_expr : (fuel : ℕ) → Parser
  parse_expr fuel = expr_by (parse_factor fuel) fuel

  -- What is done with a line: the fuel is one more than its characters and its end.
  unfoldable pub calculate : List ℕ → Calc → Option Calc
  calculate line s =
      parse_expr (suc (suc (length line))) (next_token (record s { src = line })) >>= λ r.
      some (print (equals r.0) (record r.1 { result = r.0 }))

  -- The rounds of `main`, with the lines that are read; it waits when there is no more line.
  unfoldable pub main : List (List ℕ) → Calc → Option Calc
  main [] s = some s
  main (line ∷ lines) s = elim (quits line) [
    | true ↦ some s
    | false ↦ calculate line s >>= main lines
  ]
