-- ===== src/Userland/Ecalc/Tests.antt =====
-- The calculator of userland/ecalc.c on concrete lines, and its theorems at them.
use manux.Common.{ℕ, ◌≡◌, refl, Option, some, none, [], ◌∷◌}
use manux.Common.Text.{codes}
use manux.Userland.Ecalc.Terms.{
  conjunction, Term, number, answer, signed, binary, negative, plus, minus, times, over, value,
  seen, bare, digits, decimal,
}
use manux.Userland.Ecalc.Values.{calculate_lem}
use manux.Userland.Ecalc.Second.{calculate_second}
use manux.Userland.Ecalc.Ends.{main_ends}
use manux.Userland.Ecalc.{
  token_eof, token_and, division_by_zero, equals, Calc, next_token, scan, skip_spaces, skip_digits,
  starts_with, drop, operator, atoi, print,
}
use manux.Userland.Ecalc.Parse.{
  calculate, main, parse_expr, expr_by, or_by, xor_by, and_by, term_by, exponent_by, parse_factor,
  rounds, once, close, divide, ipow, power_rounds,
}

abbrev fresh : Calc
fresh = record { src = []; token = 0; num = 0; result = 5; printed = [] }

abbrev value_of : Option Calc → ℕ
value_of none = 77777
value_of (some s) = s.result

abbrev ignored : ℕ → ℕ
ignored a = a

mixed : value_of (calculate ignored (codes "1 + 2*3") fresh) ≡ 7
unfolding starts_with drop calculate parse_expr expr_by or_by xor_by and_by term_by exponent_by
    parse_factor next_token scan skip_spaces rounds skip_digits operator once close divide ipow
    power_rounds atoi print
mixed = refl

signs : value_of (calculate ignored (codes "(1 - ans) e 3 / -2") fresh) ≡ 32
unfolding starts_with drop calculate parse_expr expr_by or_by xor_by and_by term_by exponent_by
    parse_factor next_token scan skip_spaces rounds skip_digits operator once close divide ipow
    power_rounds atoi print
signs = refl

-- A missing parenthesis is reported, and the value goes on.
open_paren : value_of (calculate ignored (codes "2 * (3") fresh) ≡ 6
unfolding starts_with drop calculate parse_expr expr_by or_by xor_by and_by term_by exponent_by
    parse_factor next_token scan skip_spaces rounds skip_digits operator once close divide ipow
    power_rounds atoi print
open_paren = refl

-- -3 * (12 - ans) + 7 / 0
abbrev sample : Term
sample =
    binary plus
      (binary times (signed negative (number 3 [])) (binary minus (number 1 (2 ∷ [])) answer))
      (binary over (number 7 []) (number 0 []))

calculate_example :
    calculate ignored (codes "-3 * (12 - ans) + 7 / 0") fresh
    ≡ some (record {
      src = [];
      token = token_eof;
      num = 0;
      result = 65522;
      printed = division_by_zero ∷ equals 65522 ∷ [];
    })
unfolding value seen bare digits decimal next_token scan skip_spaces print divide
calculate_example = calculate_lem ignored sample fresh

main_ends_example :
    (t : Calc) × (main ignored (codes "1 + 2" ∷ codes ") ~" ∷ codes "q" ∷ []) fresh ≡ some t)
main_ends_example = main_ends ignored (codes "1 + 2" ∷ codes ") ~" ∷ codes "q" ∷ []) fresh

calculate_second_example :
    calculate ignored (codes "7 & 3 & 1") fresh
    ≡ some (record {
      src = 32 ∷ 49 ∷ [];
      token = token_and;
      num = 3;
      result = 3;
      printed = equals 3 ∷ [];
    })
unfolding value seen bare digits decimal next_token scan skip_spaces print starts_with operator
calculate_second_example =
    calculate_second ignored conjunction refl (number 7 []) (number 3 []) (49 ∷ []) fresh
