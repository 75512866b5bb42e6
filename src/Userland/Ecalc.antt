-- ===== src/Userland/Ecalc.antt =====
-- userland/ecalc.c, the calculator: its state and its tokens. An `int` is its pattern of 16 bits.
pub mod Parse
pub mod Rounds
pub mod Left
pub mod Ends
pub mod Terms
pub mod Lexing
pub mod Levels
pub mod Reading
pub mod Ops
pub mod Operations
pub mod Factors
pub mod Values
pub mod Second
pub mod Tests
use manux.Common.{
  ltb, leb, ◌==◌, if◌then◌else◌, add16, mul16, ℕ, zero, suc, ◌+◌, ◌-◌, ◌*◌, ◌%◌, Bool, true, false,
  ◌&&◌, List, [], ◌∷◌, ◌++◌,
}

abbrev pub token_null : ℕ
token_null = 0

abbrev pub token_eof : ℕ
token_eof = 1

abbrev pub token_num : ℕ
token_num = 2

abbrev pub token_lpar : ℕ
token_lpar = 3

abbrev pub token_rpar : ℕ
token_rpar = 4

abbrev pub token_ans : ℕ
token_ans = 5

abbrev pub token_add : ℕ
token_add = 10

abbrev pub token_sub : ℕ
token_sub = 11

abbrev pub token_mul : ℕ
token_mul = 12

abbrev pub token_div : ℕ
token_div = 13

abbrev pub token_exp : ℕ
token_exp = 14

abbrev pub token_and : ℕ
token_and = 20

abbrev pub token_or : ℕ
token_or = 21

abbrev pub token_xor : ℕ
token_xor = 22

abbrev pub token_not : ℕ
token_not = 23

-- What the calculator prints for a line: its errors, and the result.
pub data Message : Type 0 where
  expected_rpar : Message
  expected_operand : Message
  division_by_zero : Message
  equals : ℕ → Message

-- The global variables, `src` as the characters from the pointer to the NUL, and what was printed.
pub record Calc : Type 0 where
  pub src : List ℕ
  pub token : ℕ
  pub num : ℕ
  pub result : ℕ
  pub printed : List Message

unfoldable pub print : Message → Calc → Calc
print m s = record s { printed = s.printed ++ (m ∷ []) }

abbrev pub is_digit : ℕ → Bool
is_digit c = leb 48 c && leb c 57

-- The number that `atoi` makes of `acc` and the digits from the front
unfoldable pub atoi : (acc : ℕ) → List ℕ → ℕ
atoi acc [] = acc
atoi acc (c ∷ cs) =
    let more = atoi (add16 (mul16 acc 10) (c - 48)) cs in if is_digit c then more else acc

unfoldable pub skip_digits : List ℕ → List ℕ
skip_digits [] = []
skip_digits (c ∷ cs) = let more = skip_digits cs in if is_digit c then more else c ∷ cs

unfoldable pub skip_spaces : List ℕ → List ℕ
skip_spaces [] = []
skip_spaces (c ∷ cs) = let more = skip_spaces cs in if c == 32 then more else c ∷ cs

-- The token of one character
unfoldable pub operator : ℕ → ℕ
operator c =
    if c == 43
    then token_add
    else if c == 45
    then token_sub
    else if c == 42
    then token_mul
    else if c == 47
    then token_div
    else if c == 40
    then token_lpar
    else if c == 41
    then token_rpar
    else if c == 101
    then token_exp
    else if c == 38
    then token_and
    else if c == 124
    then token_or
    else if c == 94
    then token_xor
    else if c == 126
    then token_not
    else token_null

unfoldable pub starts_with : (front cs : List ℕ) → Bool
starts_with [] cs = true
starts_with (f ∷ fs) [] = false
starts_with (f ∷ fs) (c ∷ cs) = (c == f) && starts_with fs cs

-- strncmp(src, "ans", 3) == 0
abbrev pub is_ans : List ℕ → Bool
is_ans cs = starts_with (97 ∷ 110 ∷ 115 ∷ []) cs

-- src += n
unfoldable pub drop : ℕ → List ℕ → List ℕ
drop zero cs = cs
drop (suc n) [] = []
drop (suc n) (c ∷ cs) = drop n cs

-- next_token behind the spaces
unfoldable pub scan : List ℕ → Calc → Calc
scan [] s = record s { src = []; token = token_eof }
scan (c ∷ cs) s =
    if is_digit c
    then record s { src = skip_digits (c ∷ cs); token = token_num; num = atoi 0 (c ∷ cs) }
    else if is_ans (c ∷ cs)
    then record s { src = drop 3 (c ∷ cs); token = token_ans }
    else record s { src = cs; token = operator c }

unfoldable pub next_token : Calc → Calc
next_token s = scan (skip_spaces s.src) s
