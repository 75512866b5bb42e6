-- ===== src/Userland/Ecalc/Terms.antt =====
-- What the calculator userland/ecalc.c is for: terms with their values, and how they are written
-- with the parentheses that they need.
use Prim.Native.Nat.{bit_and, bit_or, bit_xor}
use manux.Common.{
  leb, ◌==◌, if◌then◌else◌, add16, sub16, is_negative, ℕ, ◌+◌, ◌-◌, ◌*◌, ◌%◌, ◌^◌, Bool, true,
  false, ◌||◌, List, [], ◌∷◌,
}
use manux.Userland.Ecalc.{Calc, division_by_zero, print}
use manux.Userland.Ecalc.Parse.{divide, negate}

pub data Sign : Type 0 where
  positive : Sign
  negative : Sign
  complement : Sign

pub data Op : Type 0 where
  power : Op
  times : Op
  over : Op
  conjunction : Op
  exclusive : Op
  disjunction : Op
  plus : Op
  minus : Op

-- A number has at least one digit; a digit counts modulo 10.
pub data Term : Type 0 where
  number : ℕ → List ℕ → Term
  answer : Term
  signed : Sign → Term → Term
  binary : Op → Term → Term → Term

-- The character of an operation
abbrev pub sign_symbol : Sign → ℕ
sign_symbol positive = 43
sign_symbol negative = 45
sign_symbol complement = 126

abbrev pub symbol : Op → ℕ
symbol power = 101
symbol times = 42
symbol over = 47
symbol conjunction = 38
symbol exclusive = 94
symbol disjunction = 124
symbol plus = 43
symbol minus = 45

-- From 1, which binds tightest, to 6; a sign and a term without operation are at 0.
abbrev pub level : Op → ℕ
level power = 1
level times = 2
level over = 2
level conjunction = 3
level exclusive = 4
level disjunction = 5
level plus = 6
level minus = 6

abbrev pub term_level : Term → ℕ
term_level (binary op a b) = level op
term_level _ = 0

-- Whether a level takes several operations in a row
abbrev pub is_chain : ℕ → Bool
is_chain l = leb l 2 || leb 6 l

-- The level at which the left operand stands without parentheses
abbrev pub left_level : Op → ℕ
left_level op = if is_chain (level op) then level op else level op - 1

-- The digits in front of other text
unfoldable pub digits : List ℕ → List ℕ → List ℕ
digits [] rest = rest
digits (d ∷ ds) rest = (48 + d % 10) ∷ digits ds rest

-- In parentheses unless the condition holds
abbrev pub enclosed : Bool → (List ℕ → List ℕ) → List ℕ → List ℕ
enclosed true written rest = written rest
enclosed false written rest = 40 ∷ written (41 ∷ rest)

-- A term in front of other text
unfoldable pub bare : Term → List ℕ → List ℕ
bare (number d ds) rest = digits (d ∷ ds) rest
bare answer rest = 97 ∷ 110 ∷ 115 ∷ rest
bare (signed g t) rest = sign_symbol g ∷ enclosed (leb (term_level t) 0) (bare t) rest
bare (binary op a b) rest =
    enclosed (leb (term_level a) (left_level op)) (bare a)
      (32 ∷ symbol op ∷ 32 ∷ enclosed (leb (term_level b) (level op - 1)) (bare b) rest)

-- A term where an operation of at most this level may stand
abbrev pub text : ℕ → Term → List ℕ → List ℕ
text l t rest = enclosed (leb (term_level t) l) (bare t) rest

-- The number that the digits write, behind `acc`
unfoldable pub decimal : ℕ → List ℕ → ℕ
decimal acc [] = acc
decimal acc (d ∷ ds) = decimal (acc * 10 + d % 10) ds

abbrev pub sign_value : Sign → ℕ → ℕ
sign_value positive a = a
sign_value negative a = negate a
sign_value complement a = 65535 - a

-- What an operation with this right operand prints
abbrev pub op_seen : Op → ℕ → Calc → Calc
op_seen over b s = if b == 0 then print division_by_zero s else s
op_seen _ b s = s

module _ (by_zero : ℕ → ℕ) where
  abbrev pub op_value : Op → ℕ → ℕ → ℕ
  op_value power a b = if is_negative b then 0 else a ^ b % 65536
  op_value times a b = a * b % 65536
  op_value over a b = if b == 0 then by_zero a else divide a b
  op_value conjunction a b = bit_and a b
  op_value exclusive a b = bit_xor a b
  op_value disjunction a b = bit_or a b
  op_value plus a b = add16 a b
  op_value minus a b = sub16 a b

  -- The value, with the value of `ans`
  unfoldable pub value : ℕ → Term → ℕ
  value ans (number d ds) = decimal 0 (d ∷ ds) % 65536
  value ans answer = ans
  value ans (signed g t) = sign_value g (value ans t)
  value ans (binary op a b) = op_value op (value ans a) (value ans b)

  -- What working out a term leaves: the last number, and an error for each division by 0
  unfoldable pub seen : Term → Calc → Calc
  seen (number d ds) s = record s { num = decimal 0 (d ∷ ds) % 65536 }
  seen answer s = s
  seen (signed g t) s = seen t s
  seen (binary op a b) s = op_seen op (value s.result b) (seen b (seen a s))
