-- ===== src/Common/Digits.antt =====
-- The binary digits of the results of `&`, `|` and `^`, at any numbers.
use Prim.Native.Nat.{
  ℕ, zero, suc, ◌+◌, ◌*◌, ◌/◌, ◌%◌, ◌^◌, ◌≤◌, ◌<◌, min, max, differ, digits, bitwise,
}
use Prim.Native.Nat.{bit_and, bit_or, bit_xor, bit_and-bitwise, bit_or-bitwise, bit_xor-bitwise}
use mathlib.Core.Path.{◌≡◌, refl, sym, ◌∙◌, ap}
use native.Mathlib.Omega.{arith}

-- The digit at position `k`
abbrev pub digit : ℕ → ℕ → ℕ
digit zero x = x % 2
digit (suc k) x = digit k (x / 2)

pub digit-lt : (k x : ℕ) → digit k x < 2
digit-lt zero x = omega arith
digit-lt (suc k) x = digit-lt k (x / 2)

digit-zero : (k : ℕ) → digit k 0 ≡ 0
digit-zero zero = refl
digit-zero (suc k) = digit-zero k

-- A digit of a result is that of the two digits at its place, if this holds once the first number
-- has run out.
module _ (rest : ℕ → ℕ) (op : ℕ → ℕ → ℕ) (behind : (k b : ℕ) → digit k (rest b) ≡ op 0 (digit k b))
    (binary : (x y : ℕ) → x < 2 → y < 2 → op x y < 2) where
  digit-digits :
      (k count a b : ℕ)
      → a ≤ count
      → digit k (digits rest op count a b) ≡ op (digit k a) (digit k b)
  digit-digits k zero zero b le = behind k b ∙ ap (λ d. op d (digit k b)) (sym (digit-zero k))
  digit-digits k zero (suc a) b le = absurd (omega arith)
  digit-digits k (suc count) zero b le =
      behind k b ∙ ap (λ d. op d (digit k b)) (sym (digit-zero k))
  digit-digits zero (suc count) (suc a) b le =
      omega (arith, binary (suc a % 2) (b % 2) (omega arith) (omega arith))
  digit-digits (suc k) (suc count) (suc a) b le =
      let low = binary (suc a % 2) (b % 2) (omega arith) (omega arith) in
      let high : digits rest op (suc count) (suc a) b / 2
          ≡ digits rest op count (suc a / 2) (b / 2) =
        omega (arith, low) in
      ap (digit k) high ∙ digit-digits k count (suc a / 2) (b / 2) (omega arith)

  digit-bitwise : (k a b : ℕ) → digit k (bitwise rest op a b) ≡ op (digit k a) (digit k b)
  digit-bitwise k a b = digit-digits k a a b (omega arith)

differ-digits : (x y : ℕ) → x < 2 → y < 2 → differ x y ≡ (x + y) % 2
differ-digits zero y hx hy = omega arith
differ-digits (suc zero) zero hx hy = refl
differ-digits (suc zero) (suc zero) hx hy = refl
differ-digits (suc (suc x)) y hx hy = absurd (omega arith)
differ-digits (suc zero) (suc (suc y)) hx hy = absurd (omega arith)

pub digit-bit_and : (k a b : ℕ) → digit k (bit_and a b) ≡ min (digit k a) (digit k b)
digit-bit_and k a b =
    ap (digit k) (bit_and-bitwise a b)
    ∙ digit-bitwise (λ _. zero) min (λ k b. omega (arith, digit-zero k)) (λ x y hx hy. omega arith)
        k a b

pub digit-bit_or : (k a b : ℕ) → digit k (bit_or a b) ≡ max (digit k a) (digit k b)
digit-bit_or k a b =
    ap (digit k) (bit_or-bitwise a b)
    ∙ digit-bitwise (λ b. b) max (λ k b. omega arith) (λ x y hx hy. omega arith) k a b

pub digit-bit_xor : (k a b : ℕ) → digit k (bit_xor a b) ≡ (digit k a + digit k b) % 2
digit-bit_xor k a b =
    ap (digit k) (bit_xor-bitwise a b)
    ∙ digit-bitwise (λ b. b) differ
        (λ k b. omega (arith, digit-lt k b, differ-digits 0 (digit k b)))
        (λ x y hx hy. omega (arith, differ-digits x y hx hy)) k a b
    ∙ differ-digits _ _ (digit-lt k a) (digit-lt k b)

digits_le : (n a b : ℕ) → digits (λ b. b) differ n a b ≤ a + b
digits_le zero a b = omega arith
digits_le (suc n) zero b = omega arith
digits_le (suc n) (suc a) b = omega (
  arith,
  digits_le n (suc a / 2) (b / 2),
  differ-digits (suc a % 2) (b % 2) (omega arith) (omega arith),
)

pub bit_xor-le : (a b : ℕ) → bit_xor a b ≤ a + b
bit_xor-le a b = omega (arith, bit_xor-bitwise a b, digits_le a a b)

-- No digit is left under a mask of none.
masked_none : (count a : ℕ) → digits (λ _. zero) min count a 0 ≡ 0
masked_none zero a = refl
masked_none (suc count) zero = refl
masked_none (suc count) (suc a) = omega (arith, masked_none count (suc a / 2))

masked_one :
    (k count a : ℕ) → a ≤ count → digits (λ _. zero) min count a (2 ^ k) ≡ digit k a * 2 ^ k
masked_one k zero zero le = rw (digit-zero k) (omega arith)
masked_one k zero (suc a) le = absurd (omega arith)
masked_one k (suc count) zero le = rw (digit-zero k) (omega arith)
masked_one zero (suc count) (suc a) le = omega (arith, masked_none count (suc a / 2))
masked_one (suc k) (suc count) (suc a) le =
    let half : 2 ^ suc k / 2 ≡ 2 ^ k = omega arith in
    let even : 2 ^ suc k % 2 ≡ 0 = omega arith in
    rw (half, even) (grind (arith, masked_one k count (suc a / 2)))

-- A mask of one bit
pub bit_and-power : (k x : ℕ) → bit_and x (2 ^ k) ≡ digit k x * 2 ^ k
bit_and-power k x = bit_and-bitwise x (2 ^ k) ∙ masked_one k x x (omega arith)
