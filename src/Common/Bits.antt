-- ===== src/Common/Bits.antt =====
-- Facts about the bits of a byte, each checked at every value.
use Prim.Native.Nat.{ℕ, zero, suc, ◌-◌, ◌^◌, ◌<◌, bit_and, bit_or}
use mathlib.Core.Path.{◌≡◌, refl}
use mathlib.Core.Bool.{Bool, true, false, ◌&&◌}
use native.Mathlib.Omega.{arith}
use manux.Common.Tests.{ltb, ◌==◌, if◌then◌else◌, Bool-cases, ==→eq, ==→ne}
use mathlib.Core.Logic.{inl, inr}

abbrev pub eqv : Bool → Bool → Bool
eqv true b = b
eqv false true = false
eqv false false = true

pub eqv-eq : (a b : Bool) → eqv a b ≡ true → a ≡ b
eqv-eq a b h = ground arith

unfoldable pub every_below : ℕ → (ℕ → Bool) → Bool
every_below zero check = true
every_below (suc k) check = if check k then every_below k check else false

pub every_below_sound :
    (k : ℕ) (check : ℕ → Bool) (i : ℕ) → every_below k check ≡ true → i < k → check i ≡ true
unfolding every_below
every_below_sound zero check i all small = absurd (omega arith)
every_below_sound (suc k) check i all small = elim (Bool-cases (i == k)) [
  | inl last ↦ ground (arith, ==→eq i k last)
  | inr other ↦ ground (arith, ==→ne i k other, every_below_sound k check i)
]

-- Every property of three small numbers is decided by running through them.
pub every_below₃_sound :
    (n m l : ℕ) (p : ℕ → ℕ → ℕ → Bool) (x y z : ℕ)
    → every_below n (λ a. every_below m (λ b. every_below l (p a b))) ≡ true
    → x < n
    → y < m
    → z < l
    → p x y z ≡ true
every_below₃_sound n m l p x y z h hx hy hz =
    every_below_sound l (p x y) z
      (every_below_sound m (λ b. every_below l (p x b)) y
        (every_below_sound n (λ a. every_below m (λ b. every_below l (p a b))) x h hx) hy)
      hz

abbrev or_row : ℕ → ℕ → ℕ → Bool
or_row j k x =
    eqv (bit_and (bit_or x (2 ^ k)) (2 ^ j) == 0) (if j == k then false else bit_and x (2 ^ j) == 0)

or_table : every_below 8 (λ j. every_below 8 (λ k. every_below 256 (or_row j k))) ≡ true
unfolding every_below
or_table = refl

-- Setting bit `k` of a byte sets that bit and no other.
pub bit_or_bit :
    (j k x : ℕ)
    → j < 8
    → k < 8
    → x < 256
    → (bit_and (bit_or x (2 ^ k)) (2 ^ j) == 0) ≡ (if j == k then false else bit_and x (2 ^ j) == 0)
bit_or_bit j k x hj hk hx = eqv-eq _ _ (every_below₃_sound 8 8 256 or_row j k x or_table hj hk hx)

abbrev and_row : ℕ → ℕ → ℕ → Bool
and_row j k x =
    eqv (bit_and (bit_and x (65535 - 2 ^ k)) (2 ^ j) == 0)
      (if j == k then true else bit_and x (2 ^ j) == 0)

and_table : every_below 8 (λ j. every_below 8 (λ k. every_below 256 (and_row j k))) ≡ true
unfolding every_below
and_table = refl

-- Clearing bit `k` of a byte clears that bit and no other.
pub bit_and_mask :
    (j k x : ℕ)
    → j < 8
    → k < 8
    → x < 256
    → (bit_and (bit_and x (65535 - 2 ^ k)) (2 ^ j) == 0)
      ≡ (if j == k then true else bit_and x (2 ^ j) == 0)
bit_and_mask j k x hj hk hx =
    eqv-eq _ _ (every_below₃_sound 8 8 256 and_row j k x and_table hj hk hx)

abbrev byte_row : ℕ → ℕ → Bool
byte_row k x = ltb (bit_or x (2 ^ k)) 256 && ltb (bit_and x (65535 - 2 ^ k)) 256

byte_table : every_below 8 (λ k. every_below 256 (byte_row k)) ≡ true
unfolding every_below
byte_table = refl

-- Both leave a byte.
pub bit_byte :
    (k x : ℕ) → k < 8 → x < 256 → (bit_or x (2 ^ k) < 256) × (bit_and x (65535 - 2 ^ k) < 256)
bit_byte k x hk hx = ground (
  arith,
  every_below_sound 256 (byte_row k) x
      (every_below_sound 8 (λ k. every_below 256 (byte_row k)) k byte_table hk) hx,
)
