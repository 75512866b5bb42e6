-- ===== src/Common/Word.antt =====
-- `uint8_t` and `uint16_t` arithmetic, its wrap-around written out, and `int` (16 bits on the Z80)
-- as its bit pattern.
use Prim.Native.Nat.{ℕ, ◌+◌, ◌-◌, ◌*◌, ◌%◌, ◌≤◌, ◌<◌}
use mathlib.Core.Bool.{Bool}
use mathlib.Core.Path.{◌≡◌}
use native.Mathlib.Omega.{arith}
use manux.Common.Tests.{ltb}

abbrev pub add16 : ℕ → ℕ → ℕ
add16 a b = (a + b) % 65536

abbrev pub sub16 : ℕ → ℕ → ℕ
sub16 a b = (a + 65536 - b % 65536) % 65536

abbrev pub mul16 : ℕ → ℕ → ℕ
mul16 a b = a * b % 65536

abbrev pub add8 : ℕ → ℕ → ℕ
add8 a b = (a + b) % 256

abbrev pub sub8 : ℕ → ℕ → ℕ
sub8 a b = (a + 256 - b % 256) % 256

-- The sign bit of an `int`.
abbrev pub is_negative : ℕ → Bool
is_negative w = ltb 32767 w

pub sub16-exact : (a b : ℕ) → b ≤ a → a < 65536 → sub16 a b ≡ a - b
sub16-exact a b h k = omega arith
