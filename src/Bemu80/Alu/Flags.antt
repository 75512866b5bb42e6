-- ===== src/Bemu80/Alu/Flags.antt =====
-- Which flag an operation of bemu80/bemu80.c leaves, one bit of the flags at a time.
use Prim.Native.Nat.{max}
use manux.Common.{
  ◌==◌, if◌then◌else◌, ℕ, zero, suc, ◌-◌, ◌^◌, ◌<◌, min, ◌≡◌, refl, Bool, true, false, arith,
}
use manux.Common.Digits.{digit, digit-lt, digit-bit_and, digit-bit_or, bit_and-power}
use manux.Bemu80.Alu.{
  flag_n, flag_x, flag_y, has, get_flag, set_flag, or_if, update_flags_yx, finish,
}

-- What setting or clearing a flag does to one bit.
abbrev pub put : (k flag : ℕ) → Bool → ℕ → ℕ
put k flag value d = if value then max d (digit k flag) else min d (digit k (255 - flag))

pub digit-set_flag :
    (k flags flag : ℕ) (value : Bool)
    → digit k (set_flag flags flag value) ≡ put k flag value (digit k flags)
digit-set_flag k flags flag true = digit-bit_or k flags flag
digit-set_flag k flags flag false = digit-bit_and k flags (255 - flag)

pub digit-or_if :
    (k new_f : ℕ) (b : Bool) (flag : ℕ)
    → digit k (or_if new_f b flag)
      ≡ (if b then max (digit k new_f) (digit k flag) else digit k new_f)
digit-or_if k new_f true flag = digit-bit_or k new_f flag
digit-or_if k new_f false flag = refl

power_pos : (k : ℕ) → 0 < 2 ^ k
power_pos zero = omega arith
power_pos (suc k) = omega (arith, power_pos k)

-- A one-bit test reads that bit.
pub get_flag-digit : (k x : ℕ) → get_flag x (2 ^ k) ≡ digit k x
get_flag-digit k x = let bit = digit-lt k x in grind (arith, bit_and-power k x, power_pos k)

pub has-digit : (k x : ℕ) → has x (2 ^ k) ≡ (digit k x == 1)
has-digit k x = let bit = digit-lt k x in grind (arith, bit_and-power k x, power_pos k)

pub digit-finish :
    (k mask flags new_f : ℕ) (n : Bool) (result : ℕ)
    → digit k (finish mask flags new_f n result)
      ≡ put k flag_x (has result 0x08) (
          put k flag_y
            (has result 0x20)
            (put k flag_n n (max (min (digit k flags) (digit k (255 - mask))) (digit k new_f))))
unfolding finish update_flags_yx
digit-finish k mask flags new_f n result =
    rw (digit-set_flag k, digit-set_flag k, digit-set_flag k, digit-bit_or k, digit-bit_and k) refl
