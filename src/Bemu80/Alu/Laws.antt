-- ===== src/Bemu80/Alu/Laws.antt =====
-- The 8-bit additions and subtractions of bemu80/bemu80.c are those of the Z80: the result modulo
-- 256, and each flag by its arithmetic meaning.
use Prim.Native.Nat.{max, min, ◌-◌, ◌<◌}
use manux.Common.{
  ◌==◌, if◌then◌else◌, ℕ, ◌+◌, ◌/◌, ◌%◌, ◌^◌, bit_xor, ◌≡◌, refl, ◌∙◌, Bool, true, false, arith,
}
use manux.Common.Digits.{digit, digit-lt, digit-bit_xor}
use manux.Bemu80.Alu.{
  flag_c, flag_x, flag_y, flag_n, flag_pv, flag_h, flag_z, flag_s, has, get_flag, finish,
  arith_flags,
}
use manux.Bemu80.Alu.Flags.{put, digit-or_if, get_flag-digit, digit-finish}

abbrev add_bit : (k flag : ℕ) → Bool → ℕ → ℕ
add_bit k flag b d = if b then max d (digit k flag) else d

digit-arith_flags :
    (k overflow a b res16 : ℕ)
    → digit k (arith_flags overflow a b res16)
      ≡ add_bit k flag_c (has res16 0x100) (
          add_bit k flag_pv (has overflow 0x80) (
            add_bit k flag_h (has (bit_xor (bit_xor a b) (res16 % 256)) 0x10) (
              add_bit k flag_z
                (res16 % 256 == 0)
                (add_bit k flag_s (has (res16 % 256) 0x80) (digit k 0)))))
unfolding arith_flags
digit-arith_flags k overflow a b res16 =
    rw (digit-or_if k, digit-or_if k, digit-or_if k, digit-or_if k, digit-or_if k) refl

-- The bits of what add8, adc8, sub8, cp8 and sbc8 collect.
record Collected (overflow a b res16 new_f : ℕ) : Type 0 where
  c : digit 0 new_f ≡ digit 8 res16
  n : digit 1 new_f ≡ 0
  pv : digit 2 new_f ≡ digit 7 overflow
  h : digit 4 new_f ≡ (digit 4 a + digit 4 b + digit 4 (res16 % 256)) % 2
  z : digit 6 new_f ≡ (if res16 % 256 == 0 then 1 else 0)
  s : digit 7 new_f ≡ digit 7 (res16 % 256)

module _ (overflow a b res16 : ℕ) where
  half_carry :
      digit 4 (bit_xor (bit_xor a b) (res16 % 256))
      ≡ (digit 4 a + digit 4 b + digit 4 (res16 % 256)) % 2
  half_carry = omega (arith, digit-bit_xor 4 (bit_xor a b) (res16 % 256), digit-bit_xor 4 a b)

  is_digit : (k x : ℕ) → (if has x (2 ^ k) then 1 else 0) ≡ digit k x
  is_digit k x = get_flag-digit k x

  collected : Collected overflow a b res16 (arith_flags overflow a b res16)
  collected = record {
    c = digit-arith_flags 0 overflow a b res16 ∙ ground (arith, is_digit 8 res16);
    n = digit-arith_flags 1 overflow a b res16 ∙ ground arith;
    pv = digit-arith_flags 2 overflow a b res16 ∙ ground (arith, is_digit 7 overflow);
    h =
        digit-arith_flags 4 overflow a b res16
        ∙ ground (arith, is_digit 4 (bit_xor (bit_xor a b) (res16 % 256)), half_carry);
    z = digit-arith_flags 6 overflow a b res16 ∙ ground arith;
    s = digit-arith_flags 7 overflow a b res16 ∙ ground (arith, is_digit 7 (res16 % 256));
  }

-- The flags by their meaning, for a result of 8 bits.
pub record ArithFlags (f result carry half overflow subtract : ℕ) : Type 0 where
  pub c : get_flag f flag_c ≡ carry
  pub n : get_flag f flag_n ≡ subtract
  pub pv : get_flag f flag_pv ≡ overflow
  pub h : get_flag f flag_h ≡ half
  pub z : get_flag f flag_z ≡ (if result == 0 then 1 else 0)
  pub s : get_flag f flag_s ≡ result / 128

-- A digit stays a digit.
put-lt : (k flag : ℕ) (value : Bool) (d : ℕ) → d < 2 → put k flag value d < 2
put-lt k flag true d h = omega (arith, digit-lt k flag)
put-lt k flag false d h = omega arith

put_x : (value : Bool) (d : ℕ) → d < 2 → put 3 flag_x value d ≡ (if value then 1 else 0)
put_x true d h = ground arith
put_x false d h = ground arith

put_y : (value : Bool) (d : ℕ) → d < 2 → put 5 flag_y value d ≡ (if value then 1 else 0)
put_y true d h = ground arith
put_y false d h = ground arith

-- Setting X does not touch Y.
put_x-y : (value : Bool) (d : ℕ) → d < 2 → put 5 flag_x value d ≡ d
put_x-y true d h = ground arith
put_x-y false d h = ground arith

-- X and Y, which the Z80 does not document, are bits 3 and 5 of a value.
pub record CopiedFlags (f last : ℕ) : Type 0 where
  pub x : get_flag f flag_x ≡ last / 8 % 2
  pub y : get_flag f flag_y ≡ last / 32 % 2

pub finish-CopiedFlags :
    (mask flags new_f last : ℕ) (n : Bool) → CopiedFlags (finish mask flags new_f n last) last
finish-CopiedFlags mask flags new_f last n =
    let f = finish mask flags new_f n last in
    let named = λ (k : ℕ).
      put k flag_n n (max (min (digit k flags) (digit k (255 - mask))) (digit k new_f)) in
    let small = λ (k : ℕ).
      put-lt k flag_n n (max (min (digit k flags) (digit k (255 - mask))) (digit k new_f))
        (omega (arith, digit-lt k flags, digit-lt k new_f)) in
    record {
      x =
          get_flag-digit 3 f
          ∙ digit-finish 3 mask flags new_f n last
          ∙ put_x (has last 8) (put 3 flag_y (has last 32) (named 3))
              (put-lt 3 flag_y (has last 32) (named 3) (small 3))
          ∙ get_flag-digit 3 last
          ∙ omega arith;
      y =
          get_flag-digit 5 f
          ∙ digit-finish 5 mask flags new_f n last
          ∙ put_x-y (has last 8) (put 5 flag_y (has last 32) (named 5))
              (put-lt 5 flag_y (has last 32) (named 5) (small 5))
          ∙ put_y (has last 32) (named 5) (small 5)
          ∙ get_flag-digit 5 last
          ∙ omega arith;
    }

pub finished :
    (flags overflow a b res16 last : ℕ) (n : Bool)
    → ArithFlags
        (finish 0xD5 flags (arith_flags overflow a b res16) n last)
        (res16 % 256)
        (digit 8 res16)
        ((digit 4 a + digit 4 b + digit 4 (res16 % 256)) % 2)
        (digit 7 overflow)
        (if n then 1 else 0)
finished flags overflow a b res16 last n =
    let v = collected overflow a b res16 in
    let f = finish 0xD5 flags (arith_flags overflow a b res16) n last in
    let settled = λ (k : ℕ). digit-finish k 0xD5 flags (arith_flags overflow a b res16) n last in
    record {
      c = get_flag-digit 0 f ∙ settled 0 ∙ ground (arith, v.c);
      n = get_flag-digit 1 f ∙ settled 1 ∙ ground (arith, v.n);
      pv = get_flag-digit 2 f ∙ settled 2 ∙ ground (arith, v.pv);
      h = get_flag-digit 4 f ∙ settled 4 ∙ ground (arith, v.h);
      z = get_flag-digit 6 f ∙ settled 6 ∙ ground (arith, v.z);
      s = get_flag-digit 7 f ∙ settled 7 ∙ ground (arith, v.s);
    }
