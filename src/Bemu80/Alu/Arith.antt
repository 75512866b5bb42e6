-- ===== src/Bemu80/Alu/Arith.antt =====
-- add8, adc8, sub8, sbc8 and cp8 of bemu80/bemu80.c against the arithmetic that the Z80 documents:
-- the result modulo 256, and each flag by its meaning.
use manux.Common.{
  ltb, leb, if◌then◌else◌, ℕ, ◌+◌, ◌-◌, ◌/◌, ◌%◌, ◌<◌, min, bit_xor, ◌≡◌, refl, ap, ◌∙◌, true,
  false, ◌||◌, arith,
}
use manux.Common.Digits.{digit, digit-bit_and, digit-bit_xor, bit_xor-le}
use manux.Bemu80.Alu
use manux.Bemu80.Alu.{flag_c, get_flag, finish, arith_flags, add_overflow, sub_overflow}
use manux.Bemu80.Alu.Laws.{ArithFlags, CopiedFlags, finish-CopiedFlags, finished}

-- A byte as a signed number, 128 added.
abbrev pub biased : ℕ → ℕ
biased x = if ltb x 128 then x + 128 else x - 128

-- The signed sum or difference of two bytes and a carry lies outside -128 to 127.
abbrev pub sum_overflows : ℕ → ℕ → ℕ → ℕ
sum_overflows a b carry =
    if ltb (biased a + biased b + carry) 128 || leb 384 (biased a + biased b + carry) then 1 else 0

abbrev pub difference_overflows : ℕ → ℕ → ℕ → ℕ
difference_overflows a b borrow =
    if ltb (biased a + 128) (biased b + borrow) || leb (biased b + borrow + 128) (biased a)
    then 1
    else 0

same_flags :
    {f r c c' h h' v v' n n' : ℕ}
    → ArithFlags f r c h v n
    → c ≡ c'
    → h ≡ h'
    → v ≡ v'
    → n ≡ n'
    → ArithFlags f r c' h' v' n'
same_flags k ec eh ev en = record {
  c = k.c ∙ ec;
  n = k.n ∙ en;
  pv = k.pv ∙ ev;
  h = k.h ∙ eh;
  z = k.z;
  s = k.s;
}

top_digit : (x : ℕ) → x < 256 → digit 7 x ≡ (if ltb x 128 then 0 else 1)
top_digit x h = ground arith

top_complement : (x : ℕ) → x < 65536 → digit 7 (65535 - x) ≡ 1 - digit 7 x
top_complement x h = omega arith

module _ (a b k : ℕ) (ha : a < 256) (hb : b < 256) (hk : k < 2) where
  sum_half : (digit 4 a + digit 4 b + digit 4 ((a + b + k) % 256)) % 2 ≡ (a % 16 + b % 16 + k) / 16
  sum_half = omega arith

  differ_tops :
      (x : ℕ)
      → x < 256
      → digit 7 (bit_xor a x) ≡ ((if ltb a 128 then 0 else 1) + (if ltb x 128 then 0 else 1)) % 2
  differ_tops x hx = digit-bit_xor 7 a x ∙ rw (top_digit a ha, top_digit x hx) refl

  sum_tops :
      min
        (1 - ((if ltb a 128 then 0 else 1) + (if ltb b 128 then 0 else 1)) % 2)
        (((if ltb a 128 then 0 else 1) + (if ltb ((a + b + k) % 256) 128 then 0 else 1)) % 2)
      ≡ sum_overflows a b k
  sum_tops = ground arith

  sum_overflow : digit 7 (add_overflow a b ((a + b + k) % 256)) ≡ sum_overflows a b k
  sum_overflow =
      digit-bit_and 7 (65535 - bit_xor a b) (bit_xor a ((a + b + k) % 256))
      ∙ rw
          (
            top_complement (bit_xor a b) (omega (arith, bit_xor-le a b)),
            differ_tops b hb,
            differ_tops ((a + b + k) % 256) (omega arith),
          )
          sum_tops

  difference_half :
      (digit 4 a + digit 4 b + digit 4 ((a + 65536 - b - k) % 65536 % 256)) % 2
      ≡ (if ltb (a % 16) (b % 16 + k) then 1 else 0)
  difference_half = ground arith

  borrow_digit : digit 8 ((a + 65536 - b - k) % 65536) ≡ (if ltb a (b + k) then 1 else 0)
  borrow_digit = ground arith

  difference_tops :
      min (((if ltb a 128 then 0 else 1) + (if ltb b 128 then 0 else 1)) % 2) (
        ((if ltb a 128 then 0 else 1)
          + (if ltb ((a + 65536 - b - k) % 65536 % 256) 128 then 0 else 1))
        % 2)
      ≡ difference_overflows a b k
  difference_tops = ground arith

  difference_overflow :
      digit 7 (sub_overflow a b ((a + 65536 - b - k) % 65536 % 256)) ≡ difference_overflows a b k
  difference_overflow =
      digit-bit_and 7 (bit_xor a b) (bit_xor a ((a + 65536 - b - k) % 65536 % 256))
      ∙ rw (differ_tops b hb, differ_tops ((a + 65536 - b - k) % 65536 % 256) (omega arith))
          difference_tops

-- adc8 of two bytes answers their sum with the carry flag, modulo 256. C is the carry out of bit 7
-- and H that out of bit 3, PV says that the signed sum overflows, Z that the result is 0, S is its
-- top bit, X and Y are its bits 3 and 5, and N is cleared, whatever the other flags were.
pub adc8_lem :
    (flags a b : ℕ)
    → a < 256
    → b < 256
    → let carry = get_flag flags flag_c in
      let sum = a + b + carry in
      ((Alu.adc8 flags a b).0 ≡ sum % 256)
      × ArithFlags
          (Alu.adc8 flags a b).1
          (sum % 256)
          (sum / 256)
          ((a % 16 + b % 16 + carry) / 16)
          (sum_overflows a b carry)
          0
      × CopiedFlags (Alu.adc8 flags a b).1 (sum % 256)
unfolding Alu.adc8
adc8_lem flags a b ha hb =
    let k = get_flag flags flag_c in
    let small : k < 2 = ground arith in
    let r = a + b + k in
    (
      refl,
      same_flags (finished flags (add_overflow a b (r % 256)) a b r (r % 256) false) (omega arith)
          (sum_half a b k ha hb small) (sum_overflow a b k ha hb small) refl,
      finish-CopiedFlags 0xD5 flags (arith_flags (add_overflow a b (r % 256)) a b r) (r % 256)
          false,
    )

-- add8 of two bytes answers their sum modulo 256. C is the carry out of bit 7 and H that out of bit
-- 3, PV says that the signed sum overflows, Z that the result is 0, S is its top bit, and N is
-- cleared, whatever the flags were.
pub add8_lem :
    (flags a b : ℕ)
    → a < 256
    → b < 256
    → ((Alu.add8 flags a b).0 ≡ (a + b) % 256)
      × ArithFlags
          (Alu.add8 flags a b).1
          ((a + b) % 256)
          ((a + b) / 256)
          ((a % 16 + b % 16) / 16)
          (sum_overflows a b 0)
          0
unfolding Alu.add8
add8_lem flags a b ha hb =
    let r = a + b in
    (
      refl,
      same_flags (finished flags (add_overflow a b (r % 256)) a b r (r % 256) false) (omega arith)
          (omega (arith, sum_half a b 0 ha hb))
          (ap (λ t. digit 7 (add_overflow a b (t % 256))) (omega arith)
            ∙ sum_overflow a b 0 ha hb (omega arith))
          refl,
    )

-- sbc8 of two bytes answers their difference less the carry flag, modulo 256. C is the borrow into
-- bit 7 and H that into bit 3, PV says that the signed difference overflows, Z that the result is
-- 0, S is its top bit, and N is set, whatever the other flags were.
pub sbc8_lem :
    (flags a b : ℕ)
    → a < 256
    → b < 256
    → let borrow = get_flag flags flag_c in
      let rest = (a + 256 - b + 256 - borrow) % 256 in
      ((Alu.sbc8 flags a b).0 ≡ rest)
      × ArithFlags
          (Alu.sbc8 flags a b).1
          rest
          (if ltb a (b + borrow) then 1 else 0)
          (if ltb (a % 16) (b % 16 + borrow) then 1 else 0)
          (difference_overflows a b borrow)
          1
unfolding Alu.sbc8
sbc8_lem flags a b ha hb =
    let k = get_flag flags flag_c in
    let small : k < 2 = ground arith in
    let r = (a + 65536 - b - k) % 65536 in
    let same : (a + 256 - b + 256 - k) % 256 ≡ r % 256 = omega arith in
    rw same (
      refl,
      same_flags (finished flags (sub_overflow a b (r % 256)) a b r (r % 256) true)
          (borrow_digit a b k ha hb small) (difference_half a b k ha hb small)
          (difference_overflow a b k ha hb small) refl,
    )

subtracted :
    (flags a b last : ℕ)
    → a < 256
    → b < 256
    → let r = (a + 65536 - b) % 65536 in
      ArithFlags
        (finish 0xD5 flags (arith_flags (sub_overflow a b (r % 256)) a b r) true last)
        (r % 256)
        (if ltb a b then 1 else 0)
        (if ltb (a % 16) (b % 16) then 1 else 0)
        (difference_overflows a b 0)
        1
subtracted flags a b last ha hb =
    let r = (a + 65536 - b) % 65536 in
    let half : (digit 4 a + digit 4 b + digit 4 (r % 256)) % 2
        ≡ (if ltb (a % 16) (b % 16) then 1 else 0) =
      ground arith in
    let borrow : digit 8 r ≡ (if ltb a b then 1 else 0) = ground arith in
    same_flags (finished flags (sub_overflow a b (r % 256)) a b r last true) borrow half
      (ap (λ t. digit 7 (sub_overflow a b (t % 65536 % 256))) (omega arith)
        ∙ difference_overflow a b 0 ha hb (omega arith))
      refl

-- sub8 of two bytes answers their difference modulo 256. C is the borrow into bit 7 and H that into
-- bit 3, PV says that the signed difference overflows, Z that it is 0, S is its top bit, and N is
-- set, whatever the flags were. cp8 sets these flags in the same way, and no result.
pub sub8-cp8_lem :
    (flags a b : ℕ)
    → a < 256
    → b < 256
    → let rest = (a + 256 - b) % 256 in
      let borrow : ℕ = if ltb a b then 1 else 0 in
      let half : ℕ = if ltb (a % 16) (b % 16) then 1 else 0 in
      ((Alu.sub8 flags a b).0 ≡ rest)
      × ArithFlags (Alu.sub8 flags a b).1 rest borrow half (difference_overflows a b 0) 1
      × ArithFlags (Alu.cp8 flags a b) rest borrow half (difference_overflows a b 0) 1
unfolding Alu.sub8 Alu.cp8
sub8-cp8_lem flags a b ha hb =
    let r = (a + 65536 - b) % 65536 in
    let same : (a + 256 - b) % 256 ≡ r % 256 = omega arith in
    rw same (refl, subtracted flags a b (r % 256) ha hb, subtracted flags a b b ha hb)
