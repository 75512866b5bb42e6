-- ===== src/Bemu80/Alu.antt =====
-- The arithmetic, logic and rotate operations of bemu80/bemu80.c. Each takes the flags and its
-- operands, and answers the result and the new flags.
pub mod Flags
pub mod Laws
pub mod Arith
use manux.Common.{
  ◌==◌, if◌then◌else◌, ℕ, ◌+◌, ◌-◌, ◌*◌, ◌/◌, ◌%◌, ◌^◌, bit_and, bit_or, bit_xor, Bool, true, false,
  not,
}

-- FLAG_C, FLAG_N, FLAG_PV, FLAG_X, FLAG_H, FLAG_Y, FLAG_Z and FLAG_S
abbrev pub flag_c : ℕ
flag_c = 0x01

abbrev pub flag_n : ℕ
flag_n = 0x02

abbrev pub flag_pv : ℕ
flag_pv = 0x04

abbrev pub flag_x : ℕ
flag_x = 0x08

abbrev pub flag_h : ℕ
flag_h = 0x10

abbrev pub flag_y : ℕ
flag_y = 0x20

abbrev pub flag_z : ℕ
flag_z = 0x40

abbrev pub flag_s : ℕ
flag_s = 0x80

-- `x & mask` as a condition
abbrev pub has : ℕ → ℕ → Bool
has x mask = not (bit_and x mask == 0)

abbrev pub get_flag : ℕ → ℕ → ℕ
get_flag flags flag = if has flags flag then 1 else 0

abbrev pub set_flag : ℕ → ℕ → Bool → ℕ
set_flag flags flag value = if value then bit_or flags flag else bit_and flags (255 - flag)

-- `if (b) new_f |= flag`
abbrev pub or_if : ℕ → Bool → ℕ → ℕ
or_if new_f b flag = if b then bit_or new_f flag else new_f

unfoldable pub update_flags_yx : ℕ → ℕ → ℕ
update_flags_yx flags result =
    set_flag (set_flag flags flag_y (has result 0x20)) flag_x (has result 0x08)

-- `(flags & ~(FLAG_S | FLAG_Z | FLAG_H | FLAG_PV | FLAG_C)) | new_f`, then FLAG_N and the
-- undocumented flags.
unfoldable pub finish : (mask : ℕ) → ℕ → ℕ → Bool → ℕ → ℕ
finish mask flags new_f n result =
    update_flags_yx (set_flag (bit_or (bit_and flags (255 - mask)) new_f) flag_n n) result

abbrev pub mask_szhpc : ℕ
mask_szhpc = 0xD5

-- __builtin_parity of a byte
unfoldable pub parity : ℕ → ℕ
parity x =
    (x % 2 + x / 2 % 2 + x / 4 % 2 + x / 8 % 2 + x / 16 % 2 + x / 32 % 2 + x / 64 % 2 + x / 128 % 2)
    % 2

-- The `new_f` of add8, adc8, sub8, cp8 and sbc8, from the sum or difference in 16 bits.
unfoldable pub arith_flags : (overflow : ℕ) → (a b res16 : ℕ) → ℕ
arith_flags overflow a b res16 =
    let res8 = res16 % 256 in
    let s = or_if 0 (has res8 0x80) flag_s in
    let sz = or_if s (res8 == 0) flag_z in
    let szh = or_if sz (has (bit_xor (bit_xor a b) res8) 0x10) flag_h in
    let szhp = or_if szh (has overflow 0x80) flag_pv in or_if szhp (has res16 0x100) flag_c

-- `~(a ^ b) & (a ^ res8)`, the overflow of a sum
abbrev pub add_overflow : ℕ → ℕ → ℕ → ℕ
add_overflow a b res8 = bit_and (65535 - bit_xor a b) (bit_xor a res8)

-- `(a ^ b) & (a ^ res8)`, the overflow of a difference
abbrev pub sub_overflow : ℕ → ℕ → ℕ → ℕ
sub_overflow a b res8 = bit_and (bit_xor a b) (bit_xor a res8)

unfoldable pub add8 : ℕ → ℕ → ℕ → ℕ × ℕ
add8 flags a b =
    let res16 = a + b in
    let res8 = res16 % 256 in
    (res8, finish mask_szhpc flags (arith_flags (add_overflow a b res8) a b res16) false res8)

unfoldable pub adc8 : ℕ → ℕ → ℕ → ℕ × ℕ
adc8 flags a b =
    let res16 = a + b + get_flag flags flag_c in
    let res8 = res16 % 256 in
    (res8, finish mask_szhpc flags (arith_flags (add_overflow a b res8) a b res16) false res8)

unfoldable pub sub8 : ℕ → ℕ → ℕ → ℕ × ℕ
sub8 flags a b =
    let res16 = (a + 65536 - b) % 65536 in
    let res8 = res16 % 256 in
    (res8, finish mask_szhpc flags (arith_flags (sub_overflow a b res8) a b res16) true res8)

-- No result; the undocumented flags are those of the operand.
unfoldable pub cp8 : ℕ → ℕ → ℕ → ℕ
cp8 flags a b =
    let res16 = (a + 65536 - b) % 65536 in
    let res8 = res16 % 256 in
    finish mask_szhpc flags (arith_flags (sub_overflow a b res8) a b res16) true b

unfoldable pub sbc8 : ℕ → ℕ → ℕ → ℕ × ℕ
sbc8 flags a b =
    let res16 = (a + 65536 - b - get_flag flags flag_c) % 65536 in
    let res8 = res16 % 256 in
    (res8, finish mask_szhpc flags (arith_flags (sub_overflow a b res8) a b res16) true res8)

-- The `new_f` of S, Z and parity, over the flags without them.
unfoldable pub logic_flags : ℕ → ℕ → ℕ
logic_flags start res8 =
    let s = or_if start (has res8 0x80) flag_s in
    let sz = or_if s (res8 == 0) flag_z in or_if sz (parity res8 == 0) flag_pv

unfoldable pub and8 : ℕ → ℕ → ℕ → ℕ × ℕ
and8 flags a b =
    let res8 = bit_and a b in
    let new_f = bit_or (logic_flags 0 res8) flag_h in
    let kept = bit_or (bit_and flags (255 - 0xC4)) new_f in
    (res8, update_flags_yx (set_flag kept 0x03 false) res8)

unfoldable pub or8 : ℕ → ℕ → ℕ → ℕ × ℕ
or8 flags a b =
    let res8 = bit_or a b in
    let kept = bit_or (bit_and flags (255 - 0xC4)) (logic_flags 0 res8) in
    (res8, update_flags_yx (set_flag kept 0x13 false) res8)

unfoldable pub xor8 : ℕ → ℕ → ℕ → ℕ × ℕ
xor8 flags a b =
    let res8 = bit_xor a b in
    let kept = bit_or (bit_and flags (255 - 0xC4)) (logic_flags 0 res8) in
    (res8, update_flags_yx (set_flag kept 0x13 false) res8)

-- The `new_f` of inc8 and dec8
unfoldable pub step_flags : (overflow : Bool) → ℕ → ℕ → ℕ
step_flags overflow a res8 =
    let s = or_if 0 (has res8 0x80) flag_s in
    let sz = or_if s (res8 == 0) flag_z in
    let szh = or_if sz (has (bit_xor a res8) 0x10) flag_h in or_if szh overflow flag_pv

unfoldable pub inc8 : ℕ → ℕ → ℕ × ℕ
inc8 flags a =
    let res8 = (a + 1) % 256 in (res8, finish 0xD4 flags (step_flags (a == 0x7F) a res8) false res8)

unfoldable pub dec8 : ℕ → ℕ → ℕ × ℕ
dec8 flags a =
    let res8 = (a + 65535) % 65536 % 256 in
    (res8, finish 0xD4 flags (step_flags (a == 0x80) a res8) true res8)

-- `new_f |= FLAG_H` and FLAG_C of the 16-bit operations
unfoldable pub wide_flags : ℕ → ℕ → ℕ → ℕ
wide_flags a b res32 =
    let h = or_if 0 (has (bit_xor (bit_xor a b) (res32 % 65536)) 0x1000) flag_h in
    or_if h (has res32 0x10000) flag_c

unfoldable pub add16 : ℕ → ℕ → ℕ → ℕ × ℕ
add16 flags a b =
    let res32 = a + b in
    let res16 = res32 % 65536 in
    (res16, finish 0x11 flags (wide_flags a b res32) false (res16 / 256))

-- FLAG_S, FLAG_Z and FLAG_PV of adc16 and sbc16, which both take the overflow of a difference.
unfoldable pub wide_szp : ℕ → ℕ → ℕ → ℕ → ℕ
wide_szp new_f a b res16 =
    let s = or_if new_f (has res16 0x8000) flag_s in
    let sz = or_if s (res16 == 0) flag_z in or_if sz (has (sub_overflow a b res16) 0x8000) flag_pv

unfoldable pub adc16 : ℕ → ℕ → ℕ → ℕ × ℕ
adc16 flags a b =
    let res32 = a + b + get_flag flags flag_c in
    let res16 = res32 % 65536 in
    (res16, finish mask_szhpc flags (wide_szp (wide_flags a b res32) a b res16) false (res16 / 256))

unfoldable pub sbc16 : ℕ → ℕ → ℕ → ℕ × ℕ
sbc16 flags a b =
    let res32 = (a + 2 ^ 32 - b - get_flag flags flag_c) % 2 ^ 32 in
    let res16 = res32 % 65536 in
    (res16, finish mask_szhpc flags (wide_szp (wide_flags a b res32) a b res16) true (res16 / 256))

abbrev pub inc16 : ℕ → ℕ
inc16 a = (a + 1) % 65536

abbrev pub dec16 : ℕ → ℕ
dec16 a = (a + 65535) % 65536

-- What the rotates and shifts do with the flags: S, Z and parity of the result, N and H cleared,
-- and C from the bit that leaves.
unfoldable pub rotated : ℕ → ℕ → Bool → ℕ × ℕ
rotated flags res16 carry =
    let res8 = res16 % 256 in
    let kept = bit_or (bit_and flags (255 - 0xC4)) (logic_flags 0 res8) in
    (res8, update_flags_yx (set_flag (set_flag kept 0x12 false) flag_c carry) res8)

unfoldable pub rlc8 : ℕ → ℕ → ℕ × ℕ
rlc8 flags a = rotated flags (bit_or (a * 2) (a / 128)) (has a 0x80)

unfoldable pub rl8 : ℕ → ℕ → ℕ × ℕ
rl8 flags a = rotated flags (bit_or (a * 2) (get_flag flags flag_c)) (has a 0x80)

unfoldable pub rrc8 : ℕ → ℕ → ℕ × ℕ
rrc8 flags a = rotated flags (bit_or (a / 2) (a * 128)) (has a 0x01)

unfoldable pub rr8 : ℕ → ℕ → ℕ × ℕ
rr8 flags a = rotated flags (bit_or (a / 2) (get_flag flags flag_c * 128)) (has a 0x01)

unfoldable pub sla8 : ℕ → ℕ → ℕ × ℕ
sla8 flags a = rotated flags (a * 2) (has a 0x80)

unfoldable pub sll8 : ℕ → ℕ → ℕ × ℕ
sll8 flags a = rotated flags (bit_or (a * 2) 1) (has a 0x80)

unfoldable pub sra8 : ℕ → ℕ → ℕ × ℕ
sra8 flags a = rotated flags (bit_or (a / 2) (bit_and a 0x80)) (has a 0x01)

unfoldable pub srl8 : ℕ → ℕ → ℕ × ℕ
srl8 flags a = rotated flags (a / 2) (has a 0x01)

unfoldable pub bit8 : ℕ → ℕ → ℕ → ℕ
bit8 flags a bit =
    let result = has a (2 ^ bit) in
    let tested = set_flag (set_flag (set_flag flags 0x44 (not result)) flag_h true) flag_n false in
    if result
    then set_flag (set_flag (set_flag tested flag_s (has a 0x80)) flag_y (has a 0x20)) flag_x
        (has a 0x08)
    else bit_and tested (255 - 0xA8)

unfoldable pub res8 : ℕ → ℕ → ℕ
res8 a bit = bit_and a (65535 - 2 ^ bit)

unfoldable pub set8 : ℕ → ℕ → ℕ
set8 a bit = bit_or a (2 ^ bit)
