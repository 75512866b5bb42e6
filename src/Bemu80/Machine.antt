-- ===== src/Bemu80/Machine.antt =====
-- The processor and the memory of bemu80/bemu80.c: registers, loads, stores, fetches and the stack.
pub mod Laws
use manux.Common.{
  ltb, leb, ◌==◌, if◌then◌else◌, add16, sub16, Bytes, store, word, store_word, ℕ, ◌+◌, ◌*◌, ◌/◌,
  ◌%◌, Bool, false, ◌&&◌, ◌||◌,
}

-- `memory` and `rom_size`
pub record Ram : Type 0 where
  pub bytes : Bytes
  pub rom_size : ℕ

-- VirtZ80
pub record Cpu : Type 0 where
  pub regs : ℕ → ℕ
  pub shadow_regs : ℕ → ℕ
  pub flags : ℕ
  pub shadow_flags : ℕ
  pub ix : ℕ
  pub iy : ℕ
  pub pc : ℕ
  pub sp : ℕ
  pub wz : ℕ
  pub i : ℕ
  pub r : ℕ
  pub im : ℕ
  pub iff1 : Bool
  pub iff2 : Bool
  pub halt : Bool
  pub cycles : ℕ

-- MEM_SIZE
abbrev pub mem_size : ℕ
mem_size = 0xFFFF

abbrev pub reg_b : ℕ
reg_b = 0

abbrev pub reg_c : ℕ
reg_c = 1

abbrev pub reg_d : ℕ
reg_d = 2

abbrev pub reg_e : ℕ
reg_e = 3

abbrev pub reg_h : ℕ
reg_h = 4

abbrev pub reg_l : ℕ
reg_l = 5

abbrev pub reg_a : ℕ
reg_a = 7

unfoldable pub mwrite8 : Ram → ℕ → ℕ → Ram
mwrite8 m address value =
    if leb mem_size address || ltb address m.rom_size
    then m
    else record m { bytes = store m.bytes address value }

unfoldable pub mread8 : Ram → ℕ → ℕ
mread8 m address = if leb mem_size address then 0 else m.bytes address

unfoldable pub mwrite16 : Ram → ℕ → ℕ → Ram
mwrite16 m address value =
    if leb mem_size (address + 1) || ltb address m.rom_size
    then m
    else record m { bytes = store_word m.bytes address value }

-- The bytes do not overlap, so `|` is a sum.
unfoldable pub mread16 : Ram → ℕ → ℕ
mread16 m address = if leb mem_size (address + 1) then 0 else word m.bytes address

-- `regs[i] = v`
abbrev pub set_reg : (ℕ → ℕ) → ℕ → ℕ → ℕ → ℕ
set_reg regs i v j = if j == i then v % 256 else regs j

abbrev pub put_reg : Cpu → ℕ → ℕ → Cpu
put_reg cpu i v = record cpu { regs = set_reg cpu.regs i v }

-- `regs[i] << 8 | regs[i + 1]`
abbrev pub pair : (ℕ → ℕ) → ℕ → ℕ
pair regs i = 256 * regs i + regs (i + 1)

abbrev pub set_pair : (ℕ → ℕ) → ℕ → ℕ → ℕ → ℕ
set_pair regs i v = set_reg (set_reg regs i (v / 256)) (i + 1) v

unfoldable pub af : Cpu → ℕ
af cpu = 256 * cpu.regs reg_a + cpu.flags

abbrev pub bc : Cpu → ℕ
bc cpu = pair cpu.regs reg_b

abbrev pub de : Cpu → ℕ
de cpu = pair cpu.regs reg_d

abbrev pub hl : Cpu → ℕ
hl cpu = pair cpu.regs reg_h

unfoldable pub set_af : Cpu → ℕ → Cpu
set_af cpu value = record cpu { regs = set_reg cpu.regs reg_a (value / 256); flags = value % 256 }

abbrev pub set_bc : Cpu → ℕ → Cpu
set_bc cpu value = record cpu { regs = set_pair cpu.regs reg_b value }

abbrev pub set_de : Cpu → ℕ → Cpu
set_de cpu value = record cpu { regs = set_pair cpu.regs reg_d value }

abbrev pub set_hl : Cpu → ℕ → Cpu
set_hl cpu value = record cpu { regs = set_pair cpu.regs reg_h value }

abbrev pub get_high : ℕ → ℕ
get_high value = value / 256 % 256

abbrev pub get_low : ℕ → ℕ
get_low value = value % 256

abbrev pub set_high : ℕ → ℕ → ℕ
set_high reg value = reg % 256 + 256 * (value % 256)

abbrev pub set_low : ℕ → ℕ → ℕ
set_low reg value = 256 * (reg / 256) + value % 256

-- A byte read as `int8_t`, as 16 bits.
abbrev pub sign_extend : ℕ → ℕ
sign_extend d = if ltb d 128 then d else d + 65280

-- The byte, and the processor behind it.
unfoldable pub f_byte : Ram → Cpu → ℕ × Cpu
f_byte m cpu = (mread8 m cpu.pc, record cpu { pc = add16 cpu.pc 1 })

unfoldable pub f_word : Ram → Cpu → ℕ × Cpu
f_word m cpu = (mread16 m cpu.pc, record cpu { pc = add16 cpu.pc 2 })

unfoldable pub get_index_addr : Ram → Cpu → ℕ → ℕ × Cpu
get_index_addr m cpu base = let (d, next) = f_byte m cpu in (add16 base (sign_extend d), next)

unfoldable pub push : Ram → Cpu → ℕ → Ram × Cpu
push m cpu value = let sp = sub16 cpu.sp 2 in (mwrite16 m sp value, record cpu { sp = sp })

unfoldable pub pop : Ram → Cpu → ℕ × Cpu
pop m cpu = (mread16 m cpu.sp, record cpu { sp = add16 cpu.sp 2 })

unfoldable pub get_r8 : Ram → Cpu → ℕ → ℕ
get_r8 m cpu reg = if reg == 6 then mread8 m (hl cpu) else cpu.regs reg

unfoldable pub set_r8 : Ram → Cpu → ℕ → ℕ → Ram × Cpu
set_r8 m cpu reg val = if reg == 6 then (mwrite8 m (hl cpu) val, cpu) else (m, put_reg cpu reg val)

-- For register 6 the displacement is fetched.
unfoldable pub get_r8_index : Ram → Cpu → ℕ → ℕ → ℕ × Cpu
get_r8_index m cpu reg index_reg =
    let (address, next) = get_index_addr m cpu index_reg in
    if reg == 6
    then (mread8 m address, next)
    else if reg == 4
    then (get_high index_reg, cpu)
    else if reg == 5
    then (get_low index_reg, cpu)
    else (cpu.regs reg, cpu)

-- The processor and the index register.
unfoldable pub set_r8_index : Cpu → ℕ → ℕ → ℕ → Cpu × ℕ
set_r8_index cpu reg val index_reg =
    if reg == 4
    then (cpu, set_high index_reg val)
    else if reg == 5
    then (cpu, set_low index_reg val)
    else (put_reg cpu reg val, index_reg)

-- BC, DE, HL, SP
unfoldable pub set_r16_1 : Cpu → ℕ → ℕ → Cpu
set_r16_1 cpu reg val =
    if reg == 3
    then record cpu { sp = val }
    else record cpu { regs = set_pair cpu.regs (reg * 2) val }

unfoldable pub get_r16_1 : Cpu → ℕ → ℕ
get_r16_1 cpu reg = if reg == 3 then cpu.sp else pair cpu.regs (reg * 2)

-- BC, DE, IX or IY, SP
unfoldable pub set_r16_index : Cpu → ℕ → ℕ → ℕ → Cpu × ℕ
set_r16_index cpu reg val index_reg =
    if reg == 3
    then (record cpu { sp = val }, index_reg)
    else if reg == 2
    then (cpu, val)
    else (record cpu { regs = set_pair cpu.regs (reg * 2) val }, index_reg)

unfoldable pub get_r16_index : Cpu → ℕ → ℕ → ℕ
get_r16_index cpu reg index_reg =
    if reg == 3 then cpu.sp else if reg == 2 then index_reg else pair cpu.regs (reg * 2)

-- BC, DE, HL, AF
unfoldable pub set_r16_2 : Cpu → ℕ → ℕ → Cpu
set_r16_2 cpu reg val =
    if reg == 3 then set_af cpu val else record cpu { regs = set_pair cpu.regs (reg * 2) val }

unfoldable pub get_r16_2 : Cpu → ℕ → ℕ
get_r16_2 cpu reg = if reg == 3 then af cpu else pair cpu.regs (reg * 2)

-- A maskable interrupt; only mode 1 is served.
unfoldable pub interrupt : Ram → Cpu → Ram × Cpu
interrupt m cpu =
    let (pushed, below) = push m (record cpu { iff1 = false; iff2 = false }) cpu.pc in
    if cpu.iff1 && (cpu.im == 1) then (pushed, record below { pc = 0x0038 }) else (m, cpu)

-- A shadow swap writes the first pair's number in the shadow registers.
unfoldable pub exchange : Cpu → ℕ → ℕ → Bool → Cpu
exchange cpu regpair1 regpair2 is_shadow =
    let temp1 = pair cpu.regs regpair1 in
    let temp2 = if is_shadow then pair cpu.shadow_regs regpair2 else pair cpu.regs regpair2 in
    let first = set_pair cpu.regs regpair1 temp2 in
    if is_shadow
    then record cpu { regs = first; shadow_regs = set_pair cpu.shadow_regs regpair1 temp1 }
    else record cpu { regs = set_pair first regpair2 temp1 }

unfoldable pub exchange_af : Cpu → Cpu
exchange_af cpu =
    let temp1 = af cpu in
    let temp2 = 256 * cpu.shadow_regs reg_a + cpu.shadow_flags in
    let swapped = set_af cpu temp2 in
    record swapped {
      shadow_regs = set_reg cpu.shadow_regs reg_a (temp1 / 256);
      shadow_flags = temp1 % 256;
    }
