-- ===== src/Bemu80/Ops.antt =====
-- The instruction groups of bemu80/bemu80.c: group_x0, op_load, op_alu and the block instructions.
pub mod Block
use manux.Common.{
  leb, ◌==◌, if◌then◌else◌, add16, sub16, ℕ, ◌+◌, ◌-◌, ◌*◌, ◌/◌, ◌%◌, bit_and, bit_or, Bool, true,
  false, not, ◌&&◌,
}
use manux.Bemu80.Machine.{
  Ram, Cpu, reg_b, reg_a, mwrite8, mread8, mwrite16, mread16, put_reg, bc, de, hl, set_bc, set_de,
  set_hl, sign_extend, f_byte, f_word, get_r8, set_r8, set_r16_1, get_r16_1, exchange_af,
}
use manux.Bemu80.Alu
use manux.Bemu80.Alu.{
  flag_c, flag_n, flag_pv, flag_h, flag_z, flag_s, has, set_flag, update_flags_yx, inc16, dec16,
}
use manux.Bemu80.Devices.{Machine, output_handler, input_handler}

-- A condition is a flag that is clear (even) or set (odd).
unfoldable pub check_cond : (flags cond : ℕ) → Bool
check_cond flags cond =
    if cond == 0
    then not (has flags flag_z)
    else if cond == 1
    then has flags flag_z
    else if cond == 2
    then not (has flags flag_c)
    else if cond == 3
    then has flags flag_c
    else if cond == 4
    then not (has flags flag_pv)
    else if cond == 5
    then has flags flag_pv
    else if cond == 6
    then not (has flags flag_s)
    else if cond == 7
    then has flags flag_s
    else false

abbrev pub tick : Cpu → ℕ → Cpu
tick cpu n = record cpu { cycles = cpu.cycles + n }

-- `pc += (int8_t)d`
abbrev pub jump_by : Cpu → ℕ → Cpu
jump_by cpu d = record cpu { pc = add16 cpu.pc (sign_extend d) }

-- Put what an operation answers into a register and the flags.
abbrev pub with_flags : Cpu → ℕ → Cpu
with_flags cpu flags = record cpu { flags = flags }

-- The operand of an instruction whose `y`, `z`, `p` and `q` the code decodes from the opcode.
abbrev pub field_y : ℕ → ℕ
field_y opcode = opcode / 8 % 8

abbrev pub field_z : ℕ → ℕ
field_z opcode = opcode % 8

-- A repeated instruction goes back to its own two bytes.
abbrev pub repeat : Cpu → Bool → Cpu
repeat cpu again =
    if again then record cpu { pc = sub16 cpu.pc 2; cycles = cpu.cycles + 5 } else cpu

-- HL moves by one, down if the direction bit is set.
abbrev pub move_hl : Cpu → ℕ → Cpu
move_hl cpu d = set_hl cpu (if d == 0 then inc16 (hl cpu) else dec16 (hl cpu))

abbrev pub move_de : Cpu → ℕ → Cpu
move_de cpu d = set_de cpu (if d == 0 then inc16 (de cpu) else dec16 (de cpu))

-- BC is decremented, and PV says whether it is not zero yet.
abbrev pub count_bc : Cpu → Cpu
count_bc cpu =
    let counted = set_bc cpu (dec16 (bc cpu)) in
    with_flags counted (set_flag counted.flags flag_pv (not (bc counted == 0)))

-- LDI, LDD, LDIR, LDDR
unfoldable pub block_load : Ram → Cpu → (d r : ℕ) → Ram × Cpu
block_load m cpu d r =
    let m1 = mwrite8 m (de cpu) (mread8 m (hl cpu)) in
    let counted = count_bc (move_de (move_hl cpu d) d) in
    (m1, tick (repeat counted (not (r == 0) && not (bc counted == 0))) 16)

-- CPI, CPD, CPIR, CPDR
unfoldable pub block_compare : Ram → Cpu → (d r : ℕ) → Cpu
block_compare m cpu d r =
    let compared = with_flags cpu (Alu.cp8 cpu.flags (cpu.regs reg_a) (mread8 m (hl cpu))) in
    let counted = count_bc (move_hl compared d) in
    tick (repeat counted (not (r == 0) && not (bc counted == 0) && not (has counted.flags flag_z)))
      16

-- The end of the input and output instructions: HL moves and B is decremented.
abbrev pub count_b : Cpu → (d r : ℕ) → Cpu
count_b cpu d r =
    let moved = move_hl cpu d in
    let (b, flags) = Alu.dec8 moved.flags (moved.regs reg_b) in
    let counted = put_reg (with_flags moved flags) reg_b b in
    tick (repeat counted (not (r == 0) && not (counted.regs reg_b == 0))) 16

-- INI, IND, INIR, INDR
unfoldable pub block_input : Machine → (d r : ℕ) → Machine
block_input m d r =
    let (byte, m1) = input_handler m (bc m.cpu % 256) in
    record m1 { ram = mwrite8 m1.ram (hl m1.cpu) byte; cpu = count_b m1.cpu d r }

-- OUTI, OUTD, OTIR, OTDR
unfoldable pub block_output : Machine → (d r : ℕ) → Machine
block_output m d r =
    let m1 = output_handler m (bc m.cpu % 256) (mread8 m.ram (hl m.cpu)) in
    record m1 { cpu = count_b m1.cpu d r }

unfoldable pub op_block_instruction : Machine → ℕ → Machine
op_block_instruction m opcode =
    let z = field_z opcode in
    let d = field_y opcode % 2 in
    let r = field_y opcode / 2 % 2 in
    let (ram, loaded) = block_load m.ram m.cpu d r in
    if z == 0
    then record m { ram = ram; cpu = loaded }
    else if z == 1
    then record m { cpu = block_compare m.ram m.cpu d r }
    else if z == 2
    then block_input m d r
    else if z == 3
    then block_output m d r
    else m

unfoldable pub op_load : Ram → Cpu → ℕ → Ram × Cpu
op_load m cpu opcode =
    let y = field_y opcode in
    let z = field_z opcode in
    let (m1, loaded) = set_r8 m cpu y (get_r8 m cpu z) in
    if (y == 6) && (z == 6)
    then (m, tick (record cpu { halt = true }) 4)
    else (m1, tick loaded (if y == 6 then 7 else 4))

-- `regs[REG_A] = f(cpu, ...)`
abbrev pub accumulate : Cpu → ℕ × ℕ → Cpu
accumulate cpu (result, flags) = put_reg (with_flags cpu flags) reg_a result

-- The ALU operation `y` on the accumulator and a byte.
unfoldable pub alu_by : Cpu → (y b : ℕ) → Cpu
alu_by cpu y b =
    let a = cpu.regs reg_a in
    if y == 0
    then accumulate cpu (Alu.add8 cpu.flags a b)
    else if y == 1
    then accumulate cpu (Alu.adc8 cpu.flags a b)
    else if y == 2
    then accumulate cpu (Alu.sub8 cpu.flags a b)
    else if y == 3
    then accumulate cpu (Alu.sbc8 cpu.flags a b)
    else if y == 4
    then accumulate cpu (Alu.and8 cpu.flags a b)
    else if y == 5
    then accumulate cpu (Alu.xor8 cpu.flags a b)
    else if y == 6
    then accumulate cpu (Alu.or8 cpu.flags a b)
    else with_flags cpu (Alu.cp8 cpu.flags a b)

unfoldable pub op_alu : Ram → Cpu → ℕ → Cpu
op_alu m cpu opcode =
    let y = field_y opcode in
    tick (alu_by cpu y (get_r8 m cpu (field_z opcode))) (if y == 6 then 7 else 4)

-- z = 0: NOP, EX AF, DJNZ and the relative jumps
unfoldable pub x0_jumps : Ram → Cpu → (y : ℕ) → Cpu
x0_jumps m cpu y =
    let (d, next) = f_byte m cpu in
    let b = sub16 (cpu.regs reg_b) 1 % 256 in
    let counted = tick (put_reg next reg_b b) 8 in
    if leb 4 y
    then (if check_cond cpu.flags (y - 4) then tick (jump_by next d) 12 else tick next 7)
    else if y == 0
    then tick cpu 4
    else if y == 1
    then tick (exchange_af cpu) 4
    else if y == 2
    then (if b == 0 then counted else tick (jump_by counted d) 5)
    else tick (jump_by next d) 12

-- z = 1: ADD HL, rr and LD rr, nn
unfoldable pub x0_pairs : Ram → Cpu → (p q : ℕ) → Cpu
x0_pairs m cpu p q =
    let (sum, flags) = Alu.add16 cpu.flags (hl cpu) (get_r16_1 cpu p) in
    let (value, next) = f_word m cpu in
    if q == 0 then tick (set_r16_1 next p value) 10 else tick (set_hl (with_flags cpu flags) sum) 11

-- z = 2: the loads and stores of A and HL
unfoldable pub x0_memory : Ram → Cpu → (p q : ℕ) → Ram × Cpu
x0_memory m cpu p q =
    let a = cpu.regs reg_a in
    let (address, next) = f_word m cpu in
    if q == 0
    then (if p == 0
        then (mwrite8 m (bc cpu) a, tick cpu 7)
        else if p == 1
        then (mwrite8 m (de cpu) a, tick cpu 7)
        else if p == 2
        then (mwrite16 m address (hl next), tick next 16)
        else (mwrite8 m address a, tick next 13))
    else if p == 0
    then (m, tick (put_reg cpu reg_a (mread8 m (bc cpu))) 7)
    else if p == 1
    then (m, tick (put_reg cpu reg_a (mread8 m (de cpu))) 7)
    else if p == 2
    then (m, tick (set_hl next (mread16 m address)) 16)
    else (m, tick (put_reg next reg_a (mread8 m address)) 13)

-- z = 7: the accumulator's rotates, CPL, SCF and CCF. DAA does nothing.
unfoldable pub x0_accumulator : Cpu → (y : ℕ) → Cpu
x0_accumulator cpu y =
    let a = cpu.regs reg_a in
    let f = cpu.flags in
    let set_a = λ (result flags : ℕ).
      put_reg (with_flags cpu (update_flags_yx flags (result % 256))) reg_a result in
    let left = bit_or (a * 2) (a / 128) in
    let left_c = bit_or (a * 2) (bit_and f flag_c) in
    let right = bit_or (a / 2) (a * 128) in
    let right_c = bit_or (a / 2) (bit_and f flag_c * 128) in
    let done =
      if y == 0
      then set_a left (set_flag (set_flag f flag_c (has left 0x100)) 0x12 false)
      else if y == 1
      then set_a right (set_flag f flag_c (has a 0x01))
      else if y == 2
      then set_a left_c (set_flag (set_flag f flag_c (has left_c 0x100)) 0x12 false)
      else if y == 3
      then set_a right_c (set_flag f flag_c (has a 0x01))
      else if y == 4
      then cpu
      else if y == 5
      then set_a (255 - a) (set_flag f 0x12 true)
      else if y == 6
      then set_a a (set_flag (set_flag f flag_c true) 0x12 false)
      else set_a a (
          set_flag (set_flag (set_flag f flag_h (has f flag_c)) flag_c (not (has f flag_c))) flag_n
            false) in
    tick done 4

unfoldable pub group_x0 : Ram → Cpu → ℕ → Ram × Cpu
group_x0 m cpu opcode =
    let y = field_y opcode in
    let z = field_z opcode in
    let p = y / 2 in
    let q = y % 2 in
    let old = get_r8 m cpu y in
    let (up, up_flags) = Alu.inc8 cpu.flags old in
    let (down, down_flags) = Alu.dec8 cpu.flags old in
    let (m4, inc) = set_r8 m (with_flags cpu up_flags) y up in
    let (m5, dec) = set_r8 m (with_flags cpu down_flags) y down in
    let (n, next) = f_byte m cpu in
    let (m6, loaded) = set_r8 m next y n in
    if z == 0
    then (m, x0_jumps m cpu y)
    else if z == 1
    then (m, x0_pairs m cpu p q)
    else if z == 2
    then x0_memory m cpu p q
    else if z == 3
    then (
      m,
      tick (set_r16_1 cpu p (if q == 0 then inc16 (get_r16_1 cpu p) else dec16 (get_r16_1 cpu p)))
          6,
    )
    else if z == 4
    then (m4, tick inc (if y == 6 then 11 else 4))
    else if z == 5
    then (m5, tick dec (if y == 6 then 11 else 4))
    else if z == 6
    then (m6, tick loaded (if y == 6 then 10 else 7))
    else (m, x0_accumulator cpu y)
