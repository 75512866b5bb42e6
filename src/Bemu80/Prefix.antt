-- ===== src/Bemu80/Prefix.antt =====
-- The prefixes CB (rotates, shifts and bits) and ED (miscellaneous) of bemu80/bemu80.c.
use manux.Common.{
  leb, ◌==◌, if◌then◌else◌, ℕ, ◌-◌, ◌*◌, ◌/◌, ◌%◌, bit_and, bit_or, false, ◌&&◌, ◌||◌,
}
use manux.Bemu80.Machine.{
  Ram, Cpu, reg_a, mwrite8, mread8, mwrite16, mread16, put_reg, bc, hl, set_hl, f_byte, f_word, pop,
  get_r8, set_r8, set_r16_1, get_r16_1,
}
use manux.Bemu80.Alu
use manux.Bemu80.Alu.{flag_pv, flag_z, flag_s, has, set_flag, update_flags_yx, logic_flags}
use manux.Bemu80.Devices.{Machine, output_handler, input_handler}
use manux.Bemu80.Ops.{tick, with_flags, field_y, field_z, op_block_instruction, accumulate}

-- The eight rotates and shifts, by the middle bits of the opcode. The fourth, RR, is rl8.
unfoldable pub shifted : (y flags val : ℕ) → ℕ × ℕ
shifted y flags val =
    if y == 0
    then Alu.rlc8 flags val
    else if y == 1
    then Alu.rrc8 flags val
    else if y == 2
    then Alu.rl8 flags val
    else if y == 3
    then Alu.rl8 flags val
    else if y == 4
    then Alu.sla8 flags val
    else if y == 5
    then Alu.sra8 flags val
    else if y == 6
    then Alu.sll8 flags val
    else Alu.srl8 flags val

-- The end of prefix_cb: the result goes back to where it came from.
unfoldable pub write_back : Ram → Cpu → (z res : ℕ) → Ram × Cpu
write_back m cpu z res =
    let (m1, done) = set_r8 m cpu z res in (m1, tick done (if z == 6 then 15 else 8))

-- A BIT instruction returns before the cycles are counted.
unfoldable pub prefix_cb : Ram → Cpu → Ram × Cpu
prefix_cb m cpu =
    let (opcode, next) = f_byte m cpu in
    let x = opcode / 64 in
    let y = field_y opcode in
    let z = field_z opcode in
    let val = get_r8 m next z in
    let (result, flags) = shifted y next.flags val in
    if x == 0
    then write_back m (with_flags next flags) z result
    else if x == 1
    then (m, with_flags next (Alu.bit8 next.flags val y))
    else if x == 2
    then write_back m next z (Alu.res8 val y)
    else write_back m next z (Alu.set8 val y)

-- im_modes
abbrev pub im_modes : ℕ → ℕ
im_modes y = if (y == 2) || (y == 6) then 1 else if (y == 3) || (y == 7) then 2 else 0

-- LD A, I and LD A, R
abbrev pub load_special : Cpu → ℕ → Cpu
load_special cpu value =
    let s = set_flag cpu.flags flag_s (has value 0x80) in
    let sz = set_flag s flag_z (value == 0) in
    let pv = set_flag (set_flag sz 0x12 false) flag_pv cpu.iff2 in
    tick (put_reg (with_flags cpu pv) reg_a value) 9

-- The flags of RRD and RLD
abbrev pub digit_flags : (flags a : ℕ) → ℕ
digit_flags flags a =
    let kept = bit_or (bit_and flags (255 - 0xC4)) (logic_flags 0 a) in
    update_flags_yx (set_flag kept 0x12 false) a

unfoldable pub rrd : Ram → Cpu → Ram × Cpu
rrd m cpu =
    let temp1 = mread8 m (hl cpu) in
    let temp_a = cpu.regs reg_a in
    let a = bit_or (bit_and temp_a 0xF0) (bit_and temp1 0x0F) in
    (
      mwrite8 m (hl cpu) (bit_or (temp1 / 16) (bit_and temp_a 0x0F * 16)),
      tick (put_reg (with_flags cpu (digit_flags cpu.flags a)) reg_a a) 18,
    )

unfoldable pub rld : Ram → Cpu → Ram × Cpu
rld m cpu =
    let temp1 = mread8 m (hl cpu) in
    let temp_a = cpu.regs reg_a in
    let a = bit_or (bit_and temp_a 0xF0) (temp1 / 16) in
    (
      mwrite8 m (hl cpu) (bit_or (temp1 * 16) (bit_and temp_a 0x0F) % 256),
      tick (put_reg (with_flags cpu (digit_flags cpu.flags a)) reg_a a) 18,
    )

-- x = 1, z = 7
unfoldable pub ed_special : Ram → Cpu → (y : ℕ) → Ram × Cpu
ed_special m cpu y =
    if y == 0
    then (m, tick (record cpu { i = cpu.regs reg_a }) 9)
    else if y == 1
    then (m, tick (record cpu { r = cpu.regs reg_a }) 9)
    else if y == 2
    then (m, load_special cpu cpu.i)
    else if y == 3
    then (m, load_special cpu cpu.r)
    else if y == 4
    then rrd m cpu
    else if y == 5
    then rld m cpu
    else (m, tick cpu 8)

-- x = 1, z = 2: ADC HL, rr and SBC HL, rr
unfoldable pub ed_arith : Cpu → (p q : ℕ) → Cpu
ed_arith cpu p q =
    let (result, flags) =
      if q == 0
      then Alu.sbc16 cpu.flags (hl cpu) (get_r16_1 cpu p)
      else Alu.adc16 cpu.flags (hl cpu) (get_r16_1 cpu p) in
    tick (set_hl (with_flags cpu flags) result) 15

-- x = 1, z = 3: LD rr, (nn) and LD (nn), rr
unfoldable pub ed_pairs : Ram → Cpu → (p q : ℕ) → Ram × Cpu
ed_pairs m cpu p q =
    let (address, next) = f_word m cpu in
    if q == 0
    then (mwrite16 m address (get_r16_1 next p), tick next 20)
    else (m, tick (set_r16_1 next p (mread16 m address)) 20)

-- x = 1, z = 5: RETI and RETN
unfoldable pub ed_return : Ram → Cpu → (y : ℕ) → Cpu
ed_return m cpu y =
    let (address, above) = pop m cpu in
    let back = record above { pc = address } in
    tick (if y == 1 then back else record back { iff1 = back.iff2 }) 14

-- x = 1, z = 0: IN r, (C)
unfoldable pub ed_input : Machine → (y : ℕ) → Machine
ed_input m y =
    let (byte, m1) = input_handler m (bc m.cpu % 256) in
    let (ram, loaded) = set_r8 m1.ram m1.cpu y byte in
    if y == 6
    then record m { cpu = tick m.cpu 12 }
    else record m1 { ram = ram; cpu = tick loaded 12 }

-- x = 1, z = 1: OUT (C), r
unfoldable pub ed_output : Machine → (y : ℕ) → Machine
ed_output m y =
    let m1 = output_handler m (bc m.cpu % 256) (if y == 6 then 0 else get_r8 m.ram m.cpu y) in
    record m1 { cpu = tick m1.cpu 12 }

-- The memory and the processor that an instruction leaves.
abbrev pub with_ram : Machine → Ram × Cpu → Machine
with_ram m (ram, cpu) = record m { ram = ram; cpu = cpu }

abbrev pub with_cpu : Machine → Cpu → Machine
with_cpu m cpu = record m { cpu = cpu }

-- x = 1
unfoldable pub ed_group : Machine → (y z : ℕ) → Machine
ed_group m y z =
    let cpu = m.cpu in
    let p = y / 2 in
    let q = y % 2 in
    if z == 0
    then ed_input m y
    else if z == 1
    then ed_output m y
    else if z == 2
    then with_cpu m (ed_arith cpu p q)
    else if z == 3
    then with_ram m (ed_pairs m.ram cpu p q)
    else if z == 4
    then with_cpu m (tick (accumulate cpu (Alu.sub8 cpu.flags 0 (cpu.regs reg_a))) 8)
    else if z == 5
    then with_cpu m (ed_return m.ram cpu y)
    else if z == 6
    then with_cpu m (tick (record cpu { im = im_modes y }) 8)
    else with_ram m (ed_special m.ram cpu y)

unfoldable pub prefix_ed : Machine → Machine
prefix_ed m0 =
    let (opcode, next) = f_byte m0.ram m0.cpu in
    let m = with_cpu m0 next in
    let x = opcode / 64 in
    let y = field_y opcode in
    let z = field_z opcode in
    if x == 1
    then ed_group m y z
    else if x == 2
    then (if leb z 3 && leb 4 y then op_block_instruction m opcode else m)
    else m
