-- ===== src/Bemu80/Step.antt =====
-- group_x3, dispatch, step and the round of execute in bemu80/bemu80.c.
pub mod Kept
pub mod Ports
pub mod Rom
pub mod Calls
pub mod Ldir
pub mod Tests
use manux.Common.{◌==◌, if◌then◌else◌, ℕ, ◌+◌, ◌*◌, ◌/◌, ◌%◌, true, false}
use manux.Bemu80.Machine.{
  Ram, Cpu, reg_b, reg_d, reg_h, reg_a, mwrite16, mread16, put_reg, hl, set_hl, f_byte, f_word,
  push, pop, set_r16_2, get_r16_2, interrupt, exchange,
}
use manux.Bemu80.Alu
use manux.Bemu80.Devices.{Machine, output_handler, input_handler}
use manux.Bemu80.Ops.{check_cond, tick, field_y, field_z, op_load, alu_by, op_alu, group_x0}
use manux.Bemu80.Prefix.{prefix_cb, with_ram, with_cpu, prefix_ed}
use manux.Bemu80.Index.{prefix_dd_fd, to_ix, to_iy}

-- RET, with and without a condition
abbrev pub return_by : Ram → Cpu → Cpu
return_by m cpu = let (address, above) = pop m cpu in record above { pc = address }

-- CALL: the address behind the instruction is pushed.
unfoldable pub call_to : Ram → Cpu → ℕ → Ram × Cpu
call_to m cpu address =
    let (pushed, below) = push m cpu cpu.pc in (pushed, record below { pc = address })

-- EXX
abbrev pub exchange_all : Cpu → Cpu
exchange_all cpu =
    exchange (exchange (exchange cpu reg_b reg_b true) reg_d reg_d true) reg_h reg_h true

-- z = 1: RET, EXX, JP (HL), LD SP, HL and POP
unfoldable pub x3_stack : Ram → Cpu → (p q : ℕ) → Cpu
x3_stack m cpu p q =
    let (value, above) = pop m cpu in
    if q == 0
    then tick (set_r16_2 above p value) 10
    else if p == 0
    then tick (return_by m cpu) 10
    else if p == 1
    then tick (exchange_all cpu) 4
    else if p == 2
    then tick (record cpu { pc = hl cpu }) 4
    else tick (record cpu { sp = hl cpu }) 6

-- z = 3, y = 2 and 3: OUT (n), A and IN A, (n)
unfoldable pub x3_output : Machine → Machine
x3_output m =
    let (port, next) = f_byte m.ram m.cpu in
    let m1 = output_handler (with_cpu m next) port (next.regs reg_a) in with_cpu m1 (tick m1.cpu 11)

unfoldable pub x3_input : Machine → Machine
x3_input m =
    let (port, next) = f_byte m.ram m.cpu in
    let (byte, m1) = input_handler (with_cpu m next) port in
    with_cpu m1 (tick (put_reg m1.cpu reg_a byte) 11)

-- z = 3, y = 4: EX (SP), HL
unfoldable pub x3_exchange : Ram → Cpu → Ram × Cpu
x3_exchange m cpu =
    let swapped = set_hl (record cpu { wz = hl cpu }) (mread16 m cpu.sp) in
    (mwrite16 m cpu.sp (hl cpu), tick swapped 19)

unfoldable pub x3_misc : Machine → (y : ℕ) → Machine
x3_misc m y =
    let cpu = m.cpu in
    let (address, next) = f_word m.ram cpu in
    if y == 0
    then with_cpu m (tick (record next { pc = address }) 10)
    else if y == 1
    then with_ram m (prefix_cb m.ram cpu)
    else if y == 2
    then x3_output m
    else if y == 3
    then x3_input m
    else if y == 4
    then with_ram m (x3_exchange m.ram cpu)
    else if y == 5
    then with_cpu m (tick (exchange cpu reg_d reg_h false) 4)
    else if y == 6
    then with_cpu m (tick (record cpu { iff1 = false; iff2 = false }) 4)
    else with_cpu m (tick (record cpu { iff1 = true; iff2 = true }) 4)

-- z = 5: CALL nn, the prefixes and PUSH
unfoldable pub x3_prefixes : Machine → (p q : ℕ) → Machine
x3_prefixes m p q =
    let cpu = m.cpu in
    let (address, next) = f_word m.ram cpu in
    let (called, target) = call_to m.ram next address in
    let (pushed, below) = push m.ram cpu (get_r16_2 cpu p) in
    if q == 0
    then with_ram m (pushed, tick below 11)
    else if p == 0
    then with_ram m (called, tick target 17)
    else if p == 1
    then with_ram m (prefix_dd_fd m.ram to_ix cpu)
    else if p == 2
    then prefix_ed m
    else with_ram m (prefix_dd_fd m.ram to_iy cpu)

unfoldable pub group_x3 : Machine → ℕ → Machine
group_x3 m opcode =
    let cpu = m.cpu in
    let y = field_y opcode in
    let z = field_z opcode in
    let p = y / 2 in
    let q = y % 2 in
    let (address, next) = f_word m.ram cpu in
    let (imm8, behind) = f_byte m.ram cpu in
    let (called, target) = call_to m.ram next address in
    let (reset, vector) = call_to m.ram cpu (y * 8) in
    if z == 0
    then with_cpu m (if check_cond cpu.flags y then tick (return_by m.ram cpu) 11 else tick cpu 5)
    else if z == 1
    then with_cpu m (x3_stack m.ram cpu p q)
    else if z == 2
    then with_cpu m
        (tick (if check_cond cpu.flags y then record next { pc = address } else next) 10)
    else if z == 3
    then x3_misc m y
    else if z == 4
    then (if check_cond cpu.flags y
        then with_ram m (called, tick target 17)
        else with_cpu m (tick next 10))
    else if z == 5
    then x3_prefixes m p q
    else if z == 6
    then with_cpu m (tick (alu_by behind y imm8) 7)
    else with_ram m (reset, tick vector 11)

unfoldable pub dispatch : Machine → ℕ → Machine
dispatch m opcode =
    let x = opcode / 64 in
    if x == 0
    then with_ram m (group_x0 m.ram m.cpu opcode)
    else if x == 1
    then with_ram m (op_load m.ram m.cpu opcode)
    else if x == 2
    then with_cpu m (op_alu m.ram m.cpu opcode)
    else group_x3 m opcode

-- The machine behind one instruction
unfoldable pub step : Machine → Machine
step m =
    let (opcode, next) = f_byte m.ram m.cpu in
    dispatch (with_cpu m (record next { r = (next.r + 1) % 128 })) opcode

-- One round of execute without a breakpoint: a pending interrupt first.
unfoldable pub execute_round : Machine → Machine
execute_round m =
    let interrupted = with_ram (record m { interrupt_pending = false }) (interrupt m.ram m.cpu) in
    step (if m.interrupt_pending then interrupted else m)
