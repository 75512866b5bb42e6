-- ===== src/Bemu80/Step/Rom.antt =====
-- No instruction of bemu80/bemu80.c changes the ROM.
use manux.Common.{if◌then◌else◌, sub16, ℕ, ◌+◌, ◌%◌, ◌≡◌, false}
use manux.Bemu80.Machine.{Ram, Cpu, reg_a, mread8, bc, de, hl, f_byte, push, interrupt}
use manux.Bemu80.Devices.{Machine, receive_char}
use manux.Bemu80.Ops.{field_y, field_z, block_load, block_input, block_output, op_block_instruction}
use manux.Bemu80.Prefix.{
  rrd, rld, ed_special, ed_pairs, ed_input, ed_output, with_ram, with_cpu, ed_group, prefix_ed,
}
use manux.Bemu80.Step.{
  call_to, x3_output, x3_input, x3_exchange, x3_misc, x3_prefixes, group_x3, dispatch, step,
  execute_round,
}
use manux.Bemu80.Step.Kept.{
  SameRom, same, then_same, mwrite8-SameRom, mwrite16-SameRom, pick, leaf, Leaves, LeavesMachine,
  set_r8-SameRom, keeping, group_x0-SameRom, op_load-SameRom, prefix_cb-SameRom,
  prefix_dd_fd-SameRom,
}
use manux.Bemu80.Step.Ports.{output_handler-SameRom, input_handler-SameRom}

block_load-SameRom : (m : Ram) (cpu : Cpu) (d r : ℕ) → SameRom m (block_load m cpu d r).0
unfolding block_load
block_load-SameRom m cpu d r = mwrite8-SameRom m (de cpu) (mread8 m (hl cpu))

-- The instructions that reach a port keep the ROM through the handler's machine.
block_input-SameRom : (k : Machine) (d r : ℕ) → SameRom k.ram (block_input k d r).ram
unfolding block_input
block_input-SameRom k d r =
    then_same (input_handler-SameRom k (bc k.cpu % 256)).rom (mwrite8-SameRom _ _ _)

block_output-SameRom : (k : Machine) (d r : ℕ) → SameRom k.ram (block_output k d r).ram
unfolding block_output
block_output-SameRom k d r =
    (output_handler-SameRom k (bc k.cpu % 256) (mread8 k.ram (hl k.cpu))).rom

op_block_instruction-SameRom :
    (k : Machine) (opcode : ℕ) → LeavesMachine k.ram (op_block_instruction k opcode)
unfolding op_block_instruction
op_block_instruction-SameRom k opcode =
    search (pick, leaf, same, block_load-SameRom, block_input-SameRom, block_output-SameRom) depth
      14

ed_special-SameRom : (m : Ram) (cpu : Cpu) (y : ℕ) → SameRom m (ed_special m cpu y).0
unfolding ed_special rrd rld
ed_special-SameRom m cpu y =
    let all : Leaves m (ed_special m cpu y) = search keeping depth 14 in all.rom

ed_pairs-SameRom : (m : Ram) (cpu : Cpu) (p q : ℕ) → SameRom m (ed_pairs m cpu p q).0
unfolding ed_pairs
ed_pairs-SameRom m cpu p q =
    let all : Leaves m (ed_pairs m cpu p q) = search keeping depth 12 in all.rom

ed_input-SameRom : (k : Machine) (y : ℕ) → LeavesMachine k.ram (ed_input k y)
unfolding ed_input
ed_input-SameRom k y =
    pick _ (leaf (same k.ram))
      (leaf (then_same (input_handler-SameRom k (bc k.cpu % 256)).rom (set_r8-SameRom _ _ _ _)))

ed_output-SameRom : (k : Machine) (y : ℕ) → LeavesMachine k.ram (ed_output k y)
unfolding ed_output
ed_output-SameRom k y = leaf (output_handler-SameRom k _ _).rom

ed_group-SameRom : (k : Machine) (y z : ℕ) → LeavesMachine k.ram (ed_group k y z)
unfolding ed_group
ed_group-SameRom k y z =
    search
      (pick, leaf, same, ed_input-SameRom, ed_output-SameRom, ed_pairs-SameRom, ed_special-SameRom)
      depth 16

prefix_ed-SameRom : (k : Machine) → LeavesMachine k.ram (prefix_ed k)
unfolding prefix_ed
prefix_ed-SameRom k =
    let (opcode, next) = f_byte k.ram k.cpu in
    let m = with_cpu k next in
    let group : LeavesMachine k.ram (ed_group m (field_y opcode) (field_z opcode)) =
      ed_group-SameRom m _ _ in
    let block : LeavesMachine k.ram (op_block_instruction m opcode) =
      op_block_instruction-SameRom m opcode in
    search (pick, leaf, same) depth 10

x3_output-SameRom : (k : Machine) → SameRom k.ram (x3_output k).ram
unfolding x3_output
x3_output-SameRom k =
    let (port, next) = f_byte k.ram k.cpu in
    (output_handler-SameRom (with_cpu k next) port (next.regs reg_a)).rom

x3_input-SameRom : (k : Machine) → SameRom k.ram (x3_input k).ram
unfolding x3_input
x3_input-SameRom k =
    let (port, next) = f_byte k.ram k.cpu in (input_handler-SameRom (with_cpu k next) port).rom

x3_exchange-SameRom : (m : Ram) (cpu : Cpu) → SameRom m (x3_exchange m cpu).0
unfolding x3_exchange
x3_exchange-SameRom m cpu = mwrite16-SameRom m cpu.sp (hl cpu)

call_to-SameRom : (m : Ram) (cpu : Cpu) (address : ℕ) → SameRom m (call_to m cpu address).0
unfolding call_to push
call_to-SameRom m cpu address = mwrite16-SameRom m (sub16 cpu.sp 2) cpu.pc

push-SameRom : (m : Ram) (cpu : Cpu) (value : ℕ) → SameRom m (push m cpu value).0
unfolding push
push-SameRom m cpu value = mwrite16-SameRom m (sub16 cpu.sp 2) value

x3_misc-SameRom : (k : Machine) (y : ℕ) → LeavesMachine k.ram (x3_misc k y)
unfolding x3_misc
x3_misc-SameRom k y =
    search
      (
        pick, leaf, same, prefix_cb-SameRom, x3_output-SameRom, x3_input-SameRom,
        x3_exchange-SameRom,
      )
      depth 16

x3_prefixes-SameRom : (k : Machine) (p q : ℕ) → LeavesMachine k.ram (x3_prefixes k p q)
unfolding x3_prefixes
x3_prefixes-SameRom k p q =
    search (pick, leaf, prefix_ed-SameRom, push-SameRom, call_to-SameRom, prefix_dd_fd-SameRom)
      depth 16

group_x3-SameRom : (k : Machine) (opcode : ℕ) → LeavesMachine k.ram (group_x3 k opcode)
unfolding group_x3
group_x3-SameRom k opcode =
    search (pick, leaf, same, x3_misc-SameRom, x3_prefixes-SameRom, call_to-SameRom) depth 16

dispatch-SameRom : (k : Machine) (opcode : ℕ) → LeavesMachine k.ram (dispatch k opcode)
unfolding dispatch
dispatch-SameRom k opcode =
    search (pick, leaf, same, group_x0-SameRom, op_load-SameRom, group_x3-SameRom) depth 12

step-SameRom : (k : Machine) → SameRom k.ram (step k).ram
unfolding step
step-SameRom k =
    let (opcode, next) = f_byte k.ram k.cpu in
    (dispatch-SameRom (with_cpu k (record next { r = (next.r + 1) % 128 })) opcode).rom

interrupt-SameRom : (m : Ram) (cpu : Cpu) → SameRom m (interrupt m cpu).0
unfolding interrupt
interrupt-SameRom m cpu =
    let all : Leaves m (interrupt m cpu) = search (pick, leaf, same, push-SameRom) in all.rom

-- What the emulator goes through: rounds of execute while the processor runs, and characters that
-- input_thread receives, in any order.
pub data Execution (start : Machine) : Machine → Type 0 where
  begin : Execution start start
  round : {m : Machine} → Execution start m → m.cpu.halt ≡ false → Execution start (execute_round m)
  receive : {m : Machine} (ch : ℕ) → Execution start m → Execution start (receive_char m ch)

execute_round-SameRom : (m : Machine) → SameRom m.ram (execute_round m).ram
unfolding execute_round
execute_round-SameRom m =
    let interrupted = with_ram (record m { interrupt_pending = false }) (interrupt m.ram m.cpu) in
    let first : LeavesMachine m.ram (if m.interrupt_pending then interrupted else m) =
      pick m.interrupt_pending (leaf (interrupt-SameRom m.ram m.cpu)) (leaf (same m.ram)) in
    then_same first.rom (step-SameRom (if m.interrupt_pending then interrupted else m))

-- Whatever program runs and whatever is typed, no byte of the ROM and not its size changes: not by
-- a store, the stack, the floppy controller or an interrupt.
pub Execution-keeps_rom : {start m : Machine} → Execution start m → SameRom start.ram m.ram
unfolding receive_char
Execution-keeps_rom {start} begin = same start.ram
Execution-keeps_rom (round {m} e running) =
    then_same (Execution-keeps_rom e) (execute_round-SameRom m)
Execution-keeps_rom (receive ch e) = Execution-keeps_rom e
