-- ===== src/Bemu80/Step/Calls.antt =====
-- Calls and returns of bemu80/bemu80.c, and instructions that do not what their names say.
use manux.Common.{
  ne→==, ==-refl, add16, ℕ, ◌+◌, ◌*◌, ◌/◌, ◌%◌, ◌≤◌, ◌<◌, bit_or, ◌≡◌, refl, ap, ◌∙◌, ◌≢◌, ◌⊎◌,
  arith,
}
use manux.Bemu80.Machine.{mread8, mread16, f_byte, f_word, get_index_addr, pop, get_r8, set_r8}
use manux.Bemu80.Machine.Laws.{pop-push}
use manux.Bemu80.Alu
use manux.Bemu80.Devices.{Machine}
use manux.Bemu80.Prefix.{shifted, write_back, prefix_cb, with_cpu}
use manux.Bemu80.Index.{prefix_cb_index, prefix_dd_fd}
use manux.Bemu80.Step.{return_by, call_to, x3_misc, x3_prefixes, group_x3, dispatch, step}

-- CALL nn goes to its operand, and a return from there goes on behind the instruction, with the
-- stack pointer as it was: when the two bytes below the stack pointer are in RAM.
pub step-call :
    (k : Machine)
    → mread8 k.ram k.cpu.pc ≡ 0xCD
    → k.cpu.pc < 65536
    → k.ram.rom_size + 2 ≤ k.cpu.sp
    → k.cpu.sp ≤ 0xFFFF
    → let called = step k in
      let back = return_by called.ram called.cpu in
      (called.cpu.pc ≡ mread16 k.ram (add16 k.cpu.pc 1))
      × (back.pc ≡ add16 k.cpu.pc 3)
      × (back.sp ≡ k.cpu.sp)
unfolding step dispatch group_x3 x3_prefixes call_to f_byte f_word pop
step-call k code small rom top =
    let cpu = record k.cpu { pc = add16 (add16 k.cpu.pc 1) 2; r = (k.cpu.r + 1) % 128 } in
    let round = pop-push k.ram cpu cpu.pc (omega arith) rom top in
    rw code (refl, ap (λ p. p.0) round ∙ omega arith, ap (λ p. p.1.sp) round)

-- The bits of the operation and of the register in an opcode
abbrev pub cb_opcode : (x y z : ℕ) → ℕ
cb_opcode x y z = x * 64 + y * 8 + z

-- RR of a register shifts to the left, as RL does: the result is twice the register and the carry.
pub step-rr :
    (k : Machine) (z : ℕ)
    → z < 8
    → z ≢ 6
    → mread8 k.ram k.cpu.pc ≡ 0xCB
    → mread8 k.ram (add16 k.cpu.pc 1) ≡ cb_opcode 0 3 z
    → (step k).cpu.regs z ≡ bit_or (k.cpu.regs z * 2) (Alu.get_flag k.cpu.flags Alu.flag_c) % 256
unfolding step dispatch group_x3 x3_misc prefix_cb f_byte shifted write_back set_r8 get_r8 Alu.rl8
    Alu.rotated
step-rr k z lt register first code =
    let x : cb_opcode 0 3 z / 64 ≡ 0 = omega arith in
    let y : cb_opcode 0 3 z / 8 % 8 ≡ 3 = omega arith in
    let e : cb_opcode 0 3 z % 8 ≡ z = omega arith in
    rw (first, code, x, y, e, ne→== z 6 register) (rw (==-refl z) (omega arith))

-- SET and RES on a byte at IX + d change no memory and no register: behind their four bytes only
-- the program counter and the refresh register differ.
pub step-set_index :
    (k : Machine) (x y z : ℕ)
    → x ≡ 2 ⊎ x ≡ 3
    → y < 8
    → z < 8
    → mread8 k.ram k.cpu.pc ≡ 0xDD
    → mread8 k.ram (add16 k.cpu.pc 1) ≡ 0xCB
    → mread8 k.ram (add16 k.cpu.pc 3) ≡ cb_opcode x y z
    → step k ≡ with_cpu k (record k.cpu { pc = add16 k.cpu.pc 4; r = (k.cpu.r + 1) % 128 })
unfolding step dispatch group_x3 x3_prefixes prefix_dd_fd prefix_cb_index f_byte get_index_addr
step-set_index k x y z kind hy hz first second code =
    let three : add16 (add16 (add16 k.cpu.pc 1) 1) 1 ≡ add16 k.cpu.pc 3 = omega arith in
    let four : add16 (add16 (add16 (add16 k.cpu.pc 1) 1) 1) 1 ≡ add16 k.cpu.pc 4 = omega arith in
    let e : cb_opcode x y z / 64 ≡ x = omega arith in
    let no_shift = ne→== x 0 (ground arith) in
    let no_test = ne→== x 1 (ground arith) in
    rw (first, second, three, code, e, no_shift, no_test)
      (ap (λ n. with_cpu k (record k.cpu { pc = n; r = (k.cpu.r + 1) % 128 })) (omega arith))
