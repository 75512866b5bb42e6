-- ===== src/Bemu80/Machine/Laws.antt =====
-- Registers, the stack and interrupts of bemu80/bemu80.c.
use manux.Common.{
  ltb, leb, ◌==◌, if◌then◌else◌, add16, sub16, word, word-store_word, ℕ, ◌+◌, ◌-◌, ◌≤◌, ◌<◌, ◌≡◌,
  refl, ap, true, false, ◌||◌, arith,
}
use manux.Bemu80.Machine.{
  Ram, Cpu, mem_size, mwrite16, mread16, af, set_af, push, pop, set_r16_1, get_r16_1, set_r16_2,
  get_r16_2, interrupt,
}

-- What was pushed is popped, the stack pointer comes back, and the processor is otherwise as it
-- was: when the two bytes below the stack pointer are in RAM.
pub pop-push :
    (m : Ram) (cpu : Cpu) (value : ℕ)
    → value < 65536
    → m.rom_size + 2 ≤ cpu.sp
    → cpu.sp ≤ 0xFFFF
    → let (pushed, below) = push m cpu value in pop pushed below ≡ (value, cpu)
unfolding push pop mread16 mwrite16
pop-push m cpu value hv rom hi =
    let down : sub16 cpu.sp 2 ≡ cpu.sp - 2 = omega arith in
    let up : add16 (sub16 cpu.sp 2) 2 ≡ cpu.sp = omega arith in
    let fits : (leb mem_size (cpu.sp - 2 + 1) || ltb (cpu.sp - 2) m.rom_size) ≡ false =
      ground arith in
    let top : leb mem_size (cpu.sp - 2 + 1) ≡ false = ground arith in
    let read : (if leb mem_size (sub16 cpu.sp 2 + 1)
          then 0
          else word (mwrite16 m (sub16 cpu.sp 2) value).bytes (sub16 cpu.sp 2))
        ≡ value =
      rw (down, mwrite16, fits, top) (word-store_word m.bytes (cpu.sp - 2) value hv) in
    λ i. (read i, record cpu { sp = up i })

-- Each of BC, DE, HL and SP reads back what was put into it, and the three others are unchanged.
pub get_r16_1-set_r16_1 :
    (cpu : Cpu) (reg other value : ℕ)
    → reg < 4
    → other < 4
    → value < 65536
    → get_r16_1 (set_r16_1 cpu reg value) other
      ≡ (if other == reg then value else get_r16_1 cpu other)
unfolding get_r16_1 set_r16_1
get_r16_1-set_r16_1 cpu reg other value hr ho hv = ground arith

-- So do BC, DE, HL and AF.
pub get_r16_2-set_r16_2 :
    (cpu : Cpu) (reg other value : ℕ)
    → reg < 4
    → other < 4
    → value < 65536
    → get_r16_2 (set_r16_2 cpu reg value) other
      ≡ (if other == reg then value else get_r16_2 cpu other)
unfolding get_r16_2 set_r16_2 af set_af
get_r16_2-set_r16_2 cpu reg other value hr ho hv = ground arith

-- An interrupt in mode 1 with interrupts enabled, and two bytes of RAM below the stack pointer,
-- disables them, jumps to 0x0038, and leaves the address of the interrupted instruction and the
-- old stack pointer for a return to pop.
pub interrupt_lem :
    (m : Ram) (cpu : Cpu)
    → cpu.iff1 ≡ true
    → cpu.im ≡ 1
    → cpu.pc < 65536
    → m.rom_size + 2 ≤ cpu.sp
    → cpu.sp ≤ 0xFFFF
    → let (m1, cpu1) = interrupt m cpu in
      (cpu1.pc ≡ 0x0038)
      × (cpu1.iff1 ≡ false)
      × (cpu1.iff2 ≡ false)
      × ((pop m1 cpu1).0 ≡ cpu.pc)
      × ((pop m1 cpu1).1.sp ≡ cpu.sp)
unfolding interrupt pop push
interrupt_lem m cpu enabled mode hpc rom hi =
    let back = pop-push m cpu cpu.pc hpc rom hi in
    let value = ap (λ p. p.0) back in
    let sp = ap (λ p. p.1.sp) back in rw (enabled, mode) (refl, refl, refl, value, sp)
