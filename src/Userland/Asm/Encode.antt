-- ===== src/Userland/Asm/Encode.antt =====
-- What userland/m80asm.c emits for LD and for the relative jumps, and what the processor of
-- bemu80/bemu80.c does with it.
use manux.Common.{
  ◌==◌, if◌then◌else◌, ne→==, add16, ℕ, zero, suc, ◌+◌, ◌-◌, ◌*◌, ◌/◌, ◌%◌, ◌^◌, ◌≤◌, ◌<◌, ◌≡◌,
  refl, ◌∙◌, ◌≢◌, ◌⊎◌, true, false, ◌&&◌, none, List, arith,
}
use manux.Common.Text.{codes, same_text}
use manux.Bemu80.Machine.{Cpu, mread8, set_reg, f_byte, get_r8, set_r8}
use manux.Bemu80.Devices.{Machine}
use manux.Bemu80.Ops.{jump_by, op_load}
use manux.Bemu80.Step.{dispatch, step}
use manux.Userland.Asm.{Asm, minus_one, emitb, emitw, done, failed}
use manux.Userland.Asm.Number.{digit_value, read_digits, read_prefixed, is_space, strtol}
use manux.Userland.Asm.Operand.{
  reg8, index_reg, before_close, in_parens, addr_in, mem_addr, index_inside, index_in, index_addr,
}
use manux.Userland.Asm.Load.{load_registers, load_absolute, load_pairs, store_to, load_from, ld}
use manux.Userland.Asm.Flow.{emit_rel}

-- The operands that stand for the eight registers, (HL) among them
abbrev pub register_name : ℕ → List ℕ
register_name zero = codes "B"
register_name (suc zero) = codes "C"
register_name (suc (suc zero)) = codes "D"
register_name (suc (suc (suc zero))) = codes "E"
register_name (suc (suc (suc (suc zero)))) = codes "H"
register_name (suc (suc (suc (suc (suc zero))))) = codes "L"
register_name (suc (suc (suc (suc (suc (suc zero)))))) = codes "(HL)"
register_name (suc (suc (suc (suc (suc (suc (suc n))))))) = codes "A"

-- How the tests of the assembler see the name of a register
record Names8 (r : ℕ) : Type 0 where
  number : reg8 (register_name r) ≡ r
  no_index : index_addr (register_name r) ≡ none
  no_prefix : index_reg (register_name r) ≡ minus_one
  address : mem_addr (register_name r) ≡ (if r == 6 then 0 else minus_one)
  is_a : same_text (register_name r) (codes "A") ≡ (r == 7)
  no_hl : same_text (register_name r) (codes "HL") ≡ false
  no_sp : same_text (register_name r) (codes "SP") ≡ false
  no_bc : same_text (register_name r) (codes "(BC)") ≡ false
  no_de : same_text (register_name r) (codes "(DE)") ≡ false

register_name-Names8 : (r : ℕ) → r < 8 → Names8 r
unfolding reg8 index_addr index_in index_inside index_reg mem_addr addr_in in_parens before_close
    same_text strtol is_space read_prefixed read_digits digit_value
register_name-Names8 zero h = ground arith
register_name-Names8 (suc zero) h = ground arith
register_name-Names8 (suc (suc zero)) h = ground arith
register_name-Names8 (suc (suc (suc zero))) h = ground arith
register_name-Names8 (suc (suc (suc (suc zero)))) h = ground arith
register_name-Names8 (suc (suc (suc (suc (suc zero))))) h = ground arith
register_name-Names8 (suc (suc (suc (suc (suc (suc zero)))))) h = ground arith
register_name-Names8 (suc (suc (suc (suc (suc (suc (suc zero))))))) h = ground arith
register_name-Names8 (suc (suc (suc (suc (suc (suc (suc (suc n)))))))) h = absurd (omega arith)

-- LD between two registers: one byte with their numbers; an error for (HL) twice. But LD A, (HL)
-- and LD (HL), A become a load from and a store to the address 0.
pub ld_registers :
    (s : Asm) (r1 r2 : ℕ)
    → r1 < 8
    → r2 < 8
    → ld s (register_name r1) (register_name r2) ≡ (
        if (r1 == 7) && (r2 == 6)
        then done (emitw (emitb s 0x3A) 0)
        else if (r1 == 6) && (r2 == 7)
        then done (emitw (emitb s 0x32) 0)
        else if (r1 == 6) && (r2 == 6)
        then failed s
        else done (emitb s (0x40 + r1 * 8 + r2)))
unfolding ld load_from store_to load_pairs load_absolute load_registers
ld_registers s r1 r2 h1 h2 =
    let n1 = register_name-Names8 r1 h1 in
    let n2 = register_name-Names8 r2 h2 in
    rw (n2.no_index) (
      rw (n1.no_index) (
        rw
          (
            n1.is_a, n2.is_a, n1.no_bc, n2.no_bc, n1.no_de, n2.no_de, n1.address, n2.address,
            n1.no_hl, n2.no_hl, n2.no_prefix, n1.no_sp, n1.number, n2.number,
          )
          (ground arith)))

abbrev pub load_opcode : (r1 r2 : ℕ) → ℕ
load_opcode r1 r2 = 0x40 + r1 * 8 + r2

-- The processor decodes a load.
step-load :
    (k : Machine) (r1 r2 : ℕ)
    → r1 < 8
    → r2 < 8
    → r1 ≢ 6
    → mread8 k.ram k.cpu.pc ≡ load_opcode r1 r2
    → ((step k).cpu.regs ≡ set_reg k.cpu.regs r1 (get_r8 k.ram k.cpu r2))
      × ((step k).ram ≡ k.ram)
      × ((step k).cpu.pc ≡ add16 k.cpu.pc 1)
unfolding step dispatch op_load set_r8 get_r8 f_byte
step-load k r1 r2 h1 h2 register code =
    let x : load_opcode r1 r2 / 64 ≡ 1 = omega arith in
    let y : load_opcode r1 r2 / 8 % 8 ≡ r1 = omega arith in
    let z : load_opcode r1 r2 % 8 ≡ r2 = omega arith in
    rw (code, x, y, z, ne→== r1 6 register) (refl, refl, refl)

-- A load into a register, but LD A, (HL): it is assembled to one byte, and where the processor
-- meets that byte, it puts the second register, or the byte at HL, into the first, goes on behind
-- the byte, and changes no other register and no memory.
pub ld-step :
    (s : Asm) (k : Machine) (r1 r2 : ℕ)
    → r1 < 8
    → r2 < 8
    → r1 ≢ 6
    → r1 ≢ 7 ⊎ r2 ≢ 6
    → mread8 k.ram k.cpu.pc ≡ load_opcode r1 r2
    → (ld s (register_name r1) (register_name r2) ≡ done (emitb s (load_opcode r1 r2)))
      × ((step k).cpu.regs ≡ set_reg k.cpu.regs r1 (get_r8 k.ram k.cpu r2))
      × ((step k).ram ≡ k.ram)
      × ((step k).cpu.pc ≡ add16 k.cpu.pc 1)
ld-step s k r1 r2 h1 h2 register ordinary code =
    let (regs, ram, pc) = step-load k r1 r2 h1 h2 register code in
    (ld_registers s r1 r2 h1 h2 ∙ ground arith, regs, ram, pc)

-- The byte of a relative jump whose target, an address of at least 256, is near enough: added to
-- the address behind the instruction, as the processor does, it gives the target.
pub emit_rel_lem :
    (s : Asm) (addr : List ℕ) (base_pc : ℕ) (cpu : Cpu)
    → s.pass ≡ true
    → 256 ≤ strtol addr
    → strtol addr < 65536
    → base_pc < 65534
    → cpu.pc ≡ base_pc + 2
    → (emit_rel s addr base_pc).1 ≡ true
    → (d : ℕ) × (emit_rel s addr base_pc ≡ done (emitb s d))
      × ((jump_by cpu (d % 256)).pc ≡ strtol addr)
unfolding emit_rel
emit_rel_lem s addr base_pc cpu pass low high base at ok = (
  (strtol addr + 2 ^ 32 - (base_pc + 2)) % 2 ^ 32,
  rw pass (ground (arith, rw pass at ok)),
  ground (arith, rw pass at ok),
)

-- A target below 256, a label or not, is taken for the displacement itself.
pub emit_rel_low :
    (s : Asm) (addr : List ℕ) (base_pc : ℕ)
    → s.pass ≡ true
    → strtol addr < 256
    → emit_rel s addr base_pc ≡ done (emitb s (strtol addr))
unfolding emit_rel
emit_rel_low s addr base_pc pass low = rw pass (ground arith)
