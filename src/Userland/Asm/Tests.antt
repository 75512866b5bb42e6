-- ===== src/Userland/Asm/Tests.antt =====
-- The assembler of userland/m80asm.c at concrete lines.
use mathlib.Core.Path.{subst}
use manux.Common.{
  ◌==◌, if◌then◌else◌, ℕ, ◌+◌, ◌%◌, ◌≡◌, refl, sym, inl, true, false, none, List, [], ◌∷◌, ◌++◌,
  arith,
}
use manux.Common.Text.{codes, same_text, take}
use manux.Bemu80.Machine.{Cpu, mread8, set_reg, get_r8}
use manux.Bemu80.Devices.{Machine}
use manux.Bemu80.Step.{step}
use manux.Bemu80.Ops.{jump_by}
use manux.Userland.Asm.{Asm, minus_one, search_label, get_label_addr, emitb, emitw, done}
use manux.Userland.Asm.Number.{
  digit_value, read_digits, first_digit, read_prefixed, is_space, strtol, decimal, print_address,
}
use manux.Userland.Asm.Operand.{
  reg8, reg16, index_reg, jrcond, jpcond, before_close, in_parens, addr_in, mem_addr, index_inside,
  index_in, index_addr, is_label, label_in, is_label_ptr,
}
use manux.Userland.Asm.Load.{
  load_indexed, store_indexed, load_immediate, load_registers, load_absolute, load_pairs, store_to,
  load_from, ld,
}
use manux.Userland.Asm.Calc.{on_pair, step_by, operate, with_carry, add}
use manux.Userland.Asm.Flow.{
  emit_rel, jump, jump_relative, call_target, call, ret, rst, port_access, ex,
}
use manux.Userland.Asm.Line.{
  search_plain, codegen_flow, codegen_logic, codegen, resolve, plain_or, operation, strip_comment,
  toupper, skip_delims, token, strtok, label_name, define_label, parts, assemble_parts,
  line_codegen, run_pass, second_pass, assemble, label,
}
use manux.Userland.Asm.Names.{Names}
use manux.Userland.Asm.Labels.{label_address}
use manux.Userland.Asm.Encode.{register_name, ld_registers, load_opcode, ld-step, emit_rel_lem}

abbrev before_loop : List (List ℕ)
before_loop = codes "start:" ∷ codes "  ld b, 0x10 ; count" ∷ []

abbrev from_loop : List (List ℕ)
from_loop =
    codes "  ld a,(count)"
    ∷ codes "  djnz loop"
    ∷ codes "  jp nz, start"
    ∷ codes "  ld (ix+5), a"
    ∷ codes "count:"
    ∷ []

abbrev program : List (List ℕ)
program = before_loop ++ (codes "loop: " ∷ from_loop)

abbrev first_start : Asm
first_start = record { pass = false; pc = 0x5000; labels = []; out = [] }

-- Both passes take the program, and this is what they make of it.
program_runs :
    ((assemble 0x5000 program).0.out
      ≡ 6 ∷ 16 ∷ 58 ∷ 13 ∷ 80 ∷ 16 ∷ 251 ∷ 194 ∷ 0 ∷ 80 ∷ 221 ∷ 119 ∷ 5 ∷ [])
    × ((run_pass first_start program).1 ≡ true)
    × ((assemble 0x5000 program).1 ≡ true)
    × ((run_pass first_start program).0.labels
        ≡ (codes "START", 0x5000) ∷ (codes "LOOP", 0x5002) ∷ (codes "COUNT", 0x500D) ∷ [])
    × (search_label (run_pass first_start before_loop).0.labels (codes "LOOP") ≡ minus_one)
unfolding assemble run_pass line_codegen assemble_parts parts strtok token skip_delims strip_comment
    toupper label_name take define_label second_pass operation plain_or search_plain same_text
    codegen codegen_logic codegen_flow add on_pair operate step_by with_carry call call_target
    emit_rel ex jump jump_relative port_access ret rst resolve ld load_absolute load_from
    load_immediate load_indexed load_pairs load_registers store_indexed store_to decimal digit_value
    first_digit is_space print_address read_digits read_prefixed strtol addr_in before_close
    in_parens index_addr index_in index_inside index_reg is_label is_label_ptr label_in mem_addr
    reg8 reg16 jpcond jrcond get_label_addr search_label emitb emitw
program_runs = (refl, refl, refl, refl, refl)

program-Names :
    Names ((codes "START", 0x5000) ∷ (codes "LOOP", 0x5002) ∷ (codes "COUNT", 0x500D) ∷ [])
unfolding same_text index_inside strtol is_space read_prefixed read_digits digit_value
program-Names = (
  record {
    head = 83;
    rest = codes "TART";
    shape = refl;
    letter = omega arith;
    free = refl;
    plain = refl;
  },
  omega arith,
  (
    record {
      head = 76;
      rest = codes "OOP";
      shape = refl;
      letter = omega arith;
      free = refl;
      plain = refl;
    },
    omega arith,
    (
      record {
        head = 67;
        rest = codes "OUNT";
        shape = refl;
        letter = omega arith;
        free = refl;
        plain = refl;
      },
      omega arith,
      tt,
    ),
  ),
)

loop_label : parts (codes "loop: ") ≡ label (codes "LOOP")
unfolding parts strtok token skip_delims strip_comment toupper label_name take
loop_label = refl

label_address_example :
    let t = second_pass (run_pass first_start program).0 0x5000 in
    get_label_addr t (codes "LOOP") ≡ (run_pass t before_loop).0.pc
label_address_example =
    label_address 0x5000 before_loop from_loop (codes "loop: ") (codes "LOOP") loop_label
      program_runs.1 program_runs.2 (subst Names (sym program_runs.3) program-Names) program_runs.4

abbrev second_start : Asm
second_start = record { pass = true; pc = 0x5000; labels = []; out = [] }

ld_registers_example :
    ld second_start (register_name 7) (register_name 6) ≡ done (emitw (emitb second_start 0x3A) 0)
ld_registers_example = ld_registers second_start 7 6 (omega arith) (omega arith)

abbrev demo_cpu : Cpu
demo_cpu = record {
  regs = λ i. i + 1;
  shadow_regs = λ _. 0;
  flags = 0;
  shadow_flags = 0;
  ix = 0;
  iy = 0;
  pc = 0x5000;
  sp = 0x9000;
  wz = 0;
  i = 0;
  r = 0;
  im = 1;
  iff1 = true;
  iff2 = true;
  halt = false;
  cycles = 0;
}

-- A machine whose program counter stands at the byte of LD B, C.
abbrev demo_machine : Machine
demo_machine = record {
  ram = record { bytes = λ i. if i == 0x5000 then 0x41 else 0; rom_size = 0x2000 };
  cpu = demo_cpu;
  fdc = record { status = 0; count = 0; lba = 0; dma = 0; disk = none };
  acia = record { ctrl = 0; status = 2; transmit = 0; receive = 0 };
  printed = [];
  interrupt_pending = false;
  old_format = true;
}

loads_c : mread8 demo_machine.ram 0x5000 ≡ load_opcode 0 1
unfolding mread8
loads_c = refl

ld-step_example :
    (ld second_start (register_name 0) (register_name 1) ≡ done (emitb second_start 0x41))
    × ((step demo_machine).cpu.regs ≡ set_reg demo_cpu.regs 0 (get_r8 demo_machine.ram demo_cpu 1))
    × ((step demo_machine).ram ≡ demo_machine.ram)
    × ((step demo_machine).cpu.pc ≡ 0x5001)
ld-step_example =
    ld-step second_start demo_machine 0 1 (omega arith) (omega arith) (λ e. omega arith)
      (inl (λ e. omega arith)) loads_c

-- DJNZ at 0x5000 back to 0x4FF0
abbrev near_target : List ℕ
near_target = codes "0x4FF0"

near_value : strtol near_target ≡ 0x4FF0
unfolding strtol is_space read_prefixed read_digits digit_value first_digit
near_value = refl

near_ok : (emit_rel second_start near_target 0x5000).1 ≡ true
unfolding emit_rel strtol is_space read_prefixed read_digits digit_value first_digit
near_ok = refl

emit_rel_example :
    (d : ℕ) × (emit_rel second_start near_target 0x5000 ≡ done (emitb second_start d))
    × ((jump_by (record demo_cpu { pc = 0x5002 }) (d % 256)).pc ≡ strtol near_target)
emit_rel_example =
    emit_rel_lem second_start near_target 0x5000 (record demo_cpu { pc = 0x5002 }) refl
      (omega (arith, near_value)) (omega (arith, near_value)) (omega arith) refl near_ok
