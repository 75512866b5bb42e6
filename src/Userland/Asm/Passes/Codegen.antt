-- ===== src/Userland/Asm/Passes/Codegen.antt =====
-- Both passes of userland/m80asm.c emit as many bytes for an operation.
use manux.Common.{ℕ, List}
use manux.Userland.Asm.{Asm}
use manux.Userland.Asm.Calc.{on_pair, step_by, operate, with_carry, add}
use manux.Userland.Asm.Flow.{emit_rel, jump, jump_relative, call, ret, rst, port_access, ex}
use manux.Userland.Asm.Line.{codegen_flow, codegen_logic, codegen}
use manux.Userland.Asm.Passes.{
  Paired, SameOperand, Agree, both, fails, fails_first, pick, pick_left, pick_right, emitb-Paired,
  pairing,
}
use manux.Userland.Asm.Passes.Load.{ld-Agree}

module _ {seen all : List (List ℕ × ℕ)} where
  on_pair-Agree :
      {s t : Asm} {a b : List ℕ} (pair_base index_op : ℕ)
      → Paired seen all s t
      → SameOperand a b
      → Agree seen all (on_pair s pair_base index_op a) (on_pair t pair_base index_op b)
  unfolding on_pair
  on_pair-Agree pair_base index_op p k =
      rw (k.same_reg16, k.same_index_reg) (search (pairing) depth 12)

  step_by-Agree :
      {s t : Asm} {a b : List ℕ} (base pair_base index_op : ℕ)
      → Paired seen all s t
      → SameOperand a b
      → Agree seen all (step_by s base pair_base index_op a) (step_by t base pair_base index_op b)
  unfolding step_by
  step_by-Agree base pair_base index_op p k =
      rw (k.same_reg8) (search (pairing, on_pair-Agree) depth 12)

  operate-Agree :
      {s t : Asm} {a b : List ℕ} (base imm_base : ℕ)
      → Paired seen all s t
      → SameOperand a b
      → Agree seen all (operate s base imm_base a) (operate t base imm_base b)
  unfolding operate
  operate-Agree base imm_base p k = rw (k.same_reg8) (search (pairing) depth 12)

  with_carry-Agree :
      {s t : Asm} {a1 a2 b1 b2 : List ℕ} (base imm_base : ℕ)
      → Paired seen all s t
      → SameOperand a1 b1
      → SameOperand a2 b2
      → Agree seen all (with_carry s base imm_base a1 a2) (with_carry t base imm_base b1 b2)
  unfolding with_carry
  with_carry-Agree base imm_base p k1 k2 = rw k1.a (search (pick, fails, operate-Agree))

  add-Agree :
      {s t : Asm} {a1 a2 b1 b2 : List ℕ}
      → Paired seen all s t
      → SameOperand a1 b1
      → SameOperand a2 b2
      → Agree seen all (add s a1 a2) (add t b1 b2)
  unfolding add
  add-Agree p k1 k2 =
      rw (k1.a, k1.hl, k2.same_reg16, k1.same_index_reg) (search (pairing, operate-Agree) depth 14)

  emit_rel-Agree :
      {s t : Asm} (a b : List ℕ) (from to : ℕ)
      → Paired seen all s t
      → Agree seen all (emit_rel s a from) (emit_rel t b to)
  unfolding emit_rel
  emit_rel-Agree a b from to p =
      rw (p.first, p.second) (search (pick_right, both, fails, emitb-Paired) depth 14)

  jump-Agree :
      {s t : Asm} {a1 a2 b1 b2 : List ℕ}
      → Paired seen all s t
      → SameOperand a1 b1
      → SameOperand a2 b2
      → Agree seen all (jump s a1 a2) (jump t b1 b2)
  unfolding jump
  jump-Agree p k1 k2 =
      rw (k1.at_hl, k2.same_given, k1.same_jpcond, k1.same_given) (search (pairing) depth 14)

  jump_relative-Agree :
      {s t : Asm} {a1 a2 b1 b2 : List ℕ}
      → Paired seen all s t
      → SameOperand a1 b1
      → SameOperand a2 b2
      → Agree seen all (jump_relative s a1 a2) (jump_relative t b1 b2)
  unfolding jump_relative
  jump_relative-Agree p k1 k2 =
      rw (k2.same_given, k1.same_jrcond, k1.same_given) (search (pairing, emit_rel-Agree) depth 14)

  call-Agree :
      {s t : Asm} {a1 a2 b1 b2 : List ℕ}
      → Paired seen all s t
      → SameOperand a1 b1
      → SameOperand a2 b2
      → Agree seen all (call s a1 a2) (call t b1 b2)
  unfolding call
  call-Agree p k1 k2 = rw (k2.same_given, k1.same_jpcond, k1.same_given) (search (pairing) depth 14)

  ret-Agree :
      {s t : Asm} {a b : List ℕ}
      → Paired seen all s t
      → SameOperand a b
      → Agree seen all (ret s a) (ret t b)
  unfolding ret
  ret-Agree p k = rw (k.same_given, k.same_jpcond) (search (pairing) depth 12)

  rst-Agree : {s t : Asm} (a b : List ℕ) → Paired seen all s t → Agree seen all (rst s a) (rst t b)
  unfolding rst
  rst-Agree a b p = search (pick_left, pick_right, fails_first, fails, both, emitb-Paired) depth 12

  port_access-Agree :
      {s t : Asm} {a1 a2 b1 b2 : List ℕ} (opcode : ℕ)
      → Paired seen all s t
      → SameOperand a1 b1
      → SameOperand a2 b2
      → Agree seen all (port_access s opcode a1 a2) (port_access t opcode b1 b2)
  unfolding port_access
  port_access-Agree opcode p k1 k2 = rw (k1.a, k2.same_given) (search pairing depth 12)

  ex-Agree :
      {s t : Asm} {a1 a2 b1 b2 : List ℕ}
      → Paired seen all s t
      → SameOperand a1 b1
      → SameOperand a2 b2
      → Agree seen all (ex s a1 a2) (ex t b1 b2)
  unfolding ex
  ex-Agree p k1 k2 = rw (k1.af, k2.af', k1.de, k2.hl, k1.at_sp) (search (pairing) depth 14)

  codegen_flow-Agree :
      {s t : Asm} {a1 a2 b1 b2 : List ℕ} (op : List ℕ)
      → Paired seen all s t
      → SameOperand a1 b1
      → SameOperand a2 b2
      → Agree seen all (codegen_flow s op a1 a2) (codegen_flow t op b1 b2)
  unfolding codegen_flow
  codegen_flow-Agree op p k1 k2 =
      search
        (
          pick, fails, emitb-Paired, rst-Agree, jump-Agree, jump_relative-Agree, call-Agree,
          ret-Agree, port_access-Agree, emit_rel-Agree, ex-Agree,
        )
        depth 16

  codegen_logic-Agree :
      {s t : Asm} {a1 a2 b1 b2 : List ℕ} (op : List ℕ)
      → Paired seen all s t
      → SameOperand a1 b1
      → SameOperand a2 b2
      → Agree seen all (codegen_logic s op a1 a2) (codegen_logic t op b1 b2)
  unfolding codegen_logic
  codegen_logic-Agree op p k1 k2 =
      search (pick, operate-Agree, on_pair-Agree, codegen_flow-Agree) depth 16

  pub codegen-Agree :
      {s t : Asm} {a1 a2 b1 b2 : List ℕ} (op : List ℕ)
      → Paired seen all s t
      → SameOperand a1 b1
      → SameOperand a2 b2
      → Agree seen all (codegen s op a1 a2) (codegen t op b1 b2)
  unfolding codegen
  codegen-Agree op p k1 k2 =
      search
        (
          pick, ld-Agree, step_by-Agree, add-Agree, with_carry-Agree, operate-Agree,
          codegen_logic-Agree,
        )
        depth 16
