-- ===== src/Userland/Asm/Passes/Load.antt =====
-- Both passes of userland/m80asm.c emit as many bytes for LD.
use manux.Common.{ℕ, Option, none, some, List}
use manux.Userland.Asm.{Asm}
use manux.Userland.Asm.Load.{
  load_indexed, store_indexed, load_immediate, load_registers, load_absolute, load_pairs, store_to,
  load_from, ld,
}
use manux.Userland.Asm.Passes.{Paired, SameOperand, Agree, both, pick, emitb-Paired, pairing}

module _ {seen all : List (List ℕ × ℕ)} where
  load_immediate-Agree :
      {s t : Asm} {a1 a2 b1 b2 : List ℕ}
      → Paired seen all s t
      → SameOperand a1 b1
      → SameOperand a2 b2
      → Agree seen all (load_immediate s a1 a2) (load_immediate t b1 b2)
  unfolding load_immediate
  load_immediate-Agree p k1 k2 =
      rw (k1.sp, k2.same_index_reg, k1.same_reg16, k1.same_index_reg) (search (pairing) depth 14)

  load_registers-Agree :
      {s t : Asm} {a1 a2 b1 b2 : List ℕ}
      → Paired seen all s t
      → SameOperand a1 b1
      → SameOperand a2 b2
      → Agree seen all (load_registers s a1 a2) (load_registers t b1 b2)
  unfolding load_registers
  load_registers-Agree p k1 k2 =
      rw (k1.sp, k2.hl, k1.same_reg8, k2.same_reg8)
        (search (pairing, load_immediate-Agree) depth 14)

  load_absolute-Agree :
      {s t : Asm} {a1 a2 b1 b2 : List ℕ}
      → Paired seen all s t
      → SameOperand a1 b1
      → SameOperand a2 b2
      → Agree seen all (load_absolute s a1 a2) (load_absolute t b1 b2)
  unfolding load_absolute
  load_absolute-Agree p k1 k2 =
      rw (k1.a, k2.a, k1.hl, k2.hl, k1.negative, k2.negative, k2.same_index_reg)
        (search (pairing, load_registers-Agree) depth 14)

  load_pairs-Agree :
      {s t : Asm} {a1 a2 b1 b2 : List ℕ}
      → Paired seen all s t
      → SameOperand a1 b1
      → SameOperand a2 b2
      → Agree seen all (load_pairs s a1 a2) (load_pairs t b1 b2)
  unfolding load_pairs
  load_pairs-Agree p k1 k2 =
      rw (k1.a, k2.a, k2.at_bc, k2.at_de, k1.at_bc, k1.at_de)
        (search (pairing, load_absolute-Agree) depth 14)

  store_indexed-Agree :
      {s t : Asm} (a b : List ℕ) (reg2 : ℕ) (index : ℕ × ℕ)
      → Paired seen all s t
      → Agree seen all (store_indexed s reg2 a index) (store_indexed t reg2 b index)
  unfolding store_indexed
  store_indexed-Agree a b reg2 index p = search (pick, both, emitb-Paired) depth 12

  store_to-Agree :
      {s t : Asm} {a1 a2 b1 b2 : List ℕ} (index : Option (ℕ × ℕ))
      → Paired seen all s t
      → SameOperand a1 b1
      → SameOperand a2 b2
      → Agree seen all (store_to s index a1 a2) (store_to t index b1 b2)
  unfolding store_to
  store_to-Agree none p k1 k2 = load_pairs-Agree p k1 k2
  store_to-Agree (some index) p k1 k2 = rw k2.same_reg8 (store_indexed-Agree _ _ _ index p)

  load_from-Agree :
      {s t : Asm} {a1 a2 b1 b2 : List ℕ} (index : Option (ℕ × ℕ))
      → Paired seen all s t
      → SameOperand a1 b1
      → SameOperand a2 b2
      → Agree seen all (load_from s index a1 a2) (load_from t index b1 b2)
  unfolding load_from load_indexed
  load_from-Agree none p k1 k2 = rw k1.same_index (store_to-Agree _ p k1 k2)
  load_from-Agree (some index) p k1 k2 =
      rw (k1.same_index, k1.same_reg8) (search (pick, both, emitb-Paired, store_to-Agree) depth 14)

  pub ld-Agree :
      {s t : Asm} {a1 a2 b1 b2 : List ℕ}
      → Paired seen all s t
      → SameOperand a1 b1
      → SameOperand a2 b2
      → Agree seen all (ld s a1 a2) (ld t b1 b2)
  unfolding ld
  ld-Agree p k1 k2 = rw k2.same_index (load_from-Agree _ p k1 k2)
