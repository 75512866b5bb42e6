-- ===== src/Userland/Asm/Passes.antt =====
-- The two passes of userland/m80asm.c side by side: when they are at one address, and rules to show
-- that they stay there.
pub mod Load
pub mod Codegen
use manux.Common.{if◌then◌else◌, add16, ℕ, ◌≡◌, refl, ap, Bool, true, false, List, arith}
use manux.Common.Text.{codes, same_text}
use manux.Userland.Asm.{Asm, is_negative32, emitb, emitw}
use manux.Userland.Asm.Operand.{reg8, reg16, index_reg, jrcond, jpcond, mem_addr, index_addr}
use manux.Userland.Asm.Flow.{is_given}

-- Two states of the passes at one address, with the labels that each knows.
pub record Paired (seen all : List (List ℕ × ℕ)) (s t : Asm) : Type 0 where
  pub first : s.pass ≡ false
  pub second : t.pass ≡ true
  pub pc : s.pc ≡ t.pc
  pub known : s.labels ≡ seen
  pub known_all : t.labels ≡ all

-- Two operands between which the tests of the assembler do not tell.
pub record SameOperand (x y : List ℕ) : Type 0 where
  pub same_reg8 : reg8 x ≡ reg8 y
  pub same_reg16 : reg16 x ≡ reg16 y
  pub same_index_reg : index_reg x ≡ index_reg y
  pub same_jpcond : jpcond x ≡ jpcond y
  pub same_jrcond : jrcond x ≡ jrcond y
  pub same_index : index_addr x ≡ index_addr y
  pub negative : is_negative32 (mem_addr x) ≡ is_negative32 (mem_addr y)
  pub same_given : is_given x ≡ is_given y
  pub a : same_text x (codes "A") ≡ same_text y (codes "A")
  pub hl : same_text x (codes "HL") ≡ same_text y (codes "HL")
  pub sp : same_text x (codes "SP") ≡ same_text y (codes "SP")
  pub de : same_text x (codes "DE") ≡ same_text y (codes "DE")
  pub af : same_text x (codes "AF") ≡ same_text y (codes "AF")
  pub af' : same_text x (codes "AF'") ≡ same_text y (codes "AF'")
  pub at_bc : same_text x (codes "(BC)") ≡ same_text y (codes "(BC)")
  pub at_de : same_text x (codes "(DE)") ≡ same_text y (codes "(DE)")
  pub at_hl : same_text x (codes "(HL)") ≡ same_text y (codes "(HL)")
  pub at_sp : same_text x (codes "(SP)") ≡ same_text y (codes "(SP)")

-- If both passes take an operation, they are at one address behind it.
pub record Agree (seen all : List (List ℕ × ℕ)) (x y : Asm × Bool) : Type 0 where
  pub agree : x.1 ≡ true → y.1 ≡ true → Paired seen all x.0 y.0

module _ {seen all : List (List ℕ × ℕ)} where
  pub both : {s t : Asm} → Paired seen all s t → Agree seen all (s, true) (t, true)
  both p = record { agree = λ _ _. p }

  pub fails : {x : Asm × Bool} {t : Asm} → Agree seen all x (t, false)
  fails = record { agree = λ _ e. cc }

  pub fails_first : {s : Asm} {x : Asm × Bool} → Agree seen all (s, false) x
  fails_first = record { agree = λ e _. cc }

  pub pick :
      (b : Bool) {x y x' y' : Asm × Bool}
      → Agree seen all x x'
      → Agree seen all y y'
      → Agree seen all (if b then x else y) (if b then x' else y')
  pick true h k = h
  pick false h k = k

  pub pick_left :
      (b : Bool) {x y z : Asm × Bool}
      → Agree seen all x z
      → Agree seen all y z
      → Agree seen all (if b then x else y) z
  pick_left true h k = h
  pick_left false h k = k

  pub pick_right :
      (b : Bool) {x y z : Asm × Bool}
      → Agree seen all z x
      → Agree seen all z y
      → Agree seen all z (if b then x else y)
  pick_right true h k = h
  pick_right false h k = k

  pub emitb-Paired :
      {s t : Asm} (a b : ℕ) → Paired seen all s t → Paired seen all (emitb s a) (emitb t b)
  unfolding emitb
  emitb-Paired a b p = record {
    first = p.first;
    second = p.second;
    pc = ap (λ n. add16 n 1) p.pc;
    known = p.known;
    known_all = p.known_all;
  }

  pub emitw-Paired :
      {s t : Asm} (a b : ℕ) → Paired seen all s t → Paired seen all (emitw s a) (emitw t b)
  unfolding emitw emitb
  emitw-Paired a b p =
      rw (p.first, p.second)
        (record {
          first = refl;
          second = refl;
          pc = omega (arith, p.pc);
          known = p.known;
          known_all = p.known_all;
        })

  pub ruleset pairing = (pick, both, fails, emitb-Paired, emitw-Paired)
