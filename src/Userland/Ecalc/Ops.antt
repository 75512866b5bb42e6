-- ===== src/Userland/Ecalc/Ops.antt =====
-- The operations of userland/ecalc.c one by one: their levels, what they print, and their texts.
use manux.Common.{
  ◌==◌, Bool-cases, ℕ, suc, ◌-◌, ◌<◌, ◌≡◌, refl, inl, inr, true, false, List, ◌∷◌, arith,
}
use manux.Userland.Ecalc.{Calc, division_by_zero, print}
use manux.Userland.Ecalc.Terms.{
  Op, power, times, over, conjunction, exclusive, disjunction, plus, minus, symbol, level, is_chain,
  op_seen, Term, binary, bare, text,
}
use manux.Userland.Ecalc.Lexing.{ready, ready-print}

pub level-suc : (op : Op) → suc (level op - 1) ≡ level op
level-suc power = refl
level-suc times = refl
level-suc over = refl
level-suc conjunction = refl
level-suc exclusive = refl
level-suc disjunction = refl
level-suc plus = refl
level-suc minus = refl

pub level-bound : (op : Op) → level op - 1 < 6
level-bound power = omega arith
level-bound times = omega arith
level-bound over = omega arith
level-bound conjunction = omega arith
level-bound exclusive = omega arith
level-bound disjunction = omega arith
level-bound plus = omega arith
level-bound minus = omega arith

pub op_seen-ready :
    (op : Op) (y : ℕ) (cs : List ℕ) (s : Calc)
    → op_seen op y (ready cs s) ≡ ready cs (op_seen op y s)
op_seen-ready power y cs s = refl
op_seen-ready times y cs s = refl
op_seen-ready over y cs s = elim (Bool-cases (y == 0)) [
  | inl z ↦ rw z (ready-print cs division_by_zero s)
  | inr n ↦ rw n refl
]
op_seen-ready conjunction y cs s = refl
op_seen-ready exclusive y cs s = refl
op_seen-ready disjunction y cs s = refl
op_seen-ready plus y cs s = refl
op_seen-ready minus y cs s = refl

pub op_seen-result : (op : Op) (y : ℕ) (s : Calc) → (op_seen op y s).result ≡ s.result
unfolding print
op_seen-result power y s = refl
op_seen-result times y s = refl
op_seen-result over y s = elim (Bool-cases (y == 0)) [ inl z ↦ rw z refl | inr n ↦ rw n refl ]
op_seen-result conjunction y s = refl
op_seen-result exclusive y s = refl
op_seen-result disjunction y s = refl
op_seen-result plus y s = refl
op_seen-result minus y s = refl

pub text-chain :
    (op : Op) (a b : Term) (rest : List ℕ)
    → is_chain (suc (level op - 1)) ≡ true
    → text (suc (level op - 1)) (binary op a b) rest
      ≡ text (suc (level op - 1)) a (32 ∷ symbol op ∷ 32 ∷ text (level op - 1) b rest)
unfolding bare
text-chain power a b rest h = refl
text-chain times a b rest h = refl
text-chain over a b rest h = refl
text-chain conjunction a b rest h = cc
text-chain exclusive a b rest h = cc
text-chain disjunction a b rest h = cc
text-chain plus a b rest h = refl
text-chain minus a b rest h = refl

pub text-once :
    (op : Op) (a b : Term) (rest : List ℕ)
    → is_chain (suc (level op - 1)) ≡ false
    → text (suc (level op - 1)) (binary op a b) rest
      ≡ text (level op - 1) a (32 ∷ symbol op ∷ 32 ∷ text (level op - 1) b rest)
unfolding bare
text-once power a b rest h = cc
text-once times a b rest h = cc
text-once over a b rest h = cc
text-once conjunction a b rest h = refl
text-once exclusive a b rest h = refl
text-once disjunction a b rest h = refl
text-once plus a b rest h = cc
text-once minus a b rest h = cc
