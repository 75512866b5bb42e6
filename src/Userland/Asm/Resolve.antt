-- ===== src/Userland/Asm/Resolve.antt =====
-- A label of userland/m80asm.c that is no word of the assembler can stand for its address.
use mathlib.Core.Path.{subst}
use manux.Common.{
  Bool-cases, eq→==, ne→==, ℕ, ◌<◌, ◌≡◌, refl, ap, ◌∙◌, ◌⊎◌, inl, inr, true, false, Option, none,
  some, List, [], ◌∷◌, arith,
}
use manux.Common.Text.{same_text}
use manux.Userland.Asm.{Asm, minus_one, search_label, get_label_addr}
use manux.Userland.Asm.Number.{print_address}
use manux.Userland.Asm.Operand.{in_parens, is_label, label_in, is_label_ptr}
use manux.Userland.Asm.Line.{resolve}
use manux.Userland.Asm.Number.Laws.{print_address-Printed}
use manux.Userland.Asm.Passes.{SameOperand}
use manux.Userland.Asm.Names.{
  IsName, Names, same_text-eq, in_parens-eq, printed-SameOperand, closed-SameOperand,
}

-- What a search among labels finds: nothing, or the address of one with a name.
pub search_label-Found :
    (labels : List (List ℕ × ℕ)) (a : List ℕ)
    → Names labels
    → (search_label labels a ≡ minus_one) ⊎ (IsName a × (search_label labels a < 65536))
unfolding search_label
search_label-Found [] a n = inl refl
search_label-Found ((l, address) ∷ labels) a n =
    let later = search_label-Found labels a n.2 in
    elim (Bool-cases (same_text l a)) [
      | inl same ↦ let equal = same_text-eq l a same in rw same (inr (subst IsName equal n.0, n.1))
      | inr differs ↦ rw differs later
    ]

itself : (a : List ℕ) → SameOperand a a
itself a = record {
  same_reg8 = refl;
  same_reg16 = refl;
  same_index_reg = refl;
  same_jpcond = refl;
  same_jrcond = refl;
  same_index = refl;
  negative = refl;
  same_given = refl;
  a = refl;
  hl = refl;
  sp = refl;
  de = refl;
  af = refl;
  af' = refl;
  at_bc = refl;
  at_de = refl;
  at_hl = refl;
  at_sp = refl;
}

-- In the first pass no label is known, and the operands stay.
pub resolve-first : (s : Asm) (a : List ℕ) → s.pass ≡ false → resolve s a ≡ a
unfolding resolve is_label is_label_ptr get_label_addr
resolve-first s a first = rw first (go (in_parens a))
  where
    go : (inside : Option (List ℕ)) → label_in (record s { pass = false }) a inside ≡ a
    go none = unfold label_in in refl
    go (some []) = unfold label_in in refl
    go (some (c ∷ cs)) = unfold label_in in refl

module _ (t : Asm) (second : t.pass ≡ true) (names : Names t.labels) where
  found-get_label_addr : (a : List ℕ) → get_label_addr t a ≡ search_label t.labels a
  unfolding get_label_addr
  found-get_label_addr a = rw second refl

  label_in-SameOperand :
      (a : List ℕ) (inside : Option (List ℕ))
      → in_parens a ≡ inside
      → SameOperand a (label_in t a inside)
  unfolding label_in
  label_in-SameOperand a none e = itself a
  label_in-SameOperand a (some []) e = itself a
  label_in-SameOperand a (some (c ∷ cs)) e =
      let address = search_label t.labels (c ∷ cs) in
      rw (found-get_label_addr (c ∷ cs)) (elim (search_label-Found t.labels (c ∷ cs) names) [
        | inl nothing ↦ rw (eq→== address minus_one nothing) (itself a)
        | inr (name, small) ↦
            let shape = in_parens-eq a (c ∷ cs) e in
            rw (ne→== address minus_one (omega arith), shape)
              (closed-SameOperand (c ∷ cs) address name small)
      ])

  -- In the second pass an operand that is a label, bare or in parentheses, gives way to its
  -- address, and the tests of the assembler do not tell the two apart.
  pub resolve-SameOperand : (a : List ℕ) → SameOperand a (resolve t a)
  unfolding resolve is_label is_label_ptr label_in
  resolve-SameOperand a =
      let address = search_label t.labels a in
      rw (found-get_label_addr a) (elim (search_label-Found t.labels a names) [
        | inl nothing ↦
            rw (eq→== address minus_one nothing) (label_in-SameOperand a (in_parens a) refl)
        | inr (name, small) ↦
            let p = print_address-Printed address small in
            let open_front : in_parens (print_address address) ≡ none =
              ap in_parens p.shape ∙ unfold in_parens in ground (arith, p.low) in
            rw (ne→== address minus_one (omega arith), open_front)
              (printed-SameOperand a address name small)
      ])
