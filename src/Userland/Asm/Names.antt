-- ===== src/Userland/Asm/Names.antt =====
-- Names of labels in userland/m80asm.c, and the addresses that take their places.
use manux.Common.{
  ◌==◌, ne→==, ℕ, ◌≤◌, ◌<◌, ◌≡◌, refl, sym, ap, ◌∙◌, Bool, true, false, ◌&&◌, ◌||◌, Option, none,
  some, List, [], ◌∷◌, ◌++◌, arith,
}
use manux.Common.Text.{codes, same_text}
use manux.Userland.Asm.{minus_one, is_negative32}
use manux.Userland.Asm.Number.{strtol, print_address}
use manux.Userland.Asm.Operand.{
  reg8, reg16, index_reg, jrcond, jpcond, before_close, in_parens, addr_in, mem_addr, index_inside,
  index_in, index_addr,
}
use manux.Userland.Asm.Flow.{is_given}
use manux.Userland.Asm.Number.Laws.{print_address-Printed, strtol-print_address, strtol-letter}
use manux.Userland.Asm.Passes.{SameOperand}

-- The operands that the assembler compares with
abbrev pub reserved_words : List (List ℕ)
reserved_words =
    codes "A"
    ∷ codes "B"
    ∷ codes "C"
    ∷ codes "D"
    ∷ codes "E"
    ∷ codes "H"
    ∷ codes "L"
    ∷ codes "BC"
    ∷ codes "DE"
    ∷ codes "HL"
    ∷ codes "SP"
    ∷ codes "AF"
    ∷ codes "AF'"
    ∷ codes "IX"
    ∷ codes "IY"
    ∷ codes "NZ"
    ∷ codes "Z"
    ∷ codes "NC"
    ∷ codes "PO"
    ∷ codes "PE"
    ∷ codes "P"
    ∷ codes "M"
    ∷ codes "(HL)"
    ∷ codes "(BC)"
    ∷ codes "(DE)"
    ∷ codes "(SP)"
    ∷ []

abbrev pub is_word : List (List ℕ) → List ℕ → Bool
is_word [] name = false
is_word (w ∷ ws) name = same_text name w || is_word ws name

-- A name that begins with a letter or an underscore, that is no word, and that does not read as an
-- index register with a displacement.
pub record IsName (name : List ℕ) : Type 0 where
  pub head : ℕ
  pub rest : List ℕ
  pub shape : name ≡ head ∷ rest
  pub letter : (65 ≤ head) × (head ≤ 95)
  pub free : is_word reserved_words name ≡ false
  pub plain : index_inside name ≡ none

-- Labels with such names, at addresses of 16 bits
abbrev pub Names : List (List ℕ × ℕ) → Type 0
Names [] = Unit {0}
Names ((name, address) ∷ labels) = IsName name × (address < 65536) × Names labels

-- What no word is compared equal to
record IsOther (x : List ℕ) : Type 0 where
  no_reg8 : reg8 x ≡ minus_one
  no_reg16 : reg16 x ≡ minus_one
  no_index_reg : index_reg x ≡ minus_one
  no_jpcond : jpcond x ≡ minus_one
  no_jrcond : jrcond x ≡ minus_one

other : (x : List ℕ) → is_word reserved_words x ≡ false → IsOther x
unfolding reg8 reg16 index_reg jpcond jrcond
other x h = record {
  no_reg8 = ground arith;
  no_reg16 = ground arith;
  no_index_reg = ground arith;
  no_jpcond = ground arith;
  no_jrcond = ground arith;
}

others-SameOperand :
    (x y : List ℕ)
    → is_word reserved_words x ≡ false
    → is_word reserved_words y ≡ false
    → index_addr x ≡ index_addr y
    → is_negative32 (mem_addr x) ≡ is_negative32 (mem_addr y)
    → is_given x ≡ is_given y
    → SameOperand x y
others-SameOperand x y h k index negative given =
    let p = other x h in
    let q = other y k in
    record {
      same_reg8 = p.no_reg8 ∙ sym q.no_reg8;
      same_reg16 = p.no_reg16 ∙ sym q.no_reg16;
      same_index_reg = p.no_index_reg ∙ sym q.no_index_reg;
      same_jpcond = p.no_jpcond ∙ sym q.no_jpcond;
      same_jrcond = p.no_jrcond ∙ sym q.no_jrcond;
      same_index = index;
      negative = negative;
      same_given = given;
      a = ground arith;
      hl = ground arith;
      sp = ground arith;
      de = ground arith;
      af = ground arith;
      af' = ground arith;
      at_bc = ground arith;
      at_de = ground arith;
      at_hl = ground arith;
      at_sp = ground arith;
    }

pub same_text-eq : (a b : List ℕ) → same_text a b ≡ true → a ≡ b
unfolding same_text
same_text-eq [] [] h = refl
same_text-eq [] (d ∷ ds) h = cc
same_text-eq (c ∷ cs) [] h = cc
same_text-eq (c ∷ cs) (d ∷ ds) h = ground (arith, same_text-eq cs ds)

same_text-snoc : (c : ℕ) (a b : List ℕ) → same_text (a ++ (c ∷ [])) (b ++ (c ∷ [])) ≡ same_text a b
unfolding same_text
same_text-snoc c [] [] = ground arith
same_text-snoc c [] (d ∷ []) = ground arith
same_text-snoc c [] (d ∷ e ∷ ds) = ground arith
same_text-snoc c (x ∷ []) [] = ground arith
same_text-snoc c (x ∷ y ∷ xs) [] = ground arith
same_text-snoc c (x ∷ xs) (d ∷ ds) = ap (λ b. (x == d) && b) (same_text-snoc c xs ds)

before_close-snoc : (l : List ℕ) → before_close (l ++ (41 ∷ [])) ≡ some l
unfolding before_close
before_close-snoc [] = refl
before_close-snoc (c ∷ []) = refl
before_close-snoc (c ∷ d ∷ cs) = ground (arith, before_close-snoc (d ∷ cs))

before_close-eq : (a l : List ℕ) → before_close a ≡ some l → a ≡ l ++ (41 ∷ [])
unfolding before_close
before_close-eq [] l h = cc
before_close-eq (c ∷ []) l h = ground arith
before_close-eq (c ∷ d ∷ cs) l h = go (before_close (d ∷ cs)) (λ k. before_close-eq (d ∷ cs) k) h
  where
    go :
        (r : Option (List ℕ))
        → ((k : List ℕ) → r ≡ some k → d ∷ cs ≡ k ++ (41 ∷ []))
        → (elim r [ none ↦ none | some k ↦ some (c ∷ k) ]) ≡ some l
        → c ∷ d ∷ cs ≡ l ++ (41 ∷ [])
    go none e h = cc
    go (some k) e h =
        let front : c ∷ k ≡ l = cc in
        ap (λ xs. c ∷ xs) (e k refl) ∙ ap (λ xs. xs ++ (41 ∷ [])) front

pub in_parens-eq : (a l : List ℕ) → in_parens a ≡ some l → a ≡ 40 ∷ (l ++ (41 ∷ []))
unfolding in_parens
in_parens-eq [] l h = cc
in_parens-eq (c ∷ cs) l h = ground (arith, before_close-eq cs l)

-- A string with no parenthesis at its front is no word in parentheses, no address, no index.
record IsBare (x : List ℕ) : Type 0 where
  index : index_addr x ≡ none
  negative : is_negative32 (mem_addr x) ≡ true
  given : is_given x ≡ true

bare : (c : ℕ) (cs : List ℕ) → 48 ≤ c → IsBare (c ∷ cs)
unfolding index_addr index_in mem_addr addr_in in_parens
bare c cs h = record { index = ground arith; negative = ground arith; given = ground arith }

-- A digit begins no word, bare or in parentheses.
digit-free : (c : ℕ) (cs : List ℕ) → c ≤ 57 → 48 ≤ c → is_word reserved_words (c ∷ cs) ≡ false
unfolding same_text
digit-free c cs h lo = ground arith

in_parens-closed : (l : List ℕ) → in_parens (40 ∷ (l ++ (41 ∷ []))) ≡ some l
unfolding in_parens
in_parens-closed l = before_close-snoc l

abbrev pub closed : List ℕ → List ℕ
closed l = 40 ∷ (l ++ (41 ∷ []))

-- In parentheses it is no word either.
closed-free :
    (l : List ℕ) → is_word reserved_words l ≡ false → is_word reserved_words (closed l) ≡ false
unfolding same_text
closed-free l h =
    rw
      (
        same_text-snoc 41 l (codes "HL"),
        same_text-snoc 41 l (codes "BC"),
        same_text-snoc 41 l (codes "DE"),
        same_text-snoc 41 l (codes "SP"),
      )
      (ground arith)

-- An address in decimal, bare and in parentheses, looks like a name of a label.
pub printed-SameOperand :
    (name : List ℕ) (address : ℕ)
    → IsName name
    → address < 65536
    → SameOperand name (print_address address)
printed-SameOperand name address n small =
    let p = print_address-Printed address small in
    let x = bare n.head n.rest (omega (arith, n.letter)) in
    let y = bare p.head p.rest p.low in
    rw (n.shape, p.shape)
      (others-SameOperand (n.head ∷ n.rest) (p.head ∷ p.rest)
        (ap (is_word reserved_words) (sym n.shape) ∙ n.free) (digit-free p.head p.rest p.high p.low)
        (x.index ∙ sym y.index) (x.negative ∙ sym y.negative) (x.given ∙ sym y.given))

index_inside-digit : (c : ℕ) (cs : List ℕ) → c ≤ 57 → index_inside (c ∷ cs) ≡ none
unfolding index_inside
index_inside-digit c [] h = refl
index_inside-digit c (d ∷ []) h = refl
index_inside-digit c (d ∷ e ∷ cs) h = rw (ne→== c 73 (omega arith)) refl

mem_addr-closed : (l : List ℕ) (c : ℕ) (cs : List ℕ) → l ≡ c ∷ cs → mem_addr (closed l) ≡ strtol l
unfolding mem_addr addr_in
mem_addr-closed l c cs e = rw (in_parens-closed l, e) refl

pub closed-SameOperand :
    (name : List ℕ) (address : ℕ)
    → IsName name
    → address < 65536
    → SameOperand (closed name) (closed (print_address address))
unfolding index_addr index_in
closed-SameOperand name address n small =
    let p = print_address-Printed address small in
    let from_name : mem_addr (closed name) ≡ 0 =
      mem_addr-closed name n.head n.rest n.shape
      ∙ ap strtol n.shape
      ∙ strtol-letter n.head n.rest (omega (arith, n.letter)) (omega (arith, n.letter)) in
    let from_number : mem_addr (closed (print_address address)) ≡ address =
      mem_addr-closed (print_address address) p.head p.rest p.shape
      ∙ strtol-print_address address small in
    let y_free = digit-free p.head p.rest p.high p.low in
    others-SameOperand (closed name) (closed (print_address address)) (closed-free name n.free)
      (closed-free (print_address address) (ap (is_word reserved_words) p.shape ∙ y_free))
      (rw (in_parens-closed name, in_parens-closed (print_address address))
        (n.plain ∙ sym (ap index_inside p.shape ∙ index_inside-digit p.head p.rest p.high)))
      (rw (from_name, from_number) (ground arith)) refl
