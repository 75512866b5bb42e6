-- ===== src/Userland/Asm/Labels.antt =====
-- In the second pass of userland/m80asm.c a label stands for the address at which it is met.
use mathlib.Core.Path.{subst}
use manux.Common.{
  leb, Bool-cases, ==-refl, length, ++-assoc, ++-nil, ℕ, ◌≡◌, refl, sym, ap, ◌∙◌, inl, inr, true,
  false, Option, none, some, List, [], ◌∷◌, ◌++◌, arith,
}
use manux.Common.Text.{same_text}
use manux.Userland.Asm.{Asm, minus_one, search_label, get_label_addr}
use manux.Userland.Asm.Line.{
  plain_ops, search_plain, plain_or, operation, define_label, Parts, parts, assemble_parts,
  line_codegen, run_pass, second_pass, assemble, blank, label, instruction,
}
use manux.Userland.Asm.Passes.{Paired, Agree, both, fails_first, pick_left, emitb-Paired}
use manux.Userland.Asm.Names.{Names}
use manux.Userland.Asm.Resolve.{resolve-first, resolve-SameOperand}
use manux.Userland.Asm.Passes.Codegen.{codegen-Agree}

-- What the first pass notes of a line
abbrev noted : Parts → ℕ → List (List ℕ × ℕ)
noted (label name) pc = (name, pc) ∷ []
noted _ pc = []

-- A pass that takes a line and others takes the line, and then the others.
run_pass-step :
    (s : Asm) (line : List ℕ) (lines : List (List ℕ))
    → (run_pass s (line ∷ lines)).1 ≡ true
    → ((line_codegen s line).1 ≡ true)
      × (run_pass s (line ∷ lines) ≡ run_pass (line_codegen s line).0 lines)
unfolding run_pass
run_pass-step s line lines e = elim (Bool-cases (line_codegen s line).1) [
  | inl taken ↦ (taken, rw taken refl)
  | inr refused ↦ cc (rw refused at e)
]

-- A pass over more lines goes on from where it is behind the first.
run_pass-append :
    (s : Asm) (xs ys : List (List ℕ))
    → (run_pass s (xs ++ ys)).1 ≡ true
    → ((run_pass s xs).1 ≡ true) × (run_pass s (xs ++ ys) ≡ run_pass (run_pass s xs).0 ys)
unfolding run_pass
run_pass-append s [] ys e = (refl, refl)
run_pass-append s (line ∷ xs) ys e =
    let (taken, whole) = run_pass-step s line (xs ++ ys) e in
    let rest = run_pass-append (line_codegen s line).0 xs ys (ap (λ r. r.1) (sym whole) ∙ e) in
    rw taken (rest.0, rest.1)

module _ {all : List (List ℕ × ℕ)} (names : Names all) where
  operation-Agree :
      {seen : List (List ℕ × ℕ)} {s t : Asm} (op a1 a2 : List ℕ)
      → Paired seen all s t
      → Agree seen all (operation s op a1 a2) (operation t op a1 a2)
  unfolding operation
  operation-Agree {seen} {s} {t} op a1 a2 p = go (search_plain plain_ops op)
    where
      go :
          (opcode : Option ℕ)
          → Agree seen all (plain_or s opcode op a1 a2) (plain_or t opcode op a1 a2)
      go (some opcode) = unfold plain_or in both (emitb-Paired opcode opcode p)
      go none =
          let known : Names t.labels = rw p.known_all names in
          unfold plain_or in
          rw (resolve-first s a1 p.first, resolve-first s a2 p.first)
            (codegen-Agree op p (resolve-SameOperand t p.second known a1)
              (resolve-SameOperand t p.second known a2))

  parts-Agree :
      {seen : List (List ℕ × ℕ)} {s t : Asm} (line : Parts)
      → Paired seen all s t
      → Agree (seen ++ noted line s.pc) all (assemble_parts s line) (assemble_parts t line)
  unfolding assemble_parts define_label
  parts-Agree {seen} blank p = rw (++-nil seen) (both p)
  parts-Agree {seen} {s} {t} (label name) p =
      rw (p.first, p.second)
        (pick_left (leb 32 (length s.labels)) fails_first (
          both (record {
            first = refl;
            second = refl;
            pc = p.pc;
            known = ap (λ l. l ++ ((name, s.pc) ∷ [])) p.known;
            known_all = p.known_all;
          })))
  parts-Agree {seen} (instruction op a1 a2) p = rw (++-nil seen) (operation-Agree op a1 a2 p)

  line-Agree :
      {seen : List (List ℕ × ℕ)} {s t : Asm} (line : List ℕ)
      → Paired seen all s t
      → Agree (seen ++ noted (parts line) s.pc) all (line_codegen s line) (line_codegen t line)
  unfolding line_codegen
  line-Agree line p = parts-Agree (parts line) p

  -- Over lines that both passes take, they stay at one address; the first notes more labels.
  run-Paired :
      (lines : List (List ℕ)) {seen : List (List ℕ × ℕ)} {s t : Asm}
      → Paired seen all s t
      → (run_pass s lines).1 ≡ true
      → (run_pass t lines).1 ≡ true
      → (more : List (List ℕ × ℕ)) × Paired
          (seen ++ more)
          all
          (run_pass s lines).0
          (run_pass t lines).0
  unfolding run_pass
  run-Paired [] {seen} p e f = ([], rw (++-nil seen) p)
  run-Paired (line ∷ lines) {seen} {s} {t} p e f =
      let (taken, left) = run_pass-step s line lines e in
      let (taken_too, right) = run_pass-step t line lines f in
      let q = (line-Agree line p).agree taken taken_too in
      let (more, behind) =
        run-Paired lines q (ap (λ r. r.1) (sym left) ∙ e) (ap (λ r. r.1) (sym right) ∙ f) in
      (
        noted (parts line) s.pc ++ more,
        rw (left, right, sym (++-assoc seen (noted (parts line) s.pc) more)) behind,
      )

same_text_self : (a : List ℕ) → same_text a a ≡ true
unfolding same_text
same_text_self [] = refl
same_text_self (c ∷ cs) = rw (==-refl c, same_text_self cs) refl

-- Behind labels among which a name is not, the search goes on.
search_label-append :
    (xs ys : List (List ℕ × ℕ)) (name : List ℕ)
    → Names (xs ++ ys)
    → search_label xs name ≡ minus_one
    → search_label (xs ++ ys) name ≡ search_label ys name
unfolding search_label
search_label-append [] ys name n h = refl
search_label-append ((l, address) ∷ xs) ys name n h =
    let later = search_label-append xs ys name n.2 in
    elim (Bool-cases (same_text l name)) [
      | inl same ↦ absurd (omega (arith, rw same at h, n.1))
      | inr differs ↦ rw differs (later (rw differs at h))
    ]

search_label-table :
    (all m1 m2 : List (List ℕ × ℕ)) (name : List ℕ) (address : ℕ)
    → Names all
    → all ≡ m1 ++ ((name, address) ∷ m2)
    → search_label m1 name ≡ minus_one
    → search_label all name ≡ address
search_label-table all m1 m2 name address names table unseen =
    let split : Names (m1 ++ ((name, address) ∷ m2)) = subst Names table names in
    ap (λ l. search_label l name) table
    ∙ search_label-append m1 ((name, address) ∷ m2) name split unseen
    ∙ unfold search_label in rw (same_text_self name) refl

-- When both passes take the lines, and the labels have names that are no words of the assembler: in
-- the second pass a label stands for the address at which its first definition is met.
pub label_address :
    (basepc : ℕ) (xs ys : List (List ℕ)) (line name : List ℕ)
    → let lines = xs ++ (line ∷ ys) in
      let start : Asm = record { pass = false; pc = basepc; labels = []; out = [] } in
      let t = second_pass (run_pass start lines).0 basepc in
      parts line ≡ label name
      → (run_pass start lines).1 ≡ true
      → (assemble basepc lines).1 ≡ true
      → Names (run_pass start lines).0.labels
      → search_label (run_pass start xs).0.labels name ≡ minus_one
      → get_label_addr t name ≡ (run_pass t xs).0.pc
unfolding assemble second_pass get_label_addr
label_address basepc xs ys line name is_label e f names fresh =
    let lines = xs ++ (line ∷ ys) in
    let start : Asm = record { pass = false; pc = basepc; labels = []; out = [] } in
    let all = (run_pass start lines).0.labels in
    let t = second_pass (run_pass start lines).0 basepc in
    let begun : Paired [] all start t = record {
      first = refl;
      second = refl;
      pc = refl;
      known = refl;
      known_all = refl;
    } in
    let (ok_first, left) = run_pass-append start xs (line ∷ ys) e in
    let (ok_second, right) = run_pass-append t xs (line ∷ ys) f in
    let (m1, p) = run-Paired names xs begun ok_first ok_second in
    let a = (run_pass start xs).0 in
    let b = (run_pass t xs).0 in
    let (taken, behind) = run_pass-step a line ys (ap (λ r. r.1) (sym left) ∙ e) in
    let (taken_too, behind_too) = run_pass-step b line ys (ap (λ r. r.1) (sym right) ∙ f) in
    let q = (line-Agree names line p).agree taken taken_too in
    let (m2, last) =
      run-Paired names ys q (ap (λ r. r.1) (sym behind) ∙ ap (λ r. r.1) (sym left) ∙ e)
        (ap (λ r. r.1) (sym behind_too) ∙ ap (λ r. r.1) (sym right) ∙ f) in
    let table : all ≡ m1 ++ ((name, a.pc) ∷ m2) =
      ap (λ r. r.0.labels) (left ∙ behind)
      ∙ last.known
      ∙ ap (λ l. (m1 ++ noted l a.pc) ++ m2) is_label
      ∙ ++-assoc m1 ((name, a.pc) ∷ []) m2 in
    let unseen = ap (λ l. search_label l name) (sym p.known) ∙ fresh in
    search_label-table all m1 m2 name a.pc names table unseen ∙ p.pc
