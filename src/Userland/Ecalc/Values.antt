-- ===== src/Userland/Ecalc/Values.antt =====
-- The calculator userland/ecalc.c prints the value of each term.
use manux.Common.{
  ◌==◌, Bool-cases, ltb, ltb→lt, ltb→ge, ==→eq, ==→ne, length, ℕ, zero, suc, ◌+◌, ◌-◌, ◌≤◌, ◌<◌,
  ◌≡◌, ◌≢◌, refl, sym, ap, inl, inr, true, some, [], arith,
}
use mathlib.Core.Path.{subst}
use manux.Userland.Ecalc.{Calc, print, equals}
use manux.Userland.Ecalc.Parse.{◌>>=◌, parse_expr, calculate}
use manux.Userland.Ecalc.Terms.{
  Op, level, is_chain, Term, number, answer, signed, binary, term_level, text, value, seen,
}
use manux.Userland.Ecalc.Lexing.{ready, at_end}
use manux.Userland.Ecalc.Reading.{Reads, Opens, Opens-up, Reads-Opens, Reads-up}
use manux.Userland.Ecalc.Ops.{level-suc, level-bound}
use manux.Userland.Ecalc.Operations.{Opens-op, Reads-op}
use manux.Userland.Ecalc.Factors.{Reads-number, Reads-answer, Reads-signed, Reads-group}

module _ (by_zero : ℕ → ℕ) where
  -- From one level up to another, with no operation of the term between them
  climb-by :
      (t : Term) (k n : ℕ)
      → Reads by_zero k t
      → ((j : ℕ) → k ≤ j → j < n + k → term_level t ≢ suc j)
      → n + k ≤ 6
      → Reads by_zero (n + k) t
  climb-by t k zero reads other h =
      let start : k ≡ 0 + k = omega arith in subst (λ l. Reads by_zero l t) start reads
  climb-by t k (suc n) reads other h =
      let next : suc (n + k) ≡ suc n + k = omega arith in
      subst (λ l. Reads by_zero l t) next
        (Reads-up by_zero (n + k) t (omega arith) (other (n + k) (omega arith) (omega arith))
          (climb-by t k n reads (λ j a b. other j a (omega arith)) (omega arith)))

  climb :
      (t : Term) (k l : ℕ)
      → Reads by_zero k t
      → ((j : ℕ) → k ≤ j → j < l → term_level t ≢ suc j)
      → k ≤ l
      → l ≤ 6
      → Reads by_zero l t
  climb t k l reads other below h =
      let sum : (l - k) + k ≡ l = omega arith in
      subst (λ l. Reads by_zero l t) sum
        (climb-by t k (l - k) reads (λ j a b. other j a (omega arith)) (omega arith))

  -- Every level reads the term, and each level with a loop is in it behind the term.
  pub record Read (t : Term) : Type 0 where
    pub at_level : (l : ℕ) → l ≤ 6 → Reads by_zero l t
    pub in_loop : (l : ℕ) → l < 6 → is_chain (suc l) ≡ true → Opens by_zero l t

  -- A term without an operation outside parentheses
  Read-factor : (t : Term) → term_level t ≡ 0 → Reads by_zero 0 t → Read t
  Read-factor t none_outside reads =
      let all : (l : ℕ) → l ≤ 6 → Reads by_zero l t =
        λ l h. climb t 0 l reads (λ j a b e. omega arith) (omega arith) h in
      record {
        at_level = all;
        in_loop =
            λ l h chain. Opens-up by_zero l t h (λ e. omega arith) chain (all l (omega arith));
      }

  Read-op : (op : Op) (a b : Term) → Read a → Read b → Read (binary op a b)
  Read-op op a b read_a read_b = record { at_level = all; in_loop = loop }
    where
      t : Term
      t = binary op a b

      bound : level op - 1 < 6
      bound = level-bound op

      at_most : level op - 1 ≤ 6
      at_most = let below = level-bound op in omega arith

      opened : is_chain (suc (level op - 1)) ≡ true → Opens by_zero (level op - 1) t
      opened chain =
          Opens-op by_zero op a b chain (read_a.in_loop (level op - 1) bound chain)
            (read_b.at_level (level op - 1) at_most)

      own : Reads by_zero (suc (level op - 1)) t
      own = elim (Bool-cases (is_chain (suc (level op - 1)))) [
        | inl chain ↦ Reads-Opens by_zero (level op - 1) t (opened chain)
        | inr single ↦
            Reads-op by_zero op a b single (read_a.at_level (level op - 1) at_most)
              (read_b.at_level (level op - 1) at_most)
      ]

      high : (l : ℕ) → level op - 1 < l → l ≤ 6 → Reads by_zero l t
      high l above h =
          let whole = level-suc op in
          climb t (suc (level op - 1)) l own (λ j a b e. omega arith) above h

      low : (l : ℕ) → l ≤ level op - 1 → Reads by_zero l t
      low l below =
          let whole = level-suc op in
          let most = level-bound op in
          climb t 0 l (Reads-group by_zero op a b (high 6 bound (omega arith)))
            (λ j a b e. omega arith) (omega arith) (omega arith)

      all : (l : ℕ) → l ≤ 6 → Reads by_zero l t
      all l h = elim (Bool-cases (ltb (level op - 1) l)) [
        | inl above ↦ high l (ltb→lt (level op - 1) l above) h
        | inr below ↦ low l (ltb→ge (level op - 1) l below)
      ]

      loop : (l : ℕ) → l < 6 → is_chain (suc l) ≡ true → Opens by_zero l t
      loop l h chain = elim (Bool-cases (l == level op - 1)) [
        | inl same ↦
            let eq = ==→eq l (level op - 1) same in
            subst (λ l. Opens by_zero l t) (sym eq)
              (opened (subst (λ l. is_chain (suc l) ≡ true) eq chain))
        | inr different ↦
            let ne = ==→ne l (level op - 1) different in
            let whole = level-suc op in
            Opens-up by_zero l t h (λ e. ne (omega arith)) chain (all l (omega arith))
      ]

  pub read : (t : Term) → Read t
  read (number d ds) = Read-factor (number d ds) refl (Reads-number by_zero d ds)
  read answer = Read-factor answer refl (Reads-answer by_zero)
  read (signed g t) =
      Read-factor (signed g t) refl (Reads-signed by_zero g t ((read t).at_level 0 (omega arith)))
  read (binary op a b) = Read-op op a b (read a) (read b)

  -- A line on which a term is written, with the parentheses that it needs and a space on both sides
  -- of each operation, is worked out to the value of the term, in which `ans` has the value of the
  -- line before. The value is stored and printed, behind an error for each division by 0, and the
  -- line is read to its end.
  pub calculate_lem :
      (t : Term) (s : Calc)
      → calculate by_zero (text 6 t []) s
        ≡ some (
            print
              (equals (value by_zero s.result t))
              (record (ready [] (seen by_zero t s)) { result = value by_zero s.result t }))
  unfolding calculate parse_expr
  calculate_lem t s =
      ap (λ o. o >>= λ r. some (print (equals r.0) (record r.1 { result = r.0 })))
        ((read t).at_level 6 (omega arith) (suc (suc (length (text 6 t [])))) [] s (at_end 6)
          (omega arith))
