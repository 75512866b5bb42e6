-- ===== src/Userland/Ecalc/Operations.antt =====
-- The parser of userland/ecalc.c on an operation between two terms.
use manux.Userland.Ecalc.Ops.{
  level-suc, level-bound, op_seen-ready, op_seen-result, text-chain, text-once,
}
use manux.Common.{
  length, ℕ, zero, suc, ◌+◌, ◌-◌, ◌<◌, ◌≡◌, refl, ap, ◌∙◌, true, false, some, List, ◌∷◌, arith,
}
use mathlib.Core.Path.{subst}
use manux.Userland.Ecalc.{Calc, next_token}
use manux.Userland.Ecalc.Parse.{◌>>=◌, rounds}
use manux.Userland.Ecalc.Rounds.{rounds-more, once-more}
use manux.Userland.Ecalc.Terms.{
  Op, symbol, level, is_chain, op_value, op_seen, Term, number, answer, signed, binary, text, value,
  seen,
}
use manux.Userland.Ecalc.Lexing.{ready, Follow, at_op, Follow-below, ready-op, next_token-op}
use manux.Userland.Ecalc.Levels.{
  test_at, test-op, apply_at, parser_at, further, parser_at-suc, apply-op,
}
use manux.Userland.Ecalc.Reading.{Reads, Opens, length-text}

module _ (by_zero : ℕ → ℕ) where
  pub seen-result : (t : Term) (s : Calc) → (seen by_zero t s).result ≡ s.result
  unfolding seen
  seen-result (number d ds) s = refl
  seen-result answer s = refl
  seen-result (signed g t) s = seen-result t s
  seen-result (binary op a b) s =
      op_seen-result op (value by_zero s.result b) (seen by_zero b (seen by_zero a s))
      ∙ seen-result b (seen by_zero a s)
      ∙ seen-result a s

  module _ (op : Op) (a b : Term) (rest : List ℕ) (s : Calc) where
    -- The text behind the left operand
    abbrev pub tail : List ℕ
    tail = 32 ∷ symbol op ∷ 32 ∷ text (level op - 1) b rest

    tail-Follow : Follow (level op - 1) tail
    tail-Follow =
        let above = level-suc op in
        at_op (level op - 1) op (text (level op - 1) b rest) (omega arith)

    -- The operation is applied to the values of its operands.
    applied :
        apply_at by_zero
          (level op - 1)
          (ready tail (seen by_zero a s)).token
          (value by_zero s.result a)
          (value by_zero (seen by_zero a s).result b)
          (ready rest (seen by_zero b (seen by_zero a s)))
        ≡ (value by_zero s.result (binary op a b), ready rest (seen by_zero (binary op a b) s))
    unfolding value seen
    applied =
        ap
          (λ u.
            apply_at by_zero (level op - 1) u.token (value by_zero s.result a)
              (value by_zero (seen by_zero a s).result b)
              (ready rest (seen by_zero b (seen by_zero a s))))
          (ready-op op (text (level op - 1) b rest) (seen by_zero a s))
        ∙ apply-op by_zero op (value by_zero s.result a) (value by_zero (seen by_zero a s).result b)
            (ready rest (seen by_zero b (seen by_zero a s)))
        ∙ ap
            (λ n. (
              op_value by_zero op (value by_zero s.result a) (value by_zero n b),
              op_seen op (value by_zero n b) (ready rest (seen by_zero b (seen by_zero a s))),
            ))
            (seen-result a s)
        ∙ ap (λ u. (op_value by_zero op (value by_zero s.result a) (value by_zero s.result b), u))
            (op_seen-ready op (value by_zero s.result b) rest (seen by_zero b (seen by_zero a s)))

    -- The right operand is read behind the operation.
    right :
        (fuel : ℕ)
        → Reads by_zero (level op - 1) b
        → Follow (level op - 1) rest
        → length (text (level op - 1) b rest) < fuel
        → parser_at by_zero (level op - 1) fuel (next_token (ready tail (seen by_zero a s)))
          ≡ some (
            value by_zero (seen by_zero a s).result b,
            ready rest (seen by_zero b (seen by_zero a s)),
          )
    right fuel reads follow enough =
        ap (parser_at by_zero (level op - 1) fuel)
          (next_token-op op (text (level op - 1) b rest) (seen by_zero a s))
        ∙ reads fuel rest (seen by_zero a s) follow enough

    goes_on : test_at (level op - 1) (ready tail (seen by_zero a s)).token ≡ true
    goes_on =
        ap (λ u. test_at (level op - 1) u.token)
          (ready-op op (text (level op - 1) b rest) (seen by_zero a s))
        ∙ test-op op

  module _ (op : Op) (a b : Term) where
    -- In a loop, the operation is one more round.
    pub Opens-op :
        is_chain (suc (level op - 1)) ≡ true
        → Opens by_zero (level op - 1) a
        → Reads by_zero (level op - 1) b
        → Opens by_zero (level op - 1) (binary op a b)
    Opens-op chain opens reads fuel rest s follow enough =
        let same = text-chain op a b rest chain in
        let written : length (text (suc (level op - 1)) a (tail op a b rest s)) < fuel =
          subst (λ cs. length cs < fuel) same enough in
        let (m, h, e) = opens fuel (tail op a b rest s) s (tail-Follow op a b rest s) written in
        let longer = length-text (suc (level op - 1)) a (tail op a b rest s) in
        let (n, next, long) = pred m (length (text (level op - 1) b rest)) (omega arith) in
        (
          n,
          (let behind = length-text (level op - 1) b rest in omega arith),
          ap (λ cs. parser_at by_zero (suc (level op - 1)) fuel (ready cs s)) same
              ∙ e
              ∙ ap
                  (λ m.
                    rounds (parser_at by_zero (level op - 1) fuel) (test_at (level op - 1))
                      (apply_at by_zero (level op - 1)) m
                      (value by_zero s.result a, ready (tail op a b rest s) (seen by_zero a s)))
                  next
              ∙ rounds-more (parser_at by_zero (level op - 1) fuel) (test_at (level op - 1))
                  (apply_at by_zero (level op - 1))
                  (value by_zero s.result a, ready (tail op a b rest s) (seen by_zero a s))
                  (
                    value by_zero (seen by_zero a s).result b,
                    ready rest (seen by_zero b (seen by_zero a s)),
                  )
                  (goes_on op a b rest s) (right op a b rest s fuel reads follow (omega arith)) n
              ∙ ap
                  (rounds (parser_at by_zero (level op - 1) fuel) (test_at (level op - 1))
                    (apply_at by_zero (level op - 1)) n)
                  (applied op a b rest s),
        )
      where
        pred : (m k : ℕ) → 3 + k < m → (n : ℕ) × (m ≡ suc n) × (2 + k < n)
        pred zero k h = absurd (omega arith)
        pred (suc n) k h = (n, refl, omega arith)

    -- At a level without a loop, it is the only operation.
    pub single-op :
        is_chain (suc (level op - 1)) ≡ false
        → Reads by_zero (level op - 1) a
        → Reads by_zero (level op - 1) b
        → (fuel : ℕ) (rest : List ℕ) (s : Calc) → Follow (level op - 1) rest
        → length (text (suc (level op - 1)) (binary op a b) rest) < fuel
        → parser_at by_zero
            (suc (level op - 1))
            fuel
            (ready (text (suc (level op - 1)) (binary op a b) rest) s)
          ≡ some
              (value by_zero s.result (binary op a b), ready rest (seen by_zero (binary op a b) s))
    single-op single reads_a reads_b fuel rest s follow enough =
        let same = text-once op a b rest single in
        let written : length (text (level op - 1) a (tail op a b rest s)) < fuel =
          subst (λ cs. length cs < fuel) same enough in
        let longer = length-text (level op - 1) a (tail op a b rest s) in
        ap (λ cs. parser_at by_zero (suc (level op - 1)) fuel (ready cs s)) same
        ∙ parser_at-suc by_zero (level op - 1) fuel
            (ready (text (level op - 1) a (tail op a b rest s)) s) (level-bound op)
        ∙ ap
            (λ c.
              parser_at by_zero (level op - 1) fuel
                (ready (text (level op - 1) a (tail op a b rest s)) s)
              >>= further by_zero c (level op - 1) fuel)
            single
        ∙ ap (λ o. o >>= further by_zero false (level op - 1) fuel)
            (reads_a fuel (tail op a b rest s) s (tail-Follow op a b rest s) written)
        ∙ once-more (parser_at by_zero (level op - 1) fuel) (test_at (level op - 1))
            (apply_at by_zero (level op - 1))
            (value by_zero s.result a, ready (tail op a b rest s) (seen by_zero a s))
            (
              value by_zero (seen by_zero a s).result b,
              ready rest (seen by_zero b (seen by_zero a s)),
            )
            (goes_on op a b rest s) (right op a b rest s fuel reads_b follow (omega arith))
        ∙ ap some (applied op a b rest s)

    pub Reads-op :
        is_chain (suc (level op - 1)) ≡ false
        → Reads by_zero (level op - 1) a
        → Reads by_zero (level op - 1) b
        → Reads by_zero (suc (level op - 1)) (binary op a b)
    Reads-op single reads_a reads_b fuel rest s follow enough =
        single-op single reads_a reads_b fuel rest s (Follow-below (level op - 1) rest follow)
          enough
