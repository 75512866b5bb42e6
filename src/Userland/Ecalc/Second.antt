-- ===== src/Userland/Ecalc/Second.antt =====
-- parse_and, parse_xor and parse_or of userland/ecalc.c take one operation each.
use mathlib.Core.Path.{subst}
use manux.Common.{
  length, ℕ, zero, suc, ◌+◌, ◌-◌, ◌≤◌, ◌<◌, ◌≡◌, ◌≢◌, refl, ap, ◌∙◌, Bool, true, false, some, List,
  ◌∷◌, arith,
}
use manux.Userland.Ecalc.{Calc, print, equals, operator}
use manux.Userland.Ecalc.Parse.{◌>>=◌, parse_expr, calculate}
use manux.Userland.Ecalc.Rounds.{rounds-end, once-stop}
use manux.Userland.Ecalc.Terms.{
  Op, power, times, over, conjunction, exclusive, disjunction, plus, minus, symbol, level, is_chain,
  Term, binary, term_level, text, value, seen,
}
use manux.Userland.Ecalc.Lexing.{ready, at_op, ready-op}
use manux.Userland.Ecalc.Levels.{test_at, apply_at, parser_at, further, parser_at-suc}
use manux.Userland.Ecalc.Reading.{text-same}
use manux.Userland.Ecalc.Ops.{level-suc, level-bound}
use manux.Userland.Ecalc.Operations.{single-op}
use manux.Userland.Ecalc.Values.{read}

-- No level above that of a bitwise operation goes on with it.
test-bitwise :
    (op : Op) (l : ℕ)
    → is_chain (suc (level op - 1)) ≡ false
    → level op ≤ l
    → l < 6
    → test_at l (operator (symbol op)) ≡ false
unfolding operator
test-bitwise power l c h k = cc
test-bitwise times l c h k = cc
test-bitwise over l c h k = cc
test-bitwise plus l c h k = cc
test-bitwise minus l c h k = cc
test-bitwise conjunction zero c h k = absurd (omega arith)
test-bitwise conjunction (suc zero) c h k = absurd (omega arith)
test-bitwise conjunction (suc (suc zero)) c h k = absurd (omega arith)
test-bitwise conjunction (suc (suc (suc zero))) c h k = refl
test-bitwise conjunction (suc (suc (suc (suc zero)))) c h k = refl
test-bitwise conjunction (suc (suc (suc (suc (suc zero))))) c h k = refl
test-bitwise conjunction (suc (suc (suc (suc (suc (suc l)))))) c h k = absurd (omega arith)
test-bitwise exclusive zero c h k = absurd (omega arith)
test-bitwise exclusive (suc zero) c h k = absurd (omega arith)
test-bitwise exclusive (suc (suc zero)) c h k = absurd (omega arith)
test-bitwise exclusive (suc (suc (suc zero))) c h k = absurd (omega arith)
test-bitwise exclusive (suc (suc (suc (suc zero)))) c h k = refl
test-bitwise exclusive (suc (suc (suc (suc (suc zero))))) c h k = refl
test-bitwise exclusive (suc (suc (suc (suc (suc (suc l)))))) c h k = absurd (omega arith)
test-bitwise disjunction zero c h k = absurd (omega arith)
test-bitwise disjunction (suc zero) c h k = absurd (omega arith)
test-bitwise disjunction (suc (suc zero)) c h k = absurd (omega arith)
test-bitwise disjunction (suc (suc (suc zero))) c h k = absurd (omega arith)
test-bitwise disjunction (suc (suc (suc (suc zero)))) c h k = absurd (omega arith)
test-bitwise disjunction (suc (suc (suc (suc (suc zero))))) c h k = refl
test-bitwise disjunction (suc (suc (suc (suc (suc (suc l)))))) c h k = absurd (omega arith)

module _ (by_zero : ℕ → ℕ) where
  -- A level reads a term in front of this text, and stops there.
  Stops : ℕ → Term → List ℕ → Type 0
  Stops l t rest =
      (fuel : ℕ) (s : Calc)
      → length (text l t rest) < fuel
      → parser_at by_zero l fuel (ready (text l t rest) s)
        ≡ some (value by_zero s.result t, ready rest (seen by_zero t s))

  further-stop :
      (b : Bool) (l fuel : ℕ) (r : ℕ × Calc)
      → 0 < fuel
      → test_at l r.1.token ≡ false
      → further by_zero b l fuel r ≡ some r
  further-stop true l fuel r h e =
      rounds-end (parser_at by_zero l fuel) (test_at l) (apply_at by_zero l) r 0 fuel h e
  further-stop false l fuel r h e =
      once-stop (parser_at by_zero l fuel) (test_at l) (apply_at by_zero l) r e

  Stops-up :
      (l : ℕ) (t : Term) (rest : List ℕ)
      → l < 6
      → term_level t ≢ suc l
      → ((s : Calc) → test_at l (ready rest s).token ≡ false)
      → Stops l t rest
      → Stops (suc l) t rest
  unfolding Stops
  Stops-up l t rest h other stop stops fuel s enough =
      let same = text-same l t rest other in
      let short : length (text l t rest) < fuel = subst (λ cs. length cs < fuel) same enough in
      ap (λ cs. parser_at by_zero (suc l) fuel (ready cs s)) same
      ∙ parser_at-suc by_zero l fuel (ready (text l t rest) s) h
      ∙ ap (λ o. o >>= further by_zero (is_chain (suc l)) l fuel) (stops fuel s short)
      ∙ further-stop (is_chain (suc l)) l fuel
          (value by_zero s.result t, ready rest (seen by_zero t s)) (omega arith)
          (stop (seen by_zero t s))

  module _ (op : Op) (bitwise : is_chain (suc (level op - 1)) ≡ false) (a b : Term)
      (more : List ℕ) where
    -- The same operation once more
    again : List ℕ
    again = 32 ∷ symbol op ∷ 32 ∷ more

    stop_at : (l : ℕ) → level op ≤ l → l < 6 → (s : Calc) → test_at l (ready again s).token ≡ false
    unfolding again
    stop_at l above h s =
        ap (λ u. test_at l u.token) (ready-op op more s) ∙ test-bitwise op l bitwise above h

    from_own :
        (n : ℕ) → n + suc (level op - 1) ≤ 6 → Stops (n + suc (level op - 1)) (binary op a b) again
    unfolding Stops again
    from_own zero h =
        let whole = level-suc op in
        let most = level-bound op in
        let start : suc (level op - 1) ≡ 0 + suc (level op - 1) = omega arith in
        subst (λ l. Stops l (binary op a b) again) start
          (λ fuel s enough.
            single-op by_zero op a b bitwise
              ((read by_zero a).at_level (level op - 1) (omega arith))
              ((read by_zero b).at_level (level op - 1) (omega arith)) fuel again s
              (at_op (level op - 1) op more (omega arith)) enough)
    from_own (suc n) h =
        let whole = level-suc op in
        let next : suc (n + suc (level op - 1)) ≡ suc n + suc (level op - 1) = omega arith in
        subst (λ l. Stops l (binary op a b) again) next
          (Stops-up (n + suc (level op - 1)) (binary op a b) again (omega arith) (λ e. omega arith)
            (stop_at (n + suc (level op - 1)) (omega arith) (omega arith))
            (from_own n (omega arith)))

    -- A line with one of the operations &, ^ and | between two terms, the same operation again
    -- behind them, and any text behind that, is worked out to the value of the first operation. The
    -- text is not read, and no error is printed for it.
    pub calculate_second :
        (s : Calc)
        → calculate by_zero (text 6 (binary op a b) (32 ∷ symbol op ∷ 32 ∷ more)) s
          ≡ some (
              print
                (equals (value by_zero s.result (binary op a b)))
                (record (ready (32 ∷ symbol op ∷ 32 ∷ more) (seen by_zero (binary op a b) s)) {
                  result = value by_zero s.result (binary op a b);
                }))
    unfolding calculate parse_expr Stops again
    calculate_second s =
        let most = level-bound op in
        let top : (6 - suc (level op - 1)) + suc (level op - 1) ≡ 6 = omega arith in
        let whole : Stops 6 (binary op a b) again =
          subst (λ l. Stops l (binary op a b) again) top
            (from_own (6 - suc (level op - 1)) (omega arith)) in
        ap (λ o. o >>= λ r. some (print (equals r.0) (record r.1 { result = r.0 })))
          (whole (suc (suc (length (text 6 (binary op a b) again)))) s (omega arith))
