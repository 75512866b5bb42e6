-- ===== src/Userland/Ecalc/Rounds.antt =====
-- The loops of the parser of userland/ecalc.c, one round at a time.
use manux.Common.{ℕ, zero, suc, ◌<◌, ◌≡◌, refl, Bool, true, false, some, arith}
use manux.Userland.Ecalc.{Calc, next_token}
use manux.Userland.Ecalc.Parse.{Parser, Apply, rounds, once}

module _ (sub : Parser) (test : ℕ → Bool) (apply : Apply) (r : ℕ × Calc) where
  pub rounds-stop : (n : ℕ) → test r.1.token ≡ false → rounds sub test apply (suc n) r ≡ some r
  unfolding rounds
  rounds-stop n e = rw (e, rounds) refl

  -- The same with any fuel that is above a number
  pub rounds-end : (k n : ℕ) → k < n → test r.1.token ≡ false → rounds sub test apply n r ≡ some r
  rounds-end k zero h e = absurd (omega arith)
  rounds-end k (suc n) h e = rounds-stop n e

  pub once-stop : test r.1.token ≡ false → once sub test apply r ≡ some r
  unfolding once
  once-stop e = rw (e, once) refl

  module _ (rs : ℕ × Calc) (more : test r.1.token ≡ true)
      (read : sub (next_token r.1) ≡ some rs) where
    pub rounds-more :
        (n : ℕ)
        → rounds sub test apply (suc n) r ≡ rounds sub test apply n (apply r.1.token r.0 rs.0 rs.1)
    unfolding rounds
    rounds-more n = rw (more, read, rounds) refl

    pub once-more : once sub test apply r ≡ some (apply r.1.token r.0 rs.0 rs.1)
    unfolding once
    once-more = rw (more, read, once) refl
