-- ===== src/Common/Loops.antt =====
-- `while (test(s)) s = body(s);` on fuel, and the rule that proves such a loop.
use Prim.Native.Nat.{ℕ, zero, suc, ◌<◌}
use mathlib.Core.Path.{◌≡◌, refl}
use mathlib.Core.Bool.{Bool, true, false}
use native.Mathlib.Omega.{arith}

unfoldable pub while {ℓ} : {S : Type ℓ} → ℕ → (S → Bool) → (S → S) → S → S
while zero condition step state = state
while (suc fuel) condition step state = elim (condition state) [
  | false ↦ state
  | true ↦ while fuel condition step (step state)
]

-- An invariant, and a measure that each round lowers: with more fuel than the measure the loop ends
-- because its test fails.
module _ {ℓ κ} {S : Type ℓ} (Inv : S → Type κ) (measure : S → ℕ) (test : S → Bool) (body : S → S)
    (round : (s : S) → Inv s → test s ≡ true → Inv (body s) × (measure (body s) < measure s)) where
  pub while-Inv :
      (fuel : ℕ) (s : S)
      → measure s < fuel
      → Inv s
      → Inv (while fuel test body s) × (test (while fuel test body s) ≡ false)
  unfolding while
  while-Inv zero s m h = absurd (omega arith)
  while-Inv (suc fuel) s m h = ground (arith, round s h, while-Inv fuel (body s))

module _ {ℓ} {S : Type ℓ} (test : S → Bool) (body : S → S) (s : S) where
  pub while-stop : (fuel : ℕ) → test s ≡ false → while fuel test body s ≡ s
  unfolding while
  while-stop zero e = refl
  while-stop (suc fuel) e = rw (e, while)

  pub while-step :
      (fuel : ℕ) → test s ≡ true → while (suc fuel) test body s ≡ while fuel test body (body s)
  unfolding while
  while-step fuel e = rw (e, while)
