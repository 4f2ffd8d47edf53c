-- ===== src/Base/Cases.antt =====
-- Splits on a computed value that keep the equation.
use mathlib.Core.Path.{◌≡◌, refl}
use Prim.Native.Nat.{ℕ, zero, suc, ◌≤◌, ◌<◌}
use native.Mathlib.Omega.{arith}
use mathlib.Core.Logic.{◌⊎◌, inl, inr}
use mathlib.Core.Bool.{Bool, true, false}
use mathlib.Core.Option.{Option, none, some}

pub Bool-cases : (b : Bool) → (b ≡ true) ⊎ (b ≡ false)
Bool-cases true = inl refl
Bool-cases false = inr refl

pub Option-cases {ℓ} : {A : Type ℓ} (o : Option A) → (o ≡ none) ⊎ ((a : A) × (o ≡ some a))
Option-cases none = inl refl
Option-cases (some a) = inr (a, refl)

pub below_or_above : (a n : ℕ) → (a < n) ⊎ (n ≤ a)
below_or_above a zero = inr (omega arith)
below_or_above zero (suc n) = inl (omega arith)
below_or_above (suc a) (suc n) = elim (below_or_above a n) [
  | inl lt ↦ inl (omega arith)
  | inr le ↦ inr (omega arith)
]
