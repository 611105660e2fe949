-- ===== src/Prelude/Outcomes.antt =====
-- Go's `(value, error)` where exactly one of the two is nil.
use mathlib.Core.Path.{◌≡◌, refl}
use mathlib.Core.Logic.{◌⊎◌, inl, inr}

pub data Outcome {ℓ κ} (E : Type ℓ) (A : Type κ) : Type (ℓ ⊔ κ) where
  success : A → Outcome E A
  failure : E → Outcome E A

pub Outcome-cases {ℓ κ} :
    {E : Type ℓ} {A : Type κ} (x : Outcome E A)
    → ((a : A) × (x ≡ success a)) ⊎ ((e : E) × (x ≡ failure e))
Outcome-cases (success a) = inl (a, refl)
Outcome-cases (failure e) = inr (e, refl)
