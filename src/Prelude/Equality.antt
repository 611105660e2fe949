-- ===== src/Prelude/Equality.antt =====
-- Go's `==` on the types that the program compares, as an interface with instances.
use Prim.Native.String.{String}
use mathlib.Core.Path.{◌≡◌}
use mathlib.Core.Logic.{◌↔◌}
use mathlib.Core.Bool.{Bool, true}
use text.Mathlib.Text.{◌==◌ as str_eq}
use text.Mathlib.TextEquality.{eq_iff}

-- A type whose values `==` compares.
pub record Comparable {ℓ} (K : Type ℓ) : Type ℓ where
  pub equal : K → K → Bool
  pub equal_iff : (k j : K) → (equal k j ≡ true) ↔ (k ≡ j)

infix 50 ◌==◌
abbrev pub ◌==◌ {ℓ} : {K : Type ℓ} → ⦃c : Comparable K⦄ → K → K → Bool
◌==◌ ⦃c⦄ k j = c.equal k j

instance abbrev pub string_eq : Comparable String
string_eq = record { equal = str_eq; equal_iff = eq_iff }

-- The test on texts, for the tactics.
pub string_eq_iff : (s t : String) → ((s == t) ≡ true) ↔ (s ≡ t)
string_eq_iff = eq_iff
