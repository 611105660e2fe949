-- ===== src/Prelude/Dict.antt =====
-- Go's built-in map as an association list in which each key stands once. Its iteration order is
-- not specified by Go; the model iterates in the order of the list.
use Prim.Native.Nat.{ℕ, suc, ◌+◌}
use mathlib.Core.Path.{◌≡◌, refl, subst}
use mathlib.Core.Option.{Option, none, some}
use mathlib.Core.Logic.{inl, inr}
use mathlib.Core.List.{List, [], ◌∷◌}
use native.Mathlib.Omega.{arith}
use fin_kit.Prelude.Tests.{if◌then◌else◌, Bool-cases}
use fin_kit.Prelude.Lists.{length}
use fin_kit.Prelude.Equality.{Comparable, ◌==◌}

abbrev pub Dict {ℓ κ} : Type ℓ → Type κ → Type (ℓ ⊔ κ)
Dict K V = List (K × V)

module _ {ℓ κ} {K : Type ℓ} {V : Type κ} ⦃e : Comparable K⦄ where
  -- `v, exists := d[k]`
  abbrev pub lookup : K → Dict K V → Option V
  lookup k [] = none
  lookup k ((j, v) ∷ d) = if j == k then some v else lookup k d

  -- `d[k] = v`
  abbrev pub insert : K → V → Dict K V → Dict K V
  insert k v [] = (k, v) ∷ []
  insert k v ((j, w) ∷ d) = if j == k then (k, v) ∷ d else (j, w) ∷ insert k v d

  -- `delete(d, k)`
  abbrev pub erase : K → Dict K V → Dict K V
  erase k [] = []
  erase k ((j, w) ∷ d) = if j == k then d else (j, w) ∷ erase k d

  -- No key stands twice.
  abbrev pub IsDict : Dict K V → Type κ
  IsDict [] = Unit
  IsDict ((j, w) ∷ d) = (lookup j d ≡ none) × IsDict d

  pub lookup-insert :
      (k j : K) (v : V) (d : Dict K V)
      → lookup j (insert k v d) ≡ (if k == j then some v else lookup j d)
  lookup-insert k j v [] = refl
  lookup-insert k j v ((i, w) ∷ d) =
      ground (arith, e.equal_iff k j, e.equal_iff i k, e.equal_iff i j, lookup-insert k j v d)

  pub lookup-erase :
      (k j : K) (d : Dict K V)
      → IsDict d
      → lookup j (erase k d) ≡ (if k == j then none else lookup j d)
  lookup-erase k j [] h = ground arith
  lookup-erase k j ((i, w) ∷ d) h =
      ground (arith, e.equal_iff k j, e.equal_iff i k, e.equal_iff i j, lookup-erase k j d h.1)

  pub insert-IsDict : (k : K) (v : V) (d : Dict K V) → IsDict d → IsDict (insert k v d)
  insert-IsDict k v [] h = (refl, tt)
  insert-IsDict k v ((i, w) ∷ d) h =
      ground
        (arith, e.equal_iff i k, e.equal_iff k i, lookup-insert k i v d, insert-IsDict k v d h.1)

  pub erase-IsDict : (k : K) (d : Dict K V) → IsDict d → IsDict (erase k d)
  erase-IsDict k [] h = tt
  erase-IsDict k ((i, w) ∷ d) h =
      ground (arith, e.equal_iff i k, lookup-erase k i d h.1, erase-IsDict k d h.1)

module _ {ℓ κ μ} {K : Type ℓ} {V : Type κ} ⦃e : Comparable K⦄ (P : V → Type μ) where
  -- A predicate on every value of a map.
  abbrev pub Values : Dict K V → Type μ
  Values [] = Unit
  Values ((j, w) ∷ d) = P w × Values d

  pub lookup-Values : (k : K) (d : Dict K V) {v : V} → Values d → lookup k d ≡ some v → P v
  lookup-Values k [] h q = absurd (cc)
  lookup-Values k ((j, w) ∷ d) {v} h q = elim (Bool-cases (j == k)) [
    | inl found ↦
        let same : ◌≡◌ {A = Option V} (some w) (some v) = rw found at q in
        let eq : w ≡ v = cc in subst P eq h.0
    | inr other ↦ lookup-Values k d h.1 (rw other at q)
  ]

  pub insert-Values : (k : K) (v : V) (d : Dict K V) → P v → Values d → Values (insert k v d)
  insert-Values k v [] p h = (p, tt)
  insert-Values k v ((j, w) ∷ d) p h = elim (Bool-cases (j == k)) [
    | inl found ↦ rw found (p, h.1)
    | inr other ↦ rw other (h.0, insert-Values k v d p h.1)
  ]

  pub erase-Values : (k : K) (d : Dict K V) → Values d → Values (erase k d)
  erase-Values k [] h = tt
  erase-Values k ((j, w) ∷ d) h = elim (Bool-cases (j == k)) [
    | inl found ↦ rw found h.1
    | inr other ↦ rw other (h.0, erase-Values k d h.1)
  ]

-- 1 if a lookup finds something, else 0.
abbrev pub found {ℓ} : {A : Type ℓ} → Option A → ℕ
found none = 0
found (some a) = 1

module _ {ℓ κ} {K : Type ℓ} {V : Type κ} ⦃e : Comparable K⦄ where
  pub length-insert :
      (k : K) (v : V) (d : Dict K V) → length (insert k v d) + found (lookup k d) ≡ suc (length d)
  length-insert k v [] = omega arith
  length-insert k v ((j, w) ∷ d) = ground (arith, length-insert k v d)

  pub length-erase : (k : K) (d : Dict K V) → length (erase k d) + found (lookup k d) ≡ length d
  length-erase k [] = omega arith
  length-erase k ((j, w) ∷ d) = ground (arith, length-erase k d)
