-- ===== src/Core/Maps.antt =====
-- `hashsdk.Int64Map`, a map whose keys are int64.
use fin_kit.Prelude.{◌≡◌, Bool, true, false, Option, none, some, if◌then◌else◌, ◌==◌, length}
use fin_kit.Prelude.Int.{ℤ, pos, int_eq}
use fin_kit.Prelude.Dict.{Dict, lookup, IsDict}

pub record Int64Map : Type 1 where
  pub Map : Type 0 → Type 0
  -- `NewInt64MapWithCapacity[V](n)`; `NewInt64Map[V]()` is capacity `none`
  pub new_map : (V : Type 0) → Option ℤ → Map V
  pub get : {V : Type 0} → Map V → ℤ → Option V
  pub set : {V : Type 0} → ℤ → V → Map V → Map V
  pub delete : {V : Type 0} → ℤ → Map V → Map V
  pub contains : {V : Type 0} → Map V → ℤ → Bool
  pub len : {V : Type 0} → Map V → ℤ
  -- the pairs that `ForEach` visits, in its order
  pub entries : {V : Type 0} → Map V → Dict ℤ V
  pub clear : {V : Type 0} → Map V → Map V

module _ (M : Int64Map) where
  open M use {Map, new_map, get, set, delete, contains, len, entries, clear}

  -- What the documentation of a map promises.
  pub record IsMap : Type 1 where
    pub get-new : (V : Type 0) (n : Option ℤ) (k : ℤ) → get (new_map V n) k ≡ none
    pub get-set :
        (V : Type 0) (k j : ℤ) (v : V) (m : Map V)
        → get (set k v m) j ≡ (if k == j then some v else get m j)
    pub get-delete :
        (V : Type 0) (k j : ℤ) (m : Map V) → get (delete k m) j ≡ (if k == j then none else get m j)
    pub contains-get :
        (V : Type 0) (m : Map V) (k : ℤ)
        → contains m k ≡ elim (get m k) [ none ↦ false | some _ ↦ true ]
    pub len-entries : (V : Type 0) (m : Map V) → len m ≡ pos (length (entries m))
    pub lookup-entries : (V : Type 0) (m : Map V) (k : ℤ) → lookup k (entries m) ≡ get m k
    pub entries-IsDict : (V : Type 0) (m : Map V) → IsDict (entries m)
    pub get-clear : (V : Type 0) (m : Map V) (k : ℤ) → get (clear m) k ≡ none
