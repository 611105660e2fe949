-- ===== src/Broker/Validator/Validity.antt =====
-- broker/validator.go: the verdict is set only at the end of Validate, not by its loops.
use fin_kit.Prelude.{◌≡◌, refl, ◌∙◌, Bool, true, ◌&&◌, List, [], ◌∷◌, arith, Bool-cases, inl, inr}
use fin_kit.Core.{Side, Float64, FeedLevel}
use fin_kit.Broker.Types.{Level}
use fin_kit.Broker.Validator.{
  OrderBookValidator, LevelMismatch, ValidationResult, add_mismatch, track_drift, missing_level,
  both_levels, validate_side, distance,
}

module _ (F : Float64) (v : OrderBookValidator F) where
  add_mismatch-valid :
      (counted : Bool) (m : LevelMismatch F) (r : ValidationResult F)
      → (add_mismatch F counted m r).valid ≡ r.valid
  unfolding add_mismatch
  add_mismatch-valid counted m r = ground arith

  both_levels-valid :
      (side : Side) (x : FeedLevel F) (y : Level) (r : ValidationResult F)
      → (both_levels F v side x y r).valid ≡ r.valid
  unfolding both_levels add_mismatch track_drift
  both_levels-valid side x y r =
      let quantity = F.of_int64 y.total_qty in
      let percent = F.divide (distance F x.volume quantity) quantity in
      elim (Bool-cases (F.less F.one_hundredth (distance F x.price (F.of_int64 y.price)))) [
        | inl far ↦ rw (far, both_levels) (ground arith)
        | inr near ↦
            elim (Bool-cases (F.less F.zero quantity && F.less v.max_allowed_drift percent)) [
              | inl off ↦ rw (near, off, both_levels) (add_mismatch-valid true _ r)
              | inr fine ↦ rw (near, fine, both_levels) refl
            ]
      ]

  pub validate_side-valid :
      (xs : List (FeedLevel F)) (ys : List Level) (side : Side) (r : ValidationResult F)
      → (validate_side F v xs ys side r).valid ≡ r.valid
  unfolding validate_side missing_level
  validate_side-valid [] [] side r = refl
  validate_side-valid (x ∷ xs) [] side r =
      validate_side-valid xs [] side _ ∙ add_mismatch-valid true _ r
  validate_side-valid [] (y ∷ ys) side r =
      validate_side-valid [] ys side _ ∙ add_mismatch-valid true _ r
  validate_side-valid (x ∷ xs) (y ∷ ys) side r =
      validate_side-valid xs ys side _ ∙ both_levels-valid side x y r
