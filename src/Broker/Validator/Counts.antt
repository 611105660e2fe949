-- ===== src/Broker/Validator/Counts.antt =====
-- broker/validator.go: the counts of mismatches are those of the listed mismatches.
use fin_kit.Prelude.{
  ℕ, ◌+◌, ◌≡◌, Bool, true, false, ◌&&◌, List, [], ◌∷◌, ◌++◌, arith, if◌then◌else◌, Bool-cases, inl,
  inr,
}
use fin_kit.Prelude.Int.{pos}
use fin_kit.Prelude.Int64.{wrap, wrap_one}
use fin_kit.Core.{Side, is_buy, Float64, FeedLevel}
use fin_kit.Broker.Types.{Level}
use fin_kit.Broker.Validator.{
  OrderBookValidator, LevelMismatch, ValidationResult, add_mismatch, track_drift, missing_level,
  both_levels, validate_side, distance,
}

-- 1 on the side that is counted, else 0.
abbrev pub weight : Bool → Side → ℕ
weight bids side = if is_buy side then (if bids then 1 else 0) else (if bids then 0 else 1)

module _ (F : Float64) where
  -- How many mismatches are of bids, and how many are not.
  unfoldable pub number_on : Bool → List (LevelMismatch F) → ℕ
  number_on bids [] = 0
  number_on bids (m ∷ ms) = weight bids m.side + number_on bids ms

  pub number_on-append :
      (bids : Bool) (ms : List (LevelMismatch F)) (m : LevelMismatch F)
      → number_on bids (ms ++ (m ∷ [])) ≡ number_on bids ms + weight bids m.side
  unfolding number_on
  number_on-append bids [] m = ground arith
  number_on-append bids (x ∷ ms) m = ground (arith, number_on-append bids ms m)

  -- As int64 counters.
  pub record IsCounted (r : ValidationResult F) : Type 0 where
    pub bids : r.bid_mismatch ≡ wrap (pos (number_on true r.mismatched_levels))
    pub asks : r.ask_mismatch ≡ wrap (pos (number_on false r.mismatched_levels))

  add_mismatch-IsCounted :
      (counted : Bool) (m : LevelMismatch F) (r : ValidationResult F)
      → IsCounted r
      → IsCounted (add_mismatch F counted m r)
  unfolding add_mismatch
  add_mismatch-IsCounted counted m r c = record {
    bids = ground (
      arith,
      c.bids,
      number_on-append true r.mismatched_levels m,
      wrap_one (number_on true r.mismatched_levels),
    );
    asks = ground (
      arith,
      c.asks,
      number_on-append false r.mismatched_levels m,
      wrap_one (number_on false r.mismatched_levels),
    );
  }

  track_drift-IsCounted :
      (drift : F.Float) (r : ValidationResult F) → IsCounted r → IsCounted (track_drift F drift r)
  unfolding track_drift
  track_drift-IsCounted drift r c = elim (Bool-cases (F.less r.max_price_drift drift)) [
    | inl more ↦ rw (more, track_drift) record { bids = c.bids; asks = c.asks }
    | inr less ↦ rw (less, track_drift) c
  ]

  both_levels-IsCounted :
      (v : OrderBookValidator F) (side : Side) (x : FeedLevel F) (y : Level)
      (r : ValidationResult F)
      → IsCounted r
      → IsCounted (both_levels F v side x y r)
  unfolding both_levels
  both_levels-IsCounted v side x y r c =
      let price = F.of_int64 y.price in
      let quantity = F.of_int64 y.total_qty in
      let percent = F.divide (distance F x.volume quantity) quantity in
      elim (Bool-cases (F.less F.one_hundredth (distance F x.price price))) [
        | inl far ↦
            rw (far, both_levels) (track_drift-IsCounted _ _ (add_mismatch-IsCounted false _ r c))
        | inr near ↦
            elim (Bool-cases (F.less F.zero quantity && F.less v.max_allowed_drift percent)) [
              | inl off ↦ rw (near, off, both_levels) (add_mismatch-IsCounted true _ r c)
              | inr fine ↦ rw (near, fine, both_levels) c
            ]
      ]

  pub validate_side-IsCounted :
      (v : OrderBookValidator F) (xs : List (FeedLevel F)) (ys : List Level) (side : Side)
      (r : ValidationResult F)
      → IsCounted r
      → IsCounted (validate_side F v xs ys side r)
  unfolding validate_side missing_level
  validate_side-IsCounted v [] [] side r c = c
  validate_side-IsCounted v (x ∷ xs) [] side r c =
      validate_side-IsCounted v xs [] side _ (add_mismatch-IsCounted true _ r c)
  validate_side-IsCounted v [] (y ∷ ys) side r c =
      validate_side-IsCounted v [] ys side _ (add_mismatch-IsCounted true _ r c)
  validate_side-IsCounted v (x ∷ xs) (y ∷ ys) side r c =
      validate_side-IsCounted v xs ys side _ (both_levels-IsCounted v side x y r c)
