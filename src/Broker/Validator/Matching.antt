-- ===== src/Broker/Validator/Matching.antt =====
-- broker/validator.go: which snapshots are valid.
use fin_kit.Prelude.{
  ℕ, suc, ◌+◌, ◌^◌, ◌<◌, ◌≤◌, ◌≡◌, refl, sym, ◌∙◌, ap, Bool, true, false, not, ◌&&◌, List, [], ◌∷◌,
  arith, if◌then◌else◌, Bool-cases, inl, inr, length, nat_eqb, some, success,
}
use fin_kit.Prelude.Int.{pos}
use fin_kit.Prelude.Int64.{wrap-id}
use fin_kit.Core.{Side, buy, sell, is_buy, Float64, FeedLevel, Snapshot}
use fin_kit.Broker.Types.{Level, ExchangeSnapshot}
use fin_kit.Broker.Validator.{
  OrderBookValidator, LevelMismatch, ValidationResult, add_mismatch, track_drift, missing_level,
  both_levels, validate_side, validate_levels, validate, no_mismatch, distance,
}
use fin_kit.Broker.Validator.Validity.{validate_side-valid}
use fin_kit.Broker.Validator.Counts.{
  weight, number_on, number_on-append, IsCounted, validate_side-IsCounted,
}

module _ (F : Float64) (v : OrderBookValidator F) where
  -- The price within 0.01, and the quantity within the drift, unless the exchange's is not positive.
  abbrev pub level_matches : FeedLevel F → Level → Bool
  level_matches x y =
      not (F.less F.one_hundredth (distance F x.price (F.of_int64 y.price)))
      && not (
          F.less F.zero (F.of_int64 y.total_qty)
          && F.less v.max_allowed_drift
              (F.divide (distance F x.volume (F.of_int64 y.total_qty)) (F.of_int64 y.total_qty)))

  -- As many levels, each of which matches.
  unfoldable pub side_matches : List (FeedLevel F) → List Level → Bool
  side_matches [] [] = true
  side_matches (x ∷ xs) [] = false
  side_matches [] (y ∷ ys) = false
  side_matches (x ∷ xs) (y ∷ ys) = level_matches x y && side_matches xs ys

  -- How many levels do not match, those that one side does not have included.
  unfoldable pub misses : List (FeedLevel F) → List Level → ℕ
  misses [] [] = 0
  misses (x ∷ xs) [] = suc (misses xs [])
  misses [] (y ∷ ys) = suc (misses [] ys)
  misses (x ∷ xs) (y ∷ ys) = if level_matches x y then misses xs ys else suc (misses xs ys)

  misses_bound : (xs : List (FeedLevel F)) (ys : List Level) → misses xs ys ≤ length xs + length ys
  unfolding misses
  misses_bound [] [] = omega arith
  misses_bound (x ∷ xs) [] = omega (arith, misses_bound xs [])
  misses_bound [] (y ∷ ys) = omega (arith, misses_bound [] ys)
  misses_bound (x ∷ xs) (y ∷ ys) = ground (arith, misses_bound xs ys)

  side_matches-misses :
      (xs : List (FeedLevel F)) (ys : List Level) → side_matches xs ys ≡ nat_eqb (misses xs ys) 0
  unfolding misses side_matches
  side_matches-misses [] [] = refl
  side_matches-misses (x ∷ xs) [] = ground arith
  side_matches-misses [] (y ∷ ys) = ground arith
  side_matches-misses (x ∷ xs) (y ∷ ys) = ground (arith, side_matches-misses xs ys)

  add_mismatch-number :
      (b counted : Bool) (m : LevelMismatch F) (r : ValidationResult F)
      → number_on F b (add_mismatch F counted m r).mismatched_levels
        ≡ number_on F b r.mismatched_levels + weight b m.side
  unfolding add_mismatch
  add_mismatch-number b counted m r = elim (Bool-cases (is_buy m.side)) [
    | inl buys ↦ rw (buys, add_mismatch) (number_on-append F b r.mismatched_levels m ∙ rw buys refl)
    | inr sells ↦
        rw (sells, add_mismatch) (number_on-append F b r.mismatched_levels m ∙ rw sells refl)
  ]

  track_drift-listed :
      (drift : F.Float) (r : ValidationResult F)
      → (track_drift F drift r).mismatched_levels ≡ r.mismatched_levels
  unfolding track_drift
  track_drift-listed drift r = ground arith

  both_levels-number :
      (b : Bool) (side : Side) (x : FeedLevel F) (y : Level) (r : ValidationResult F)
      → number_on F b (both_levels F v side x y r).mismatched_levels
        ≡ number_on F b r.mismatched_levels + (if level_matches x y then 0 else weight b side)
  unfolding both_levels
  both_levels-number b side x y r =
      let quantity = F.of_int64 y.total_qty in
      let percent = F.divide (distance F x.volume quantity) quantity in
      elim (Bool-cases (F.less F.one_hundredth (distance F x.price (F.of_int64 y.price)))) [
        | inl far ↦
            rw (far, both_levels)
              (ap (number_on F b) (track_drift-listed _ _) ∙ add_mismatch-number b false _ r)
        | inr near ↦
            elim (Bool-cases (F.less F.zero quantity && F.less v.max_allowed_drift percent)) [
              | inl off ↦ rw (near, off, both_levels) (add_mismatch-number b true _ r)
              | inr fine ↦ rw (near, fine, both_levels) (omega arith)
            ]
      ]

  missing_level-number :
      (b : Bool) (side : Side) (price rebuilt exchange : F.Float) (r : ValidationResult F)
      → number_on F b (missing_level F side price rebuilt exchange r).mismatched_levels
        ≡ number_on F b r.mismatched_levels + weight b side
  unfolding missing_level
  missing_level-number b side price rebuilt exchange r = add_mismatch-number b true _ r

  -- The mismatches that one side adds.
  validate_side-number :
      (b : Bool) (xs : List (FeedLevel F)) (ys : List Level) (side : Side) (r : ValidationResult F)
      → number_on F b (validate_side F v xs ys side r).mismatched_levels
        ≡ number_on F b r.mismatched_levels
          + (if is_buy side
              then (if b then misses xs ys else 0)
              else (if b then 0 else misses xs ys))
  unfolding validate_side misses
  validate_side-number b [] [] side r = ground arith
  validate_side-number b (x ∷ xs) [] side r =
      let next = missing_level F side F.zero x.volume F.zero r in
      ground (
        arith,
        missing_level-number b side F.zero x.volume F.zero r,
        validate_side-number b xs [] side next,
      )
  validate_side-number b [] (y ∷ ys) side r =
      let next = missing_level F side (F.of_int64 y.price) F.zero (F.of_int64 y.total_qty) r in
      ground (
        arith,
        missing_level-number b side (F.of_int64 y.price) F.zero (F.of_int64 y.total_qty) r,
        validate_side-number b [] ys side next,
      )
  validate_side-number b (x ∷ xs) (y ∷ ys) side r = ground (
    arith,
    both_levels-number b side x y r,
    validate_side-number b xs ys side (both_levels F v side x y r),
  )

  start-IsCounted : IsCounted F (no_mismatch F)
  unfolding number_on
  start-IsCounted = record {
    bids = sym (wrap-id (pos 0) (omega arith, omega arith));
    asks = sym (wrap-id (pos 0) (omega arith, omega arith));
  }

  -- The counts of both sides.
  pub validate_levels-mismatches :
      (rebuilt : Snapshot F) (exchange : ExchangeSnapshot)
      → length rebuilt.bids + length exchange.bids < 2 ^ 63
      → length rebuilt.asks + length exchange.asks < 2 ^ 63
      → (let r = validate_levels F v rebuilt exchange in
          (r.bid_mismatch ≡ pos (misses rebuilt.bids exchange.bids))
          × (r.ask_mismatch ≡ pos (misses rebuilt.asks exchange.asks))
          × (r.valid ≡ (
              side_matches rebuilt.bids exchange.bids && side_matches rebuilt.asks exchange.asks)))
  unfolding validate_levels number_on
  validate_levels-mismatches rebuilt exchange room room' =
      let bids = validate_side F v rebuilt.bids exchange.bids buy (no_mismatch F) in
      let r = validate_side F v rebuilt.asks exchange.asks sell bids in
      let first = validate_side-IsCounted F v rebuilt.bids exchange.bids buy _ start-IsCounted in
      let c = validate_side-IsCounted F v rebuilt.asks exchange.asks sell bids first in
      let bid_count : r.bid_mismatch ≡ pos (misses rebuilt.bids exchange.bids) = ground (
        arith,
        c.bids,
        validate_side-number true rebuilt.bids exchange.bids buy (no_mismatch F),
        validate_side-number true rebuilt.asks exchange.asks sell bids,
        misses_bound rebuilt.bids exchange.bids,
        wrap-id (pos (misses rebuilt.bids exchange.bids)),
      ) in
      let ask_count : r.ask_mismatch ≡ pos (misses rebuilt.asks exchange.asks) = ground (
        arith,
        c.asks,
        validate_side-number false rebuilt.bids exchange.bids buy (no_mismatch F),
        validate_side-number false rebuilt.asks exchange.asks sell bids,
        misses_bound rebuilt.asks exchange.asks,
        wrap-id (pos (misses rebuilt.asks exchange.asks)),
      ) in
      (
        ground (arith, bid_count),
        ground (arith, ask_count),
        ground (
          arith,
          bid_count,
          ask_count,
          validate_side-valid F v rebuilt.bids exchange.bids buy (no_mismatch F),
          validate_side-valid F v rebuilt.asks exchange.asks sell bids,
          side_matches-misses rebuilt.bids exchange.bids,
          side_matches-misses rebuilt.asks exchange.asks,
        ),
      )

  -- A result of Validate counts for each side the levels that do not match, with those that one
  -- snapshot lacks, and is valid exactly if on both sides there are as many levels and each
  -- matches: its price within 0.01, and its quantity within the allowed drift unless the
  -- exchange's is not positive. On each side the two snapshots have less than 2^63 levels
  -- together.
  pub validate-mismatches :
      (rebuilt : Snapshot F) (exchange : ExchangeSnapshot) (r : ValidationResult F)
      → length rebuilt.bids + length exchange.bids < 2 ^ 63
      → length rebuilt.asks + length exchange.asks < 2 ^ 63
      → validate F v (some rebuilt) (some exchange) ≡ success r
      → (r.bid_mismatch ≡ pos (misses rebuilt.bids exchange.bids))
        × (r.ask_mismatch ≡ pos (misses rebuilt.asks exchange.asks))
        × (r.valid
            ≡ (side_matches rebuilt.bids exchange.bids && side_matches rebuilt.asks exchange.asks))
  unfolding validate
  validate-mismatches rebuilt exchange r room room' done =
      let same : validate_levels F v rebuilt exchange ≡ r = ground arith in
      rw same at (validate_levels-mismatches rebuilt exchange room room')
