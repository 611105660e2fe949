-- ===== src/Broker/Validator.antt =====
-- broker/validator.go: a rebuilt snapshot compared with the exchange's.
pub mod Counts
pub mod Validity
pub mod Matching
pub mod Scale
mod Tests
use fin_kit.Prelude.{
  Bool, true, false, ◌&&◌, ◌||◌, not, Option, none, some, List, [], ◌∷◌, ◌++◌, if◌then◌else◌,
  nat_eqb, length, Outcome, success, failure,
}
use fin_kit.Prelude.Int.{ℤ, pos, ltb_ℤ}
use fin_kit.Prelude.Int64.{add64, sub64}
use fin_kit.Core.{Side, buy, sell, is_buy, Float64, FeedLevel, Snapshot}
use fin_kit.Broker.Types.{
  Level, ExchangeSnapshot, Error, nil_rebuilt, nil_exchange, symbol_mismatch,
}

module _ (F : Float64) where
  open F use {Float, zero, one_hundredth, one, of_int64, add, subtract, divide, absolute, less}

  pub record OrderBookValidator : Type 0 where
    pub max_allowed_drift : Float

  -- broker/types.go, LevelMismatch.
  pub record LevelMismatch : Type 0 where
    pub side : Side
    pub price : Float
    pub rebuilt_qty : Float
    pub exchange_qty : Float
    pub quantity_diff : Float
    pub percentage_diff : Float

  -- broker/types.go, ValidationResult.
  pub record ValidationResult : Type 0 where
    pub valid : Bool
    pub bid_mismatch : ℤ
    pub ask_mismatch : ℤ
    pub total_bid_diff : Float
    pub total_ask_diff : Float
    pub max_price_drift : Float
    pub mismatched_levels : List LevelMismatch

  abbrev pub distance : Float → Float → Float
  distance a b = absolute (subtract a b)

  -- A mismatch joins the result, and counts on its side; so does its quantity, if `counted`.
  unfoldable pub add_mismatch : Bool → LevelMismatch → ValidationResult → ValidationResult
  add_mismatch counted m r =
      let listed = record r { mismatched_levels = r.mismatched_levels ++ (m ∷ []) } in
      if is_buy m.side
      then record listed {
        bid_mismatch = add64 r.bid_mismatch (pos 1);
        total_bid_diff = if counted then add r.total_bid_diff m.quantity_diff else r.total_bid_diff;
      }
      else record listed {
        ask_mismatch = add64 r.ask_mismatch (pos 1);
        total_ask_diff = if counted then add r.total_ask_diff m.quantity_diff else r.total_ask_diff;
      }

  unfoldable pub track_drift : Float → ValidationResult → ValidationResult
  track_drift drift r =
      if less r.max_price_drift drift then record r { max_price_drift = drift } else r

  -- A level that one of the snapshots does not have; its price and quantity there are 0.
  unfoldable pub missing_level : Side → Float → Float → Float → ValidationResult → ValidationResult
  unfolding add_mismatch
  missing_level side price rebuilt_qty exchange_qty r =
      let diff = distance rebuilt_qty exchange_qty in
      add_mismatch true
        (record {
          side = side;
          price = price;
          rebuilt_qty = rebuilt_qty;
          exchange_qty = exchange_qty;
          quantity_diff = diff;
          percentage_diff = if less zero exchange_qty then divide diff exchange_qty else zero;
        })
        r

  -- A level that both snapshots have.
  unfoldable pub both_levels :
      OrderBookValidator → Side → FeedLevel F → Level → ValidationResult → ValidationResult
  unfolding add_mismatch track_drift
  both_levels v side x y r =
      let price = of_int64 y.price in
      let quantity = of_int64 y.total_qty in
      let drift = distance x.price price in
      let diff = distance x.volume quantity in
      let percent = divide diff quantity in
      let mismatch : Float → LevelMismatch = λ percentage. record {
        side = side;
        price = price;
        rebuilt_qty = x.volume;
        exchange_qty = quantity;
        quantity_diff = diff;
        percentage_diff = percentage;
      } in
      if less one_hundredth drift
      then track_drift drift (add_mismatch false (mismatch zero) r)
      else if less zero quantity && less v.max_allowed_drift percent
      then add_mismatch true (mismatch percent) r
      else r

  -- The loop over the levels of one side, up to the longer of the two lists.
  unfoldable pub validate_side :
      OrderBookValidator
      → List (FeedLevel F)
      → List Level
      → Side
      → ValidationResult
      → ValidationResult
  unfolding missing_level both_levels
  validate_side v [] [] side r = r
  validate_side v (x ∷ xs) [] side r =
      validate_side v xs [] side (missing_level side zero x.volume zero r)
  validate_side v [] (y ∷ ys) side r =
      validate_side v [] ys side
        (missing_level side (of_int64 y.price) zero (of_int64 y.total_qty) r)
  validate_side v (x ∷ xs) (y ∷ ys) side r = validate_side v xs ys side (both_levels v side x y r)

  abbrev pub no_mismatch : ValidationResult
  no_mismatch = record {
    valid = true;
    bid_mismatch = pos 0;
    ask_mismatch = pos 0;
    total_bid_diff = zero;
    total_ask_diff = zero;
    max_price_drift = zero;
    mismatched_levels = [];
  }

  -- Both sides, and then the verdict.
  unfoldable pub validate_levels :
      OrderBookValidator → Snapshot F → ExchangeSnapshot → ValidationResult
  unfolding validate_side
  validate_levels v rebuilt exchange =
      let bids = validate_side v rebuilt.bids exchange.bids buy no_mismatch in
      let r = validate_side v rebuilt.asks exchange.asks sell bids in
      if ltb_ℤ (pos 0) r.bid_mismatch || ltb_ℤ (pos 0) r.ask_mismatch
      then record r { valid = false }
      else r

  unfoldable pub validate :
      OrderBookValidator
      → Option (Snapshot F)
      → Option ExchangeSnapshot
      → Outcome (Error Float) ValidationResult
  unfolding validate_levels
  validate v none exchange = failure nil_rebuilt
  validate v (some rebuilt) none = failure nil_exchange
  validate v (some rebuilt) (some exchange) =
      if nat_eqb rebuilt.symbol_id exchange.symbol_id
      then success (validate_levels v rebuilt exchange)
      else failure (symbol_mismatch rebuilt.symbol_id exchange.symbol_id)

  -- Is the spread within 1.0 of the exchange's? It is not asked where a side is empty.
  unfoldable pub spread_agrees : Snapshot F → List Level → List Level → Bool
  spread_agrees rebuilt [] asks = true
  spread_agrees rebuilt (b ∷ bids) [] = true
  spread_agrees rebuilt (b ∷ bids) (a ∷ asks) =
      not (less one (distance rebuilt.spread (of_int64 (sub64 a.price b.price))))

  -- The receiver is not read.
  unfoldable pub validate_quick : Option (Snapshot F) → Option ExchangeSnapshot → Bool
  unfolding spread_agrees
  validate_quick none exchange = false
  validate_quick (some rebuilt) none = false
  validate_quick (some rebuilt) (some exchange) =
      if not (nat_eqb rebuilt.symbol_id exchange.symbol_id)
      then false
      else if not (
          nat_eqb (length rebuilt.bids) (length exchange.bids)
          && nat_eqb (length rebuilt.asks) (length exchange.asks))
      then false
      else spread_agrees rebuilt exchange.bids exchange.asks
