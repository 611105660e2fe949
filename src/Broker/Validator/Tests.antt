-- ===== src/Broker/Validator/Tests.antt =====
-- Runs of broker/validator.go, with fractions in place of float64.
use fin_kit.Prelude.{
  ◌≡◌, refl, ◌&&◌, true, false, some, List, [], ◌∷◌, map, success, failure, length, arith,
}
use fin_kit.Prelude.Int.{ℤ, pos, ◌*ℤ◌, ◌-ℤ◌}
use fin_kit.Prelude.Int64.{add64, sub64}
use fin_kit.Core.{PriceLevel, Snapshot}
use fin_kit.Core.Samples.{fractions, fractions-IsFloat}
use fin_kit.Broker.Snapshots.{append_levels}
use fin_kit.Broker.Types.{Level, ExchangeSnapshot, symbol_mismatch}
use fin_kit.Broker.Validator.{OrderBookValidator, validate, validate_levels, validate_quick}
use fin_kit.Broker.Validator.Matching.{misses, side_matches, validate-mismatches}
use fin_kit.Broker.Validator.Scale.{converted, all_steady, validate-append_levels}

-- A drift of 0.001.
abbrev validator : OrderBookValidator fractions
validator = record { max_allowed_drift = (pos 1, pos 1000) }

abbrev level : ℤ → ℤ → Level
level price quantity = record { price = price; total_qty = quantity }

abbrev exchange : ExchangeSnapshot
exchange = record {
  symbol_id = 7;
  bids = level (pos 100) (pos 10) ∷ level (pos 99) (pos 20) ∷ [];
  asks = level (pos 102) (pos 5) ∷ [];
  timestamp = pos 1;
}

-- The same levels, their prices multiplied by a tick size.
abbrev at_tick : fractions.Float → Snapshot fractions
at_tick tick_size = record {
  symbol_id = 7;
  bids = map (converted fractions tick_size) exchange.bids;
  asks = map (converted fractions tick_size) exchange.asks;
  spread = (pos 2, pos 1);
}

abbrev unscaled : Snapshot fractions
unscaled = at_tick fractions.one

-- One bid has another quantity, and the other is not there.
abbrev behind : Snapshot fractions
behind = record unscaled {
  bids = record { price = (pos 100, pos 1); volume = (pos 9, pos 1) } ∷ [];
}

behind-validate_levels :
    (let r = validate_levels fractions validator behind exchange in
      (r.valid ≡ false)
      × (r.bid_mismatch ≡ pos 2)
      × (r.ask_mismatch ≡ pos 0)
      × (length r.mismatched_levels ≡ 2))
unfolding validate_levels ◌*ℤ◌ ◌-ℤ◌ add64
behind-validate_levels = (refl, refl, refl, refl)

other_symbol-validate :
    validate fractions validator (some (record unscaled { symbol_id = 8 })) (some exchange)
    ≡ failure (symbol_mismatch 8 7)
unfolding validate
other_symbol-validate = refl

unscaled-validate_quick :
    (validate_quick fractions (some unscaled) (some exchange) ≡ true)
    × (validate_quick fractions (some behind) (some exchange) ≡ false)
unfolding validate_quick ◌*ℤ◌ ◌-ℤ◌ sub64
unscaled-validate_quick = (refl, refl)

behind-validate :
    validate fractions validator (some behind) (some exchange)
    ≡ success (validate_levels fractions validator behind exchange)
unfolding validate
behind-validate = refl

scaled-validate :
    validate fractions validator (some (at_tick (pos 1, pos 100))) (some exchange)
    ≡ success (validate_levels fractions validator (at_tick (pos 1, pos 100)) exchange)
unfolding validate
scaled-validate = refl

validate-mismatches_example :
    (let r = validate_levels fractions validator behind exchange in
      (r.bid_mismatch ≡ pos (misses fractions validator behind.bids exchange.bids))
      × (r.ask_mismatch ≡ pos (misses fractions validator behind.asks exchange.asks))
      × (r.valid ≡ (
          side_matches fractions validator behind.bids exchange.bids
          && side_matches fractions validator behind.asks exchange.asks)))
validate-mismatches_example =
    validate-mismatches fractions validator behind exchange
      (validate_levels fractions validator behind exchange) (omega arith) (omega arith)
      behind-validate

low_drift : fractions.less validator.max_allowed_drift fractions.zero ≡ false
unfolding ◌*ℤ◌
low_drift = refl

unscaled-validate :
    validate fractions validator (some unscaled) (some exchange)
    ≡ success (validate_levels fractions validator unscaled exchange)
unfolding validate
unscaled-validate = refl

unscaled-valid : (validate_levels fractions validator unscaled exchange).valid ≡ true
unfolding validate_levels ◌*ℤ◌ ◌-ℤ◌
unscaled-valid = refl

abbrev price_level : ℤ → ℤ → PriceLevel
price_level price quantity = record {
  address = 1;
  price = price;
  total_qty = quantity;
  order_count = pos 1;
  head = [];
}

abbrev bid_levels : List PriceLevel
bid_levels = price_level (pos 100) (pos 10) ∷ price_level (pos 99) (pos 20) ∷ []

abbrev ask_levels : List PriceLevel
ask_levels = price_level (pos 102) (pos 5) ∷ []

-- A hundredth: the rebuilt snapshot has the best bid at 1.00, not at 100.
validate-append_levels_example :
    (validate_levels fractions validator (at_tick (pos 1, pos 100)) exchange).valid ≡ (
      all_steady fractions (pos 1, pos 100) exchange.bids
      && all_steady fractions (pos 1, pos 100) exchange.asks)
unfolding append_levels
validate-append_levels_example =
    validate-append_levels fractions fractions-IsFloat validator (pos 1, pos 100) (pos 1) bid_levels
      ask_levels (at_tick (pos 1, pos 100)) exchange
      (validate_levels fractions validator (at_tick (pos 1, pos 100)) exchange) low_drift refl refl
      refl refl (omega arith) (omega arith) scaled-validate

a_hundredth-all_steady : all_steady fractions (pos 1, pos 100) exchange.bids ≡ false
unfolding all_steady ◌*ℤ◌ ◌-ℤ◌
a_hundredth-all_steady = refl
