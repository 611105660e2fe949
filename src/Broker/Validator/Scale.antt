-- ===== src/Broker/Validator/Scale.antt =====
-- broker/validator.go against broker/snapshot.go: the one compares prices as the exchange counts them,
-- the other multiplies them by the tick size.
use mathlib.Core.List.{append_assoc, append-nil, map-append}
use fin_kit.Prelude.{
  ℕ, ◌+◌, ◌^◌, ◌<◌, ◌≡◌, refl, sym, ◌∙◌, ap, Bool, true, false, not, ◌&&◌, List, [], ◌∷◌, ◌++◌, map,
  arith, some, success, length,
}
use fin_kit.Core.{
  Float64, IsFloat, Time, PriceLevel, FeedSide, bid, ask, FeedOrder, FeedLevel, Snapshot,
}
use fin_kit.Broker.Types.{Level, ExchangeSnapshot}
use fin_kit.Broker.Snapshots.{append_levels}
use fin_kit.Broker.Validator.{
  OrderBookValidator, ValidationResult, validate, validate_levels, distance,
}
use fin_kit.Broker.Validator.Matching.{
  side_matches, validate-mismatches, validate_levels-mismatches,
}

-- A core book's level, as an exchange's snapshot has it.
abbrev pub level_of : PriceLevel → Level
level_of l = record { price = l.price; total_qty = l.total_qty }

module _ (F : Float64) where
  -- A level with its price multiplied by the tick size.
  abbrev pub converted : F.Float → Level → FeedLevel F
  converted tick_size l = record {
    price = F.multiply (F.of_int64 l.price) tick_size;
    volume = F.of_int64 l.total_qty;
  }

  -- The level of one order.
  abbrev pub quoted : FeedOrder F → FeedLevel F
  quoted o = record { price = o.price; volume = o.volume }

  append_levels-quoted :
      (orders : List (FeedOrder F)) (symbol_id : ℕ) (ls : List PriceLevel) (side : FeedSide)
      (timestamp : Time) (tick_size : F.Float)
      → map quoted (append_levels F orders symbol_id (map some ls) side timestamp tick_size)
        ≡ map quoted orders ++ map (converted tick_size) (map level_of ls)
  unfolding append_levels
  append_levels-quoted orders symbol_id [] side timestamp tick_size =
      sym (append-nil (map quoted orders))
  append_levels-quoted orders symbol_id (l ∷ ls) side timestamp tick_size =
      append_levels-quoted (orders ++ (o ∷ [])) symbol_id ls side timestamp tick_size
      ∙ ap (λ front. front ++ map (converted tick_size) (map level_of ls))
          (map-append quoted orders (o ∷ []))
      ∙ append_assoc (map quoted orders) (converted tick_size (level_of l) ∷ [])
          (map (converted tick_size) (map level_of ls))
    where
      o : FeedOrder F
      o = record {
        symbol_id = symbol_id;
        price = F.multiply (F.of_int64 l.price) tick_size;
        volume = F.of_int64 l.total_qty;
        side = side;
        timestamp = timestamp;
      }

  -- The tick size moves the price by 0.01 at most.
  abbrev pub steady : F.Float → Level → Bool
  steady tick_size l = not (
      F.less F.one_hundredth
        (distance F (F.multiply (F.of_int64 l.price) tick_size) (F.of_int64 l.price)))

  unfoldable pub all_steady : F.Float → List Level → Bool
  all_steady tick_size [] = true
  all_steady tick_size (l ∷ ls) = steady tick_size l && all_steady tick_size ls

module _ (F : Float64) (L : IsFloat F) where
  side_matches-converted :
      (v : OrderBookValidator F) (tick_size : F.Float) (ls : List Level)
      → F.less v.max_allowed_drift F.zero ≡ false
      → side_matches F v (map (converted F tick_size) ls) ls ≡ all_steady F tick_size ls
  unfolding side_matches all_steady
  side_matches-converted v tick_size [] drift = refl
  side_matches-converted v tick_size (l ∷ ls) drift = ground (
    arith,
    side_matches-converted v tick_size ls drift,
    L.subtract_self l.total_qty,
    L.zero_share v.max_allowed_drift l.total_qty,
  )

  all_steady-one : (ls : List Level) → all_steady F F.one ls ≡ true
  unfolding all_steady
  all_steady-one [] = refl
  all_steady-one (l ∷ ls) = ground (
    arith,
    all_steady-one ls,
    L.multiply-one l.price,
    L.subtract_self l.price,
    L.one_hundredth_positive,
  )

  -- For a snapshot whose sides have the prices and the volumes of the orders that appendLevels
  -- makes of the exchange's own levels, the verdict of Validate is whether the multiplication by
  -- the tick size moves no price by more than 0.01: a book that agrees with the exchange is not
  -- valid if it moves one. The symbols agree where Validate gives a verdict, the allowed drift is
  -- not negative, on each side the two snapshots have less than 2^63 levels together, and the
  -- float64 operations keep their laws.
  pub validate-append_levels :
      (v : OrderBookValidator F) (tick_size : F.Float) (timestamp : Time)
      (bids asks : List PriceLevel) (rebuilt : Snapshot F) (exchange : ExchangeSnapshot)
      (r : ValidationResult F)
      → F.less v.max_allowed_drift F.zero ≡ false
      → exchange.bids ≡ map level_of bids
      → exchange.asks ≡ map level_of asks
      → rebuilt.bids
        ≡ map
            (quoted F)
            (append_levels F [] rebuilt.symbol_id (map some bids) bid timestamp tick_size)
      → rebuilt.asks
        ≡ map
            (quoted F)
            (append_levels F [] rebuilt.symbol_id (map some asks) ask timestamp tick_size)
      → length rebuilt.bids + length exchange.bids < 2 ^ 63
      → length rebuilt.asks + length exchange.asks < 2 ^ 63
      → validate F v (some rebuilt) (some exchange) ≡ success r
      → r.valid ≡ (all_steady F tick_size exchange.bids && all_steady F tick_size exchange.asks)
  validate-append_levels v tick_size timestamp bids asks rebuilt exchange r drift bid_levels
        ask_levels built_bids built_asks room room' done =
      let (_, _, verdict) = validate-mismatches F v rebuilt exchange r room room' done in
      let bids_match : side_matches F v rebuilt.bids exchange.bids
          ≡ all_steady F tick_size exchange.bids =
        rw
          (
            built_bids,
            append_levels-quoted F [] rebuilt.symbol_id bids bid timestamp tick_size,
            bid_levels,
          )
          (side_matches-converted v tick_size (map level_of bids) drift) in
      let asks_match : side_matches F v rebuilt.asks exchange.asks
          ≡ all_steady F tick_size exchange.asks =
        rw
          (
            built_asks,
            append_levels-quoted F [] rebuilt.symbol_id asks ask timestamp tick_size,
            ask_levels,
          )
          (side_matches-converted v tick_size (map level_of asks) drift) in
      ground (arith, verdict, bids_match, asks_match)

  -- Validate calls a snapshot valid whose levels are the exchange's own at a tick size of 1,
  -- where the symbol is the same and the allowed drift is not negative. On each side the two
  -- snapshots have less than 2^63 levels together, and the float64 operations keep their laws.
  pub validate-unscaled :
      (v : OrderBookValidator F) (rebuilt : Snapshot F) (exchange : ExchangeSnapshot)
      → F.less v.max_allowed_drift F.zero ≡ false
      → rebuilt.symbol_id ≡ exchange.symbol_id
      → rebuilt.bids ≡ map (converted F F.one) exchange.bids
      → rebuilt.asks ≡ map (converted F F.one) exchange.asks
      → length rebuilt.bids + length exchange.bids < 2 ^ 63
      → length rebuilt.asks + length exchange.asks < 2 ^ 63
      → (r : ValidationResult F) × (validate F v (some rebuilt) (some exchange) ≡ success r)
        × (r.valid ≡ true)
  unfolding validate
  validate-unscaled v rebuilt exchange drift same bids asks room room' =
      let r = validate_levels F v rebuilt exchange in
      let (_, _, verdict) = validate_levels-mismatches F v rebuilt exchange room room' in
      let bids_match : side_matches F v rebuilt.bids exchange.bids ≡ true =
        rw bids
          (side_matches-converted v F.one exchange.bids drift ∙ all_steady-one exchange.bids) in
      let asks_match : side_matches F v rebuilt.asks exchange.asks ≡ true =
        rw asks
          (side_matches-converted v F.one exchange.asks drift ∙ all_steady-one exchange.asks) in
      (r, ground (arith, same), ground (arith, verdict, bids_match, asks_match))
