-- ===== src/Broker/Snapshots/Orders.antt =====
-- broker/snapshot.go: the orders that a snapshot is generated from.
use mathlib.Core.List.{append_assoc, append-nil}
use fin_kit.Prelude.{
  ℕ, ◌≡◌, sym, ◌∙◌, Option, none, some, List, [], ◌∷◌, ◌++◌, map, arith, if◌then◌else◌, ◌^◌, ◌%◌,
  Outcome, success, failure, String,
}
use fin_kit.Prelude.Int.{ℤ, pos, pos_part, ltb_ℤ}
use fin_kit.Core.{Float64, Time, PriceLevel, FeedSide, bid, ask, FeedOrder, Feed}
use fin_kit.Broker.Types.{negative_top_n, tick_size_not_positive, generator}
use fin_kit.Broker.Snapshots.{append_levels, build_snapshot}

-- The levels that are not nil.
unfoldable pub present : List (Option PriceLevel) → List PriceLevel
present [] = []
present (none ∷ levels) = present levels
present (some level ∷ levels) = level ∷ present levels

abbrev pub wrapped {ℓ} : {A : Type ℓ} {E : Type 0} → (String → E) → Outcome String A → Outcome E A
wrapped f (success a) = success a
wrapped f (failure message) = failure (f message)

module _ (F : Float64) where
  -- One level at the scale of the tick size.
  abbrev pub order_at : ℕ → FeedSide → Time → F.Float → PriceLevel → FeedOrder F
  order_at symbol_id side timestamp tick_size level = record {
    symbol_id = symbol_id;
    price = F.multiply (F.of_int64 level.price) tick_size;
    volume = F.of_int64 level.total_qty;
    side = side;
    timestamp = timestamp;
  }

  append_levels-map :
      (orders : List (FeedOrder F)) (symbol_id : ℕ) (levels : List (Option PriceLevel))
      (side : FeedSide) (timestamp : Time) (tick_size : F.Float)
      → append_levels F orders symbol_id levels side timestamp tick_size
        ≡ orders ++ map (order_at symbol_id side timestamp tick_size) (present levels)
  unfolding append_levels present
  append_levels-map orders symbol_id [] side timestamp tick_size = sym (append-nil orders)
  append_levels-map orders symbol_id (none ∷ levels) side timestamp tick_size =
      append_levels-map orders symbol_id levels side timestamp tick_size
  append_levels-map orders symbol_id (some level ∷ levels) side timestamp tick_size =
      append_levels-map (orders ++ (order_at symbol_id side timestamp tick_size level ∷ []))
        symbol_id levels side timestamp tick_size
      ∙ append_assoc orders (order_at symbol_id side timestamp tick_size level ∷ []) _

  -- BuildSnapshot fails for a negative topN and for a tick size of 0 or less. Otherwise it
  -- returns what the generator makes, with topN as a uint32, of one order for each level that is
  -- not nil, bids first and each side in its order, with the level's price multiplied by the tick
  -- size and its quantity as the volume; an error of the generator is returned.
  pub build_snapshot-orders :
      (X : Feed F) (symbol_id : ℕ) (bids asks : List (Option PriceLevel)) (top_n : ℤ)
      (precision : X.PrecisionMode) (timestamp : Time) (tick_size : F.Float)
      → (let orders =
            map (order_at symbol_id bid timestamp tick_size) (present bids)
            ++ map (order_at symbol_id ask timestamp tick_size) (present asks) in
          build_snapshot F X symbol_id bids asks top_n precision timestamp tick_size ≡ (
            if ltb_ℤ top_n (pos 0)
            then failure (negative_top_n top_n)
            else if F.at_most tick_size F.zero
            then failure (tick_size_not_positive tick_size)
            else wrapped generator
                (X.generate_snapshot orders (pos_part top_n % 2 ^ 32) precision timestamp)))
  unfolding build_snapshot
  build_snapshot-orders X symbol_id bids asks top_n precision timestamp tick_size = ground (
    arith,
    append_levels-map [] symbol_id bids bid timestamp tick_size,
    append_levels-map (append_levels F [] symbol_id bids bid timestamp tick_size) symbol_id asks ask
        timestamp tick_size,
  )
