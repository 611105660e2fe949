-- ===== src/Broker/Snapshots.antt =====
-- broker/snapshot.go: snapshots built from price levels, and published.
pub mod Orders
mod Tests
use fin_kit.Prelude.{
  ℕ, Option, none, some, List, [], ◌∷◌, ◌++◌, if◌then◌else◌, ◌^◌, ◌%◌, Outcome, success, failure,
}
use fin_kit.Prelude.Int.{ℤ, pos, pos_part, ltb_ℤ}
use fin_kit.Core.{
  Float64, Time, PriceLevel, FeedSide, bid, ask, FeedOrder, Snapshot, Feed, Subscribers,
}
use fin_kit.Broker.Types.{Error, negative_top_n, tick_size_not_positive, generator}
use fin_kit.Broker.Publisher.{
  SnapshotPublisher, new_snapshot_publisher, subscribe as publisher_subscribe, publish,
}

module _ (F : Float64) where
  unfoldable pub append_levels :
      List (FeedOrder F)
      → ℕ
      → List (Option PriceLevel)
      → FeedSide
      → Time
      → F.Float
      → List (FeedOrder F)
  append_levels orders symbol_id [] side timestamp tick_size = orders
  append_levels orders symbol_id (none ∷ levels) side timestamp tick_size =
      append_levels orders symbol_id levels side timestamp tick_size
  append_levels orders symbol_id (some level ∷ levels) side timestamp tick_size =
      append_levels
        (orders
          ++ (record {
            symbol_id = symbol_id;
            price = F.multiply (F.of_int64 level.price) tick_size;
            volume = F.of_int64 level.total_qty;
            side = side;
            timestamp = timestamp;
          }
              ∷ []))
        symbol_id levels side timestamp tick_size

  pub record SnapshotBuilder (N : Subscribers F) : Type 0 where
    pub publisher : SnapshotPublisher F N

  abbrev pub new_snapshot_builder : (N : Subscribers F) → SnapshotBuilder N
  new_snapshot_builder N = record { publisher = new_snapshot_publisher F N }

  unfoldable pub subscribe :
      (N : Subscribers F)
      → Option N.Subscriber
      → SnapshotBuilder N
      → SnapshotBuilder N × Option (Error F.Float)
  subscribe N subscriber sb =
      let (publisher, failed) = publisher_subscribe F N subscriber sb.publisher in
      (record sb { publisher = publisher }, failed)

  module _ (X : Feed F) where
    -- `topN` is not negative where it is converted to uint32.
    unfoldable pub build_snapshot :
        ℕ
        → List (Option PriceLevel)
        → List (Option PriceLevel)
        → ℤ
        → X.PrecisionMode
        → Time
        → F.Float
        → Outcome (Error F.Float) (Snapshot F)
    unfolding append_levels
    build_snapshot symbol_id bids asks top_n precision timestamp tick_size =
        if ltb_ℤ top_n (pos 0)
        then failure (negative_top_n top_n)
        else if F.at_most tick_size F.zero
        then failure (tick_size_not_positive tick_size)
        else (let with_bids = append_levels [] symbol_id bids bid timestamp tick_size in
            let orders = append_levels with_bids symbol_id asks ask timestamp tick_size in
            elim (X.generate_snapshot orders (pos_part top_n % 2 ^ 32) precision timestamp) [
              | success snapshot ↦ success snapshot
              | failure message ↦ failure (generator message)
            ])

    module _ (N : Subscribers F) where
      unfoldable pub build_and_publish :
          ℕ
          → List (Option PriceLevel)
          → List (Option PriceLevel)
          → ℤ
          → X.PrecisionMode
          → Time
          → F.Float
          → SnapshotBuilder N
          → N.World
          → N.World × Outcome (Error F.Float) (Snapshot F)
      unfolding build_snapshot publish
      build_and_publish symbol_id bids asks top_n precision timestamp tick_size sb w =
          elim (build_snapshot symbol_id bids asks top_n precision timestamp tick_size) [
            | failure e ↦ (w, failure e)
            | success snapshot ↦
                let (w', failed) = publish F N snapshot sb.publisher w in
                elim failed [ none ↦ (w', success snapshot) | some e ↦ (w', failure e) ]
          ]
