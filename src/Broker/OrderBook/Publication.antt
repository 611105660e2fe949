-- ===== src/Broker/OrderBook/Publication.antt =====
-- broker/broker_orderbook.go, GetSnapshot: where a snapshot comes from and who receives it.
use fin_kit.Prelude.{◌≡◌, arith, Option-cases, Outcome-cases, inl, inr, success}
use fin_kit.Prelude.Int.{ℤ}
use fin_kit.Core.{CoreBook, Float64, Time, Snapshot, Feed, Subscribers}
use fin_kit.Broker.Metrics.{record_snapshot}
use fin_kit.Broker.Publisher.{publish}
use fin_kit.Broker.Publisher.Delivery.{deliver, publish_to-deliver}
use fin_kit.Broker.Snapshots.{build_snapshot, build_and_publish}
use fin_kit.Broker.OrderBook.{BrokerOrderBook, get_snapshot}

module _ (F : Float64) (C : CoreBook) (N : Subscribers F) (X : Feed F) where
  -- A snapshot of the best levels of `b`, which every subscriber has received, in their order, and
  -- which is counted.
  pub record Published (b b' : BrokerOrderBook F C N) (w w' : N.World) (top_n : ℤ)
      (precision : X.PrecisionMode) (now : Time) (s : Snapshot F) : Type 0 where
    pub built :
        build_snapshot F X
          (C.symbol_id b.core_book)
          (C.get_top_n_bids b.core_book top_n)
          (C.get_top_n_asks b.core_book top_n)
          top_n
          precision
          now
          b.tick_size
        ≡ success s
    pub received : w' ≡ deliver F N b.snapshot.publisher.subscribers s w
    pub counted : b' ≡ record b { metrics = record_snapshot b.metrics }

  -- A GetSnapshot that returns a snapshot without error has called every subscriber of the book
  -- with it, in the order in which they subscribed; the snapshot is what BuildSnapshot makes of
  -- the topN best levels of each side of the core book and the book's tick size, and the book
  -- changes only by counting it.
  pub get_snapshot-Published :
      (top_n : ℤ) (precision : X.PrecisionMode) (now : Time) (b : BrokerOrderBook F C N)
      (w : N.World) (s : Snapshot F)
      → (get_snapshot F C N X top_n precision now b w).2 ≡ success s
      → (let (b', w', _) = get_snapshot F C N X top_n precision now b w in
          Published b b' w w' top_n precision now s)
  unfolding get_snapshot build_and_publish publish
  get_snapshot-Published top_n precision now b w s done =
      let built =
        build_snapshot F X (C.symbol_id b.core_book) (C.get_top_n_bids b.core_book top_n)
          (C.get_top_n_asks b.core_book top_n) top_n precision now b.tick_size in
      elim (Outcome-cases built) [
        | inr (e, failed) ↦ absurd (ground arith)
        | inl (s', fine) ↦ elim (Option-cases (publish F N s' b.snapshot.publisher w).1) [
          | inr (e, failed) ↦ absurd (ground arith)
          | inl delivered ↦ record {
            built = ground arith;
            received =
                ground
                  (arith, publish_to-deliver F N b.snapshot.publisher.subscribers s' w delivered);
            counted = ground arith;
          }
        ]
      ]
