-- ===== src/Broker/OrderBook/Counting.antt =====
-- broker/broker_orderbook.go, broker/metrics.go: the metrics count the calls that succeed.
use fin_kit.Prelude.{
  ℕ, suc, ◌≡◌, refl, sym, Option, none, some, List, [], ◌∷◌, String, arith, if◌then◌else◌, nat_eqb,
  is_some, Bool-cases, inl, inr,
}
use fin_kit.Prelude.Int.{pos}
use fin_kit.Prelude.Int64.{add64, IsInt64, add64_one, add64_nil, add64-IsInt64}
use fin_kit.Core.{CoreBook, Float64, Subscribers, Time}
use fin_kit.Broker.Types.{OrderIncrement, Trade, ExchangeSnapshot, Error}
use fin_kit.Broker.Metrics.{record_update}
use fin_kit.Broker.OrderBook.{
  BrokerOrderBook, conclude, on_order_increment, on_trade, on_snapshot, new_broker_order_book,
}

-- A message from the exchange; a nil pointer is `none`.
pub data Event : Type 0 where
  increment : Option OrderIncrement → Event
  trade : Option Trade → Event
  snapshot : Option ExchangeSnapshot → Event

module _ (F : Float64) (C : CoreBook) (N : Subscribers F) where
  unfoldable pub respond :
      Event → Time → BrokerOrderBook F C N → BrokerOrderBook F C N × Option (Error F.Float)
  respond (increment inc) now b = on_order_increment F C N inc now b
  respond (trade t) now b = on_trade F C N t now b
  respond (snapshot snap) now b = on_snapshot F C N snap now b

  -- A sequence of calls: the book, and how many of them returned no error.
  unfoldable pub run : List (Event × Time) → BrokerOrderBook F C N → BrokerOrderBook F C N × ℕ
  run [] b = (b, 0)
  run ((e, now) ∷ es) b =
      let (b', failed) = respond e now b in
      let (b'', n) = run es b' in (b'', if is_some failed then n else suc n)

  -- One call counts once if it succeeds, and not at all if it fails.
  abbrev Counts : BrokerOrderBook F C N → BrokerOrderBook F C N × Option (Error F.Float) → Type 0
  Counts b (b', failed) =
      b'.metrics.update_count
      ≡ (if is_some failed then b.metrics.update_count else add64 b.metrics.update_count (pos 1))

  conclude-Counts :
      (now : Time) (result : C.Book × Option (Error F.Float)) (b : BrokerOrderBook F C N)
      → Counts b (conclude F C N now result b)
  unfolding conclude record_update
  conclude-Counts now (book, none) b = refl
  conclude-Counts now (book, some e) b = refl

  respond-Counts : (e : Event) (now : Time) (b : BrokerOrderBook F C N) → Counts b (respond e now b)
  unfolding respond on_order_increment on_trade on_snapshot
  respond-Counts (increment none) now b = refl
  respond-Counts (increment (some inc)) now b = conclude-Counts now _ b
  respond-Counts (trade none) now b = refl
  respond-Counts (trade (some t)) now b = conclude-Counts now _ b
  respond-Counts (snapshot none) now b = refl
  respond-Counts (snapshot (some snap)) now b =
      elim (Bool-cases (nat_eqb snap.symbol_id (C.symbol_id b.core_book))) [
        | inl same ↦ rw (same, on_snapshot) (conclude-Counts now _ b)
        | inr other ↦ rw (other, on_snapshot) refl
      ]

  run-counts :
      (es : List (Event × Time)) (b : BrokerOrderBook F C N)
      → IsInt64 b.metrics.update_count
      → (let (b', n) = run es b in b'.metrics.update_count ≡ add64 b.metrics.update_count (pos n))
  unfolding run
  run-counts [] b h = sym (add64_nil b.metrics.update_count h)
  run-counts ((e, now) ∷ es) b h = ground (
    arith,
    respond-Counts e now b,
    run-counts es (respond e now b).0,
    add64-IsInt64 b.metrics.update_count (pos 1),
    add64_one b.metrics.update_count (run es (respond e now b).0).1,
  )

  -- From a new book, after any sequence of calls of OnOrderIncrement, OnTrade and OnSnapshot, nil
  -- arguments included, the metrics' update count is the number of calls that returned no error,
  -- as an int64.
  pub run-new-update_count :
      (symbol : String) (symbol_id : ℕ) (tick_size : F.Float) (es : List (Event × Time))
      → (let (b, n) = run es (new_broker_order_book F C N symbol symbol_id tick_size) in
          b.metrics.update_count ≡ add64 (pos 0) (pos n))
  unfolding new_broker_order_book
  run-new-update_count symbol symbol_id tick_size es =
      run-counts es (new_broker_order_book F C N symbol symbol_id tick_size)
        (omega arith, omega arith)
