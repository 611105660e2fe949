-- ===== src/Broker/OrderBook/Quantities/Runs.antt =====
-- broker/broker_orderbook.go: sequences of calls, those that fail included, and positive quantities.
use fin_kit.Prelude.{
  ℕ, ◌≡◌, refl, Bool, true, ◌&&◌, Option, none, some, List, [], ◌∷◌, String, arith, nat_eqb,
  Bool-cases, inl, inr,
}
use fin_kit.Prelude.Int.{ℤ, pos, leb_ℤ}
use fin_kit.Core.{CoreBook, IsBook, Float64, Subscribers, Time}
use fin_kit.Broker.Types.{Error}
use fin_kit.Broker.OrderBook.{
  BrokerOrderBook, apply_increment, apply_trade, rebuild, conclude, on_order_increment, on_trade,
  on_snapshot, new_broker_order_book,
}
use fin_kit.Broker.OrderBook.Counting.{Event, increment, trade, snapshot, respond, run}
use fin_kit.Broker.OrderBook.Quantities.{
  AllSound, is_sound_increment, levels_fit, sound, apply_increment-AllSound, apply_trade-AllSound,
  rebuild-AllSound,
}

-- A message whose quantities are as an exchange sends them: positive in an insertion and in a
-- modification, not negative in a trade, int64 in a snapshot.
abbrev pub is_sound_event : Event → Bool
is_sound_event (increment none) = true
is_sound_event (increment (some inc)) = is_sound_increment inc
is_sound_event (trade none) = true
is_sound_event (trade (some t)) = leb_ℤ (pos 0) t.quantity
is_sound_event (snapshot none) = true
is_sound_event (snapshot (some snap)) = levels_fit snap.bids && levels_fit snap.asks

abbrev pub all_sound : List (Event × Time) → Bool
all_sound [] = true
all_sound ((e, now) ∷ es) = is_sound_event e && all_sound es

module _ (F : Float64) (C : CoreBook) (N : Subscribers F) (B : IsBook C) where
  conclude-AllSound :
      (now : Time) (result : C.Book × Option (Error F.Float)) (b : BrokerOrderBook F C N)
      → AllSound C result.0
      → AllSound C (conclude F C N now result b).0.core_book
  unfolding conclude
  conclude-AllSound now (book, none) b h = h
  conclude-AllSound now (book, some e) b h = h

  respond-AllSound :
      (e : Event) (now : Time) (b : BrokerOrderBook F C N)
      → AllSound C b.core_book
      → is_sound_event e ≡ true
      → AllSound C (respond F C N e now b).0.core_book
  unfolding respond on_order_increment on_trade on_snapshot
  respond-AllSound (increment none) now b h good = h
  respond-AllSound (increment (some inc)) now b h good =
      conclude-AllSound now (apply_increment F C inc b.core_book) b
        (apply_increment-AllSound F C B inc b.core_book inc.kind refl h good)
  respond-AllSound (trade none) now b h good = h
  respond-AllSound (trade (some t)) now b h good =
      conclude-AllSound now (apply_trade F C t b.core_book) b
        (apply_trade-AllSound F C B t b.core_book h good)
  respond-AllSound (snapshot none) now b h good = h
  respond-AllSound (snapshot (some snap)) now b h good =
      elim (Bool-cases (nat_eqb snap.symbol_id (C.symbol_id b.core_book))) [
        | inl same ↦
            rw (same, on_snapshot)
              (conclude-AllSound now (rebuild F C snap b.core_book) b
                (rebuild-AllSound F C B snap b.core_book good))
        | inr other ↦ rw (other, on_snapshot) h
      ]

  run-AllSound :
      (es : List (Event × Time)) (b : BrokerOrderBook F C N)
      → AllSound C b.core_book
      → all_sound es ≡ true
      → AllSound C (run F C N es b).0.core_book
  unfolding run
  run-AllSound [] b h good = h
  run-AllSound ((e, now) ∷ es) b h good =
      run-AllSound es (respond F C N e now b).0 (respond-AllSound e now b h (ground arith))
        (ground arith)

  -- From a new book, after any sequence of calls of OnOrderIncrement, OnTrade and OnSnapshot,
  -- failed ones included, every order of the core book has a positive int64 quantity, where the
  -- quantities of insertions and modifications are positive int64, those of trades are not
  -- negative and those of snapshots are int64. The core book keeps its laws.
  pub run-new-AllSound :
      (symbol : String) (symbol_id : ℕ) (tick_size : F.Float) (es : List (Event × Time)) (j : ℤ)
      → all_sound es ≡ true
      → (let (b, _) = run F C N es (new_broker_order_book F C N symbol symbol_id tick_size) in
          sound (C.get_order_details b.core_book j) ≡ true)
  unfolding new_broker_order_book
  run-new-AllSound symbol symbol_id tick_size es j good =
      run-AllSound es (new_broker_order_book F C N symbol symbol_id tick_size)
        (λ i. ground (arith, B.new_details symbol symbol_id none i)) good j
