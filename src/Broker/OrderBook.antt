-- ===== src/Broker/OrderBook.antt =====
-- broker/broker_orderbook.go: a book that follows an exchange. `now` is what time.Now returns. The
-- metrics and the snapshot builder, which only the book points to, stand in it.
pub mod Increments
pub mod Trades
pub mod Sync
pub mod Failure
pub mod Counting
pub mod Publication
pub mod Quantities
mod Tests
use fin_kit.Prelude.{
  ℕ, Option, none, some, List, [], ◌∷◌, String, if◌then◌else◌, ◌==◌, nat_eqb, Outcome, success,
  failure,
}
use fin_kit.Prelude.Int.{ℤ, pos, negsuc, int_eq, leb_ℤ}
use fin_kit.Prelude.Int64.{sub64}
use fin_kit.Core.{CoreBook, CoreOrder, Side, buy, sell, Float64, Time, Snapshot, Feed, Subscribers}
use fin_kit.Broker.Types.{
  unix_nano, order_insert, order_delete, order_modify, OrderIncrementType, OrderIncrement, Trade,
  Level, ExchangeSnapshot, Error, nil_order_increment, nil_trade, nil_snapshot, core,
  invalid_increment_type, symbol_id_mismatch, failed_to_insert_bid, failed_to_insert_ask,
}
use fin_kit.Broker.Metrics.{BrokerMetrics, new_metrics, record_update, record_snapshot}
use fin_kit.Broker.Snapshots.{
  SnapshotBuilder, new_snapshot_builder, subscribe as builder_subscribe, build_and_publish,
}

-- The virtual order of a level.
abbrev pub virtual_order : ℤ → Side → ℤ → Level → CoreOrder
virtual_order order_id side timestamp level = record {
  order_id = order_id;
  price = level.price;
  quantity = level.total_qty;
  side = side;
  timestamp = timestamp;
}

module _ (F : Float64) (C : CoreBook) where
  abbrev pub core_error : Option String → Option (Error F.Float)
  core_error none = none
  core_error (some message) = some (core message)

  -- What OnOrderIncrement does to the core book.
  unfoldable pub apply_increment : OrderIncrement → C.Book → C.Book × Option (Error F.Float)
  apply_increment inc book = elim inc.kind [
    | order_insert ↦
        let (book', failed) =
          C.insert_order
            (record {
              order_id = inc.order_id;
              price = inc.price;
              quantity = inc.quantity;
              side = inc.side;
              timestamp = inc.timestamp;
            })
            book in
        (book', core_error failed)
    | order_delete ↦
        let (book', failed) = C.delete_order inc.order_id book in (book', core_error failed)
    | order_modify ↦
        let (book', failed) = C.modify_order inc.order_id inc.quantity book in
        (book', core_error failed)
    | OrderIncrementType.unknown n ↦ (book, some (invalid_increment_type n))
  ]

  -- What OnTrade does for the order on one side; the code is the same for both.
  unfoldable pub apply_fill : ℤ → ℤ → C.Book → C.Book × Option (Error F.Float)
  apply_fill order_id quantity book =
      if order_id == pos 0 then (book, none) else elim (C.get_order_details book order_id) [
        | none ↦ (book, none)
        | some order ↦
            if leb_ℤ order.quantity quantity
            then (let (book', failed) = C.delete_order order_id book in (book', core_error failed))
            else (let (book', failed) =
                  C.modify_order order_id (sub64 order.quantity quantity) book in
                (book', core_error failed))
      ]

  unfoldable pub apply_trade : Trade → C.Book → C.Book × Option (Error F.Float)
  unfolding apply_fill
  apply_trade trade book =
      let (bought, failed) = apply_fill trade.buy_order_id trade.quantity book in
      elim failed [
        | some e ↦ (bought, some e)
        | none ↦ apply_fill trade.sell_order_id trade.quantity bought
      ]

  -- A loop over the levels of one side. It returns the next virtual ID, too.
  unfoldable pub insert_levels :
      Side → ℤ → List Level → ℤ → C.Book → C.Book × ℤ × Option (Error F.Float)
  insert_levels side timestamp [] id book = (book, id, none)
  insert_levels side timestamp (level ∷ levels) id book =
      let skipped = insert_levels side timestamp levels id book in
      if leb_ℤ level.total_qty (pos 0)
      then skipped
      else (let (book', failed) = C.insert_order (virtual_order id side timestamp level) book in
          elim failed [
            | some message ↦ (book', id, some (core message))
            | none ↦ insert_levels side timestamp levels (sub64 id (pos 1)) book'
          ])

  unfoldable pub rebuild : ExchangeSnapshot → C.Book → C.Book × Option (Error F.Float)
  unfolding insert_levels
  rebuild snap book =
      let timestamp = unix_nano snap.timestamp in
      let (bids, id, failed) = insert_levels buy timestamp snap.bids (negsuc 0) (C.clear book) in
      elim failed [
        | some e ↦ (bids, some (failed_to_insert_bid e))
        | none ↦
            let (both, _, failed') = insert_levels sell timestamp snap.asks id bids in
            elim failed' [ some e ↦ (both, some (failed_to_insert_ask e)) | none ↦ (both, none) ]
      ]

module _ (F : Float64) (C : CoreBook) (N : Subscribers F) where
  pub record BrokerOrderBook : Type 0 where
    pub core_book : C.Book
    pub metrics : BrokerMetrics
    pub snapshot : SnapshotBuilder F N
    pub tick_size : F.Float

  unfoldable pub new_broker_order_book : String → ℕ → F.Float → BrokerOrderBook
  new_broker_order_book symbol symbol_id tick_size = record {
    core_book = C.new_order_book symbol symbol_id none;
    metrics = new_metrics;
    snapshot = new_snapshot_builder F N;
    tick_size = if F.at_most tick_size F.zero then F.one_thousandth else tick_size;
  }

  -- The end of a method that changes the core book: an update is recorded if there was no error.
  unfoldable pub conclude :
      Time
      → C.Book × Option (Error F.Float)
      → BrokerOrderBook
      → BrokerOrderBook × Option (Error F.Float)
  conclude now (book, none) b =
      (record b { core_book = book; metrics = record_update now b.metrics }, none)
  conclude now (book, some e) b = (record b { core_book = book }, some e)

  unfoldable pub on_order_increment :
      Option OrderIncrement → Time → BrokerOrderBook → BrokerOrderBook × Option (Error F.Float)
  unfolding conclude apply_increment
  on_order_increment none now b = (b, some nil_order_increment)
  on_order_increment (some inc) now b = conclude now (apply_increment F C inc b.core_book) b

  unfoldable pub on_trade :
      Option Trade → Time → BrokerOrderBook → BrokerOrderBook × Option (Error F.Float)
  unfolding conclude apply_trade
  on_trade none now b = (b, some nil_trade)
  on_trade (some trade) now b = conclude now (apply_trade F C trade b.core_book) b

  unfoldable pub on_snapshot :
      Option ExchangeSnapshot → Time → BrokerOrderBook → BrokerOrderBook × Option (Error F.Float)
  unfolding conclude rebuild
  on_snapshot none now b = (b, some nil_snapshot)
  on_snapshot (some snap) now b =
      let want = C.symbol_id b.core_book in
      if nat_eqb snap.symbol_id want
      then conclude now (rebuild F C snap b.core_book) b
      else (b, some (symbol_id_mismatch snap.symbol_id want))

  unfoldable pub get_snapshot :
      (X : Feed F)
      → ℤ
      → X.PrecisionMode
      → Time
      → BrokerOrderBook
      → N.World
      → BrokerOrderBook × N.World × Outcome (Error F.Float) (Snapshot F)
  unfolding build_and_publish
  get_snapshot X top_n precision now b w =
      let (w', result) =
        build_and_publish F X N (C.symbol_id b.core_book) (C.get_top_n_bids b.core_book top_n)
          (C.get_top_n_asks b.core_book top_n) top_n precision now b.tick_size b.snapshot w in
      elim result [
        | failure e ↦ (b, w', failure e)
        | success snapshot ↦
            (record b { metrics = record_snapshot b.metrics }, w', success snapshot)
      ]

  unfoldable pub subscribe :
      Option N.Subscriber → BrokerOrderBook → BrokerOrderBook × Option (Error F.Float)
  subscribe subscriber b =
      let (snapshot, failed) = builder_subscribe F N subscriber b.snapshot in
      (record b { snapshot = snapshot }, failed)

  unfoldable pub close : BrokerOrderBook → BrokerOrderBook × Option (Error F.Float)
  close b =
      let (book, failed) = C.close b.core_book in
      (record b { core_book = book }, core_error F C failed)
