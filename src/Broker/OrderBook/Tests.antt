-- ===== src/Broker/OrderBook/Tests.antt =====
-- Runs of broker/broker_orderbook.go over a plain core book.
use fin_kit.Prelude.{
  true, success, is_some, if◌then◌else◌, ◌≡◌, refl, Option, none, some, List, [], ◌∷◌, arith,
}
use fin_kit.Prelude.Int.{◌*ℤ◌, ℤ, pos, negsuc}
use fin_kit.Prelude.Int64.{add64, sub64}
use fin_kit.Core.FeedSamples.{plain_feed}
use fin_kit.Broker.Publisher.{publish}
use fin_kit.Broker.Metrics.{new_metrics}
use fin_kit.Broker.OrderBook.Publication.{Published, get_snapshot-Published}
use fin_kit.Core.{CoreBook, Snapshot, buy, Time}
use fin_kit.Core.Samples.{fractions, plain_book, plain_book-IsBook}
use fin_kit.Core.FeedSamples.{listeners}
use fin_kit.Broker.Types.{
  Error, core, failed_to_insert_bid, OrderIncrement, OrderIncrementType, order_insert, order_modify,
  Trade, Level, ExchangeSnapshot, unix_nano, invalid_increment_type, symbol_id_mismatch,
}
use fin_kit.Broker.Metrics.{record_update}
use fin_kit.Broker.OrderBook.{
  BrokerOrderBook, new_broker_order_book, on_order_increment, on_trade, on_snapshot, get_snapshot,
}
use fin_kit.Broker.OrderBook.Increments.{incremented, on_order_increment-details}
use fin_kit.Broker.OrderBook.Failure.{Refused, on_snapshot-Refused}
use fin_kit.Broker.OrderBook.Quantities.{sound}
use fin_kit.Broker.OrderBook.Quantities.Runs.{all_sound, run-new-AllSound}
use fin_kit.Broker.OrderBook.Trades.{filled_side, on_trade-details}
use fin_kit.Broker.OrderBook.Sync.{kept_levels, expected, on_snapshot-details}
use fin_kit.Broker.OrderBook.Counting.{Event, increment, trade, snapshot, run, run-new-update_count}

abbrev Book : Type 0
Book = BrokerOrderBook fractions plain_book listeners

abbrev inc : OrderIncrementType → ℤ → ℤ → OrderIncrement
inc kind order_id quantity = record {
  kind = kind;
  order_id = order_id;
  price = pos 100;
  quantity = quantity;
  side = buy;
  timestamp = pos 1;
}

-- Orders 1 and 2 of 10 and 5.
two_orders : Book
unfolding new_broker_order_book on_order_increment
two_orders =
    let empty = new_broker_order_book fractions plain_book listeners "ACME" 7 (pos 1, pos 100) in
    let (one, _) =
      on_order_increment fractions plain_book listeners (some (inc order_insert (pos 1) (pos 10)))
        (pos 1) empty in
    (on_order_increment fractions plain_book listeners (some (inc order_insert (pos 2) (pos 5)))
      (pos 2) one).0

-- Buyer 1 and seller 2 trade 5.
abbrev five : Trade
five = record {
  buy_order_id = pos 1;
  sell_order_id = pos 2;
  price = pos 100;
  quantity = pos 5;
  timestamp = pos 3;
}

abbrev left : Book → ℤ → Option ℤ
left b i = elim (plain_book.get_order_details b.core_book i) [
  | none ↦ none
  | some o ↦ some o.quantity
]

five-on_trade :
    (let (b, failed) = on_trade fractions plain_book listeners (some five) (pos 3) two_orders in
      (left b (pos 1) ≡ some (pos 5))
      × (left b (pos 2) ≡ none)
      × (b.metrics.update_count ≡ pos 3)
      × (failed ≡ none))
unfolding on_trade two_orders sub64 record_update add64
five-on_trade = (refl, refl, refl, refl)

unknown-on_order_increment :
    (on_order_increment fractions plain_book listeners
      (some (inc (OrderIncrementType.unknown (pos 9)) (pos 3) (pos 1)))
      (pos 3)
      two_orders).1
    ≡ some (invalid_increment_type (pos 9))
unfolding on_order_increment two_orders
unknown-on_order_increment = refl

abbrev level : ℤ → ℤ → Level
level price quantity = record { price = price; total_qty = quantity }

abbrev snap : ExchangeSnapshot
snap = record {
  symbol_id = 7;
  bids = level (pos 100) (pos 10) ∷ level (pos 99) (pos 0) ∷ level (pos 98) (pos 3) ∷ [];
  asks = level (pos 102) (pos 5) ∷ [];
  timestamp = pos 9;
}

snap-on_snapshot :
    (let (b, failed) = on_snapshot fractions plain_book listeners (some snap) (pos 3) two_orders in
      (left b (pos 1) ≡ none)
      × (left b (negsuc 0) ≡ some (pos 10))
      × (left b (negsuc 1) ≡ some (pos 3))
      × (left b (negsuc 2) ≡ some (pos 5))
      × (failed ≡ none))
unfolding on_snapshot two_orders sub64
snap-on_snapshot = (refl, refl, refl, refl, refl)

other_symbol-on_snapshot :
    (on_snapshot fractions plain_book listeners
      (some (record snap { symbol_id = 8 }))
      (pos 3)
      two_orders).1
    ≡ some (symbol_id_mismatch 8 7)
unfolding on_snapshot two_orders
other_symbol-on_snapshot = refl

fine_trade : (on_trade fractions plain_book listeners (some five) (pos 3) two_orders).1 ≡ none
unfolding on_trade two_orders
fine_trade = refl

fine_snapshot : (on_snapshot fractions plain_book listeners (some snap) (pos 3) two_orders).1 ≡ none
unfolding on_snapshot two_orders sub64
fine_snapshot = refl

on_trade-details_example :
    plain_book.get_order_details
      (on_trade fractions plain_book listeners (some five) (pos 3) two_orders).0.core_book
      (pos 1)
    ≡ filled_side (pos 2) (pos 5) (pos 1) (
        filled_side
          (pos 1)
          (pos 5)
          (pos 1)
          (plain_book.get_order_details two_orders.core_book (pos 1)))
on_trade-details_example =
    on_trade-details fractions plain_book listeners plain_book-IsBook five (pos 3) two_orders
      (pos 1) fine_trade

on_snapshot-details_example :
    plain_book.get_order_details
      (on_snapshot fractions plain_book listeners (some snap) (pos 3) two_orders).0.core_book
      (negsuc 2)
    ≡ expected (unix_nano (pos 9)) (kept_levels snap) (negsuc 2)
on_snapshot-details_example =
    on_snapshot-details fractions plain_book listeners plain_book-IsBook snap (pos 3) two_orders
      (omega arith) fine_snapshot (negsuc 2)

-- The trade of an order that is not there is no error; a nil pointer is one.
abbrev events : List (Event × Time)
events =
    (increment (some (inc order_insert (pos 1) (pos 10))), pos 1)
    ∷ (increment none, pos 2)
    ∷ (trade (some five), pos 3)
    ∷ (snapshot (some snap), pos 4)
    ∷ []

run-new-update_count_example :
    (let (b, n) =
        run fractions plain_book listeners events
          (new_broker_order_book fractions plain_book listeners "ACME" 7 (pos 1, pos 100)) in
      b.metrics.update_count ≡ add64 (pos 0) (pos n))
run-new-update_count_example =
    run-new-update_count fractions plain_book listeners "ACME" 7 (pos 1, pos 100) events

on_order_increment-details_example :
    (let (b, failed) =
        on_order_increment fractions plain_book listeners
          (some (inc order_modify (pos 1) (pos 4)))
          (pos 3)
          two_orders in
      plain_book.get_order_details b.core_book (pos 1) ≡ (
        if is_some failed
        then plain_book.get_order_details two_orders.core_book (pos 1)
        else incremented
            (inc order_modify (pos 1) (pos 4))
            (plain_book.get_order_details two_orders.core_book (pos 1))))
on_order_increment-details_example =
    on_order_increment-details fractions plain_book listeners plain_book-IsBook
      (inc order_modify (pos 1) (pos 4)) (pos 3) two_orders (pos 1)

-- The second bid has no price: the core book refuses it.
abbrev broken : ExchangeSnapshot
broken = record snap { bids = level (pos 100) (pos 10) ∷ level (pos 0) (pos 3) ∷ [] }

abbrev no_price : Error fractions.Float
no_price = failed_to_insert_bid (core "invalid price")

broken-failure :
    (on_snapshot fractions plain_book listeners (some broken) (pos 3) two_orders).1 ≡ some no_price
unfolding on_snapshot two_orders sub64
broken-failure = refl

same_symbol : 7 ≡ plain_book.symbol_id two_orders.core_book
same_symbol = refl

on_snapshot-Refused_example :
    Refused fractions plain_book
      (unix_nano (pos 9))
      (kept_levels broken)
      no_price
      (on_snapshot fractions plain_book listeners (some broken) (pos 3) two_orders).0.core_book
    × ((on_snapshot fractions plain_book listeners (some broken) (pos 3) two_orders).0.metrics
        ≡ two_orders.metrics)
on_snapshot-Refused_example =
    on_snapshot-Refused fractions plain_book listeners plain_book-IsBook broken (pos 3) two_orders
      no_price (omega arith) same_symbol broken-failure

-- A core book whose best bid is 5 at 101.
abbrev quoting_book : CoreBook
quoting_book = record plain_book {
  get_top_n_bids = λ b n.
      some
        (record { address = 1; price = pos 101; total_qty = pos 5; order_count = pos 1; head = [] })
      ∷ [];
}

abbrev quoting : BrokerOrderBook fractions quoting_book listeners
quoting = record {
  core_book = λ j. none;
  metrics = new_metrics;
  snapshot = record { publisher = record { subscribers = 3 ∷ 4 ∷ [] } };
  tick_size = (pos 1, pos 100);
}

abbrev quoted : Snapshot fractions
quoted = record {
  symbol_id = 7;
  bids = record { price = (pos 101, pos 100); volume = (pos 5, pos 1) } ∷ [];
  asks = [];
  spread = (pos 0, pos 1);
}

quoting-get_snapshot :
    (get_snapshot fractions quoting_book listeners plain_feed (pos 10) 0 (pos 1) quoting []).2
    ≡ success quoted
unfolding get_snapshot ◌*ℤ◌ publish
quoting-get_snapshot = refl

get_snapshot-Published_example :
    (let (b', w', _) =
        get_snapshot fractions quoting_book listeners plain_feed (pos 10) 0 (pos 1) quoting [] in
      Published fractions quoting_book listeners plain_feed quoting b' [] w'
        (pos 10)
        0
        (pos 1)
        quoted)
get_snapshot-Published_example =
    get_snapshot-Published fractions quoting_book listeners plain_feed (pos 10) 0 (pos 1) quoting []
      quoted quoting-get_snapshot

events-all_sound : all_sound events ≡ true
events-all_sound = refl

run-new-AllSound_example :
    (let (b, _) =
        run fractions plain_book listeners events
          (new_broker_order_book fractions plain_book listeners "ACME" 7 (pos 1, pos 100)) in
      sound (plain_book.get_order_details b.core_book (negsuc 0)) ≡ true)
run-new-AllSound_example =
    run-new-AllSound fractions plain_book listeners plain_book-IsBook "ACME" 7 (pos 1, pos 100)
      events (negsuc 0) events-all_sound
