-- ===== src/Exchange/OrderBook/Tests.antt =====
-- Runs of the book of exchange/orderbook.go, over a plain core book and map.
use fin_kit.Prelude.{refl, true, Option, none, some, [], ◌∷◌, String}
use fin_kit.Prelude.Int.{ℤ, pos, int_eq}
use fin_kit.Core.{buy}
use fin_kit.Core.Samples.{list_map, list_map-IsMap, plain_book, plain_book-IsBook}
use fin_kit.Exchange.OrderType.{Order, Error, limit}
use fin_kit.Exchange.SelfTrade.{SelfTradeCheck, new_self_trade_check}
use fin_kit.Exchange.SelfTrade.Invariant.{
  IsValid, new_self_trade_check-IsValid, register_order-IsValid,
}
use fin_kit.Exchange.SelfTrade.Contents.{find}
use fin_kit.Exchange.OrderBook.{
  OrderBook, with_order_capacity, new_order_book, add_order, remove_order, clear, to_core_order,
}
use fin_kit.Exchange.OrderBook.Agreement.{
  Agrees, adds, removes, updates, run, run-new-Agrees, add_order-Agrees,
}
use fin_kit.Exchange.OrderBook.Tracking.{
  Tracks, add_order-Tracks, remove_order-Tracks, clear-not-Tracks,
}

abbrev bid : ℤ → String → Order
bid i account = record {
  order_id = i;
  account_id = account;
  symbol = "ACME";
  price = pos 100;
  quantity = pos 10;
  visible_qty = pos 10;
  side = buy;
  kind = limit;
  timestamp = pos 1;
  filled_qty = pos 0;
  canceled_qty = pos 0;
  remaining_qty = pos 10;
}

abbrev no_orders : OrderBook plain_book list_map
no_orders = record {
  core_book = λ j. none;
  symbol = "ACME";
  symbol_id = 7;
  order_accounts = [];
  track_self_trade = true;
}

-- Order 1 of alice added to the empty book.
one_order : OrderBook plain_book list_map × SelfTradeCheck × Option Error
unfolding add_order to_core_order
one_order =
    add_order plain_book list_map (some (bid (pos 1) "alice")) no_orders new_self_trade_check

no_orders-Tracks : Tracks plain_book list_map no_orders new_self_trade_check
unfolding new_self_trade_check find
no_orders-Tracks a i = refl

one_order-Tracks : Tracks plain_book list_map one_order.0 one_order.1
unfolding one_order
one_order-Tracks =
    add_order-Tracks plain_book list_map list_map-IsMap (bid (pos 1) "alice") no_orders
      new_self_trade_check refl refl no_orders-Tracks

one_order-IsValid : IsValid one_order.1
unfolding one_order add_order to_core_order
one_order-IsValid = register_order-IsValid (pos 1) "alice" buy _ new_self_trade_check-IsValid

run-new-Agrees_example :
    Agrees plain_book list_map
      (run plain_book list_map
        (adds (some (bid (pos 1) "alice"))
          ∷ adds (some (bid (pos 1) "bob"))
          ∷ updates (pos 1) (pos 4)
          ∷ removes (pos 2)
          ∷ [])
        (
          new_order_book plain_book list_map "ACME" 7 (with_order_capacity (pos 64) ∷ []),
          new_self_trade_check,
        )).0
run-new-Agrees_example =
    run-new-Agrees plain_book list_map plain_book-IsBook list_map-IsMap "ACME" 7
      (with_order_capacity (pos 64) ∷ []) new_self_trade_check
      (adds (some (bid (pos 1) "alice"))
        ∷ adds (some (bid (pos 1) "bob"))
        ∷ updates (pos 1) (pos 4)
        ∷ removes (pos 2)
        ∷ [])

one_order-Agrees : Agrees plain_book list_map one_order.0
unfolding one_order
one_order-Agrees =
    add_order-Agrees plain_book list_map plain_book-IsBook list_map-IsMap
      (some (bid (pos 1) "alice")) no_orders new_self_trade_check (λ j. refl)

add_order-Tracks_example : Tracks plain_book list_map one_order.0 one_order.1
unfolding one_order
add_order-Tracks_example =
    add_order-Tracks plain_book list_map list_map-IsMap (bid (pos 1) "alice") no_orders
      new_self_trade_check refl refl no_orders-Tracks

remove_order-Tracks_example :
    (let (ob', check', _) = remove_order plain_book list_map (pos 1) one_order.0 one_order.1 in
      Tracks plain_book list_map ob' check')
unfolding one_order add_order to_core_order
remove_order-Tracks_example =
    remove_order-Tracks plain_book list_map list_map-IsMap (pos 1) one_order.0 one_order.1 refl
      one_order-IsValid one_order-Tracks

clear-not-Tracks_example :
    ¬ Tracks plain_book list_map (clear plain_book list_map one_order.0) one_order.1
unfolding one_order add_order to_core_order
clear-not-Tracks_example =
    clear-not-Tracks plain_book list_map list_map-IsMap "alice" (pos 1) one_order.0 one_order.1 refl
      one_order-Tracks
