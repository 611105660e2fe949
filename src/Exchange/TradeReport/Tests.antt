-- ===== src/Exchange/TradeReport/Tests.antt =====
-- Runs of the reporter of exchange/trade_report.go, over a plain map and fractions.
use fin_kit.Prelude.{List, zero, suc, ◌≡◌, refl, true, some, [], ◌∷◌, String, arith}
use fin_kit.Prelude.Int.{ℤ, pos, int_eq}
use fin_kit.Prelude.Int64.{add64, sub64}
use fin_kit.Core.{Side, buy, sell}
use fin_kit.Core.Samples.{list_map, list_map-IsMap, fractions}
use fin_kit.Exchange.OrderType.{
  Order, Trade, limit, new, partial, order_not_found, ok, err, is_ok, ◌>>=◌,
}
use fin_kit.Exchange.Heap.{Ref, TrackedOrder, Heap}
use fin_kit.Exchange.TradeReport.Report.{execution_report, add_fill}
use fin_kit.Exchange.TradeReport.Sides.{Known}
use fin_kit.Exchange.OrderBook.{int64_map_capacity}
use fin_kit.Exchange.TradeReport.Ledger.{IsBalanced}
use fin_kit.Exchange.TradeReport.Calls.{
  Report, registers, records, cancels, run, respond, start, run-IsBalanced,
}
use fin_kit.Exchange.TradeReport.Effects.{
  Unshared, progress, one_more, fill_of, record_trade-progress, record_trade-get_order_report,
  register_order-Unshared,
}
use fin_kit.Exchange.TradeReport.{
  TradeReporter, new_trade_reporter_with_capacity, new_trade_reporter, register_order, record_trade,
  stamp, update_sides, update_order_state, cancel_order, get_order_report,
}

abbrev order : ℤ → String → Side → ℤ → Order
order i account side quantity = record {
  order_id = i;
  account_id = account;
  symbol = "ACME";
  price = pos 100;
  quantity = quantity;
  visible_qty = pos 0;
  side = side;
  kind = limit;
  timestamp = pos 1;
  filled_qty = pos 0;
  canceled_qty = pos 0;
  remaining_qty = quantity;
}

-- Order 1 at pointer 0, order 2 at every other pointer.
abbrev two_orders : Ref → Order
two_orders zero = order (pos 1) "alice" buy (pos 10)
two_orders (suc p) = order (pos 2) "bob" sell (pos 4)

abbrev trade_of_four : Trade
trade_of_four = record {
  trade_id = pos 0;
  buy_order_id = pos 1;
  sell_order_id = pos 2;
  buy_account_id = "alice";
  sell_account_id = "bob";
  price = pos 100;
  quantity = pos 4;
  timestamp = pos 0;
  buy_fill_type = partial;
  sell_fill_type = partial;
  buy_remaining_qty = pos 6;
  sell_remaining_qty = pos 0;
}

abbrev untracked : TrackedOrder
untracked = record {
  order = 0;
  status = new;
  filled_qty = pos 0;
  remaining_qty = pos 0;
  total_value = pos 0;
  trades = [];
}

abbrev heap : Heap
heap = record {
  orders = two_orders;
  trades = λ p. trade_of_four;
  tracked = λ p. untracked;
  next_tracked = 0;
}

-- Order 1 is registered.
one_order : Heap × TradeReporter list_map
unfolding register_order new_trade_reporter
one_order = register_order list_map 0 heap (new_trade_reporter list_map)

-- Order 2, too.
both_orders : Heap × TradeReporter list_map
unfolding register_order one_order
both_orders = register_order list_map 1 one_order.0 one_order.1

abbrev calls : List (Report fractions list_map)
calls = registers 0 ∷ registers 1 ∷ records 5 (pos 70) ∷ cancels (pos 1) "enough" (pos 80) ∷ []

run-IsBalanced_example :
    (let (heap', r) =
        run fractions list_map calls
          (start list_map (pos 8) two_orders (λ p. trade_of_four) (λ p. untracked)) in
      IsBalanced heap' (heap'.tracked 0))
unfolding run respond register_order record_trade cancel_order stamp
    new_trade_reporter_with_capacity
run-IsBalanced_example =
    run-IsBalanced fractions list_map list_map-IsMap (pos 8) two_orders (λ p. trade_of_four)
      (λ p. untracked) calls (pos 1) 0 refl

none_registered-Known : Known list_map heap (new_trade_reporter list_map)
unfolding new_trade_reporter new_trade_reporter_with_capacity
none_registered-Known k t there =
    absurd (ground (arith, list_map-IsMap.get-new Ref (some (int64_map_capacity (pos 0))) k))

none_registered-Unshared : Unshared list_map (new_trade_reporter list_map)
unfolding new_trade_reporter new_trade_reporter_with_capacity
none_registered-Unshared i j t there again =
    absurd (ground (arith, list_map-IsMap.get-new Ref (some (int64_map_capacity (pos 0))) i))

both_orders-Unshared : Unshared list_map both_orders.1
unfolding both_orders one_order
both_orders-Unshared =
    let first =
      register_order-Unshared list_map list_map-IsMap 0 heap (new_trade_reporter list_map)
        none_registered-Known none_registered-Unshared in
    (register_order-Unshared list_map list_map-IsMap 1 one_order.0 one_order.1 first.0 first.1).1

-- Bob's order before and after the trade.
record_trade-progress_example :
    (let (heap', r', result) =
        record_trade fractions list_map 5 (pos 70) both_orders.0 both_orders.1 in
      (is_ok result ≡ true)
      × (progress fractions list_map (pos 2) (pos 80) r' heap'
          ≡ one_more
              (pos 4)
              5
              (progress fractions list_map (pos 2) (pos 80) both_orders.1 both_orders.0)))
unfolding both_orders one_order register_order new_trade_reporter
record_trade-progress_example =
    record_trade-progress fractions list_map 5 (pos 2) (pos 70) (pos 80) both_orders.0 both_orders.1
      both_orders-Unshared (λ same. absurd (ground arith))

-- The sell order is not registered: the error, and the buyer's order has the fill all the same.
one_order-record_trade :
    (let (heap', r', result) = record_trade fractions list_map 5 (pos 70) one_order.0 one_order.1 in
      (result ≡ err order_not_found)
      × (progress fractions list_map (pos 1) (pos 80) r' heap'
          ≡ some (record {
            filled_qty = pos 4;
            remaining_qty = pos 6;
            status = partial;
            trades = 5 ∷ [];
          })))
unfolding one_order register_order new_trade_reporter record_trade stamp update_sides
    update_order_state add_fill get_order_report execution_report add64 sub64
one_order-record_trade = (refl, refl)

record_trade-get_order_report_example :
    (let (heap', r', result) =
        record_trade fractions list_map 5 (pos 70) both_orders.0 both_orders.1 in
      let trade' = heap'.trades 5 in
      (result ≡ (
        get_order_report fractions list_map (pos 1) (pos 70) r' heap' >>= λ buyer.
        get_order_report fractions list_map (pos 2) (pos 70) r' heap' >>= λ seller.
        ok (buyer, seller)))
      × (trade'.trade_id ≡ add64 both_orders.1.trade_counter (pos 1))
      × (trade'.timestamp ≡ pos 70)
      × (trade'.buy_fill_type
          ≡ elim result [ err e ↦ partial | ok reports ↦ fill_of fractions list_map reports.0 ])
      × (trade'.sell_fill_type
          ≡ elim result [ err e ↦ partial | ok reports ↦ fill_of fractions list_map reports.1 ]))
unfolding both_orders one_order register_order new_trade_reporter
record_trade-get_order_report_example =
    record_trade-get_order_report fractions list_map 5 (pos 70) both_orders.0 both_orders.1
