-- ===== src/Exchange/TradeReport.antt =====
-- exchange/trade_report.go: the trade reporter, which tracks the state of each order. Orders, trades
-- and tracked orders are shared by pointer, so a method takes and returns the heap; `now` is what the
-- call of time.Now returns. A method holds its mutex from start to end, so it is one step.
pub mod Report
pub mod Ledger
pub mod Sides
pub mod Calls
pub mod Outcome
pub mod Effects
pub mod Identity
pub mod Stats
mod Tests
use fin_kit.Prelude.{
  ℕ, suc, Bool, true, false, Option, none, some, List, [], ◌∷◌, ◌++◌, String, if◌then◌else◌, ◌==◌,
}
use fin_kit.Prelude.Int.{ℤ, pos, int_eq, leb_ℤ, ltb_ℤ}
use fin_kit.Prelude.Int64.{add64, sub64, mul64}
use fin_kit.Prelude.Dict.{Dict}
use fin_kit.Core.{Int64Map, Float64}
use fin_kit.Exchange.OrderType.{
  Order, Trade, OrderStatus, new, partial, filled, canceled, rejected, FillType, complete, Error,
  order_not_found, Result, ok, err, ◌>>=◌,
}
use fin_kit.Exchange.Heap.{Ref, TrackedOrder, Heap, set_order, set_trade, set_tracked}
use fin_kit.Exchange.OrderBook.{int64_map_capacity}
use fin_kit.Exchange.TradeReport.Report.{
  add_fill, sync, get_fill_type_from_status, TradeReporterStats, count_all, ExecutionReport,
  execution_report,
}

module _ (H : Int64Map) where
  pub record TradeReporter : Type 0 where
    pub orders : H.Map Ref
    pub trade_counter : ℤ

  unfoldable pub new_trade_reporter_with_capacity : ℤ → TradeReporter
  new_trade_reporter_with_capacity capacity = record {
    orders = H.new_map Ref (some (int64_map_capacity capacity));
    trade_counter = pos 0;
  }

  unfoldable pub new_trade_reporter : TradeReporter
  unfolding new_trade_reporter_with_capacity
  new_trade_reporter = new_trade_reporter_with_capacity (pos 0)

  unfoldable pub register_order : Ref → Heap → TradeReporter → Heap × TradeReporter
  register_order order heap r =
      let t = heap.next_tracked in
      let tracked : TrackedOrder = record {
        order = order;
        status = new;
        filled_qty = pos 0;
        remaining_qty = (heap.orders order).quantity;
        total_value = pos 0;
        trades = [];
      } in
      (
        record (set_tracked t tracked heap) { next_tracked = suc t },
        record r { orders = H.set (heap.orders order).order_id t r.orders },
      )

  -- The result is the tracked order's pointer.
  unfoldable pub update_order_state : ℤ → ℤ → ℤ → Ref → TradeReporter → Heap → Heap × Result Ref
  unfolding add_fill sync
  update_order_state order_id qty price trade r heap = elim (H.get r.orders order_id) [
    | none ↦ (heap, err order_not_found)
    | some t ↦
        let tracked = add_fill qty price trade (heap.tracked t) in
        let order = sync tracked (heap.orders tracked.order) in
        (set_order tracked.order order (set_tracked t tracked heap), ok t)
  ]

  unfoldable pub unregister_order : ℤ → TradeReporter → TradeReporter
  unregister_order order_id r = record r { orders = H.delete order_id r.orders }

  unfoldable pub update_remaining_qty : ℤ → ℤ → ℤ → TradeReporter → Heap → Heap × Option Error
  update_remaining_qty order_id remaining cancels r heap = elim (H.get r.orders order_id) [
    | none ↦ (heap, some order_not_found)
    | some t ↦
        let tracked = record (heap.tracked t) { remaining_qty = remaining } in
        let order = record (heap.orders tracked.order) {
          canceled_qty = cancels;
          remaining_qty = remaining;
        } in
        (set_order tracked.order order (set_tracked t tracked heap), none)
  ]

  unfoldable pub clear : TradeReporter → TradeReporter
  clear r = record { orders = H.clear r.orders; trade_counter = pos 0 }

  unfoldable pub get_stats : Heap → TradeReporter → TradeReporterStats
  unfolding count_all
  get_stats heap r = count_all heap (H.entries r.orders) (record {
    total_orders = H.len r.orders;
    active_orders = pos 0;
    filled_orders = pos 0;
    canceled_orders = pos 0;
    rejected_orders = pos 0;
    total_trades = r.trade_counter;
  })

  -- What RecordTrade and recordTradeForOrder do first: the trade gets its ID and its time.
  unfoldable pub stamp : Ref → ℤ → Heap → TradeReporter → Heap × TradeReporter
  stamp trade now heap r =
      let counter = add64 r.trade_counter (pos 1) in
      (
        set_trade trade (record (heap.trades trade) { trade_id = counter; timestamp = now }) heap,
        record r { trade_counter = counter },
      )

  -- Then they update both sides and set the trade's fill types.
  unfoldable pub update_sides : Ref → TradeReporter → Heap → Heap × Result (Ref × Ref)
  unfolding update_order_state get_fill_type_from_status
  update_sides trade r heap =
      let t = heap.trades trade in
      let (heap1, buyer) = update_order_state t.buy_order_id t.quantity t.price trade r heap in
      elim buyer [
        | err e ↦ (heap1, err e)
        | ok buy_tracked ↦
            let (heap2, seller) =
              update_order_state t.sell_order_id t.quantity t.price trade r heap1 in
            elim seller [
              | err e ↦ (heap2, err e)
              | ok sell_tracked ↦ (
                set_trade trade
                    (record t {
                      buy_fill_type = get_fill_type_from_status (heap2.tracked buy_tracked).status;
                      sell_fill_type =
                          get_fill_type_from_status (heap2.tracked sell_tracked).status;
                    })
                    heap2,
                ok (buy_tracked, sell_tracked),
              )
            ]
      ]

module _ (F : Float64) (H : Int64Map) where
  unfoldable pub record_trade :
      Ref
      → ℤ
      → Heap
      → TradeReporter H
      → Heap × TradeReporter H × Result (ExecutionReport F × ExecutionReport F)
  unfolding stamp update_sides execution_report
  record_trade trade now heap r =
      let (heap1, r1) = stamp H trade now heap r in
      let (heap2, sides) = update_sides H trade r1 heap1 in
      let t = heap2.trades trade in
      (
        heap2,
        r1,
        sides >>= λ (buyer, seller). ok (
          execution_report F t.buy_order_id buyer now heap2,
          execution_report F t.sell_order_id seller now heap2,
        ),
      )

  unfoldable pub record_trade_for_order :
      Ref → ℤ → ℤ → Heap → TradeReporter H → Heap × TradeReporter H × Result (ExecutionReport F)
  unfolding stamp update_sides execution_report
  record_trade_for_order trade order_id now heap r =
      let (heap1, r1) = stamp H trade now heap r in
      let (heap2, sides) = update_sides H trade r1 heap1 in
      let t = heap2.trades trade in
      (
        heap2,
        r1,
        sides >>= λ (buyer, seller). ok (
            execution_report F order_id (if order_id == t.buy_order_id then buyer else seller)
              t.timestamp heap2),
      )

  unfoldable pub cancel_order :
      ℤ → String → ℤ → TradeReporter H → Heap → Heap × Result (ExecutionReport F)
  unfolding execution_report
  cancel_order order_id reason now r heap = elim (H.get r.orders order_id) [
    | none ↦ (heap, err order_not_found)
    | some t ↦
        let heap1 = set_tracked t (record (heap.tracked t) { status = canceled }) heap in
        (heap1, ok (record (execution_report F order_id t now heap1) { reject_reason = reason }))
  ]

  -- The error is always nil.
  unfoldable pub reject_order : ℤ → String → ℤ → TradeReporter H → Heap → Heap × ExecutionReport F
  reject_order order_id reason now r heap =
      let report : String → ℤ → ExecutionReport F = λ account_id remaining. record {
        order_id = order_id;
        account_id = account_id;
        status = rejected;
        filled_qty = pos 0;
        remaining_qty = remaining;
        avg_price = F.zero;
        trades = [];
        reject_reason = reason;
        timestamp = now;
      } in
      elim (H.get r.orders order_id) [
        | none ↦ (heap, report "" (pos 0))
        | some t ↦
            let order = heap.orders (heap.tracked t).order in
            (
              set_tracked t (record (heap.tracked t) { status = rejected }) heap,
              report order.account_id order.quantity,
            )
      ]

  unfoldable pub get_order_report : ℤ → ℤ → TradeReporter H → Heap → Result (ExecutionReport F)
  unfolding execution_report
  get_order_report order_id now r heap = elim (H.get r.orders order_id) [
    | none ↦ err order_not_found
    | some t ↦ ok (execution_report F order_id t now heap)
  ]
