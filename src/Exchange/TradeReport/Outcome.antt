-- ===== src/Exchange/TradeReport/Outcome.antt =====
-- exchange/trade_report.go: what each call returns and leaves behind, on every branch.
use fin_kit.Prelude.{
  ◌≡◌, refl, true, none, some, [], String, arith, if◌then◌else◌, ◌==◌, ◌↔◌, is_some, ◌&&◌, ◌⊎◌,
}
use fin_kit.Prelude.Int.{ℤ, pos, int_eq, eqb_ℤ_iff}
use fin_kit.Core.{Int64Map, IsMap, Float64}
use fin_kit.Exchange.OrderType.{new, canceled, rejected, is_ok, ◌>>=◌, ok}
use fin_kit.Exchange.Heap.{Ref, Heap}
use fin_kit.Exchange.TradeReport.Report.{execution_report, average_price}
use fin_kit.Exchange.TradeReport.{
  TradeReporter, register_order, update_order_state, update_remaining_qty, stamp, update_sides,
  record_trade, record_trade_for_order, cancel_order, reject_order, get_order_report,
}

module _ (F : Float64) (H : Int64Map) (M : IsMap H) where
  -- After RegisterOrder, GetOrderReport of the order's ID reports it as new, with its account,
  -- nothing filled, its whole quantity remaining, no trades, and the average price zero. The hash
  -- map keeps its laws.
  pub report-register_order :
      (order : Ref) (now : ℤ) (heap : Heap) (r : TradeReporter H)
      → (let (heap', r') = register_order H order heap r in
          let o = heap.orders order in
          get_order_report F H o.order_id now r' heap'
          ≡ ok (record {
            order_id = o.order_id;
            account_id = o.account_id;
            status = new;
            filled_qty = pos 0;
            remaining_qty = o.quantity;
            avg_price = F.zero;
            trades = [];
            reject_reason = "";
            timestamp = now;
          }))
  unfolding register_order get_order_report execution_report average_price
  report-register_order order now heap r = ground (
    arith,
    M.get-set Ref (heap.orders order).order_id (heap.orders order).order_id heap.next_tracked
        r.orders,
  )

module _ (F : Float64) (H : Int64Map) where
  -- RecordTrade succeeds exactly if both orders of the trade are registered.
  pub record_trade-ok_iff :
      (trade : Ref) (now : ℤ) (heap : Heap) (r : TradeReporter H)
      → (let t = heap.trades trade in
          let (_, _, result) = record_trade F H trade now heap r in
          (is_ok result ≡ true) ↔ (
            is_some (H.get r.orders t.buy_order_id) && is_some (H.get r.orders t.sell_order_id)
            ≡ true))
  unfolding record_trade stamp update_sides update_order_state
  record_trade-ok_iff trade now heap r = ground arith

  -- recordTradeForOrder for one of the two orders of the trade changes what RecordTrade changes
  -- and returns that order's report, the buy side's if the two IDs are one, or the same error.
  pub record_trade_for_order-record_trade :
      (trade : Ref) (i now : ℤ) (heap : Heap) (r : TradeReporter H)
      → (let t = heap.trades trade in (i ≡ t.buy_order_id) ⊎ (i ≡ t.sell_order_id))
      → (let t = heap.trades trade in
          let (heap1, r1, both) = record_trade F H trade now heap r in
          let (heap2, r2, one) = record_trade_for_order F H trade i now heap r in
          (heap2 ≡ heap1)
          × (r2 ≡ r1)
          × (one ≡ (both >>= λ reports. ok (if i == t.buy_order_id then reports.0 else reports.1))))
  unfolding record_trade record_trade_for_order stamp update_sides update_order_state
  record_trade_for_order-record_trade trade i now heap r which =
      (refl, refl, ground (arith, eqb_ℤ_iff i (heap.trades trade).buy_order_id))

  -- After CancelOrder, GetOrderReport of the order reports what it reported before, with the
  -- status canceled, or still fails; and CancelOrder returns that report with the reason, or
  -- fails in the same way.
  pub cancel_order-report :
      (i : ℤ) (reason : String) (now later : ℤ) (heap : Heap) (r : TradeReporter H)
      → (let (heap', result) = cancel_order F H i reason now r heap in
          (get_order_report F H i later r heap' ≡ (
            get_order_report F H i later r heap >>= λ report.
            ok (record report { status = canceled })))
          × (result ≡ (
              get_order_report F H i now r heap >>= λ report.
              ok (record report { status = canceled; reject_reason = reason }))))
  unfolding cancel_order get_order_report execution_report average_price
  cancel_order-report i reason now later heap r = (ground arith, ground arith)

  -- After RejectOrder, GetOrderReport of the order reports what it reported before, fills
  -- included, with the status rejected, or still fails; RejectOrder's own report has that status,
  -- nothing filled, and the order's whole quantity remaining, or none if the order is not
  -- registered.
  pub reject_order-report :
      (i : ℤ) (reason : String) (now later : ℤ) (heap : Heap) (r : TradeReporter H)
      → (let (heap', report) = reject_order F H i reason now r heap in
          (get_order_report F H i later r heap' ≡ (
            get_order_report F H i later r heap >>= λ old. ok (record old { status = rejected })))
          × (report.status ≡ rejected)
          × (report.filled_qty ≡ pos 0)
          × (report.remaining_qty ≡ elim (H.get r.orders i) [
            | none ↦ pos 0
            | some t ↦ (heap.orders (heap.tracked t).order).quantity
          ]))
  unfolding reject_order get_order_report execution_report average_price
  reject_order-report i reason now later heap r =
      (ground arith, ground arith, ground arith, ground arith)

  -- UpdateRemainingQty.
  pub update_remaining_qty-report :
      (i remaining cancels now : ℤ) (heap : Heap) (r : TradeReporter H)
      → (let (heap', e) = update_remaining_qty H i remaining cancels r heap in
          get_order_report F H i now r heap' ≡ (
            get_order_report F H i now r heap >>= λ report.
            ok (record report { remaining_qty = remaining })))
  unfolding update_remaining_qty get_order_report execution_report average_price
  update_remaining_qty-report i remaining cancels now heap r = ground arith
