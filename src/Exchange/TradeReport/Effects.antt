-- ===== src/Exchange/TradeReport/Effects.antt =====
-- exchange/trade_report.go, RecordTrade, in terms of what GetOrderReport returns before and after it.
use fin_kit.Prelude.{
  ◌≡◌, ◌≢◌, ◌&&◌, ◌||◌, Option, none, some, List, [], ◌∷◌, ◌++◌, arith, if◌then◌else◌, ◌==◌,
  is_some, Option-cases, inl, inr,
}
use fin_kit.Prelude.Int.{ℤ, pos, int_eq, eqb_ℤ_iff, leb_ℤ}
use fin_kit.Prelude.Int64.{add64, sub64}
use fin_kit.Core.{Int64Map, IsMap, Float64}
use fin_kit.Exchange.OrderType.{
  OrderStatus, FillType, filled, partial, complete, Result, ok, err, is_ok, ◌>>=◌,
}
use fin_kit.Exchange.Heap.{Ref, Heap}
use fin_kit.Exchange.TradeReport.Report.{
  add_fill, sync, get_fill_type_from_status, execution_report, ExecutionReport,
}
use fin_kit.Exchange.TradeReport.Sides.{Known}
use fin_kit.Exchange.TradeReport.{
  TradeReporter, register_order, update_order_state, stamp, update_sides, record_trade,
  get_order_report,
}

-- How far an order has come.
pub record Progress : Type 0 where
  pub filled_qty : ℤ
  pub remaining_qty : ℤ
  pub status : OrderStatus
  pub trades : List Ref

-- One more trade.
abbrev pub one_more : ℤ → Ref → Option Progress → Option Progress
one_more quantity trade none = none
one_more quantity trade (some x) = some (record {
  filled_qty = add64 x.filled_qty quantity;
  remaining_qty = sub64 x.remaining_qty quantity;
  status = if leb_ℤ (sub64 x.remaining_qty quantity) (pos 0) then filled else partial;
  trades = x.trades ++ (trade ∷ []);
})

module _ (H : Int64Map) where
  -- Each tracked order stands under one ID.
  abbrev pub Unshared : TradeReporter H → Type 0
  Unshared r = (i j : ℤ) (t : Ref) → H.get r.orders i ≡ some t → H.get r.orders j ≡ some t → i ≡ j

module _ (F : Float64) (H : Int64Map) where
  -- What GetOrderReport shows of it.
  abbrev pub shown : Result (ExecutionReport F) → Option Progress
  shown (err e) = none
  shown (ok report) = some (record {
    filled_qty = report.filled_qty;
    remaining_qty = report.remaining_qty;
    status = report.status;
    trades = report.trades;
  })

  abbrev pub progress : ℤ → ℤ → TradeReporter H → Heap → Option Progress
  progress i now r heap = shown (get_order_report F H i now r heap)

  -- Complete if nothing remains.
  abbrev pub fill_of : ExecutionReport F → FillType
  fill_of report = if leb_ℤ report.remaining_qty (pos 0) then complete else partial

  -- RecordTrade succeeds exactly if both orders of the trade are registered. Under every ID,
  -- GetOrderReport shows afterwards what it showed before, except that it shows one more trade,
  -- its quantity added to what is filled and taken from what remains, and the status filled if
  -- that leaves nothing, else partial: for the buy order, and for the sell order if the buy order
  -- is registered. So a buy order keeps the fill of a trade whose sell order is missing. The
  -- trade's two IDs differ, and no tracked order stands under two IDs.
  pub record_trade-progress :
      (trade : Ref) (i now later : ℤ) (heap : Heap) (r : TradeReporter H)
      → Unshared H r
      → (heap.trades trade).buy_order_id ≢ (heap.trades trade).sell_order_id
      → (let t = heap.trades trade in
          let (heap', r', result) = record_trade F H trade now heap r in
          let buyer = is_some (H.get r.orders t.buy_order_id) in
          let seller = is_some (H.get r.orders t.sell_order_id) in
          (is_ok result ≡ (buyer && seller))
          × (progress i later r' heap' ≡ (
              if i == t.buy_order_id || (i == t.sell_order_id && buyer)
              then one_more t.quantity trade (progress i later r heap)
              else progress i later r heap)))
  unfolding record_trade stamp update_sides update_order_state add_fill sync get_order_report
      execution_report
  record_trade-progress trade i now later heap r apart differ =
      let t = heap.trades trade in
      (
        ground arith,
        elim (Option-cases (H.get r.orders i)) [
          | inl missing ↦ ground (arith, eqb_ℤ_iff i t.buy_order_id, eqb_ℤ_iff i t.sell_order_id)
          | inr (x, there) ↦ elim (Option-cases (H.get r.orders t.buy_order_id)) [
            | inl nobody ↦ ground (arith, eqb_ℤ_iff i t.buy_order_id, eqb_ℤ_iff i t.sell_order_id)
            | inr (b, buys) ↦ elim (Option-cases (H.get r.orders t.sell_order_id)) [
              | inl nobody ↦ ground (
                arith,
                eqb_ℤ_iff i t.buy_order_id,
                eqb_ℤ_iff i t.sell_order_id,
                apart i t.buy_order_id x,
              )
              | inr (s, sells) ↦ ground (
                arith,
                eqb_ℤ_iff i t.buy_order_id,
                eqb_ℤ_iff i t.sell_order_id,
                apart i t.buy_order_id x,
                apart i t.sell_order_id x,
              )
            ]
          ]
        ],
      )

  -- RecordTrade returns what GetOrderReport returns afterwards at the same time for the buy and
  -- then for the sell order, or the error of the first that fails. On success and failure the
  -- trade has the reporter's next trade ID and the time; its fill types are as they were on
  -- failure, and on success each is complete exactly if nothing remains in that side's report,
  -- else partial.
  pub record_trade-get_order_report :
      (trade : Ref) (now : ℤ) (heap : Heap) (r : TradeReporter H)
      → (let t = heap.trades trade in
          let (heap', r', result) = record_trade F H trade now heap r in
          let t' = heap'.trades trade in
          (result ≡ (
            get_order_report F H t.buy_order_id now r' heap' >>= λ buyer.
            get_order_report F H t.sell_order_id now r' heap' >>= λ seller. ok (buyer, seller)))
          × (t'.trade_id ≡ add64 r.trade_counter (pos 1))
          × (t'.timestamp ≡ now)
          × (t'.buy_fill_type
              ≡ elim result [ err e ↦ t.buy_fill_type | ok reports ↦ fill_of reports.0 ])
          × (t'.sell_fill_type
              ≡ elim result [ err e ↦ t.sell_fill_type | ok reports ↦ fill_of reports.1 ]))
  unfolding record_trade stamp update_sides update_order_state get_order_report add_fill
      get_fill_type_from_status execution_report
  record_trade-get_order_report trade now heap r =
      (ground arith, ground arith, ground arith, ground arith, ground arith)

module _ (H : Int64Map) (M : IsMap H) where
  -- A new tracked order stands under one ID only.
  pub register_order-Unshared :
      (order : Ref) (heap : Heap) (r : TradeReporter H)
      → Known H heap r
      → Unshared H r
      → (let (heap', r') = register_order H order heap r in Known H heap' r' × Unshared H r')
  unfolding register_order
  register_order-Unshared order heap r known apart =
      let id = (heap.orders order).order_id in
      (
        λ k t there. ground (arith, M.get-set Ref id k heap.next_tracked r.orders, known k t),
        λ i j t a b. ground (
          arith,
          M.get-set Ref id i heap.next_tracked r.orders,
          M.get-set Ref id j heap.next_tracked r.orders,
          eqb_ℤ_iff id i,
          eqb_ℤ_iff id j,
          known i t,
          known j t,
          apart i j t,
        ),
      )
