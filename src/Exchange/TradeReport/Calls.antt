-- ===== src/Exchange/TradeReport/Calls.antt =====
-- exchange/trade_report.go: every sequence of registrations, trades, cancellations, rejections and
-- removals keeps the counters of all tracked orders.
use fin_kit.Prelude.{
  ◌<◌, ◌≡◌, refl, some, List, [], ◌∷◌, String, arith, nat_eqb, Option-cases, Bool-cases, inl, inr,
}
use fin_kit.Prelude.Int.{ℤ, int_eq}
use fin_kit.Prelude.Int64.{add64_zero}
use fin_kit.Core.{Int64Map, IsMap, Float64}
use fin_kit.Exchange.OrderType.{Order, Trade, OrderStatus, canceled, rejected}
use fin_kit.Exchange.Heap.{Ref, TrackedOrder, Heap, set_tracked}
use fin_kit.Exchange.OrderBook.{int64_map_capacity}
use fin_kit.Exchange.TradeReport.Ledger.{
  total, IsBalanced, AllBalanced, set_tracked-AllBalanced, set_trade-AllBalanced,
}
use fin_kit.Exchange.TradeReport.{
  TradeReporter, new_trade_reporter_with_capacity, register_order, unregister_order, clear, stamp,
  update_sides, record_trade, record_trade_for_order, cancel_order, reject_order,
}
use fin_kit.Exchange.TradeReport.Sides.{Known, update_sides-AllBalanced, update_sides-Known}

module _ (H : Int64Map) where
  -- A new reporter, with no tracked orders, beside any orders and trades.
  abbrev pub start :
      ℤ → (Ref → Order) → (Ref → Trade) → (Ref → TrackedOrder) → Heap × TradeReporter H
  start capacity orders trades tracked = (
    record { orders = orders; trades = trades; tracked = tracked; next_tracked = 0 },
    new_trade_reporter_with_capacity H capacity,
  )

module _ (F : Float64) (H : Int64Map) where
  -- The calls that report on orders and trades, with what time.Now returns.
  pub data Report : Type 0 where
    registers : Ref → Report
    records : Ref → ℤ → Report
    records_for : Ref → ℤ → ℤ → Report
    cancels : ℤ → String → ℤ → Report
    rejects : ℤ → String → ℤ → Report
    unregisters : ℤ → Report
    clears : Report

  unfoldable pub respond : Report → Heap × TradeReporter H → Heap × TradeReporter H
  respond (registers order) (heap, r) = register_order H order heap r
  respond (records trade now) (heap, r) =
      let (heap', r', _) = record_trade F H trade now heap r in (heap', r')
  respond (records_for trade i now) (heap, r) =
      let (heap', r', _) = record_trade_for_order F H trade i now heap r in (heap', r')
  respond (cancels i reason now) (heap, r) = ((cancel_order F H i reason now r heap).0, r)
  respond (rejects i reason now) (heap, r) = ((reject_order F H i reason now r heap).0, r)
  respond (unregisters i) (heap, r) = (heap, unregister_order H i r)
  respond clears (heap, r) = (heap, clear H r)

  unfoldable pub run : List Report → Heap × TradeReporter H → Heap × TradeReporter H
  run [] s = s
  run (c ∷ cs) s = run cs (respond c s)

module _ (F : Float64) (H : Int64Map) (M : IsMap H) where
  -- What all calls keep.
  IsLedger : Heap × TradeReporter H → Type 0
  IsLedger (heap, r) = AllBalanced heap × Known H heap r

  register_order-IsLedger :
      (order : Ref) (heap : Heap) (r : TradeReporter H)
      → IsLedger (heap, r)
      → IsLedger (register_order H order heap r)
  unfolding IsLedger register_order total
  register_order-IsLedger order heap r (h, k) =
      let t = heap.next_tracked in
      (
        λ u there. elim (Bool-cases (nat_eqb t u)) [
          | inl same ↦ rw same record {
            quantity = add64_zero (heap.orders order).quantity;
            filled = refl;
            value = refl;
          }
          | inr other ↦
              let b = h u (ground arith) in
              rw other record { quantity = b.quantity; filled = b.filled; value = b.value }
        ],
        λ i u e. ground (arith, M.get-set Ref (heap.orders order).order_id i t r.orders, k i u),
      )

  stamp-IsLedger :
      (trade : Ref) (now : ℤ) (heap : Heap) (r : TradeReporter H)
      → IsLedger (heap, r)
      → IsLedger (stamp H trade now heap r)
  unfolding IsLedger stamp
  stamp-IsLedger trade now heap r (h, k) = (set_trade-AllBalanced trade _ heap refl refl h, k)

  update_sides-IsLedger :
      (trade : Ref) (heap : Heap) (r : TradeReporter H)
      → IsLedger (heap, r)
      → IsLedger ((update_sides H trade r heap).0, r)
  unfolding IsLedger
  update_sides-IsLedger trade heap r (h, k) =
      (update_sides-AllBalanced H trade r heap k h, update_sides-Known H trade r heap k)

  status-IsLedger :
      (t : Ref) (s : OrderStatus) (heap : Heap) (r : TradeReporter H)
      → t < heap.next_tracked
      → IsLedger (heap, r)
      → IsLedger (set_tracked t (record (heap.tracked t) { status = s }) heap, r)
  unfolding IsLedger
  status-IsLedger t s heap r there (h, k) =
      let b = h t there in
      (
        set_tracked-AllBalanced t _ heap
            (record { quantity = b.quantity; filled = b.filled; value = b.value }) h,
        k,
      )

  cancel_order-IsLedger :
      (i : ℤ) (reason : String) (now : ℤ) (heap : Heap) (r : TradeReporter H)
      → IsLedger (heap, r)
      → IsLedger ((cancel_order F H i reason now r heap).0, r)
  unfolding cancel_order IsLedger
  cancel_order-IsLedger i reason now heap r (h, k) = elim (Option-cases (H.get r.orders i)) [
    | inl missing ↦ rw (missing, cancel_order) (h, k)
    | inr (t, there) ↦
        rw (there, cancel_order) (status-IsLedger t canceled heap r (k i t there) (h, k))
  ]

  reject_order-IsLedger :
      (i : ℤ) (reason : String) (now : ℤ) (heap : Heap) (r : TradeReporter H)
      → IsLedger (heap, r)
      → IsLedger ((reject_order F H i reason now r heap).0, r)
  unfolding reject_order IsLedger
  reject_order-IsLedger i reason now heap r (h, k) = elim (Option-cases (H.get r.orders i)) [
    | inl missing ↦ rw (missing, reject_order) (h, k)
    | inr (t, there) ↦
        rw (there, reject_order) (status-IsLedger t rejected heap r (k i t there) (h, k))
  ]

  record-IsLedger :
      (trade : Ref) (now : ℤ) (heap : Heap) (r : TradeReporter H)
      → IsLedger (heap, r)
      → (let (heap1, r1) = stamp H trade now heap r in
          IsLedger ((update_sides H trade r1 heap1).0, r1))
  record-IsLedger trade now heap r l =
      let (heap1, r1) = stamp H trade now heap r in
      update_sides-IsLedger trade heap1 r1 (stamp-IsLedger trade now heap r l)

  respond-IsLedger :
      (c : Report F H) (s : Heap × TradeReporter H) → IsLedger s → IsLedger (respond F H c s)
  unfolding respond record_trade record_trade_for_order IsLedger unregister_order clear
  respond-IsLedger (registers order) (heap, r) l = register_order-IsLedger order heap r l
  respond-IsLedger (records trade now) (heap, r) l = record-IsLedger trade now heap r l
  respond-IsLedger (records_for trade i now) (heap, r) l = record-IsLedger trade now heap r l
  respond-IsLedger (cancels i reason now) (heap, r) l = cancel_order-IsLedger i reason now heap r l
  respond-IsLedger (rejects i reason now) (heap, r) l = reject_order-IsLedger i reason now heap r l
  respond-IsLedger (unregisters i) (heap, r) (h, k) =
      (h, λ j t e. k j t (ground (arith, M.get-delete Ref i j r.orders)))
  respond-IsLedger clears (heap, r) (h, k) =
      (h, λ j t e. absurd (ground (arith, M.get-clear Ref r.orders j)))

  run-IsLedger :
      (cs : List (Report F H)) (s : Heap × TradeReporter H) → IsLedger s → IsLedger (run F H cs s)
  unfolding run
  run-IsLedger [] s l = l
  run-IsLedger (c ∷ cs) s l = run-IsLedger cs (respond F H c s) (respond-IsLedger c s l)

  -- From a new reporter, after any sequence of RegisterOrder, RecordTrade, recordTradeForOrder,
  -- CancelOrder, RejectOrder, UnregisterOrder and Clear, failed calls included, each order that
  -- the reporter tracks is balanced: as int64 sums, what is filled and what remains make the
  -- order's quantity, and the quantities and the values of the order's trades add up to what is
  -- filled and to the total value. The hash map keeps its laws.
  pub run-IsBalanced :
      (capacity : ℤ) (orders : Ref → Order) (trades : Ref → Trade) (tracked : Ref → TrackedOrder)
      (cs : List (Report F H)) (i : ℤ) (t : Ref)
      → (let (heap, r) = run F H cs (start H capacity orders trades tracked) in
          H.get r.orders i ≡ some t)
      → (let (heap, r) = run F H cs (start H capacity orders trades tracked) in
          IsBalanced heap (heap.tracked t))
  unfolding IsLedger new_trade_reporter_with_capacity
  run-IsBalanced capacity orders trades tracked cs i t there =
      let (h, k) = run-IsLedger cs (start H capacity orders trades tracked) (
        λ u impossible. absurd (ground arith),
        λ j u e. absurd (ground (arith, M.get-new Ref (some (int64_map_capacity capacity)) j)),
      ) in
      h t (k i t there)
