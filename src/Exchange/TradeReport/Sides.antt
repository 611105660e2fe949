-- ===== src/Exchange/TradeReport/Sides.antt =====
-- exchange/trade_report.go, updateOrderState: both sides of a trade keep the counters of all tracked
-- orders.
use fin_kit.Prelude.{◌<◌, ◌≡◌, refl, sym, ◌∙◌, ap, some, Option-cases, inl, inr}
use fin_kit.Prelude.Int.{ℤ, int_eq}
use fin_kit.Core.{Int64Map}
use fin_kit.Exchange.OrderType.{Result-cases}
use fin_kit.Exchange.Heap.{Ref, Heap, set_tracked}
use fin_kit.Exchange.TradeReport.Report.{add_fill, sync}
use fin_kit.Exchange.TradeReport.Ledger.{
  AllBalanced, set_tracked-AllBalanced, set_order-AllBalanced, set_trade-AllBalanced,
  add_fill-IsBalanced,
}
use fin_kit.Exchange.TradeReport.{TradeReporter, update_order_state, update_sides}

module _ (H : Int64Map) where
  -- The pointers that the reporter holds are of tracked orders.
  abbrev pub Known : Heap → TradeReporter H → Type 0
  Known heap r = (k : ℤ) (t : Ref) → H.get r.orders k ≡ some t → t < heap.next_tracked

  pub update_order_state-AllBalanced :
      (i q p : ℤ) (trade : Ref) (r : TradeReporter H) (heap : Heap)
      → (heap.trades trade).quantity ≡ q
      → (heap.trades trade).price ≡ p
      → Known heap r
      → AllBalanced heap
      → AllBalanced (update_order_state H i q p trade r heap).0
  unfolding update_order_state sync
  update_order_state-AllBalanced i q p trade r heap eq ep k h =
      elim (Option-cases (H.get r.orders i)) [
        | inl missing ↦ rw (missing, update_order_state) h
        | inr (t, there) ↦
            let x = add_fill q p trade (heap.tracked t) in
            let b = add_fill-IsBalanced trade (heap.tracked t) heap (h t (k i t there)) in
            rw (there, update_order_state)
              (set_order-AllBalanced _ (sync x (heap.orders x.order)) (set_tracked t x heap) refl
                (set_tracked-AllBalanced t x heap (rw (eq, ep) at b) h))
      ]

  pub update_order_state-trades :
      (i q p : ℤ) (trade : Ref) (r : TradeReporter H) (heap : Heap)
      → (update_order_state H i q p trade r heap).0.trades ≡ heap.trades
  unfolding update_order_state
  update_order_state-trades i q p trade r heap = elim (Option-cases (H.get r.orders i)) [
    | inl missing ↦ rw (missing, update_order_state) refl
    | inr (t, there) ↦ rw (there, update_order_state) refl
  ]

  pub update_order_state-Known :
      (i q p : ℤ) (trade : Ref) (r : TradeReporter H) (heap : Heap)
      → Known heap r
      → Known (update_order_state H i q p trade r heap).0 r
  unfolding update_order_state sync
  update_order_state-Known i q p trade r heap k = elim (Option-cases (H.get r.orders i)) [
    | inl missing ↦ rw (missing, update_order_state) k
    | inr (t, there) ↦ rw (there, update_order_state) k
  ]

  pub update_sides-AllBalanced :
      (trade : Ref) (r : TradeReporter H) (heap : Heap)
      → Known heap r
      → AllBalanced heap
      → AllBalanced (update_sides H trade r heap).0
  unfolding update_sides
  update_sides-AllBalanced trade r heap k h =
      let t = heap.trades trade in
      let heap1 = (update_order_state H t.buy_order_id t.quantity t.price trade r heap).0 in
      let heap2 = (update_order_state H t.sell_order_id t.quantity t.price trade r heap1).0 in
      let k1 = update_order_state-Known t.buy_order_id t.quantity t.price trade r heap k in
      let first =
        update_order_state-AllBalanced t.buy_order_id t.quantity t.price trade r heap refl refl k
          h in
      let same1 = update_order_state-trades t.buy_order_id t.quantity t.price trade r heap in
      let same2 = update_order_state-trades t.sell_order_id t.quantity t.price trade r heap1 in
      let second =
        update_order_state-AllBalanced t.sell_order_id t.quantity t.price trade r heap1
          (ap (λ m. (m trade).quantity) same1) (ap (λ m. (m trade).price) same1) k1 first in
      elim (Result-cases (update_order_state H t.buy_order_id t.quantity t.price trade r heap).1) [
        | inr (e, missing) ↦ rw (missing, update_sides) first
        | inl (b, buys) ↦
            elim (Result-cases
              (update_order_state H t.sell_order_id t.quantity t.price trade r heap1).1) [
                | inr (e, missing) ↦ rw (buys, missing, update_sides) second
                | inl (s, sells) ↦
                    rw (buys, sells, update_sides)
                      (set_trade-AllBalanced trade _ heap2
                        (sym (ap (λ m. (m trade).quantity) (same2 ∙ same1)))
                        (sym (ap (λ m. (m trade).price) (same2 ∙ same1))) second)
              ]
      ]

  pub update_sides-Known :
      (trade : Ref) (r : TradeReporter H) (heap : Heap)
      → Known heap r
      → Known (update_sides H trade r heap).0 r
  unfolding update_sides
  update_sides-Known trade r heap k =
      let t = heap.trades trade in
      let heap1 = (update_order_state H t.buy_order_id t.quantity t.price trade r heap).0 in
      let k1 = update_order_state-Known t.buy_order_id t.quantity t.price trade r heap k in
      let k2 = update_order_state-Known t.sell_order_id t.quantity t.price trade r heap1 k1 in
      elim (Result-cases (update_order_state H t.buy_order_id t.quantity t.price trade r heap).1) [
        | inr (e, missing) ↦ rw (missing, update_sides) k1
        | inl (b, buys) ↦
            elim (Result-cases
              (update_order_state H t.sell_order_id t.quantity t.price trade r heap1).1) [
                | inr (e, missing) ↦ rw (buys, missing, update_sides) k2
                | inl (s, sells) ↦ rw (buys, sells, update_sides) k2
              ]
      ]
