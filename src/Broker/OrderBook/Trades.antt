-- ===== src/Broker/OrderBook/Trades.antt =====
-- broker/broker_orderbook.go, OnTrade: which orders a trade reduces or deletes.
use fin_kit.Prelude.{
  ◌≡◌, false, Option, none, some, arith, if◌then◌else◌, ◌==◌, Option-cases, Bool-cases, inl, inr,
}
use fin_kit.Prelude.Int.{ℤ, pos, int_eq, leb_ℤ, eqb_ℤ_iff}
use fin_kit.Prelude.Int64.{sub64}
use fin_kit.Core.{CoreBook, IsBook, CoreOrder, Float64, Subscribers, Time}
use fin_kit.Broker.Types.{Trade}
use fin_kit.Broker.OrderBook.{apply_fill, apply_trade, BrokerOrderBook, on_trade, conclude}

-- What is left of an order after a fill.
abbrev pub reduced : ℤ → Option CoreOrder → Option CoreOrder
reduced q none = none
reduced q (some o) =
    if leb_ℤ o.quantity q then none else some (record o { quantity = sub64 o.quantity q })

-- What becomes of order `j` by the fill of order `i`: an ID of 0 stands for no order.
abbrev pub filled_side : ℤ → ℤ → ℤ → Option CoreOrder → Option CoreOrder
filled_side i q j o = if i == pos 0 then o else if i == j then reduced q o else o

module _ (F : Float64) (C : CoreBook) (B : IsBook C) where
  present-details :
      (i q : ℤ) (book : C.Book) (j : ℤ) (o : CoreOrder)
      → (i == pos 0) ≡ false
      → C.get_order_details book i ≡ some o
      → (apply_fill F C i q book).1 ≡ none
      → C.get_order_details (apply_fill F C i q book).0 j
        ≡ filled_side i q j (C.get_order_details book j)
  unfolding apply_fill
  present-details i q book j o nonzero there fine = elim (Bool-cases (leb_ℤ o.quantity q)) [
    | inl whole ↦ elim (Option-cases (C.delete_order i book).1) [
      | inl done ↦ ground (arith, B.delete_details i book j done, eqb_ℤ_iff i j)
      | inr (message, failed) ↦ absurd (ground arith)
    ]
    | inr part ↦ elim (Option-cases (C.modify_order i (sub64 o.quantity q) book).1) [
      | inl done ↦
          ground (arith, B.modify_details i (sub64 o.quantity q) book j done, eqb_ℤ_iff i j)
      | inr (message, failed) ↦ absurd (ground arith)
    ]
  ]

  apply_fill-details :
      (i q : ℤ) (book : C.Book) (j : ℤ)
      → (apply_fill F C i q book).1 ≡ none
      → C.get_order_details (apply_fill F C i q book).0 j
        ≡ filled_side i q j (C.get_order_details book j)
  unfolding apply_fill
  apply_fill-details i q book j fine = elim (Bool-cases (i == pos 0)) [
    | inl zero ↦ ground arith
    | inr nonzero ↦ elim (Option-cases (C.get_order_details book i)) [
      | inl missing ↦ ground (arith, eqb_ℤ_iff i j)
      | inr (o, there) ↦ present-details i q book j o nonzero there fine
    ]
  ]

module _ (F : Float64) (C : CoreBook) (N : Subscribers F) (B : IsBook C) where
  -- After an OnTrade without error, the core book has under each order ID what it had before,
  -- with the trade's quantity taken from the buyer's and then from the seller's order: an order
  -- of no more than that is gone, an ID of 0 is no order, and an order that is not there stays
  -- away. The core book keeps its laws.
  pub on_trade-details :
      (trade : Trade) (now : Time) (b : BrokerOrderBook F C N) (j : ℤ)
      → (on_trade F C N (some trade) now b).1 ≡ none
      → C.get_order_details (on_trade F C N (some trade) now b).0.core_book j
        ≡ filled_side trade.sell_order_id trade.quantity j
            (filled_side trade.buy_order_id trade.quantity j (C.get_order_details b.core_book j))
  unfolding on_trade conclude apply_trade
  on_trade-details trade now b j fine =
      let (bought, failed) = apply_fill F C trade.buy_order_id trade.quantity b.core_book in
      elim (Option-cases failed) [
        | inr (e, bad) ↦ absurd (ground arith)
        | inl good ↦
            elim (Option-cases (apply_fill F C trade.sell_order_id trade.quantity bought).1) [
              | inr (e, bad) ↦ absurd (ground arith)
              | inl good' ↦ ground (
                arith,
                apply_fill-details F C B trade.buy_order_id trade.quantity b.core_book j good,
                apply_fill-details F C B trade.sell_order_id trade.quantity bought j good',
              )
            ]
      ]
