-- ===== src/Broker/OrderBook/Increments.antt =====
-- broker/broker_orderbook.go, OnOrderIncrement: what becomes of each order.
use fin_kit.Prelude.{
  ◌≡◌, refl, Option, none, some, arith, if◌then◌else◌, ◌==◌, is_some, Option-cases, inl, inr,
}
use fin_kit.Prelude.Int.{ℤ, int_eq, eqb_ℤ_iff}
use fin_kit.Core.{CoreBook, IsBook, CoreOrder, with_quantity, Float64, Subscribers, Time}
use fin_kit.Broker.Types.{
  OrderIncrementType, order_insert, order_delete, order_modify, OrderIncrement, Error,
}
use fin_kit.Broker.OrderBook.{apply_increment, BrokerOrderBook, on_order_increment, conclude}

abbrev pub inserted : OrderIncrement → CoreOrder
inserted inc = record {
  order_id = inc.order_id;
  price = inc.price;
  quantity = inc.quantity;
  side = inc.side;
  timestamp = inc.timestamp;
}

-- What becomes of the order that an increment is about. The price and the side of a modification
-- are not used.
abbrev pub incremented : OrderIncrement → Option CoreOrder → Option CoreOrder
incremented inc o = elim inc.kind [
  | order_insert ↦ some (inserted inc)
  | order_delete ↦ none
  | order_modify ↦ with_quantity inc.quantity o
  | OrderIncrementType.unknown n ↦ o
]

module _ (F : Float64) (C : CoreBook) (B : IsBook C) where
  -- What a call that turns `before` into `after` does to order `j`.
  abbrev Details : OrderIncrement → ℤ → C.Book → C.Book × Option (Error F.Float) → Type 0
  Details inc j before (after, failed) = C.get_order_details after j ≡ (
      if is_some failed
      then C.get_order_details before j
      else if inc.order_id == j
      then incremented inc (C.get_order_details before j)
      else C.get_order_details before j)

  of_kind-Details :
      (inc : OrderIncrement) (book : C.Book) (j : ℤ) (kind : OrderIncrementType)
      → inc.kind ≡ kind
      → Details inc j book (apply_increment F C inc book)
  unfolding apply_increment
  of_kind-Details inc book j order_insert same =
      elim (Option-cases (C.insert_order (inserted inc) book).1) [
        | inl done ↦ ground (arith, B.insert_details (inserted inc) book j done)
        | inr (message, failed) ↦
            ground (arith, B.insert_failed (inserted inc) book j message failed)
      ]
  of_kind-Details inc book j order_delete same =
      elim (Option-cases (C.delete_order inc.order_id book).1) [
        | inl done ↦ ground (arith, B.delete_details inc.order_id book j done)
        | inr (message, failed) ↦ ground (arith, B.delete_failed inc.order_id book j message failed)
      ]
  of_kind-Details inc book j order_modify same =
      elim (Option-cases (C.modify_order inc.order_id inc.quantity book).1) [
        | inl done ↦ ground (
          arith,
          B.modify_details inc.order_id inc.quantity book j done,
          eqb_ℤ_iff inc.order_id j,
        )
        | inr (message, failed) ↦
            ground (arith, B.modify_failed inc.order_id inc.quantity book j message failed)
      ]
  of_kind-Details inc book j (OrderIncrementType.unknown n) same = ground arith

  apply_increment-Details :
      (inc : OrderIncrement) (book : C.Book) (j : ℤ)
      → Details inc j book (apply_increment F C inc book)
  apply_increment-Details inc book j = of_kind-Details inc book j inc.kind refl

module _ (F : Float64) (C : CoreBook) (N : Subscribers F) (B : IsBook C) where
  -- OnOrderIncrement that fails leaves every order of the core book as it was. Without error, an
  -- insertion puts the increment's order under its ID, a deletion removes the order of that ID, a
  -- modification gives it the new quantity and leaves its price and side, and the order under
  -- every other ID is as it was. The core book keeps its laws.
  pub on_order_increment-details :
      (inc : OrderIncrement) (now : Time) (b : BrokerOrderBook F C N) (j : ℤ)
      → (let (b', failed) = on_order_increment F C N (some inc) now b in
          C.get_order_details b'.core_book j ≡ (
            if is_some failed
            then C.get_order_details b.core_book j
            else if inc.order_id == j
            then incremented inc (C.get_order_details b.core_book j)
            else C.get_order_details b.core_book j))
  unfolding on_order_increment conclude
  on_order_increment-details inc now b j =
      elim (Option-cases (apply_increment F C inc b.core_book).1) [
        | inl fine ↦ ground (arith, fine, apply_increment-Details F C B inc b.core_book j)
        | inr (e, bad) ↦ ground (arith, bad, apply_increment-Details F C B inc b.core_book j)
      ]
