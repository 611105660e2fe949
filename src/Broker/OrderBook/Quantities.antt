-- ===== src/Broker/OrderBook/Quantities.antt =====
-- broker/broker_orderbook.go: the quantities in the core book stay positive.
pub mod Runs
use fin_kit.Prelude.{
  ◌^◌, ◌≡◌, Bool, true, false, ◌&&◌, Option, none, some, List, [], ◌∷◌, arith, ◌==◌, Option-cases,
  Bool-cases, inl, inr,
}
use fin_kit.Prelude.Int.{ℤ, pos, negsuc, int_eq, ltb_ℤ, leb_ℤ, ◌-ℤ◌, -ℤ_parts}
use fin_kit.Prelude.Int64.{sub64, sub64_fits}
use fin_kit.Core.{CoreBook, IsBook, CoreOrder, Side, buy, sell, Float64}
use fin_kit.Broker.Types.{
  OrderIncrementType, order_insert, order_delete, order_modify, OrderIncrement, Trade, Level,
  ExchangeSnapshot, unix_nano,
}
use fin_kit.Broker.OrderBook.{
  virtual_order, apply_increment, apply_fill, apply_trade, insert_levels, rebuild,
}
use fin_kit.Broker.OrderBook.Increments.{inserted}

-- A positive int64.
abbrev pub is_positive : ℤ → Bool
is_positive q = ltb_ℤ (pos 0) q && ltb_ℤ q (pos (2 ^ 63))

abbrev pub sound : Option CoreOrder → Bool
sound none = true
sound (some o) = is_positive o.quantity

-- What is left by a fill of no negative quantity.
left_is_positive :
    (q t : ℤ)
    → is_positive q ≡ true
    → leb_ℤ (pos 0) t ≡ true
    → leb_ℤ q t ≡ false
    → is_positive (sub64 q t) ≡ true
left_is_positive q t h nonneg part = ground (arith, sub64_fits q t, -ℤ_parts q t)

module _ (C : CoreBook) where
  -- Every order of the book has a positive quantity.
  abbrev pub AllSound : C.Book → Type 0
  AllSound book = (j : ℤ) → sound (C.get_order_details book j) ≡ true

module _ (C : CoreBook) (B : IsBook C) where
  insert-AllSound :
      (o : CoreOrder) (book : C.Book)
      → AllSound C book
      → is_positive o.quantity ≡ true
      → AllSound C (C.insert_order o book).0
  insert-AllSound o book h good j = elim (Option-cases (C.insert_order o book).1) [
    | inl done ↦ ground (arith, h j, B.insert_details o book j done)
    | inr (message, failed) ↦ ground (arith, h j, B.insert_failed o book j message failed)
  ]

  delete-AllSound : (i : ℤ) (book : C.Book) → AllSound C book → AllSound C (C.delete_order i book).0
  delete-AllSound i book h j = elim (Option-cases (C.delete_order i book).1) [
    | inl done ↦ ground (arith, h j, B.delete_details i book j done)
    | inr (message, failed) ↦ ground (arith, h j, B.delete_failed i book j message failed)
  ]

  modify-AllSound :
      (i q : ℤ) (book : C.Book)
      → AllSound C book
      → is_positive q ≡ true
      → AllSound C (C.modify_order i q book).0
  modify-AllSound i q book h good j = elim (Option-cases (C.modify_order i q book).1) [
    | inl done ↦ elim (Option-cases (C.get_order_details book i)) [
      | inl missing ↦ ground (arith, h j, B.modify_details i q book j done)
      | inr (o, there) ↦ ground (arith, h j, B.modify_details i q book j done)
    ]
    | inr (message, failed) ↦ ground (arith, h j, B.modify_failed i q book j message failed)
  ]

-- The increments that keep the quantities positive.
abbrev pub is_sound_increment : OrderIncrement → Bool
is_sound_increment inc = elim inc.kind [
  | order_insert ↦ is_positive inc.quantity
  | order_delete ↦ true
  | order_modify ↦ is_positive inc.quantity
  | OrderIncrementType.unknown n ↦ true
]

-- The quantities of levels are int64.
abbrev pub levels_fit : List Level → Bool
levels_fit [] = true
levels_fit (l ∷ ls) = ltb_ℤ l.total_qty (pos (2 ^ 63)) && levels_fit ls

module _ (F : Float64) (C : CoreBook) (B : IsBook C) where
  pub apply_increment-AllSound :
      (inc : OrderIncrement) (book : C.Book) (kind : OrderIncrementType)
      → inc.kind ≡ kind
      → AllSound C book
      → is_sound_increment inc ≡ true
      → AllSound C (apply_increment F C inc book).0
  unfolding apply_increment
  apply_increment-AllSound inc book order_insert same h good =
      rw (same, apply_increment) (insert-AllSound C B (inserted inc) book h (ground arith))
  apply_increment-AllSound inc book order_delete same h good =
      rw (same, apply_increment) (delete-AllSound C B inc.order_id book h)
  apply_increment-AllSound inc book order_modify same h good =
      rw (same, apply_increment)
        (modify-AllSound C B inc.order_id inc.quantity book h (ground arith))
  apply_increment-AllSound inc book (OrderIncrementType.unknown n) same h good =
      rw (same, apply_increment) h

  apply_fill-AllSound :
      (i q : ℤ) (book : C.Book)
      → AllSound C book
      → leb_ℤ (pos 0) q ≡ true
      → AllSound C (apply_fill F C i q book).0
  unfolding apply_fill
  apply_fill-AllSound i q book h nonneg = elim (Bool-cases (i == pos 0)) [
    | inl zero ↦ rw (zero, apply_fill) h
    | inr nonzero ↦ elim (Option-cases (C.get_order_details book i)) [
      | inl missing ↦ rw (nonzero, missing, apply_fill) h
      | inr (o, there) ↦ elim (Bool-cases (leb_ℤ o.quantity q)) [
        | inl whole ↦ rw (nonzero, there, whole, apply_fill) (delete-AllSound C B i book h)
        | inr part ↦
            rw (nonzero, there, part, apply_fill)
              (modify-AllSound C B i (sub64 o.quantity q) book h
                (left_is_positive o.quantity q (ground (arith, h i)) nonneg part))
      ]
    ]
  ]

  pub apply_trade-AllSound :
      (t : Trade) (book : C.Book)
      → AllSound C book
      → leb_ℤ (pos 0) t.quantity ≡ true
      → AllSound C (apply_trade F C t book).0
  unfolding apply_trade
  apply_trade-AllSound t book h nonneg =
      let (bought, failed) = apply_fill F C t.buy_order_id t.quantity book in
      let first = apply_fill-AllSound t.buy_order_id t.quantity book h nonneg in
      elim (Option-cases failed) [
        | inr (e, bad) ↦ rw (bad, apply_trade) first
        | inl good ↦
            rw (good, apply_trade)
              (apply_fill-AllSound t.sell_order_id t.quantity bought first nonneg)
      ]

  insert_levels-AllSound :
      (side : Side) (timestamp : ℤ) (ls : List Level) (id : ℤ) (book : C.Book)
      → AllSound C book
      → levels_fit ls ≡ true
      → AllSound C (insert_levels F C side timestamp ls id book).0
  unfolding insert_levels
  insert_levels-AllSound side timestamp [] id book h fit = h
  insert_levels-AllSound side timestamp (l ∷ ls) id book h fit =
      elim (Bool-cases (leb_ℤ l.total_qty (pos 0))) [
        | inl skipped ↦
            rw (skipped, insert_levels)
              (insert_levels-AllSound side timestamp ls id book h (ground arith))
        | inr taken ↦
            let o = virtual_order id side timestamp l in
            let next = insert-AllSound C B o book h (ground arith) in
            elim (Option-cases (C.insert_order o book).1) [
              | inr (message, failed) ↦ rw (taken, failed, insert_levels) next
              | inl done ↦
                  rw (taken, done, insert_levels)
                    (insert_levels-AllSound side timestamp ls (sub64 id (pos 1))
                      (C.insert_order o book).0 next (ground arith))
            ]
      ]

  pub rebuild-AllSound :
      (snap : ExchangeSnapshot) (book : C.Book)
      → levels_fit snap.bids && levels_fit snap.asks ≡ true
      → AllSound C (rebuild F C snap book).0
  unfolding rebuild
  rebuild-AllSound snap book fit =
      let timestamp = unix_nano snap.timestamp in
      let (bids, id, failed) =
        insert_levels F C buy timestamp snap.bids (negsuc 0) (C.clear book) in
      let first =
        insert_levels-AllSound buy timestamp snap.bids (negsuc 0) (C.clear book)
          (λ j. ground (arith, B.clear_details book j)) (ground arith) in
      elim (Option-cases failed) [
        | inr (e, bad) ↦ rw (bad, rebuild) first
        | inl good ↦
            let second =
              insert_levels-AllSound sell timestamp snap.asks id bids first (ground arith) in
            elim (Option-cases (insert_levels F C sell timestamp snap.asks id bids).2) [
              | inr (e, bad) ↦ rw (good, bad, rebuild) second
              | inl good' ↦ rw (good, good', rebuild) second
            ]
      ]
