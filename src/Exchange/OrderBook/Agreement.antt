-- ===== src/Exchange/OrderBook/Agreement.antt =====
-- exchange/orderbook.go: the account map and the core book hold the same orders, whatever calls are
-- made and whichever of them fail.
use fin_kit.Prelude.{
  ℕ, ◌≡◌, Option, none, some, List, [], ◌∷◌, String, arith, is_some, Option-cases, inl, inr,
}
use fin_kit.Prelude.Int.{ℤ, int_eq, eqb_ℤ_iff}
use fin_kit.Core.{CoreBook, IsBook, Int64Map, IsMap, CoreOrder}
use fin_kit.Exchange.OrderType.{Order, order_not_found, ok, err}
use fin_kit.Exchange.SelfTrade.{SelfTradeCheck}
use fin_kit.Exchange.OrderBook.{
  OrderBook, OrderBookOption, new_order_book, add_order, remove_order, update_order, clear,
  get_order, get_account_id, to_core_order,
}

module _ (C : CoreBook) (H : Int64Map) where
  -- An order has an account exactly if the core book has the order.
  abbrev pub Agrees : OrderBook C H → Type 0
  Agrees ob =
      (j : ℤ) → is_some (H.get ob.order_accounts j) ≡ is_some (C.get_order_details ob.core_book j)

  -- The calls that change a book.
  pub data Request : Type 0 where
    adds : Option Order → Request
    removes : ℤ → Request
    updates : ℤ → ℤ → Request
    clears : Request

  unfoldable pub respond : Request → OrderBook C H × SelfTradeCheck → OrderBook C H × SelfTradeCheck
  respond (adds order) (ob, check) =
      let (ob', check', e) = add_order C H order ob check in (ob', check')
  respond (removes i) (ob, check) =
      let (ob', check', e) = remove_order C H i ob check in (ob', check')
  respond (updates i q) (ob, check) = ((update_order C H i q ob).0, check)
  respond clears (ob, check) = (clear C H ob, check)

  pub run : List Request → OrderBook C H × SelfTradeCheck → OrderBook C H × SelfTradeCheck
  run [] s = s
  run (r ∷ rs) s = run rs (respond r s)

module _ (C : CoreBook) (H : Int64Map) (B : IsBook C) (M : IsMap H) where
  pub new_order_book-Agrees :
      (symbol : String) (id : ℕ) (opts : List OrderBookOption)
      → Agrees C H (new_order_book C H symbol id opts)
  unfolding new_order_book
  new_order_book-Agrees symbol id opts j = rw (M.get-new, B.new_details)

  pub clear-Agrees : (ob : OrderBook C H) → Agrees C H (clear C H ob)
  unfolding clear
  clear-Agrees ob j = rw (M.get-clear, B.clear_details)

  pub add_order-Agrees :
      (order : Option Order) (ob : OrderBook C H) (check : SelfTradeCheck)
      → Agrees C H ob
      → Agrees C H (add_order C H order ob check).0
  unfolding add_order to_core_order
  add_order-Agrees none ob check h j = h j
  add_order-Agrees (some order) ob check h j =
      elim (Option-cases (C.insert_order (to_core_order order) ob.core_book).1) [
        | inl done ↦ ground (
          arith,
          h j,
          B.insert_details (to_core_order order) ob.core_book j done,
          M.get-set String order.order_id j order.account_id ob.order_accounts,
        )
        | inr (message, failed) ↦
            ground (arith, h j, B.insert_failed (to_core_order order) ob.core_book j message failed)
      ]

  pub remove_order-Agrees :
      (i : ℤ) (ob : OrderBook C H) (check : SelfTradeCheck)
      → Agrees C H ob
      → Agrees C H (remove_order C H i ob check).0
  unfolding remove_order
  remove_order-Agrees i ob check h j = elim (Option-cases (C.delete_order i ob.core_book).1) [
    | inl done ↦ ground (
      arith,
      h j,
      B.delete_details i ob.core_book j done,
      M.get-delete String i j ob.order_accounts,
    )
    | inr (message, failed) ↦ ground (arith, h j, B.delete_failed i ob.core_book j message failed)
  ]

  pub update_order-Agrees :
      (i q : ℤ) (ob : OrderBook C H) → Agrees C H ob → Agrees C H (update_order C H i q ob).0
  unfolding update_order
  update_order-Agrees i q ob h j = elim (Option-cases (C.modify_order i q ob.core_book).1) [
    | inl done ↦ ground (arith, h j, B.modify_details i q ob.core_book j done, eqb_ℤ_iff i j)
    | inr (message, failed) ↦ ground (arith, h j, B.modify_failed i q ob.core_book j message failed)
  ]

  respond-Agrees :
      (r : Request C H) (s : OrderBook C H × SelfTradeCheck)
      → Agrees C H s.0
      → Agrees C H (respond C H r s).0
  unfolding respond
  respond-Agrees (adds order) (ob, check) h = add_order-Agrees order ob check h
  respond-Agrees (removes i) (ob, check) h = remove_order-Agrees i ob check h
  respond-Agrees (updates i q) (ob, check) h = update_order-Agrees i q ob h
  respond-Agrees clears (ob, check) h = clear-Agrees ob

  run-Agrees :
      (rs : List (Request C H)) (s : OrderBook C H × SelfTradeCheck)
      → Agrees C H s.0
      → Agrees C H (run C H rs s).0
  unfolding run
  run-Agrees [] s h = h
  run-Agrees (r ∷ rs) s h = run-Agrees rs (respond C H r s) (respond-Agrees r s h)

  -- From a new book, after any sequence of calls of AddOrder, RemoveOrder, UpdateOrder and Clear,
  -- failed ones included, an order ID has an account in the book exactly if the core book holds
  -- an order of that ID. The core book and the hash map keep their laws.
  pub run-new-Agrees :
      (symbol : String) (id : ℕ) (opts : List OrderBookOption) (check : SelfTradeCheck)
      (rs : List (Request C H))
      → Agrees C H (run C H rs (new_order_book C H symbol id opts, check)).0
  run-new-Agrees symbol id opts check rs =
      run-Agrees rs (new_order_book C H symbol id opts, check)
        (new_order_book-Agrees symbol id opts)

  -- After a successful AddOrder, GetOrder of the order's ID returns the order's ID, price,
  -- quantity, side and timestamp, and GetAccountID its account. The core book and the hash map
  -- keep their laws.
  pub get-add_order :
      (order : Order) (ob : OrderBook C H) (check : SelfTradeCheck)
      → (add_order C H (some order) ob check).2 ≡ none
      → (let ob' = (add_order C H (some order) ob check).0 in
          (get_order C H order.order_id ob' ≡ ok (to_core_order order))
          × (get_account_id C H ob' order.order_id ≡ some order.account_id))
  unfolding add_order get_order get_account_id to_core_order
  get-add_order order ob check h =
      elim (Option-cases (C.insert_order (to_core_order order) ob.core_book).1) [
        | inl done ↦ ground (
          arith,
          B.insert_details (to_core_order order) ob.core_book order.order_id done,
          M.get-set String order.order_id order.order_id order.account_id ob.order_accounts,
        )
        | inr (message, failed) ↦ ground arith
      ]

  -- After a successful RemoveOrder, GetOrder of the order's ID fails with ErrOrderNotFound and
  -- GetAccountID finds no account. The core book and the hash map keep their laws.
  pub get-remove_order :
      (i : ℤ) (ob : OrderBook C H) (check : SelfTradeCheck)
      → (remove_order C H i ob check).2 ≡ none
      → (let ob' = (remove_order C H i ob check).0 in
          (get_order C H i ob' ≡ err order_not_found) × (get_account_id C H ob' i ≡ none))
  unfolding remove_order get_order get_account_id
  get-remove_order i ob check h = elim (Option-cases (C.delete_order i ob.core_book).1) [
    | inl done ↦
        ground
          (arith, B.delete_details i ob.core_book i done, M.get-delete String i i ob.order_accounts)
    | inr (message, failed) ↦ ground arith
  ]

  updated :
      (i q : ℤ) (ob : OrderBook C H) (o : CoreOrder)
      → (update_order C H i q ob).1 ≡ none
      → C.get_order_details ob.core_book i ≡ some o
      → get_order C H i (update_order C H i q ob).0 ≡ ok (record o { quantity = q })
  unfolding update_order get_order
  updated i q ob o h there = elim (Option-cases (C.modify_order i q ob.core_book).1) [
    | inl done ↦ ground (arith, B.modify_details i q ob.core_book i done)
    | inr (message, failed) ↦ ground arith
  ]

  -- After a successful UpdateOrder of a book whose account map and core book hold the same
  -- orders, GetOrder returns the order it returned before, with the new quantity, and the order's
  -- account is unchanged. The core book and the hash map keep their laws.
  pub get-update_order :
      (i q : ℤ) (ob : OrderBook C H)
      → Agrees C H ob
      → (update_order C H i q ob).1 ≡ none
      → (let ob' = (update_order C H i q ob).0 in
          (o : CoreOrder) × (get_order C H i ob ≡ ok o)
          × (get_order C H i ob' ≡ ok (record o { quantity = q }))
          × (get_account_id C H ob' i ≡ get_account_id C H ob i))
  unfolding update_order get_order get_account_id
  get-update_order i q ob a h = elim (Option-cases (C.get_order_details ob.core_book i)) [
    | inl missing ↦ absurd (ground (arith, a i, M.contains-get String ob.order_accounts i))
    | inr (o, there) ↦ (o, ground arith, updated i q ob o h there, ground arith)
  ]
