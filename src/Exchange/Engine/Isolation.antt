-- ===== src/Exchange/Engine/Isolation.antt =====
-- exchange/matching_engine.go: which books a call changes.
use fin_kit.Prelude.{
  ℕ, suc, ◌≡◌, ◌≢◌, refl, sym, ◌∙◌, true, none, some, String, arith, nat_eqb, string_eq,
  string_eq_iff, Option-cases, Bool-cases, inl, inr,
}
use fin_kit.Prelude.Int.{ℤ, int_eq}
use fin_kit.Prelude.Dict.{Dict, lookup, insert, lookup-insert}
use fin_kit.Core.{CoreOrder, CoreBook, IsBook, Int64Map, IsMap, Float64}
use fin_kit.Exchange.OrderType.{Order, order_not_found, Result-cases, err}
use fin_kit.Exchange.Matcher.{match_order}
use fin_kit.Exchange.OrderBook.{OrderBook, remove_order, get_order, get_account_id}
use fin_kit.Exchange.OrderBook.Agreement.{get-remove_order}
use fin_kit.Exchange.Heap.{Ref}
use fin_kit.Exchange.TradeReport.{register_order}
use fin_kit.Exchange.Engine.State.{
  World, MatchingEngine, put_book, get_order_book, get_or_create_order_book, book_symbol,
  validate_order,
}
use fin_kit.Exchange.Engine.Submit.{set_timestamp}
use fin_kit.Exchange.Engine.{
  replacement, new_object, reject, process, submit_order, cancel_order, modify_order,
}

insert-other {ℓ} :
    {V : Type ℓ} (k j : String) (v : V) (d : Dict String V)
    → ◌≢◌ {A = String} k j
    → lookup j (insert k v d) ≡ lookup j d
insert-other k j v d other = ground (arith, lookup-insert k j v d, string_eq_iff k j)

pub nat_eqb_refl : (n : ℕ) → nat_eqb n n ≡ true
nat_eqb_refl n = ground arith

-- The replacement has no symbol.
replacement-default :
    (i q p now : ℤ) (account : String) (existing : CoreOrder) (w : World)
    → book_symbol ((new_object (replacement i account existing q p now) w).heap.orders w.next_order)
      ≡ "DEFAULT"
unfolding new_object replacement book_symbol
replacement-default i q p now account existing w = rw (nat_eqb_refl w.next_order, book_symbol) refl

module _ (C : CoreBook) (H : Int64Map) where
  get_or_create-other :
      (order : Order) (other : String) (e : MatchingEngine C H)
      → ◌≢◌ {A = String} (book_symbol order) other
      → lookup other (get_or_create_order_book C H order e).0.order_books
        ≡ lookup other e.order_books
  unfolding get_or_create_order_book put_book
  get_or_create-other order other e apart =
      elim (Option-cases (lookup (book_symbol order) e.order_books)) [
        | inl missing ↦
            rw (missing, get_or_create_order_book)
              (insert-other (book_symbol order) other _ e.order_books apart)
        | inr (ob, there) ↦ rw (there, get_or_create_order_book) refl
      ]

module _ (F : Float64) (C : CoreBook) (H : Int64Map) (clock : ℕ → ℤ) where
  process-other :
      (p : Ref) (symbol other : String) (ob : OrderBook C H) (e : MatchingEngine C H) (w : World)
      → ◌≢◌ {A = String} symbol other
      → lookup other (process F C H clock p symbol ob (e, w)).0.0.order_books
        ≡ lookup other e.order_books
  unfolding process reject put_book
  process-other p symbol other ob e w apart =
      let (heap1, reporter1) = register_order H p w.heap e.trade_reporter in
      let w1 = set_timestamp clock p (record w { heap = heap1 }) in
      let (order, matched) =
        match_order C e.order_matcher (get_account_id C H ob) (w1.heap.orders p) ob.core_book in
      elim (Result-cases matched) [
        | inr (failure, failed) ↦ rw (failed, process) refl
        | inl (trades, done) ↦ rw (done, process) (insert-other symbol other _ e.order_books apart)
      ]

  -- SubmitOrder leaves the book of every symbol as it is but that of the order's own symbol,
  -- which is DEFAULT if the order has none: a symbol that had no book has none, either.
  pub submit_order-other :
      (p : Ref) (other : String) (e : MatchingEngine C H) (w : World)
      → ◌≢◌ {A = String} (book_symbol (w.heap.orders p)) other
      → (let ((e', w'), _) = submit_order F C H clock (some p) (e, w) in
          lookup other e'.order_books ≡ lookup other e.order_books)
  unfolding submit_order reject
  submit_order-other p other e w apart = elim (Bool-cases e.running) [
    | inr stopped ↦ rw (stopped, submit_order) refl
    | inl runs ↦
        let order = w.heap.orders p in
        elim (Option-cases (validate_order order)) [
          | inr (failure, bad) ↦ rw (runs, bad, submit_order) refl
          | inl good ↦
              let (e', ob) = get_or_create_order_book C H order e in
              rw (runs, good, submit_order)
                (process-other p (book_symbol order) other ob e' w apart
                  ∙ get_or_create-other C H order other e apart)
        ]
  ]

module _ (F : Float64) (C : CoreBook) (H : Int64Map) (clock : ℕ → ℤ) (B : IsBook C)
    (M : IsMap H) where
  -- The book that a removal has left in the map.
  removed-gone :
      (i : ℤ) (ob ob' : OrderBook C H) (symbol : String) (e : MatchingEngine C H)
      → (remove_order C H i ob e.self_trade_check).2 ≡ none
      → lookup symbol (insert symbol (remove_order C H i ob e.self_trade_check).0 e.order_books)
        ≡ some ob'
      → (get_order C H i ob' ≡ err order_not_found) × (get_account_id C H ob' i ≡ none)
  removed-gone i ob ob' symbol e removed left =
      let gone = get-remove_order C H B M i ob e.self_trade_check removed in
      let same : (remove_order C H i ob e.self_trade_check).0 ≡ ob' = ground (
        arith,
        lookup-insert symbol symbol (remove_order C H i ob e.self_trade_check).0 e.order_books,
        string_eq_iff symbol symbol,
      ) in
      rw same at gone

  -- After a CancelOrder without error, the book of the symbol does not have the order: GetOrder
  -- of it fails with ErrOrderNotFound and it has no account. The core book and the hash map keep
  -- their laws.
  pub cancel_order-gone :
      (symbol : String) (i : ℤ) (reason : String) (e : MatchingEngine C H) (w : World)
      (ob' : OrderBook C H)
      → (cancel_order F C H clock symbol i reason (e, w)).1.1 ≡ none
      → lookup symbol (cancel_order F C H clock symbol i reason (e, w)).0.0.order_books ≡ some ob'
      → (get_order C H i ob' ≡ err order_not_found) × (get_account_id C H ob' i ≡ none)
  unfolding cancel_order get_order_book put_book
  cancel_order-gone symbol i reason e w ob' fine left = elim (Bool-cases e.running) [
    | inr stopped ↦ absurd (ground arith)
    | inl runs ↦ elim (Option-cases (lookup symbol e.order_books)) [
      | inl missing ↦ absurd (ground arith)
      | inr (ob, there) ↦ elim (Option-cases (remove_order C H i ob e.self_trade_check).2) [
        | inr (f, failed) ↦ absurd (ground arith)
        | inl removed ↦
            removed-gone i ob ob' symbol e removed
              (rw (runs, there, removed, cancel_order, get_order_book) at left)
      ]
    ]
  ]

  -- ModifyOrder leaves its book to the submission of the replacement.
  pub modify_order-left :
      (symbol : String) (i q p : ℤ) (e : MatchingEngine C H) (w : World) (ob' : OrderBook C H)
      → ((e1 : MatchingEngine C H) (account : String) (existing : CoreOrder)
          → (let order = replacement i account existing q p (clock w.ticks) in
              let w1 = new_object order (record w { ticks = suc w.ticks }) in
              lookup symbol (submit_order F C H clock (some w.next_order) (e1, w1)).0.0.order_books
              ≡ lookup symbol e1.order_books))
      → (modify_order F C H clock symbol i q p (e, w)).1.1 ≡ none
      → lookup symbol (modify_order F C H clock symbol i q p (e, w)).0.0.order_books ≡ some ob'
      → (get_order C H i ob' ≡ err order_not_found) × (get_account_id C H ob' i ≡ none)
  unfolding modify_order get_order_book put_book
  modify_order-left symbol i q p e w ob' kept fine left = elim (Bool-cases e.running) [
    | inr stopped ↦ absurd (ground arith)
    | inl runs ↦ elim (Option-cases (lookup symbol e.order_books)) [
      | inl missing ↦ absurd (ground arith)
      | inr (ob, there) ↦ elim (Result-cases (get_order C H i ob)) [
        | inr (f, failed) ↦ absurd (ground arith)
        | inl (existing, found) ↦ elim (Option-cases (get_account_id C H ob i)) [
          | inl unknown ↦ absurd (ground arith)
          | inr (account, known) ↦
              elim (Option-cases (remove_order C H i ob e.self_trade_check).2) [
                | inr (f, failed) ↦ absurd (ground arith)
                | inl removed ↦
                    let (ob1, check, _) = remove_order C H i ob e.self_trade_check in
                    let e1 = put_book C H symbol ob1 (record e { self_trade_check = check }) in
                    removed-gone i ob ob' symbol e removed (
                      sym (kept e1 account existing)
                      ∙ (rw (runs, there, found, known, removed, modify_order, get_order_book) at
                          left))
              ]
        ]
      ]
    ]
  ]

  -- After a ModifyOrder without error on a symbol that is not DEFAULT, the book of the symbol
  -- does not have the order, at its old or its new terms: GetOrder of it fails with
  -- ErrOrderNotFound and it has no account. The core book and the hash map keep their laws.
  pub modify_order-gone :
      (symbol : String) (i q p : ℤ) (e : MatchingEngine C H) (w : World) (ob' : OrderBook C H)
      → ◌≢◌ {A = String} "DEFAULT" symbol
      → (modify_order F C H clock symbol i q p (e, w)).1.1 ≡ none
      → lookup symbol (modify_order F C H clock symbol i q p (e, w)).0.0.order_books ≡ some ob'
      → (get_order C H i ob' ≡ err order_not_found) × (get_account_id C H ob' i ≡ none)
  modify_order-gone symbol i q p e w ob' apart fine left =
      modify_order-left symbol i q p e w ob'
        (λ e1 account existing.
          let order = replacement i account existing q p (clock w.ticks) in
          let w0 = record w { ticks = suc w.ticks } in
          let default = replacement-default i q p (clock w.ticks) account existing w0 in
          submit_order-other F C H clock w.next_order symbol e1 (new_object order w0)
            (λ same. apart (sym default ∙ same)))
        fine left
