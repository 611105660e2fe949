-- ===== src/Exchange/Engine/Runs.antt =====
-- exchange/matching_engine.go: any sequence of calls on a new engine, and on one that is closed.
use fin_kit.Prelude.{
  ℕ, suc, ◌≡◌, false, Option, none, some, List, [], ◌∷◌, String, arith, string_eq, Option-cases,
  Bool-cases, inl, inr,
}
use fin_kit.Prelude.Int.{ℤ, int_eq}
use fin_kit.Prelude.Dict.{Dict, lookup, Values, lookup-Values, insert-Values}
use fin_kit.Core.{CoreBook, IsBook, Int64Map, IsMap, Float64}
use fin_kit.Exchange.OrderType.{order_book_closed, Result-cases}
use fin_kit.Exchange.OrderBook.{OrderBook, remove_order, get_order, get_account_id}
use fin_kit.Exchange.OrderBook.Agreement.{Agrees, clear-Agrees, remove_order-Agrees}
use fin_kit.Exchange.Heap.{Ref}
use fin_kit.Exchange.Engine.State.{
  World, MatchingEngine, new_matching_engine, put_book, get_order_book, Reply,
}
use fin_kit.Exchange.Engine.Books.{AllAgree, submit_order-AllAgree, cancel_order-AllAgree}
use fin_kit.Exchange.Engine.{
  State, replacement, new_object, clear_books, close, submit_order, cancel_order, modify_order,
}

-- The calls that change the engine; `none` is a nil order.
pub data Request : Type 0 where
  submits : Option Ref → Request
  cancels : String → ℤ → String → Request
  modifies : String → ℤ → ℤ → ℤ → Request
  closes : Request

module _ (F : Float64) (C : CoreBook) (H : Int64Map) (clock : ℕ → ℤ) where
  unfoldable pub respond : Request → State F C H clock → State F C H clock
  respond (submits p) s = (submit_order F C H clock p s).0
  respond (cancels symbol i reason) s = (cancel_order F C H clock symbol i reason s).0
  respond (modifies symbol i q p) s = (modify_order F C H clock symbol i q p s).0
  respond closes (e, w) = (close C H e, w)

  unfoldable pub run : List Request → State F C H clock → State F C H clock
  run [] s = s
  run (r ∷ rs) s = run rs (respond r s)

module _ (F : Float64) (C : CoreBook) (H : Int64Map) (clock : ℕ → ℤ) (B : IsBook C)
    (M : IsMap H) where
  clear_books-Agrees :
      (d : Dict String (OrderBook C H))
      → Values (Agrees C H) d
      → Values (Agrees C H) (clear_books C H d)
  unfolding clear_books
  clear_books-Agrees [] h = tt
  clear_books-Agrees ((symbol, ob) ∷ d) (a, h) = (clear-Agrees C H B M ob, clear_books-Agrees d h)

  modify_order-AllAgree :
      (symbol : String) (i q p : ℤ) (e : MatchingEngine C H) (w : World)
      → AllAgree C H e
      → AllAgree C H (modify_order F C H clock symbol i q p (e, w)).0.0
  unfolding modify_order get_order_book put_book
  modify_order-AllAgree symbol i q p e w h = elim (Bool-cases e.running) [
    | inr stopped ↦ rw (stopped, modify_order) h
    | inl runs ↦ elim (Option-cases (lookup symbol e.order_books)) [
      | inl missing ↦ rw (runs, missing, modify_order, get_order_book) h
      | inr (ob, there) ↦ elim (Result-cases (get_order C H i ob)) [
        | inr (f, failed) ↦ rw (runs, there, failed, modify_order, get_order_book) h
        | inl (existing, fine) ↦ elim (Option-cases (get_account_id C H ob i)) [
          | inl unknown ↦ rw (runs, there, fine, unknown, modify_order, get_order_book) h
          | inr (account, known) ↦
              let a = lookup-Values (Agrees C H) symbol e.order_books h there in
              let order = replacement i account existing q p (clock w.ticks) in
              let w1 = new_object order (record w { ticks = suc w.ticks }) in
              let (ob1, check, _) = remove_order C H i ob e.self_trade_check in
              let e1 = put_book C H symbol ob1 (record e { self_trade_check = check }) in
              let b =
                insert-Values (Agrees C H) symbol _ e.order_books
                  (remove_order-Agrees C H B M i ob e.self_trade_check a) h in
              elim (Option-cases (remove_order C H i ob e.self_trade_check).2) [
                | inr (f, failed) ↦
                    rw (runs, there, fine, known, failed, modify_order, get_order_book) b
                | inl removed ↦
                    rw (runs, there, fine, known, removed, modify_order, get_order_book)
                      (submit_order-AllAgree F C H clock B M (some w.next_order) e1 w1 b)
              ]
        ]
      ]
    ]
  ]

  respond-AllAgree :
      (r : Request) (s : State F C H clock)
      → AllAgree C H s.0
      → AllAgree C H (respond F C H clock r s).0
  unfolding respond close
  respond-AllAgree (submits p) (e, w) h = submit_order-AllAgree F C H clock B M p e w h
  respond-AllAgree (cancels symbol i reason) (e, w) h =
      cancel_order-AllAgree F C H clock B M symbol i reason e w h
  respond-AllAgree (modifies symbol i q p) (e, w) h = modify_order-AllAgree symbol i q p e w h
  respond-AllAgree closes (e, w) h = clear_books-Agrees e.order_books h

  run-AllAgree :
      (rs : List Request) (s : State F C H clock)
      → AllAgree C H s.0
      → AllAgree C H (run F C H clock rs s).0
  unfolding run
  run-AllAgree [] s h = h
  run-AllAgree (r ∷ rs) s h = run-AllAgree rs (respond F C H clock r s) (respond-AllAgree r s h)

  -- From a new engine, after any sequence of calls of SubmitOrder, CancelOrder, ModifyOrder and
  -- Close, failed ones included, in each of the engine's books an order ID has an account exactly
  -- if the core book holds an order of that ID. The core books and the hash maps keep their laws.
  pub run-new-AllAgree :
      (opts : List (ℤ → ℤ)) (w : World) (rs : List Request)
      → AllAgree C H (run F C H clock rs (new_matching_engine C H opts, w)).0
  run-new-AllAgree opts w rs =
      run-AllAgree rs (new_matching_engine C H opts, w) (unfold new_matching_engine in tt)

module _ (F : Float64) (C : CoreBook) (H : Int64Map) (clock : ℕ → ℤ) where
  -- On an engine that is not running, SubmitOrder of an order, CancelOrder and ModifyOrder fail
  -- with ErrOrderBookClosed and change nothing.
  pub closed-replies :
      (e : MatchingEngine C H) (w : World)
      → e.running ≡ false
      → (order : Ref) (symbol : String) (i q p : ℤ) (reason : String)
      → (let refused : State F C H clock × Reply F = ((e, w), (none, some order_book_closed)) in
          (submit_order F C H clock (some order) (e, w) ≡ refused)
          × (cancel_order F C H clock symbol i reason (e, w) ≡ refused)
          × (modify_order F C H clock symbol i q p (e, w) ≡ refused))
  unfolding submit_order cancel_order modify_order
  closed-replies e w stopped order symbol i q p reason = (ground arith, ground arith, ground arith)
