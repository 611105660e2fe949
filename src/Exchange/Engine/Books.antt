-- ===== src/Exchange/Engine/Books.antt =====
-- exchange/matching_engine.go: in every book of the engine the accounts are those of the core book's
-- orders, whatever calls are made and whichever of them fail.
use fin_kit.Prelude.{
  ℕ, ◌≡◌, refl, Option, none, some, List, [], ◌∷◌, String, ◌==◌, ◌&&◌, string_eq, Option-cases,
  Bool-cases, inl, inr,
}
use fin_kit.Prelude.Int.{ℤ, pos, int_eq, ltb_ℤ}
use fin_kit.Prelude.Dict.{lookup, Values, lookup-Values, insert-Values}
use fin_kit.Core.{CoreBook, IsBook, Int64Map, IsMap, Float64}
use fin_kit.Exchange.OrderType.{
  Order, Trade, Error, FillType, partial, complete, canceled, Result-cases,
}
use fin_kit.Exchange.Matcher.{match_order}
use fin_kit.Exchange.OrderBook.{OrderBook, add_order, remove_order, get_account_id}
use fin_kit.Exchange.OrderBook.Agreement.{
  Agrees, new_order_book-Agrees, add_order-Agrees, remove_order-Agrees, update_order-Agrees,
}
use fin_kit.Exchange.Heap.{Ref, set_order}
use fin_kit.Exchange.TradeReport.Report.{ExecutionReport}
use fin_kit.Exchange.TradeReport.{register_order}
use fin_kit.Exchange.Engine.State.{
  World, MatchingEngine, put_book, get_order_book, get_or_create_order_book, book_symbol,
  validate_order,
}
use fin_kit.Exchange.Engine.Submit.{
  Settling, settle_resting, settle_sides, record_one, settle, final_report, finish, rests,
  cancels_rest, set_timestamp,
}
use fin_kit.Exchange.Engine.{process, submit_order, cancel_order, reject}

module _ (C : CoreBook) (H : Int64Map) where
  -- In each of the engine's books the account map and the core book hold the same orders.
  abbrev pub AllAgree : MatchingEngine C H → Type 0
  AllAgree e = Values (Agrees C H) e.order_books

module _ (C : CoreBook) (H : Int64Map) (B : IsBook C) (M : IsMap H) where
  settle_resting-Agrees :
      (i : ℤ) (fill : FillType) (remaining : ℤ) (s : Settling C H)
      → Agrees C H s.book
      → Agrees C H (settle_resting C H i fill remaining s).book
  unfolding settle_resting
  settle_resting-Agrees i complete remaining s h = remove_order-Agrees C H B M i s.book s.check h
  settle_resting-Agrees i partial remaining s h = update_order-Agrees C H B M i remaining s.book h
  settle_resting-Agrees i canceled remaining s h = h

  settle_sides-Agrees :
      (i : ℤ) (t : Trade) (s : Settling C H)
      → Agrees C H s.book
      → Agrees C H (settle_sides C H i t s).book
  unfolding settle_sides
  settle_sides-Agrees i t s h =
      let sold = settle_resting-Agrees t.sell_order_id t.sell_fill_type t.sell_remaining_qty s h in
      elim (Bool-cases (t.sell_order_id == i)) [
        | inl own ↦ elim (Bool-cases (t.buy_order_id == i)) [
          | inl own' ↦ rw (own, own', settle_sides) h
          | inr resting ↦
              rw (own, resting, settle_sides)
                (settle_resting-Agrees t.buy_order_id t.buy_fill_type t.buy_remaining_qty s h)
        ]
        | inr other ↦ elim (Bool-cases (t.buy_order_id == i)) [
          | inl own ↦ rw (other, own, settle_sides) sold
          | inr resting ↦
              rw (other, resting, settle_sides)
                (settle_resting-Agrees t.buy_order_id t.buy_fill_type t.buy_remaining_qty _ sold)
        ]
      ]

  get_or_create-AllAgree :
      (order : Order) (e : MatchingEngine C H)
      → AllAgree C H e
      → (let (e', ob) = get_or_create_order_book C H order e in AllAgree C H e' × Agrees C H ob)
  unfolding get_or_create_order_book put_book
  get_or_create-AllAgree order e h =
      elim (Option-cases (lookup (book_symbol order) e.order_books)) [
        | inl missing ↦
            rw (missing, get_or_create_order_book)
              (
                insert-Values (Agrees C H) (book_symbol order) _ e.order_books
                    (new_order_book-Agrees C H B M (book_symbol order) _ _) h,
                new_order_book-Agrees C H B M (book_symbol order) _ _,
              )
        | inr (ob, there) ↦
            rw (there, get_or_create_order_book)
              (h, lookup-Values (Agrees C H) (book_symbol order) e.order_books h there)
      ]

module _ (F : Float64) (C : CoreBook) (H : Int64Map) (clock : ℕ → ℤ) (B : IsBook C)
    (M : IsMap H) where
  settle-Agrees :
      (i : ℤ) (ts : List Trade) (last : Option (ExecutionReport F)) (s : Settling C H)
      → Agrees C H s.book
      → Agrees C H (settle F C H clock i ts last s).0.book
  unfolding settle
  settle-Agrees i [] last s h = h
  settle-Agrees i (t ∷ ts) last s h =
      let (s1, t1, result) = record_one F C H clock i t s in
      elim (Result-cases result) [
        | inr (e, failed) ↦ rw (failed, settle) (unfold record_one in h)
        | inl (report, done) ↦
            rw (done, settle)
              (settle-Agrees i ts (some report) (settle_sides C H i t1 s1)
                (settle_sides-Agrees C H B M i t1 s1 (unfold record_one in h)))
      ]

  final_report-Agrees :
      (p : Ref) (last : Option (ExecutionReport F)) (s : Settling C H)
      → Agrees C H s.book
      → Agrees C H (final_report F C H clock p last s).0.book
  unfolding final_report
  final_report-Agrees p last s h =
      let order = s.world.heap.orders p in
      elim (Bool-cases (cancels_rest order.kind && ltb_ℤ (pos 0) order.canceled_qty)) [
        | inl cancels ↦ rw (cancels, final_report) h
        | inr rest ↦ rw (rest, final_report) h
      ]

  finish-Agrees :
      (p : Ref) (last : Option (ExecutionReport F)) (s : Settling C H)
      → Agrees C H s.book
      → Agrees C H (finish F C H clock p last s).0.book
  unfolding finish
  finish-Agrees p last s h =
      let order = s.world.heap.orders p in
      let (book, check, _) = add_order C H (some order) s.book s.check in
      let s1 : Settling C H = record s { book = book; check = check } in
      let added = add_order-Agrees C H B M (some order) s.book s.check h in
      elim (Bool-cases (ltb_ℤ (pos 0) order.remaining_qty && rests order.kind)) [
        | inr done ↦ rw (done, finish) (final_report-Agrees p last s h)
        | inl more ↦ elim (Option-cases (add_order C H (some order) s.book s.check).2) [
          | inl fine ↦ rw (more, fine, finish) (final_report-Agrees p last s1 added)
          | inr (e, failed) ↦ rw (more, failed, finish) added
        ]
      ]

  reject-books :
      (i : ℤ) (failure : Error) (e : MatchingEngine C H) (w : World)
      → (reject F C H clock i failure (e, w)).0.0 ≡ e
  unfolding reject
  reject-books i failure e w = refl

  process-AllAgree :
      (p : Ref) (symbol : String) (ob : OrderBook C H) (e : MatchingEngine C H) (w : World)
      → AllAgree C H e
      → Agrees C H ob
      → AllAgree C H (process F C H clock p symbol ob (e, w)).0.0
  unfolding process reject put_book
  process-AllAgree p symbol ob e w h a =
      let (heap1, reporter1) = register_order H p w.heap e.trade_reporter in
      let w1 = set_timestamp clock p (record w { heap = heap1 }) in
      let (order, matched) =
        match_order C e.order_matcher (get_account_id C H ob) (w1.heap.orders p) ob.core_book in
      let w2 = record w1 { heap = set_order p order w1.heap } in
      let start : Settling C H = record {
        world = w2;
        reporter = reporter1;
        book = ob;
        check = e.self_trade_check;
      } in
      elim (Result-cases matched) [
        | inr (failure, failed) ↦ rw (failed, process) h
        | inl (trades, done) ↦
            let settled = settle F C H clock order.order_id trades none start in
            let b = settle-Agrees order.order_id trades none start a in
            elim (Result-cases settled.1) [
              | inr (failure, failed) ↦
                  rw (done, failed, process) (insert-Values (Agrees C H) symbol _ e.order_books b h)
              | inl (last, fine) ↦
                  rw (done, fine, process)
                    (insert-Values (Agrees C H) symbol _ e.order_books
                      (finish-Agrees p last settled.0 b) h)
            ]
      ]

  pub submit_order-AllAgree :
      (p : Option Ref) (e : MatchingEngine C H) (w : World)
      → AllAgree C H e
      → AllAgree C H (submit_order F C H clock p (e, w)).0.0
  unfolding submit_order reject
  submit_order-AllAgree none e w h = h
  submit_order-AllAgree (some p) e w h = elim (Bool-cases e.running) [
    | inr stopped ↦ rw (stopped, submit_order) h
    | inl runs ↦
        let order = w.heap.orders p in
        elim (Option-cases (validate_order order)) [
          | inr (failure, bad) ↦ rw (runs, bad, submit_order) h
          | inl good ↦
              let (h', a) = get_or_create-AllAgree C H B M order e h in
              let (e', ob) = get_or_create_order_book C H order e in
              rw (runs, good, submit_order) (process-AllAgree p (book_symbol order) ob e' w h' a)
        ]
  ]

  pub cancel_order-AllAgree :
      (symbol : String) (i : ℤ) (reason : String) (e : MatchingEngine C H) (w : World)
      → AllAgree C H e
      → AllAgree C H (cancel_order F C H clock symbol i reason (e, w)).0.0
  unfolding cancel_order get_order_book put_book
  cancel_order-AllAgree symbol i reason e w h = elim (Bool-cases e.running) [
    | inr stopped ↦ rw (stopped, cancel_order) h
    | inl runs ↦ elim (Option-cases (lookup symbol e.order_books)) [
      | inl missing ↦ rw (runs, missing, cancel_order, get_order_book) h
      | inr (ob, there) ↦
          let a = lookup-Values (Agrees C H) symbol e.order_books h there in
          let b =
            insert-Values (Agrees C H) symbol _ e.order_books
              (remove_order-Agrees C H B M i ob e.self_trade_check a) h in
          elim (Option-cases (remove_order C H i ob e.self_trade_check).2) [
            | inl fine ↦ rw (runs, there, fine, cancel_order, get_order_book) b
            | inr (f, failed) ↦ rw (runs, there, failed, cancel_order, get_order_book) b
          ]
    ]
  ]
