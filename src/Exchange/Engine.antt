-- ===== src/Exchange/Engine.antt =====
-- exchange/matching_engine.go: the engine over its books, matcher, self-trade check and reporter. Calls
-- run one at a time, and `clock n` is what the n-th call of time.Now returns.
pub mod State
pub mod Submit
pub mod Books
pub mod Runs
pub mod Isolation
pub mod Rejection
pub mod Unmatched
mod Tests
use fin_kit.Prelude.{
  ℕ, suc, Bool, true, false, Option, none, some, List, [], ◌∷◌, String, if◌then◌else◌, map, length,
}
use fin_kit.Prelude.Int.{ℤ, pos}
use fin_kit.Prelude.Int64.{add64}
use fin_kit.Prelude.Dict.{Dict}
use fin_kit.Core.{CoreOrder, CoreBook, Int64Map, Float64}
use fin_kit.Exchange.OrderType.{
  Order, limit, Error, nil_order, order_not_found, order_book_closed, Result, ok, err, is_ok,
}
use fin_kit.Exchange.ErrorText.{error_text}
use fin_kit.Exchange.SelfTrade.{clear as clear_check}
use fin_kit.Exchange.Matcher.{match_order}
use fin_kit.Exchange.OrderBook.{
  OrderBook, remove_order, get_order, get_account_id, clear as clear_book, get_stats as book_stats,
}
use fin_kit.Exchange.Heap.{Ref, Heap, set_order}
use fin_kit.Exchange.TradeReport.Report.{ExecutionReport}
use fin_kit.Exchange.TradeReport.{
  register_order, cancel_order as report_cancel, reject_order, get_order_report as report_of,
  clear as clear_reporter, get_stats as reporter_stats,
}
use fin_kit.Exchange.Engine.State.{
  World, MatchingEngine, validate_order, book_symbol, put_book, get_order_book,
  get_or_create_order_book, Reply, reply,
}
use fin_kit.Exchange.Engine.Submit.{set_timestamp, read_if, Settling, settle, finish}

pub record MatchingEngineStats : Type 0 where
  pub total_order_books : ℤ
  pub total_active_orders : ℤ
  pub total_trades : ℤ
  pub running : Bool

module _ (C : CoreBook) (H : Int64Map) where
  -- What Close leaves of the books.
  unfoldable pub clear_books : Dict String (OrderBook C H) → Dict String (OrderBook C H)
  clear_books [] = []
  clear_books ((symbol, ob) ∷ rest) = (symbol, clear_book C H ob) ∷ clear_books rest

  unfoldable pub close : MatchingEngine C H → MatchingEngine C H
  unfolding clear_books
  close e = record e {
    running = false;
    order_books = clear_books e.order_books;
    self_trade_check = clear_check e.self_trade_check;
    trade_reporter = clear_reporter H e.trade_reporter;
  }

  -- The sum over the books, as GetStats adds it up.
  unfoldable pub total_orders : Dict String (OrderBook C H) → ℤ → ℤ
  total_orders [] sum = sum
  total_orders ((_, ob) ∷ rest) sum = total_orders rest (add64 sum (book_stats C H ob).total_orders)

  unfoldable pub get_stats : World → MatchingEngine C H → MatchingEngineStats
  unfolding total_orders
  get_stats w e = record {
    total_order_books = pos (length e.order_books);
    total_active_orders = total_orders e.order_books (pos 0);
    total_trades = (reporter_stats H w.heap e.trade_reporter).total_trades;
    running = e.running;
  }

-- The order that ModifyOrder submits in place of the existing one.
unfoldable pub replacement : ℤ → String → CoreOrder → ℤ → ℤ → ℤ → Order
replacement i account_id existing new_quantity new_price now = record {
  order_id = i;
  account_id = account_id;
  symbol = "";
  price = new_price;
  quantity = new_quantity;
  visible_qty = pos 0;
  side = existing.side;
  kind = limit;
  timestamp = now;
  filled_qty = pos 0;
  canceled_qty = pos 0;
  remaining_qty = new_quantity;
}

-- `&Order{...}`
unfoldable pub new_object : Order → World → World
new_object order w = record w {
  heap = set_order w.next_order order w.heap;
  next_order = suc w.next_order;
}

module _ (F : Float64) (C : CoreBook) (H : Int64Map) (clock : ℕ → ℤ) where
  abbrev pub State : Type 0
  State = MatchingEngine C H × World

  unfoldable pub reject : ℤ → Error → State → State × ExecutionReport F
  reject i failure (e, w) =
      let (heap, report) =
        reject_order F H i (error_text failure) (clock w.ticks) e.trade_reporter w.heap in
      ((e, record w { heap = heap; ticks = suc w.ticks }), report)

  -- The order at `p` is matched against the book of the symbol, and the engine keeps the results.
  unfoldable pub process : Ref → String → OrderBook C H → State → State × Reply F
  unfolding reject set_timestamp
  process p symbol ob (e, w) =
      let (heap1, reporter1) = register_order H p w.heap e.trade_reporter in
      let w1 = set_timestamp clock p (record w { heap = heap1 }) in
      let (order, matched) =
        match_order C e.order_matcher (get_account_id C H ob) (w1.heap.orders p) ob.core_book in
      let w2 = record w1 { heap = set_order p order w1.heap } in
      let e1 = record e { trade_reporter = reporter1 } in
      elim matched [
        | err failure ↦
            let (s, report) = reject order.order_id failure (e1, w2) in
            (s, (some report, some failure))
        | ok trades ↦
            let (settled, result) = settle F C H clock order.order_id trades none (record {
              world = w2;
              reporter = reporter1;
              book = ob;
              check = e1.self_trade_check;
            }) in
            let finished : Settling C H × Reply F = elim result [
              | err failure ↦ (settled, (none, some failure))
              | ok last ↦ finish F C H clock p last settled
            ] in
            let (s, answer) = finished in
            (
              (
                put_book C H symbol s.book
                    (record e1 { self_trade_check = s.check; trade_reporter = s.reporter }),
                s.world,
              ),
              answer,
            )
      ]

  unfoldable pub submit_order : Option Ref → State → State × Reply F
  unfolding process reject get_or_create_order_book
  submit_order none s = (s, (none, some nil_order))
  submit_order (some p) (e, w) =
      let order = w.heap.orders p in
      if e.running
      then elim (validate_order order) [
        | some failure ↦
            let (s, report) = reject order.order_id failure (e, w) in (s, (some report, none))
        | none ↦
            let (e1, ob) = get_or_create_order_book C H order e in
            process p (book_symbol order) ob (e1, w)
      ]
      else ((e, w), (none, some order_book_closed))

  unfoldable pub cancel_order : String → ℤ → String → State → State × Reply F
  unfolding put_book get_order_book
  cancel_order symbol i reason (e, w) =
      if e.running
      then elim (get_order_book C H symbol e) [
        | err failure ↦ ((e, w), (none, some failure))
        | ok ob ↦
            let (ob1, check, failure) = remove_order C H i ob e.self_trade_check in
            let e1 = put_book C H symbol ob1 (record e { self_trade_check = check }) in
            elim failure [
              | some f ↦ ((e1, w), (none, some f))
              | none ↦
                  let (heap, result) =
                    report_cancel F H i reason (clock w.ticks) e.trade_reporter w.heap in
                  (
                    (e1, record w { heap = heap; ticks = read_if (is_ok result) w.ticks }),
                    reply F result,
                  )
            ]
      ]
      else ((e, w), (none, some order_book_closed))

  unfoldable pub modify_order : String → ℤ → ℤ → ℤ → State → State × Reply F
  unfolding put_book get_order_book submit_order replacement new_object
  modify_order symbol i new_quantity new_price (e, w) =
      if e.running
      then elim (get_order_book C H symbol e) [
        | err failure ↦ ((e, w), (none, some failure))
        | ok ob ↦ elim (get_order C H i ob) [
          | err failure ↦ ((e, w), (none, some failure))
          | ok existing ↦ elim (get_account_id C H ob i) [
            | none ↦ ((e, w), (none, some order_not_found))
            | some account_id ↦
                let order =
                  replacement i account_id existing new_quantity new_price (clock w.ticks) in
                let w1 = new_object order (record w { ticks = suc w.ticks }) in
                let (ob1, check, failure) = remove_order C H i ob e.self_trade_check in
                let e1 = put_book C H symbol ob1 (record e { self_trade_check = check }) in
                elim failure [
                  | some f ↦ ((e1, w1), (none, some f))
                  | none ↦ submit_order (some w.next_order) (e1, w1)
                ]
          ]
        ]
      ]
      else ((e, w), (none, some order_book_closed))

  unfoldable pub get_order_report : ℤ → State → State × Reply F
  get_order_report i (e, w) =
      let result = report_of F H i (clock w.ticks) e.trade_reporter w.heap in
      ((e, record w { ticks = read_if (is_ok result) w.ticks }), reply F result)
