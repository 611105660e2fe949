-- ===== src/Exchange/Engine/State.antt =====
-- exchange/matching_engine.go: the engine's state, what surrounds it, and its order books.
use fin_kit.Prelude.{
  ℕ, ◌+◌, ◌%◌, ◌^◌, Bool, true, Option, none, some, List, [], ◌∷◌, String, if◌then◌else◌, ◌==◌,
  string_eq, length, ◌&&◌, ◌||◌,
}
use fin_kit.Prelude.Int.{ℤ, pos, leb_ℤ, ltb_ℤ, int_eq}
use fin_kit.Prelude.Dict.{Dict, lookup, insert}
use fin_kit.Core.{CoreBook, Int64Map, Float64}
use fin_kit.Exchange.OrderType.{
  Order, Error, invalid_order_id, invalid_account_id, invalid_quantity, invalid_price,
  order_book_not_found, Result, ok, err, is_limit, is_iceberg,
}
use fin_kit.Exchange.SelfTrade.{SelfTradeCheck, new_self_trade_check}
use fin_kit.Exchange.Matcher.{OrderMatcher, new_order_matcher}
use fin_kit.Exchange.OrderBook.{
  OrderBook, new_order_book, with_order_capacity, without_self_trade_tracking,
}
use fin_kit.Exchange.Heap.{Ref, Heap}
use fin_kit.Exchange.TradeReport.Report.{ExecutionReport}
use fin_kit.Exchange.TradeReport.{TradeReporter, new_trade_reporter_with_capacity}

-- What the engine's code changes beside the engine: the heap, the pointers that the next new order
-- and the next new trade get, and how many times the clock has been read.
pub record World : Type 0 where
  pub heap : Heap
  pub next_order : Ref
  pub next_trade : Ref
  pub ticks : ℕ

-- The options' effect on the configuration, whose one field is the capacity.
unfoldable pub with_matching_engine_order_capacity : ℤ → ℤ → ℤ
with_matching_engine_order_capacity capacity cfg = if ltb_ℤ (pos 0) capacity then capacity else cfg

unfoldable pub apply_options : List (ℤ → ℤ) → ℤ → ℤ
apply_options [] cfg = cfg
apply_options (opt ∷ opts) cfg = apply_options opts (opt cfg)

-- `none` is a nil error.
unfoldable pub validate_order : Order → Option Error
validate_order order =
    if leb_ℤ order.order_id (pos 0)
    then some invalid_order_id
    else if order.account_id == ""
    then some invalid_account_id
    else if leb_ℤ order.quantity (pos 0)
    then some invalid_quantity
    else if (is_limit order.kind || is_iceberg order.kind) && leb_ℤ order.price (pos 0)
    then some invalid_price
    else none

-- The symbol whose book takes the order.
unfoldable pub book_symbol : Order → String
book_symbol order = if order.symbol == "" then "DEFAULT" else order.symbol

module _ (C : CoreBook) (H : Int64Map) where
  -- The books, which only the engine's map points to, stand in the map.
  pub record MatchingEngine : Type 0 where
    pub order_books : Dict String (OrderBook C H)
    pub self_trade_check : SelfTradeCheck
    pub trade_reporter : TradeReporter H
    pub order_matcher : OrderMatcher
    pub order_id_counter : ℤ
    pub running : Bool
    pub order_capacity : ℤ

  unfoldable pub new_matching_engine : List (ℤ → ℤ) → MatchingEngine
  new_matching_engine opts =
      let capacity = apply_options opts (pos 0) in
      record {
        order_books = [];
        self_trade_check = new_self_trade_check;
        trade_reporter = new_trade_reporter_with_capacity H capacity;
        order_matcher = new_order_matcher;
        order_id_counter = pos 0;
        running = true;
        order_capacity = capacity;
      }

  unfoldable pub get_order_book : String → MatchingEngine → Result (OrderBook C H)
  get_order_book symbol e = elim (lookup symbol e.order_books) [
    | none ↦ err (order_book_not_found symbol)
    | some ob ↦ ok ob
  ]

  -- The book of a symbol, as another call has left it.
  unfoldable pub put_book : String → OrderBook C H → MatchingEngine → MatchingEngine
  put_book symbol ob e = record e { order_books = insert symbol ob e.order_books }

  -- The error is always nil. The second lookup, under the write lock, sees what the first saw:
  -- calls run one at a time.
  unfoldable pub get_or_create_order_book : Order → MatchingEngine → MatchingEngine × OrderBook C H
  unfolding put_book book_symbol
  get_or_create_order_book order e =
      let symbol = book_symbol order in
      elim (lookup symbol e.order_books) [
        | some ob ↦ (e, ob)
        | none ↦
            let id = (length e.order_books + 1) % 2 ^ 32 in
            let ob =
              new_order_book C H symbol id
                (with_order_capacity e.order_capacity ∷ without_self_trade_tracking ∷ []) in
            (put_book symbol ob e, ob)
      ]

-- Go's `(report, error)`: each of the two can be nil.
abbrev pub Reply : Float64 → Type 0
Reply F = Option (ExecutionReport F) × Option Error

abbrev pub reply : (F : Float64) → Result (ExecutionReport F) → Reply F
reply F (ok report) = (some report, none)
reply F (err e) = (none, some e)
