-- ===== src/Exchange/Engine/Submit.antt =====
-- exchange/matching_engine.go, SubmitOrder. `clock n` is what the n-th call of time.Now returns.
use fin_kit.Prelude.{
  ℕ, suc, Bool, true, false, ◌&&◌, Option, none, some, List, [], ◌∷◌, if◌then◌else◌, ◌==◌,
}
use fin_kit.Prelude.Int.{ℤ, pos, ltb_ℤ, int_eq}
use fin_kit.Core.{CoreBook, Int64Map, Float64}
use fin_kit.Exchange.OrderType.{
  OrderType, limit, market, fok, ioc, iceberg, unknown, Trade, FillType, partial, complete,
  canceled, failed_to_record_trade, failed_to_add_order, Result, ok, err, is_ok,
}
use fin_kit.Exchange.SelfTrade.{SelfTradeCheck}
use fin_kit.Exchange.OrderBook.{OrderBook, add_order, remove_order, update_order}
use fin_kit.Exchange.Heap.{Ref, set_order, set_trade}
use fin_kit.Exchange.TradeReport.Report.{ExecutionReport, new_order_report}
use fin_kit.Exchange.TradeReport.{
  TradeReporter, record_trade_for_order, update_remaining_qty, get_order_report,
}
use fin_kit.Exchange.Engine.State.{World, Reply, reply}

-- Does the rest of an order of this type go to the book?
abbrev pub rests : OrderType → Bool
rests market = false
rests ioc = false
rests fok = false
rests limit = true
rests iceberg = true
rests (unknown n) = true

-- `order.Type == OrderTypeIOC || order.Type == OrderTypeMarket`
abbrev pub cancels_rest : OrderType → Bool
cancels_rest ioc = true
cancels_rest market = true
cancels_rest limit = false
cancels_rest fok = false
cancels_rest iceberg = false
cancels_rest (unknown n) = false

-- A call that fails before it calls time.Now does not read the clock.
abbrev pub read_if : Bool → ℕ → ℕ
read_if reads ticks = if reads then suc ticks else ticks

-- The order's timestamp is set if it is 0.
unfoldable pub set_timestamp : (ℕ → ℤ) → Ref → World → World
set_timestamp clock p w =
    let order = w.heap.orders p in
    if order.timestamp == pos 0
    then record w {
      heap = set_order p (record order { timestamp = clock w.ticks }) w.heap;
      ticks = suc w.ticks;
    }
    else w

module _ (C : CoreBook) (H : Int64Map) where
  -- What the loop over the trades changes.
  pub record Settling : Type 0 where
    pub world : World
    pub reporter : TradeReporter H
    pub book : OrderBook C H
    pub check : SelfTradeCheck

  -- What a trade does to the book of the resting order on one side; its errors are dropped.
  unfoldable pub settle_resting : ℤ → FillType → ℤ → Settling → Settling
  settle_resting i complete remaining s =
      let (book, check, _) = remove_order C H i s.book s.check in
      record s { book = book; check = check }
  settle_resting i partial remaining s = record s { book = (update_order C H i remaining s.book).0 }
  settle_resting i canceled remaining s = s

  -- Both sides of a trade, except the order that came in.
  unfoldable pub settle_sides : ℤ → Trade → Settling → Settling
  unfolding settle_resting
  settle_sides i t s =
      let s1 =
        if t.sell_order_id == i
        then s
        else settle_resting t.sell_order_id t.sell_fill_type t.sell_remaining_qty s in
      if t.buy_order_id == i
      then s1
      else settle_resting t.buy_order_id t.buy_fill_type t.buy_remaining_qty s1

module _ (F : Float64) (C : CoreBook) (H : Int64Map) (clock : ℕ → ℤ) where
  -- One trade is recorded, under a new pointer.
  unfoldable pub record_one :
      ℤ → Trade → Settling C H → Settling C H × Trade × Result (ExecutionReport F)
  record_one i t s =
      let p = s.world.next_trade in
      let (heap, reporter, result) =
        record_trade_for_order F H p i (clock s.world.ticks) (set_trade p t s.world.heap)
          s.reporter in
      (
        record s {
          world = record s.world { heap = heap; next_trade = suc p; ticks = suc s.world.ticks };
          reporter = reporter;
        },
        heap.trades p,
        result,
      )

  unfoldable pub settle :
      ℤ
      → List Trade
      → Option (ExecutionReport F)
      → Settling C H
      → Settling C H × Result (Option (ExecutionReport F))
  unfolding record_one settle_sides
  settle i [] last s = (s, ok last)
  settle i (t ∷ ts) last s =
      let (s1, t1, result) = record_one i t s in
      elim result [
        | err e ↦ (s1, err (failed_to_record_trade e))
        | ok report ↦ settle i ts (some report) (settle_sides C H i t1 s1)
      ]

  -- The report of an order that was matched.
  unfoldable pub final_report :
      Ref → Option (ExecutionReport F) → Settling C H → Settling C H × Reply F
  final_report p last s =
      let order = s.world.heap.orders p in
      if cancels_rest order.kind && ltb_ℤ (pos 0) order.canceled_qty
      then (let (heap, _) =
            update_remaining_qty H order.order_id (pos 0) order.canceled_qty s.reporter
              s.world.heap in
          let result = get_order_report F H order.order_id (clock s.world.ticks) s.reporter heap in
          let ticks = read_if (is_ok result) s.world.ticks in
          (record s { world = record s.world { heap = heap; ticks = ticks } }, reply F result))
      else (
        s,
        elim last [
          | none ↦ (some (new_order_report F order), none)
          | some report ↦ (some report, none)
        ],
      )

  -- The order's rest goes to the book.
  unfoldable pub finish : Ref → Option (ExecutionReport F) → Settling C H → Settling C H × Reply F
  unfolding final_report
  finish p last s =
      let order = s.world.heap.orders p in
      if ltb_ℤ (pos 0) order.remaining_qty && rests order.kind
      then (let (book, check, failure) = add_order C H (some order) s.book s.check in
          let s1 = record s { book = book; check = check } in
          elim failure [
            | some e ↦ (s1, (none, some (failed_to_add_order e)))
            | none ↦ final_report p last s1
          ])
      else final_report p last s
