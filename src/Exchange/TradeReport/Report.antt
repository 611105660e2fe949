-- ===== src/Exchange/TradeReport/Report.antt =====
-- exchange/trade_report.go: what the reporter computes of one tracked order, and its reports.
use fin_kit.Prelude.{List, [], ◌∷◌, ◌++◌, String, if◌then◌else◌}
use fin_kit.Prelude.Int.{ℤ, pos, int_eq, leb_ℤ, ltb_ℤ}
use fin_kit.Prelude.Int64.{add64, sub64, mul64}
use fin_kit.Prelude.Dict.{Dict}
use fin_kit.Core.{Float64}
use fin_kit.Exchange.OrderType.{
  Order, OrderStatus, new, partial, filled, canceled, rejected, FillType, complete,
}
use fin_kit.Exchange.Heap.{Ref, TrackedOrder, Heap}

unfoldable pub get_fill_type_from_status : OrderStatus → FillType
get_fill_type_from_status filled = complete
get_fill_type_from_status partial = partial
get_fill_type_from_status canceled = canceled
get_fill_type_from_status new = partial
get_fill_type_from_status rejected = partial

-- What updateOrderState makes of the tracked order, and of the order it points to.
unfoldable pub add_fill : ℤ → ℤ → Ref → TrackedOrder → TrackedOrder
add_fill qty price trade tracked =
    let remaining = sub64 tracked.remaining_qty qty in
    record tracked {
      status = if leb_ℤ remaining (pos 0) then filled else partial;
      filled_qty = add64 tracked.filled_qty qty;
      remaining_qty = remaining;
      total_value = add64 tracked.total_value (mul64 price qty);
      trades = tracked.trades ++ (trade ∷ []);
    }

unfoldable pub sync : TrackedOrder → Order → Order
sync tracked order = record order {
  filled_qty = tracked.filled_qty;
  remaining_qty = tracked.remaining_qty;
}

pub record TradeReporterStats : Type 0 where
  pub total_orders : ℤ
  pub active_orders : ℤ
  pub filled_orders : ℤ
  pub canceled_orders : ℤ
  pub rejected_orders : ℤ
  pub total_trades : ℤ

-- The counters after one tracked order.
unfoldable pub count_order : OrderStatus → TradeReporterStats → TradeReporterStats
count_order new s = record s { active_orders = add64 s.active_orders (pos 1) }
count_order partial s = record s { active_orders = add64 s.active_orders (pos 1) }
count_order filled s = record s { filled_orders = add64 s.filled_orders (pos 1) }
count_order canceled s = record s { canceled_orders = add64 s.canceled_orders (pos 1) }
count_order rejected s = record s { rejected_orders = add64 s.rejected_orders (pos 1) }

unfoldable pub count_all : Heap → Dict ℤ Ref → TradeReporterStats → TradeReporterStats
unfolding count_order
count_all heap [] s = s
count_all heap ((_, t) ∷ rest) s = count_all heap rest (count_order (heap.tracked t).status s)

module _ (F : Float64) where
  -- exchange/order_type.go, ExecutionReport.
  pub record ExecutionReport : Type 0 where
    pub order_id : ℤ
    pub account_id : String
    pub status : OrderStatus
    pub filled_qty : ℤ
    pub remaining_qty : ℤ
    pub avg_price : F.Float
    pub trades : List Ref
    pub reject_reason : String
    pub timestamp : ℤ

  unfoldable pub average_price : TrackedOrder → F.Float
  average_price tracked =
      if ltb_ℤ (pos 0) tracked.filled_qty
      then F.divide (F.of_int64 tracked.total_value) (F.of_int64 tracked.filled_qty)
      else F.zero

  unfoldable pub execution_report : ℤ → Ref → ℤ → Heap → ExecutionReport
  unfolding average_price
  execution_report order_id t timestamp heap =
      let tracked = heap.tracked t in
      record {
        order_id = order_id;
        account_id = (heap.orders tracked.order).account_id;
        status = tracked.status;
        filled_qty = tracked.filled_qty;
        remaining_qty = tracked.remaining_qty;
        avg_price = average_price tracked;
        trades = tracked.trades;
        reject_reason = "";
        timestamp = timestamp;
      }

  unfoldable pub new_order_report : Order → ExecutionReport
  new_order_report order = record {
    order_id = order.order_id;
    account_id = order.account_id;
    status = new;
    filled_qty = order.filled_qty;
    remaining_qty = order.remaining_qty;
    avg_price = F.zero;
    trades = [];
    reject_reason = "";
    timestamp = order.timestamp;
  }

  unfoldable pub get_fill_type : ExecutionReport → FillType
  unfolding get_fill_type_from_status
  get_fill_type report = get_fill_type_from_status report.status
