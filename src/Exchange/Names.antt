-- ===== src/Exchange/Names.antt =====
-- exchange/order_type.go: the String methods. A fill type and a status are always one of their
-- constants, so the default of their switches is not reached.
use fin_kit.Prelude.{String}
use Prim.Native.String.{◌++◌ as ◌<>◌}
use fin_kit.Exchange.OrderType.{
  OrderType, limit, market, fok, ioc, iceberg, FillType, complete, OrderStatus, new, filled,
  rejected,
}
use fin_kit.Exchange.ErrorText.{decimal}

unfoldable pub order_type_name : OrderType → String
unfolding decimal
order_type_name limit = "Limit"
order_type_name market = "Market"
order_type_name fok = "FOK"
order_type_name ioc = "IOC"
order_type_name iceberg = "Iceberg"
order_type_name (OrderType.unknown n) = "Unknown(" <> decimal n <> ")"

unfoldable pub fill_type_name : FillType → String
fill_type_name FillType.partial = "Partial"
fill_type_name complete = "Complete"
fill_type_name FillType.canceled = "Canceled"

unfoldable pub order_status_name : OrderStatus → String
order_status_name new = "New"
order_status_name OrderStatus.partial = "Partial"
order_status_name filled = "Filled"
order_status_name OrderStatus.canceled = "Canceled"
order_status_name rejected = "Rejected"
