-- ===== src/Exchange/ErrorText/Tests.antt =====
-- Texts of errors of package exchange.
use fin_kit.Prelude.{◌≡◌, refl}
use fin_kit.Prelude.Int.{pos, negsuc}
use fin_kit.Exchange.Names.{order_type_name, order_status_name, fill_type_name}
use fin_kit.Exchange.OrderType.{
  OrderType, OrderStatus, FillType, new, invalid_visible_quantity, failed_to_record_trade,
}
use fin_kit.Exchange.ErrorText.{decimal, error_text}

visible-error_text :
    error_text (failed_to_record_trade (invalid_visible_quantity (negsuc 0) (pos 120)))
    ≡ "failed to record trade: invalid visible quantity: -1 (total: 120)"
unfolding error_text
visible-error_text = refl

least-decimal : decimal (negsuc 9_223_372_036_854_775_807) ≡ "-9223372036854775808"
unfolding decimal
least-decimal = refl

unknown-order_type_name : order_type_name (OrderType.unknown (pos 12)) ≡ "Unknown(12)"
unfolding order_type_name
unknown-order_type_name = refl

all-order_status_name :
    (order_status_name new ≡ "New")
    × (order_status_name OrderStatus.canceled ≡ "Canceled")
    × (fill_type_name FillType.partial ≡ "Partial")
unfolding order_status_name fill_type_name
all-order_status_name = (refl, refl, refl)
