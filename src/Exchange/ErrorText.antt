-- ===== src/Exchange/ErrorText.antt =====
-- The texts of package exchange's errors, which a rejected order's report gives as the reason: the
-- errors of exchange/order_type.go, and those that fmt.Errorf makes of them.
mod Tests
use fin_kit.Prelude.{ℕ, zero, suc, ◌/◌, ◌%◌, String, if◌then◌else◌, ltb, nat_eqb}
use fin_kit.Prelude.Int.{ℤ, pos, negsuc}
use Prim.Native.String.{◌++◌ as ◌<>◌}
use fin_kit.Exchange.OrderType.{
  Error, nil_order, nil_trade, invalid_order_id, invalid_account_id, invalid_quantity,
  invalid_price, order_not_found, self_trade, insufficient_qty, invalid_order_type,
  order_book_closed, duplicate_order_id, core, invalid_visible_quantity, order_book_not_found,
  failed_to_record_trade, failed_to_add_order,
}

digit : ℕ → String
digit d =
    if nat_eqb d 0
    then "0"
    else if nat_eqb d 1
    then "1"
    else if nat_eqb d 2
    then "2"
    else if nat_eqb d 3
    then "3"
    else if nat_eqb d 4
    then "4"
    else if nat_eqb d 5
    then "5"
    else if nat_eqb d 6
    then "6"
    else if nat_eqb d 7
    then "7"
    else if nat_eqb d 8
    then "8"
    else "9"

-- The last digits of a number, as many as the fuel says, without leading zeros.
unfoldable pub digits : ℕ → ℕ → String
unfolding digit
digits zero n = ""
digits (suc fuel) n =
    let front = digits fuel (n / 10) in if ltb n 10 then digit n else front <> digit (n % 10)

-- `%d` of an int64: it has 19 digits at most.
unfoldable pub decimal : ℤ → String
unfolding digits
decimal (pos n) = digits 19 n
decimal (negsuc n) = "-" <> digits 19 (suc n)

unfoldable pub error_text : Error → String
unfolding decimal
error_text nil_order = "nil order"
error_text nil_trade = "nil trade"
error_text invalid_order_id = "invalid order ID"
error_text invalid_account_id = "invalid account ID"
error_text invalid_quantity = "invalid quantity"
error_text invalid_price = "invalid price"
error_text order_not_found = "order not found"
error_text self_trade = "self-trade detected"
error_text insufficient_qty = "insufficient quantity for FOK order"
error_text invalid_order_type = "invalid order type"
error_text order_book_closed = "order book closed"
error_text duplicate_order_id = "duplicate order ID"
error_text (core message) = message
error_text (invalid_visible_quantity visible total) =
    "invalid visible quantity: " <> decimal visible <> " (total: " <> decimal total <> ")"
error_text (order_book_not_found symbol) = "order book not found for symbol: " <> symbol
error_text (failed_to_record_trade e) = "failed to record trade: " <> error_text e
error_text (failed_to_add_order e) = "failed to add order to book: " <> error_text e
