-- ===== src/Exchange/Matcher/Validation.antt =====
-- The validation of exchange/order_matcher.go, and the constructors of exchange/order_type.go.
use fin_kit.Prelude.{◌≡◌, ◌⊎◌, none, some, String, arith}
use fin_kit.Prelude.Int.{ℤ, pos, ◌≤ℤ◌, ◌<ℤ◌}
use fin_kit.Prelude.Int64.{IsInt64}
use fin_kit.Core.{Side}
use fin_kit.Exchange.OrderType.{
  Order, OrderType, iceberg, new_order, new_iceberg_order, invalid_price, ok,
}
use fin_kit.Exchange.Matcher.Amounts.{IsFresh}
use fin_kit.Exchange.Matcher.{validate_order}

-- Only an iceberg order is not held to a positive price by NewOrder, as it is by Match.
abbrev pub Submittable : Order → Type 0
Submittable order =
    (validate_order order ≡ none)
    ⊎ ((order.kind ≡ iceberg)
        × (order.price ≤ℤ pos 0)
        × (validate_order order ≡ some invalid_price))

-- An order that NewOrder makes of an int64 quantity is fresh (a positive quantity, all of it
-- remaining, nothing filled or canceled), and Match's validation accepts it, unless it is an
-- iceberg order at a price of zero or less, which the validation refuses as an invalid price.
pub new_order-IsFresh :
    (order_id : ℤ) (account_id : String) (price quantity : ℤ) (side : Side) (kind : OrderType)
    {order : Order}
    → IsInt64 quantity
    → new_order order_id account_id price quantity side kind ≡ ok order
    → IsFresh order × Submittable order
unfolding new_order validate_order
new_order-IsFresh order_id account_id price quantity side kind i h = ground arith

-- An order that NewIcebergOrder makes of an int64 quantity is a fresh iceberg order whose visible
-- quantity is positive and at most its quantity.
pub new_iceberg_order-IsFresh :
    (order_id : ℤ) (account_id : String) (price quantity visible_qty : ℤ) (side : Side)
    {order : Order}
    → IsInt64 quantity
    → new_iceberg_order order_id account_id price quantity visible_qty side ≡ ok order
    → IsFresh order
      × (order.kind ≡ iceberg)
      × (pos 0 <ℤ order.visible_qty)
      × (order.visible_qty ≤ℤ order.quantity)
unfolding new_iceberg_order new_order
new_iceberg_order-IsFresh order_id account_id price quantity visible_qty side i h = ground arith
