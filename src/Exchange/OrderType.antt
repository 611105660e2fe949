-- ===== src/Exchange/OrderType.antt =====
-- exchange/order_type.go: orders, trades, reports, errors, and the two constructors of orders.
use fin_kit.Prelude.{
  ◌≡◌, refl, ◌⊎◌, inl, inr, Bool, ◌&&◌, ◌||◌, true, false, String, if◌then◌else◌, ◌==◌, string_eq,
}
use fin_kit.Prelude.Int.{ℤ, pos, leb_ℤ, ltb_ℤ}
use fin_kit.Core.{Side}

-- `OrderType` is an int: `unknown` is any value but the five constants.
pub data OrderType : Type 0 where
  limit market fok ioc iceberg : OrderType
  unknown : ℤ → OrderType

pub record Order : Type 0 where
  pub order_id : ℤ
  pub account_id : String
  pub symbol : String
  pub price : ℤ
  pub quantity : ℤ
  pub visible_qty : ℤ
  pub side : Side
  pub kind : OrderType
  pub timestamp : ℤ
  pub filled_qty : ℤ
  pub canceled_qty : ℤ
  pub remaining_qty : ℤ

pub data FillType : Type 0 where
  partial complete canceled : FillType

pub record Trade : Type 0 where
  pub trade_id : ℤ
  pub buy_order_id : ℤ
  pub sell_order_id : ℤ
  pub buy_account_id : String
  pub sell_account_id : String
  pub price : ℤ
  pub quantity : ℤ
  pub timestamp : ℤ
  pub buy_fill_type : FillType
  pub sell_fill_type : FillType
  pub buy_remaining_qty : ℤ
  pub sell_remaining_qty : ℤ

pub data OrderStatus : Type 0 where
  new partial filled canceled rejected : OrderStatus

-- The package's errors. `core` is an error of the core book, with its message; the last five are
-- built by `fmt.Errorf`.
pub data Error : Type 0 where
  nil_order nil_trade invalid_order_id invalid_account_id invalid_quantity invalid_price : Error
  order_not_found self_trade insufficient_qty invalid_order_type order_book_closed : Error
  duplicate_order_id : Error
  core : String → Error
  invalid_visible_quantity : ℤ → ℤ → Error
  order_book_not_found : String → Error
  failed_to_record_trade failed_to_add_order : Error → Error

-- Go's `(value, error)` where exactly one of the two is nil.
pub data Result {ℓ} (A : Type ℓ) : Type ℓ where
  ok : A → Result A
  err : Error → Result A

pub Result-cases {ℓ} :
    {A : Type ℓ} (x : Result A) → ((a : A) × (x ≡ ok a)) ⊎ ((e : Error) × (x ≡ err e))
Result-cases (ok a) = inl (a, refl)
Result-cases (err e) = inr (e, refl)

abbrev pub is_ok {ℓ} : {A : Type ℓ} → Result A → Bool
is_ok (ok a) = true
is_ok (err e) = false

infixl 5 ◌>>=◌
abbrev pub ◌>>=◌ {ℓ κ} : {A : Type ℓ} {B : Type κ} → Result A → (A → Result B) → Result B
ok a >>= f = f a
err e >>= f = err e

-- `orderType == OrderTypeLimit`
abbrev pub is_limit : OrderType → Bool
is_limit limit = true
is_limit _ = false

abbrev pub is_iceberg : OrderType → Bool
is_iceberg iceberg = true
is_iceberg _ = false

unfoldable pub new_order : ℤ → String → ℤ → ℤ → Side → OrderType → Result Order
new_order order_id account_id price quantity side order_type =
    if leb_ℤ order_id (pos 0)
    then err invalid_order_id
    else if account_id == ""
    then err invalid_account_id
    else if leb_ℤ quantity (pos 0)
    then err invalid_quantity
    else if is_limit order_type && leb_ℤ price (pos 0)
    then err invalid_price
    else ok (record {
      order_id = order_id;
      account_id = account_id;
      symbol = "";
      price = price;
      quantity = quantity;
      visible_qty = pos 0;
      side = side;
      kind = order_type;
      timestamp = pos 0;
      filled_qty = pos 0;
      canceled_qty = pos 0;
      remaining_qty = quantity;
    })

unfoldable pub new_iceberg_order : ℤ → String → ℤ → ℤ → ℤ → Side → Result Order
new_iceberg_order order_id account_id price quantity visible_qty side =
    if leb_ℤ visible_qty (pos 0) || ltb_ℤ quantity visible_qty
    then err (invalid_visible_quantity visible_qty quantity)
    else (new_order order_id account_id price quantity side iceberg >>= λ order.
        ok (record order { visible_qty = visible_qty }))
