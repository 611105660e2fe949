-- ===== src/Exchange/Matcher.antt =====
-- exchange/order_matcher.go. An order and a list of trades that Go changes through a pointer are
-- passed and returned. The reporter that a matcher holds is not used by it, and the self-trade
-- check is used for its stateless test only, so a matcher is its depth limit.
pub mod Step
pub mod Offers
pub mod Greedy
pub mod Amounts
pub mod Fills
pub mod Dispatch
pub mod Terms
pub mod Resting
pub mod Liquidity
pub mod Fok
pub mod Validation
mod Tests
use fin_kit.Prelude.{
  ℕ, Bool, true, false, ◌&&◌, ◌||◌, not, Option, none, some, List, [], ◌∷◌, String, if◌then◌else◌,
  ◌==◌, string_eq, nat_eqb,
}
use fin_kit.Prelude.Int.{ℤ, pos, leb_ℤ, ltb_ℤ}
use fin_kit.Prelude.Int64.{add64}
use fin_kit.Core.{CoreOrder, PriceLevel, CoreBook, is_buy}
use fin_kit.Exchange.OrderType.{
  Order, OrderType, limit, market, fok, ioc, iceberg, unknown, is_limit, is_iceberg, Trade, Error,
  invalid_order_id, invalid_account_id, invalid_quantity, invalid_price, invalid_order_type,
  insufficient_qty, nil_order, Result, ok, err,
}
use fin_kit.Exchange.SelfTrade.{check}
use Step.{
  Matching, is_price_match, match_level, match_levels, add_available_liquidity, create_trade,
}

pub record OrderMatcher : Type 0 where
  pub max_depth_levels : ℤ

unfoldable pub new_order_matcher : OrderMatcher
new_order_matcher = record { max_depth_levels = pos 100 }

unfoldable pub new_order_matcher_with_depth : ℤ → OrderMatcher
new_order_matcher_with_depth depth = record {
  max_depth_levels = if leb_ℤ depth (pos 0) then pos 100 else depth;
}

unfoldable pub set_max_depth_levels : ℤ → OrderMatcher → OrderMatcher
set_max_depth_levels levels m =
    if ltb_ℤ (pos 0) levels then record m { max_depth_levels = levels } else m

-- What stops an order before it is matched; `none` is a nil error.
unfoldable pub validate_order : Order → Option Error
validate_order order =
    if leb_ℤ order.order_id (pos 0)
    then some invalid_order_id
    else if order.account_id == ""
    then some invalid_account_id
    else if leb_ℤ order.quantity (pos 0)
    then some invalid_quantity
    else if (is_limit order.kind || is_iceberg order.kind) && leb_ℤ order.price (pos 0)
    then some invalid_price
    else none

abbrev pub is_fok : OrderType → Bool
is_fok fok = true
is_fok _ = false

module _ (C : CoreBook) where
  open C use {Book, get_best_bid, get_best_ask, get_top_n_bids, get_top_n_asks}

  unfoldable pub best_opposite_level : Order → Book → Option PriceLevel
  best_opposite_level order ob = if is_buy order.side then get_best_ask ob else get_best_bid ob

  unfoldable pub top_opposite_levels : OrderMatcher → Order → Book → List (Option PriceLevel)
  top_opposite_levels m order ob =
      if is_buy order.side
      then get_top_n_asks ob m.max_depth_levels
      else get_top_n_bids ob m.max_depth_levels

  module _ (m : OrderMatcher) (lookup_account : ℤ → Option String) where
    -- The best level and then, if something remains, the others.
    sweep : Order → Book → Bool → PriceLevel → Matching
    sweep order ob check_price best =
        let first =
          match_level lookup_account best
            (record { order = order; remaining = order.quantity; trades = [] }) in
        if ltb_ℤ (pos 0) first.remaining
        then match_levels lookup_account best.address check_price
            (top_opposite_levels m first.order ob) first
        else first

    -- A market order keeps nothing: what is not filled is canceled.
    unfoldable pub cancel_rest : ℤ → Order → Order
    cancel_rest remaining order =
        if ltb_ℤ (pos 0) remaining
        then record order { canceled_qty = remaining; remaining_qty = pos 0 }
        else order

    unfoldable pub match_market_order : Order → Book → Order × Result (List Trade)
    unfolding sweep cancel_rest
    match_market_order order ob = elim (best_opposite_level order ob) [
      | none ↦ (record order { canceled_qty = order.quantity; remaining_qty = pos 0 }, ok [])
      | some best ↦
          let s = sweep order ob false best in (cancel_rest s.remaining s.order, ok s.trades)
    ]

    unfoldable pub match_limit_order : Order → Book → Order × Result (List Trade)
    unfolding sweep
    match_limit_order order ob = elim (best_opposite_level order ob) [
      | none ↦ (order, ok [])
      | some best ↦
          if not (is_price_match order best.price)
          then (order, ok [])
          else (let s = sweep order ob true best in (s.order, ok s.trades))
    ]

    -- An order whose type is neither limit nor FOK is not held to its price here.
    unfoldable pub add_levels : Order → ℕ → List (Option PriceLevel) → ℤ → ℤ
    add_levels order skip [] available = available
    add_levels order skip (none ∷ levels) available = add_levels order skip levels available
    add_levels order skip (some level ∷ levels) available =
        let skipped = add_levels order skip levels available in
        let more = add_available_liquidity lookup_account order level available in
        let rest = add_levels order skip levels more in
        if nat_eqb level.address skip
        then skipped
        else if (is_limit order.kind || is_fok order.kind) && not (is_price_match order level.price)
        then available
        else if leb_ℤ order.quantity more
        then more
        else rest

    unfoldable pub get_available_liquidity : Order → Book → ℤ
    unfolding add_levels
    get_available_liquidity order ob = elim (best_opposite_level order ob) [
      | none ↦ pos 0
      | some best ↦
          let available = add_available_liquidity lookup_account order best (pos 0) in
          if leb_ℤ order.quantity available
          then available
          else add_levels order best.address (top_opposite_levels m order ob) available
    ]

    pub match_fok_order : Order → Book → Order × Result (List Trade)
    match_fok_order order ob =
        if ltb_ℤ (get_available_liquidity order ob) order.quantity
        then (order, err insufficient_qty)
        else match_limit_order order ob

    -- `if order.RemainingQty > 0`
    unfoldable pub cancel_remaining : Order → Order
    cancel_remaining order =
        if ltb_ℤ (pos 0) order.remaining_qty
        then record order { canceled_qty = order.remaining_qty; remaining_qty = pos 0 }
        else order

    unfoldable pub match_ioc_order : Order → Book → Order × Result (List Trade)
    unfolding cancel_remaining
    match_ioc_order order ob =
        let (order', r) = match_limit_order order ob in
        elim r [ err e ↦ (order', err e) | ok trades ↦ (cancel_remaining order', ok trades) ]

    pub match_iceberg_order : Order → Book → Order × Result (List Trade)
    match_iceberg_order order ob = match_limit_order order ob

    unfoldable pub by_type : OrderType → Order → Book → Order × Result (List Trade)
    by_type market order ob = match_market_order order ob
    by_type fok order ob = match_fok_order order ob
    by_type ioc order ob = match_ioc_order order ob
    by_type limit order ob = match_limit_order order ob
    by_type iceberg order ob = match_iceberg_order order ob
    by_type (unknown n) order ob = (order, err invalid_order_type)

    -- `Match` for an order that is not nil.
    unfoldable pub match_order : Order → Book → Order × Result (List Trade)
    unfolding by_type
    match_order order ob = elim (validate_order order) [
      | some e ↦ (order, err e)
      | none ↦ by_type order.kind order ob
    ]
