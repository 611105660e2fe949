-- ===== src/Exchange/Matcher/Step.antt =====
-- exchange/order_matcher.go: the loops over the nodes of a price level and over the levels, which
-- match orders and which add up what could be matched.
use fin_kit.Prelude.{
  ℕ, Bool, ◌&&◌, not, Option, none, some, List, [], ◌∷◌, ◌++◌, String, if◌then◌else◌, nat_eqb,
}
use fin_kit.Prelude.Int.{ℤ, pos, leb_ℤ, ltb_ℤ}
use fin_kit.Prelude.Int64.{add64, sub64}
use fin_kit.Core.{CoreOrder, PriceLevel, is_buy}
use fin_kit.Exchange.OrderType.{Order, Trade, FillType}
use fin_kit.Exchange.SelfTrade.{check}

unfoldable pub is_price_match : Order → ℤ → Bool
is_price_match order level_price =
    if is_buy order.side then leb_ℤ level_price order.price else leb_ℤ order.price level_price

-- `FillTypePartial` is the zero value of the fill types.
unfoldable pub create_trade : Order → CoreOrder → String → ℤ → ℤ → Trade
create_trade incoming resting resting_account_id quantity price =
    if is_buy incoming.side
    then record {
      trade_id = pos 0;
      buy_order_id = incoming.order_id;
      sell_order_id = resting.order_id;
      buy_account_id = incoming.account_id;
      sell_account_id = resting_account_id;
      price = price;
      quantity = quantity;
      timestamp = pos 0;
      buy_fill_type = FillType.partial;
      sell_fill_type = FillType.partial;
      buy_remaining_qty = pos 0;
      sell_remaining_qty = sub64 resting.quantity quantity;
    }
    else record {
      trade_id = pos 0;
      buy_order_id = resting.order_id;
      sell_order_id = incoming.order_id;
      buy_account_id = resting_account_id;
      sell_account_id = incoming.account_id;
      price = price;
      quantity = quantity;
      timestamp = pos 0;
      buy_fill_type = FillType.partial;
      sell_fill_type = FillType.partial;
      buy_remaining_qty = sub64 resting.quantity quantity;
      sell_remaining_qty = pos 0;
    }

-- What the loops of a match change: the incoming order, the local `remaining`, the trades so far.
pub record Matching : Type 0 where
  pub order : Order
  pub remaining : ℤ
  pub trades : List Trade

-- `matchQty`
abbrev pub match_qty : ℤ → CoreOrder → ℤ
match_qty remaining resting =
    if ltb_ℤ resting.quantity remaining then resting.quantity else remaining

-- The end of the body of matchLevel's loop: the trade, and the quantities after it.
unfoldable pub fill : ℤ → CoreOrder → String → Matching → Matching
fill level_price resting resting_account_id s =
    let qty = match_qty s.remaining resting in
    let remaining = sub64 s.remaining qty in
    record {
      order = record s.order {
        filled_qty = add64 s.order.filled_qty qty;
        remaining_qty = remaining;
      };
      remaining = remaining;
      trades = s.trades ++ create_trade s.order resting resting_account_id qty level_price ∷ [];
    }

module _ (lookup_account : ℤ → Option String) where
  unfoldable pub match_node : ℤ → CoreOrder → Matching → Matching
  match_node level_price resting s = elim (lookup_account resting.order_id) [
    | none ↦ s
    | some account ↦
        if check s.order.account_id account then s else fill level_price resting account s
  ]

  unfoldable pub match_nodes : ℤ → List (Option CoreOrder) → Matching → Matching
  match_nodes level_price [] s = s
  match_nodes level_price (none ∷ nodes) s = match_nodes level_price nodes s
  match_nodes level_price (some resting ∷ nodes) s =
      let rest = match_nodes level_price nodes (match_node level_price resting s) in
      if leb_ℤ s.remaining (pos 0) then s else rest

  unfoldable pub match_level : PriceLevel → Matching → Matching
  unfolding match_nodes
  match_level level s = match_nodes level.price level.head s

  -- `skip` is the address of `skipLevel`.
  unfoldable pub match_levels : ℕ → Bool → List (Option PriceLevel) → Matching → Matching
  match_levels skip check_price [] s = s
  match_levels skip check_price (none ∷ levels) s = match_levels skip check_price levels s
  match_levels skip check_price (some level ∷ levels) s =
      let skipped = match_levels skip check_price levels s in
      let rest = match_levels skip check_price levels (match_level level s) in
      if nat_eqb level.address skip
      then skipped
      else if leb_ℤ s.remaining (pos 0)
      then s
      else if check_price && not (is_price_match s.order level.price)
      then s
      else rest

  unfoldable pub add_nodes : Order → List (Option CoreOrder) → ℤ → ℤ
  add_nodes order [] available = available
  add_nodes order (none ∷ nodes) available = add_nodes order nodes available
  add_nodes order (some resting ∷ nodes) available =
      let skipped = add_nodes order nodes available in
      let more = add64 available resting.quantity in
      let rest = add_nodes order nodes more in
      elim (lookup_account resting.order_id) [
        | none ↦ skipped
        | some account ↦
            if check order.account_id account
            then skipped
            else if leb_ℤ order.quantity more
            then more
            else rest
      ]

  unfoldable pub add_available_liquidity : Order → PriceLevel → ℤ → ℤ
  add_available_liquidity order level available = add_nodes order level.head available
