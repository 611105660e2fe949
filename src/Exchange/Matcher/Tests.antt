-- ===== src/Exchange/Matcher/Tests.antt =====
-- Runs of the models of exchange/order_matcher.go on a small book.
use fin_kit.Prelude.{
  ℕ, ◌≡◌, refl, true, Option, none, some, List, [], ◌∷◌, map, String, arith, All, if◌then◌else◌,
  ◌==◌,
}
use fin_kit.Prelude.Int.{ℤ, pos, int_eq, ◌+ℤ◌, ◌≤ℤ◌}
use fin_kit.Prelude.Int64.{add64, sub64}
use fin_kit.Core.{buy, sell, CoreOrder, PriceLevel, CoreBook}
use fin_kit.Exchange.OrderType.{Order, OrderType, limit, market, fok, ioc, Trade, Result, ok, err}
use fin_kit.Exchange.Matcher.{
  OrderMatcher, match_order, match_limit_order, match_ioc_order, match_market_order,
  match_fok_order, best_opposite_level, top_opposite_levels, validate_order,
}
use fin_kit.Exchange.Matcher.Step.{
  is_price_match, create_trade, match_level, match_node, match_levels, fill,
}
use fin_kit.Exchange.Matcher.Offers.{node_offers, level_offers}
use fin_kit.Exchange.Matcher.Greedy.{opposite_offers, queue_from}
use fin_kit.Exchange.Matcher.Amounts.{IsFresh, offered}
use fin_kit.Exchange.Matcher.Fills.{
  Outcome, match_limit-Outcome, match_ioc-Outcome, match_market-Outcome,
}
use fin_kit.Exchange.Matcher.Dispatch.{expected, match_order-expected}
use fin_kit.Exchange.Matcher.Terms.{Parties, match_order-Parties, match_order-Acceptable}
use fin_kit.Exchange.Matcher.Resting.{Covered, match_order-Covered}
use fin_kit.Exchange.Matcher.Fok.{AllOrNothing, match_fok-AllOrNothing, match_fok_unpriced}
use fin_kit.Exchange.SelfTrade.{check}

-- A book that is its ask levels, best first.
abbrev asks_only : CoreBook
asks_only = record {
  Book = List PriceLevel;
  new_order_book = λ symbol id capacity. [];
  insert_order = λ o b. (b, none);
  delete_order = λ i b. (b, none);
  modify_order = λ i q b. (b, none);
  get_order_details = λ b i. none;
  get_best_bid = λ b. none;
  get_best_ask = λ b. elim b [ [] ↦ none | l ∷ ls ↦ some l ];
  get_top_n_bids = λ b n. [];
  get_top_n_asks = λ b n. map some b;
  get_spread = λ b. pos 0;
  get_mid_price = λ b. pos 0;
  get_bid_levels = λ b. pos 0;
  get_ask_levels = λ b. pos 0;
  get_order_count = λ b. pos 0;
  clear = λ b. [];
  symbol = λ b. "ACME";
  symbol_id = λ b. 7;
  close = λ b. (b, none);
}

abbrev resting : ℤ → ℤ → ℤ → CoreOrder
resting id price quantity = record {
  order_id = id;
  price = price;
  quantity = quantity;
  side = sell;
  timestamp = pos 0;
}

abbrev level : ℕ → ℤ → List (Option CoreOrder) → PriceLevel
level address price head = record {
  address = address;
  price = price;
  total_qty = pos 0;
  order_count = pos 0;
  head = head;
}

-- 4 at 99 by B, 5 at 99 by A, then 8 at 100 by C, then 9 at 101 by B.
abbrev asks : List PriceLevel
asks =
    level 1 (pos 99)
      (some (resting (pos 2) (pos 99) (pos 4)) ∷ some (resting (pos 3) (pos 99) (pos 5)) ∷ [])
    ∷ level 2 (pos 100) (none ∷ some (resting (pos 4) (pos 100) (pos 8)) ∷ [])
    ∷ level 3 (pos 101) (some (resting (pos 5) (pos 101) (pos 9)) ∷ [])
    ∷ []

abbrev accounts : ℤ → Option String
accounts id =
    if id == pos 2
    then some "B"
    else if id == pos 3
    then some "A"
    else if id == pos 4
    then some "C"
    else if id == pos 5
    then some "B"
    else none

abbrev matcher : OrderMatcher
matcher = record { max_depth_levels = pos 100 }

-- A buy order by A at 100.
abbrev buying : OrderType → ℤ → ℤ → Order
buying kind price quantity = record {
  order_id = pos 1;
  account_id = "A";
  symbol = "";
  price = price;
  quantity = quantity;
  visible_qty = pos 0;
  side = buy;
  kind = kind;
  timestamp = pos 0;
  filled_qty = pos 0;
  canceled_qty = pos 0;
  remaining_qty = quantity;
}

abbrev quantities : Result (List Trade) → List ℤ
quantities (ok ts) = map (λ t. t.quantity) ts
quantities (err e) = []

-- The order's own resting order is passed over, and the level at 101 is too dear.
limit_fills :
    quantities (match_order asks_only matcher accounts (buying limit (pos 100) (pos 20)) asks).1
    ≡ pos 4 ∷ pos 8 ∷ []
unfolding match_order match_limit_order validate_order best_opposite_level top_opposite_levels
    match_level match_node match_levels fill is_price_match create_trade check add64 sub64
limit_fills = refl

-- The offers that the tests and witnesses below run over.
limit_offers_hold :
    offered (opposite_offers asks_only matcher accounts (buying limit (pos 100) (pos 20)) asks true)
    ≡ pos 12
unfolding opposite_offers queue_from node_offers level_offers best_opposite_level
    top_opposite_levels is_price_match check ◌+ℤ◌
limit_offers_hold = refl

fresh : (kind : OrderType) (price : ℤ) → IsFresh (buying kind price (pos 20))
fresh kind price = record {
  positive = omega arith;
  int64 = omega arith;
  unfilled = refl;
  uncanceled = refl;
  remains = refl;
}

match_limit-Outcome_example :
    (let after =
        (match_limit_order asks_only matcher accounts (buying limit (pos 100) (pos 20)) asks).0 in
      Outcome (buying limit (pos 100) (pos 20)) after (pos 12) × (after.canceled_qty ≡ pos 0))
unfolding opposite_offers queue_from node_offers level_offers best_opposite_level
    top_opposite_levels is_price_match check ◌+ℤ◌
match_limit-Outcome_example =
    match_limit-Outcome asks_only matcher accounts (buying limit (pos 100) (pos 20)) asks
      (fresh limit (pos 100)) (omega arith)

match_ioc-Outcome_example :
    (let order = buying ioc (pos 100) (pos 20) in
      let after = (match_ioc_order asks_only matcher accounts order asks).0 in
      Outcome order after (pos 12) × (after.remaining_qty ≡ pos 0))
unfolding opposite_offers queue_from node_offers level_offers best_opposite_level
    top_opposite_levels is_price_match check ◌+ℤ◌
match_ioc-Outcome_example =
    match_ioc-Outcome asks_only matcher accounts (buying ioc (pos 100) (pos 20)) asks
      (fresh ioc (pos 100)) (omega arith)

match_market-Outcome_example :
    (let order = buying market (pos 0) (pos 20) in
      let after = (match_market_order asks_only matcher accounts order asks).0 in
      Outcome order after (pos 20) × (after.remaining_qty ≡ pos 0))
unfolding opposite_offers queue_from node_offers level_offers best_opposite_level
    top_opposite_levels is_price_match check ◌+ℤ◌
match_market-Outcome_example =
    match_market-Outcome asks_only matcher accounts (buying market (pos 0) (pos 20)) asks
      (fresh market (pos 0)) (omega arith)

match_order-expected_example :
    (match_order asks_only matcher accounts (buying market (pos 0) (pos 20)) asks).1
    ≡ expected asks_only matcher accounts market (buying market (pos 0) (pos 20)) asks
unfolding validate_order
match_order-expected_example =
    match_order-expected asks_only matcher accounts (buying market (pos 0) (pos 20)) asks

abbrev limit_order : Order
limit_order = buying limit (pos 100) (pos 20)

matched :
    (match_order asks_only matcher accounts limit_order asks).1
    ≡ ok (
        create_trade limit_order (resting (pos 2) (pos 99) (pos 4)) "B" (pos 4) (pos 99)
        ∷ create_trade limit_order (resting (pos 4) (pos 100) (pos 8)) "C" (pos 8) (pos 100)
        ∷ [])
unfolding match_order match_limit_order validate_order best_opposite_level top_opposite_levels
    match_level match_node match_levels fill is_price_match create_trade check add64 sub64
matched = refl

match_order-Parties_example : All (Parties accounts limit_order) (
    create_trade limit_order (resting (pos 2) (pos 99) (pos 4)) "B" (pos 4) (pos 99)
    ∷ create_trade limit_order (resting (pos 4) (pos 100) (pos 8)) "C" (pos 8) (pos 100)
    ∷ [])
match_order-Parties_example =
    match_order-Parties asks_only matcher accounts limit_order asks matched

match_order-Acceptable_example :
    All
      (λ t. t.price ≤ℤ pos 100)
      (create_trade limit_order (resting (pos 2) (pos 99) (pos 4)) "B" (pos 4) (pos 99)
        ∷ create_trade limit_order (resting (pos 4) (pos 100) (pos 8)) "C" (pos 8) (pos 100)
        ∷ [])
match_order-Acceptable_example =
    match_order-Acceptable asks_only matcher accounts limit_order asks matched (ground arith)

match_order-Covered_example : All (Covered limit_order) (
    create_trade limit_order (resting (pos 2) (pos 99) (pos 4)) "B" (pos 4) (pos 99)
    ∷ create_trade limit_order (resting (pos 4) (pos 100) (pos 8)) "C" (pos 8) (pos 100)
    ∷ [])
unfolding opposite_offers queue_from node_offers level_offers best_opposite_level
    top_opposite_levels is_price_match check
match_order-Covered_example =
    match_order-Covered asks_only matcher accounts limit_order asks matched (omega arith)

-- 12 are on offer at 100 or less.
abbrev fok_order : ℤ → ℤ → Order
fok_order = buying fok

fok_order-IsFresh : IsFresh (fok_order (pos 100) (pos 12))
fok_order-IsFresh = record {
  positive = omega arith;
  int64 = omega arith;
  unfilled = refl;
  uncanceled = refl;
  remains = refl;
}

match_fok-AllOrNothing_example :
    AllOrNothing
      (fok_order (pos 100) (pos 12))
      (opposite_offers asks_only matcher accounts (fok_order (pos 100) (pos 12)) asks true)
      (match_fok_order asks_only matcher accounts (fok_order (pos 100) (pos 12)) asks)
unfolding opposite_offers queue_from node_offers level_offers best_opposite_level
    top_opposite_levels is_price_match check ◌+ℤ◌
match_fok-AllOrNothing_example =
    match_fok-AllOrNothing asks_only matcher accounts (fok_order (pos 100) (pos 12)) asks refl
      fok_order-IsFresh (λ best e. ground arith) (omega arith) (omega arith)

-- A FOK order for 4 at 98, below the best ask of 99, is neither refused nor filled.
match_fok_unpriced_example :
    match_fok_order asks_only matcher accounts (fok_order (pos 98) (pos 4)) asks
    ≡ (fok_order (pos 98) (pos 4), ok [])
unfolding opposite_offers queue_from node_offers level_offers best_opposite_level
    top_opposite_levels is_price_match check ◌+ℤ◌
match_fok_unpriced_example =
    match_fok_unpriced asks_only matcher accounts (fok_order (pos 98) (pos 4)) asks refl
      (level 1 (pos 99)
        (some (resting (pos 2) (pos 99) (pos 4)) ∷ some (resting (pos 3) (pos 99) (pos 5)) ∷ []))
      refl refl (omega arith) (omega arith) (omega arith)
