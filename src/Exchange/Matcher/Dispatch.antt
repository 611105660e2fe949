-- ===== src/Exchange/Matcher/Dispatch.antt =====
-- `Match` of exchange/order_matcher.go: validation, and the match that the order's type asks for.
use fin_kit.Prelude.{
  ◌≡◌, refl, ◌∙◌, ap, [], ◌∷◌, inl, inr, Bool-cases, Bool, true, false, Option, none, some, List,
  String, arith, if◌then◌else◌,
}
use fin_kit.Prelude.Int.{ℤ, pos, leb_ℤ, ltb_ℤ}
use fin_kit.Prelude.Int64.{sub64}
use fin_kit.Core.{CoreBook, is_buy}
use fin_kit.Exchange.OrderType.{
  Order, OrderType, limit, market, fok, unknown, Trade, partial, invalid_order_type,
  insufficient_qty, Result, ok, err,
}
use fin_kit.Exchange.Matcher.Step.{create_trade, match_qty}
use fin_kit.Exchange.Matcher.Offers.{Offer, allocate}
use fin_kit.Exchange.Matcher.Greedy.{opposite_offers, match_limit-allocate, match_market-allocate}
use fin_kit.Exchange.Matcher.{
  OrderMatcher, validate_order, match_order, by_type, match_fok_order, match_ioc_order,
  match_iceberg_order, get_available_liquidity,
}

-- A market order takes any price.
abbrev pub held_to_price : OrderType → Bool
held_to_price market = false
held_to_price _ = true

-- The trade of an order with an offer: each side under its own IDs, at the offer's price.
unfoldable pub deal : Order → Offer → ℤ → Trade
deal order o quantity =
    let buys = is_buy order.side in
    let rest = sub64 o.resting.quantity quantity in
    record {
      trade_id = pos 0;
      buy_order_id = if buys then order.order_id else o.resting.order_id;
      sell_order_id = if buys then o.resting.order_id else order.order_id;
      buy_account_id = if buys then order.account_id else o.account;
      sell_account_id = if buys then o.account else order.account_id;
      price = o.price;
      quantity = quantity;
      timestamp = pos 0;
      buy_fill_type = partial;
      sell_fill_type = partial;
      buy_remaining_qty = if buys then pos 0 else rest;
      sell_remaining_qty = if buys then rest else pos 0;
    }

-- The smaller of what remains and what the offer has.
abbrev pub share : ℤ → Offer → ℤ
share remaining o = if leb_ℤ remaining o.resting.quantity then remaining else o.resting.quantity

-- One deal after the other, until nothing remains.
unfoldable pub deals : Order → ℤ → List Offer → List Trade
deals order remaining [] = []
deals order remaining (o ∷ offers) =
    if leb_ℤ remaining (pos 0)
    then []
    else deal order o (share remaining o) ∷ deals order (sub64 remaining (share remaining o)) offers

create_trade-deal :
    (order : Order) (o : Offer) (quantity : ℤ)
    → create_trade order o.resting o.account quantity o.price ≡ deal order o quantity
unfolding create_trade deal
create_trade-deal order o quantity = elim (Bool-cases (is_buy order.side)) [
  | inl buys ↦ rw (buys, create_trade, deal) refl
  | inr sells ↦ rw (sells, create_trade, deal) refl
]

match_qty-share : (remaining : ℤ) (o : Offer) → match_qty remaining o.resting ≡ share remaining o
match_qty-share remaining o = ground arith

allocate-deals :
    (order : Order) (remaining : ℤ) (offers : List Offer)
    → allocate order remaining offers ≡ deals order remaining offers
unfolding allocate deals
allocate-deals order remaining [] = refl
allocate-deals order remaining (o ∷ offers) = elim (Bool-cases (leb_ℤ remaining (pos 0))) [
  | inl done ↦ rw done refl
  | inr more ↦
      rw (more, match_qty-share remaining o)
        (rw
          (
            create_trade-deal order o (share remaining o),
            allocate-deals order (sub64 remaining (share remaining o)) offers,
          )
          refl)
]

module _ (C : CoreBook) (m : OrderMatcher) (lookup_account : ℤ → Option String) where
  open C use {Book}

  -- The trades of an order over the offers that its type may take.
  abbrev pub allocation : Order → Book → List Trade
  allocation order ob =
      allocate order order.quantity
        (opposite_offers C m lookup_account order ob (held_to_price order.kind))

  -- What an order of each type gets.
  abbrev pub expected : OrderType → Order → Book → Result (List Trade)
  expected (unknown n) order ob = err invalid_order_type
  expected fok order ob =
      if ltb_ℤ (get_available_liquidity C m lookup_account order ob) order.quantity
      then err insufficient_qty
      else ok (deals order order.quantity (opposite_offers C m lookup_account order ob true))
  expected market order ob =
      ok (deals order order.quantity (opposite_offers C m lookup_account order ob false))
  expected _ order ob =
      ok (deals order order.quantity (opposite_offers C m lookup_account order ob true))

  by_type-expected :
      (kind : OrderType) (order : Order) (ob : Book)
      → (by_type C m lookup_account kind order ob).1 ≡ expected kind order ob
  unfolding by_type match_iceberg_order match_ioc_order match_fok_order
  by_type-expected limit order ob =
      match_limit-allocate C m lookup_account order ob
      ∙ ap ok (allocate-deals order order.quantity _)
  by_type-expected market order ob =
      match_market-allocate C m lookup_account order ob
      ∙ ap ok (allocate-deals order order.quantity _)
  by_type-expected kind order ob = ground (
    arith,
    match_limit-allocate C m lookup_account order ob,
    allocate-deals order order.quantity (opposite_offers C m lookup_account order ob true),
  )

  -- Match returns an error exactly for an order that fails validation, an unknown type and a FOK
  -- order whose counted liquidity is below its quantity. Otherwise its trades are the greedy
  -- allocation of the order's quantity over the queue of offers of the opposite side, best level
  -- first: at acceptable prices only, or at any price for a market order.
  pub match_order-expected :
      (order : Order) (ob : Book)
      → (match_order C m lookup_account order ob).1
        ≡ elim (validate_order order) [ some e ↦ err e | none ↦ expected order.kind order ob ]
  unfolding match_order
  match_order-expected order ob = ground (arith, by_type-expected order.kind order ob)

  expected-allocation :
      (kind : OrderType) (order : Order) (ob : Book) {trades : List Trade}
      → expected kind order ob ≡ ok trades
      → trades
        ≡ allocate order order.quantity
            (opposite_offers C m lookup_account order ob (held_to_price kind))
  expected-allocation limit order ob h = ground (
    arith,
    allocate-deals order order.quantity (opposite_offers C m lookup_account order ob true),
  )
  expected-allocation kind order ob h = ground (
    arith,
    allocate-deals order order.quantity
        (opposite_offers C m lookup_account order ob (held_to_price kind)),
  )

  -- The trades of a match that succeeds.
  pub match_order-allocation :
      (order : Order) (ob : Book) {trades : List Trade}
      → (match_order C m lookup_account order ob).1 ≡ ok trades
      → (validate_order order ≡ none) × (trades ≡ allocation order ob)
  match_order-allocation order ob {trades} h =
      let valid : validate_order order ≡ none = ground (arith, match_order-expected order ob) in
      let got : expected order.kind order ob ≡ ok trades =
        ground (arith, match_order-expected order ob) in
      (valid, expected-allocation order.kind order ob got)
