-- ===== src/Exchange/Matcher/Greedy.antt =====
-- The matches of exchange/order_matcher.go as allocations over the queue of offers.
use fin_kit.Prelude.{
  ◌≡◌, ap, inl, inr, Bool, true, false, ◌&&◌, not, Option, none, some, List, [], ◌++◌, String,
  arith, if◌then◌else◌, Option-cases,
}
use fin_kit.Prelude.Int.{ℤ, pos, ◌<ℤ◌}
use fin_kit.Core.{PriceLevel, CoreBook}
use fin_kit.Exchange.OrderType.{Order, ok}
use fin_kit.Exchange.Matcher.Step.{Matching, is_price_match}
use fin_kit.Exchange.Matcher.Offers.{
  Offer, SameTerms, level_offers-terms, allocate, fill_all, fill_all-done, fill_all-append,
  fill_all-trades, fill_all-SameTerms, node_offers, level_offers, match_level-offers,
  match_levels-offers,
}
use fin_kit.Exchange.Matcher.{
  OrderMatcher, best_opposite_level, top_opposite_levels, sweep, cancel_rest, match_limit_order,
  match_market_order,
}

-- A match before its first trade.
abbrev pub start : Order → Matching
start order = record { order = order; remaining = order.quantity; trades = [] }

module _ (C : CoreBook) (m : OrderMatcher) (lookup_account : ℤ → Option String) where
  open C use {Book}

  -- The queue of offers from the best level on.
  unfoldable pub queue_from : Order → Book → Bool → PriceLevel → List Offer
  queue_from order ob check_price best =
      node_offers lookup_account order.account_id best.price best.head
      ++ level_offers lookup_account order best.address check_price
          (top_opposite_levels C m order ob)

  -- The whole queue that the opposite side of the book holds for an order; empty if the best price
  -- is refused.
  unfoldable pub opposite_offers : Order → Book → Bool → List Offer
  unfolding queue_from
  opposite_offers order ob check_price = elim (best_opposite_level C order ob) [
    | none ↦ []
    | some best ↦
        if check_price && not (is_price_match order best.price)
        then []
        else queue_from order ob check_price best
  ]

  top-terms :
      (a b : Order) (ob : Book)
      → SameTerms a b
      → top_opposite_levels C m a ob ≡ top_opposite_levels C m b ob
  unfolding top_opposite_levels
  top-terms a b ob h = rw h.side

  sweep-fill_all :
      (order : Order) (ob : Book) (check_price : Bool) (best : PriceLevel)
      → sweep C m lookup_account order ob check_price best
        ≡ fill_all (queue_from order ob check_price best) (start order)
  unfolding sweep queue_from
  sweep-fill_all order ob check_price best = ground (
    arith,
    match_level-offers lookup_account best (start order),
    fill_all-append nodes rest (start order),
    fill_all-SameTerms nodes (start order),
    top-terms first.order order ob,
    match_levels-offers lookup_account best.address check_price (top_opposite_levels C m order ob)
        first,
    level_offers-terms lookup_account first.order order best.address check_price
        (top_opposite_levels C m order ob),
    fill_all-done rest first,
  )
    where
      nodes : List Offer
      nodes = node_offers lookup_account order.account_id best.price best.head

      rest : List Offer
      rest =
          level_offers lookup_account order best.address check_price
            (top_opposite_levels C m order ob)

      first : Matching
      first = fill_all nodes (start order)

  pub match_limit-fill_all :
      (order : Order) (ob : Book)
      → match_limit_order C m lookup_account order ob
        ≡ (let s = fill_all (opposite_offers order ob true) (start order) in (s.order, ok s.trades))
  unfolding match_limit_order opposite_offers fill_all
  match_limit-fill_all order ob = elim (Option-cases (best_opposite_level C order ob)) [
    | inl e ↦ ground arith
    | inr (best, e) ↦ ground (arith, sweep-fill_all order ob true best)
  ]

  -- A limit order trades exactly with the offers at an acceptable price, in the order of the book.
  pub match_limit-allocate :
      (order : Order) (ob : Book)
      → (match_limit_order C m lookup_account order ob).1
        ≡ ok (allocate order order.quantity (opposite_offers order ob true))
  match_limit-allocate order ob =
      rw (match_limit-fill_all order ob) (ap ok (fill_all-trades _ (start order)))

  market-fill_all :
      (order : Order) (ob : Book)
      → (match_market_order C m lookup_account order ob).1
        ≡ ok (fill_all (opposite_offers order ob false) (start order)).trades
  unfolding match_market_order opposite_offers fill_all
  market-fill_all order ob = elim (Option-cases (best_opposite_level C order ob)) [
    | inl e ↦ ground arith
    | inr (best, e) ↦ ground (arith, sweep-fill_all order ob false best)
  ]

  -- A market order trades exactly with the offers at any price, in the order of the book.
  pub match_market-allocate :
      (order : Order) (ob : Book)
      → (match_market_order C m lookup_account order ob).1
        ≡ ok (allocate order order.quantity (opposite_offers order ob false))
  match_market-allocate order ob =
      rw (market-fill_all order ob) (ap ok (fill_all-trades _ (start order)))

  -- What a market order becomes: the rest is canceled.
  pub match_market-order :
      (order : Order) (ob : Book)
      → pos 0 <ℤ order.quantity
      → (match_market_order C m lookup_account order ob).0 ≡ (
          let s = fill_all (opposite_offers order ob false) (start order) in
          cancel_rest C m lookup_account s.remaining s.order)
  unfolding match_market_order opposite_offers fill_all cancel_rest
  match_market-order order ob h = elim (Option-cases (best_opposite_level C order ob)) [
    | inl e ↦ ground arith
    | inr (best, e) ↦ ground (arith, sweep-fill_all order ob false best)
  ]
