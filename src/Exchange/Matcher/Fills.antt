-- ===== src/Exchange/Matcher/Fills.antt =====
-- How much each kind of match of exchange/order_matcher.go fills, and what it leaves or cancels.
use fin_kit.Prelude.{◌≡◌, sym, ap, ◌∙◌, true, false, Option, List, String, arith}
use fin_kit.Prelude.Int.{ℤ, pos, ◌≤ℤ◌, ◌+ℤ◌, +ℤ_parts, eq_of_parts, int_laws}
use fin_kit.Core.{CoreBook}
use fin_kit.Exchange.OrderType.{Order}
use fin_kit.Exchange.Matcher.Step.{Matching}
use fin_kit.Exchange.Matcher.Offers.{Offer, fill_all, fill_all-trades, fill_all-SameTerms}
use fin_kit.Exchange.Matcher.Greedy.{
  start, opposite_offers, match_limit-fill_all, match_market-order,
}
use fin_kit.Exchange.Matcher.Amounts.{
  IsFresh, Stocked, Balanced, match-Balanced, traded, offered, min_ℤ, traded-allocate,
}
use fin_kit.Exchange.Matcher.{
  OrderMatcher, cancel_rest, cancel_remaining, match_limit_order, match_ioc_order,
  match_market_order,
}

-- What the loop leaves of a fresh order.
record Filled (order : Order) (offers : List Offer) (s : Matching) : Type 0 where
  fills : s.order.filled_qty ≡ min_ℤ order.quantity (offered offers)
  parts : s.order.filled_qty +ℤ s.order.remaining_qty ≡ order.quantity
  keeps : s.order.canceled_qty ≡ pos 0
  agrees : s.order.remaining_qty ≡ s.remaining
  left : pos 0 ≤ℤ s.remaining

cancel_right : (a b c q : ℤ) → a +ℤ c ≡ q → b +ℤ c ≡ q → a ≡ b
cancel_right a b c q e f = same a b c (e ∙ sym f)
  where
    same : (a b c : ℤ) → a +ℤ c ≡ b +ℤ c → a ≡ b
    same a b c e = ground (arith, +ℤ_parts a c, +ℤ_parts b c, eq_of_parts a b)

fill_all-Filled :
    (order : Order) (offers : List Offer)
    → IsFresh order
    → Stocked offers
    → Filled order offers (fill_all offers (start order))
fill_all-Filled order offers f h = record {
  fills =
      cancel_right s.order.filled_qty (traded s.trades) s.remaining order.quantity b.books b.trades
      ∙ ap traded (fill_all-trades offers (start order))
      ∙ traded-allocate order order.quantity offers f.int64 (omega (arith, f.positive)) h;
  parts = rw b.agrees b.books;
  keeps = (fill_all-SameTerms offers (start order)).canceled_qty ∙ f.uncanceled;
  agrees = b.agrees;
  left = b.remains;
}
  where
    s : Matching
    s = fill_all offers (start order)

    b : Balanced order.quantity s
    b = match-Balanced order offers f h

-- What an order has filled, what of it is canceled and what it keeps.
pub record Outcome (order after : Order) (filled : ℤ) : Type 0 where
  pub fills : after.filled_qty ≡ filled
  pub parts : after.filled_qty +ℤ after.remaining_qty +ℤ after.canceled_qty ≡ order.quantity
  pub rest : pos 0 ≤ℤ after.remaining_qty

add_zero : (a b c : ℤ) → a +ℤ b ≡ c → (a +ℤ b) +ℤ pos 0 ≡ c
add_zero a b c e = e' ∙ e
  where
    e' : (a +ℤ b) +ℤ pos 0 ≡ a +ℤ b
    e' = omega int_laws

swap_zero : (a b c : ℤ) → a +ℤ b ≡ c → (a +ℤ pos 0) +ℤ b ≡ c
swap_zero a b c e = e' ∙ e
  where
    e' : (a +ℤ pos 0) +ℤ b ≡ a +ℤ b
    e' = omega int_laws

module _ (order : Order) (offers : List Offer) {s : Matching} (f : Filled order offers s) where
  keep-Outcome :
      Outcome order s.order (min_ℤ order.quantity (offered offers)) × (s.order.canceled_qty ≡ pos 0)
  keep-Outcome = (
    record {
      fills = f.fills;
      parts = rw f.keeps (add_zero s.order.filled_qty s.order.remaining_qty order.quantity f.parts);
      rest = rw f.agrees f.left;
    },
    f.keeps,
  )

  -- The rest of the order is canceled.
  canceled-Outcome :
      (after : Order)
      → after.filled_qty ≡ s.order.filled_qty
      → after.canceled_qty ≡ s.order.remaining_qty
      → after.remaining_qty ≡ pos 0
      → Outcome order after (min_ℤ order.quantity (offered offers)) × (after.remaining_qty ≡ pos 0)
  canceled-Outcome after e c r = (
    record {
      fills = e ∙ f.fills;
      parts =
          rw (e, c, r) (swap_zero s.order.filled_qty s.order.remaining_qty order.quantity f.parts);
      rest = rw r (omega arith);
    },
    r,
  )

module _ (C : CoreBook) (m : OrderMatcher) (lookup_account : ℤ → Option String) (order : Order)
    (ob : C.Book) (f : IsFresh order) where
  cancel_remaining-Outcome :
      (offers : List Offer) {s : Matching}
      → Filled order offers s
      → (let after = cancel_remaining C m lookup_account s.order in
          Outcome order after (min_ℤ order.quantity (offered offers))
          × (after.remaining_qty ≡ pos 0))
  unfolding cancel_remaining
  cancel_remaining-Outcome offers {s} g = ground (
    arith,
    canceled-Outcome order offers g (cancel_remaining C m lookup_account s.order),
    eq_of_parts s.order.remaining_qty (pos 0),
  )

  cancel_rest-Outcome :
      (offers : List Offer) {s : Matching}
      → Filled order offers s
      → (let after = cancel_rest C m lookup_account s.remaining s.order in
          Outcome order after (min_ℤ order.quantity (offered offers))
          × (after.remaining_qty ≡ pos 0))
  unfolding cancel_rest
  cancel_rest-Outcome offers {s} g = ground (
    arith,
    canceled-Outcome order offers g (cancel_rest C m lookup_account s.remaining s.order),
    eq_of_parts s.remaining (pos 0),
  )

  -- A fresh limit order, over acceptable offers of no negative quantity, fills the smaller of its
  -- quantity and what the offers hold, keeps the rest as its remaining quantity and has nothing
  -- canceled.
  pub match_limit-Outcome :
      Stocked (opposite_offers C m lookup_account order ob true)
      → (let after = (match_limit_order C m lookup_account order ob).0 in
          Outcome order after
            (min_ℤ order.quantity (offered (opposite_offers C m lookup_account order ob true)))
          × (after.canceled_qty ≡ pos 0))
  match_limit-Outcome h =
      rw (match_limit-fill_all C m lookup_account order ob)
        (keep-Outcome order _ (fill_all-Filled order _ f h))

  match_ioc-order :
      (match_ioc_order C m lookup_account order ob).0
      ≡ cancel_remaining C m lookup_account
          (fill_all (opposite_offers C m lookup_account order ob true) (start order)).order
  unfolding match_ioc_order
  match_ioc-order = ground (arith, match_limit-fill_all C m lookup_account order ob)

  -- A fresh IOC order, over acceptable offers of no negative quantity, fills the smaller of its
  -- quantity and what the offers hold, and all the rest is canceled: nothing remains.
  pub match_ioc-Outcome :
      Stocked (opposite_offers C m lookup_account order ob true)
      → (let after = (match_ioc_order C m lookup_account order ob).0 in
          Outcome order after
            (min_ℤ order.quantity (offered (opposite_offers C m lookup_account order ob true)))
          × (after.remaining_qty ≡ pos 0))
  match_ioc-Outcome h =
      rw match_ioc-order (cancel_remaining-Outcome _ (fill_all-Filled order _ f h))

  -- A fresh market order, over offers of no negative quantity, fills the smaller of its quantity
  -- and what the offers hold at any price, and all the rest is canceled: nothing remains.
  pub match_market-Outcome :
      Stocked (opposite_offers C m lookup_account order ob false)
      → (let after = (match_market_order C m lookup_account order ob).0 in
          Outcome order after
            (min_ℤ order.quantity (offered (opposite_offers C m lookup_account order ob false)))
          × (after.remaining_qty ≡ pos 0))
  match_market-Outcome h =
      rw (match_market-order C m lookup_account order ob f.positive)
        (cancel_rest-Outcome _ (fill_all-Filled order _ f h))
