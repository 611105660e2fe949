-- ===== src/Exchange/Matcher/Fok.antt =====
-- Fill-Or-Kill orders of exchange/order_matcher.go: all or nothing, where the best price is
-- acceptable; and what happens where it is not.
use fin_kit.Prelude.{
  ◌≡◌, ◌⊎◌, inl, inr, ◌∙◌, true, false, Option, none, some, List, [], String, arith, Bool-cases,
  Option-cases,
}
use fin_kit.Prelude.Int.{ℤ, pos, ltb_ℤ, ◌≤ℤ◌, ◌<ℤ◌, ◌+ℤ◌, +ℤ_parts, eq_of_parts}
use fin_kit.Prelude.Int64.{IsInt64}
use fin_kit.Core.{CoreBook, PriceLevel}
use fin_kit.Exchange.OrderType.{Order, Trade, fok, insufficient_qty, Result, ok, err}
use fin_kit.Exchange.Matcher.Step.{is_price_match}
use fin_kit.Exchange.Matcher.Offers.{Offer, allocate}
use fin_kit.Exchange.Matcher.Greedy.{opposite_offers, queue_from, match_limit-allocate}
use fin_kit.Exchange.Matcher.Amounts.{offered, Stocked, IsFresh, min_ℤ}
use fin_kit.Exchange.Matcher.Fills.{match_limit-Outcome}
use fin_kit.Exchange.Matcher.Liquidity.{liquidity-CountsAs}
use fin_kit.Exchange.Matcher.{
  OrderMatcher, match_fok_order, match_limit_order, get_available_liquidity, best_opposite_level,
}

-- With too little on offer the order is refused and unchanged; with enough it is filled whole.
abbrev pub AllOrNothing : Order → List Offer → Order × Result (List Trade) → Type 0
AllOrNothing order offers r =
    ((offered offers <ℤ order.quantity) × (r ≡ (order, err insufficient_qty)))
    ⊎ ((order.quantity ≤ℤ offered offers)
        × (r.1 ≡ ok (allocate order order.quantity offers))
        × (r.0.filled_qty ≡ order.quantity)
        × (r.0.remaining_qty ≡ pos 0))

whole : (q x : ℤ) → q ≤ℤ x → min_ℤ q x ≡ q
whole q x h = ground arith

nothing_left : (q r c : ℤ) → q +ℤ r +ℤ c ≡ q → c ≡ pos 0 → r ≡ pos 0
nothing_left q r c e z = ground (arith, +ℤ_parts (q +ℤ r) c, +ℤ_parts q r, eq_of_parts r (pos 0))

module _ (C : CoreBook) (m : OrderMatcher) (lookup_account : ℤ → Option String) (order : Order)
    (ob : C.Book) (fill_or_kill : order.kind ≡ fok) where
  -- The liquidity reaches the quantity exactly if the offers do.
  liquidity-test :
      (best : PriceLevel)
      → best_opposite_level C order ob ≡ some best
      → (let offers = queue_from C m lookup_account order ob true best in
          IsInt64 (offered offers)
          → Stocked offers
          → ltb_ℤ (get_available_liquidity C m lookup_account order ob) order.quantity
            ≡ ltb_ℤ (offered offers) order.quantity)
  liquidity-test best e i st =
      ground (arith, liquidity-CountsAs C m lookup_account order fill_or_kill ob best e i st)

  no_liquidity :
      best_opposite_level C order ob ≡ none
      → get_available_liquidity C m lookup_account order ob ≡ pos 0
  unfolding get_available_liquidity
  no_liquidity e = rw (e, get_available_liquidity)

  opposite-queue :
      (best : PriceLevel)
      → best_opposite_level C order ob ≡ some best
      → is_price_match order best.price ≡ true
      → opposite_offers C m lookup_account order ob true
        ≡ queue_from C m lookup_account order ob true best
  unfolding opposite_offers
  opposite-queue best e p = rw (e, opposite_offers, p)

  opposite-none :
      best_opposite_level C order ob ≡ none → opposite_offers C m lookup_account order ob true ≡ []
  unfolding opposite_offers
  opposite-none e = rw (e, opposite_offers)

  priced-test :
      IsFresh order
      → ((best : PriceLevel)
          → best_opposite_level C order ob ≡ some best
          → is_price_match order best.price ≡ true)
      → (let offers = opposite_offers C m lookup_account order ob true in
          IsInt64 (offered offers)
          → Stocked offers
          → ltb_ℤ (get_available_liquidity C m lookup_account order ob) order.quantity
            ≡ ltb_ℤ (offered offers) order.quantity)
  priced-test f priced i st = elim (Option-cases (best_opposite_level C order ob)) [
    | inl e ↦ rw (no_liquidity e, opposite-none e)
    | inr (best, e) ↦
        let q = opposite-queue best e (priced best e) in
        rw q (liquidity-test best e (rw q at i) (rw q at st))
  ]

  refused :
      ltb_ℤ (get_available_liquidity C m lookup_account order ob) order.quantity ≡ true
      → match_fok_order C m lookup_account order ob ≡ (order, err insufficient_qty)
  unfolding match_fok_order
  refused h = rw h

  granted :
      ltb_ℤ (get_available_liquidity C m lookup_account order ob) order.quantity ≡ false
      → match_fok_order C m lookup_account order ob ≡ match_limit_order C m lookup_account order ob
  unfolding match_fok_order
  granted h = rw h

  filled_whole :
      IsFresh order
      → Stocked (opposite_offers C m lookup_account order ob true)
      → order.quantity ≤ℤ offered (opposite_offers C m lookup_account order ob true)
      → (let after = (match_limit_order C m lookup_account order ob).0 in
          (after.filled_qty ≡ order.quantity) × (after.remaining_qty ≡ pos 0))
  filled_whole f st h =
      let (o, c) = match_limit-Outcome C m lookup_account order ob f st in
      let fills = o.fills ∙ whole order.quantity _ h in
      (fills, nothing_left order.quantity _ _ (rw fills at o.parts) c)

  -- A fresh FOK order whose price the best opposite level, if there is one, meets is filled
  -- whole, with the allocation over the acceptable offers as its trades, or refused with the
  -- order unchanged, according to whether the acceptable offers hold its quantity. The offers'
  -- quantities are not negative and their sum is an int64.
  pub match_fok-AllOrNothing :
      IsFresh order
      → ((best : PriceLevel)
          → best_opposite_level C order ob ≡ some best
          → is_price_match order best.price ≡ true)
      → (let offers = opposite_offers C m lookup_account order ob true in
          IsInt64 (offered offers)
          → Stocked offers
          → AllOrNothing order offers (match_fok_order C m lookup_account order ob))
  match_fok-AllOrNothing f priced i st =
      let offers = opposite_offers C m lookup_account order ob true in
      let test : ltb_ℤ (get_available_liquidity C m lookup_account order ob) order.quantity
          ≡ ltb_ℤ (offered offers) order.quantity =
        priced-test f priced i st in
      elim (Bool-cases (ltb_ℤ (offered offers) order.quantity)) [
        | inl short ↦ inl (ground arith, refused (test ∙ short))
        | inr enough ↦
            let whole_order = filled_whole f st (ground arith) in
            rw (granted (test ∙ enough)) (
              inr (
                ground arith,
                match_limit-allocate C m lookup_account order ob,
                whole_order.0,
                whole_order.1,
              ))
      ]

  no_match :
      (best : PriceLevel)
      → best_opposite_level C order ob ≡ some best
      → is_price_match order best.price ≡ false
      → match_limit_order C m lookup_account order ob ≡ (order, ok [])
  unfolding match_limit_order
  no_match best e worse = rw (e, match_limit_order, worse)

  -- A FOK order whose price the best opposite level does not meet, but for whose quantity there
  -- is enough in the queue that starts with that level, is not refused: the match succeeds with
  -- no trade and leaves the order as it was. The quantities in the queue are not negative and
  -- their sum is an int64.
  pub match_fok_unpriced :
      (best : PriceLevel)
      → best_opposite_level C order ob ≡ some best
      → is_price_match order best.price ≡ false
      → (let offers = queue_from C m lookup_account order ob true best in
          IsInt64 (offered offers)
          → Stocked offers
          → order.quantity ≤ℤ offered offers
          → match_fok_order C m lookup_account order ob ≡ (order, ok []))
  match_fok_unpriced best e worse i st enough =
      granted (liquidity-test best e i st ∙ (ground arith)) ∙ no_match best e worse
