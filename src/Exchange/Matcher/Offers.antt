-- ===== src/Exchange/Matcher/Offers.antt =====
-- What the loops of exchange/order_matcher.go do to the queue of offers: the resting orders that an
-- incoming order may trade with, in the order of the book.
use mathlib.Core.List.{append_assoc, append-nil}
use fin_kit.Prelude.{
  ℕ, ◌≡◌, refl, sym, ap, ◌∙◌, inl, inr, Bool, true, ◌&&◌, not, Option, none, some, List, [], ◌∷◌,
  ◌++◌, String, arith, if◌then◌else◌, nat_eqb, Bool-cases,
}
use fin_kit.Prelude.Int.{ℤ, pos, leb_ℤ}
use fin_kit.Prelude.Int64.{sub64}
use fin_kit.Core.{CoreOrder, PriceLevel}
use fin_kit.Exchange.OrderType.{Order, Trade}
use fin_kit.Exchange.SelfTrade.{check}
use fin_kit.Exchange.Matcher.Step.{
  Matching, fill, match_qty, create_trade, match_node, match_nodes, match_level, match_levels,
  is_price_match,
}

-- A resting order with the price of its level and the account that `lookupAccount` gives.
pub record Offer : Type 0 where
  pub price : ℤ
  pub resting : CoreOrder
  pub account : String

-- The specification of a match: each offer in turn is taken whole, or as far as something remains.
unfoldable pub allocate : Order → ℤ → List Offer → List Trade
allocate order remaining [] = []
allocate order remaining (o ∷ offers) =
    let qty = match_qty remaining o.resting in
    if leb_ℤ remaining (pos 0)
    then []
    else (create_trade order o.resting o.account qty o.price
        ∷ allocate order (sub64 remaining qty) offers)

-- The same walk as a loop over the state of a match.
unfoldable pub fill_all : List Offer → Matching → Matching
fill_all [] s = s
fill_all (o ∷ offers) s =
    if leb_ℤ s.remaining (pos 0) then s else fill_all offers (fill o.price o.resting o.account s)

pub fill_all-done :
    (offers : List Offer) (s : Matching) → leb_ℤ s.remaining (pos 0) ≡ true → fill_all offers s ≡ s
unfolding fill_all
fill_all-done [] s h = refl
fill_all-done (o ∷ offers) s h = rw h refl

pub fill_all-append :
    (xs ys : List Offer) (s : Matching) → fill_all (xs ++ ys) s ≡ fill_all ys (fill_all xs s)
unfolding fill_all
fill_all-append [] ys s = refl
fill_all-append (o ∷ xs) ys s = elim (Bool-cases (leb_ℤ s.remaining (pos 0))) [
  | inl done ↦ rw done (sym (fill_all-done ys s done))
  | inr more ↦ rw more (fill_all-append xs ys (fill o.price o.resting o.account s))
]

-- A match changes of the order only what it has filled and what remains.
pub record SameTerms (a b : Order) : Type 0 where
  pub order_id : a.order_id ≡ b.order_id
  pub account_id : a.account_id ≡ b.account_id
  pub price : a.price ≡ b.price
  pub side : a.side ≡ b.side
  pub quantity : a.quantity ≡ b.quantity
  pub kind : a.kind ≡ b.kind
  pub canceled_qty : a.canceled_qty ≡ b.canceled_qty

pub fill_all-SameTerms :
    (offers : List Offer) (s : Matching) → SameTerms (fill_all offers s).order s.order
unfolding fill_all fill
fill_all-SameTerms [] s = ground arith
fill_all-SameTerms (o ∷ offers) s =
    ground (arith, fill_all-SameTerms offers (fill o.price o.resting o.account s))

create_trade-terms :
    (a b : Order) (r : CoreOrder) (account : String) (qty price : ℤ)
    → SameTerms a b
    → create_trade a r account qty price ≡ create_trade b r account qty price
unfolding create_trade
create_trade-terms a b r account qty price h = rw (h.order_id, h.account_id, h.side)

allocate-terms :
    (a b : Order) (remaining : ℤ) (offers : List Offer)
    → SameTerms a b
    → allocate a remaining offers ≡ allocate b remaining offers
unfolding allocate
allocate-terms a b remaining [] h = refl
allocate-terms a b remaining (o ∷ offers) h = rw (
  create_trade-terms a b o.resting o.account (match_qty remaining o.resting) o.price h,
  allocate-terms a b (sub64 remaining (match_qty remaining o.resting)) offers h,
)

-- The loop appends exactly the specified trades.
pub fill_all-trades :
    (offers : List Offer) (s : Matching)
    → (fill_all offers s).trades ≡ s.trades ++ allocate s.order s.remaining offers
unfolding fill_all allocate fill
fill_all-trades [] s = sym (append-nil s.trades)
fill_all-trades (o ∷ offers) s = elim (Bool-cases (leb_ℤ s.remaining (pos 0))) [
  | inl done ↦ rw done (sym (append-nil s.trades))
  | inr more ↦ rw more (
      fill_all-trades offers next
      ∙ ap (λ ts. (s.trades ++ trade ∷ []) ++ ts)
          (allocate-terms next.order s.order next.remaining offers (ground arith))
      ∙ append_assoc s.trades (trade ∷ []) (allocate s.order next.remaining offers))
]
  where
    next : Matching
    next = fill o.price o.resting o.account s

    trade : Trade
    trade = create_trade s.order o.resting o.account (match_qty s.remaining o.resting) o.price

module _ (lookup_account : ℤ → Option String) where
  -- The offers of a list of nodes for an order of `account_id`: nil orders, orders of no known
  -- account and orders of the same account are passed over.
  unfoldable pub node_offers : String → ℤ → List (Option CoreOrder) → List Offer
  node_offers account_id price [] = []
  node_offers account_id price (none ∷ nodes) = node_offers account_id price nodes
  node_offers account_id price (some r ∷ nodes) =
      let rest = node_offers account_id price nodes in
      elim (lookup_account r.order_id) [
        | none ↦ rest
        | some account ↦
            if check account_id account
            then rest
            else record { price = price; resting = r; account = account } ∷ rest
      ]

  -- The offers of the levels up to the first whose price is refused, the level at `skip` left out.
  unfoldable pub level_offers : Order → ℕ → Bool → List (Option PriceLevel) → List Offer
  level_offers order skip check_price [] = []
  level_offers order skip check_price (none ∷ levels) = level_offers order skip check_price levels
  level_offers order skip check_price (some level ∷ levels) =
      let rest = level_offers order skip check_price levels in
      if nat_eqb level.address skip
      then rest
      else if check_price && not (is_price_match order level.price)
      then []
      else node_offers order.account_id level.price level.head ++ rest

  pub match_nodes-offers :
      (price : ℤ) (nodes : List (Option CoreOrder)) (s : Matching)
      → match_nodes lookup_account price nodes s
        ≡ fill_all (node_offers s.order.account_id price nodes) s
  unfolding match_nodes match_node node_offers fill_all fill
  match_nodes-offers price [] s = refl
  match_nodes-offers price (none ∷ nodes) s = match_nodes-offers price nodes s
  match_nodes-offers price (some r ∷ nodes) s = ground (
    arith,
    fill_all-done (node_offers s.order.account_id price (some r ∷ nodes)) s,
    match_nodes-offers price nodes (match_node lookup_account price r s),
  )

  pub match_level-offers :
      (level : PriceLevel) (s : Matching)
      → match_level lookup_account level s
        ≡ fill_all (node_offers s.order.account_id level.price level.head) s
  unfolding match_level
  match_level-offers level s = match_nodes-offers level.price level.head s

  pub level_offers-terms :
      (a b : Order) (skip : ℕ) (check_price : Bool) (levels : List (Option PriceLevel))
      → SameTerms a b
      → level_offers a skip check_price levels ≡ level_offers b skip check_price levels
  unfolding level_offers is_price_match
  level_offers-terms a b skip check_price [] h = refl
  level_offers-terms a b skip check_price (none ∷ levels) h =
      level_offers-terms a b skip check_price levels h
  level_offers-terms a b skip check_price (some level ∷ levels) h =
      rw (h.account_id, h.side, h.price, level_offers-terms a b skip check_price levels h)

  -- A level that is neither skipped nor refused.
  match_levels-next :
      (skip : ℕ) (check_price : Bool) (level : PriceLevel) (levels : List (Option PriceLevel))
      (s : Matching)
      → fill_all
          (level_offers (match_level lookup_account level s).order skip check_price levels)
          (match_level lookup_account level s)
        ≡ fill_all
            (node_offers s.order.account_id level.price level.head
              ++ level_offers s.order skip check_price levels)
            s
  match_levels-next skip check_price level levels s = rw (
    match_level-offers level s,
    level_offers-terms _ s.order skip check_price levels (fill_all-SameTerms offers s),
    fill_all-append offers (level_offers s.order skip check_price levels) s,
  )
    where
      offers : List Offer
      offers = node_offers s.order.account_id level.price level.head

  pub match_levels-offers :
      (skip : ℕ) (check_price : Bool) (levels : List (Option PriceLevel)) (s : Matching)
      → match_levels lookup_account skip check_price levels s
        ≡ fill_all (level_offers s.order skip check_price levels) s
  unfolding match_levels level_offers fill_all
  match_levels-offers skip check_price [] s = refl
  match_levels-offers skip check_price (none ∷ levels) s =
      match_levels-offers skip check_price levels s
  match_levels-offers skip check_price (some level ∷ levels) s = ground (
    arith,
    fill_all-done (level_offers s.order skip check_price (some level ∷ levels)) s,
    match_levels-offers skip check_price levels s,
    match_levels-offers skip check_price levels (match_level lookup_account level s),
    match_levels-next skip check_price level levels s,
  )
