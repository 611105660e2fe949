-- ===== src/Exchange/Matcher/Terms.antt =====
-- The terms of the trades of exchange/order_matcher.go: who trades with whom, at what price, and for
-- how much of the resting order.
use fin_kit.Prelude.{
  ℕ, ◌≡◌, ◌≢◌, refl, sym, Bool, true, false, not, ◌&&◌, Option, none, some, List, [], ◌∷◌, String,
  arith, if◌then◌else◌, nat_eqb, Bool-cases, Option-cases, inl, inr, All, All-append, All-map,
  string_eq_iff,
}
use fin_kit.Prelude.Int.{ℤ, pos, leb_ℤ, ◌≤ℤ◌, ◌<ℤ◌}
use fin_kit.Prelude.Int64.{sub64}
use fin_kit.Core.{CoreBook, CoreOrder, PriceLevel, is_buy}
use fin_kit.Exchange.OrderType.{Order, OrderType, market, Trade, ok}
use fin_kit.Exchange.SelfTrade.{check}
use fin_kit.Exchange.Matcher.Step.{create_trade, match_qty, is_price_match}
use fin_kit.Exchange.Matcher.Offers.{Offer, allocate, node_offers, level_offers}
use fin_kit.Exchange.Matcher.Greedy.{opposite_offers, queue_from}
use fin_kit.Exchange.Matcher.Dispatch.{held_to_price, match_order-allocation}
use fin_kit.Exchange.Matcher.{
  OrderMatcher, match_order, validate_order, best_opposite_level, top_opposite_levels,
}

-- What holds of each trade that an offer makes holds of the allocation.
pub allocate-All {κ} :
    (P : Trade → Type κ) (order : Order) (q : ℤ) (offers : List Offer)
    → All
        (λ o.
          (left : ℤ)
          → pos 0 <ℤ left
          → P (create_trade order o.resting o.account (match_qty left o.resting) o.price))
        offers
    → All P (allocate order q offers)
unfolding allocate
allocate-All P order q [] h = tt
allocate-All P order q (o ∷ offers) h = elim (Bool-cases (leb_ℤ q (pos 0))) [
  | inl done ↦ rw done tt
  | inr more ↦
      rw more
        (h.0 q (ground arith), allocate-All P order (sub64 q (match_qty q o.resting)) offers h.1)
]

-- The side of a trade that rests on the book.
abbrev pub resting_order_id : Order → Trade → ℤ
resting_order_id order t = if is_buy order.side then t.sell_order_id else t.buy_order_id

abbrev pub resting_account_id : Order → Trade → String
resting_account_id order t = if is_buy order.side then t.sell_account_id else t.buy_account_id

abbrev pub incoming_order_id : Order → Trade → ℤ
incoming_order_id order t = if is_buy order.side then t.buy_order_id else t.sell_order_id

abbrev pub incoming_account_id : Order → Trade → String
incoming_account_id order t = if is_buy order.side then t.buy_account_id else t.sell_account_id

-- A price that is no worse for the order than its own.
abbrev pub Acceptable : Order → ℤ → Type 0
Acceptable order price = if is_buy order.side then price ≤ℤ order.price else order.price ≤ℤ price

module _ (lookup_account : ℤ → Option String) (order : Order) where
  -- The parties of a trade: the order, on its own side, and a resting order of another account.
  pub record Parties (t : Trade) : Type 0 where
    pub incoming : incoming_order_id order t ≡ order.order_id
    pub account : incoming_account_id order t ≡ order.account_id
    pub resting : lookup_account (resting_order_id order t) ≡ some (resting_account_id order t)
    pub apart : t.buy_account_id ≢ t.sell_account_id

  -- An offer of another account.
  record Foreign (o : Offer) : Type 0 where
    known : lookup_account o.resting.order_id ≡ some o.account
    foreign : order.account_id ≢ o.account

  create_trade-Parties :
      (o : Offer)
      → Foreign o
      → (qty : ℤ) → Parties (create_trade order o.resting o.account qty o.price)
  unfolding create_trade
  create_trade-Parties o f qty = elim (Bool-cases (is_buy order.side)) [
    | inl buys ↦ rw buys record {
      incoming = rw buys refl;
      account = rw buys refl;
      resting = rw buys f.known;
      apart = f.foreign;
    }
    | inr sells ↦ rw sells record {
      incoming = rw sells refl;
      account = rw sells refl;
      resting = rw sells f.known;
      apart = λ e. f.foreign (sym e);
    }
  ]

-- What makes a resting order an offer: its account is known and is not the order's, and where the
-- price counts it is a match.
record Eligible (lookup_account : ℤ → Option String) (order : Order) (check_price : Bool)
    (o : Offer) : Type 0 where
  known : lookup_account o.resting.order_id ≡ some o.account
  other : check order.account_id o.account ≡ false
  priced : check_price ≡ true → is_price_match order o.price ≡ true

module _ (lookup_account : ℤ → Option String) (order : Order) (check_price : Bool) where
  node_offers-Eligible :
      (price : ℤ) (nodes : List (Option CoreOrder))
      → (check_price ≡ true → is_price_match order price ≡ true)
      → All
          (Eligible lookup_account order check_price)
          (node_offers lookup_account order.account_id price nodes)
  unfolding node_offers
  node_offers-Eligible price [] h = tt
  node_offers-Eligible price (none ∷ nodes) h = node_offers-Eligible price nodes h
  node_offers-Eligible price (some r ∷ nodes) h = elim (Option-cases (lookup_account r.order_id)) [
    | inl e ↦ rw (e, node_offers) (node_offers-Eligible price nodes h)
    | inr (account, e) ↦ elim (Bool-cases (check order.account_id account)) [
      | inl own ↦ rw (e, node_offers, own) (node_offers-Eligible price nodes h)
      | inr other ↦
          rw (e, node_offers, other)
            (record { known = e; other = other; priced = h }, node_offers-Eligible price nodes h)
    ]
  ]

  level_offers-Eligible :
      (skip : ℕ) (levels : List (Option PriceLevel))
      → All
          (Eligible lookup_account order check_price)
          (level_offers lookup_account order skip check_price levels)
  unfolding level_offers
  level_offers-Eligible skip [] = tt
  level_offers-Eligible skip (none ∷ levels) = level_offers-Eligible skip levels
  level_offers-Eligible skip (some level ∷ levels) =
      let rest = level_offers-Eligible skip levels in
      elim (Bool-cases (nat_eqb level.address skip)) [
        | inl skipped ↦ rw skipped rest
        | inr kept ↦ elim (Bool-cases (check_price && not (is_price_match order level.price))) [
          | inl refused ↦ rw (kept, refused) tt
          | inr accepted ↦
              rw (kept, accepted)
                (All-append _ (node_offers lookup_account order.account_id level.price level.head) _
                  (node_offers-Eligible level.price level.head (λ c. ground arith)) rest)
        ]
      ]

  module _ (C : CoreBook) (m : OrderMatcher) (ob : C.Book) where
    opposite_offers-Eligible :
        All
          (Eligible lookup_account order check_price)
          (opposite_offers C m lookup_account order ob check_price)
    unfolding opposite_offers queue_from
    opposite_offers-Eligible = elim (Option-cases (best_opposite_level C order ob)) [
      | inl e ↦ rw (e, opposite_offers) tt
      | inr (best, e) ↦ elim (Bool-cases (check_price && not (is_price_match order best.price))) [
        | inl refused ↦ rw (e, opposite_offers, refused) tt
        | inr accepted ↦
            rw (e, opposite_offers, accepted)
              (All-append _ (node_offers lookup_account order.account_id best.price best.head) _
                (node_offers-Eligible best.price best.head (λ c. ground arith))
                (level_offers-Eligible best.address (top_opposite_levels C m order ob)))
      ]
    ]

-- A test for self-trades that fails tells two accounts apart, if the first is not empty.
check-ne : (a b : String) → a ≢ "" → check a b ≡ false → a ≢ b
unfolding check
check-ne a b h c = ground (arith, string_eq_iff a b, string_eq_iff a "")

validate_order-account : (order : Order) → validate_order order ≡ none → order.account_id ≢ ""
unfolding validate_order
validate_order-account order h = ground (arith, string_eq_iff order.account_id "")

create_trade-price :
    (o : Order) (r : CoreOrder) (account : String) (qty price : ℤ)
    → (create_trade o r account qty price).price ≡ price
unfolding create_trade
create_trade-price o r account qty price = ground arith

is_price_match-Acceptable :
    (order : Order) (price : ℤ) → is_price_match order price ≡ true → Acceptable order price
unfolding is_price_match
is_price_match-Acceptable order price h = ground arith

not_market : (kind : OrderType) → kind ≢ market → held_to_price kind ≡ true
not_market market h = absurd (h refl)
not_market kind h = refl

module _ (C : CoreBook) (m : OrderMatcher) (lookup_account : ℤ → Option String) (order : Order)
    (ob : C.Book) {trades : List Trade}
    (matched : (match_order C m lookup_account order ob).1 ≡ ok trades) where
  -- Every trade of a successful match has the incoming order and its account on its own side, on
  -- the other side a resting order with the account that the lookup gives for it, and the two
  -- accounts differ.
  pub match_order-Parties : All (Parties lookup_account order) trades
  match_order-Parties =
      let (valid, e) = match_order-allocation C m lookup_account order ob matched in
      rw e (
        allocate-All _ order order.quantity _ (
          All-map _
            (λ o g left _.
              create_trade-Parties lookup_account order o
                (record {
                  known = g.known;
                  foreign =
                      check-ne order.account_id o.account (validate_order-account order valid)
                        g.other;
                })
                (match_qty left o.resting))
            (opposite_offers-Eligible lookup_account order (held_to_price order.kind) C m ob)))

  -- No trade of a successful match is at a worse price than the order's own, unless the order is
  -- a market order.
  pub match_order-Acceptable : order.kind ≢ market → All (λ t. Acceptable order t.price) trades
  match_order-Acceptable held =
      let (_, e) = match_order-allocation C m lookup_account order ob matched in
      rw e (
        allocate-All _ order order.quantity _ (
          All-map _
            (λ o g left _.
              rw (create_trade-price order o.resting o.account (match_qty left o.resting) o.price)
                (is_price_match-Acceptable order o.price (g.priced (not_market order.kind held))))
            (opposite_offers-Eligible lookup_account order (held_to_price order.kind) C m ob)))
