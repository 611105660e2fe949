-- ===== src/Exchange/Matcher/Liquidity.antt =====
-- The liquidity that exchange/order_matcher.go counts for a FOK order, against what the offers hold.
use fin_kit.Prelude.{
  ℕ, ◌≡◌, ◌⊎◌, true, Option, none, some, List, [], ◌∷◌, ◌++◌, String, arith, if◌then◌else◌,
}
use fin_kit.Prelude.Int.{ℤ, pos, leb_ℤ, ◌≤ℤ◌, ◌+ℤ◌, int_laws}
use fin_kit.Prelude.Int64.{IsInt64, add64, add64_fits}
use fin_kit.Core.{CoreBook, CoreOrder, PriceLevel}
use fin_kit.Exchange.OrderType.{Order, fok}
use fin_kit.Exchange.Matcher.Step.{add_nodes, add_available_liquidity}
use fin_kit.Exchange.Matcher.Offers.{Offer, node_offers, level_offers}
use fin_kit.Exchange.Matcher.Greedy.{queue_from}
use fin_kit.Exchange.Matcher.Amounts.{offered, Stocked, offered_nonneg}
use fin_kit.Exchange.Matcher.{
  OrderMatcher, add_levels, get_available_liquidity, best_opposite_level, top_opposite_levels,
}

-- `x` counts as `y` for the test against `quantity`: they are one number, or both reach it.
abbrev pub CountsAs : ℤ → ℤ → ℤ → Type 0
CountsAs quantity x y = (x ≤ℤ y) × ((x ≡ y) ⊎ (quantity ≤ℤ x))

plus_zero : (a : ℤ) → pos 0 +ℤ a ≡ a
plus_zero a = omega int_laws

add_nothing : (a : ℤ) → a ≡ a +ℤ pos 0
add_nothing a = omega int_laws

offered-append : (xs ys : List Offer) → offered (xs ++ ys) ≡ offered xs +ℤ offered ys
offered-append [] ys = omega int_laws
offered-append (x ∷ xs) ys = rw (offered-append xs ys) (omega int_laws)

-- A count that has not overflowed goes on.
add64_step :
    (a b rest : ℤ)
    → IsInt64 (a +ℤ (b +ℤ rest))
    → pos 0 ≤ℤ a
    → pos 0 ≤ℤ b
    → pos 0 ≤ℤ rest
    → (add64 a b ≡ a +ℤ b) × (pos 0 ≤ℤ a +ℤ b) × ((a +ℤ b) +ℤ rest ≡ a +ℤ (b +ℤ rest))
add64_step a b rest i h k l = (add64_fits a b (omega int_laws), omega int_laws, omega int_laws)

le_more : (a b rest : ℤ) → pos 0 ≤ℤ rest → a +ℤ b ≤ℤ a +ℤ (b +ℤ rest)
le_more a b rest h = omega int_laws

module _ (lookup_account : ℤ → Option String) (order : Order) where
  add_nodes-CountsAs :
      (price : ℤ) (nodes : List (Option CoreOrder)) (a : ℤ)
      → (let offers = node_offers lookup_account order.account_id price nodes in
          IsInt64 (a +ℤ offered offers)
          → pos 0 ≤ℤ a
          → Stocked offers
          → CountsAs order.quantity (add_nodes lookup_account order nodes a) (a +ℤ offered offers))
  unfolding add_nodes node_offers
  add_nodes-CountsAs price [] a i h st = ground (arith, add_nothing a)
  add_nodes-CountsAs price (none ∷ nodes) a i h st = add_nodes-CountsAs price nodes a i h st
  add_nodes-CountsAs price (some r ∷ nodes) a i h st = ground (
    arith,
    add_nodes-CountsAs price nodes a,
    add_nodes-CountsAs price nodes (a +ℤ r.quantity),
    offered_nonneg (node_offers lookup_account order.account_id price nodes),
    add64_step a r.quantity (offered (node_offers lookup_account order.account_id price nodes)),
    le_more a r.quantity (offered (node_offers lookup_account order.account_id price nodes)),
  )

-- The sums over a level and over the levels after it.
split_sum :
    (a x y : ℤ)
    → IsInt64 (a +ℤ (x +ℤ y))
    → pos 0 ≤ℤ a
    → pos 0 ≤ℤ x
    → pos 0 ≤ℤ y
    → IsInt64 (a +ℤ x)
      × (pos 0 ≤ℤ a +ℤ x)
      × ((a +ℤ x) +ℤ y ≡ a +ℤ (x +ℤ y))
      × (a +ℤ x ≤ℤ a +ℤ (x +ℤ y))
split_sum a x y i h k l = (omega int_laws, omega int_laws, omega int_laws, omega int_laws)

Stocked-split : (xs ys : List Offer) → Stocked (xs ++ ys) → Stocked xs × Stocked ys
Stocked-split [] ys h = (tt, h)
Stocked-split (x ∷ xs) ys h = ground (arith, Stocked-split xs ys h.1)

-- A count that stops once it reaches the quantity, and otherwise goes on by `next`.
count_on :
    (quantity more s t : ℤ) (next : ℤ → ℤ)
    → CountsAs quantity more s
    → s ≤ℤ t
    → CountsAs quantity (next s) t
    → CountsAs quantity (if leb_ℤ quantity more then more else next more) t
count_on quantity more s t next c l n = ground arith

module _ (C : CoreBook) (m : OrderMatcher) (lookup_account : ℤ → Option String) (order : Order)
    (fill_or_kill : order.kind ≡ fok) where
  -- Counting a level and then, if too little was found, as `next` does.
  level-CountsAs :
      (level : PriceLevel) (a : ℤ) (ys : List Offer) (next : ℤ → ℤ)
      → ((b : ℤ)
          → IsInt64 (b +ℤ offered ys)
          → pos 0 ≤ℤ b
          → Stocked ys
          → CountsAs order.quantity (next b) (b +ℤ offered ys))
      → (let xs = node_offers lookup_account order.account_id level.price level.head in
          let more = add_available_liquidity lookup_account order level a in
          IsInt64 (a +ℤ offered (xs ++ ys))
          → pos 0 ≤ℤ a
          → Stocked (xs ++ ys)
          → CountsAs order.quantity
              (if leb_ℤ order.quantity more then more else next more)
              (a +ℤ offered (xs ++ ys)))
  unfolding add_available_liquidity
  level-CountsAs level a ys next n i h st =
      let xs = node_offers lookup_account order.account_id level.price level.head in
      let stocked = Stocked-split xs ys st in
      let sums =
        split_sum a (offered xs) (offered ys) (rw (offered-append xs ys) at i) h
          (offered_nonneg xs stocked.0) (offered_nonneg ys stocked.1) in
      rw (offered-append xs ys) (
        count_on order.quantity _ (a +ℤ offered xs) _ next
          (add_nodes-CountsAs lookup_account order level.price level.head a sums.0 h stocked.0)
          sums.3
          (rw (← sums.2)
            (n (a +ℤ offered xs) (rw sums.2 (rw (offered-append xs ys) at i)) sums.1 stocked.1)))

  add_levels-CountsAs :
      (skip : ℕ) (levels : List (Option PriceLevel)) (a : ℤ)
      → (let offers = level_offers lookup_account order skip true levels in
          IsInt64 (a +ℤ offered offers)
          → pos 0 ≤ℤ a
          → Stocked offers
          → CountsAs order.quantity
              (add_levels C m lookup_account order skip levels a)
              (a +ℤ offered offers))
  unfolding add_levels level_offers
  add_levels-CountsAs skip [] a i h st = ground (arith, add_nothing a)
  add_levels-CountsAs skip (none ∷ levels) a i h st = add_levels-CountsAs skip levels a i h st
  add_levels-CountsAs skip (some level ∷ levels) a i h st = ground (
    arith,
    add_nothing a,
    add_levels-CountsAs skip levels a,
    level-CountsAs level a (level_offers lookup_account order skip true levels)
        (add_levels C m lookup_account order skip levels) (add_levels-CountsAs skip levels),
  )

  -- For a FOK order the liquidity counts as the quantity of all offers from the best level on. The
  -- price of the best level itself is not tested.
  pub liquidity-CountsAs :
      (ob : C.Book) (best : PriceLevel)
      → best_opposite_level C order ob ≡ some best
      → (let offers = queue_from C m lookup_account order ob true best in
          IsInt64 (offered offers)
          → Stocked offers
          → CountsAs order.quantity
              (get_available_liquidity C m lookup_account order ob)
              (offered offers))
  unfolding get_available_liquidity queue_from
  liquidity-CountsAs ob best e i st =
      let levels = top_opposite_levels C m order ob in
      let rest = level_offers lookup_account order best.address true levels in
      rw (e, get_available_liquidity)
        (rw (plus_zero _) at (
          level-CountsAs best (pos 0) rest (add_levels C m lookup_account order best.address levels)
            (add_levels-CountsAs best.address levels) (rw (plus_zero _) i) (omega arith) st))
