-- ===== src/Exchange/Matcher/Amounts.antt =====
-- The quantities of a match of exchange/order_matcher.go: nothing is traded twice, nothing is lost,
-- and as much is traded as the offers allow.
use fin_kit.Prelude.{
  ◌≡◌, List, [], ◌∷◌, ◌++◌, String, arith, if◌then◌else◌, Bool-cases, All, inl, inr,
}
use fin_kit.Prelude.Int.{ℤ, pos, leb_ℤ, ltb_ℤ, ◌≤ℤ◌, ◌<ℤ◌, ◌+ℤ◌, ◌-ℤ◌, eq_of_parts, int_laws}
use fin_kit.Prelude.Int64.{add64, sub64, IsInt64, add64_fits, sub64_fits}
use fin_kit.Core.{CoreOrder}
use fin_kit.Exchange.OrderType.{Order, Trade}
use fin_kit.Exchange.Matcher.Step.{Matching, fill, create_trade, match_qty}
use fin_kit.Exchange.Matcher.Offers.{Offer, allocate, fill_all}
use fin_kit.Exchange.Matcher.Greedy.{start}

-- The quantity of a list of trades, as an unbounded sum.
abbrev pub traded : List Trade → ℤ
traded [] = pos 0
traded (t ∷ ts) = t.quantity +ℤ traded ts

-- The quantity that the offers hold, as an unbounded sum.
abbrev pub offered : List Offer → ℤ
offered [] = pos 0
offered (o ∷ os) = o.resting.quantity +ℤ offered os

-- No offer has a negative quantity.
abbrev pub Stocked : List Offer → Type 0
Stocked = All (λ o. pos 0 ≤ℤ o.resting.quantity)

abbrev pub min_ℤ : ℤ → ℤ → ℤ
min_ℤ a b = if leb_ℤ a b then a else b

traded-append : (xs : List Trade) (t : Trade) → traded (xs ++ t ∷ []) ≡ traded xs +ℤ t.quantity
traded-append [] t = omega int_laws
traded-append (x ∷ xs) t = rw (traded-append xs t) (omega int_laws)

create_trade-quantity :
    (o : Order) (r : CoreOrder) (account : String) (qty price : ℤ)
    → (create_trade o r account qty price).quantity ≡ qty
unfolding create_trade
create_trade-quantity o r account qty price = ground arith

-- What is filled, what is traded and what remains make up the quantity of the order.
pub record Balanced (quantity : ℤ) (s : Matching) : Type 0 where
  pub remains : pos 0 ≤ℤ s.remaining
  pub filled : pos 0 ≤ℤ s.order.filled_qty
  pub books : s.order.filled_qty +ℤ s.remaining ≡ quantity
  pub trades : traded s.trades +ℤ s.remaining ≡ quantity
  pub agrees : s.order.remaining_qty ≡ s.remaining

match_qty_bounds :
    (remaining : ℤ) (r : CoreOrder)
    → pos 0 ≤ℤ remaining
    → pos 0 ≤ℤ r.quantity
    → (pos 0 ≤ℤ match_qty remaining r) × (match_qty remaining r ≤ℤ remaining)
match_qty_bounds remaining r h k = ground arith

sub64_within : (a b : ℤ) → IsInt64 a → pos 0 ≤ℤ b → b ≤ℤ a → sub64 a b ≡ a -ℤ b
sub64_within a b i h k = sub64_fits a b (omega int_laws)

sub-IsInt64 : (a b : ℤ) → IsInt64 a → pos 0 ≤ℤ b → b ≤ℤ a → IsInt64 (a -ℤ b)
sub-IsInt64 a b i h k = omega int_laws

add64_within :
    (a b c : ℤ) → IsInt64 (a +ℤ c) → pos 0 ≤ℤ a → pos 0 ≤ℤ b → b ≤ℤ c → add64 a b ≡ a +ℤ b
add64_within a b c i h k l = add64_fits a b (omega int_laws)

move_along : (a b q : ℤ) → (a +ℤ q) +ℤ (b -ℤ q) ≡ a +ℤ b
move_along a b q = omega int_laws

nonneg_add : (a b : ℤ) → pos 0 ≤ℤ a → pos 0 ≤ℤ b → pos 0 ≤ℤ a +ℤ b
nonneg_add a b h k = omega int_laws

nonneg_sub : (a b : ℤ) → b ≤ℤ a → pos 0 ≤ℤ a -ℤ b
nonneg_sub a b h = omega int_laws

-- The parts of a sum of nonnegative numbers that is an int64 are int64s.
fits : (a b : ℤ) → IsInt64 (a +ℤ b) → pos 0 ≤ℤ a → pos 0 ≤ℤ b → IsInt64 b
fits a b i h k = omega int_laws

fill-Balanced :
    (quantity price : ℤ) (r : CoreOrder) (account : String) (s : Matching)
    → IsInt64 quantity
    → pos 0 ≤ℤ r.quantity
    → Balanced quantity s
    → Balanced quantity (fill price r account s)
unfolding fill
fill-Balanced quantity price r account s i h b = ground (
  arith,
  within,
  add64_within s.order.filled_qty qty s.remaining sum b.filled within.0 within.1,
  sub64_within s.remaining qty (fits s.order.filled_qty s.remaining sum b.filled b.remains) within.0
      within.1,
  create_trade-quantity s.order r account qty price,
  traded-append s.trades (create_trade s.order r account qty price),
  move_along s.order.filled_qty s.remaining qty,
  move_along (traded s.trades) s.remaining qty,
  nonneg_add s.order.filled_qty qty,
  nonneg_sub s.remaining qty,
)
  where
    qty : ℤ
    qty = match_qty s.remaining r

    within : (pos 0 ≤ℤ qty) × (qty ≤ℤ s.remaining)
    within = match_qty_bounds s.remaining r b.remains h

    sum : IsInt64 (s.order.filled_qty +ℤ s.remaining)
    sum = rw b.books i

pub fill_all-Balanced :
    (quantity : ℤ) (offers : List Offer) (s : Matching)
    → IsInt64 quantity
    → Stocked offers
    → Balanced quantity s
    → Balanced quantity (fill_all offers s)
unfolding fill_all
fill_all-Balanced quantity [] s i h b = b
fill_all-Balanced quantity (o ∷ offers) s i h b = elim (Bool-cases (leb_ℤ s.remaining (pos 0))) [
  | inl done ↦ rw done b
  | inr more ↦ rw more (
      fill_all-Balanced quantity offers _ i h.1
        (fill-Balanced quantity o.price o.resting o.account s i h.0 b))
]

-- An order as NewOrder makes it: nothing is filled or canceled yet.
pub record IsFresh (order : Order) : Type 0 where
  pub positive : pos 0 <ℤ order.quantity
  pub int64 : IsInt64 order.quantity
  pub unfilled : order.filled_qty ≡ pos 0
  pub uncanceled : order.canceled_qty ≡ pos 0
  pub remains : order.remaining_qty ≡ order.quantity

start-Balanced : (order : Order) → IsFresh order → Balanced order.quantity (start order)
start-Balanced order f = record {
  remains = omega (arith, f.positive);
  filled = rw f.unfilled (omega arith);
  books = rw f.unfilled (omega int_laws);
  trades = omega int_laws;
  agrees = f.remains;
}

pub match-Balanced :
    (order : Order) (offers : List Offer)
    → IsFresh order
    → Stocked offers
    → Balanced order.quantity (fill_all offers (start order))
match-Balanced order offers f h =
    fill_all-Balanced order.quantity offers (start order) f.int64 h (start-Balanced order f)

pub offered_nonneg : (offers : List Offer) → Stocked offers → pos 0 ≤ℤ offered offers
offered_nonneg [] h = omega arith
offered_nonneg (o ∷ offers) h = omega (int_laws, offered_nonneg offers h.1)

allocate_step :
    (q r rest : ℤ)
    → pos 0 ≤ℤ q
    → pos 0 ≤ℤ r
    → pos 0 ≤ℤ rest
    → (let qty = if ltb_ℤ r q then r else q in qty +ℤ min_ℤ (q -ℤ qty) rest) ≡ min_ℤ q (r +ℤ rest)
unfolding ◌+ℤ◌ ◌-ℤ◌
allocate_step (pos q) (pos r) (pos rest) h k l = ground arith
allocate_step q r rest h k l = absurd (omega arith)

-- As much is traded as the quantity and the offers allow.
pub traded-allocate :
    (order : Order) (q : ℤ) (offers : List Offer)
    → IsInt64 q
    → pos 0 ≤ℤ q
    → Stocked offers
    → traded (allocate order q offers) ≡ min_ℤ q (offered offers)
unfolding allocate
traded-allocate order q [] i h k = ground arith
traded-allocate order q (o ∷ offers) i h k = ground (
  arith,
  within,
  nonneg_sub q qty,
  sub64_within q qty i within.0 within.1,
  create_trade-quantity order o.resting o.account qty o.price,
  traded-allocate order (q -ℤ qty) offers (sub-IsInt64 q qty i within.0 within.1),
  allocate_step q o.resting.quantity (offered offers) h k.0 (offered_nonneg offers k.1),
  nonneg_add o.resting.quantity (offered offers) k.0 (offered_nonneg offers k.1),
  eq_of_parts q (pos 0),
)
  where
    qty : ℤ
    qty = match_qty q o.resting

    within : (pos 0 ≤ℤ qty) × (qty ≤ℤ q)
    within = match_qty_bounds q o.resting h k.0
