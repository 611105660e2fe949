-- ===== src/Exchange/Matcher/Resting.antt =====
-- What a match of exchange/order_matcher.go takes of each resting order.
use fin_kit.Prelude.{◌≡◌, Option, List, String, arith, if◌then◌else◌, All, All-map}
use fin_kit.Prelude.Int.{ℤ, pos, ◌≤ℤ◌, ◌<ℤ◌, int_laws}
use fin_kit.Prelude.Int64.{IsInt64, sub64, sub64_fits}
use fin_kit.Core.{CoreBook, CoreOrder, is_buy}
use fin_kit.Exchange.OrderType.{Order, Trade, ok}
use fin_kit.Exchange.Matcher.Step.{create_trade, match_qty}
use fin_kit.Exchange.Matcher.Offers.{Offer}
use fin_kit.Exchange.Matcher.Greedy.{opposite_offers}
use fin_kit.Exchange.Matcher.Dispatch.{held_to_price, match_order-allocation}
use fin_kit.Exchange.Matcher.Terms.{allocate-All}
use fin_kit.Exchange.Matcher.{OrderMatcher, match_order}

-- The quantity that a trade records as left of the resting order.
abbrev pub resting_remaining_qty : Order → Trade → ℤ
resting_remaining_qty order t =
    if is_buy order.side then t.sell_remaining_qty else t.buy_remaining_qty

-- A resting order with something to trade.
abbrev pub IsLive : CoreOrder → Type 0
IsLive r = (pos 0 <ℤ r.quantity) × IsInt64 r.quantity

-- A trade of something, which leaves nothing negative behind.
abbrev pub Covered : Order → Trade → Type 0
Covered order t = (pos 0 <ℤ t.quantity) × (pos 0 ≤ℤ resting_remaining_qty order t)

sub64_rest : (a b : ℤ) → IsInt64 a → pos 0 ≤ℤ b → b ≤ℤ a → pos 0 ≤ℤ sub64 a b
sub64_rest a b i h k = rw (sub64_fits a b (omega int_laws)) (omega int_laws)

create_trade-Covered :
    (order : Order) (o : Offer) (left : ℤ)
    → IsLive o.resting
    → pos 0 <ℤ left
    → Covered order (create_trade order o.resting o.account (match_qty left o.resting) o.price)
unfolding create_trade
create_trade-Covered order o left live h =
    ground (arith, sub64_rest o.resting.quantity (match_qty left o.resting) live.1)

-- Where every offer that the order may take has a positive int64 quantity, each trade of a
-- successful match has a positive quantity and records a remaining quantity of the resting order
-- that is not negative.
pub match_order-Covered :
    (C : CoreBook) (m : OrderMatcher) (lookup_account : ℤ → Option String) (order : Order)
    (ob : C.Book) {trades : List Trade}
    → (match_order C m lookup_account order ob).1 ≡ ok trades
    → All
        (λ o. IsLive o.resting)
        (opposite_offers C m lookup_account order ob (held_to_price order.kind))
    → All (Covered order) trades
match_order-Covered C m lookup_account order ob matched live =
    let (_, e) = match_order-allocation C m lookup_account order ob matched in
    rw e (
      allocate-All _ order order.quantity _
        (All-map _ (λ o l left h. create_trade-Covered order o left l h) live))
