-- ===== src/Exchange/TradeReport/Ledger.antt =====
-- exchange/trade_report.go: the quantities of a tracked order are those of its trades, through any
-- sequence of calls that report on orders and trades.
use fin_kit.Prelude.{
  ◌<◌, ◌≡◌, refl, sym, ◌∙◌, ap, List, [], ◌∷◌, ◌++◌, arith, nat_eqb, Bool-cases, inl, inr,
}
use fin_kit.Prelude.Int.{ℤ, pos, int_eq}
use fin_kit.Prelude.Int64.{wrap, add64, mul64, add64-moved}
use fin_kit.Exchange.OrderType.{Order, Trade}
use fin_kit.Exchange.Heap.{Ref, TrackedOrder, Heap, set_order, set_trade, set_tracked}
use fin_kit.Exchange.TradeReport.Report.{add_fill}

-- The sum over a list of trades as an int64 counter adds it up, one trade after another.
unfoldable pub total : (Ref → ℤ) → ℤ → List Ref → ℤ
total f sum [] = sum
total f sum (t ∷ ts) = total f (add64 sum (f t)) ts

total-append :
    (f : Ref → ℤ) (sum : ℤ) (ts : List Ref) (t : Ref)
    → total f sum (ts ++ (t ∷ [])) ≡ add64 (total f sum ts) (f t)
unfolding total
total-append f sum [] t = refl
total-append f sum (u ∷ ts) t = total-append f (add64 sum (f u)) ts t

total-same :
    (f g : Ref → ℤ) (sum : ℤ) (ts : List Ref)
    → ((t : Ref) → f t ≡ g t)
    → total f sum ts ≡ total g sum ts
unfolding total
total-same f g sum [] h = refl
total-same f g sum (t ∷ ts) h = rw (h t) (total-same f g (add64 sum (g t)) ts h)

-- What a trade is worth to a counter of values.
abbrev pub value_of : Trade → ℤ
value_of t = mul64 t.price t.quantity

-- A tracked order's counters: what is filled and what remains make the order's quantity, and the
-- order's trades add up to what is filled and to the total value.
pub record IsBalanced (heap : Heap) (x : TrackedOrder) : Type 0 where
  pub quantity : add64 x.filled_qty x.remaining_qty ≡ wrap (heap.orders x.order).quantity
  pub filled : x.filled_qty ≡ total (λ t. (heap.trades t).quantity) (pos 0) x.trades
  pub value : x.total_value ≡ total (λ t. value_of (heap.trades t)) (pos 0) x.trades

abbrev pub AllBalanced : Heap → Type 0
AllBalanced heap = (t : Ref) → t < heap.next_tracked → IsBalanced heap (heap.tracked t)

pub set_tracked-AllBalanced :
    (t : Ref) (x : TrackedOrder) (heap : Heap)
    → IsBalanced heap x
    → AllBalanced heap
    → AllBalanced (set_tracked t x heap)
set_tracked-AllBalanced t x heap b h u there = elim (Bool-cases (nat_eqb t u)) [
  | inl same ↦ rw same record { quantity = b.quantity; filled = b.filled; value = b.value }
  | inr other ↦
      let c = h u there in
      rw other record { quantity = c.quantity; filled = c.filled; value = c.value }
]

pub set_order-AllBalanced :
    (p : Ref) (o : Order) (heap : Heap)
    → o.quantity ≡ (heap.orders p).quantity
    → AllBalanced heap
    → AllBalanced (set_order p o heap)
set_order-AllBalanced p o heap same h u there = record {
  quantity = ground (arith, (h u there).quantity);
  filled = (h u there).filled;
  value = (h u there).value;
}

pub set_trade-AllBalanced :
    (p : Ref) (t : Trade) (heap : Heap)
    → t.quantity ≡ (heap.trades p).quantity
    → t.price ≡ (heap.trades p).price
    → AllBalanced heap
    → AllBalanced (set_trade p t heap)
set_trade-AllBalanced p t heap q v h u there = record {
  quantity = (h u there).quantity;
  filled = (h u there).filled ∙ total-same _ _ (pos 0) (heap.tracked u).trades (λ i. ground arith);
  value = (h u there).value ∙ total-same _ _ (pos 0) (heap.tracked u).trades (λ i. ground arith);
}

-- One more trade on a tracked order.
pub add_fill-IsBalanced :
    (trade : Ref) (x : TrackedOrder) (heap : Heap)
    → IsBalanced heap x
    → (let t = heap.trades trade in IsBalanced heap (add_fill t.quantity t.price trade x))
unfolding add_fill
add_fill-IsBalanced trade x heap b = record {
  quantity = add64-moved x.filled_qty x.remaining_qty (heap.trades trade).quantity ∙ b.quantity;
  filled =
      ap (λ n. add64 n (heap.trades trade).quantity) b.filled
      ∙ sym (total-append _ (pos 0) x.trades trade);
  value =
      ap (λ n. add64 n (value_of (heap.trades trade))) b.value
      ∙ sym (total-append _ (pos 0) x.trades trade);
}
