-- ===== src/Exchange/TradeReport/Stats.antt =====
-- exchange/trade_report.go, GetStats: what its counters count.
use fin_kit.Prelude.{
  ℕ, suc, ◌+◌, ◌≡◌, refl, sym, ◌∙◌, Bool, true, false, [], ◌∷◌, arith, if◌then◌else◌, length,
}
use fin_kit.Prelude.Int.{ℤ, pos, ◌+ℤ◌, +ℤ_parts, eq_of_parts}
use fin_kit.Prelude.Int64.{
  wrap, wrap-id, IsInt64, add64, add64_zero, add64_one, add64_nil, add64-IsInt64,
}
use fin_kit.Prelude.Dict.{Dict}
use fin_kit.Core.{Int64Map, IsMap}
use fin_kit.Exchange.OrderType.{OrderStatus, new, partial, filled, canceled, rejected}
use fin_kit.Exchange.Heap.{Ref, Heap}
use fin_kit.Exchange.TradeReport.Report.{TradeReporterStats, count_order, count_all}
use fin_kit.Exchange.TradeReport.{TradeReporter, get_stats}

abbrev pub is_active : OrderStatus → Bool
is_active new = true
is_active partial = true
is_active _ = false

abbrev pub is_filled : OrderStatus → Bool
is_filled filled = true
is_filled _ = false

abbrev pub is_canceled : OrderStatus → Bool
is_canceled canceled = true
is_canceled _ = false

abbrev pub is_rejected : OrderStatus → Bool
is_rejected rejected = true
is_rejected _ = false

-- How many entries of the map are of tracked orders with such a status.
unfoldable pub number : (OrderStatus → Bool) → Heap → Dict ℤ Ref → ℕ
number p heap [] = 0
number p heap ((_, t) ∷ rest) =
    if p (heap.tracked t).status then suc (number p heap rest) else number p heap rest

one_more : Bool → ℤ → ℤ
one_more b c = if b then add64 c (pos 1) else c

count_order-counts :
    (x : OrderStatus) (s : TradeReporterStats)
    → (let s' = count_order x s in
        (s'.active_orders ≡ one_more (is_active x) s.active_orders)
        × (s'.filled_orders ≡ one_more (is_filled x) s.filled_orders)
        × (s'.canceled_orders ≡ one_more (is_canceled x) s.canceled_orders)
        × (s'.rejected_orders ≡ one_more (is_rejected x) s.rejected_orders)
        × (s'.total_orders ≡ s.total_orders)
        × (s'.total_trades ≡ s.total_trades))
unfolding count_order one_more
count_order-counts new s = (refl, refl, refl, refl, refl, refl)
count_order-counts partial s = (refl, refl, refl, refl, refl, refl)
count_order-counts filled s = (refl, refl, refl, refl, refl, refl)
count_order-counts canceled s = (refl, refl, refl, refl, refl, refl)
count_order-counts rejected s = (refl, refl, refl, refl, refl, refl)

-- A field that grows by one for each such status counts them.
counter :
    (f : TradeReporterStats → ℤ) (p : OrderStatus → Bool)
    → ((x : OrderStatus) (s : TradeReporterStats) → f (count_order x s) ≡ one_more (p x) (f s))
    → (heap : Heap) (d : Dict ℤ Ref) (s : TradeReporterStats) → IsInt64 (f s)
    → f (count_all heap d s) ≡ add64 (f s) (pos (number p heap d))
unfolding count_all number one_more
counter f p grows heap [] s h = sym (add64_nil (f s) h)
counter f p grows heap ((_, t) ∷ d) s h = ground (
  arith,
  grows (heap.tracked t).status s,
  counter f p grows heap d (count_order (heap.tracked t).status s),
  add64_one (f s) (number p heap d),
  add64-IsInt64 (f s) (pos 1),
)

from_zero :
    (f : TradeReporterStats → ℤ) (p : OrderStatus → Bool)
    → ((x : OrderStatus) (s : TradeReporterStats) → f (count_order x s) ≡ one_more (p x) (f s))
    → (heap : Heap) (d : Dict ℤ Ref) (s : TradeReporterStats) → f s ≡ pos 0
    → f (count_all heap d s) ≡ wrap (pos (number p heap d))
from_zero f p grows heap d s z =
    ground (arith, counter f p grows heap d s, add64_zero (pos (number p heap d)))

-- A field that no status changes.
steady :
    (f : TradeReporterStats → ℤ)
    → ((x : OrderStatus) (s : TradeReporterStats) → f (count_order x s) ≡ f s)
    → (heap : Heap) (d : Dict ℤ Ref) (s : TradeReporterStats) → f (count_all heap d s) ≡ f s
unfolding count_all
steady f stays heap [] s = refl
steady f stays heap ((_, t) ∷ d) s =
    steady f stays heap d (count_order (heap.tracked t).status s) ∙ stays (heap.tracked t).status s

-- Each entry is in one of the four classes.
numbers :
    (heap : Heap) (d : Dict ℤ Ref)
    → number is_active heap d
        + number is_filled heap d
        + number is_canceled heap d
        + number is_rejected heap d
      ≡ length d
unfolding number
numbers heap [] = refl
numbers heap ((_, t) ∷ d) = ground (arith, numbers heap d)

module _ (H : Int64Map) (M : IsMap H) where
  pub get_stats-counts :
      (heap : Heap) (r : TradeReporter H)
      → (let stats = get_stats H heap r in
          let count : (OrderStatus → Bool) → ℤ =
            λ p. wrap (pos (number p heap (H.entries r.orders))) in
          (stats.active_orders ≡ count is_active)
          × (stats.filled_orders ≡ count is_filled)
          × (stats.canceled_orders ≡ count is_canceled)
          × (stats.rejected_orders ≡ count is_rejected)
          × (stats.total_orders ≡ H.len r.orders)
          × (stats.total_trades ≡ r.trade_counter))
  unfolding get_stats
  get_stats-counts heap r =
      let d = H.entries r.orders in
      (
        from_zero (λ s. s.active_orders) is_active (λ x s. (count_order-counts x s).0) heap d _
            refl,
        from_zero (λ s. s.filled_orders) is_filled (λ x s. (count_order-counts x s).1) heap d _
            refl,
        from_zero (λ s. s.canceled_orders) is_canceled (λ x s. (count_order-counts x s).2) heap d _
            refl,
        from_zero (λ s. s.rejected_orders) is_rejected (λ x s. (count_order-counts x s).3) heap d _
            refl,
        steady (λ s. s.total_orders) (λ x s. (count_order-counts x s).4) heap d _,
        steady (λ s. s.total_trades) (λ x s. (count_order-counts x s).5) heap d _,
      )

  -- The active, filled, canceled and rejected orders of GetStats add up to its total of orders,
  -- where the number of tracked orders is an int64. The hash map keeps its laws.
  pub get_stats-sum :
      (heap : Heap) (r : TradeReporter H)
      → IsInt64 (H.len r.orders)
      → (let stats = get_stats H heap r in
          stats.active_orders +ℤ stats.filled_orders +ℤ stats.canceled_orders
            +ℤ stats.rejected_orders
          ≡ stats.total_orders)
  get_stats-sum heap r fits =
      let (a, f, c, j, total, _) = get_stats-counts heap r in
      let d = H.entries r.orders in
      let same = numbers heap d in
      let len = M.len-entries Ref r.orders in
      rw (a, f, c, j, total, len)
        (ground (
          arith,
          wrap-id (pos (number is_active heap d)),
          wrap-id (pos (number is_filled heap d)),
          wrap-id (pos (number is_canceled heap d)),
          wrap-id (pos (number is_rejected heap d)),
          +ℤ_parts (pos (number is_active heap d)) (pos (number is_filled heap d)),
          +ℤ_parts (pos (number is_active heap d) +ℤ pos (number is_filled heap d))
              (pos (number is_canceled heap d)),
          +ℤ_parts
              (pos (number is_active heap d)
                +ℤ pos (number is_filled heap d)
                +ℤ pos (number is_canceled heap d))
              (pos (number is_rejected heap d)),
          eq_of_parts
              (pos (number is_active heap d)
                +ℤ pos (number is_filled heap d)
                +ℤ pos (number is_canceled heap d)
                +ℤ pos (number is_rejected heap d))
              (pos (length d)),
        ))
