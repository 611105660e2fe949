-- ===== src/Exchange/Engine/Unmatched.antt =====
-- exchange/matching_engine.go: what SubmitOrder reports of a market or IOC order that finds no offer.
use fin_kit.Prelude.{
  ℕ, ◌≡◌, refl, ◌∙◌, ap, true, none, some, Option, [], arith, ◌==◌, if◌then◌else◌, Bool-cases, inl,
  inr, String, string_eq,
}
use fin_kit.Prelude.Int.{ℤ, pos, int_eq, ltb_ℤ}
use fin_kit.Core.{CoreBook, Int64Map, IsMap, Float64}
use fin_kit.Exchange.OrderType.{Order, new, ok}
use fin_kit.Exchange.Matcher.{
  OrderMatcher, match_order, best_opposite_level, match_ioc_order, match_market_order,
  match_limit_order,
}
use fin_kit.Exchange.Matcher
use fin_kit.Exchange.OrderBook.{OrderBook, get_account_id}
use fin_kit.Exchange.Heap.{Ref, set_order}
use fin_kit.Exchange.TradeReport.{register_order, update_remaining_qty, get_order_report}
use fin_kit.Exchange.TradeReport.Report.{ExecutionReport, execution_report}
use fin_kit.Exchange.Engine.State.{
  World, MatchingEngine, get_or_create_order_book, validate_order, book_symbol, Reply,
}
use fin_kit.Exchange.Engine.Submit.{set_timestamp, cancels_rest, Settling, settle, finish}
use fin_kit.Exchange.Engine.{process, submit_order}
use fin_kit.Exchange.Engine.Isolation.{nat_eqb_refl}

-- An order as NewOrder makes it, which is not to rest.
pub record IsTaker (o : Order) : Type 0 where
  pub cancels : cancels_rest o.kind ≡ true
  pub whole : o.remaining_qty ≡ o.quantity
  pub valid : validate_order o ≡ none

validate_order_same : (o : Order) → Matcher.validate_order o ≡ validate_order o
unfolding Matcher.validate_order validate_order
validate_order_same o = refl

IsTaker-positive : (o : Order) → IsTaker o → ltb_ℤ (pos 0) o.quantity ≡ true
unfolding validate_order
IsTaker-positive o t = ground (arith, t.valid)

module _ (C : CoreBook) where
  -- The matcher cancels the whole of it.
  match_order-unmatched :
      (m : OrderMatcher) (lookup : ℤ → Option String) (o : Order) (b : C.Book)
      → IsTaker o
      → best_opposite_level C o b ≡ none
      → match_order C m lookup o b
        ≡ (record o { canceled_qty = o.quantity; remaining_qty = pos 0 }, ok [])
  unfolding match_order match_ioc_order match_market_order match_limit_order
  match_order-unmatched m lookup o b t alone =
      ground
        (arith, t.cancels, t.whole, t.valid, alone, validate_order_same o, IsTaker-positive o t)

abbrev timed : ℤ → Order → Order
timed now o = if o.timestamp == pos 0 then record o { timestamp = now } else o

timed-IsTaker : (now : ℤ) (o : Order) → IsTaker o → IsTaker (timed now o)
unfolding validate_order
timed-IsTaker now o t = elim (Bool-cases (o.timestamp == pos 0)) [
  | inl unset ↦ rw unset record { cancels = t.cancels; whole = t.whole; valid = t.valid }
  | inr set ↦ rw set t
]

timed-order_id : (now : ℤ) (o : Order) → (timed now o).order_id ≡ o.order_id
timed-order_id now o = ground arith

timed-quantity : (now : ℤ) (o : Order) → (timed now o).quantity ≡ o.quantity
timed-quantity now o = ground arith

timed-alone :
    (C : CoreBook) (now : ℤ) (o : Order) (b : C.Book)
    → best_opposite_level C o b ≡ none
    → best_opposite_level C (timed now o) b ≡ none
unfolding best_opposite_level
timed-alone C now o b alone = elim (Bool-cases (o.timestamp == pos 0)) [
  | inl unset ↦ rw unset alone
  | inr set ↦ rw set alone
]

module _ (clock : ℕ → ℤ) where
  set_timestamp-timed :
      (p : Ref) (w : World)
      → (set_timestamp clock p w).heap.orders p ≡ timed (clock w.ticks) (w.heap.orders p)
  unfolding set_timestamp
  set_timestamp-timed p w =
      let here = nat_eqb_refl p in
      elim (Bool-cases ((w.heap.orders p).timestamp == pos 0)) [
        | inl unset ↦ rw (unset, set_timestamp) (rw here refl)
        | inr set ↦ rw (set, set_timestamp) refl
      ]

  set_timestamp-tracked :
      (p : Ref) (w : World) → (set_timestamp clock p w).heap.tracked ≡ w.heap.tracked
  unfolding set_timestamp
  set_timestamp-tracked p w = elim (Bool-cases ((w.heap.orders p).timestamp == pos 0)) [
    | inl unset ↦ rw (unset, set_timestamp) refl
    | inr set ↦ rw (set, set_timestamp) refl
  ]

module _ (F : Float64) where
  -- The order's whole quantity is canceled, but the reply says that the order is new.
  abbrev pub IsNew : Order → Order → Reply F → Type 0
  IsNew o after reply =
      (after.canceled_qty ≡ o.quantity)
      × (after.remaining_qty ≡ pos 0)
      × (report : ExecutionReport F) × (reply ≡ (some report, none))
      × (report.order_id ≡ o.order_id)
      × (report.status ≡ new)
      × (report.filled_qty ≡ pos 0)
      × (report.remaining_qty ≡ pos 0)

module _ (F : Float64) (C : CoreBook) (H : Int64Map) (clock : ℕ → ℤ) where
  -- The end of the submission: the rest of the order is canceled, and the reporter follows it as new.
  finish-IsNew :
      (p tr : Ref) (o : Order) (s : Settling C H)
      → cancels_rest o.kind ≡ true
      → ltb_ℤ (pos 0) o.canceled_qty ≡ true
      → o.remaining_qty ≡ pos 0
      → s.world.heap.orders p ≡ o
      → H.get s.reporter.orders o.order_id ≡ some tr
      → (s.world.heap.tracked tr).status ≡ new
      → (s.world.heap.tracked tr).filled_qty ≡ pos 0
      → (s.world.heap.tracked tr).order ≡ p
      → o.canceled_qty ≡ o.quantity
      → (let (s', answer) = finish F C H clock p none s in
          IsNew F o (s'.world.heap.orders p) answer)
  unfolding finish update_remaining_qty get_order_report execution_report
  finish-IsNew p tr o s cancels some_canceled none_left here tracked is_new unfilled its whole =
      let heap =
        (update_remaining_qty H o.order_id (pos 0) o.canceled_qty s.reporter s.world.heap).0 in
      let same = nat_eqb_refl p in
      (
        ground (arith, same),
        ground (arith, same),
        execution_report F o.order_id tr (clock s.world.ticks) heap,
        ground arith,
        ground arith,
        ground arith,
        ground arith,
        ground arith,
      )

module _ (F : Float64) (C : CoreBook) (H : Int64Map) (clock : ℕ → ℤ) (M : IsMap H) where
  process-IsNew :
      (p : Ref) (symbol : String) (ob : OrderBook C H) (e : MatchingEngine C H) (w : World)
      → IsTaker (w.heap.orders p)
      → best_opposite_level C (w.heap.orders p) ob.core_book ≡ none
      → (let ((e', w'), answer) = process F C H clock p symbol ob (e, w) in
          IsNew F (w.heap.orders p) (w'.heap.orders p) answer)
  unfolding process register_order settle
  process-IsNew p symbol ob e w t alone =
      let order = w.heap.orders p in
      let (heap, reporter) = register_order H p w.heap e.trade_reporter in
      let w0 = record w { heap = heap } in
      let w1 = set_timestamp clock p w0 in
      let o = timed (clock w.ticks) order in
      let o1 = record o { canceled_qty = o.quantity; remaining_qty = pos 0 } in
      let taker = timed-IsTaker (clock w.ticks) order t in
      let matched : match_order C e.order_matcher (get_account_id C H ob) (w1.heap.orders p)
            ob.core_book
          ≡ (o1, ok []) =
        rw (set_timestamp-timed clock p w0) (
          match_order-unmatched C e.order_matcher (get_account_id C H ob) o ob.core_book taker
            (timed-alone C (clock w.ticks) order ob.core_book alone)) in
      let outcome = ap (λ x. x.1) matched in
      let taken = ap (λ x. x.0) matched in
      let settled : Settling C H = record {
        world = record w1 { heap = set_order p o1 w1.heap };
        reporter = reporter;
        book = ob;
        check = e.self_trade_check;
      } in
      let here = nat_eqb_refl p in
      let fresh = nat_eqb_refl w.heap.next_tracked in
      let tracked = set_timestamp-tracked clock p w0 in
      let done =
        finish-IsNew F C H clock p w.heap.next_tracked o1 settled taker.cancels
          (IsTaker-positive o taker) refl (ground arith)
          (ground (
            arith,
            timed-order_id (clock w.ticks) order,
            M.get-set Ref order.order_id order.order_id w.heap.next_tracked e.trade_reporter.orders,
          ))
          (ap (λ at_ref. (at_ref w.heap.next_tracked).status) tracked ∙ rw fresh refl)
          (ap (λ at_ref. (at_ref w.heap.next_tracked).filled_qty) tracked ∙ rw fresh refl)
          (ap (λ at_ref. (at_ref w.heap.next_tracked).order) tracked ∙ rw fresh refl) refl in
      let (canceled, left, report, reply, id, status, filled, remaining) = done in
      (
        rw (outcome, taken, process) (canceled ∙ timed-quantity (clock w.ticks) order),
        rw (outcome, taken, process) left,
        report,
        rw (outcome, taken, process) reply,
        id ∙ timed-order_id (clock w.ticks) order,
        status,
        filled,
        remaining,
      )

  -- On a running engine, SubmitOrder of a valid market or IOC order of which all remains, where
  -- the other side of the book has no level, leaves the order with its whole quantity canceled
  -- and nothing remaining, but replies, without error, with a report of it as new, with nothing
  -- filled and nothing remaining. The hash map keeps its laws.
  pub submit_order-IsNew :
      (p : Ref) (e : MatchingEngine C H) (w : World)
      → e.running ≡ true
      → IsTaker (w.heap.orders p)
      → (let (_, ob) = get_or_create_order_book C H (w.heap.orders p) e in
          best_opposite_level C (w.heap.orders p) ob.core_book ≡ none)
      → (let ((e', w'), answer) = submit_order F C H clock (some p) (e, w) in
          IsNew F (w.heap.orders p) (w'.heap.orders p) answer)
  unfolding submit_order
  submit_order-IsNew p e w runs t alone =
      let order = w.heap.orders p in
      let (e1, ob) = get_or_create_order_book C H order e in
      rw (runs, t.valid, submit_order) (process-IsNew p (book_symbol order) ob e1 w t alone)
