-- ===== src/Exchange/Engine/Rejection.antt =====
-- exchange/matching_engine.go: what SubmitOrder does with an order that it refuses, and what ModifyOrder
-- does with a quantity that is refused.
use fin_kit.Prelude.{
  ℕ, suc, ◌≡◌, refl, ap, Bool, true, false, not, ◌&&◌, ◌||◌, Option, is_some, Option-cases,
  if◌then◌else◌, none, some, arith, String, string_eq, ◌==◌, Bool-cases, inl, inr,
}
use fin_kit.Prelude.Dict.{lookup}
use fin_kit.Prelude.Int.{ℤ, pos, leb_ℤ, int_eq, eqb_ℤ_iff}
use fin_kit.Core.{CoreOrder, CoreBook, IsBook, Int64Map, IsMap, Float64}
use fin_kit.Exchange.OrderType.{
  Error, new, partial, filled, canceled, rejected, ok, ◌>>=◌, invalid_order_id, invalid_account_id,
  invalid_quantity, order_not_found, err,
}
use fin_kit.Exchange.OrderBook.{OrderBook, get_order, get_account_id}
use fin_kit.Exchange.ErrorText.{error_text}
use fin_kit.Exchange.Heap.{Ref}
use fin_kit.Exchange.TradeReport.{reject_order, get_order_report}
use fin_kit.Exchange.TradeReport.Report.{ExecutionReport, execution_report, average_price}
use fin_kit.Exchange.TradeReport.Effects.{Unshared}
use fin_kit.Exchange.Engine.State.{World, MatchingEngine, validate_order}
use fin_kit.Exchange.Engine.{reject, submit_order, modify_order, replacement, new_object}
use fin_kit.Exchange.Engine.Isolation.{nat_eqb_refl, modify_order-left}

module _ (C : CoreBook) (H : Int64Map) where
  -- A nil order, one for an engine that is closed, or one that is not valid.
  abbrev pub refused : Option Ref → MatchingEngine C H → World → Bool
  refused none e w = true
  refused (some p) e w = not e.running || is_some (validate_order (w.heap.orders p))

  -- The order's ID is this one, and the engine is running.
  abbrev pub marks : ℤ → Option Ref → MatchingEngine C H → World → Bool
  marks i none e w = false
  marks i (some p) e w = e.running && i == (w.heap.orders p).order_id

  -- The text of the error of an order that is not valid, on a running engine.
  abbrev pub complaint : Option Ref → MatchingEngine C H → World → Option String
  complaint none e w = none
  complaint (some p) e w =
      if e.running
      then elim (validate_order (w.heap.orders p)) [
        | none ↦ none
        | some failure ↦ some (error_text failure)
      ]
      else none

module _ (F : Float64) where
  -- The reason of a report whose status is rejected.
  abbrev pub rejection : Option (ExecutionReport F) → Option String
  rejection none = none
  rejection (some report) = elim report.status [
    | rejected ↦ some report.reject_reason
    | new ↦ none
    | partial ↦ none
    | filled ↦ none
    | canceled ↦ none
  ]

module _ (F : Float64) (C : CoreBook) (H : Int64Map) (clock : ℕ → ℤ) where
  -- SubmitOrder of a nil order, on a closed engine, or of an order that is not valid leaves the
  -- engine, its books included, and all orders as they are. It returns an error exactly in the
  -- first two cases and a report in the third, with the status rejected and the text of the
  -- validation's error as its reason. Afterwards GetOrderReport of any ID returns what it did
  -- before, except that in the third case its status is rejected under the ID of the order that
  -- was submitted. In the reporter no tracked order stands under two IDs.
  pub submit_order-refused :
      (order : Option Ref) (i later : ℤ) (e : MatchingEngine C H) (w : World)
      → Unshared H e.trade_reporter
      → refused C H order e w ≡ true
      → (let ((e', w'), (report, failure)) = submit_order F C H clock order (e, w) in
          (e' ≡ e)
          × (w'.heap.orders ≡ w.heap.orders)
          × (is_some failure ≡ not (is_some order && e.running))
          × (is_some report ≡ (is_some order && e.running))
          × (rejection F report ≡ complaint C H order e w)
          × (get_order_report F H i later e'.trade_reporter w'.heap ≡ (
              get_order_report F H i later e.trade_reporter w.heap >>= λ old.
              ok (record old { status = if marks C H i order e w then rejected else old.status }))))
  unfolding submit_order reject reject_order get_order_report execution_report average_price
  submit_order-refused none i later e w apart turned = (refl, refl, refl, refl, refl, ground arith)
  submit_order-refused (some p) i later e w apart turned =
      let id = (w.heap.orders p).order_id in
      (
        ground arith,
        ground arith,
        ground arith,
        ground arith,
        ground arith,
        elim (Option-cases (H.get e.trade_reporter.orders i)) [
          | inl missing ↦ ground (arith, eqb_ℤ_iff i id)
          | inr (t, there) ↦ ground (arith, eqb_ℤ_iff i id, apart i id t)
        ],
      )

-- A replacement of a quantity that is not positive is not valid.
replacement-invalid :
    (i q p now : ℤ) (account : String) (existing : CoreOrder) (w : World)
    → leb_ℤ q (pos 0) ≡ true
    → (failure : Error) × (validate_order
          ((new_object (replacement i account existing q p now) w).heap.orders w.next_order)
        ≡ some failure)
unfolding new_object replacement validate_order
replacement-invalid i q p now account existing w bad =
    let here = nat_eqb_refl w.next_order in
    elim (Bool-cases (leb_ℤ i (pos 0))) [
      | inl low ↦ (invalid_order_id, ground arith)
      | inr high ↦ elim (Bool-cases (account == "")) [
        | inl nobody ↦ (invalid_account_id, ground arith)
        | inr somebody ↦ (invalid_quantity, ground arith)
      ]
    ]

module _ (F : Float64) (C : CoreBook) (H : Int64Map) (clock : ℕ → ℤ) where
  submit_order-invalid :
      (p : Ref) (e : MatchingEngine C H) (w : World) (failure : Error)
      → validate_order (w.heap.orders p) ≡ some failure
      → (submit_order F C H clock (some p) (e, w)).0.0.order_books ≡ e.order_books
  unfolding submit_order reject
  submit_order-invalid p e w failure bad = ground arith

module _ (F : Float64) (C : CoreBook) (H : Int64Map) (clock : ℕ → ℤ) (B : IsBook C)
    (M : IsMap H) where
  -- A ModifyOrder without error and with a quantity of 0 or less leaves the book of the symbol,
  -- be it DEFAULT or another, without the order at its old or its new terms: GetOrder of it fails
  -- with ErrOrderNotFound and it has no account. The core book and the hash map keep their laws.
  pub modify_order-loses :
      (symbol : String) (i q p : ℤ) (e : MatchingEngine C H) (w : World) (ob' : OrderBook C H)
      → leb_ℤ q (pos 0) ≡ true
      → (modify_order F C H clock symbol i q p (e, w)).1.1 ≡ none
      → lookup symbol (modify_order F C H clock symbol i q p (e, w)).0.0.order_books ≡ some ob'
      → (get_order C H i ob' ≡ err order_not_found) × (get_account_id C H ob' i ≡ none)
  modify_order-loses symbol i q p e w ob' bad fine left =
      modify_order-left F C H clock B M symbol i q p e w ob'
        (λ e1 account existing.
          let w0 = record w { ticks = suc w.ticks } in
          let w1 = new_object (replacement i account existing q p (clock w.ticks)) w0 in
          let (failure, invalid) =
            replacement-invalid i q p (clock w.ticks) account existing w0 bad in
          ap (lookup symbol) (submit_order-invalid F C H clock w.next_order e1 w1 failure invalid))
        fine left
