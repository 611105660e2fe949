-- ===== src/Exchange/OrderBook/Tracking.antt =====
-- exchange/orderbook.go: the self-trade check of a book that tracks self-trades knows each order of
-- the book under its account, and no other order.
use fin_kit.Prelude.{
  ◌≡◌, Bool, true, false, Option, none, some, String, arith, ◌==◌, string_eq, string_eq_iff,
  is_some, Option-cases, inl, inr,
}
use fin_kit.Prelude.Int.{ℤ, int_eq, eqb_ℤ_iff}
use fin_kit.Core.{CoreBook, Int64Map, IsMap}
use fin_kit.Exchange.OrderType.{Order}
use fin_kit.Exchange.SelfTrade.{SelfTradeCheck}
use fin_kit.Exchange.SelfTrade.Invariant.{IsValid}
use fin_kit.Exchange.SelfTrade.Contents.{find, find-register, find-unregister}
use fin_kit.Exchange.OrderBook.{OrderBook, add_order, remove_order, clear}

-- Is it this account?
abbrev pub is_account : String → Option String → Bool
is_account a none = false
is_account a (some b) = b == a

module _ (C : CoreBook) (H : Int64Map) where
  -- The check and the account map tell the same of every account and order.
  abbrev pub Tracks : OrderBook C H → SelfTradeCheck → Type 0
  Tracks ob check =
      (a : String) (i : ℤ) → is_some (find a i check) ≡ is_account a (H.get ob.order_accounts i)

module _ (C : CoreBook) (H : Int64Map) (M : IsMap H) where
  -- In a book that tracks self-trades, AddOrder of an order that the book has no account for
  -- keeps the self-trade check and the account map in step, whether it succeeds or fails: an
  -- account has an entry for an order in the check exactly if the map gives that account for the
  -- order. The hash map keeps its laws.
  pub add_order-Tracks :
      (order : Order) (ob : OrderBook C H) (check : SelfTradeCheck)
      → ob.track_self_trade ≡ true
      → H.get ob.order_accounts order.order_id ≡ none
      → Tracks C H ob check
      → (let (ob', check', _) = add_order C H (some order) ob check in Tracks C H ob' check')
  unfolding add_order
  add_order-Tracks order ob check tracks new h a i = ground (
    arith,
    h a i,
    find-register order.order_id i order.account_id a order.side check,
    M.get-set String order.order_id i order.account_id ob.order_accounts,
    string_eq_iff order.account_id a,
    eqb_ℤ_iff order.order_id i,
  )

  removed-Tracks :
      (k : ℤ) (account : String) (ob : OrderBook C H) (check : SelfTradeCheck)
      → H.get ob.order_accounts k ≡ some account
      → ob.track_self_trade ≡ true
      → IsValid check
      → Tracks C H ob check
      → (let (ob', check', _) = remove_order C H k ob check in Tracks C H ob' check')
  unfolding remove_order
  removed-Tracks k account ob check e tracks v h a i = ground (
    arith,
    h a i,
    find-unregister k i account a check v,
    M.get-delete String k i ob.order_accounts,
    string_eq_iff account a,
    eqb_ℤ_iff k i,
  )

  -- In a book that tracks self-trades, and whose check is valid, RemoveOrder keeps the self-trade
  -- check and the account map in step, whether it succeeds or fails. The hash map keeps its laws.
  pub remove_order-Tracks :
      (k : ℤ) (ob : OrderBook C H) (check : SelfTradeCheck)
      → ob.track_self_trade ≡ true
      → IsValid check
      → Tracks C H ob check
      → (let (ob', check', _) = remove_order C H k ob check in Tracks C H ob' check')
  unfolding remove_order
  remove_order-Tracks k ob check tracks v h = elim (Option-cases (H.get ob.order_accounts k)) [
    | inl e ↦ λ a i. ground (arith, h a i)
    | inr (account, e) ↦ removed-Tracks k account ob check e tracks v h
  ]

  -- Clear of a book that has an account for an order, and whose self-trade check is in step with
  -- its account map, puts the two out of step: the check still holds the orders of the cleared
  -- book. The hash map keeps its laws.
  pub clear-not-Tracks :
      (a : String) (i : ℤ) (ob : OrderBook C H) (check : SelfTradeCheck)
      → H.get ob.order_accounts i ≡ some a
      → Tracks C H ob check
      → ¬ Tracks C H (clear C H ob) check
  unfolding clear
  clear-not-Tracks a i ob check e h after =
      ground (arith, h a i, after a i, M.get-clear String ob.order_accounts i, string_eq_iff a a)
