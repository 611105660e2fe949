-- ===== src/Exchange/SelfTrade/Contents.antt =====
-- The self-trade check of exchange/self_trade.go seen as one map, from an account and an order ID to
-- the order's entry: the two forms of an account's set do not show.
use fin_kit.Prelude.{
  ◌≡◌, refl, ◌∙◌, ◌↔◌, ◌≢◌, true, ◌&&◌, Option, none, some, [], ◌∷◌, String, arith, if◌then◌else◌,
  ◌==◌, string_eq, string_eq_iff, Option-cases, inl, inr,
}
use fin_kit.Prelude.Int.{ℤ, int_eq, eqb_ℤ_iff}
use fin_kit.Prelude.Dict.{Dict, lookup, erase, lookup-Values, lookup-insert, lookup-erase}
use fin_kit.Core.{Side}
use fin_kit.Exchange.SelfTrade.Invariant.{SetValid, IsValid, Keyed, erase-Keyed}
use fin_kit.Exchange.SelfTrade.{
  AccountOrderInfo, AccountOrderSet, SelfTradeCheck, add_to_set, register_order, shrink,
  remove_from_set, unregister_order, check,
}

unfoldable pub find_in_set : ℤ → AccountOrderSet → Option AccountOrderInfo
find_in_set i set = elim set.orders [
  | none ↦ if set.single.order_id == i then some set.single else none
  | some orders ↦ lookup i orders
]

unfoldable pub find_in : ℤ → Option AccountOrderSet → Option AccountOrderInfo
unfolding find_in_set
find_in i none = none
find_in i (some set) = find_in_set i set

-- The entry of order `i` of account `a`.
unfoldable pub find : String → ℤ → SelfTradeCheck → Option AccountOrderInfo
unfolding find_in
find a i s = find_in i (lookup a s.account_orders)

find_in_set-add_to :
    (i : ℤ) (info single : AccountOrderInfo) (orders : Option (Dict ℤ AccountOrderInfo))
    → (let set : AccountOrderSet = record { single = single; orders = orders } in
        find_in_set i (add_to_set info set)
        ≡ (if info.order_id == i then some info else find_in_set i set))
unfolding find_in_set add_to_set
find_in_set-add_to i info single none = ground (
  arith,
  eqb_ℤ_iff single.order_id info.order_id,
  eqb_ℤ_iff single.order_id i,
  eqb_ℤ_iff info.order_id i,
)
find_in_set-add_to i info single (some orders) = lookup-insert info.order_id i info orders

find_in-shrink :
    (i : ℤ) (set : AccountOrderSet) (orders : Dict ℤ AccountOrderInfo)
    → Keyed orders
    → find_in i (shrink set orders) ≡ lookup i orders
unfolding find_in shrink
find_in-shrink i set [] k = refl
find_in-shrink i set ((j, info) ∷ []) k = rw k.0
find_in-shrink i set (e ∷ f ∷ rest) k = refl

find_in-remove_from :
    (i order_id : ℤ) (single : AccountOrderInfo) (orders : Option (Dict ℤ AccountOrderInfo))
    → (let set : AccountOrderSet = record { single = single; orders = orders } in
        SetValid set
        → find_in i (remove_from_set order_id set)
          ≡ (if order_id == i then none else find_in_set i set))
unfolding find_in remove_from_set
find_in-remove_from i order_id single none v =
    ground
      (arith, eqb_ℤ_iff single.order_id order_id, eqb_ℤ_iff single.order_id i, eqb_ℤ_iff order_id i)
find_in-remove_from i order_id single (some orders) (d, k, _) =
    find_in-shrink i (record { single = single; orders = some orders }) (erase order_id orders)
      (erase-Keyed order_id orders k)
    ∙ lookup-erase order_id i orders d

-- After RegisterOrder the order has the given entry under its account, and every other account
-- and order has the entry it had: the check behaves as one map from account and order ID,
-- whichever form an account's set has.
pub find-register :
    (order_id i : ℤ) (account_id a : String) (side : Side) (s : SelfTradeCheck)
    → find a i (register_order order_id account_id side s) ≡ (
        if account_id == a && order_id == i
        then some (record { order_id = order_id; side = side })
        else find a i s)
unfolding find register_order
find-register order_id i account_id a side s =
    elim (Option-cases (lookup account_id s.account_orders)) [
      | inl e ↦ ground (
        arith,
        string_eq_iff account_id a,
        lookup-insert account_id a
            (record { single = record { order_id = order_id; side = side }; orders = none })
            s.account_orders,
      )
      | inr (set, e) ↦ ground (
        arith,
        string_eq_iff account_id a,
        lookup-insert account_id a (add_to_set info set) s.account_orders,
        find_in_set-add_to i info set.single set.orders,
      )
    ]
  where
    info : AccountOrderInfo
    info = record { order_id = order_id; side = side }

-- In a valid check, after UnregisterOrder the order has no entry under the account, and every
-- other account and order has the entry it had.
pub find-unregister :
    (order_id i : ℤ) (account_id a : String) (s : SelfTradeCheck)
    → IsValid s
    → find a i (unregister_order order_id account_id s)
      ≡ (if account_id == a && order_id == i then none else find a i s)
unfolding find unregister_order find_in
find-unregister order_id i account_id a s v =
    elim (Option-cases (lookup account_id s.account_orders)) [
      | inl e ↦ ground (arith, string_eq_iff account_id a)
      | inr (set, e) ↦
          let kept =
            find_in-remove_from i order_id set.single set.orders
              (lookup-Values SetValid account_id s.account_orders v.sets e) in
          elim (Option-cases (remove_from_set order_id set)) [
            | inl gone ↦ ground (
              arith,
              string_eq_iff account_id a,
              lookup-erase account_id a s.account_orders v.accounts,
              kept,
            )
            | inr (left, stays) ↦ ground (
              arith,
              string_eq_iff account_id a,
              lookup-insert account_id a left s.account_orders,
              kept,
            )
          ]
    ]

-- Check reports a self-trade exactly where the two accounts are one and it is not the empty text.
pub check_iff : (a b : String) → (check a b ≡ true) ↔ ((a ≡ b) × (a ≢ ""))
unfolding check
check_iff a b = ground (arith, string_eq_iff a b, string_eq_iff a "")
