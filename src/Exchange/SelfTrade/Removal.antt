-- ===== src/Exchange/SelfTrade/Removal.antt =====
-- exchange/self_trade.go, UnregisterOrder, in terms of GetAccountOrders.
use fin_kit.Prelude.{
  ◌≡◌, refl, ◌∙◌, Bool, true, false, Option, none, some, List, [], ◌∷◌, String, map, arith,
  if◌then◌else◌, ◌==◌, string_eq, string_eq_iff, Option-cases, inl, inr, is_some,
}
use fin_kit.Prelude.Int.{ℤ, int_eq, eqb_ℤ_iff}
use fin_kit.Prelude.Dict.{
  Dict, lookup, insert, erase, IsDict, lookup-Values, lookup-insert, lookup-erase,
}
use fin_kit.Exchange.SelfTrade.Invariant.{
  SetValid, IsValid, Keyed, erase-Keyed, unregister_order-IsValid,
}
use fin_kit.Exchange.SelfTrade.{
  AccountOrderInfo, AccountOrderSet, SelfTradeCheck, shrink, remove_from_set, unregister_order,
  get_account_orders,
}

-- A list with no more of this ID.
abbrev pub without : ℤ → List ℤ → List ℤ
without i [] = []
without i (j ∷ js) = if j == i then without i js else j ∷ without i js

abbrev pub is_empty : List ℤ → Bool
is_empty [] = true
is_empty (i ∷ is) = false

abbrev keys : Dict ℤ AccountOrderInfo → List ℤ
keys d = map (λ e. e.0) d

without-absent :
    (i : ℤ) (d : Dict ℤ AccountOrderInfo) → lookup i d ≡ none → without i (keys d) ≡ keys d
without-absent i [] absent = refl
without-absent i ((j, info) ∷ d) absent = ground (arith, without-absent i d)

keys-erase :
    (i : ℤ) (d : Dict ℤ AccountOrderInfo) → IsDict d → keys (erase i d) ≡ without i (keys d)
keys-erase i [] h = refl
keys-erase i ((j, info) ∷ d) h =
    ground (arith, eqb_ℤ_iff j i, keys-erase i d h.1, without-absent i d, h)

-- What GetAccountOrders lists of a set.
orders_of : Option AccountOrderSet → List ℤ
orders_of none = []
orders_of (some set) = elim set.orders [
  | none ↦ set.single.order_id ∷ []
  | some orders ↦ keys orders
]

get_account_orders-orders_of :
    (a : String) (s : SelfTradeCheck)
    → get_account_orders a s ≡ orders_of (lookup a s.account_orders)
unfolding get_account_orders orders_of
get_account_orders-orders_of a s = elim (Option-cases (lookup a s.account_orders)) [
  | inl e ↦ rw (e, get_account_orders) refl
  | inr (set, e) ↦ rw (e, get_account_orders) refl
]

orders_of-shrink :
    (set : AccountOrderSet) (orders : Dict ℤ AccountOrderInfo)
    → Keyed orders
    → orders_of (shrink set orders) ≡ keys orders
unfolding orders_of shrink
orders_of-shrink set [] k = refl
orders_of-shrink set ((j, info) ∷ []) k = rw k.0 refl
orders_of-shrink set (e ∷ f ∷ rest) k = refl

orders_of-remove_from :
    (i : ℤ) (single : AccountOrderInfo) (orders : Option (Dict ℤ AccountOrderInfo))
    → (let set : AccountOrderSet = record { single = single; orders = orders } in
        SetValid set → orders_of (remove_from_set i set) ≡ without i (orders_of (some set)))
unfolding orders_of remove_from_set
orders_of-remove_from i single none v = ground arith
orders_of-remove_from i single (some orders) (d, k, n) =
    orders_of-shrink (record { single = single; orders = some orders }) (erase i orders)
      (erase-Keyed i orders k)
    ∙ keys-erase i orders d

-- An account that is kept has an order.
orders_of-kept :
    (single : AccountOrderInfo) (orders : Option (Dict ℤ AccountOrderInfo))
    → (let set : AccountOrderSet = record { single = single; orders = orders } in
        SetValid set → is_empty (orders_of (some set)) ≡ false)
unfolding orders_of
orders_of-kept single none v = refl
orders_of-kept single (some []) (d, k, n) = absurd (omega (arith, n))
orders_of-kept single (some (e ∷ rest)) v = refl

IsValid-kept :
    (a : String) (s : SelfTradeCheck)
    → IsValid s
    → is_some (lookup a s.account_orders)
      ≡ (if is_empty (get_account_orders a s) then false else true)
unfolding orders_of
IsValid-kept a s v = elim (Option-cases (lookup a s.account_orders)) [
  | inl e ↦ rw (get_account_orders-orders_of a s) (rw e refl)
  | inr (set, e) ↦
      let kept =
        orders_of-kept set.single set.orders (lookup-Values SetValid a s.account_orders v.sets e) in
      rw (get_account_orders-orders_of a s) (rw e (rw kept refl))
]

unregister_order-listed :
    (order_id : ℤ) (account_id a : String) (s : SelfTradeCheck)
    → IsValid s
    → get_account_orders a (unregister_order order_id account_id s) ≡ (
        if account_id == a
        then without order_id (get_account_orders a s)
        else get_account_orders a s)
unfolding unregister_order orders_of
unregister_order-listed order_id account_id a s v =
    let listed = get_account_orders-orders_of a in
    elim (Option-cases (lookup account_id s.account_orders)) [
      | inl e ↦ ground (arith, string_eq_iff account_id a, listed s)
      | inr (set, e) ↦
          let left =
            orders_of-remove_from order_id set.single set.orders
              (lookup-Values SetValid account_id s.account_orders v.sets e) in
          elim (Option-cases (remove_from_set order_id set)) [
            | inl gone ↦ ground (
              arith,
              string_eq_iff account_id a,
              left,
              listed s,
              listed (record { account_orders = erase account_id s.account_orders }),
              lookup-erase account_id a s.account_orders v.accounts,
            )
            | inr (kept, stays) ↦ ground (
              arith,
              string_eq_iff account_id a,
              left,
              listed s,
              listed (record { account_orders = insert account_id kept s.account_orders }),
              lookup-insert account_id a kept s.account_orders,
            )
          ]
    ]

-- In a valid check, UnregisterOrder takes the order out of what GetAccountOrders lists for its
-- account and changes that list in no other way, nor that of any other account. The check stays
-- valid, and an account is in it exactly if GetAccountOrders lists an order for it, so that the
-- account of the last order is deleted.
pub unregister_order-account_orders :
    (order_id : ℤ) (account_id a : String) (s : SelfTradeCheck)
    → IsValid s
    → (let s' = unregister_order order_id account_id s in
        (get_account_orders a s' ≡ (
          if account_id == a
          then without order_id (get_account_orders a s)
          else get_account_orders a s))
        × (is_some (lookup a s'.account_orders)
            ≡ (if is_empty (get_account_orders a s') then false else true))
        × IsValid s')
unregister_order-account_orders order_id account_id a s v =
    let v' = unregister_order-IsValid order_id account_id s v in
    (
      unregister_order-listed order_id account_id a s v,
      IsValid-kept a (unregister_order order_id account_id s) v',
      v',
    )
