-- ===== src/Exchange/SelfTrade/Invariant.antt =====
-- The invariant of the self-trade check of exchange/self_trade.go.
use fin_kit.Prelude.{
  ◌≤◌, ◌≡◌, refl, Option, none, some, [], ◌∷◌, String, arith, string_eq, Bool-cases, Option-cases,
  inl, inr, length,
}
use fin_kit.Prelude.Int.{ℤ, int_eq, eqb_ℤ}
use fin_kit.Prelude.Dict.{
  Dict, lookup, insert, erase, IsDict, Values, lookup-Values, insert-Values, erase-Values,
  length-insert, insert-IsDict, erase-IsDict,
}
use fin_kit.Core.{Side}
use fin_kit.Exchange.SelfTrade.{
  AccountOrderInfo, AccountOrderSet, SelfTradeCheck, new_self_trade_check, add_to_set,
  register_order, shrink, remove_from_set, unregister_order, clear,
}

-- Each entry stands under its own order's ID.
abbrev pub Keyed : Dict ℤ AccountOrderInfo → Type 0
Keyed [] = Unit
Keyed ((k, info) ∷ d) = (info.order_id ≡ k) × Keyed d

insert-Keyed :
    (info : AccountOrderInfo) (d : Dict ℤ AccountOrderInfo)
    → Keyed d
    → Keyed (insert info.order_id info d)
insert-Keyed info [] h = (refl, tt)
insert-Keyed info ((k, i) ∷ d) h = ground (arith, insert-Keyed info d h.1)

pub erase-Keyed : (k : ℤ) (d : Dict ℤ AccountOrderInfo) → Keyed d → Keyed (erase k d)
erase-Keyed k [] h = tt
erase-Keyed k ((j, i) ∷ d) h = ground (arith, erase-Keyed k d h.1)

-- A map of orders is kept only for two orders or more, and by their IDs.
abbrev pub SetValid : AccountOrderSet → Type 0
SetValid set = elim set.orders [
  | none ↦ Unit
  | some orders ↦ IsDict orders × Keyed orders × (2 ≤ length orders)
]

pub record IsValid (s : SelfTradeCheck) : Type 0 where
  pub accounts : IsDict s.account_orders
  pub sets : Values SetValid s.account_orders

add_to-SetValid :
    (info single : AccountOrderInfo) (orders : Option (Dict ℤ AccountOrderInfo))
    → SetValid (record { single = single; orders = orders })
    → SetValid (add_to_set info (record { single = single; orders = orders }))
unfolding add_to_set
add_to-SetValid info single none h = elim (Bool-cases (eqb_ℤ single.order_id info.order_id)) [
  | inl same ↦ rw same tt
  | inr other ↦ rw other (ground arith)
]
add_to-SetValid info single (some orders) (d, k, n) = (
  insert-IsDict info.order_id info orders d,
  insert-Keyed info orders k,
  ground (arith, length-insert info.order_id info orders),
)

-- A set that is kept is valid.
abbrev KeptValid : Option AccountOrderSet → Type 0
KeptValid none = Unit
KeptValid (some set) = SetValid set

shrink-KeptValid :
    (set : AccountOrderSet) (orders : Dict ℤ AccountOrderInfo)
    → IsDict orders
    → Keyed orders
    → KeptValid (shrink set orders)
unfolding shrink
shrink-KeptValid set [] d k = tt
shrink-KeptValid set (e ∷ []) d k = tt
shrink-KeptValid set (e ∷ f ∷ rest) d k = (d, k, omega arith)

remove_from-KeptValid :
    (order_id : ℤ) (single : AccountOrderInfo) (orders : Option (Dict ℤ AccountOrderInfo))
    → SetValid (record { single = single; orders = orders })
    → KeptValid (remove_from_set order_id (record { single = single; orders = orders }))
unfolding remove_from_set
remove_from-KeptValid order_id single none h = elim (Bool-cases (eqb_ℤ single.order_id order_id)) [
  | inl same ↦ rw same tt
  | inr other ↦ rw other tt
]
remove_from-KeptValid order_id single (some orders) (d, k, n) =
    shrink-KeptValid (record { single = single; orders = some orders }) (erase order_id orders)
      (erase-IsDict order_id orders d) (erase-Keyed order_id orders k)

pub new_self_trade_check-IsValid : IsValid new_self_trade_check
unfolding new_self_trade_check
new_self_trade_check-IsValid = record { accounts = tt; sets = tt }

pub clear-IsValid : (s : SelfTradeCheck) → IsValid (clear s)
unfolding clear
clear-IsValid s = record { accounts = tt; sets = tt }

-- RegisterOrder keeps the check valid: no account and no order stands twice, each entry stands
-- under its own order's ID, and a map is kept only for two orders or more.
pub register_order-IsValid :
    (order_id : ℤ) (account_id : String) (side : Side) (s : SelfTradeCheck)
    → IsValid s
    → IsValid (register_order order_id account_id side s)
unfolding register_order
register_order-IsValid order_id account_id side s v =
    elim (Option-cases (lookup account_id s.account_orders)) [
      | inl e ↦
          rw (e, register_order)
            (record {
              accounts = insert-IsDict account_id _ s.account_orders v.accounts;
              sets = insert-Values SetValid account_id _ s.account_orders tt v.sets;
            })
      | inr (set, e) ↦
          rw (e, register_order)
            (record {
              accounts = insert-IsDict account_id _ s.account_orders v.accounts;
              sets =
                  insert-Values SetValid account_id _ s.account_orders
                    (add_to-SetValid _ set.single set.orders
                      (lookup-Values SetValid account_id s.account_orders v.sets e))
                    v.sets;
            })
    ]

pub unregister_order-IsValid :
    (order_id : ℤ) (account_id : String) (s : SelfTradeCheck)
    → IsValid s
    → IsValid (unregister_order order_id account_id s)
unfolding unregister_order
unregister_order-IsValid order_id account_id s v =
    elim (Option-cases (lookup account_id s.account_orders)) [
      | inl e ↦ rw (e, unregister_order) v
      | inr (set, e) ↦
          let kept =
            remove_from-KeptValid order_id set.single set.orders
              (lookup-Values SetValid account_id s.account_orders v.sets e) in
          elim (Option-cases (remove_from_set order_id set)) [
            | inl gone ↦
                rw (e, unregister_order, gone)
                  (record {
                    accounts = erase-IsDict account_id s.account_orders v.accounts;
                    sets = erase-Values SetValid account_id s.account_orders v.sets;
                  })
            | inr (left, stays) ↦
                rw (e, unregister_order, stays)
                  (record {
                    accounts = insert-IsDict account_id left s.account_orders v.accounts;
                    sets =
                        insert-Values SetValid account_id left s.account_orders (rw stays at kept)
                          v.sets;
                  })
          ]
    ]
