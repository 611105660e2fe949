-- ===== src/Exchange/SelfTrade/Queries.antt =====
-- What the queries of exchange/self_trade.go return, in terms of the entries of the orders.
use fin_kit.Prelude.{
  ℕ, suc, ◌+◌, ◌≡◌, refl, Bool, false, ◌||◌, Option, none, some, List, [], ◌∷◌, String, map, arith,
  ◌==◌, string_eq, Option-cases, inl, inr, is_some, length,
}
use fin_kit.Prelude.Int.{ℤ, int_eq, eqb_ℤ_iff}
use fin_kit.Prelude.Dict.{
  Dict, lookup, insert, erase, IsDict, lookup-Values, found, length-insert, length-erase,
}
use fin_kit.Core.{Side, side_eq}
use fin_kit.Exchange.SelfTrade.Invariant.{SetValid, IsValid, Keyed}
use fin_kit.Exchange.SelfTrade.Contents.{find, find_in, find_in_set}
use fin_kit.Exchange.SelfTrade.{
  AccountOrderInfo, AccountOrderSet, SelfTradeCheck, add_to_set, register_order, shrink,
  remove_from_set, unregister_order, get_account_orders, get_account_orders_by_side, on_side,
  set_size, count_orders, get_stats,
}

abbrev pub contains : ℤ → List ℤ → Bool
contains i [] = false
contains i (j ∷ js) = j == i || contains i js

contains-keys :
    (i : ℤ) (d : Dict ℤ AccountOrderInfo) → contains i (map (λ e. e.0) d) ≡ is_some (lookup i d)
contains-keys i [] = refl
contains-keys i ((j, info) ∷ d) = ground (arith, contains-keys i d)

-- GetAccountOrders lists exactly the orders of the account that have an entry.
pub contains-get_account_orders :
    (a : String) (i : ℤ) (s : SelfTradeCheck)
    → contains i (get_account_orders a s) ≡ is_some (find a i s)
unfolding get_account_orders find find_in find_in_set
contains-get_account_orders a i s = elim (Option-cases (lookup a s.account_orders)) [
  | inl e ↦ ground arith
  | inr (set, e) ↦ elim (Option-cases set.orders) [
    | inl single ↦ ground arith
    | inr (orders, several) ↦ ground (arith, contains-keys i orders)
  ]
]

-- Is there an entry, and is it on the side?
abbrev pub is_on : Side → Option AccountOrderInfo → Bool
is_on side none = false
is_on side (some info) = info.side == side

contains-on_side :
    (i : ℤ) (side : Side) (d : Dict ℤ AccountOrderInfo)
    → Keyed d
    → IsDict d
    → contains i (on_side side d) ≡ is_on side (lookup i d)
unfolding on_side
contains-on_side i side [] k h = refl
contains-on_side i side ((j, info) ∷ d) k h =
    ground (arith, eqb_ℤ_iff j i, contains-on_side i side d k.1 h.1)

-- In a valid check GetAccountOrdersBySide lists exactly the orders of the account whose entry is
-- on the side.
pub contains-get_account_orders_by_side :
    (a : String) (i : ℤ) (side : Side) (s : SelfTradeCheck)
    → IsValid s
    → contains i (get_account_orders_by_side a side s) ≡ is_on side (find a i s)
unfolding get_account_orders_by_side find find_in find_in_set
contains-get_account_orders_by_side a i side s v = elim (Option-cases (lookup a s.account_orders)) [
  | inl e ↦ ground arith
  | inr (set, e) ↦
      let valid = lookup-Values SetValid a s.account_orders v.sets e in
      elim (Option-cases set.orders) [
        | inl single ↦ ground arith
        | inr (orders, several) ↦ ground (arith, valid, contains-on_side i side orders)
      ]
]

size_of : Option AccountOrderSet → ℕ
size_of none = 0
size_of (some set) = set_size set

count-insert :
    (k : String) (set : AccountOrderSet) (d : Dict String AccountOrderSet)
    → count_orders (insert k set d) + size_of (lookup k d) ≡ count_orders d + set_size set
unfolding count_orders size_of
count-insert k set [] = omega arith
count-insert k set ((j, w) ∷ d) = ground (arith, count-insert k set d)

count-erase :
    (k : String) (d : Dict String AccountOrderSet)
    → count_orders (erase k d) + size_of (lookup k d) ≡ count_orders d
unfolding count_orders size_of
count-erase k [] = omega arith
count-erase k ((j, w) ∷ d) = ground (arith, count-erase k d)

size-add_to :
    (info single : AccountOrderInfo) (orders : Option (Dict ℤ AccountOrderInfo))
    → (let set : AccountOrderSet = record { single = single; orders = orders } in
        set_size (add_to_set info set) + found (find_in_set info.order_id set) ≡ suc (set_size set))
unfolding set_size add_to_set find_in_set
size-add_to info single none = ground arith
size-add_to info single (some orders) = length-insert info.order_id info orders

size-shrink :
    (set : AccountOrderSet) (orders : Dict ℤ AccountOrderInfo)
    → size_of (shrink set orders) ≡ length orders
unfolding shrink size_of set_size
size-shrink set [] = refl
size-shrink set (e ∷ []) = refl
size-shrink set (e ∷ f ∷ rest) = refl

size-remove_from :
    (order_id : ℤ) (single : AccountOrderInfo) (orders : Option (Dict ℤ AccountOrderInfo))
    → (let set : AccountOrderSet = record { single = single; orders = orders } in
        size_of (remove_from_set order_id set) + found (find_in_set order_id set) ≡ set_size set)
unfolding set_size remove_from_set find_in_set size_of
size-remove_from order_id single none = ground arith
size-remove_from order_id single (some orders) =
    rw (size-shrink (record { single = single; orders = some orders }) (erase order_id orders))
      (length-erase order_id orders)

-- RegisterOrder raises the count of orders of GetStats by one, and not at all if the order
-- already had an entry under the account.
pub get_stats-register :
    (order_id : ℤ) (account_id : String) (side : Side) (s : SelfTradeCheck)
    → (get_stats (register_order order_id account_id side s)).total_orders
        + found (find account_id order_id s)
      ≡ suc (get_stats s).total_orders
unfolding get_stats register_order find find_in size_of set_size
get_stats-register order_id account_id side s =
    elim (Option-cases (lookup account_id s.account_orders)) [
      | inl e ↦ ground (
        arith,
        count-insert account_id (record { single = info; orders = none }) s.account_orders,
      )
      | inr (set, e) ↦ ground (
        arith,
        count-insert account_id (add_to_set info set) s.account_orders,
        size-add_to info set.single set.orders,
      )
    ]
  where
    info : AccountOrderInfo
    info = record { order_id = order_id; side = side }

-- UnregisterOrder lowers the count of orders of GetStats by one if the order had an entry under
-- the account, and otherwise leaves it.
pub get_stats-unregister :
    (order_id : ℤ) (account_id : String) (s : SelfTradeCheck)
    → (get_stats (unregister_order order_id account_id s)).total_orders
        + found (find account_id order_id s)
      ≡ (get_stats s).total_orders
unfolding get_stats unregister_order find find_in size_of
get_stats-unregister order_id account_id s =
    elim (Option-cases (lookup account_id s.account_orders)) [
      | inl e ↦ ground arith
      | inr (set, e) ↦
          let removed = size-remove_from order_id set.single set.orders in
          elim (Option-cases (remove_from_set order_id set)) [
            | inl gone ↦ ground (arith, removed, count-erase account_id s.account_orders)
            | inr (left, stays) ↦
                ground (arith, removed, count-insert account_id left s.account_orders)
          ]
    ]
