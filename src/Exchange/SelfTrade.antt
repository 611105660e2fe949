-- ===== src/Exchange/SelfTrade.antt =====
-- exchange/self_trade.go: which orders each account has on the book, and the test for self-trades.
-- The receiver's mutex is held for the whole of each method, so a method is one step.
pub mod Invariant
pub mod Contents
pub mod Queries
pub mod Removal
mod Tests
use fin_kit.Prelude.{
  ℕ, ◌+◌, Bool, ◌&&◌, not, Option, none, some, List, [], ◌∷◌, map, String, if◌then◌else◌, ◌==◌,
  string_eq, length,
}
use fin_kit.Prelude.Int.{ℤ, int_eq}
use fin_kit.Prelude.Dict.{Dict, lookup, insert, erase}
use fin_kit.Core.{Side, side_eq}

pub record AccountOrderInfo : Type 0 where
  pub order_id : ℤ
  pub side : Side

-- `orders` is a Go map, nil while the account has one order, which `single` then holds.
pub record AccountOrderSet : Type 0 where
  pub single : AccountOrderInfo
  pub orders : Option (Dict ℤ AccountOrderInfo)

pub record SelfTradeCheck : Type 0 where
  pub account_orders : Dict String AccountOrderSet

-- The capacity that NewSelfTradeCheckWithCapacity takes is a hint to Go's `make`.
unfoldable pub new_self_trade_check : SelfTradeCheck
new_self_trade_check = record { account_orders = [] }

-- What RegisterOrder stores for an account that has a set already.
add_to_set : AccountOrderInfo → AccountOrderSet → AccountOrderSet
add_to_set info set = elim set.orders [
  | none ↦
      if set.single.order_id == info.order_id then record set { single = info } else record set {
        orders = some (insert info.order_id info ((set.single.order_id, set.single) ∷ []));
      }
  | some orders ↦ record set { orders = some (insert info.order_id info orders) }
]

unfoldable pub register_order : ℤ → String → Side → SelfTradeCheck → SelfTradeCheck
unfolding add_to_set
register_order order_id account_id side s =
    let info : AccountOrderInfo = record { order_id = order_id; side = side } in
    elim (lookup account_id s.account_orders) [
      | none ↦ record {
        account_orders =
            insert account_id (record { single = info; orders = none }) s.account_orders;
      }
      | some set ↦ record {
        account_orders = insert account_id (add_to_set info set) s.account_orders;
      }
    ]

-- What UnregisterOrder stores in place of a set whose map has become `orders`, `none` to delete the
-- account: a map with one entry collapses into `single`.
shrink : AccountOrderSet → Dict ℤ AccountOrderInfo → Option AccountOrderSet
shrink set [] = none
shrink set ((k, info) ∷ []) = some (record { single = info; orders = none })
shrink set (e ∷ f ∷ rest) = some (record set { orders = some (e ∷ f ∷ rest) })

remove_from_set : ℤ → AccountOrderSet → Option AccountOrderSet
unfolding shrink
remove_from_set order_id set = elim set.orders [
  | none ↦ if set.single.order_id == order_id then none else some set
  | some orders ↦ shrink set (erase order_id orders)
]

unfoldable pub unregister_order : ℤ → String → SelfTradeCheck → SelfTradeCheck
unfolding remove_from_set
unregister_order order_id account_id s = elim (lookup account_id s.account_orders) [
  | none ↦ s
  | some set ↦ elim (remove_from_set order_id set) [
    | none ↦ record { account_orders = erase account_id s.account_orders }
    | some left ↦ record { account_orders = insert account_id left s.account_orders }
  ]
]

-- The receiver is not read.
unfoldable pub check : String → String → Bool
check buy_account_id sell_account_id =
    buy_account_id == sell_account_id && not (buy_account_id == "")

-- nil and the empty slice are both the empty list.
unfoldable pub get_account_orders : String → SelfTradeCheck → List ℤ
get_account_orders account_id s = elim (lookup account_id s.account_orders) [
  | none ↦ []
  | some set ↦ elim set.orders [
    | none ↦ set.single.order_id ∷ []
    | some orders ↦ map (λ e. e.0) orders
  ]
]

on_side : Side → Dict ℤ AccountOrderInfo → List ℤ
on_side side [] = []
on_side side ((k, info) ∷ rest) =
    if info.side == side then info.order_id ∷ on_side side rest else on_side side rest

unfoldable pub get_account_orders_by_side : String → Side → SelfTradeCheck → List ℤ
unfolding on_side
get_account_orders_by_side account_id side s = elim (lookup account_id s.account_orders) [
  | none ↦ []
  | some set ↦ elim set.orders [
    | none ↦ if set.single.side == side then set.single.order_id ∷ [] else []
    | some orders ↦ on_side side orders
  ]
]

unfoldable pub clear : SelfTradeCheck → SelfTradeCheck
clear s = record { account_orders = [] }

pub record SelfTradeStats : Type 0 where
  pub total_accounts : ℕ
  pub total_orders : ℕ

set_size : AccountOrderSet → ℕ
set_size set = elim set.orders [ none ↦ 1 | some orders ↦ length orders ]

count_orders : Dict String AccountOrderSet → ℕ
unfolding set_size
count_orders [] = 0
count_orders ((k, set) ∷ rest) = set_size set + count_orders rest

unfoldable pub get_stats : SelfTradeCheck → SelfTradeStats
unfolding count_orders
get_stats s = record {
  total_accounts = length s.account_orders;
  total_orders = count_orders s.account_orders;
}
