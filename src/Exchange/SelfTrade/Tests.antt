-- ===== src/Exchange/SelfTrade/Tests.antt =====
-- Runs of the models of exchange/self_trade.go.
use fin_kit.Prelude.{◌≡◌, refl, true, false, none, some, [], ◌∷◌, is_some, if◌then◌else◌, string_eq}
use fin_kit.Prelude.Dict.{lookup}
use fin_kit.Prelude.Int.{pos}
use fin_kit.Core.{buy, sell}
use fin_kit.Exchange.SelfTrade.Invariant.{
  IsValid, new_self_trade_check-IsValid, register_order-IsValid,
}
use fin_kit.Exchange.SelfTrade.Removal.{without, is_empty, unregister_order-account_orders}
use fin_kit.Exchange.SelfTrade.Contents.{find, find-register, find-unregister}
use fin_kit.Exchange.SelfTrade.{
  SelfTradeCheck, new_self_trade_check, register_order, unregister_order, get_account_orders,
}

-- Orders 1 and 2 of account A, 3 of account B.
three_orders : SelfTradeCheck
unfolding new_self_trade_check register_order
three_orders =
    register_order (pos 3) "B" buy
      (register_order (pos 2) "A" sell (register_order (pos 1) "A" buy new_self_trade_check))

three_orders-IsValid : IsValid three_orders
unfolding three_orders
three_orders-IsValid = register_order-IsValid (pos 3) "B" buy _ (
    register_order-IsValid (pos 2) "A" sell _
      (register_order-IsValid (pos 1) "A" buy _ new_self_trade_check-IsValid))

orders_of_a : get_account_orders "A" three_orders ≡ pos 1 ∷ pos 2 ∷ []
unfolding get_account_orders three_orders
orders_of_a = refl

-- The set of account A collapses to one order again.
orders_of_a_after : get_account_orders "A" (unregister_order (pos 1) "A" three_orders) ≡ pos 2 ∷ []
unfolding get_account_orders three_orders unregister_order
orders_of_a_after = refl

register_order-IsValid_example : IsValid (register_order (pos 4) "A" buy three_orders)
register_order-IsValid_example =
    register_order-IsValid (pos 4) "A" buy three_orders three_orders-IsValid

unregister_order-account_orders_example :
    (let s' = unregister_order (pos 1) "A" three_orders in
      (get_account_orders "A" s' ≡ without (pos 1) (get_account_orders "A" three_orders))
      × (is_some (lookup "A" s'.account_orders)
          ≡ (if is_empty (get_account_orders "A" s') then false else true))
      × IsValid s')
unregister_order-account_orders_example =
    unregister_order-account_orders (pos 1) "A" "A" three_orders three_orders-IsValid

find-register_example :
    find "A" (pos 4) (register_order (pos 4) "A" buy three_orders)
    ≡ some (record { order_id = pos 4; side = buy })
find-register_example = find-register (pos 4) (pos 4) "A" "A" buy three_orders

find-unregister_example : find "A" (pos 1) (unregister_order (pos 1) "A" three_orders) ≡ none
find-unregister_example = find-unregister (pos 1) (pos 1) "A" "A" three_orders three_orders-IsValid
