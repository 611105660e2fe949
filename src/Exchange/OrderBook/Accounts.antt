-- ===== src/Exchange/OrderBook/Accounts.antt =====
-- exchange/orderbook.go: the copy of the account map that GetAccountMap makes.
use fin_kit.Prelude.{◌≡◌, refl, none, some, [], ◌∷◌, String, arith}
use fin_kit.Prelude.Int.{ℤ, int_eq, eqb_ℤ_iff}
use fin_kit.Prelude.Dict.{Dict, lookup, insert, IsDict, lookup-insert}
use fin_kit.Core.{CoreBook, Int64Map, IsMap}
use fin_kit.Exchange.OrderBook.{OrderBook, collect, get_account_id, get_account_map}

lookup-collect :
    (j : ℤ) (d acc : Dict ℤ String)
    → IsDict d
    → lookup j (collect d acc) ≡ elim (lookup j d) [ none ↦ lookup j acc | some v ↦ some v ]
unfolding collect
lookup-collect j [] acc h = refl
lookup-collect j ((k, v) ∷ d) acc h =
    ground (arith, lookup-collect j d (insert k v acc) h.1, lookup-insert k j v acc, eqb_ℤ_iff k j)

module _ (C : CoreBook) (H : Int64Map) (M : IsMap H) where
  -- The map that GetAccountMap returns has for each order ID what GetAccountID returns. The hash
  -- map keeps its laws.
  pub lookup-get_account_map :
      (ob : OrderBook C H) (j : ℤ) → lookup j (get_account_map C H ob) ≡ get_account_id C H ob j
  unfolding get_account_map get_account_id
  lookup-get_account_map ob j = ground (
    arith,
    lookup-collect j (H.entries ob.order_accounts) [] (M.entries-IsDict String ob.order_accounts),
    M.lookup-entries String ob.order_accounts j,
  )
