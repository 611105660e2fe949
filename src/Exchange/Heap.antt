-- ===== src/Exchange/Heap.antt =====
-- The objects of exchange/ that several parts hold pointers to: orders, trades, and the reporter's
-- tracked orders. A pointer is a number, and an assignment through it changes the heap there.
use fin_kit.Prelude.{ℕ, List, if◌then◌else◌, nat_eqb}
use fin_kit.Prelude.Int.{ℤ}
use fin_kit.Exchange.OrderType.{Order, Trade, OrderStatus}

abbrev pub Ref : Type 0
Ref = ℕ

-- exchange/trade_report.go, trackedOrder.
pub record TrackedOrder : Type 0 where
  pub order : Ref
  pub status : OrderStatus
  pub filled_qty : ℤ
  pub remaining_qty : ℤ
  pub total_value : ℤ
  pub trades : List Ref

-- Tracked orders are made by the reporter: `next_tracked` is the pointer of the next one.
pub record Heap : Type 0 where
  pub orders : Ref → Order
  pub trades : Ref → Trade
  pub tracked : Ref → TrackedOrder
  pub next_tracked : Ref

-- `*p = v`
abbrev pub write {ℓ} : {A : Type ℓ} → Ref → A → (Ref → A) → Ref → A
write p v m q = if nat_eqb p q then v else m q

abbrev pub set_order : Ref → Order → Heap → Heap
set_order p o heap = record heap { orders = write p o heap.orders }

abbrev pub set_trade : Ref → Trade → Heap → Heap
set_trade p t heap = record heap { trades = write p t heap.trades }

abbrev pub set_tracked : Ref → TrackedOrder → Heap → Heap
set_tracked p t heap = record heap { tracked = write p t heap.tracked }
