-- ===== src/Core/Orders.antt =====
-- The data of the core order book that the program reads and builds: orders and price levels.
use fin_kit.Prelude.{ℕ, ◌≡◌, ◌↔◌, Bool, true, false, Option, List, arith, Comparable}
use fin_kit.Prelude.Int.{ℤ, eqb_ℤ, eqb_ℤ_iff}

-- `coreob.Side`, with its two constants; `other` is any other value of the type.
pub data Side : Type 0 where
  buy sell : Side
  other : ℤ → Side

-- `side == SideBuy`
abbrev pub is_buy : Side → Bool
is_buy buy = true
is_buy sell = false
is_buy (other n) = false

abbrev pub side_eqb : Side → Side → Bool
side_eqb buy buy = true
side_eqb sell sell = true
side_eqb (other n) (other m) = eqb_ℤ n m
side_eqb _ _ = false

pub side_eqb_iff : (a b : Side) → (side_eqb a b ≡ true) ↔ (a ≡ b)
side_eqb_iff buy buy = ground arith
side_eqb_iff (other n) (other m) = ground (arith, eqb_ℤ_iff n m)
side_eqb_iff a b = ground arith

instance abbrev pub side_eq : Comparable Side
side_eq = record { equal = side_eqb; equal_iff = side_eqb_iff }

-- `coreob.Order`
pub record CoreOrder : Type 0 where
  pub order_id : ℤ
  pub price : ℤ
  pub quantity : ℤ
  pub side : Side
  pub timestamp : ℤ

-- `coreob.PriceLevel` behind its pointer: `address` tells two pointers apart, and `head` holds what
-- `level.Head`, `node.Next`, … lead to, each node's `Order` pointer nil or not.
pub record PriceLevel : Type 0 where
  pub address : ℕ
  pub price : ℤ
  pub total_qty : ℤ
  pub order_count : ℤ
  pub head : List (Option CoreOrder)
