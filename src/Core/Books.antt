-- ===== src/Core/Books.antt =====
-- `coreob.OrderBook`, as the operations that exchange/ and broker/ call.
use fin_kit.Prelude.{ℕ, ◌≡◌, Option, none, some, List, String, if◌then◌else◌, ◌==◌}
use fin_kit.Prelude.Int.{ℤ, int_eq}
use fin_kit.Core.Orders.{CoreOrder, PriceLevel}

-- An operation that can fail returns the book after the call and nil or the error's message.
pub record CoreBook : Type 1 where
  pub Book : Type 0
  -- `NewOrderBook(symbol, symbolID, WithInitialCapacity(n))`, without the option if `none`
  pub new_order_book : String → ℕ → Option ℤ → Book
  pub insert_order : CoreOrder → Book → Book × Option String
  pub delete_order : ℤ → Book → Book × Option String
  pub modify_order : ℤ → ℤ → Book → Book × Option String
  pub get_order_details : Book → ℤ → Option CoreOrder
  pub get_best_bid : Book → Option PriceLevel
  pub get_best_ask : Book → Option PriceLevel
  pub get_top_n_bids : Book → ℤ → List (Option PriceLevel)
  pub get_top_n_asks : Book → ℤ → List (Option PriceLevel)
  pub get_spread : Book → ℤ
  pub get_mid_price : Book → ℤ
  pub get_bid_levels : Book → ℤ
  pub get_ask_levels : Book → ℤ
  pub get_order_count : Book → ℤ
  pub clear : Book → Book
  pub symbol : Book → String
  pub symbol_id : Book → ℕ
  pub close : Book → Book × Option String

abbrev pub with_quantity : ℤ → Option CoreOrder → Option CoreOrder
with_quantity q none = none
with_quantity q (some o) = some (record o { quantity = q })

-- What the calls rely on: the orders of a book by their IDs, and that a call that fails changes none.
module _ (C : CoreBook) where
  open C use {
    Book, new_order_book, insert_order, delete_order, modify_order, get_order_details, clear,
  }

  pub record IsBook : Type 0 where
    pub new_details :
        (symbol : String) (id : ℕ) (capacity : Option ℤ) (j : ℤ)
        → get_order_details (new_order_book symbol id capacity) j ≡ none
    pub insert_details :
        (o : CoreOrder) (b : Book) (j : ℤ)
        → (insert_order o b).1 ≡ none
        → get_order_details (insert_order o b).0 j
          ≡ (if o.order_id == j then some o else get_order_details b j)
    pub insert_failed :
        (o : CoreOrder) (b : Book) (j : ℤ) (message : String)
        → (insert_order o b).1 ≡ some message
        → get_order_details (insert_order o b).0 j ≡ get_order_details b j
    pub delete_details :
        (i : ℤ) (b : Book) (j : ℤ)
        → (delete_order i b).1 ≡ none
        → get_order_details (delete_order i b).0 j
          ≡ (if i == j then none else get_order_details b j)
    pub delete_failed :
        (i : ℤ) (b : Book) (j : ℤ) (message : String)
        → (delete_order i b).1 ≡ some message
        → get_order_details (delete_order i b).0 j ≡ get_order_details b j
    pub modify_details :
        (i q : ℤ) (b : Book) (j : ℤ)
        → (modify_order i q b).1 ≡ none
        → get_order_details (modify_order i q b).0 j
          ≡ (if i == j then with_quantity q (get_order_details b i) else get_order_details b j)
    pub modify_failed :
        (i q : ℤ) (b : Book) (j : ℤ) (message : String)
        → (modify_order i q b).1 ≡ some message
        → get_order_details (modify_order i q b).0 j ≡ get_order_details b j
    pub clear_details : (b : Book) (j : ℤ) → get_order_details (clear b) j ≡ none
