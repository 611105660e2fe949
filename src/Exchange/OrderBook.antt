-- ===== src/Exchange/OrderBook.antt =====
-- exchange/orderbook.go: the core order book with the account of each order, and the self-trade check
-- kept in step with it. The check is another object, which the book points to: a method that changes
-- it takes and returns it. A method holds its mutex from start to end, so it is one step.
pub mod Accounts
pub mod Agreement
pub mod Tracking
mod Tests
use fin_kit.Prelude.{
  ℕ, Bool, true, false, Option, none, some, List, [], ◌∷◌, String, if◌then◌else◌, ◌==◌,
}
use fin_kit.Prelude.Int.{ℤ, pos, int_eq, leb_ℤ, ltb_ℤ, quot_ℤ}
use fin_kit.Prelude.Int64.{add64, mul64}
use fin_kit.Prelude.Dict.{Dict, insert}
use fin_kit.Core.{CoreOrder, PriceLevel, CoreBook, Int64Map, Side}
use fin_kit.Exchange.OrderType.{Order, Error, nil_order, order_not_found, core, Result, ok, err}
use fin_kit.Exchange.SelfTrade.{SelfTradeCheck, register_order, unregister_order}

pub record OrderBookConfig : Type 0 where
  pub order_capacity : ℤ
  pub track_self_trade : Bool

abbrev pub OrderBookOption : Type 0
OrderBookOption = OrderBookConfig → OrderBookConfig

unfoldable pub int64_map_capacity : ℤ → ℤ
int64_map_capacity expected =
    if leb_ℤ expected (pos 0) then pos 0 else add64 (quot_ℤ (mul64 expected (pos 10)) 7) (pos 1)

unfoldable pub with_order_capacity : ℤ → OrderBookOption
with_order_capacity capacity cfg =
    if ltb_ℤ (pos 0) capacity then record cfg { order_capacity = capacity } else cfg

unfoldable pub without_self_trade_tracking : OrderBookOption
without_self_trade_tracking cfg = record cfg { track_self_trade = false }

unfoldable pub apply_options : List OrderBookOption → OrderBookConfig → OrderBookConfig
apply_options [] cfg = cfg
apply_options (opt ∷ opts) cfg = apply_options opts (opt cfg)

pub record AggregatedLevel : Type 0 where
  pub price : ℤ
  pub total_qty : ℤ
  pub order_count : ℤ

-- A nil level in the list makes the loop panic: `none`.
aggregate : List (Option PriceLevel) → Option (List AggregatedLevel)
aggregate [] = some []
aggregate (none ∷ levels) = none
aggregate (some level ∷ levels) = elim (aggregate levels) [
  | none ↦ none
  | some rest ↦ some (
      record { price = level.price; total_qty = level.total_qty; order_count = level.order_count }
      ∷ rest)
]

pub record OrderBookStats : Type 0 where
  pub symbol : String
  pub symbol_id : ℕ
  pub bid_levels : ℤ
  pub ask_levels : ℤ
  pub total_orders : ℤ
  pub best_bid : ℤ
  pub best_ask : ℤ
  pub spread : ℤ

-- The price of a level, 0 if there is none.
level_price : Option PriceLevel → ℤ
level_price none = pos 0
level_price (some level) = level.price

-- Go's map from the pairs that ForEach visits.
unfoldable pub collect : Dict ℤ String → Dict ℤ String → Dict ℤ String
collect [] acc = acc
collect ((k, v) ∷ rest) acc = collect rest (insert k v acc)

-- The order that the core book is given.
unfoldable pub to_core_order : Order → CoreOrder
to_core_order order = record {
  order_id = order.order_id;
  price = order.price;
  quantity = order.quantity;
  side = order.side;
  timestamp = order.timestamp;
}

module _ (C : CoreBook) (H : Int64Map) where
  pub record OrderBook : Type 0 where
    pub core_book : C.Book
    pub symbol : String
    pub symbol_id : ℕ
    pub order_accounts : H.Map String
    pub track_self_trade : Bool

  unfoldable pub new_order_book : String → ℕ → List OrderBookOption → OrderBook
  unfolding apply_options
  new_order_book symbol symbol_id opts =
      let cfg = apply_options opts (record { order_capacity = pos 0; track_self_trade = true }) in
      let capacity =
        if ltb_ℤ (pos 0) cfg.order_capacity
        then some (int64_map_capacity cfg.order_capacity)
        else none in
      record {
        core_book = C.new_order_book symbol symbol_id capacity;
        symbol = symbol;
        symbol_id = symbol_id;
        order_accounts = H.new_map String capacity;
        track_self_trade = cfg.track_self_trade;
      }

  -- A method's result: the book, the self-trade check, and nil or an error.
  abbrev pub Changed : Type 0
  Changed = OrderBook × SelfTradeCheck × Option Error

  unfoldable pub add_order : Option Order → OrderBook → SelfTradeCheck → Changed
  add_order none ob check = (ob, check, some nil_order)
  add_order (some order) ob check =
      let (book, failure) = C.insert_order (to_core_order order) ob.core_book in
      elim failure [
        | some message ↦ (record ob { core_book = book }, check, some (core message))
        | none ↦ (
          record ob {
            core_book = book;
            order_accounts = H.set order.order_id order.account_id ob.order_accounts;
          },
          if ob.track_self_trade
              then register_order order.order_id order.account_id order.side check
              else check,
          none,
        )
      ]

  unfoldable pub remove_order : ℤ → OrderBook → SelfTradeCheck → Changed
  remove_order order_id ob check = elim (H.get ob.order_accounts order_id) [
    | none ↦ (ob, check, some order_not_found)
    | some account_id ↦
        let (book, failure) = C.delete_order order_id ob.core_book in
        elim failure [
          | some message ↦ (record ob { core_book = book }, check, some (core message))
          | none ↦ (
            record ob { core_book = book; order_accounts = H.delete order_id ob.order_accounts },
            if ob.track_self_trade then unregister_order order_id account_id check else check,
            none,
          )
        ]
  ]

  unfoldable pub update_order : ℤ → ℤ → OrderBook → OrderBook × Option Error
  update_order order_id new_quantity ob =
      if H.contains ob.order_accounts order_id
      then (let (book, failure) = C.modify_order order_id new_quantity ob.core_book in
          (record ob { core_book = book }, elim failure [ none ↦ none | some m ↦ some (core m) ]))
      else (ob, some order_not_found)

  unfoldable pub get_order : ℤ → OrderBook → Result CoreOrder
  get_order order_id ob = elim (C.get_order_details ob.core_book order_id) [
    | none ↦ err order_not_found
    | some order ↦ ok order
  ]

  unfoldable pub get_best_bid : OrderBook → Option PriceLevel
  get_best_bid ob = C.get_best_bid ob.core_book

  unfoldable pub get_best_ask : OrderBook → Option PriceLevel
  get_best_ask ob = C.get_best_ask ob.core_book

  unfoldable pub get_spread : OrderBook → ℤ
  get_spread ob = C.get_spread ob.core_book

  unfoldable pub get_mid_price : OrderBook → ℤ
  get_mid_price ob = C.get_mid_price ob.core_book

  unfoldable pub get_depth : ℤ → OrderBook → List (Option PriceLevel) × List (Option PriceLevel)
  get_depth levels ob = (C.get_top_n_bids ob.core_book levels, C.get_top_n_asks ob.core_book levels)

  unfoldable pub get_aggregated_depth :
      ℤ → OrderBook → Option (List AggregatedLevel × List AggregatedLevel)
  unfolding aggregate
  get_aggregated_depth levels ob = elim (aggregate (C.get_top_n_bids ob.core_book levels)) [
    | none ↦ none
    | some bids ↦ elim (aggregate (C.get_top_n_asks ob.core_book levels)) [
      | none ↦ none
      | some asks ↦ some (bids, asks)
    ]
  ]

  unfoldable pub clear : OrderBook → OrderBook
  clear ob = record ob {
    core_book = C.clear ob.core_book;
    order_accounts = H.clear ob.order_accounts;
  }

  unfoldable pub get_account_id : OrderBook → ℤ → Option String
  get_account_id ob order_id = H.get ob.order_accounts order_id

  unfoldable pub get_account_map : OrderBook → Dict ℤ String
  unfolding collect
  get_account_map ob = collect (H.entries ob.order_accounts) []

  unfoldable pub get_stats : OrderBook → OrderBookStats
  unfolding level_price
  get_stats ob = record {
    symbol = ob.symbol;
    symbol_id = ob.symbol_id;
    bid_levels = C.get_bid_levels ob.core_book;
    ask_levels = C.get_ask_levels ob.core_book;
    total_orders = C.get_order_count ob.core_book;
    best_bid = level_price (C.get_best_bid ob.core_book);
    best_ask = level_price (C.get_best_ask ob.core_book);
    spread = C.get_spread ob.core_book;
  }
