-- ===== src/Broker/Adapter.antt =====
-- broker/market_adapter.go: raw market data parsed into increments, trades and snapshots.
pub mod Messages
pub mod Trades
pub mod Snapshots
pub mod Increments
mod Tests
use fin_kit.Prelude.{
  Option, none, some, [], ◌∷◌, map, if◌then◌else◌, nat_eqb, Outcome, success, failure,
}
use fin_kit.Prelude.Int.{ℤ}
use fin_kit.Core.{Side, buy, sell}
use fin_kit.Json.{Bytes, bytes, same_bytes, unmarshal, elements}
use fin_kit.Broker.Types.{
  MarketDataFormat, json, binary, fix, MarketDataType, order_increment, trade, snapshot,
  RawMarketData, OrderIncrementType, order_insert, order_delete, order_modify, OrderIncrement,
  Trade, Level, ExchangeSnapshot, is_zero_time,
}
use fin_kit.Broker.Adapter.Messages.{
  IncrementMessage, no_increment, increment_field, TradeMessage, no_trade, trade_field,
  LevelMessage, SnapshotMessage, no_snapshot, snapshot_field,
}

-- The errors, with the values that their texts show; `invalid_message_type` is that of one parser.
pub data AdapterError : Type 0 where
  nil_raw : AdapterError
  invalid_message_type : MarketDataType → AdapterError
  binary_not_implemented fix_not_implemented : AdapterError
  unsupported_format : ℤ → AdapterError
  failed_to_unmarshal : AdapterError
  invalid_order_type invalid_side : Bytes → AdapterError
  empty_data invalid_symbol_id invalid_timestamp : AdapterError

pub record MarketDataAdapter : Type 0 where
  pub format : MarketDataFormat

abbrev pub new_market_data_adapter : MarketDataFormat → MarketDataAdapter
new_market_data_adapter format = record { format = format }

-- The switch over raw.Format, which each parser has. Nothing reads the adapter's own format.
abbrev pub by_format :
    {A : Type 0} → MarketDataFormat → Outcome AdapterError A → Outcome AdapterError A
by_format json parsed = parsed
by_format binary parsed = failure binary_not_implemented
by_format fix parsed = failure fix_not_implemented
by_format (MarketDataFormat.unknown n) parsed = failure (unsupported_format n)

abbrev pub order_type_of : Bytes → Option OrderIncrementType
order_type_of w =
    if same_bytes w (bytes "insert")
    then some order_insert
    else if same_bytes w (bytes "delete")
    then some order_delete
    else if same_bytes w (bytes "modify")
    then some order_modify
    else none

abbrev pub side_of : Bytes → Option Side
side_of w =
    if same_bytes w (bytes "buy")
    then some buy
    else if same_bytes w (bytes "sell")
    then some sell
    else none

-- What becomes of the message that the text is decoded into.
unfoldable pub increment_of : IncrementMessage → Outcome AdapterError OrderIncrement
increment_of m = elim (order_type_of m.kind) [
  | none ↦ failure (invalid_order_type m.kind)
  | some kind ↦ elim (side_of m.side) [
    | none ↦ failure (invalid_side m.side)
    | some side ↦ success (record {
      kind = kind;
      order_id = m.order_id;
      price = m.price;
      quantity = m.quantity;
      side = side;
      timestamp = m.timestamp;
    })
  ]
]

unfoldable pub parse_order_increment_json : RawMarketData → Outcome AdapterError OrderIncrement
unfolding increment_of unmarshal increment_field
parse_order_increment_json raw = elim (unmarshal increment_field raw.raw_data no_increment) [
  | none ↦ failure failed_to_unmarshal
  | some m ↦ increment_of m
]

abbrev pub trade_of : TradeMessage → Trade
trade_of m = record {
  buy_order_id = m.buy_order_id;
  sell_order_id = m.sell_order_id;
  price = m.price;
  quantity = m.quantity;
  timestamp = m.timestamp;
}

unfoldable pub parse_trade_json : RawMarketData → Outcome AdapterError Trade
unfolding unmarshal trade_field
parse_trade_json raw = elim (unmarshal trade_field raw.raw_data no_trade) [
  | none ↦ failure failed_to_unmarshal
  | some m ↦ success (trade_of m)
]

abbrev pub level_of : LevelMessage → Level
level_of m = record { price = m.price; total_qty = m.quantity }

abbrev pub snapshot_of : SnapshotMessage → ExchangeSnapshot
snapshot_of m = record {
  symbol_id = m.symbol_id;
  bids = map level_of (elements m.bids);
  asks = map level_of (elements m.asks);
  timestamp = m.timestamp;
}

unfoldable pub parse_snapshot_json : RawMarketData → Outcome AdapterError ExchangeSnapshot
unfolding unmarshal snapshot_field
parse_snapshot_json raw = elim (unmarshal snapshot_field raw.raw_data no_snapshot) [
  | none ↦ failure failed_to_unmarshal
  | some m ↦ success (snapshot_of m)
]

unfoldable pub parse_order_increment :
    MarketDataAdapter → Option RawMarketData → Outcome AdapterError OrderIncrement
unfolding parse_order_increment_json
parse_order_increment a none = failure nil_raw
parse_order_increment a (some raw) = elim raw.kind [
  | order_increment ↦ by_format raw.format (parse_order_increment_json raw)
  | other ↦ failure (invalid_message_type other)
]

unfoldable pub parse_trade : MarketDataAdapter → Option RawMarketData → Outcome AdapterError Trade
unfolding parse_trade_json
parse_trade a none = failure nil_raw
parse_trade a (some raw) = elim raw.kind [
  | trade ↦ by_format raw.format (parse_trade_json raw)
  | other ↦ failure (invalid_message_type other)
]

unfoldable pub parse_snapshot :
    MarketDataAdapter → Option RawMarketData → Outcome AdapterError ExchangeSnapshot
unfolding parse_snapshot_json
parse_snapshot a none = failure nil_raw
parse_snapshot a (some raw) = elim raw.kind [
  | snapshot ↦ by_format raw.format (parse_snapshot_json raw)
  | other ↦ failure (invalid_message_type other)
]

unfoldable pub validate_raw_data : MarketDataAdapter → Option RawMarketData → Option AdapterError
validate_raw_data a none = some nil_raw
validate_raw_data a (some raw) = elim raw.raw_data [
  | [] ↦ some empty_data
  | _ ∷ _ ↦
      if nat_eqb raw.symbol_id 0
      then some invalid_symbol_id
      else if is_zero_time raw.timestamp
      then some invalid_timestamp
      else none
]
