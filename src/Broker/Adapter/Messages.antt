-- ===== src/Broker/Adapter/Messages.antt =====
-- broker/market_adapter.go: the structs that the messages are decoded into, and how encoding/json
-- fills them.
use fin_kit.Prelude.{ℕ, Bool, true, [], if◌then◌else◌}
use fin_kit.Prelude.Int.{ℤ, pos}
use fin_kit.Json.{
  Bytes, bytes, Value, names, decode_int64, decode_uint32, decode_string, decode_struct, Slice,
  nil_slice, decode_slice,
}

pub record IncrementMessage : Type 0 where
  pub kind : Bytes
  pub order_id : ℤ
  pub price : ℤ
  pub quantity : ℤ
  pub side : Bytes
  pub timestamp : ℤ

abbrev pub no_increment : IncrementMessage
no_increment = record {
  kind = [];
  order_id = pos 0;
  price = pos 0;
  quantity = pos 0;
  side = [];
  timestamp = pos 0;
}

unfoldable pub increment_field : Bytes → Value → IncrementMessage → IncrementMessage × Bool
unfolding names decode_int64 decode_string
increment_field key v m =
    if names (bytes "type") key
    then (let (x, fine) = decode_string v m.kind in (record m { kind = x }, fine))
    else if names (bytes "order_id") key
    then (let (x, fine) = decode_int64 v m.order_id in (record m { order_id = x }, fine))
    else if names (bytes "price") key
    then (let (x, fine) = decode_int64 v m.price in (record m { price = x }, fine))
    else if names (bytes "quantity") key
    then (let (x, fine) = decode_int64 v m.quantity in (record m { quantity = x }, fine))
    else if names (bytes "side") key
    then (let (x, fine) = decode_string v m.side in (record m { side = x }, fine))
    else if names (bytes "timestamp") key
    then (let (x, fine) = decode_int64 v m.timestamp in (record m { timestamp = x }, fine))
    else (m, true)

pub record TradeMessage : Type 0 where
  pub buy_order_id : ℤ
  pub sell_order_id : ℤ
  pub price : ℤ
  pub quantity : ℤ
  pub timestamp : ℤ

abbrev pub no_trade : TradeMessage
no_trade = record {
  buy_order_id = pos 0;
  sell_order_id = pos 0;
  price = pos 0;
  quantity = pos 0;
  timestamp = pos 0;
}

unfoldable pub trade_field : Bytes → Value → TradeMessage → TradeMessage × Bool
unfolding names decode_int64
trade_field key v m =
    if names (bytes "buy_order_id") key
    then (let (x, fine) = decode_int64 v m.buy_order_id in (record m { buy_order_id = x }, fine))
    else if names (bytes "sell_order_id") key
    then (let (x, fine) = decode_int64 v m.sell_order_id in (record m { sell_order_id = x }, fine))
    else if names (bytes "price") key
    then (let (x, fine) = decode_int64 v m.price in (record m { price = x }, fine))
    else if names (bytes "quantity") key
    then (let (x, fine) = decode_int64 v m.quantity in (record m { quantity = x }, fine))
    else if names (bytes "timestamp") key
    then (let (x, fine) = decode_int64 v m.timestamp in (record m { timestamp = x }, fine))
    else (m, true)

pub record LevelMessage : Type 0 where
  pub price : ℤ
  pub quantity : ℤ

abbrev pub no_level : LevelMessage
no_level = record { price = pos 0; quantity = pos 0 }

unfoldable pub level_field : Bytes → Value → LevelMessage → LevelMessage × Bool
unfolding names decode_int64
level_field key v m =
    if names (bytes "price") key
    then (let (x, fine) = decode_int64 v m.price in (record m { price = x }, fine))
    else if names (bytes "quantity") key
    then (let (x, fine) = decode_int64 v m.quantity in (record m { quantity = x }, fine))
    else (m, true)

pub record SnapshotMessage : Type 0 where
  pub symbol_id : ℕ
  pub bids : Slice LevelMessage
  pub asks : Slice LevelMessage
  pub timestamp : ℤ

abbrev pub no_snapshot : SnapshotMessage
no_snapshot = record { symbol_id = 0; bids = nil_slice; asks = nil_slice; timestamp = pos 0 }

unfoldable pub levels_of : Value → Slice LevelMessage → Slice LevelMessage × Bool
unfolding level_field decode_struct decode_slice
levels_of v old = decode_slice (decode_struct level_field) no_level v old

unfoldable pub snapshot_field : Bytes → Value → SnapshotMessage → SnapshotMessage × Bool
unfolding names decode_int64 decode_uint32 levels_of
snapshot_field key v m =
    if names (bytes "symbol_id") key
    then (let (x, fine) = decode_uint32 v m.symbol_id in (record m { symbol_id = x }, fine))
    else if names (bytes "bids") key
    then (let (x, fine) = levels_of v m.bids in (record m { bids = x }, fine))
    else if names (bytes "asks") key
    then (let (x, fine) = levels_of v m.asks in (record m { asks = x }, fine))
    else if names (bytes "timestamp") key
    then (let (x, fine) = decode_int64 v m.timestamp in (record m { timestamp = x }, fine))
    else (m, true)
