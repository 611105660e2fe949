-- ===== src/Broker/Types.antt =====
-- broker/types.go: the data of package broker. The errors are those of every file but
-- the adapter's.
use fin_kit.Prelude.{ℕ, ◌*◌, ◌-◌, List, Bool, String, ◌==◌}
use fin_kit.Prelude.Int.{ℤ, negsuc, int_eq}
use fin_kit.Prelude.Int64.{wrap}
use fin_kit.Core.{Side, Time}
use fin_kit.Json.{Bytes}

-- `time.Time{}`, the start of the year 1.
abbrev pub zero_time : Time
zero_time = negsuc (62_135_596_800 * 1_000_000_000 - 1)

abbrev pub is_zero_time : Time → Bool
is_zero_time t = t == zero_time

-- `t.UnixNano()`, whose result is an int64.
abbrev pub unix_nano : Time → ℤ
unix_nano t = wrap t

-- `unknown` is any value but the three constants; so in the types below.
pub data OrderIncrementType : Type 0 where
  order_insert order_delete order_modify : OrderIncrementType
  unknown : ℤ → OrderIncrementType

pub record OrderIncrement : Type 0 where
  pub kind : OrderIncrementType
  pub order_id : ℤ
  pub price : ℤ
  pub quantity : ℤ
  pub side : Side
  pub timestamp : ℤ

pub record Trade : Type 0 where
  pub buy_order_id : ℤ
  pub sell_order_id : ℤ
  pub price : ℤ
  pub quantity : ℤ
  pub timestamp : ℤ

-- A `PriceLevel` that is not behind a pointer, by the two fields that the package reads and sets.
pub record Level : Type 0 where
  pub price : ℤ
  pub total_qty : ℤ

pub record ExchangeSnapshot : Type 0 where
  pub symbol_id : ℕ
  pub bids : List Level
  pub asks : List Level
  pub timestamp : Time

pub data MarketDataFormat : Type 0 where
  json binary fix : MarketDataFormat
  unknown : ℤ → MarketDataFormat

pub data MarketDataType : Type 0 where
  order_increment trade snapshot heartbeat : MarketDataType
  unknown : ℤ → MarketDataType

pub record RawMarketData : Type 0 where
  pub kind : MarketDataType
  pub format : MarketDataFormat
  pub raw_data : Bytes
  pub timestamp : Time
  pub symbol_id : ℕ

-- The errors of the package but the adapter's, with the values that their texts show.
pub data Error (Float : Type 0) : Type 0 where
  nil_order_increment nil_trade nil_snapshot nil_subscriber : Error Float
  core : String → Error Float
  invalid_increment_type : ℤ → Error Float
  symbol_id_mismatch : ℕ → ℕ → Error Float
  failed_to_insert_bid failed_to_insert_ask : Error Float → Error Float
  negative_top_n : ℤ → Error Float
  tick_size_not_positive : Float → Error Float
  generator subscriber : String → Error Float
  nil_rebuilt nil_exchange : Error Float
  symbol_mismatch : ℕ → ℕ → Error Float
