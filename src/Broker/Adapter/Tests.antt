-- ===== src/Broker/Adapter/Tests.antt =====
-- Messages as market_adapter_test.go sends them, and some that it does not.
use fin_kit.Prelude.{none, arith, ◌≡◌, refl, some, [], ◌∷◌, String, success, failure}
use fin_kit.Prelude.Int.{negsuc, pos}
use fin_kit.Core.Samples.{fractions, plain_book}
use fin_kit.Core.FeedSamples.{listeners}
use fin_kit.Broker.Metrics.{new_metrics}
use fin_kit.Broker.OrderBook.{BrokerOrderBook}
use fin_kit.Broker.Adapter.Trades.{print_trade, parse_trade-print}
use fin_kit.Broker.Adapter.Trades
use fin_kit.Broker.Adapter.Increments
use fin_kit.Broker.Adapter.Snapshots
use fin_kit.Broker.Adapter.Increments.{
  print_increment, parse_order_increment-print, on_order_increment-parsed,
}
use fin_kit.Broker.Adapter.Snapshots.{print_snapshot}
use fin_kit.Broker.Adapter.Snapshots.RoundTrip.{parse_snapshot-print}
use fin_kit.Core.{sell}
use fin_kit.Json.{Bytes, bytes}
use fin_kit.Broker.Types.{
  Trade, OrderIncrement, ExchangeSnapshot, json, binary, MarketDataType, order_increment, trade,
  snapshot, RawMarketData, order_insert, order_modify,
}
use fin_kit.Broker.Adapter.{
  MarketDataAdapter, new_market_data_adapter, parse_order_increment, parse_trade, parse_snapshot,
  validate_raw_data, failed_to_unmarshal, invalid_side, empty_data, binary_not_implemented,
}

abbrev adapter : MarketDataAdapter
adapter = new_market_data_adapter json

abbrev raw : MarketDataType → String → RawMarketData
raw kind s = record {
  kind = kind;
  format = json;
  raw_data = bytes s;
  timestamp = pos 1;
  symbol_id = 7;
}

insert-parse_order_increment :
    parse_order_increment adapter (
      some (
        raw order_increment
          "{\"type\":\"insert\",\"order_id\":5,\"price\":100,\"quantity\":10,\"side\":\"sell\",\"timestamp\":9}"))
    ≡ success (record {
      kind = order_insert;
      order_id = pos 5;
      price = pos 100;
      quantity = pos 10;
      side = sell;
      timestamp = pos 9;
    })
unfolding parse_order_increment
insert-parse_order_increment = refl

unknown_side-parse_order_increment :
    parse_order_increment adapter
      (some (raw order_increment "{\"type\":\"modify\",\"side\":\"x\"}"))
    ≡ failure (invalid_side (bytes "x"))
unfolding parse_order_increment
unknown_side-parse_order_increment = refl

binary-parse_trade :
    parse_trade adapter (some (record (raw trade "{}") { format = binary }))
    ≡ failure binary_not_implemented
unfolding parse_trade
binary-parse_trade = refl

fraction-parse_trade :
    parse_trade adapter (some (raw trade "{\"price\": 1.5, \"quantity\": 2}"))
    ≡ failure failed_to_unmarshal
unfolding parse_trade
fraction-parse_trade = refl

-- An empty message is a trade of nothing.
empty-parse_trade :
    parse_trade adapter (some (raw trade "null"))
    ≡ success (record {
      buy_order_id = pos 0;
      sell_order_id = pos 0;
      price = pos 0;
      quantity = pos 0;
      timestamp = pos 0;
    })
unfolding parse_trade
empty-parse_trade = refl

levels-parse_snapshot :
    parse_snapshot adapter (
      some (
        raw snapshot
          "{\"symbol_id\":7,\"bids\":[{\"price\":100,\"quantity\":10},{\"price\":99}],\"asks\":[],\"timestamp\":3}"))
    ≡ success (record {
      symbol_id = 7;
      bids =
          record { price = pos 100; total_qty = pos 10 }
          ∷ record { price = pos 99; total_qty = pos 0 }
          ∷ [];
      asks = [];
      timestamp = pos 3;
    })
unfolding parse_snapshot
levels-parse_snapshot = refl

-- A second list of bids is written over the first.
twice-parse_snapshot :
    parse_snapshot adapter (
      some (raw snapshot "{\"bids\":[{\"price\":100,\"quantity\":10}], \"bids\":[{\"price\":99}]}"))
    ≡ success (record {
      symbol_id = 0;
      bids = record { price = pos 99; total_qty = pos 10 } ∷ [];
      asks = [];
      timestamp = pos 0;
    })
unfolding parse_snapshot
twice-parse_snapshot = refl

empty-validate_raw_data : validate_raw_data adapter (some (raw trade "")) ≡ some empty_data
unfolding validate_raw_data
empty-validate_raw_data = refl

abbrev sold : Trade
sold = record {
  buy_order_id = pos 1;
  sell_order_id = pos 0;
  price = pos 10250;
  quantity = negsuc 4;
  timestamp = pos 1_700_000_000_000_000_000;
}

sold-IsSized : Trades.IsSized sold
sold-IsSized = record {
  buy_order_id = (omega arith, omega arith);
  sell_order_id = (omega arith, omega arith);
  price = (omega arith, omega arith);
  quantity = (omega arith, omega arith);
  timestamp = (omega arith, omega arith);
}

abbrev carrying : MarketDataType → Bytes → RawMarketData
carrying kind content = record (raw kind "") { raw_data = content }

abbrev modified : OrderIncrement
modified = record {
  kind = order_modify;
  order_id = pos 5;
  price = pos 0;
  quantity = pos 30;
  side = sell;
  timestamp = pos 8;
}

modified-IsSized : Increments.IsSized modified
modified-IsSized = record {
  order_id = (omega arith, omega arith);
  price = (omega arith, omega arith);
  quantity = (omega arith, omega arith);
  timestamp = (omega arith, omega arith);
}

parse_order_increment-print_example :
    parse_order_increment adapter (some (carrying order_increment (print_increment modified)))
    ≡ success modified
parse_order_increment-print_example =
    parse_order_increment-print adapter (carrying order_increment (print_increment modified))
      modified modified-IsSized refl refl refl refl refl

abbrev two_bids : ExchangeSnapshot
two_bids = record {
  symbol_id = 7;
  bids =
      record { price = pos 100; total_qty = pos 10 }
      ∷ record { price = pos 99; total_qty = negsuc 0 }
      ∷ [];
  asks = [];
  timestamp = pos 3;
}

two_bids-IsSized : Snapshots.IsSized two_bids
two_bids-IsSized = record {
  symbol_id = omega arith;
  bids = (
    ((omega arith, omega arith), (omega arith, omega arith)),
    (((omega arith, omega arith), (omega arith, omega arith)), tt),
  );
  asks = tt;
  timestamp = (omega arith, omega arith);
}

parse_snapshot-print_example :
    parse_snapshot adapter (some (carrying snapshot (print_snapshot two_bids))) ≡ success two_bids
parse_snapshot-print_example =
    parse_snapshot-print adapter (carrying snapshot (print_snapshot two_bids)) two_bids
      two_bids-IsSized refl refl refl

abbrev empty_book : BrokerOrderBook fractions plain_book listeners
empty_book = record {
  core_book = λ j. none;
  metrics = new_metrics;
  snapshot = record { publisher = record { subscribers = [] } };
  tick_size = (pos 1, pos 100);
}
