-- ===== src/Broker/Adapter/Trades.antt =====
-- broker/market_adapter.go, ParseTrade: a trade written as JSON and read back.
use fin_kit.Prelude.{◌≡◌, true, some, List, [], ◌∷◌, arith, success}
use fin_kit.Prelude.Int64.{IsInt64}
use fin_kit.Json.{
  Bytes, bytes, Value, number, object, no_members, member, Token, open_object, close_object, comma,
  render, all_plain, all_bytes, literal-is_plain, read_word-literal, scan-render, literal,
  parse_int64-literal, parse, read, number_member, unmarshal,
}
use fin_kit.Broker.Types.{trade, json, RawMarketData, Trade}
use fin_kit.Broker.Adapter.Messages.{TradeMessage, no_trade, trade_field}
use fin_kit.Broker.Adapter.{MarketDataAdapter, parse_trade}

abbrev pub trade_tokens : Trade → List Token
trade_tokens t =
    open_object
    ∷ number_member (bytes "buy_order_id") t.buy_order_id (
        comma
        ∷ number_member (bytes "sell_order_id") t.sell_order_id (
            comma
            ∷ number_member (bytes "price") t.price (
                comma
                ∷ number_member (bytes "quantity") t.quantity
                    (comma ∷ number_member (bytes "timestamp") t.timestamp (close_object ∷ [])))))

-- The trade in JSON.
abbrev pub print_trade : Trade → Bytes
print_trade t = render (trade_tokens t)

pub record IsSized (t : Trade) : Type 0 where
  pub buy_order_id : IsInt64 t.buy_order_id
  pub sell_order_id : IsInt64 t.sell_order_id
  pub price : IsInt64 t.price
  pub quantity : IsInt64 t.quantity
  pub timestamp : IsInt64 t.timestamp

trade_tokens-all_plain : (t : Trade) → all_plain (trade_tokens t) ≡ true
unfolding all_plain all_bytes
trade_tokens-all_plain t = ground (
  arith,
  literal-is_plain t.buy_order_id,
  literal-is_plain t.sell_order_id,
  literal-is_plain t.price,
  literal-is_plain t.quantity,
  literal-is_plain t.timestamp,
)

abbrev trade_value : Trade → Value
trade_value t = object (
    member (bytes "buy_order_id") (number (literal t.buy_order_id)) (
      member (bytes "sell_order_id") (number (literal t.sell_order_id)) (
        member (bytes "price") (number (literal t.price)) (
          member (bytes "quantity") (number (literal t.quantity))
            (member (bytes "timestamp") (number (literal t.timestamp)) no_members)))))

print_trade-parse : (t : Trade) → parse (print_trade t) ≡ some (trade_value t)
unfolding parse read
print_trade-parse t = ground (
  arith,
  scan-render (trade_tokens t) (trade_tokens-all_plain t),
  read_word-literal t.buy_order_id,
  read_word-literal t.sell_order_id,
  read_word-literal t.price,
  read_word-literal t.quantity,
  read_word-literal t.timestamp,
)

abbrev trade_message : Trade → TradeMessage
trade_message t = record {
  buy_order_id = t.buy_order_id;
  sell_order_id = t.sell_order_id;
  price = t.price;
  quantity = t.quantity;
  timestamp = t.timestamp;
}

print_trade-unmarshal :
    (t : Trade)
    → IsSized t
    → unmarshal trade_field (print_trade t) no_trade ≡ some (trade_message t)
unfolding unmarshal trade_field
print_trade-unmarshal t sized = ground (
  arith,
  print_trade-parse t,
  parse_int64-literal t.buy_order_id sized.buy_order_id,
  parse_int64-literal t.sell_order_id sized.sell_order_id,
  parse_int64-literal t.price sized.price,
  parse_int64-literal t.quantity sized.quantity,
  parse_int64-literal t.timestamp sized.timestamp,
)

-- A trade whose numbers are int64, written as a JSON object, is what ParseTrade returns of a
-- message of type trade and of JSON format with that text.
pub parse_trade-print :
    (a : MarketDataAdapter) (raw : RawMarketData) (t : Trade)
    → IsSized t
    → raw.kind ≡ trade
    → raw.format ≡ json
    → raw.raw_data ≡ print_trade t
    → parse_trade a (some raw) ≡ success t
unfolding parse_trade
parse_trade-print a raw t sized kind format content = ground (arith, print_trade-unmarshal t sized)
