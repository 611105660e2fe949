-- ===== src/Broker/Adapter/Increments.antt =====
-- broker/market_adapter.go, ParseOrderIncrement: an increment written as JSON and read back, and what
-- the book of broker/broker_orderbook.go does with an increment that has been read.
use fin_kit.Prelude.{
  ◌≡◌, ◌≢◌, refl, Bool, true, false, some, List, [], ◌∷◌, arith, success, Option-cases, inl, inr,
}
use fin_kit.Prelude.Int.{ℤ}
use fin_kit.Prelude.Int64.{IsInt64}
use fin_kit.Core.{Side, buy, sell, other, CoreBook, Float64, Subscribers, Time}
use fin_kit.Json.{
  Bytes, bytes, Value, number, text, object, no_members, member, Token, open_object, close_object,
  comma, render, all_plain, all_bytes, plain_text, literal-is_plain, read_word-literal, scan-render,
  literal, parse_int64-literal, parse, read, number_member, text_member, unmarshal,
}
use fin_kit.Broker.Types.{
  order_increment, json, RawMarketData, OrderIncrementType, order_insert, order_delete,
  order_modify, OrderIncrement, invalid_increment_type,
}
use fin_kit.Broker.OrderBook.{BrokerOrderBook, on_order_increment}
use fin_kit.Broker.Adapter.Messages.{IncrementMessage, no_increment, increment_field}
use fin_kit.Broker.Adapter.{
  MarketDataAdapter, order_type_of, side_of, increment_of, parse_order_increment,
}

-- The word of a type; the types without a word are not printed.
abbrev pub order_type_word : OrderIncrementType → Bytes
order_type_word order_insert = bytes "insert"
order_type_word order_delete = bytes "delete"
order_type_word order_modify = bytes "modify"
order_type_word (OrderIncrementType.unknown n) = []

abbrev pub is_known : OrderIncrementType → Bool
is_known order_insert = true
is_known order_delete = true
is_known order_modify = true
is_known (OrderIncrementType.unknown n) = false

abbrev pub side_word : Side → Bytes
side_word buy = bytes "buy"
side_word sell = bytes "sell"
side_word (other n) = []

abbrev pub is_side : Side → Bool
is_side buy = true
is_side sell = true
is_side (other n) = false

abbrev pub increment_tokens : OrderIncrement → List Token
increment_tokens i =
    open_object
    ∷ text_member (bytes "type") (order_type_word i.kind) (
        comma
        ∷ number_member (bytes "order_id") i.order_id (
            comma
            ∷ number_member (bytes "price") i.price (
                comma
                ∷ number_member (bytes "quantity") i.quantity (
                    comma
                    ∷ text_member (bytes "side") (side_word i.side) (
                        comma
                        ∷ number_member (bytes "timestamp") i.timestamp (close_object ∷ []))))))

-- The increment in JSON.
abbrev pub print_increment : OrderIncrement → Bytes
print_increment i = render (increment_tokens i)

pub record IsSized (i : OrderIncrement) : Type 0 where
  pub order_id : IsInt64 i.order_id
  pub price : IsInt64 i.price
  pub quantity : IsInt64 i.quantity
  pub timestamp : IsInt64 i.timestamp

order_type_word-all_bytes :
    (k : OrderIncrementType) → all_bytes plain_text (order_type_word k) ≡ true
unfolding all_bytes
order_type_word-all_bytes order_insert = refl
order_type_word-all_bytes order_delete = refl
order_type_word-all_bytes order_modify = refl
order_type_word-all_bytes (OrderIncrementType.unknown n) = refl

side_word-all_bytes : (s : Side) → all_bytes plain_text (side_word s) ≡ true
unfolding all_bytes
side_word-all_bytes buy = refl
side_word-all_bytes sell = refl
side_word-all_bytes (other n) = refl

increment_tokens-all_plain : (i : OrderIncrement) → all_plain (increment_tokens i) ≡ true
unfolding all_plain all_bytes
increment_tokens-all_plain i = ground (
  arith,
  order_type_word-all_bytes i.kind,
  side_word-all_bytes i.side,
  literal-is_plain i.order_id,
  literal-is_plain i.price,
  literal-is_plain i.quantity,
  literal-is_plain i.timestamp,
)

abbrev increment_value : OrderIncrement → Value
increment_value i = object (
    member (bytes "type") (text (order_type_word i.kind)) (
      member (bytes "order_id") (number (literal i.order_id)) (
        member (bytes "price") (number (literal i.price)) (
          member (bytes "quantity") (number (literal i.quantity)) (
            member (bytes "side") (text (side_word i.side))
              (member (bytes "timestamp") (number (literal i.timestamp)) no_members))))))

print_increment-parse : (i : OrderIncrement) → parse (print_increment i) ≡ some (increment_value i)
unfolding parse read
print_increment-parse i = ground (
  arith,
  scan-render (increment_tokens i) (increment_tokens-all_plain i),
  read_word-literal i.order_id,
  read_word-literal i.price,
  read_word-literal i.quantity,
  read_word-literal i.timestamp,
)

abbrev increment_message : OrderIncrement → IncrementMessage
increment_message i = record {
  kind = order_type_word i.kind;
  order_id = i.order_id;
  price = i.price;
  quantity = i.quantity;
  side = side_word i.side;
  timestamp = i.timestamp;
}

print_increment-unmarshal :
    (i : OrderIncrement)
    → IsSized i
    → unmarshal increment_field (print_increment i) no_increment ≡ some (increment_message i)
unfolding unmarshal increment_field
print_increment-unmarshal i sized = ground (
  arith,
  print_increment-parse i,
  parse_int64-literal i.order_id sized.order_id,
  parse_int64-literal i.price sized.price,
  parse_int64-literal i.quantity sized.quantity,
  parse_int64-literal i.timestamp sized.timestamp,
)

order_type_of-order_type_word :
    (k : OrderIncrementType) → is_known k ≡ true → order_type_of (order_type_word k) ≡ some k
order_type_of-order_type_word order_insert known = refl
order_type_of-order_type_word order_delete known = refl
order_type_of-order_type_word order_modify known = refl
order_type_of-order_type_word (OrderIncrementType.unknown n) known = absurd (ground arith)

side_of-side_word : (s : Side) → is_side s ≡ true → side_of (side_word s) ≡ some s
side_of-side_word buy known = refl
side_of-side_word sell known = refl
side_of-side_word (other n) known = absurd (ground arith)

increment_of-message :
    (i : OrderIncrement)
    → is_known i.kind ≡ true
    → is_side i.side ≡ true
    → increment_of (increment_message i) ≡ success i
unfolding increment_of
increment_of-message i known known_side =
    rw
      (
        order_type_of-order_type_word i.kind known,
        side_of-side_word i.side known_side,
        increment_of,
      )
      refl

-- An increment whose type and side are known and whose numbers are int64, written as a JSON
-- object, is what ParseOrderIncrement returns of a message of type order increment and of JSON
-- format with that text.
pub parse_order_increment-print :
    (a : MarketDataAdapter) (raw : RawMarketData) (i : OrderIncrement)
    → IsSized i
    → is_known i.kind ≡ true
    → is_side i.side ≡ true
    → raw.kind ≡ order_increment
    → raw.format ≡ json
    → raw.raw_data ≡ print_increment i
    → parse_order_increment a (some raw) ≡ success i
unfolding parse_order_increment
parse_order_increment-print a raw i sized known known_side kind format content =
    ground (arith, print_increment-unmarshal i sized, increment_of-message i known known_side)

increment_of-known :
    (m : IncrementMessage) (i : OrderIncrement)
    → increment_of m ≡ success i
    → is_known i.kind ≡ true
unfolding increment_of
increment_of-known m i done = ground arith

parse_order_increment-known :
    (a : MarketDataAdapter) (raw : RawMarketData) (i : OrderIncrement)
    → parse_order_increment a (some raw) ≡ success i
    → is_known i.kind ≡ true
unfolding parse_order_increment
parse_order_increment-known a raw i done =
    elim (Option-cases (unmarshal increment_field raw.raw_data no_increment)) [
      | inl failed ↦ absurd (ground arith)
      | inr (m, read) ↦ ground (arith, increment_of-known m i)
    ]

module _ (F : Float64) (C : CoreBook) (N : Subscribers F) where
  -- OnOrderIncrement of an increment that ParseOrderIncrement returned never fails for an invalid
  -- increment type.
  pub on_order_increment-parsed :
      (a : MarketDataAdapter) (raw : RawMarketData) (i : OrderIncrement) (now : Time)
      (b : BrokerOrderBook F C N) (n : ℤ)
      → parse_order_increment a (some raw) ≡ success i
      → (on_order_increment F C N (some i) now b).1 ≢ some (invalid_increment_type n)
  unfolding on_order_increment
  on_order_increment-parsed a raw i now b n done refused =
      ground (arith, parse_order_increment-known a raw i done)
