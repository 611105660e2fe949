-- ===== src/Broker/Adapter/Snapshots/RoundTrip.antt =====
-- broker/market_adapter.go, ParseSnapshot: a snapshot written as JSON and read back.
use fin_kit.Prelude.{
  suc, ◌≡◌, refl, ◌∙◌, ap, true, some, List, [], ◌∷◌, map, arith, All, success, length,
}
use fin_kit.Json.{
  Value, array, Values, no_values, value, add_value, parse_int64-literal, parse_uint32-literal,
  unmarshal, decode_values, decode_struct, count, elements, first, Slice, nil_slice, decode_slice,
}
use fin_kit.Broker.Types.{snapshot, json, RawMarketData, Level, ExchangeSnapshot}
use fin_kit.Broker.Adapter.Messages.{
  LevelMessage, no_level, level_field, levels_of, SnapshotMessage, no_snapshot, snapshot_field,
}
use fin_kit.Broker.Adapter.{MarketDataAdapter, level_of, parse_snapshot}
use fin_kit.Broker.Adapter.Snapshots.{print_snapshot, IsSizedLevel, IsSized}
use fin_kit.Broker.Adapter.Snapshots.Reading.{level_value, grow, print_snapshot-parse}

abbrev level_message : Level → LevelMessage
level_message l = record { price = l.price; quantity = l.total_qty }

decode_level :
    (l : Level) (old : LevelMessage)
    → IsSizedLevel l
    → decode_struct level_field (level_value l) old ≡ (level_message l, true)
unfolding decode_struct level_field
decode_level l old sized =
    ground (arith, parse_int64-literal l.price sized.0, parse_int64-literal l.total_qty sized.1)

grow-value :
    (x : Value) (vs : Values) (ls : List Level) → grow (value x vs) ls ≡ value x (grow vs ls)
unfolding grow add_value
grow-value x vs [] = refl
grow-value x vs (l ∷ ls) = grow-value x (add_value vs (level_value l)) ls

grow_one :
    (l : Level) (ls : List Level)
    → grow no_values (l ∷ ls) ≡ value (level_value l) (grow no_values ls)
unfolding grow add_value
grow_one l ls = grow-value (level_value l) no_values ls

decode_levels :
    (ls : List Level)
    → All IsSizedLevel ls
    → decode_values (decode_struct level_field) no_level (grow no_values ls) []
      ≡ (map level_message ls, true)
unfolding decode_values grow
decode_levels [] sized = refl
decode_levels (l ∷ ls) sized =
    rw (grow_one l ls) (rw (decode_level l no_level sized.0, decode_levels ls sized.1) refl)

count-grow : (ls : List Level) → count (grow no_values ls) ≡ length ls
unfolding grow
count-grow [] = refl
count-grow (l ∷ ls) = rw (grow_one l ls) (ap suc (count-grow ls))

first-length : (ls : List Level) → first (length ls) (map level_message ls) ≡ map level_message ls
first-length [] = refl
first-length (l ∷ ls) = ap (λ xs. level_message l ∷ xs) (first-length ls)

abbrev slice_of : List Level → Slice LevelMessage
slice_of ls = record { cells = map level_message ls; len = length ls }

levels_of-array :
    (ls : List Level)
    → All IsSizedLevel ls
    → levels_of (array (grow no_values ls)) nil_slice ≡ (slice_of ls, true)
unfolding levels_of grow decode_slice
levels_of-array [] sized = refl
levels_of-array (l ∷ ls) sized =
    let decoded = rw (grow_one l ls) at (decode_levels (l ∷ ls) sized) in
    let all =
      decode_values (decode_struct level_field) no_level (value (level_value l) (grow no_values ls))
        [] in
    rw (grow_one l ls) (
      ap (λ n. (record { cells = all.0; len = suc n }, all.1)) (count-grow ls)
      ∙ ap (λ x. (record { cells = x.0; len = suc (length ls) }, x.1)) decoded)

map-level_of : (ls : List Level) → map level_of (elements (slice_of ls)) ≡ ls
map-level_of [] = refl
map-level_of (l ∷ ls) = ap (λ xs. l ∷ xs) (map-level_of ls)

abbrev snapshot_message : ExchangeSnapshot → SnapshotMessage
snapshot_message s = record {
  symbol_id = s.symbol_id;
  bids = slice_of s.bids;
  asks = slice_of s.asks;
  timestamp = s.timestamp;
}

print_snapshot-unmarshal :
    (s : ExchangeSnapshot)
    → IsSized s
    → unmarshal snapshot_field (print_snapshot s) no_snapshot ≡ some (snapshot_message s)
unfolding unmarshal snapshot_field
print_snapshot-unmarshal s sized = ground (
  arith,
  print_snapshot-parse s,
  parse_uint32-literal s.symbol_id sized.symbol_id,
  levels_of-array s.bids sized.bids,
  levels_of-array s.asks sized.asks,
  parse_int64-literal s.timestamp sized.timestamp,
)

-- A snapshot whose symbol ID is a uint32 and whose prices, quantities and time are int64, written
-- as a JSON object with a list of bids and one of asks, each of any length, is what ParseSnapshot
-- returns of a message of type snapshot and of JSON format with that text.
pub parse_snapshot-print :
    (a : MarketDataAdapter) (raw : RawMarketData) (s : ExchangeSnapshot)
    → IsSized s
    → raw.kind ≡ snapshot
    → raw.format ≡ json
    → raw.raw_data ≡ print_snapshot s
    → parse_snapshot a (some raw) ≡ success s
unfolding parse_snapshot
parse_snapshot-print a raw s sized kind format content =
    ground (arith, print_snapshot-unmarshal s sized, map-level_of s.bids, map-level_of s.asks)
