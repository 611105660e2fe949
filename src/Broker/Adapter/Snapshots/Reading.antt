-- ===== src/Broker/Adapter/Snapshots/Reading.antt =====
-- broker/market_adapter.go, ParseSnapshot: how the parser reads a written snapshot.
use fin_kit.Prelude.{◌≡◌, refl, ◌∙◌, some, List, [], ◌∷◌, arith, ◌⊎◌, inl, inr}
use fin_kit.Prelude.Int.{pos}
use fin_kit.Json.{
  Bytes, bytes, Value, number, object, array, Values, no_values, add_value, Members, no_members,
  member, Token, close_object, comma, colon, quoted, read_word-literal, scan-render, literal, parse,
  read, read-first_number, read-next_number, number_member, in_array, in_member, in_object, Next,
  a_value, a_value_or_end, a_separator, add_member,
}
use fin_kit.Broker.Types.{Level, ExchangeSnapshot}
use fin_kit.Broker.Adapter.Snapshots.{
  level_tokens, more_levels, levels_tokens, snapshot_tokens, print_snapshot,
  snapshot_tokens-all_plain,
}

abbrev pub level_value : Level → Value
level_value l = object (
    member (bytes "price") (number (literal l.price))
      (member (bytes "quantity") (number (literal l.total_qty)) no_members))

-- The values of an array that starts with `vs`.
unfoldable pub grow : Values → List Level → Values
grow vs [] = vs
grow vs (l ∷ ls) = grow (add_value vs (level_value l)) ls

read-level :
    (next : Next) (l : Level) (rest : List Token) (vs : Values) (ms : Members) (key : Bytes)
    → (next ≡ a_value) ⊎ (next ≡ a_value_or_end)
    → read (level_tokens l rest) (next, in_array vs ∷ in_member ms key ∷ [])
      ≡ read rest (a_separator, in_array (add_value vs (level_value l)) ∷ in_member ms key ∷ [])
unfolding read
read-level next l rest vs ms key h =
    ground (arith, read_word-literal l.price, read_word-literal l.total_qty)

read-more_levels :
    (ls : List Level) (rest : List Token) (vs : Values) (ms : Members) (key : Bytes)
    → read (more_levels ls rest) (a_separator, in_array vs ∷ in_member ms key ∷ [])
      ≡ read rest (a_separator, in_object (add_member ms key (array (grow vs ls))) ∷ [])
unfolding read more_levels grow
read-more_levels [] rest vs ms key = refl
read-more_levels (l ∷ ls) rest vs ms key =
    read-level a_value l (more_levels ls rest) vs ms key (inl refl)
    ∙ read-more_levels ls rest (add_value vs (level_value l)) ms key

read-levels :
    (ls : List Level) (rest : List Token) (ms : Members) (key : Bytes)
    → read (levels_tokens ls rest) (a_value, in_member ms key ∷ [])
      ≡ read rest (a_separator, in_object (add_member ms key (array (grow no_values ls))) ∷ [])
unfolding read levels_tokens grow
read-levels [] rest ms key = refl
read-levels (l ∷ ls) rest ms key =
    read-level a_value_or_end l (more_levels ls rest) no_values ms key (inr refl)
    ∙ read-more_levels ls rest (add_value no_values (level_value l)) ms key

abbrev pub snapshot_value : ExchangeSnapshot → Value
snapshot_value s = object (
    member (bytes "symbol_id") (number (literal (pos s.symbol_id))) (
      member (bytes "bids") (array (grow no_values s.bids)) (
        member (bytes "asks") (array (grow no_values s.asks))
          (member (bytes "timestamp") (number (literal s.timestamp)) no_members))))

pub print_snapshot-parse :
    (s : ExchangeSnapshot) → parse (print_snapshot s) ≡ some (snapshot_value s)
unfolding parse read
print_snapshot-parse s =
    let time = comma ∷ number_member (bytes "timestamp") s.timestamp (close_object ∷ []) in
    let asks = comma ∷ quoted (bytes "asks") ∷ colon ∷ levels_tokens s.asks time in
    let bids = comma ∷ quoted (bytes "bids") ∷ colon ∷ levels_tokens s.bids asks in
    let one = member (bytes "symbol_id") (number (literal (pos s.symbol_id))) no_members in
    let two = add_member one (bytes "bids") (array (grow no_values s.bids)) in
    let three = add_member two (bytes "asks") (array (grow no_values s.asks)) in
    rw (scan-render (snapshot_tokens s) (snapshot_tokens-all_plain s), parse)
      (read-first_number no_members [] (bytes "symbol_id") bids (pos s.symbol_id)
        ∙ read-levels s.bids asks one (bytes "bids")
        ∙ read-levels s.asks time two (bytes "asks")
        ∙ read-next_number three [] (bytes "timestamp") (close_object ∷ []) s.timestamp)
