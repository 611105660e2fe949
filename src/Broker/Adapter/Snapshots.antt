-- ===== src/Broker/Adapter/Snapshots.antt =====
-- broker/market_adapter.go, ParseSnapshot: snapshots written as JSON.
pub mod Reading
pub mod RoundTrip
use fin_kit.Prelude.{◌^◌, ◌<◌, ◌≡◌, ap, true, List, [], ◌∷◌, arith, All}
use fin_kit.Prelude.Int.{pos}
use fin_kit.Prelude.Int64.{IsInt64}
use fin_kit.Json.{
  Bytes, bytes, Token, open_object, close_object, open_array, close_array, comma, colon, quoted,
  render, all_plain, all_bytes, literal-is_plain, number_member,
}
use fin_kit.Broker.Types.{Level, ExchangeSnapshot}

-- Each function writes before the rest of the tokens.
abbrev pub level_tokens : Level → List Token → List Token
level_tokens l rest =
    open_object
    ∷ number_member (bytes "price") l.price
        (comma ∷ number_member (bytes "quantity") l.total_qty (close_object ∷ rest))

unfoldable pub more_levels : List Level → List Token → List Token
more_levels [] rest = close_array ∷ rest
more_levels (l ∷ ls) rest = comma ∷ level_tokens l (more_levels ls rest)

unfoldable pub levels_tokens : List Level → List Token → List Token
levels_tokens [] rest = open_array ∷ close_array ∷ rest
levels_tokens (l ∷ ls) rest = open_array ∷ level_tokens l (more_levels ls rest)

abbrev pub snapshot_tokens : ExchangeSnapshot → List Token
snapshot_tokens s =
    open_object
    ∷ number_member (bytes "symbol_id") (pos s.symbol_id) (
        comma
        ∷ quoted (bytes "bids")
        ∷ colon
        ∷ levels_tokens s.bids (
            comma
            ∷ quoted (bytes "asks")
            ∷ colon
            ∷ levels_tokens s.asks
                (comma ∷ number_member (bytes "timestamp") s.timestamp (close_object ∷ []))))

-- The snapshot in JSON.
abbrev pub print_snapshot : ExchangeSnapshot → Bytes
print_snapshot s = render (snapshot_tokens s)

abbrev pub IsSizedLevel : Level → Type 0
IsSizedLevel l = IsInt64 l.price × IsInt64 l.total_qty

pub record IsSized (s : ExchangeSnapshot) : Type 0 where
  pub symbol_id : s.symbol_id < 2 ^ 32
  pub bids : All IsSizedLevel s.bids
  pub asks : All IsSizedLevel s.asks
  pub timestamp : IsInt64 s.timestamp

level_tokens-all_plain :
    (l : Level) (rest : List Token) → all_plain rest ≡ true → all_plain (level_tokens l rest) ≡ true
unfolding all_plain all_bytes
level_tokens-all_plain l rest h =
    ground (arith, literal-is_plain l.price, literal-is_plain l.total_qty)

more_levels-all_plain :
    (ls : List Level) (rest : List Token)
    → all_plain rest ≡ true
    → all_plain (more_levels ls rest) ≡ true
unfolding more_levels all_plain
more_levels-all_plain [] rest h = h
more_levels-all_plain (l ∷ ls) rest h =
    level_tokens-all_plain l (more_levels ls rest) (more_levels-all_plain ls rest h)

levels_tokens-all_plain :
    (ls : List Level) (rest : List Token)
    → all_plain rest ≡ true
    → all_plain (levels_tokens ls rest) ≡ true
unfolding levels_tokens all_plain
levels_tokens-all_plain [] rest h = h
levels_tokens-all_plain (l ∷ ls) rest h =
    level_tokens-all_plain l (more_levels ls rest) (more_levels-all_plain ls rest h)

pub snapshot_tokens-all_plain : (s : ExchangeSnapshot) → all_plain (snapshot_tokens s) ≡ true
unfolding all_plain all_bytes
snapshot_tokens-all_plain s =
    let time = comma ∷ number_member (bytes "timestamp") s.timestamp (close_object ∷ []) in
    let asks = comma ∷ quoted (bytes "asks") ∷ colon ∷ levels_tokens s.asks time in
    ground (
      arith,
      literal-is_plain (pos s.symbol_id),
      literal-is_plain s.timestamp,
      levels_tokens-all_plain s.bids asks,
      levels_tokens-all_plain s.asks time,
    )
