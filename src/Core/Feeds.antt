-- ===== src/Core/Feeds.antt =====
-- The snapshots of `github.com/finosorg-labs/exchange`, which is not in the repository, and the
-- subscribers that receive them.
use fin_kit.Prelude.{ℕ, Option, List, String, Outcome}
use fin_kit.Prelude.Int.{ℤ}
use fin_kit.Core.Floats.{Float64}

-- An instant of time.Time, in nanoseconds since the start of 1970.
abbrev pub Time : Type 0
Time = ℤ

-- `exchange.OrderBookSide`
pub data FeedSide : Type 0 where
  bid ask : FeedSide

module _ (F : Float64) where
  -- `exchange.PriceLevel`, by the fields that the program reads.
  pub record FeedLevel : Type 0 where
    pub price : F.Float
    pub volume : F.Float

  -- `exchange.OrderBookSnapshot`, likewise.
  pub record Snapshot : Type 0 where
    pub symbol_id : ℕ
    pub bids : List FeedLevel
    pub asks : List FeedLevel
    pub spread : F.Float

  -- `exchange.Order`
  pub record FeedOrder : Type 0 where
    pub symbol_id : ℕ
    pub price : F.Float
    pub volume : F.Float
    pub side : FeedSide
    pub timestamp : Time

  -- `exchange.GenerateSnapshot` and its precision mode. It returns a snapshot or an error's message.
  pub record Feed : Type 1 where
    pub PrecisionMode : Type 0
    pub generate_snapshot : List FeedOrder → ℕ → PrecisionMode → Time → Outcome String Snapshot

  -- The subscribers that are not nil. What a call does to anything else is in the world; it returns
  -- nil or an error's message.
  pub record Subscribers : Type 1 where
    pub Subscriber : Type 0
    pub World : Type 0
    pub on_snapshot : Subscriber → Snapshot → World → World × Option String
