-- ===== src/Core/FeedSamples.antt =====
-- A concrete generator of snapshots and concrete subscribers for the tests.
use fin_kit.Prelude.{ℕ, none, some, List, [], ◌∷◌, if◌then◌else◌, nat_eqb, success, failure}
use fin_kit.Prelude.Int.{pos}
use fin_kit.Core.Feeds.{bid, ask, FeedLevel, FeedOrder, Feed, Subscribers}
use fin_kit.Core.Samples.{fractions}

abbrev level_of : FeedOrder fractions → FeedLevel fractions
level_of o = record { price = o.price; volume = o.volume }

abbrev bids_of : List (FeedOrder fractions) → List (FeedLevel fractions)
bids_of [] = []
bids_of (o ∷ os) = elim o.side [ bid ↦ level_of o ∷ bids_of os | ask ↦ bids_of os ]

abbrev asks_of : List (FeedOrder fractions) → List (FeedLevel fractions)
asks_of [] = []
asks_of (o ∷ os) = elim o.side [ bid ↦ asks_of os | ask ↦ level_of o ∷ asks_of os ]

-- It keeps every order, and refuses to do so for none.
abbrev pub plain_feed : Feed fractions
plain_feed = record {
  PrecisionMode = ℕ;
  generate_snapshot = λ orders top_n precision now. elim orders [
    | [] ↦ failure "no orders"
    | o ∷ os ↦ success (record {
      symbol_id = o.symbol_id;
      bids = bids_of (o ∷ os);
      asks = asks_of (o ∷ os);
      spread = (pos 0, pos 1);
    })
  ];
}

-- Subscribers with a number, who note it down. Number 0 fails.
abbrev pub listeners : Subscribers fractions
listeners = record {
  Subscriber = ℕ;
  World = List ℕ;
  on_snapshot = λ s snapshot w. if nat_eqb s 0 then (w, some "closed") else (s ∷ w, none);
}
