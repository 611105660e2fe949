-- ===== src/Broker/Snapshots/Tests.antt =====
-- Runs of broker/snapshot.go with a generator that keeps every order.
use fin_kit.Prelude.{◌≡◌, refl, Option, none, some, List, [], ◌∷◌, success, failure}
use fin_kit.Prelude.Int.{ℤ, pos, negsuc, ◌*ℤ◌}
use fin_kit.Core.{PriceLevel, Snapshot}
use fin_kit.Core.Samples.{fractions}
use fin_kit.Core.FeedSamples.{plain_feed, listeners}
use fin_kit.Broker.Types.{generator, negative_top_n}
use fin_kit.Broker.Publisher.{publish}
use fin_kit.Broker.Snapshots.{build_snapshot, build_and_publish}

abbrev level : ℤ → ℤ → PriceLevel
level price quantity = record {
  address = 1;
  price = price;
  total_qty = quantity;
  order_count = pos 0;
  head = [];
}

abbrev bids : List (Option PriceLevel)
bids = some (level (pos 101) (pos 5)) ∷ none ∷ some (level (pos 100) (pos 7)) ∷ []

abbrev asks : List (Option PriceLevel)
asks = some (level (pos 103) (pos 2)) ∷ []

-- Ticks of 0.01.
abbrev built : Snapshot fractions
built = record {
  symbol_id = 7;
  bids =
      record { price = (pos 101, pos 100); volume = (pos 5, pos 1) }
      ∷ record { price = (pos 100, pos 100); volume = (pos 7, pos 1) }
      ∷ [];
  asks = record { price = (pos 103, pos 100); volume = (pos 2, pos 1) } ∷ [];
  spread = (pos 0, pos 1);
}

bids_and_asks-build_snapshot :
    build_snapshot fractions plain_feed 7 bids asks (pos 10) 0 (pos 1) (pos 1, pos 100)
    ≡ success built
unfolding build_snapshot ◌*ℤ◌
bids_and_asks-build_snapshot = refl

negative-build_snapshot :
    build_snapshot fractions plain_feed 7 bids asks (negsuc 0) 0 (pos 1) (pos 1, pos 100)
    ≡ failure (negative_top_n (negsuc 0))
unfolding build_snapshot
negative-build_snapshot = refl

no_levels-build_and_publish :
    build_and_publish fractions plain_feed listeners 7 []
      (none ∷ [])
      (pos 10)
      0
      (pos 1)
      (pos 1, pos 100)
      (record { publisher = record { subscribers = 3 ∷ [] } })
      []
    ≡ ([], failure (generator "no orders"))
unfolding build_and_publish ◌*ℤ◌
no_levels-build_and_publish = refl

published-build_and_publish :
    build_and_publish fractions plain_feed listeners 7 bids asks
      (pos 10)
      0
      (pos 1)
      (pos 1, pos 100)
      (record { publisher = record { subscribers = 3 ∷ [] } })
      []
    ≡ (3 ∷ [], success built)
unfolding build_and_publish ◌*ℤ◌ publish
published-build_and_publish = refl
