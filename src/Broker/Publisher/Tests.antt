-- ===== src/Broker/Publisher/Tests.antt =====
-- Runs of broker/publisher.go with subscribers who note down what they receive.
use fin_kit.Prelude.{◌≡◌, refl, none, some, [], ◌∷◌}
use fin_kit.Prelude.Int.{pos}
use fin_kit.Core.{Snapshot}
use fin_kit.Core.Samples.{fractions}
use fin_kit.Core.FeedSamples.{listeners}
use fin_kit.Broker.Types.{subscriber}
use fin_kit.Broker.Publisher.{
  SnapshotPublisher, new_snapshot_publisher, subscribe, publish, subscriber_count,
}
use fin_kit.Broker.Publisher.Delivery.{Stopped, publish-Stopped}

abbrev empty_snapshot : Snapshot fractions
empty_snapshot = record { symbol_id = 7; bids = []; asks = []; spread = (pos 0, pos 1) }

-- Subscriber 2 comes after one that fails.
abbrev three : SnapshotPublisher fractions listeners
three = record { subscribers = 1 ∷ 0 ∷ 2 ∷ [] }

three-publish :
    publish fractions listeners empty_snapshot three [] ≡ (1 ∷ [], some (subscriber "closed"))
unfolding publish
three-publish = refl

two_subscribers-subscriber_count :
    (let (one, _) =
        subscribe fractions listeners (some 4) (new_snapshot_publisher fractions listeners) in
      let (two, _) = subscribe fractions listeners (some 5) one in
      subscriber_count fractions listeners (subscribe fractions listeners none two).0)
    ≡ pos 2
unfolding subscribe subscriber_count
two_subscribers-subscriber_count = refl

three-failure : (publish fractions listeners empty_snapshot three []).1 ≡ some (subscriber "closed")
unfolding publish
three-failure = refl

publish-Stopped_example :
    Stopped fractions listeners
      (1 ∷ 0 ∷ 2 ∷ [])
      empty_snapshot
      []
      (publish fractions listeners empty_snapshot three []).0
      (subscriber "closed")
publish-Stopped_example =
    publish-Stopped fractions listeners three empty_snapshot [] (subscriber "closed") three-failure

four_after_three-publish :
    (publish fractions listeners empty_snapshot
      (subscribe fractions listeners (some 4) (record { subscribers = 3 ∷ [] })).0
      []).1
    ≡ none
unfolding publish subscribe
four_after_three-publish = refl
