-- ===== src/Broker/Publisher.antt =====
-- broker/publisher.go: the subscribers of snapshots. A subscriber's call can change the world.
pub mod Delivery
mod Tests
use fin_kit.Prelude.{Option, none, some, List, [], ◌∷◌, ◌++◌, length}
use fin_kit.Prelude.Int.{ℤ, pos}
use fin_kit.Core.{Float64, Snapshot, Subscribers}
use fin_kit.Broker.Types.{Error, nil_subscriber, subscriber}

module _ (F : Float64) (N : Subscribers F) where
  pub record SnapshotPublisher : Type 0 where
    pub subscribers : List N.Subscriber

  abbrev pub new_snapshot_publisher : SnapshotPublisher
  new_snapshot_publisher = record { subscribers = [] }

  unfoldable pub subscribe :
      Option N.Subscriber → SnapshotPublisher → SnapshotPublisher × Option (Error F.Float)
  subscribe none p = (p, some nil_subscriber)
  subscribe (some s) p = (record p { subscribers = p.subscribers ++ (s ∷ []) }, none)

  -- The loop of Publish.
  unfoldable pub publish_to :
      List N.Subscriber → Snapshot F → N.World → N.World × Option (Error F.Float)
  publish_to [] snapshot w = (w, none)
  publish_to (s ∷ rest) snapshot w =
      let (w', failure) = N.on_snapshot s snapshot w in
      elim failure [
        | some message ↦ (w', some (subscriber message))
        | none ↦ publish_to rest snapshot w'
      ]

  unfoldable pub publish :
      Snapshot F → SnapshotPublisher → N.World → N.World × Option (Error F.Float)
  unfolding publish_to
  publish snapshot p w = publish_to p.subscribers snapshot w

  unfoldable pub subscriber_count : SnapshotPublisher → ℤ
  subscriber_count p = pos (length p.subscribers)
