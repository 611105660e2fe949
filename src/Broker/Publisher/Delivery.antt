-- ===== src/Broker/Publisher/Delivery.antt =====
-- broker/publisher.go, Publish: who receives a snapshot.
use fin_kit.Prelude.{
  ◌≡◌, refl, ◌∙◌, ap, none, some, List, [], ◌∷◌, ◌++◌, String, arith, Option-cases, inl, inr,
}
use fin_kit.Core.{Float64, Snapshot, Subscribers}
use fin_kit.Broker.Types.{Error, subscriber}
use fin_kit.Broker.Publisher.{SnapshotPublisher, publish_to, publish, subscribe}

module _ (F : Float64) (N : Subscribers F) where
  -- The subscribers before the first that fails, that one, and those after it, who receive nothing.
  pub record Stopped (subs : List N.Subscriber) (snapshot : Snapshot F) (w w' : N.World)
      (e : Error F.Float) : Type 0 where
    pub before : List N.Subscriber
    pub failing : N.Subscriber
    pub after : List N.Subscriber
    pub message : String
    pub parts : subs ≡ before ++ (failing ∷ after)
    pub reached : (publish_to F N before snapshot w).1 ≡ none
    pub stopped :
        N.on_snapshot failing snapshot (publish_to F N before snapshot w).0 ≡ (w', some message)
    pub reported : e ≡ subscriber message

  publish_to-Stopped :
      (subs : List N.Subscriber) (snapshot : Snapshot F) (w : N.World) (e : Error F.Float)
      → (publish_to F N subs snapshot w).1 ≡ some e
      → Stopped subs snapshot w (publish_to F N subs snapshot w).0 e
  unfolding publish_to
  publish_to-Stopped [] snapshot w e failed = absurd (ground arith)
  publish_to-Stopped (s ∷ subs) snapshot w e failed =
      elim (Option-cases (N.on_snapshot s snapshot w).1) [
        | inr (message, stops) ↦
            rw (stops, publish_to)
              record {
                before = [];
                failing = s;
                after = subs;
                message = message;
                parts = refl;
                reached = refl;
                stopped = ground arith;
                reported = ground arith;
              }
        | inl fine ↦
            let next = (N.on_snapshot s snapshot w).0 in
            let rest = publish_to-Stopped subs snapshot next e (rw (fine, publish_to) at failed) in
            rw (fine, publish_to)
              record {
                before = s ∷ rest.before;
                failing = rest.failing;
                after = rest.after;
                message = rest.message;
                parts = ap (λ xs. s ∷ xs) rest.parts;
                reached = ground (arith, rest.reached);
                stopped = ground (arith, rest.stopped);
                reported = rest.reported;
              }
      ]

  -- If Publish fails, its error is that of the first subscriber that fails: the subscribers
  -- before that one have been called without error, the world is as its call leaves it, and the
  -- subscribers after it are not called.
  pub publish-Stopped :
      (p : SnapshotPublisher F N) (snapshot : Snapshot F) (w : N.World) (e : Error F.Float)
      → (publish F N snapshot p w).1 ≡ some e
      → Stopped p.subscribers snapshot w (publish F N snapshot p w).0 e
  unfolding publish
  publish-Stopped p snapshot w e failed = publish_to-Stopped p.subscribers snapshot w e failed

  -- The world after every subscriber has been called.
  unfoldable pub deliver : List N.Subscriber → Snapshot F → N.World → N.World
  deliver [] snapshot w = w
  deliver (s ∷ subs) snapshot w = deliver subs snapshot (N.on_snapshot s snapshot w).0

  pub publish_to-deliver :
      (subs : List N.Subscriber) (snapshot : Snapshot F) (w : N.World)
      → (publish_to F N subs snapshot w).1 ≡ none
      → (publish_to F N subs snapshot w).0 ≡ deliver subs snapshot w
  unfolding publish_to deliver
  publish_to-deliver [] snapshot w fine = refl
  publish_to-deliver (s ∷ subs) snapshot w fine =
      elim (Option-cases (N.on_snapshot s snapshot w).1) [
        | inr (message, stops) ↦ absurd (ground arith)
        | inl good ↦
            rw (good, publish_to)
              (publish_to-deliver subs snapshot _ (rw (good, publish_to) at fine))
      ]

  deliver-append :
      (subs : List N.Subscriber) (s : N.Subscriber) (snapshot : Snapshot F) (w : N.World)
      → deliver (subs ++ (s ∷ [])) snapshot w
        ≡ (N.on_snapshot s snapshot (deliver subs snapshot w)).0
  unfolding deliver
  deliver-append [] s snapshot w = refl
  deliver-append (x ∷ subs) s snapshot w = deliver-append subs s snapshot _

  -- A subscriber that Subscribe adds is called by a Publish that returns no error, last of all
  -- and after every subscriber before it has been called.
  pub publish-subscribe :
      (p : SnapshotPublisher F N) (s : N.Subscriber) (snapshot : Snapshot F) (w : N.World)
      → (publish F N snapshot (subscribe F N (some s) p).0 w).1 ≡ none
      → (publish F N snapshot (subscribe F N (some s) p).0 w).0
        ≡ (N.on_snapshot s snapshot (deliver p.subscribers snapshot w)).0
  unfolding publish subscribe
  publish-subscribe p s snapshot w fine =
      publish_to-deliver (p.subscribers ++ (s ∷ [])) snapshot w fine
      ∙ deliver-append p.subscribers s snapshot w
