-- ===== src/Bus/Broker.antt =====
-- `InMemoryEventBus` of packages/events/in_memory.py. Connecting and closing a bus that is closed
-- or connected already, and the errors of an unconnected bus, are answers of the operations.
-- `encode` stands for `json.dumps(evt.to_dict()).encode()`.
use k8s_clue.Prelude.{
  ℕ, String, ◌≡◌, refl, ◌∙◌, Bool, true, false, ◌&&◌, Option, none, some, List, [], ◌∷◌, ◌++◌, map,
  arith, append-nil, append_assoc, str_eq, Bool-cases, inl, inr, if◌then◌else◌,
}
use k8s_clue.Prelude.Rows.{select_first}
use k8s_clue.Events.{EventEnvelope}
use k8s_clue.Bus.Subjects.{subject_matches}
use k8s_clue.Bus.Subscription
use k8s_clue.Bus.Subscription.{
  StoredEvent, QueuedEvent, Subscription, EventConsumerMetrics, new_subscription, enqueue, metrics,
}

pub record Bus (D : Type 0) : Type 0 where
  pub connected : Bool
  pub closed : Bool
  pub events : List (StoredEvent D)
  pub subscriptions : List (Subscription D)

pub data Answer {ℓ} (A : Type ℓ) : Type ℓ where
  ok : A → Answer A
  runtime_error : Answer A
  lookup_error : Answer A

infixl 5 ◌>>=◌
abbrev pub ◌>>=◌ {ℓ κ} : {A : Type ℓ} {B : Type κ} → Answer A → (A → Answer B) → Answer B
ok a >>= f = f a
runtime_error >>= f = runtime_error
lookup_error >>= f = lookup_error

module _ {D : Type 0} where
  abbrev pub new_bus : Bus D
  new_bus = record { connected = false; closed = false; events = []; subscriptions = [] }

  unfoldable pub connect : Bus D → Answer (Bus D)
  connect bus = if bus.closed then runtime_error else ok (record bus { connected = true })

  -- The body of the loops: an event goes to the subscriptions whose pattern it matches.
  unfoldable pub offer : StoredEvent D → Subscription D → Subscription D
  offer stored sub = if subject_matches sub.subject stored.subject then enqueue stored sub else sub

  unfoldable pub publish_envelope : (EventEnvelope → D) → EventEnvelope → Bus D → Answer (Bus D)
  publish_envelope encode evt bus =
      let stored : StoredEvent D = record { subject = evt.subject; content = encode evt } in
      if bus.connected
      then ok (record bus {
        events = bus.events ++ stored ∷ [];
        subscriptions = map (offer stored) bus.subscriptions;
      })
      else runtime_error

  -- self._subscriptions.get((subject, durable))
  abbrev pub is_for : String → String → Subscription D → Bool
  is_for subject durable sub = str_eq sub.subject subject && str_eq sub.durable durable

  unfoldable pub find : String → String → Bus D → Option (Subscription D)
  find subject durable bus = select_first (is_for subject durable) bus.subscriptions

  -- Every event so far, offered in order.
  unfoldable pub replay : List (StoredEvent D) → Subscription D → Subscription D
  replay [] sub = sub
  replay (stored ∷ events) sub = replay events (offer stored sub)

  abbrev pub subscribe_new :
      String → String → Option (Subscription D) → Bus D → Bus D × Subscription D
  subscribe_new subject durable (some sub) bus = (bus, sub)
  subscribe_new subject durable none bus =
      let sub = replay bus.events (new_subscription subject durable) in
      (record bus { subscriptions = bus.subscriptions ++ sub ∷ [] }, sub)

  unfoldable pub subscribe : String → String → Bus D → Answer (Bus D × Subscription D)
  subscribe subject durable bus =
      if bus.connected
      then ok (subscribe_new subject durable (find subject durable bus) bus)
      else runtime_error

  abbrev pub metrics_of : Option (Subscription D) → Answer EventConsumerMetrics
  metrics_of none = lookup_error
  metrics_of (some sub) = ok (metrics sub)

  unfoldable pub consumer_metrics : String → String → Bus D → Answer EventConsumerMetrics
  consumer_metrics subject durable bus =
      if bus.connected then metrics_of (find subject durable bus) else runtime_error

  -- `unstarted` tells how many delayed tasks of a subscription have not begun.
  unfoldable pub close : (Subscription D → ℕ) → Bus D → Bus D
  close unstarted bus = if bus.closed then bus else record bus {
    connected = false;
    closed = true;
    subscriptions = map (λ sub. Subscription.close (unstarted sub) sub) bus.subscriptions;
  }

map-snoc :
    {A B : Type 0} (f : A → B) (l : List A) (a : A) → map f (l ++ a ∷ []) ≡ map f l ++ f a ∷ []
map-snoc f [] a = refl
map-snoc f (b ∷ l) a = rw (map-snoc f l a)

module _ {D : Type 0} where
  replay-append :
      (events more : List (StoredEvent D)) (sub : Subscription D)
      → replay (events ++ more) sub ≡ replay more (replay events sub)
  unfolding replay
  replay-append [] more sub = refl
  replay-append (stored ∷ events) more sub = replay-append events more (offer stored sub)

  abbrev pub stored_of : (EventEnvelope → D) → EventEnvelope → StoredEvent D
  stored_of encode evt = record { subject = evt.subject; content = encode evt }

  -- Publishing several events, one after another.
  abbrev pub publish_all : (EventEnvelope → D) → List EventEnvelope → Bus D → Answer (Bus D)
  publish_all encode [] bus = ok bus
  publish_all encode (evt ∷ evts) bus = publish_envelope encode evt bus >>= publish_all encode evts

  abbrev pub offered : List (StoredEvent D) → Bus D → Bus D
  offered stored bus = record bus {
    events = bus.events ++ stored;
    subscriptions = map (replay stored) bus.subscriptions;
  }

  map-replay-cons :
      (e : StoredEvent D) (events : List (StoredEvent D)) (subs : List (Subscription D))
      → map (replay events) (map (offer e) subs) ≡ map (replay (e ∷ events)) subs
  unfolding replay
  map-replay-cons e events [] = refl
  map-replay-cons e events (sub ∷ subs) = rw (map-replay-cons e events subs)

  map-replay-nil : (subs : List (Subscription D)) → map (replay []) subs ≡ subs
  unfolding replay
  map-replay-nil [] = refl
  map-replay-nil (sub ∷ subs) = rw (map-replay-nil subs)

  publish_envelope-connected :
      (encode : EventEnvelope → D) (evt : EventEnvelope) (bus : Bus D)
      → bus.connected ≡ true
      → publish_envelope encode evt bus
        ≡ ok (record bus {
          events = bus.events ++ stored_of encode evt ∷ [];
          subscriptions = map (offer (stored_of encode evt)) bus.subscriptions;
        })
  unfolding publish_envelope
  publish_envelope-connected encode evt bus on = simp on

  publish_all-connected :
      (encode : EventEnvelope → D) (evts : List EventEnvelope) (bus : Bus D)
      → bus.connected ≡ true
      → publish_all encode evts bus ≡ ok (offered (map (stored_of encode) evts) bus)
  publish_all-connected encode [] bus on = simp (append-nil, map-replay-nil)
  publish_all-connected encode (evt ∷ evts) bus on =
      rw (publish_envelope-connected encode evt bus on) (
        publish_all-connected encode evts
          (record bus {
            events = bus.events ++ stored_of encode evt ∷ [];
            subscriptions = map (offer (stored_of encode evt)) bus.subscriptions;
          })
          on
        ∙ simp (append_assoc, map-replay-cons))

  -- Offering an event renames no subscription.
  is_for-offer :
      (subject durable : String) (e : StoredEvent D) (sub : Subscription D)
      → is_for subject durable (offer e sub) ≡ is_for subject durable sub
  unfolding offer enqueue
  is_for-offer subject durable e sub = elim (Bool-cases (subject_matches sub.subject e.subject)) [
    | inl p ↦ elim (Bool-cases sub.closed) [ inl q ↦ simp (p, q) | inr q ↦ simp (p, q) ]
    | inr p ↦ simp p
  ]

  is_for-replay :
      (subject durable : String) (events : List (StoredEvent D)) (sub : Subscription D)
      → is_for subject durable (replay events sub) ≡ is_for subject durable sub
  unfolding replay
  is_for-replay subject durable [] sub = refl
  is_for-replay subject durable (e ∷ events) sub =
      is_for-replay subject durable events (offer e sub) ∙ is_for-offer subject durable e sub

  find-offered :
      (subject durable : String) (events : List (StoredEvent D)) (subs : List (Subscription D))
      → select_first (is_for subject durable) subs ≡ none
      → select_first (is_for subject durable) (map (replay events) subs) ≡ none
  unfolding select_first
  find-offered subject durable events [] missing = refl
  find-offered subject durable events (sub ∷ subs) missing =
      ground
        (arith, is_for-replay subject durable events sub, find-offered subject durable events subs)

  subscribe-missing :
      (subject durable : String) (bus : Bus D)
      → bus.connected ≡ true
      → find subject durable bus ≡ none
      → subscribe subject durable bus ≡ ok (subscribe_new subject durable none bus)
  unfolding subscribe
  subscribe-missing subject durable bus on missing = simp (on, missing)

  -- Subscribing first and then publishing leaves the bus that publishing first and then
  -- subscribing leaves, on a connected bus that has no subscription of that subject and durable.
  pub subscribe-publish_all :
      (encode : EventEnvelope → D) (subject durable : String) (evts : List EventEnvelope)
      (bus : Bus D)
      → bus.connected ≡ true
      → find subject durable bus ≡ none
      → (subscribe subject durable bus >>= λ r. publish_all encode evts r.0)
        ≡ (publish_all encode evts bus >>= λ b. subscribe subject durable b >>= λ r. ok r.0)
  unfolding find
  subscribe-publish_all encode subject durable evts bus on missing =
      let stored = map (stored_of encode) evts in
      rw
        (
          subscribe-missing subject durable bus on missing,
          publish_all-connected encode evts bus on,
          publish_all-connected encode evts (subscribe_new subject durable none bus).0 on,
          subscribe-missing subject durable (offered stored bus) on
              (find-offered subject durable stored bus.subscriptions missing),
        )
        (rw (map-snoc (replay stored) bus.subscriptions, replay-append bus.events stored))
