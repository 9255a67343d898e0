-- ===== src/Bus/Subscription.antt =====
-- `_InMemoryEventSubscription` and `_InMemoryEventMessage` of packages/events/in_memory.py.
-- The queue and the delayed redeliveries are lists, the oldest first; `_in_flight` is a list of
-- pairs by delivery id. A delayed task that has not fired is a member of `scheduled`, whose length
-- is the source's `_scheduled`. A fetch from an empty queue is `timed_out`: the source waits, and
-- raises TimeoutError if nothing comes. A delay is a ℕ, so the test for negative ones is left out.
use k8s_clue.Prelude.{
  ◌-◌, ℕ, suc, ◌+◌, String, Bool, true, false, Option, none, some, List, [], ◌∷◌, ◌++◌, length,
  take, drop, ◌==◌, if◌then◌else◌,
}

pub record StoredEvent (D : Type 0) : Type 0 where
  pub subject : String
  pub content : D

pub record QueuedEvent (D : Type 0) : Type 0 where
  pub stored : StoredEvent D
  pub redelivery : Bool

pub record Subscription (D : Type 0) : Type 0 where
  pub subject : String
  pub durable : String
  pub queue : List (QueuedEvent D)
  pub in_flight : List (ℕ × QueuedEvent D)
  pub next_delivery_id : ℕ
  pub redelivered : ℕ
  pub scheduled : List (QueuedEvent D)
  pub closed : Bool

pub record Message (D : Type 0) : Type 0 where
  pub content : D
  pub delivery_id : ℕ
  pub settled : Bool

pub record EventConsumerMetrics : Type 0 where
  pub pending : ℕ
  pub ack_pending : ℕ
  pub redelivered : ℕ

pub data Fetched (D : Type 0) : Type 0 where
  closed_error batch_error timed_out : Fetched D
  messages : List (Message D) → Fetched D

module _ {D : Type 0} where
  unfoldable pub new_subscription : String → String → Subscription D
  new_subscription subject durable = record {
    subject = subject;
    durable = durable;
    queue = [];
    in_flight = [];
    next_delivery_id = 1;
    redelivered = 0;
    scheduled = [];
    closed = false;
  }

  unfoldable pub enqueue : StoredEvent D → Subscription D → Subscription D
  enqueue stored sub =
      if sub.closed
      then sub
      else record sub { queue = sub.queue ++ record { stored = stored; redelivery = false } ∷ [] }

  -- `_deliver`
  unfoldable pub deliver : QueuedEvent D → Subscription D → Subscription D × Message D
  deliver queued sub = (
    record sub {
      next_delivery_id = suc sub.next_delivery_id;
      in_flight = sub.in_flight ++ (sub.next_delivery_id, queued) ∷ [];
      redelivered = if queued.redelivery then suc sub.redelivered else sub.redelivered;
    },
    record { content = queued.stored.content; delivery_id = sub.next_delivery_id; settled = false },
  )

  unfoldable pub deliver_all :
      List (QueuedEvent D) → Subscription D → Subscription D × List (Message D)
  unfolding deliver
  deliver_all [] sub = (sub, [])
  deliver_all (queued ∷ rest) sub =
      let (sub', message) = deliver queued sub in
      let (sub'', more) = deliver_all rest sub' in (sub'', message ∷ more)

  abbrev pub fetch_open : ℕ → List (QueuedEvent D) → Subscription D → Subscription D × Fetched D
  fetch_open batch [] sub = (sub, timed_out)
  fetch_open batch (first ∷ rest) sub =
      let (sub', got) =
        deliver_all (take batch (first ∷ rest))
          (record sub { queue = drop batch (first ∷ rest) }) in
      (sub', messages got)

  unfoldable pub fetch : ℕ → Subscription D → Subscription D × Fetched D
  unfolding deliver_all
  fetch batch sub =
      if sub.closed
      then (sub, closed_error)
      else if batch == 0
      then (sub, batch_error)
      else fetch_open batch sub.queue sub

  -- self._in_flight.pop(delivery_id, None)
  unfoldable pub pop :
      ℕ → List (ℕ × QueuedEvent D) → Option (QueuedEvent D) × List (ℕ × QueuedEvent D)
  pop id [] = (none, [])
  pop id ((key, queued) ∷ rest) =
      let (found, rest') = pop id rest in
      if key == id then (some queued, rest) else (found, (key, queued) ∷ rest')

  unfoldable pub ack : ℕ → Subscription D → Subscription D
  unfolding pop
  ack id sub = record sub { in_flight = (pop id sub.in_flight).1 }

  abbrev pub put_back : ℕ → Option (QueuedEvent D) → Bool → Subscription D → Subscription D
  put_back delay none closed sub = sub
  put_back delay (some queued) true sub = sub
  put_back delay (some queued) false sub =
      let again : QueuedEvent D = record { stored = queued.stored; redelivery = true } in
      if delay == 0
      then record sub { queue = sub.queue ++ again ∷ [] }
      else record sub { scheduled = sub.scheduled ++ again ∷ [] }

  unfoldable pub nak : ℕ → ℕ → Subscription D → Subscription D
  unfolding pop
  nak id delay sub =
      let (found, rest) = pop id sub.in_flight in
      put_back delay found sub.closed (record sub { in_flight = rest })

  -- `_InMemoryEventMessage.ack`: a settled message does nothing
  unfoldable pub message_ack : Message D → Subscription D → Message D × Subscription D
  message_ack message sub =
      if message.settled
      then (message, sub)
      else (record message { settled = true }, ack message.delivery_id sub)

  unfoldable pub message_nak : ℕ → Message D → Subscription D → Message D × Subscription D
  message_nak delay message sub =
      if message.settled
      then (message, sub)
      else (record message { settled = true }, nak message.delivery_id delay sub)

  abbrev pub fired : List (QueuedEvent D) → List (QueuedEvent D) → Subscription D → Subscription D
  fired before [] sub = sub
  fired before (queued ∷ after) sub =
      if sub.closed
      then record sub { scheduled = before ++ after }
      else record sub { scheduled = before ++ after; queue = sub.queue ++ queued ∷ [] }

  -- The end of `_requeue_after` for the i-th delayed task.
  unfoldable pub requeue : ℕ → Subscription D → Subscription D
  requeue i sub = fired (take i sub.scheduled) (drop i sub.scheduled) sub

  -- Closing cancels the delayed tasks. One that has begun to sleep counts itself out; the newest
  -- `unstarted` ones never run, so they stay in the count and only there.
  unfoldable pub close : ℕ → Subscription D → Subscription D
  close unstarted sub = record sub {
    closed = true;
    scheduled = drop (length sub.scheduled - unstarted) sub.scheduled;
  }

  unfoldable pub metrics : Subscription D → EventConsumerMetrics
  metrics sub = record {
    pending = length sub.queue + length sub.scheduled;
    ack_pending = length sub.in_flight;
    redelivered = sub.redelivered;
  }
