-- ===== src/Bus/Conservation.antt =====
-- packages/events/in_memory.py: the messages that a subscription holds over its operations.
use k8s_clue.Prelude.{
  ℕ, ◌+◌, String, ◌≡◌, refl, true, false, Option, none, some, List, [], ◌∷◌, arith, ap, ◌∙◌, length,
  take, drop, length-append, length-take-drop,
}
use k8s_clue.Bus.Subscription.{
  StoredEvent, QueuedEvent, Subscription, new_subscription, enqueue, deliver, deliver_all,
  fetch_open, fetch, pop, ack, put_back, nak, fired, requeue, metrics,
}

module _ {D : Type 0} where
  -- Messages that the subscription has not got rid of.
  abbrev pub held : Subscription D → ℕ
  held sub = (metrics sub).pending + (metrics sub).ack_pending

  -- One acknowledgement settles a message that is in flight, and nothing else.
  abbrev pub settles : ℕ → Subscription D → ℕ
  settles id sub = elim (pop id sub.in_flight).0 [ none ↦ 0 | some queued ↦ 1 ]

  held-enqueue :
      (stored : StoredEvent D) (sub : Subscription D)
      → sub.closed ≡ false
      → held (enqueue stored sub) ≡ held sub + 1
  unfolding enqueue metrics
  held-enqueue stored sub o =
      ground (arith, length-append sub.queue (record { stored = stored; redelivery = false } ∷ []))

  deliver_all-counts :
      (queued : List (QueuedEvent D)) (sub : Subscription D)
      → (length (deliver_all queued sub).0.in_flight ≡ length sub.in_flight + length queued)
        × ((deliver_all queued sub).0.queue ≡ sub.queue)
        × ((deliver_all queued sub).0.scheduled ≡ sub.scheduled)
        × ((deliver_all queued sub).0.closed ≡ sub.closed)
  unfolding deliver_all
  deliver_all-counts [] sub = (omega arith, refl, refl, refl)
  deliver_all-counts (q ∷ queued) sub =
      let ih = deliver_all-counts queued (deliver q sub).0 in
      (
        omega (arith, ih.0, length-append sub.in_flight ((sub.next_delivery_id, q) ∷ [])),
        ih.1,
        ih.2,
        ih.3,
      )

  fetch_open-held :
      (batch : ℕ) (queue : List (QueuedEvent D)) (sub : Subscription D)
      → sub.queue ≡ queue
      → (held (fetch_open batch queue sub).0 ≡ held sub)
        × ((fetch_open batch queue sub).0.closed ≡ sub.closed)
  unfolding metrics
  fetch_open-held batch [] sub e = (refl, refl)
  fetch_open-held batch (first ∷ rest) sub e =
      let (n, q, s, c) =
        deliver_all-counts (take batch (first ∷ rest))
          (record sub { queue = drop batch (first ∷ rest) }) in
      (rw (q, s) (omega (arith, n, ap length e, length-take-drop batch (first ∷ rest))), c)

  fetch-held :
      (batch : ℕ) (sub : Subscription D)
      → (held (fetch batch sub).0 ≡ held sub) × ((fetch batch sub).0.closed ≡ sub.closed)
  unfolding fetch
  fetch-held batch sub = ground (arith, fetch_open-held batch sub.queue sub refl)

  pop-length :
      (id : ℕ) (flight : List (ℕ × QueuedEvent D))
      → length (pop id flight).1 + (elim (pop id flight).0 [ none ↦ 0 | some q ↦ 1 ])
        ≡ length flight
  unfolding pop
  pop-length id [] = refl
  pop-length id ((key, queued) ∷ rest) = ground (arith, pop-length id rest)

  held-ack :
      (id : ℕ) (sub : Subscription D)
      → (held (ack id sub) + settles id sub ≡ held sub) × ((ack id sub).closed ≡ sub.closed)
  unfolding ack metrics
  held-ack id sub = (omega (arith, pop-length id sub.in_flight), refl)

  held-put_back :
      (delay : ℕ) (found : Option (QueuedEvent D)) (sub : Subscription D)
      → (held (put_back delay found false sub) ≡ held sub + (elim found [ none ↦ 0 | some q ↦ 1 ]))
        × ((put_back delay found false sub).closed ≡ sub.closed)
  unfolding metrics
  held-put_back delay none sub = (omega arith, refl)
  held-put_back delay (some queued) sub =
      let again : QueuedEvent D = record { stored = queued.stored; redelivery = true } in
      ground (arith, length-append sub.queue (again ∷ []), length-append sub.scheduled (again ∷ []))

  held-nak :
      (id delay : ℕ) (sub : Subscription D)
      → sub.closed ≡ false
      → (held (nak id delay sub) ≡ held sub) × ((nak id delay sub).closed ≡ false)
  unfolding nak metrics
  held-nak id delay sub o = ground (
    arith,
    held-put_back delay (pop id sub.in_flight).0
        (record sub { in_flight = (pop id sub.in_flight).1 }),
    pop-length id sub.in_flight,
  )

  held-fired :
      (before after : List (QueuedEvent D)) (sub : Subscription D)
      → sub.closed ≡ false
      → length before + length after ≡ length sub.scheduled
      → (held (fired before after sub) ≡ held sub) × ((fired before after sub).closed ≡ false)
  unfolding metrics
  held-fired before [] sub o e = (refl, o)
  held-fired before (queued ∷ after) sub o e =
      ground (arith, length-append sub.queue (queued ∷ []), length-append before after)

  held-requeue :
      (i : ℕ) (sub : Subscription D)
      → sub.closed ≡ false
      → (held (requeue i sub) ≡ held sub) × ((requeue i sub).closed ≡ false)
  unfolding requeue metrics
  held-requeue i sub o =
      held-fired (take i sub.scheduled) (drop i sub.scheduled) sub o
        (length-take-drop i sub.scheduled)

-- What happens to an open subscription.
pub data Op (D : Type 0) : Type 0 where
  enter : StoredEvent D → Op D
  pull : ℕ → Op D
  settle : ℕ → Op D
  return : (id delay : ℕ) → Op D
  fire : ℕ → Op D

-- The subscription, and how many messages entered it and were acknowledged so far.
pub record Tally (D : Type 0) : Type 0 where
  pub sub : Subscription D
  pub entered : ℕ
  pub acked : ℕ

module _ {D : Type 0} where
  abbrev pub step : Op D → Tally D → Tally D
  step (enter stored) t = record t { sub = enqueue stored t.sub; entered = t.entered + 1 }
  step (pull batch) t = record t { sub = (fetch batch t.sub).0 }
  step (settle id) t = record t { sub = ack id t.sub; acked = t.acked + settles id t.sub }
  step (return id delay) t = record t { sub = nak id delay t.sub }
  step (fire i) t = record t { sub = requeue i t.sub }

  abbrev pub run : List (Op D) → Tally D → Tally D
  run [] t = t
  run (op ∷ ops) t = run ops (step op t)

  pub record IsBalanced (t : Tally D) : Type 0 where
    pub is_open : t.sub.closed ≡ false
    pub balance : held t.sub + t.acked ≡ t.entered

  closed-enqueue :
      (stored : StoredEvent D) (sub : Subscription D) → (enqueue stored sub).closed ≡ sub.closed
  unfolding enqueue
  closed-enqueue stored sub = ground arith

  step-IsBalanced : (op : Op D) (t : Tally D) → IsBalanced t → IsBalanced (step op t)
  step-IsBalanced (enter stored) t b = record {
    is_open = closed-enqueue stored t.sub ∙ b.is_open;
    balance = omega (arith, held-enqueue stored t.sub b.is_open, b.balance);
  }
  step-IsBalanced (pull batch) t b =
      let (h, c) = fetch-held batch t.sub in
      record { is_open = c ∙ b.is_open; balance = omega (arith, h, b.balance) }
  step-IsBalanced (settle id) t b =
      let (h, c) = held-ack id t.sub in
      record { is_open = c ∙ b.is_open; balance = omega (arith, h, b.balance) }
  step-IsBalanced (return id delay) t b =
      let (h, c) = held-nak id delay t.sub b.is_open in
      record { is_open = c; balance = omega (arith, h, b.balance) }
  step-IsBalanced (fire i) t b =
      let (h, c) = held-requeue i t.sub b.is_open in
      record { is_open = c; balance = omega (arith, h, b.balance) }

  run-IsBalanced : (ops : List (Op D)) (t : Tally D) → IsBalanced t → IsBalanced (run ops t)
  run-IsBalanced [] t b = b
  run-IsBalanced (op ∷ ops) t b = run-IsBalanced ops (step op t) (step-IsBalanced op t b)

  abbrev pub opened : String → String → Tally D
  opened subject durable = record { sub = new_subscription subject durable; entered = 0; acked = 0 }

  opened-IsBalanced : (subject durable : String) → IsBalanced (opened subject durable)
  unfolding new_subscription metrics
  opened-IsBalanced subject durable = record { is_open = refl; balance = omega arith }

  -- After any sequence of arrivals, fetches, acknowledgements, refusals and fired delays on a new
  -- subscription, its metrics account for every message: pending ones, those that wait for their
  -- acknowledgement and the acknowledged ones add up to those that entered.
  pub run-conserves :
      (subject durable : String) (ops : List (Op D))
      → let t = run ops (opened subject durable) in
        (metrics t.sub).pending + (metrics t.sub).ack_pending + t.acked ≡ t.entered
  run-conserves subject durable ops =
      (run-IsBalanced ops (opened subject durable) (opened-IsBalanced subject durable)).balance
