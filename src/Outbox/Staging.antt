-- ===== src/Outbox/Staging.antt =====
-- packages/storage/repositories/outbox.py: what `stage_events` adds.
use k8s_clue.Prelude.{
  ℕ, String, ◌≡◌, refl, sym, ◌∙◌, ap, Bool, true, false, none, some, List, [], ◌∷◌, ◌++◌, arith,
  append-nil, append_assoc, any, any-append, All, All-append, eq_refl, Bool-cases, inl, inr,
}
use k8s_clue.Events.{EventEnvelope}
use k8s_clue.Outbox.{OutboxModel, Outbox, holds, is_unsent, stage_event, stage_events}

abbrev pub holds_in : String → List OutboxModel → Bool
holds_in id rows = any (holds id) rows

abbrev pub new_row : ℕ → EventEnvelope → OutboxModel
new_row id evt = record {
  id = id;
  event = evt;
  lease_id = none;
  leased_until = none;
  sent_at = none;
}

module _ (t : Outbox) (evt : EventEnvelope) where
  pub stage_event-present : holds_in evt.event_id t.rows ≡ true → (stage_event t evt).rows ≡ t.rows
  unfolding stage_event
  stage_event-present h = rw h

  pub stage_event-new :
      holds_in evt.event_id t.rows ≡ false
      → (stage_event t evt).rows ≡ t.rows ++ new_row t.next_id evt ∷ []
  unfolding stage_event
  stage_event-new h = rw h

holds_in-append :
    (id : String) (rows more : List OutboxModel)
    → holds_in id rows ≡ true
    → holds_in id (rows ++ more) ≡ true
holds_in-append id rows more h = ground (arith, any-append (holds id) rows more)

-- A row that waits to be published and that nobody has leased.
abbrev pub is_waiting : OutboxModel → Bool
is_waiting row = elim row.lease_id [ none ↦ is_unsent row | some l ↦ false ]

-- What the rows of a table became by staging.
pub record Staged (events : List EventEnvelope) (rows rows' : List OutboxModel) : Type 0 where
  pub new : List OutboxModel
  pub added : rows' ≡ rows ++ new
  pub waiting : All (λ r. is_waiting r ≡ true) new
  pub held : All (λ e. holds_in e.event_id rows' ≡ true) events

stage_event-grows :
    (t : Outbox) (evt : EventEnvelope) → Staged (evt ∷ []) t.rows (stage_event t evt).rows
stage_event-grows t evt = elim (Bool-cases (holds_in evt.event_id t.rows)) [
  | inl h ↦ record {
    new = [];
    added = stage_event-present t evt h ∙ sym (append-nil t.rows);
    waiting = tt;
    held = (rw (stage_event-present t evt h) h, tt);
  }
  | inr h ↦ record {
    new = new_row t.next_id evt ∷ [];
    added = stage_event-new t evt h;
    waiting = (refl, tt);
    held = (
      rw (stage_event-new t evt h) (
          ground (
            arith,
            any-append (holds evt.event_id) t.rows (new_row t.next_id evt ∷ []),
            eq_refl evt.event_id,
          )),
      tt,
    );
  }
]

-- Staging keeps every row as it was, in its place, and puts behind them only rows that wait to be
-- published and are leased by nobody; after it the table has a row of every event of the batch.
pub stage_events_lem :
    (events : List EventEnvelope) (t : Outbox) → Staged events t.rows (stage_events events t).rows
unfolding stage_events
stage_events_lem [] t = record {
  new = [];
  added = sym (append-nil t.rows);
  waiting = tt;
  held = tt;
}
stage_events_lem (evt ∷ events) t =
    let one = stage_event-grows t evt in
    let rest = stage_events_lem events (stage_event t evt) in
    record {
      new = one.new ++ rest.new;
      added =
          rest.added
          ∙ ap (λ (l : List OutboxModel). l ++ rest.new) one.added
          ∙ append_assoc t.rows one.new rest.new;
      waiting =
          All-append (λ (r : OutboxModel). is_waiting r ≡ true) one.new rest.new one.waiting
            rest.waiting;
      held = (
        rw rest.added (holds_in-append evt.event_id (stage_event t evt).rows rest.new one.held.0),
        rest.held,
      );
    }

stage_events-present :
    (events : List EventEnvelope) (t : Outbox) (rows : List OutboxModel)
    → t.rows ≡ rows
    → All (λ e. holds_in e.event_id rows ≡ true) events
    → (stage_events events t).rows ≡ rows
unfolding stage_events
stage_events-present [] t rows same held = same
stage_events-present (evt ∷ events) t rows same held =
    stage_events-present events (stage_event t evt) rows
      (stage_event-present t evt (rw same held.0) ∙ same) held.1

-- Staging a batch a second time, as a retried transaction does, leaves the rows as they are.
pub stage_events_idem :
    (events : List EventEnvelope) (t : Outbox)
    → (stage_events events (stage_events events t)).rows ≡ (stage_events events t).rows
stage_events_idem events t =
    stage_events-present events (stage_events events t) (stage_events events t).rows refl
      (stage_events_lem events t).held
