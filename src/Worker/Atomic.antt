-- ===== src/Worker/Atomic.antt =====
-- packages/runtime/worker.py: what the unit of work of a handler commits.
use k8s_clue.Prelude.{
  ℕ, String, ◌≡◌, refl, false, Option, none, some, List, arith, ap, ◌∙◌, ◌⊎◌, inl, inr,
}
use k8s_clue.Events.{EventEnvelope}
use k8s_clue.Processing.{
  EventProcessing, EventProcessingRecord, RecordStatus, stored, processing, processed, finished,
}
use k8s_clue.Processing.Claim.{claimed_row, begun, get-finish}
use k8s_clue.Outbox.{stage_events}
use k8s_clue.Worker.{
  EventHandlerSpec, Attempt, Store, HandlerResult, returns, raises, decoded, consumer_for, capture,
  emit_notice, fail, commit, handled, run_handler, after_claim, begin, process, acknowledge,
}
use k8s_clue.Worker.Ack.{row_of, begin-row, begin-begun, process-cases}

-- Nothing of the service's own state and nothing of the outbox moved.
pub record Untouched {B : Type 0} (s t : Store B) : Type 0 where
  pub business : t.business ≡ s.business
  pub outbox : t.outbox ≡ s.outbox

-- The handler's writes and events are in, and the row is PROCESSED.
pub record Committed {B : Type 0} (spec : EventHandlerSpec) (env : Attempt B) (evt : EventEnvelope)
    (s t : Store B) : Type 0 where
  pub written : B
  pub events : List EventEnvelope
  pub ran : env.handler evt s.business ≡ returns written events
  pub business : t.business ≡ written
  pub outbox : t.outbox ≡ stage_events events s.outbox
  pub row : EventProcessing
  pub found : row_of spec evt t ≡ some row
  pub closed : row.status ≡ processed

module _ {B : Type 0} (spec : EventHandlerSpec) (env : Attempt B) (evt : EventEnvelope) where
  fail-Untouched :
      (error : String) (attempts : ℕ) (s : Store B)
      → Untouched s (fail spec env evt error attempts s).0
  unfolding fail capture emit_notice
  fail-Untouched error attempts s = ground arith

  module _ (attempts : ℕ) (s : Store B) (row : EventProcessing)
      (found : row_of spec evt s ≡ some row) where
    commit-Committed :
        (business : B) (events : List EventEnvelope)
        → env.handler evt s.business ≡ returns business events
        → Committed spec env evt s (commit spec env evt attempts business events none s).0
    commit-Committed business events ran = record {
      written = business;
      events = events;
      ran = ran;
      business = refl;
      outbox = refl;
      row = finished env.finished_at (some env.elapsed_ms) row;
      found = rw get-finish (rw found);
      closed = unfold finished in refl;
    }

    commit-outcome :
        (business : B) (events : List EventEnvelope) (error : Option String)
        → env.handler evt s.business ≡ returns business events
        → let t = (commit spec env evt attempts business events error s).0 in
          Untouched s t ⊎ Committed spec env evt s t
    commit-outcome business events (some error) ran = inl (fail-Untouched error attempts s)
    commit-outcome business events none ran = inr (commit-Committed business events ran)

    handled-outcome :
        (result : HandlerResult B)
        → env.handler evt s.business ≡ result
        → let t = (handled spec env evt attempts result s).0 in
          Untouched s t ⊎ Committed spec env evt s t
    handled-outcome (raises error) ran = inl (fail-Untouched error attempts s)
    handled-outcome (returns business events) ran =
        commit-outcome business events env.commit_error ran

    run_handler-outcome :
        let t = (run_handler spec env evt attempts s).0 in
        Untouched s t ⊎ Committed spec env evt s t
    unfolding run_handler
    run_handler-outcome = handled-outcome (env.handler evt s.business) refl

  after_claim-outcome :
      (p : EventProcessingRecord) (s : Store B) (row : EventProcessing)
      → row_of spec evt s ≡ some row
      → let t = (after_claim spec env evt p s).0 in Untouched s t ⊎ Committed spec env evt s t
  unfolding after_claim
  after_claim-outcome p s row found = by_status p.status p.attempts
    where
      by_status :
          (status : RecordStatus) (attempts : ℕ)
          → let t =
              (after_claim spec env evt (record { status = status; attempts = attempts }) s).0 in
            Untouched s t ⊎ Committed spec env evt s t
      by_status (stored processing) attempts = run_handler-outcome attempts s row found
      by_status (stored _) attempts = inl (record { business = refl; outbox = refl })
      by_status _ attempts = inl (record { business = refl; outbox = refl })

  -- A claim moves neither the service's own tables nor the outbox.
  business-begin : (s : Store B) → (begin spec env evt s).0.business ≡ s.business
  unfolding begin
  business-begin s = refl

  Committed-begin :
      (s t : Store B)
      → Committed spec env evt (begin spec env evt s).0 t
      → Committed spec env evt s t
  unfolding begin
  Committed-begin s t c = record {
    written = c.written;
    events = c.events;
    ran = c.ran;
    business = c.business;
    outbox = c.outbox;
    row = c.row;
    found = c.found;
    closed = c.closed;
  }

  from_begin :
      (s t : Store B)
      → Untouched (begin spec env evt s).0 t ⊎ Committed spec env evt (begin spec env evt s).0 t
      → Untouched s t ⊎ Committed spec env evt s t
  unfolding begin
  from_begin s t (inl u) = inl (record { business = u.business; outbox = u.outbox })
  from_begin s t (inr c) = inr (Committed-begin s t c)

  -- Handling a message either leaves the service's own tables and the outbox as they were, or the
  -- handler returned, exactly its writes and its events are in, and the ledger's row of the event
  -- is PROCESSED. There is no outcome in between, whatever raises.
  pub process-atomic :
      (s : Store B)
      → let t = (process spec env (decoded evt) s).0 in Untouched s t ⊎ Committed spec env evt s t
  process-atomic s = elim (process-cases spec env evt s) [
    | inl e ↦ rw e (inl (record { business = refl; outbox = refl }))
    | inr e ↦ rw e (
        from_begin s _ (
          after_claim-outcome (begin spec env evt s).1 (begin spec env evt s).0
            (claimed_row spec.processing_stale_seconds env.claimed_at evt
              (consumer_for spec evt.subject) (row_of spec evt s))
            (begin-row spec env evt s)))
  ]

  process-commit :
      (s : Store B) (business : B) (events : List EventEnvelope)
      → env.begin_fails ≡ false
      → (begun spec.processing_stale_seconds env.claimed_at (row_of spec evt s)).status
        ≡ stored processing
      → env.handler evt s.business ≡ returns business events
      → env.commit_error ≡ none
      → process spec env (decoded evt) s
        ≡ commit spec env evt
            (begin spec env evt s).1.attempts
            business
            events
            none
            (begin spec env evt s).0
  unfolding process after_claim run_handler
  process-commit s business events up won ran fine =
      ground (arith, begin-begun spec env evt s, business-begin s)

  -- If the claim is won, the handler returns and the unit of work commits, then exactly the
  -- handler's writes and events are in, the event's row is PROCESSED, and the message is
  -- acknowledged (unless the acknowledgement itself raises).
  pub process-commits :
      (s : Store B) (business : B) (events : List EventEnvelope)
      → env.begin_fails ≡ false
      → (begun spec.processing_stale_seconds env.claimed_at (row_of spec evt s)).status
        ≡ stored processing
      → env.handler evt s.business ≡ returns business events
      → env.commit_error ≡ none
      → Committed spec env evt s (process spec env (decoded evt) s).0
        × ((process spec env (decoded evt) s).1 ≡ acknowledge env)
  process-commits s business events up won ran fine =
      rw (process-commit s business events up won ran fine) (
        Committed-begin s _ (
            commit-Committed (begin spec env evt s).1.attempts (begin spec env evt s).0
              (claimed_row spec.processing_stale_seconds env.claimed_at evt
                (consumer_for spec evt.subject) (row_of spec evt s))
              (begin-row spec env evt s) business events
              (ap (env.handler evt) (business-begin s) ∙ ran)),
        refl,
      )
