-- ===== src/Worker/Ack.antt =====
-- packages/runtime/worker.py: what the acknowledgement of a decoded message says about its ledger row.
use k8s_clue.Prelude.{
  ℕ, String, ◌≡◌, refl, Bool, true, false, Option, none, some, List, arith, ◌⊎◌, inl, inr,
  if◌then◌else◌,
}
use k8s_clue.Events.{EventEnvelope}
use k8s_clue.Processing.{
  EventProcessing, EventProcessingStatus, EventProcessingRecord, stored, processing, retrying,
  processed, dead_lettered, is_terminal, finished, failed, first_claim, reclaim,
  get_event_processing, begin_event_processing,
}
use k8s_clue.Processing.Claim.{claimed_row, begun, get-claim, begin_lem, get-finish, get-fail}
use k8s_clue.Worker.{
  EventHandlerSpec, Attempt, Store, HandlerResult, returns, raises, commit, handled, ack, raised,
  decoded, consumer_for, capture, emit_notice, fail, run_handler, after_claim, begin, process,
}

-- The row is there and closed, as PROCESSED or DEAD_LETTERED.
abbrev pub is_closed : Option EventProcessing → Bool
is_closed none = false
is_closed (some row) = is_terminal row.status

-- The ledger's row of an event under the worker's name.
abbrev pub row_of :
    {B : Type 0} → EventHandlerSpec → EventEnvelope → Store B → Option EventProcessing
row_of spec evt s = get_event_processing evt.event_id (consumer_for spec evt.subject) s.ledger.rows

module _ {B : Type 0} (spec : EventHandlerSpec) (env : Attempt B) where
  pub rows-capture :
      (evt : EventEnvelope) (consumer error : String) (attempts : ℕ) (s : Store B)
      → (capture env evt consumer error attempts s).0.ledger.rows ≡ s.ledger.rows
  unfolding capture emit_notice
  rows-capture evt consumer error attempts s = ground arith

  fail-ack :
      (evt : EventEnvelope) (error : String) (attempts : ℕ) (s : Store B) (row : EventProcessing)
      → row_of spec evt s ≡ some row
      → (fail spec env evt error attempts s).1 ≡ ack
      → is_closed (row_of spec evt (fail spec env evt error attempts s).0) ≡ true
  unfolding fail failed
  fail-ack evt error attempts s row e h = ground (
    arith,
    rows-capture evt (consumer_for spec evt.subject) error attempts s,
    get-fail env.closed_at evt (consumer_for spec evt.subject) (some env.elapsed_ms) error
        dead_lettered s.ledger.rows,
  )

  module _ (evt : EventEnvelope) (attempts : ℕ) (s : Store B) (row : EventProcessing)
      (found : row_of spec evt s ≡ some row) where
    commit-ack :
        (business : B) (events : List EventEnvelope) (error : Option String)
        → (commit spec env evt attempts business events error s).1 ≡ ack
        → is_closed (row_of spec evt (commit spec env evt attempts business events error s).0)
          ≡ true
    unfolding finished
    commit-ack business events (some error) h = fail-ack evt error attempts s row found h
    commit-ack business events none h = ground (
      arith,
      get-finish env.finished_at evt (consumer_for spec evt.subject) (some env.elapsed_ms)
          s.ledger.rows,
    )

    handled-ack :
        (result : HandlerResult B)
        → (handled spec env evt attempts result s).1 ≡ ack
        → is_closed (row_of spec evt (handled spec env evt attempts result s).0) ≡ true
    handled-ack (raises error) h = fail-ack evt error attempts s row found h
    handled-ack (returns business events) h = commit-ack business events env.commit_error h

    run_handler-ack :
        (run_handler spec env evt attempts s).1 ≡ ack
        → is_closed (row_of spec evt (run_handler spec env evt attempts s).0) ≡ true
    unfolding run_handler
    run_handler-ack h = handled-ack (env.handler evt s.business) h

  -- The status that a claim reports as stored is the status of the row that it leaves.
  begun-status :
      (stale now : ℕ) (evt : EventEnvelope) (consumer : String) (o : Option EventProcessing)
      (status : EventProcessingStatus)
      → (begun stale now o).status ≡ stored status
      → (claimed_row stale now evt consumer o).status ≡ status
  unfolding first_claim reclaim
  begun-status stale now evt consumer none status h = ground arith
  begun-status stale now evt consumer (some row) status h = ground arith

  pub begin-row :
      (evt : EventEnvelope) (s : Store B)
      → row_of spec evt (begin spec env evt s).0
        ≡ some (
            claimed_row spec.processing_stale_seconds env.claimed_at evt
              (consumer_for spec evt.subject)
              (row_of spec evt s))
  unfolding begin begin_event_processing
  begin-row evt s =
      get-claim spec.processing_stale_seconds env.claimed_at evt (consumer_for spec evt.subject)
        s.ledger.rows

  pub begin-begun :
      (evt : EventEnvelope) (s : Store B)
      → (begin spec env evt s).1
        ≡ begun spec.processing_stale_seconds env.claimed_at (row_of spec evt s)
  unfolding begin
  begin-begun evt s =
      begin_lem spec.processing_stale_seconds env.claimed_at evt (consumer_for spec evt.subject)
        s.ledger.rows

  after_claim-ack :
      (evt : EventEnvelope) (processing : EventProcessingRecord) (s : Store B)
      (row : EventProcessing)
      → row_of spec evt s ≡ some row
      → ((status : EventProcessingStatus) → processing.status ≡ stored status → row.status ≡ status)
      → (after_claim spec env evt processing s).1 ≡ ack
      → is_closed (row_of spec evt (after_claim spec env evt processing s).0) ≡ true
  unfolding after_claim
  after_claim-ack evt p s row e same h = ground (
    arith,
    run_handler-ack evt p.attempts s row e,
    same processing,
    same processed,
    same retrying,
    same dead_lettered,
  )

  -- Either the claim raised, or the message goes on behind it.
  pub process-cases :
      (evt : EventEnvelope) (s : Store B)
      → (process spec env (decoded evt) s ≡ (s, raised))
        ⊎ (process spec env (decoded evt) s
            ≡ after_claim spec env evt (begin spec env evt s).1 (begin spec env evt s).0)
  unfolding process
  process-cases evt s = by_failure env.begin_fails
    where
      by_failure :
          (fails : Bool)
          → ((if fails
                then (s, raised)
                else after_claim spec env evt (begin spec env evt s).1 (begin spec env evt s).0)
              ≡ (s, raised))
            ⊎ ((if fails
                  then (s, raised)
                  else after_claim spec env evt (begin spec env evt s).1 (begin spec env evt s).0)
                ≡ after_claim spec env evt (begin spec env evt s).1 (begin spec env evt s).0)
      by_failure true = inl refl
      by_failure false = inr refl

  begun-ack :
      (evt : EventEnvelope) (s : Store B)
      → let (s', p) = begin spec env evt s in
        (after_claim spec env evt p s').1 ≡ ack
        → is_closed (row_of spec evt (after_claim spec env evt p s').0) ≡ true
  begun-ack evt s =
      let (s', p) = begin spec env evt s in
      after_claim-ack evt p s'
        (claimed_row spec.processing_stale_seconds env.claimed_at evt
          (consumer_for spec evt.subject) (row_of spec evt s))
        (begin-row evt s)
        (λ status q.
          begun-status spec.processing_stale_seconds env.claimed_at evt
            (consumer_for spec evt.subject) (row_of spec evt s) status (rw begin-begun at q))

  -- If `process` acknowledges a decoded message, then the ledger's row of its event, under the
  -- worker's consumer name, is PROCESSED or DEAD_LETTERED: no event leaves the broker while its
  -- handling is still open, whatever the handler, the database and the broker did.
  pub process-ack_closed :
      (evt : EventEnvelope) (s : Store B)
      → (process spec env (decoded evt) s).1 ≡ ack
      → is_closed (row_of spec evt (process spec env (decoded evt) s).0) ≡ true
  unfolding process
  process-ack_closed evt s h = ground (arith, begun-ack evt s)
