-- ===== src/Processing/Exclusion.antt =====
-- packages/storage/repositories/event.py: several workers on one table.
use k8s_clue.Prelude.{ℕ, ◌+◌, ◌≤◌, String, ◌≡◌, false, Option, some, List, [], ◌∷◌, arith, ◌∙◌, All}
use k8s_clue.Events.{EventEnvelope}
use k8s_clue.Processing.{
  EventProcessingStatus, processing, EventProcessing, stored, claim_blocked, claimable, seconds,
  claim_event_processing, get_event_processing, begin_event_processing, finish_event_processing,
  fail_event_processing,
}
use k8s_clue.Processing.Claim.{
  same_key, key-cases, claimed_row, get-claim_other, get-claim_refused, get-begin, won-row,
  begin_lem, get-finish_other, get-fail_other,
}

-- One statement of one worker.
pub data Act : Type 0 where
  claim : ℕ → EventEnvelope → String → Act
  finish : ℕ → EventEnvelope → String → Option ℕ → Act
  fail : ℕ → EventEnvelope → String → String → EventProcessingStatus → Option ℕ → Act

abbrev pub step : ℕ → Act → List EventProcessing → List EventProcessing
step stale (claim now evt consumer) rows = (claim_event_processing stale now evt consumer rows).0
step stale (finish now evt consumer ms) rows = finish_event_processing now evt consumer ms rows
step stale (fail now evt consumer error status ms) rows =
    fail_event_processing now evt consumer error status ms rows

-- Any interleaving of the workers' statements.
abbrev pub run : ℕ → List Act → List EventProcessing → List EventProcessing
run stale [] rows = rows
run stale (act ∷ acts) rows = run stale acts (step stale act rows)

-- Claims by anybody up to a time, and closings of other keys only.
abbrev pub LeavesOpen : String → String → ℕ → Act → Type 0
LeavesOpen e c until (claim now evt consumer) = now ≤ until
LeavesOpen e c until (finish now evt consumer ms) = same_key e c evt.event_id consumer ≡ false
LeavesOpen e c until (fail now evt consumer error status ms) =
    same_key e c evt.event_id consumer ≡ false

-- A processing row is not claimable inside its window.
pub processing-not_claimable :
    (stale now : ℕ) (row : EventProcessing)
    → row.status ≡ processing
    → now ≤ row.updated_at + seconds stale
    → claimable stale now row ≡ false
unfolding claimable
processing-not_claimable stale now row s h = ground arith

module _ (stale : ℕ) (e c : String) (row : EventProcessing) (held : row.status ≡ processing) where
  step-held :
      (act : Act) (rows : List EventProcessing)
      → LeavesOpen e c (row.updated_at + seconds stale) act
      → get_event_processing e c rows ≡ some row
      → get_event_processing e c (step stale act rows) ≡ some row
  step-held (claim now evt consumer) rows quiet found =
      key-cases
        (λ x y.
          get_event_processing x y rows ≡ some row
          → get_event_processing x y (claim_event_processing stale now evt consumer rows).0
            ≡ some row)
        e c evt.event_id consumer
        (λ here.
          get-claim_refused stale now evt consumer rows row here
            (processing-not_claimable stale now row held quiet))
        (λ other there. get-claim_other stale now evt consumer e c rows other ∙ there) found
  step-held (finish now evt consumer ms) rows quiet found =
      get-finish_other now evt consumer ms e c rows quiet ∙ found
  step-held (fail now evt consumer error status ms) rows quiet found =
      get-fail_other now evt consumer ms error status e c rows quiet ∙ found

  run-held :
      (acts : List Act) (rows : List EventProcessing)
      → All (LeavesOpen e c (row.updated_at + seconds stale)) acts
      → get_event_processing e c rows ≡ some row
      → get_event_processing e c (run stale acts rows) ≡ some row
  run-held [] rows quiet found = found
  run-held (act ∷ acts) rows quiet found =
      run-held acts (step stale act rows) quiet.1 (step-held act rows quiet.0 found)

begin-blocked :
    (stale now : ℕ) (evt : EventEnvelope) (consumer : String) (rows : List EventProcessing)
    (row : EventProcessing)
    → get_event_processing evt.event_id consumer rows ≡ some row
    → row.status ≡ processing
    → now ≤ row.updated_at + seconds stale
    → (begin_event_processing stale now evt consumer rows).1.status ≡ claim_blocked
begin-blocked stale now evt consumer rows row found held soon =
    rw begin_lem (rw (found, processing-not_claimable stale now row held soon, held))

-- The row that a claim wrote is still there, as it was written.
pub claim-held :
    (stale claimed_at : ℕ) (evt : EventEnvelope) (consumer : String) (rows : List EventProcessing)
    (acts : List Act)
    → (begin_event_processing stale claimed_at evt consumer rows).1.status ≡ stored processing
    → All (LeavesOpen evt.event_id consumer (claimed_at + seconds stale)) acts
    → let row =
        claimed_row stale claimed_at evt consumer
          (get_event_processing evt.event_id consumer rows) in
      (get_event_processing evt.event_id consumer
          (run stale acts (begin_event_processing stale claimed_at evt consumer rows).0)
        ≡ some row)
      × (row.status ≡ processing)
      × (row.updated_at ≡ claimed_at)
claim-held stale claimed_at evt consumer rows acts won quiet =
    let o = get_event_processing evt.event_id consumer rows in
    let row = claimed_row stale claimed_at evt consumer o in
    let (held, at) = won-row stale claimed_at evt consumer o (rw begin_lem at won) in
    (
      run-held stale evt.event_id consumer row held acts
          (begin_event_processing stale claimed_at evt consumer rows).0 (rw at quiet)
          (get-begin stale claimed_at evt consumer rows),
      held,
      at,
    )

-- Whoever claims an event at `claimed_at` holds it for the whole window: after any interleaving of
-- claims by anybody up to the window's end and of closings of other events, a further claim up to
-- that time is told CLAIM_BLOCKED.
pub claim-excludes :
    (stale claimed_at later : ℕ) (evt : EventEnvelope) (consumer : String)
    (rows : List EventProcessing) (acts : List Act)
    → (begin_event_processing stale claimed_at evt consumer rows).1.status ≡ stored processing
    → later ≤ claimed_at + seconds stale
    → All (LeavesOpen evt.event_id consumer (claimed_at + seconds stale)) acts
    → let after = run stale acts (begin_event_processing stale claimed_at evt consumer rows).0 in
      (begin_event_processing stale later evt consumer after).1.status ≡ claim_blocked
claim-excludes stale claimed_at later evt consumer rows acts won soon quiet =
    let row =
      claimed_row stale claimed_at evt consumer (get_event_processing evt.event_id consumer rows) in
    let (found, held, at) = claim-held stale claimed_at evt consumer rows acts won quiet in
    begin-blocked stale later evt consumer
      (run stale acts (begin_event_processing stale claimed_at evt consumer rows).0) row found held
      (rw at soon)
