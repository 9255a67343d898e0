-- ===== src/Worker/Timing.antt =====
-- packages/runtime/worker.py: the order of the timers that `validate_event_timing_contract` asks for, and
-- a closing update that comes after the claim was lost.
use k8s_clue.Prelude.{ℕ, ◌+◌, ◌≤◌, ◌⊎◌, String, ◌≡◌, true, false, List, arith, All, Option, some}
use k8s_clue.Events.{EventEnvelope}
use k8s_clue.Processing.{
  EventProcessing, stored, processing, processed, retrying, seconds, get_event_processing,
  begin_event_processing, fail_event_processing, failed, claimable,
}
use k8s_clue.Processing.Claim.{begin_lem, get-fail, claimed_row}
use k8s_clue.Processing.Exclusion.{Act, run, LeavesOpen, processing-not_claimable, claim-held}
use k8s_clue.Worker.{
  EventHandlerSpec, Attempt, Store, put_back, decoded, consumer_for, process,
  validate_event_timing_contract,
}
use k8s_clue.Worker.Duplicate.{archived, process-refused}

-- The timers are those of the start-up check, and the check passed.
in_window :
    (handler_timeout ack_wait stale delivered_at claimed_at later : ℕ)
    → validate_event_timing_contract handler_timeout ack_wait stale ≡ true
    → delivered_at ≤ claimed_at
    → (later ≤ claimed_at + seconds handler_timeout) ⊎ (later ≤ delivered_at + seconds ack_wait)
    → later ≤ claimed_at + seconds stale
unfolding validate_event_timing_contract
in_window handler_timeout ack_wait stale delivered_at claimed_at later ok before soon = ground arith

-- The start-up check accepts the timers. A message was delivered at `delivered_at` and its event claimed
-- at `claimed_at`; since then others have claimed whatever they did up to the end of the claim's
-- window, and have closed other events only. The same event arrives once more, at the latest when the
-- broker's waiting time, counted from the first delivery, has run out, or else while the handler may
-- still be running. If the claim does not raise, the worker then runs no handler and changes nothing but the archive of
-- events, and puts the message back for a later try.
pub contract-excludes :
    {B : Type 0} (spec : EventHandlerSpec) (env : Attempt B) (evt : EventEnvelope) (s : Store B)
    (handler_timeout ack_wait delivered_at claimed_at : ℕ) (rows : List EventProcessing)
    (acts : List Act)
    → let stale = spec.processing_stale_seconds in
      let consumer = consumer_for spec evt.subject in
      validate_event_timing_contract handler_timeout ack_wait stale ≡ true
      → delivered_at ≤ claimed_at
      → (begin_event_processing stale claimed_at evt consumer rows).1.status ≡ stored processing
      → All (LeavesOpen evt.event_id consumer (claimed_at + seconds stale)) acts
      → s.ledger.rows ≡ run stale acts (begin_event_processing stale claimed_at evt consumer rows).0
      → (env.claimed_at ≤ claimed_at + seconds handler_timeout)
        ⊎ (env.claimed_at ≤ delivered_at + seconds ack_wait)
      → env.begin_fails ≡ false
      → process spec env (decoded evt) s ≡ (archived evt s, put_back spec env)
contract-excludes spec env evt s handler_timeout ack_wait delivered_at claimed_at rows acts ok
      before won quiet here soon up =
    let stale = spec.processing_stale_seconds in
    let consumer = consumer_for spec evt.subject in
    let row =
      claimed_row stale claimed_at evt consumer (get_event_processing evt.event_id consumer rows) in
    let (found, held, at) = claim-held stale claimed_at evt consumer rows acts won quiet in
    let refused = process-refused spec env evt s row up (rw here found) (
      processing-not_claimable stale env.claimed_at row held (
        rw at (
          in_window handler_timeout ack_wait stale delivered_at claimed_at env.claimed_at ok before
            soon))) in
    rw held at refused

-- The closing updates do not look at the status they overwrite: a worker that lost its claim and
-- then reports a failure reopens an event that is PROCESSED. The next claim of the event, which
-- would have been told PROCESSED, is then won.
pub late_retry-reopens :
    (stale now later : ℕ) (evt : EventEnvelope) (consumer error : String) (elapsed_ms : Option ℕ)
    (rows : List EventProcessing) (row : EventProcessing)
    → get_event_processing evt.event_id consumer rows ≡ some row
    → row.status ≡ processed
    → ((begin_event_processing stale later evt consumer rows).1.status ≡ stored processed)
      × ((begin_event_processing stale later evt consumer
            (fail_event_processing now evt consumer error retrying elapsed_ms rows)).1.status
          ≡ stored processing)
unfolding claimable failed
late_retry-reopens stale now later evt consumer error elapsed_ms rows row found done = (
  ground (arith, begin_lem stale later evt consumer rows),
  ground (
    arith,
    begin_lem stale later evt consumer
        (fail_event_processing now evt consumer error retrying elapsed_ms rows),
    get-fail now evt consumer elapsed_ms error retrying rows,
  ),
)
