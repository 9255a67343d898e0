-- ===== src/Worker/Duplicate.antt =====
-- packages/runtime/worker.py: a message whose claim is refused.
use k8s_clue.Prelude.{◌≡◌, false, some, arith, if◌then◌else◌}
use k8s_clue.Events.{EventEnvelope}
use k8s_clue.Processing.{EventProcessing, record_event, claimable, is_terminal}
use k8s_clue.Processing.Claim.{begin-refused}
use k8s_clue.Worker.{
  EventHandlerSpec, Attempt, Store, acknowledge, put_back, decoded, consumer_for, after_claim,
  begin, process,
}
use k8s_clue.Worker.Ack.{row_of}

-- The store with the event in the archive of events.
abbrev pub archived : {B : Type 0} → EventEnvelope → Store B → Store B
archived evt s = record s { ledger = record s.ledger { events = record_event evt s.ledger.events } }

-- A redelivery whose row may not be claimed, because it is closed or because another worker's
-- claim is still fresh, runs no handler: the ledger's rows, the outbox, the dead letters, the
-- stream and the service's own tables stay as they are, if the claim does not raise. It is acknowledged if the row is closed
-- and put back for a later try if it is not.
pub process-refused :
    {B : Type 0} (spec : EventHandlerSpec) (env : Attempt B) (evt : EventEnvelope) (s : Store B)
    (row : EventProcessing)
    → env.begin_fails ≡ false
    → row_of spec evt s ≡ some row
    → claimable spec.processing_stale_seconds env.claimed_at row ≡ false
    → process spec env (decoded evt) s
      ≡ (archived evt s, if is_terminal row.status then acknowledge env else put_back spec env)
unfolding process after_claim begin
process-refused spec env evt s row up found closed = ground (
  arith,
  begin-refused spec.processing_stale_seconds env.claimed_at evt (consumer_for spec evt.subject)
      s.ledger.rows row,
)
