-- ===== src/Scenarios.antt =====
-- The deployment that the scenarios run: a service that logs each event it handles and emits one.
pub mod Handling
pub mod Relaying
pub mod Buses
pub mod Causing
pub mod Covering
pub mod Patching
pub mod Verifying
pub mod Retrying
pub mod Contracting
use k8s_clue.Prelude.{ℕ, String, false, none, some, List, [], ◌∷◌}
use k8s_clue.Prelude.Json.{no_fields}
use k8s_clue.Events.{EventEnvelope}
use k8s_clue.Outbox.{Outbox}
use k8s_clue.DeadLetters.{DeadLetters}
use k8s_clue.Worker.{EventHandlerSpec, Store, Attempt, HandlerResult, returns, raises, emitted}

abbrev pub event_of : String → String → EventEnvelope
event_of event_id subject = record {
  event_id = event_id;
  subject = subject;
  source = "gateway";
  correlation_id = "c1";
  causation_id = none;
  created_at = "2024-05-01T00:00:00Z";
  payload = no_fields;
  schema_version = 1;
  workspace_id = none;
}

abbrev pub incident : EventEnvelope
incident = event_of "e1" "incident.opened"

abbrev pub evidence : EventEnvelope
evidence = event_of "e2" "evidence.requested"

abbrev pub rca_spec : EventHandlerSpec
rca_spec = record {
  service_name = "rca";
  consumers = ("incident.opened", "rca.incidents") ∷ [];
  retry_policy = record { max_attempts = 2; retry_delay_seconds = 5 };
  processing_stale_seconds = 120;
}

abbrev pub no_letters : DeadLetters
no_letters = record { next_id = 1; rows = [] }

abbrev pub no_outbox : Outbox
no_outbox = record { next_id = 1; rows = [] }

abbrev pub fresh : Store (List String)
fresh = record {
  ledger = record { events = []; rows = [] };
  outbox = no_outbox;
  letters = no_letters;
  stream = [];
  business = [];
}

abbrev pub handles : EventEnvelope → List String → HandlerResult (List String)
handles evt handled = returns (evt.event_id ∷ handled) (evidence ∷ [])

abbrev pub refuses : EventEnvelope → List String → HandlerResult (List String)
refuses evt handled = raises "ValueError"

abbrev pub attempt_with :
    ℕ → (EventEnvelope → List String → HandlerResult (List String)) → Attempt (List String)
attempt_with at handler = record {
  claimed_at = at;
  finished_at = at;
  closed_at = at;
  elapsed_ms = 7;
  begin_fails = false;
  handler = handler;
  commit_error = none;
  letter_fails = false;
  notice = λ row. event_of "n1" "event.dead_lettered";
  emit = emitted;
  close_fails = false;
  ack_fails = false;
}
