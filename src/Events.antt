-- ===== src/Events.antt =====
-- packages/contracts/event_bus/interfaces.py: the event envelope.
-- The payload is carried and never looked into by the runtime.
use k8s_clue.Prelude.{ℕ, String, Option}
use k8s_clue.Prelude.Json.{Fields}

pub record EventEnvelope : Type 0 where
  pub event_id : String
  pub subject : String
  pub source : String
  pub correlation_id : String
  pub causation_id : Option String
  pub created_at : String
  pub payload : Fields
  pub schema_version : ℕ
  pub workspace_id : Option String
