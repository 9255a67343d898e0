-- ===== src/Processing.antt =====
-- packages/contracts/event_bus/processing.py, packages/runtime/ledger.py and the ledger half of
-- packages/storage/repositories/event.py: the table of who processes which event.
-- Times are the database's `now()`, in microseconds. Each statement that the repository builds is
-- an operation on the rows of `event_processing`, whose primary key is (event_id, consumer).
pub mod Claim
pub mod Exclusion
use Prim.Native.String
use k8s_clue.Prelude.{
  ℕ, zero, suc, ◌+◌, ◌*◌, max, String, Bool, true, false, not, ◌&&◌, ◌||◌, Option, none, some, List,
  [], ◌∷◌, ◌++◌, ltb, str_eq, if◌then◌else◌,
}
use k8s_clue.Prelude.Json.{Fields}
use k8s_clue.Prelude.Rows.{select_first, update_where, insert_if_absent, upsert}
use k8s_clue.Events.{EventEnvelope}

pub data EventProcessingStatus : Type 0 where
  processing processed retrying dead_lettered : EventProcessingStatus

-- status in TERMINAL_STATUSES
abbrev pub is_terminal : EventProcessingStatus → Bool
is_terminal processed = true
is_terminal dead_lettered = true
is_terminal _ = false

abbrev pub is_processing : EventProcessingStatus → Bool
is_processing processing = true
is_processing _ = false

-- `EventProcessingRecord.status` is a text: a stored status, CLAIM_BLOCKED or "unknown".
pub data RecordStatus : Type 0 where
  stored : EventProcessingStatus → RecordStatus
  claim_blocked unknown : RecordStatus

pub record EventProcessingRecord : Type 0 where
  pub status : RecordStatus
  pub attempts : ℕ

-- A row of `event_processing`.
pub record EventProcessing : Type 0 where
  pub event_id : String
  pub consumer : String
  pub subject : String
  pub correlation_id : String
  pub status : EventProcessingStatus
  pub attempts : ℕ
  pub processing_duration_ms : Option ℕ
  pub last_error : Option String
  pub created_at : ℕ
  pub updated_at : ℕ

-- A row of `events`, but for the time that the database gives it.
pub record EventModel : Type 0 where
  pub event_id : String
  pub subject : String
  pub source : String
  pub correlation_id : String
  pub causation_id : Option String
  pub payload : Fields
  pub schema_version : ℕ

-- The two tables that a `Ledger` writes.
pub record LedgerStore : Type 0 where
  pub events : List EventModel
  pub rows : List EventProcessing

-- error[:limit], by characters
unfoldable pub prefix : ℕ → String → String
prefix zero text = String.[]
prefix (suc n) String.[] = String.[]
prefix (suc n) (String.◌∷◌ c text) = String.◌∷◌ c (prefix n text)

abbrev pub error_message_limit : ℕ
error_message_limit = 2000

unfoldable pub compact_error : String → String
compact_error error = prefix error_message_limit error

-- `interval 'n seconds'`
abbrev pub seconds : ℕ → ℕ
seconds n = n * 1000000

abbrev pub is_row : String → String → EventProcessing → Bool
is_row event_id consumer row = str_eq row.event_id event_id && str_eq row.consumer consumer

-- A claim is refused by a closed row and by a claim that is younger than the window.
unfoldable pub claimable : ℕ → ℕ → EventProcessing → Bool
claimable stale now row =
    not (is_terminal row.status)
    && (not (is_processing row.status) || ltb (row.updated_at + seconds stale) now)

unfoldable pub reclaim : ℕ → EventProcessing → EventProcessing
reclaim now row = record row {
  attempts = row.attempts + 1;
  status = processing;
  last_error = none;
  updated_at = now;
}

unfoldable pub first_claim : ℕ → EventEnvelope → String → EventProcessing
first_claim now evt consumer = record {
  event_id = evt.event_id;
  consumer = consumer;
  subject = evt.subject;
  correlation_id = evt.correlation_id;
  status = processing;
  attempts = 1;
  processing_duration_ms = none;
  last_error = none;
  created_at = now;
  updated_at = now;
}

unfoldable pub record_event : EventEnvelope → List EventModel → List EventModel
record_event evt =
    insert_if_absent (λ row. str_eq row.event_id evt.event_id)
      (record {
        event_id = evt.event_id;
        subject = evt.subject;
        source = evt.source;
        correlation_id = evt.correlation_id;
        causation_id = evt.causation_id;
        payload = evt.payload;
        schema_version = evt.schema_version;
      })

unfoldable pub claim_event_processing :
    ℕ
    → ℕ
    → EventEnvelope
    → String
    → List EventProcessing
    → List EventProcessing × Option EventProcessing
claim_event_processing stale now evt consumer =
    upsert (is_row evt.event_id consumer) (claimable stale now) (reclaim now)
      (first_claim now evt consumer)

unfoldable pub get_event_processing :
    String → String → List EventProcessing → Option EventProcessing
get_event_processing event_id consumer = select_first (is_row event_id consumer)

-- A fresh PROCESSING row that refused the claim is reported as CLAIM_BLOCKED.
abbrev pub refused : Option EventProcessing → EventProcessingRecord
refused none = record { status = unknown; attempts = 0 }
refused (some row) = record {
  status = if is_processing row.status then claim_blocked else stored row.status;
  attempts = row.attempts;
}

abbrev pub answer : Option EventProcessing → Option EventProcessing → EventProcessingRecord
answer (some row) existing = record { status = stored row.status; attempts = row.attempts }
answer none existing = refused existing

unfoldable pub begin_event_processing :
    ℕ
    → ℕ
    → EventEnvelope
    → String
    → List EventProcessing
    → List EventProcessing × EventProcessingRecord
begin_event_processing stale now evt consumer rows =
    let (rows', row) = claim_event_processing stale now evt consumer rows in
    (rows', answer row (get_event_processing evt.event_id consumer rows'))

-- `values["processing_duration_ms"]` is set only when a duration is given
abbrev pub with_duration : Option ℕ → Option ℕ → Option ℕ
with_duration none old = old
with_duration (some ms) old = some ms

unfoldable pub finished : ℕ → Option ℕ → EventProcessing → EventProcessing
finished now duration_ms row = record row {
  status = processed;
  last_error = none;
  updated_at = now;
  processing_duration_ms = with_duration duration_ms row.processing_duration_ms;
}

unfoldable pub finish_event_processing :
    ℕ → EventEnvelope → String → Option ℕ → List EventProcessing → List EventProcessing
finish_event_processing now evt consumer duration_ms =
    update_where (is_row evt.event_id consumer) (finished now duration_ms)

unfoldable pub failed :
    ℕ → String → EventProcessingStatus → Option ℕ → EventProcessing → EventProcessing
failed now error status duration_ms row = record row {
  status = status;
  last_error = some (compact_error error);
  updated_at = now;
  processing_duration_ms = with_duration duration_ms row.processing_duration_ms;
}

unfoldable pub fail_event_processing :
    ℕ
    → EventEnvelope
    → String
    → String
    → EventProcessingStatus
    → Option ℕ
    → List EventProcessing
    → List EventProcessing
fail_event_processing now evt consumer error status duration_ms =
    update_where (is_row evt.event_id consumer) (failed now error status duration_ms)
