-- ===== src/Worker.antt =====
-- packages/runtime/worker.py, packages/runtime/ledger.py and the dead-letter sink of
-- packages/events/bus.py: how a worker handles one delivered message.
--
-- The database's tables, the broker's stream and the service's own tables are one `Store`. A unit
-- of work that raises leaves the store as it was. What the worker does not decide is an `Attempt`:
-- the clock readings, the service's handler, the texts of the errors, and which of the calls to
-- the database and the broker raise (a call that times out raises). A `nak` that raises is not
-- modelled; it has no effect on the store.
pub mod Ack
pub mod Atomic
pub mod Duplicate
pub mod Letters
pub mod Retry
pub mod Timing
use k8s_clue.Prelude.{
  ℕ, ◌+◌, String, Bool, true, false, Option, none, some, List, [], ◌∷◌, ◌++◌, str_eq, leb, ltb,
  ◌&&◌, if◌then◌else◌,
}
use k8s_clue.Events.{EventEnvelope}
use k8s_clue.Processing.{
  LedgerStore, EventProcessing, EventProcessingRecord, EventProcessingStatus, RecordStatus, stored,
  claim_blocked, unknown, retrying, dead_lettered, is_terminal, is_processing, record_event,
  begin_event_processing, finish_event_processing, fail_event_processing,
}
use k8s_clue.DeadLetters.{DeadLetter, DeadLetters, record_dead_letter, record_raw_dead_letter}
use k8s_clue.Outbox.{Outbox, stage_events}

-- handler_timeout < ack_wait < processing_stale, checked when the worker starts
unfoldable pub validate_event_timing_contract : ℕ → ℕ → ℕ → Bool
validate_event_timing_contract handler_timeout_seconds ack_wait processing_stale_seconds =
    ltb handler_timeout_seconds ack_wait && ltb ack_wait processing_stale_seconds

pub record EventRetryPolicy : Type 0 where
  pub max_attempts : ℕ
  pub retry_delay_seconds : ℕ

pub record EventHandlerSpec : Type 0 where
  pub service_name : String
  pub consumers : List (String × String)
  pub retry_policy : EventRetryPolicy
  pub processing_stale_seconds : ℕ

-- dict(pairs).get(key): the last pair of a key counts
unfoldable pub dict_get : String → List (String × String) → Option String
dict_get key [] = none
dict_get key ((k, v) ∷ pairs) = elim (dict_get key pairs) [
  | none ↦ if str_eq k key then some v else none
  | some w ↦ some w
]

-- The name under which the ledger and the dead letters know this worker.
unfoldable pub consumer_for : EventHandlerSpec → String → String
unfolding dict_get
consumer_for spec subject = elim (dict_get subject spec.consumers) [
  | none ↦ spec.service_name
  | some consumer ↦ consumer
]

pub record Store (B : Type 0) : Type 0 where
  pub ledger : LedgerStore
  pub outbox : Outbox
  pub letters : DeadLetters
  pub stream : List EventEnvelope
  pub business : B

pub data HandlerResult (B : Type 0) : Type 0 where
  returns : B → List EventEnvelope → HandlerResult B
  raises : String → HandlerResult B

-- `RecordedEventClient.emit` publishes and then records.
pub data EmitOutcome : Type 0 where
  emitted not_published not_recorded : EmitOutcome

pub record Attempt (B : Type 0) : Type 0 where
  pub claimed_at : ℕ
  pub finished_at : ℕ
  pub closed_at : ℕ
  pub elapsed_ms : ℕ
  pub begin_fails : Bool
  pub handler : EventEnvelope → B → HandlerResult B
  pub commit_error : Option String
  pub letter_fails : Bool
  pub notice : DeadLetter → EventEnvelope
  pub emit : EmitOutcome
  pub close_fails : Bool
  pub ack_fails : Bool

pub data EventMessage : Type 0 where
  decoded : EventEnvelope → EventMessage
  -- the raw text, the id made for its dead letter, and the decoder's error
  undecodable : String → String → String → EventMessage

-- How `process` leaves the message; `raised` goes to the consuming loop.
pub data Settlement : Type 0 where
  ack : Settlement
  nak : ℕ → Settlement
  raised : Settlement

abbrev pub rows_with :
    {B : Type 0} → (List EventProcessing → List EventProcessing) → Store B → Store B
rows_with f s = record s { ledger = record s.ledger { rows = f s.ledger.rows } }

module _ {B : Type 0} (env : Attempt B) where
  abbrev pub acknowledge : Settlement
  acknowledge = if env.ack_fails then raised else ack

  -- `RecordedEventClient.emit`, and whether it returned
  unfoldable pub emit_notice : EmitOutcome → EventEnvelope → Store B → Store B × Bool
  emit_notice emitted evt s = (
    record s {
      stream = s.stream ++ evt ∷ [];
      ledger = record s.ledger { events = record_event evt s.ledger.events };
    },
    true,
  )
  emit_notice not_published evt s = (s, false)
  emit_notice not_recorded evt s = (record s { stream = s.stream ++ evt ∷ [] }, false)

  -- `DeadLetterSink.capture`, and whether it returned. The row is committed before the notice.
  unfoldable pub capture : EventEnvelope → String → String → ℕ → Store B → Store B × Bool
  capture evt consumer error attempts s =
      if env.letter_fails
      then (s, false)
      else let (letters, row) = record_dead_letter evt consumer error attempts s.letters in
        emit_notice env.emit (env.notice row) (record s { letters = letters })

  -- `DeadLetterSink.capture_raw`
  unfoldable pub capture_raw : String → String → String → String → Store B → Store B × Bool
  capture_raw original_event_id raw consumer error s =
      if env.letter_fails
      then (s, false)
      else let (letters, row) =
          record_raw_dead_letter original_event_id raw consumer error s.letters in
        emit_notice env.emit (env.notice row) (record s { letters = letters })

module _ {B : Type 0} (spec : EventHandlerSpec) (env : Attempt B) where
  abbrev pub put_back : Settlement
  put_back = nak spec.retry_policy.retry_delay_seconds

  abbrev pub close :
      EventEnvelope
      → String
      → String
      → EventProcessingStatus
      → Settlement
      → Store B
      → Store B × Settlement
  close evt consumer error status settlement s = if env.close_fails then (s, raised) else (
    rows_with (fail_event_processing env.closed_at evt consumer error status (some env.elapsed_ms))
        s,
    settlement,
  )

  -- The end of `fail`, by whether the dead letter was captured.
  abbrev pub after_capture : EventEnvelope → String → String → Store B × Bool → Store B × Settlement
  after_capture evt consumer error (s, true) =
      close evt consumer error dead_lettered (acknowledge env) s
  after_capture evt consumer error (s, false) = close evt consumer error retrying put_back s

  unfoldable pub fail : EventEnvelope → String → ℕ → Store B → Store B × Settlement
  fail evt error attempts s =
      let consumer = consumer_for spec evt.subject in
      if leb spec.retry_policy.max_attempts attempts
      then after_capture evt consumer error (capture env evt consumer error attempts s)
      else close evt consumer error retrying put_back s

  -- The unit of work of the handler: business writes, outbox and ledger commit together.
  abbrev pub commit :
      EventEnvelope → ℕ → B → List EventEnvelope → Option String → Store B → Store B × Settlement
  commit evt attempts business events (some error) s = fail evt error attempts s
  commit evt attempts business events none s = (
    rows_with
        (finish_event_processing env.finished_at evt (consumer_for spec evt.subject)
          (some env.elapsed_ms))
        (record s { business = business; outbox = stage_events events s.outbox }),
    acknowledge env,
  )

  abbrev pub handled : EventEnvelope → ℕ → HandlerResult B → Store B → Store B × Settlement
  handled evt attempts (raises error) s = fail evt error attempts s
  handled evt attempts (returns business events) s =
      commit evt attempts business events env.commit_error s

  unfoldable pub run_handler : EventEnvelope → ℕ → Store B → Store B × Settlement
  run_handler evt attempts s = handled evt attempts (env.handler evt s.business) s

  -- What follows a claim, by the status that it reported.
  unfoldable pub after_claim :
      EventEnvelope → EventProcessingRecord → Store B → Store B × Settlement
  after_claim evt processing s = elim processing.status [
    | stored status ↦
        if is_terminal status
        then (s, acknowledge env)
        else if is_processing status
        then run_handler evt processing.attempts s
        else (s, put_back)
    | claim_blocked ↦ (s, put_back)
    | unknown ↦ (s, put_back)
  ]

  -- `Ledger.begin`, a unit of work of its own
  unfoldable pub begin : EventEnvelope → Store B → Store B × EventProcessingRecord
  begin evt s =
      let (rows, processing) =
        begin_event_processing spec.processing_stale_seconds env.claimed_at evt
          (consumer_for spec evt.subject) s.ledger.rows in
      (
        record s { ledger = record { events = record_event evt s.ledger.events; rows = rows } },
        processing,
      )

  abbrev pub raw_settled : Store B × Bool → Store B × Settlement
  raw_settled (s, true) = (s, acknowledge env)
  raw_settled (s, false) = (s, put_back)

  unfoldable pub process : EventMessage → Store B → Store B × Settlement
  process (undecodable raw original_event_id error) s =
      raw_settled (capture_raw env original_event_id raw spec.service_name error s)
  process (decoded evt) s =
      if env.begin_fails
      then (s, raised)
      else let (s', processing) = begin evt s in after_claim evt processing s'

  abbrev pub caught : Settlement → Settlement
  caught raised = put_back
  caught settlement = settlement

  -- What `consume_subject` does with a message as long as the worker is not stopping: what `process`
  -- raises becomes a nak.
  unfoldable pub consume : EventMessage → Store B → Store B × Settlement
  consume message s = let (s', settlement) = process message s in (s', caught settlement)

-- `unfolding running` opens everything that handling a message calls.
unfoldable pub running : Unit {0}
unfolding consume process after_claim run_handler fail begin capture capture_raw emit_notice
    consumer_for
running = tt
