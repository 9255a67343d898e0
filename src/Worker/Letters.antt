-- ===== src/Worker/Letters.antt =====
-- packages/runtime/worker.py and packages/events/bus.py: the events that the ledger calls DEAD_LETTERED and
-- the dead letters.
use k8s_clue.Prelude.{
  ℕ, String, ◌≡◌, Bool, true, false, ◌&&◌, ◌||◌, Option, none, some, List, ◌∷◌, [], arith, inl, inr,
  any, any-append, sym, str_eq, eq_refl, ◌∙◌,
}
use k8s_clue.Events.{EventEnvelope}
use k8s_clue.Processing.{
  EventProcessing, EventProcessingRecord, RecordStatus, stored, processing, retrying, dead_lettered,
  finished, failed, reclaim, first_claim, get_event_processing, begin_event_processing,
  finish_event_processing,
}
use k8s_clue.Processing.Claim.{
  same_key, key-cases, get-claim, get-claim_other, get-finish, get-finish_other, get-fail,
  get-fail_other,
}
use k8s_clue.DeadLetters.{
  DeadLetter, DeadLetters, insert, dead_letter, record_dead_letter, record_raw_dead_letter,
  raw_dead_letter,
}
use k8s_clue.Worker.{
  EventHandlerSpec, Attempt, Store, HandlerResult, returns, raises, EventMessage, decoded,
  undecodable, consumer_for, capture, capture_raw, emit_notice, fail, commit, handled, run_handler,
  after_claim, begin, process,
}
use k8s_clue.Worker.Ack.{rows-capture, process-cases}

-- A dead letter of this event from this consumer is there.
abbrev pub has_letter : String → String → DeadLetters → Bool
has_letter e c letters = any (λ l. str_eq l.original_event_id e && str_eq l.consumer c) letters.rows

pub record HasLetters {B : Type 0} (s : Store B) : Type 0 where
  pub letter :
      (e c : String) (row : EventProcessing)
      → get_event_processing e c s.ledger.rows ≡ some row
      → row.status ≡ dead_lettered
      → has_letter e c s.letters ≡ true

has_letter-insert :
    (e c : String) (row : DeadLetter) (letters : DeadLetters)
    → has_letter e c (insert row letters)
      ≡ (has_letter e c letters || (str_eq row.original_event_id e && str_eq row.consumer c))
has_letter-insert e c row letters = ground (
  arith,
  any-append (λ (l : DeadLetter). str_eq l.original_event_id e && str_eq l.consumer c) letters.rows
      (row ∷ []),
)

module _ {B : Type 0} (env : Attempt B) (evt : EventEnvelope) (consumer error : String)
    (attempts : ℕ) (s : Store B) where
  -- No dead letter goes away.
  has_letter-capture :
      (e c : String)
      → has_letter e c s.letters ≡ true
      → has_letter e c (capture env evt consumer error attempts s).0.letters ≡ true
  unfolding capture emit_notice record_dead_letter
  has_letter-capture e c h = ground (
    arith,
    has_letter-insert e c (dead_letter s.letters.next_id evt consumer error attempts) s.letters,
  )

  capture-has_letter :
      (capture env evt consumer error attempts s).1 ≡ true
      → has_letter evt.event_id consumer (capture env evt consumer error attempts s).0.letters
        ≡ true
  unfolding capture emit_notice record_dead_letter dead_letter
  capture-has_letter h = ground (
    arith,
    eq_refl evt.event_id,
    eq_refl consumer,
    has_letter-insert evt.event_id consumer
        (dead_letter s.letters.next_id evt consumer error attempts) s.letters,
  )

module _ {B : Type 0} (spec : EventHandlerSpec) (env : Attempt B) (evt : EventEnvelope) where
  module _ (error : String) (attempts : ℕ) (s : Store B) (h : HasLetters s) (row : EventProcessing)
      (dead : row.status ≡ dead_lettered) where
    fail-letter_here :
        let consumer = consumer_for spec evt.subject in
        let t = (fail spec env evt error attempts s).0 in
        get_event_processing evt.event_id consumer t.ledger.rows ≡ some row
        → has_letter evt.event_id consumer t.letters ≡ true
    unfolding fail failed
    fail-letter_here found =
        let consumer = consumer_for spec evt.subject in
        ground (
          arith,
          rows-capture spec env evt consumer error attempts s,
          h.letter evt.event_id consumer row,
          has_letter-capture env evt consumer error attempts s evt.event_id consumer,
          capture-has_letter env evt consumer error attempts s,
          get-fail env.closed_at evt consumer (some env.elapsed_ms) error retrying s.ledger.rows,
        )

    fail-letter_elsewhere :
        (e c : String)
        → let t = (fail spec env evt error attempts s).0 in
          same_key e c evt.event_id (consumer_for spec evt.subject) ≡ false
          → get_event_processing e c t.ledger.rows ≡ some row
          → has_letter e c t.letters ≡ true
    unfolding fail
    fail-letter_elsewhere e c other found =
        let consumer = consumer_for spec evt.subject in
        ground (
          arith,
          rows-capture spec env evt consumer error attempts s,
          h.letter e c row,
          has_letter-capture env evt consumer error attempts s e c,
          get-fail_other env.closed_at evt consumer (some env.elapsed_ms) error retrying e c
              s.ledger.rows,
          get-fail_other env.closed_at evt consumer (some env.elapsed_ms) error dead_lettered e c
              s.ledger.rows,
        )

  fail-HasLetters :
      (error : String) (attempts : ℕ) (s : Store B)
      → HasLetters s
      → HasLetters (fail spec env evt error attempts s).0
  fail-HasLetters error attempts s h = record {
    letter = λ e c row found dead.
        key-cases
          (λ x y.
            let t = (fail spec env evt error attempts s).0 in
            get_event_processing x y t.ledger.rows ≡ some row → has_letter x y t.letters ≡ true)
          e c evt.event_id (consumer_for spec evt.subject)
          (fail-letter_here error attempts s h row dead)
          (fail-letter_elsewhere error attempts s h row dead e c) found;
  }

  commit-HasLetters :
      (attempts : ℕ) (business : B) (events : List EventEnvelope) (error : Option String)
      (s : Store B)
      → HasLetters s
      → HasLetters (commit spec env evt attempts business events error s).0
  unfolding finished
  commit-HasLetters attempts business events (some error) s h = fail-HasLetters error attempts s h
  commit-HasLetters attempts business events none s h = record {
    letter = λ e c row found dead.
        key-cases
          (λ x y.
            get_event_processing x y (
                finish_event_processing env.finished_at evt (consumer_for spec evt.subject)
                  (some env.elapsed_ms) s.ledger.rows)
              ≡ some row
            → has_letter x y s.letters ≡ true)
          e c evt.event_id (consumer_for spec evt.subject)
          (λ here. ground (
            arith,
            get-finish env.finished_at evt (consumer_for spec evt.subject) (some env.elapsed_ms)
                s.ledger.rows,
          ))
          (λ other there.
            h.letter e c row
              (sym (
                  get-finish_other env.finished_at evt (consumer_for spec evt.subject)
                    (some env.elapsed_ms) e c s.ledger.rows other)
                ∙ there)
              dead)
          found;
  }

  handled-HasLetters :
      (attempts : ℕ) (result : HandlerResult B) (s : Store B)
      → HasLetters s
      → HasLetters (handled spec env evt attempts result s).0
  handled-HasLetters attempts (raises error) s h = fail-HasLetters error attempts s h
  handled-HasLetters attempts (returns business events) s h =
      commit-HasLetters attempts business events env.commit_error s h

  after_claim-HasLetters :
      (p : EventProcessingRecord) (s : Store B)
      → HasLetters s
      → HasLetters (after_claim spec env evt p s).0
  unfolding after_claim run_handler
  after_claim-HasLetters p s h = by_status p.status
    where
      by_status :
          (status : RecordStatus)
          → HasLetters
              (after_claim spec env evt (record { status = status; attempts = p.attempts }) s).0
      by_status (stored processing) = handled-HasLetters p.attempts (env.handler evt s.business) s h
      by_status (stored _) = h
      by_status _ = h

  begin-HasLetters : (s : Store B) → HasLetters s → HasLetters (begin spec env evt s).0
  unfolding begin begin_event_processing first_claim reclaim
  begin-HasLetters s h = record {
    letter = λ e c row found dead.
        key-cases
          (λ x y.
            get_event_processing x y (begin spec env evt s).0.ledger.rows ≡ some row
            → has_letter x y s.letters ≡ true)
          e c evt.event_id (consumer_for spec evt.subject)
          (λ here. ground (
            arith,
            get-claim spec.processing_stale_seconds env.claimed_at evt
                (consumer_for spec evt.subject) s.ledger.rows,
            h.letter evt.event_id (consumer_for spec evt.subject) row,
          ))
          (λ other there.
            h.letter e c row
              (sym (
                  get-claim_other spec.processing_stale_seconds env.claimed_at evt
                    (consumer_for spec evt.subject) e c s.ledger.rows other)
                ∙ there)
              dead)
          found;
  }

module _ {B : Type 0} (spec : EventHandlerSpec) (env : Attempt B) where
  undecodable-letter :
      (raw id error : String) (s : Store B) (e c : String) (row : EventProcessing)
      → (get_event_processing e c s.ledger.rows ≡ some row → has_letter e c s.letters ≡ true)
      → let t = (process spec env (undecodable raw id error) s).0 in
        get_event_processing e c t.ledger.rows ≡ some row → has_letter e c t.letters ≡ true
  unfolding process capture_raw emit_notice record_raw_dead_letter
  undecodable-letter raw id error s e c row h found = ground (
    arith,
    has_letter-insert e c (raw_dead_letter s.letters.next_id id raw spec.service_name error)
        s.letters,
  )

  -- Handling any message, decodable or not, in any environment keeps the ledger and the dead
  -- letters in step: each DEAD_LETTERED row has a dead letter of its event and its consumer.
  pub process-HasLetters :
      (message : EventMessage) (s : Store B)
      → HasLetters s
      → HasLetters (process spec env message s).0
  process-HasLetters (undecodable raw id error) s h = record {
    letter = λ e c row found dead.
        undecodable-letter raw id error s e c row (λ old. h.letter e c row old dead) found;
  }
  process-HasLetters (decoded evt) s h = elim (process-cases spec env evt s) [
    | inl e ↦ rw e h
    | inr e ↦ rw e (
        after_claim-HasLetters spec env evt (begin spec env evt s).1 (begin spec env evt s).0
          (begin-HasLetters spec env evt s h))
  ]
