-- ===== src/Scenarios/Handling.antt =====
-- The ledger and a worker at work on one event.
use k8s_clue.Prelude.{
  String, ◌≡◌, refl, true, false, none, some, List, [], ◌∷◌, ◌⊎◌, arith, length, inr,
}
use k8s_clue.Prelude.Rows.{select_first, update_where, insert_if_absent, upsert}
use k8s_clue.Processing.{
  EventProcessing, EventProcessingStatus, stored, claim_blocked, processing, processed, retrying,
  claimable, reclaim, first_claim, record_event, claim_event_processing, get_event_processing,
  begin_event_processing, finished, finish_event_processing, failed, fail_event_processing,
  compact_error, prefix,
}
use k8s_clue.Processing.Claim.{begun}
use k8s_clue.Processing.Exclusion.{Act, claim, finish, run, claim-excludes}
use k8s_clue.DeadLetters.{
  dead_letter, raw_dead_letter, record_dead_letter, record_raw_dead_letter,
  mark_dead_letter_replayed,
}
use k8s_clue.DeadLetters.Replay.{replay-once}
use k8s_clue.Outbox.{stage_event, stage_events}
use k8s_clue.Worker.{
  Store, Attempt, ack, decoded, undecodable, acknowledge, put_back, consumer_for, process, running,
  validate_event_timing_contract, dict_get,
}
use k8s_clue.Worker.Ack.{is_closed, row_of, process-ack_closed}
use k8s_clue.Worker.Atomic.{Untouched, Committed, process-atomic, process-commits}
use k8s_clue.Worker.Duplicate.{archived, process-refused}
use k8s_clue.Worker.Letters.{HasLetters, process-HasLetters}
use k8s_clue.Worker.Retry.{Failing, tries, gave_up, deliver, deliver-counts, deliver-gives_up}
use k8s_clue.Worker.Timing.{contract-excludes, late_retry-reopens}
use k8s_clue.Scenarios.{
  incident, evidence, rca_spec, no_letters, fresh, handles, refuses, attempt_with,
}

-- `unfolding evaluating` runs the worker and the statements that it issues.
unfoldable evaluating : Unit {0}
unfolding running begin_event_processing claim_event_processing get_event_processing
    finish_event_processing fail_event_processing upsert select_first update_where insert_if_absent
    record_event claimable reclaim first_claim finished failed compact_error prefix stage_events
    stage_event record_dead_letter record_raw_dead_letter dead_letter raw_dead_letter dict_get
evaluating = tt

abbrev good : Attempt (List String)
good = attempt_with 10 handles

abbrev bad : Attempt (List String)
bad = attempt_with 10 refuses

handled_once :
    let (s, settlement) = process rca_spec good (decoded incident) fresh in
    (settlement ≡ ack) × (s.business ≡ "e1" ∷ []) × (length s.outbox.rows ≡ 1)
unfolding evaluating
handled_once = (refl, refl, refl)

process-ack_closed_example :
    is_closed (row_of rca_spec incident (process rca_spec good (decoded incident) fresh).0) ≡ true
process-ack_closed_example = process-ack_closed rca_spec good incident fresh handled_once.0

process-atomic_example :
    Untouched fresh (process rca_spec bad (decoded incident) fresh).0
    ⊎ Committed rca_spec bad incident fresh (process rca_spec bad (decoded incident) fresh).0
process-atomic_example = process-atomic rca_spec bad incident fresh

claim_won :
    (begun rca_spec.processing_stale_seconds good.claimed_at
      (row_of rca_spec incident fresh)).status
    ≡ stored processing
unfolding evaluating
claim_won = refl

process-commits_example :
    Committed rca_spec good incident fresh (process rca_spec good (decoded incident) fresh).0
    × ((process rca_spec good (decoded incident) fresh).1 ≡ acknowledge good)
process-commits_example =
    process-commits rca_spec good incident fresh ("e1" ∷ []) (evidence ∷ []) refl claim_won refl
      refl

abbrev row_in : EventProcessingStatus → EventProcessing
row_in status = record {
  event_id = "e1";
  consumer = "rca.incidents";
  subject = "incident.opened";
  correlation_id = "c1";
  status = status;
  attempts = 1;
  processing_duration_ms = none;
  last_error = none;
  created_at = 10;
  updated_at = 10;
}

abbrev done : Store (List String)
done = record fresh { ledger = record { events = []; rows = row_in processed ∷ [] } }

done_found : row_of rca_spec incident done ≡ some (row_in processed)
unfolding evaluating
done_found = refl

done_closed : claimable rca_spec.processing_stale_seconds good.claimed_at (row_in processed) ≡ false
unfolding evaluating
done_closed = refl

process-refused_example :
    process rca_spec good (decoded incident) done ≡ (archived incident done, ack)
process-refused_example =
    process-refused rca_spec good incident done (row_in processed) refl done_found done_closed

fresh-HasLetters : HasLetters fresh
unfolding evaluating
fresh-HasLetters = record { letter = λ e c row found dead. absurd (cc) }

process-HasLetters_example :
    HasLetters (process rca_spec bad (undecodable "{" "d1" "JSONDecodeError") fresh).0
process-HasLetters_example =
    process-HasLetters rca_spec bad (undecodable "{" "d1" "JSONDecodeError") fresh fresh-HasLetters

bad-Failing : Failing incident bad
bad-Failing = record {
  error = "ValueError";
  raising = λ b. refl;
  begins = refl;
  captures = refl;
  notifies = refl;
  closes = refl;
  acks = refl;
}

untried : row_of rca_spec incident fresh ≡ none
unfolding evaluating
untried = refl

deliver-counts_example :
    tries (row_of rca_spec incident (deliver rca_spec incident (bad ∷ []) fresh)) ≡ some 1
deliver-counts_example =
    deliver-counts rca_spec incident (bad ∷ []) fresh untried (bad-Failing, tt) (omega arith)

deliver-gives_up_example :
    gave_up (row_of rca_spec incident (deliver rca_spec incident (bad ∷ bad ∷ []) fresh)) ≡ some 2
deliver-gives_up_example =
    deliver-gives_up rca_spec incident (bad ∷ []) bad fresh untried (bad-Failing, tt) bad-Failing
      refl

claimed : (begin_event_processing 120 10 incident "rca.incidents" []).1.status ≡ stored processing
unfolding evaluating
claimed = refl

-- Another worker claims both events and closes its own meanwhile.
abbrev meanwhile : List Act
meanwhile =
    claim 20 incident "rca.incidents" ∷ claim 30 evidence "rca" ∷ finish 40 evidence "rca" none ∷ []

claim-excludes_example :
    (begin_event_processing 120 50 incident "rca.incidents"
      (run 120 meanwhile (begin_event_processing 120 10 incident "rca.incidents" []).0)).1.status
    ≡ claim_blocked
claim-excludes_example =
    claim-excludes 120 10 50 incident "rca.incidents" [] meanwhile claimed (omega arith)
      (omega arith, (omega arith, (refl, tt)))

timing_accepted : validate_event_timing_contract 60 90 120 ≡ true
unfolding validate_event_timing_contract
timing_accepted = refl

-- The store when the broker delivers the incident once more, 50 seconds after the claim.
abbrev held_store : Store (List String)
held_store = record fresh {
  ledger = record fresh.ledger {
    rows = run 120 meanwhile (begin_event_processing 120 10 incident "rca.incidents" []).0;
  };
}

abbrev redelivery : Attempt (List String)
redelivery = attempt_with 60 handles

contract-excludes_example :
    process rca_spec redelivery (decoded incident) held_store
    ≡ (archived incident held_store, put_back rca_spec redelivery)
unfolding consumer_for dict_get
contract-excludes_example =
    contract-excludes rca_spec redelivery incident held_store 60 90 5 10 [] meanwhile
      timing_accepted (omega arith) claimed (omega arith, (omega arith, (refl, tt))) refl
      (inr (omega arith)) refl

processed_found :
    get_event_processing "e1" "rca.incidents" (row_in processed ∷ []) ≡ some (row_in processed)
unfolding evaluating
processed_found = refl

late_retry-reopens_example :
    ((begin_event_processing 120 60 incident "rca.incidents" (row_in processed ∷ [])).1.status
      ≡ stored processed)
    × ((begin_event_processing 120 60 incident "rca.incidents" (
          fail_event_processing 50 incident "rca.incidents" "TimeoutError" retrying
            (some 7)
            (row_in processed ∷ []))).1.status
        ≡ stored processing)
late_retry-reopens_example =
    late_retry-reopens 120 50 60 incident "rca.incidents" "TimeoutError" (some 7)
      (row_in processed ∷ []) (row_in processed) processed_found refl

replay-once_example :
    let letters' = (record_dead_letter incident "rca" "ValueError" 2 no_letters).0 in
    let replayed = (mark_dead_letter_replayed 60 1 "r1" letters').0 in
    mark_dead_letter_replayed 70 1 "r2" replayed ≡ (replayed, false)
replay-once_example =
    replay-once 60 70 1 "r1" "r2" (record_dead_letter incident "rca" "ValueError" 2 no_letters).0
