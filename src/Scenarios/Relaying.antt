-- ===== src/Scenarios/Relaying.antt =====
-- The outbox and its relay.
use k8s_clue.Prelude.{◌≡◌, refl, false, none, some, List, [], ◌∷◌, ◌++◌, arith}
use k8s_clue.Events.{EventEnvelope}
use k8s_clue.Outbox.{OutboxModel, Outbox, lease_rows, stage_events, unsent_events}
use k8s_clue.Outbox.Ids.{
  Op, stage, lease, mark, apply_all, new_outbox, IsWellFormed, apply_all-IsWellFormed,
}
use k8s_clue.Outbox.Lease.{IsDisjoint, lease-excludes}
use k8s_clue.Outbox.Staging.{Staged, new_row, stage_events_lem, stage_events_idem}
use k8s_clue.Relay.{Round, Published, accepted, refused, ran, run_once}
use k8s_clue.Relay.Tables.{IsAccounted}
use k8s_clue.Relay.Accounts.{run_once-IsAccounted}
use k8s_clue.Relay.Marks.{NoneWaits, event_ids, run_once-publishes}
use k8s_clue.Scenarios.{incident, evidence, no_letters, no_outbox}

abbrev ops : List Op
ops =
    stage (incident ∷ evidence ∷ [])
    ∷ lease [] 10 10 "l1" 1 none
    ∷ mark 20 ("e1" ∷ [])
    ∷ stage (evidence ∷ [])
    ∷ []

apply_all-IsWellFormed_example : IsWellFormed (apply_all ops new_outbox)
apply_all-IsWellFormed_example = apply_all-IsWellFormed ops

abbrev two_rows : List OutboxModel
two_rows = new_row 1 incident ∷ new_row 2 evidence ∷ []

lease-excludes_example :
    let (rows', got) = lease_rows 10 none "l1" 100 1 two_rows in
    IsDisjoint got (lease_rows 20 (some "gateway") "l2" 110 5 rows').1
lease-excludes_example =
    lease-excludes 10 none "l1" 100 20 (some "gateway") "l2" 110 (omega arith) 1 5 0 two_rows
      (omega arith, (omega arith, tt))

stage_events_lem_example :
    Staged (incident ∷ evidence ∷ []) [] (stage_events (incident ∷ evidence ∷ []) no_outbox).rows
stage_events_lem_example = stage_events_lem (incident ∷ evidence ∷ []) no_outbox

stage_events_idem_example :
    (stage_events (incident ∷ []) (stage_events (incident ∷ []) no_outbox)).rows
    ≡ (stage_events (incident ∷ []) no_outbox).rows
stage_events_idem_example = stage_events_idem (incident ∷ []) no_outbox

abbrev round_with : (EventEnvelope → Published) → Round
round_with publish = record {
  now = 10;
  clock = 10;
  marked_at = 20;
  lease_id = "l1";
  order = 1 ∷ [];
  batch = 5;
  source = none;
  publish = publish;
  letter_fails = λ evt. false;
  mark_fails = false;
}

abbrev two_waiting : Outbox
two_waiting = record { next_id = 3; rows = two_rows }

-- The broker takes no event: each is too large.
abbrev too_large : Round
too_large = round_with (λ evt. refused false "MaxPayloadError" "too large")

run_once-IsAccounted_example :
    let t = (run_once too_large two_waiting no_letters []).0 in
    IsAccounted t.stream t.letters t.outbox.rows
run_once-IsAccounted_example =
    run_once-IsAccounted too_large two_waiting no_letters [] (refl, (refl, tt))

abbrev all_taken : Round
all_taken = round_with (λ evt. accepted)

run_once-publishes_example :
    let events = (unsent_events (1 ∷ []) 10 10 "l1" 5 none two_waiting).1 in
    let (t, ending) = run_once all_taken two_waiting no_letters [] in
    (ending ≡ ran)
    × (t.stream ≡ [] ++ events)
    × (t.published ≡ event_ids events)
    × NoneWaits (event_ids events) t.outbox.rows
run_once-publishes_example =
    run_once-publishes all_taken (λ evt. refl) two_waiting no_letters [] refl
