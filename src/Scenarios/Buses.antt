-- ===== src/Scenarios/Buses.antt =====
-- The in-memory bus.
use k8s_clue.Prelude.{String, ◌≡◌, refl, ◌↔◌, true, none, List, [], ◌∷◌, ◌+◌}
use k8s_clue.Prelude.Rows.{select_first}
use k8s_clue.Bus.Subjects.{split_dots, subject_matches, Matches, subject_matches_iff}
use k8s_clue.Bus.Subscription.{metrics}
use k8s_clue.Bus.Conservation.{Op, enter, pull, settle, return, fire, run, opened, run-conserves}
use k8s_clue.Bus.Broker.{
  Bus, new_bus, publish_all, subscribe, find, ◌>>=◌, ok, subscribe-publish_all,
}
use k8s_clue.Scenarios.{incident, evidence}

subject_matches_iff_example :
    (subject_matches "incident.*" "incident.opened" ≡ true)
    ↔ Matches (split_dots "incident.*") (split_dots "incident.opened")
subject_matches_iff_example = subject_matches_iff "incident.*" "incident.opened"

abbrev ops : List (Op String)
ops =
    enter (record { subject = "incident.opened"; content = "e1" })
    ∷ enter (record { subject = "incident.opened"; content = "e2" })
    ∷ pull 2
    ∷ settle 1
    ∷ return 2 5
    ∷ fire 0
    ∷ []

run-conserves_example :
    let t = run ops (opened "incident.*" "rca") in
    (metrics t.sub).pending + (metrics t.sub).ack_pending + t.acked ≡ t.entered
run-conserves_example = run-conserves "incident.*" "rca" ops

abbrev connected_bus : Bus String
connected_bus = record new_bus { connected = true }

no_subscription : find "incident.*" "rca" connected_bus ≡ none
unfolding find select_first
no_subscription = refl

subscribe-publish_all_example :
    (subscribe "incident.*" "rca" connected_bus >>= λ r.
    publish_all (λ evt. evt.event_id) (incident ∷ evidence ∷ []) r.0)
    ≡ (publish_all (λ evt. evt.event_id) (incident ∷ evidence ∷ []) connected_bus >>= λ b.
        subscribe "incident.*" "rca" b >>= λ r. ok r.0)
subscribe-publish_all_example =
    subscribe-publish_all (λ evt. evt.event_id) "incident.*" "rca" (incident ∷ evidence ∷ [])
      connected_bus refl no_subscription
