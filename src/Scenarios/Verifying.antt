-- ===== src/Scenarios/Verifying.antt =====
-- A recovery whose three windows of evidence, 150 seconds apart, are all healthy.
use Prim.Native.Nat.{ℕ, ◌+◌, ◌*◌}
use k8s_clue.Prelude.{String, ◌≡◌, refl, true, some, none, List, [], ◌∷◌, map, arith}
use k8s_clue.Recovery.{
  Verification, pending, completed, second, bounded_seconds, minimum_distinct, is_stable,
  decide_streak, evaluate_recovery_evidence, on_evidence, observe_all,
}
use k8s_clue.Recovery.Streak.{streak_plan, streak_all, plan_of, observe_all-streak_all}
use k8s_clue.Recovery.Verified.{IsVerified, observe_all-IsVerified}
use k8s_clue.Recovery.Steady.{Arrival, arrived, observe_all-completes}

abbrev opened : Verification
opened = record {
  started_at = some 0;
  deadline_at = some (600 * second);
  minimum_seconds = none;
  evidence_cadence_seconds = some 150;
  healthy_since = none;
  last_healthy_observed_at = none;
  distinct_evidence_count = 0;
  last_evidence_key = "";
}

abbrev healthy_at : String → ℕ → Arrival
healthy_at key window = record {
  evidence = record {
    evidence_key = key;
    window_start = some (window * second);
    checks = ("alertmanager_resolved", some true) ∷ [];
  };
  now = (window + 5) * second;
  window = window * second;
}

abbrev first_window : Arrival
first_window = healthy_at "w1" 10

abbrev later_windows : List Arrival
later_windows = healthy_at "w2" 160 ∷ healthy_at "w3" 310 ∷ []

observe_all-completes_example :
    (observe_all
      (plan_of opened (streak_plan pending [] ""))
      (map arrived (first_window ∷ later_windows))).status
    ≡ completed
unfolding bounded_seconds minimum_distinct
observe_all-completes_example =
    observe_all-completes opened 149 "" first_window later_windows refl
      (
        refl,
        refl,
        refl,
        refl,
        refl,
        (refl, refl, refl, refl, refl, (refl, refl, refl, refl, refl, tt)),
      )
      (omega arith) (omega arith)

completes :
    (observe_all
      (plan_of opened (streak_plan pending [] ""))
      (map arrived (first_window ∷ later_windows))).status
    ≡ completed
unfolding observe_all on_evidence evaluate_recovery_evidence decide_streak is_stable bounded_seconds
    minimum_distinct
completes = refl

observe_all-IsVerified_example : IsVerified opened (map arrived (first_window ∷ later_windows))
observe_all-IsVerified_example =
    observe_all-IsVerified opened "" (map arrived (first_window ∷ later_windows)) completes

observe_all-streak_all_example :
    observe_all (plan_of opened (streak_plan pending [] "")) (map arrived later_windows)
    ≡ plan_of opened (streak_all opened (streak_plan pending [] "") (map arrived later_windows))
observe_all-streak_all_example =
    observe_all-streak_all opened (streak_plan pending [] "") (map arrived later_windows)
