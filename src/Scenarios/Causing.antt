-- ===== src/Scenarios/Causing.antt =====
-- The analysis of one incident.
use k8s_clue.Prelude.{
  String, ◌≡◌, refl, not, ◌&&◌, ◌||◌, ◌⊎◌, Option, none, some, List, [], ◌∷◌, map, keep, any,
}
use k8s_clue.Prelude.Json.{Value, str, array, item, no_items, dict, Fields, field, no_fields}
use k8s_clue.Causes.{EvidenceItem, CauseCandidate, CauseEvaluation, is_in}
use k8s_clue.Causes.Plan.{
  IncidentRecord, CauseCandidateSpec, CauseProfile, has_id, proposed, plan_causes,
}
use k8s_clue.Causes.Merging.{expects, IsUniqueId, plan_causes-merges}
use k8s_clue.Causes.Signals.{BundleSignals, split_signal_groups, signal_missing_token}
use k8s_clue.Causes.Evaluate.{evidence_keys, evaluate_candidate, evaluate_causes}
use k8s_clue.Causes.Grades.{IsGraded, evaluate_candidate-IsGraded, evaluate_candidate-partitions}
use k8s_clue.Causes.Choose.{
  is_supported, report_of, insufficient_evidence_root_cause, analyze_root_cause,
}
use k8s_clue.Causes.Ranking.{IsBest, analyze_root_cause-IsBest}

abbrev text_of : Option Value → String
text_of (some (str text)) = text
text_of _ = "None"

abbrev as_is : String → String
as_is text = text

abbrev oom_group : Fields
oom_group = field "id" (str "oom") (
    field "any_of" (array (item (dict (field "fact" (str "exit_code=137") no_fields)) no_items))
      no_fields)

abbrev spec_with : List String → CauseCandidateSpec
spec_with expected = record {
  candidate_id = "memory_limit";
  title = "Memory limit";
  description = "The container needs more memory than its limit.";
  expected_evidence = expected;
  checks = "memory" ∷ [];
  signals = oom_group ∷ [];
}

abbrev rule_with : List String → CauseProfile
rule_with expected = record {
  symptoms = "OOMKilled" ∷ [];
  required_sources = expected;
  candidate_specs = spec_with expected ∷ [];
}

abbrev oom_killed : IncidentRecord
oom_killed = record {
  incident_id = "i1";
  cluster_id = "c1";
  resource_kind = "Pod";
  resource_name = "api";
  namespace = some "shop";
  symptom = "OOMKilled";
  severity = "high";
  first_seen_at = none;
  summary = "api was killed";
  category = none;
  workspace_id = "w1";
  secondary_symptoms = [];
}

abbrev rules : List CauseProfile
rules = rule_with ("kubernetes" ∷ []) ∷ rule_with ("metrics" ∷ []) ∷ []

plan_causes-merges_example :
    let plan = plan_causes text_of oom_killed "r1" rules in
    IsUniqueId plan.candidates
    × (any (has_id "memory_limit") plan.candidates
        ≡ any (has_id "memory_limit") (proposed oom_killed rules))
    × (any (expects "memory_limit" "metrics") plan.candidates
        ≡ any (expects "memory_limit" "metrics") (proposed oom_killed rules))
plan_causes-merges_example =
    plan_causes-merges text_of oom_killed "r1" rules "memory_limit" "metrics"

abbrev memory_limit : CauseCandidate
memory_limit = record {
  candidate_id = "memory_limit";
  title = "Memory limit";
  description = "The container needs more memory than its limit.";
  expected_evidence = "kubernetes" ∷ "metrics" ∷ [];
  checks = "memory" ∷ [];
  signals = oom_group ∷ [];
  source = "rule";
}

abbrev seen : List EvidenceItem
seen =
    record {
      source = "kubernetes";
      name = "pods";
      value = no_fields;
      summary = "";
      evidence_ref = "r1";
      check_id = "k1";
      query = none;
    }
    ∷ []

abbrev shown : BundleSignals
shown = record { facts = "exit_code=137" ∷ []; log_lines = []; event_texts = [] }

evaluate_candidate-IsGraded_example :
    IsGraded memory_limit (evaluate_candidate text_of as_is seen shown memory_limit)
evaluate_candidate-IsGraded_example =
    evaluate_candidate-IsGraded text_of as_is seen shown memory_limit

evaluate_candidate-partitions_example :
    let evaluation = evaluate_candidate text_of as_is seen shown memory_limit in
    let unmatched = (split_signal_groups as_is memory_limit.signals shown).1 in
    (is_in "metrics" evaluation.supporting_evidence
      ≡ (is_in "metrics" memory_limit.expected_evidence && is_in "metrics" (evidence_keys seen)))
    × (is_in "metrics" evaluation.missing_evidence ≡ (
        (is_in "metrics" memory_limit.expected_evidence
          && not (is_in "metrics" (evidence_keys seen)))
        || is_in "metrics" (map (signal_missing_token text_of) unmatched)))
evaluate_candidate-partitions_example =
    evaluate_candidate-partitions text_of as_is seen shown memory_limit "metrics"

analyze_root_cause-IsBest_example :
    let evaluations = evaluate_causes text_of as_is seen shown (memory_limit ∷ []) none in
    ((keep is_supported evaluations ≡ [])
      × (analyze_root_cause evaluations ≡ insufficient_evidence_root_cause evaluations))
    ⊎ ((selected : CauseEvaluation) × IsBest evaluations selected
        × (analyze_root_cause evaluations ≡ report_of selected))
analyze_root_cause-IsBest_example =
    analyze_root_cause-IsBest text_of as_is seen shown memory_limit [] refl
