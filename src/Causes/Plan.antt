-- ===== src/Causes/Plan.antt =====
-- `plan_causes`, `merge_candidates` and `merge_signal_groups` of
-- services/ai/agent/causes/engine.py, `required_evidence_sources`, and the rules of
-- services/ai/agent/playbooks/cause.py. A group of signals is a dict, as its type says.
use k8s_clue.Prelude.{
  String, Bool, true, false, Option, none, some, List, [], ◌∷◌, ◌++◌, map, any, str_eq,
  if◌then◌else◌,
}
use k8s_clue.Prelude.Json.{Value, Fields, get}
use k8s_clue.Prelude.Rows.{update_where}
use k8s_clue.Causes.{CauseCandidate, RcaRuleMissing, is_in}
use k8s_clue.Causes.Unique.{unique_ordered}

pub record IncidentRecord : Type 0 where
  pub incident_id : String
  pub cluster_id : String
  pub resource_kind : String
  pub resource_name : String
  pub namespace : Option String
  pub symptom : String
  pub severity : String
  pub first_seen_at : Option String
  pub summary : String
  pub category : Option String
  pub workspace_id : String
  pub secondary_symptoms : List String

pub record CauseCandidateSpec : Type 0 where
  pub candidate_id : String
  pub title : String
  pub description : String
  pub expected_evidence : List String
  pub checks : List String
  pub signals : List Fields

unfoldable pub to_candidate : CauseCandidateSpec → CauseCandidate
to_candidate spec = record {
  candidate_id = spec.candidate_id;
  title = spec.title;
  description = spec.description;
  expected_evidence = spec.expected_evidence;
  checks = spec.checks;
  signals = spec.signals;
  source = "rule";
}

pub record CauseProfile : Type 0 where
  pub symptoms : List String
  pub required_sources : List String
  pub candidate_specs : List CauseCandidateSpec

-- `SymptomCauseRule.matches` and `SymptomEvidenceRequirementRule.matches`
unfoldable pub matches : CauseProfile → IncidentRecord → Bool
matches rule incident = is_in incident.symptom rule.symptoms

-- The sources of all the rules that match, or the default.
unfoldable pub matching_sources : IncidentRecord → List CauseProfile → List String
matching_sources incident [] = []
matching_sources incident (rule ∷ rules) =
    (if matches rule incident then rule.required_sources else []) ++ matching_sources incident rules

abbrev pub sources_or_default : List String → List String
sources_or_default [] = "kubernetes" ∷ []
sources_or_default (source ∷ sources) = unique_ordered (source ∷ sources)

unfoldable pub required_evidence_sources : IncidentRecord → List CauseProfile → List String
required_evidence_sources incident rules = sources_or_default (matching_sources incident rules)

abbrev pub has_id : String → CauseCandidate → Bool
has_id id candidate = str_eq candidate.candidate_id id

unfoldable pub proposed : IncidentRecord → List CauseProfile → List CauseCandidate
proposed incident [] = []
proposed incident (rule ∷ rules) =
    (if matches rule incident then map to_candidate rule.candidate_specs else [])
    ++ proposed incident rules

pub record CausePlan : Type 0 where
  pub candidates : List CauseCandidate
  pub rule_missing : Option RcaRuleMissing

unfoldable pub build_rule_missing : IncidentRecord → String → RcaRuleMissing
build_rule_missing incident evidence_ref = record {
  incident_id = incident.incident_id;
  symptom = incident.symptom;
  evidence_ref = evidence_ref;
  missing_evidence = "matching_cause_rule" ∷ [];
  workspace_id = incident.workspace_id;
}

abbrev pub plan_of : IncidentRecord → String → List CauseCandidate → CausePlan
plan_of incident evidence_ref [] = record {
  candidates = [];
  rule_missing = some (build_rule_missing incident evidence_ref);
}
plan_of incident evidence_ref (candidate ∷ merged) = record {
  candidates = candidate ∷ merged;
  rule_missing = none;
}

module _ (str_of : Option Value → String) where
  abbrev pub group_id : Fields → String
  group_id group = str_of (get "id" group)

  unfoldable pub new_groups : List String → List Fields → List Fields
  new_groups seen [] = []
  new_groups seen (group ∷ groups) = elim (is_in (group_id group) seen) [
    | true ↦ new_groups seen groups
    | false ↦ group ∷ new_groups (group_id group ∷ seen) groups
  ]

  unfoldable pub merge_signal_groups : List Fields → List Fields → List Fields
  merge_signal_groups existing incoming = existing ++ new_groups (map group_id existing) incoming

  unfoldable pub merge_into : CauseCandidate → CauseCandidate → CauseCandidate
  merge_into candidate existing = record existing {
    expected_evidence = unique_ordered (existing.expected_evidence ++ candidate.expected_evidence);
    checks = unique_ordered (existing.checks ++ candidate.checks);
    signals = merge_signal_groups existing.signals candidate.signals;
  }

  -- One round of the loop on `by_id`, a dict in the order of insertion.
  unfoldable pub merge_candidate : CauseCandidate → List CauseCandidate → List CauseCandidate
  merge_candidate candidate by_id =
      if any (has_id candidate.candidate_id) by_id
      then update_where (has_id candidate.candidate_id) (merge_into candidate) by_id
      else by_id ++ candidate ∷ []

  unfoldable pub merge_from : List CauseCandidate → List CauseCandidate → List CauseCandidate
  merge_from by_id [] = by_id
  merge_from by_id (candidate ∷ candidates) =
      merge_from (merge_candidate candidate by_id) candidates

  unfoldable pub merge_candidates : List CauseCandidate → List CauseCandidate
  merge_candidates candidates = merge_from [] candidates

  unfoldable pub plan_causes : IncidentRecord → String → List CauseProfile → CausePlan
  plan_causes incident evidence_ref rules =
      plan_of incident evidence_ref (merge_candidates (proposed incident rules))
