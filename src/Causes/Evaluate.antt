-- ===== src/Causes/Evaluate.antt =====
-- `evaluate_causes` of services/ai/agent/causes/engine.py.
use Prim.Native.Nat.{Ordering}
use Prim.Native.String
use Prim.Native.String.{compare}
use k8s_clue.Prelude.{
  ℕ, zero, suc, ◌+◌, String, Bool, true, false, not, ◌||◌, Option, none, some, List, [], ◌∷◌, ◌++◌,
  map, keep, length,
}
use k8s_clue.Prelude.Json.{Value, Fields}
use k8s_clue.Causes.{
  EvidenceReference, EvidenceItem, MissingEvidenceCheck, CauseCandidate, Score, CauseEvaluation,
  RcaRuleMissing, is_in,
}
use k8s_clue.Causes.Unique.{unique_ordered}
use k8s_clue.Causes.Signals.{BundleSignals, split_signal_groups, signal_missing_token}

-- Texts in the order of their code points.
abbrev pub string_le : String → String → Bool
string_le a b = elim (compare a b) [ Ordering.gt ↦ false | _ ↦ true ]

unfoldable pub insert_sorted : String → List String → List String
insert_sorted v [] = v ∷ []
insert_sorted v (w ∷ ws) = elim (string_le v w) [
  | true ↦ v ∷ w ∷ ws
  | false ↦ w ∷ insert_sorted v ws
]

unfoldable pub sorted : List String → List String
sorted [] = []
sorted (v ∷ vs) = insert_sorted v (sorted vs)

unfoldable pub evidence_key : String → String → String
evidence_key source name = String.◌++◌ source (String.◌++◌ ":" name)

unfoldable pub evidence_keys : List EvidenceItem → List String
evidence_keys [] = []
evidence_keys (item ∷ items) =
    item.source ∷ evidence_key item.source item.name ∷ evidence_keys items

unfoldable pub reference : EvidenceItem → EvidenceReference
reference item = record {
  evidence_ref = item.evidence_ref;
  source = item.source;
  name = item.name;
  check_id = item.check_id;
  summary = item.summary;
  query = item.query;
}

unfoldable pub evidence_refs_for_keys : List EvidenceItem → List String → List EvidenceReference
evidence_refs_for_keys items keys =
    map reference (
      keep (λ item. is_in item.source keys || is_in (evidence_key item.source item.name) keys)
        items)

unfoldable pub missing_evidence_checks : List String → List MissingEvidenceCheck
missing_evidence_checks missing =
    map
      (λ source. record {
        check_id = String.◌++◌ "evidence:" (String.◌++◌ source ":required");
        source = source;
        status = "missing";
      })
      missing

-- Fraction of the requirements that are met, `0.0` without requirements.
unfoldable pub score_of : ℕ → ℕ → Score
score_of met zero = record { num = 0; den = 1 }
score_of met (suc rest) = record { num = met; den = suc rest }

unfoldable pub expected_set : CauseCandidate → List String
expected_set candidate = unique_ordered candidate.expected_evidence

module _ (str_of : Option Value → String) (casefold : String → String) where
  unfoldable pub missing_signal_checks : List Fields → List MissingEvidenceCheck
  missing_signal_checks groups =
      map
        (λ group. record {
          check_id = signal_missing_token str_of group;
          source = "signals";
          status = "missing";
        })
        groups

  -- The loop's body.
  unfoldable pub evaluate_candidate :
      List EvidenceItem → BundleSignals → CauseCandidate → CauseEvaluation
  evaluate_candidate items signals candidate =
      let expected = expected_set candidate in
      let actual = evidence_keys items in
      let supporting = sorted (keep (λ key. is_in key actual) expected) in
      let missing_sources = sorted (keep (λ key. not (is_in key actual)) expected) in
      let (matched, unmatched) = split_signal_groups casefold candidate.signals signals in
      record {
        candidate_id = candidate.candidate_id;
        score =
            score_of (length supporting + length matched)
              (length expected + length candidate.signals);
        checks = candidate.checks;
        supporting_evidence = supporting;
        missing_evidence = missing_sources ++ map (signal_missing_token str_of) unmatched;
        supporting_evidence_refs = evidence_refs_for_keys items supporting;
        missing_evidence_checks =
            missing_evidence_checks missing_sources ++ missing_signal_checks unmatched;
        matched_signal_count = length matched;
        required_signal_count = length candidate.signals;
      }

  unfoldable pub evaluate_causes :
      List EvidenceItem
      → BundleSignals
      → List CauseCandidate
      → Option RcaRuleMissing
      → List CauseEvaluation
  evaluate_causes items signals candidates (some rule_missing) =
      record {
        candidate_id = "unknown";
        score = record { num = 0; den = 1 };
        checks = "matching_cause_rule" ∷ [];
        supporting_evidence = [];
        missing_evidence = rule_missing.missing_evidence;
        supporting_evidence_refs = [];
        missing_evidence_checks = [];
        matched_signal_count = 0;
        required_signal_count = 0;
      }
      ∷ []
  evaluate_causes items signals candidates none = map (evaluate_candidate items signals) candidates
