-- ===== src/Causes/Choose.antt =====
-- `analyze_root_cause` of services/ai/agent/causes/engine.py: which evaluation becomes the root
-- cause. Scores are compared as the fractions that they are.
use k8s_clue.Prelude.{
  ◌*◌, String, Bool, true, false, ◌&&◌, ◌||◌, List, [], ◌∷◌, ◌++◌, keep, length, ltb, ◌==◌, str_eq,
  if◌then◌else◌,
}
use k8s_clue.Causes.{Score, CauseEvaluation, RcaReportDetail}
use k8s_clue.Causes.Unique.{unique_ordered}
use k8s_clue.Causes.Evaluate.{missing_evidence_checks}

-- evaluation.score > other.score
abbrev pub score_above : Score → Score → Bool
score_above a b = ltb (b.num * a.den) (a.num * b.den)

abbrev pub score_equal : Score → Score → Bool
score_equal a b = a.num * b.den == b.num * a.den

-- The key (-score, -matched_signal_count, len(missing_evidence)) is smaller.
unfoldable pub precedes : CauseEvaluation → CauseEvaluation → Bool
precedes a b =
    score_above a.score b.score
    || (score_equal a.score b.score
        && (ltb b.matched_signal_count a.matched_signal_count
            || (a.matched_signal_count == b.matched_signal_count
                && ltb (length a.missing_evidence) (length b.missing_evidence))))

-- `min` keeps the first of equals.
unfoldable pub min_from : CauseEvaluation → List CauseEvaluation → CauseEvaluation
min_from best [] = best
min_from best (evaluation ∷ evaluations) =
    min_from (if precedes evaluation best then evaluation else best) evaluations

abbrev pub is_filled : List String → Bool
is_filled [] = false
is_filled (v ∷ vs) = true

-- discriminator_eligible
unfoldable pub is_eligible : CauseEvaluation → Bool
is_eligible evaluation =
    evaluation.required_signal_count == 0
    || evaluation.matched_signal_count == evaluation.required_signal_count

-- supported
unfoldable pub is_supported : CauseEvaluation → Bool
is_supported evaluation = is_eligible evaluation && is_filled evaluation.supporting_evidence

abbrev pub zero_score : Score
zero_score = record { num = 0; den = 1 }

unfoldable pub no_candidates : RcaReportDetail
no_candidates = record {
  root_cause = "분석 가능한 원인 후보 없음";
  confidence = zero_score;
  selected_candidate_id = "none";
  supporting_evidence = [];
  missing_evidence = [];
  missing_evidence_checks = [];
  supporting_evidence_refs = [];
}

unfoldable pub unknown_root_cause : CauseEvaluation → RcaReportDetail
unknown_root_cause evaluation =
    let missing = unique_ordered ("matching_cause_rule" ∷ evaluation.missing_evidence) in
    record {
      root_cause = "unknown";
      confidence = zero_score;
      selected_candidate_id = "unknown";
      supporting_evidence = [];
      missing_evidence = missing;
      missing_evidence_checks = missing_evidence_checks missing;
      supporting_evidence_refs = evaluation.supporting_evidence_refs;
    }

unfoldable pub all_missing : List CauseEvaluation → List String
all_missing [] = []
all_missing (evaluation ∷ evaluations) = evaluation.missing_evidence ++ all_missing evaluations

unfoldable pub insufficient_evidence_root_cause : List CauseEvaluation → RcaReportDetail
insufficient_evidence_root_cause evaluations =
    let missing = unique_ordered (all_missing evaluations) in
    record {
      root_cause = "insufficient_evidence";
      confidence = zero_score;
      selected_candidate_id = "none";
      supporting_evidence = [];
      missing_evidence = missing;
      missing_evidence_checks = missing_evidence_checks missing;
      supporting_evidence_refs = [];
    }

unfoldable pub report_of : CauseEvaluation → RcaReportDetail
report_of selected = record {
  root_cause = selected.candidate_id;
  confidence = selected.score;
  selected_candidate_id = selected.candidate_id;
  supporting_evidence = selected.supporting_evidence;
  missing_evidence = selected.missing_evidence;
  missing_evidence_checks = selected.missing_evidence_checks;
  supporting_evidence_refs = selected.supporting_evidence_refs;
}

-- The end of `analyze_root_cause`, by what is supported.
abbrev pub choose : List CauseEvaluation → List CauseEvaluation → RcaReportDetail
choose evaluations [] = insufficient_evidence_root_cause evaluations
choose evaluations (first ∷ rest) = report_of (min_from first rest)

unfoldable pub analyze_root_cause : List CauseEvaluation → RcaReportDetail
analyze_root_cause [] = no_candidates
analyze_root_cause (first ∷ rest) =
    if str_eq first.candidate_id "unknown"
    then unknown_root_cause first
    else choose (first ∷ rest) (keep is_supported (first ∷ rest))
