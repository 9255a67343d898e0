-- ===== src/Causes/Grades.antt =====
-- services/ai/agent/causes/engine.py: the score of an evaluation beside what it lists as missing.
use k8s_clue.Prelude.{
  ℕ, zero, suc, ◌+◌, ◌≤◌, String, ◌≡◌, ◌↔◌, refl, Bool, not, ◌&&◌, ◌||◌, Option, List, [], ◌∷◌, map,
  keep, any-append, length, length-append, arith, str_eq, eq_iff, ◌∙◌, ap,
}
use k8s_clue.Prelude.Json.{Value}
use k8s_clue.Causes.{EvidenceItem, CauseCandidate, CauseEvaluation, is_in}
use k8s_clue.Causes.Unique.{unique_ordered, unique_ordered-in}
use k8s_clue.Causes.Signals.{
  BundleSignals, split_signal_groups, length-split_signal_groups, signal_missing_token,
}
use k8s_clue.Causes.Evaluate.{
  insert_sorted, sorted, evidence_keys, score_of, expected_set, evaluate_candidate,
}

length-insert_sorted :
    (v : String) (ws : List String) → length (insert_sorted v ws) ≡ suc (length ws)
unfolding insert_sorted
length-insert_sorted v [] = refl
length-insert_sorted v (w ∷ ws) = ground (arith, length-insert_sorted v ws)

length-sorted : (vs : List String) → length (sorted vs) ≡ length vs
unfolding sorted
length-sorted [] = refl
length-sorted (v ∷ vs) = omega (arith, length-insert_sorted v (sorted vs), length-sorted vs)

insert_sorted-in :
    (x v : String) (ws : List String) → is_in x (insert_sorted v ws) ≡ (str_eq v x || is_in x ws)
unfolding insert_sorted
insert_sorted-in x v [] = refl
insert_sorted-in x v (w ∷ ws) = ground (arith, insert_sorted-in x v ws)

sorted-in : (x : String) (vs : List String) → is_in x (sorted vs) ≡ is_in x vs
unfolding sorted
sorted-in x [] = refl
sorted-in x (v ∷ vs) = ground (arith, insert_sorted-in x v (sorted vs), sorted-in x vs)

keep-in :
    (test : String → Bool) (x : String) (vs : List String)
    → is_in x (keep test vs) ≡ (is_in x vs && test x)
keep-in test x [] = refl
keep-in test x (v ∷ vs) = ground (arith, keep-in test x vs, eq_iff v x)

length-keep :
    (test : String → Bool) (vs : List String)
    → length (keep test vs) + length (keep (λ v. not (test v)) vs) ≡ length vs
length-keep test [] = refl
length-keep test (v ∷ vs) = ground (arith, length-keep test vs)

length-map : {A B : Type 0} (f : A → B) (l : List A) → length (map f l) ≡ length l
length-map f [] = refl
length-map f (a ∷ l) = omega (arith, length-map f l)

length-zero : {A : Type 0} (l : List A) → length l ≡ 0 → l ≡ []
length-zero [] e = refl
length-zero (a ∷ l) e = absurd (omega arith)

-- The score is the fraction of the requirements that are met.
pub record IsGraded (candidate : CauseCandidate) (evaluation : CauseEvaluation) : Type 0 where
  pub bounded : evaluation.score.num ≤ evaluation.score.den
  pub full : (evaluation.score.num ≡ evaluation.score.den) ↔ (
      (evaluation.missing_evidence ≡ [])
      × (1 ≤ length (expected_set candidate) + length candidate.signals))
  pub signals : evaluation.matched_signal_count ≤ evaluation.required_signal_count

score_of-bounded : (met all : ℕ) → met ≤ all → (score_of met all).num ≤ (score_of met all).den
unfolding score_of
score_of-bounded met zero le = omega arith
score_of-bounded met (suc rest) le = le

score_of-full :
    (met missing all : ℕ)
    → met + missing ≡ all
    → ((score_of met all).num ≡ (score_of met all).den) ↔ ((missing ≡ 0) × (1 ≤ all))
unfolding score_of
score_of-full met missing zero e = ground arith
score_of-full met missing (suc rest) e = ground arith

module _ (str_of : Option Value → String) (casefold : String → String) (items : List EvidenceItem)
    (signals : BundleSignals) (candidate : CauseCandidate) where
  abbrev evaluation : CauseEvaluation
  evaluation = evaluate_candidate str_of casefold items signals candidate

  abbrev shown : String → Bool
  shown key = is_in key (evidence_keys items)

  -- What is met and what is missing are all the requirements.
  met-missing :
      (length evaluation.supporting_evidence + evaluation.matched_signal_count)
        + length evaluation.missing_evidence
      ≡ length (expected_set candidate) + length candidate.signals
  unfolding evaluate_candidate
  met-missing =
      let expected = expected_set candidate in
      let (matched, unmatched) = split_signal_groups casefold candidate.signals signals in
      let missing_sources = keep (λ key. not (shown key)) expected in
      let tokens = map (signal_missing_token str_of) unmatched in
      omega (
        arith,
        length-sorted (keep shown expected),
        length-sorted missing_sources,
        length-keep shown expected,
        length-append (sorted missing_sources) tokens,
        length-map (signal_missing_token str_of) unmatched,
        length-split_signal_groups casefold candidate.signals signals,
      )

  -- Every evaluation has a score of at most one, and of one exactly if nothing is listed as
  -- missing and the candidate requires something, evidence or a signal; it counts no more signals
  -- as matched than the candidate requires.
  pub evaluate_candidate-IsGraded : IsGraded candidate evaluation
  unfolding evaluate_candidate
  evaluate_candidate-IsGraded =
      let met = length evaluation.supporting_evidence + evaluation.matched_signal_count in
      let all = length (expected_set candidate) + length candidate.signals in
      let missing = evaluation.missing_evidence in
      let full = score_of-full met (length missing) all met-missing in
      record {
        bounded = score_of-bounded met all (omega (arith, met-missing));
        full = (
          λ e.
              let (none_missing, some_asked) = full.0 e in
              (length-zero missing none_missing, some_asked),
          λ h. full.1 (ap length h.0, h.1),
        );
        signals = omega (arith, length-split_signal_groups casefold candidate.signals signals);
      }

  -- An evaluation supports a candidate by exactly the expected keys that the bundle has, and lists
  -- as missing exactly the expected keys that it has not and the tokens of the unmatched signals.
  pub evaluate_candidate-partitions :
      (key : String)
      → let unmatched = (split_signal_groups casefold candidate.signals signals).1 in
        (is_in key evaluation.supporting_evidence
          ≡ (is_in key candidate.expected_evidence && shown key))
        × (is_in key evaluation.missing_evidence ≡ (
            (is_in key candidate.expected_evidence && not (shown key))
            || is_in key (map (signal_missing_token str_of) unmatched)))
  unfolding evaluate_candidate expected_set
  evaluate_candidate-partitions key =
      let expected = unique_ordered candidate.expected_evidence in
      let unmatched = (split_signal_groups casefold candidate.signals signals).1 in
      let missing_sources = keep (λ k. not (shown k)) expected in
      (
        sorted-in key (keep shown expected)
            ∙ keep-in shown key expected
            ∙ rw (unique_ordered-in key candidate.expected_evidence) refl,
        any-append (λ v. str_eq v key) (sorted missing_sources)
              (map (signal_missing_token str_of) unmatched)
            ∙ rw
                (
                  sorted-in key missing_sources,
                  keep-in (λ k. not (shown k)) key expected,
                  unique_ordered-in key candidate.expected_evidence,
                )
                refl,
      )
