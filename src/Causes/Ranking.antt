-- ===== src/Causes/Ranking.antt =====
-- services/ai/agent/causes/engine.py: the evaluation that `analyze_root_cause` selects.
use native.Mathlib.Nat.{mul-le-mul_right, le_of_mul-le-mul_right, mul_right_comm}
use k8s_clue.Prelude.{
  ℕ, zero, suc, ◌*◌, ◌≤◌, String, ◌≡◌, refl, ◌∙◌, Bool, true, false, not, ◌&&◌, Option, none, List,
  [], ◌∷◌, map, keep, All, arith, str_eq, Bool-cases, ◌⊎◌, inl, inr, if◌then◌else◌, ap,
}
use k8s_clue.Prelude.Json.{Value}
use k8s_clue.Causes.{EvidenceItem, CauseCandidate, Score, CauseEvaluation}
use k8s_clue.Causes.Signals.{BundleSignals}
use k8s_clue.Causes.Evaluate.{score_of, evaluate_candidate, evaluate_causes}
use k8s_clue.Causes.Choose.{
  is_filled, is_eligible, precedes, min_from, is_supported, report_of, choose,
  insufficient_evidence_root_cause, analyze_root_cause,
}

score_trans :
    (a b c : Score)
    → 1 ≤ b.den
    → a.num * b.den ≤ b.num * a.den
    → b.num * c.den ≤ c.num * b.den
    → a.num * c.den ≤ c.num * a.den
score_trans a b c p ab bc =
    le_of_mul-le-mul_right
      (omega (
        arith,
        mul-le-mul_right c.den ab,
        mul-le-mul_right a.den bc,
        mul_right_comm a.num b.den c.den,
        mul_right_comm b.num a.den c.den,
        mul_right_comm c.num b.den a.den,
      ))
      p

-- One evaluation is as good as another.
abbrev no_worse : CauseEvaluation → CauseEvaluation → Bool
no_worse a b = not (precedes b a)

no_worse_refl : (a : CauseEvaluation) → no_worse a a ≡ true
unfolding precedes
no_worse_refl a = ground arith

precedes-no_worse : (a b : CauseEvaluation) → precedes a b ≡ true → no_worse a b ≡ true
unfolding precedes
precedes-no_worse a b h = ground arith

no_worse_trans :
    (a b c : CauseEvaluation)
    → 1 ≤ a.score.den
    → 1 ≤ b.score.den
    → 1 ≤ c.score.den
    → no_worse a b ≡ true
    → no_worse b c ≡ true
    → no_worse a c ≡ true
unfolding precedes
no_worse_trans a b c pa pb pc ab bc = ground (
  arith,
  score_trans a.score b.score c.score pb,
  score_trans c.score b.score a.score pb,
  score_trans a.score c.score b.score pc,
  score_trans b.score c.score a.score pc,
  score_trans b.score a.score c.score pa,
  score_trans c.score a.score b.score pa,
)

abbrev IsPositive : CauseEvaluation → Type 0
IsPositive e = 1 ≤ e.score.den

abbrev pub IsOneOf : CauseEvaluation → List CauseEvaluation → Type 0
IsOneOf x [] = ⊥
IsOneOf x (e ∷ es) = (x ≡ e) ⊎ IsOneOf x es

-- One round of `min`, by its comparison.
min_from-cases :
    (P : CauseEvaluation → Type 0) (best e : CauseEvaluation) (es : List CauseEvaluation)
    → (precedes e best ≡ true → P (min_from e es))
    → (precedes e best ≡ false → P (min_from best es))
    → P (min_from best (e ∷ es))
unfolding min_from
min_from-cases P best e es below above = by_case (precedes e best) below above
  where
    by_case :
        (b : Bool)
        → (b ≡ true → P (min_from e es))
        → (b ≡ false → P (min_from best es))
        → P (min_from (if b then e else best) es)
    by_case true below above = below refl
    by_case false below above = above refl

min_from-IsOneOf :
    (best : CauseEvaluation) (es : List CauseEvaluation)
    → (min_from best es ≡ best) ⊎ IsOneOf (min_from best es) es
unfolding min_from
min_from-IsOneOf best [] = inl refl
min_from-IsOneOf best (e ∷ es) =
    min_from-cases (λ m. (m ≡ best) ⊎ IsOneOf m (e ∷ es)) best e es
      (λ h. inr (min_from-IsOneOf e es))
      (λ h. elim (min_from-IsOneOf best es) [ inl same ↦ inl same | inr other ↦ inr (inr other) ])

keep-IsOneOf :
    (test : CauseEvaluation → Bool) (x : CauseEvaluation) (es : List CauseEvaluation)
    → IsOneOf x (keep test es)
    → IsOneOf x es × (test x ≡ true)
keep-IsOneOf test x [] m = absurd m
keep-IsOneOf test x (e ∷ es) m = elim (Bool-cases (test e)) [
  | inl p ↦ elim (rw p at m) [
    | inl same ↦ (inl same, ap test same ∙ p)
    | inr other ↦ let (there, ok) = keep-IsOneOf test x es other in (inr there, ok)
  ]
  | inr p ↦ let (there, ok) = keep-IsOneOf test x es (rw p at m) in (inr there, ok)
]

keep-All :
    (P : CauseEvaluation → Type 0) (test : CauseEvaluation → Bool) (es : List CauseEvaluation)
    → All P es
    → All P (keep test es)
keep-All P test [] h = tt
keep-All P test (e ∷ es) h = elim (Bool-cases (test e)) [
  | inl p ↦ rw p (h.0, keep-All P test es h.1)
  | inr p ↦ rw p (keep-All P test es h.1)
]

min_from-no_worse :
    (best : CauseEvaluation) (es : List CauseEvaluation)
    → IsPositive best
    → All IsPositive es
    → IsPositive (min_from best es)
      × (no_worse (min_from best es) best ≡ true)
      × All (λ e. no_worse (min_from best es) e ≡ true) es
unfolding min_from
min_from-no_worse best [] p ps = (p, no_worse_refl best, tt)
min_from-no_worse best (e ∷ es) p ps =
    min_from-cases
      (λ m. IsPositive m × (no_worse m best ≡ true) × All (λ x. no_worse m x ≡ true) (e ∷ es)) best
      e es
      (λ h.
        let (q, first, rest) = min_from-no_worse e es ps.0 ps.1 in
        (
          q,
          no_worse_trans (min_from e es) e best q ps.0 p first (precedes-no_worse e best h),
          (first, rest),
        ))
      (λ h.
        let (q, first, rest) = min_from-no_worse best es p ps.1 in
        (q, first, (no_worse_trans (min_from best es) best e q p ps.0 first (rw h refl), rest)))

supported-means :
    (e : CauseEvaluation)
    → is_supported e ≡ true
    → ((e.required_signal_count ≡ 0) ⊎ (e.matched_signal_count ≡ e.required_signal_count))
      × (is_filled e.supporting_evidence ≡ true)
unfolding is_supported is_eligible
supported-means e h = ground arith

-- The selected evaluation is one of the list, it is eligible and has support, and none that is
-- eligible and has support comes before it.
pub record IsBest (evaluations : List CauseEvaluation) (selected : CauseEvaluation) : Type 0 where
  pub member : IsOneOf selected evaluations
  pub eligible :
      (selected.required_signal_count ≡ 0)
      ⊎ (selected.matched_signal_count ≡ selected.required_signal_count)
  pub supported : is_filled selected.supporting_evidence ≡ true
  pub first : All (λ e. (is_supported e && precedes e selected) ≡ false) evaluations

-- What holds of the kept ones holds of all, up to the test.
keep-first :
    (selected : CauseEvaluation) (es : List CauseEvaluation)
    → All (λ e. no_worse selected e ≡ true) (keep is_supported es)
    → All (λ e. (is_supported e && precedes e selected) ≡ false) es
keep-first selected [] h = tt
keep-first selected (e ∷ es) h = elim (Bool-cases (is_supported e)) [
  | inl p ↦ let (here, there) = rw p at h in (rw p (ground arith), keep-first selected es there)
  | inr p ↦ (rw p refl, keep-first selected es (rw p at h))
]

choose-IsBest :
    (evaluations supported : List CauseEvaluation)
    → keep is_supported evaluations ≡ supported
    → All IsPositive evaluations
    → ((supported ≡ [])
        × (choose evaluations supported ≡ insufficient_evidence_root_cause evaluations))
      ⊎ ((selected : CauseEvaluation) × IsBest evaluations selected
          × (choose evaluations supported ≡ report_of selected))
choose-IsBest evaluations [] e ps = inl (refl, refl)
choose-IsBest evaluations (best ∷ rest) e ps =
    let kept = keep-All IsPositive is_supported evaluations ps in
    let positive = rw e at kept in
    let (p, here, there) = min_from-no_worse best rest positive.0 positive.1 in
    let (member, supported) =
      keep-IsOneOf is_supported (min_from best rest) evaluations
        (rw e (min_from-IsOneOf best rest)) in
    inr (
      min_from best rest,
      record {
        member = member;
        eligible = (supported-means (min_from best rest) supported).0;
        supported = (supported-means (min_from best rest) supported).1;
        first = keep-first (min_from best rest) evaluations (rw e (here, there));
      },
      refl,
    )

score_of-positive : (met all : ℕ) → 1 ≤ (score_of met all).den
unfolding score_of
score_of-positive met zero = omega arith
score_of-positive met (suc rest) = omega arith

module _ (str_of : Option Value → String) (casefold : String → String) (items : List EvidenceItem)
    (signals : BundleSignals) where
  evaluate-IsPositive :
      (candidates : List CauseCandidate)
      → All IsPositive (map (evaluate_candidate str_of casefold items signals) candidates)
  unfolding evaluate_candidate
  evaluate-IsPositive [] = tt
  evaluate-IsPositive (candidate ∷ candidates) =
      (score_of-positive _ _, evaluate-IsPositive candidates)

  -- The analysis of a plan with candidates, the first of which is not called "unknown", either
  -- finds no evaluation that has support and all its signals matched, and reports insufficient
  -- evidence, or reports one that has both, of the highest score among those that have, then with
  -- the most signals matched, then with the fewest missing.
  pub analyze_root_cause-IsBest :
      (candidate : CauseCandidate) (candidates : List CauseCandidate)
      → str_eq candidate.candidate_id "unknown" ≡ false
      → let evaluations =
          evaluate_causes str_of casefold items signals (candidate ∷ candidates) none in
        ((keep is_supported evaluations ≡ [])
          × (analyze_root_cause evaluations ≡ insufficient_evidence_root_cause evaluations))
        ⊎ ((selected : CauseEvaluation) × IsBest evaluations selected
            × (analyze_root_cause evaluations ≡ report_of selected))
  unfolding evaluate_causes analyze_root_cause evaluate_candidate
  analyze_root_cause-IsBest candidate candidates named =
      let evaluations =
        map (evaluate_candidate str_of casefold items signals) (candidate ∷ candidates) in
      rw named (
        choose-IsBest evaluations (keep is_supported evaluations) refl
          (evaluate-IsPositive (candidate ∷ candidates)))
