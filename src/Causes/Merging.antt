-- ===== src/Causes/Merging.antt =====
-- The merging of proposed candidates in services/ai/agent/causes/engine.py: the ids and the expected
-- evidence of what it returns.
use k8s_clue.Prelude.{
  String, ◌≡◌, refl, ap, Bool, true, false, ◌&&◌, ◌||◌, Option, List, [], ◌∷◌, ◌++◌, any,
  any-append, arith, str_eq, eq_iff,
}
use k8s_clue.Prelude.Json.{Value}
use k8s_clue.Prelude.Rows.{update_where}
use k8s_clue.Causes.{CauseCandidate, is_in}
use k8s_clue.Causes.Unique.{unique_ordered-in}
use k8s_clue.Causes.Plan.{
  IncidentRecord, CauseProfile, has_id, proposed, merge_into, merge_candidate, merge_from,
  merge_candidates, plan_of, plan_causes,
}

-- The candidate's id has a row that expects this source.
abbrev pub expects : String → String → CauseCandidate → Bool
expects id source candidate =
    str_eq candidate.candidate_id id && is_in source candidate.expected_evidence

-- Every candidate has another id than those behind it.
abbrev pub IsUniqueId : List CauseCandidate → Type 0
IsUniqueId [] = Unit
IsUniqueId (c ∷ cs) = (any (has_id c.candidate_id) cs ≡ false) × IsUniqueId cs

abbrev pub is_empty : List CauseCandidate → Bool
is_empty [] = true
is_empty (c ∷ cs) = false

is_in-append : (v : String) (xs ys : List String) → is_in v (xs ++ ys) ≡ (is_in v xs || is_in v ys)
is_in-append v xs ys = any-append (λ w. str_eq w v) xs ys

-- Equal ids are found alike.
has_id-same :
    (id other : String) (by_id : List CauseCandidate)
    → str_eq other id ≡ true
    → any (has_id other) by_id ≡ any (has_id id) by_id
has_id-same id other by_id same = ap (λ i. any (has_id i) by_id) ((eq_iff other id).0 same)

module _ (str_of : Option Value → String) where
  expects-merge_into :
      (id source : String) (candidate existing : CauseCandidate)
      → existing.candidate_id ≡ candidate.candidate_id
      → expects id source (merge_into str_of candidate existing)
        ≡ (expects id source existing || expects id source candidate)
  unfolding merge_into
  expects-merge_into id source candidate existing same = ground (
    arith,
    unique_ordered-in source (existing.expected_evidence ++ candidate.expected_evidence),
    is_in-append source existing.expected_evidence candidate.expected_evidence,
  )

  expects-update :
      (id source : String) (candidate : CauseCandidate) (by_id : List CauseCandidate)
      → any
          (expects id source)
          (update_where (has_id candidate.candidate_id) (merge_into str_of candidate) by_id)
        ≡ (any (expects id source) by_id
            || (any (has_id candidate.candidate_id) by_id && expects id source candidate))
  unfolding update_where
  expects-update id source candidate [] = refl
  expects-update id source candidate (existing ∷ by_id) = ground (
    arith,
    expects-update id source candidate by_id,
    expects-merge_into id source candidate existing,
    eq_iff existing.candidate_id candidate.candidate_id,
  )

  expects-merge_candidate :
      (id source : String) (candidate : CauseCandidate) (by_id : List CauseCandidate)
      → any (expects id source) (merge_candidate str_of candidate by_id)
        ≡ (any (expects id source) by_id || expects id source candidate)
  unfolding merge_candidate
  expects-merge_candidate id source candidate by_id = ground (
    arith,
    expects-update id source candidate by_id,
    any-append (expects id source) by_id (candidate ∷ []),
  )

  expects-merge_from :
      (id source : String) (by_id candidates : List CauseCandidate)
      → any (expects id source) (merge_from str_of by_id candidates)
        ≡ (any (expects id source) by_id || any (expects id source) candidates)
  unfolding merge_from
  expects-merge_from id source by_id [] = ground arith
  expects-merge_from id source by_id (candidate ∷ candidates) = ground (
    arith,
    expects-merge_from id source (merge_candidate str_of candidate by_id) candidates,
    expects-merge_candidate id source candidate by_id,
  )

  has_id-update :
      (id : String) (candidate : CauseCandidate) (by_id : List CauseCandidate)
      → any
          (has_id id)
          (update_where (has_id candidate.candidate_id) (merge_into str_of candidate) by_id)
        ≡ any (has_id id) by_id
  unfolding update_where merge_into
  has_id-update id candidate [] = refl
  has_id-update id candidate (existing ∷ by_id) = ground (arith, has_id-update id candidate by_id)

  has_id-merge_candidate :
      (id : String) (candidate : CauseCandidate) (by_id : List CauseCandidate)
      → any (has_id id) (merge_candidate str_of candidate by_id)
        ≡ (any (has_id id) by_id || str_eq candidate.candidate_id id)
  unfolding merge_candidate
  has_id-merge_candidate id candidate by_id = ground (
    arith,
    has_id-update id candidate by_id,
    has_id-same id candidate.candidate_id by_id,
    any-append (has_id id) by_id (candidate ∷ []),
  )

  has_id-merge_from :
      (id : String) (by_id candidates : List CauseCandidate)
      → any (has_id id) (merge_from str_of by_id candidates)
        ≡ (any (has_id id) by_id || any (has_id id) candidates)
  unfolding merge_from
  has_id-merge_from id by_id [] = ground arith
  has_id-merge_from id by_id (candidate ∷ candidates) = ground (
    arith,
    has_id-merge_from id (merge_candidate str_of candidate by_id) candidates,
    has_id-merge_candidate id candidate by_id,
  )

  update-IsUniqueId :
      (candidate : CauseCandidate) (by_id : List CauseCandidate)
      → IsUniqueId by_id
      → IsUniqueId
          (update_where (has_id candidate.candidate_id) (merge_into str_of candidate) by_id)
  unfolding update_where merge_into
  update-IsUniqueId candidate [] u = tt
  update-IsUniqueId candidate (existing ∷ by_id) u = ground (
    arith,
    update-IsUniqueId candidate by_id u.1,
    has_id-update existing.candidate_id candidate by_id,
    u.0,
  )

  snoc-IsUniqueId :
      (candidate : CauseCandidate) (by_id : List CauseCandidate)
      → IsUniqueId by_id
      → any (has_id candidate.candidate_id) by_id ≡ false
      → IsUniqueId (by_id ++ candidate ∷ [])
  snoc-IsUniqueId candidate [] u new = (refl, tt)
  snoc-IsUniqueId candidate (existing ∷ by_id) u new = (
    ground (
      arith,
      u.0,
      any-append (has_id existing.candidate_id) by_id (candidate ∷ []),
      eq_iff existing.candidate_id candidate.candidate_id,
      eq_iff candidate.candidate_id existing.candidate_id,
    ),
    snoc-IsUniqueId candidate by_id u.1 (ground arith),
  )

  merge_candidate-IsUniqueId :
      (candidate : CauseCandidate) (by_id : List CauseCandidate)
      → IsUniqueId by_id
      → IsUniqueId (merge_candidate str_of candidate by_id)
  unfolding merge_candidate
  merge_candidate-IsUniqueId candidate by_id u =
      ground (arith, update-IsUniqueId candidate by_id u, snoc-IsUniqueId candidate by_id u)

  merge_from-IsUniqueId :
      (by_id candidates : List CauseCandidate)
      → IsUniqueId by_id
      → IsUniqueId (merge_from str_of by_id candidates)
  unfolding merge_from
  merge_from-IsUniqueId by_id [] u = u
  merge_from-IsUniqueId by_id (candidate ∷ candidates) u =
      merge_from-IsUniqueId (merge_candidate str_of candidate by_id) candidates
        (merge_candidate-IsUniqueId candidate by_id u)

  -- What the plan is made of, its missing rule aside.
  plan_of-candidates :
      (incident : IncidentRecord) (evidence_ref : String) (merged : List CauseCandidate)
      → (plan_of incident evidence_ref merged).candidates ≡ merged
  plan_of-candidates incident evidence_ref [] = refl
  plan_of-candidates incident evidence_ref (candidate ∷ merged) = refl

  -- No two candidates of the plan have the same id. For each id, the plan has a candidate with it
  -- exactly if one is proposed, and for each id and source the plan has a candidate of the id that
  -- expects the source exactly if one of those proposed does.
  pub plan_causes-merges :
      (incident : IncidentRecord) (evidence_ref : String) (rules : List CauseProfile)
      (id source : String)
      → let plan = plan_causes str_of incident evidence_ref rules in
        IsUniqueId plan.candidates
        × (any (has_id id) plan.candidates ≡ any (has_id id) (proposed incident rules))
        × (any (expects id source) plan.candidates
            ≡ any (expects id source) (proposed incident rules))
  unfolding plan_causes merge_candidates
  plan_causes-merges incident evidence_ref rules id source =
      let candidates = proposed incident rules in
      rw (plan_of-candidates incident evidence_ref (merge_from str_of [] candidates)) (
        merge_from-IsUniqueId [] candidates tt,
        has_id-merge_from id [] candidates,
        expects-merge_from id source [] candidates,
      )
