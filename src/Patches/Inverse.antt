-- ===== src/Patches/Inverse.antt =====
-- What `validate_scalar_patch_plan` of domains/gitops/source_patch.py guarantees of the rollback of a
-- plan that it accepts.
use Prim.Native.Nat.{ℕ}
use Prim.Native.Char.{Char}
use k8s_clue.Prelude.{
  String, ◌≡◌, refl, Bool, true, false, not, ◌&&◌, ◌||◌, Option, none, some, List, [], ◌∷◌, map,
  length, is_in, eq_iff, arith, Bool-cases, Option-cases, inl, inr, and_true, ap, sym, ◌∙◌,
}
use k8s_clue.Patches.{accept, unless_refused, ScalarFieldReplacement, ManifestScalarPatchPlan}
use k8s_clue.Patches.Text.{has_duplicate}
use k8s_clue.Patches.Distinct.{is_in-covers}
use k8s_clue.Patches.Scalars.{scalar_value, same_scalar, action_allows_replacement}
use k8s_clue.Patches.Validation.{
  is_complete, has_segments, path_of, by_path, is_inverse, is_reversible, all_reversible,
  validate_scalar_patch_plan,
}

pub by_path-path :
    (path : String) (items : List ScalarFieldReplacement) (item : ScalarFieldReplacement)
    → by_path path items ≡ some item
    → item.field_path ≡ path
unfolding by_path
by_path-path path [] item h = ground arith
by_path-path path (x ∷ xs) item h =
    ground (arith, by_path-path path xs item, eq_iff x.field_path path)

pub by_path-none :
    (path : String) (items : List ScalarFieldReplacement)
    → is_in path (map path_of items) ≡ false
    → by_path path items ≡ none
unfolding by_path
by_path-none path [] h = refl
by_path-none path (x ∷ xs) h = ground (arith, by_path-none path xs)

by_path-absent :
    (path : String) (items : List ScalarFieldReplacement)
    → by_path path items ≡ none
    → is_in path (map path_of items) ≡ false
unfolding by_path
by_path-absent path [] h = refl
by_path-absent path (x ∷ xs) h = ground (arith, by_path-absent path xs)

three_checks :
    (complete duplicate rollback_duplicate reversible : Bool) (a b c : String)
    → unless_refused (not complete) a (
        unless_refused duplicate b (unless_refused (rollback_duplicate || not reversible) c accept))
      ≡ accept
    → (complete ≡ true) × (duplicate ≡ false) × (rollback_duplicate ≡ false) × (reversible ≡ true)
three_checks complete duplicate rollback_duplicate reversible a b c h = ground arith

-- How the two entries of one path stand to each other.
abbrev pub Inverted : Option ScalarFieldReplacement → Option ScalarFieldReplacement → Type 0
Inverted none none = Unit
Inverted (some rollback) (some item) =
    (same_scalar rollback.current_value item.desired_value ≡ true)
    × (same_scalar rollback.desired_value item.current_value ≡ true)
Inverted _ _ = ⊥

Inverted-none : {o o' : Option ScalarFieldReplacement} → o ≡ none → o' ≡ none → Inverted o o'
Inverted-none h k = rw (h, k) tt

Inverted-some :
    {o o' : Option ScalarFieldReplacement} {r item : ScalarFieldReplacement}
    → o ≡ some r
    → o' ≡ some item
    → is_inverse r item ≡ true
    → Inverted o o'
Inverted-some h k inverse = rw (h, k) (and_true inverse)

has_entry :
    (path : String) (items : List ScalarFieldReplacement)
    → is_in path (map path_of items) ≡ true
    → (item : ScalarFieldReplacement) × (by_path path items ≡ some item)
has_entry path items h = elim (Option-cases (by_path path items)) [
  | inl absent ↦ ground (arith, by_path-absent path items absent)
  | inr found ↦ found
]

length-map_path : (items : List ScalarFieldReplacement) → length (map path_of items) ≡ length items
length-map_path [] = refl
length-map_path (x ∷ xs) = omega (arith, length-map_path xs)

is_complete-lengths :
    (plan : ManifestScalarPatchPlan)
    → is_complete plan ≡ true
    → length plan.rollback_replacements ≡ length plan.replacements
unfolding is_complete
is_complete-lengths plan h = ground arith

inverse_of_reversible :
    (a b c d f : Bool) (rollback : Option ScalarFieldReplacement) (item : ScalarFieldReplacement)
    → (a && b && c && d && elim rollback [ none ↦ false | some r ↦ is_inverse r item ] && f) ≡ true
    → (r : ScalarFieldReplacement) × (rollback ≡ some r) × (is_inverse r item ≡ true)
inverse_of_reversible a b c d f none item h = ground arith
inverse_of_reversible a b c d f (some r) item h = (r, refl, ground arith)

module _ (decimal : Char → Option ℕ) where
  pub all_reversible-by_path :
      (action_type : String) (rollbacks items : List ScalarFieldReplacement) (path : String)
      (item : ScalarFieldReplacement)
      → all_reversible decimal action_type rollbacks items ≡ true
      → by_path path items ≡ some item
      → is_reversible decimal action_type rollbacks item ≡ true
  unfolding by_path all_reversible
  all_reversible-by_path action_type rollbacks [] path item h k = ground arith
  all_reversible-by_path action_type rollbacks (x ∷ xs) path item h k =
      ground (arith, all_reversible-by_path action_type rollbacks xs path item)

  -- The checks of the validator, one by one.
  pub record IsAccepted (plan : ManifestScalarPatchPlan) : Type 0 where
    pub complete : is_complete plan ≡ true
    pub distinct : has_duplicate (map path_of plan.replacements) ≡ false
    pub rollback_distinct : has_duplicate (map path_of plan.rollback_replacements) ≡ false
    pub reversible :
        all_reversible decimal plan.action_type plan.rollback_replacements plan.replacements ≡ true

  pub validate_scalar_patch_plan-IsAccepted :
      (plan : ManifestScalarPatchPlan)
      → validate_scalar_patch_plan decimal plan ≡ accept
      → IsAccepted plan
  unfolding validate_scalar_patch_plan
  validate_scalar_patch_plan-IsAccepted plan h =
      let (a, b, c, d) = three_checks _ _ _ _ _ _ _ h in
      record { complete = a; distinct = b; rollback_distinct = c; reversible = d }

  accepted_entry :
      (plan : ManifestScalarPatchPlan) (path : String) (item : ScalarFieldReplacement)
      → IsAccepted plan
      → by_path path plan.replacements ≡ some item
      → (r : ScalarFieldReplacement) × (by_path path plan.rollback_replacements ≡ some r)
        × (is_inverse r item ≡ true)
  unfolding is_reversible
  accepted_entry plan path item accepted h =
      let checked = all_reversible-by_path _ _ plan.replacements path item accepted.reversible h in
      let (r, found, inverse) =
        inverse_of_reversible (has_segments item.field_path) (scalar_value item.current_value)
          (scalar_value item.desired_value)
          (not (same_scalar item.current_value item.desired_value))
          (action_allows_replacement decimal plan.action_type item)
          (by_path item.field_path plan.rollback_replacements) item checked in
      (
        r,
        ap (λ p. by_path p plan.rollback_replacements)
              (sym (by_path-path path plan.replacements item h))
            ∙ found,
        inverse,
      )

  accepted_paths :
      (plan : ManifestScalarPatchPlan) (path : String)
      → IsAccepted plan
      → is_in path (map path_of plan.replacements) ≡ true
      → is_in path (map path_of plan.rollback_replacements) ≡ true
  accepted_paths plan path accepted h =
      let (item, found) = has_entry path plan.replacements h in
      let (r, back, inverse) = accepted_entry plan path item accepted found in
      elim (Bool-cases (is_in path (map path_of plan.rollback_replacements))) [
        | inl e ↦ e
        | inr e ↦ ground (arith, by_path-none path plan.rollback_replacements e)
      ]

  accepted_absent :
      (plan : ManifestScalarPatchPlan) (path : String)
      → IsAccepted plan
      → by_path path plan.replacements ≡ none
      → by_path path plan.rollback_replacements ≡ none
  accepted_absent plan path accepted h = by_path-none path plan.rollback_replacements (
      ground (
        arith,
        by_path-absent path plan.replacements h,
        is_in-covers (map path_of plan.replacements) (map path_of plan.rollback_replacements)
            accepted.distinct
            (ground (
              arith,
              length-map_path plan.replacements,
              length-map_path plan.rollback_replacements,
              is_complete-lengths plan accepted.complete,
            ))
            (λ p. accepted_paths plan p accepted) path,
      ))

  -- Where a plan is accepted, each field path has a rollback exactly if it has a replacement, and the
  -- rollback of a path takes the desired value back to the current one.
  pub validate_scalar_patch_plan-inverts :
      (plan : ManifestScalarPatchPlan) (path : String)
      → validate_scalar_patch_plan decimal plan ≡ accept
      → Inverted (by_path path plan.rollback_replacements) (by_path path plan.replacements)
  validate_scalar_patch_plan-inverts plan path h =
      let accepted = validate_scalar_patch_plan-IsAccepted plan h in
      elim (Option-cases (by_path path plan.replacements)) [
        | inl absent ↦ Inverted-none (accepted_absent plan path accepted absent) absent
        | inr (item, found) ↦
            let (r, back, inverse) = accepted_entry plan path item accepted found in
            Inverted-some back found inverse
      ]
