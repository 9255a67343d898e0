-- ===== src/Patches/RoundTrip.antt =====
-- What the instruction documents of domains/gitops/source_patch.py keep of a plan.
use Prim.Native.Nat.{ℕ}
use Prim.Native.Char.{Char}
use k8s_clue.Prelude.{
  String, ◌≡◌, refl, Bool, true, false, ◌&&◌, Option, none, some, List, [], ◌∷◌, map, All, eq_refl,
  arith, and_true, subst,
}
use k8s_clue.Prelude.Json.{Value, array}
use k8s_clue.Patches.{
  returned, accept, ◌then◌, ImageScalarReplacement, ManifestImagePatchPlan, ScalarFieldReplacement,
  ManifestScalarPatchPlan,
}
use k8s_clue.Patches.Text.{has_duplicate}
use k8s_clue.Patches.Scalars.{scalar_value, same_scalar}
use k8s_clue.Patches.Validation.{
  path_of, by_path, is_reversible, all_reversible, validate_scalar_patch_plan,
  validate_image_patch_plan, has_segments,
}
use k8s_clue.Patches.Inverse.{
  by_path-none, validate_scalar_patch_plan-IsAccepted, Inverted, validate_scalar_patch_plan-inverts,
}
use k8s_clue.Patches.Documents.{
  has_exactly, array_of, scalar_replacement_body, parse_scalar_replacement,
  parse_scalar_replacements, scalar_patch_spec, scalar_patch_document, image_replacement_body,
  parse_image_replacements, image_patch_spec, image_patch_document, parse_image_patch_plan,
  image_patch_content, parse_scalar_patch_plan, scalar_patch_content,
}

abbrev HasScalars : ScalarFieldReplacement → Type 0
HasScalars r = (scalar_value r.current_value && scalar_value r.desired_value) ≡ true

parse_scalar_replacement-body :
    (r : ScalarFieldReplacement)
    → HasScalars r
    → parse_scalar_replacement (scalar_replacement_body r) ≡ returned r
unfolding scalar_replacement_body has_exactly
parse_scalar_replacement-body r h = rw h

parse_scalar_replacements-array :
    (rs : List ScalarFieldReplacement)
    → All HasScalars rs
    → parse_scalar_replacements (some (array (array_of scalar_replacement_body rs))) ≡ returned rs
unfolding parse_scalar_replacements
parse_scalar_replacements-array [] h = refl
parse_scalar_replacements-array (r ∷ rs) h =
    rw (parse_scalar_replacement-body r h.0, parse_scalar_replacements-array rs h.1)

parse_image_replacements-array :
    (rs : List ImageScalarReplacement)
    → parse_image_replacements (some (array (array_of image_replacement_body rs))) ≡ returned rs
unfolding parse_image_replacements image_replacement_body has_exactly
parse_image_replacements-array [] = refl
parse_image_replacements-array (r ∷ rs) = rw (parse_image_replacements-array rs) refl

same_scalar-scalar_value : (a b : Value) → same_scalar a b ≡ true → scalar_value a ≡ true
unfolding same_scalar scalar_value
same_scalar-scalar_value a b h = ground arith

module _ (P : ScalarFieldReplacement → Type 0) where
  -- What holds of the entry of each path holds of every item, where no path is there twice.
  by_path-All :
      (items : List ScalarFieldReplacement)
      → has_duplicate (map path_of items) ≡ false
      → ((path : String) (item : ScalarFieldReplacement) → by_path path items ≡ some item → P item)
      → All P items
  unfolding by_path
  by_path-All [] distinct h = tt
  by_path-All (x ∷ xs) distinct h = (
    h x.field_path x
        (rw (by_path-none x.field_path xs (ground arith)) (ground (arith, eq_refl x.field_path))),
    by_path-All xs (ground arith) (λ path item found. h path item (rw found refl)),
  )

two_scalars : (a b c d f g : Bool) → (a && b && c && d && f && g) ≡ true → (b && c) ≡ true
two_scalars a b c d f g h = ground arith

inverse-HasScalars :
    (r item : ScalarFieldReplacement)
    → same_scalar r.current_value item.desired_value ≡ true
    → same_scalar r.desired_value item.current_value ≡ true
    → HasScalars r
inverse-HasScalars r item h k = ground (
  arith,
  same_scalar-scalar_value r.current_value item.desired_value,
  same_scalar-scalar_value r.desired_value item.current_value,
)

Inverted-HasScalars :
    (r : ScalarFieldReplacement) (o' : Option ScalarFieldReplacement)
    → Inverted (some r) o'
    → HasScalars r
Inverted-HasScalars r none inverted = elim inverted [ ]
Inverted-HasScalars r (some item) inverted = inverse-HasScalars r item inverted.0 inverted.1

module _ (decimal : Char → Option ℕ) where
  is_reversible-HasScalars :
      (action_type : String) (rollbacks : List ScalarFieldReplacement)
      (item : ScalarFieldReplacement)
      → is_reversible decimal action_type rollbacks item ≡ true
      → HasScalars item
  unfolding is_reversible
  is_reversible-HasScalars action_type rollbacks item h =
      two_scalars (has_segments item.field_path) (scalar_value item.current_value)
        (scalar_value item.desired_value) _ _ _ h

  all_reversible-HasScalars :
      (action_type : String) (rollbacks items : List ScalarFieldReplacement)
      → all_reversible decimal action_type rollbacks items ≡ true
      → All HasScalars items
  unfolding all_reversible
  all_reversible-HasScalars action_type rollbacks [] h = tt
  all_reversible-HasScalars action_type rollbacks (x ∷ xs) h =
      let (first, others) = and_true h in
      (
        is_reversible-HasScalars action_type rollbacks x first,
        all_reversible-HasScalars action_type rollbacks xs others,
      )

  rollback-HasScalars :
      (plan : ManifestScalarPatchPlan)
      → validate_scalar_patch_plan decimal plan ≡ accept
      → All HasScalars plan.rollback_replacements
  rollback-HasScalars plan valid =
      let accepted = validate_scalar_patch_plan-IsAccepted decimal plan valid in
      by_path-All HasScalars plan.rollback_replacements accepted.rollback_distinct
        (λ path item found. Inverted-HasScalars item (by_path path plan.replacements) (
          subst (λ o. Inverted o (by_path path plan.replacements)) found
            (validate_scalar_patch_plan-inverts decimal plan path valid)))

module _ (safe_dump : Value → String) (safe_load : String → Option Value) where
  -- Where a plan's image replacement is valid, and YAML reads back the document that it writes,
  -- the parser reads the plan from the text that the plan is written to.
  pub parse_image_patch_plan-image_patch_content :
      (plan : ManifestImagePatchPlan)
      → validate_image_patch_plan plan ≡ accept
      → safe_load (safe_dump (image_patch_document plan)) ≡ some (image_patch_document plan)
      → (image_patch_content safe_dump plan then parse_image_patch_plan safe_load)
        ≡ returned (some plan)
  unfolding image_patch_content parse_image_patch_plan image_patch_spec has_exactly
  parse_image_patch_plan-image_patch_content plan valid loads =
      rw (valid, loads, parse_image_replacements-array plan.replacements, valid) refl

  module _ (decimal : Char → Option ℕ) where
    -- Where a plan is valid, and YAML reads back the document that it writes, the parser reads the
    -- plan, its rollback included, from the text that the plan is written to.
    pub parse_scalar_patch_plan-scalar_patch_content :
        (plan : ManifestScalarPatchPlan)
        → validate_scalar_patch_plan decimal plan ≡ accept
        → safe_load (safe_dump (scalar_patch_document plan)) ≡ some (scalar_patch_document plan)
        → (scalar_patch_content safe_dump decimal plan
            then parse_scalar_patch_plan safe_load decimal)
          ≡ returned (some plan)
    unfolding scalar_patch_content parse_scalar_patch_plan scalar_patch_spec has_exactly
    parse_scalar_patch_plan-scalar_patch_content plan valid loads =
        let accepted = validate_scalar_patch_plan-IsAccepted decimal plan valid in
        rw
          (
            valid,
            loads,
            parse_scalar_replacements-array plan.replacements
                (all_reversible-HasScalars decimal _ _ plan.replacements accepted.reversible),
            parse_scalar_replacements-array plan.rollback_replacements
                (rollback-HasScalars decimal plan valid),
            valid,
          )
          refl
