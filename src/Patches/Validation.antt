-- ===== src/Patches/Validation.antt =====
-- `validate_image_patch_plan` and `validate_scalar_patch_plan` of domains/gitops/source_patch.py.
use Prim.Native.Nat.{ℕ}
use Prim.Native.Char.{Char}
use k8s_clue.Prelude.{
  String, Bool, true, false, not, ◌&&◌, ◌||◌, Option, none, some, List, [], ◌∷◌, map, length, is_in,
  str_eq, leb, ◌==◌, if◌then◌else◌,
}
use k8s_clue.Patches.{
  Verdict, accept, unless_refused, ImageScalarReplacement, ManifestImagePatchPlan,
  ScalarFieldReplacement, ManifestScalarPatchPlan,
}
use k8s_clue.Patches.Text.{is_empty, has_duplicate}
use k8s_clue.Patches.Paths.{
  field_path_segments, safe_manifest_path, is_manifest_digest, is_commit_sha,
}
use k8s_clue.Patches.Scalars.{scalar_value, same_scalar, action_allows_replacement}

abbrev image_incomplete : String
image_incomplete = "structured image patch metadata is incomplete"

-- The checks that both loops make of one image replacement.
abbrev pub is_image_change : ImageScalarReplacement → Bool
is_image_change replacement =
    not (is_empty replacement.container_name)
    && not (is_empty replacement.current_image)
    && not (is_empty replacement.previous_image)
    && not (str_eq replacement.current_image replacement.previous_image)

abbrev has_one_image_change : List ImageScalarReplacement → Bool
has_one_image_change (replacement ∷ []) = is_image_change replacement
has_one_image_change _ = false

unfoldable pub validate_image_patch_plan : ManifestImagePatchPlan → Verdict
validate_image_patch_plan plan =
    unless_refused
      (not (
        str_eq plan.source_type "raw-yaml"
        && is_manifest_digest plan.source_manifest_sha256
        && is_commit_sha plan.expected_base_sha
        && safe_manifest_path plan.manifest_path
        && has_one_image_change plan.replacements))
      image_incomplete accept

abbrev action_types : List String
action_types =
    "oom_memory" ∷ "image_rollback" ∷ "image_tag_fix" ∷ "replica_scale" ∷ "probe_fix"
    ∷ "selector_fix" ∷ []

unfoldable pub has_metadata : ManifestScalarPatchPlan → Bool
has_metadata plan =
    is_in plan.action_type action_types
    && str_eq plan.source_type "raw-yaml"
    && is_manifest_digest plan.source_manifest_sha256
    && is_commit_sha plan.expected_base_sha
    && safe_manifest_path plan.manifest_path

unfoldable pub is_complete : ManifestScalarPatchPlan → Bool
is_complete plan =
    has_metadata plan
    && leb 1 (length plan.replacements)
    && leb (length plan.replacements) 4
    && length plan.rollback_replacements == length plan.replacements

abbrev pub path_of : ScalarFieldReplacement → String
path_of item = item.field_path

-- {item.field_path: item for item in items}.get(path): the last item of a path is the one kept.
unfoldable pub by_path : String → List ScalarFieldReplacement → Option ScalarFieldReplacement
by_path path [] = none
by_path path (item ∷ rest) = elim (by_path path rest) [
  | some last ↦ some last
  | none ↦ if str_eq item.field_path path then some item else none
]

abbrev pub is_inverse : ScalarFieldReplacement → ScalarFieldReplacement → Bool
is_inverse rollback item =
    same_scalar rollback.current_value item.desired_value
    && same_scalar rollback.desired_value item.current_value

abbrev pub has_segments : String → Bool
has_segments path = elim (field_path_segments path) [ [] ↦ false | _ ∷ _ ↦ true ]

module _ (decimal : Char → Option ℕ) where
  -- The checks on one replacement in the loop.
  unfoldable pub is_reversible :
      String → List ScalarFieldReplacement → ScalarFieldReplacement → Bool
  is_reversible action_type rollbacks item =
      has_segments item.field_path
      && scalar_value item.current_value
      && scalar_value item.desired_value
      && not (same_scalar item.current_value item.desired_value)
      && elim (by_path item.field_path rollbacks) [
        | none ↦ false
        | some rollback ↦ is_inverse rollback item
      ]
      && action_allows_replacement decimal action_type item

  unfoldable pub all_reversible :
      String → List ScalarFieldReplacement → List ScalarFieldReplacement → Bool
  all_reversible action_type rollbacks [] = true
  all_reversible action_type rollbacks (item ∷ items) =
      is_reversible action_type rollbacks item && all_reversible action_type rollbacks items

  unfoldable pub validate_scalar_patch_plan : ManifestScalarPatchPlan → Verdict
  validate_scalar_patch_plan plan =
      unless_refused (not (is_complete plan)) "structured scalar patch metadata is incomplete" (
        unless_refused (has_duplicate (map path_of plan.replacements))
          "structured scalar patch target is duplicated"
          (unless_refused
            (has_duplicate (map path_of plan.rollback_replacements)
              || not (all_reversible plan.action_type plan.rollback_replacements plan.replacements))
            "structured scalar rollback is not an exact inverse" accept))
