-- ===== src/Scenarios/Patching.antt =====
-- A plan that scales a deployment from two replicas to three, and its way into the source.
use Prim.Native.Nat.{ℕ}
use Prim.Native.Char.{Char}
use k8s_clue.Prelude.{
  String, ◌≡◌, refl, Bool, false, Option, none, some, List, [], ◌∷◌, str_eq, arith, if◌then◌else◌,
}
use k8s_clue.Prelude.Json.{pos, Value, int, str, dict, field, no_fields}
use k8s_clue.Patches.{
  raised, returned, ◌then◌, accept, ScalarFieldReplacement, ManifestScalarPatchPlan,
}
use k8s_clue.Patches.Paths.{
  parts_from, field_path_parts, field_path_segment, field_path_segments, safe_manifest_path,
  is_manifest_digest, is_commit_sha,
}
use k8s_clue.Patches.Scalars.{scalar_value, same_scalar, action_allows_replacement}
use k8s_clue.Patches.Validation.{
  has_metadata, is_complete, by_path, is_reversible, all_reversible, validate_scalar_patch_plan,
}
use k8s_clue.Patches.Inverse.{Inverted, validate_scalar_patch_plan-inverts}
use k8s_clue.Patches.Documents.{
  scalar_patch_document, scalar_patch_content, parse_scalar_patch_plan,
}
use k8s_clue.Patches.RoundTrip.{parse_scalar_patch_plan-scalar_patch_content}
use k8s_clue.Patches.Objects.{object_value_at, set_object_value, put}
use k8s_clue.Patches.Frame.{object_value_at-set_object_value}
use k8s_clue.Patches.Splice.{Span, put_span, put_spans, sorted_reverse, spans_overlap}
use k8s_clue.Patches.Weave.{weave, reversed}
use k8s_clue.Patches.Order.{put_spans-weaves}
use k8s_clue.Patches.Nodes.{Node, scalar, mapping, pair, no_pairs, mapping_value, node_value_at}
use k8s_clue.Patches.Canonical.{canonical_manifest_digest, canonical_text}
use k8s_clue.Patches.Encoding.{encoded_scalar_value, json_text}
use k8s_clue.Patches.Materialize.{
  Yaml, parse_single_manifest, composed_root, replace_all, checked_splice,
  materialize_scalar_replacements,
}
use k8s_clue.Patches.Approved.{IsApproved, materialize_scalar_replacements-IsApproved}
use k8s_clue.Patches.Declared.{
  RemediationSourceDeclaration, DeclaredScalarPatch, source_for_manifest, declared_replacement,
  declared_scalar_patch,
}
use k8s_clue.Patches.Locations.{IsDeclaredPatch, declared_scalar_patch-IsDeclaredPatch}

abbrev no_digit : Char → Option ℕ
no_digit c = none

abbrev scale : ℕ → ℕ → ScalarFieldReplacement
scale current desired = record {
  field_path = "spec.replicas";
  current_value = int (pos current);
  desired_value = int (pos desired);
}

abbrev source_digest : String
source_digest = "sha256:0123456789abcdef0123456789abcdef0123456789abcdef0123456789abcdef"

abbrev scale_plan : ManifestScalarPatchPlan
scale_plan = record {
  action_type = "replica_scale";
  source_type = "raw-yaml";
  source_manifest_sha256 = source_digest;
  expected_base_sha = "0123456789abcdef0123456789abcdef01234567";
  manifest_path = "apps/shop.yaml";
  replacements = scale 2 3 ∷ [];
  rollback_replacements = scale 3 2 ∷ [];
}

scale_valid : validate_scalar_patch_plan no_digit scale_plan ≡ accept
unfolding validate_scalar_patch_plan is_complete has_metadata all_reversible is_reversible by_path
    scalar_value same_scalar action_allows_replacement parts_from field_path_parts
    field_path_segment field_path_segments safe_manifest_path is_manifest_digest is_commit_sha
scale_valid = refl

validate_scalar_patch_plan-inverts_example :
    Inverted
      (by_path "spec.replicas" scale_plan.rollback_replacements)
      (by_path "spec.replicas" scale_plan.replacements)
validate_scalar_patch_plan-inverts_example =
    validate_scalar_patch_plan-inverts no_digit scale_plan "spec.replicas" scale_valid

parse_scalar_patch_plan-scalar_patch_content_example :
    (scalar_patch_content (λ _. "document") no_digit scale_plan
      then parse_scalar_patch_plan (λ _. some (scalar_patch_document scale_plan)) no_digit)
    ≡ returned (some scale_plan)
parse_scalar_patch_plan-scalar_patch_content_example =
    parse_scalar_patch_plan-scalar_patch_content (λ _. "document")
      (λ _. some (scalar_patch_document scale_plan)) no_digit scale_plan scale_valid refl

abbrev deployment : ℕ → Value
deployment replicas = dict (
    field "kind" (str "Deployment")
      (field "spec" (dict (field "replicas" (int (pos replicas)) no_fields)) no_fields))

sets_replicas :
    set_object_value (deployment 2) (field_path_segments "spec.replicas") (int (pos 3))
    ≡ returned (deployment 3)
unfolding set_object_value put parts_from field_path_parts field_path_segment field_path_segments
sets_replicas = refl

object_value_at-set_object_value_example :
    (object_value_at (deployment 3) (field_path_segments "spec.replicas") ≡ returned (int (pos 3)))
    × (object_value_at (deployment 3) (field_path_segments "kind")
        ≡ object_value_at (deployment 2) (field_path_segments "kind"))
unfolding parts_from field_path_parts field_path_segment field_path_segments
object_value_at-set_object_value_example =
    object_value_at-set_object_value (deployment 2) (deployment 3)
      (field_path_segments "spec.replicas") (field_path_segments "kind") (int (pos 3)) refl refl
      sets_replicas

abbrev span_of : ℕ → ℕ → String → Span
span_of start end encoded = record { start = start; end = end; encoded = encoded }

abbrev two_spans : List Span
two_spans = span_of 1 2 "one" ∷ span_of 4 6 "" ∷ []

put_spans-weaves_example :
    put_spans (sorted_reverse two_spans) "abcdefg"
    ≡ weave 0 (reversed (sorted_reverse two_spans)) "abcdefg"
put_spans-weaves_example =
    put_spans-weaves two_spans "abcdefg"
      ((omega arith, omega arith, (refl, tt), (omega arith, omega arith, tt, tt)))

abbrev scale_source : String
scale_source = "kind: Deployment\nspec:\n  replicas: 2\n"

abbrev text_node : String → ℕ → ℕ → Node
text_node text start end = scalar (record { value = text; style = none; start = start; end = end })

abbrev source_root : Node
source_root = mapping (
    pair (text_node "kind" 0 4) (text_node "Deployment" 6 16) (
      pair (text_node "spec" 17 21)
        (mapping (pair (text_node "replicas" 25 33) (text_node "2" 35 36) no_pairs)) no_pairs))

abbrev same_replicas : Value → Value → Bool
same_replicas a b = elim (object_value_at a (field_path_segments "spec.replicas")) [
  | raised _ ↦ false
  | returned v ↦ elim (object_value_at b (field_path_segments "spec.replicas")) [
    | raised _ ↦ false
    | returned w ↦ same_scalar v w
  ]
]

abbrev small_yaml : Yaml
small_yaml = record {
  json_loads = λ text. none;
  safe_load = λ text. none;
  safe_load_all =
      λ text. some ((if str_eq text scale_source then deployment 2 else deployment 3) ∷ []);
  has_anchor = λ text. some false;
  compose_all = λ text. some (source_root ∷ []);
  sha256 = λ text. "0123456789abcdef0123456789abcdef0123456789abcdef0123456789abcdef";
  equal = same_replicas;
}

materializes :
    materialize_scalar_replacements small_yaml scale_source "raw-yaml" source_digest
      (scale 2 3 ∷ [])
    ≡ returned "kind: Deployment\nspec:\n  replicas: 3\n"
unfolding canonical_manifest_digest materialize_scalar_replacements checked_splice replace_all
    composed_root parse_single_manifest node_value_at mapping_value encoded_scalar_value put_span
    put_spans sorted_reverse spans_overlap object_value_at set_object_value put same_scalar
    parts_from field_path_parts field_path_segment field_path_segments
materializes = refl

materialize_scalar_replacements-IsApproved_example :
    IsApproved small_yaml scale_source "raw-yaml" source_digest
      (scale 2 3 ∷ [])
      ("kind: Deployment\nspec:\n  replicas: 3\n")
materialize_scalar_replacements-IsApproved_example =
    materialize_scalar_replacements-IsApproved small_yaml scale_source "raw-yaml" source_digest
      (scale 2 3 ∷ []) "kind: Deployment\nspec:\n  replicas: 3\n" materializes

abbrev shop_values : RemediationSourceDeclaration
shop_values = record {
  manifest_path = "apps/shop.yaml";
  source_type = "helm-values";
  source_path = "charts/shop/values.yaml";
  image_path = none;
  image_tag_path = some "image.tag";
  image_names = [];
  replica_path = some "replicaCount";
  probe_paths = [];
}

abbrev shop_patch : DeclaredScalarPatch
shop_patch = record {
  source_type = "helm-values";
  source_path = "charts/shop/values.yaml";
  replacements =
      record {
        field_path = "replicaCount";
        current_value = int (pos 2);
        desired_value = int (pos 3);
      }
      ∷ [];
  document_identity = none;
}

shop_declared : declared_scalar_patch no_digit scale_plan (shop_values ∷ []) ≡ returned shop_patch
unfolding declared_scalar_patch source_for_manifest declared_replacement validate_scalar_patch_plan
    is_complete has_metadata all_reversible is_reversible by_path scalar_value same_scalar
    action_allows_replacement parts_from field_path_parts field_path_segment field_path_segments
    safe_manifest_path is_manifest_digest is_commit_sha
shop_declared = refl

declared_scalar_patch-IsDeclaredPatch_example :
    IsDeclaredPatch (shop_values ∷ []) "apps/shop.yaml" shop_patch
declared_scalar_patch-IsDeclaredPatch_example =
    declared_scalar_patch-IsDeclaredPatch no_digit scale_plan (shop_values ∷ []) shop_patch
      shop_declared

-- The keys of the deployment in order, as in the text that is hashed.
deployment_text :
    canonical_text (deployment 2) ≡ "{\"kind\":\"Deployment\",\"spec\":{\"replicas\":2}}"
unfolding canonical_text json_text
deployment_text = refl
