-- ===== src/Patches/Documents.antt =====
-- The instruction documents that carry a plan to the provider: `image_patch_content`,
-- `scalar_patch_content` and the two parsers of domains/gitops/source_patch.py.
use Prim.Native.Nat.{ℕ}
use Prim.Native.Char.{Char}
use k8s_clue.Prelude.{
  String, Bool, true, false, ◌&&◌, Option, none, some, List, [], ◌∷◌, is_in, str_eq, if◌then◌else◌,
}
use k8s_clue.Prelude.Json.{
  Value, str, array, dict, Array, no_items, item, Fields, no_fields, field, items, get,
}
use k8s_clue.Patches.{
  Outcome, raised, returned, ◌then◌, patch_error, ImageScalarReplacement, ManifestImagePatchPlan,
  ScalarFieldReplacement, ManifestScalarPatchPlan,
}
use k8s_clue.Patches.Scalars.{scalar_value}
use k8s_clue.Patches.Validation.{validate_image_patch_plan, validate_scalar_patch_plan}

abbrev pub api_version : String
api_version = "gitops.krafton.dev/v1alpha1"

abbrev pub keys : Fields → List String
keys no_fields = []
keys (field k v rest) = k ∷ keys rest

abbrev pub all_in : List String → List String → Bool
all_in [] ys = true
all_in (x ∷ xs) ys = is_in x ys && all_in xs ys

-- set(fields) == {*expected}
unfoldable pub has_exactly : List String → Fields → Bool
has_exactly expected fields = all_in expected (keys fields) && all_in (keys fields) expected

abbrev pub is_text_of : String → Option Value → Bool
is_text_of text (some (str found)) = str_eq found text
is_text_of text _ = false

abbrev pub text_or_empty : Option Value → String
text_or_empty (some (str text)) = text
text_or_empty _ = ""

abbrev pub is_text : Option Value → Bool
is_text (some (str text)) = true
is_text _ = false

abbrev pub array_of {ℓ} : {A : Type ℓ} → (A → Value) → List A → Array
array_of body [] = no_items
array_of body (x ∷ xs) = item (body x) (array_of body xs)

-- The document around a specification.
abbrev pub document : String → Fields → Value
document kind spec = dict (
    field "apiVersion" (str api_version)
      (field "kind" (str kind) (field "spec" (dict spec) no_fields)))

-- The checks on a payload before its specification is read: none where it is of another kind.
abbrev pub spec_in : String → Option Value → List String → Outcome Fields
spec_in message (some (dict spec)) expected =
    if has_exactly expected spec then returned spec else raised (patch_error message)
spec_in message _ expected = raised (patch_error message)

abbrev pub payload_spec : String → String → List String → Fields → Outcome (Option Fields)
payload_spec kind message expected payload =
    if is_text_of kind (get "kind" payload)
    then (if is_text_of api_version (get "apiVersion" payload)
          && has_exactly ("apiVersion" ∷ "kind" ∷ "spec" ∷ []) payload
        then spec_in message (get "spec" payload) expected
        then (λ spec. returned (some spec))
        else raised (patch_error message))
    else returned none

-- `yaml.safe_load`, where it does not raise
abbrev pub loaded_spec : String → String → List String → Option Value → Outcome (Option Fields)
loaded_spec kind message expected none = raised (patch_error message)
loaded_spec kind message expected (some (dict payload)) = payload_spec kind message expected payload
loaded_spec kind message expected (some _) = returned none

abbrev pub scalar_message : String
scalar_message = "structured scalar patch document is invalid"

abbrev pub image_message : String
image_message = "structured image patch document is invalid"

unfoldable pub scalar_replacement_body : ScalarFieldReplacement → Value
scalar_replacement_body replacement = dict (
    field "fieldPath" (str replacement.field_path) (
      field "currentValue" replacement.current_value
        (field "desiredValue" replacement.desired_value no_fields)))

abbrev pub scalar_replacement :
    Option Value → Option Value → Option Value → Outcome ScalarFieldReplacement
scalar_replacement (some (str path)) (some current) (some desired) =
    if scalar_value current && scalar_value desired
    then returned (record { field_path = path; current_value = current; desired_value = desired })
    else raised (patch_error scalar_message)
scalar_replacement _ _ _ = raised (patch_error scalar_message)

abbrev pub parse_scalar_replacement : Value → Outcome ScalarFieldReplacement
parse_scalar_replacement (dict raw) =
    if has_exactly ("fieldPath" ∷ "currentValue" ∷ "desiredValue" ∷ []) raw
    then scalar_replacement (get "fieldPath" raw) (get "currentValue" raw) (get "desiredValue" raw)
    else raised (patch_error scalar_message)
parse_scalar_replacement _ = raised (patch_error scalar_message)

-- The loop that appends each parsed item, or stops at the first that is invalid.
abbrev pub parse_each {ℓ} : {A : Type ℓ} → (Value → Outcome A) → List Value → Outcome (List A)
parse_each parse [] = returned []
parse_each parse (raw ∷ raws) =
    parse raw then λ x. parse_each parse raws then λ xs. returned (x ∷ xs)

unfoldable pub parse_scalar_replacements : Option Value → Outcome (List ScalarFieldReplacement)
parse_scalar_replacements (some (array raws)) = parse_each parse_scalar_replacement (items raws)
parse_scalar_replacements _ = raised (patch_error scalar_message)

unfoldable pub scalar_patch_spec : ManifestScalarPatchPlan → Fields
scalar_patch_spec plan = field "actionType" (str plan.action_type) (
    field "sourceType" (str plan.source_type) (
      field "sourceManifestSha256" (str plan.source_manifest_sha256) (
        field "expectedBaseSha" (str plan.expected_base_sha) (
          field "manifestPath" (str plan.manifest_path) (
            field "replacements" (array (array_of scalar_replacement_body plan.replacements)) (
              field "rollbackReplacements"
                (array (array_of scalar_replacement_body plan.rollback_replacements))
                no_fields))))))

abbrev pub scalar_patch_document : ManifestScalarPatchPlan → Value
scalar_patch_document plan = document "GitOpsScalarPatch" (scalar_patch_spec plan)

abbrev pub scalar_spec_keys : List String
scalar_spec_keys =
    "actionType" ∷ "sourceType" ∷ "sourceManifestSha256" ∷ "expectedBaseSha" ∷ "manifestPath"
    ∷ "replacements" ∷ "rollbackReplacements" ∷ []

abbrev pub has_texts : Fields → List String → Bool
has_texts spec [] = true
has_texts spec (key ∷ rest) = is_text (get key spec) && has_texts spec rest

abbrev pub text_keys : List String
text_keys =
    "actionType" ∷ "sourceType" ∷ "sourceManifestSha256" ∷ "expectedBaseSha" ∷ "manifestPath" ∷ []

abbrev pub plan_of_spec :
    Fields → List ScalarFieldReplacement → List ScalarFieldReplacement → ManifestScalarPatchPlan
plan_of_spec spec replacements rollback = record {
  action_type = text_or_empty (get "actionType" spec);
  source_type = text_or_empty (get "sourceType" spec);
  source_manifest_sha256 = text_or_empty (get "sourceManifestSha256" spec);
  expected_base_sha = text_or_empty (get "expectedBaseSha" spec);
  manifest_path = text_or_empty (get "manifestPath" spec);
  replacements = replacements;
  rollback_replacements = rollback;
}

unfoldable pub image_replacement_body : ImageScalarReplacement → Value
image_replacement_body replacement = dict (
    field "containerName" (str replacement.container_name) (
      field "currentImage" (str replacement.current_image)
        (field "previousImage" (str replacement.previous_image) no_fields)))

abbrev pub image_replacement :
    Option Value → Option Value → Option Value → Outcome ImageScalarReplacement
image_replacement (some (str name)) (some (str current)) (some (str previous)) =
    returned (record { container_name = name; current_image = current; previous_image = previous })
image_replacement _ _ _ = raised (patch_error image_message)

abbrev pub parse_image_replacement : Value → Outcome ImageScalarReplacement
parse_image_replacement (dict raw) =
    if has_exactly ("containerName" ∷ "currentImage" ∷ "previousImage" ∷ []) raw
    then image_replacement (get "containerName" raw) (get "currentImage" raw)
        (get "previousImage" raw)
    else raised (patch_error image_message)
parse_image_replacement _ = raised (patch_error image_message)

unfoldable pub parse_image_replacements : Option Value → Outcome (List ImageScalarReplacement)
parse_image_replacements (some (array raws)) = parse_each parse_image_replacement (items raws)
parse_image_replacements _ = raised (patch_error image_message)

unfoldable pub image_patch_spec : ManifestImagePatchPlan → Fields
image_patch_spec plan = field "sourceType" (str plan.source_type) (
    field "sourceManifestSha256" (str plan.source_manifest_sha256) (
      field "expectedBaseSha" (str plan.expected_base_sha) (
        field "manifestPath" (str plan.manifest_path) (
          field "replacements" (array (array_of image_replacement_body plan.replacements))
            no_fields))))

abbrev pub image_patch_document : ManifestImagePatchPlan → Value
image_patch_document plan = document "GitOpsImagePatch" (image_patch_spec plan)

abbrev pub image_plan_of_spec : Fields → List ImageScalarReplacement → ManifestImagePatchPlan
image_plan_of_spec spec replacements = record {
  source_type = text_or_empty (get "sourceType" spec);
  source_manifest_sha256 = text_or_empty (get "sourceManifestSha256" spec);
  expected_base_sha = text_or_empty (get "expectedBaseSha" spec);
  manifest_path = text_or_empty (get "manifestPath" spec);
  replacements = replacements;
}

-- PyYAML's `safe_dump`
module _ (safe_dump : Value → String) where
  unfoldable pub image_patch_content : ManifestImagePatchPlan → Outcome String
  image_patch_content plan =
      validate_image_patch_plan plan then λ _. returned (safe_dump (image_patch_document plan))

  unfoldable pub scalar_patch_content : (Char → Option ℕ) → ManifestScalarPatchPlan → Outcome String
  scalar_patch_content decimal plan = validate_scalar_patch_plan decimal plan then λ _.
      returned (safe_dump (scalar_patch_document plan))

abbrev pub image_plan_from : Option Fields → Outcome (Option ManifestImagePatchPlan)
image_plan_from none = returned none
image_plan_from (some spec) =
    parse_image_replacements (get "replacements" spec) then λ replacements.
    let plan = image_plan_of_spec spec replacements in
    validate_image_patch_plan plan then λ _. returned (some plan)

abbrev pub scalar_plan_from :
    (Char → Option ℕ) → Option Fields → Outcome (Option ManifestScalarPatchPlan)
scalar_plan_from decimal none = returned none
scalar_plan_from decimal (some spec) =
    parse_scalar_replacements (get "replacements" spec) then λ replacements.
    parse_scalar_replacements (get "rollbackReplacements" spec) then λ rollback.
    let plan = plan_of_spec spec replacements rollback in
    if has_texts spec text_keys
    then validate_scalar_patch_plan decimal plan
    then (λ _. returned (some plan))
    else raised (patch_error scalar_message)

-- PyYAML's `safe_load`, none where it raises YAMLError
module _ (safe_load : String → Option Value) where
  unfoldable pub parse_image_patch_plan : String → Outcome (Option ManifestImagePatchPlan)
  parse_image_patch_plan content =
      loaded_spec "GitOpsImagePatch" image_message
        ("sourceType" ∷ "sourceManifestSha256" ∷ "expectedBaseSha" ∷ "manifestPath" ∷ "replacements"
          ∷ [])
        (safe_load content)
      then image_plan_from

  unfoldable pub parse_scalar_patch_plan :
      (Char → Option ℕ) → String → Outcome (Option ManifestScalarPatchPlan)
  parse_scalar_patch_plan decimal content =
      loaded_spec "GitOpsScalarPatch" scalar_message scalar_spec_keys (safe_load content)
      then scalar_plan_from decimal
