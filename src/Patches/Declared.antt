-- ===== src/Patches/Declared.antt =====
-- Plans resolved through the locations that a repository declares: `declared_scalar_patch` and
-- `declared_image_patch` of domains/gitops/source_patch.py, over the declarations of
-- packages/contracts/remediation_source.py.
use Prim.Native.Nat.{ℕ, ◌+◌, ◌-◌}
use Prim.Native.String
use Prim.Native.Char.{Char, code}
use k8s_clue.Prelude.{
  String, Bool, false, not, ◌&&◌, ◌||◌, Option, none, some, List, [], ◌∷◌, map, keep, is_in, str_eq,
  leb, ◌==◌, if◌then◌else◌,
}
use k8s_clue.Prelude.Json.{Value, str}
use k8s_clue.Patches.{
  Outcome, raised, returned, ◌then◌, patch_unsupported, ScalarFieldReplacement,
  ManifestScalarPatchPlan, ManifestImagePatchPlan, ImageScalarReplacement, python_error,
}
use k8s_clue.Patches.Text.{
  is_alphanumeric, is_space, is_empty, all_chars, any_char, has_duplicate, text_take, text_drop,
}
use k8s_clue.Patches.Validation.{validate_scalar_patch_plan, validate_image_patch_plan, path_of}

pub record RemediationSourceDeclaration : Type 0 where
  pub manifest_path : String
  pub source_type : String
  pub source_path : String
  pub image_path : Option String
  pub image_tag_path : Option String
  pub image_names : List String
  pub replica_path : Option String
  pub probe_paths : List (String × String)

-- ManifestIdentity of domains/manifest_editor/validation.py
pub record ManifestIdentity : Type 0 where
  pub api_version : String
  pub kind : String
  pub namespace : Option String
  pub name : String

-- The patch that the adapters of a declared source take.
pub record DeclaredScalarPatch : Type 0 where
  pub source_type : String
  pub source_path : String
  pub replacements : List ScalarFieldReplacement
  pub document_identity : Option ManifestIdentity

-- dict(self.probe_paths).get(semantic_field): the last path of a field is the one kept.
unfoldable pub probe_path : List (String × String) → String → Option String
probe_path [] semantic_field = none
probe_path ((key, path) ∷ rest) semantic_field = elim (probe_path rest semantic_field) [
  | some last ↦ some last
  | none ↦ if str_eq key semantic_field then some path else none
]

unfoldable pub source_for_manifest :
    List RemediationSourceDeclaration → String → Option RemediationSourceDeclaration
source_for_manifest sources manifest_path =
    elim (keep
      (λ (source : RemediationSourceDeclaration). str_eq source.manifest_path manifest_path)
      sources) [ [] ↦ none | source ∷ others ↦ elim others [ [] ↦ some source | _ ∷ _ ↦ none ] ]

-- One more than text.rfind(c), which is -1 where the character is missing.
abbrev pub last_place : ℕ → String → ℕ
last_place c String.[] = 0
last_place c (String.◌∷◌ d text) =
    let place = last_place c text in
    if place == 0 then (if code d == c then 1 else 0) else place + 1

abbrev is_tag_char : Char → Bool
is_tag_char c = is_alphanumeric c || code c == b'.' || code c == b'_' || code c == b'-'

-- [A-Za-z0-9_][A-Za-z0-9._-]{0,127}
abbrev is_tag : String → Bool
is_tag String.[] = false
is_tag (String.◌∷◌ c text) =
    (is_alphanumeric c || code c == b'_')
    && all_chars is_tag_char text
    && leb (String.count text) 127

abbrev repository_and_tag : String → ℕ → Option (String × String)
repository_and_tag value place =
    let repository = text_take (place - 1) value in
    let tag = text_drop place value in
    if is_empty repository || not (is_tag tag) then none else some (repository, tag)

unfoldable pub tagged_image : String → Option (String × String)
tagged_image value =
    if is_empty value || any_char (λ c. code c == b'@') value || any_char is_space value
    then none
    else if leb (last_place b':' value) (last_place b'/' value)
        || last_place b':' value == String.count value
    then none
    else repository_and_tag value (last_place b':' value)

abbrev pub unsupported {ℓ} : {A : Type ℓ} → String → Outcome A
unsupported reason =
    raised (patch_unsupported (String.◌++◌ "remediation source patch unsupported: " reason))

abbrev pub to_path : String → Value → Value → ScalarFieldReplacement
to_path path current desired = record {
  field_path = path;
  current_value = current;
  desired_value = desired;
}

abbrev pub new_tag_path : String → String
new_tag_path repository = String.◌++◌ "images[name=" (String.◌++◌ repository "].newTag")

abbrev pub is_path : Option String → String → Bool
is_path none path = false
is_path (some declared) path = str_eq path declared

-- The field that a tag adapter changes for a repository.
abbrev pub tag_target : RemediationSourceDeclaration → String → Outcome String
tag_target source repository = elim source.image_tag_path [
  | some path ↦
      if str_eq source.source_type "helm-values"
      then returned path
      else if str_eq source.source_type "kustomize" && is_in repository source.image_names
      then returned (new_tag_path repository)
      else unsupported "image field is not declared"
  | none ↦
      if str_eq source.source_type "kustomize" && is_in repository source.image_names
      then returned (new_tag_path repository)
      else unsupported "image field is not declared"
]

abbrev pub tag_replacement :
    RemediationSourceDeclaration
    → Option (String × String)
    → Option (String × String)
    → Outcome ScalarFieldReplacement
tag_replacement source (some (repository, tag)) (some (repository', tag')) =
    if str_eq repository repository'
    then tag_target source repository
    then (λ path. returned (to_path path (str tag) (str tag')))
    else unsupported "tag adapter cannot change image repository or digest"
tag_replacement source _ _ = unsupported "tag adapter cannot change image repository or digest"

abbrev pub image_replacement_in :
    RemediationSourceDeclaration → String → Value → Value → Outcome ScalarFieldReplacement
image_replacement_in source path (str current) (str desired) =
    if str_eq source.source_type "raw-yaml"
    then (if is_path source.image_path path
        then returned (to_path path (str current) (str desired))
        else unsupported "raw image field is not declared")
    else tag_replacement source (tagged_image current) (tagged_image desired)
image_replacement_in source path _ _ = unsupported "image replacement is not textual"

unfoldable pub declared_image_replacement :
    RemediationSourceDeclaration → ScalarFieldReplacement → Outcome ScalarFieldReplacement
declared_image_replacement source item =
    image_replacement_in source item.field_path item.current_value item.desired_value

-- An action that no declared location serves.
abbrev pub at_declared : Option String → ScalarFieldReplacement → Outcome ScalarFieldReplacement
at_declared none item = unsupported "action field is not declared"
at_declared (some path) item = returned (to_path path item.current_value item.desired_value)

unfoldable pub declared_replacement :
    RemediationSourceDeclaration → String → ScalarFieldReplacement → Outcome ScalarFieldReplacement
declared_replacement source action_type item =
    if is_in action_type ("image_rollback" ∷ "image_tag_fix" ∷ [])
    then declared_image_replacement source item
    else if str_eq action_type "replica_scale"
    then at_declared source.replica_path item
    else if str_eq action_type "probe_fix"
    then at_declared (probe_path source.probe_paths item.field_path) item
    else unsupported "action field is not declared"

abbrev pub declared_replacements :
    RemediationSourceDeclaration
    → String
    → List ScalarFieldReplacement
    → Outcome (List ScalarFieldReplacement)
declared_replacements source action_type [] = returned []
declared_replacements source action_type (item ∷ items) =
    declared_replacement source action_type item then λ declared.
    declared_replacements source action_type items then λ rest. returned (declared ∷ rest)

abbrev semantic_path : ImageScalarReplacement → String
semantic_path replacement =
    String.◌++◌ "spec.template.spec.containers[name="
      (String.◌++◌ replacement.container_name "].image")

abbrev scalar_plan : ManifestImagePatchPlan → ImageScalarReplacement → ManifestScalarPatchPlan
scalar_plan plan replacement =
    let path = semantic_path replacement in
    record {
      action_type = "image_rollback";
      source_type = plan.source_type;
      source_manifest_sha256 = plan.source_manifest_sha256;
      expected_base_sha = plan.expected_base_sha;
      manifest_path = plan.manifest_path;
      replacements =
          to_path path (str replacement.current_image) (str replacement.previous_image) ∷ [];
      rollback_replacements =
          to_path path (str replacement.previous_image) (str replacement.current_image) ∷ [];
    }

abbrev first_image : List ImageScalarReplacement → Outcome ImageScalarReplacement
first_image [] = raised (python_error "IndexError")
first_image (replacement ∷ _) = returned replacement

module _ (decimal : Char → Option ℕ) where
  unfoldable pub declared_scalar_patch :
      ManifestScalarPatchPlan → List RemediationSourceDeclaration → Outcome DeclaredScalarPatch
  declared_scalar_patch plan sources = validate_scalar_patch_plan decimal plan then λ _.
      elim (source_for_manifest sources plan.manifest_path) [
        | none ↦ unsupported "manifest path is not declared"
        | some source ↦
            declared_replacements source plan.action_type plan.replacements then λ replacements.
            if has_duplicate (map path_of replacements)
            then unsupported "declared source target is ambiguous"
            else returned (record {
              source_type = source.source_type;
              source_path = source.source_path;
              replacements = replacements;
              document_identity = none;
            })
      ]

  unfoldable pub declared_image_patch :
      ManifestImagePatchPlan → List RemediationSourceDeclaration → Outcome DeclaredScalarPatch
  declared_image_patch plan sources = validate_image_patch_plan plan then λ _.
      first_image plan.replacements then λ replacement.
      declared_scalar_patch (scalar_plan plan replacement) sources
