-- ===== src/Patches/Sources.antt =====
-- `parse_remediation_source_contract` of packages/contracts/remediation_source.py: the sources of a
-- contract.
use Prim.Native.Nat.{◌*◌}
use Prim.Native.String
use k8s_clue.Prelude.{
  String, Bool, true, false, not, ◌&&◌, ◌||◌, Option, none, some, List, [], ◌∷◌, map, is_in, str_eq,
  leb, if◌then◌else◌,
}
use k8s_clue.Prelude.Json.{Value, str, dict, array, item, items, get}
use k8s_clue.Patches.{Outcome, Verdict, accept, raised, returned, ◌then◌, python_error}
use k8s_clue.Patches.Text.{is_empty, has_duplicate}
use k8s_clue.Patches.Documents.{keys, has_exactly}
use k8s_clue.Patches.Nodes.{
  Node, Nodes, Pairs, scalar, mapping, sequence, no_nodes, node, no_pairs, pair,
}
use k8s_clue.Patches.Materialize.{Yaml, is_text_of}
use k8s_clue.Patches.Declared.{RemediationSourceDeclaration}
use k8s_clue.Patches.Contract.{
  invalid, unless_invalid, safe_repo_path, optional_field_path, parse_probe_paths,
  parse_image_names, parse_all, checked_source, unless_empty,
}

abbrev pub all_in : List String → List String → Bool
all_in [] ys = true
all_in (x ∷ xs) ys = is_in x ys && all_in xs ys

abbrev pub common_keys : List String
common_keys = "manifestPath" ∷ "sourceType" ∷ "path" ∷ []

abbrev pub allowed_keys : String → List String
allowed_keys source_type =
    if str_eq source_type "raw-yaml"
    then "manifestPath" ∷ "sourceType" ∷ "path" ∷ "imagePath" ∷ "replicaPath" ∷ "probePaths" ∷ []
    else if str_eq source_type "helm-values"
    then "manifestPath" ∷ "sourceType" ∷ "path" ∷ "imageTagPath" ∷ "replicaPath" ∷ "probePaths" ∷ []
    else "manifestPath" ∷ "sourceType" ∷ "path" ∷ "images" ∷ []

abbrev pub source_types : List String
source_types = "raw-yaml" ∷ "helm-values" ∷ "kustomize" ∷ []

-- A list or an object cannot be looked up in the set of types.
abbrev pub source_type_of : Option Value → Outcome String
source_type_of (some (str text)) =
    if is_in text source_types then returned text else invalid "type is unsupported"
source_type_of (some (array _)) = raised (python_error "TypeError")
source_type_of (some (dict _)) = raised (python_error "TypeError")
source_type_of _ = invalid "type is unsupported"

unfoldable pub parse_source : Value → Outcome RemediationSourceDeclaration
parse_source (dict value) = source_type_of (get "sourceType" value) then λ source_type.
    unless_invalid
      (not (all_in common_keys (keys value) && all_in (keys value) (allowed_keys source_type)))
      "entry keys are invalid"
      (safe_repo_path "manifestPath" (get "manifestPath" value) then λ manifest_path.
        safe_repo_path "path" (get "path" value) then λ source_path.
        unless_empty (str_eq source_path ".remediation.yaml")
          "remediation source contract cannot patch itself"
          (optional_field_path "imagePath" (get "imagePath" value) then λ image_path.
            optional_field_path "imageTagPath" (get "imageTagPath" value) then λ image_tag_path.
            optional_field_path "replicaPath" (get "replicaPath" value) then λ replica_path.
            parse_probe_paths (get "probePaths" value) then λ probe_paths.
            parse_image_names (get "images" value) then λ image_names. checked_source (record {
              manifest_path = manifest_path;
              source_type = source_type;
              source_path = source_path;
              image_path = image_path;
              image_tag_path = image_tag_path;
              image_names = image_names;
              replica_path = replica_path;
              probe_paths = probe_paths;
            })))
parse_source _ = invalid "entry is invalid"

-- A key that is no scalar, or that its mapping has already, anywhere in the document.
abbrev key_text : Node → Option String
key_text (scalar found) = some found.value
key_text _ = none

unfoldable mutual
  pub has_bad_keys : Node → Bool
  has_bad_keys (scalar _) = false
  has_bad_keys (mapping pairs) = bad_pairs [] pairs
  has_bad_keys (sequence nodes) = bad_nodes nodes

  pub bad_pairs : List String → Pairs → Bool
  bad_pairs seen no_pairs = false
  bad_pairs seen (pair key value rest) = elim (key_text key) [
    | none ↦ true
    | some text ↦ is_in text seen || has_bad_keys value || bad_pairs (text ∷ seen) rest
  ]

  pub bad_nodes : Nodes → Bool
  bad_nodes no_nodes = false
  bad_nodes (node n rest) = has_bad_keys n || bad_nodes rest

abbrev pub manifest_path_of : RemediationSourceDeclaration → String
manifest_path_of source = source.manifest_path

abbrev pub distinct_manifests :
    List RemediationSourceDeclaration → Outcome (List RemediationSourceDeclaration)
distinct_manifests sources =
    unless_invalid (has_duplicate (map manifest_path_of sources)) "manifestPath is duplicated"
      (returned sources)

abbrev pub parse_sources : Option Value → Outcome (List RemediationSourceDeclaration)
parse_sources (some (array (item v rest))) =
    parse_all parse_source (items (item v rest)) then distinct_manifests
parse_sources _ = invalid "contract sources are missing"

abbrev pub parse_spec : Option Value → Outcome (List RemediationSourceDeclaration)
parse_spec (some (dict spec)) =
    unless_invalid (not (has_exactly ("sources" ∷ []) spec)) "contract spec is invalid"
      (parse_sources (get "sources" spec))
parse_spec _ = invalid "contract spec is invalid"

abbrev pub parse_payload : Option Value → Outcome (List RemediationSourceDeclaration)
parse_payload none = invalid "contract is invalid YAML"
parse_payload (some (dict payload)) =
    unless_invalid (not (has_exactly ("apiVersion" ∷ "kind" ∷ "spec" ∷ []) payload))
      "contract root is invalid"
      (unless_invalid
        (not (
          is_text_of "remediation.kyro.dev/v1alpha1" (get "apiVersion" payload)
          && is_text_of "RemediationSource" (get "kind" payload)))
        "contract version is unsupported" (parse_spec (get "spec" payload)))
parse_payload (some _) = invalid "contract root is invalid"

abbrev pub checked_nodes : Option (List Node) → Verdict
checked_nodes none = invalid "contract is invalid YAML"
checked_nodes (some (mapping pairs ∷ [])) =
    unless_invalid (has_bad_keys (mapping pairs)) "contract mapping key is duplicated or invalid"
      accept
checked_nodes (some _) = invalid "contract must contain one mapping"

module _ (yaml : Yaml) where
  unfoldable pub parse_remediation_source_contract :
      String → Outcome (List RemediationSourceDeclaration)
  parse_remediation_source_contract content =
      unless_invalid (is_empty content || not (leb (String.len content) (64 * 1024)))
        "contract size is invalid"
        (elim (yaml.has_anchor content) [
          | none ↦ invalid "contract is invalid YAML"
          | some true ↦ invalid "contract anchors and aliases are unsupported"
          | some false ↦ checked_nodes (yaml.compose_all content) then λ _.
              parse_payload (yaml.safe_load content)
        ])
