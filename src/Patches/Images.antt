-- ===== src/Patches/Images.antt =====
-- `materialize_image_patch` of domains/gitops/source_patch.py, and where a Deployment has its containers.
use k8s_clue.Prelude.{
  String, Bool, true, false, not, ◌&&◌, ◌||◌, Option, none, some, List, [], ◌∷◌, ◌++◌, is_in, keep,
  str_eq, if◌then◌else◌,
}
use k8s_clue.Prelude.Json.{Value, str, dict, array, Array, no_items, item, Fields, items, get}
use k8s_clue.Patches.{Outcome, returned, ◌then◌, unless_refused, ImageScalarReplacement}
use k8s_clue.Patches.Validation.{is_image_change}
use k8s_clue.Patches.Objects.{put}
use k8s_clue.Patches.Nodes.{
  Node, Nodes, ScalarNode, scalar, mapping, sequence, no_nodes, node, mapping_value,
}
use k8s_clue.Patches.Encoding.{encoded_scalar}
use k8s_clue.Patches.Canonical.{canonical_manifest_digest}
use k8s_clue.Patches.Splice.{Span, put_spans, sorted_reverse, spans_overlap}
use k8s_clue.Patches.Materialize.{Yaml, refuse, is_text_of, parse_single_manifest, composed_root}

abbrev container_list_keys : List String
container_list_keys = "containers" ∷ "initContainers" ∷ "ephemeralContainers" ∷ []

abbrev child_node : String → Option Node → Option Node
child_node key (some (mapping pairs)) = mapping_value pairs key
child_node key _ = none

abbrev named_image : Option Node → Option Node → List (String × ScalarNode)
named_image (some (scalar name)) (some (scalar image)) = (name.value, image) ∷ []
named_image _ _ = []

abbrev container_node : Node → List (String × ScalarNode)
container_node (mapping pairs) =
    named_image (mapping_value pairs "name") (mapping_value pairs "image")
container_node _ = []

abbrev container_nodes : Nodes → List (String × ScalarNode)
container_nodes no_nodes = []
container_nodes (node n rest) = container_node n ++ container_nodes rest

abbrev listed_nodes : Option Node → List String → List (String × ScalarNode)
listed_nodes (some (mapping pairs)) [] = []
listed_nodes (some (mapping pairs)) (key ∷ rest) =
    elim (mapping_value pairs key) [
      | some child ↦ elim child [ sequence nodes ↦ container_nodes nodes | _ ↦ [] ]
      | none ↦ []
    ]
    ++ listed_nodes (some (mapping pairs)) rest
listed_nodes _ rest = []

unfoldable pub deployment_container_nodes : Node → List (String × ScalarNode)
deployment_container_nodes root =
    let spec = child_node "spec" (some root) in
    let template = child_node "template" spec in
    listed_nodes (child_node "spec" template) container_list_keys

abbrev child_value : String → Option Value → Option Value
child_value key (some (dict fields)) = get key fields
child_value key _ = none

abbrev objects_of : List Value → List Fields
objects_of [] = []
objects_of (dict fields ∷ rest) = fields ∷ objects_of rest
objects_of (_ ∷ rest) = objects_of rest

abbrev container_objects : Option Value → List Fields
container_objects (some (array values)) = objects_of (items values)
container_objects _ = []

abbrev listed_objects : Option Value → List String → List Fields
listed_objects (some (dict pod_spec)) [] = []
listed_objects (some (dict pod_spec)) (key ∷ rest) =
    container_objects (get key pod_spec) ++ listed_objects (some (dict pod_spec)) rest
listed_objects _ rest = []

unfoldable pub deployment_container_objects : Value → List Fields
deployment_container_objects root =
    let template = child_value "template" (child_value "spec" (some root)) in
    listed_objects (child_value "spec" template) container_list_keys

abbrev node_is : ImageScalarReplacement → String × ScalarNode → Bool
node_is replacement (name, image) =
    str_eq name replacement.container_name && str_eq image.value replacement.current_image

abbrev object_is : ImageScalarReplacement → Fields → Bool
object_is replacement container =
    is_text_of replacement.container_name (get "name" container)
    && is_text_of replacement.current_image (get "image" container)

-- object_matches[0]["image"] = previous_image: the one container that matches is changed in its place.
abbrev with_image : ImageScalarReplacement → Value → Value
with_image replacement (dict container) =
    if object_is replacement container
    then dict (put "image" (str replacement.previous_image) container)
    else dict container
with_image replacement value = value

abbrev each_with_image : ImageScalarReplacement → Array → Array
each_with_image replacement no_items = no_items
each_with_image replacement (item v rest) =
    item (with_image replacement v) (each_with_image replacement rest)

abbrev in_list : ImageScalarReplacement → Value → Value
in_list replacement (array values) = array (each_with_image replacement values)
in_list replacement value = value

abbrev at_key : String → (Value → Value) → Value → Value
at_key key change (dict fields) = elim (get key fields) [
  | none ↦ dict fields
  | some child ↦ dict (put key (change child) fields)
]
at_key key change value = value

unfoldable pub set_image : ImageScalarReplacement → Value → Value
set_image replacement root =
    at_key "spec"
      (at_key "template" (
        at_key "spec" (λ pod_spec. at_key "ephemeralContainers" (in_list replacement) (
          at_key "initContainers" (in_list replacement)
            (at_key "containers" (in_list replacement) pod_spec)))))
      root

abbrev unique_image : List (String × ScalarNode) → List Fields → Outcome ScalarNode
unique_image ((name, image) ∷ []) (container ∷ []) = returned image
unique_image _ _ = refuse "manifest image target is not unique"

-- The loop: the spans that it adds, and the expected object after it.
unfoldable pub replace_images :
    List (String × ScalarNode)
    → List String
    → List ImageScalarReplacement
    → Value
    → Outcome (List Span × Value)
replace_images nodes used [] expected = returned ([], expected)
replace_images nodes used (replacement ∷ rest) expected =
    unless_refused (not (is_image_change replacement) || is_in replacement.container_name used)
      "manifest image replacement is ambiguous"
      (unique_image (keep (node_is replacement) nodes)
          (keep (object_is replacement) (deployment_container_objects expected))
        then λ image. encoded_scalar image replacement.previous_image then λ encoded.
            replace_images nodes (replacement.container_name ∷ used) rest
              (set_image replacement expected)
            then λ (spans, after).
                returned (
                  record { start = image.start; end = image.end; encoded = encoded } ∷ spans,
                  after,
                ))

abbrev no_replacement : List ImageScalarReplacement → Bool
no_replacement [] = true
no_replacement (_ ∷ _) = false

module _ (yaml : Yaml) where
  unfoldable pub checked_image_splice : String → String → List Span → Value → Outcome String
  checked_image_splice source source_type spans expected =
      unless_refused (spans_overlap spans) "manifest image target overlaps" (
        let patched = put_spans (sorted_reverse spans) source in
        parse_single_manifest yaml patched source_type then λ manifest.
        unless_refused (not (yaml.equal (dict manifest) expected))
          "manifest patch changed fields outside approved images" (returned patched))

  unfoldable pub materialize_image_patch :
      String → String → String → List ImageScalarReplacement → Outcome String
  materialize_image_patch source source_type expected_source_sha256 replacements =
      parse_single_manifest yaml source source_type then λ original.
      unless_refused (not (is_text_of "Deployment" (get "kind" original)))
        "manifest source must be a Deployment"
        (unless_refused
          (not (str_eq (canonical_manifest_digest yaml.sha256 original) expected_source_sha256))
          "manifest source digest does not match approved artifact"
          (unless_refused (no_replacement replacements) "manifest image replacement is missing" (
            composed_root yaml source then λ root.
            replace_images (deployment_container_nodes root) [] replacements (dict original)
            then λ (spans, expected). checked_image_splice source source_type spans expected)))
