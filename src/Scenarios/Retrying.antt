-- ===== src/Scenarios/Retrying.antt =====
-- A Helm values file that a retry finds changed already, and an image that is taken back.
use Prim.Native.Nat.{ℕ}
use k8s_clue.Prelude.{
  String, ◌==◌, ◌≡◌, refl, Bool, true, false, none, some, [], ◌∷◌, str_eq, if◌then◌else◌,
}
use k8s_clue.Prelude.Json.{pos, Value, int, str, array, item, no_items, dict, field, no_fields}
use k8s_clue.Patches.{returned, ImageScalarReplacement}
use k8s_clue.Patches.Paths.{parts_from, field_path_parts, field_path_segment, field_path_segments}
use k8s_clue.Patches.Scalars.{same_scalar}
use k8s_clue.Patches.Objects.{object_value_at, set_object_value, put}
use k8s_clue.Patches.Splice.{put_span, put_spans, sorted_reverse, spans_overlap}
use k8s_clue.Patches.Nodes.{
  Node, scalar, mapping, pair, no_pairs, sequence, node, no_nodes, mapping_value, node_value_at,
}
use k8s_clue.Patches.Encoding.{encoded_scalar_value, encoded_scalar}
use k8s_clue.Patches.Canonical.{canonical_manifest_digest}
use k8s_clue.Patches.Materialize.{Yaml, parse_single_manifest, composed_root}
use k8s_clue.Patches.Images.{
  deployment_container_nodes, deployment_container_objects, set_image, replace_images,
  checked_image_splice, materialize_image_patch,
}
use k8s_clue.Patches.Declared.{DeclaredScalarPatch}
use k8s_clue.Patches.Adapters.{
  document_index, replace_declared, checked_declared_splice, declared_documents,
  materialize_declared_scalar_patch,
}
use k8s_clue.Patches.Retried.{IsAdapted, materialize_declared_scalar_patch-IsAdapted}

abbrev values : ℕ → Value
values replicas = dict (field "replicaCount" (int (pos replicas)) no_fields)

abbrev text_node : String → ℕ → ℕ → Node
text_node text start end = scalar (record { value = text; style = none; start = start; end = end })

abbrev reads_three : Value → Bool
reads_three (dict (field key (int (pos n)) rest)) = n == 3
reads_three _ = false

abbrev values_yaml : Yaml
values_yaml = record {
  json_loads = λ text. none;
  safe_load = λ text. none;
  safe_load_all =
      λ text. some ((if str_eq text "replicaCount: 2\n" then values 2 else values 3) ∷ []);
  has_anchor = λ text. some false;
  compose_all = λ text.
      some (mapping (pair (text_node "replicaCount" 0 12) (text_node "2" 14 15) no_pairs) ∷ []);
  sha256 = λ text. text;
  equal = λ a b. reads_three a;
}

abbrev values_patch : DeclaredScalarPatch
values_patch = record {
  source_type = "helm-values";
  source_path = "charts/shop/values.yaml";
  replacements =
      record {
        field_path = "replicaCount";
        current_value = int (pos 2);
        desired_value = int (pos 3);
      }
      ∷ [];
  document_identity = none;
}

scales :
    materialize_declared_scalar_patch values_yaml "replicaCount: 2\n" values_patch true
    ≡ returned "replicaCount: 3\n"
unfolding materialize_declared_scalar_patch declared_documents document_index replace_declared
    checked_declared_splice put_span put_spans sorted_reverse spans_overlap object_value_at
    set_object_value put same_scalar node_value_at mapping_value encoded_scalar_value parts_from
    field_path_parts field_path_segment field_path_segments
scales = refl

retried :
    materialize_declared_scalar_patch values_yaml "replicaCount: 3\n" values_patch true
    ≡ returned "replicaCount: 3\n"
unfolding materialize_declared_scalar_patch declared_documents document_index replace_declared
    checked_declared_splice put_span put_spans sorted_reverse spans_overlap object_value_at
    set_object_value put same_scalar node_value_at mapping_value encoded_scalar_value parts_from
    field_path_parts field_path_segment field_path_segments
retried = refl

materialize_declared_scalar_patch-IsAdapted_example :
    IsAdapted values_yaml "replicaCount: 2\n" values_patch true "replicaCount: 3\n"
materialize_declared_scalar_patch-IsAdapted_example =
    materialize_declared_scalar_patch-IsAdapted values_yaml "replicaCount: 2\n" values_patch true
      "replicaCount: 3\n" scales

abbrev deployment_of : String → Value
deployment_of image = dict (
    field "kind" (str "Deployment") (
      field "spec"
        (dict (
          field "template"
            (dict (
              field "spec"
                (dict (
                  field "containers"
                    (array (
                      item (dict (field "name" (str "shop") (field "image" (str image) no_fields)))
                        no_items))
                    no_fields))
                no_fields))
            no_fields))
        no_fields))

abbrev one_pair : String → Node → Node
one_pair key child = mapping (pair (text_node key 0 0) child no_pairs)

abbrev container : Node
container = mapping (
    pair (text_node "name" 0 0) (text_node "shop" 0 0)
      (pair (text_node "image" 0 0) (text_node "shop:2" 7 13) no_pairs))

abbrev image_yaml : Yaml
image_yaml = record {
  json_loads = λ text. none;
  safe_load = λ text. none;
  safe_load_all = λ text. some (
      (if str_eq text "image: shop:2\n" then deployment_of "shop:2" else deployment_of "shop:1")
      ∷ []);
  has_anchor = λ text. some false;
  compose_all = λ text. some (
      one_pair "spec" (
        one_pair "template"
          (one_pair "spec" (one_pair "containers" (sequence (node container no_nodes)))))
      ∷ []);
  sha256 = λ text. "0";
  equal = λ a b. true;
}

abbrev taken_back : ImageScalarReplacement
taken_back = record { container_name = "shop"; current_image = "shop:2"; previous_image = "shop:1" }

image_set : set_image taken_back (deployment_of "shop:2") ≡ deployment_of "shop:1"
unfolding set_image put
image_set = refl

takes_back :
    materialize_image_patch image_yaml "image: shop:2\n" "raw-yaml" "sha256:0" (taken_back ∷ [])
    ≡ returned "image: shop:1\n"
unfolding materialize_image_patch checked_image_splice replace_images set_image
    deployment_container_nodes deployment_container_objects encoded_scalar canonical_manifest_digest
    composed_root parse_single_manifest put_span put_spans sorted_reverse spans_overlap put
    mapping_value
takes_back = refl
