-- ===== src/Scenarios/Contracting.antt =====
-- A contract with one Helm source.
use k8s_clue.Prelude.{◌≡◌, refl, false, none, some, [], ◌∷◌}
use k8s_clue.Prelude.Json.{Value, str, dict, array, item, no_items, field, no_fields}
use k8s_clue.Patches.{returned}
use k8s_clue.Patches.Documents.{has_exactly}
use k8s_clue.Patches.Nodes.{mapping, no_pairs}
use k8s_clue.Patches.Materialize.{Yaml}
use k8s_clue.Patches.Declared.{RemediationSourceDeclaration}
use k8s_clue.Patches.Contract.{
  is_repo_path, valid_field_path, optional_field_path, parse_probe_paths, parse_image_names,
  checked_source,
}
use k8s_clue.Patches.Sources.{parse_source, has_bad_keys, parse_remediation_source_contract}
use k8s_clue.Patches.Sound.{AreSound, parse_remediation_source_contract-AreSound}

abbrev contract : Value
contract = dict (
    field "apiVersion" (str "remediation.kyro.dev/v1alpha1") (
      field "kind" (str "RemediationSource") (
        field "spec"
          (dict (
            field "sources"
              (array (
                item
                  (dict (
                    field "manifestPath" (str "apps/shop.yaml") (
                      field "sourceType" (str "helm-values") (
                        field "path" (str "charts/shop/values.yaml")
                          (field "imageTagPath" (str "image.tag") no_fields)))))
                  no_items))
              no_fields))
          no_fields)))

abbrev contract_yaml : Yaml
contract_yaml = record {
  json_loads = λ text. none;
  safe_load = λ text. some contract;
  safe_load_all = λ text. none;
  has_anchor = λ text. some false;
  compose_all = λ text. some (mapping no_pairs ∷ []);
  sha256 = λ text. text;
  equal = λ a b. false;
}

abbrev shop_source : RemediationSourceDeclaration
shop_source = record {
  manifest_path = "apps/shop.yaml";
  source_type = "helm-values";
  source_path = "charts/shop/values.yaml";
  image_path = none;
  image_tag_path = some "image.tag";
  image_names = [];
  replica_path = none;
  probe_paths = [];
}

parsed : parse_remediation_source_contract contract_yaml "contract" ≡ returned (shop_source ∷ [])
unfolding parse_remediation_source_contract has_bad_keys parse_source checked_source is_repo_path
    valid_field_path optional_field_path parse_probe_paths parse_image_names has_exactly
parsed = refl

parse_remediation_source_contract-AreSound_example : AreSound (shop_source ∷ [])
parse_remediation_source_contract-AreSound_example =
    parse_remediation_source_contract-AreSound contract_yaml "contract" (shop_source ∷ []) parsed
