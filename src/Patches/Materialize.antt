-- ===== src/Patches/Materialize.antt =====
-- `parse_single_manifest`, `materialize_scalar_patch`, `materialize_scalar_rollback` and
-- `scalar_patch_matches_manifest` of domains/gitops/source_patch.py.
use Prim.Native.Nat.{ℕ}
use Prim.Native.Char.{Char}
use k8s_clue.Prelude.{
  String, Bool, true, false, not, ◌&&◌, Option, none, some, List, [], ◌∷◌, str_eq, if◌then◌else◌,
}
use k8s_clue.Prelude.Json.{Value, str, dict, Fields, get}
use k8s_clue.Patches.{
  Outcome, raised, returned, ◌then◌, patch_error, unless_refused, ScalarFieldReplacement,
  ManifestScalarPatchPlan,
}
use k8s_clue.Patches.Paths.{field_path_segments, is_manifest_digest}
use k8s_clue.Patches.Scalars.{same_scalar}
use k8s_clue.Patches.Validation.{validate_scalar_patch_plan}
use k8s_clue.Patches.Objects.{object_value_at, set_object_value}
use k8s_clue.Patches.Nodes.{Node, scalar, mapping, ScalarNode, node_value_at}
use k8s_clue.Patches.Canonical.{canonical_manifest_digest}
use k8s_clue.Patches.Encoding.{encoded_scalar_value}
use k8s_clue.Patches.Splice.{Span, put_spans, sorted_reverse, spans_overlap}

abbrev pub refuse {ℓ} : {A : Type ℓ} → String → Outcome A
refuse message = raised (patch_error message)

-- What the module takes from PyYAML, `json` and `hashlib`; none where it raises. `has_anchor` is whether
-- the scanned tokens hold an anchor or an alias, `sha256` is the hexadecimal digest of a text, and
-- `equal` is Python's equality of parsed values.
pub record Yaml : Type 0 where
  pub json_loads : String → Option Value
  pub safe_load : String → Option Value
  pub safe_load_all : String → Option (List Value)
  pub has_anchor : String → Option Bool
  pub compose_all : String → Option (List Node)
  pub sha256 : String → String
  pub equal : Value → Value → Bool

abbrev one_object : Value → Outcome Fields
one_object (dict fields) = returned fields
one_object _ = refuse "manifest source must be one object"

abbrev only_document : Option (List Value) → Outcome Fields
only_document none = refuse "manifest source is invalid"
only_document (some (document ∷ [])) = one_object document
only_document (some _) = refuse "manifest source must contain one document"

abbrev loaded_json : Option Value → Outcome Fields
loaded_json none = refuse "manifest source is invalid"
loaded_json (some value) = one_object value

abbrev pub is_text_of : String → Option Value → Bool
is_text_of text (some (str found)) = str_eq found text
is_text_of text _ = false

abbrev pub one_mapping : Option (List Node) → Outcome Node
one_mapping none = refuse "manifest source is invalid"
one_mapping (some (mapping pairs ∷ [])) = returned (mapping pairs)
one_mapping (some _) = refuse "manifest source must contain one object"

abbrev pub scalar_at : Node → Outcome ScalarNode
scalar_at (scalar found) = returned found
scalar_at _ = refuse "manifest scalar target is not unique"

module _ (yaml : Yaml) where
  unfoldable pub parse_single_manifest : String → String → Outcome Fields
  parse_single_manifest source source_type =
      if str_eq source_type "raw-json"
      then loaded_json (yaml.json_loads source)
      else if str_eq source_type "raw-yaml"
      then only_document (yaml.safe_load_all source)
      else refuse "unsupported manifest source type"

  -- The tokens are scanned before the nodes are composed.
  unfoldable pub composed_root : String → Outcome Node
  composed_root source = elim (yaml.has_anchor source) [
    | none ↦ refuse "manifest source is invalid"
    | some true ↦ refuse "manifest anchors and aliases are not patchable"
    | some false ↦ one_mapping (yaml.compose_all source)
  ]

  -- One turn of the loop: the span that it adds and the expected object after it.
  abbrev pub replace_one : Value → Node → ScalarFieldReplacement → Value → Outcome (Span × Value)
  replace_one original root replacement expected =
      let segments = field_path_segments replacement.field_path in
      object_value_at original segments then λ current.
      unless_refused (not (same_scalar current replacement.current_value))
        "manifest scalar does not match approved artifact"
        (node_value_at root segments then λ found. scalar_at found then λ target.
          encoded_scalar_value yaml.safe_load target replacement.desired_value then λ encoded.
          set_object_value expected segments replacement.desired_value then λ expected'.
          returned
            (record { start = target.start; end = target.end; encoded = encoded }, expected'))

  -- The spans in the order in which they are found.
  unfoldable pub replace_all :
      Value → Node → List ScalarFieldReplacement → Value → Outcome (List Span × Value)
  replace_all original root [] expected = returned ([], expected)
  replace_all original root (replacement ∷ replacements) expected =
      replace_one original root replacement expected then λ (span, expected').
      replace_all original root replacements expected' then λ (spans, expected'').
      returned (span ∷ spans, expected'')

  -- The end of the function: the source is spliced, and parsed again.
  unfoldable pub checked_splice : String → String → List Span → Value → Outcome String
  checked_splice source source_type spans expected =
      unless_refused (spans_overlap spans) "manifest scalar target overlaps" (
        let patched = put_spans (sorted_reverse spans) source in
        parse_single_manifest patched source_type then λ manifest.
        unless_refused (not (yaml.equal (dict manifest) expected))
          "manifest patch changed fields outside approved scalars" (returned patched))

  unfoldable pub materialize_scalar_replacements :
      String → String → String → List ScalarFieldReplacement → Outcome String
  materialize_scalar_replacements source source_type expected_source_sha256 replacements =
      parse_single_manifest source source_type then λ original.
      unless_refused (not (is_text_of "Deployment" (get "kind" original)))
        "manifest source must be a Deployment"
        (unless_refused
          (not (str_eq (canonical_manifest_digest yaml.sha256 original) expected_source_sha256))
          "manifest source digest does not match approved artifact"
          (composed_root source then λ root.
            replace_all (dict original) root replacements (dict original) then λ (spans, expected).
            checked_splice source source_type spans expected))

  module _ (decimal : Char → Option ℕ) where
    unfoldable pub materialize_scalar_patch : String → ManifestScalarPatchPlan → Outcome String
    materialize_scalar_patch source plan = validate_scalar_patch_plan decimal plan then λ _.
        materialize_scalar_replacements source plan.source_type plan.source_manifest_sha256
          plan.replacements

    unfoldable pub materialize_scalar_rollback :
        String → ManifestScalarPatchPlan → String → Outcome String
    materialize_scalar_rollback source plan expected_source_sha256 =
        validate_scalar_patch_plan decimal plan then λ _.
        unless_refused (not (is_manifest_digest expected_source_sha256))
          "rollback source digest is invalid"
          (materialize_scalar_replacements source plan.source_type expected_source_sha256
            plan.rollback_replacements)

abbrev pub reads_current : Value → ScalarFieldReplacement → Bool
reads_current manifest item =
    elim (object_value_at manifest (field_path_segments item.field_path)) [
      | raised _ ↦ false
      | returned value ↦ same_scalar value item.current_value
    ]

abbrev pub all_read_current : Value → List ScalarFieldReplacement → Bool
all_read_current manifest [] = true
all_read_current manifest (item ∷ rest) =
    reads_current manifest item && all_read_current manifest rest

unfoldable pub scalar_patch_matches_manifest :
    (Char → Option ℕ) → ManifestScalarPatchPlan → Value → Bool
scalar_patch_matches_manifest decimal plan manifest =
    elim (validate_scalar_patch_plan decimal plan) [
      | raised _ ↦ false
      | returned _ ↦ all_read_current manifest plan.replacements
    ]
