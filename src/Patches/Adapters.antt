-- ===== src/Patches/Adapters.antt =====
-- `materialize_declared_scalar_patch` of domains/gitops/source_patch.py, and `manifest_identity` of
-- domains/manifest_editor/validation.py, by which it finds its document.
use Prim.Native.Nat.{ℕ, zero, suc}
use k8s_clue.Prelude.{
  String, Bool, true, false, not, ◌&&◌, Option, none, some, List, [], ◌∷◌, is_in, length, ◌==◌,
  str_eq, if◌then◌else◌,
}
use k8s_clue.Prelude.Json.{Value, null, str, dict, Fields, get}
use k8s_clue.Patches.{Outcome, returned, ◌then◌, unless_refused, ScalarFieldReplacement}
use k8s_clue.Patches.Text.{is_blank}
use k8s_clue.Patches.Paths.{field_path_segments}
use k8s_clue.Patches.Scalars.{same_scalar}
use k8s_clue.Patches.Objects.{object_value_at, set_object_value}
use k8s_clue.Patches.Nodes.{Node, ScalarNode, scalar, mapping, node_value_at}
use k8s_clue.Patches.Encoding.{encoded_scalar_value}
use k8s_clue.Patches.Splice.{Span, put_spans, sorted_reverse, spans_overlap}
use k8s_clue.Patches.Materialize.{Yaml, refuse}
use k8s_clue.Patches.Declared.{ManifestIdentity, DeclaredScalarPatch, unsupported}

abbrev present_text : Option Value → Option String
present_text (some (str text)) = if is_blank text then none else some text
present_text _ = none

-- The namespace, where it is a text or missing.
abbrev namespace_of : Option Value → Option (Option String)
namespace_of none = some none
namespace_of (some null) = some none
namespace_of (some (str text)) = some (some text)
namespace_of (some _) = none

abbrev identity_of :
    Option String → Option String → Option String → Option (Option String) → Option ManifestIdentity
identity_of (some api_version) (some kind) (some name) (some namespace) =
    some (record { api_version = api_version; kind = kind; namespace = namespace; name = name })
identity_of _ _ _ _ = none

abbrev identity_with : Fields → Option Value → Option ManifestIdentity
identity_with resource (some (dict metadata)) =
    identity_of (present_text (get "apiVersion" resource)) (present_text (get "kind" resource))
      (present_text (get "name" metadata)) (namespace_of (get "namespace" metadata))
identity_with resource _ = none

unfoldable pub manifest_identity : Fields → Option ManifestIdentity
manifest_identity resource = identity_with resource (get "metadata" resource)

abbrev same_namespace : Option String → Option String → Bool
same_namespace none none = true
same_namespace (some a) (some b) = str_eq a b
same_namespace _ _ = false

abbrev same_identity : ManifestIdentity → ManifestIdentity → Bool
same_identity a b =
    str_eq a.api_version b.api_version
    && str_eq a.kind b.kind
    && same_namespace a.namespace b.namespace
    && str_eq a.name b.name

abbrev is_of : ManifestIdentity → Value → Bool
is_of identity (dict document) = elim (manifest_identity document) [
  | none ↦ false
  | some found ↦ same_identity found identity
]
is_of identity _ = false

abbrev indices_from : ℕ → ManifestIdentity → List Value → List ℕ
indices_from index identity [] = []
indices_from index identity (document ∷ rest) =
    let others = indices_from (suc index) identity rest in
    if is_of identity document then index ∷ others else others

abbrev only_index : List ℕ → Outcome ℕ
only_index (index ∷ []) = returned index
only_index _ = refuse "declared source document is missing or ambiguous"

unfoldable pub document_index : Option ManifestIdentity → List Value → Outcome ℕ
document_index none (document ∷ []) = returned 0
document_index none _ = refuse "declared source must contain one object"
document_index (some identity) documents = only_index (indices_from 0 identity documents)

abbrev pub item_at {ℓ} : {A : Type ℓ} → ℕ → List A → Option A
item_at index [] = none
item_at zero (x ∷ xs) = some x
item_at (suc index) (x ∷ xs) = item_at index xs

abbrev pub replaced_at {ℓ} : {A : Type ℓ} → ℕ → A → List A → List A
replaced_at index new [] = []
replaced_at zero new (x ∷ xs) = new ∷ xs
replaced_at (suc index) new (x ∷ xs) = x ∷ replaced_at index new xs

-- The document and its node, which must be one object.
abbrev pub object_and_root : Option Value → Option Node → Outcome (Value × Node)
object_and_root (some (dict document)) (some (mapping pairs)) =
    returned (dict document, mapping pairs)
object_and_root _ _ = refuse "declared source must contain one object"

abbrev pub declared_scalar_at : Node → Outcome ScalarNode
declared_scalar_at (scalar found) = returned found
declared_scalar_at _ = refuse "declared source target is not one scalar"

abbrev pub stale_message : String
stale_message = "declared source scalar does not match approved value"

abbrev pub no_change : List ScalarFieldReplacement → Bool
no_change [] = true
no_change (_ ∷ _) = false

-- The nodes and the documents of a source without anchors and aliases.
abbrev pub loaded : Option (List Node) → Option (List Value) → Outcome (List Node × List Value)
loaded (some nodes) (some originals) = returned (nodes, originals)
loaded _ _ = refuse "declared source is invalid"

module _ (yaml : Yaml) where
  -- The loop of the replacements; one that is applied already adds no span.
  unfoldable pub replace_declared :
      Bool → Value → Node → List ScalarFieldReplacement → Value → Outcome (List Span × Value)
  replace_declared allow original root [] expected = returned ([], expected)
  replace_declared allow original root (replacement ∷ rest) expected =
      let segments = field_path_segments replacement.field_path in
      object_value_at original segments then λ current.
      if allow && same_scalar current replacement.desired_value
      then set_object_value expected segments replacement.desired_value
      then (λ after. replace_declared allow original root rest after)
      else unless_refused (not (same_scalar current replacement.current_value)) stale_message (
          node_value_at root segments then λ found. declared_scalar_at found then λ target.
          encoded_scalar_value yaml.safe_load target replacement.desired_value then λ encoded.
          set_object_value expected segments replacement.desired_value then λ after.
          replace_declared allow original root rest after then λ (spans, done).
          returned
            (record { start = target.start; end = target.end; encoded = encoded } ∷ spans, done))

  abbrev pub same_documents : List Value → List Value → Bool
  same_documents [] [] = true
  same_documents (a ∷ rest) (b ∷ others) = yaml.equal a b && same_documents rest others
  same_documents _ _ = false

  abbrev pub reloaded : String → List Value → Option (List Value) → Outcome String
  reloaded patched expected none = refuse "declared patch produced invalid YAML"
  reloaded patched expected (some documents) =
      unless_refused (not (same_documents documents expected))
        "declared patch changed fields outside approved scalars" (returned patched)

  unfoldable pub checked_declared_splice : String → List Span → List Value → Outcome String
  checked_declared_splice source spans expected =
      unless_refused (spans_overlap spans) "declared source targets overlap" (
        let patched = put_spans (sorted_reverse spans) source in
        reloaded patched expected (yaml.safe_load_all patched))

  unfoldable pub declared_documents : String → Outcome (List Node × List Value)
  declared_documents source = elim (yaml.has_anchor source) [
    | none ↦ refuse "declared source is invalid"
    | some true ↦ refuse "declared source anchors and aliases are not patchable"
    | some false ↦ loaded (yaml.compose_all source) (yaml.safe_load_all source)
  ]

  unfoldable pub materialize_declared_scalar_patch :
      String → DeclaredScalarPatch → Bool → Outcome String
  materialize_declared_scalar_patch source patch allow_already_applied =
      if not (is_in patch.source_type ("raw-yaml" ∷ "helm-values" ∷ "kustomize" ∷ []))
      then unsupported "declared source adapter is unsupported"
      else if no_change patch.replacements
      then unsupported "declared source has no replacement"
      else declared_documents source then (λ (nodes, originals).
        unless_refused (not (length nodes == length originals))
          "declared source document structure is invalid"
          (document_index patch.document_identity originals then λ index.
            object_and_root (item_at index originals) (item_at index nodes) then λ (original, root).
            replace_declared allow_already_applied original root patch.replacements original
            then λ (spans, expected).
                checked_declared_splice source spans (replaced_at index expected originals)))
