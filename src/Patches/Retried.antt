-- ===== src/Patches/Retried.antt =====
-- What a text that `materialize_declared_scalar_patch` of domains/gitops/source_patch.py returns has gone
-- through, where some of its fields may have their new value already.
use Prim.Native.Nat.{ℕ, suc}
use k8s_clue.Prelude.{
  String, ◌≡◌, refl, Bool, true, false, not, ◌&&◌, ◌||◌, Option, none, some, List, [], ◌∷◌, length,
  count, ◌==◌, is_in, arith, sym, ap, ◌∙◌, subst, if◌then◌else◌,
}
use k8s_clue.Prelude.Json.{Value}
use k8s_clue.Patches.{Outcome, raised, returned, ◌then◌, ScalarFieldReplacement}
use k8s_clue.Patches.Paths.{field_path_segments}
use k8s_clue.Patches.Scalars.{same_scalar}
use k8s_clue.Patches.Objects.{object_value_at, set_object_value}
use k8s_clue.Patches.Fields.{returned_injective}
use k8s_clue.Patches.Nodes.{Node, node_value_at}
use k8s_clue.Patches.Encoding.{encoded_scalar_value}
use k8s_clue.Patches.Splice.{Span, put_spans, sorted_reverse, spans_overlap}
use k8s_clue.Patches.Materialize.{Yaml, reads_current}
use k8s_clue.Patches.Approved.{set_each, then-elim, unless-elim, unless_set-elim, reads_current_of}
use k8s_clue.Patches.Declared.{DeclaredScalarPatch}
use k8s_clue.Patches.Adapters.{
  document_index, item_at, replaced_at, object_and_root, declared_scalar_at, no_change,
  replace_declared, same_documents, reloaded, checked_declared_splice, declared_documents,
  materialize_declared_scalar_patch,
}

-- A field that a retry finds with its new value.
abbrev pub is_applied : Bool → Value → ScalarFieldReplacement → Bool
is_applied allow original item =
    allow && elim (object_value_at original (field_path_segments item.field_path)) [
      | raised _ ↦ false
      | returned value ↦ same_scalar value item.desired_value
    ]

abbrev pub all_known : Bool → Value → List ScalarFieldReplacement → Bool
all_known allow original [] = true
all_known allow original (item ∷ rest) =
    (is_applied allow original item || reads_current original item) && all_known allow original rest

abbrev is_open : Bool → Value → ScalarFieldReplacement → Bool
is_open allow original item = not (is_applied allow original item)

is_applied_of :
    (allow : Bool) (original current : Value) (item : ScalarFieldReplacement)
    → object_value_at original (field_path_segments item.field_path) ≡ returned current
    → is_applied allow original item ≡ (allow && same_scalar current item.desired_value)
is_applied_of allow original current item reads = rw (reads, is_applied) refl

if-elim {ℓ κ} :
    {A : Type ℓ} {C : Type κ} (test : Bool) (one other : Outcome A) (a : A)
    → (if test then one else other) ≡ returned a
    → (test ≡ true → one ≡ returned a → C)
    → (test ≡ false → other ≡ returned a → C)
    → C
if-elim true one other a h j k = j refl h
if-elim false one other a h j k = k refl h

module _ (yaml : Yaml) (allow : Bool) (original : Value) (root : Node) where
  -- What the loop has done when it returns.
  record IsReplaced (items : List ScalarFieldReplacement) (expected : Value)
      (result : List Span × Value) : Type 0 where
    sets : set_each expected items ≡ returned result.1
    known : all_known allow original items ≡ true
    one_each : length result.0 ≡ count (is_open allow original) items

  applied-IsReplaced :
      (item : ScalarFieldReplacement) (items : List ScalarFieldReplacement) (expected after : Value)
      (result : List Span × Value)
      → is_applied allow original item ≡ true
      → set_object_value expected (field_path_segments item.field_path) item.desired_value
        ≡ returned after
      → IsReplaced items after result
      → IsReplaced (item ∷ items) expected result
  applied-IsReplaced item items expected after result applied sets rest = record {
    sets = rw sets rest.sets;
    known = rw applied rest.known;
    one_each = rw applied (rest.one_each ∙ omega arith);
  }

  open-IsReplaced :
      (item : ScalarFieldReplacement) (items : List ScalarFieldReplacement) (expected after : Value)
      (span : Span) (result : List Span × Value)
      → is_applied allow original item ≡ false
      → reads_current original item ≡ true
      → set_object_value expected (field_path_segments item.field_path) item.desired_value
        ≡ returned after
      → IsReplaced items after result
      → IsReplaced (item ∷ items) expected (span ∷ result.0, result.1)
  open-IsReplaced item items expected after span result applied reads sets rest = record {
    sets = rw sets rest.sets;
    known = rw (applied, reads) rest.known;
    one_each = rw applied (ap suc rest.one_each ∙ omega arith);
  }

  replace_declared-IsReplaced :
      (items : List ScalarFieldReplacement) (expected : Value) (result : List Span × Value)
      → replace_declared yaml allow original root items expected ≡ returned result
      → IsReplaced items expected result
  unfolding replace_declared
  replace_declared-IsReplaced [] expected result h =
      subst (IsReplaced [] expected) (returned_injective h)
        (record { sets = refl; known = refl; one_each = refl })
  replace_declared-IsReplaced (item ∷ items) expected result h =
      let segments = field_path_segments item.field_path in
      then-elim result (object_value_at original segments) _ h (λ current reads h.
        if-elim (allow && same_scalar current item.desired_value) _ _ result h
          (λ applied h.
            then-elim result (set_object_value expected segments item.desired_value) _ h
              (λ after sets h.
                applied-IsReplaced item items expected after result
                  (is_applied_of allow original current item reads ∙ applied) sets
                  (replace_declared-IsReplaced items after result h)))
          (λ still_open h.
            unless-elim result (same_scalar current item.current_value) _ _ h (λ same h.
              then-elim result (node_value_at root segments) _ h (λ found finds h.
                then-elim result (declared_scalar_at found) _ h (λ target is_scalar h.
                  then-elim result (encoded_scalar_value yaml.safe_load target item.desired_value) _
                    h
                    (λ encoded encodes h.
                      then-elim result (set_object_value expected segments item.desired_value) _ h
                        (λ after sets h.
                          then-elim result (replace_declared yaml allow original root items after) _
                            h
                            (λ (rest : List Span × Value) more h.
                              subst (IsReplaced (item ∷ items) expected) (returned_injective h) (
                                open-IsReplaced item items expected after _ rest
                                  (is_applied_of allow original current item reads ∙ still_open)
                                  (reads_current_of original current item reads same) sets
                                  (replace_declared-IsReplaced items after rest more))))))))))

module _ (yaml : Yaml) where
  -- What a text that is returned has gone through.
  pub record IsAdapted (source : String) (patch : DeclaredScalarPatch) (allow : Bool)
      (patched : String) : Type 0 where
    pub index : ℕ
    pub nodes : List Node
    pub originals : List Value
    pub original : Value
    pub root : Node
    pub expected : Value
    pub documents : List Value
    pub spans : List Span
    pub loads : declared_documents yaml source ≡ returned (nodes, originals)
    pub selects : document_index patch.document_identity originals ≡ returned index
    pub is_object :
        object_and_root (item_at index originals) (item_at index nodes) ≡ returned (original, root)
    pub known : all_known allow original patch.replacements ≡ true
    pub sets : set_each original patch.replacements ≡ returned expected
    pub one_each : length spans ≡ count (is_open allow original) patch.replacements
    pub is_spliced : patched ≡ put_spans (sorted_reverse spans) source
    pub reloads : yaml.safe_load_all patched ≡ some documents
    pub is_expected : same_documents yaml documents (replaced_at index expected originals) ≡ true

  reloaded-documents :
      (patched result : String) (expected : List Value) (o : Option (List Value))
      → reloaded yaml patched expected o ≡ returned result
      → (documents : List Value) × (o ≡ some documents)
        × (same_documents yaml documents expected ≡ true)
        × (patched ≡ result)
  reloaded-documents patched result expected none h = ground arith
  reloaded-documents patched result expected (some documents) h =
      unless-elim result (same_documents yaml documents expected) _ _ h
        (λ same h. (documents, refl, same, returned_injective h))

  spliced-IsAdapted :
      (source : String) (patch : DeclaredScalarPatch) (allow : Bool) (patched : String) (index : ℕ)
      (nodes : List Node) (originals : List Value) (original : Value) (root : Node)
      (result : List Span × Value)
      → declared_documents yaml source ≡ returned (nodes, originals)
      → document_index patch.document_identity originals ≡ returned index
      → object_and_root (item_at index originals) (item_at index nodes) ≡ returned (original, root)
      → IsReplaced yaml allow original root patch.replacements original result
      → checked_declared_splice yaml source result.0 (replaced_at index result.1 originals)
        ≡ returned patched
      → IsAdapted source patch allow patched
  unfolding checked_declared_splice
  spliced-IsAdapted source patch allow patched index nodes originals original root result loads
        selects is_object replaced h =
      let spliced = put_spans (sorted_reverse result.0) source in
      unless_set-elim patched (spans_overlap result.0) _ _ h (λ h.
        let (documents, again, same, text) =
          reloaded-documents spliced patched (replaced_at index result.1 originals)
            (yaml.safe_load_all spliced) h in
        record {
          index = index;
          nodes = nodes;
          originals = originals;
          original = original;
          root = root;
          expected = result.1;
          documents = documents;
          spans = result.0;
          loads = loads;
          selects = selects;
          is_object = is_object;
          known = replaced.known;
          sets = replaced.sets;
          one_each = replaced.one_each;
          is_spliced = sym text;
          reloads = ap yaml.safe_load_all (sym text) ∙ again;
          is_expected = same;
        })

  -- A text that is returned for a declared patch comes from a source with one document of the patch's
  -- identity, in which each field reads its approved current value or, on a retry, its new one; it is the
  -- source with one span replaced for each field that is not applied yet, so it is the source itself where
  -- all are; and it loads to the documents of the source, that one with each field set.
  pub materialize_declared_scalar_patch-IsAdapted :
      (source : String) (patch : DeclaredScalarPatch) (allow : Bool) (patched : String)
      → materialize_declared_scalar_patch yaml source patch allow ≡ returned patched
      → IsAdapted source patch allow patched
  unfolding materialize_declared_scalar_patch
  materialize_declared_scalar_patch-IsAdapted source patch allow patched h =
      if-elim (not (is_in patch.source_type ("raw-yaml" ∷ "helm-values" ∷ "kustomize" ∷ []))) _ _
        patched h (λ refused h. ground arith)
        (λ supported h.
          if-elim (no_change patch.replacements) _ _ patched h (λ refused h. ground arith)
            (λ some_change h.
              then-elim patched (declared_documents yaml source) _ h
                (λ (loads : List Node × List Value) loaded h.
                  unless-elim patched (length loads.0 == length loads.1) _ _ h (λ same_length h.
                    then-elim patched (document_index patch.document_identity loads.1) _ h
                      (λ index selects h.
                        then-elim patched
                          (object_and_root (item_at index loads.1) (item_at index loads.0)) _ h
                          (λ (object : Value × Node) is_object h.
                            then-elim patched
                              (replace_declared yaml allow object.0 object.1 patch.replacements
                                object.0)
                              _ h
                              (λ (result : List Span × Value) replaced h.
                                spliced-IsAdapted source patch allow patched index loads.0 loads.1
                                  object.0 object.1 result loaded selects is_object
                                  (replace_declared-IsReplaced yaml allow object.0 object.1
                                    patch.replacements object.0 result replaced)
                                  h)))))))
