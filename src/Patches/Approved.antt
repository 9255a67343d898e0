-- ===== src/Patches/Approved.antt =====
-- What a text that `materialize_scalar_patch` of domains/gitops/source_patch.py returns has gone through.
use Prim.Native.Nat.{ℕ}
use Prim.Native.Char.{Char}
use k8s_clue.Prelude.{
  String, ◌≡◌, refl, Bool, true, false, not, Option, List, [], ◌∷◌, str_eq, eq_iff, arith, sym, ap,
  ◌∙◌,
}
use k8s_clue.Prelude.Json.{Value, dict, Fields, get}
use k8s_clue.Patches.{
  Outcome, raised, returned, ◌then◌, unless_refused, ScalarFieldReplacement,
  ManifestScalarPatchPlan,
}
use k8s_clue.Patches.Paths.{field_path_segments}
use k8s_clue.Patches.Scalars.{same_scalar}
use k8s_clue.Patches.Validation.{validate_scalar_patch_plan}
use k8s_clue.Patches.Objects.{object_value_at, set_object_value}
use k8s_clue.Patches.Fields.{returned_injective}
use k8s_clue.Patches.Nodes.{Node, node_value_at}
use k8s_clue.Patches.Canonical.{canonical_manifest_digest}
use k8s_clue.Patches.Encoding.{encoded_scalar_value}
use k8s_clue.Patches.Splice.{Span, put_spans, sorted_reverse, spans_overlap}
use k8s_clue.Patches.Materialize.{
  Yaml, is_text_of, parse_single_manifest, composed_root, scalar_at, replace_one, replace_all,
  checked_splice, materialize_scalar_replacements, materialize_scalar_patch, reads_current,
  all_read_current, scalar_patch_matches_manifest,
}

-- The object with every replacement made, and nothing else.
abbrev pub set_each : Value → List ScalarFieldReplacement → Outcome Value
set_each root [] = returned root
set_each root (item ∷ rest) =
    set_object_value root (field_path_segments item.field_path) item.desired_value then λ root'.
    set_each root' rest

module _ {ℓ κ} {A : Type ℓ} {C : Type κ} (a : A) where
  pub then-elim {μ} :
      {B : Type μ} (first : Outcome B) (next : B → Outcome A)
      → (first then next) ≡ returned a
      → ((b : B) → first ≡ returned b → next b ≡ returned a → C)
      → C
  then-elim (raised failure) next h k = ground arith
  then-elim (returned b) next h k = k b refl h

  pub unless-elim :
      (refused : Bool) (message : String) (next : Outcome A)
      → unless_refused (not refused) message next ≡ returned a
      → (refused ≡ true → next ≡ returned a → C)
      → C
  unless-elim true message next h k = k refl h
  unless-elim false message next h k = ground arith

  pub unless_set-elim :
      (refused : Bool) (message : String) (next : Outcome A)
      → unless_refused refused message next ≡ returned a
      → (next ≡ returned a → C)
      → C
  unless_set-elim true message next h k = ground arith
  unless_set-elim false message next h k = k h

pub reads_current_of :
    (original current : Value) (item : ScalarFieldReplacement)
    → object_value_at original (field_path_segments item.field_path) ≡ returned current
    → same_scalar current item.current_value ≡ true
    → reads_current original item ≡ true
reads_current_of original current item reads same = rw (reads, reads_current, same) refl

module _ (yaml : Yaml) where
  -- One turn of the loop that goes on.
  abbrev IsReplaced : Value → ScalarFieldReplacement → Value → Value → Type 0
  IsReplaced original item expected expected' =
      (reads_current original item ≡ true)
      × (set_object_value expected (field_path_segments item.field_path) item.desired_value
          ≡ returned expected')

  replace_one-IsReplaced :
      (original : Value) (root : Node) (item : ScalarFieldReplacement) (expected : Value)
      (result : Span × Value)
      → replace_one yaml original root item expected ≡ returned result
      → IsReplaced original item expected result.1
  replace_one-IsReplaced original root item expected result h =
      then-elim result (object_value_at original (field_path_segments item.field_path)) _ h
        (λ current reads h.
          unless-elim result (same_scalar current item.current_value) _ _ h (λ same h.
            then-elim result (node_value_at root (field_path_segments item.field_path)) _ h
              (λ found finds h. then-elim result (scalar_at found) _ h (λ target is_scalar h.
                then-elim result (encoded_scalar_value yaml.safe_load target item.desired_value) _ h
                  (λ encoded encodes h.
                    then-elim result
                      (set_object_value expected (field_path_segments item.field_path)
                        item.desired_value)
                      _ h
                      (λ after sets h. (
                        reads_current_of original current item reads same,
                        sets ∙ ap (λ (r : Span × Value). returned r.1) (returned_injective h),
                      )))))))

  replace_all-sets :
      (original : Value) (root : Node) (items : List ScalarFieldReplacement) (expected : Value)
      (result : List Span × Value)
      → replace_all yaml original root items expected ≡ returned result
      → (all_read_current original items ≡ true) × (set_each expected items ≡ returned result.1)
  unfolding replace_all
  replace_all-sets original root [] expected result h =
      (refl, ap (λ (r : List Span × Value). returned r.1) (returned_injective h))
  replace_all-sets original root (item ∷ items) expected result h =
      then-elim result (replace_one yaml original root item expected) _ h
        (λ (first : Span × Value) replaced h.
          then-elim result (replace_all yaml original root items first.1) _ h
            (λ (others : List Span × Value) more h.
              let (reads, sets) =
                replace_one-IsReplaced original root item expected first replaced in
              let (all_read, set_rest) = replace_all-sets original root items first.1 others more in
              (
                rw (reads, all_read) refl,
                rw sets (
                    set_rest ∙ ap (λ (r : List Span × Value). returned r.1) (returned_injective h)),
              )))

  -- What a text that is returned has gone through.
  pub record IsApproved (source source_type digest : String) (items : List ScalarFieldReplacement)
      (patched : String) : Type 0 where
    pub original : Fields
    pub expected : Value
    pub manifest : Fields
    pub spans : List Span
    pub parses : parse_single_manifest yaml source source_type ≡ returned original
    pub is_deployment : is_text_of "Deployment" (get "kind" original) ≡ true
    pub is_approved : canonical_manifest_digest yaml.sha256 original ≡ digest
    pub reads : all_read_current (dict original) items ≡ true
    pub sets : set_each (dict original) items ≡ returned expected
    pub is_spliced : patched ≡ put_spans (sorted_reverse spans) source
    pub parses_patched : parse_single_manifest yaml patched source_type ≡ returned manifest
    pub is_expected : yaml.equal (dict manifest) expected ≡ true

  checked_splice-IsApproved :
      (source source_type digest : String) (items : List ScalarFieldReplacement) (patched : String)
      (original : Fields) (expected : Value) (spans : List Span)
      → parse_single_manifest yaml source source_type ≡ returned original
      → is_text_of "Deployment" (get "kind" original) ≡ true
      → canonical_manifest_digest yaml.sha256 original ≡ digest
      → all_read_current (dict original) items ≡ true
      → set_each (dict original) items ≡ returned expected
      → checked_splice yaml source source_type spans expected ≡ returned patched
      → IsApproved source source_type digest items patched
  unfolding checked_splice
  checked_splice-IsApproved source source_type digest items patched original expected spans parses
        deployment approved reads sets h =
      let spliced = put_spans (sorted_reverse spans) source in
      unless_set-elim patched (spans_overlap spans) _ _ h (λ h.
        then-elim patched (parse_single_manifest yaml spliced source_type) _ h (λ manifest again h.
          unless-elim patched (yaml.equal (dict manifest) expected) _ _ h (λ equal h.
            let result = returned_injective h in
            record {
              original = original;
              expected = expected;
              manifest = manifest;
              spans = spans;
              parses = parses;
              is_deployment = deployment;
              is_approved = approved;
              reads = reads;
              sets = sets;
              is_spliced = sym result;
              parses_patched =
                  ap (λ text. parse_single_manifest yaml text source_type) (sym result) ∙ again;
              is_expected = equal;
            })))

  -- A text that is returned for a list of replacements comes from a source that parses to a Deployment
  -- with the approved digest, in which each replaced field has its approved current value; it is the
  -- source with spans of it replaced, and it parses to that Deployment with each field set, and nothing else.
  pub materialize_scalar_replacements-IsApproved :
      (source source_type digest : String) (items : List ScalarFieldReplacement) (patched : String)
      → materialize_scalar_replacements yaml source source_type digest items ≡ returned patched
      → IsApproved source source_type digest items patched
  unfolding materialize_scalar_replacements
  materialize_scalar_replacements-IsApproved source source_type digest items patched h =
      then-elim patched (parse_single_manifest yaml source source_type) _ h (λ original parses h.
        unless-elim patched (is_text_of "Deployment" (get "kind" original)) _ _ h (λ deployment h.
          unless-elim patched (str_eq (canonical_manifest_digest yaml.sha256 original) digest) _ _ h
            (λ approved h. then-elim patched (composed_root yaml source) _ h (λ root composed h.
              then-elim patched (replace_all yaml (dict original) root items (dict original)) _ h
                (λ (result : List Span × Value) replaced h.
                  let (reads, sets) =
                    replace_all-sets (dict original) root items (dict original) result replaced in
                  checked_splice-IsApproved source source_type digest items patched original
                    result.1 result.0 parses deployment
                    ((eq_iff (canonical_manifest_digest yaml.sha256 original) digest).0 approved)
                    reads sets h)))))

  -- A plan whose patch is returned matches the manifest that the source parses to, in the check of the
  -- plan's current values that the source control worker makes.
  pub scalar_patch_matches_manifest-materialize_scalar_patch :
      (decimal : Char → Option ℕ) (source : String) (plan : ManifestScalarPatchPlan)
      (patched : String)
      → materialize_scalar_patch yaml decimal source plan ≡ returned patched
      → (manifest : Fields) × (parse_single_manifest yaml source plan.source_type
          ≡ returned manifest)
        × (scalar_patch_matches_manifest decimal plan (dict manifest) ≡ true)
  unfolding materialize_scalar_patch scalar_patch_matches_manifest
  scalar_patch_matches_manifest-materialize_scalar_patch decimal source plan patched h =
      then-elim patched (validate_scalar_patch_plan decimal plan) _ h (λ valid validates h.
        let approved =
          materialize_scalar_replacements-IsApproved source plan.source_type
            plan.source_manifest_sha256 plan.replacements patched h in
        (
          approved.original,
          approved.parses,
          rw (validates, scalar_patch_matches_manifest) approved.reads,
        ))
