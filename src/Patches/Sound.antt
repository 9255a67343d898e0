-- ===== src/Patches/Sound.antt =====
-- packages/contracts/remediation_source.py: the contracts that `parse_remediation_source_contract` returns.
use Prim.Native.Nat.{◌*◌}
use Prim.Native.String
use k8s_clue.Prelude.{
  String, ◌≡◌, refl, Bool, true, false, not, ◌&&◌, ◌||◌, Option, none, some, List, [], ◌∷◌, All,
  map, is_in, str_eq, arith, subst, Bool-cases, inl, inr, ◌⊎◌, leb,
}
use k8s_clue.Prelude.Json.{Value, str, dict, array, item, items, get}
use k8s_clue.Patches.{Outcome, returned}
use k8s_clue.Patches.Text.{is_empty, has_duplicate}
use k8s_clue.Patches.Documents.{keys, has_exactly}
use k8s_clue.Patches.Fields.{returned_injective}
use k8s_clue.Patches.Materialize.{Yaml, is_text_of}
use k8s_clue.Patches.Approved.{then-elim}
use k8s_clue.Patches.Declared.{RemediationSourceDeclaration, source_for_manifest}
use k8s_clue.Patches.Contract.{
  unless_invalid, is_repo_path, safe_repo_path, optional_field_path, parse_probe_paths,
  parse_image_names, parse_all, checked_source, unless_empty, declared_paths, is_none, no_fields_in,
  no_names,
}
use k8s_clue.Patches.Containment.{StaysInside, is_repo_path-StaysInside}
use k8s_clue.Patches.Serving.{found_all}
use k8s_clue.Patches.Sources.{
  all_in, common_keys, allowed_keys, source_types, source_type_of, parse_source, manifest_path_of,
  parse_sources, parse_spec, parse_payload, checked_nodes, parse_remediation_source_contract,
}

module _ {ℓ κ} {A : Type ℓ} {C : Type κ} (a : A) where
  invalid-elim :
      (refused : Bool) (message : String) (next : Outcome A)
      → unless_invalid refused message next ≡ returned a
      → (refused ≡ false → next ≡ returned a → C)
      → C
  invalid-elim true message next h k = ground arith
  invalid-elim false message next h k = k refl h

  empty-elim :
      (refused : Bool) (message : String) (next : Outcome A)
      → unless_empty refused message next ≡ returned a
      → (refused ≡ false → next ≡ returned a → C)
      → C
  empty-elim true message next h k = ground arith
  empty-elim false message next h k = k refl h

-- Both paths stay inside the repository, the patched file is not the contract, the type is a known one and
-- no two of the declared fields are the same.
pub record IsSound (source : RemediationSourceDeclaration) : Type 0 where
  pub inside_manifest : StaysInside source.manifest_path
  pub inside_source : StaysInside source.source_path
  pub not_contract : str_eq source.source_path ".remediation.yaml" ≡ false
  pub known_type : is_in source.source_type source_types ≡ true
  pub distinct : has_duplicate (declared_paths source) ≡ false

source_type_of-known :
    (o : Option Value) (source_type : String)
    → source_type_of o ≡ returned source_type
    → is_in source_type source_types ≡ true
source_type_of-known (some (str text)) source_type h = elim (Bool-cases (is_in text source_types)) [
  | inl known ↦ subst (λ t. is_in t source_types ≡ true) (returned_injective (rw known at h)) known
  | inr other ↦ let h' = rw other at h in ground arith
]
source_type_of-known _ source_type h = ground arith

safe_repo_path-StaysInside :
    (name : String) (o : Option Value) (path : String)
    → safe_repo_path name o ≡ returned path
    → StaysInside path
safe_repo_path-StaysInside name (some (str value)) path h = elim (Bool-cases (is_repo_path value)) [
  | inl safe ↦
      subst StaysInside (returned_injective (rw safe at h)) (is_repo_path-StaysInside value safe)
  | inr other ↦ let h' = rw other at h in ground arith
]
safe_repo_path-StaysInside name _ path h = ground arith

checked_source-distinct :
    (source result : RemediationSourceDeclaration)
    → checked_source source ≡ returned result
    → (source ≡ result) × (has_duplicate (declared_paths source) ≡ false)
unfolding checked_source
checked_source-distinct source result h =
    invalid-elim result (has_duplicate (declared_paths source)) _ _ h (λ distinct h.
      empty-elim result
        (str_eq source.source_type "raw-yaml" && is_none source.image_path && no_fields_in source) _
        _ h
        (λ raw h.
          empty-elim result
            (str_eq source.source_type "helm-values"
              && is_none source.image_tag_path
              && no_fields_in source)
            _ _ h
            (λ helm h.
              empty-elim result
                (str_eq source.source_type "kustomize" && no_names source.image_names) _ _ h
                (λ images h. (returned_injective h, distinct)))))

parse_source-IsSound :
    (value : Value) (source : RemediationSourceDeclaration)
    → parse_source value ≡ returned source
    → IsSound source
unfolding parse_source
parse_source-IsSound (dict value) source h =
    then-elim source (source_type_of (get "sourceType" value)) _ h (λ source_type typed h.
      invalid-elim source
        (not (all_in common_keys (keys value) && all_in (keys value) (allowed_keys source_type))) _
        _ h
        (λ allowed h.
          then-elim source (safe_repo_path "manifestPath" (get "manifestPath" value)) _ h
            (λ manifest_path manifest h.
              then-elim source (safe_repo_path "path" (get "path" value)) _ h (λ source_path path h.
                empty-elim source (str_eq source_path ".remediation.yaml") _ _ h (λ other h.
                  then-elim source (optional_field_path "imagePath" (get "imagePath" value)) _ h
                    (λ image_path image h.
                      then-elim source
                        (optional_field_path "imageTagPath" (get "imageTagPath" value)) _ h
                        (λ image_tag_path tag h.
                          then-elim source
                            (optional_field_path "replicaPath" (get "replicaPath" value)) _ h
                            (λ replica_path replica h.
                              then-elim source (parse_probe_paths (get "probePaths" value)) _ h
                                (λ probe_paths probes h.
                                  then-elim source (parse_image_names (get "images" value)) _ h
                                    (λ image_names names h.
                                      let (same, distinct) = checked_source-distinct _ source h in
                                      subst IsSound same (record {
                                        inside_manifest =
                                            safe_repo_path-StaysInside "manifestPath"
                                              (get "manifestPath" value) manifest_path manifest;
                                        inside_source =
                                            safe_repo_path-StaysInside "path" (get "path" value)
                                              source_path path;
                                        not_contract = other;
                                        known_type =
                                            source_type_of-known (get "sourceType" value)
                                              source_type typed;
                                        distinct = distinct;
                                      })))))))))))
parse_source-IsSound _ source h = ground arith

parse_all-IsSound :
    (values : List Value) (sources : List RemediationSourceDeclaration)
    → parse_all parse_source values ≡ returned sources
    → All IsSound sources
parse_all-IsSound [] sources h = subst (All IsSound) (returned_injective h) tt
parse_all-IsSound (v ∷ vs) sources h = then-elim sources (parse_source v) _ h (λ source parsed h.
    then-elim sources (parse_all parse_source vs) _ h (λ rest more h.
      subst (All IsSound) (returned_injective h)
        (parse_source-IsSound v source parsed, parse_all-IsSound vs rest more)))

anchor_cases : (o : Option Bool) → (o ≡ some false) ⊎ ((o ≡ none) ⊎ (o ≡ some true))
anchor_cases none = inr (inl refl)
anchor_cases (some true) = inr (inr refl)
anchor_cases (some false) = inl refl

-- Each source is the one that is found for its manifest, and all are sound.
abbrev pub AreSound : List RemediationSourceDeclaration → Type 0
AreSound sources =
    All (λ source. source_for_manifest sources source.manifest_path ≡ some source) sources
    × All IsSound sources

parse_sources-AreSound :
    (o : Option Value) (sources : List RemediationSourceDeclaration)
    → parse_sources o ≡ returned sources
    → AreSound sources
parse_sources-AreSound (some (array (item v rest))) sources h =
    then-elim sources (parse_all parse_source (items (item v rest))) _ h (λ all parsed h.
      invalid-elim sources (has_duplicate (map manifest_path_of all)) _ _ h (λ once h.
        subst AreSound (returned_injective h)
          (found_all all once, parse_all-IsSound (items (item v rest)) all parsed)))
parse_sources-AreSound _ sources h = ground arith

parse_spec-AreSound :
    (o : Option Value) (sources : List RemediationSourceDeclaration)
    → parse_spec o ≡ returned sources
    → AreSound sources
parse_spec-AreSound (some (dict spec)) sources h =
    invalid-elim sources (not (has_exactly ("sources" ∷ []) spec)) _ _ h
      (λ exact h. parse_sources-AreSound (get "sources" spec) sources h)
parse_spec-AreSound _ sources h = ground arith

parse_payload-AreSound :
    (o : Option Value) (sources : List RemediationSourceDeclaration)
    → parse_payload o ≡ returned sources
    → AreSound sources
parse_payload-AreSound (some (dict payload)) sources h =
    invalid-elim sources (not (has_exactly ("apiVersion" ∷ "kind" ∷ "spec" ∷ []) payload)) _ _ h
      (λ exact h.
        invalid-elim sources
          (not (
            is_text_of "remediation.kyro.dev/v1alpha1" (get "apiVersion" payload)
            && is_text_of "RemediationSource" (get "kind" payload)))
          _ _ h (λ version h. parse_spec-AreSound (get "spec" payload) sources h))
parse_payload-AreSound _ sources h = ground arith

-- If a contract is returned, then each of its sources is the one that is found for its manifest; both paths
-- of each source, resolved as POSIX does and wherever the repository lies, lead to a place inside the
-- repository; its file is not the contract itself, its type is a known one, and no two of its declared fields are the same.
pub parse_remediation_source_contract-AreSound :
    (yaml : Yaml) (content : String) (sources : List RemediationSourceDeclaration)
    → parse_remediation_source_contract yaml content ≡ returned sources
    → AreSound sources
unfolding parse_remediation_source_contract
parse_remediation_source_contract-AreSound yaml content sources h =
    invalid-elim sources (is_empty content || not (leb (String.len content) (64 * 1024))) _ _ h
      (λ sized h. elim (anchor_cases (yaml.has_anchor content)) [
        | inl absent ↦
            then-elim sources (checked_nodes (yaml.compose_all content)) _ (rw absent at h)
              (λ checked nodes h. parse_payload-AreSound (yaml.safe_load content) sources h)
        | inr other ↦ elim other [
          | inl failed ↦ let h' = rw failed at h in ground arith
          | inr found ↦ let h' = rw found at h in ground arith
        ]
      ])
