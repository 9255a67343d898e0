-- ===== src/Patches/DeclaredPaths.antt =====
-- The fields that a source of a remediation contract declares, in domains/gitops/source_patch.py.
use k8s_clue.Prelude.{
  String, ◌≡◌, refl, Bool, true, ◌&&◌, ◌||◌, Option, none, some, List, [], ◌∷◌, any, is_in,
  and_true, str_eq, eq_refl, eq_iff, arith, sym, ap, ◌∙◌, subst, Bool-cases, Option-cases, inl, inr,
  if◌then◌else◌,
}
use k8s_clue.Prelude.Json.{Value, str}
use k8s_clue.Patches.{returned, ◌then◌, ScalarFieldReplacement}
use k8s_clue.Patches.Fields.{returned_injective}
use k8s_clue.Patches.Approved.{then-elim}
use k8s_clue.Patches.Declared.{
  RemediationSourceDeclaration, probe_path, tagged_image, unsupported, to_path, new_tag_path,
  is_path, tag_target, tag_replacement, image_replacement_in, at_declared,
}

abbrev pub is_probe : List (String × String) → String → Bool
is_probe probes path = any (λ (probe : String × String). str_eq path probe.1) probes

abbrev pub is_image_tag : List String → String → Bool
is_image_tag names path = any (λ name. str_eq path (new_tag_path name)) names

-- The source declares the path: for an image, a tag, the replicas or a probe, or for the tag of one of
-- its images.
abbrev pub is_declared : RemediationSourceDeclaration → String → Bool
is_declared source path =
    is_path source.image_path path
    || is_path source.image_tag_path path
    || is_path source.replica_path path
    || is_probe source.probe_paths path
    || is_image_tag source.image_names path

pub probe_path-is_probe :
    (probes : List (String × String)) (semantic_field path : String)
    → probe_path probes semantic_field ≡ some path
    → is_probe probes path ≡ true
unfolding probe_path
probe_path-is_probe [] semantic_field path h = ground arith
probe_path-is_probe ((key, declared) ∷ rest) semantic_field path h =
    ground (arith, probe_path-is_probe rest semantic_field path, eq_iff path declared)

pub in-is_image_tag :
    (repository : String) (names : List String)
    → is_in repository names ≡ true
    → is_image_tag names (new_tag_path repository) ≡ true
in-is_image_tag repository [] h = ground arith
in-is_image_tag repository (name ∷ names) h = elim (Bool-cases (str_eq name repository)) [
  | inl same ↦ ground (
    arith,
    (subst (λ x. str_eq (new_tag_path repository) (new_tag_path x) ≡ true)
        (sym ((eq_iff name repository).0 same)) (eq_refl (new_tag_path repository))),
  )
  | inr other ↦ ground (arith, in-is_image_tag repository names)
]

module _ (source : RemediationSourceDeclaration) (path : String) where
  pub by_image : is_path source.image_path path ≡ true → is_declared source path ≡ true
  by_image h = ground arith

  pub by_tag : is_path source.image_tag_path path ≡ true → is_declared source path ≡ true
  by_tag h = ground arith

  pub by_replicas : is_path source.replica_path path ≡ true → is_declared source path ≡ true
  by_replicas h = ground arith

  pub by_probe : is_probe source.probe_paths path ≡ true → is_declared source path ≡ true
  by_probe h = ground arith

  pub by_image_name : is_image_tag source.image_names path ≡ true → is_declared source path ≡ true
  by_image_name h = ground arith

pub is_path_of :
    (declared : Option String) (path : String) → declared ≡ some path → is_path declared path ≡ true
is_path_of declared path h = rw h (eq_refl path)

pub declares_image :
    (source : RemediationSourceDeclaration) (repository path : String)
    → (if str_eq source.source_type "kustomize" && is_in repository source.image_names
        then returned (new_tag_path repository)
        else unsupported "image field is not declared")
      ≡ returned path
    → is_declared source path ≡ true
declares_image source repository path h =
    elim (Bool-cases
      (str_eq source.source_type "kustomize" && is_in repository source.image_names)) [
        | inl both ↦
            let same = returned_injective (rw both at h) in
            by_image_name source path (
              subst (λ x. is_image_tag source.image_names x ≡ true) same
                (in-is_image_tag repository source.image_names (and_true both).1))
        | inr other ↦ let h' = rw other at h in ground arith
      ]

pub tag_target-is_declared :
    (source : RemediationSourceDeclaration) (repository path : String)
    → tag_target source repository ≡ returned path
    → is_declared source path ≡ true
tag_target-is_declared source repository path h = elim (Option-cases source.image_tag_path) [
  | inl absent ↦ declares_image source repository path (rw (absent, tag_target) at h)
  | inr (declared, found) ↦ elim (Bool-cases (str_eq source.source_type "helm-values")) [
    | inl helm ↦
        let same = returned_injective (rw (found, tag_target, helm) at h) in
        by_tag source path (is_path_of source.image_tag_path path (found ∙ ap (λ x. some x) same))
    | inr other ↦ declares_image source repository path (rw (found, tag_target, other) at h)
  ]
]

pub at_declared-path :
    (declared : Option String) (item r : ScalarFieldReplacement)
    → at_declared declared item ≡ returned r
    → declared ≡ some r.field_path
at_declared-path none item r h = ground arith
at_declared-path (some path) item r h =
    ap (λ (x : ScalarFieldReplacement). some x.field_path) (returned_injective h)

pub tag_replacement-is_declared :
    (source : RemediationSourceDeclaration) (current desired : Option (String × String))
    (r : ScalarFieldReplacement)
    → tag_replacement source current desired ≡ returned r
    → is_declared source r.field_path ≡ true
tag_replacement-is_declared source none desired r h = ground arith
tag_replacement-is_declared source (some current) none r h = ground arith
tag_replacement-is_declared source (some (repository, tag)) (some (repository', tag')) r h =
    elim (Bool-cases (str_eq repository repository')) [
      | inl same ↦
          then-elim r (tag_target source repository) _ (rw same at h) (λ path target result.
            tag_target-is_declared source repository r.field_path (
              target
              ∙ ap (λ (x : ScalarFieldReplacement). returned x.field_path)
                  (returned_injective result)))
      | inr other ↦ let h' = rw other at h in ground arith
    ]

pub raw-is_declared :
    (source : RemediationSourceDeclaration) (path : String) (r item : ScalarFieldReplacement)
    → item.field_path ≡ path
    → (if is_path source.image_path path
        then returned item
        else unsupported "raw image field is not declared")
      ≡ returned r
    → is_declared source r.field_path ≡ true
raw-is_declared source path r item at_path h = elim (Bool-cases (is_path source.image_path path)) [
  | inl declared ↦
      let same = returned_injective (rw declared at h) in
      let named = ap (λ (x : ScalarFieldReplacement). x.field_path) (sym same) ∙ at_path in
      by_image source r.field_path (ap (is_path source.image_path) named ∙ declared)
  | inr other ↦ let h' = rw other at h in ground arith
]

pub image_replacement_in-is_declared :
    (source : RemediationSourceDeclaration) (path : String) (current desired : Value)
    (r : ScalarFieldReplacement)
    → image_replacement_in source path current desired ≡ returned r
    → is_declared source r.field_path ≡ true
image_replacement_in-is_declared source path (str current) (str desired) r h =
    elim (Bool-cases (str_eq source.source_type "raw-yaml")) [
      | inl raw ↦
          raw-is_declared source path r (to_path path (str current) (str desired)) refl
            (rw raw at h)
      | inr other ↦
          tag_replacement-is_declared source (tagged_image current) (tagged_image desired) r
            (rw other at h)
    ]
image_replacement_in-is_declared source path _ _ r h = ground arith
