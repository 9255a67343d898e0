-- ===== src/Patches/Locations.antt =====
-- Which fields a patch may touch that `declared_scalar_patch` of domains/gitops/source_patch.py returns.
use Prim.Native.Nat.{ℕ}
use Prim.Native.Char.{Char}
use k8s_clue.Prelude.{
  String, ◌≡◌, refl, Bool, true, false, Option, none, some, List, [], ◌∷◌, map, All, is_in, str_eq,
  arith, subst, Bool-cases, Option-cases, inl, inr, if◌then◌else◌,
}
use k8s_clue.Patches.{Outcome, returned, ◌then◌, ScalarFieldReplacement, ManifestScalarPatchPlan}
use k8s_clue.Patches.Text.{has_duplicate}
use k8s_clue.Patches.Fields.{returned_injective}
use k8s_clue.Patches.Validation.{validate_scalar_patch_plan, path_of}
use k8s_clue.Patches.Approved.{then-elim}
use k8s_clue.Patches.Declared.{
  RemediationSourceDeclaration, DeclaredScalarPatch, probe_path, source_for_manifest,
  declared_image_replacement, at_declared, declared_replacement, declared_replacements,
  declared_scalar_patch,
}
use k8s_clue.Patches.DeclaredPaths.{
  probe_path-is_probe, by_replicas, by_probe, is_path_of, at_declared-path,
  image_replacement_in-is_declared, is_declared,
}

if_elim {ℓ} :
    {C : Type ℓ} (test : Bool) (one other : Outcome ScalarFieldReplacement)
    (r : ScalarFieldReplacement)
    → (if test then one else other) ≡ returned r
    → (one ≡ returned r → C)
    → (other ≡ returned r → C)
    → C
if_elim true one other r h j k = j h
if_elim false one other r h j k = k h

module _ (source : RemediationSourceDeclaration) where
  at_replicas :
      (item r : ScalarFieldReplacement)
      → at_declared source.replica_path item ≡ returned r
      → is_declared source r.field_path ≡ true
  at_replicas item r h =
      by_replicas source r.field_path (
        is_path_of source.replica_path r.field_path (at_declared-path source.replica_path item r h))

  at_probe :
      (item r : ScalarFieldReplacement)
      → at_declared (probe_path source.probe_paths item.field_path) item ≡ returned r
      → is_declared source r.field_path ≡ true
  at_probe item r h = by_probe source r.field_path (
      probe_path-is_probe source.probe_paths item.field_path r.field_path
        (at_declared-path (probe_path source.probe_paths item.field_path) item r h))

  declared_replacement-is_declared :
      (action_type : String) (item r : ScalarFieldReplacement)
      → declared_replacement source action_type item ≡ returned r
      → is_declared source r.field_path ≡ true
  unfolding declared_replacement declared_image_replacement
  declared_replacement-is_declared action_type item r h =
      if_elim (is_in action_type ("image_rollback" ∷ "image_tag_fix" ∷ [])) _ _ r h
        (image_replacement_in-is_declared source item.field_path item.current_value
          item.desired_value r)
        (λ h. if_elim (str_eq action_type "replica_scale") _ _ r h (at_replicas item r) (λ h.
          if_elim (str_eq action_type "probe_fix") _ _ r h (at_probe item r) (λ h. ground arith)))

  declared_replacements-is_declared :
      (action_type : String) (items rs : List ScalarFieldReplacement)
      → declared_replacements source action_type items ≡ returned rs
      → All (λ (r : ScalarFieldReplacement). is_declared source r.field_path ≡ true) rs
  declared_replacements-is_declared action_type [] rs h =
      subst (All (λ (r : ScalarFieldReplacement). is_declared source r.field_path ≡ true))
        (returned_injective h) tt
  declared_replacements-is_declared action_type (item ∷ items) rs h =
      then-elim rs (declared_replacement source action_type item) _ h (λ r declared h.
        then-elim rs (declared_replacements source action_type items) _ h (λ rest more h.
          subst (All (λ (r : ScalarFieldReplacement). is_declared source r.field_path ≡ true))
            (returned_injective h)
            (
              declared_replacement-is_declared action_type item r declared,
              declared_replacements-is_declared action_type items rest more,
            )))

-- A declared patch is for a file that one source of the contract declares, and each of its fields.
pub record IsDeclaredPatch (sources : List RemediationSourceDeclaration) (manifest_path : String)
    (patch : DeclaredScalarPatch) : Type 0 where
  pub source : RemediationSourceDeclaration
  pub is_source : source_for_manifest sources manifest_path ≡ some source
  pub same_type : patch.source_type ≡ source.source_type
  pub same_file : patch.source_path ≡ source.source_path
  pub are_declared :
      All
        (λ (r : ScalarFieldReplacement). is_declared source r.field_path ≡ true)
        patch.replacements
  pub are_distinct : has_duplicate (map path_of patch.replacements) ≡ false

declared_from :
    (sources : List RemediationSourceDeclaration) (manifest_path : String)
    (source : RemediationSourceDeclaration) (rs : List ScalarFieldReplacement)
    (patch : DeclaredScalarPatch)
    → record {
      source_type = source.source_type;
      source_path = source.source_path;
      replacements = rs;
      document_identity = none;
    }
      ≡ patch
    → source_for_manifest sources manifest_path ≡ some source
    → All (λ (r : ScalarFieldReplacement). is_declared source r.field_path ≡ true) rs
    → has_duplicate (map path_of rs) ≡ false
    → IsDeclaredPatch sources manifest_path patch
declared_from sources manifest_path source rs patch same found declared once =
    subst (IsDeclaredPatch sources manifest_path) same (record {
      source = source;
      is_source = found;
      same_type = refl;
      same_file = refl;
      are_declared = declared;
      are_distinct = once;
    })

-- A declared patch that is returned for a plan changes the file of the one source that the contract
-- declares for the plan's manifest, at fields that this source declares, no field twice.
pub declared_scalar_patch-IsDeclaredPatch :
    (decimal : Char → Option ℕ) (plan : ManifestScalarPatchPlan)
    (sources : List RemediationSourceDeclaration) (patch : DeclaredScalarPatch)
    → declared_scalar_patch decimal plan sources ≡ returned patch
    → IsDeclaredPatch sources plan.manifest_path patch
unfolding declared_scalar_patch
declared_scalar_patch-IsDeclaredPatch decimal plan sources patch h =
    then-elim patch (validate_scalar_patch_plan decimal plan) _ h (λ valid validates h.
      elim (Option-cases (source_for_manifest sources plan.manifest_path)) [
        | inl absent ↦ let h' = rw absent at h in ground arith
        | inr (source, found) ↦
            then-elim patch (declared_replacements source plan.action_type plan.replacements) _
              (rw found at h)
              (λ rs declared h. elim (Bool-cases (has_duplicate (map path_of rs))) [
                | inl twice ↦ let h' = rw twice at h in ground arith
                | inr once ↦
                    let same = returned_injective (rw once at h) in
                    declared_from sources plan.manifest_path source rs patch same found
                      (declared_replacements-is_declared source plan.action_type plan.replacements
                        rs declared)
                      once
              ])
      ])
