-- ===== src/Patches/Serving.antt =====
-- `source_for_manifest` of domains/gitops/source_patch.py on sources of different manifests.
use k8s_clue.Prelude.{
  ◌≡◌, refl, Bool, false, some, List, [], ◌∷◌, All, map, keep, is_in, str_eq, eq_iff, eq_refl,
  arith,
}
use k8s_clue.Patches.Text.{has_duplicate}
use k8s_clue.Patches.Declared.{RemediationSourceDeclaration, source_for_manifest}
use k8s_clue.Patches.Sources.{manifest_path_of}

abbrev serves : RemediationSourceDeclaration → RemediationSourceDeclaration → Bool
serves source other = str_eq other.manifest_path source.manifest_path

keep-none :
    (source : RemediationSourceDeclaration) (others : List RemediationSourceDeclaration)
    → is_in source.manifest_path (map manifest_path_of others) ≡ false
    → keep (serves source) others ≡ []
keep-none source [] apart = refl
keep-none source (other ∷ others) apart = ground (arith, keep-none source others)

-- A source with a manifest of its own does not stand in the way of the others.
keep-others :
    (first : RemediationSourceDeclaration) (all wanted : List RemediationSourceDeclaration)
    → is_in first.manifest_path (map manifest_path_of wanted) ≡ false
    → All (λ source. keep (serves source) all ≡ source ∷ []) wanted
    → All (λ source. keep (serves source) (first ∷ all) ≡ source ∷ []) wanted
keep-others first all [] apart alone = tt
keep-others first all (source ∷ wanted) apart alone =
    let other : str_eq first.manifest_path source.manifest_path ≡ false = ground (
      arith,
      eq_iff first.manifest_path source.manifest_path,
      eq_iff source.manifest_path first.manifest_path,
    ) in
    (rw other alone.0, keep-others first all wanted (ground arith) alone.1)

keep-alone :
    (sources : List RemediationSourceDeclaration)
    → has_duplicate (map manifest_path_of sources) ≡ false
    → All (λ source. keep (serves source) sources ≡ source ∷ []) sources
keep-alone [] distinct = tt
keep-alone (source ∷ sources) distinct =
    let apart : is_in source.manifest_path (map manifest_path_of sources) ≡ false = ground arith in
    (
      rw (eq_refl source.manifest_path, keep-none source sources apart) refl,
      keep-others source sources sources apart (keep-alone sources (ground arith)),
    )

pub found_all :
    (sources : List RemediationSourceDeclaration)
    → has_duplicate (map manifest_path_of sources) ≡ false
    → All (λ source. source_for_manifest sources source.manifest_path ≡ some source) sources
unfolding source_for_manifest
found_all sources distinct = by_source sources (keep-alone sources distinct)
  where
    by_source :
        (wanted : List RemediationSourceDeclaration)
        → All (λ source. keep (serves source) sources ≡ source ∷ []) wanted
        → All (λ source. source_for_manifest sources source.manifest_path ≡ some source) wanted
    by_source [] alone = tt
    by_source (source ∷ wanted) alone =
        (rw (alone.0, source_for_manifest) refl, by_source wanted alone.1)
