-- ===== src/Coverage/Absence.antt =====
-- domains/inventory/repository.py and domains/inventory/coverage.py: when `save_inventory_snapshot_mutation`
-- takes the absence of a resource from a snapshot for its deletion.
use k8s_clue.Prelude.{
  ℕ, String, ◌≡◌, refl, sym, ◌∙◌, ap, Bool, true, false, not, ◌||◌, ◌⊎◌, Option, some, List, map,
  any, arith, str_eq, eq_iff, Bool-cases, inl, inr,
}
use k8s_clue.Prelude.Json.{Value, Fields, no_fields, field, get, bool}
use k8s_clue.Prelude.Rows.{select_first}
use k8s_clue.Coverage.{is_in, is_true, inventory_delete_scope_predicate}
use k8s_clue.Coverage.Proofs.{entries_of, proves, in_scopes-IsProven}
use k8s_clue.Coverage.Survival.{events_unproven, delete_predicate-any}
use k8s_clue.Coverage.Snapshot.{
  ClusterInventoryResourceRecord, InventorySnapshot, key_of, has_key, is_live, is_previous,
  is_stale, with_field, resources_complete, scoped_delete_scopes, missing_inventory_keys,
  is_to_delete, save_resources,
}
use k8s_clue.Coverage.Deletion.{is_live_row, is_live_at}
use k8s_clue.Coverage.Saved.{save-live_at}

get-with_field_other :
    (key other : String) (value : Value) (fields : Fields)
    → str_eq key other ≡ false
    → get other (with_field key value fields) ≡ get other fields
unfolding with_field
get-with_field_other key other value no_fields apart = ground (arith, apart)
get-with_field_other key other value (field k v rest) apart = elim (Bool-cases (str_eq k key)) [
  | inl same ↦
      let e = ap (λ t. str_eq t other) ((eq_iff k key).0 same) in ground (arith, same, e, apart)
  | inr differs ↦ ground (arith, differs, get-with_field_other key other value rest apart)
]

-- The snapshot may infer deletions at all: it is a live inventory or carries the scoped authority.
abbrev pub is_authority : InventorySnapshot → Bool
is_authority snapshot =
    is_true (get "live_inventory" snapshot.source_summary)
    || is_true (get "scoped_coverage_authority" snapshot.source_summary)

module _ (text_of str_of : Value → String) (snapshot : InventorySnapshot) where
  -- An entry of the snapshot's coverage stands for the type and the namespace.
  abbrev pub is_covered : String → Option String → Bool
  is_covered resource_type namespace =
      any (proves text_of resource_type namespace)
        (entries_of (get "collection_coverage" snapshot.source_summary))

  predicate-is_covered :
      (resource_type : String) (namespace : Option String)
      → inventory_delete_scope_predicate
          (scoped_delete_scopes text_of str_of snapshot)
          resource_type
          namespace
        ≡ true
      → (is_authority snapshot ≡ true) × (is_covered resource_type namespace ≡ true)
  unfolding scoped_delete_scopes
  predicate-is_covered t n chosen =
      let chosen' =
        sym (delete_predicate-any t n (scoped_delete_scopes text_of str_of snapshot)) ∙ chosen in
      elim (Bool-cases (is_true (get "scoped_coverage_authority" snapshot.source_summary))) [
        | inl scoped ↦
            let (live, proven) =
              in_scopes-IsProven text_of t n
                (with_field "live_inventory" (bool true) snapshot.source_summary)
                (rw scoped at chosen') in
            (
              ground (arith, scoped),
              ap (λ c. any (proves text_of t n) (entries_of c))
                    (sym (
                      get-with_field_other "live_inventory" "collection_coverage" (bool true)
                        snapshot.source_summary refl))
                  ∙ proven,
            )
        | inr plain ↦
            let (live, proven) =
              in_scopes-IsProven text_of t n snapshot.source_summary (rw plain at chosen') in
            (ground (arith, live), proven)
      ]

  to_delete-cases :
      (missing : List String) (row : ClusterInventoryResourceRecord)
      → is_to_delete text_of str_of snapshot missing row ≡ true
      → (is_previous snapshot row ≡ true)
        × ((resources_complete snapshot ≡ true)
            ⊎ (inventory_delete_scope_predicate
                  (scoped_delete_scopes text_of str_of snapshot)
                  row.resource_type
                  row.namespace
                ≡ true))
  unfolding is_to_delete
  to_delete-cases missing row chosen = ground arith

  module _ (latest_observed_at : Option ℕ) (now : ℕ) (rows : List ClusterInventoryResourceRecord)
      (key : String) (row : ClusterInventoryResourceRecord)
      (found : select_first (has_key key) rows ≡ some row) (live : is_live row ≡ true) where
    stale-live :
        is_stale latest_observed_at snapshot ≡ true
        → is_live_at key (save_resources text_of str_of latest_observed_at now snapshot rows) ≡ true
    unfolding save_resources
    stale-live stale = rw stale (ap is_live_row found ∙ live)

    -- A resource was live and is not after a snapshot was saved. Then it belongs to the snapshot's
    -- cluster and the snapshot does not have it. Moreover the snapshot is a complete one, or it has an
    -- authority and its coverage has an entry that was observed completely, untruncated and unselected,
    -- that gives no reasons, whose collection is one where absence counts and has the row's type, and
    -- that stands for the row's namespace, or for the cluster if the row has none.
    pub absence-IsProven :
        is_live_at key (save_resources text_of str_of latest_observed_at now snapshot rows) ≡ false
        → (is_previous snapshot row ≡ true)
          × (is_in key (map key_of snapshot.resources) ≡ false)
          × ((resources_complete snapshot ≡ true)
              ⊎ ((is_authority snapshot ≡ true)
                  × (is_covered row.resource_type row.namespace ≡ true)))
    absence-IsProven gone = elim (Bool-cases (is_stale latest_observed_at snapshot)) [
      | inl stale ↦ let still = sym gone ∙ stale-live stale in absurd (cc)
      | inr newest ↦
          let missing = missing_inventory_keys text_of str_of snapshot rows in
          let after =
            save-live_at text_of str_of snapshot latest_observed_at now rows key row newest found
              live in
          let (absent, chosen) =
            chosen_of (is_in key (map key_of snapshot.resources))
              (is_to_delete text_of str_of snapshot missing row) (sym after ∙ gone) in
          let (ours, why) = to_delete-cases missing row chosen in
          (
            ours,
            absent,
            elim why [
              | inl complete ↦ inl complete
              | inr predicate ↦ inr (predicate-is_covered row.resource_type row.namespace predicate)
            ],
          )
    ]
      where
        chosen_of : (a b : Bool) → (a || not b) ≡ false → (a ≡ false) × (b ≡ true)
        chosen_of a b h = ground arith

    -- A live row of type `event` stays live whatever the coverage of a snapshot claims, if the snapshot
    -- is not a complete one.
    pub events-survive :
        row.resource_type ≡ "event"
        → resources_complete snapshot ≡ false
        → is_live_at key (save_resources text_of str_of latest_observed_at now snapshot rows) ≡ true
    events-survive is_event partial =
        elim (Bool-cases
          (is_live_at key (save_resources text_of str_of latest_observed_at now snapshot rows))) [
            | inl still ↦ still
            | inr gone ↦ elim (absence-IsProven gone).2 [
              | inl complete ↦ absurd (cc)
              | inr (allowed, covered) ↦
                  let unproven =
                    events_unproven text_of row.namespace
                      (entries_of (get "collection_coverage" snapshot.source_summary)) in
                  let covered' = rw is_event at covered in absurd (cc)
            ]
          ]
