-- ===== src/Coverage/Exact.antt =====
-- domains/inventory/repository.py: the two checks that a row passes before `save_inventory_snapshot_mutation`
-- deletes it, one in Python on the rows read before and one in the UPDATE.
use k8s_clue.Prelude.{
  ℕ, String, ◌≡◌, refl, sym, ◌∙◌, ap, Bool, true, false, not, ◌&&◌, ◌||◌, Option, none, some, List,
  [], ◌∷◌, map, keep, any, arith, str_eq, eq_iff, Bool-cases, inl, inr,
}
use k8s_clue.Prelude.Json.{Value, str, get}
use k8s_clue.Prelude.Rows.{select_first, select_first-hit}
use k8s_clue.Coverage.{
  is_in, text, in_scope, row_namespace, InventoryDeleteScope, inventory_row_in_deletion_scopes,
  inventory_delete_scope_predicate,
}
use k8s_clue.Coverage.Survival.{delete_predicate-any}
use k8s_clue.Coverage.Snapshot.{
  ClusterInventoryResourceRecord, InventorySnapshot, key_of, has_key, is_live, is_previous, columns,
  null_or_text, is_stale, resources_complete, scoped_delete_scopes, previous_rows_for_deletion,
  missing_inventory_keys, is_to_delete, save_resources,
}
use k8s_clue.Coverage.Deletion.{is_live_at, is_in-keep, is_in-kept}
use k8s_clue.Coverage.Saved.{save-live_at}

select_first-keep :
    (key : String) (test : ClusterInventoryResourceRecord → Bool)
    (rows : List ClusterInventoryResourceRecord) (row : ClusterInventoryResourceRecord)
    → select_first (has_key key) rows ≡ some row
    → test row ≡ true
    → select_first (has_key key) (keep test rows) ≡ some row
unfolding select_first
select_first-keep key test [] row found passed = absurd (cc)
select_first-keep key test (first ∷ rows) row found passed =
    ground (arith, select_first-keep key test rows row, found, passed)

-- The snapshot is complete, or the row's columns lie in one of its deletion scopes.
abbrev pub is_claimed :
    (Value → String) → (Value → String) → InventorySnapshot → ClusterInventoryResourceRecord → Bool
is_claimed text_of str_of snapshot row =
    resources_complete snapshot
    || inventory_delete_scope_predicate (scoped_delete_scopes text_of str_of snapshot)
        row.resource_type row.namespace

module _ (text_of str_of : Value → String) (row : ClusterInventoryResourceRecord)
    (stripped : text_of (str row.resource_type) ≡ row.resource_type)
    (as_text : (t : String) → str_of (str t) ≡ t) where
  -- On a type without surrounding whitespace the check in Python is the predicate.
  check-predicate :
      (scopes : List InventoryDeleteScope)
      → inventory_row_in_deletion_scopes text_of str_of (columns row) scopes
        ≡ inventory_delete_scope_predicate scopes row.resource_type row.namespace
  unfolding inventory_row_in_deletion_scopes text
  check-predicate scopes =
      ap (λ t. any (in_scope t (row_namespace str_of (get "namespace" (columns row)))) scopes)
        stripped
      ∙ ap (λ n. any (in_scope row.resource_type n) scopes) (same_column row.namespace)
      ∙ sym (delete_predicate-any row.resource_type row.namespace scopes)
    where
      same_column : (n : Option String) → row_namespace str_of (some (null_or_text n)) ≡ n
      same_column none = refl
      same_column (some t) = ap some (as_text t)

  module _ (snapshot : InventorySnapshot) (rows : List ClusterInventoryResourceRecord)
      (key : String) (found : select_first (has_key key) rows ≡ some row)
      (ours : is_previous snapshot row ≡ true) where
    claimed-kept :
        is_claimed text_of str_of snapshot row ≡ true
        → is_in key (map key_of (previous_rows_for_deletion text_of str_of snapshot rows)) ≡ true
    unfolding previous_rows_for_deletion
    claimed-kept claimed = elim (Bool-cases (resources_complete snapshot)) [
      | inl complete ↦ rw complete (is_in-kept key (is_previous snapshot) rows row found ours)
      | inr partial ↦ rw partial (
          is_in-kept key
            (λ r.
              inventory_row_in_deletion_scopes text_of str_of (columns r)
                (scoped_delete_scopes text_of str_of snapshot))
            (keep (is_previous snapshot) rows) row
            (select_first-keep key (is_previous snapshot) rows row found ours)
            (check-predicate (scoped_delete_scopes text_of str_of snapshot)
              ∙ (rw partial at claimed)))
    ]

    claimed-missing :
        is_claimed text_of str_of snapshot row ≡ true
        → is_in key (missing_inventory_keys text_of str_of snapshot rows)
          ≡ not (is_in key (map key_of snapshot.resources))
    unfolding missing_inventory_keys
    claimed-missing claimed =
        is_in-keep key (map key_of snapshot.resources)
          (map key_of (previous_rows_for_deletion text_of str_of snapshot rows))
        ∙ ap (λ b. not (is_in key (map key_of snapshot.resources)) && b) (claimed-kept claimed)
        ∙ ground arith

    -- What decides on a row of the snapshot's cluster that another snapshot wrote.
    to_delete-claimed :
        str_eq row.snapshot_id snapshot.snapshot_id ≡ false
        → (is_in key (map key_of snapshot.resources)
            || not (
                is_to_delete text_of str_of snapshot
                  (missing_inventory_keys text_of str_of snapshot rows)
                  row))
          ≡ (is_in key (map key_of snapshot.resources)
              || not (is_claimed text_of str_of snapshot row))
    unfolding is_to_delete
    to_delete-claimed older =
        let at =
          ap (λ k. is_in k (missing_inventory_keys text_of str_of snapshot rows))
            ((eq_iff row.inventory_key key).0 (select_first-hit (has_key key) rows row found)) in
        elim (Bool-cases (is_claimed text_of str_of snapshot row)) [
          | inl claimed ↦ ground (arith, claimed-missing claimed, at)
          | inr unclaimed ↦ ground arith
        ]

    -- A snapshot that is not stale is saved. A live row of its cluster that another snapshot wrote, whose
    -- type has no surrounding whitespace, is live afterwards exactly if the snapshot has its key, or
    -- the snapshot is not complete and the row's columns lie in none of its deletion scopes: of the
    -- two checks, none drops a row that the other takes. Python's `str` gives a text back.
    pub save_resources_lem :
        (latest_observed_at : Option ℕ) (now : ℕ)
        → is_stale latest_observed_at snapshot ≡ false
        → str_eq row.snapshot_id snapshot.snapshot_id ≡ false
        → is_live_at key (save_resources text_of str_of latest_observed_at now snapshot rows) ≡ (
            is_in key (map key_of snapshot.resources)
            || not (is_claimed text_of str_of snapshot row))
    save_resources_lem latest_observed_at now newest older =
        save-live_at text_of str_of snapshot latest_observed_at now rows key row newest found
          (previous-live ours)
        ∙ to_delete-claimed older
      where
        previous-live : is_previous snapshot row ≡ true → is_live row ≡ true
        previous-live h = ground arith
