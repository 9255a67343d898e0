-- ===== src/Coverage/Saved.antt =====
-- domains/inventory/repository.py: which rows are live after `save_inventory_snapshot_mutation` has saved a
-- snapshot of a cluster.
use k8s_clue.Prelude.{
  ℕ, String, ◌≡◌, refl, sym, ◌∙◌, ap, Bool, true, false, not, ◌&&◌, ◌||◌, Option, none, some, List,
  [], ◌∷◌, map, arith, eq_iff, Bool-cases, inl, inr,
}
use k8s_clue.Prelude.Json.{Value}
use k8s_clue.Prelude.Rows.{select_first, update_where, select_first-hit}
use k8s_clue.Coverage.{is_in, InventoryDeleteScope, inventory_delete_scope_predicate}
use k8s_clue.Coverage.Snapshot.{
  ClusterInventoryResourceRecord, InventorySnapshot, key_of, has_key, is_live, is_no_key,
  is_no_scope, is_stale, marked, resources_complete, upsert_resources, scoped_delete_scopes,
  previous_rows_for_deletion, missing_inventory_keys, is_to_delete, save_resources,
}
use k8s_clue.Coverage.Deletion.{
  is_live_row, is_live_at, stays, live_at-upsert_resources, select-upsert_resources, live_at-marked,
  is_in-keep,
}

stays-unchosen :
    (chosen : ClusterInventoryResourceRecord → Bool) (o : Option ClusterInventoryResourceRecord)
    → is_live_row o ≡ true
    → ((row : ClusterInventoryResourceRecord) → o ≡ some row → chosen row ≡ false)
    → stays chosen o ≡ true
stays-unchosen chosen none live unchosen = absurd (cc)
stays-unchosen chosen (some row) live unchosen = ground (arith, unchosen row refl)

no_key-is_in : (key : String) (keys : List String) → is_no_key keys ≡ true → is_in key keys ≡ false
no_key-is_in key [] none_there = refl
no_key-is_in key (k ∷ keys) none_there = absurd (cc)

no_scope-predicate :
    (scopes : List InventoryDeleteScope) (t : String) (n : Option String)
    → is_no_scope scopes ≡ true
    → inventory_delete_scope_predicate scopes t n ≡ false
unfolding inventory_delete_scope_predicate
no_scope-predicate [] t n none_there = refl
no_scope-predicate (scope ∷ scopes) t n none_there = absurd (cc)

module _ (text_of str_of : Value → String) (snapshot : InventorySnapshot) where
  to_delete-missing :
      (missing : List String) (row : ClusterInventoryResourceRecord)
      → is_in row.inventory_key missing ≡ false
      → is_to_delete text_of str_of snapshot missing row ≡ false
  unfolding is_to_delete
  to_delete-missing missing row absent = ground arith

  -- Without a WHERE that can hold, the UPDATE is not sent.
  to_delete-unsent :
      (missing : List String) (row : ClusterInventoryResourceRecord)
      → ((resources_complete snapshot
            || not (is_no_scope (scoped_delete_scopes text_of str_of snapshot)))
          && not (is_no_key missing))
        ≡ false
      → is_to_delete text_of str_of snapshot missing row ≡ false
  unfolding is_to_delete
  to_delete-unsent missing row unsent = ground (
    arith,
    no_key-is_in row.inventory_key missing,
    no_scope-predicate (scoped_delete_scopes text_of str_of snapshot) row.resource_type
        row.namespace,
  )

  module _ (latest_observed_at : Option ℕ) (now : ℕ) (rows : List ClusterInventoryResourceRecord)
      (key : String) (row : ClusterInventoryResourceRecord)
      (newest : is_stale latest_observed_at snapshot ≡ false)
      (found : select_first (has_key key) rows ≡ some row) (live : is_live row ≡ true) where
    abbrev missing : List String
    missing = missing_inventory_keys text_of str_of snapshot rows

    abbrev saved : List ClusterInventoryResourceRecord
    saved = upsert_resources snapshot.resources rows

    saved-live : is_live_at key saved ≡ true
    saved-live =
        let found_live = ap is_live_row found ∙ live in
        ground (arith, live_at-upsert_resources key snapshot.resources rows, found_live)

    in_snapshot-unmissed :
        is_in key (map key_of snapshot.resources) ≡ true → is_in key missing ≡ false
    unfolding missing_inventory_keys
    in_snapshot-unmissed here =
        is_in-keep key (map key_of snapshot.resources)
          (map key_of (previous_rows_for_deletion text_of str_of snapshot rows))
        ∙ ap
            (λ b.
              not b
              && is_in key (map key_of (previous_rows_for_deletion text_of str_of snapshot rows)))
            here

    marked-live :
        is_live_at key
          (update_where (is_to_delete text_of str_of snapshot missing) (marked now) saved)
        ≡ (is_in key (map key_of snapshot.resources)
            || not (is_to_delete text_of str_of snapshot missing row))
    marked-live = elim (Bool-cases (is_in key (map key_of snapshot.resources))) [
      | inl here ↦ rw here (
          live_at-marked key now (is_to_delete text_of str_of snapshot missing) saved
          ∙ stays-unchosen (is_to_delete text_of str_of snapshot missing)
              (select_first (has_key key) saved) saved-live
              (λ r at. to_delete-missing missing r (
                ap (λ k. is_in k missing)
                  ((eq_iff r.inventory_key key).0 (select_first-hit (has_key key) saved r at))
                ∙ in_snapshot-unmissed here)))
      | inr absent ↦ rw absent (
          live_at-marked key now (is_to_delete text_of str_of snapshot missing) saved
          ∙ ap (stays (is_to_delete text_of str_of snapshot missing))
              (select-upsert_resources key snapshot.resources rows absent ∙ found)
          ∙ ap (λ b. not (is_to_delete text_of str_of snapshot missing row) && b) live
          ∙ ground arith)
    ]

    -- What was live stays live if the snapshot has it or the UPDATE does not choose it.
    pub save-live_at :
        is_live_at key (save_resources text_of str_of latest_observed_at now snapshot rows) ≡ (
          is_in key (map key_of snapshot.resources)
          || not (is_to_delete text_of str_of snapshot missing row))
    unfolding save_resources
    save-live_at =
        elim (Bool-cases (
          (resources_complete snapshot
            || not (is_no_scope (scoped_delete_scopes text_of str_of snapshot)))
          && not (is_no_key missing))) [
            | inl sent ↦ rw (newest, sent) marked-live
            | inr unsent ↦
                rw (newest, unsent)
                  (saved-live ∙ sym (ground (arith, to_delete-unsent missing row unsent)))
          ]
