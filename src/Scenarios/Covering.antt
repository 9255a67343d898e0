-- ===== src/Scenarios/Covering.antt =====
-- A snapshot that saw all pods of one namespace.
use k8s_clue.Prelude.{
  String, ◌≡◌, refl, true, false, not, ◌||◌, ◌⊎◌, none, some, List, [], ◌∷◌, map,
}
use k8s_clue.Prelude.Json.{Value, bool, str, array, dict, no_items, item, Fields, field, no_fields}
use k8s_clue.Prelude.Rows.{select_first, update_where, upsert}
use k8s_clue.Coverage.{
  is_in, text, types_of, no_reasons, delete_authoritative_entry, entry_scopes, all_scopes,
  insert_scope, sorted_scopes, inventory_deletion_scopes, inventory_row_in_deletion_scopes,
  inventory_delete_scope_predicate,
}
use k8s_clue.Coverage.Snapshot.{
  ClusterInventoryResourceRecord, InventorySnapshot, key_of, has_key, is_previous, with_field,
  resources_complete, upsert_resources, scoped_delete_scopes, previous_rows_for_deletion,
  missing_inventory_keys, is_to_delete, save_resources,
}
use k8s_clue.Coverage.Deletion.{is_live_at}
use k8s_clue.Coverage.Absence.{is_authority, is_covered, absence-IsProven, events-survive}
use k8s_clue.Coverage.Exact.{is_claimed, save_resources_lem}

abbrev plain : Value → String
plain (str t) = t
plain _ = "?"

abbrev pods_seen : Fields
pods_seen = field "collection" (str "pods") (
    field "scope" (str "namespace") (
      field "namespace" (str "shop") (
        field "complete" (bool true) (
          field "delete_safe" (bool true)
            (field "observed" (bool true) (field "reason_codes" (array no_items) no_fields))))))

abbrev snapshot : Fields
snapshot =
    field "live_inventory" (bool true)
      (field "collection_coverage" (array (item (dict pods_seen) no_items)) no_fields)

abbrev stored_row : String → String → ClusterInventoryResourceRecord
stored_row key resource_type = record {
  inventory_key = key;
  snapshot_id = "s1";
  workspace_id = "w1";
  cluster_id = "c1";
  resource_type = resource_type;
  namespace = some "shop";
  deleted_at = none;
}

abbrev table : List ClusterInventoryResourceRecord
table = stored_row "k1" "pod" ∷ stored_row "k2" "event" ∷ stored_row "k3" "pod" ∷ []

-- The next cut has only one of the two pods.
abbrev cut : InventorySnapshot
cut = record {
  snapshot_id = "s2";
  workspace_id = "w1";
  cluster_id = "c1";
  observed_at = 20;
  replace = none;
  source_summary = snapshot;
  resources = record (stored_row "k3" "pod") { snapshot_id = "s2" } ∷ [];
}

abbrev saved : List ClusterInventoryResourceRecord
saved = save_resources plain plain (some 10) 21 cut table

-- `unfolding saving` runs what a snapshot does to the table.
unfoldable saving : Unit {0}
unfolding save_resources is_to_delete missing_inventory_keys previous_rows_for_deletion
    scoped_delete_scopes upsert_resources resources_complete with_field select_first update_where
    upsert inventory_row_in_deletion_scopes inventory_deletion_scopes sorted_scopes insert_scope
    all_scopes entry_scopes types_of text delete_authoritative_entry no_reasons
    inventory_delete_scope_predicate
saving = tt

pod_found : select_first (has_key "k1") table ≡ some (stored_row "k1" "pod")
unfolding saving
pod_found = refl

event_found : select_first (has_key "k2") table ≡ some (stored_row "k2" "event")
unfolding saving
event_found = refl

pod_gone : is_live_at "k1" saved ≡ false
unfolding saving
pod_gone = refl

partial : resources_complete cut ≡ false
unfolding saving
partial = refl

absence-IsProven_example :
    (is_previous cut (stored_row "k1" "pod") ≡ true)
    × (is_in "k1" (map key_of cut.resources) ≡ false)
    × ((resources_complete cut ≡ true)
        ⊎ ((is_authority cut ≡ true) × (is_covered plain plain cut "pod" (some "shop") ≡ true)))
absence-IsProven_example =
    absence-IsProven plain plain cut (some 10) 21 table "k1" (stored_row "k1" "pod") pod_found refl
      pod_gone

events-survive_example : is_live_at "k2" saved ≡ true
events-survive_example =
    events-survive plain plain cut (some 10) 21 table "k2" (stored_row "k2" "event") event_found
      refl refl partial

save_resources_lem_example : is_live_at "k1" saved ≡ (
    is_in "k1" (map key_of cut.resources)
    || not (is_claimed plain plain cut (stored_row "k1" "pod")))
save_resources_lem_example =
    save_resources_lem plain plain (stored_row "k1" "pod") refl (λ t. refl) cut table "k1" pod_found
      refl (some 10) 21 refl refl
