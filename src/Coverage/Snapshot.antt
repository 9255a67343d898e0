-- ===== src/Coverage/Snapshot.antt =====
-- What `save_inventory_snapshot_mutation` of domains/inventory/repository.py does to the table of
-- resources. The columns that do not decide which rows are deleted are left out. `resources` are the
-- rows that `preserve_existing_inventory_keys` returns, and `source_summary` the summary of the payload.
use Prim.Native.Nat.{ℕ}
use k8s_clue.Prelude.{
  String, Bool, true, false, not, ◌&&◌, ◌||◌, Option, none, some, List, [], ◌∷◌, map, keep, str_eq,
  ltb, if◌then◌else◌,
}
use k8s_clue.Prelude.Json.{Value, null, bool, str, dict, Fields, no_fields, field, get, truthy}
use k8s_clue.Prelude.Rows.{update_where, upsert}
use k8s_clue.Coverage.{
  is_in, is_true, InventoryDeleteScope, inventory_deletion_scopes, inventory_row_in_deletion_scopes,
  inventory_delete_scope_predicate,
}

pub record ClusterInventoryResourceRecord : Type 0 where
  pub inventory_key : String
  pub snapshot_id : String
  pub workspace_id : String
  pub cluster_id : String
  pub resource_type : String
  pub namespace : Option String
  pub deleted_at : Option ℕ

pub record InventorySnapshot : Type 0 where
  pub snapshot_id : String
  pub workspace_id : String
  pub cluster_id : String
  pub observed_at : ℕ
  pub replace : Option Value
  pub source_summary : Fields
  pub resources : List ClusterInventoryResourceRecord

abbrev pub key_of : ClusterInventoryResourceRecord → String
key_of row = row.inventory_key

abbrev pub has_key : String → ClusterInventoryResourceRecord → Bool
has_key key row = str_eq row.inventory_key key

-- bool(payload.get("replace"))
abbrev pub is_replace : Option Value → Bool
is_replace none = false
is_replace (some value) = truthy value

-- isinstance(limits, dict) and limits.get("truncated") is True
abbrev pub is_truncated : Option Value → Bool
is_truncated (some (dict limits)) = is_true (get "truncated" limits)
is_truncated _ = false

unfoldable pub resources_complete : InventorySnapshot → Bool
resources_complete snapshot =
    is_replace snapshot.replace
    && is_true (get "resources_complete" snapshot.source_summary)
    && not (is_truncated (get "collection_limits" snapshot.source_summary))

-- {**fields, key: value}
unfoldable pub with_field : String → Value → Fields → Fields
with_field key value no_fields = field key value no_fields
with_field key value (field k v rest) =
    if str_eq k key then field k value rest else field k v (with_field key value rest)

abbrev pub is_live : ClusterInventoryResourceRecord → Bool
is_live row = elim row.deleted_at [ none ↦ true | some _ ↦ false ]

-- A row of the snapshot's cluster that is not deleted.
abbrev pub is_previous : InventorySnapshot → ClusterInventoryResourceRecord → Bool
is_previous snapshot row =
    str_eq row.workspace_id snapshot.workspace_id
    && str_eq row.cluster_id snapshot.cluster_id
    && is_live row

abbrev pub null_or_text : Option String → Value
null_or_text none = null
null_or_text (some text) = str text

-- dict(row)
abbrev pub columns : ClusterInventoryResourceRecord → Fields
columns row =
    field "resource_type" (str row.resource_type)
      (field "namespace" (null_or_text row.namespace) no_fields)

abbrev pub is_no_key : List String → Bool
is_no_key [] = true
is_no_key (key ∷ keys) = false

abbrev pub is_no_scope : List InventoryDeleteScope → Bool
is_no_scope [] = true
is_no_scope (scope ∷ scopes) = false

-- The DO UPDATE of a row that is there already.
abbrev pub renewed :
    ClusterInventoryResourceRecord → ClusterInventoryResourceRecord → ClusterInventoryResourceRecord
renewed resource row = record row {
  snapshot_id = resource.snapshot_id;
  namespace = resource.namespace;
  deleted_at = none;
}

-- The chunks are upserted one after another, each key once.
unfoldable pub upsert_resources :
    List ClusterInventoryResourceRecord
    → List ClusterInventoryResourceRecord
    → List ClusterInventoryResourceRecord
upsert_resources [] rows = rows
upsert_resources (resource ∷ resources) rows =
    upsert_resources resources
      (upsert (has_key resource.inventory_key) (λ row. true) (renewed resource)
        (record resource { deleted_at = none }) rows).0

abbrev pub marked : ℕ → ClusterInventoryResourceRecord → ClusterInventoryResourceRecord
marked now row = record row { deleted_at = some now }

-- A cut older than the newest one of its cluster is only noted.
abbrev pub is_stale : Option ℕ → InventorySnapshot → Bool
is_stale none snapshot = false
is_stale (some latest_observed_at) snapshot = ltb snapshot.observed_at latest_observed_at

module _ (text_of str_of : Value → String) where
  unfoldable pub scoped_delete_scopes : InventorySnapshot → List InventoryDeleteScope
  scoped_delete_scopes snapshot = inventory_deletion_scopes text_of (
      if is_true (get "scoped_coverage_authority" snapshot.source_summary)
      then with_field "live_inventory" (bool true) snapshot.source_summary
      else snapshot.source_summary)

  unfoldable pub previous_rows_for_deletion :
      InventorySnapshot → List ClusterInventoryResourceRecord → List ClusterInventoryResourceRecord
  previous_rows_for_deletion snapshot rows =
      let previous_rows = keep (is_previous snapshot) rows in
      if resources_complete snapshot
      then previous_rows
      else keep
          (λ row.
            inventory_row_in_deletion_scopes text_of str_of (columns row)
              (scoped_delete_scopes snapshot))
          previous_rows

  -- A set of keys: neither their order nor a repetition matters to `IN`.
  unfoldable pub missing_inventory_keys :
      InventorySnapshot → List ClusterInventoryResourceRecord → List String
  missing_inventory_keys snapshot rows =
      keep (λ key. not (is_in key (map key_of snapshot.resources)))
        (map key_of (previous_rows_for_deletion snapshot rows))

  -- The WHERE of the UPDATE that marks rows as deleted.
  unfoldable pub is_to_delete :
      InventorySnapshot → List String → ClusterInventoryResourceRecord → Bool
  is_to_delete snapshot missing row =
      str_eq row.workspace_id snapshot.workspace_id
      && str_eq row.cluster_id snapshot.cluster_id
      && not (str_eq row.snapshot_id snapshot.snapshot_id)
      && is_in row.inventory_key missing
      && is_live row
      && (resources_complete snapshot
          || inventory_delete_scope_predicate (scoped_delete_scopes snapshot) row.resource_type
              row.namespace)

  unfoldable pub save_resources :
      Option ℕ
      → ℕ
      → InventorySnapshot
      → List ClusterInventoryResourceRecord
      → List ClusterInventoryResourceRecord
  save_resources latest_observed_at now snapshot rows =
      let missing = missing_inventory_keys snapshot rows in
      let saved = upsert_resources snapshot.resources rows in
      if is_stale latest_observed_at snapshot
      then rows
      else if (resources_complete snapshot || not (is_no_scope (scoped_delete_scopes snapshot)))
          && not (is_no_key missing)
      then update_where (is_to_delete snapshot missing) (marked now) saved
      else saved
