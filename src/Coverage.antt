-- ===== src/Coverage.antt =====
-- domains/inventory/coverage.py: from which entries of a coverage the absence of a resource may be read.
-- `text_of` is Python's `str(value).strip()` on a JSON value, and `str_of` its `str`.
pub mod Scopes
pub mod Proofs
pub mod Snapshot
pub mod Deletion
pub mod Saved
pub mod Absence
pub mod Exact
pub mod Survival
use Prim.Native.Nat.{Ordering}
use Prim.Native.String.{compare}
use k8s_clue.Prelude.{
  String, Bool, true, false, not, ◌&&◌, ◌||◌, Option, none, some, List, [], ◌∷◌, ◌++◌, any, str_eq,
  if◌then◌else◌,
}
use k8s_clue.Prelude.Json.{Value, null, bool, str, array, dict, Array, no_items, Fields, items, get}

-- value in values
abbrev pub is_in : String → List String → Bool
is_in value values = any (λ v. str_eq v value) values

abbrev pub resource_types_by_collection : List (String × List String)
resource_types_by_collection =
    ("pods", "pod" ∷ [])
    ∷ ("nodes", "node" ∷ [])
    ∷ ("workloads", "workload" ∷ [])
    ∷ ("workload_revisions", "workload_revision" ∷ [])
    ∷ ("services", "service" ∷ [])
    ∷ ("ingresses", "ingress" ∷ [])
    ∷ ("resourcequotas", "resourcequota" ∷ [])
    ∷ ("endpoints", "endpoint" ∷ [])
    ∷ ("events", "event" ∷ [])
    ∷ ("custom_resources", "custom_resource" ∷ [])
    ∷ []

abbrev pub namespaced_collections : List String
namespaced_collections =
    "pods" ∷ "workloads" ∷ "workload_revisions" ∷ "services" ∷ "ingresses" ∷ "resourcequotas"
    ∷ "endpoints" ∷ "events" ∷ []

abbrev pub cluster_collections : List String
cluster_collections = "nodes" ∷ []

abbrev pub delete_safe_collections : List String
delete_safe_collections =
    "pods" ∷ "nodes" ∷ "workloads" ∷ "workload_revisions" ∷ "services" ∷ "ingresses"
    ∷ "resourcequotas" ∷ "endpoints" ∷ []

-- A missing key gives the empty tuple: both are passed over.
unfoldable pub types_of : String → List (String × List String) → List String
types_of collection [] = []
types_of collection ((key, types) ∷ table) =
    if str_eq key collection then types else types_of collection table

pub record InventoryDeleteScope : Type 0 where
  pub resource_type : String
  pub namespace : Option String

-- value is True
abbrev pub is_true : Option Value → Bool
is_true (some (bool true)) = true
is_true _ = false

unfoldable pub no_reasons : Option Value → Bool
no_reasons (some (array no_items)) = true
no_reasons _ = false

-- namespace or ""
abbrev pub or_empty : Option String → String
or_empty none = ""
or_empty (some namespace) = namespace

abbrev pub same_namespace : Option String → Option String → Bool
same_namespace none none = true
same_namespace (some a) (some b) = str_eq a b
same_namespace _ _ = false

abbrev pub same_scope : InventoryDeleteScope → InventoryDeleteScope → Bool
same_scope a b = str_eq a.resource_type b.resource_type && same_namespace a.namespace b.namespace

-- The key (resource_type, namespace or "") is smaller or the same.
abbrev pub scope_le : InventoryDeleteScope → InventoryDeleteScope → Bool
scope_le a b = elim (compare a.resource_type b.resource_type) [
  | Ordering.lt ↦ true
  | Ordering.gt ↦ false
  | Ordering.eq ↦ elim (compare (or_empty a.namespace) (or_empty b.namespace)) [
    | Ordering.gt ↦ false
    | _ ↦ true
  ]
]

unfoldable pub insert_scope :
    InventoryDeleteScope → List InventoryDeleteScope → List InventoryDeleteScope
insert_scope scope [] = scope ∷ []
insert_scope scope (other ∷ others) = elim (scope_le scope other) [
  | true ↦ scope ∷ other ∷ others
  | false ↦ other ∷ insert_scope scope others
]

-- sorted(set(scopes))
unfoldable pub sorted_scopes : List InventoryDeleteScope → List InventoryDeleteScope
sorted_scopes [] = []
sorted_scopes (scope ∷ scopes) =
    let rest = sorted_scopes scopes in
    if any (same_scope scope) rest then rest else insert_scope scope rest

abbrev pub scopes_for : Option String → List String → List InventoryDeleteScope
scopes_for namespace [] = []
scopes_for namespace (resource_type ∷ types) =
    record { resource_type = resource_type; namespace = namespace } ∷ scopes_for namespace types

abbrev pub row_namespace : (Value → String) → Option Value → Option String
row_namespace str_of none = none
row_namespace str_of (some null) = none
row_namespace str_of (some value) = some (str_of value)

abbrev pub in_scope : String → Option String → InventoryDeleteScope → Bool
in_scope resource_type namespace scope =
    str_eq scope.resource_type resource_type && same_namespace scope.namespace namespace

module _ (text_of : Value → String) where
  -- `_text`
  unfoldable pub text : Option Value → String
  text none = ""
  text (some null) = ""
  text (some value) = text_of value

  unfoldable pub delete_authoritative_entry : Fields → Bool
  delete_authoritative_entry entry =
      is_true (get "complete" entry)
      && is_true (get "delete_safe" entry)
      && is_true (get "observed" entry)
      && not (is_true (get "truncated" entry))
      && str_eq (text (get "label_selector" entry)) ""
      && no_reasons (get "reason_codes" entry)

  -- The loop's body, for an entry that is a mapping.
  unfoldable pub entry_scopes : Fields → List InventoryDeleteScope
  entry_scopes entry =
      let collection = text (get "collection" entry) in
      let types = types_of collection resource_types_by_collection in
      let scope = text (get "scope" entry) in
      let namespace = text (get "namespace" entry) in
      if is_in collection delete_safe_collections && delete_authoritative_entry entry
      then if is_in collection namespaced_collections
          && str_eq scope "namespace"
          && not (str_eq namespace "")
        then scopes_for (some namespace) types
        else if is_in collection cluster_collections && str_eq scope "cluster"
        then scopes_for none types
        else []
      else []

  unfoldable pub all_scopes : List Value → List InventoryDeleteScope
  all_scopes [] = []
  all_scopes (dict entry ∷ entries) = entry_scopes entry ++ all_scopes entries
  all_scopes (_ ∷ entries) = all_scopes entries

  abbrev pub scopes_of : Option Value → List InventoryDeleteScope
  scopes_of (some (array entries)) = sorted_scopes (all_scopes (items entries))
  scopes_of _ = []

  unfoldable pub inventory_deletion_scopes : Fields → List InventoryDeleteScope
  inventory_deletion_scopes source_summary =
      if is_true (get "live_inventory" source_summary)
      then scopes_of (get "collection_coverage" source_summary)
      else []

  unfoldable pub inventory_row_in_deletion_scopes :
      (Value → String) → Fields → List InventoryDeleteScope → Bool
  inventory_row_in_deletion_scopes str_of row scopes =
      any (in_scope (text (get "resource_type" row)) (row_namespace str_of (get "namespace" row)))
        scopes

-- A clause on a row with these columns; a comparison with NULL does not hold.
abbrev pub clause : Option String → Option String → Bool
clause none none = true
clause none (some column) = false
clause (some namespace) none = false
clause (some namespace) (some column) = str_eq column namespace

-- Whether the predicate selects a row of the table; no scope selects none.
unfoldable pub inventory_delete_scope_predicate :
    List InventoryDeleteScope → String → Option String → Bool
inventory_delete_scope_predicate [] resource_type namespace = false
inventory_delete_scope_predicate (scope ∷ scopes) resource_type namespace =
    (str_eq resource_type scope.resource_type && clause scope.namespace namespace)
    || inventory_delete_scope_predicate scopes resource_type namespace
