-- ===== src/Coverage/Survival.antt =====
-- domains/inventory/coverage.py: entries and rows of events, and the SQL predicate beside the check on rows.
use k8s_clue.Prelude.{
  String, ◌≡◌, refl, Bool, false, ◌&&◌, ◌||◌, Option, none, some, List, [], ◌∷◌, any, arith, str_eq,
  eq_iff,
}
use k8s_clue.Prelude.Json.{Value, null, bool, int, float, str, array, dict, get}
use k8s_clue.Coverage.{
  is_in, types_of, resource_types_by_collection, delete_safe_collections, InventoryDeleteScope,
  same_namespace, text, delete_authoritative_entry, in_scope, clause,
  inventory_delete_scope_predicate,
}
use k8s_clue.Coverage.Scopes.{events_kept}
use k8s_clue.Coverage.Proofs.{proves}

or_false :
    (auth safe typed at b : Bool)
    → (typed && safe) ≡ false
    → b ≡ false
    → ((auth && safe && typed && at) || b) ≡ false
or_false auth safe typed at b h k = ground arith

pub events_unproven :
    (text_of : Value → String) (namespace : Option String) (entries : List Value)
    → any (proves text_of "event" namespace) entries ≡ false
events_unproven text_of namespace [] = refl
events_unproven text_of namespace (dict entry ∷ entries) =
    let collection = text text_of (get "collection" entry) in
    let place = text text_of (get "scope" entry) in
    or_false (delete_authoritative_entry text_of entry) (is_in collection delete_safe_collections)
      (is_in "event" (types_of collection resource_types_by_collection))
      ((str_eq place "namespace"
          && same_namespace (some (text text_of (get "namespace" entry))) namespace)
        || (str_eq place "cluster" && same_namespace none namespace))
      (any (proves text_of "event" namespace) entries) (events_kept collection)
      (events_unproven text_of namespace entries)
events_unproven text_of namespace (null ∷ entries) = events_unproven text_of namespace entries
events_unproven text_of namespace (bool b ∷ entries) = events_unproven text_of namespace entries
events_unproven text_of namespace (int n ∷ entries) = events_unproven text_of namespace entries
events_unproven text_of namespace (float t ∷ entries) = events_unproven text_of namespace entries
events_unproven text_of namespace (str t ∷ entries) = events_unproven text_of namespace entries
events_unproven text_of namespace (array a ∷ entries) = events_unproven text_of namespace entries

-- The SQL predicate on the raw columns of a row.
pub delete_predicate-any :
    (resource_type : String) (namespace : Option String) (scopes : List InventoryDeleteScope)
    → inventory_delete_scope_predicate scopes resource_type namespace
      ≡ any (in_scope resource_type namespace) scopes
unfolding inventory_delete_scope_predicate
delete_predicate-any t n [] = refl
delete_predicate-any t n (scope ∷ scopes) =
    rw
      (
        str_eq_comm t scope.resource_type,
        clause-same scope.namespace n,
        delete_predicate-any t n scopes,
      )
      refl
  where
    str_eq_comm : (a b : String) → str_eq a b ≡ str_eq b a
    str_eq_comm a b = ground (arith, eq_iff a b, eq_iff b a)

    clause-same : (a b : Option String) → clause a b ≡ same_namespace a b
    clause-same none none = refl
    clause-same none (some y) = refl
    clause-same (some x) none = refl
    clause-same (some x) (some y) = str_eq_comm y x
