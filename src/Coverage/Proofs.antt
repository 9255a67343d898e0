-- ===== src/Coverage/Proofs.antt =====
-- domains/inventory/coverage.py: which entry of a coverage stands behind a deletion scope.
use k8s_clue.Prelude.{
  String, ◌≡◌, refl, sym, ◌∙◌, Bool, true, false, not, ◌&&◌, ◌||◌, Option, none, some, List, [],
  ◌∷◌, ◌++◌, any, any-append, arith, str_eq, ◌⊎◌, inl, inr, if◌then◌else◌, Bool-cases,
}
use k8s_clue.Prelude.Json.{Value, null, bool, int, float, str, array, dict, Fields, items, get}
use k8s_clue.Coverage.{
  is_in, types_of, resource_types_by_collection, namespaced_collections, cluster_collections,
  delete_safe_collections, InventoryDeleteScope, is_true, same_namespace, text,
  delete_authoritative_entry, scopes_for, entry_scopes, all_scopes, scopes_of,
  inventory_deletion_scopes, in_scope,
}
use k8s_clue.Coverage.Scopes.{any-sorted_scopes}

abbrev pub entries_of : Option Value → List Value
entries_of (some (array entries)) = items entries
entries_of _ = []

in_scope-scopes_for :
    (resource_type : String) (namespace place : Option String) (types : List String)
    → any (in_scope resource_type namespace) (scopes_for place types)
      ≡ (is_in resource_type types && same_namespace place namespace)
in_scope-scopes_for resource_type namespace place [] = refl
in_scope-scopes_for resource_type namespace place (t ∷ types) =
    ground (arith, in_scope-scopes_for resource_type namespace place types)

-- What holds of one of two guarded lists.
any-guarded :
    (test : InventoryDeleteScope → Bool) (a b c : Bool) (xs ys : List InventoryDeleteScope)
    → any test (if a then if b then xs else if c then ys else [] else []) ≡ true
    → (a ≡ true) × (((b ≡ true) × (any test xs ≡ true)) ⊎ ((c ≡ true) × (any test ys ≡ true)))
any-guarded test true true c xs ys h = (refl, inl (refl, h))
any-guarded test true false true xs ys h = (refl, inr (refl, h))
any-guarded test true false false xs ys h = absurd (cc)
any-guarded test false b c xs ys h = absurd (cc)

any-append_cases :
    (test : InventoryDeleteScope → Bool) (xs ys : List InventoryDeleteScope)
    → any test (xs ++ ys) ≡ true
    → (any test xs ≡ true) ⊎ (any test ys ≡ true)
any-append_cases test xs ys h =
    or-cases (any test xs) (any test ys) (sym (any-append test xs ys) ∙ h)
  where
    or-cases : (a b : Bool) → (a || b) ≡ true → (a ≡ true) ⊎ (b ≡ true)
    or-cases true b h = inl refl
    or-cases false b h = inr h

or_left : (a b : Bool) → a ≡ true → (a || b) ≡ true
or_left a b h = ground arith

or_right : (a b : Bool) → b ≡ true → (a || b) ≡ true
or_right a b h = ground arith

all_true :
    (safe auth nsd at filled cl here typed s r : Bool)
    → (safe && auth) ≡ true
    → (((nsd && at && filled) ≡ true) × ((typed && s) ≡ true))
      ⊎ (((cl && here) ≡ true) × ((typed && r) ≡ true))
    → (auth && safe && typed && ((at && s) || (here && r))) ≡ true
all_true safe auth nsd at filled cl here typed s r passed which = ground arith

module _ (text_of : Value → String) (resource_type : String) (namespace : Option String) where
  -- An entry was observed to its end, is of a collection where absence counts, has resources of
  -- this type, and stands for the namespace, or for the cluster if there is none.
  abbrev pub proves : Value → Bool
  proves (dict entry) =
      let collection = text text_of (get "collection" entry) in
      let place = text text_of (get "scope" entry) in
      delete_authoritative_entry text_of entry
      && is_in collection delete_safe_collections
      && is_in resource_type (types_of collection resource_types_by_collection)
      && ((str_eq place "namespace"
            && same_namespace (some (text text_of (get "namespace" entry))) namespace)
          || (str_eq place "cluster" && same_namespace none namespace))
  proves _ = false

  entry_scopes-proves :
      (entry : Fields)
      → any (in_scope resource_type namespace) (entry_scopes text_of entry) ≡ true
      → proves (dict entry) ≡ true
  unfolding entry_scopes
  entry_scopes-proves entry h =
      let collection = text text_of (get "collection" entry) in
      let place = text text_of (get "scope" entry) in
      let named = text text_of (get "namespace" entry) in
      let types = types_of collection resource_types_by_collection in
      let (passed, which) =
        any-guarded (in_scope resource_type namespace)
          (is_in collection delete_safe_collections && delete_authoritative_entry text_of entry)
          (is_in collection namespaced_collections
            && str_eq place "namespace"
            && not (str_eq named ""))
          (is_in collection cluster_collections && str_eq place "cluster")
          (scopes_for (some named) types) (scopes_for none types) h in
      all_true (is_in collection delete_safe_collections) (delete_authoritative_entry text_of entry)
        (is_in collection namespaced_collections) (str_eq place "namespace") (not (str_eq named ""))
        (is_in collection cluster_collections) (str_eq place "cluster") (is_in resource_type types)
        (same_namespace (some named) namespace) (same_namespace none namespace) passed
        (elim which [
          | inl (at, held) ↦
              inl (at, sym (in_scope-scopes_for resource_type namespace (some named) types) ∙ held)
          | inr (at, held) ↦
              inr (at, sym (in_scope-scopes_for resource_type namespace none types) ∙ held)
        ])

  all_scopes-proves :
      (entries : List Value)
      → any (in_scope resource_type namespace) (all_scopes text_of entries) ≡ true
      → any proves entries ≡ true
  unfolding all_scopes
  all_scopes-proves (dict entry ∷ entries) h =
      elim (any-append_cases (in_scope resource_type namespace) (entry_scopes text_of entry)
        (all_scopes text_of entries) h) [
          | inl here ↦
              or_left (proves (dict entry)) (any proves entries) (entry_scopes-proves entry here)
          | inr there ↦
              or_right (proves (dict entry)) (any proves entries) (all_scopes-proves entries there)
        ]
  all_scopes-proves (null ∷ entries) h = all_scopes-proves entries h
  all_scopes-proves (bool b ∷ entries) h = all_scopes-proves entries h
  all_scopes-proves (int n ∷ entries) h = all_scopes-proves entries h
  all_scopes-proves (float t ∷ entries) h = all_scopes-proves entries h
  all_scopes-proves (str t ∷ entries) h = all_scopes-proves entries h
  all_scopes-proves (array a ∷ entries) h = all_scopes-proves entries h
  all_scopes-proves [] h = absurd (cc)

  scopes_of-proves :
      (coverage : Option Value)
      → any (in_scope resource_type namespace) (scopes_of text_of coverage) ≡ true
      → any proves (entries_of coverage) ≡ true
  scopes_of-proves (some (array entries)) h =
      all_scopes-proves (items entries)
        (sym (any-sorted_scopes resource_type namespace (all_scopes text_of (items entries))) ∙ h)
  scopes_of-proves none h = absurd (cc)
  scopes_of-proves (some null) h = absurd (cc)
  scopes_of-proves (some (bool b)) h = absurd (cc)
  scopes_of-proves (some (int n)) h = absurd (cc)
  scopes_of-proves (some (float t)) h = absurd (cc)
  scopes_of-proves (some (str t)) h = absurd (cc)
  scopes_of-proves (some (dict d)) h = absurd (cc)

-- Behind a scope that fits a type and a namespace stand a live inventory and an entry of its coverage.
pub in_scopes-IsProven :
    (text_of : Value → String) (resource_type : String) (namespace : Option String)
    (source_summary : Fields)
    → any (in_scope resource_type namespace) (inventory_deletion_scopes text_of source_summary)
      ≡ true
    → (is_true (get "live_inventory" source_summary) ≡ true)
      × (any
            (proves text_of resource_type namespace)
            (entries_of (get "collection_coverage" source_summary))
          ≡ true)
unfolding inventory_deletion_scopes
in_scopes-IsProven text_of resource_type namespace source_summary h =
    elim (Bool-cases (is_true (get "live_inventory" source_summary))) [
      | inl live ↦ (
        live,
        scopes_of-proves text_of resource_type namespace (get "collection_coverage" source_summary)
            (rw live at h),
      )
      | inr not_live ↦ let h' = rw not_live at h in absurd (cc)
    ]
