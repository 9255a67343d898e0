-- ===== src/Coverage/Scopes.antt =====
-- domains/inventory/coverage.py: sorting and deduplicating the deletion scopes.
use k8s_clue.Prelude.{
  String, ◌≡◌, refl, sym, ◌∙◌, ap, Bool, true, false, ◌&&◌, ◌||◌, Option, none, some, List, [], ◌∷◌,
  any, arith, str_eq, eq_iff, and_true,
}
use k8s_clue.Coverage.{
  is_in, types_of, resource_types_by_collection, delete_safe_collections, InventoryDeleteScope,
  same_namespace, same_scope, insert_scope, sorted_scopes, in_scope,
}

any-insert_scope :
    (test : InventoryDeleteScope → Bool) (scope : InventoryDeleteScope)
    (scopes : List InventoryDeleteScope)
    → any test (insert_scope scope scopes) ≡ (test scope || any test scopes)
unfolding insert_scope
any-insert_scope test scope [] = refl
any-insert_scope test scope (other ∷ others) = ground (arith, any-insert_scope test scope others)

same_namespace_eq : (a b : Option String) → same_namespace a b ≡ true → a ≡ b
same_namespace_eq none none h = refl
same_namespace_eq none (some y) h = absurd (cc)
same_namespace_eq (some x) none h = absurd (cc)
same_namespace_eq (some x) (some y) h = ap some ((eq_iff x y).0 h)

module _ (resource_type : String) (namespace : Option String) where
  in_scope-same :
      (a b : InventoryDeleteScope)
      → same_scope a b ≡ true
      → in_scope resource_type namespace a ≡ in_scope resource_type namespace b
  in_scope-same a b h =
      let (same_type, same_place) = and_true h in
      ap (λ t. str_eq t resource_type && same_namespace a.namespace namespace)
        ((eq_iff a.resource_type b.resource_type).0 same_type)
      ∙ ap (λ n. str_eq b.resource_type resource_type && same_namespace n namespace)
          (same_namespace_eq a.namespace b.namespace same_place)

  -- A scope that stands in the list already adds nothing.
  any-same :
      (scope : InventoryDeleteScope) (scopes : List InventoryDeleteScope)
      → any (same_scope scope) scopes ≡ true
      → in_scope resource_type namespace scope ≡ true
      → any (in_scope resource_type namespace) scopes ≡ true
  any-same scope (other ∷ others) h held =
      ground (arith, any-same scope others, in_scope-same scope other)
  any-same scope [] h held = absurd (cc)

  pub any-sorted_scopes :
      (scopes : List InventoryDeleteScope)
      → any (in_scope resource_type namespace) (sorted_scopes scopes)
        ≡ any (in_scope resource_type namespace) scopes
  unfolding sorted_scopes
  any-sorted_scopes [] = refl
  any-sorted_scopes (scope ∷ scopes) = ground (
    arith,
    any-sorted_scopes scopes,
    any-same scope (sorted_scopes scopes),
    any-insert_scope (in_scope resource_type namespace) scope (sorted_scopes scopes),
  )

events_unsafe :
    (collection : String)
    → str_eq "events" collection ≡ true
    → is_in collection delete_safe_collections ≡ false
events_unsafe collection h = rw (sym ((eq_iff "events" collection).0 h)) refl

pub events_kept :
    (collection : String)
    → (is_in "event" (types_of collection resource_types_by_collection)
        && is_in collection delete_safe_collections)
      ≡ false
unfolding types_of
events_kept collection = ground (arith, events_unsafe collection)
