-- ===== src/Patches/Frame.antt =====
-- What `set_object_value` of domains/gitops/source_patch.py leaves as it was, and what it sets.
use k8s_clue.Prelude.{
  String, ◌≡◌, refl, Bool, true, false, Option, none, some, List, [], ◌∷◌, str_eq, arith, eq_iff,
  Bool-cases, inl, inr, sym, ap, ◌∙◌, subst, if◌then◌else◌,
}
use k8s_clue.Prelude.Json.{Value, dict, Fields, get}
use k8s_clue.Patches.{returned, ◌then◌, FieldPathSegment}
use k8s_clue.Patches.Objects.{
  select, step_into, object_value_at, put, set_selected, set_from, set_object_value,
}
use k8s_clue.Patches.Fields.{
  get-put, get-put_other, keep-replace_named_other, find_named-found, set_under-IsSetUnder,
  set_final-IsSetFinal, set_selected-IsSetNamed, find_named-replace_named,
}
use k8s_clue.Patches.Writing.{keeps_after, keeps_names, is_named-set_from, object_value_at-set_from}

abbrev diverges_at : Option String → Option String → Bool → Bool
diverges_at none none rest = rest
diverges_at (some name) (some other) rest = if str_eq name other then rest else true
diverges_at _ _ rest = false

-- Two paths part ways at some key, or at the name of an item of the same list.
abbrev pub diverges : List FieldPathSegment → List FieldPathSegment → Bool
diverges [] others = false
diverges (segment ∷ segments) [] = false
diverges (segment ∷ segments) (other ∷ others) =
    let rest = diverges segments others in
    if str_eq segment.key other.key
    then diverges_at segment.selected_name other.selected_name rest
    else true

object_value_at-put_other :
    (key : String) (other : FieldPathSegment) (others : List FieldPathSegment) (new : Value)
    (fields : Fields)
    → str_eq key other.key ≡ false
    → object_value_at (dict (put key new fields)) (other ∷ others)
      ≡ object_value_at (dict fields) (other ∷ others)
unfolding object_value_at
object_value_at-put_other key other others new fields h =
    rw (get-put_other key other.key new fields h, step_into) refl

object_value_at-child :
    (segment : FieldPathSegment) (segments : List FieldPathSegment) (child : Value)
    (entries : Fields)
    → get segment.key entries ≡ some child
    → object_value_at (dict entries) (segment ∷ segments)
      ≡ (select segment.selected_name child then λ v. object_value_at v segments)
unfolding object_value_at
object_value_at-child segment segments child entries h = rw (h, step_into) refl

diverges_at-false :
    (a b : Option String) → diverges_at a b false ≡ true → (name : String) × (a ≡ some name)
diverges_at-false none none h = ground arith
diverges_at-false none (some other) h = ground arith
diverges_at-false (some name) b h = (name, refl)

module _ (next : FieldPathSegment) (segments others : List FieldPathSegment) (value : Value)
    (unchanged : (selected : Option String) (root root' : Value)
      → keeps_after selected next segments ≡ true
      → diverges (next ∷ segments) others ≡ true
      → set_from next segments value root ≡ returned root'
      → object_value_at root' others ≡ object_value_at root others) where
  select_unchanged :
      (selected other : Option String) (child child' : Value)
      → keeps_after selected next segments ≡ true
      → diverges_at selected other (diverges (next ∷ segments) others) ≡ true
      → set_selected selected child (set_from next segments value) ≡ returned child'
      → (select other child' then λ v. object_value_at v others)
        ≡ (select other child then λ v. object_value_at v others)
  select_unchanged none none child child' kept apart h = unchanged none child child' kept apart h
  select_unchanged none (some other) child child' kept apart h = ground arith
  select_unchanged (some name) none child child' kept apart h = ground arith
  select_unchanged (some name) (some other) child child' kept apart h =
      let set = set_selected-IsSetNamed name child (set_from next segments value) child' h in
      let named = (find_named-found name set.values set.found set.finds).1 in
      let named' =
        is_named-set_from name next segments value set.found set.new named kept set.sets in
      elim (Bool-cases (str_eq name other)) [
        | inl same ↦
            subst
              (λ o.
                (select (some o) child' then λ v. object_value_at v others)
                ≡ (select (some o) child then λ v. object_value_at v others))
              ((eq_iff name other).0 same)
              (rw
                (
                  set.result,
                  find_named-replace_named name set.values set.found set.new set.finds named',
                  set.is_array,
                  set.finds,
                )
                (unchanged (some name) set.found set.new kept (rw same at apart) set.sets))
        | inr apart' ↦
            rw
              (
                set.result,
                set.is_array,
                keep-replace_named_other name other set.new set.values named' apart',
              )
              refl
      ]

object_value_at-unchanged :
    (segment : FieldPathSegment) (segments others : List FieldPathSegment) (value : Value)
    (selected : Option String) (root root' : Value)
    → keeps_after selected segment segments ≡ true
    → diverges (segment ∷ segments) others ≡ true
    → set_from segment segments value root ≡ returned root'
    → object_value_at root' others ≡ object_value_at root others
object_value_at-unchanged segment segments [] value selected root root' kept apart h = ground arith
object_value_at-unchanged segment [] (other ∷ others) value selected root root' kept apart h =
    let final = set_final-IsSetFinal segment value root root' h in
    elim (Bool-cases (str_eq segment.key other.key)) [
      | inr apart' ↦
          rw (final.result, final.is_dict)
            (object_value_at-put_other segment.key other others value final.fields apart')
      | inl same ↦
          let (name, selected') =
            diverges_at-false segment.selected_name other.selected_name (rw same at apart) in
          ground (arith, final.unselected, selected')
    ]
object_value_at-unchanged segment (next ∷ segments) (other ∷ others) value selected root root' kept
      apart h =
    let under = set_under-IsSetUnder segment root (set_from next segments value) root' h in
    elim (Bool-cases (str_eq segment.key other.key)) [
      | inr apart' ↦
          rw (under.result, under.is_dict)
            (object_value_at-put_other segment.key other others under.new under.fields apart')
      | inl same ↦
          let key = (eq_iff segment.key other.key).0 same in
          rw
            (
              under.result,
              under.is_dict,
              object_value_at-child other others under.new (put segment.key under.new under.fields)
                  (ap (λ k. get k (put segment.key under.new under.fields)) (sym key)
                    ∙ get-put segment.key under.new under.fields),
              object_value_at-child other others under.child under.fields
                  (ap (λ k. get k under.fields) (sym key) ∙ under.has_child),
            )
            (select_unchanged next segments others value
              (λ selected root root' kept apart h.
                object_value_at-unchanged next segments others value selected root root' kept apart
                  h)
              segment.selected_name other.selected_name under.child under.new kept
              (rw same at apart) under.sets)
    ]

-- Where `set_object_value` returns, and the path does not set the name by which it selects an item, the
-- path reads the value that was set, and a path that diverges from it reads what it read before.
pub object_value_at-set_object_value :
    (root root' : Value) (segments others : List FieldPathSegment) (value : Value)
    → keeps_names segments ≡ true
    → diverges segments others ≡ true
    → set_object_value root segments value ≡ returned root'
    → (object_value_at root' segments ≡ returned value)
      × (object_value_at root' others ≡ object_value_at root others)
unfolding set_object_value
object_value_at-set_object_value root root' [] others value kept apart h = ground arith
object_value_at-set_object_value root root' (segment ∷ segments) others value kept apart h = (
  object_value_at-set_from segment segments value none root root' kept h,
  object_value_at-unchanged segment segments others value none root root' kept apart h,
)
