-- ===== src/Patches/Writing.antt =====
-- Reading a manifest after `set_object_value` of domains/gitops/source_patch.py: the field that was
-- set, and the fields beside it.
use k8s_clue.Prelude.{
  String, ◌≡◌, refl, Bool, true, false, not, Option, none, some, List, [], ◌∷◌, str_eq, arith,
  eq_iff, Bool-cases, inl, inr, sym, ap, ◌∙◌, subst,
}
use k8s_clue.Prelude.Json.{Value, null, bool, int, float, str, array, dict, Fields, get}
use k8s_clue.Patches.{returned, ◌then◌, FieldPathSegment}
use k8s_clue.Patches.Objects.{
  is_str, is_named, select, step_into, object_value_at, put, set_selected, set_from,
}
use k8s_clue.Patches.Fields.{
  get-put, get-put_other, find_named-found, set_under-IsSetUnder, set_final-IsSetFinal,
  set_selected-IsSetNamed, find_named-replace_named,
}

-- A path that sets the name of an item selected by its name reads no item any more.
abbrev pub keeps_after : Option String → FieldPathSegment → List FieldPathSegment → Bool
keeps_after none segment [] = true
keeps_after (some name) segment [] = not (str_eq segment.key "name")
keeps_after selected segment (next ∷ segments) = keeps_after segment.selected_name next segments

abbrev pub keeps_names : List FieldPathSegment → Bool
keeps_names [] = true
keeps_names (segment ∷ segments) = keeps_after none segment segments

set_from-str :
    (segment : FieldPathSegment) (segments : List FieldPathSegment) (value : Value) (text : String)
    (new : Value)
    → set_from segment segments value (str text) ≡ returned new
    → ⊥
set_from-str segment [] value text new h = ground arith
set_from-str segment (next ∷ segments) value text new h = ground arith

set_selected-str :
    (selected : Option String) (segment : FieldPathSegment) (segments : List FieldPathSegment)
    (value : Value) (text : String) (new : Value)
    → set_selected selected (str text) (set_from segment segments value) ≡ returned new
    → ⊥
set_selected-str none segment segments value text new h =
    set_from-str segment segments value text new h
set_selected-str (some name) segment segments value text new h = ground arith

is_str-str :
    (name : String) (o : Option Value)
    → is_str name o ≡ true
    → (text : String) × (o ≡ some (str text))
is_str-str name (some (str text)) h = (text, refl)
is_str-str name (some null) h = ground arith
is_str-str name (some (bool _)) h = ground arith
is_str-str name (some (int _)) h = ground arith
is_str-str name (some (float _)) h = ground arith
is_str-str name (some (array _)) h = ground arith
is_str-str name (some (dict _)) h = ground arith
is_str-str name none h = ground arith

some_injective : {a b : Value} → some a ≡ some b → a ≡ b
some_injective h = ground arith

is_named-put :
    (name key : String) (value : Value) (fields : Fields)
    → str_eq key "name" ≡ false
    → is_named name (dict fields) ≡ true
    → is_named name (dict (put key value fields)) ≡ true
is_named-put name key value fields other h =
    ap (is_str name) (get-put_other key "name" value fields other) ∙ h

under_key :
    (segment : FieldPathSegment) (fields : Fields) (child : Value) (text : String)
    → str_eq segment.key "name" ≡ true
    → get segment.key fields ≡ some child
    → get "name" fields ≡ some (str text)
    → child ≡ str text
under_key segment fields child text same has_child is_text =
    let key = (eq_iff segment.key "name").0 same in
    some_injective (sym has_child ∙ ap (λ k. get k fields) key ∙ is_text)

-- The item that is set is still the item of its name.
pub is_named-set_from :
    (name : String) (segment : FieldPathSegment) (segments : List FieldPathSegment)
    (value root root' : Value)
    → is_named name root ≡ true
    → keeps_after (some name) segment segments ≡ true
    → set_from segment segments value root ≡ returned root'
    → is_named name root' ≡ true
is_named-set_from name segment [] value root root' named kept h =
    let final = set_final-IsSetFinal segment value root root' h in
    subst (λ v. is_named name v ≡ true) (sym final.result)
      (is_named-put name segment.key value final.fields (ground arith)
        (subst (λ v. is_named name v ≡ true) final.is_dict named))
is_named-set_from name segment (next ∷ segments) value root root' named kept h =
    let under = set_under-IsSetUnder segment root (set_from next segments value) root' h in
    let named' = subst (λ v. is_named name v ≡ true) under.is_dict named in
    elim (Bool-cases (str_eq segment.key "name")) [
      | inr other ↦
          subst (λ v. is_named name v ≡ true) (sym under.result)
            (is_named-put name segment.key under.new under.fields other named')
      | inl same ↦
          let (text, is_text) = is_str-str name (get "name" under.fields) named' in
          let child =
            under_key segment under.fields under.child text same under.has_child is_text in
          elim (set_selected-str segment.selected_name next segments value text under.new (
            subst
              (λ v.
                set_selected segment.selected_name v (set_from next segments value)
                ≡ returned under.new)
              child under.sets)) [ ]
    ]

pub object_value_at-put :
    (segment : FieldPathSegment) (segments : List FieldPathSegment) (new : Value) (fields : Fields)
    → object_value_at (dict (put segment.key new fields)) (segment ∷ segments)
      ≡ (select segment.selected_name new then λ child. object_value_at child segments)
unfolding object_value_at
object_value_at-put segment segments new fields =
    rw (get-put segment.key new fields, step_into) refl

module _ (next : FieldPathSegment) (segments : List FieldPathSegment) (value : Value)
    (reads : (selected : Option String) (root root' : Value)
      → keeps_after selected next segments ≡ true
      → set_from next segments value root ≡ returned root'
      → object_value_at root' (next ∷ segments) ≡ returned value) where
  read_selected :
      (selected : Option String) (child child' : Value)
      → keeps_after selected next segments ≡ true
      → set_selected selected child (set_from next segments value) ≡ returned child'
      → (select selected child' then λ v. object_value_at v (next ∷ segments)) ≡ returned value
  read_selected none child child' kept h = reads none child child' kept h
  read_selected (some name) child child' kept h =
      let set = set_selected-IsSetNamed name child (set_from next segments value) child' h in
      let named = (find_named-found name set.values set.found set.finds).1 in
      let named' =
        is_named-set_from name next segments value set.found set.new named kept set.sets in
      rw (set.result, find_named-replace_named name set.values set.found set.new set.finds named')
        (reads (some name) set.found set.new kept set.sets)

pub object_value_at-set_from :
    (segment : FieldPathSegment) (segments : List FieldPathSegment) (value : Value)
    (selected : Option String) (root root' : Value)
    → keeps_after selected segment segments ≡ true
    → set_from segment segments value root ≡ returned root'
    → object_value_at root' (segment ∷ segments) ≡ returned value
unfolding object_value_at
object_value_at-set_from segment [] value selected root root' kept h =
    let final = set_final-IsSetFinal segment value root root' h in
    rw (final.result, object_value_at-put segment [] value final.fields, final.unselected) refl
object_value_at-set_from segment (next ∷ segments) value selected root root' kept h =
    let under = set_under-IsSetUnder segment root (set_from next segments value) root' h in
    rw (under.result, object_value_at-put segment (next ∷ segments) under.new under.fields)
      (read_selected next segments value (object_value_at-set_from next segments value)
        segment.selected_name under.child under.new kept under.sets)
