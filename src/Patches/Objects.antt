-- ===== src/Patches/Objects.antt =====
-- `object_value_at` and `set_object_value` of domains/gitops/source_patch.py: reading and writing a
-- field of a parsed manifest. Writing changes the object in place; here it returns the new object.
use k8s_clue.Prelude.{
  String, Bool, false, Option, none, some, List, [], ◌∷◌, keep, str_eq, if◌then◌else◌,
}
use k8s_clue.Prelude.Json.{
  Value, str, array, dict, Array, no_items, item, Fields, no_fields, field, items, get,
}
use k8s_clue.Patches.{
  Outcome, raised, returned, ◌then◌, patch_error, python_error, FieldPathSegment,
}

abbrev pub missing {ℓ} : {A : Type ℓ} → Outcome A
missing = raised (patch_error "manifest scalar target is missing")

abbrev pub not_unique {ℓ} : {A : Type ℓ} → Outcome A
not_unique = raised (patch_error "manifest scalar target is not unique")

abbrev pub is_str : String → Option Value → Bool
is_str text (some (str found)) = str_eq found text
is_str text _ = false

-- isinstance(item, Mapping) and item.get("name") == name
abbrev pub is_named : String → Value → Bool
is_named name (dict fields) = is_str name (get "name" fields)
is_named name _ = false

abbrev pub only : List Value → Outcome Value
only (found ∷ []) = returned found
only _ = not_unique

abbrev pub find_named : String → Array → Outcome Value
find_named name values = only (keep (is_named name) (items values))

abbrev pub select : Option String → Value → Outcome Value
select none child = returned child
select (some name) (array values) = find_named name values
select (some name) _ = missing

-- One turn of the loop of `object_value_at`.
abbrev pub step_into : Value → FieldPathSegment → Outcome Value
step_into (dict fields) segment = elim (get segment.key fields) [
  | none ↦ missing
  | some child ↦ select segment.selected_name child
]
step_into _ segment = missing

unfoldable pub object_value_at : Value → List FieldPathSegment → Outcome Value
object_value_at root [] = returned root
object_value_at root (segment ∷ segments) =
    step_into root segment then λ child. object_value_at child segments

-- d[key] = value: a new key comes last.
unfoldable pub put : String → Value → Fields → Fields
put key value no_fields = field key value no_fields
put key value (field k v rest) =
    let rest' = put key value rest in if str_eq k key then field k value rest else field k v rest'

-- The one item of the name, changed in place.
unfoldable pub replace_named : String → Value → Array → Array
replace_named name new no_items = no_items
replace_named name new (item v rest) =
    let rest' = replace_named name new rest in
    if is_named name v then item new rest' else item v rest'

-- The loop of `set_object_value` goes over any iterable: only an array has objects in it.
abbrev pub set_selected : Option String → Value → (Value → Outcome Value) → Outcome Value
set_selected none child set = set child
set_selected (some name) (array values) set = find_named name values then λ found.
    set found then λ new. returned (array (replace_named name new values))
set_selected (some name) (dict _) set = not_unique
set_selected (some name) (str text) set = not_unique
set_selected (some name) _ set = raised (python_error "TypeError")

abbrev pub set_final : FieldPathSegment → Value → Value → Outcome Value
set_final segment value (dict fields) = elim segment.selected_name [
  | none ↦ returned (dict (put segment.key value fields))
  | some name ↦ missing
]
set_final segment value _ = missing

abbrev pub set_under : FieldPathSegment → Value → (Value → Outcome Value) → Outcome Value
set_under segment (dict fields) set = elim (get segment.key fields) [
  | none ↦ raised (python_error "KeyError")
  | some child ↦ set_selected segment.selected_name child set then λ new.
      returned (dict (put segment.key new fields))
]
set_under segment _ set = missing

abbrev pub set_from : FieldPathSegment → List FieldPathSegment → Value → Value → Outcome Value
set_from segment [] value root = set_final segment value root
set_from segment (next ∷ segments) value root =
    set_under segment root (set_from next segments value)

unfoldable pub set_object_value : Value → List FieldPathSegment → Value → Outcome Value
set_object_value root [] value = raised (python_error "IndexError")
set_object_value root (segment ∷ segments) value = set_from segment segments value root
