-- ===== src/Patches/Fields.antt =====
-- Reading a field of a manifest after `set_object_value` of domains/gitops/source_patch.py.
use k8s_clue.Prelude.{
  String, ◌≡◌, refl, Bool, true, false, Option, none, some, List, [], ◌∷◌, map, keep, str_eq, arith,
  eq_iff, eq_refl, Bool-cases, Option-cases, inl, inr, sym, ap, ◌∙◌, subst,
}
use k8s_clue.Prelude.Json.{
  Value, null, bool, int, float, str, array, dict, Array, no_items, item, Fields, no_fields, field,
  items, get,
}
use k8s_clue.Patches.{Outcome, raised, returned, ◌then◌, FieldPathSegment}
use k8s_clue.Patches.Objects.{
  is_str, only, is_named, find_named, put, replace_named, set_selected, set_final, set_under,
}

pub get-put :
    (key : String) (value : Value) (fields : Fields) → get key (put key value fields) ≡ some value
unfolding put
get-put key value no_fields = ground (arith, eq_refl key)
get-put key value (field k v rest) = ground (arith, get-put key value rest)

pub get-put_other :
    (key other : String) (value : Value) (fields : Fields)
    → str_eq key other ≡ false
    → get other (put key value fields) ≡ get other fields
unfolding put
get-put_other key other value no_fields h = ground arith
get-put_other key other value (field k v rest) h =
    ground (arith, get-put_other key other value rest h, eq_iff k key)

is_str_other :
    (name other : String) (found : Option Value)
    → is_str name found ≡ true
    → str_eq name other ≡ false
    → is_str other found ≡ false
is_str_other name other (some (str text)) h k =
    ground (arith, eq_iff text name, eq_iff name other, eq_iff text other)
is_str_other name other (some null) h k = refl
is_str_other name other (some (bool _)) h k = refl
is_str_other name other (some (int _)) h k = refl
is_str_other name other (some (float _)) h k = refl
is_str_other name other (some (array _)) h k = refl
is_str_other name other (some (dict _)) h k = refl
is_str_other name other none h k = refl

is_named_other :
    (name other : String) (v : Value)
    → is_named name v ≡ true
    → str_eq name other ≡ false
    → is_named other v ≡ false
is_named_other name other (dict fields) h k = is_str_other name other (get "name" fields) h k
is_named_other name other null h k = refl
is_named_other name other (bool _) h k = refl
is_named_other name other (int _) h k = refl
is_named_other name other (float _) h k = refl
is_named_other name other (str _) h k = refl
is_named_other name other (array _) h k = refl

-- The items of a name, after the replacement.
pub keep-replace_named :
    (name : String) (new : Value) (values : Array)
    → is_named name new ≡ true
    → keep (is_named name) (items (replace_named name new values))
      ≡ map (λ _. new) (keep (is_named name) (items values))
unfolding replace_named
keep-replace_named name new no_items h = refl
keep-replace_named name new (item v rest) h = elim (Bool-cases (is_named name v)) [
  | inl e ↦ rw (e, h, keep-replace_named name new rest h) refl
  | inr e ↦ rw (e, e, keep-replace_named name new rest h) refl
]

pub keep-replace_named_other :
    (name other : String) (new : Value) (values : Array)
    → is_named name new ≡ true
    → str_eq name other ≡ false
    → keep (is_named other) (items (replace_named name new values))
      ≡ keep (is_named other) (items values)
unfolding replace_named
keep-replace_named_other name other new no_items h k = refl
keep-replace_named_other name other new (item v rest) h k = elim (Bool-cases (is_named name v)) [
  | inl e ↦
      rw
        (
          e,
          is_named_other name other new h k,
          is_named_other name other v e k,
          keep-replace_named_other name other new rest h k,
        )
        refl
  | inr e ↦ rw (e, keep-replace_named_other name other new rest h k) refl
]

pub returned_injective {ℓ} : {A : Type ℓ} {a b : A} → returned a ≡ returned b → a ≡ b
returned_injective h = ground arith

pub then-returned {ℓ κ} :
    {A : Type ℓ} {B : Type κ} (first : Outcome A) (next : A → Outcome B) (b : B)
    → (first then next) ≡ returned b
    → (a : A) × (first ≡ returned a) × (next a ≡ returned b)
then-returned (raised failure) next b h = ground arith
then-returned (returned a) next b h = (a, refl, h)

only-keep :
    (test : Value → Bool) (values : List Value) (found : Value)
    → keep test values ≡ found ∷ []
    → test found ≡ true
only-keep test [] found h = ground arith
only-keep test (v ∷ vs) found h = elim (Bool-cases (test v)) [
  | inl e ↦ let h' = rw e at h in subst (λ x. test x ≡ true) (ground arith) e
  | inr e ↦ only-keep test vs found (ground arith)
]

only-found :
    (values : List Value) (found : Value) → only values ≡ returned found → values ≡ found ∷ []
only-found [] found h = ground arith
only-found (v ∷ []) found h = ap (λ x. x ∷ []) (returned_injective h)
only-found (v ∷ w ∷ vs) found h = ground arith

pub find_named-found :
    (name : String) (values : Array) (found : Value)
    → find_named name values ≡ returned found
    → (keep (is_named name) (items values) ≡ found ∷ []) × (is_named name found ≡ true)
find_named-found name values found h =
    let one = only-found (keep (is_named name) (items values)) found h in
    (one, only-keep (is_named name) (items values) found one)

-- Where `set_under` returns, and what.
pub record IsSetUnder (segment : FieldPathSegment) (root : Value) (set : Value → Outcome Value)
    (root' : Value) : Type 0 where
  pub fields : Fields
  pub child : Value
  pub new : Value
  pub is_dict : root ≡ dict fields
  pub has_child : get segment.key fields ≡ some child
  pub sets : set_selected segment.selected_name child set ≡ returned new
  pub result : root' ≡ dict (put segment.key new fields)

pub set_under-IsSetUnder :
    (segment : FieldPathSegment) (root : Value) (set : Value → Outcome Value) (root' : Value)
    → set_under segment root set ≡ returned root'
    → IsSetUnder segment root set root'
set_under-IsSetUnder segment (dict fields) set root' h =
    elim (Option-cases (get segment.key fields)) [
      | inl absent ↦ let h' = rw (absent, set_under) at h in ground arith
      | inr (child, found) ↦
          let (new, sets, result) =
            then-returned (set_selected segment.selected_name child set)
              (λ new. returned (dict (put segment.key new fields))) root'
              (rw (found, set_under) at h) in
          record {
            fields = fields;
            child = child;
            new = new;
            is_dict = refl;
            has_child = found;
            sets = sets;
            result = sym (returned_injective result);
          }
    ]
set_under-IsSetUnder segment null set root' h = ground arith
set_under-IsSetUnder segment (bool _) set root' h = ground arith
set_under-IsSetUnder segment (int _) set root' h = ground arith
set_under-IsSetUnder segment (float _) set root' h = ground arith
set_under-IsSetUnder segment (str _) set root' h = ground arith
set_under-IsSetUnder segment (array _) set root' h = ground arith

-- Where `set_final` returns, and what.
pub record IsSetFinal (segment : FieldPathSegment) (value root root' : Value) : Type 0 where
  pub fields : Fields
  pub is_dict : root ≡ dict fields
  pub unselected : segment.selected_name ≡ none
  pub result : root' ≡ dict (put segment.key value fields)

pub set_final-IsSetFinal :
    (segment : FieldPathSegment) (value root root' : Value)
    → set_final segment value root ≡ returned root'
    → IsSetFinal segment value root root'
set_final-IsSetFinal segment value (dict fields) root' h =
    elim (Option-cases segment.selected_name) [
      | inl unselected ↦ record {
        fields = fields;
        is_dict = refl;
        unselected = unselected;
        result = sym (returned_injective (rw (unselected, set_final) at h));
      }
      | inr (name, selected) ↦ let h' = rw (selected, set_final) at h in ground arith
    ]
set_final-IsSetFinal segment value null root' h = ground arith
set_final-IsSetFinal segment value (bool _) root' h = ground arith
set_final-IsSetFinal segment value (int _) root' h = ground arith
set_final-IsSetFinal segment value (float _) root' h = ground arith
set_final-IsSetFinal segment value (str _) root' h = ground arith
set_final-IsSetFinal segment value (array _) root' h = ground arith

-- Where `set_selected` returns for a name, and what.
pub record IsSetNamed (name : String) (child : Value) (set : Value → Outcome Value) (child' : Value)
    : Type 0 where
  pub values : Array
  pub found : Value
  pub new : Value
  pub is_array : child ≡ array values
  pub finds : find_named name values ≡ returned found
  pub sets : set found ≡ returned new
  pub result : child' ≡ array (replace_named name new values)

pub set_selected-IsSetNamed :
    (name : String) (child : Value) (set : Value → Outcome Value) (child' : Value)
    → set_selected (some name) child set ≡ returned child'
    → IsSetNamed name child set child'
set_selected-IsSetNamed name (array values) set child' h =
    let (found, finds, rest) = then-returned (find_named name values) _ child' h in
    let (new, sets, result) = then-returned (set found) _ child' rest in
    record {
      values = values;
      found = found;
      new = new;
      is_array = refl;
      finds = finds;
      sets = sets;
      result = sym (returned_injective result);
    }
set_selected-IsSetNamed name null set child' h = ground arith
set_selected-IsSetNamed name (bool _) set child' h = ground arith
set_selected-IsSetNamed name (int _) set child' h = ground arith
set_selected-IsSetNamed name (float _) set child' h = ground arith
set_selected-IsSetNamed name (str _) set child' h = ground arith
set_selected-IsSetNamed name (dict _) set child' h = ground arith

pub find_named-replace_named :
    (name : String) (values : Array) (found new : Value)
    → find_named name values ≡ returned found
    → is_named name new ≡ true
    → find_named name (replace_named name new values) ≡ returned new
find_named-replace_named name values found new finds named = ap only (
    keep-replace_named name new values named
    ∙ ap (map (λ _. new)) (find_named-found name values found finds).0)
