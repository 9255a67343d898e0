-- ===== src/Causes/Unique.antt =====
-- `unique_ordered` of services/ai/agent/causes/engine.py, and `set` with `sorted` as it is used
-- there: duplicates go, the first ones stay.
use k8s_clue.Prelude.{
  String, ◌≡◌, refl, true, false, not, ◌&&◌, List, [], ◌∷◌, arith, eq_iff, eq_refl,
}
use k8s_clue.Causes.{is_in}

unfoldable pub unique_from : List String → List String → List String
unique_from seen [] = []
unique_from seen (value ∷ values) = elim (is_in value seen) [
  | true ↦ unique_from seen values
  | false ↦ value ∷ unique_from (value ∷ seen) values
]

unfoldable pub unique_ordered : List String → List String
unique_ordered values = unique_from [] values

abbrev pub IsNoDup : List String → Type 0
IsNoDup [] = Unit
IsNoDup (v ∷ vs) = (is_in v vs ≡ false) × IsNoDup vs

unique_from-in :
    (v : String) (seen values : List String)
    → is_in v (unique_from seen values) ≡ (is_in v values && not (is_in v seen))
unfolding unique_from
unique_from-in v seen [] = refl
unique_from-in v seen (value ∷ values) = ground (
  arith,
  unique_from-in v seen values,
  unique_from-in v (value ∷ seen) values,
  eq_iff value v,
  eq_refl v,
)

unique_from-IsNoDup : (seen values : List String) → IsNoDup (unique_from seen values)
unfolding unique_from
unique_from-IsNoDup seen [] = tt
unique_from-IsNoDup seen (value ∷ values) = ground (
  arith,
  unique_from-IsNoDup seen values,
  unique_from-IsNoDup (value ∷ seen) values,
  unique_from-in value (value ∷ seen) values,
  eq_refl value,
)

pub unique_ordered-in :
    (v : String) (values : List String) → is_in v (unique_ordered values) ≡ is_in v values
unfolding unique_ordered
unique_ordered-in v values = ground (arith, unique_from-in v [] values)

pub unique_ordered-IsNoDup : (values : List String) → IsNoDup (unique_ordered values)
unfolding unique_ordered
unique_ordered-IsNoDup values = unique_from-IsNoDup [] values
