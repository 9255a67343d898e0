-- ===== src/Prelude/Json.antt =====
-- JSON values as Python's `json` reads them: a dict keeps its keys in order, each key once.
use Prim.Native.Nat.{ℕ, zero}
use Prim.Native.String.{String}
use mathlib.Core.Bool.{Bool, true, false, not, ◌||◌}
use mathlib.Core.Option.{Option, none, some}
use mathlib.Core.List.{List, [], ◌∷◌}
use text.Mathlib.Text.{◌==◌ as str_eq}
use k8s_clue.Prelude.Tests.{if◌then◌else◌}

-- `negsuc n` is -(n + 1).
pub data ℤ : Type 0 where
  pos : ℕ → ℤ
  negsuc : ℕ → ℤ

-- A float is kept as the text that Python prints for it.
mutual
  pub data Fields : Type 0 where
    no_fields : Fields
    field : String → Value → Fields → Fields

  pub data Array : Type 0 where
    no_items : Array
    item : Value → Array → Array

  pub data Value : Type 0 where
    null : Value
    bool : Bool → Value
    int : ℤ → Value
    float : String → Value
    str : String → Value
    array : Array → Value
    dict : Fields → Value

abbrev pub items : Array → List Value
items no_items = []
items (item v vs) = v ∷ items vs

-- d.get(key)
abbrev pub get : String → Fields → Option Value
get key no_fields = none
get key (field k v fs) = if str_eq k key then some v else get key fs

-- bool(value)
abbrev pub truthy : Value → Bool
truthy null = false
truthy (bool b) = b
truthy (int (pos zero)) = false
truthy (int _) = true
truthy (float text) = not (str_eq text "0.0" || str_eq text "-0.0")
truthy (str text) = not (str_eq text "")
truthy (array no_items) = false
truthy (array _) = true
truthy (dict no_fields) = false
truthy (dict _) = true
