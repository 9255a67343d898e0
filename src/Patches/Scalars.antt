-- ===== src/Patches/Scalars.antt =====
-- Scalars of a manifest and which change of one an action allows: `scalar_value`, `same_scalar`,
-- `action_allows_replacement` and the memory quantities of domains/gitops/source_patch.py.
use Prim.Native.Nat.{ℕ, ◌+◌, ◌*◌, ◌^◌}
use Prim.Native.Char.{Char}
use text.Mathlib.Text.{starts_with}
use k8s_clue.Prelude.{
  String, Bool, true, false, not, ◌&&◌, ◌||◌, Option, none, some, [], ◌∷◌, is_in, str_eq, ltb, leb,
  ◌==◌, if◌then◌else◌,
}
use k8s_clue.Prelude.Json.{ℤ, pos, negsuc, Value, null, bool, int, float, str, array, dict}
use k8s_clue.Patches.{ScalarFieldReplacement}
use k8s_clue.Patches.Text.{is_blank, ends_with}

unfoldable pub scalar_value : Value → Bool
scalar_value (array _) = false
scalar_value (dict _) = false
scalar_value _ = true

abbrev pub same_int : ℤ → ℤ → Bool
same_int (pos a) (pos b) = a == b
same_int (negsuc a) (negsuc b) = a == b
same_int _ _ = false

abbrev pub same_bool : Bool → Bool → Bool
same_bool true b = b
same_bool false b = not b

abbrev is_zero_float : String → Bool
is_zero_float text = str_eq text "0.0" || str_eq text "-0.0"

-- A float that is no number equals nothing, and the two zeros are equal.
abbrev pub same_float : String → String → Bool
same_float a b = not (str_eq a "nan") && (str_eq a b || (is_zero_float a && is_zero_float b))

-- Two values that are not scalars are never compared by the callers that go on; they are different.
unfoldable pub same_scalar : Value → Value → Bool
same_scalar null null = true
same_scalar (bool a) (bool b) = same_bool a b
same_scalar (int a) (int b) = same_int a b
same_scalar (float a) (float b) = same_float a b
same_scalar (str a) (str b) = str_eq a b
same_scalar _ _ = false

-- isinstance(value, str) and bool(value.strip())
abbrev is_text : Value → Bool
is_text (str text) = not (is_blank text)
is_text _ = false

-- low <= current < desired <= high, both of them int and no bool
abbrev int_increases : ℕ → ℕ → Value → Value → Bool
int_increases low high (int (pos current)) (int (pos desired)) =
    leb low current && ltb current desired && leb desired high
int_increases low high _ _ = false

abbrev int_between : ℕ → ℕ → Value → Bool
int_between low high (int (pos n)) = leb low n && leb n high
int_between low high _ = false

abbrev starts_with_slash : Value → Bool
starts_with_slash (str text) = starts_with text "/"
starts_with_slash _ = false

-- `decimal` is the value of a character that `\d` matches and `int` reads.
module _ (decimal : Char → Option ℕ) where
  -- \d*(Ki|Mi|Gi), read from the left with the number that the digits stand for
  abbrev quantity_from : ℕ → String → Option ℕ
  quantity_from n String.[] = none
  quantity_from n (String.◌∷◌ c text) = elim (decimal c) [
    | some d ↦ quantity_from (n * 10 + d) text
    | none ↦
        if str_eq (String.◌∷◌ c text) "Ki"
        then some (n * 1024)
        else if str_eq (String.◌∷◌ c text) "Mi"
        then some (n * 1024 ^ 2)
        else if str_eq (String.◌∷◌ c text) "Gi"
        then some (n * 1024 ^ 3)
        else none
  ]

  abbrev first_is_digit : String → Bool
  first_is_digit String.[] = false
  first_is_digit (String.◌∷◌ c text) = elim (decimal c) [ none ↦ false | some d ↦ true ]

  unfoldable pub memory_quantity_bytes : Value → Option ℕ
  memory_quantity_bytes (str text) = if first_is_digit text then quantity_from 0 text else none
  memory_quantity_bytes _ = none

  unfoldable pub memory_increases_within_cap : Value → Value → Bool
  memory_increases_within_cap current desired = elim (memory_quantity_bytes current) [
    | none ↦ false
    | some current_bytes ↦ elim (memory_quantity_bytes desired) [
      | none ↦ false
      | some desired_bytes ↦ ltb current_bytes desired_bytes && leb desired_bytes (4 * 1024 ^ 3)
    ]
  ]

  abbrev probe_allows : String → Value → Value → Bool
  probe_allows path current desired =
      if ends_with path ".timeoutSeconds"
      then int_increases 1 30 current desired
      else if ends_with path ".httpGet.port"
      then int_between 1 65535 desired
      else if ends_with path ".httpGet.path"
      then starts_with_slash desired
      else false

  unfoldable pub action_allows_replacement : String → ScalarFieldReplacement → Bool
  action_allows_replacement action_type item =
      let path = item.field_path in
      if is_in action_type ("image_rollback" ∷ "image_tag_fix" ∷ [])
      then ends_with path ".image" && is_text item.current_value && is_text item.desired_value
      else if str_eq action_type "replica_scale"
      then str_eq path "spec.replicas" && int_increases 1 10 item.current_value item.desired_value
      else if str_eq action_type "oom_memory"
      then (ends_with path ".resources.requests.memory"
          || ends_with path ".resources.limits.memory")
        && memory_increases_within_cap item.current_value item.desired_value
      else if str_eq action_type "probe_fix"
      then probe_allows path item.current_value item.desired_value
      else if str_eq action_type "selector_fix"
      then (starts_with path "spec.selector.matchLabels."
          || starts_with path "spec.template.metadata.labels.")
        && is_text item.current_value
        && is_text item.desired_value
      else false
