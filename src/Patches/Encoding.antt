-- ===== src/Patches/Encoding.antt =====
-- The texts that `encoded_scalar` and `encoded_scalar_value` of domains/gitops/source_patch.py write in
-- the place of a scalar.
use Prim.Native.Nat.{ℕ, zero, suc, ◌+◌, ◌/◌, ◌%◌, ◌<◌}
use Prim.Native.String
use Prim.Native.Char.{Char, code}
use k8s_clue.Prelude.{
  String, Bool, true, false, not, ◌&&◌, ◌||◌, Option, none, some, [], ◌∷◌, str_eq, ltb, ◌==◌,
  if◌then◌else◌, any, ◌≡◌, refl, arith, Bool-cases, inl, inr,
}
use k8s_clue.Prelude.Json.{ℤ, pos, negsuc, Value, null, bool, int, float, str}
use k8s_clue.Patches.{Outcome, raised, returned, ◌then◌, patch_error, python_error}
use k8s_clue.Patches.Text.{is_alphanumeric, all_chars, any_char, text_take, text_drop}
use k8s_clue.Patches.Nodes.{ScalarNode}

-- The character at a position, as a text.
abbrev char_of : ℕ → String → String
char_of i text = text_take 1 (text_drop i text)

-- A character of a JSON string, as `json.dumps` writes it with ensure_ascii=False.
abbrev json_char : Char → String
json_char c =
    if code c == b'"'
    then "\\\""
    else if code c == b'\\'
    then "\\\\"
    else if code c == 10
    then "\\n"
    else if code c == 13
    then "\\r"
    else if code c == 9
    then "\\t"
    else if code c == 8
    then "\\b"
    else if code c == 12
    then "\\f"
    else if ltb (code c) 32
    then String.◌++◌ "\\u00" (
        String.◌++◌ (char_of (code c / 16) "0123456789abcdef")
          (char_of (code c % 16) "0123456789abcdef"))
    else String.◌∷◌ c String.[]

abbrev json_chars : String → String
json_chars String.[] = String.[]
json_chars (String.◌∷◌ c text) = String.◌++◌ (json_char c) (json_chars text)

unfoldable pub json_text : String → String
json_text text = String.◌++◌ "\"" (String.◌++◌ (json_chars text) "\"")

-- The decimal digits of n, where n is below the fuel.
abbrev decimal_from : ℕ → ℕ → String
decimal_from zero n = ""
decimal_from (suc fuel) n = elim (ltb n 10) [
  | true ↦ char_of n "0123456789"
  | false ↦ String.◌++◌ (decimal_from fuel (n / 10)) (char_of (n % 10) "0123456789")
]

-- More fuel than that changes nothing.
decimal_from-enough : (fuel n : ℕ) → n < fuel → decimal_from (suc fuel) n ≡ decimal_from fuel n
decimal_from-enough zero n h = ground arith
decimal_from-enough (suc fuel) n h = elim (Bool-cases (ltb n 10)) [
  | inl one ↦ rw (one, decimal_from) refl
  | inr more ↦ rw (more, decimal_from, decimal_from-enough fuel (n / 10) (ground arith)) refl
]

abbrev pub int_text : ℤ → String
int_text (pos n) = decimal_from (n + 1) n
int_text (negsuc n) = String.◌++◌ "-" (decimal_from (n + 2) (n + 1))

abbrev pub bool_text : Bool → String
bool_text true = "true"
bool_text false = "false"

-- json.dumps(value, allow_nan=False) of a scalar that is no text
abbrev dumped : Value → Outcome String
dumped null = returned "null"
dumped (bool b) = returned (bool_text b)
dumped (int n) = returned (int_text n)
dumped (float text) =
    if str_eq text "nan" || str_eq text "inf" || str_eq text "-inf"
    then raised (python_error "ValueError")
    else returned text
dumped _ = raised (python_error "TypeError")

-- value.replace("'", "''")
abbrev double_quotes : String → String
double_quotes String.[] = String.[]
double_quotes (String.◌∷◌ c text) =
    let rest = double_quotes text in
    if code c == b'\'' then String.◌++◌ "''" rest else String.◌∷◌ c rest

abbrev single_quoted : String → String
single_quoted value = String.◌++◌ "'" (String.◌++◌ (double_quotes value) "'")

abbrev is_style : ℕ → Option Char → Bool
is_style c (some style) = code style == c
is_style c none = false

abbrev is_plain : Option Char → Bool
is_plain none = true
is_plain (some _) = false

-- [A-Za-z0-9][A-Za-z0-9._/@:+-]*
abbrev is_plain_image : String → Bool
is_plain_image String.[] = false
is_plain_image (String.◌∷◌ c text) =
    is_alphanumeric c
    && all_chars
        (λ d.
          is_alphanumeric d
          || any (λ other. code d == other) (b'.' ∷ b'_' ∷ b'/' ∷ b'@' ∷ b':' ∷ b'+' ∷ b'-' ∷ []))
        text

unfoldable pub encoded_scalar : ScalarNode → String → Outcome String
encoded_scalar target value =
    if is_plain target.style && is_plain_image value
    then returned value
    else if is_style b'\'' target.style
    then returned (single_quoted value)
    else if is_style b'"' target.style
    then returned (json_text value)
    else raised (patch_error "manifest image scalar style is not patchable")

abbrev is_text_value : String → Option Value → Bool
is_text_value text (some (str found)) = str_eq found text
is_text_value text _ = false

-- `safe_load` is PyYAML's, none where it raises YAMLError.
module _ (safe_load : String → Option Value) where
  abbrev encoded_text : ScalarNode → String → String
  encoded_text target value =
      if is_style b'\'' target.style
      then single_quoted value
      else if is_style b'"' target.style
      then json_text value
      else if is_plain target.style
          && not (any_char (λ c. code c == 10) value)
          && is_text_value value (safe_load value)
      then value
      else json_text value

  unfoldable pub encoded_scalar_value : ScalarNode → Value → Outcome String
  encoded_scalar_value target (str value) = returned (encoded_text target value)
  encoded_scalar_value target value =
      if is_plain target.style
      then dumped value
      else raised (patch_error "manifest scalar style is not patchable")
