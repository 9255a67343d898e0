-- ===== src/Patches/Canonical.antt =====
-- `canonical_manifest_digest` of domains/gitops/source_patch.py: the JSON text of a manifest with its keys
-- in order and no spaces, and the digest of it.
use Prim.Native.String
use text.Mathlib.Text.{is_lt}
use k8s_clue.Prelude.{String, List, [], ◌∷◌, str_eq, if◌then◌else◌}
use k8s_clue.Prelude.Json.{
  Value, null, bool, int, float, str, array, dict, Array, no_items, item, Fields, no_fields, field,
}
use k8s_clue.Patches.Encoding.{json_text, int_text, bool_text}

-- json.dumps of a float, with its names for what is no number
abbrev float_text : String → String
float_text text =
    if str_eq text "nan"
    then "NaN"
    else if str_eq text "inf"
    then "Infinity"
    else if str_eq text "-inf"
    then "-Infinity"
    else text

abbrev joined : List String → String
joined [] = ""
joined (x ∷ []) = x
joined (x ∷ y ∷ rest) = String.◌++◌ x (String.◌++◌ "," (joined (y ∷ rest)))

abbrev insert_key : String × String → List (String × String) → List (String × String)
insert_key entry [] = entry ∷ []
insert_key entry (other ∷ others) =
    let rest = insert_key entry others in
    if is_lt (String.compare other.0 entry.0) then other ∷ rest else entry ∷ other ∷ others

abbrev sorted_keys : List (String × String) → List (String × String)
sorted_keys [] = []
sorted_keys (entry ∷ entries) = insert_key entry (sorted_keys entries)

abbrev entries_text : List (String × String) → List String
entries_text [] = []
entries_text ((key, text) ∷ rest) =
    String.◌++◌ (json_text key) (String.◌++◌ ":" text) ∷ entries_text rest

abbrev bracketed : String → List String → String → String
bracketed left texts right = String.◌++◌ left (String.◌++◌ (joined texts) right)

unfoldable mutual
  pub canonical_text : Value → String
  canonical_text null = "null"
  canonical_text (bool b) = bool_text b
  canonical_text (int n) = int_text n
  canonical_text (float text) = float_text text
  canonical_text (str text) = json_text text
  canonical_text (array values) = bracketed "[" (item_texts values) "]"
  canonical_text (dict fields) = bracketed "{" (entries_text (sorted_keys (field_texts fields))) "}"

  pub item_texts : Array → List String
  item_texts no_items = []
  item_texts (item v rest) = canonical_text v ∷ item_texts rest

  pub field_texts : Fields → List (String × String)
  field_texts no_fields = []
  field_texts (field key v rest) = (key, canonical_text v) ∷ field_texts rest

-- `sha256` is the hexadecimal digest of `hashlib` for a text in UTF-8.
unfoldable pub canonical_manifest_digest : (String → String) → Fields → String
canonical_manifest_digest sha256 manifest =
    String.◌++◌ "sha256:" (sha256 (canonical_text (dict manifest)))
