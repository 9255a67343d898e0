-- ===== src/Patches/Contract.antt =====
-- `parse_remediation_source_contract` of packages/contracts/remediation_source.py.
use Prim.Native.Nat.{ℕ}
use Prim.Native.String
use Prim.Native.Char.{Char, code}
use text.Mathlib.Text.{starts_with}
use k8s_clue.Prelude.{
  String, Bool, true, false, not, ◌&&◌, ◌||◌, Option, none, some, List, [], ◌∷◌, ◌++◌, map, any,
  is_in, str_eq, ltb, ◌==◌, if◌then◌else◌,
}
use k8s_clue.Prelude.Json.{
  Value, null, str, dict, array, no_items, Fields, no_fields, field, items, get,
}
use k8s_clue.Patches.{Outcome, raised, returned, ◌then◌, contract_error}
use k8s_clue.Patches.Text.{
  is_alphanumeric, is_space, is_empty, all_chars, any_char, has_duplicate, split_from, ends_with,
  without_prefix,
}
use k8s_clue.Patches.Paths.{key_and_rest, closed_name}
use k8s_clue.Patches.Documents.{has_exactly}
use k8s_clue.Patches.Declared.{RemediationSourceDeclaration}

abbrev pub invalid {ℓ} : {A : Type ℓ} → String → Outcome A
invalid message = raised (contract_error (String.◌++◌ "remediation source " message))

-- if refused: raise RemediationSourceContractError(message)
abbrev pub unless_invalid {ℓ} : {A : Type ℓ} → Bool → String → Outcome A → Outcome A
unless_invalid true message next = invalid message
unless_invalid false message next = next

abbrev is_one_of : List ℕ → Char → Bool
is_one_of codes c = any (λ other. code c == other) codes

abbrev last_is : (Char → Bool) → String → Bool
last_is test String.[] = false
last_is test (String.◌∷◌ c text) = if is_empty text then test c else last_is test text

abbrev first_is : (Char → Bool) → String → Bool
first_is test String.[] = false
first_is test (String.◌∷◌ c text) = test c

abbrev contains_slashes : String → Bool
contains_slashes String.[] = false
contains_slashes (String.◌∷◌ c text) = starts_with (String.◌∷◌ c text) "//" || contains_slashes text

abbrev is_repo_char : Char → Bool
is_repo_char c = is_alphanumeric c || is_one_of (b'.' ∷ b'_' ∷ b'/' ∷ b'-' ∷ []) c

-- The parts of a POSIX path are never empty or `.`, so the last of the code's checks refuses nothing more.
unfoldable pub is_repo_path : String → Bool
is_repo_path value =
    not (is_empty value)
    && not (first_is is_space value || last_is is_space value)
    && not (starts_with value "/")
    && not (ends_with value "/")
    && not (starts_with value "./")
    && not (contains_slashes value)
    && not (any_char (is_one_of (b'\\' ∷ 0 ∷ [])) value)
    && all_chars is_repo_char value
    && not (is_in ".." (split_from "/" "" value))

abbrev pub safe_repo_path : String → Option Value → Outcome String
safe_repo_path name (some (str value)) =
    if is_repo_path value then returned value else invalid (String.◌++◌ name " is unsafe")
safe_repo_path name _ = invalid (String.◌++◌ name " must be text")

abbrev is_selector : String → Bool
is_selector String.[] = true
is_selector rest = elim (without_prefix "[name=" rest) [
  | none ↦ false
  | some body ↦ elim (closed_name body) [
    | none ↦ false
    | some name ↦ not (is_empty name) && not (any_char (λ c. code c == b'[') name)
  ]
]

abbrev is_field_segment : String → Bool
is_field_segment raw = let (key, rest) = key_and_rest raw in not (is_empty key) && is_selector rest

abbrev all_segments : List String → Bool
all_segments [] = true
all_segments (raw ∷ rest) = is_field_segment raw && all_segments rest

unfoldable pub valid_field_path : String → Bool
valid_field_path value = not (is_empty value) && all_segments (split_from "." "" value)

unfoldable pub optional_field_path : String → Option Value → Outcome (Option String)
optional_field_path name none = returned none
optional_field_path name (some null) = returned none
optional_field_path name (some (str value)) =
    if valid_field_path value
    then returned (some value)
    else invalid (String.◌++◌ name " is invalid")
optional_field_path name (some _) = invalid (String.◌++◌ name " is invalid")

abbrev probe_suffixes : List String
probe_suffixes =
    "readinessProbe.httpGet.path" ∷ "readinessProbe.httpGet.port" ∷ "readinessProbe.timeoutSeconds"
    ∷ "livenessProbe.httpGet.path" ∷ "livenessProbe.httpGet.port" ∷ "livenessProbe.timeoutSeconds"
    ∷ []

abbrev probe_entry : String → Value → Outcome (String × String)
probe_entry key (str path) =
    unless_invalid (not (valid_field_path key && any (ends_with key) probe_suffixes))
      "probe field is unsupported"
      (unless_invalid (not (valid_field_path path)) "probePaths is invalid" (returned (key, path)))
probe_entry key _ = invalid "probe field is unsupported"

abbrev probe_entries : Fields → Outcome (List (String × String))
probe_entries no_fields = returned []
probe_entries (field key path rest) =
    probe_entry key path then λ entry. probe_entries rest then λ entries. returned (entry ∷ entries)

unfoldable pub parse_probe_paths : Option Value → Outcome (List (String × String))
parse_probe_paths none = returned []
parse_probe_paths (some null) = returned []
parse_probe_paths (some (dict no_fields)) = invalid "probePaths is invalid"
parse_probe_paths (some (dict paths)) = probe_entries paths
parse_probe_paths (some _) = invalid "probePaths is invalid"

-- [A-Za-z0-9][A-Za-z0-9._/:+-]*[A-Za-z0-9]
abbrev is_image_name : String → Bool
is_image_name name =
    ltb 1 (String.count name)
    && first_is is_alphanumeric name
    && last_is is_alphanumeric name
    && all_chars
        (λ c. is_alphanumeric c || is_one_of (b'.' ∷ b'_' ∷ b'/' ∷ b':' ∷ b'+' ∷ b'-' ∷ []) c) name

abbrev image_name : Option Value → Outcome String
image_name (some (str name)) =
    unless_invalid (any_char (λ c. code c == b'@') name || not (is_image_name name))
      "image name is invalid" (returned name)
image_name _ = invalid "image name is invalid"

abbrev image_entry : Value → Outcome String
image_entry (dict entry) =
    unless_invalid (not (has_exactly ("name" ∷ []) entry)) "image entry is invalid"
      (image_name (get "name" entry))
image_entry _ = invalid "image entry is invalid"

abbrev pub parse_all {ℓ} : {A : Type ℓ} → (Value → Outcome A) → List Value → Outcome (List A)
parse_all parse [] = returned []
parse_all parse (v ∷ vs) = parse v then λ x. parse_all parse vs then λ xs. returned (x ∷ xs)

abbrev distinct_names : List String → Outcome (List String)
distinct_names names =
    unless_invalid (has_duplicate names) "image name is duplicated" (returned names)

unfoldable pub parse_image_names : Option Value → Outcome (List String)
parse_image_names none = returned []
parse_image_names (some null) = returned []
parse_image_names (some (array no_items)) = invalid "images are invalid"
parse_image_names (some (array entries)) = parse_all image_entry (items entries) then distinct_names
parse_image_names (some _) = invalid "images are invalid"

abbrev some_path : Option String → List String
some_path none = []
some_path (some path) = path ∷ []

abbrev pub is_none : Option String → Bool
is_none none = true
is_none (some _) = false

abbrev no_probes : List (String × String) → Bool
no_probes [] = true
no_probes (_ ∷ _) = false

abbrev pub no_names : List String → Bool
no_names [] = true
no_names (_ ∷ _) = false

abbrev target_of : String × String → String
target_of (key, path) = path

abbrev pub declared_paths : RemediationSourceDeclaration → List String
declared_paths source =
    some_path source.image_path
    ++ some_path source.image_tag_path
    ++ some_path source.replica_path
    ++ map target_of source.probe_paths

abbrev pub no_fields_in : RemediationSourceDeclaration → Bool
no_fields_in source = is_none source.replica_path && no_probes source.probe_paths

-- if refused: raise RemediationSourceContractError(message)
abbrev pub unless_empty {ℓ} : {A : Type ℓ} → Bool → String → Outcome A → Outcome A
unless_empty true message next = raised (contract_error message)
unless_empty false message next = next

-- The checks on a source that is read whole.
unfoldable pub checked_source : RemediationSourceDeclaration → Outcome RemediationSourceDeclaration
checked_source source =
    unless_invalid (has_duplicate (declared_paths source)) "field path is duplicated" (
      unless_empty
        (str_eq source.source_type "raw-yaml" && is_none source.image_path && no_fields_in source)
        "raw remediation source declares no fields"
        (unless_empty
          (str_eq source.source_type "helm-values"
            && is_none source.image_tag_path
            && no_fields_in source)
          "Helm remediation source declares no fields"
          (unless_empty (str_eq source.source_type "kustomize" && no_names source.image_names)
            "Kustomize remediation source declares no images" (returned source))))
