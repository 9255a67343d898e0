-- ===== src/Patches/Paths.antt =====
-- Field paths and manifest paths: `_field_path_parts`, `field_path_segments`, `safe_manifest_path`
-- and the two digests' regular expressions in domains/gitops/source_patch.py.
use Prim.Native.Nat.{ℕ, zero, suc}
use Prim.Native.String
use Prim.Native.Char.{Char, code}
use text.Mathlib.Text.{starts_with}
use k8s_clue.Prelude.{
  String, Bool, true, false, not, ◌&&◌, ◌||◌, Option, none, some, List, [], ◌∷◌, is_in, leb, ◌==◌,
  if◌then◌else◌,
}
use k8s_clue.Patches.{FieldPathSegment}
use k8s_clue.Patches.Text.{
  is_hex, is_alphanumeric, all_chars, any_char, is_blank, is_empty, without_prefix, split_from,
}

-- What is left of the loop: `part` holds value[start:index], and a failure is none.
unfoldable pub parts_from : ℕ → String → String → Option (List String)
parts_from zero part String.[] = some (part ∷ [])
parts_from (suc depth) part String.[] = none
parts_from depth part (String.◌∷◌ c text) =
    let part' = String.◌++◌ part (String.◌∷◌ c String.[]) in
    elim (code c == b'[') [
      | true ↦ parts_from (suc depth) part' text
      | false ↦ elim (code c == b']') [
        | true ↦ elim depth [ zero ↦ none | suc outer ↦ parts_from outer part' text ]
        | false ↦ elim (code c == b'.' && depth == 0) [
          | true ↦ elim (parts_from depth String.[] text) [
            | none ↦ none
            | some parts ↦ some (part ∷ parts)
          ]
          | false ↦ parts_from depth part' text
        ]
      ]
    ]

unfoldable pub field_path_parts : String → List String
field_path_parts value = elim (parts_from 0 "" value) [ none ↦ [] | some parts ↦ parts ]

abbrev is_key_char : Char → Bool
is_key_char c = is_alphanumeric c || code c == b'_' || code c == b'-'

-- [A-Za-z0-9_-]*, and what comes after it
abbrev pub key_and_rest : String → String × String
key_and_rest String.[] = ("", "")
key_and_rest (String.◌∷◌ c text) =
    let (key, rest) = key_and_rest text in
    if is_key_char c then (String.◌∷◌ c key, rest) else ("", String.◌∷◌ c text)

-- [^\]]*\] to the text's end: the name before the bracket
abbrev pub closed_name : String → Option String
closed_name String.[] = none
closed_name (String.◌∷◌ c text) =
    let rest = closed_name text in
    if code c == b']'
    then (if is_empty text then some "" else none)
    else elim rest [ none ↦ none | some name ↦ some (String.◌∷◌ c name) ]

-- The pattern takes a name of at least one character, and the caller refuses a blank one.
abbrev selector : String → String → Option FieldPathSegment
selector key String.[] = some (record { key = key; selected_name = none })
selector key rest = elim (without_prefix "[name=" rest) [
  | none ↦ none
  | some body ↦ elim (closed_name body) [
    | none ↦ none
    | some name ↦
        if is_blank name then none else some (record { key = key; selected_name = some name })
  ]
]

-- One part of a path, where FIELD_PATH_SEGMENT_PATTERN matches it.
unfoldable pub field_path_segment : String → Option FieldPathSegment
field_path_segment raw =
    let (key, rest) = key_and_rest raw in if is_empty key then none else selector key rest

abbrev pub segments_of : List String → Option (List FieldPathSegment)
segments_of [] = some []
segments_of (raw ∷ raws) = elim (field_path_segment raw) [
  | none ↦ none
  | some segment ↦ elim (segments_of raws) [
    | none ↦ none
    | some segments ↦ some (segment ∷ segments)
  ]
]

-- A path with a part that is no segment has no segments at all.
unfoldable pub field_path_segments : String → List FieldPathSegment
field_path_segments value = elim (segments_of (field_path_parts value)) [
  | none ↦ []
  | some segments ↦ segments
]

-- Among the parts of a POSIX path is `..` exactly if one of the pieces between slashes is.
unfoldable pub safe_manifest_path : String → Bool
safe_manifest_path value =
    not (is_empty value)
    && not (starts_with value "/")
    && not (any_char (λ c. code c == b'\\') value)
    && not (is_in ".." (split_from "/" "" value))

-- sha256:[0-9a-f]{64}
unfoldable pub is_manifest_digest : String → Bool
is_manifest_digest text = elim (without_prefix "sha256:" text) [
  | none ↦ false
  | some digits ↦ all_chars is_hex digits && String.count digits == 64
]

-- [0-9a-f]{40,64}
unfoldable pub is_commit_sha : String → Bool
is_commit_sha text =
    all_chars is_hex text && leb 40 (String.count text) && leb (String.count text) 64
