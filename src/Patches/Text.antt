-- ===== src/Patches/Text.antt =====
-- The text operations that domains/gitops/source_patch.py uses: Python's `strip`, `endswith`, slices
-- and the character classes of its regular expressions. A position counts characters.
use Prim.Native.Nat.{ℕ, zero, suc}
use Prim.Native.String
use Prim.Native.Char.{Char, code}
use k8s_clue.Prelude.{
  String, Bool, true, false, ◌&&◌, ◌||◌, Option, none, some, List, [], ◌∷◌, str_eq, leb, is_in,
  ◌==◌, if◌then◌else◌,
}

abbrev pub between : ℕ → ℕ → Char → Bool
between low high c = leb low (code c) && leb (code c) high

abbrev pub is_digit : Char → Bool
is_digit c = between b'0' b'9' c

abbrev pub is_hex : Char → Bool
is_hex c = is_digit c || between b'a' b'f' c

abbrev pub is_alphanumeric : Char → Bool
is_alphanumeric c = is_digit c || between b'a' b'z' c || between b'A' b'Z' c

-- str.isspace of one character
abbrev pub is_space : Char → Bool
is_space c =
    between 9 13 c
    || between 28 32 c
    || code c == 133
    || code c == 160
    || code c == 5760
    || between 8192 8202 c
    || between 8232 8233 c
    || code c == 8239
    || code c == 8287
    || code c == 12288

abbrev pub all_chars : (Char → Bool) → String → Bool
all_chars test String.[] = true
all_chars test (String.◌∷◌ c text) = test c && all_chars test text

abbrev pub any_char : (Char → Bool) → String → Bool
any_char test String.[] = false
any_char test (String.◌∷◌ c text) = test c || any_char test text

-- not text.strip()
abbrev pub is_blank : String → Bool
is_blank text = all_chars is_space text

abbrev pub is_empty : String → Bool
is_empty String.[] = true
is_empty (String.◌∷◌ c text) = false

-- text.endswith(suffix)
abbrev pub ends_with : String → String → Bool
ends_with String.[] suffix = str_eq String.[] suffix
ends_with (String.◌∷◌ c text) suffix = str_eq (String.◌∷◌ c text) suffix || ends_with text suffix

-- text.removeprefix(prefix), where it has the prefix
abbrev pub without_prefix : String → String → Option String
without_prefix String.[] text = some text
without_prefix (String.◌∷◌ p prefix) String.[] = none
without_prefix (String.◌∷◌ p prefix) (String.◌∷◌ c text) =
    if code p == code c then without_prefix prefix text else none

-- text[:n]
abbrev pub text_take : ℕ → String → String
text_take zero text = String.[]
text_take (suc n) String.[] = String.[]
text_take (suc n) (String.◌∷◌ c text) = String.◌∷◌ c (text_take n text)

-- text[n:]
abbrev pub text_drop : ℕ → String → String
text_drop zero text = text
text_drop (suc n) String.[] = String.[]
text_drop (suc n) (String.◌∷◌ c text) = text_drop n text

-- text.split(separator), for a separator of one character: `part` is the piece that is open
abbrev pub split_from : Char → String → String → List String
split_from separator part String.[] = part ∷ []
split_from separator part (String.◌∷◌ c text) = elim (code c == code separator) [
  | true ↦ part ∷ split_from separator String.[] text
  | false ↦ split_from separator (String.◌++◌ part (String.◌∷◌ c String.[])) text
]

-- len(set(xs)) != len(xs)
abbrev pub has_duplicate : List String → Bool
has_duplicate [] = false
has_duplicate (x ∷ xs) = is_in x xs || has_duplicate xs
