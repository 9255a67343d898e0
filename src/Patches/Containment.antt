-- ===== src/Patches/Containment.antt =====
-- Paths of packages/contracts/remediation_source.py as a POSIX system resolves them, symbolic links aside.
use text.Mathlib.Text.{starts_with}
use k8s_clue.Prelude.{
  String, ◌≡◌, refl, ◌∙◌, sym, ap, true, false, ◌||◌, List, [], ◌∷◌, ◌++◌, is_in, str_eq, arith,
  append_assoc, Bool-cases, inl, inr, if◌then◌else◌,
}
use k8s_clue.Patches.Text.{split_from}
use k8s_clue.Patches.Contract.{is_repo_path}

abbrev parent : List String → List String
parent [] = []
parent (dir ∷ dirs) = dirs

-- One step into a directory, from the directories that lead to the present one, the innermost first.
abbrev pub enter : List String → String → List String
enter dirs part =
    if str_eq part ".."
    then parent dirs
    else if str_eq part "" || str_eq part "."
    then dirs
    else part ∷ dirs

abbrev pub walk : List String → List String → List String
walk dirs [] = dirs
walk dirs (part ∷ parts) = walk (enter dirs part) parts

-- An absolute path starts at the root of the file system.
abbrev pub resolve : List String → String → List String
resolve base path = walk (if starts_with path "/" then [] else base) (split_from "/" String.[] path)

-- Wherever the repository is checked out, the path leads to a place in it.
abbrev pub StaysInside : String → Type 0
StaysInside path =
    (base : List String) → (inner : List String) × (resolve base path ≡ inner ++ base)

enter-inner :
    (dirs : List String) (part : String)
    → str_eq part ".." ≡ false
    → (inner : List String) × (enter dirs part ≡ inner ++ dirs)
enter-inner dirs part named = elim (Bool-cases (str_eq part "" || str_eq part ".")) [
  | inl still ↦ ([], rw (named, still) refl)
  | inr deeper ↦ (part ∷ [], rw (named, deeper) refl)
]

walk-inner :
    (dirs parts : List String)
    → is_in ".." parts ≡ false
    → (inner : List String) × (walk dirs parts ≡ inner ++ dirs)
walk-inner dirs [] named = ([], refl)
walk-inner dirs (part ∷ parts) named =
    let (step, entered) = enter-inner dirs part (ground arith) in
    let (inner, walked) = walk-inner (enter dirs part) parts (ground arith) in
    (inner ++ step, walked ∙ ap (λ d. inner ++ d) entered ∙ sym (append_assoc inner step dirs))

pub is_repo_path-StaysInside : (path : String) → is_repo_path path ≡ true → StaysInside path
unfolding is_repo_path
is_repo_path-StaysInside path safe base =
    let relative : starts_with path "/" ≡ false = ground arith in
    let named : is_in ".." (split_from "/" String.[] path) ≡ false = ground arith in
    rw relative (walk-inner base (split_from "/" String.[] path) named)
