-- ===== src/Bus/Subjects.antt =====
-- `_subject_matches` of packages/events/in_memory.py: NATS subject patterns, token by token.
use Prim.Native.Char.{Char, code}
use k8s_clue.Prelude.{
  String, ◌≡◌, ◌≢◌, ◌↔◌, refl, sym, ◌∙◌, Bool, true, false, ◌&&◌, ◌||◌, false≢true, true≢false, ◌⊎◌,
  List, [], ◌∷◌, arith, ◌==◌, str_eq, eq_iff, Bool-cases, inl, inr, if◌then◌else◌,
}

abbrev prepend : Char → List String → List String
prepend c [] = String.◌∷◌ c String.[] ∷ []
prepend c (token ∷ tokens) = String.◌∷◌ c token ∷ tokens

-- text.split("."), never empty
unfoldable pub split_dots : String → List String
split_dots String.[] = String.[] ∷ []
split_dots (String.◌∷◌ c text) =
    let rest = split_dots text in if code c == b'.' then String.[] ∷ rest else prepend c rest

abbrev pub is_nil : List String → Bool
is_nil [] = true
is_nil (x ∷ xs) = false

-- The loop over the pattern's tokens; the lists are what is left from the loop's index on, and the
-- last clause of the source, the comparison of the lengths, is the case of no token left.
unfoldable pub tokens_match : List String → List String → Bool
tokens_match [] subject = is_nil subject
tokens_match (token ∷ pattern) [] = false
tokens_match (token ∷ pattern) (word ∷ subject) =
    if str_eq token ">"
    then is_nil pattern
    else (str_eq token "*" || str_eq token word) && tokens_match pattern subject

unfoldable pub subject_matches : String → String → Bool
subject_matches pattern subject = tokens_match (split_dots pattern) (split_dots subject)

-- What a pattern means: a word stands for itself, `*` for one word, and a last `>` for one word or
-- more.
pub data Matches : List String → List String → Type 0 where
  both_end : Matches [] []
  tail :
      {token : String} (word : String) (subject : List String)
      → token ≡ ">"
      → Matches (token ∷ []) (word ∷ subject)
  one :
      {token : String} (word : String) {pattern subject : List String}
      → token ≢ ">"
      → token ≡ "*"
      → Matches pattern subject
      → Matches (token ∷ pattern) (word ∷ subject)
  same :
      {token word : String} {pattern subject : List String}
      → token ≢ ">"
      → token ≡ word
      → Matches pattern subject
      → Matches (token ∷ pattern) (word ∷ subject)

-- The three ways in which a token matches a word.
token-cases :
    (token word : String) (pattern subject : List String)
    → tokens_match (token ∷ pattern) (word ∷ subject) ≡ true
    → ((token ≡ ">") × (is_nil pattern ≡ true))
      ⊎ ((token ≢ ">") × (token ≡ "*") × (tokens_match pattern subject ≡ true))
      ⊎ ((token ≢ ">") × (token ≡ word) × (tokens_match pattern subject ≡ true))
unfolding tokens_match
token-cases token word pattern subject h = elim (Bool-cases (str_eq token ">")) [
  | inl g ↦ inl ((eq_iff token ">").0 g, rw g at h)
  | inr g ↦
      let other : token ≢ ">" = λ e. true≢false (sym ((eq_iff token ">").1 e) ∙ g) in
      let rest : (str_eq token "*" || str_eq token word) && tokens_match pattern subject ≡ true =
        rw g at h in
      inr (elim (Bool-cases (str_eq token "*")) [
        | inl s ↦ inl (other, (eq_iff token "*").0 s, ground (arith, rest))
        | inr s ↦ inr (other, (eq_iff token word).0 (ground (arith, rest)), ground (arith, rest))
      ])
]

tokens_match_sound :
    (pattern subject : List String) → tokens_match pattern subject ≡ true → Matches pattern subject
unfolding tokens_match
tokens_match_sound [] [] h = both_end
tokens_match_sound [] (word ∷ subject) h = absurd (false≢true h)
tokens_match_sound (token ∷ pattern) [] h = absurd (false≢true h)
tokens_match_sound (token ∷ pattern) (word ∷ subject) h =
    by_case (token-cases token word pattern subject h) (tokens_match_sound pattern subject)
  where
    last :
        (pattern : List String)
        → is_nil pattern ≡ true
        → token ≡ ">"
        → Matches (token ∷ pattern) (word ∷ subject)
    last [] n e = tail word subject e
    last (x ∷ xs) n e = absurd (false≢true n)

    by_case :
        ((token ≡ ">") × (is_nil pattern ≡ true))
          ⊎ ((token ≢ ">") × (token ≡ "*") × (tokens_match pattern subject ≡ true))
          ⊎ ((token ≢ ">") × (token ≡ word) × (tokens_match pattern subject ≡ true))
        → (tokens_match pattern subject ≡ true → Matches pattern subject)
        → Matches (token ∷ pattern) (word ∷ subject)
    by_case (inl (e, n)) rest = last pattern n e
    by_case (inr (inl (n, e, m))) rest = one word n e (rest m)
    by_case (inr (inr (n, e, m))) rest = same n e (rest m)

tokens_match_complete :
    {pattern subject : List String} → Matches pattern subject → tokens_match pattern subject ≡ true
unfolding tokens_match
tokens_match_complete both_end = refl
tokens_match_complete (tail {token} word subject e) = ground (arith, eq_iff token ">")
tokens_match_complete (one {token} word n e m) =
    ground (arith, eq_iff token ">", eq_iff token "*", tokens_match_complete m)
tokens_match_complete (same {token} {word} n e m) =
    ground (arith, eq_iff token ">", eq_iff token word, tokens_match_complete m)

-- The matcher decides the meaning of patterns: it answers true exactly for the subjects that the
-- pattern stands for, the texts split at their dots.
pub subject_matches_iff :
    (pattern subject : String)
    → (subject_matches pattern subject ≡ true) ↔ Matches (split_dots pattern) (split_dots subject)
unfolding subject_matches
subject_matches_iff pattern subject =
    (tokens_match_sound (split_dots pattern) (split_dots subject), tokens_match_complete)
