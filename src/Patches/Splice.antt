-- ===== src/Patches/Splice.antt =====
-- The loops of domains/gitops/source_patch.py that put the encoded scalars into the source text, from
-- the last span to the first, and what they come to.
use Prim.Native.Nat.{ℕ}
use Prim.Native.String
use k8s_clue.Prelude.{String, Bool, false, ◌&&◌, ◌||◌, List, [], ◌∷◌, ltb, leb, ◌==◌, if◌then◌else◌}
use k8s_clue.Patches.Text.{text_take, text_drop}

-- (start_mark.index, end_mark.index, encoded)
pub record Span : Type 0 where
  pub start : ℕ
  pub end : ℕ
  pub encoded : String

-- f"{patched[:start]}{encoded}{patched[end:]}"
unfoldable pub put_span : Span → String → String
put_span span patched =
    String.◌++◌ (text_take span.start patched)
      (String.◌++◌ span.encoded (text_drop span.end patched))

unfoldable pub put_spans : List Span → String → String
put_spans [] patched = patched
put_spans (span ∷ spans) patched = put_spans spans (put_span span patched)

-- The order of the tuples, turned round. Two spans of the same place are refused before.
abbrev pub comes_first : Span → Span → Bool
comes_first a b = ltb b.start a.start || (a.start == b.start && leb b.end a.end)

abbrev pub insert_span : Span → List Span → List Span
insert_span span [] = span ∷ []
insert_span span (other ∷ others) =
    let rest = insert_span span others in
    if comes_first span other then span ∷ other ∷ others else other ∷ rest

-- sorted(spans, reverse=True)
unfoldable pub sorted_reverse : List Span → List Span
sorted_reverse [] = []
sorted_reverse (span ∷ spans) = insert_span span (sorted_reverse spans)

abbrev has_place : Span → List Span → Bool
has_place span [] = false
has_place span (other ∷ others) =
    (span.start == other.start && span.end == other.end) || has_place span others

-- len({(start, end) for start, end, _ in spans}) != len(spans)
unfoldable pub spans_overlap : List Span → Bool
spans_overlap [] = false
spans_overlap (span ∷ spans) = has_place span spans || spans_overlap spans
