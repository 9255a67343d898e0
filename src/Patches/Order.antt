-- ===== src/Patches/Order.antt =====
-- The order in which domains/gitops/source_patch.py puts its spans into the source, from the last one to
-- the first, and the text that this gives.
use Prim.Native.Nat.{ℕ, ◌≤◌}
use Prim.Native.String
use k8s_clue.Prelude.{
  String, ◌≡◌, refl, true, false, ◌||◌, List, [], ◌∷◌, ◌++◌, append_assoc, append-nil, All, arith,
  leb, Bool-cases, inl, inr, sym, ap, ◌∙◌,
}
use k8s_clue.Patches.Splice.{Span, put_spans, comes_first, insert_span, sorted_reverse}
use k8s_clue.Patches.Weave.{weave, IsAscending, reversed, put_spans-IsWoven}

abbrev IsBeside : Span → Span → Type 0
IsBeside a b = (leb a.end b.start || leb b.end a.start) ≡ true

-- The spans lie in the text, and no two of them share a character.
abbrev pub IsApart : String → List Span → Type 0
IsApart source [] = Unit
IsApart source (span ∷ spans) =
    (span.start ≤ span.end)
    × (span.end ≤ String.count source)
    × All (IsBeside span) spans
    × IsApart source spans

abbrev IsDescending : ℕ → List Span → Type 0
IsDescending limit [] = Unit
IsDescending limit (span ∷ spans) =
    (span.start ≤ span.end) × (span.end ≤ limit) × IsDescending span.start spans

first_is_above :
    (a b : Span)
    → a.start ≤ a.end
    → b.start ≤ b.end
    → IsBeside a b
    → comes_first a b ≡ true
    → b.end ≤ a.start
first_is_above a b wide wide' beside first = ground arith

other_is_above :
    (a b : Span)
    → a.start ≤ a.end
    → b.start ≤ b.end
    → IsBeside a b
    → comes_first a b ≡ false
    → a.end ≤ b.start
other_is_above a b wide wide' beside first = ground arith

insert_span-IsDescending :
    (limit : ℕ) (span : Span) (spans : List Span)
    → span.start ≤ span.end
    → span.end ≤ limit
    → All (IsBeside span) spans
    → IsDescending limit spans
    → IsDescending limit (insert_span span spans)
insert_span-IsDescending limit span [] wide inside beside down = (wide, inside, tt)
insert_span-IsDescending limit span (other ∷ others) wide inside (beside, more)
      (wide', inside', down) =
    elim (Bool-cases (comes_first span other)) [
      | inl first ↦
          rw first (wide, inside, (wide', first_is_above span other wide wide' beside first, down))
      | inr later ↦ rw later (
        wide',
        inside',
        insert_span-IsDescending other.start span others wide
            (other_is_above span other wide wide' beside later) more down,
      )
    ]

module _ (P : Span → Type 0) where
  insert_span-All :
      (span : Span) (spans : List Span) → P span → All P spans → All P (insert_span span spans)
  insert_span-All span [] p ps = (p, tt)
  insert_span-All span (other ∷ others) p (q, ps) = elim (Bool-cases (comes_first span other)) [
    | inl first ↦ rw first (p, (q, ps))
    | inr later ↦ rw later (q, insert_span-All span others p ps)
  ]

  sorted_reverse-All : (spans : List Span) → All P spans → All P (sorted_reverse spans)
  unfolding sorted_reverse
  sorted_reverse-All [] h = tt
  sorted_reverse-All (span ∷ spans) (p, ps) =
      insert_span-All span (sorted_reverse spans) p (sorted_reverse-All spans ps)

sorted_reverse-IsDescending :
    (source : String) (spans : List Span)
    → IsApart source spans
    → IsDescending (String.count source) (sorted_reverse spans)
unfolding sorted_reverse
sorted_reverse-IsDescending source [] h = tt
sorted_reverse-IsDescending source (span ∷ spans) (wide, inside, beside, apart) =
    insert_span-IsDescending (String.count source) span (sorted_reverse spans) wide inside
      (sorted_reverse-All (IsBeside span) spans beside)
      (sorted_reverse-IsDescending source spans apart)

IsAscending-from :
    (at limit : ℕ) (source : String) (spans : List Span)
    → at ≤ limit
    → IsAscending limit source spans
    → IsAscending at source spans
IsAscending-from at limit source [] le h = omega (arith, le, h)
IsAscending-from at limit source (span ∷ spans) le (low, wide, others) =
    (omega (arith, le, low), wide, others)

reversed-IsAscending :
    (limit : ℕ) (source : String) (spans others : List Span)
    → IsDescending limit spans
    → IsAscending limit source others
    → IsAscending 0 source (reversed spans ++ others)
reversed-IsAscending limit source [] others down up =
    IsAscending-from 0 limit source others (omega arith) up
reversed-IsAscending limit source (span ∷ spans) others (wide, inside, down) up =
    rw (append_assoc (reversed spans) (span ∷ []) others) (
      reversed-IsAscending span.start source spans (span ∷ others) down
        (omega arith, wide, IsAscending-from span.end limit source others inside up))

reversed-append :
    (spans others : List Span) → reversed (spans ++ others) ≡ reversed others ++ reversed spans
reversed-append [] others = sym (append-nil (reversed others))
reversed-append (span ∷ spans) others =
    rw (reversed-append spans others) (append_assoc (reversed others) (reversed spans) (span ∷ []))

reversed-reversed : (spans : List Span) → reversed (reversed spans) ≡ spans
reversed-reversed [] = refl
reversed-reversed (span ∷ spans) =
    rw (reversed-append (reversed spans) (span ∷ []), reversed-reversed spans) refl

-- Where the spans lie in the source and no two of them share a character, in whatever order they were
-- found, the code's splicing gives the text that one walk from the start of the source writes: the source
-- up to each span, the span's new text, and the source after the last one.
pub put_spans-weaves :
    (spans : List Span) (source : String)
    → IsApart source spans
    → put_spans (sorted_reverse spans) source ≡ weave 0 (reversed (sorted_reverse spans)) source
put_spans-weaves spans source apart =
    let sorted = sorted_reverse spans in
    let ascending =
      reversed-IsAscending (String.count source) source sorted []
        (sorted_reverse-IsDescending source spans apart) (omega arith) in
    ap (λ l. put_spans l source) (sym (reversed-reversed sorted))
    ∙ (put_spans-IsWoven 0 (reversed sorted) source (rw append-nil at ascending)).after
