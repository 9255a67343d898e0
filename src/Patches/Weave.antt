-- ===== src/Patches/Weave.antt =====
-- The splicing of domains/gitops/source_patch.py as one walk from the start of a source text to its end.
use Prim.Native.Nat.{ℕ, ◌-◌, ◌≤◌}
use Prim.Native.String
use k8s_clue.Prelude.{String, ◌≡◌, refl, List, [], ◌∷◌, ◌++◌, arith, sym, ap, ◌∙◌}
use k8s_clue.Patches.Text.{text_take, text_drop}
use k8s_clue.Patches.Slices.{
  count-take, count-take-le, take-take, drop-drop, drop-take, take-append, drop-append,
}
use k8s_clue.Patches.Splice.{Span, put_span, put_spans}

-- `rest` is the source from position `at` on: what is between two spans is copied.
unfoldable pub weave : ℕ → List Span → String → String
weave at [] rest = rest
weave at (span ∷ spans) rest =
    String.◌++◌ (text_take (span.start - at) rest)
      (String.◌++◌ span.encoded (weave span.end spans (text_drop (span.end - at) rest)))

-- The spans stand in the text one after another, none before position `at`.
abbrev pub IsAscending : ℕ → String → List Span → Type 0
IsAscending at text [] = at ≤ String.count text
IsAscending at text (span ∷ spans) =
    (at ≤ span.start) × (span.start ≤ span.end) × IsAscending span.end text spans

abbrev pub reversed : List Span → List Span
reversed [] = []
reversed (span ∷ spans) = reversed spans ++ span ∷ []

put_spans-append :
    (spans others : List Span) (text : String)
    → put_spans (spans ++ others) text ≡ put_spans others (put_spans spans text)
unfolding put_spans
put_spans-append [] others text = refl
put_spans-append (span ∷ spans) others text = put_spans-append spans others (put_span span text)

put_spans-reversed :
    (span : Span) (spans : List Span) (text : String)
    → put_spans (reversed (span ∷ spans)) text ≡ put_span span (put_spans (reversed spans) text)
unfolding put_spans
put_spans-reversed span spans text = put_spans-append (reversed spans) (span ∷ []) text

module _ (at : ℕ) (span : Span) (patched : String) where
  put_span-take :
      at ≤ span.start
      → span.start ≤ String.count patched
      → text_take at (put_span span patched) ≡ text_take at patched
  unfolding put_span
  put_span-take le inside =
      rw
        (
          take-append at (text_take span.start patched) _
              (ground (arith, count-take span.start patched)),
          take-take at span.start patched le,
        )
        refl

  put_span-drop :
      at ≤ span.start
      → span.start ≤ String.count patched
      → text_drop at (put_span span patched)
        ≡ String.◌++◌
            (text_take (span.start - at) (text_drop at patched))
            (String.◌++◌ span.encoded (text_drop span.end patched))
  unfolding put_span
  put_span-drop le inside =
      rw
        (
          drop-append at (text_take span.start patched) _
              (ground (arith, count-take span.start patched)),
          drop-take at (span.start - at) span.start patched (omega arith),
        )
        refl

pub record IsWoven (at : ℕ) (spans : List Span) (text : String) : Type 0 where
  pub before : text_take at (put_spans (reversed spans) text) ≡ text_take at text
  pub after : text_drop at (put_spans (reversed spans) text) ≡ weave at spans (text_drop at text)

IsAscending-bound :
    (at : ℕ) (text : String) (spans : List Span)
    → IsAscending at text spans
    → at ≤ String.count text
IsAscending-bound at text [] h = h
IsAscending-bound at text (span ∷ spans) (low, wide, others) =
    omega (arith, low, wide, IsAscending-bound span.end text spans others)

module _ (patched text : String) where
  span_inside :
      (end : ℕ)
      → text_take end patched ≡ text_take end text
      → end ≤ String.count text
      → end ≤ String.count patched
  span_inside end same inside =
      omega (arith, count-take end text inside, count-take-le end patched, ap String.count same)

  same_before :
      (at end : ℕ)
      → at ≤ end
      → text_take end patched ≡ text_take end text
      → text_take at patched ≡ text_take at text
  same_before at end le same =
      sym (take-take at end patched le) ∙ ap (text_take at) same ∙ take-take at end text le

  same_between :
      (at start end : ℕ)
      → at ≤ start
      → start ≤ end
      → text_take end patched ≡ text_take end text
      → text_take (start - at) (text_drop at patched) ≡ text_take (start - at) (text_drop at text)
  same_between at start end low wide same =
      sym (drop-take at (start - at) start patched (omega arith))
      ∙ ap (text_drop at) (same_before start end wide same)
      ∙ drop-take at (start - at) start text (omega arith)

pub put_spans-IsWoven :
    (at : ℕ) (spans : List Span) (text : String) → IsAscending at text spans → IsWoven at spans text
unfolding put_spans weave
put_spans-IsWoven at [] text h = record { before = refl; after = refl }
put_spans-IsWoven at (span ∷ spans) text (low, wide, others) =
    let inner = put_spans-IsWoven span.end spans text others in
    let patched = put_spans (reversed spans) text in
    let inside =
      span_inside patched text span.end inner.before
        (IsAscending-bound span.end text spans others) in
    record {
      before =
          ap (text_take at) (put_spans-reversed span spans text)
          ∙ put_span-take at span patched low (omega (arith, inside, wide))
          ∙ same_before patched text at span.end (omega (arith, low, wide)) inner.before;
      after =
          ap (text_drop at) (put_spans-reversed span spans text)
          ∙ put_span-drop at span patched low (omega (arith, inside, wide))
          ∙ rw
              (
                same_between patched text at span.start span.end low wide inner.before,
                inner.after,
                drop-drop at (span.end - at) span.end text (omega (arith, low, wide)),
              )
              refl;
    }
