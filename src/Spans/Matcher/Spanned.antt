-- ===== src/Spans/Matcher/Spanned.antt =====
-- Where a SpanWrappingMatcher stops.
use whooshy.Common.{
  ℕ, zero, suc, ◌<◌, ◌≡◌, refl, ◌∙◌, Bool, true, false, Option, none, some, List, [], ◌∷◌, arith,
  length, if◌then◌else◌, inl, inr, List-cases,
}
use whooshy.Common.Result.{ok}
use whooshy.Matching.Interface.{Matcher, Spec, Implements}
use whooshy.Spans.{Span}
use whooshy.Spans.Matcher.{span_loop, kept_or, span_find_next}

module _ {C W B : Type 0} {m : Matcher C W} {sp : Spec C W} (im : Implements m sp)
    (get_spans : C → List (Span B)) (spans_of : ℕ → List (Span B))
    (reads : (c : C) (p : ℕ × W) (ps : List (ℕ × W))
      → sp.IsValid c
      → sp.view c ≡ p ∷ ps
      → get_spans c ≡ spans_of p.0) where
  -- The first posting of a document with spans, and what follows it.
  abbrev pub has_spans : List (Span B) → Bool
  has_spans [] = false
  has_spans (s ∷ ss) = true

  abbrev pub spanned : List (ℕ × W) → List (ℕ × W)
  spanned [] = []
  spanned (p ∷ ps) = let rest = spanned ps in if has_spans (spans_of p.0) then p ∷ ps else rest

  -- The spans that are found with it.
  abbrev pub found_spans : List (ℕ × W) → Option (List (Span B))
  found_spans [] = none
  found_spans (p ∷ ps) = some (spans_of p.0)

  loop-spanned :
      (fuel : ℕ) (c : C) (p : ℕ × W) (ps : List (ℕ × W))
      → sp.IsValid c
      → sp.view c ≡ p ∷ ps
      → suc (length ps) < fuel
      → (c' : C) × (span_loop m get_spans fuel c ≡ ok (c', found_spans (spanned (p ∷ ps))))
        × sp.IsValid c'
        × (sp.view c' ≡ spanned (p ∷ ps))
  unfolding span_loop
  loop-spanned zero c p ps v w h = absurd (omega arith)
  loop-spanned (suc fuel) c p ps v w h = elim (List-cases (spans_of p.0)) [
    | inr (s, ss, some_spans) ↦
        let here = reads c p ps v w ∙ some_spans in
        rw (some_spans, here, span_loop) (c, rw some_spans refl, v, w)
    | inl no_spans ↦
        let (c1, e1, v1, w1) = im.next_lem c p ps v w in
        let active = im.active c1 v1 in
        elim (List-cases ps) [
          | inl ended ↦
              let idle : m.is_active c1 ≡ false = active ∙ rw (w1, ended) refl in
              let here = reads c p ps v w ∙ no_spans in
              rw (no_spans, ended, here, e1, idle, span_loop) (c1, refl, v1, w1 ∙ ended)
          | inr (q, qs, more) ↦
              let goes_on : m.is_active c1 ≡ true = active ∙ rw (w1, more) refl in
              let here = reads c p ps v w ∙ no_spans in
              let h' = rw more at h in
              let rest = loop-spanned fuel c1 q qs v1 (w1 ∙ more) (omega (arith, h')) in
              rw (no_spans, more, here, e1, goes_on, span_loop) rest
        ]
  ]

  -- Over a child that keeps the interface, where the spans depend on nothing but the document: from any
  -- valid state of the child that is not at its end, _find_next ends; the child is then at its first
  -- document with spans, and those are its spans, or at its end, and the spans are the old ones.
  pub span_find_next-spanned :
      (c : C) (old : Option (List (Span B))) (p : ℕ × W) (ps : List (ℕ × W))
      → sp.IsValid c
      → sp.view c ≡ p ∷ ps
      → (c' : C) × (span_find_next m get_spans (record { child = c; spans = old })
          ≡ ok (record {
            child = c';
            spans = kept_or m get_spans (found_spans (spanned (p ∷ ps))) old;
          }))
        × sp.IsValid c'
        × (sp.view c' ≡ spanned (p ∷ ps))
  unfolding span_find_next
  span_find_next-spanned c old p ps v w =
      let active : m.is_active c ≡ true = im.active c v ∙ rw w refl in
      let size = im.bounded c v in
      let size' = rw w at size in
      let (c', e, v', w') = loop-spanned (suc (m.size c)) c p ps v w (omega (arith, size')) in
      (c', rw (active, e) refl, v', w')
