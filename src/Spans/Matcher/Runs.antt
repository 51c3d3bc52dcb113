-- ===== src/Spans/Matcher/Runs.antt =====
-- A span matcher over a concrete list matcher.
use whooshy.Common.{ℕ, ◌≡◌, refl, Bool, not, ◌==◌, none, some, List, [], ◌∷◌, arith, if◌then◌else◌}
use whooshy.Common.Result.{ok}
use whooshy.Matching.Leaf.{ListMatcher, IsListed, list_matcher, remaining, entries}
use whooshy.Matching.Leaf.Listed.{list_matcher-Implements}
use whooshy.Spans.{Span}
use whooshy.Spans.Matcher.{span_find_next}
use whooshy.Spans.Matcher.Spanned.{span_find_next-spanned}

abbrev weighty : ℕ → Bool
weighty w = not (w == 0)

-- Only the document 4 has a span.
abbrev spans_at : ℕ → List (Span ℕ)
spans_at d =
    if d == 4
    then record { start = 2; end = 3; startchar = none; endchar = none; boost = 1 } ∷ []
    else []

abbrev spans_in : List (ℕ × ℕ) → List (Span ℕ)
spans_in [] = []
spans_in (p ∷ ps) = spans_at p.0

abbrev current_spans : ListMatcher ℕ → List (Span ℕ)
current_spans c = spans_in (remaining 1 weighty c)

current_spans-reads :
    (c : ListMatcher ℕ) (p : ℕ × ℕ) (ps : List (ℕ × ℕ))
    → IsListed 1 weighty c
    → remaining 1 weighty c ≡ p ∷ ps
    → current_spans c ≡ spans_at p.0
current_spans-reads c p ps v w = rw w refl

abbrev three_documents : ListMatcher ℕ
three_documents = record { ids = 1 ∷ 4 ∷ 7 ∷ []; weights = none; all_weights = none; i = 0 }

three_documents-IsListed : IsListed 1 weighty three_documents
unfolding entries
three_documents-IsListed = record { rising = omega arith; fits = tt }

span_find_next-spanned_example :
    (c' : ListMatcher ℕ) × (span_find_next
        (list_matcher 1 weighty)
        current_spans
        (record { child = three_documents; spans = none })
      ≡ ok (record { child = c'; spans = some (spans_at 4) }))
    × IsListed 1 weighty c'
    × (remaining 1 weighty c' ≡ (4, 1) ∷ (7, 1) ∷ [])
unfolding entries
span_find_next-spanned_example =
    span_find_next-spanned (list_matcher-Implements 1 weighty) current_spans spans_at
      current_spans-reads three_documents none (1, 1) ((4, 1) ∷ (7, 1) ∷ [])
      three_documents-IsListed refl
