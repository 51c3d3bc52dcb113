-- ===== src/Spans/Runs.antt =====
-- spans.py: runs on concrete spans, whose boosts are numbers.
use whooshy.Common.{ℕ, ◌≡◌, true, none, List, [], ◌∷◌, arith}
use whooshy.Common.Result.{ok}
use whooshy.Spans.{Span, merge}
use whooshy.Spans.Cover.{Proper, Sorted, Separate, covered, merge-covered}
use whooshy.Spans.Select.{near_hits}
use whooshy.Spans.Select.Exact.{near, keep, near_hits-keep}

abbrev at : ℕ → ℕ → Span ℕ
at start end = record { start = start; end = end; startchar = none; endchar = none; boost = 1 }

abbrev four : List (Span ℕ)
four = at 1 2 ∷ at 3 3 ∷ at 5 8 ∷ at 6 6 ∷ []

merge-covered_example :
    (r : List (Span ℕ)) × (merge 1 four ≡ ok r)
    × Proper r
    × ((p : ℕ) → covered p r ≡ covered p four)
    × (Sorted 0 four → Separate r)
merge-covered_example =
    merge-covered 1 four (omega arith, (omega arith, (omega arith, (omega arith, tt))))

near_hits-keep_example : near_hits 2 0 true (at 1 2) four ≡ keep (near 2 0 true (at 1 2)) four
near_hits-keep_example =
    near_hits-keep 2 0 true (at 1 2) 0 four (omega arith)
      (omega arith, (omega arith, (omega arith, (omega arith, tt))))
      (omega arith, (omega arith, (omega arith, (omega arith, tt))))
