-- ===== src/Spans.antt =====
-- src/whoosh/query/spans.py, class Span: intervals of positions in a document. The boost is of any
-- type; a new span has the boost 1.0, a parameter.
pub mod Cover
pub mod Select
pub mod Matcher
pub mod Runs
use whooshy.Common.{
  ℕ, zero, suc, ◌+◌, ◌-◌, ◌*◌, ◌/◌, Bool, true, false, ◌&&◌, ◌||◌, Option, none, some, List, [],
  ◌∷◌, length, if◌then◌else◌, ◌==◌, ltb, leb, min, max, get_elem?,
}
use whooshy.Common.Result.{Result, ok, err, assertion_error, index_error, stuck, index, ◌>>=◌}

pub record Span (B : Type 0) : Type 0 where
  pub start : ℕ
  pub end : ℕ
  pub startchar : Option ℕ
  pub endchar : Option ℕ
  pub boost : B

abbrev pub option_eq : Option ℕ → Option ℕ → Bool
option_eq none none = true
option_eq (some a) (some b) = a == b
option_eq _ _ = false

-- The smaller, or the larger, of two positions that may be missing.
abbrev pub min_char : Option ℕ → Option ℕ → Option ℕ
min_char none b = b
min_char (some a) none = some a
min_char (some a) (some b) = some (min a b)

abbrev pub max_char : Option ℕ → Option ℕ → Option ℕ
max_char none b = b
max_char (some a) none = some a
max_char (some a) (some b) = some (max a b)

module _ {B : Type 0} where
  pub same_span : Span B → Span B → Bool
  same_span a b =
      a.start == b.start
      && (a.end == b.end && (option_eq a.startchar b.startchar && option_eq a.endchar b.endchar))

  pub overlaps : Span B → Span B → Bool
  overlaps a b =
      (leb b.start a.start && leb a.start b.end)
      || ((leb b.start a.end && leb a.end b.end)
          || ((leb a.start b.start && leb b.start a.end) || (leb a.start b.end && leb b.end a.end)))

  pub surrounds : Span B → Span B → Bool
  surrounds a b = ltb a.start b.start && ltb b.end a.end

  pub is_within : Span B → Span B → Bool
  is_within a b = leb b.start a.start && leb a.end b.end

  pub is_before : Span B → Span B → Bool
  is_before a b = ltb a.end b.start

  pub is_after : Span B → Span B → Bool
  is_after a b = ltb b.end a.start

  -- `self.end == span.start - 1`, where the right side may be -1.
  pub touches : Span B → Span B → Bool
  touches a b = a.start == b.end + 1 || a.end + 1 == b.start

  pub distance_to : Span B → Span B → ℕ
  unfolding overlaps is_before
  distance_to a b =
      if overlaps a b then 0 else if is_before a b then b.start - a.end else a.start - b.end

  pub bisect_loop : ℕ → List (Span B) → ℕ → ℕ → ℕ → Result ℕ
  bisect_loop zero spans start lo hi = err stuck
  bisect_loop (suc fuel) spans start lo hi =
      let mid = (lo + hi) / 2 in
      let upper = bisect_loop fuel spans start (mid + 1) hi in
      let lower = bisect_loop fuel spans start lo mid in
      if ltb lo hi
      then (do span ← index spans mid; if ltb span.start start then upper else lower)
      else ok lo

  pub bisect_spans : List (Span B) → ℕ → Result ℕ
  unfolding bisect_loop
  bisect_spans spans start = bisect_loop (suc (length spans)) spans start 0 (length spans)

  module _ (one : B) where
    -- The constructor; `new_point` is the call without an end.
    pub new_span : ℕ → ℕ → Option ℕ → Option ℕ → Result (Span B)
    new_span start end startchar endchar =
        if leb start end
        then ok (record {
          start = start;
          end = end;
          startchar = startchar;
          endchar = endchar;
          boost = one;
        })
        else err assertion_error

    pub new_point : ℕ → Result (Span B)
    unfolding new_span
    new_point start = new_span start start none none

    pub to : Span B → Span B → Result (Span B)
    unfolding new_span
    to a b =
        new_span (min a.start b.start) (max a.end b.end) (min_char a.startchar b.startchar)
          (max_char a.endchar b.endchar)

    -- The inner loop of merge, over the spans behind `here`: what `here` has become, and the spans
    -- that are left behind it.
    pub absorb : Span B → List (Span B) → Result (Span B × List (Span B))
    unfolding touches overlaps to
    absorb here [] = ok (here, [])
    absorb here (there ∷ rest) =
        let kept = (do (here', rest') ← absorb here rest; ok (here', there ∷ rest')) in
        let merged = (do here' ← to here there; absorb here' rest) in
        if ltb (here.end + 1) there.start
        then ok (here, there ∷ rest)
        else if touches here there || overlaps here there
        then merged
        else kept

    -- The outer loop takes at most one step for each span.
    pub merge_loop : ℕ → List (Span B) → Result (List (Span B))
    unfolding absorb
    merge_loop zero spans = ok spans
    merge_loop (suc steps) [] = ok []
    merge_loop (suc steps) (here ∷ spans) = do
      (here', spans') ← absorb here spans
      rest ← merge_loop steps spans'
      ok (here' ∷ rest)

    pub merge : List (Span B) → Result (List (Span B))
    unfolding merge_loop
    merge spans = merge_loop (length spans) spans
