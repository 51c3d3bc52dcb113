-- ===== src/Spans/Select.antt =====
-- src/whoosh/query/spans.py: the methods _get_spans of the span matchers, over the lists of spans of
-- their sub-matchers at the current document.
pub mod Exact
use whooshy.Common.{
  ℕ, zero, suc, ◌+◌, ◌-◌, Bool, true, false, not, ◌&&◌, ◌||◌, Option, none, some, List, [], ◌∷◌,
  ◌++◌, if◌then◌else◌, ◌==◌, ltb, leb, max, min,
}
use whooshy.Common.Result.{Result, ok, err, value_error, ◌>>=◌}
use whooshy.Spans.{Span, same_span, overlaps, is_within, distance_to, to, merge, bisect_spans}

module _ {B : Type 0} where
  -- SpanFirst
  pub first_spans : ℕ → List (Span B) → List (Span B)
  first_spans limit [] = []
  first_spans limit (span ∷ spans) =
      let rest = first_spans limit spans in if leb span.end limit then span ∷ rest else rest

  -- `sorted`, by the starts.
  pub insert_span : Span B → List (Span B) → List (Span B)
  insert_span span [] = span ∷ []
  insert_span span (s ∷ spans) =
      let rest = insert_span span spans in
      if ltb span.start s.start then span ∷ s ∷ spans else s ∷ rest

  pub sort_spans : List (Span B) → List (Span B)
  unfolding insert_span
  sort_spans [] = []
  sort_spans (span ∷ spans) = insert_span span (sort_spans spans)

  -- `add` of a set of spans.
  pub has_span : Span B → List (Span B) → Bool
  has_span span [] = false
  has_span span (s ∷ spans) = same_span span s || has_span span spans

  pub include_span : Span B → List (Span B) → List (Span B)
  unfolding has_span
  include_span span spans = if has_span span spans then spans else spans ++ span ∷ []

  -- The settings of SpanNear and SpanNear2. The inner loop, up to the spans that are added.
  pub near_hits : ℕ → ℕ → Bool → Span B → List (Span B) → List (Span B)
  near_hits slop mindist ordered aspan [] = []
  near_hits slop mindist ordered aspan (bspan ∷ bspans) =
      let rest = near_hits slop mindist ordered aspan bspans in
      let dist = distance_to aspan bspan in
      if ltb (bspan.end + slop) aspan.start || (ordered && ltb bspan.start aspan.start)
      then rest
      else if ltb (aspan.end + slop) bspan.start
      then []
      else if leb mindist dist && leb dist slop
      then bspan ∷ rest
      else rest

  -- SpanNot, at a document that both sides have.
  pub overlaps_any : Span B → List (Span B) → Bool
  overlaps_any aspan [] = false
  overlaps_any aspan (bspan ∷ bspans) =
      let rest = overlaps_any aspan bspans in if overlaps aspan bspan then true else rest

  pub not_spans : List (Span B) → List (Span B) → List (Span B)
  unfolding overlaps_any
  not_spans [] bspans = []
  not_spans (aspan ∷ aspans) bspans =
      let rest = not_spans aspans bspans in if overlaps_any aspan bspans then rest else aspan ∷ rest

  -- SpanContains
  pub contains_one : Span B → List (Span B) → Bool
  contains_one aspan [] = false
  contains_one aspan (bspan ∷ bspans) =
      let rest = contains_one aspan bspans in
      if ltb bspan.end aspan.start
      then rest
      else if ltb aspan.end bspan.start
      then false
      else if is_within bspan aspan
      then true
      else rest

  pub contains_spans : List (Span B) → List (Span B) → List (Span B)
  unfolding contains_one
  contains_spans [] bspans = []
  contains_spans (aspan ∷ aspans) bspans =
      let rest = contains_spans aspans bspans in
      if contains_one aspan bspans then aspan ∷ rest else rest

  -- SpanBefore: `min` of no spans raises.
  pub min_start : List (Span B) → Result ℕ
  min_start [] = err value_error
  min_start (span ∷ []) = ok span.start
  min_start (span ∷ s ∷ spans) = do rest ← min_start (s ∷ spans); ok (min span.start rest)

  pub ends_before : ℕ → List (Span B) → List (Span B)
  ends_before bminstart [] = []
  ends_before bminstart (aspan ∷ aspans) =
      let rest = ends_before bminstart aspans in
      if ltb aspan.end bminstart then aspan ∷ rest else rest

  pub before_spans : List (Span B) → List (Span B) → Result (List (Span B))
  unfolding min_start ends_before
  before_spans aspans bspans = do bminstart ← min_start bspans; ok (ends_before bminstart aspans)

  pub drop_spans : ℕ → List (Span B) → List (Span B)
  drop_spans zero spans = spans
  drop_spans (suc j) [] = []
  drop_spans (suc j) (span ∷ spans) = drop_spans j spans

  -- `set(self.a.spans()) | set(self.b.spans())`
  pub union_spans : List (Span B) → List (Span B) → List (Span B)
  unfolding include_span
  union_spans spans [] = spans
  union_spans spans (span ∷ more) = union_spans (include_span span spans) more

  module _ (one : B) where
    pub add_joined : Span B → List (Span B) → List (Span B) → Result (List (Span B))
    unfolding include_span
    add_joined aspan [] spans = ok spans
    add_joined aspan (bspan ∷ hits) spans = do
      s ← to one aspan bspan
      add_joined aspan hits (include_span s spans)

    -- SpanNear
    pub near_loop :
        ℕ → ℕ → Bool → List (Span B) → List (Span B) → List (Span B) → Result (List (Span B))
    unfolding near_hits add_joined
    near_loop slop mindist ordered [] bspans spans = ok spans
    near_loop slop mindist ordered (aspan ∷ aspans) bspans spans = do
      spans' ← add_joined aspan (near_hits slop mindist ordered aspan bspans) spans
      near_loop slop mindist ordered aspans bspans spans'

    pub near_spans : ℕ → ℕ → Bool → List (Span B) → List (Span B) → Result (List (Span B))
    unfolding near_loop sort_spans
    near_spans slop mindist ordered aspans bspans = do
      spans ← near_loop slop mindist ordered aspans bspans []
      ok (sort_spans spans)

    -- SpanNear2: the loops over the sub-matchers and over the spans so far.
    pub near2_loop :
        ℕ → ℕ → Bool → List (Span B) → List (Span B) → List (Span B) → Result (List (Span B))
    unfolding near_hits add_joined drop_spans
    near2_loop slop mindist ordered [] bspans spans = ok spans
    near2_loop slop mindist ordered (aspan ∷ aspans) bspans spans = do
      j ← bisect_spans bspans (if ordered then aspan.start else aspan.start - slop)
      spans' ← add_joined aspan (near_hits slop mindist ordered aspan (drop_spans j bspans)) spans
      near2_loop slop mindist ordered aspans bspans spans'

    pub near2_all : ℕ → ℕ → Bool → List (Span B) → List (List (Span B)) → Result (List (Span B))
    unfolding near2_loop sort_spans
    near2_all slop mindist ordered [] ms = ok []
    near2_all slop mindist ordered (a ∷ aspans) [] = ok (a ∷ aspans)
    near2_all slop mindist ordered (a ∷ aspans) (bspans ∷ ms) = do
      spans ← near2_loop slop mindist ordered (a ∷ aspans) bspans []
      near2_all slop mindist ordered (sort_spans spans) ms

    -- SpanOr, where both sides are active at the same document.
    pub or_spans : List (Span B) → List (Span B) → Result (List (Span B))
    unfolding union_spans sort_spans
    or_spans aspans bspans = merge one (sort_spans (union_spans (union_spans [] aspans) bspans))
