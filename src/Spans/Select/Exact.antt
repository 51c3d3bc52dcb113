-- ===== src/Spans/Select/Exact.antt =====
-- The loops of SpanNear and SpanContains stop early: over sorted spans nothing is lost by that.
use whooshy.Common.{
  ℕ, ◌+◌, ◌-◌, ◌≤◌, ◌<◌, ◌≡◌, refl, sym, Bool, true, false, not, ◌&&◌, ◌||◌, List, [], ◌∷◌,
  if◌then◌else◌, ltb, leb, arith, Bool-cases, inl, inr,
}
use whooshy.Spans.{Span, overlaps, is_before, is_within, distance_to}
use whooshy.Spans.Cover.{Proper, Sorted}
use whooshy.Spans.Select.{near_hits, contains_one, contains_spans}

module _ {B : Type 0} where
  abbrev pub keep : (Span B → Bool) → List (Span B) → List (Span B)
  keep f [] = []
  keep f (s ∷ spans) = let rest = keep f spans in if f s then s ∷ rest else rest

  abbrev pub any_span : (Span B → Bool) → List (Span B) → Bool
  any_span f [] = false
  any_span f (s ∷ spans) = f s || any_span f spans

  -- What SpanNear is about, without the tests that only save time.
  pub near : ℕ → ℕ → Bool → Span B → Span B → Bool
  near slop mindist ordered a b =
      not (ordered && ltb b.start a.start)
      && (leb mindist (distance_to a b) && leb (distance_to a b) slop)

  distance_ahead :
      (a b : Span B)
      → a.start ≤ a.end
      → b.start ≤ b.end
      → a.end < b.start
      → distance_to a b ≡ b.start - a.end
  unfolding distance_to overlaps is_before
  distance_ahead a b ha hb h = ground arith

  distance_behind :
      (a b : Span B)
      → a.start ≤ a.end
      → b.start ≤ b.end
      → b.end < a.start
      → distance_to a b ≡ a.start - b.end
  unfolding distance_to overlaps is_before
  distance_behind a b ha hb h = ground arith

  too_far :
      (slop mindist : ℕ) (ordered : Bool) (a b : Span B)
      → a.start ≤ a.end
      → b.start ≤ b.end
      → ltb (a.end + slop) b.start ≡ true
      → near slop mindist ordered a b ≡ false
  unfolding near
  too_far slop mindist ordered a b ha h far =
      let d = distance_ahead a b ha h (ground (arith, far)) in rw d (ground (arith, far))

  too_early :
      (slop mindist : ℕ) (ordered : Bool) (a b : Span B)
      → a.start ≤ a.end
      → b.start ≤ b.end
      → (ltb (b.end + slop) a.start || (ordered && ltb b.start a.start)) ≡ true
      → near slop mindist ordered a b ≡ false
  unfolding near
  too_early slop mindist ordered a b ha h early = elim (Bool-cases (ltb (b.end + slop) a.start)) [
    | inl apart ↦
        let d = distance_behind a b ha h (ground (arith, apart)) in rw d (ground (arith, apart))
    | inr close ↦ let behind = rw close at early in rw behind refl
  ]

  keep_none :
      (slop mindist : ℕ) (ordered : Bool) (a : Span B) (lo : ℕ) (spans : List (Span B))
      → a.start ≤ a.end
      → Proper spans
      → Sorted lo spans
      → a.end + slop < lo
      → keep (near slop mindist ordered a) spans ≡ []
  keep_none slop mindist ordered a lo [] ha p s h = refl
  keep_none slop mindist ordered a lo (b ∷ spans) ha p s h =
      let out = too_far slop mindist ordered a b ha p.0 (ground (arith, s.0)) in
      rw out (keep_none slop mindist ordered a b.start spans ha p.1 s.1 (omega (arith, s.0)))

  same_test :
      (slop mindist : ℕ) (ordered : Bool) (a b : Span B)
      → (ltb (b.end + slop) a.start || (ordered && ltb b.start a.start)) ≡ false
      → near slop mindist ordered a b
        ≡ (leb mindist (distance_to a b) && leb (distance_to a b) slop)
  unfolding near
  same_test slop mindist ordered a b h =
      let late : (ordered && ltb b.start a.start) ≡ false = ground (arith, h) in rw late refl

  -- Over spans that start no later than they end and are sorted by their starts, the inner loop of
  -- SpanNear finds, in order, exactly the spans whose distance to the first side's span is from mindist
  -- to slop and which, in an ordered query, do not start before it.
  pub near_hits-keep :
      (slop mindist : ℕ) (ordered : Bool) (a : Span B) (lo : ℕ) (spans : List (Span B))
      → a.start ≤ a.end
      → Proper spans
      → Sorted lo spans
      → near_hits slop mindist ordered a spans ≡ keep (near slop mindist ordered a) spans
  unfolding near_hits
  near_hits-keep slop mindist ordered a lo [] h p s = refl
  near_hits-keep slop mindist ordered a lo (b ∷ spans) h p s =
      let rest = near_hits-keep slop mindist ordered a b.start spans h p.1 s.1 in
      elim (Bool-cases (ltb (b.end + slop) a.start || (ordered && ltb b.start a.start))) [
        | inl early ↦ rw (early, too_early slop mindist ordered a b h p.0 early) rest
        | inr on_time ↦ elim (Bool-cases (ltb (a.end + slop) b.start)) [
          | inl far ↦
              rw (on_time, far, too_far slop mindist ordered a b h p.0 far)
                (sym
                  (keep_none slop mindist ordered a b.start spans h p.1 s.1 (ground (arith, far))))
          | inr close ↦
              let found = same_test slop mindist ordered a b on_time in
              rw (on_time, close, rest, found) refl
        ]
      ]

  none_within :
      (a : Span B) (lo : ℕ) (spans : List (Span B))
      → Proper spans
      → Sorted lo spans
      → a.end < lo
      → any_span (λ b. is_within b a) spans ≡ false
  unfolding is_within
  none_within a lo [] p s h = refl
  none_within a lo (b ∷ spans) p s h =
      rw (none_within a b.start spans p.1 s.1 (omega (arith, s.0))) (ground (arith, s.0, p.0))

  contains_one-any :
      (a : Span B) (lo : ℕ) (spans : List (Span B))
      → Proper spans
      → Sorted lo spans
      → contains_one a spans ≡ any_span (λ b. is_within b a) spans
  unfolding contains_one is_within
  contains_one-any a lo [] p s = refl
  contains_one-any a lo (b ∷ spans) p s =
      let rest = contains_one-any a b.start spans p.1 s.1 in
      elim (Bool-cases (ltb a.end b.start)) [
        | inl far ↦
            let out =
              none_within a b.start (b ∷ spans) p (omega arith, s.1) (ground (arith, far)) in
            let later = none_within a b.start spans p.1 s.1 (ground (arith, far)) in
            rw (out, rest, later) (ground (arith, far))
        | inr near_enough ↦ rw rest (ground (arith, p.0, near_enough))
      ]

  -- Where the spans of the second side are sorted, SpanContains keeps, in order, exactly the spans of
  -- the first side that a span of the second side lies within.
  pub contains_spans-keep :
      (aspans : List (Span B)) (lo : ℕ) (bspans : List (Span B))
      → Proper bspans
      → Sorted lo bspans
      → contains_spans aspans bspans ≡ keep (λ a. any_span (λ b. is_within b a) bspans) aspans
  unfolding contains_spans
  contains_spans-keep [] lo bspans p s = refl
  contains_spans-keep (a ∷ aspans) lo bspans p s =
      rw (contains_one-any a lo bspans p s, contains_spans-keep aspans lo bspans p s) refl
