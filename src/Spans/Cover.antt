-- ===== src/Spans/Cover.antt =====
-- Span.merge: the positions that the merged spans cover, and the gaps between them.
use whooshy.Common.{
  ℕ, zero, suc, ◌+◌, ◌≤◌, ◌<◌, ◌≡◌, refl, ◌∙◌, ap, Bool, true, false, ◌&&◌, ◌||◌, List, [], ◌∷◌,
  length, ltb, leb, min, max, arith, Bool-cases, inl, inr,
}
use whooshy.Common.Result.{ok}
use whooshy.Spans.{
  Span, min_char, max_char, overlaps, touches, new_span, to, absorb, merge_loop, merge,
}

module _ {B : Type 0} where
  abbrev pub within : ℕ → Span B → Bool
  within p s = leb s.start p && leb p s.end

  -- Whether a position lies in one of the spans.
  abbrev pub covered : ℕ → List (Span B) → Bool
  covered p [] = false
  covered p (s ∷ spans) = within p s || covered p spans

  -- Each span starts no later than it ends, as the constructor asserts.
  abbrev pub Proper : List (Span B) → Type 0
  Proper [] = Unit
  Proper (s ∷ spans) = (s.start ≤ s.end) × Proper spans

  abbrev pub Sorted : ℕ → List (Span B) → Type 0
  Sorted lo [] = Unit
  Sorted lo (s ∷ spans) = (lo ≤ s.start) × Sorted s.start spans

  abbrev pub Beyond : ℕ → List (Span B) → Type 0
  Beyond lo [] = Unit
  Beyond lo (s ∷ spans) = lo < s.start

  -- Each span begins at least two positions behind the end of the one before it.
  abbrev pub Separate : List (Span B) → Type 0
  Separate [] = Unit
  Separate (s ∷ spans) = Beyond (s.end + 1) spans × Separate spans

  Sorted-le : (lo lo' : ℕ) (spans : List (Span B)) → lo ≤ lo' → Sorted lo' spans → Sorted lo spans
  Sorted-le lo lo' [] h s = tt
  Sorted-le lo lo' (x ∷ spans) h s = (omega (arith, s.0), s.1)

  module _ (one : B) where
    joined : Span B → Span B → Span B
    joined a b = record {
      start = min a.start b.start;
      end = max a.end b.end;
      startchar = min_char a.startchar b.startchar;
      endchar = max_char a.endchar b.endchar;
      boost = one;
    }

    to-joined : (a b : Span B) → a.start ≤ a.end → to one a b ≡ ok (joined a b)
    unfolding to new_span joined
    to-joined a b h =
        let fits : leb (min a.start b.start) (max a.end b.end) ≡ true = ground arith in rw fits refl

    within-joined :
        (p : ℕ) (a b : Span B)
        → a.start ≤ a.end
        → b.start ≤ b.end
        → (touches a b || overlaps a b) ≡ true
        → within p (joined a b) ≡ (within p a || within p b)
    unfolding joined touches overlaps
    within-joined p a b ha hb h = ground (arith, h)

    joined-proper : (a b : Span B) → a.start ≤ a.end → (joined a b).start ≤ (joined a b).end
    unfolding joined
    joined-proper a b h = ground arith

    joined-start : (a b : Span B) → a.start ≤ b.start → (joined a b).start ≡ a.start
    unfolding joined
    joined-start a b h = ground arith

    -- A span that starts no later than `there` and ends close to it touches or overlaps it.
    sorted_meets :
        (here there : Span B)
        → here.start ≤ here.end
        → there.start ≤ there.end
        → here.start ≤ there.start
        → ltb (here.end + 1) there.start ≡ false
        → (touches here there || overlaps here there) ≡ false
        → ⊥
    unfolding touches overlaps
    sorted_meets here there h t s near beside = ground (arith, near, beside)

    record Absorbed (here : Span B) (spans : List (Span B)) : Type 0 where
      here' : Span B
      spans' : List (Span B)
      runs : absorb one here spans ≡ ok (here', spans')
      proper : (here'.start ≤ here'.end) × Proper spans'
      shorter : length spans' ≤ length spans
      same : (p : ℕ) → covered p (here' ∷ spans') ≡ covered p (here ∷ spans)
      apart :
          Sorted here.start spans
          → (here'.start ≡ here.start) × Sorted here.start spans' × Beyond (here'.end + 1) spans'

    absorb-Absorbed :
        (here : Span B) (spans : List (Span B))
        → here.start ≤ here.end
        → Proper spans
        → Absorbed here spans
    unfolding absorb
    absorb-Absorbed here [] h ps = record {
      here' = here;
      spans' = [];
      runs = refl;
      proper = (h, tt);
      shorter = omega arith;
      same = λ p. refl;
      apart = λ s. (refl, tt, tt);
    }
    absorb-Absorbed here (there ∷ rest) h ps = elim (Bool-cases (ltb (here.end + 1) there.start)) [
      | inl far ↦ record {
        here' = here;
        spans' = there ∷ rest;
        runs = rw far refl;
        proper = (h, ps);
        shorter = omega arith;
        same = λ p. refl;
        apart = λ s. (refl, s, ground (arith, far));
      }
      | inr near ↦ elim (Bool-cases (touches here there || overlaps here there)) [
        | inl meets ↦
            (let a = absorb-Absorbed (joined here there) rest (joined-proper here there h) ps.1 in
              record {
                here' = a.here';
                spans' = a.spans';
                runs = rw (near, meets, to-joined here there h) a.runs;
                proper = a.proper;
                shorter = omega (arith, a.shorter);
                same = λ p. a.same p ∙ rw (within-joined p here there h ps.0 meets) (ground arith);
                apart = λ s.
                    let same_start : (joined here there).start ≡ here.start =
                      joined-start here there s.0 in
                    let (e, sorted, far) =
                      a.apart (rw same_start (Sorted-le here.start there.start rest s.0 s.1)) in
                    (e ∙ same_start, rw same_start at sorted, far);
              })
        | inr beside ↦
            (let a = absorb-Absorbed here rest h ps.1 in
              record {
                here' = a.here';
                spans' = there ∷ a.spans';
                runs = rw (near, beside, a.runs) refl;
                proper = (a.proper.0, (ps.0, a.proper.1));
                shorter = omega (arith, a.shorter);
                same = λ p. let q = a.same p in ground (arith, q);
                apart = λ s. absurd (sorted_meets here there h ps.0 s.0 near beside);
              })
      ]
    ]

    -- The outer loop.
    merge_loop-Merged :
        (steps : ℕ) (spans : List (Span B))
        → length spans ≤ steps
        → Proper spans
        → (r : List (Span B)) × (merge_loop one steps spans ≡ ok r)
          × Proper r
          × ((p : ℕ) → covered p r ≡ covered p spans)
          × ((lo : ℕ) → Sorted lo spans → Separate r × ((b : ℕ) → Beyond b spans → Beyond b r))
    unfolding merge_loop
    merge_loop-Merged zero [] h ps = ([], refl, tt, λ p. refl, λ lo s. (tt, λ b h. h))
    merge_loop-Merged zero (x ∷ spans) h ps = absurd (omega arith)
    merge_loop-Merged (suc steps) [] h ps = ([], refl, tt, λ p. refl, λ lo s. (tt, λ b h. h))
    merge_loop-Merged (suc steps) (here ∷ spans) h ps =
        let a = absorb-Absorbed here spans ps.0 ps.1 in
        let (r, e, proper, same, apart) =
          merge_loop-Merged steps a.spans' (omega (arith, a.shorter)) a.proper.1 in
        (
          a.here' ∷ r,
          rw (a.runs, e) refl,
          (a.proper.0, proper),
          λ p. ap (λ b. within p a.here' || b) (same p) ∙ a.same p,
          λ lo s.
              let (e', sorted, far) = a.apart s.1 in
              let (separate, beyond) = apart here.start sorted in
              ((beyond (a.here'.end + 1) far, separate), λ b h. rw e' h),
        )

    -- On spans that start no later than they end, merge returns spans of that kind which cover the same
    -- positions; where the spans are sorted by their starts, each returned one begins at least two
    -- positions behind the end of the one before it.
    pub merge-covered :
        (spans : List (Span B))
        → Proper spans
        → (r : List (Span B)) × (merge one spans ≡ ok r)
          × Proper r
          × ((p : ℕ) → covered p r ≡ covered p spans)
          × (Sorted 0 spans → Separate r)
    unfolding merge
    merge-covered spans ps =
        let (r, e, proper, same, apart) = merge_loop-Merged (length spans) spans (omega arith) ps in
        (r, e, proper, same, λ s. (apart 0 s).0)
