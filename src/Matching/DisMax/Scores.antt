-- ===== src/Matching/DisMax/Scores.antt =====
-- The score of a DisjunctionMaxMatcher: where it is that of the current document, and where not.
use whooshy.Common.{
  ℕ, min, ◌<◌, ◌≡◌, refl, sym, ◌∙◌, none, some, Option, List, [], ◌∷◌, arith, inl, inr, List-cases,
}
use whooshy.Common.Result.{Result, ok, ◌>>=◌}
use whooshy.Matching.Postings.{find, find_before}
use whooshy.Matching.Postings.Union.{union, nil-union, union-nil, union_cases}
use whooshy.Matching.Interface.{Matcher, Spec, Reads, Implements}
use whooshy.Matching.Intersection.{Aligned}
use whooshy.Matching.Union.{UnionMatcher, Caches, IsUnion, union_spec, union_id}
use whooshy.Matching.DisMax.{dismax_score}

module _ {A B W : Type 0} (larger : W → W → W) {ma : Matcher A W} {mb : Matcher B W} {sa : Spec A W}
    {sb : Spec B W} (ia : Implements ma sa) (ib : Implements mb sb) where
  union_before :
      (x : ℕ × W) (xs : List (ℕ × W)) (y : ℕ × W) (ys : List (ℕ × W))
      → x.0 < y.0
      → union larger (x ∷ xs) (y ∷ ys) ≡ x ∷ union larger xs (y ∷ ys)
  union_before x xs y ys h = elim (union_cases larger x xs y ys) [
    | inl (lt, u) ↦ u
    | inr (inl (eq, u)) ↦ absurd (omega (arith, eq))
    | inr (inr (gt, u)) ↦ absurd (omega arith)
  ]

  kept :
      (s : UnionMatcher A B) (a : A) (b : B)
      → IsUnion larger sa sb s
      → sa.IsValid a
      → sb.IsValid b
      → sa.view a ≡ sa.view s.a
      → sb.view b ≡ sb.view s.b
      → IsUnion larger sa sb (record { a = a; b = b; cached = s.cached })
  kept s a b v va vb wa wb = record { left = va; right = vb; cache = rw (wa, wb) v.cache }

  -- Over two matchers that do what the interface promises: in a valid state that is not at its end,
  -- where the two sides stand at the same document or one of them is exhausted, `score` returns the
  -- score of the first posting of the union that takes the larger of two scores, and changes
  -- nothing that can be seen.
  pub dismax_score-Aligned :
      (s : UnionMatcher A B) (p : ℕ × W) (ps : List (ℕ × W))
      → IsUnion larger sa sb s
      → Aligned (sa.view s.a) (sb.view s.b)
      → union larger (sa.view s.a) (sb.view s.b) ≡ p ∷ ps
      → Reads (union_spec larger sa sb) (dismax_score larger ma mb s) p.1 (p ∷ ps)
  unfolding dismax_score
  dismax_score-Aligned s p ps v same e = elim (List-cases (sa.view s.a)) [
    | inl wa ↦ elim (List-cases (sb.view s.b)) [
      | inl wb ↦
          let no : [] ≡ p ∷ ps = sym (nil-union larger []) ∙ (rw (wa, wb) at e) in absurd (cc no)
      | inr (y, ys, wb) ↦
          let (b', eb, vb, wb') = ib.score_lem s.b y ys v.right wb in
          let e' : y ∷ ys ≡ p ∷ ps = sym (nil-union larger (y ∷ ys)) ∙ (rw (wa, wb) at e) in
          let d : y.1 ≡ p.1 = cc e' in
          rw (ia.active s.a v.left, wa, eb)
            (_, rw d refl, kept s s.a b' v v.left vb refl (wb' ∙ sym wb), rw (wb', ← wb) e)
    ]
    | inr (x, xs, wa) ↦
        let (a', ea, va, wa') = ia.score_lem s.a x xs v.left wa in
        elim (List-cases (sb.view s.b)) [
          | inl wb ↦
              let e' : x ∷ xs ≡ p ∷ ps = sym (union-nil larger (x ∷ xs)) ∙ (rw (wa, wb) at e) in
              let d : x.1 ≡ p.1 = cc e' in
              rw (ia.active s.a v.left, wa, ib.active s.b v.right, wb, ea)
                (_, rw d refl, kept s a' s.b v va v.right (wa' ∙ sym wa) refl, rw (wa', ← wa) e)
          | inr (y, ys, wb) ↦
              let (b', eb, vb, wb') = ib.score_lem s.b y ys v.right wb in
              let at_both : x.0 ≡ y.0 = rw (wa, wb) at same in
              let e' : union larger (x ∷ xs) (y ∷ ys) ≡ p ∷ ps = rw (wa, wb) at e in
              let d : larger x.1 y.1 ≡ p.1 = both x xs y ys p ps at_both e' in
              rw (ia.active s.a v.left, wa, ib.active s.b v.right, wb, ea, eb)
                (_, rw d refl, kept s a' b' v va vb (wa' ∙ sym wa) (wb' ∙ sym wb), rw (wa', wb') e')
        ]
  ]
    where
      both :
          (x : ℕ × W) (xs : List (ℕ × W)) (y : ℕ × W) (ys : List (ℕ × W)) (p : ℕ × W)
          (ps : List (ℕ × W))
          → x.0 ≡ y.0
          → union larger (x ∷ xs) (y ∷ ys) ≡ p ∷ ps
          → larger x.1 y.1 ≡ p.1
      both x xs y ys p ps same e = elim (union_cases larger x xs y ys) [
        | inl (lt, u) ↦ absurd (omega (arith, same))
        | inr (inl (eq, u)) ↦ cc (u, e)
        | inr (inr (gt, u)) ↦ absurd (omega (arith, same))
      ]

  score_pair :
      (s : UnionMatcher A B) (x : ℕ × W) (xs : List (ℕ × W)) (y : ℕ × W) (ys : List (ℕ × W))
      → sa.IsValid s.a
      → sb.IsValid s.b
      → sa.view s.a ≡ x ∷ xs
      → sb.view s.b ≡ y ∷ ys
      → (s' : UnionMatcher A B) × (dismax_score larger ma mb s ≡ ok (larger x.1 y.1, s'))
  unfolding dismax_score
  score_pair s x xs y ys va vb wa wb =
      let (a', ea, va', wa') = ia.score_lem s.a x xs va wa in
      let (b', eb, vb', wb') = ib.score_lem s.b y ys vb wb in
      rw (ia.active s.a va, wa, ib.active s.b vb, wb, ea, eb) (_, refl)

  id_pair :
      (a : A) (b : B) (c : Option ℕ) (x : ℕ × W) (xs : List (ℕ × W)) (y : ℕ × W) (ys : List (ℕ × W))
      → sa.IsValid a
      → sb.IsValid b
      → sa.view a ≡ x ∷ xs
      → sb.view b ≡ y ∷ ys
      → x.0 < y.0
      → Caches c (union larger (x ∷ xs) (y ∷ ys))
      → (s' : UnionMatcher A B) × (union_id larger ma mb (record { a = a; b = b; cached = c })
          ≡ ok (x.0, s'))
        × sa.IsValid s'.a
        × sb.IsValid s'.b
        × (sa.view s'.a ≡ x ∷ xs)
        × (sb.view s'.b ≡ y ∷ ys)
  unfolding union_id
  id_pair a b (some d) x xs y ys va vb wa wb before cache =
      let e : d ≡ x.0 = rw (union_before x xs y ys before) at cache in
      (record { a = a; b = b; cached = some d }, rw e refl, va, vb, wa, wb)
  id_pair a b none x xs y ys va vb wa wb before cache =
      let (a', ea, va', wa') = ia.id_lem a x xs va wa in
      let (b', eb, vb', wb') = ib.id_lem b y ys vb wb in
      let least : min x.0 y.0 ≡ x.0 = omega arith in
      rw (ia.active a va, wa, ib.active b vb, wb, ea, eb, least) (_, refl, va', vb', wa', wb')

  -- The document number and the score that one call each of `id` and `score` return.
  pub current : UnionMatcher A B → Result (ℕ × W)
  current s = do (d, s1) ← union_id larger ma mb s; (w, _) ← dismax_score larger ma mb s1; ok (d, w)

  -- Over two matchers that do what the interface promises: in a valid state where the left side
  -- stands at a smaller document than the right one, the matcher is at the left side's document,
  -- which the right side does not have, but its score is the larger of the scores of two different
  -- documents.
  pub dismax_score_mixes :
      (s : UnionMatcher A B) (x : ℕ × W) (xs : List (ℕ × W)) (y : ℕ × W) (ys : List (ℕ × W))
      → IsUnion larger sa sb s
      → sa.view s.a ≡ x ∷ xs
      → sb.view s.b ≡ y ∷ ys
      → x.0 < y.0
      → (current s ≡ ok (x.0, larger x.1 y.1)) × (find x.0 (sb.view s.b) ≡ none)
  unfolding current
  dismax_score_mixes s x xs y ys v wa wb before =
      let (s1, e1, va, vb, wa1, wb1) =
        id_pair s.a s.b s.cached x xs y ys v.left v.right wa wb before (rw (wa, wb) at v.cache) in
      let (s2, e2) = score_pair s1 x xs y ys va vb wa1 wb1 in
      (rw (e1, e2) refl, rw wb (find_before x.0 y ys (rw wb at (ib.sorted s.b v.right)) before))
