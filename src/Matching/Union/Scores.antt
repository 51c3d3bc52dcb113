-- ===== src/Matching/Union/Scores.antt =====
-- `score` of a UnionMatcher.
use whooshy.Common.{
  ℕ, ◌≡◌, sym, ◌∙◌, Option, List, ◌∷◌, arith, inl, inr, List-cases, le→ltb, lt→ltb,
}
use whooshy.Matching.Postings.Union.{union, union_cases}
use whooshy.Matching.Interface.{Matcher, Spec, Reads, Implements}
use whooshy.Matching.Union.{UnionMatcher, Caches, IsUnion, union_score, union_spec}
use whooshy.Matching.Union.Sides.{neither, left_only, right_only}

module _ {A B W : Type 0} (add : W → W → W) {ma : Matcher A W} {mb : Matcher B W} {sa : Spec A W}
    {sb : Spec B W} (ia : Implements ma sa) (ib : Implements mb sb) where
  pub score-first :
      (s : UnionMatcher A B) (p : ℕ × W) (ps : List (ℕ × W))
      → IsUnion add sa sb s
      → union add (sa.view s.a) (sb.view s.b) ≡ p ∷ ps
      → Reads (union_spec add sa sb) (union_score add ma mb s) p.1 (p ∷ ps)
  unfolding union_score
  score-first s p ps v e = elim (List-cases (sa.view s.a)) [
    | inl wa ↦ elim (List-cases (sb.view s.b)) [
      | inl wb ↦ absurd (neither add wa wb e)
      | inr (y, ys, wb) ↦
          let (b1, eb, vb, wb1) = ib.score_lem s.b y ys v.right wb in
          let e' : y ∷ ys ≡ p ∷ ps = cc (right_only add wa wb, e) in
          let w : union add (sa.view s.a) (sb.view b1) ≡ p ∷ ps = right_only add wa wb1 ∙ e' in
          let d : y.1 ≡ p.1 = cc e' in
          rw (ia.active s.a v.left, wa, eb)
            (_, rw d, kept s.a b1 s.cached v.left vb (w ∙ sym e) v.cache, w)
    ]
    | inr (x, xs, wa) ↦ elim (List-cases (sb.view s.b)) [
      | inl wb ↦
          let (a1, ea, va, wa1) = ia.score_lem s.a x xs v.left wa in
          let e' : x ∷ xs ≡ p ∷ ps = cc (left_only add wa wb, e) in
          let w : union add (sa.view a1) (sb.view s.b) ≡ p ∷ ps = left_only add wa1 wb ∙ e' in
          let d : x.1 ≡ p.1 = cc e' in
          rw (ia.active s.a v.left, wa, ib.active s.b v.right, wb, ea)
            (_, rw d, kept a1 s.b s.cached va v.right (w ∙ sym e) v.cache, w)
      | inr (y, ys, wb) ↦
          let (a1, ea1, va1, wa1) = ia.id_lem s.a x xs v.left wa in
          let (b1, eb1, vb1, wb1) = ib.id_lem s.b y ys v.right wb in
          let (a2, ea2, va2, wa2) = ia.score_lem a1 x xs va1 wa1 in
          let (b2, eb2, vb2, wb2) = ib.score_lem b1 y ys vb1 wb1 in
          let e' : union add (x ∷ xs) (y ∷ ys) ≡ p ∷ ps = rw (wa, wb) at e in
          rw (ia.active s.a v.left, wa, ib.active s.b v.right, wb, ea1, eb1)
            (elim (union_cases add x xs y ys) [
              | inl (lt, u) ↦
                  let w : union add (sa.view a2) (sb.view b1) ≡ p ∷ ps = rw (wa2, wb1) e' in
                  let d : x.1 ≡ p.1 = cc (u, e') in
                  rw (lt→ltb x.0 y.0 lt, ea2)
                    (_, rw d, kept a2 b1 s.cached va2 vb1 (w ∙ sym e) v.cache, w)
              | inr (inl (eq, u)) ↦
                  let w : union add (sa.view a2) (sb.view b2) ≡ p ∷ ps = rw (wa2, wb2) e' in
                  let d : add x.1 y.1 ≡ p.1 = cc (u, e') in
                  rw (le→ltb x.0 y.0 (omega arith), le→ltb y.0 x.0 (omega arith), ea2, eb2)
                    (_, rw d, kept a2 b2 s.cached va2 vb2 (w ∙ sym e) v.cache, w)
              | inr (inr (gt, u)) ↦
                  let w : union add (sa.view a1) (sb.view b2) ≡ p ∷ ps = rw (wa1, wb2) e' in
                  let d : y.1 ≡ p.1 = cc (u, e') in
                  rw (le→ltb x.0 y.0 (omega arith), lt→ltb y.0 x.0 gt, eb2)
                    (_, rw d, kept a1 b2 s.cached va1 vb2 (w ∙ sym e) v.cache, w)
            ])
    ]
  ]
    where
      kept :
          (a : A) (b : B) (c : Option ℕ)
          → sa.IsValid a
          → sb.IsValid b
          → union add (sa.view a) (sb.view b) ≡ union add (sa.view s.a) (sb.view s.b)
          → Caches c (union add (sa.view s.a) (sb.view s.b))
          → IsUnion add sa sb (record { a = a; b = b; cached = c })
      kept a b c va vb w h = record { left = va; right = vb; cache = rw w h }
