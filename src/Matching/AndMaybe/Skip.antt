-- ===== src/Matching/AndMaybe/Skip.antt =====
-- skip_to of an AndMaybeMatcher moves the second side to the document asked for, and not to the one
-- that the first side has reached.
use whooshy.Common.{
  ℕ, ◌<◌, ◌≡◌, refl, ◌∙◌, none, some, List, ◌∷◌, arith, inl, inr, List-cases, ne→==,
}
use whooshy.Common.Result.{Result, ok, ◌>>=◌}
use whooshy.Matching.Postings.{find, from, from-nil}
use whooshy.Matching.Postings.Select.{maybe, boosted, find-maybe}
use whooshy.Matching.Interface.{Matcher, Spec, Implements}
use whooshy.Matching.Intersection.{BiMatcher}
use whooshy.Matching.AndMaybe.{IsReached, and_maybe_skip_to, and_maybe_score}

module _ {A B W : Type 0} (add : W → W → W) {ma : Matcher A W} {mb : Matcher B W} {sa : Spec A W}
    {sb : Spec B W} (ia : Implements ma sa) (ib : Implements mb sb) where
  -- skip_to moves the first side to its first document from `t` on, and the second side too if the
  -- first is still active.
  pub and_maybe_skip_to-sides :
      (t : ℕ) (s : BiMatcher A B) (x : ℕ × W) (xs : List (ℕ × W)) (x' : ℕ × W) (xs' : List (ℕ × W))
      → IsReached add sa sb s
      → sa.view s.a ≡ x ∷ xs
      → from t (x ∷ xs) ≡ x' ∷ xs'
      → (s' : BiMatcher A B) × (and_maybe_skip_to add ma mb t s ≡ ok s')
        × sa.IsValid s'.a
        × sb.IsValid s'.b
        × (sa.view s'.a ≡ x' ∷ xs')
        × (sb.view s'.b ≡ from t (sb.view s.b))
  unfolding and_maybe_skip_to
  and_maybe_skip_to-sides t s x xs x' xs' v wa more =
      let (a1, ea, va, wa1) = ia.skip_to_lem t s.a x xs v.left wa in
      let wa2 : sa.view a1 ≡ x' ∷ xs' = wa1 ∙ more in
      elim (List-cases (sb.view s.b)) [
        | inl wb ↦
            rw (ia.active s.a v.left, wa, ea, ia.active a1 va, wa2, ib.active s.b v.right, wb)
              (_, refl, va, v.right, wa2, rw (wb, from-nil) refl)
        | inr (y, ys, wb) ↦
            let (b', eb, vb, wb') = ib.skip_to_lem t s.b y ys v.right wb in
            rw (ia.active s.a v.left, wa, ea, ia.active a1 va, wa2, ib.active s.b v.right, wb, eb)
              (_, refl, va, vb, wa2, wb')
      ]

  pub score_after : ℕ → BiMatcher A B → Result W
  score_after t s = do
    s' ← and_maybe_skip_to add ma mb t s
    (w, _) ← and_maybe_score add ma mb s'
    ok w

  -- Over two matchers that do what the interface promises: from a valid state, if the second side
  -- has a document from `t` on before the one that the first side reaches, and has that one too,
  -- the score after skip_to is the first side's alone, although the postings read have the sum
  -- there.
  pub and_maybe_skip_to_loses :
      (t : ℕ) (s : BiMatcher A B) (x : ℕ × W) (xs : List (ℕ × W)) (x' : ℕ × W) (xs' : List (ℕ × W))
      (y' : ℕ × W) (ys' : List (ℕ × W)) (w : W)
      → IsReached add sa sb s
      → sa.view s.a ≡ x ∷ xs
      → from t (x ∷ xs) ≡ x' ∷ xs'
      → from t (sb.view s.b) ≡ y' ∷ ys'
      → y'.0 < x'.0
      → find x'.0 ys' ≡ some w
      → (score_after t s ≡ ok x'.1)
        × (find x'.0 (maybe add (x' ∷ xs') (y' ∷ ys')) ≡ some (add x'.1 w))
  unfolding score_after and_maybe_score
  and_maybe_skip_to_loses t s x xs x' xs' y' ys' w v wa more later before found =
      let (s', es, va, vb, wa', wb') = and_maybe_skip_to-sides t s x xs x' xs' v wa more in
      let wb2 : sb.view s'.b ≡ y' ∷ ys' = wb' ∙ later in
      let (a1, ea1, va1, wa1) = ia.id_lem s'.a x' xs' va wa' in
      let (b1, eb1, vb1, wb1) = ib.id_lem s'.b y' ys' vb wb2 in
      let (a2, ea2, va2, wa2) = ia.score_lem a1 x' xs' va1 wa1 in
      (
        rw (es, ib.active s'.b vb, wb2, ea1, eb1, ne→== x'.0 y'.0 (omega arith), ea2),
        find-maybe add x'.0 (x' ∷ xs') (y' ∷ ys') (rw wa' at (ia.sorted s'.a va)) ∙ joined found,
      )
    where
      joined :
          find x'.0 ys' ≡ some w
          → (elim (find x'.0 (x' ∷ xs')) [ none ↦ none | some u ↦ boosted add (y' ∷ ys') x'.0 u ])
            ≡ some (add x'.1 w)
      joined f = unfold find in ground (arith, f)
