-- ===== src/Matching/AndNot/Methods.antt =====
-- An AndNotMatcher steps through the difference, once it has been brought to a valid state.
use whooshy.Common.{ℕ, ◌≡◌, refl, sym, ◌∙◌, none, List, [], ◌∷◌, arith, inl, inr, List-cases}
use whooshy.Matching.Postings.{nonempty, find}
use whooshy.Matching.Postings.Select.{
  select-IsSorted, length-select, minus, unmatched, nil-minus, minus_kept,
}
use whooshy.Matching.Interface.{Matcher, Spec, Moves, Reads, Steps, Implements}
use whooshy.Matching.Intersection.{BiMatcher}
use whooshy.Matching.AndNot.Cleared.{find_next-cleared}
use whooshy.Matching.AndNot.{
  IsCleared, and_not_is_active, and_not_id, and_not_next, and_not_score, and_not_matcher,
  and_not_spec,
}

module _ {A B W : Type 0} {ma : Matcher A W} {mb : Matcher B W} {sa : Spec A W} {sb : Spec B W}
    (ia : Implements ma sa) (ib : Implements mb sb) where
  -- If the difference has a posting, it is the first of the left side.
  heads :
      (s : BiMatcher A B) (p : ℕ × W) (ps : List (ℕ × W))
      → IsCleared sa sb s
      → minus (sa.view s.a) (sb.view s.b) ≡ p ∷ ps
      → (xs : List (ℕ × W)) × (sa.view s.a ≡ p ∷ xs) × (ps ≡ minus xs (sb.view s.b))
  heads s p ps v e = elim (List-cases (sa.view s.a)) [
    | inl wa ↦ let e' : [] ≡ p ∷ ps = sym (nil-minus (sb.view s.b)) ∙ (rw wa at e) in absurd (cc e')
    | inr (x, xs, wa) ↦
        let clear : find x.0 (sb.view s.b) ≡ none = rw wa at v.clear in
        let kept : minus (sa.view s.a) (sb.view s.b) ≡ x ∷ minus xs (sb.view s.b) =
          rw wa (minus_kept x xs (sb.view s.b) clear) in
        let first : x ≡ p = cc (kept, e) in (xs, rw (← first) wa, cc (kept, e))
  ]

  next-cleared :
      (s : BiMatcher A B) (p : ℕ × W) (ps : List (ℕ × W))
      → IsCleared sa sb s
      → minus (sa.view s.a) (sb.view s.b) ≡ p ∷ ps
      → Moves (and_not_spec sa sb) (and_not_next ma mb s) ps
  unfolding and_not_next
  next-cleared s p ps v e =
      let (xs, wa, eps) = heads s p ps v e in
      let (a', ea, va, wa') = ia.next_lem s.a p xs v.left wa in
      rw (ia.active s.a v.left, wa, ea, eps)
        (elim (List-cases xs) [
          | inl out ↦
              let wa'' : sa.view a' ≡ [] = wa' ∙ out in
              rw (ia.active a' va, wa'')
                (_, refl, record { left = va; right = v.right; clear = rw wa'' tt }, rw wa' refl)
          | inr (x', xs', more) ↦
              let wa'' : sa.view a' ≡ x' ∷ xs' = wa' ∙ more in
              elim (List-cases (sb.view s.b)) [
                | inl wb ↦
                    rw (ia.active a' va, wa'', ib.active s.b v.right, wb)
                      (
                        _,
                        refl,
                        record {
                          left = va;
                          right = v.right;
                          clear = rw (wa'', wb) (unfold find in refl);
                        },
                        rw (wa', wb) refl,
                      )
                | inr (y, ys, wb) ↦
                    rw (ia.active a' va, wa'', ib.active s.b v.right, wb, more)
                      (rw wb at (find_next-cleared ia ib a' s.b x' xs' va v.right wa''))
              ]
        ])

  id-cleared :
      (s : BiMatcher A B) (p : ℕ × W) (ps : List (ℕ × W))
      → IsCleared sa sb s
      → minus (sa.view s.a) (sb.view s.b) ≡ p ∷ ps
      → Reads (and_not_spec sa sb) (and_not_id ma mb s) p.0 (p ∷ ps)
  unfolding and_not_id
  id-cleared s p ps v e =
      let (xs, wa, eps) = heads s p ps v e in
      let (a', ea, va, wa') = ia.id_lem s.a p xs v.left wa in
      rw ea (
        _,
        refl,
        record { left = va; right = v.right; clear = rw wa' (rw wa at v.clear) },
        rw wa' (rw wa at e),
      )

  score-cleared :
      (s : BiMatcher A B) (p : ℕ × W) (ps : List (ℕ × W))
      → IsCleared sa sb s
      → minus (sa.view s.a) (sb.view s.b) ≡ p ∷ ps
      → Reads (and_not_spec sa sb) (and_not_score ma mb s) p.1 (p ∷ ps)
  unfolding and_not_score
  score-cleared s p ps v e =
      let (xs, wa, eps) = heads s p ps v e in
      let (a', ea, va, wa') = ia.score_lem s.a p xs v.left wa in
      rw ea (
        _,
        refl,
        record { left = va; right = v.right; clear = rw wa' (rw wa at v.clear) },
        rw wa' (rw wa at e),
      )

  active-cleared :
      (s : BiMatcher A B)
      → IsCleared sa sb s
      → and_not_is_active ma mb s ≡ nonempty (minus (sa.view s.a) (sb.view s.b))
  unfolding and_not_is_active
  active-cleared s v = elim (List-cases (sa.view s.a)) [
    | inl wa ↦ rw (ia.active s.a v.left, wa, nil-minus) refl
    | inr (x, xs, wa) ↦
        let clear : find x.0 (sb.view s.b) ≡ none = rw wa at v.clear in
        rw (ia.active s.a v.left, wa, minus_kept x xs (sb.view s.b) clear) refl
  ]

  -- Over two matchers that do what the interface promises: from a valid state, `id`, `score` and
  -- `next` read the postings of the left side that the right side lacks, in order.
  pub and_not_matcher-Steps : Steps (and_not_matcher ma mb) (and_not_spec sa sb)
  and_not_matcher-Steps = record {
    sorted = λ s v. select-IsSorted _ (sa.view s.a) (ia.sorted s.a v.left);
    active = active-cleared;
    bounded = λ s v.
        omega (arith, length-select (unmatched (sb.view s.b)) (sa.view s.a), ia.bounded s.a v.left);
    id_lem = id-cleared;
    score_lem = score-cleared;
    next_lem = next-cleared;
  }
