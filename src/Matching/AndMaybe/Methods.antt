-- ===== src/Matching/AndMaybe/Methods.antt =====
-- An AndMaybeMatcher that is built and stepped gives the first side's postings with the second
-- side's scores added.
use whooshy.Common.{
  ℕ, ◌≤◌, ◌≡◌, refl, sym, ◌∙◌, List, [], ◌∷◌, arith, ◌==◌, inl, inr, List-cases, Bool-cases, ==_iff,
}
use whooshy.Matching.Postings.{IsSorted, nonempty, from, Reached, Reached-from, find_before}
use whooshy.Matching.Postings.Select.{
  select-IsSorted, length-select, maybe, boosted, nil-maybe, maybe_same, maybe_alone,
  maybe-from_right, maybe_tail, maybe_nil,
}
use whooshy.Matching.Interface.{Matcher, Spec, Moves, Reads, Steps, Implements}
use whooshy.Matching.Intersection.{BiMatcher}
use whooshy.Matching.AndMaybe.{
  IsReached, and_maybe_init, and_maybe_is_active, and_maybe_id, and_maybe_next, and_maybe_score,
  and_maybe_matcher, and_maybe_spec,
}

module _ {A B W : Type 0} (add : W → W → W) {ma : Matcher A W} {mb : Matcher B W} {sa : Spec A W}
    {sb : Spec B W} (ia : Implements ma sa) (ib : Implements mb sb) where
  Reached-nil : (xs ys : List (ℕ × W)) → ys ≡ [] → Reached xs ys
  Reached-nil [] ys e = tt
  Reached-nil (x ∷ xs) ys e = rw e tt

  -- After the second side has been skipped to the first side's document.
  skipped :
      (a : A) (b : B) (x : ℕ × W) (xs ys : List (ℕ × W))
      → sa.IsValid a
      → sb.IsValid b
      → sa.view a ≡ x ∷ xs
      → sb.view b ≡ from x.0 ys
      → IsReached add sa sb (record { a = a; b = b })
        × (maybe add (sa.view a) (sb.view b) ≡ maybe add (x ∷ xs) ys)
  skipped a b x xs ys va vb wa wb =
      let sx : IsSorted (x ∷ xs) = rw wa at (ia.sorted a va) in
      (
        record { left = va; right = vb; reached = rw (wa, wb) (Reached-from x xs ys) },
        rw (wa, wb) (maybe-from_right add x.0 x xs ys sx (omega arith)),
      )

  -- The constructor brings any two valid sub-matchers to a valid state, which stands for the first
  -- one's postings, each with the second one's score of the document added, if there is one.
  pub and_maybe_init-reached :
      (a : A) (b : B)
      → sa.IsValid a
      → sb.IsValid b
      → Moves
          (and_maybe_spec add sa sb)
          (and_maybe_init add ma mb a b)
          (maybe add (sa.view a) (sb.view b))
  unfolding and_maybe_init
  and_maybe_init-reached a b va vb = elim (List-cases (sa.view a)) [
    | inl wa ↦
        rw (ia.active a va, wa)
          (_, refl, record { left = va; right = vb; reached = rw wa tt }, rw wa refl)
    | inr (x, xs, wa) ↦ elim (List-cases (sb.view b)) [
      | inl wb ↦
          rw (ia.active a va, wa, ib.active b vb, wb)
            (
              _,
              refl,
              record { left = va; right = vb; reached = Reached-nil _ _ wb },
              rw (wa, wb) refl,
            )
      | inr (y, ys, wb) ↦
          let (a1, ea, va1, wa1) = ia.id_lem a x xs va wa in
          let (b1, eb, vb1, wb1) = ib.id_lem b y ys vb wb in
          let (a2, ea2, va2, wa2) = ia.id_lem a1 x xs va1 wa1 in
          let (b2, eb2, vb2, wb2) = ib.skip_to_lem x.0 b1 y ys vb1 wb1 in
          rw (ia.active a va, wa, ib.active b vb, wb, ea, eb)
            (elim (Bool-cases (x.0 == y.0)) [
              | inl eq ↦ rw eq (
                _,
                refl,
                record { left = va1; right = vb1; reached = rw (wa1, wb1) (ground arith) },
                rw (wa1, wb1) refl,
              )
              | inr ne ↦
                  let (v2, w2) = skipped a2 b2 x xs (y ∷ ys) va2 vb2 wa2 wb2 in
                  rw (ne, ea2, eb2) (_, refl, v2, w2)
            ])
    ]
  ]

  heads :
      (s : BiMatcher A B) (p : ℕ × W) (ps : List (ℕ × W))
      → maybe add (sa.view s.a) (sb.view s.b) ≡ p ∷ ps
      → (x : ℕ × W) × (xs : List (ℕ × W)) × (sa.view s.a ≡ x ∷ xs)
        × (x.0 ≡ p.0)
        × (ps ≡ maybe add xs (sb.view s.b))
  heads s p ps e = elim (List-cases (sa.view s.a)) [
    | inl wa ↦
        let e' : [] ≡ p ∷ ps = sym (nil-maybe add (sb.view s.b)) ∙ (rw wa at e) in absurd (cc e')
    | inr (x, xs, wa) ↦
        let (w, split) = maybe_tail add x xs (sb.view s.b) in
        let e' : (x.0, w) ∷ maybe add xs (sb.view s.b) ≡ p ∷ ps = sym split ∙ (rw wa at e) in
        (x, xs, wa, cc e', cc e')
  ]

  next-reached :
      (s : BiMatcher A B) (p : ℕ × W) (ps : List (ℕ × W))
      → IsReached add sa sb s
      → maybe add (sa.view s.a) (sb.view s.b) ≡ p ∷ ps
      → Moves (and_maybe_spec add sa sb) (and_maybe_next add ma mb s) ps
  unfolding and_maybe_next
  next-reached s p ps v e =
      let (x, xs, wa, number, eps) = heads s p ps e in
      let (a1, ea, va, wa1) = ia.next_lem s.a x xs v.left wa in
      rw (ia.active s.a v.left, wa, ea, eps)
        (elim (List-cases xs) [
          | inl out ↦
              let wa2 : sa.view a1 ≡ [] = wa1 ∙ out in
              rw (ia.active a1 va, wa2)
                (_, refl, record { left = va; right = v.right; reached = rw wa2 tt }, rw wa1 refl)
          | inr (x', xs', more) ↦
              let wa2 : sa.view a1 ≡ x' ∷ xs' = wa1 ∙ more in
              elim (List-cases (sb.view s.b)) [
                | inl wb ↦
                    rw (ia.active a1 va, wa2, ib.active s.b v.right, wb)
                      (
                        _,
                        refl,
                        record { left = va; right = v.right; reached = Reached-nil _ _ wb },
                        rw (wa1, wb) refl,
                      )
                | inr (y, ys, wb) ↦
                    let (a2, ea2, va2, wa3) = ia.id_lem a1 x' xs' va wa2 in
                    let (b2, eb2, vb2, wb2) = ib.skip_to_lem x'.0 s.b y ys v.right wb in
                    let (v2, w2) = skipped a2 b2 x' xs' (y ∷ ys) va2 vb2 wa3 wb2 in
                    rw (ia.active a1 va, wa2, ib.active s.b v.right, wb, ea2, eb2, more)
                      (_, refl, v2, w2)
              ]
        ])

  id-reached :
      (s : BiMatcher A B) (p : ℕ × W) (ps : List (ℕ × W))
      → IsReached add sa sb s
      → maybe add (sa.view s.a) (sb.view s.b) ≡ p ∷ ps
      → Reads (and_maybe_spec add sa sb) (and_maybe_id add ma mb s) p.0 (p ∷ ps)
  unfolding and_maybe_id
  id-reached s p ps v e =
      let (x, xs, wa, number, eps) = heads s p ps e in
      let (a', ea, va, wa') = ia.id_lem s.a x xs v.left wa in
      rw (ea, number)
        (
          _,
          refl,
          record { left = va; right = v.right; reached = rw wa' (rw wa at v.reached) },
          rw wa' (rw wa at e),
        )

  score-reached :
      (s : BiMatcher A B) (p : ℕ × W) (ps : List (ℕ × W))
      → IsReached add sa sb s
      → maybe add (sa.view s.a) (sb.view s.b) ≡ p ∷ ps
      → Reads (and_maybe_spec add sa sb) (and_maybe_score add ma mb s) p.1 (p ∷ ps)
  unfolding and_maybe_score
  score-reached s p ps v e =
      let (x, xs, wa, number, eps) = heads s p ps e in
      elim (List-cases (sb.view s.b)) [
        | inl wb ↦
            let (a', ea, va, wa') = ia.score_lem s.a x xs v.left wa in
            let e' : x ∷ xs ≡ p ∷ ps = sym (maybe_nil add (x ∷ xs)) ∙ (rw (wa, wb) at e) in
            let d : x.1 ≡ p.1 = cc e' in
            rw (ib.active s.b v.right, wb, ea, d)
              (
                _,
                refl,
                record { left = va; right = v.right; reached = Reached-nil _ _ wb },
                rw (wa', ← wa) e,
              )
        | inr (y, ys, wb) ↦
            let (a1, ea1, va1, wa1) = ia.id_lem s.a x xs v.left wa in
            let (b1, eb1, vb1, wb1) = ib.id_lem s.b y ys v.right wb in
            let (a2, ea2, va2, wa2) = ia.score_lem a1 x xs va1 wa1 in
            let (b2, eb2, vb2, wb2) = ib.score_lem b1 y ys vb1 wb1 in
            let sy : IsSorted (y ∷ ys) = rw wb at (ib.sorted s.b v.right) in
            let r : x.0 ≤ y.0 = rw (wa, wb) at v.reached in
            let e1 : maybe add (x ∷ xs) (y ∷ ys) ≡ p ∷ ps = rw (wa, wb) at e in
            rw (ib.active s.b v.right, wb, ea1, eb1)
              (elim (Bool-cases (x.0 == y.0)) [
                | inl eq ↦
                    let both = maybe_same add x xs y ys ((==_iff x.0 y.0).0 eq) in
                    let d : add x.1 y.1 ≡ p.1 = cc (both, e1) in
                    rw (eq, ea2, eb2, d)
                      (
                        _,
                        refl,
                        record { left = va2; right = vb2; reached = rw (wa2, wb2) r },
                        rw (wa2, wb2) e1,
                      )
                | inr ne ↦
                    let alone =
                      maybe_alone add x xs (y ∷ ys) (find_before x.0 y ys sy (ground arith)) in
                    let d : x.1 ≡ p.1 = cc (alone, e1) in
                    rw (ne, ea2, d)
                      (
                        _,
                        refl,
                        record { left = va2; right = vb1; reached = rw (wa2, wb1) r },
                        rw (wa2, wb1) e1,
                      )
              ])
      ]

  active-reached :
      (s : BiMatcher A B)
      → IsReached add sa sb s
      → and_maybe_is_active add ma mb s ≡ nonempty (maybe add (sa.view s.a) (sb.view s.b))
  unfolding and_maybe_is_active
  active-reached s v = elim (List-cases (sa.view s.a)) [
    | inl wa ↦ rw (ia.active s.a v.left, wa, nil-maybe) refl
    | inr (x, xs, wa) ↦
        let (w, split) = maybe_tail add x xs (sb.view s.b) in
        rw (ia.active s.a v.left, wa, split) refl
  ]

  -- Over two matchers that do what the interface promises: from a valid state, `id`, `score` and
  -- `next` read the first side's postings in order, each with the second side's score of the same
  -- document added, if there is one.
  pub and_maybe_matcher-Steps : Steps (and_maybe_matcher add ma mb) (and_maybe_spec add sa sb)
  and_maybe_matcher-Steps = record {
    sorted = λ s v. select-IsSorted _ (sa.view s.a) (ia.sorted s.a v.left);
    active = active-reached;
    bounded = λ s v.
        omega
          (arith, length-select (boosted add (sb.view s.b)) (sa.view s.a), ia.bounded s.a v.left);
    id_lem = id-reached;
    score_lem = score-reached;
    next_lem = next-reached;
  }
