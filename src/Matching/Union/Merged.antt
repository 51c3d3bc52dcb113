-- ===== src/Matching/Union/Merged.antt =====
-- A UnionMatcher does what the interface promises on the merged postings.
use whooshy.Common.{
  ℕ, ◌≡◌, refl, sym, ◌∙◌, none, some, List, ◌∷◌, arith, inl, inr, List-cases, Option-cases, le→leb,
  lt→leb, min, if◌then◌else◌,
}
use whooshy.Common.Result.{ok}
use whooshy.Matching.Postings.{from}
use whooshy.Matching.Postings.Union.{
  union, nil-union, union-nil, union-IsSorted, length-union, from-union, union_cases,
  nonempty-union,
}
use whooshy.Matching.Interface.{Matcher, Spec, Moves, Reads, Implements}
use whooshy.Matching.Union.{
  UnionMatcher, IsUnion, union_is_active, union_id, union_next, union_skip_to, union_matcher,
  union_spec,
}
use whooshy.Matching.Union.Sides.{neither, left_only, right_only}
use whooshy.Matching.Union.Scores.{score-first}

module _ {A B W : Type 0} (add : W → W → W) {ma : Matcher A W} {mb : Matcher B W} {sa : Spec A W}
    {sb : Spec B W} (ia : Implements ma sa) (ib : Implements mb sb) where
  next-tail :
      (s : UnionMatcher A B) (p : ℕ × W) (ps : List (ℕ × W))
      → IsUnion add sa sb s
      → union add (sa.view s.a) (sb.view s.b) ≡ p ∷ ps
      → Moves (union_spec add sa sb) (union_next add ma mb s) ps
  unfolding union_next
  next-tail s p ps v e = elim (List-cases (sa.view s.a)) [
    | inl wa ↦ elim (List-cases (sb.view s.b)) [
      | inl wb ↦ absurd (neither add wa wb e)
      | inr (y, ys, wb) ↦
          let (b', eb, vb, wb') = ib.next_lem s.b y ys v.right wb in
          rw (ia.active s.a v.left, wa, ib.active s.b v.right, wb, eb)
            (
              record s { b = b'; cached = none },
              refl,
              record { left = v.left; right = vb; cache = tt },
              rw (wa, wb') (cc (nil-union add ys, right_only add wa wb, e)),
            )
    ]
    | inr (x, xs, wa) ↦ elim (List-cases (sb.view s.b)) [
      | inl wb ↦
          let (a', ea, va, wa') = ia.next_lem s.a x xs v.left wa in
          rw (ia.active s.a v.left, wa, ib.active s.b v.right, wb, ea)
            (
              record s { a = a'; cached = none },
              refl,
              record { left = va; right = v.right; cache = tt },
              rw (wb, wa') (cc (union-nil add xs, left_only add wa wb, e)),
            )
      | inr (y, ys, wb) ↦
          let (a1, ea1, va1, wa1) = ia.id_lem s.a x xs v.left wa in
          let (b1, eb1, vb1, wb1) = ib.id_lem s.b y ys v.right wb in
          let (a2, ea2, va2, wa2) = ia.next_lem a1 x xs va1 wa1 in
          let (b2, eb2, vb2, wb2) = ib.next_lem b1 y ys vb1 wb1 in
          let e' : union add (x ∷ xs) (y ∷ ys) ≡ p ∷ ps = rw (wa, wb) at e in
          rw (ia.active s.a v.left, wa, ib.active s.b v.right, wb, ea1, eb1)
            (elim (union_cases add x xs y ys) [
              | inl (lt, u) ↦
                  rw (le→leb x.0 y.0 (omega arith), lt→leb y.0 x.0 lt, ea2)
                    (
                      record { a = a2; b = b1; cached = none },
                      refl,
                      record { left = va2; right = vb1; cache = tt },
                      rw (wa2, wb1) (cc (u, e')),
                    )
              | inr (inl (eq, u)) ↦
                  rw (le→leb x.0 y.0 (omega arith), le→leb y.0 x.0 (omega arith), ea2, eb2)
                    (
                      record { a = a2; b = b2; cached = none },
                      refl,
                      record { left = va2; right = vb2; cache = tt },
                      rw (wa2, wb2) (cc (u, e')),
                    )
              | inr (inr (gt, u)) ↦
                  rw (lt→leb x.0 y.0 gt, le→leb y.0 x.0 (omega arith), eb2)
                    (
                      record { a = a1; b = b2; cached = none },
                      refl,
                      record { left = va1; right = vb2; cache = tt },
                      rw (wa1, wb2) (cc (u, e')),
                    )
            ])
    ]
  ]

  -- A state with the first document number cached.
  cached-IsUnion :
      (a : A) (b : B) (d : ℕ) (p : ℕ × W) (ps : List (ℕ × W))
      → sa.IsValid a
      → sb.IsValid b
      → union add (sa.view a) (sb.view b) ≡ p ∷ ps
      → d ≡ p.0
      → IsUnion add sa sb (record { a = a; b = b; cached = some d })
  cached-IsUnion a b d p ps va vb w h = record { left = va; right = vb; cache = rw w h }

  id-first :
      (s : UnionMatcher A B) (p : ℕ × W) (ps : List (ℕ × W))
      → IsUnion add sa sb s
      → union add (sa.view s.a) (sb.view s.b) ≡ p ∷ ps
      → Reads (union_spec add sa sb) (union_id add ma mb s) p.0 (p ∷ ps)
  unfolding union_id
  id-first s p ps v e = elim (Option-cases s.cached) [
    | inr (d, c) ↦
        let first : d ≡ p.0 = rw (c, e) at v.cache in rw (c, union_id) (s, rw first, v, e)
    | inl c ↦ elim (List-cases (sa.view s.a)) [
      | inl wa ↦ elim (List-cases (sb.view s.b)) [
        | inl wb ↦ absurd (neither add wa wb e)
        | inr (y, ys, wb) ↦
            let (b1, eb, vb, wb1) = ib.id_lem s.b y ys v.right wb in
            let e' : y ∷ ys ≡ p ∷ ps = cc (right_only add wa wb, e) in
            let w : union add (sa.view s.a) (sb.view b1) ≡ p ∷ ps = right_only add wa wb1 ∙ e' in
            let d : y.0 ≡ p.0 = cc e' in
            rw (c, union_id, ia.active s.a v.left, wa, eb)
              (_, rw d, cached-IsUnion s.a b1 p.0 p ps v.left vb w refl, w)
      ]
      | inr (x, xs, wa) ↦ elim (List-cases (sb.view s.b)) [
        | inl wb ↦
            let (a1, ea, va, wa1) = ia.id_lem s.a x xs v.left wa in
            let e' : x ∷ xs ≡ p ∷ ps = cc (left_only add wa wb, e) in
            let w : union add (sa.view a1) (sb.view s.b) ≡ p ∷ ps = left_only add wa1 wb ∙ e' in
            let d : x.0 ≡ p.0 = cc e' in
            rw (c, union_id, ia.active s.a v.left, wa, ib.active s.b v.right, wb, ea)
              (_, rw d, cached-IsUnion a1 s.b p.0 p ps va v.right w refl, w)
        | inr (y, ys, wb) ↦
            let (a1, ea, va, wa1) = ia.id_lem s.a x xs v.left wa in
            let (b1, eb, vb, wb1) = ib.id_lem s.b y ys v.right wb in
            let w : union add (sa.view a1) (sb.view b1) ≡ p ∷ ps =
              rw (wa1, wb1) (rw (wa, wb) at e) in
            let d : min x.0 y.0 ≡ p.0 = least x xs y ys p ps (rw (wa, wb) at e) in
            rw (c, union_id, ia.active s.a v.left, wa, ib.active s.b v.right, wb, ea, eb)
              (_, rw d, cached-IsUnion a1 b1 p.0 p ps va vb w refl, w)
      ]
    ]
  ]
    where
      least :
          (x : ℕ × W) (xs : List (ℕ × W)) (y : ℕ × W) (ys : List (ℕ × W)) (p : ℕ × W)
          (ps : List (ℕ × W))
          → union add (x ∷ xs) (y ∷ ys) ≡ p ∷ ps
          → min x.0 y.0 ≡ p.0
      least x xs y ys p ps e = ground (arith, union_cases add x xs y ys)

  -- Skipping one sub-matcher, active or not.
  skip_side :
      {S : Type 0} {m : Matcher S W} {sp : Spec S W} (im : Implements m sp) (t : ℕ) (s : S)
      → sp.IsValid s
      → Moves sp (if m.is_active s then m.skip_to t s else ok s) (from t (sp.view s))
  unfolding from
  skip_side {sp} im t s v = elim (List-cases (sp.view s)) [
    | inl w ↦ rw (im.active s v, w) (s, refl, v, w)
    | inr (p, ps, w) ↦ rw (im.active s v, w) (im.skip_to_lem t s p ps v w)
  ]

  skip_to-from :
      (t : ℕ) (s : UnionMatcher A B)
      → IsUnion add sa sb s
      → Moves
          (union_spec add sa sb)
          (union_skip_to add ma mb t s)
          (from t (union add (sa.view s.a) (sb.view s.b)))
  unfolding union_skip_to
  skip_to-from t s v =
      let (a', ea, va, wa) = skip_side ia t s.a v.left in
      let (b', eb, vb, wb) = skip_side ib t s.b v.right in
      rw (ea, eb)
        (
          record { a = a'; b = b'; cached = none },
          refl,
          record { left = va; right = vb; cache = tt },
          rw (wa, wb) (sym (from-union add t (sa.view s.a) (sb.view s.b))),
        )

  -- Over two matchers that do what the interface promises of is_active, id, score, next and skip_to,
  -- the union does so too, on the merge of the two posting lists: the scores of a document that both
  -- have are added. It says nothing of `reset`.
  pub union_matcher-Implements : Implements (union_matcher add ma mb) (union_spec add sa sb)
  unfolding union_is_active
  union_matcher-Implements = record {
    steps = record {
      sorted = λ s v. union-IsSorted add _ _ (ia.sorted s.a v.left) (ib.sorted s.b v.right);
      active = λ s v. rw (ia.active s.a v.left, ib.active s.b v.right) (nonempty-union add _ _);
      bounded = λ s v. omega (
        arith,
        length-union add (sa.view s.a) (sb.view s.b),
        ia.bounded s.a v.left,
        ib.bounded s.b v.right,
      );
      id_lem = id-first;
      score_lem = score-first add ia ib;
      next_lem = next-tail;
    };
    skip_to_lem = λ t s p ps v e. rw e at (skip_to-from t s v);
  }
