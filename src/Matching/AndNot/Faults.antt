-- ===== src/Matching/AndNot/Faults.antt =====
-- The constructor and skip_to of an AndNotMatcher: where they are right, and where they are not.
use whooshy.Common.{
  ℕ, ◌≤◌, ◌<◌, ◌≡◌, refl, sym, ◌∙◌, none, some, List, [], ◌∷◌, arith, ltb, ◌==◌, inl, inr,
  List-cases, Bool-cases, le→ltb, ne→==,
}
use whooshy.Common.Result.{Result, ok, err, Error, ◌>>=◌}
use whooshy.Matching.Postings.{IsSorted, find, from, from-nil, from_head, Reached, find_before}
use whooshy.Matching.Postings.Select.{minus, unmatched, minus-from_right, from-minus, find-minus}
use whooshy.Matching.Interface.{Matcher, Spec, Moves, Implements}
use whooshy.Matching.Intersection.{BiMatcher}
use whooshy.Matching.AndNot.Cleared.{find_next-cleared, Clear-nil}
use whooshy.Matching.AndNot.{
  IsCleared, and_not_find_next, and_not_init, and_not_id, and_not_skip_to, and_not_spec,
}

module _ {A B W : Type 0} {ma : Matcher A W} {mb : Matcher B W} {sa : Spec A W} {sb : Spec B W}
    (ia : Implements ma sa) (ib : Implements mb sb) where
  -- Over two matchers that do what the interface promises, in valid states: if the right side does
  -- not begin before the left one, the constructor leaves a valid matcher for the difference.
  pub and_not_init-cleared :
      (a : A) (b : B)
      → sa.IsValid a
      → sb.IsValid b
      → Reached (sa.view a) (sb.view b)
      → Moves (and_not_spec sa sb) (and_not_init ma mb a b) (minus (sa.view a) (sb.view b))
  unfolding and_not_init
  and_not_init-cleared a b va vb r = elim (List-cases (sa.view a)) [
    | inl wa ↦
        rw (ia.active a va, wa)
          (_, refl, record { left = va; right = vb; clear = rw wa tt }, rw wa refl)
    | inr (x, xs, wa) ↦ elim (List-cases (sb.view b)) [
      | inl wb ↦
          rw (ia.active a va, wa, ib.active b vb, wb)
            (
              _,
              refl,
              record { left = va; right = vb; clear = Clear-nil ia ib _ _ wb },
              rw (wa, wb) refl,
            )
      | inr (y, ys, wb) ↦
          let (a1, ea, va1, wa1) = ia.id_lem a x xs va wa in
          let (b1, eb, vb1, wb1) = ib.id_lem b y ys vb wb in
          let sy : IsSorted (y ∷ ys) = rw wb at (ib.sorted b vb) in
          let r' : x.0 ≤ y.0 = rw (wa, wb) at r in
          rw (ia.active a va, wa, ib.active b vb, wb, ea, eb)
            (elim (Bool-cases (x.0 == y.0)) [
              | inl eq ↦ rw eq (rw wb1 at (find_next-cleared ia ib a1 b1 x xs va1 vb1 wa1))
              | inr ne ↦ rw ne (
                _,
                refl,
                record {
                  left = va1;
                  right = vb1;
                  clear = rw (wa1, wb1) (find_before x.0 y ys sy (ground arith));
                },
                rw (wa1, wb1) refl,
              )
            ])
    ]
  ]

  -- The first document that the constructed matcher returns.
  pub first_id : A → B → Result ℕ
  first_id a b = do s ← and_not_init ma mb a b; (d, _) ← and_not_id ma mb s; ok d

  -- Over two matchers that do what the interface promises, in valid states: if the right side
  -- begins before the left one and has the first document of the left side too, `id` of the
  -- constructed matcher is this document, which the difference lacks.
  pub and_not_init_leaks :
      (a : A) (b : B) (x : ℕ × W) (xs : List (ℕ × W)) (y : ℕ × W) (ys : List (ℕ × W)) (w : W)
      → sa.IsValid a
      → sb.IsValid b
      → sa.view a ≡ x ∷ xs
      → sb.view b ≡ y ∷ ys
      → y.0 < x.0
      → find x.0 (y ∷ ys) ≡ some w
      → (first_id a b ≡ ok x.0) × (find x.0 (minus (sa.view a) (sb.view b)) ≡ none)
  unfolding first_id and_not_init and_not_id
  and_not_init_leaks a b x xs y ys w va vb wa wb before found =
      let (a1, ea, va1, wa1) = ia.id_lem a x xs va wa in
      let (b1, eb, vb1, wb1) = ib.id_lem b y ys vb wb in
      let (a2, ea2, va2, wa2) = ia.id_lem a1 x xs va1 wa1 in
      (
        rw (ia.active a va, wa, ib.active b vb, wb, ea, eb, ne→== x.0 y.0 (omega arith), ea2),
        rw (wa, wb) (find-minus x.0 (x ∷ xs) (y ∷ ys) (rw wa at (ia.sorted a va)) ∙ gone found),
      )
    where
      gone :
          find x.0 (y ∷ ys) ≡ some w
          → (elim (find x.0 (x ∷ xs)) [ none ↦ none | some v ↦ unmatched (y ∷ ys) x.0 v ]) ≡ none
      gone f = unfold find in ground (arith, f)

  module _ (t : ℕ) (s : BiMatcher A B) (x : ℕ × W) (xs : List (ℕ × W)) (v : IsCleared sa sb s)
      (wa : sa.view s.a ≡ x ∷ xs) where
    -- Over two matchers that do what the interface promises: from a valid state, skip_to moves the
    -- matcher to its first document from `t` on, if the left side has any document from `t` on.
    pub and_not_skip_to-cleared :
        (x' : ℕ × W) (xs' : List (ℕ × W))
        → from t (x ∷ xs) ≡ x' ∷ xs'
        → Moves
            (and_not_spec sa sb)
            (and_not_skip_to ma mb t s)
            (from t (minus (sa.view s.a) (sb.view s.b)))
    unfolding and_not_skip_to
    and_not_skip_to-cleared x' xs' more =
        let (a1, ea, va1, wa1) = ia.id_lem s.a x xs v.left wa in
        let (a2, ea2, va2, wa2) = ia.skip_to_lem t a1 x xs va1 wa1 in
        let wa3 : sa.view a2 ≡ x' ∷ xs' = wa2 ∙ more in
        let sx : IsSorted (x ∷ xs) = rw wa at (ia.sorted s.a v.left) in
        rw (from-minus t (sa.view s.a) (sb.view s.b), ia.active s.a v.left, wa, ea)
          (elim (Bool-cases (ltb t x.0)) [
            | inl here ↦ rw here (
              _,
              refl,
              record { left = va1; right = v.right; clear = rw wa1 (rw wa at v.clear) },
              rw (wa1, from_head t x xs sx (ground arith))
                  (sym (minus-from_right t x xs (sb.view s.b) sx (ground arith))),
            )
            | inr on ↦ elim (List-cases (sb.view s.b)) [
              | inl wb ↦
                  rw (on, ea2, ib.active s.b v.right, wb)
                    (
                      _,
                      refl,
                      record { left = va2; right = v.right; clear = Clear-nil ia ib _ _ wb },
                      rw (wa2, wb, from-nil) refl,
                    )
              | inr (y, ys, wb) ↦
                  let (b', eb, vb, wb') = ib.skip_to_lem t s.b y ys v.right wb in
                  rw (on, ea2, ib.active s.b v.right, wb, eb, more, ← wb')
                    (find_next-cleared ia ib a2 b' x' xs' va2 vb wa3)
            ]
          ])

    -- Over two matchers that do what the interface promises: where the left side is not at its end,
    -- does not begin behind `t` and has no document from `t` on, and the right side has one,
    -- skip_to from a valid state raises the error that `id` of the exhausted left side raises.
    pub and_not_skip_to_raises :
        (y : ℕ × W) (ys : List (ℕ × W)) (c : Error)
        → x.0 ≤ t
        → from t (x ∷ xs) ≡ []
        → from t (sb.view s.b) ≡ y ∷ ys
        → ((a : A) → sa.IsValid a → sa.view a ≡ [] → ma.id a ≡ err c)
        → and_not_skip_to ma mb t s ≡ err c
    unfolding and_not_skip_to and_not_find_next
    and_not_skip_to_raises y ys c h out more raises = elim (List-cases (sb.view s.b)) [
      | inl wb ↦ let e : [] ≡ y ∷ ys = sym (from-nil t) ∙ (rw wb at more) in absurd (cc e)
      | inr (z, zs, wb) ↦
          let (a1, ea, va1, wa1) = ia.id_lem s.a x xs v.left wa in
          let (a2, ea2, va2, wa2) = ia.skip_to_lem t a1 x xs va1 wa1 in
          let (b', eb, vb, wb') = ib.skip_to_lem t s.b z zs v.right wb in
          let wb'' : sb.view b' ≡ y ∷ ys = wb' ∙ (rw wb at more) in
          rw (
            ia.active s.a v.left,
            wa,
            ea,
            le→ltb t x.0 h,
            ea2,
            ib.active s.b v.right,
            wb,
            eb,
            ib.active b' vb,
            wb'',
            raises a2 va2 (wa2 ∙ out),
          )
    ]
