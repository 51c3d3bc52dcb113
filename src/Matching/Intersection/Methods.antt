-- ===== src/Matching/Intersection/Methods.antt =====
-- An IntersectionMatcher does what the interface promises on the postings that both sides have.
use whooshy.Common.{
  ◌≢◌, ne→==, ℕ, suc, ◌+◌, ◌<◌, ◌≡◌, refl, sym, ◌∙◌, ap, List, [], ◌∷◌, arith, length, ◌==◌, inl,
  inr, List-cases, Bool-cases, ==_iff,
}
use whooshy.Matching.Postings.{nonempty, from}
use whooshy.Matching.Postings.Select.{
  inter, matched, inter-nil, nil-inter, inter_same, select-IsSorted, length-select, from-inter,
}
use whooshy.Matching.Intersection.Synced.{loop-synced}
use whooshy.Matching.Interface.{Matcher, Spec, Moves, Reads, Implements}
use whooshy.Matching.Intersection.{
  BiMatcher, IsSynced, inter_is_active, find_next, sync, find_first, inter_init, inter_id,
  inter_next, inter_skip_to, inter_score, inter_matcher, inter_spec,
}

module _ {A B W : Type 0} (add : W → W → W) {ma : Matcher A W} {mb : Matcher B W} {sa : Spec A W}
    {sb : Spec B W} (ia : Implements ma sa) (ib : Implements mb sb) where
  find_next-synced :
      (a : A) (b : B) (x : ℕ × W) (xs : List (ℕ × W)) (y : ℕ × W) (ys : List (ℕ × W))
      → sa.IsValid a
      → sb.IsValid b
      → sa.view a ≡ x ∷ xs
      → sb.view b ≡ y ∷ ys
      → x.0 ≢ y.0
      → Moves
          (inter_spec add sa sb)
          (find_next add ma mb (record { a = a; b = b }))
          (inter add (x ∷ xs) (y ∷ ys))
  unfolding find_next
  find_next-synced a b x xs y ys va vb wa wb ne =
      let (a1, ea, va1, wa1) = ia.id_lem a x xs va wa in
      let (b1, eb, vb1, wb1) = ib.id_lem b y ys vb wb in
      let room : length xs + length ys < suc (ma.size a + mb.size b) =
        omega (arith, ia.bounded a va, ib.bounded b vb, ap length wa, ap length wb) in
      rw (ea, eb, ne→== x.0 y.0 ne) (loop-synced add ia ib _ x xs y ys a1 b1 va1 vb1 wa1 wb1 room)

  sync-synced :
      (a : A) (b : B) (x : ℕ × W) (xs : List (ℕ × W)) (y : ℕ × W) (ys : List (ℕ × W))
      → sa.IsValid a
      → sb.IsValid b
      → sa.view a ≡ x ∷ xs
      → sb.view b ≡ y ∷ ys
      → Moves
          (inter_spec add sa sb)
          (sync add ma mb (record { a = a; b = b }))
          (inter add (x ∷ xs) (y ∷ ys))
  unfolding sync
  sync-synced a b x xs y ys va vb wa wb =
      let (a1, ea, va1, wa1) = ia.id_lem a x xs va wa in
      let (b1, eb, vb1, wb1) = ib.id_lem b y ys vb wb in
      rw (ea, eb)
        (elim (Bool-cases (x.0 == y.0)) [
          | inl eq ↦ rw eq (
            _,
            refl,
            record { left = va1; right = vb1; aligned = rw (wa1, wb1) ((==_iff x.0 y.0).0 eq) },
            rw (wa1, wb1) refl,
          )
          | inr ne ↦ rw ne (find_next-synced a1 b1 x xs y ys va1 vb1 wa1 wb1 (ground arith))
        ])

  -- Whatever the two positions, the pair is brought to the first document that both have.
  find_first-synced :
      (a : A) (b : B)
      → sa.IsValid a
      → sb.IsValid b
      → Moves
          (inter_spec add sa sb)
          (find_first add ma mb (record { a = a; b = b }))
          (inter add (sa.view a) (sb.view b))
  unfolding find_first
  find_first-synced a b va vb = elim (List-cases (sa.view a)) [
    | inl wa ↦
        rw (ia.active a va, wa)
          (_, refl, record { left = va; right = vb; aligned = rw wa tt }, rw wa refl)
    | inr (x, xs, wa) ↦ elim (List-cases (sb.view b)) [
      | inl wb ↦
          rw (ia.active a va, wa, ib.active b vb, wb)
            (_, refl, record { left = va; right = vb; aligned = rw (wa, wb) tt }, rw (wa, wb) refl)
      | inr (y, ys, wb) ↦
          rw (ia.active a va, wa, ib.active b vb, wb) (sync-synced a b x xs y ys va vb wa wb)
    ]
  ]

  -- Over two matchers that do what the interface promises, the constructor, on any two valid states
  -- of them, wherever they stand, returns a valid intersection matcher, which stands for the
  -- postings that both have.
  pub inter_init-synced :
      (a : A) (b : B)
      → sa.IsValid a
      → sb.IsValid b
      → Moves (inter_spec add sa sb) (inter_init add ma mb a b) (inter add (sa.view a) (sb.view b))
  unfolding inter_init
  inter_init-synced = find_first-synced

  empty_left :
      (xs ys : List (ℕ × W)) (p : ℕ × W) (ps : List (ℕ × W))
      → xs ≡ []
      → inter add xs ys ≡ p ∷ ps
      → ⊥
  empty_left xs ys p ps wa e = let e' : [] ≡ p ∷ ps = sym (nil-inter add ys) ∙ (rw wa at e) in cc e'

  empty_right :
      (xs ys : List (ℕ × W)) (p : ℕ × W) (ps : List (ℕ × W))
      → ys ≡ []
      → inter add xs ys ≡ p ∷ ps
      → ⊥
  empty_right xs ys p ps wb e =
      let e' : [] ≡ p ∷ ps = sym (inter-nil add xs) ∙ (rw wb at e) in cc e'

  -- If the intersection has a posting, it is that of the heads.
  pub heads :
      (s : BiMatcher A B) (p : ℕ × W) (ps : List (ℕ × W))
      → IsSynced add sa sb s
      → inter add (sa.view s.a) (sb.view s.b) ≡ p ∷ ps
      → (x : ℕ × W) × (xs : List (ℕ × W)) × (y : ℕ × W) × (ys : List (ℕ × W)) × (sa.view s.a
          ≡ x ∷ xs)
        × (sb.view s.b ≡ y ∷ ys)
        × (x.0 ≡ y.0)
        × (p ≡ (x.0, add x.1 y.1))
        × (ps ≡ inter add xs (y ∷ ys))
  heads s p ps v e = elim (List-cases (sa.view s.a)) [
    | inl wa ↦ absurd (empty_left _ _ p ps wa e)
    | inr (x, xs, wa) ↦ elim (List-cases (sb.view s.b)) [
      | inl wb ↦ absurd (empty_right _ _ p ps wb e)
      | inr (y, ys, wb) ↦
          let same : x.0 ≡ y.0 = rw (wa, wb) at v.aligned in
          let e' : inter add (x ∷ xs) (y ∷ ys) ≡ p ∷ ps = rw (wa, wb) at e in
          let step = inter_same add x xs y ys same in
          (x, xs, y, ys, wa, wb, same, cc (step, e'), cc (step, e'))
    ]
  ]

  next-synced :
      (s : BiMatcher A B) (p : ℕ × W) (ps : List (ℕ × W))
      → IsSynced add sa sb s
      → inter add (sa.view s.a) (sb.view s.b) ≡ p ∷ ps
      → Moves (inter_spec add sa sb) (inter_next add ma mb s) ps
  unfolding inter_next
  next-synced s p ps v e =
      let (x, xs, y, ys, wa, wb, same, ep, eps) = heads s p ps v e in
      let (a', ea, va, wa') = ia.next_lem s.a x xs v.left wa in
      rw (ia.active s.a v.left, wa, ib.active s.b v.right, wb, ea, eps)
        (elim (List-cases xs) [
          | inl out ↦
              let wa'' : sa.view a' ≡ [] = wa' ∙ out in
              rw (ia.active a' va, wa'')
                (
                  _,
                  refl,
                  record { left = va; right = v.right; aligned = rw wa'' tt },
                  rw (wa'', out) (nil-inter add _ ∙ sym (nil-inter add _)),
                )
          | inr (x', xs', more) ↦
              let wa'' : sa.view a' ≡ x' ∷ xs' = wa' ∙ more in
              let rising : x.0 < x'.0 = (rw more at (rw wa at (ia.sorted s.a v.left)).0).0 in
              rw (ia.active a' va, wa'', more)
                (find_next-synced a' s.b x' xs' y ys va v.right wa'' wb (omega arith))
        ])

  skip_to-synced :
      (t : ℕ) (s : BiMatcher A B) (p : ℕ × W) (ps : List (ℕ × W))
      → IsSynced add sa sb s
      → inter add (sa.view s.a) (sb.view s.b) ≡ p ∷ ps
      → Moves (inter_spec add sa sb) (inter_skip_to add ma mb t s) (from t (p ∷ ps))
  unfolding inter_skip_to
  skip_to-synced t s p ps v e =
      let (x, xs, y, ys, wa, wb, same, ep, eps) = heads s p ps v e in
      let (a', ea, va, wa') = ia.skip_to_lem t s.a x xs v.left wa in
      let (b', eb, vb, wb') = ib.skip_to_lem t s.b y ys v.right wb in
      let target : inter add (sa.view a') (sb.view b') ≡ from t (p ∷ ps) =
        rw (wa', wb', ← from-inter add t (x ∷ xs) (y ∷ ys)) (ap (from t) (rw (wa, wb) at e)) in
      rw (ia.active s.a v.left, wa, ib.active s.b v.right, wb, ea, eb, ← target)
        (find_first-synced a' b' va vb)

  score-synced :
      (s : BiMatcher A B) (p : ℕ × W) (ps : List (ℕ × W))
      → IsSynced add sa sb s
      → inter add (sa.view s.a) (sb.view s.b) ≡ p ∷ ps
      → Reads (inter_spec add sa sb) (inter_score add ma mb s) p.1 (p ∷ ps)
  unfolding inter_score
  score-synced s p ps v e =
      let (x, xs, y, ys, wa, wb, same, ep, eps) = heads s p ps v e in
      let (a', ea, va, wa') = ia.score_lem s.a x xs v.left wa in
      let (b', eb, vb, wb') = ib.score_lem s.b y ys v.right wb in
      let sum : add x.1 y.1 ≡ p.1 = cc ep in
      rw (ea, eb, sum)
        (
          _,
          refl,
          record { left = va; right = vb; aligned = rw (wa', wb') same },
          rw (wa', wb') (rw (wa, wb) at e),
        )

  id-synced :
      (s : BiMatcher A B) (p : ℕ × W) (ps : List (ℕ × W))
      → IsSynced add sa sb s
      → inter add (sa.view s.a) (sb.view s.b) ≡ p ∷ ps
      → Reads (inter_spec add sa sb) (inter_id add ma mb s) p.0 (p ∷ ps)
  unfolding inter_id
  id-synced s p ps v e =
      let (x, xs, y, ys, wa, wb, same, ep, eps) = heads s p ps v e in
      let (a', ea, va, wa') = ia.id_lem s.a x xs v.left wa in
      let number : x.0 ≡ p.0 = cc ep in
      rw (ea, number)
        (
          _,
          refl,
          record { left = va; right = v.right; aligned = rw (wa', wb) same },
          rw (wa', wb) (rw (wa, wb) at e),
        )

  active-synced :
      (s : BiMatcher A B)
      → IsSynced add sa sb s
      → inter_is_active add ma mb s ≡ nonempty (inter add (sa.view s.a) (sb.view s.b))
  unfolding inter_is_active
  active-synced s v = elim (List-cases (sa.view s.a)) [
    | inl wa ↦ rw (ia.active s.a v.left, wa, nil-inter) refl
    | inr (x, xs, wa) ↦ elim (List-cases (sb.view s.b)) [
      | inl wb ↦
          rw (ia.active s.a v.left, ib.active s.b v.right, wb, inter-nil add (sa.view s.a), wa) refl
      | inr (y, ys, wb) ↦
          let same : x.0 ≡ y.0 = rw (wa, wb) at v.aligned in
          rw (ia.active s.a v.left, ib.active s.b v.right, wa, wb, inter_same add x xs y ys same)
            refl
    ]
  ]

  -- Over two matchers that do what the interface promises of is_active, id, score, next and skip_to,
  -- the intersection does so too, on the postings that both have, with the scores added.
  pub inter_matcher-Implements : Implements (inter_matcher add ma mb) (inter_spec add sa sb)
  inter_matcher-Implements = record {
    steps = record {
      sorted = λ s v. select-IsSorted _ (sa.view s.a) (ia.sorted s.a v.left);
      active = active-synced;
      bounded = λ s v.
          omega
            (arith, length-select (matched add (sb.view s.b)) (sa.view s.a), ia.bounded s.a v.left);
      id_lem = id-synced;
      score_lem = score-synced;
      next_lem = next-synced;
    };
    skip_to_lem = skip_to-synced;
  }
