-- ===== src/Matching/Intersection/Synced.antt =====
-- An IntersectionMatcher does what the interface promises on the postings that both sides have.
use whooshy.Common.{
  ℕ, zero, suc, ◌+◌, ◌≤◌, ◌<◌, ◌≡◌, refl, sym, ◌∙◌, ap, true, List, [], ◌∷◌, arith, length, ltb,
  ◌==◌, inl, inr, List-cases, Bool-cases, lt→ltb, ==_iff,
}
use whooshy.Matching.Postings.{IsSorted, from, from_below, length-from}
use whooshy.Matching.Postings.Select.{inter, inter-from_left, inter-from_right}
use whooshy.Matching.Interface.{Matcher, Spec, Moves, Implements}
use whooshy.Matching.Intersection.{Aligned, find_next_loop, inter_spec}

module _ {A B W : Type 0} (add : W → W → W) {ma : Matcher A W} {mb : Matcher B W} {sa : Spec A W}
    {sb : Spec B W} (ia : Implements ma sa) (ib : Implements mb sb) where
  shorter :
      (t : ℕ) (p : ℕ × W) (ps : List (ℕ × W)) (q : ℕ × W) (qs : List (ℕ × W))
      → ltb p.0 t ≡ true
      → q ∷ qs ≡ from t (p ∷ ps)
      → length (q ∷ qs) ≤ length ps
  shorter t p ps q qs h e = omega (arith, ap length (e ∙ from_below t p ps h), length-from t ps)

  nil-Aligned : {xs : List (ℕ × W)} (ys : List (ℕ × W)) → xs ≡ [] → Aligned xs ys
  nil-Aligned ys e = rw e tt

  Aligned-nil : (xs : List (ℕ × W)) {ys : List (ℕ × W)} → ys ≡ [] → Aligned xs ys
  Aligned-nil [] e = tt
  Aligned-nil (x ∷ xs) e = rw e tt

  pub loop-synced :
      (fuel : ℕ) (x : ℕ × W) (xs : List (ℕ × W)) (y : ℕ × W) (ys : List (ℕ × W)) (a : A) (b : B)
      → sa.IsValid a
      → sb.IsValid b
      → sa.view a ≡ x ∷ xs
      → sb.view b ≡ y ∷ ys
      → length xs + length ys < fuel
      → Moves
          (inter_spec add sa sb)
          (find_next_loop add ma mb fuel x.0 y.0 a b)
          (inter add (x ∷ xs) (y ∷ ys))
  unfolding find_next_loop
  loop-synced zero x xs y ys a b va vb wa wb h = absurd (omega arith)
  loop-synced (suc fuel) x xs y ys a b va vb wa wb h =
      let sx : IsSorted (x ∷ xs) = rw wa at (ia.sorted a va) in
      let sy : IsSorted (y ∷ ys) = rw wb at (ib.sorted b vb) in
      rw (ia.active a va, wa, ib.active b vb, wb)
        (elim (Bool-cases (x.0 == y.0)) [
          | inl eq ↦ rw eq (
            record { a = a; b = b },
            refl,
            record { left = va; right = vb; aligned = rw (wa, wb) ((==_iff x.0 y.0).0 eq) },
            rw (wa, wb) refl,
          )
          | inr ne ↦ rw ne (elim (Bool-cases (ltb x.0 y.0)) [
            | inl lt ↦
                let (a1, ea, va1, wa1) = ia.skip_to_lem y.0 a x xs va wa in
                let same : inter add (from y.0 (x ∷ xs)) (y ∷ ys) ≡ inter add (x ∷ xs) (y ∷ ys) =
                  inter-from_left add (x ∷ xs) y ys sy in
                rw (lt, ea)
                  (elim (List-cases (sa.view a1)) [
                    | inl out ↦
                        rw (ia.active a1 va1, out)
                          (
                            record { a = a1; b = b },
                            refl,
                            record { left = va1; right = vb; aligned = nil-Aligned _ out },
                            rw (wa1, wb) same,
                          )
                    | inr (x', xs', wx) ↦
                        let (a2, ea2, va2, wa2) = ia.id_lem a1 x' xs' va1 wx in
                        let e : x' ∷ xs' ≡ from y.0 (x ∷ xs) = sym wx ∙ wa1 in
                        let target : inter add (x' ∷ xs') (y ∷ ys) ≡ inter add (x ∷ xs) (y ∷ ys) =
                          ap (λ l. inter add l (y ∷ ys)) e ∙ same in
                        rw (ia.active a1 va1, wx, ea2)
                          (rw (← target) (
                            loop-synced fuel x' xs' y ys a2 b va2 vb wa2 wb
                              (omega (arith, shorter y.0 x xs x' xs' lt e))))
                  ])
            | inr ge ↦
                let gt : y.0 < x.0 = ground arith in
                let (b1, eb, vb1, wb1) = ib.skip_to_lem x.0 b y ys vb wb in
                let same : inter add (x ∷ xs) (from x.0 (y ∷ ys)) ≡ inter add (x ∷ xs) (y ∷ ys) =
                  inter-from_right add x xs (y ∷ ys) sx in
                rw (ge, eb)
                  (elim (List-cases (sb.view b1)) [
                    | inl out ↦
                        rw (ib.active b1 vb1, out)
                          (
                            record { a = a; b = b1 },
                            refl,
                            record { left = va; right = vb1; aligned = Aligned-nil _ out },
                            rw (wa, wb1) same,
                          )
                    | inr (y', ys', wy) ↦
                        let (b2, eb2, vb2, wb2) = ib.id_lem b1 y' ys' vb1 wy in
                        let e : y' ∷ ys' ≡ from x.0 (y ∷ ys) = sym wy ∙ wb1 in
                        let target : inter add (x ∷ xs) (y' ∷ ys') ≡ inter add (x ∷ xs) (y ∷ ys) =
                          ap (λ l. inter add (x ∷ xs) l) e ∙ same in
                        rw (ib.active b1 vb1, wy, eb2)
                          (rw (← target) (
                            loop-synced fuel x xs y' ys' a b2 va vb2 wa wb2
                              (omega (arith, shorter x.0 y ys y' ys' (lt→ltb _ _ gt) e))))
                  ])
          ])
        ])
