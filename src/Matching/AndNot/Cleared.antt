-- ===== src/Matching/AndNot/Cleared.antt =====
-- The loop that leaves the first sub-matcher on a document that the second one lacks.
use whooshy.Common.{
  ℕ, zero, suc, ◌<◌, ◌≡◌, refl, ◌∙◌, ap, List, [], ◌∷◌, arith, length, ltb, ◌==◌, inl, inr,
  List-cases, Bool-cases, ==_iff,
}
use whooshy.Matching.Postings.{IsSorted, find, from, Clear, Reached, Reached-from, find_before}
use whooshy.Matching.Postings.Select.{minus, minus_same, minus-from_right}
use whooshy.Matching.Interface.{Matcher, Spec, Moves, Implements}
use whooshy.Matching.AndNot.{and_not_loop, and_not_find_next, and_not_spec}

module _ {A B W : Type 0} {ma : Matcher A W} {mb : Matcher B W} {sa : Spec A W} {sb : Spec B W}
    (ia : Implements ma sa) (ib : Implements mb sb) where
  pub Clear-nil : (xs ys : List (ℕ × W)) → ys ≡ [] → Clear xs ys
  unfolding find
  Clear-nil [] ys e = tt
  Clear-nil (x ∷ xs) ys e = rw e refl

  loop-cleared :
      (fuel : ℕ) (x : ℕ × W) (xs ys : List (ℕ × W)) (a : A) (b : B)
      → sa.IsValid a
      → sb.IsValid b
      → sa.view a ≡ x ∷ xs
      → sb.view b ≡ ys
      → Reached (x ∷ xs) ys
      → length xs < fuel
      → Moves (and_not_spec sa sb) (and_not_loop ma mb fuel x.0 a b) (minus (x ∷ xs) ys)
  unfolding and_not_loop
  loop-cleared zero x xs ys a b va vb wa wb r h = absurd (omega arith)
  loop-cleared (suc fuel) x xs [] a b va vb wa wb r h =
      rw (ia.active a va, wa, ib.active b vb, wb)
        (_, refl, record { left = va; right = vb; clear = Clear-nil _ _ wb }, rw (wa, wb) refl)
  loop-cleared (suc fuel) x xs (y ∷ ys) a b va vb wa wb r h =
      let sx : IsSorted (x ∷ xs) = rw wa at (ia.sorted a va) in
      let sy : IsSorted (y ∷ ys) = rw wb at (ib.sorted b vb) in
      let (b1, eb, vb1, wb1) = ib.id_lem b y ys vb wb in
      rw (ia.active a va, wa, ib.active b vb, wb, eb)
        (elim (Bool-cases (x.0 == y.0)) [
          | inr ne ↦ rw ne (
            _,
            refl,
            record {
              left = va;
              right = vb1;
              clear = rw (wa, wb1) (find_before x.0 y ys sy (ground arith));
            },
            rw (wa, wb1) refl,
          )
          | inl eq ↦
              let (a1, ea, va1, wa1) = ia.next_lem a x xs va wa in
              let same : minus (x ∷ xs) (y ∷ ys) ≡ minus xs (y ∷ ys) =
                minus_same x xs y ys ((==_iff x.0 y.0).0 eq) in
              rw (eq, ea, same)
                (elim (List-cases xs) [
                  | inl out ↦
                      let wa2 : sa.view a1 ≡ [] = wa1 ∙ out in
                      rw (ia.active a1 va1, wa2, out)
                        (
                          _,
                          refl,
                          record { left = va1; right = vb1; clear = rw wa2 tt },
                          rw (wa2, wb1) refl,
                        )
                  | inr (x', xs', more) ↦
                      let wa2 : sa.view a1 ≡ x' ∷ xs' = wa1 ∙ more in
                      let (a2, ea2, va2, wa3) = ia.id_lem a1 x' xs' va1 wa2 in
                      let (b2, eb2, vb2, wb2) = ib.skip_to_lem x'.0 b1 y ys vb1 wb1 in
                      let target : minus (x' ∷ xs') (from x'.0 (y ∷ ys))
                          ≡ minus (x' ∷ xs') (y ∷ ys) =
                        minus-from_right x'.0 x' xs' (y ∷ ys) (rw more at sx.1) (omega arith) in
                      rw (ia.active a1 va1, wa2, ea2, eb2, more, ← target)
                        (loop-cleared fuel x' xs' (from x'.0 (y ∷ ys)) a2 b2 va2 vb2 wa3 wb2
                          (Reached-from x' xs' (y ∷ ys)) (omega (arith, ap length more)))
                ])
        ])

  pub find_next-cleared :
      (a : A) (b : B) (x : ℕ × W) (xs : List (ℕ × W))
      → sa.IsValid a
      → sb.IsValid b
      → sa.view a ≡ x ∷ xs
      → Moves
          (and_not_spec sa sb)
          (and_not_find_next ma mb (record { a = a; b = b }))
          (minus (x ∷ xs) (sb.view b))
  unfolding and_not_find_next
  find_next-cleared a b x xs va vb wa = elim (List-cases (sb.view b)) [
    | inl wb ↦
        rw (ib.active b vb, wb)
          (_, refl, record { left = va; right = vb; clear = Clear-nil _ _ wb }, rw (wa, wb) refl)
    | inr (y, ys, wb) ↦
        let sx : IsSorted (x ∷ xs) = rw wa at (ia.sorted a va) in
        let (a1, ea, va1, wa1) = ia.id_lem a x xs va wa in
        let (b1, eb, vb1, wb1) = ib.id_lem b y ys vb wb in
        let room : length xs < suc (ma.size a) = omega (arith, ia.bounded a va, ap length wa) in
        rw (ib.active b vb, wb, ea, eb)
          (elim (Bool-cases (ltb y.0 x.0)) [
            | inl before ↦
                let (b2, eb2, vb2, wb2) = ib.skip_to_lem x.0 b1 y ys vb1 wb1 in
                let target : minus (x ∷ xs) (from x.0 (y ∷ ys)) ≡ minus (x ∷ xs) (y ∷ ys) =
                  minus-from_right x.0 x xs (y ∷ ys) sx (omega arith) in
                rw (before, eb2, ← target)
                  (loop-cleared _ x xs (from x.0 (y ∷ ys)) a1 b2 va1 vb2 wa1 wb2
                    (Reached-from x xs (y ∷ ys)) room)
            | inr after ↦
                rw after (loop-cleared _ x xs (y ∷ ys) a1 b1 va1 vb1 wa1 wb1 (ground arith) room)
          ])
  ]
