-- ===== src/Matching/Inverse/Faults.antt =====
-- Where an InverseMatcher returns a document of its child.
use whooshy.Common.{
  ℕ, suc, ◌+◌, ◌-◌, ◌<◌, ◌≡◌, refl, Bool, true, false, not, ◌&&◌, some, List, ◌∷◌, arith, lt→ltb,
  le→ltb, ne→==, ==_iff,
}
use mathlib.Core.Path.{subst}
use whooshy.Common.Result.{ok}
use whooshy.Matching.Postings.{find}
use whooshy.Matching.Interface.{Matcher, Spec, Implements}
use whooshy.Matching.Inverse.{InverseMatcher, skip_missing, pass_loop, catch_up, inverse_find_next}

skip_missing_here :
    (fuel limit : ℕ) (missing : ℕ → Bool) (n : ℕ)
    → missing n ≡ false
    → skip_missing (suc fuel) limit missing n ≡ ok n
unfolding skip_missing
skip_missing_here fuel limit missing n h = rw h (ground arith)

find_third :
    {W : Type 0} (n : ℕ) (w0 w1 w2 : W) (ps : List (ℕ × W))
    → find (n + 2) ((n, w0) ∷ (n + 1, w1) ∷ (n + 2, w2) ∷ ps) ≡ some w2
unfolding find
find_third n w0 w1 w2 ps = ground arith

module _ {C W : Type 0} {m : Matcher C W} {sp : Spec C W} (im : Implements m sp) where
  -- Three rounds of the loop: over a document of the child, over a missing one that the child has
  -- too, and the round that stops, since the child has fallen behind.
  pass_loop_behind :
      (fuel limit : ℕ) (missing : ℕ → Bool) (n : ℕ) (c : C) (w0 w1 w2 : W) (ps : List (ℕ × W))
      → sp.IsValid c
      → sp.view c ≡ (n, w0) ∷ (n + 1, w1) ∷ (n + 2, w2) ∷ ps
      → missing n ≡ false
      → missing (n + 1) ≡ true
      → missing (n + 1 + 1) ≡ false
      → n + 2 < limit
      → (c' : C) × (pass_loop m (suc (suc (suc fuel))) limit missing n c ≡ ok (n + 1 + 1, c'))
  unfolding pass_loop
  pass_loop_behind fuel limit missing n c w0 w1 w2 ps v w here gone there h =
      let (c1, e1, v1, x1) = im.id_lem c (n, w0) _ v w in
      let (c2, e2, v2, x2) = im.next_lem c1 (n, w0) _ v1 x1 in
      let (c3, e3, v3, x3) = im.id_lem c2 (n + 1, w1) _ v2 x2 in
      rw
        (
          im.active c v,
          w,
          lt→ltb n limit (omega arith),
          here,
          e1,
          (==_iff n n).1 refl,
          e2,
          im.active c2 v2,
          x2,
          lt→ltb (n + 1) limit (omega arith),
          gone,
          lt→ltb (n + 1 + 1) limit (omega arith),
          there,
          e3,
          ne→== (n + 1 + 1) (n + 1) (λ q. absurd (omega arith)),
        )
        (_, refl)

  catch_up_here :
      (n : ℕ) (c : C) (w0 : W) (ps : List (ℕ × W))
      → sp.IsValid c
      → sp.view c ≡ (n, w0) ∷ ps
      → (c' : C) × (catch_up m n c ≡ ok c') × sp.IsValid c' × (sp.view c' ≡ (n, w0) ∷ ps)
  unfolding catch_up
  catch_up_here n c w0 ps v w =
      let (c1, e1, v1, w1) = im.id_lem c (n, w0) ps v w in
      rw (im.active c v, w, e1, le→ltb n n (omega arith)) (c1, refl, v1, w1)

  -- Over a child that does what the interface promises: where the child has three successive
  -- documents from the current one on, all below the limit, and of them only the middle one is
  -- missing, _find_next stops at the third one, although the child has it.
  pub inverse_find_next_leaks :
      (s : InverseMatcher C W) (w0 w1 w2 : W) (ps : List (ℕ × W))
      → sp.IsValid s.child
      → sp.view s.child ≡ (s.at, w0) ∷ (s.at + 1, w1) ∷ (s.at + 2, w2) ∷ ps
      → s.missing s.at ≡ false
      → s.missing (s.at + 1) ≡ true
      → s.missing (s.at + 2) ≡ false
      → s.at + 2 < s.limit
      → (s' : InverseMatcher C W) × (inverse_find_next m s ≡ ok s')
        × (s'.at ≡ s.at + 2)
        × (find s'.at (sp.view s.child) ≡ some w2)
  unfolding inverse_find_next
  inverse_find_next_leaks s w0 w1 w2 ps v w here gone there h =
      let two : s.at + 1 + 1 ≡ s.at + 2 = omega arith in
      let (c1, e1, v1, x1) = catch_up_here s.at s.child w0 _ v w in
      let (c', e) =
        pass_loop_behind (s.limit - s.at - 2) s.limit s.missing s.at c1 w0 w1 w2 ps v1 x1 here gone
          (rw two there) h in
      let fuel : suc (suc (suc (s.limit - s.at - 2))) ≡ suc (s.limit - s.at) = omega arith in
      let e' : pass_loop m (suc (s.limit - s.at)) s.limit s.missing s.at c1
          ≡ ok (s.at + 1 + 1, c') =
        subst (λ f. pass_loop m f s.limit s.missing s.at c1 ≡ ok (s.at + 1 + 1, c')) fuel e in
      let guard : (not (m.is_active s.child) && not (s.missing s.at)) ≡ false =
        rw (im.active s.child v, w) refl in
      rw (guard, skip_missing_here (s.limit - s.at) s.limit s.missing s.at here, e1, e')
        (_, refl, two, rw (two, w) (find_third s.at w0 w1 w2 ps))
