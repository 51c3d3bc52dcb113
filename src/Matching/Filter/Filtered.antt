-- ===== src/Matching/Filter/Filtered.antt =====
-- A FilterMatcher does what the interface promises on the postings that pass the filter.
use whooshy.Common.{
  ℕ, zero, suc, ◌<◌, ◌≡◌, refl, sym, ◌∙◌, ap, Bool, false, List, [], ◌∷◌, arith, length, inl, inr,
  List-cases, Bool-cases,
}
use whooshy.Common.Result.{ok}
use whooshy.Matching.Postings.{nonempty, from}
use whooshy.Matching.Postings.Select.{
  select, select-IsSorted, length-select, from-select, nil-select, select_drop, select_keep,
}
use whooshy.Matching.Interface.{Matcher, Spec, Moves, Reads, Implements}
use whooshy.Matching.Filter.{
  FilterMatcher, rejects, find_next_loop, filter_find_next, filter_init, filter_next,
  filter_skip_to, filter_id, filter_is_active, filter_score, filter_matcher, passed, FirstPasses,
  IsFiltered, filter_spec,
}

module _ {C W : Type 0} (boost : W → W) {m : Matcher C W} {sp : Spec C W}
    (im : Implements m sp) where
  kept :
      (rejected : ℕ → Bool) (x : ℕ × W) (xs : List (ℕ × W))
      → rejected x.0 ≡ false
      → select (passed boost sp rejected) (x ∷ xs)
        ≡ (x.0, boost x.1) ∷ select (passed boost sp rejected) xs
  kept rejected x xs e = select_keep (passed boost sp rejected) x xs (rw (passed, e) refl)

  loop-filtered :
      (fuel : ℕ) (rejected : ℕ → Bool) (ps : List (ℕ × W)) (c : C)
      → sp.IsValid c
      → sp.view c ≡ ps
      → length ps < fuel
      → (c' : C) × (find_next_loop boost m fuel rejected c ≡ ok c')
        × sp.IsValid c'
        × FirstPasses boost sp rejected (sp.view c')
        × (select (passed boost sp rejected) (sp.view c') ≡ select (passed boost sp rejected) ps)
  unfolding find_next_loop
  loop-filtered zero rejected ps c v w h = absurd (omega arith)
  loop-filtered (suc fuel) rejected [] c v w h =
      rw (im.active c v, w) (c, refl, v, rw w tt, rw w refl)
  loop-filtered (suc fuel) rejected (x ∷ xs) c v w h =
      let (c1, e1, v1, w1) = im.id_lem c x xs v w in
      rw (im.active c v, w, e1)
        (elim (Bool-cases (rejected x.0)) [
          | inr pass ↦ rw pass (c1, refl, v1, rw w1 pass, rw w1 refl)
          | inl fail ↦
              let (c2, e2, v2, w2) = im.next_lem c1 x xs v1 w1 in
              let drop = select_drop (passed boost sp rejected) x xs (rw (passed, fail) refl) in
              rw (fail, e2, drop) (loop-filtered fuel rejected xs c2 v2 w2 (omega arith))
        ])

  find_next-filtered :
      (s : FilterMatcher C)
      → sp.IsValid s.child
      → Moves
          (filter_spec boost sp)
          (filter_find_next boost m s)
          (select (passed boost sp (rejects s.exclude s.ids)) (sp.view s.child))
  unfolding filter_find_next
  find_next-filtered s v =
      let (c', e, v', first, w) =
        loop-filtered (suc (m.size s.child)) (rejects s.exclude s.ids) (sp.view s.child) s.child v
          refl (omega (arith, im.bounded s.child v)) in
      rw e (_, refl, record { inner = v'; passes = first }, w)

  -- The constructor brings any valid child to its first posting that passes, and the matcher then
  -- stands for the postings that pass.
  pub filter_init-filtered :
      (c : C) (ids : ℕ → Bool) (exclude : Bool)
      → sp.IsValid c
      → Moves
          (filter_spec boost sp)
          (filter_init boost m c ids exclude)
          (select (passed boost sp (rejects exclude ids)) (sp.view c))
  unfolding filter_init
  filter_init-filtered c ids exclude v =
      find_next-filtered (record { child = c; ids = ids; exclude = exclude }) v

  heads :
      (s : FilterMatcher C) (p : ℕ × W) (ps : List (ℕ × W))
      → IsFiltered boost sp s
      → select (passed boost sp (rejects s.exclude s.ids)) (sp.view s.child) ≡ p ∷ ps
      → (x : ℕ × W) × (xs : List (ℕ × W)) × (sp.view s.child ≡ x ∷ xs)
        × (p ≡ (x.0, boost x.1))
        × (ps ≡ select (passed boost sp (rejects s.exclude s.ids)) xs)
  heads s p ps v e = elim (List-cases (sp.view s.child)) [
    | inl w ↦
        let e' : [] ≡ p ∷ ps =
          sym (nil-select (passed boost sp (rejects s.exclude s.ids))) ∙ (rw w at e) in
        absurd (cc e')
    | inr (x, xs, w) ↦
        let step = kept (rejects s.exclude s.ids) x xs (rw w at v.passes) in
        let e' = sym step ∙ (rw w at e) in (x, xs, w, cc e', cc e')
  ]

  next-filtered :
      (s : FilterMatcher C) (p : ℕ × W) (ps : List (ℕ × W))
      → IsFiltered boost sp s
      → select (passed boost sp (rejects s.exclude s.ids)) (sp.view s.child) ≡ p ∷ ps
      → Moves (filter_spec boost sp) (filter_next boost m s) ps
  unfolding filter_next
  next-filtered s p ps v e =
      let (x, xs, w, ep, eps) = heads s p ps v e in
      let (c, ec, vc, wc) = m_next s x xs v w in
      rw (ec, eps, ← wc) (find_next-filtered (record s { child = c }) vc)
    where
      m_next :
          (s : FilterMatcher C) (x : ℕ × W) (xs : List (ℕ × W))
          → IsFiltered boost sp s
          → sp.view s.child ≡ x ∷ xs
          → Moves sp (m.next s.child) xs
      m_next s x xs v w = im.next_lem s.child x xs v.inner w

  skip_to-filtered :
      (t : ℕ) (s : FilterMatcher C) (p : ℕ × W) (ps : List (ℕ × W))
      → IsFiltered boost sp s
      → select (passed boost sp (rejects s.exclude s.ids)) (sp.view s.child) ≡ p ∷ ps
      → Moves (filter_spec boost sp) (filter_skip_to boost m t s) (from t (p ∷ ps))
  unfolding filter_skip_to
  skip_to-filtered t s p ps v e =
      let f = passed boost sp (rejects s.exclude s.ids) in
      let (x, xs, w, ep, eps) = heads s p ps v e in
      let (c, ec, vc, wc) = im.skip_to_lem t s.child x xs v.inner w in
      let target : select f (sp.view c) ≡ from t (p ∷ ps) =
        rw (wc, ← from-select t f (x ∷ xs)) (ap (from t) (rw w at e)) in
      rw (ec, ← target) (find_next-filtered (record s { child = c }) vc)

  id-filtered :
      (s : FilterMatcher C) (p : ℕ × W) (ps : List (ℕ × W))
      → IsFiltered boost sp s
      → select (passed boost sp (rejects s.exclude s.ids)) (sp.view s.child) ≡ p ∷ ps
      → Reads (filter_spec boost sp) (filter_id boost m s) p.0 (p ∷ ps)
  unfolding filter_id
  id-filtered s p ps v e =
      let (x, xs, w, ep, eps) = heads s p ps v e in
      let (c, ec, vc, wc) = im.id_lem s.child x xs v.inner w in
      let d : x.0 ≡ p.0 = cc ep in
      rw (ec, d)
        (_, refl, record { inner = vc; passes = rw wc (rw w at v.passes) }, rw wc (rw w at e))

  score-filtered :
      (s : FilterMatcher C) (p : ℕ × W) (ps : List (ℕ × W))
      → IsFiltered boost sp s
      → select (passed boost sp (rejects s.exclude s.ids)) (sp.view s.child) ≡ p ∷ ps
      → Reads (filter_spec boost sp) (filter_score boost m s) p.1 (p ∷ ps)
  unfolding filter_score
  score-filtered s p ps v e =
      let (x, xs, w, ep, eps) = heads s p ps v e in
      let (c, ec, vc, wc) = im.score_lem s.child x xs v.inner w in
      let d : boost x.1 ≡ p.1 = cc ep in
      rw (ec, d)
        (_, refl, record { inner = vc; passes = rw wc (rw w at v.passes) }, rw wc (rw w at e))

  active-filtered :
      (s : FilterMatcher C)
      → IsFiltered boost sp s
      → filter_is_active boost m s
        ≡ nonempty (select (passed boost sp (rejects s.exclude s.ids)) (sp.view s.child))
  unfolding filter_is_active
  active-filtered s v = elim (List-cases (sp.view s.child)) [
    | inl w ↦ rw (im.active s.child v.inner, w, nil-select) refl
    | inr (x, xs, w) ↦
        rw (im.active s.child v.inner, w, kept (rejects s.exclude s.ids) x xs (rw w at v.passes))
          refl
  ]

  -- Over a matcher that does what the interface promises of is_active, id, score, next and skip_to,
  -- the filter does so too, on the child's postings whose documents are in the set, or are not if
  -- `exclude` is set, with boosted scores.
  pub filter_matcher-Implements : Implements (filter_matcher boost m) (filter_spec boost sp)
  filter_matcher-Implements = record {
    steps = record {
      sorted = λ s v. select-IsSorted _ (sp.view s.child) (im.sorted s.child v.inner);
      active = active-filtered;
      bounded = λ s v. omega (
        arith,
        length-select (passed boost sp (rejects s.exclude s.ids)) (sp.view s.child),
        im.bounded s.child v.inner,
      );
      id_lem = id-filtered;
      score_lem = score-filtered;
      next_lem = next-filtered;
    };
    skip_to_lem = skip_to-filtered;
  }
