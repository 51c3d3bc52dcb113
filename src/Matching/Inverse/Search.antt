-- ===== src/Matching/Inverse/Search.antt =====
-- Where `_find_next` of an InverseMatcher stops.
use whooshy.Common.{
  ℕ, zero, suc, ◌+◌, ◌-◌, ◌≤◌, ◌<◌, ◌≡◌, ◌≢◌, refl, sym, ◌∙◌, ap, Bool, true, false, not, ◌&&◌,
  none, List, [], ◌∷◌, arith, ltb, ◌==◌, Bool-cases, List-cases, inl, inr, lt→ltb, ==_iff,
}
use whooshy.Common.Result.{Result, ok}
use whooshy.Matching.Postings.{
  IsSorted, find, from, find_before, nonempty, from_below, from-nil, from_head,
}
use whooshy.Matching.Interface.{Matcher, Spec, Implements}
use whooshy.Matching.Inverse.{InverseMatcher, skip_missing, pass_loop, catch_up, inverse_find_next}
use whooshy.Matching.Inverse.Documents.{
  Hidden, Starts, Clean, Starts-from, from-Starts, Starts-Above, find_head, find_other, find_here,
  Clean-from, Clean-tail,
}

skip_missing-first :
    (fuel limit : ℕ) (missing : ℕ → Bool) (n : ℕ)
    → limit - n < fuel
    → (k : ℕ) × (skip_missing fuel limit missing n ≡ ok k)
      × (n ≤ k)
      × (k < limit → missing k ≡ false)
      × ((j : ℕ) → n ≤ j → j < k → missing j ≡ true)
unfolding skip_missing
skip_missing-first zero limit missing n h = absurd (omega arith)
skip_missing-first (suc fuel) limit missing n h = elim (Bool-cases (ltb n limit)) [
  | inr out ↦
      (n, rw out refl, omega arith, λ k. absurd (ground arith), λ j a b. absurd (omega arith))
  | inl within ↦ elim (Bool-cases (missing n)) [
    | inr there ↦
        (n, rw (within, there) refl, omega arith, λ k. there, λ j a b. absurd (omega arith))
    | inl gone ↦
        let (k, e, low, stop, all) = skip_missing-first fuel limit missing (n + 1) (ground arith) in
        (
          k,
          rw (within, gone) e,
          omega arith,
          stop,
          λ j a b. elim (Bool-cases (n == j)) [
            | inl eq ↦ let same : n ≡ j = (==_iff n j).0 eq in rw same at gone
            | inr ne ↦ all j (ground arith) b
          ],
        )
  ]
]

module _ {C W : Type 0} {m : Matcher C W} {sp : Spec C W} (im : Implements m sp) where
  -- What the last loop of _find_next, from `n` on and over the postings `ps`, comes to.
  abbrev Passed : ℕ → (ℕ → Bool) → ℕ → List (ℕ × W) → Result (ℕ × C) → Type 0
  Passed limit missing n ps r =
      (k : ℕ) × (c : C) × (r ≡ ok (k, c))
      × (n ≤ k)
      × sp.IsValid c
      × (sp.view c ≡ from k ps)
      × (k < limit → find k ps ≡ none)
      × (k < limit → nonempty (sp.view c) ≡ true → missing k ≡ false)
      × ((j : ℕ) → n ≤ j → j < k → Hidden missing ps j)

  pass_loop-first :
      (fuel limit : ℕ) (missing : ℕ → Bool) (n : ℕ) (c : C) (ps : List (ℕ × W))
      → sp.IsValid c
      → sp.view c ≡ ps
      → Starts n ps
      → Clean missing ps
      → limit - n < fuel
      → Passed limit missing n ps (pass_loop m fuel limit missing n c)
  unfolding pass_loop
  pass_loop-first zero limit missing n c ps v w h clean room = absurd (omega arith)
  pass_loop-first (suc fuel) limit missing n c [] v w h clean room =
      rw (im.active c v, w)
        (
          n,
          c,
          refl,
          omega arith,
          v,
          w ∙ sym (from-nil n),
          λ k. unfold find in refl,
          λ k act. absurd (let act' : false ≡ true = rw w at act in cc act'),
          λ j a b. absurd (omega arith),
        )
  pass_loop-first (suc fuel) limit missing n c (p ∷ ps) v w h clean room =
      let sorted : IsSorted (p ∷ ps) = rw w at (im.sorted c v) in
      elim (Bool-cases (ltb n limit)) [
        | inr out ↦
            rw (im.active c v, w, out)
              (
                n,
                c,
                refl,
                omega arith,
                v,
                w ∙ sym (from-Starts n (p ∷ ps) sorted h),
                λ k. absurd (ground arith),
                λ k act. absurd (ground arith),
                λ j a b. absurd (omega arith),
              )
        | inl within ↦ elim (Bool-cases (missing n)) [
          | inl gone ↦
              let ne : p.0 ≢ n = (λ e. find_head n p ps e (clean n gone)) in
              let (k, c', e, low, v', w', absent, there, hidden) =
                pass_loop-first fuel limit missing (n + 1) c (p ∷ ps) v w (omega (arith, ne)) clean
                  (ground arith) in
              rw (im.active c v, w, within, gone)
                (
                  k,
                  c',
                  e,
                  omega arith,
                  v',
                  w',
                  absent,
                  there,
                  λ j a b. elim (Bool-cases (n == j)) [
                    | inl eq ↦ let same : n ≡ j = (==_iff n j).0 eq in inl (rw same at gone)
                    | inr other ↦ hidden j (ground arith) b
                  ],
                )
          | inr present ↦
              let (c1, e1, v1, w1) = im.id_lem c p ps v w in
              elim (Bool-cases (n == p.0)) [
                | inr other ↦
                    rw (im.active c v, w, within, present, e1, other)
                      (
                        n,
                        c1,
                        refl,
                        omega arith,
                        v1,
                        w1 ∙ sym (from-Starts n (p ∷ ps) sorted h),
                        λ k. find_before n p ps sorted (ground arith),
                        λ k act. present,
                        λ j a b. absurd (omega arith),
                      )
                | inl eq ↦
                    let same : n ≡ p.0 = (==_iff n p.0).0 eq in
                    let (c2, e2, v2, w2) = im.next_lem c1 p ps v1 w1 in
                    let begins : Starts (n + 1) ps =
                      rw (← same) at (Starts-Above p.0 ps sorted.0) in
                    let (k, c', e, low, v', w', absent, there, hidden) =
                      pass_loop-first fuel limit missing (n + 1) c2 ps v2 w2 begins
                        (Clean-tail missing p ps sorted clean) (ground arith) in
                    rw (im.active c v, w, within, present, e1, eq, e2)
                      (
                        k,
                        c',
                        e,
                        omega arith,
                        v',
                        w' ∙ sym (from_below k p ps (lt→ltb p.0 k (omega arith))),
                        λ r. find_other k p ps (λ q. absurd (omega arith)) ∙ absent r,
                        there,
                        λ j a b. elim (Bool-cases (p.0 == j)) [
                          | inl at_p ↦
                              let here : p.0 ≡ j = (==_iff p.0 j).0 at_p in
                              inr (find_head j p ps here)
                          | inr later ↦ elim (hidden j (ground arith) b) [
                            | inl gone ↦ inl gone
                            | inr found ↦ inr (rw (find_other j p ps (ground arith)) found)
                          ]
                        ],
                      )
              ]
        ]
      ]

  catch_up-from :
      (n : ℕ) (c : C)
      → sp.IsValid c
      → (c' : C) × (catch_up m n c ≡ ok c') × sp.IsValid c' × (sp.view c' ≡ from n (sp.view c))
  unfolding catch_up
  catch_up-from n c v = elim (List-cases (sp.view c)) [
    | inl w ↦ rw (im.active c v, w) (c, refl, v, w ∙ sym (from-nil n))
    | inr (p, ps, w) ↦
        let (c1, e1, v1, w1) = im.id_lem c p ps v w in
        let (c2, e2, v2, w2) = im.skip_to_lem n c1 p ps v1 w1 in
        elim (Bool-cases (ltb p.0 n)) [
          | inl behind ↦ rw (im.active c v, w, e1, behind, e2) (c2, refl, v2, w2)
          | inr on ↦
              rw (im.active c v, w, e1, on)
                (c1, refl, v1, w1 ∙ sym (from_head n p ps (rw w at (im.sorted c v)) (ground arith)))
        ]
  ]

  inactive-view :
      (c : C) → sp.IsValid c → m.is_active c ≡ false → (j : ℕ) → find j (sp.view c) ≡ none
  inactive-view c v off j = elim (List-cases (sp.view c)) [
    | inl w ↦ rw w (unfold find in refl)
    | inr (p, ps, w) ↦
        let on : m.is_active c ≡ true = rw w at (im.active c v) in absurd (cc (on, off))
  ]

  -- Over a child that does what the interface promises: from any state whose child is valid and has
  -- no document that is missing, _find_next returns. It moves on past documents that are missing or
  -- that the child has, and past no others; it keeps the child's postings from there on; and, where
  -- it stops below the limit, it stops at a document that the child does not have.
  pub inverse_find_next-stops :
      (s : InverseMatcher C W)
      → sp.IsValid s.child
      → Clean s.missing (sp.view s.child)
      → (s' : InverseMatcher C W) × (inverse_find_next m s ≡ ok s')
        × (s.at ≤ s'.at)
        × sp.IsValid s'.child
        × ((j : ℕ) → s'.at ≤ j → find j (sp.view s'.child) ≡ find j (sp.view s.child))
        × (s'.at < s.limit → find s'.at (sp.view s.child) ≡ none)
        × ((j : ℕ) → s.at ≤ j → j < s'.at → Hidden s.missing (sp.view s.child) j)
  unfolding inverse_find_next
  inverse_find_next-stops s v clean =
      elim (Bool-cases (not (m.is_active s.child) && not (s.missing s.at))) [
        | inl idle ↦ rw idle (
          s,
          refl,
          omega arith,
          v,
          λ j h. refl,
          λ h. inactive-view s.child v (ground arith) s.at,
          λ j a b. absurd (omega arith),
        )
        | inr busy ↦
            let (n, e, low, stop, gone) =
              skip_missing-first (suc (s.limit - s.at)) s.limit s.missing s.at (omega arith) in
            let (c, ec, vc, wc) = catch_up-from n s.child v in
            let starts : Starts n (sp.view c) = rw wc (Starts-from n (sp.view s.child)) in
            let clean' : Clean s.missing (sp.view c) =
              rw wc (Clean-from s.missing n (sp.view s.child) clean) in
            let (k, c', ep, high, v', w', absent, there, hidden) =
              pass_loop-first (suc (s.limit - n)) s.limit s.missing n c (sp.view c) vc refl starts
                clean' (omega arith) in
            let same : (j : ℕ) → n ≤ j → find j (sp.view c) ≡ find j (sp.view s.child) =
              (λ j h. ap (find j) wc ∙ find_here j n (sp.view s.child) h) in
            let up : s.at ≤ k = omega (arith, low, high) in
            let after : (j : ℕ) → k ≤ j → find j (sp.view c') ≡ find j (sp.view s.child) = (λ j h.
              ap (find j) w' ∙ find_here j k (sp.view c) h ∙ same j (omega (arith, high))) in
            let not_there : k < s.limit → find k (sp.view s.child) ≡ none =
              (λ h. sym (same k high) ∙ absent h) in
            let passed : (j : ℕ) → s.at ≤ j → j < k → Hidden s.missing (sp.view s.child) j =
              (λ j a b. elim (Bool-cases (ltb j n)) [
                | inl before ↦ inl (gone j a (ground arith))
                | inr on ↦ elim (hidden j (ground arith) b) [
                  | inl missed ↦ inl missed
                  | inr found ↦ inr (λ q. found (same j (ground arith) ∙ q))
                ]
              ]) in
            rw (busy, e, ec, ep) (_, refl, up, v', after, not_there, passed)
      ]
