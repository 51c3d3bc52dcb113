-- ===== src/Matching/Multi/Serial.antt =====
-- The current sub-matcher of a MultiMatcher.
use whooshy.Common.{
  ℕ, zero, suc, ◌+◌, ◌-◌, ◌≤◌, ◌<◌, ◌≡◌, refl, true, false, ltb, List, [], ◌∷◌, length, get_elem?,
  some, none, arith, Bool-cases, inl, inr, ◌==◌, ==_iff,
}
use whooshy.Common.Result.{ok}
use whooshy.Matching.Interface.{Matcher}
use whooshy.Matching.Multi.{MultiMatcher, next_matcher_loop, next_matcher}

module _ {C W : Type 0} (m : Matcher C W) where
  -- From position `k` on, `k'` is the first one with an active sub-matcher, or the end.
  pub record IsNext (ms : List C) (k k' : ℕ) : Type 0 where
    pub later : k ≤ k'
    pub active : (c : C) → get_elem? ms k' ≡ some c → m.is_active c ≡ true
    pub passed : (j : ℕ) (c : C) → k ≤ j → j < k' → get_elem? ms j ≡ some c → m.is_active c ≡ false

  at : (ms : List C) (k : ℕ) → k < length ms → (c : C) × (get_elem? ms k ≡ some c)
  at [] k h = absurd (omega arith)
  at (c ∷ cs) zero h = (c, refl)
  at (c ∷ cs) (suc k) h = at cs k (omega arith)

  beyond : (ms : List C) (k : ℕ) → length ms ≤ k → get_elem? ms k ≡ none
  beyond [] k h = refl
  beyond (c ∷ cs) zero h = absurd (omega arith)
  beyond (c ∷ cs) (suc k) h = beyond cs k (omega arith)

  next_matcher_loop-IsNext :
      (fuel : ℕ) (ms : List C) (k : ℕ)
      → length ms - k < fuel
      → (k' : ℕ) × (next_matcher_loop m fuel ms k ≡ ok k') × IsNext ms k k'
  unfolding next_matcher_loop
  next_matcher_loop-IsNext zero ms k h = absurd (omega arith)
  next_matcher_loop-IsNext (suc fuel) ms k h = elim (Bool-cases (ltb k (length ms))) [
    | inr out ↦
        let none_there = beyond ms k (ground arith) in
        (
          k,
          rw out refl,
          record {
            later = omega arith;
            active = λ c e. absurd (cc (none_there, e));
            passed = λ j c a b. absurd (omega arith);
          },
        )
    | inl within ↦
        let (c, g) = at ms k (ground arith) in
        elim (Bool-cases (m.is_active c)) [
          | inl on ↦ (
            k,
            rw (within, g, on) refl,
            record {
              later = omega arith;
              active = λ d e. let same : c ≡ d = cc (g, e) in rw same at on;
              passed = λ j d a b. absurd (omega arith);
            },
          )
          | inr off ↦
              let (k', e, n) = next_matcher_loop-IsNext fuel ms (k + 1) (ground arith) in
              (
                k',
                rw (within, g, off) e,
                record {
                  later = omega (arith, n.later);
                  active = n.active;
                  passed = λ j d a b e. elim (Bool-cases (k == j)) [
                    | inl eq ↦
                        let same : k ≡ j = (==_iff k j).0 eq in
                        let one : c ≡ d = cc (g, e, same) in rw one at off
                    | inr ne ↦ n.passed j d (ground arith) b e
                  ];
                },
              )
        ]
  ]

  -- _next_matcher returns with the first active sub-matcher from the current one on as the current
  -- one, or none if none of them is active; the sub-matchers are not changed.
  pub next_matcher-IsNext :
      (s : MultiMatcher C)
      → (k : ℕ) × (next_matcher m s ≡ ok (record s { current = k })) × IsNext s.matchers s.current k
  unfolding next_matcher
  next_matcher-IsNext s =
      let (k, e, n) =
        next_matcher_loop-IsNext (suc (length s.matchers)) s.matchers s.current (omega arith) in
      (k, rw e refl, n)
