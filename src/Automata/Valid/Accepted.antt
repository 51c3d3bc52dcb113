-- ===== src/Automata/Valid/Accepted.antt =====
-- What next_valid_string returns.
use whooshy.Common.{
  ℕ, zero, suc, ◌≡◌, refl, sym, ◌∙◌, ap, Bool, true, false, Option, none, some, List, [], ◌∷◌, ◌++◌,
  Bool-cases, Option-cases, inl, inr,
}
use whooshy.Common.Result.{ok, Result-cases}
use whooshy.Common.Dict.{Eq, get}
use whooshy.Automata.Labels.{char}
use whooshy.Automata.Dfa.{Dfa, next_state, accept, accept_from}
use whooshy.Automata.Valid.{
  Cached, Entry, following, has_edge, cached_labels, find_next_edge, step, final, follow,
  wall_follow, next_valid_string,
}

module _ {K : Type 0} ⦃e : Eq K⦄ where
  -- The state that a string leads to.
  abbrev pub walk : Dfa K → Option K → List ℕ → Option K
  walk d state [] = state
  walk d state (c ∷ w) = walk d (step d state c) w

  walk-append :
      (d : Dfa K) (state : Option K) (w : List ℕ) (c : ℕ)
      → walk d state (w ++ c ∷ []) ≡ step d (walk d state w) c
  walk-append d state [] c = refl
  walk-append d state (x ∷ w) c = walk-append d (step d state x) w c

  abbrev Leads : Dfa K → List (Entry K) → Type 0
  Leads d [] = Unit
  Leads d ((path, state, label) ∷ stack) = (walk d (some d.initial) path ≡ state) × Leads d stack

  cached_labels-dfa : (m : Cached K) (s : K) → (cached_labels m s).1.dfa ≡ m.dfa
  unfolding cached_labels
  cached_labels-dfa m s = elim (Option-cases (get s m.outlabels)) [
    | inl new ↦ rw (cached_labels, new) refl
    | inr (labels, old) ↦ rw (cached_labels, old) refl
  ]

  ap_dfa : {a b : Cached K} → a ≡ b → b.dfa ≡ a.dfa
  ap_dfa h = sym (ap (λ (m : Cached K). m.dfa) h)

  find_next_edge-dfa :
      (m m' : Cached K) (state : Option K) (label edge : Option ℕ)
      → find_next_edge m state label ≡ ok (edge, m')
      → m'.dfa ≡ m.dfa
  unfolding find_next_edge
  find_next_edge-dfa m m' none label edge h = elim (Result-cases (following label)) [
    | inl (next, g) ↦ let h' = rw g at h in let q : m ≡ m' = cc h' in ap_dfa q
    | inr (x, g) ↦ absurd (let h' = rw g at h in cc h')
  ]
  find_next_edge-dfa m m' (some s) label edge h = elim (Result-cases (following label)) [
    | inl (next, g) ↦ elim (Bool-cases (has_edge m s next)) [
      | inl here ↦ let h' = rw (g, here) at h in let q : m ≡ m' = cc h' in ap_dfa q
      | inr later ↦
          let h' = rw (g, later) at h in
          let q : (cached_labels m s).1 ≡ m' = cc h' in ap_dfa q ∙ cached_labels-dfa m s
    ]
    | inr (x, g) ↦ absurd (let h' = rw g at h in cc h')
  ]

  wall_follow-final :
      (fuel : ℕ) (m m' : Cached K) (stack : List (Entry K)) (w : List ℕ)
      → Leads m.dfa stack
      → wall_follow fuel m stack ≡ ok (some w, m')
      → final m.dfa (walk m.dfa (some m.dfa.initial) w) ≡ true
  unfolding wall_follow
  wall_follow-final zero m m' stack w l h = absurd (cc h)
  wall_follow-final (suc fuel) m m' [] w l h = absurd (cc h)
  wall_follow-final (suc fuel) m m' ((path, state, label) ∷ stack) w l h =
      elim (Result-cases (find_next_edge m state label)) [
        | inr (x, g) ↦ absurd (let h' = rw g at h in cc h')
        | inl ((none, m1), g) ↦
            let same = find_next_edge-dfa m m1 state label none g in
            let h' = rw g at h in
            rw (← same) (wall_follow-final fuel m1 m' stack w (rw same l.1) h')
        | inl ((some c, m1), g) ↦
            let same = find_next_edge-dfa m m1 state label (some c) g in
            let leads =
              walk-append m.dfa (some m.dfa.initial) path c ∙ ap (λ q. step m.dfa q c) l.0 in
            elim (Bool-cases (final m.dfa (step m.dfa state c))) [
              | inl accepted ↦
                  let h' : ok (some (path ++ c ∷ []), m1) ≡ ok (some w, m') =
                    rw (g, accepted) at h in
                  let e' : path ++ c ∷ [] ≡ w = cc h' in rw (← e', leads) accepted
              | inr rejected ↦
                  let h' = rw (g, rejected) at h in
                  let kept : Leads m1.dfa stack = rw same l.1 in
                  let leads' : walk m1.dfa (some m1.dfa.initial) (path ++ c ∷ [])
                      ≡ step m.dfa state c =
                    rw same leads in
                  rw (← same) (wall_follow-final fuel m1 m' _ w (leads', kept) h')
            ]
      ]

  -- Where the first loop ends as the automaton does.
  follow-accept :
      (truthy : K → Bool) (d : Dfa K) (path : List ℕ) (s : K) (stack : List (Entry K)) (w : List ℕ)
      → walk d (some d.initial) path ≡ some s
      → Leads d stack
      → (final d (follow truthy d path (some s) stack w).0 ≡ accept_from truthy d s w)
        × Leads d (follow truthy d path (some s) stack w).1
  unfolding follow accept_from
  follow-accept truthy d path s stack [] h l = (refl, (h, l))
  follow-accept truthy d path s stack (c ∷ w) h l = elim (Option-cases (next_state d s (char c))) [
    | inl g ↦ rw (g, accept_from) (refl, (h, l))
    | inr (q, g) ↦ elim (Bool-cases (truthy q)) [
      | inr falsy ↦ rw (g, falsy, accept_from) (refl, (h, l))
      | inl there ↦
          rw (g, there, accept_from)
            (follow-accept truthy d (path ++ c ∷ []) q ((path, some s, some c) ∷ stack) w
              (walk-append d (some d.initial) path c ∙ rw (h, g) refl) (h, l))
    ]
  ]

  -- A string that the automaton accepts is returned as it is; for any other string, whatever is
  -- returned in the end leads the automaton to a final state.
  pub next_valid_string-final :
      (fuel : ℕ) (truthy : K → Bool) (m : Cached K) (string : List ℕ)
      → (accept truthy m.dfa string ≡ true
          → next_valid_string fuel truthy m string ≡ ok (some string, m))
        × (accept truthy m.dfa string ≡ false
            → (w : List ℕ) (m' : Cached K)
            → next_valid_string fuel truthy m string ≡ ok (some w, m')
            → final m.dfa (walk m.dfa (some m.dfa.initial) w) ≡ true)
  unfolding next_valid_string accept
  next_valid_string-final fuel truthy m string =
      let (same, leads) = follow-accept truthy m.dfa [] m.dfa.initial [] string refl tt in
      (
        λ a. rw (same, a) refl,
        λ a w m' h. wall_follow-final fuel m m' _ w leads (rw (same, a) at h),
      )
