-- ===== src/Automata/Nfa/Steps.antt =====
-- The loops of an NFA end, and its steps stay within the states that its transitions lead to.
use whooshy.Common.{
  ℕ, zero, suc, ◌+◌, ◌≤◌, ◌<◌, ◌≡◌, refl, sym, ◌∙◌, true, false, not, ◌&&◌, ◌||◌, List, [], ◌∷◌,
  ◌++◌, arith, length, if◌then◌else◌, ◌==◌, ==_iff, Bool-cases, inl, inr, ◌⊎◌,
}
use whooshy.Common.Result.{ok}
use whooshy.Common.Dict.{get}
use whooshy.Common.Sets.{
  member, Rises, insert, update, difference, member-insert, member-update, member-difference,
  update-Rises, length-insert, insert_there,
}
use whooshy.Automata.Labels.{Label, epsilon, any, label_keys, number_keys}
use whooshy.Automata.Nfa.{
  Transitions, Nfa, set_or, dests, row_dests, all_dests, expand_loop, expand, collect, next_state,
}

-- Each member of the first list is one of the second.
abbrev pub Within : List ℕ → List ℕ → Type 0
Within xs ys = (j : ℕ) → member j xs ≡ true → member j ys ≡ true

member-append : (j : ℕ) (xs ys : List ℕ) → member j (xs ++ ys) ≡ (member j xs || member j ys)
member-append j [] ys = refl
member-append j (x ∷ xs) ys = rw (member-append j xs ys) (ground arith)

row-Within : (l : Label) (xs : List (Label × List ℕ)) → Within (set_or (get l xs)) (row_dests xs)
row-Within l [] j h = h
row-Within l (p ∷ xs) j h = elim (Bool-cases (label_keys.eq p.0 l)) [
  | inl here ↦ rw (member-append j p.1 (row_dests xs), rw here at h) refl
  | inr later ↦
      rw (member-append j p.1 (row_dests xs), row-Within l xs j (rw later at h)) (ground arith)
]

pub dests-Within : (t : Transitions) (s : ℕ) (l : Label) → Within (dests t s l) (all_dests t)
dests-Within [] s l j h = h
dests-Within (p ∷ t) s l j h = elim (Bool-cases (p.0 == s)) [
  | inl here ↦
      rw (member-append j (row_dests p.1) (all_dests t), row-Within l p.1 j (rw here at h)) refl
  | inr later ↦
      rw (member-append j (row_dests p.1) (all_dests t), dests-Within t s l j (rw later at h))
        (ground arith)
]

-- How many of the destinations are not reached, after one more state.
unseen-insert :
    (ds xs : List ℕ) (y : ℕ)
    → length (difference ds (insert y xs)) + (if member y ds && not (member y xs) then 1 else 0)
      ≤ length (difference ds xs)
unfolding difference
unseen-insert [] xs y = omega arith
unseen-insert (d ∷ ds) xs y = rw (member-insert d y xs) (elim (Bool-cases (d == y)) [
  | inl e ↦
      let same : d ≡ y = (==_iff d y).0 e in
      rw (e, same)
        (elim (Bool-cases (member y xs)) [
          | inl there ↦ ground (arith, there, unseen-insert ds xs y)
          | inr new ↦ ground (arith, new, unseen-insert ds xs y)
        ])
  | inr ne ↦ ground (arith, ne, unseen-insert ds xs y)
])

-- Each new state is either not reached or waits in the frontier already.
abbrev Waits : List ℕ → List ℕ → List ℕ → Type 0
Waits new frontier states =
    (j : ℕ) → member j new ≡ true → (member j states ≡ false) ⊎ (member j frontier ≡ true)

grow_one :
    (ds : List ℕ) (y : ℕ) (frontier states : List ℕ)
    → member y ds ≡ true
    → (member y states ≡ false) ⊎ (member y frontier ≡ true)
    → length (insert y frontier) + length (difference ds (insert y states))
      ≤ length frontier + length (difference ds states)
grow_one ds y frontier states h w = elim (Bool-cases (member y frontier)) [
  | inl there ↦
      let same = insert_there y frontier there in rw same (omega (arith, unseen-insert ds states y))
  | inr new ↦ elim w [
    | inl out ↦
        let u = unseen-insert ds states y in
        let u' = rw (h, out) at u in omega (arith, u', length-insert y frontier)
    | inr bad ↦ absurd (cc (bad, new))
  ]
]

grow :
    (ds new frontier states : List ℕ)
    → Within new ds
    → Waits new frontier states
    → length (update frontier new) + length (difference ds (update states new))
      ≤ length frontier + length (difference ds states)
unfolding update
grow ds [] frontier states h w = omega arith
grow ds (y ∷ ys) frontier states h w =
    let rest =
      grow ds ys (insert y frontier) (insert y states) (λ j m. h j (rw m (ground arith)))
        (λ j m. elim (Bool-cases (j == y)) [
          | inl e ↦ inr (rw (member-insert j y frontier, e) refl)
          | inr ne ↦ elim (w j (rw m (ground arith))) [
            | inl out ↦ inl (rw (member-insert j y states, ne, out) refl)
            | inr there ↦ inr (rw (member-insert j y frontier, there) (ground arith))
          ]
        ]) in
    let step : length (insert y frontier) + length (difference ds (insert y states))
        ≤ length frontier + length (difference ds states) =
      grow_one ds y frontier states (h y (ground arith)) (w y (ground arith)) in
    omega (arith, rest, step)

-- The loop ends; it adds to a set of states none but destinations.
expand_loop-Within :
    (fuel : ℕ) (t : Transitions) (frontier states : List ℕ)
    → length frontier + length (difference (all_dests t) states) < fuel
    → Rises 0 states
    → (r : List ℕ) × (expand_loop fuel t frontier states ≡ ok r)
      × Rises 0 r
      × ((j : ℕ) → member j r ≡ true → (member j states || member j (all_dests t)) ≡ true)
unfolding expand_loop
expand_loop-Within zero t frontier states h r = absurd (omega arith)
expand_loop-Within (suc fuel) t [] states h r = (states, refl, r, λ j m. rw m refl)
expand_loop-Within (suc fuel) t (state ∷ frontier) states h r =
    let ds = dests t state epsilon in
    let new = difference ds states in
    let out : (j : ℕ) → member j new ≡ true → member j states ≡ false =
      (λ j m. let m' = sym (member-difference j ds states) ∙ m in ground (arith, m')) in
    let inside : Within new (all_dests t) = (λ j m.
      let m' = sym (member-difference j ds states) ∙ m in
      dests-Within t state epsilon j (ground (arith, m'))) in
    let less = grow (all_dests t) new frontier states inside (λ j m. inl (out j m)) in
    let (res, e, rises, all) =
      expand_loop-Within fuel t (update frontier new) (update states new) (omega (arith, less))
        (update-Rises states new r) in
    (
      res,
      e,
      rises,
      λ j m.
          let a = all j m in
          let a' = rw (member-update j states new) at a in
          elim (Bool-cases (member j new)) [
            | inl fresh ↦ rw (inside j fresh) (ground arith)
            | inr old ↦ ground (arith, a', old)
          ],
    )

length-difference : (xs ys : List ℕ) → length (difference xs ys) ≤ length xs
unfolding difference
length-difference [] ys = omega arith
length-difference (x ∷ xs) ys = ground (arith, length-difference xs ys)

-- _expand ends for any set of states.
pub expand-Within :
    (t : Transitions) (states : List ℕ)
    → Rises 0 states
    → (r : List ℕ) × (expand t states ≡ ok r)
      × Rises 0 r
      × ((j : ℕ) → member j r ≡ true → (member j states || member j (all_dests t)) ≡ true)
unfolding expand
expand-Within t states r =
    expand_loop-Within (suc (length states + length (all_dests t))) t states states
      (omega (arith, length-difference (all_dests t) states)) r

collect-Within :
    (t : Transitions) (states : List ℕ) (l : Label) (found : List ℕ)
    → Rises 0 found
    → Within found (all_dests t)
    → Rises 0 (collect t states l found) × Within (collect t states l found) (all_dests t)
unfolding collect
collect-Within t [] l found r h = (r, h)
collect-Within t (state ∷ states) l found r h =
    collect-Within t states l (update (update found (dests t state l)) (dests t state any))
      (update-Rises _ (dests t state any) (update-Rises found (dests t state l) r))
      (λ j m.
        let m' = sym (member-update j (update found (dests t state l)) (dests t state any)) ∙ m in
        let m2 = rw (member-update j found (dests t state l)) at m' in
        elim (Bool-cases (member j found)) [
          | inl a ↦ h j a
          | inr a ↦ elim (Bool-cases (member j (dests t state l))) [
            | inl b ↦ dests-Within t state l j b
            | inr b ↦ dests-Within t state any j (ground (arith, m2, a, b))
          ]
        ])

-- A step of an automaton ends, in a set of destinations.
pub next_state-Within :
    (n : Nfa) (states : List ℕ) (l : Label)
    → (r : List ℕ) × (next_state n states l ≡ ok r) × Rises 0 r × Within r (all_dests n.transitions)
unfolding next_state
next_state-Within n states l =
    let (rises, within) = collect-Within n.transitions states l [] tt (λ j m. absurd (cc m)) in
    let (r, e, rises', all) =
      expand-Within n.transitions (collect n.transitions states l []) rises in
    (
      r,
      e,
      rises',
      λ j m. elim (Bool-cases (member j (collect n.transitions states l []))) [
        | inl a ↦ within j a
        | inr a ↦ let b = all j m in ground (arith, a, b)
      ],
    )
