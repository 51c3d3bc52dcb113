-- ===== src/Automata/Subset/Language.antt =====
-- The automaton that to_dfa makes accepts what the original accepts.
use whooshy.Common.{
  ℕ, suc, ◌^◌, ◌≡◌, refl, sym, ◌∙◌, ap, Bool, true, false, none, some, List, [], ◌∷◌, arith, length,
  Bool-cases, List-cases, Option-cases, inl, inr, ◌⊎◌,
}
use whooshy.Common.Result.{ok}
use whooshy.Common.Dict.{mem, get}
use whooshy.Common.Sets.{update}
use whooshy.Automata.Labels.{any, char, label_keys, list_eq_iff, set_keys}
use whooshy.Automata.Nfa.{Nfa, all_dests}
use whooshy.Automata.Nfa
use whooshy.Automata.Nfa.Steps.{expand-Within}
use whooshy.Automata.Nfa.Labelled.{
  get_labels-Absent, next_state_other, next_state_nothing, is_final-nil,
}
use whooshy.Automata.Dfa.{Dfa, arcs, new_dfa}
use whooshy.Automata.Dfa
use whooshy.Automata.Subset.{States, to_dfa}
use whooshy.Automata.Subset.Termination.{missing-nil, length-subsets}
use whooshy.Automata.Subset.Invariant.{targets, Sound}
use whooshy.Automata.Subset.Correct.{Taken, Complete, subset_loop-Complete}

-- `if state`
pub nonempty : States → Bool
nonempty [] = false
nonempty (q ∷ qs) = true

same_final :
    (n : Nfa) (seen : List States) (d : Dfa States) (q : States)
    → Sound n seen d
    → Taken n d q
    → Nfa.is_final n q ≡ Dfa.is_final d q
unfolding Dfa.is_final
same_final n seen d q s t = elim (Bool-cases (Nfa.is_final n q)) [
  | inl yes_final ↦ rw (yes_final, t.marks yes_final) refl
  | inr not_final ↦ elim (Bool-cases (mem q d.final_states)) [
    | inl marked ↦ absurd (cc (s.finals q marked, not_final))
    | inr unmarked ↦ rw (not_final, unmarked) refl
  ]
]

-- A step of the original is an entry of the new automaton, or leads to no state at all.
Agrees : Nfa → List States → Dfa States → States → ℕ → Type 0
Agrees n seen d q c =
    ((r : States) × (Dfa.next_state d q (char c) ≡ some r)
      × (Nfa.next_state n q (char c) ≡ ok r)
      × (mem r seen ≡ true))
    ⊎ ((Dfa.next_state d q (char c) ≡ none) × (Nfa.next_state n q (char c) ≡ ok []))

same_step :
    (n : Nfa) (seen : List States) (d : Dfa States) (q : States) (c : ℕ)
    → Sound n seen d
    → Taken n d q
    → Agrees n seen d q c
unfolding Dfa.next_state Agrees
same_step n seen d q c s t = elim (Option-cases (get (char c) (arcs q d))) [
  | inl missing_arc ↦
      let absent : mem (char c) (Nfa.get_labels n q) ≡ false =
        elim (Bool-cases (mem (char c) (Nfa.get_labels n q))) [
          | inl labelled ↦
              let (r, g) = t.has (char c) labelled in
              absurd (let bad = sym missing_arc ∙ g in cc bad)
          | inr out ↦ out
        ] in
      let other = next_state_other n q (char c) (get_labels-Absent n q (char c) absent) in
      elim (Option-cases (get q d.defaults)) [
        | inl no_default ↦
            let absent_any : mem any (Nfa.get_labels n q) ≡ false =
              elim (Bool-cases (mem any (Nfa.get_labels n q))) [
                | inl labelled ↦
                    let (r, g) = t.has any labelled in
                    absurd (let bad = sym no_default ∙ g in cc bad)
                | inr out ↦ out
              ] in
            inr (
              rw (missing_arc, no_default, Dfa.next_state) refl,
              other ∙ next_state_nothing n q (get_labels-Absent n q any absent_any),
            )
        | inr (r, g) ↦
            let (step, m, a) = s.default q r g in
            inl (r, rw (missing_arc, g, Dfa.next_state) refl, other ∙ step, m)
      ]
  | inr (r, g) ↦ let (step, m) = s.explicit q c r g in inl (r, rw (g, Dfa.next_state) refl, step, m)
]

same_accept :
    (n : Nfa) (q0 : States) (d : Dfa States) (c : Complete n q0 d) (q : States) (w : List ℕ)
    → Taken n d q
    → Nfa.accept_from n q w ≡ ok (Dfa.accept_from nonempty d q w)
unfolding Nfa.accept_from Dfa.accept_from Agrees nonempty
same_accept n q0 d c q [] t = ap ok (same_final n c.seen d q c.sound t)
same_accept n q0 d c q (l ∷ w) t = elim (same_step n c.seen d q l c.sound t) [
  | inl (r, e, e', m) ↦ elim (List-cases r) [
    | inl empty ↦
        rw (e, e', empty, Nfa.accept_from, Dfa.accept_from)
          (ap ok (same_final n c.seen d [] c.sound (c.taken [] (rw empty at m))))
    | inr (x, xs, full) ↦
        rw (e, e', full, Nfa.accept_from, Dfa.accept_from)
          (same_accept n q0 d c (x ∷ xs) w (c.taken (x ∷ xs) (rw full at m)))
  ]
  | inr (e, e') ↦ rw (e, e', Nfa.accept_from, Dfa.accept_from) (ap ok (is_final-nil n))
]

begin-Sound : (n : Nfa) (q : States) → Sound n [] (new_dfa q)
unfolding new_dfa
begin-Sound n q = record {
  explicit = λ q c r g. absurd (cc g);
  default = λ q r g. absurd (cc g);
  finals = λ q m. absurd (cc m);
  marked = λ q m f. absurd (cc m);
}

-- The loop of to_dfa ends.
to_dfa-Complete :
    (n : Nfa)
    → (q : States) × (d : Dfa States) × (Nfa.start n ≡ ok q) × (to_dfa n ≡ ok d) × Complete n q d
unfolding to_dfa Nfa.start new_dfa
to_dfa-Complete n =
    let (q, e, r, w) = expand-Within n.transitions (n.initial ∷ []) (omega arith, tt) in
    let all = missing-nil (targets n) in
    let size = length-subsets (update [] (all_dests n.transitions)) in
    let (d, e', c) =
      subset_loop-Complete (suc (suc (2 ^ length (update [] (all_dests n.transitions))))) n q
        (record { frontier = q ∷ []; seen = []; dfa = new_dfa q }) (omega (arith, all, size))
        (begin-Sound n q) refl (inl (rw ((list_eq_iff q q).1 refl) refl)) (λ q m. absurd (cc m)) in
    (q, d, e, rw e e', c)

-- For every automaton to_dfa ends, and returns an automaton that accepts the same strings as the
-- original.
pub to_dfa-accept :
    (n : Nfa)
    → (d : Dfa States) × (to_dfa n ≡ ok d)
      × ((w : List ℕ) → Nfa.accept n w ≡ ok (Dfa.accept nonempty d w))
unfolding Nfa.accept Dfa.accept
to_dfa-accept n =
    let (q, d, e, e', c) = to_dfa-Complete n in
    (d, e', λ w. rw (e, c.begins) (same_accept n q d c q w c.initial_taken))
