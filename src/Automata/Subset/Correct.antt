-- ===== src/Automata/Subset/Correct.antt =====
-- The automaton that to_dfa makes accepts what the original accepts.
use whooshy.Common.{
  ℕ, zero, suc, ◌+◌, ◌<◌, ◌≡◌, refl, ◌∙◌, true, List, ◌∷◌, arith, length, Bool-cases, List-cases,
  inl, inr, ◌⊎◌,
}
use whooshy.Common.Result.{ok}
use whooshy.Common.Dict.{mem}
use whooshy.Automata.Labels.{Label, label_keys, list_eq, list_eq_iff, set_keys}
use whooshy.Automata.Nfa.{Nfa, all_dests}
use whooshy.Automata.Nfa
use whooshy.Automata.Dfa.{Dfa}
use whooshy.Automata.Subset.{States, Search, mark_final, take_labels, subset_loop}
use whooshy.Automata.Subset.Termination.{missing}
use whooshy.Automata.Subset.Invariant.{
  targets, Sound, Has, Grows, Grows-trans, mark_final-Grows, mark_final-Sound,
}
use whooshy.Automata.Subset.Passes.{take_labels-Kept}

-- The set has been taken from the frontier: it has an entry for each of its labels.
pub record Taken (n : Nfa) (d : Dfa States) (q : States) : Type 0 where
  pub has : (l : Label) → mem l (Nfa.get_labels n q) ≡ true → Has d q l
  pub marks : Nfa.is_final n q ≡ true → mem q d.final_states ≡ true

Taken-Grows : (n : Nfa) (d d' : Dfa States) (q : States) → Grows d d' → Taken n d q → Taken n d' q
Taken-Grows n d d' q g t = record {
  has = λ l m. g.has q l (t.has l m);
  marks = λ f. g.final q (t.marks f);
}

-- The set waits in the frontier or has been taken from it.
abbrev pub Handled : Nfa → Search → States → Type 0
Handled n s q = (mem q s.frontier ≡ true) ⊎ Taken n s.dfa q

pub record Complete (n : Nfa) (q0 : States) (d : Dfa States) : Type 0 where
  pub seen : List States
  pub sound : Sound n seen d
  pub begins : d.initial ≡ q0
  pub initial_taken : Taken n d q0
  pub taken : (q : States) → mem q seen ≡ true → Taken n d q

one_round :
    (n : Nfa) (current : States) (rest : List States) (s : Search)
    → s.frontier ≡ current ∷ rest
    → Sound n s.seen s.dfa
    → (s' : Search) × (take_labels n current
          (Nfa.get_labels n current)
          (record s { frontier = rest; dfa = mark_final n current s.dfa })
        ≡ ok s')
      × Sound n s'.seen s'.dfa
      × (s'.dfa.initial ≡ s.dfa.initial)
      × (length s'.frontier + missing (targets n) s'.seen
          < length s.frontier + missing (targets n) s.seen)
      × ((q : States) → Handled n s q → Handled n s' q)
      × ((q : States) → mem q s'.seen ≡ true → (mem q s.seen ≡ true) ⊎ (mem q s'.frontier ≡ true))
one_round n current rest s e h =
    let (h1, marked) = mark_final-Sound n current s.seen s.dfa h in
    let g1 = mark_final-Grows n current s.dfa in
    let s1 : Search = record s { frontier = rest; dfa = mark_final n current s.dfa } in
    let (s', e', (h', p), has) =
      take_labels-Kept n current (Nfa.get_labels n current) s1 (λ l m. m) h1 in
    let g = Grows-trans s.dfa s1.dfa s'.dfa g1 p.grows in
    let shorter : length s.frontier ≡ suc (length rest) = rw e refl in
    (
      s',
      e',
      h',
      g.same_initial,
      omega (arith, p.bounded, shorter),
      λ q x. elim x [
        | inl waiting ↦ elim (Bool-cases (list_eq q current)) [
          | inl same ↦
              let e2 = (list_eq_iff q current).0 same in
              inr (rw e2 record { has = has; marks = λ f. p.grows.final current (marked f) })
          | inr other ↦ inl (p.waits q (let w = rw e at waiting in rw other at w))
        ]
        | inr t ↦ inr (Taken-Grows n s.dfa s'.dfa q g t)
      ],
      p.found,
    )

pub subset_loop-Complete :
    (fuel : ℕ) (n : Nfa) (q0 : States) (s : Search)
    → length s.frontier + missing (targets n) s.seen < fuel
    → Sound n s.seen s.dfa
    → s.dfa.initial ≡ q0
    → Handled n s q0
    → ((q : States) → mem q s.seen ≡ true → Handled n s q)
    → (d : Dfa States) × (subset_loop fuel n s ≡ ok d) × Complete n q0 d
unfolding subset_loop
subset_loop-Complete zero n q0 s less h i initial_taken all = absurd (omega arith)
subset_loop-Complete (suc fuel) n q0 s less h i initial_taken all = elim (List-cases s.frontier) [
  | inl e ↦
      let taken : (q : States) → Handled n s q → Taken n s.dfa q =
        (λ q x. elim x [ inl w ↦ absurd (let bad = rw e at w in cc bad) | inr t ↦ t ]) in
      (
        s.dfa,
        rw e refl,
        record {
          seen = s.seen;
          sound = h;
          begins = i;
          initial_taken = taken q0 initial_taken;
          taken = λ q m. taken q (all q m);
        },
      )
  | inr (current, rest, e) ↦
      let (s', e', h', i', less', kept, found) = one_round n current rest s e h in
      let (d, e2, c) =
        subset_loop-Complete fuel n q0 s' (omega (arith, less, less')) h' (i' ∙ i)
          (kept q0 initial_taken)
          (λ q m. elim (found q m) [ inl old ↦ kept q (all q old) | inr w ↦ inl w ]) in
      (d, rw (e, e') e2, c)
]
