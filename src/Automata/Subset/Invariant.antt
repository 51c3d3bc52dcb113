-- ===== src/Automata/Subset/Invariant.antt =====
-- What the loops of to_dfa keep.
use whooshy.Common.{
  ℕ, ◌+◌, ◌≤◌, ◌≡◌, refl, sym, ◌∙◌, true, some, List, [], arith, length, Bool-cases, inl, inr, ◌⊎◌,
}
use whooshy.Common.Result.{ok}
use whooshy.Common.Dict.{mem, get, mem-include}
use whooshy.Common.Sets.{update, update-Rises, member-update}
use whooshy.Automata.Labels.{Label, epsilon, any, char, label_keys, list_eq, list_eq_iff, set_keys}
use whooshy.Automata.Nfa.{Nfa, all_dests}
use whooshy.Automata.Nfa
use whooshy.Automata.Nfa.Steps.{next_state-Within}
use whooshy.Automata.Dfa.{Dfa, arcs, add_final_state}
use whooshy.Automata.Subset.{States, Search, mark_final}
use whooshy.Automata.Subset.Termination.{subsets, mem-subsets, missing}

-- The sets that a step can lead to.
abbrev pub targets : Nfa → List States
targets n = subsets (update [] (all_dests n.transitions))

pub next_state-targets :
    (n : Nfa) (q : States) (l : Label)
    → (r : States) × (Nfa.next_state n q l ≡ ok r) × (mem r (targets n) ≡ true)
next_state-targets n q l =
    let (r, e, rises, within) = next_state-Within n q l in
    let universe = update [] (all_dests n.transitions) in
    (
      r,
      e,
      mem-subsets 0 0 r universe rises (update-Rises [] (all_dests n.transitions) tt)
          (λ j m. member-update j [] (all_dests n.transitions) ∙ within j m),
    )

-- Every entry is a step of the original, to a set that is seen; every final state is final.
pub record Sound (n : Nfa) (seen : List States) (d : Dfa States) : Type 0 where
  pub explicit :
      (q : States) (c : ℕ) (r : States)
      → get (char c) (arcs q d) ≡ some r
      → (Nfa.next_state n q (char c) ≡ ok r) × (mem r seen ≡ true)
  pub default :
      (q r : States)
      → get q d.defaults ≡ some r
      → (Nfa.next_state n q any ≡ ok r)
        × (mem r seen ≡ true)
        × (mem any (Nfa.get_labels n q) ≡ true)
  pub finals : (q : States) → mem q d.final_states ≡ true → Nfa.is_final n q ≡ true
  pub marked :
      (q : States) → mem q seen ≡ true → Nfa.is_final n q ≡ true → mem q d.final_states ≡ true

-- The automaton has an entry for the label.
abbrev pub Has : Dfa States → States → Label → Type 0
Has d q epsilon = Unit
Has d q any = (r : States) × (get q d.defaults ≡ some r)
Has d q (char c) = (r : States) × (get (char c) (arcs q d) ≡ some r)

-- Nothing is lost.
pub record Grows (d d' : Dfa States) : Type 0 where
  pub same_initial : d'.initial ≡ d.initial
  pub has : (q : States) (l : Label) → Has d q l → Has d' q l
  pub final : (q : States) → mem q d.final_states ≡ true → mem q d'.final_states ≡ true

pub record Progress (n : Nfa) (s s' : Search) : Type 0 where
  pub grows : Grows s.dfa s'.dfa
  pub kept : (q : States) → mem q s.seen ≡ true → mem q s'.seen ≡ true
  pub waits : (q : States) → mem q s.frontier ≡ true → mem q s'.frontier ≡ true
  pub found :
      (q : States) → mem q s'.seen ≡ true → (mem q s.seen ≡ true) ⊎ (mem q s'.frontier ≡ true)
  pub bounded :
      length s'.frontier + missing (targets n) s'.seen
      ≤ length s.frontier + missing (targets n) s.seen

Grows-refl : (d : Dfa States) → Grows d d
Grows-refl d = record { same_initial = refl; has = λ q l h. h; final = λ q h. h }

pub Grows-trans : (a b c : Dfa States) → Grows a b → Grows b c → Grows a c
Grows-trans a b c g h = record {
  same_initial = h.same_initial ∙ g.same_initial;
  has = λ q l x. h.has q l (g.has q l x);
  final = λ q x. h.final q (g.final q x);
}

pub Progress-refl : (n : Nfa) (s : Search) → Progress n s s
Progress-refl n s = record {
  grows = Grows-refl s.dfa;
  kept = λ q h. h;
  waits = λ q h. h;
  found = λ q h. inl h;
  bounded = omega arith;
}

pub Progress-trans : (n : Nfa) (a b c : Search) → Progress n a b → Progress n b c → Progress n a c
Progress-trans n a b c p r = record {
  grows = Grows-trans a.dfa b.dfa c.dfa p.grows r.grows;
  kept = λ q h. r.kept q (p.kept q h);
  waits = λ q h. r.waits q (p.waits q h);
  found = λ q h. elim (r.found q h) [
    | inl old ↦ elim (p.found q old) [ inl older ↦ inl older | inr w ↦ inr (r.waits q w) ]
    | inr w ↦ inr w
  ];
  bounded = omega (arith, p.bounded, r.bounded);
}

pub mark_final-Grows : (n : Nfa) (q : States) (d : Dfa States) → Grows d (mark_final n q d)
unfolding mark_final add_final_state
mark_final-Grows n q d = elim (Bool-cases (Nfa.is_final n q)) [
  | inl yes_final ↦ rw yes_final record {
    same_initial = refl;
    has = λ q l h. h;
    final = λ r h. rw (mem-include r q d.final_states, h) (ground arith);
  }
  | inr not_final ↦ rw not_final (Grows-refl d)
]

pub mark_final-Sound :
    (n : Nfa) (q : States) (seen : List States) (d : Dfa States)
    → Sound n seen d
    → Sound n seen (mark_final n q d)
      × (Nfa.is_final n q ≡ true → mem q (mark_final n q d).final_states ≡ true)
unfolding mark_final add_final_state
mark_final-Sound n q seen d s = elim (Bool-cases (Nfa.is_final n q)) [
  | inl yes_final ↦ rw yes_final (
    record {
      explicit = s.explicit;
      default = s.default;
      finals = λ r h.
          let h' = sym (mem-include r q d.final_states) ∙ h in
          elim (Bool-cases (list_eq r q)) [
            | inl same ↦ let e = (list_eq_iff r q).0 same in rw e yes_final
            | inr other ↦ s.finals r (rw other at h')
          ];
      marked = λ r h f. rw (mem-include r q d.final_states, s.marked r h f) (ground arith);
    },
    λ f. rw (mem-include q q d.final_states, (list_eq_iff q q).1 refl) refl,
  )
  | inr not_final ↦ rw not_final (s, λ f. absurd (cc f))
]
