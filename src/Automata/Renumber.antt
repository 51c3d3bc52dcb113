-- ===== src/Automata/Renumber.antt =====
-- fsa.py: renumber_dfa, which names the states by numbers in the order in which they are met.
use whooshy.Common.{ℕ, ◌+◌, none, some, List, [], ◌∷◌}
use whooshy.Common.Dict.{Eq, get, put}
use whooshy.Automata.Labels.{Label, number_keys}
use whooshy.Automata.Dfa.{Dfa, new_dfa, add_transition, add_final_state, set_default_transition}

-- The numbers given so far, and the next one.
abbrev pub Numbering : Type 0 → Type 0
Numbering K = List (K × ℕ) × ℕ

module _ {K : Type 0} ⦃e : Eq K⦄ where
  pub remap : K → Numbering K → ℕ × Numbering K
  remap state (mapping, c) = elim (get state mapping) [
    | some newnum ↦ (newnum, (mapping, c))
    | none ↦ (c, (put state c mapping, c + 1))
  ]

  pub renumber_row : K → List (Label × K) → Dfa ℕ × Numbering K → Dfa ℕ × Numbering K
  unfolding remap add_transition
  renumber_row src [] s = s
  renumber_row src (p ∷ trans) (newdfa, numbering) =
      let (from, numbering1) = remap src numbering in
      let (to, numbering2) = remap p.1 numbering1 in
      renumber_row src trans (add_transition from p.0 to newdfa, numbering2)

  pub renumber_rows : List (K × List (Label × K)) → Dfa ℕ × Numbering K → Dfa ℕ × Numbering K
  unfolding renumber_row
  renumber_rows [] s = s
  renumber_rows (p ∷ t) s = renumber_rows t (renumber_row p.0 p.1 s)

  pub renumber_finals : List K → Dfa ℕ × Numbering K → Dfa ℕ × Numbering K
  unfolding remap add_final_state
  renumber_finals [] s = s
  renumber_finals (f ∷ finals) (newdfa, numbering) =
      let (n, numbering') = remap f numbering in
      renumber_finals finals (add_final_state n newdfa, numbering')

  -- On Python's order of evaluation, the source is numbered before the destination.
  pub renumber_defaults : List (K × K) → Dfa ℕ × Numbering K → Dfa ℕ
  unfolding remap set_default_transition
  renumber_defaults [] s = s.0
  renumber_defaults (p ∷ defaults) (newdfa, numbering) =
      let (from, numbering1) = remap p.0 numbering in
      let (to, numbering2) = remap p.1 numbering1 in
      renumber_defaults defaults (set_default_transition from to newdfa, numbering2)

  unfoldable pub renumber_dfa : Dfa K → ℕ → Dfa ℕ
  unfolding remap renumber_rows renumber_finals renumber_defaults new_dfa
  renumber_dfa d base =
      let (initial, numbering) = remap d.initial ([], base) in
      renumber_defaults d.defaults
        (renumber_finals d.final_states (renumber_rows d.transitions (new_dfa initial, numbering)))
