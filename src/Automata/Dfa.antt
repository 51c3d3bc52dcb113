-- ===== src/Automata/Dfa.antt =====
-- fsa.py, class DFA: deterministic automata over states of any type with an equality. `truthy` is
-- the test `if state` of a state, which is false of the empty set and of 0.
pub mod Laws
use whooshy.Common.{ℕ, Bool, true, false, not, Option, none, some, List, [], ◌∷◌, if◌then◌else◌}
use whooshy.Common.Dict.{Eq, mem, include, get, put, keys}
use whooshy.Automata.Labels.{Label, epsilon, any, char, label_keys}

pub record Dfa (K : Type 0) : Type 0 where
  pub initial : K
  pub transitions : List (K × List (Label × K))
  pub defaults : List (K × K)
  pub final_states : List K

module _ {K : Type 0} ⦃e : Eq K⦄ where
  -- The constructor.
  unfoldable pub new_dfa : K → Dfa K
  new_dfa initial = record { initial = initial; transitions = []; defaults = []; final_states = [] }

  abbrev pub arcs_or : Option (List (Label × K)) → List (Label × K)
  arcs_or none = []
  arcs_or (some xs) = xs

  -- `transitions.get(src, {})`
  abbrev pub arcs : K → Dfa K → List (Label × K)
  arcs src d = arcs_or (get src d.transitions)

  unfoldable pub add_transition : K → Label → K → Dfa K → Dfa K
  add_transition src label dest d = record d {
    transitions = put src (put label dest (arcs src d)) d.transitions;
  }

  unfoldable pub set_default_transition : K → K → Dfa K → Dfa K
  set_default_transition src dest d = record d { defaults = put src dest d.defaults }

  unfoldable pub add_final_state : K → Dfa K → Dfa K
  add_final_state state d = record d { final_states = include state d.final_states }

  unfoldable pub is_final : Dfa K → K → Bool
  is_final d state = mem state d.final_states

  unfoldable pub next_state : Dfa K → K → Label → Option K
  next_state d src label = elim (get label (arcs src d)) [
    | some dest ↦ some dest
    | none ↦ get src d.defaults
  ]

  -- FSA.accept: the loop stops where there is no next state, or it counts as false.
  unfoldable pub accept_from : (K → Bool) → Dfa K → K → List ℕ → Bool
  unfolding is_final next_state
  accept_from truthy d state [] = is_final d state
  accept_from truthy d state (c ∷ string) = elim (next_state d state (char c)) [
    | none ↦ false
    | some next ↦
        let rest = accept_from truthy d next string in if truthy next then rest else is_final d next
  ]

  unfoldable pub accept : (K → Bool) → Dfa K → List ℕ → Bool
  unfolding accept_from
  accept truthy d string = accept_from truthy d d.initial string
