-- ===== src/Automata/Subset.antt =====
-- fsa.py, NFA.to_dfa: the automaton whose states are sets of states.
pub mod Termination
pub mod Invariant
pub mod Rounds
pub mod Passes
pub mod Correct
pub mod Language
use whooshy.Common.{ℕ, zero, suc, ◌+◌, ◌^◌, Bool, true, false, List, [], ◌∷◌, length, if◌then◌else◌}
use whooshy.Common.Result.{Result, ok, err, stuck, ◌>>=◌}
use whooshy.Common.Dict.{Eq, mem}
use whooshy.Common.Sets.{update}
use whooshy.Automata.Labels.{Label, epsilon, any, char, set_keys}
use whooshy.Automata.Nfa.{Nfa, all_dests}
use whooshy.Automata.Nfa
use whooshy.Automata.Dfa.{Dfa, new_dfa, add_transition, set_default_transition, add_final_state}

abbrev pub States : Type 0
States = List ℕ

-- The variables of the loop. The frontier's last element comes first.
pub record Search : Type 0 where
  pub frontier : List States
  pub seen : List States
  pub dfa : Dfa States

-- `if self.is_final(state): dfa.add_final_state(state)`
pub mark_final : Nfa → States → Dfa States → Dfa States
mark_final n state d = if Nfa.is_final n state then add_final_state state d else d

pub discover : Nfa → States → Search → Search
unfolding mark_final
discover n new s =
    if mem new s.seen
    then s
    else record { frontier = new ∷ s.frontier; seen = new ∷ s.seen; dfa = mark_final n new s.dfa }

pub connect : States → Label → States → Dfa States → Dfa States
connect current any new d = set_default_transition current new d
connect current l new d = add_transition current l new d

-- The body of the loop over the labels.
pub take_label : Nfa → States → Label → Search → Result Search
unfolding discover connect
take_label n current epsilon s = ok s
take_label n current any s = do
  new ← Nfa.next_state n current any
  let s' = discover n new s
  ok (record s' { dfa = connect current any new s'.dfa })
take_label n current (char c) s = do
  new ← Nfa.next_state n current (char c)
  let s' = discover n new s
  ok (record s' { dfa = connect current (char c) new s'.dfa })

pub take_labels : Nfa → States → List Label → Search → Result Search
unfolding take_label
take_labels n current [] s = ok s
take_labels n current (l ∷ ls) s = do s' ← take_label n current l s; take_labels n current ls s'

pub subset_loop : ℕ → Nfa → Search → Result (Dfa States)
subset_loop zero n s = err stuck
subset_loop (suc fuel) n s = elim s.frontier [
  | [] ↦ ok s.dfa
  | current ∷ rest ↦ do
    s' ←
        take_labels n current (Nfa.get_labels n current)
          (record s { frontier = rest; dfa = mark_final n current s.dfa })
    subset_loop fuel n s'
]

-- There are no more sets than those of the destinations.
pub to_dfa : Nfa → Result (Dfa States)
unfolding subset_loop take_labels mark_final
to_dfa n = do
  q ← Nfa.start n
  subset_loop (suc (suc (2 ^ length (update [] (all_dests n.transitions))))) n
      (record { frontier = q ∷ []; seen = []; dfa = new_dfa q })
