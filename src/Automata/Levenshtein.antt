-- ===== src/Automata/Levenshtein.antt =====
-- lev.py: the automaton of the strings within an edit distance. The state (i, e), i characters read
-- with e errors, is the number i * (k + 1) + e, which no other state with at most k errors has.
use whooshy.Common.{ℕ, zero, suc, ◌+◌, ◌*◌, ◌-◌, List, length, if◌then◌else◌, ltb}
use whooshy.Common.Result.{Result, ok, index, ◌>>=◌}
use whooshy.Automata.Labels.{epsilon, any, char}
use whooshy.Automata.Nfa.{Nfa, add_transition, add_final_state}
use whooshy.Automata.Build.{new_nfa}

pub at_errors : ℕ → ℕ → ℕ → ℕ
at_errors k i e = i * (k + 1) + e

-- `for i in xrange(prefix)`, from i on.
pub exact_loop : ℕ → ℕ → List ℕ → ℕ → Nfa → Result Nfa
unfolding at_errors add_transition
exact_loop k zero term i nfa = ok nfa
exact_loop k (suc left) term i nfa = do
  c ← index term i
  exact_loop k left term (i + 1)
      (add_transition (at_errors k i 0) (char c) (at_errors k (i + 1) 0) nfa)

-- The body of the loop over e, and the loop.
pub edit_steps : ℕ → ℕ → ℕ → ℕ → Nfa → Nfa
unfolding at_errors add_transition
edit_steps k c i e nfa =
    let correct = add_transition (at_errors k i e) (char c) (at_errors k (i + 1) e) nfa in
    if ltb e k
    then (let deleted = add_transition (at_errors k i e) any (at_errors k i (e + 1)) correct in
        let inserted =
          add_transition (at_errors k i e) epsilon (at_errors k (i + 1) (e + 1)) deleted in
        add_transition (at_errors k i e) any (at_errors k (i + 1) (e + 1)) inserted)
    else correct

pub edit_loop : ℕ → ℕ → ℕ → ℕ → ℕ → Nfa → Nfa
unfolding edit_steps
edit_loop k c i zero e nfa = nfa
edit_loop k c i (suc left) e nfa = edit_loop k c i left (e + 1) (edit_steps k c i e nfa)

-- `for i in xrange(prefix, len(term))`
pub term_loop : ℕ → ℕ → List ℕ → ℕ → Nfa → Result Nfa
unfolding edit_loop
term_loop k zero term i nfa = ok nfa
term_loop k (suc left) term i nfa = do
  c ← index term i
  term_loop k left term (i + 1) (edit_loop k c i (k + 1) 0 nfa)

pub end_loop : ℕ → ℕ → ℕ → ℕ → Nfa → Nfa
unfolding at_errors add_transition add_final_state
end_loop k size zero e nfa = nfa
end_loop k size (suc left) e nfa =
    let more = add_transition (at_errors k size e) any (at_errors k size (e + 1)) nfa in
    end_loop k size left (e + 1)
      (add_final_state (at_errors k size e) (if ltb e k then more else nfa))

unfoldable pub levenshtein_automaton : List ℕ → ℕ → ℕ → Result Nfa
unfolding exact_loop term_loop end_loop at_errors new_nfa
levenshtein_automaton term k prefix = do
  start ← exact_loop k prefix term 0 (new_nfa (at_errors k 0 0))
  edits ← term_loop k (length term - prefix) term prefix start
  ok (end_loop k (length term) (k + 1) 0 edits)
