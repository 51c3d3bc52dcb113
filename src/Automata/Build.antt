-- ===== src/Automata/Build.antt =====
-- fsa.py: the construction functions. A call of `object()` makes a new state: here the numbers from
-- k on, which no automaton in use has.
use whooshy.Common.{ℕ, ◌+◌, List, [], ◌∷◌}
use whooshy.Automata.Labels.{Label, epsilon, any, char}
use whooshy.Automata.Nfa.{Nfa, Transitions, add_transition, add_final_state, insert_nfa, connect}

-- The constructor of NFA.
unfoldable pub new_nfa : ℕ → Nfa
new_nfa initial = record { initial = initial; transitions = []; final_states = [] }

unfoldable pub basic_nfa : ℕ → Label → Nfa
unfolding new_nfa add_transition add_final_state
basic_nfa k label = add_final_state (k + 1) (add_transition k label (k + 1) (new_nfa k))

pub epsilon_nfa : ℕ → Nfa
unfolding basic_nfa
epsilon_nfa k = basic_nfa k epsilon

pub dot_nfa : ℕ → Nfa
unfolding basic_nfa
dot_nfa k = basic_nfa k any

pub charset_loop : ℕ → List Label → Nfa → Nfa
unfolding add_transition
charset_loop k [] nfa = nfa
charset_loop k (label ∷ labels) nfa = charset_loop k labels (add_transition k label (k + 1) nfa)

pub charset_nfa : ℕ → List Label → Nfa
unfolding charset_loop new_nfa add_final_state
charset_nfa k labels = add_final_state (k + 1) (charset_loop k labels (new_nfa k))

-- The loop has the current state, the last state and the next new one. At the end e is made final.
pub string_loop : ℕ → ℕ → ℕ → List ℕ → Nfa → Nfa
unfolding add_transition add_final_state
string_loop s e k [] nfa = add_final_state e nfa
string_loop s e k (c ∷ string) nfa =
    string_loop k k (k + 1) string (add_transition s (char c) k nfa)

unfoldable pub string_nfa : ℕ → List ℕ → Nfa
unfolding string_loop new_nfa
string_nfa k string = string_loop k (k + 1) (k + 2) string (new_nfa k)

unfoldable pub choice_nfa : ℕ → Nfa → Nfa → Nfa
unfolding new_nfa add_final_state insert_nfa
choice_nfa k n1 n2 =
    add_final_state (k + 1) (insert_nfa k n2 (k + 1) (insert_nfa k n1 (k + 1) (new_nfa k)))

unfoldable pub concat_nfa : ℕ → Nfa → Nfa → Nfa
unfolding new_nfa add_final_state insert_nfa
concat_nfa k n1 n2 =
    add_final_state (k + 2) (insert_nfa (k + 1) n2 (k + 2) (insert_nfa k n1 (k + 1) (new_nfa k)))

unfoldable pub star_nfa : ℕ → Nfa → Nfa
unfolding new_nfa add_transition add_final_state insert_nfa connect
star_nfa k n =
    let around = add_transition k epsilon (k + 1) (insert_nfa k n (k + 1) (new_nfa k)) in
    add_final_state (k + 1) (connect n.final_states k around)

unfoldable pub plus_nfa : ℕ → Nfa → Nfa
unfolding star_nfa concat_nfa
plus_nfa k n = concat_nfa (k + 2) n (star_nfa k n)

pub optional_nfa : ℕ → Nfa → Nfa
unfolding epsilon_nfa choice_nfa
optional_nfa k n = choice_nfa (k + 2) n (epsilon_nfa k)

-- The three loops of reverse_nfa.
pub reverse_dests : ℕ → Label → List ℕ → Nfa → Nfa
unfolding add_transition
reverse_dests src label [] nfa = nfa
reverse_dests src label (dest ∷ destset) nfa =
    reverse_dests src label destset (add_transition dest label src nfa)

pub reverse_row : ℕ → List (Label × List ℕ) → Nfa → Nfa
unfolding reverse_dests
reverse_row src [] nfa = nfa
reverse_row src (p ∷ trans) nfa = reverse_row src trans (reverse_dests src p.0 p.1 nfa)

pub reverse_all : Transitions → Nfa → Nfa
unfolding reverse_row
reverse_all [] nfa = nfa
reverse_all (p ∷ t) nfa = reverse_all t (reverse_row p.0 p.1 nfa)

pub reverse_finals : ℕ → List ℕ → Nfa → Nfa
unfolding add_transition
reverse_finals k [] nfa = nfa
reverse_finals k (f ∷ finals) nfa = reverse_finals k finals (add_transition k epsilon f nfa)

unfoldable pub reverse_nfa : ℕ → Nfa → Nfa
unfolding reverse_all reverse_finals new_nfa add_final_state
reverse_nfa k n =
    add_final_state n.initial
      (reverse_finals k n.final_states (reverse_all n.transitions (new_nfa k)))
