-- ===== src/Automata/Nfa.antt =====
-- fsa.py, class NFA: nondeterministic automata over numbered states. A set of states is a rising
-- list; where the code takes any element of a set, the model takes the first one.
pub mod Steps
pub mod Labelled
use whooshy.Common.{
  ℕ, zero, suc, ◌+◌, Bool, true, false, not, ◌&&◌, ◌||◌, Option, none, some, List, [], ◌∷◌, ◌++◌,
  map, length, if◌then◌else◌, ◌==◌,
}
use whooshy.Common.Result.{Result, ok, err, stuck, ◌>>=◌}
use whooshy.Common.Dict.{Eq, mem, include, get, put, keys}
use whooshy.Common.Sets.{member, insert, update, difference, intersects}
use whooshy.Automata.Labels.{Label, epsilon, any, char, label_keys, number_keys}

abbrev pub Transitions : Type 0
Transitions = List (ℕ × List (Label × List ℕ))

pub record Nfa : Type 0 where
  pub initial : ℕ
  pub transitions : Transitions
  pub final_states : List ℕ

-- `transitions[state][label]`, with nothing where a key is missing.
abbrev pub value_or : Option (List (Label × List ℕ)) → List (Label × List ℕ)
value_or none = []
value_or (some xs) = xs

abbrev pub set_or : Option (List ℕ) → List ℕ
set_or none = []
set_or (some ds) = ds

abbrev pub row : Transitions → ℕ → List (Label × List ℕ)
row t state = value_or (get state t)

abbrev pub dests : Transitions → ℕ → Label → List ℕ
dests t state label = set_or (get label (row t state))

pub add_to : Transitions → ℕ → Label → List ℕ → Transitions
unfolding update
add_to t src label ds = put src (put label (update (dests t src label) ds) (row t src)) t

unfoldable pub add_transition : ℕ → Label → ℕ → Nfa → Nfa
unfolding add_to
add_transition src label dest n = record n {
  transitions = add_to n.transitions src label (dest ∷ []);
}

unfoldable pub add_final_state : ℕ → Nfa → Nfa
unfolding insert
add_final_state state n = record n { final_states = insert state n.final_states }

-- The loop of _expand over the frontier and the set.
pub expand_loop : ℕ → Transitions → List ℕ → List ℕ → Result (List ℕ)
unfolding difference update
expand_loop zero t frontier states = err stuck
expand_loop (suc fuel) t [] states = ok states
expand_loop (suc fuel) t (state ∷ frontier) states =
    let new_states = difference (dests t state epsilon) states in
    expand_loop fuel t (update frontier new_states) (update states new_states)

-- All destinations, one after the other: no set grows by more states than these.
abbrev pub row_dests : List (Label × List ℕ) → List ℕ
row_dests [] = []
row_dests (p ∷ xs) = p.1 ++ row_dests xs

abbrev pub all_dests : Transitions → List ℕ
all_dests [] = []
all_dests (p ∷ t) = row_dests p.1 ++ all_dests t

pub expand : Transitions → List ℕ → Result (List ℕ)
unfolding expand_loop
expand t states = expand_loop (suc (length states + length (all_dests t))) t states states

unfoldable pub start : Nfa → Result (List ℕ)
unfolding expand
start n = expand n.transitions (n.initial ∷ [])

unfoldable pub is_final : Nfa → List ℕ → Bool
unfolding intersects
is_final n states = intersects n.final_states states

-- The loop of next_state over the states.
pub collect : Transitions → List ℕ → Label → List ℕ → List ℕ
unfolding update
collect t [] label found = found
collect t (state ∷ states) label found =
    collect t states label (update (update found (dests t state label)) (dests t state any))

unfoldable pub next_state : Nfa → List ℕ → Label → Result (List ℕ)
unfolding collect expand
next_state n states label = expand n.transitions (collect n.transitions states label [])

-- The labels of a set of states, each once.
pub include_all : List Label → List Label → List Label
include_all [] found = found
include_all (l ∷ ls) found = include_all ls (include l found)

pub labels_loop : Transitions → List ℕ → List Label → List Label
unfolding include_all
labels_loop t [] found = found
labels_loop t (state ∷ states) found = labels_loop t states (include_all (keys (row t state)) found)

pub get_labels : Nfa → List ℕ → List Label
unfolding labels_loop
get_labels n states = labels_loop n.transitions states []

-- FSA.accept: the loop stops at the empty set.
unfoldable pub accept_from : Nfa → List ℕ → List ℕ → Result Bool
unfolding is_final next_state
accept_from n states [] = ok (is_final n states)
accept_from n states (c ∷ string) = do
  next ← next_state n states (char c)
  elim next [ [] ↦ ok (is_final n []) | d ∷ ds ↦ accept_from n (d ∷ ds) string ]

unfoldable pub accept : Nfa → List ℕ → Result Bool
unfolding accept_from start
accept n string = do states ← start n; accept_from n states string

pub embed_row : ℕ → List (Label × List ℕ) → Transitions → Transitions
embed_row s [] t = t
embed_row s (p ∷ xs) t = embed_row s xs (add_to t s p.0 p.1)

pub embed_all : Transitions → Transitions → Transitions
unfolding embed_row
embed_all [] t = t
embed_all (p ∷ other) t = embed_all other (embed_row p.0 p.1 (put p.0 (row t p.0) t))

pub embed : Nfa → Nfa → Nfa
unfolding embed_all
embed other n = record n { transitions = embed_all other.transitions n.transitions }

unfoldable pub connect : List ℕ → ℕ → Nfa → Nfa
unfolding add_transition
connect [] dest n = n
connect (f ∷ finals) dest n = connect finals dest (add_transition f epsilon dest n)

unfoldable pub insert_nfa : ℕ → Nfa → ℕ → Nfa → Nfa
unfolding embed connect
insert_nfa src other dest n =
    connect other.final_states dest (add_transition src epsilon other.initial (embed other n))
