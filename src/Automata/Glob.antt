-- ===== src/Automata/Glob.antt =====
-- glob.py: the automaton of a pattern with wildcards. The characters of the wildcards are the default
-- arguments of parse_glob.
use whooshy.Common.{ℕ, ◌+◌, Bool, true, false, List, [], ◌∷◌, if◌then◌else◌, ◌==◌}
use whooshy.Common.Sets.{insert}
use whooshy.Automata.Labels.{epsilon, any, char}
use whooshy.Automata.Nfa.{Nfa, add_transition, add_final_state}
use whooshy.Automata.Build.{new_nfa}

pub data Op : Type 0 where
  lit : ℕ → Op
  star quest : Op
  range : List ℕ → Op

-- "*", "?", "[" and "]"
abbrev pub glob_multi : ℕ
glob_multi = 42

abbrev pub glob_single : ℕ
glob_single = 63

abbrev pub glob_range1 : ℕ
glob_range1 = 91

abbrev pub glob_range2 : ℕ
glob_range2 = 93

abbrev pub emit : List ℕ → List Op → List Op
emit [] ops = ops
emit (c ∷ cs) ops = range (c ∷ cs) ∷ ops

-- The loops of parse_glob. `after_star` is the test `last is _STAR`. An open range ends with the
-- pattern; an empty one is passed over and leaves `last` as it was.
mutual
  pub parse_ops : Bool → List ℕ → List Op
  parse_ops after_star [] = []
  parse_ops after_star (c ∷ pattern) =
      let at_star = parse_ops true pattern in
      let after_quest = parse_ops false pattern in
      let same = parse_ops after_star pattern in
      let ranged = parse_range after_star [] pattern in
      if c == glob_multi
      then (if after_star then same else star ∷ at_star)
      else if c == glob_single
      then (if after_star then same else quest ∷ after_quest)
      else if c == glob_range1
      then ranged
      else lit c ∷ after_quest

  pub parse_range : Bool → List ℕ → List ℕ → List Op
  parse_range after_star chars [] = emit chars []
  parse_range after_star [] (c ∷ pattern) =
      let closed = parse_ops after_star pattern in
      let more = parse_range after_star (c ∷ []) pattern in
      if c == glob_range2 then closed else more
  parse_range after_star (d ∷ chars) (c ∷ pattern) =
      let closed = parse_ops false pattern in
      let more = parse_range after_star (insert c (d ∷ chars)) pattern in
      if c == glob_range2 then range (d ∷ chars) ∷ closed else more

pub parse_glob : List ℕ → List Op
unfolding parse_ops
parse_glob pattern = parse_ops false pattern

pub range_loop : ℕ → List ℕ → Nfa → Nfa
unfolding add_transition
range_loop i [] nfa = nfa
range_loop i (c ∷ chars) nfa = range_loop i chars (add_transition i (char c) (i + 1) nfa)

pub add_op : ℕ → Op → Nfa → Nfa
unfolding range_loop add_transition
add_op i (lit c) nfa = add_transition i (char c) (i + 1) nfa
add_op i star nfa =
    add_transition (i + 1) epsilon i
      (add_transition i epsilon (i + 1) (add_transition i any (i + 1) nfa))
add_op i quest nfa = add_transition i any (i + 1) nfa
add_op i (range chars) nfa = range_loop i chars nfa

-- At the end, the next index is the final state.
pub glob_loop : ℕ → List Op → Nfa → Nfa
unfolding add_op add_final_state
glob_loop i [] nfa = add_final_state i nfa
glob_loop i (op ∷ ops) nfa = glob_loop (i + 1) ops (add_op i op nfa)

unfoldable pub glob_automaton : List ℕ → Nfa
unfolding parse_glob glob_loop new_nfa
glob_automaton pattern = glob_loop 0 (parse_glob pattern) (new_nfa 0)
