-- ===== src/Automata/Strings.antt =====
-- fsa.py: strings_dfa, the construction of Daciuk and Mihov of a minimal automaton for a sorted list
-- of strings. A node that the dictionary `seen` already has is replaced by the one seen first.
use whooshy.Common.{
  ℕ, zero, suc, ◌+◌, ◌-◌, Bool, true, false, not, ◌&&◌, ◌||◌, Option, none, some, List, [], ◌∷◌,
  length, if◌then◌else◌, ◌==◌, ltb, get_elem?,
}
use whooshy.Common.Result.{Result, ok, err, value_error, index_error, or_raise, ◌>>=◌}
use whooshy.Automata.Labels.{char, label_keys, number_keys}
use whooshy.Automata.Dfa.{Dfa, new_dfa, add_transition, add_final_state}

-- DMNode: the arcs are a dictionary; here they are kept sorted by label, so that `tuple` only reads.
pub record DmNode : Type 0 where
  pub n : ℕ
  pub arcs : List (ℕ × ℕ)
  pub final : Bool

pub set_arc : ℕ → ℕ → List (ℕ × ℕ) → List (ℕ × ℕ)
set_arc label dest [] = (label, dest) ∷ []
set_arc label dest (p ∷ arcs) =
    let rest = set_arc label dest arcs in
    if p.0 == label
    then (label, dest) ∷ arcs
    else if ltb label p.0
    then (label, dest) ∷ p ∷ arcs
    else p ∷ rest

abbrev pub arcs_eq : List (ℕ × ℕ) → List (ℕ × ℕ) → Bool
arcs_eq [] [] = true
arcs_eq (p ∷ a) (q ∷ b) = p.0 == q.0 && (p.1 == q.1 && arcs_eq a b)
arcs_eq _ _ = false

-- DMNode.tuple
abbrev pub Tuple : Type 0
Tuple = List (ℕ × ℕ) × Bool

pub node_tuple : DmNode → Tuple
node_tuple node = (node.arcs, node.final)

abbrev pub bool_eq : Bool → Bool → Bool
bool_eq true b = b
bool_eq false b = not b

-- `seen[tup]`, if there is one.
pub find_seen : Tuple → List (Tuple × ℕ) → Option ℕ
find_seen tup [] = none
find_seen tup (p ∷ seen) =
    let rest = find_seen tup seen in
    if arcs_eq p.0.0 tup.0 && bool_eq p.0.1 tup.1 then some p.1 else rest

-- The automaton, the nodes (the last one first), the dictionary, and the counter.
pub record Builder : Type 0 where
  pub dfa : Dfa ℕ
  pub nodes : List DmNode
  pub seen : List (Tuple × ℕ)
  pub counter : ℕ

pub add_arcs : ℕ → List (ℕ × ℕ) → Dfa ℕ → Dfa ℕ
unfolding add_transition
add_arcs this [] dfa = dfa
add_arcs this (p ∷ arcs) dfa = add_arcs this arcs (add_transition this (char p.0) p.1 dfa)

-- `nodes[-1].arcs[label] = dest`
pub point_parent : ℕ → ℕ → List DmNode → Result (List DmNode)
unfolding set_arc
point_parent label dest [] = err index_error
point_parent label dest (node ∷ nodes) =
    ok (record node { arcs = set_arc label dest node.arcs } ∷ nodes)

-- The body of add_suffix's loop, for the node that is popped.
pub freeze : List ℕ → DmNode → Builder → Result Builder
unfolding node_tuple find_seen add_arcs point_parent add_final_state
freeze last node b =
    let tup = node_tuple node in
    elim (find_seen tup b.seen) [
      | none ↦
          let marked = if node.final then add_final_state node.n b.dfa else b.dfa in
          ok (record b { dfa = add_arcs node.n node.arcs marked; seen = (tup, node.n) ∷ b.seen })
      | some this ↦ do
        inlabel ← or_raise index_error (get_elem? last (length b.nodes - 1))
        nodes ← point_parent inlabel this b.nodes
        ok (record b { dfa = add_arcs this node.arcs b.dfa; nodes = nodes })
    ]

-- The loop runs once for each node above `downto`.
pub add_suffix_loop : ℕ → List ℕ → Builder → Result Builder
unfolding freeze
add_suffix_loop zero last b = ok b
add_suffix_loop (suc times) last b = elim b.nodes [
  | [] ↦ ok b
  | node ∷ nodes ↦ do
    b' ← freeze last node (record b { nodes = nodes })
    add_suffix_loop times last b'
]

pub add_suffix : List ℕ → ℕ → Builder → Result Builder
unfolding add_suffix_loop
add_suffix last downto b = add_suffix_loop (length b.nodes - downto) last b

pub common_prefix : List ℕ → List ℕ → ℕ
common_prefix (x ∷ xs) (y ∷ ys) = let rest = common_prefix xs ys in if x == y then suc rest else 0
common_prefix _ _ = 0

-- `string <= last`
pub not_after : List ℕ → List ℕ → Bool
not_after [] last = true
not_after (x ∷ xs) [] = false
not_after (x ∷ xs) (y ∷ ys) = let rest = not_after xs ys in ltb x y || (x == y && rest)

abbrev pub drop : ℕ → List ℕ → List ℕ
drop zero xs = xs
drop (suc k) [] = []
drop (suc k) (x ∷ xs) = drop k xs

pub new_nodes : List ℕ → Builder → Result Builder
unfolding point_parent
new_nodes [] b = ok b
new_nodes (label ∷ string) b = do
  nodes ← point_parent label b.counter b.nodes
  new_nodes string (record b {
    nodes = record { n = b.counter; arcs = []; final = false } ∷ nodes;
    counter = b.counter + 1;
  })

pub mark_last : List DmNode → Result (List DmNode)
mark_last [] = err index_error
mark_last (node ∷ nodes) = ok (record node { final = true } ∷ nodes)

-- One string. The exception for a string out of order, or the empty one, is `value_error` here.
pub add_string : List ℕ → List ℕ → Builder → Result Builder
unfolding common_prefix not_after add_suffix new_nodes mark_last
add_string last string b = if not_after string last then err value_error else do
  let prefixlen = common_prefix last string
  b1 ← add_suffix last (prefixlen + 1) b
  b2 ← new_nodes (drop prefixlen string) b1
  nodes ← mark_last b2.nodes
  ok (record b2 { nodes = nodes })

pub add_strings : List ℕ → List (List ℕ) → Builder → Result (List ℕ × Builder)
unfolding add_string
add_strings last [] b = ok (last, b)
add_strings last (string ∷ strings) b = do
  b' ← add_string last string b
  add_strings string strings b'

unfoldable pub strings_dfa : List (List ℕ) → Result (Dfa ℕ)
unfolding add_strings add_suffix new_dfa
strings_dfa strings = do
  let root : DmNode = record { n = 0; arcs = []; final = false }
  (last, b) ←
      add_strings [] strings (record { dfa = new_dfa 0; nodes = root ∷ []; seen = []; counter = 1 })
  done ← if ltb 1 (length b.nodes) then add_suffix last 0 b else ok b
  ok done.dfa
