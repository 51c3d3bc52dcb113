-- ===== src/Automata/Minimize.antt =====
-- fsa.py, DFA.reachable_from and DFA.minimize. A set of states is a list without repeats; where the
-- code takes any element, the model takes the first. The while loops run on fuel.
use whooshy.Common.{
  ℕ, zero, suc, ◌+◌, Bool, true, false, not, ◌&&◌, Option, none, some, List, [], ◌∷◌, ◌++◌, length,
  if◌then◌else◌,
}
use whooshy.Common.Result.{
  Result, ok, err, key_error, assertion_error, stuck, or_raise, index, ◌>>=◌,
}
use whooshy.Common.Dict.{Eq, mem, include, get, put, keys}
use whooshy.Automata.Labels.{Label, label_keys}
use whooshy.Automata.Dfa.{Dfa}

pub add_labels : List Label → List Label → List Label
add_labels [] found = found
add_labels (l ∷ ls) found = add_labels ls (include l found)

module _ {K : Type 0} ⦃e : Eq K⦄ where
  abbrev pub arcs_at : List (K × List (Label × K)) → K → Result (List (Label × K))
  arcs_at t src = or_raise key_error (get src t)

  pub without : List K → List K → List K
  without [] out = []
  without (k ∷ ks) out = let rest = without ks out in if mem k out then rest else k ∷ rest

  pub common : List K → List K → List K
  common [] other = []
  common (k ∷ ks) other = let rest = common ks other in if mem k other then k ∷ rest else rest

  -- The inner loop of reachable_from: what is reached, and the stack.
  pub reach_dests : List (Label × K) → List K → List K → List K → List K × List K
  reach_dests [] seen reached stack = (reached, stack)
  reach_dests (p ∷ trans) seen reached stack =
      reach_dests trans seen (include p.1 reached) (if mem p.1 seen then stack else p.1 ∷ stack)

  pub reachable_loop : ℕ → List (K × List (Label × K)) → List K → List K → List K → Result (List K)
  unfolding reach_dests
  reachable_loop zero t stack seen reached = err stuck
  reachable_loop (suc fuel) t [] seen reached = ok reached
  reachable_loop (suc fuel) t (src ∷ stack) seen reached = do
    trans ← arcs_at t src
    let (reached', stack') = reach_dests trans (include src seen) reached stack
    reachable_loop fuel t stack' (include src seen) reached'

  pub reachable_from : ℕ → Dfa K → K → Bool → Result (List K)
  unfolding reachable_loop
  reachable_from fuel d src inclusive =
      reachable_loop fuel d.transitions (src ∷ []) [] (if inclusive then src ∷ [] else [])

  -- The transitions of some states, and the labels they have.
  pub restrict : List K → List (K × List (Label × K)) → List (K × List (Label × K))
  restrict kept [] = []
  restrict kept (p ∷ t) = let rest = restrict kept t in if mem p.0 kept then p ∷ rest else rest

  pub all_labels : List (K × List (Label × K)) → List Label
  unfolding add_labels
  all_labels [] = []
  all_labels (p ∷ t) = add_labels (keys p.1) (all_labels t)

  -- The last of the parts that has the state.
  pub part_of : K → List (List K) → Option (List K) → Option (List K)
  part_of dest [] found = found
  part_of dest (p ∷ parts) found = part_of dest parts (if mem dest p then some p else found)

  -- The loop over the states of a part: those that the label takes to another part than the first.
  pub split_off :
      List (K × List (Label × K))
      → List (List K)
      → Label
      → List K
      → Option (List K)
      → List K
      → Result (List K)
  unfolding part_of
  split_off t parts label [] next_part new_part = ok new_part
  split_off t parts label (state ∷ part) next_part new_part = do
    trans ← arcs_at t state
    elim (get label trans) [
      | none ↦ split_off t parts label part next_part new_part
      | some dest ↦ elim next_part [
        | none ↦ split_off t parts label part (part_of dest parts none) new_part
        | some p ↦
            let same = split_off t parts label part (some p) new_part in
            let other = split_off t parts label part (some p) (include state new_part) in
            if mem dest p then same else other
      ]
    ]

  -- The loop over the labels: it ends at the first that splits the part.
  pub split_part :
      List (K × List (Label × K)) → List (List K) → List Label → List K → Result (List K)
  unfolding split_off
  split_part t parts [] part = ok []
  split_part t parts (label ∷ labels) part = do
    new_part ← split_off t parts label part none []
    elim new_part [ [] ↦ split_part t parts labels part | k ∷ ks ↦ ok (k ∷ ks) ]

  pub remove_at : ℕ → List (List K) → List (List K)
  remove_at i [] = []
  remove_at zero (p ∷ parts) = parts
  remove_at (suc i) (p ∷ parts) = p ∷ remove_at i parts

  -- The loop over the indices, of which `left` are left.
  pub split_pass :
      List (K × List (Label × K))
      → List Label
      → ℕ
      → ℕ
      → List (List K)
      → Bool
      → Result (Bool × List (List K))
  unfolding split_part without remove_at
  split_pass t labels zero i parts changed = ok (changed, parts)
  split_pass t labels (suc left) i parts changed = do
    part ← index parts i
    new_part ← split_part t parts labels part
    elim new_part [
      | [] ↦ split_pass t labels left (i + 1) parts changed
      | k ∷ ks ↦
          split_pass t labels left (i + 1)
            (remove_at i parts ++ without part (k ∷ ks) ∷ (k ∷ ks) ∷ []) true
    ]

  pub partition_loop :
      ℕ → List (K × List (Label × K)) → List Label → List (List K) → Result (List (List K))
  unfolding split_pass
  partition_loop zero t labels parts = err stuck
  partition_loop (suc fuel) t labels parts = do
    (changed, parts') ← split_pass t labels (length parts) 0 parts false
    let again = partition_loop fuel t labels parts'
    if changed then again else ok parts'

  pub map_part : K → List K → List (K × K) → List (K × K)
  map_part representative [] mapping = mapping
  map_part representative (state ∷ part) mapping =
      map_part representative part (put state representative mapping)

  -- Mapping each state to the first one of its part, which `pop` takes out; `pop` of an empty set
  -- raises.
  pub choose : List (List K) → List (K × K) → List K → Result (List (K × K) × List K)
  unfolding map_part
  choose [] mapping chosen = ok (mapping, chosen)
  choose ([] ∷ parts) mapping chosen = err key_error
  choose ((representative ∷ part) ∷ parts) mapping chosen =
      choose parts (map_part representative part (put representative representative mapping))
        (chosen ++ representative ∷ [])

  pub map_row : List (K × K) → List (Label × K) → Result (List (Label × K))
  map_row mapping [] = ok []
  map_row mapping (p ∷ trans) = do
    dest ← or_raise key_error (get p.1 mapping)
    rest ← map_row mapping trans
    ok ((p.0, dest) ∷ rest)

  pub map_rows :
      List (K × K) → List (K × List (Label × K)) → List K → Result (List (K × List (Label × K)))
  unfolding map_row
  map_rows mapping t [] = ok []
  map_rows mapping t (state ∷ chosen) = do
    trans ← arcs_at t state
    d ← map_row mapping trans
    rest ← map_rows mapping t chosen
    ok ((state, d) ∷ rest)

  pub map_finals : List (K × K) → List K → List K → Result (List K)
  map_finals mapping [] new_finals = ok new_finals
  map_finals mapping (s ∷ final_states) new_finals = do
    r ← or_raise key_error (get s mapping)
    map_finals mapping final_states (include r new_finals)

  -- Whether all transitions of a state lead to itself.
  pub only_to : K → List (Label × K) → Bool
  only_to src [] = true
  only_to src (p ∷ trans) = e.eq p.1 src && only_to src trans

  pub dead : List K → List (K × List (Label × K)) → List K
  unfolding only_to
  dead new_finals [] = []
  dead new_finals (p ∷ t) =
      let rest = dead new_finals t in
      if not (mem p.0 new_finals) && only_to p.0 p.1 then p.0 ∷ rest else rest

  pub drop_dests : List K → List (Label × K) → List (Label × K)
  drop_dests removing [] = []
  drop_dests removing (p ∷ trans) =
      let rest = drop_dests removing trans in if mem p.1 removing then rest else p ∷ rest

  pub remove_dead : List K → List (K × List (Label × K)) → List (K × List (Label × K))
  unfolding drop_dests
  remove_dead removing [] = []
  remove_dead removing (p ∷ t) =
      let rest = remove_dead removing t in
      if mem p.0 removing then rest else (p.0, drop_dests removing p.1) ∷ rest

  -- The two fuels are those of the while loops.
  unfoldable pub minimize : ℕ → ℕ → Dfa K → Result (Dfa K)
  unfolding reachable_from restrict common without all_labels partition_loop choose map_rows
      map_finals dead remove_dead
  minimize steps passes d = do
    reachable ← reachable_from steps d d.initial true
    let transitions = restrict reachable d.transitions
    let final_states = common d.final_states reachable
    parts ←
        partition_loop passes transitions (all_labels transitions)
          (final_states ∷ without reachable final_states ∷ [])
    (mapping, chosen) ← choose parts [] []
    new_initial ← or_raise assertion_error (get d.initial mapping)
    new_trans ← map_rows mapping transitions chosen
    new_finals ← map_finals mapping final_states []
    let removing = dead new_finals new_trans
    ok record d {
      initial = new_initial;
      transitions = remove_dead removing new_trans;
      final_states = new_finals;
    }
