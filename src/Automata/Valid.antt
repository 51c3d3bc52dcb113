-- ===== src/Automata/Valid.antt =====
-- fsa.py, DFA.next_valid_string: the search for the next string that an automaton accepts. The
-- strings are of text, that is, `asbytes` is false. A state is none where the code has None.
pub mod Accepted
pub mod Matches
use whooshy.Common.{
  ℕ, zero, suc, ◌+◌, Bool, true, false, not, ◌||◌, Option, none, some, List, [], ◌∷◌, ◌++◌,
  if◌then◌else◌, ltb, leb,
}
use whooshy.Common.Result.{Result, ok, err, value_error, stuck, ◌>>=◌}
use whooshy.Common.Dict.{Eq, mem, get, put, keys}
use whooshy.Common.Sets.{insert}
use whooshy.Automata.Labels.{Label, epsilon, any, char, label_keys}
use whooshy.Automata.Dfa.{Dfa, arcs, is_final, next_state}

-- `sorted(trans)`: the transitions of an automaton of text are by characters.
unfoldable pub sort_labels : List Label → List ℕ
sort_labels [] = []
sort_labels (char c ∷ ls) = insert c (sort_labels ls)
sort_labels (epsilon ∷ ls) = sort_labels ls
sort_labels (any ∷ ls) = sort_labels ls

-- `labels[bisect_left(labels, label)]`, if there is one.
pub first_from : ℕ → List ℕ → Option ℕ
first_from label [] = none
first_from label (l ∷ labels) = if ltb l label then first_from label labels else some l

-- The next label to try: `unichr` has no character above the last one.
pub following : Option ℕ → Result ℕ
following none = ok 0
following (some label) = if ltb label 0x10FFFF then ok (label + 1) else err value_error

-- The automaton with its cache of sorted labels. That of the state None, which has no labels, is
-- left out.
pub record Cached (K : Type 0) : Type 0 where
  pub dfa : Dfa K
  pub outlabels : List (K × List ℕ)

-- An entry of the stack: a path, the state it leads to, and the label tried last.
abbrev pub Entry : Type 0 → Type 0
Entry K = List ℕ × Option K × Option ℕ

module _ {K : Type 0} ⦃e : Eq K⦄ where
  pub cached_labels : Cached K → K → List ℕ × Cached K
  unfolding sort_labels
  cached_labels m s = elim (get s m.outlabels) [
    | some labels ↦ (labels, m)
    | none ↦
        let labels = sort_labels (keys (arcs s m.dfa)) in
        (labels, record m { outlabels = put s labels m.outlabels })
  ]

  abbrev pub has_edge : Cached K → K → ℕ → Bool
  has_edge m s label = mem (char label) (keys (arcs s m.dfa)) || mem s (keys m.dfa.defaults)

  pub find_next_edge : Cached K → Option K → Option ℕ → Result (Option ℕ × Cached K)
  unfolding cached_labels first_from following
  find_next_edge m state label = do
    next ← following label
    elim state [
      | none ↦ ok (none, m)
      | some s ↦
          let (labels, m') = cached_labels m s in
          if has_edge m s next then ok (some next, m) else ok (first_from next labels, m')
    ]

  abbrev pub step : Dfa K → Option K → ℕ → Option K
  step d none c = none
  step d (some s) c = next_state d s (char c)

  abbrev pub final : Dfa K → Option K → Bool
  final d none = false
  final d (some s) = is_final d s

  abbrev pub missing : (K → Bool) → Option K → Bool
  missing truthy none = true
  missing truthy (some s) = not (truthy s)

  -- The first loop: the state that it ends in, and the stack. It stops where there is no state.
  pub follow :
      (K → Bool) → Dfa K → List ℕ → Option K → List (Entry K) → List ℕ → Option K × List (Entry K)
  follow truthy d path state stack [] = (state, (path, state, none) ∷ stack)
  follow truthy d path state stack (c ∷ string) =
      let next = step d state c in
      let rest = follow truthy d (path ++ c ∷ []) next ((path, state, some c) ∷ stack) string in
      if missing truthy next then (next, (path, state, some c) ∷ stack) else rest

  -- The second loop, which may go on for ever.
  pub wall_follow : ℕ → Cached K → List (Entry K) → Result (Option (List ℕ) × Cached K)
  unfolding find_next_edge
  wall_follow zero m stack = err stuck
  wall_follow (suc fuel) m [] = ok (none, m)
  wall_follow (suc fuel) m ((path, state, label) ∷ stack) = do
    (edge, m') ← find_next_edge m state label
    elim edge [
      | none ↦ wall_follow fuel m' stack
      | some l ↦
          let path' = path ++ l ∷ [] in
          let next = step m.dfa state l in
          let rest = wall_follow fuel m' ((path', next, none) ∷ stack) in
          if final m.dfa next then ok (some path', m') else rest
    ]

  unfoldable pub next_valid_string :
      ℕ → (K → Bool) → Cached K → List ℕ → Result (Option (List ℕ) × Cached K)
  unfolding follow wall_follow is_final next_state
  next_valid_string fuel truthy m string =
      let (state, stack) = follow truthy m.dfa [] (some m.dfa.initial) [] string in
      if final m.dfa state then ok (some string, m) else wall_follow fuel m stack
