-- ===== src/Automata/Valid/Matches.antt =====
-- fsa.py, find_all_matches: the words of a database that an automaton accepts.
use whooshy.Common.{ℕ, zero, suc, Option, none, some, List, [], ◌∷◌, ◌++◌, if◌then◌else◌, Bool}
use whooshy.Common.Result.{Result, ok, err, stuck, ◌>>=◌}
use whooshy.Common.Dict.{Eq}
use whooshy.Automata.Labels.{number_keys, list_eq}
use whooshy.Automata.Valid.{Cached, next_valid_string}

module _ {K : Type 0} ⦃e : Eq K⦄ where
  -- The loop: `lookup_func` gives the first word from its argument on, and `key += unull` is the next
  -- string. `while match` stops at the empty string too. The first fuel is that of each search.
  pub matches_loop :
      ℕ
      → ℕ
      → (K → Bool)
      → (List ℕ → Option (List ℕ))
      → Cached K
      → Option (List ℕ)
      → Result (List (List ℕ))
  unfolding next_valid_string
  matches_loop steps zero truthy lookup_func m found = err stuck
  matches_loop steps (suc fuel) truthy lookup_func m none = ok []
  matches_loop steps (suc fuel) truthy lookup_func m (some []) = ok []
  matches_loop steps (suc fuel) truthy lookup_func m (some (c ∷ w)) = elim (lookup_func (c ∷ w)) [
    | none ↦ ok []
    | some key ↦ do
      let same = list_eq (c ∷ w) key
      (found, m') ← next_valid_string steps truthy m (if same then key ++ 0 ∷ [] else key)
      rest ← matches_loop steps fuel truthy lookup_func m' found
      ok (if same then (c ∷ w) ∷ rest else rest)
  ]

  -- The search begins at `first`, the string of the character 0.
  pub find_all_matches :
      ℕ → ℕ → (K → Bool) → (List ℕ → Option (List ℕ)) → Cached K → Result (List (List ℕ))
  unfolding matches_loop
  find_all_matches steps fuel truthy lookup_func m = do
    (found, m') ← next_valid_string steps truthy m (0 ∷ [])
    matches_loop steps fuel truthy lookup_func m' found
