-- ===== src/Automata/Runs.antt =====
-- fsa.py: runs on concrete automata.
use whooshy.Common.{ℕ, zero, suc, ◌≡◌, refl, Bool, true, false, some, List, [], ◌∷◌}
use whooshy.Common.Result.{ok}
use whooshy.Automata.Labels.{epsilon, any, char, set_keys, number_keys}
use whooshy.Automata.Nfa.{Nfa}
use whooshy.Automata.Nfa
use whooshy.Automata.Dfa.{Dfa}
use whooshy.Automata.Dfa
use whooshy.Automata.Valid.{Cached, next_valid_string, final}
use whooshy.Automata.Valid.Accepted.{walk, next_valid_string-final}
use whooshy.Automata.Subset.{States, to_dfa}
use whooshy.Automata.Subset.Language.{nonempty, to_dfa-accept}

-- Any character, then 7 or nothing: two ways to read 7 first.
abbrev dot_seven : Nfa
dot_seven = record {
  initial = 0;
  transitions =
      (0, (any, 1 ∷ []) ∷ (char 7, 2 ∷ []) ∷ [])
      ∷ (1, (epsilon, 3 ∷ []) ∷ (char 7, 3 ∷ []) ∷ [])
      ∷ [];
  final_states = 3 ∷ [];
}

to_dfa-accept_example :
    (d : Dfa States) × (to_dfa dot_seven ≡ ok d)
    × ((w : List ℕ) → Nfa.accept dot_seven w ≡ ok (Dfa.accept nonempty d w))
to_dfa-accept_example = to_dfa-accept dot_seven

-- The strings 3 and 3 5.
abbrev three_five : Cached ℕ
three_five = record {
  dfa = record {
    initial = 1;
    transitions = (1, (char 3, 2) ∷ []) ∷ (2, (char 5, 4) ∷ []) ∷ [];
    defaults = [];
    final_states = 2 ∷ 4 ∷ [];
  };
  outlabels = [];
}

abbrev positive : ℕ → Bool
positive zero = false
positive (suc n) = true

next_valid_string-final_example :
    (Dfa.accept positive three_five.dfa (3 ∷ 4 ∷ []) ≡ true
      → next_valid_string 9 positive three_five (3 ∷ 4 ∷ []) ≡ ok (some (3 ∷ 4 ∷ []), three_five))
    × (Dfa.accept positive three_five.dfa (3 ∷ 4 ∷ []) ≡ false
        → (w : List ℕ) (m' : Cached ℕ)
        → next_valid_string 9 positive three_five (3 ∷ 4 ∷ []) ≡ ok (some w, m')
        → final three_five.dfa (walk three_five.dfa (some 1) w) ≡ true)
next_valid_string-final_example = next_valid_string-final 9 positive three_five (3 ∷ 4 ∷ [])

next_valid_run :
    next_valid_string 9 positive three_five (3 ∷ 4 ∷ []) ≡ ok (some (3 ∷ 5 ∷ []), three_five)
unfolding next_valid_string
next_valid_run = refl
