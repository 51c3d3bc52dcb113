-- ===== src/Automata/Trials.antt =====
-- fsa.py, lev.py and glob.py: trials of the constructions.
use whooshy.Common.{ℕ, ◌≡◌, refl, Bool, true, false, List, [], ◌∷◌}
use whooshy.Common.Result.{Result, ok, ◌>>=◌}
use whooshy.Automata.Labels.{char, set_keys, number_keys}
use whooshy.Automata.Nfa.{accept}
use whooshy.Automata.Dfa.{Dfa}
use whooshy.Automata.Dfa
use whooshy.Automata.Build.{string_nfa, star_nfa}
use whooshy.Automata.Glob.{glob_automaton}
use whooshy.Automata.Levenshtein.{levenshtein_automaton}
use whooshy.Automata.Strings.{strings_dfa}
use whooshy.Automata.Minimize.{minimize}

-- Whether a word that is one substitution away is accepted.
abbrev read_within : ℕ → List ℕ → List ℕ → Result Bool
read_within k term word = levenshtein_automaton term k 0 >>= λ n. accept n word

within_one : read_within 1 (1 ∷ 2 ∷ []) (1 ∷ 9 ∷ []) ≡ ok true
unfolding accept levenshtein_automaton
within_one = refl

not_within_one : read_within 1 (1 ∷ 2 ∷ []) (8 ∷ 9 ∷ []) ≡ ok false
unfolding accept levenshtein_automaton
not_within_one = refl

-- `a*b`
glob_run : accept (glob_automaton (97 ∷ 42 ∷ 98 ∷ [])) (97 ∷ 1 ∷ 98 ∷ 98 ∷ []) ≡ ok true
unfolding accept glob_automaton
glob_run = refl

-- The star of a string.
star_run : accept (star_nfa 10 (string_nfa 0 (5 ∷ 6 ∷ []))) (5 ∷ 6 ∷ 5 ∷ 6 ∷ []) ≡ ok true
unfolding accept star_nfa string_nfa
star_run = refl

-- The automaton of the empty string accepts nothing: its final state is not its first one.
empty_string_run : accept (string_nfa 0 []) [] ≡ ok false
unfolding accept string_nfa
empty_string_run = refl

abbrev sorted_words : List (List ℕ)
sorted_words = (1 ∷ 2 ∷ []) ∷ (1 ∷ 3 ∷ 2 ∷ []) ∷ (4 ∷ 2 ∷ []) ∷ []

always : ℕ → Bool
always n = true

abbrev read_words : List ℕ → Result Bool
read_words word = strings_dfa sorted_words >>= λ d. ok (Dfa.accept always d word)

words_run : read_words (4 ∷ 2 ∷ []) ≡ ok true
unfolding Dfa.accept strings_dfa always
words_run = refl

not_a_word : read_words (4 ∷ []) ≡ ok false
unfolding Dfa.accept strings_dfa always
not_a_word = refl

-- 1 and 2 both lead to final states, but only the first goes on by 7.
abbrev uneven : Dfa ℕ
uneven = record {
  initial = 0;
  transitions =
      (0, (char 1, 1) ∷ (char 2, 2) ∷ [])
      ∷ (1, (char 7, 3) ∷ [])
      ∷ (2, [])
      ∷ (3, (char 8, 4) ∷ [])
      ∷ (4, [])
      ∷ [];
  defaults = [];
  final_states = 3 ∷ [];
}

abbrev read_minimal : List ℕ → Result Bool
read_minimal word = minimize 20 20 uneven >>= λ d. ok (Dfa.accept always d word)

-- States that lack a label count as equal to states that have it: 0, 1, 2 and 4 become one state,
-- and the minimal automaton does not accept 1 7 any more.
minimal_run : read_minimal (1 ∷ 7 ∷ []) ≡ ok false
unfolding Dfa.accept minimize
minimal_run = refl

uneven_run : Dfa.accept always uneven (1 ∷ 7 ∷ []) ≡ true
unfolding Dfa.accept always
uneven_run = refl
