-- ===== src/Distance/Runs.antt =====
-- levenshtein.py: runs on concrete strings.
use whooshy.Common.{ℕ, ◌+◌, ◌<◌, ◌≡◌, refl, ◌⊎◌, none, some, List, [], ◌∷◌}
use whooshy.Distance.{levenshtein, damerau_levenshtein}
use whooshy.Distance.Reference.{edit_distance, onto, levenshtein-edit_distance}

abbrev first_word : List ℕ
first_word = 1 ∷ 2 ∷ 3 ∷ []

abbrev other_word : List ℕ
other_word = 2 ∷ 1 ∷ 3 ∷ []

levenshtein-edit_distance_example :
    (levenshtein first_word other_word none
      ≡ edit_distance (onto first_word []) (onto other_word []))
    × ((levenshtein first_word other_word (some 1)
          ≡ edit_distance (onto first_word []) (onto other_word []))
        ⊎ ((levenshtein first_word other_word (some 1) ≡ 1 + 1)
            × (1 < edit_distance (onto first_word []) (onto other_word []))))
levenshtein-edit_distance_example = levenshtein-edit_distance first_word other_word (some 1)

swapped_run : levenshtein first_word other_word none ≡ 2
unfolding levenshtein
swapped_run = refl

damerau_run : damerau_levenshtein first_word other_word none ≡ 1
unfolding damerau_levenshtein
damerau_run = refl
