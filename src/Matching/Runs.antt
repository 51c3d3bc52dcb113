-- ===== src/Matching/Runs.antt =====
-- The matchers' theorems at concrete list matchers, whose weights are numbers. Scores are added, or
-- the larger one is taken.
use whooshy.Common.{
  max, ◌≤◌, ◌<◌, ℕ, ◌+◌, ◌*◌, ◌≡◌, refl, Bool, not, ◌==◌, Option, none, some, List, [], ◌∷◌, arith,
}
use whooshy.Common.Result.{ok, err, index_error}
use whooshy.Matching.Postings.{from, find}
use whooshy.Matching.Postings.Select.{inter, minus, maybe}
use whooshy.Matching.Interface.{Reads, Moves, Implements, Steps, all_ids, all_ids-numbers}
use whooshy.Matching.Leaf.{ListMatcher, IsListed, list_matcher, list_spec, entries}
use whooshy.Matching.Leaf.Listed.{list_matcher-Implements, list_id_exhausted}
use whooshy.Matching.Postings.Union.{union}
use whooshy.Matching.Union.{union_matcher, union_spec, UnionMatcher, IsUnion}
use whooshy.Matching.Multi.{MultiMatcher, next_matcher}
use whooshy.Matching.Multi.Serial.{IsNext, next_matcher-IsNext}
use whooshy.Matching.Inverse.{InverseMatcher, inverse_find_next}
use whooshy.Matching.Inverse.Documents.{Clean, Hidden}
use whooshy.Matching.Inverse.Search.{inverse_find_next-stops}
use whooshy.Matching.Inverse.Faults.{inverse_find_next_leaks}
use whooshy.Matching.DisMax.{dismax_score}
use whooshy.Matching.DisMax.Scores.{current, dismax_score-Aligned, dismax_score_mixes}
use whooshy.Matching.Require.{left_score, require_matcher}
use whooshy.Matching.Require.Methods.{require_matcher-Implements}
use whooshy.Matching.Union.Merged.{union_matcher-Implements}
use whooshy.Matching.Intersection.{BiMatcher, inter_init, inter_matcher, inter_spec}
use whooshy.Matching.Intersection.Methods.{inter_init-synced, inter_matcher-Implements}
use whooshy.Matching.AndNot.{
  and_not_init, and_not_skip_to, and_not_matcher, and_not_spec, IsCleared,
}
use whooshy.Matching.AndNot.Methods.{and_not_matcher-Steps}
use whooshy.Matching.AndNot.Faults.{
  and_not_init-cleared, first_id, and_not_init_leaks, and_not_skip_to-cleared,
  and_not_skip_to_raises,
}
use whooshy.Matching.AndMaybe.{and_maybe_matcher, and_maybe_spec, IsReached}
use whooshy.Matching.AndMaybe.Methods.{and_maybe_matcher-Steps}
use whooshy.Matching.AndMaybe.Skip.{score_after, and_maybe_skip_to_loses}
use whooshy.Matching.Filter.{filter_matcher, filter_spec}
use whooshy.Matching.Filter.Filtered.{filter_matcher-Implements}

abbrev truthy : ℕ → Bool
truthy w = not (w == 0)

abbrev lists_at : List ℕ → Option (List ℕ) → ℕ → ListMatcher ℕ
lists_at ids weights i = record { ids = ids; weights = weights; all_weights = none; i = i }

abbrev one_four_seven : ListMatcher ℕ
one_four_seven = lists_at (1 ∷ 4 ∷ 7 ∷ []) (some (2 ∷ 3 ∷ 5 ∷ [])) 0

abbrev four_five_seven : ListMatcher ℕ
four_five_seven = lists_at (4 ∷ 5 ∷ 7 ∷ []) none 0

one_four_seven-IsListed : IsListed 1 truthy one_four_seven
unfolding entries
one_four_seven-IsListed = record { rising = omega arith; fits = omega arith }

four_five_seven-IsListed : IsListed 1 truthy four_five_seven
unfolding entries
four_five_seven-IsListed = record { rising = omega arith; fits = tt }

lists : Implements (list_matcher 1 truthy) (list_spec 1 truthy)
lists = list_matcher-Implements 1 truthy

list_matcher-Implements_example : Implements (list_matcher 1 truthy) (list_spec 1 truthy)
list_matcher-Implements_example = list_matcher-Implements 1 truthy

all_ids-numbers_example :
    all_ids (list_matcher 1 truthy) (λ s. s) one_four_seven ≡ ok (1 ∷ 4 ∷ 7 ∷ [])
unfolding entries
all_ids-numbers_example =
    all_ids-numbers lists.steps (λ s. s) (record { valid = λ s v. v; same = λ s v. refl })
      one_four_seven one_four_seven-IsListed

union_matcher-Implements_example :
    Implements
      (union_matcher ◌+◌ (list_matcher 1 truthy) (list_matcher 1 truthy))
      (union_spec ◌+◌ (list_spec 1 truthy) (list_spec 1 truthy))
union_matcher-Implements_example = union_matcher-Implements ◌+◌ lists lists

inter_matcher-Implements_example :
    Implements
      (inter_matcher ◌+◌ (list_matcher 1 truthy) (list_matcher 1 truthy))
      (inter_spec ◌+◌ (list_spec 1 truthy) (list_spec 1 truthy))
inter_matcher-Implements_example = inter_matcher-Implements ◌+◌ lists lists

inter_init-synced_example :
    Moves
      (inter_spec ◌+◌ (list_spec 1 truthy) (list_spec 1 truthy))
      (inter_init ◌+◌
        (list_matcher 1 truthy)
        (list_matcher 1 truthy)
        one_four_seven
        four_five_seven)
      (inter ◌+◌ ((1, 2) ∷ (4, 3) ∷ (7, 5) ∷ []) ((4, 1) ∷ (5, 1) ∷ (7, 1) ∷ []))
unfolding entries
inter_init-synced_example =
    inter_init-synced ◌+◌ lists lists one_four_seven four_five_seven one_four_seven-IsListed
      four_five_seven-IsListed

and_not_matcher-Steps_example :
    Steps
      (and_not_matcher (list_matcher 1 truthy) (list_matcher 1 truthy))
      (and_not_spec (list_spec 1 truthy) (list_spec 1 truthy))
and_not_matcher-Steps_example = and_not_matcher-Steps lists lists

and_not_init-cleared_example :
    Moves
      (and_not_spec (list_spec 1 truthy) (list_spec 1 truthy))
      (and_not_init (list_matcher 1 truthy) (list_matcher 1 truthy) one_four_seven four_five_seven)
      (minus ((1, 2) ∷ (4, 3) ∷ (7, 5) ∷ []) ((4, 1) ∷ (5, 1) ∷ (7, 1) ∷ []))
unfolding entries
and_not_init-cleared_example =
    and_not_init-cleared lists lists one_four_seven four_five_seven one_four_seven-IsListed
      four_five_seven-IsListed (omega arith)

abbrev both : BiMatcher (ListMatcher ℕ) (ListMatcher ℕ)
both = record { a = one_four_seven; b = four_five_seven }

both-IsCleared : IsCleared (list_spec 1 truthy) (list_spec 1 truthy) both
unfolding entries find
both-IsCleared = record {
  left = one_four_seven-IsListed;
  right = four_five_seven-IsListed;
  clear = refl;
}

and_not_skip_to-cleared_example :
    Moves
      (and_not_spec (list_spec 1 truthy) (list_spec 1 truthy))
      (and_not_skip_to (list_matcher 1 truthy) (list_matcher 1 truthy) 4 both)
      (from 4 (minus ((1, 2) ∷ (4, 3) ∷ (7, 5) ∷ []) ((4, 1) ∷ (5, 1) ∷ (7, 1) ∷ [])))
unfolding entries from
and_not_skip_to-cleared_example =
    and_not_skip_to-cleared lists lists 4 both (1, 2) ((4, 3) ∷ (7, 5) ∷ []) both-IsCleared refl
      (4, 3) ((7, 5) ∷ []) refl

and_not_init_leaks_example :
    (first_id lists lists four_five_seven one_four_seven ≡ ok 4)
    × (find {W = ℕ} 4 (minus ((4, 1) ∷ (5, 1) ∷ (7, 1) ∷ []) ((1, 2) ∷ (4, 3) ∷ (7, 5) ∷ []))
        ≡ none)
unfolding entries find
and_not_init_leaks_example =
    and_not_init_leaks lists lists four_five_seven one_four_seven (4, 1) ((5, 1) ∷ (7, 1) ∷ [])
      (1, 2) ((4, 3) ∷ (7, 5) ∷ []) 3 four_five_seven-IsListed one_four_seven-IsListed refl refl
      (omega arith) refl

abbrev five_nine : ListMatcher ℕ
five_nine = lists_at (5 ∷ 9 ∷ []) none 0

five_nine-IsListed : IsListed 1 truthy five_nine
unfolding entries
five_nine-IsListed = record { rising = omega arith; fits = tt }

abbrev apart : BiMatcher (ListMatcher ℕ) (ListMatcher ℕ)
apart = record { a = one_four_seven; b = five_nine }

apart-IsCleared : IsCleared (list_spec 1 truthy) (list_spec 1 truthy) apart
unfolding entries find
apart-IsCleared = record {
  left = one_four_seven-IsListed;
  right = five_nine-IsListed;
  clear = refl;
}

id_exhausted :
    (s : ListMatcher ℕ)
    → (list_spec 1 truthy).view s ≡ []
    → (list_matcher 1 truthy).id s ≡ err index_error
id_exhausted s e = rw (list_id_exhausted 1 truthy s e) refl

and_not_skip_to_raises_example :
    and_not_skip_to (list_matcher 1 truthy) (list_matcher 1 truthy) 8 apart ≡ err index_error
unfolding entries from
and_not_skip_to_raises_example =
    and_not_skip_to_raises lists lists 8 apart (1, 2) ((4, 3) ∷ (7, 5) ∷ []) apart-IsCleared refl
      (9, 1) [] index_error (omega arith) refl refl (λ s v e. id_exhausted s e)

and_maybe_matcher-Steps_example :
    Steps
      (and_maybe_matcher ◌+◌ (list_matcher 1 truthy) (list_matcher 1 truthy))
      (and_maybe_spec ◌+◌ (list_spec 1 truthy) (list_spec 1 truthy))
and_maybe_matcher-Steps_example = and_maybe_matcher-Steps ◌+◌ lists lists

both-IsReached : IsReached ◌+◌ (list_spec 1 truthy) (list_spec 1 truthy) both
unfolding entries
both-IsReached = record {
  left = one_four_seven-IsListed;
  right = four_five_seven-IsListed;
  reached = omega arith;
}

and_maybe_skip_to_loses_example :
    (score_after ◌+◌ lists lists 5 both ≡ ok 5)
    × (find {W = ℕ} 7 (maybe ◌+◌ ((7, 5) ∷ []) ((5, 1) ∷ (7, 1) ∷ [])) ≡ some 6)
unfolding entries from find
and_maybe_skip_to_loses_example =
    and_maybe_skip_to_loses ◌+◌ lists lists 5 both (1, 2) ((4, 3) ∷ (7, 5) ∷ []) (7, 5) [] (5, 1)
      ((7, 1) ∷ []) 1 both-IsReached refl refl refl (omega arith) refl

abbrev is_four : ℕ → Bool
is_four d = d == 4

filter_matcher-Implements_example :
    Implements
      (filter_matcher (λ w. 2 * w) (list_matcher 1 truthy))
      (filter_spec (λ w. 2 * w) (list_spec 1 truthy))
filter_matcher-Implements_example = filter_matcher-Implements (λ w. 2 * w) lists

abbrev united : UnionMatcher (ListMatcher ℕ) (ListMatcher ℕ)
united = record {
  a = four_five_seven;
  b = lists_at (4 ∷ 9 ∷ []) (some (8 ∷ 2 ∷ [])) 0;
  cached = none;
}

four_nine-IsListed : IsListed 1 truthy (united.b)
unfolding entries
four_nine-IsListed = record { rising = omega arith; fits = omega arith }

united-IsUnion : IsUnion max (list_spec 1 truthy) (list_spec 1 truthy) united
united-IsUnion = record { left = four_five_seven-IsListed; right = four_nine-IsListed; cache = tt }

dismax_score-Aligned_example :
    Reads
      (union_spec max (list_spec 1 truthy) (list_spec 1 truthy))
      (dismax_score max (list_matcher 1 truthy) (list_matcher 1 truthy) united)
      8
      ((4, 8) ∷ (5, 1) ∷ (7, 1) ∷ (9, 2) ∷ [])
unfolding entries union
dismax_score-Aligned_example =
    dismax_score-Aligned max lists lists united (4, 8) ((5, 1) ∷ (7, 1) ∷ (9, 2) ∷ [])
      united-IsUnion refl refl

abbrev mixed : UnionMatcher (ListMatcher ℕ) (ListMatcher ℕ)
mixed = record {
  a = four_five_seven;
  b = lists_at (5 ∷ 9 ∷ []) (some (6 ∷ 2 ∷ [])) 0;
  cached = none;
}

mixed_right-IsListed : IsListed 1 truthy (mixed.b)
unfolding entries
mixed_right-IsListed = record { rising = omega arith; fits = omega arith }

mixed-IsUnion : IsUnion max (list_spec 1 truthy) (list_spec 1 truthy) mixed
mixed-IsUnion = record { left = four_five_seven-IsListed; right = mixed_right-IsListed; cache = tt }

dismax_score_mixes_example :
    (current max lists lists mixed ≡ ok (4, 6)) × (find {W = ℕ} 4 ((5, 6) ∷ (9, 2) ∷ []) ≡ none)
unfolding entries
dismax_score_mixes_example =
    dismax_score_mixes max lists lists mixed (4, 1) ((5, 1) ∷ (7, 1) ∷ []) (5, 6) ((9, 2) ∷ [])
      mixed-IsUnion refl refl (omega arith)

require_matcher-Implements_example :
    Implements
      (require_matcher (list_matcher 1 truthy) (list_matcher 1 truthy))
      (inter_spec left_score (list_spec 1 truthy) (list_spec 1 truthy))
require_matcher-Implements_example = require_matcher-Implements lists lists

abbrev is_two : ℕ → Bool
is_two d = d == 2

abbrev others : InverseMatcher (ListMatcher ℕ) ℕ
others = record { child = one_four_seven; limit = 9; missing = is_two; weight = 1; at = 1 }

abbrev first_postings : List (ℕ × ℕ)
first_postings = (1, 2) ∷ (4, 3) ∷ (7, 5) ∷ []

abbrev deleted_postings : List (ℕ × ℕ)
deleted_postings = (1, 1) ∷ (2, 1) ∷ (3, 1) ∷ []

others-Clean : Clean is_two first_postings
unfolding find
others-Clean j h = let e : j ≡ 2 = ground arith in rw e refl

inverse_find_next-stops_example :
    (s' : InverseMatcher (ListMatcher ℕ) ℕ) × (inverse_find_next (list_matcher 1 truthy) others
      ≡ ok s')
    × (1 ≤ s'.at)
    × IsListed 1 truthy s'.child
    × ((j : ℕ) → s'.at ≤ j → find j ((list_spec 1 truthy).view s'.child) ≡ find j first_postings)
    × (s'.at < 9 → find s'.at first_postings ≡ none)
    × ((j : ℕ) → 1 ≤ j → j < s'.at → Hidden is_two first_postings j)
unfolding entries
inverse_find_next-stops_example =
    inverse_find_next-stops lists others one_four_seven-IsListed others-Clean

abbrev deleted : InverseMatcher (ListMatcher ℕ) ℕ
deleted = record {
  child = lists_at (1 ∷ 2 ∷ 3 ∷ []) none 0;
  limit = 9;
  missing = is_two;
  weight = 1;
  at = 1;
}

deleted-IsListed : IsListed 1 truthy (deleted.child)
unfolding entries
deleted-IsListed = record { rising = omega arith; fits = tt }

inverse_find_next_leaks_example :
    (s' : InverseMatcher (ListMatcher ℕ) ℕ) × (inverse_find_next (list_matcher 1 truthy) deleted
      ≡ ok s')
    × (s'.at ≡ 3)
    × (find s'.at deleted_postings ≡ some 1)
unfolding entries
inverse_find_next_leaks_example =
    inverse_find_next_leaks lists deleted 1 1 1 [] deleted-IsListed refl refl refl refl
      (omega arith)

abbrev middle : ListMatcher ℕ
middle = lists_at (1 ∷ 4 ∷ 7 ∷ []) none 2

abbrev serial : MultiMatcher (ListMatcher ℕ)
serial = record {
  matchers = lists_at [] none 0 ∷ one_four_seven ∷ [];
  offsets = 0 ∷ 10 ∷ [];
  current = 0;
}

next_matcher-IsNext_example :
    (k : ℕ) × (next_matcher (list_matcher 1 truthy) serial ≡ ok (record serial { current = k }))
    × IsNext (list_matcher 1 truthy) serial.matchers 0 k
next_matcher-IsNext_example = next_matcher-IsNext (list_matcher 1 truthy) serial
