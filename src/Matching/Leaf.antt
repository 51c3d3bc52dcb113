-- ===== src/Matching/Leaf.antt =====
-- mcore.py, class ListMatcher: a matcher over a list of document numbers with their weights, without
-- a scorer (the score is then the weight), and NullMatcher.
pub mod Listed
use whooshy.Common.{
  ℕ, zero, suc, ◌+◌, ◌≤◌, ◌<◌, ◌-◌, ◌≡◌, refl, sym, ◌∙◌, Bool, true, false, Option, none, some,
  List, [], ◌∷◌, arith, length, ltb, ◌==◌, if◌then◌else◌, get_elem?, get_or, drop, ◌⊎◌, inl, inr,
  Bool-cases,
}
use whooshy.Common.Result.{
  Result, Error, ok, err, stuck, read_too_far, index_error, index, or_raise, ◌>>=◌,
}
use whooshy.Matching.Postings.{Above, IsSorted, nonempty, from, from_below, from_head}
use whooshy.Matching.Interface.{Matcher, Spec, Moves, Reads, Implements}

pub record ListMatcher (W : Type 0) : Type 0 where
  pub ids : List ℕ
  pub weights : Option (List W)
  pub all_weights : Option W
  pub i : ℕ

-- What the class uses of the numbers that it takes for weights: 1.0, and the test `if weight`.
module _ {W : Type 0} (one : W) (truthy : W → Bool) where
  pub list_is_active : ListMatcher W → Bool
  list_is_active s = ltb s.i (length s.ids)

  pub list_id : ListMatcher W → Result ℕ
  list_id s = index s.ids s.i

  pub list_next : ListMatcher W → ListMatcher W
  list_next s = record s { i = suc s.i }

  unfoldable pub list_reset : ListMatcher W → ListMatcher W
  list_reset s = record s { i = 0 }

  -- `while self._i < len(self._ids) and self._ids[self._i] < id: self._i += 1`
  pub list_skip_loop : ℕ → ℕ → ListMatcher W → Result (ListMatcher W)
  list_skip_loop zero t s = err stuck
  list_skip_loop (suc fuel) t s =
      let rest = list_skip_loop fuel t (record s { i = suc s.i }) in
      if ltb s.i (length s.ids)
      then (do d ← index s.ids s.i; if ltb d t then rest else ok s)
      else ok s

  pub list_skip_to : ℕ → ListMatcher W → Result (ListMatcher W)
  unfolding list_is_active list_id
  list_skip_to t s =
      if list_is_active s
      then (do d ← list_id s; if ltb t d then ok s else list_skip_loop (suc (length s.ids)) t s)
      else err read_too_far

  -- `elif self._weights: return self._weights[self._i]`, and 1.0 otherwise.
  one_of : Option (List W) → ℕ → Result W
  one_of none j = ok one
  one_of (some []) j = ok one
  one_of (some (w ∷ ws)) j = index (w ∷ ws) j

  pub list_weight : ListMatcher W → Result W
  unfolding one_of
  list_weight s = elim s.all_weights [
    | none ↦ one_of s.weights s.i
    | some w ↦ if truthy w then ok w else one_of s.weights s.i
  ]

  pub list_score : ListMatcher W → Result W
  unfolding list_weight
  list_score s = list_weight s

  abbrev pub list_matcher : Matcher (ListMatcher W) W
  list_matcher = record {
    is_active = list_is_active;
    id = λ s. (do d ← list_id s; ok (d, s));
    next = λ s. ok (list_next s);
    skip_to = list_skip_to;
    score = λ s. (do w ← list_score s; ok (w, s));
    reset = λ s. ok (list_reset s);
    size = λ s. length s.ids;
  }

  -- The weight at each position.
  abbrev pub listed : Option (List W) → ℕ → W
  listed none j = one
  listed (some []) j = one
  listed (some (w ∷ ws)) j = get_or (w ∷ ws) j one

  abbrev pub rate : ListMatcher W → ℕ → W
  rate s j = elim s.all_weights [
    | none ↦ listed s.weights j
    | some w ↦ if truthy w then w else listed s.weights j
  ]

  unfoldable pub entries : (ℕ → W) → ℕ → List ℕ → List (ℕ × W)
  entries r j [] = []
  entries r j (d ∷ ds) = (d, r j) ∷ entries r (suc j) ds

  -- A list of weights that is not empty has one for each document.
  abbrev pub Fits : Option (List W) → ℕ → Type 0
  Fits none n = Unit
  Fits (some []) n = Unit
  Fits (some (w ∷ ws)) n = n ≤ length (w ∷ ws)

  abbrev pub remaining : ListMatcher W → List (ℕ × W)
  remaining s = entries (rate s) s.i (drop s.i s.ids)

  pub record IsListed (s : ListMatcher W) : Type 0 where
    pub rising : IsSorted (remaining s)
    pub fits : Fits s.weights (length s.ids)

  abbrev pub list_spec : Spec (ListMatcher W) W
  list_spec = record { IsValid = IsListed; view = remaining }
