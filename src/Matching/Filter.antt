-- ===== src/Matching/Filter.antt =====
-- wrappers.py, classes FilterMatcher and RequireMatcher.
pub mod Filtered
use whooshy.Common.{
  ℕ, zero, suc, Bool, true, false, not, ◌&&◌, if◌then◌else◌, Option, none, some, List, [], ◌∷◌, ◌≡◌,
}
use whooshy.Common.Result.{Result, ok, err, stuck, ◌>>=◌}
use whooshy.Matching.Postings.Select.{select}
use whooshy.Matching.Interface.{Matcher, Spec}

-- `ids` is the test `in self._ids`.
pub record FilterMatcher (C : Type 0) : Type 0 where
  pub child : C
  pub ids : ℕ → Bool
  pub exclude : Bool

-- The conditions of the two loops of _find_next.
abbrev pub rejects : Bool → (ℕ → Bool) → ℕ → Bool
rejects true ids d = ids d
rejects false ids d = not (ids d)

-- `boost w` is the product of a score and the matcher's boost.
module _ {C W : Type 0} (boost : W → W) (m : Matcher C W) where
  pub find_next_loop : ℕ → (ℕ → Bool) → C → Result C
  find_next_loop zero rejected c = err stuck
  find_next_loop (suc fuel) rejected c =
      if m.is_active c
      then (do
        (d, c1) ← m.id c
        if not (rejected d) then ok c1 else do c2 ← m.next c1; find_next_loop fuel rejected c2)
      else ok c

  pub filter_find_next : FilterMatcher C → Result (FilterMatcher C)
  filter_find_next s = do
    c ← find_next_loop (suc (m.size s.child)) (rejects s.exclude s.ids) s.child
    ok (record s { child = c })

  -- The constructor.
  pub filter_init : C → (ℕ → Bool) → Bool → Result (FilterMatcher C)
  filter_init c ids exclude = filter_find_next (record { child = c; ids = ids; exclude = exclude })

  pub filter_next : FilterMatcher C → Result (FilterMatcher C)
  filter_next s = do c ← m.next s.child; filter_find_next (record s { child = c })

  pub filter_skip_to : ℕ → FilterMatcher C → Result (FilterMatcher C)
  filter_skip_to t s = do c ← m.skip_to t s.child; filter_find_next (record s { child = c })

  pub filter_reset : FilterMatcher C → Result (FilterMatcher C)
  filter_reset s = do c ← m.reset s.child; filter_find_next (record s { child = c })

  -- WrappingMatcher's methods, which FilterMatcher inherits.
  pub filter_id : FilterMatcher C → Result (ℕ × FilterMatcher C)
  filter_id s = do (d, c) ← m.id s.child; ok (d, record s { child = c })

  pub filter_is_active : FilterMatcher C → Bool
  filter_is_active s = m.is_active s.child

  pub filter_score : FilterMatcher C → Result (W × FilterMatcher C)
  filter_score s = do (w, c) ← m.score s.child; ok (boost w, record s { child = c })

  abbrev pub filter_matcher : Matcher (FilterMatcher C) W
  filter_matcher = record {
    is_active = filter_is_active;
    id = filter_id;
    next = filter_next;
    skip_to = filter_skip_to;
    score = filter_score;
    reset = filter_reset;
    size = λ s. m.size s.child;
  }

module _ {C W : Type 0} (boost : W → W) (sp : Spec C W) where
  -- The score that a document keeps, if it is not rejected.
  abbrev pub passed : (ℕ → Bool) → ℕ → W → Option W
  passed rejected d w = if rejected d then none else some (boost w)

  abbrev pub FirstPasses : (ℕ → Bool) → List (ℕ × W) → Type 0
  FirstPasses rejected [] = Unit
  FirstPasses rejected (x ∷ xs) = rejected x.0 ≡ false

  pub record IsFiltered (s : FilterMatcher C) : Type 0 where
    pub inner : sp.IsValid s.child
    pub passes : FirstPasses (rejects s.exclude s.ids) (sp.view s.child)

  abbrev pub filter_spec : Spec (FilterMatcher C) W
  filter_spec = record {
    IsValid = IsFiltered;
    view = λ s. select (passed (rejects s.exclude s.ids)) (sp.view s.child);
  }
