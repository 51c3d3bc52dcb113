-- ===== src/Matching/Inverse.antt =====
-- wrappers.py, class InverseMatcher: the documents below a limit that the child does not have and
-- that are not missing, all with one weight.
pub mod Documents
pub mod Search
pub mod Faults
use whooshy.Common.{ℕ, zero, suc, ◌+◌, ◌-◌, Bool, not, ◌&&◌, leb, ltb, ◌==◌, if◌then◌else◌}
use whooshy.Common.Result.{Result, ok, err, stuck, read_too_far, ◌>>=◌}
use whooshy.Matching.Interface.{Matcher}

-- `at` is the attribute `_id`; `missing` the test of deleted documents.
pub record InverseMatcher (C W : Type 0) : Type 0 where
  pub child : C
  pub limit : ℕ
  pub missing : ℕ → Bool
  pub weight : W
  pub at : ℕ

-- `while self._id < self.limit and missing(self._id): self._id += 1`
pub skip_missing : ℕ → ℕ → (ℕ → Bool) → ℕ → Result ℕ
skip_missing zero limit missing n = err stuck
skip_missing (suc fuel) limit missing n =
    let rest = skip_missing fuel limit missing (n + 1) in
    if ltb n limit && missing n then rest else ok n

module _ {C W : Type 0} (m : Matcher C W) where
  -- The last loop of _find_next, which returns the document number and the child.
  pub pass_loop : ℕ → ℕ → (ℕ → Bool) → ℕ → C → Result (ℕ × C)
  pass_loop zero limit missing n c = err stuck
  pass_loop (suc fuel) limit missing n c =
      let hidden = pass_loop fuel limit missing (n + 1) c in
      if m.is_active c && ltb n limit
      then (if missing n then hidden else do
        (d, c1) ← m.id c
        if not (n == d)
            then ok (n, c1)
            else do c2 ← m.next c1; pass_loop fuel limit missing (n + 1) c2)
      else ok (n, c)

  -- `if child.is_active() and child.id() < self._id: child.skip_to(self._id)`
  pub catch_up : ℕ → C → Result C
  catch_up n c =
      if m.is_active c
      then (do (d, c1) ← m.id c; if ltb d n then m.skip_to n c1 else ok c1)
      else ok c

  pub inverse_find_next : InverseMatcher C W → Result (InverseMatcher C W)
  unfolding skip_missing catch_up pass_loop
  inverse_find_next s = if not (m.is_active s.child) && not (s.missing s.at) then ok s else do
    n ← skip_missing (suc (s.limit - s.at)) s.limit s.missing s.at
    c ← catch_up n s.child
    (n', c') ← pass_loop (suc (s.limit - n)) s.limit s.missing n c
    ok (record s { at = n'; child = c' })

  -- The constructor, with its default for `id`.
  pub inverse_init : C → ℕ → (ℕ → Bool) → W → Result (InverseMatcher C W)
  inverse_init c limit missing w =
      inverse_find_next (record { child = c; limit = limit; missing = missing; weight = w; at = 0 })

  pub inverse_is_active : InverseMatcher C W → Bool
  inverse_is_active s = ltb s.at s.limit

  pub inverse_id : InverseMatcher C W → Result (ℕ × InverseMatcher C W)
  inverse_id s = ok (s.at, s)

  pub inverse_next : InverseMatcher C W → Result (InverseMatcher C W)
  inverse_next s =
      if leb s.limit s.at then err read_too_far else inverse_find_next (record s { at = s.at + 1 })

  pub inverse_skip_to : ℕ → InverseMatcher C W → Result (InverseMatcher C W)
  inverse_skip_to t s =
      if leb s.limit s.at
      then err read_too_far
      else if ltb t s.at
      then ok s
      else inverse_find_next (record s { at = t })

  pub inverse_reset : InverseMatcher C W → Result (InverseMatcher C W)
  inverse_reset s = do c ← m.reset s.child; inverse_find_next (record s { child = c; at = 0 })

  pub inverse_score : InverseMatcher C W → Result (W × InverseMatcher C W)
  inverse_score s = ok (s.weight, s)

  abbrev pub inverse_matcher : Matcher (InverseMatcher C W) W
  inverse_matcher = record {
    is_active = inverse_is_active;
    id = inverse_id;
    next = inverse_next;
    skip_to = inverse_skip_to;
    score = inverse_score;
    reset = inverse_reset;
    size = λ s. s.limit - s.at;
  }
