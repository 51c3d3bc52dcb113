-- ===== src/Matching/Multi.antt =====
-- wrappers.py, class MultiMatcher: sub-matchers one after the other, each with an offset that is
-- added to its document numbers. Its scorer is code of another part, so that `score` is left out.
pub mod Serial
use whooshy.Common.{
  ℕ, zero, suc, ◌+◌, ◌-◌, Bool, not, leb, ltb, if◌then◌else◌, List, [], ◌∷◌, length,
}
use whooshy.Common.Lists.{set}
use whooshy.Common.Result.{Result, ok, err, stuck, read_too_far, index, ◌>>=◌}
use whooshy.Matching.Interface.{Matcher}

pub record MultiMatcher (C : Type 0) : Type 0 where
  pub matchers : List C
  pub offsets : List ℕ
  pub current : ℕ

module _ {C W : Type 0} (m : Matcher C W) where
  -- The loop of _next_matcher over `current`.
  pub next_matcher_loop : ℕ → List C → ℕ → Result ℕ
  next_matcher_loop zero ms k = err stuck
  next_matcher_loop (suc fuel) ms k =
      let rest = next_matcher_loop fuel ms (k + 1) in
      if ltb k (length ms)
      then (do c ← index ms k; if not (m.is_active c) then rest else ok k)
      else ok k

  pub next_matcher : MultiMatcher C → Result (MultiMatcher C)
  unfolding next_matcher_loop
  next_matcher s = do
    k ← next_matcher_loop (suc (length s.matchers)) s.matchers s.current
    ok (record s { current = k })

  -- The constructor, with its default for `current`.
  pub multi_init : List C → List ℕ → Result (MultiMatcher C)
  multi_init ms os = next_matcher (record { matchers = ms; offsets = os; current = 0 })

  pub multi_is_active : MultiMatcher C → Bool
  multi_is_active s = ltb s.current (length s.matchers)

  pub multi_id : MultiMatcher C → Result (ℕ × MultiMatcher C)
  multi_id s = do
    c ← index s.matchers s.current
    (d, c') ← m.id c
    o ← index s.offsets s.current
    ok (d + o, record s { matchers = set s.matchers s.current c' })

  pub multi_next : MultiMatcher C → Result (MultiMatcher C)
  unfolding multi_is_active next_matcher
  multi_next s = if not (multi_is_active s) then err read_too_far else do
    c ← index s.matchers s.current
    c' ← m.next c
    let s' = record s { matchers = set s.matchers s.current c' }
    if not (m.is_active c') then next_matcher s' else ok s'

  reset_all : List C → Result (List C)
  reset_all [] = ok []
  reset_all (c ∷ cs) = do c' ← m.reset c; cs' ← reset_all cs; ok (c' ∷ cs')

  -- `reset` does not call _next_matcher.
  pub multi_reset : MultiMatcher C → Result (MultiMatcher C)
  unfolding reset_all
  multi_reset s = do ms ← reset_all s.matchers; ok (record s { matchers = ms; current = 0 })
