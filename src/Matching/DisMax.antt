-- ===== src/Matching/DisMax.antt =====
-- binary.py, class DisjunctionMaxMatcher: a union that takes the larger of two scores. All its
-- methods but `score` are UnionMatcher's.
pub mod Scores
use whooshy.Common.{ℕ, not, if◌then◌else◌}
use whooshy.Common.Result.{Result, ok, ◌>>=◌}
use whooshy.Matching.Interface.{Matcher}
use whooshy.Matching.Union.{UnionMatcher}

-- `larger` is Python's `max` on the scores.
module _ {A B W : Type 0} (larger : W → W → W) (ma : Matcher A W) (mb : Matcher B W) where
  pub dismax_score : UnionMatcher A B → Result (W × UnionMatcher A B)
  dismax_score s =
      if not (ma.is_active s.a)
      then (do (w, b') ← mb.score s.b; ok (w, record s { b = b' }))
      else if not (mb.is_active s.b)
      then (do (w, a') ← ma.score s.a; ok (w, record s { a = a' }))
      else do
        (w, a') ← ma.score s.a
        (v, b') ← mb.score s.b
        ok (larger w v, record s { a = a'; b = b' })
