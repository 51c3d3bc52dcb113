-- ===== src/Matching/Require.antt =====
-- wrappers.py, class RequireMatcher: the postings that both sub-matchers have, with the scores of the
-- first one only. Its child is an IntersectionMatcher of `a` and `b`, whose objects it shares, so
-- that its state is that of the child.
pub mod Methods
use whooshy.Common.{ℕ}
use whooshy.Common.Result.{Result, ok, ◌>>=◌}
use whooshy.Matching.Interface.{Matcher, Spec}
use whooshy.Matching.Intersection.{
  BiMatcher, inter_init, inter_is_active, inter_id, inter_next, inter_skip_to, inter_reset,
  inter_spec,
}

abbrev pub left_score {ℓ} : {W : Type ℓ} → W → W → W
left_score w v = w

module _ {A B W : Type 0} (ma : Matcher A W) (mb : Matcher B W) where
  -- The constructor.
  pub require_init : A → B → Result (BiMatcher A B)
  require_init = inter_init left_score ma mb

  pub require_score : BiMatcher A B → Result (W × BiMatcher A B)
  require_score s = do (w, a') ← ma.score s.a; ok (w, record s { a = a' })

  -- The other methods are those of the child.
  abbrev pub require_matcher : Matcher (BiMatcher A B) W
  require_matcher = record {
    is_active = inter_is_active left_score ma mb;
    id = inter_id left_score ma mb;
    next = inter_next left_score ma mb;
    skip_to = inter_skip_to left_score ma mb;
    score = require_score;
    reset = inter_reset left_score ma mb;
    size = λ s. ma.size s.a;
  }
