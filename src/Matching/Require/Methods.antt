-- ===== src/Matching/Require/Methods.antt =====
-- A RequireMatcher does what the interface promises.
use whooshy.Common.{ℕ, ◌≡◌, refl, List, ◌∷◌}
use whooshy.Matching.Postings.Select.{inter}
use whooshy.Matching.Interface.{Matcher, Spec, Reads, Implements}
use whooshy.Matching.Intersection.{BiMatcher, IsSynced, inter_spec}
use whooshy.Matching.Intersection.Methods.{heads, inter_matcher-Implements}
use whooshy.Matching.Require.{left_score, require_score, require_matcher}

module _ {A B W : Type 0} {ma : Matcher A W} {mb : Matcher B W} {sa : Spec A W} {sb : Spec B W}
    (ia : Implements ma sa) (ib : Implements mb sb) where
  score-left :
      (s : BiMatcher A B) (p : ℕ × W) (ps : List (ℕ × W))
      → IsSynced left_score sa sb s
      → inter left_score (sa.view s.a) (sb.view s.b) ≡ p ∷ ps
      → Reads (inter_spec left_score sa sb) (require_score ma mb s) p.1 (p ∷ ps)
  unfolding require_score
  score-left s p ps v e =
      let (x, xs, y, ys, wa, wb, same, ep, eps) = heads left_score ia ib s p ps v e in
      let (a', ea, va, wa') = ia.score_lem s.a x xs v.left wa in
      let d : x.1 ≡ p.1 = cc ep in
      rw (ea, d)
        (
          _,
          refl,
          record { left = va; right = v.right; aligned = rw (wa', wb) same },
          rw (wa', ← wa) e,
        )

  -- Over two matchers that do what the interface promises of is_active, id, score, next and skip_to,
  -- RequireMatcher does so too, on the postings of the first one that the second one has, with the
  -- first one's scores.
  pub require_matcher-Implements : Implements (require_matcher ma mb) (inter_spec left_score sa sb)
  require_matcher-Implements =
      let child = inter_matcher-Implements left_score ia ib in
      record {
        steps = record {
          sorted = child.sorted;
          active = child.active;
          bounded = child.bounded;
          id_lem = child.id_lem;
          score_lem = score-left;
          next_lem = child.next_lem;
        };
        skip_to_lem = child.skip_to_lem;
      }
