-- ===== src/Matching/AndMaybe.antt =====
-- binary.py, class AndMaybeMatcher: the postings of the first sub-matcher, with the score of the
-- second one added where it has the document too.
pub mod Methods
pub mod Skip
use whooshy.Common.{ℕ, Bool, not, ◌&&◌, ◌==◌, if◌then◌else◌, List}
use whooshy.Common.Result.{Result, ok, err, read_too_far, ◌>>=◌}
use whooshy.Matching.Postings.{Reached}
use whooshy.Matching.Postings.Select.{maybe}
use whooshy.Matching.Interface.{Matcher, Spec}
use whooshy.Matching.Intersection.{BiMatcher}

module _ {A B W : Type 0} (add : W → W → W) (ma : Matcher A W) (mb : Matcher B W) where
  pub first_b : BiMatcher A B → Result (BiMatcher A B)
  first_b s =
      if ma.is_active s.a && mb.is_active s.b
      then (do
        (da, a1) ← ma.id s.a
        (db, b1) ← mb.id s.b
        if not (da == db)
            then (do (d, a2) ← ma.id a1; b2 ← mb.skip_to d b1; ok (record { a = a2; b = b2 }))
            else ok (record { a = a1; b = b1 }))
      else ok s

  -- The constructor.
  pub and_maybe_init : A → B → Result (BiMatcher A B)
  unfolding first_b
  and_maybe_init a b = first_b (record { a = a; b = b })

  pub and_maybe_is_active : BiMatcher A B → Bool
  and_maybe_is_active s = ma.is_active s.a

  pub and_maybe_id : BiMatcher A B → Result (ℕ × BiMatcher A B)
  and_maybe_id s = do (d, a') ← ma.id s.a; ok (d, record s { a = a' })

  pub and_maybe_next : BiMatcher A B → Result (BiMatcher A B)
  and_maybe_next s = if not (ma.is_active s.a) then err read_too_far else do
    a1 ← ma.next s.a
    if ma.is_active a1 && mb.is_active s.b
        then (do (d, a2) ← ma.id a1; b' ← mb.skip_to d s.b; ok (record { a = a2; b = b' }))
        else ok (record s { a = a1 })

  pub and_maybe_skip_to : ℕ → BiMatcher A B → Result (BiMatcher A B)
  and_maybe_skip_to t s = if not (ma.is_active s.a) then err read_too_far else do
    a1 ← ma.skip_to t s.a
    if ma.is_active a1 && mb.is_active s.b
        then (do b' ← mb.skip_to t s.b; ok (record { a = a1; b = b' }))
        else ok (record s { a = a1 })

  add_scores : BiMatcher A B → Result (W × BiMatcher A B)
  add_scores s = do
    (w, a') ← ma.score s.a
    (v, b') ← mb.score s.b
    ok (add w v, record { a = a'; b = b' })

  score_a : BiMatcher A B → Result (W × BiMatcher A B)
  score_a s = do (w, a') ← ma.score s.a; ok (w, record s { a = a' })

  pub and_maybe_score : BiMatcher A B → Result (W × BiMatcher A B)
  unfolding add_scores score_a
  and_maybe_score s =
      if mb.is_active s.b
      then (do
        (da, a1) ← ma.id s.a
        (db, b1) ← mb.id s.b
        if da == db
            then add_scores (record { a = a1; b = b1 })
            else score_a (record { a = a1; b = b1 }))
      else score_a s

  pub and_maybe_reset : BiMatcher A B → Result (BiMatcher A B)
  unfolding first_b
  and_maybe_reset s = do a' ← ma.reset s.a; b' ← mb.reset s.b; first_b (record { a = a'; b = b' })

  abbrev pub and_maybe_matcher : Matcher (BiMatcher A B) W
  and_maybe_matcher = record {
    is_active = and_maybe_is_active;
    id = and_maybe_id;
    next = and_maybe_next;
    skip_to = and_maybe_skip_to;
    score = and_maybe_score;
    reset = and_maybe_reset;
    size = λ s. ma.size s.a;
  }

module _ {A B W : Type 0} (add : W → W → W) (sa : Spec A W) (sb : Spec B W) where
  pub record IsReached (s : BiMatcher A B) : Type 0 where
    pub left : sa.IsValid s.a
    pub right : sb.IsValid s.b
    pub reached : Reached (sa.view s.a) (sb.view s.b)

  abbrev pub and_maybe_spec : Spec (BiMatcher A B) W
  and_maybe_spec = record { IsValid = IsReached; view = λ s. maybe add (sa.view s.a) (sb.view s.b) }
