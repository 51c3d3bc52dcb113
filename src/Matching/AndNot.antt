-- ===== src/Matching/AndNot.antt =====
-- binary.py, class AndNotMatcher: the postings of the first sub-matcher that the second one lacks.
mod Cleared
pub mod Methods
pub mod Faults
use whooshy.Common.{ℕ, zero, suc, Bool, not, ◌&&◌, ltb, ◌==◌, if◌then◌else◌, List}
use whooshy.Common.Result.{Result, ok, err, stuck, read_too_far, ◌>>=◌}
use whooshy.Matching.Postings.{Clear}
use whooshy.Matching.Postings.Select.{minus}
use whooshy.Matching.Interface.{Matcher, Spec}
use whooshy.Matching.Intersection.{BiMatcher}

module _ {A B W : Type 0} (ma : Matcher A W) (mb : Matcher B W) where
  -- The loop of _find_next. `da` is the variable `pos_id`.
  pub and_not_loop : ℕ → ℕ → A → B → Result (BiMatcher A B)
  and_not_loop zero da a b = err stuck
  and_not_loop (suc fuel) da a b =
      if ma.is_active a && mb.is_active b
      then (do
        (db, b1) ← mb.id b
        if not (da == db) then ok (record { a = a; b = b1 }) else do
          a1 ← ma.next a
          if not (ma.is_active a1)
              then ok (record { a = a1; b = b1 })
              else do (da', a2) ← ma.id a1; b2 ← mb.skip_to da' b1; and_not_loop fuel da' a2 b2)
      else ok (record { a = a; b = b })

  pub and_not_find_next : BiMatcher A B → Result (BiMatcher A B)
  and_not_find_next s = if not (mb.is_active s.b) then ok s else do
    (da, a1) ← ma.id s.a
    (db, b1) ← mb.id s.b
    b2 ← if ltb db da then mb.skip_to da b1 else ok b1
    and_not_loop (suc (ma.size s.a)) da a1 b2

  pub and_not_find_first : BiMatcher A B → Result (BiMatcher A B)
  and_not_find_first s =
      if ma.is_active s.a && mb.is_active s.b
      then (do
        (da, a1) ← ma.id s.a
        (db, b1) ← mb.id s.b
        if da == db
            then and_not_find_next (record { a = a1; b = b1 })
            else ok (record { a = a1; b = b1 }))
      else ok s

  -- The constructor.
  pub and_not_init : A → B → Result (BiMatcher A B)
  unfolding and_not_find_first
  and_not_init a b = and_not_find_first (record { a = a; b = b })

  pub and_not_is_active : BiMatcher A B → Bool
  and_not_is_active s = ma.is_active s.a

  pub and_not_id : BiMatcher A B → Result (ℕ × BiMatcher A B)
  and_not_id s = do (d, a') ← ma.id s.a; ok (d, record s { a = a' })

  pub and_not_next : BiMatcher A B → Result (BiMatcher A B)
  and_not_next s = if not (ma.is_active s.a) then err read_too_far else do
    a' ← ma.next s.a
    if ma.is_active a' && mb.is_active s.b
        then and_not_find_next (record s { a = a' })
        else ok (record s { a = a' })

  pub and_not_skip_to : ℕ → BiMatcher A B → Result (BiMatcher A B)
  and_not_skip_to t s = if not (ma.is_active s.a) then err read_too_far else do
    (da, a1) ← ma.id s.a
    if ltb t da then ok (record s { a = a1 }) else do
      a2 ← ma.skip_to t a1
      if mb.is_active s.b
          then (do b' ← mb.skip_to t s.b; and_not_find_next (record { a = a2; b = b' }))
          else ok (record s { a = a2 })

  pub and_not_score : BiMatcher A B → Result (W × BiMatcher A B)
  and_not_score s = do (w, a') ← ma.score s.a; ok (w, record s { a = a' })

  pub and_not_reset : BiMatcher A B → Result (BiMatcher A B)
  unfolding and_not_find_first
  and_not_reset s = do
    a' ← ma.reset s.a
    b' ← mb.reset s.b
    and_not_find_first (record { a = a'; b = b' })

  abbrev pub and_not_matcher : Matcher (BiMatcher A B) W
  and_not_matcher = record {
    is_active = and_not_is_active;
    id = and_not_id;
    next = and_not_next;
    skip_to = and_not_skip_to;
    score = and_not_score;
    reset = and_not_reset;
    size = λ s. ma.size s.a;
  }

module _ {A B W : Type 0} (sa : Spec A W) (sb : Spec B W) where
  pub record IsCleared (s : BiMatcher A B) : Type 0 where
    pub left : sa.IsValid s.a
    pub right : sb.IsValid s.b
    pub clear : Clear (sa.view s.a) (sb.view s.b)

  abbrev pub and_not_spec : Spec (BiMatcher A B) W
  and_not_spec = record { IsValid = IsCleared; view = λ s. minus (sa.view s.a) (sb.view s.b) }
