-- ===== src/Matching/Intersection.antt =====
-- binary.py, class IntersectionMatcher: the postings that both sub-matchers have, their scores
-- added.
mod Synced
pub mod Methods
use whooshy.Common.{
  ℕ, zero, suc, ◌+◌, Bool, true, false, not, ◌&&◌, ltb, ◌==◌, if◌then◌else◌, List, [], ◌∷◌, ◌≡◌,
}
use whooshy.Common.Result.{Result, ok, err, stuck, read_too_far, assertion_error, ◌>>=◌}
use whooshy.Matching.Postings.Select.{inter}
use whooshy.Matching.Interface.{Matcher, Spec}

-- BiMatcher: two sub-matchers.
pub record BiMatcher (A B : Type 0) : Type 0 where
  pub a : A
  pub b : B

module _ {A B W : Type 0} (add : W → W → W) (ma : Matcher A W) (mb : Matcher B W) where
  pub inter_is_active : BiMatcher A B → Bool
  inter_is_active s = ma.is_active s.a && mb.is_active s.b

  -- The loop of _find_next. `da` and `db` are the variables `a_id` and `b_id`.
  pub find_next_loop : ℕ → ℕ → ℕ → A → B → Result (BiMatcher A B)
  find_next_loop zero da db a b = err stuck
  find_next_loop (suc fuel) da db a b =
      if ma.is_active a && (mb.is_active b && not (da == db))
      then (if ltb da db
          then (do
            a1 ← ma.skip_to db a
            if not (ma.is_active a1)
                then ok (record { a = a1; b = b })
                else do (da', a2) ← ma.id a1; find_next_loop fuel da' db a2 b)
          else do
            b1 ← mb.skip_to da b
            if not (mb.is_active b1)
                then ok (record { a = a; b = b1 })
                else do (db', b2) ← mb.id b1; find_next_loop fuel da db' a b2)
      else ok (record { a = a; b = b })

  pub find_next : BiMatcher A B → Result (BiMatcher A B)
  find_next s = do
    (da, a1) ← ma.id s.a
    (db, b1) ← mb.id s.b
    if da == db
        then err assertion_error
        else find_next_loop (suc (ma.size s.a + mb.size s.b)) da db a1 b1

  -- `_find_next` if the two ids differ; `skip_to` and `_find_first` do this.
  sync : BiMatcher A B → Result (BiMatcher A B)
  sync s = do
    (da, a1) ← ma.id s.a
    (db, b1) ← mb.id s.b
    if not (da == db) then find_next (record { a = a1; b = b1 }) else ok (record { a = a1; b = b1 })

  pub find_first : BiMatcher A B → Result (BiMatcher A B)
  unfolding sync
  find_first s = if ma.is_active s.a && mb.is_active s.b then sync s else ok s

  -- The constructor.
  pub inter_init : A → B → Result (BiMatcher A B)
  inter_init a b = find_first (record { a = a; b = b })

  pub inter_id : BiMatcher A B → Result (ℕ × BiMatcher A B)
  inter_id s = do (d, a') ← ma.id s.a; ok (d, record s { a = a' })

  pub inter_next : BiMatcher A B → Result (BiMatcher A B)
  unfolding inter_is_active
  inter_next s = if not (inter_is_active s) then err read_too_far else do
    a' ← ma.next s.a
    if ma.is_active a' && mb.is_active s.b
        then find_next (record s { a = a' })
        else ok (record s { a = a' })

  pub inter_skip_to : ℕ → BiMatcher A B → Result (BiMatcher A B)
  unfolding inter_is_active find_first sync
  inter_skip_to t s = if not (inter_is_active s) then err read_too_far else do
    a' ← ma.skip_to t s.a
    b' ← mb.skip_to t s.b
    if ma.is_active a' && mb.is_active b'
        then sync (record { a = a'; b = b' })
        else ok (record { a = a'; b = b' })

  -- AdditiveBiMatcher.score
  pub inter_score : BiMatcher A B → Result (W × BiMatcher A B)
  inter_score s = do
    (w, a') ← ma.score s.a
    (v, b') ← mb.score s.b
    ok (add w v, record { a = a'; b = b' })

  pub inter_reset : BiMatcher A B → Result (BiMatcher A B)
  inter_reset s = do a' ← ma.reset s.a; b' ← mb.reset s.b; find_first (record { a = a'; b = b' })

  abbrev pub inter_matcher : Matcher (BiMatcher A B) W
  inter_matcher = record {
    is_active = inter_is_active;
    id = inter_id;
    next = inter_next;
    skip_to = inter_skip_to;
    score = inter_score;
    reset = inter_reset;
    size = λ s. ma.size s.a;
  }

-- Two lists that are not empty begin with the same document.
module _ {W : Type 0} where
  abbrev pub Aligned : List (ℕ × W) → List (ℕ × W) → Type 0
  Aligned [] ys = Unit
  Aligned (x ∷ xs) [] = Unit
  Aligned (x ∷ xs) (y ∷ ys) = x.0 ≡ y.0

module _ {A B W : Type 0} (add : W → W → W) (sa : Spec A W) (sb : Spec B W) where
  pub record IsSynced (s : BiMatcher A B) : Type 0 where
    pub left : sa.IsValid s.a
    pub right : sb.IsValid s.b
    pub aligned : Aligned (sa.view s.a) (sb.view s.b)

  abbrev pub inter_spec : Spec (BiMatcher A B) W
  inter_spec = record { IsValid = IsSynced; view = λ s. inter add (sa.view s.a) (sb.view s.b) }
