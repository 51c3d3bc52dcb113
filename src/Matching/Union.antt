-- ===== src/Matching/Union.antt =====
-- binary.py, class UnionMatcher: the postings that either sub-matcher has, their scores added where
-- both have one.
mod Sides
mod Scores
pub mod Merged
pub mod Faults
use whooshy.Common.{
  ℕ, ◌+◌, min, Bool, true, false, not, ◌||◌, Option, none, some, ltb, leb, if◌then◌else◌, ◌≡◌, List,
  [], ◌∷◌,
}
use whooshy.Common.Result.{Result, ok, err, read_too_far, ◌>>=◌}
use whooshy.Matching.Postings.Union.{union}
use whooshy.Matching.Interface.{Matcher, Spec}

-- `cached` is the attribute `_id`.
pub record UnionMatcher (A B : Type 0) : Type 0 where
  pub a : A
  pub b : B
  pub cached : Option ℕ

module _ {A B W : Type 0} (add : W → W → W) (ma : Matcher A W) (mb : Matcher B W) where
  pub union_is_active : UnionMatcher A B → Bool
  union_is_active s = ma.is_active s.a || mb.is_active s.b

  unfoldable pub union_id : UnionMatcher A B → Result (ℕ × UnionMatcher A B)
  union_id s = elim s.cached [
    | some d ↦ ok (d, s)
    | none ↦
        if not (ma.is_active s.a)
        then (do (d, b') ← mb.id s.b; ok (d, record s { b = b'; cached = some d }))
        else if not (mb.is_active s.b)
        then (do (d, a') ← ma.id s.a; ok (d, record s { a = a'; cached = some d }))
        else do
          (da, a') ← ma.id s.a
          (db, b') ← mb.id s.b
          ok (min da db, record { a = a'; b = b'; cached = some (min da db) })
  ]

  pub union_next : UnionMatcher A B → Result (UnionMatcher A B)
  union_next s =
      if not (ma.is_active s.a || mb.is_active s.b)
      then err read_too_far
      else if not (ma.is_active s.a)
      then (do b' ← mb.next s.b; ok (record s { b = b'; cached = none }))
      else if not (mb.is_active s.b)
      then (do a' ← ma.next s.a; ok (record s { a = a'; cached = none }))
      else do
        (da, a1) ← ma.id s.a
        (db, b1) ← mb.id s.b
        a2 ← if leb da db then ma.next a1 else ok a1
        b2 ← if leb db da then mb.next b1 else ok b1
        ok (record { a = a2; b = b2; cached = none })

  pub union_skip_to : ℕ → UnionMatcher A B → Result (UnionMatcher A B)
  union_skip_to t s = do
    a' ← if ma.is_active s.a then ma.skip_to t s.a else ok s.a
    b' ← if mb.is_active s.b then mb.skip_to t s.b else ok s.b
    ok (record { a = a'; b = b'; cached = none })

  pub union_score : UnionMatcher A B → Result (W × UnionMatcher A B)
  union_score s =
      if not (ma.is_active s.a)
      then (do (w, b') ← mb.score s.b; ok (w, record s { b = b' }))
      else if not (mb.is_active s.b)
      then (do (w, a') ← ma.score s.a; ok (w, record s { a = a' }))
      else do
        (da, a1) ← ma.id s.a
        (db, b1) ← mb.id s.b
        if ltb da db
            then (do (w, a2) ← ma.score a1; ok (w, record s { a = a2; b = b1 }))
            else if ltb db da
            then (do (w, b2) ← mb.score b1; ok (w, record s { a = a1; b = b2 }))
            else do
              (w, a2) ← ma.score a1
              (v, b2) ← mb.score b1
              ok (add w v, record s { a = a2; b = b2 })

  -- BiMatcher.reset, which leaves `_id` as it is.
  pub union_reset : UnionMatcher A B → Result (UnionMatcher A B)
  union_reset s = do a' ← ma.reset s.a; b' ← mb.reset s.b; ok (record s { a = a'; b = b' })

  abbrev pub union_matcher : Matcher (UnionMatcher A B) W
  union_matcher = record {
    is_active = union_is_active;
    id = union_id;
    next = union_next;
    skip_to = union_skip_to;
    score = union_score;
    reset = union_reset;
    size = λ s. ma.size s.a + mb.size s.b;
  }

-- A cached document number is that of the first posting.
module _ {W : Type 0} where
  abbrev pub Caches : Option ℕ → List (ℕ × W) → Type 0
  Caches none ps = Unit
  Caches (some d) [] = ⊥
  Caches (some d) (p ∷ ps) = d ≡ p.0

module _ {A B W : Type 0} (add : W → W → W) (sa : Spec A W) (sb : Spec B W) where
  pub record IsUnion (s : UnionMatcher A B) : Type 0 where
    pub left : sa.IsValid s.a
    pub right : sb.IsValid s.b
    pub cache : Caches s.cached (union add (sa.view s.a) (sb.view s.b))

  abbrev pub union_spec : Spec (UnionMatcher A B) W
  union_spec = record { IsValid = IsUnion; view = λ s. union add (sa.view s.a) (sb.view s.b) }
