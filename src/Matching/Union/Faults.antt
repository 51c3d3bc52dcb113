-- ===== src/Matching/Union/Faults.antt =====
-- `reset` of a UnionMatcher is BiMatcher's, which leaves the cached document number: where it leads,
-- and where it leads astray.
use whooshy.Common.{ℕ, ◌≡◌, ◌≢◌, ◌↔◌, refl, some, List, ◌∷◌}
use whooshy.Common.Result.{ok}
use whooshy.Matching.Interface.{Matcher, Spec, Moves}
use whooshy.Matching.Postings.Union.{union}
use whooshy.Matching.Union.{UnionMatcher, Caches, IsUnion, union_spec, union_id, union_reset}

module _ {A B W : Type 0} (add : W → W → W) (ma : Matcher A W) (mb : Matcher B W) (sa : Spec A W)
    (sb : Spec B W) where
  -- Where the two sub-matchers reset to valid states, `reset` returns a state that stands for the
  -- merge of what they then stand for. It is valid exactly if the document number cached before, if
  -- there is one, is the first one of this merge.
  pub union_reset-IsUnion :
      (s : UnionMatcher A B) (ps qs : List (ℕ × W))
      → Moves sa (ma.reset s.a) ps
      → Moves sb (mb.reset s.b) qs
      → (s' : UnionMatcher A B) × (union_reset add ma mb s ≡ ok s')
        × ((union_spec add sa sb).view s' ≡ union add ps qs)
        × (IsUnion add sa sb s' ↔ Caches s.cached (union add ps qs))
  unfolding union_reset
  union_reset-IsUnion s ps qs (a', ea, va, wa) (b', eb, vb, wb) =
      rw (ea, eb)
        (
          record s { a = a'; b = b' },
          refl,
          rw (wa, wb) refl,
          (
            λ v. rw (wa, wb) at v.cache,
            λ c. record { left = va; right = vb; cache = rw (wa, wb) c },
          ),
        )

  -- Where a union has cached a document number and the two sub-matchers, once reset, begin with
  -- another one, `reset` returns a state in which `id` still returns the cached number, and which is
  -- not valid.
  pub union_reset_stale :
      (a : A) (b : B) (d : ℕ) (a' : A) (b' : B) (p : ℕ × W) (ps : List (ℕ × W))
      → ma.reset a ≡ ok a'
      → mb.reset b ≡ ok b'
      → union add (sa.view a') (sb.view b') ≡ p ∷ ps
      → d ≢ p.0
      → (s : UnionMatcher A B) × (union_reset add ma mb (record { a = a; b = b; cached = some d })
          ≡ ok s)
        × (union_id add ma mb s ≡ ok (d, s))
        × ¬ IsUnion add sa sb s
  unfolding union_id union_reset
  union_reset_stale a b d a' b' p ps ea eb e ne =
      rw (ea, eb) (_, refl, refl, λ v. ne (rw e at v.cache))
