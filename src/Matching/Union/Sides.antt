-- ===== src/Matching/Union/Sides.antt =====
-- A union of posting lists one of which is empty.
use whooshy.Common.{ℕ, ◌≡◌, List, [], ◌∷◌}
use whooshy.Matching.Postings.Union.{union, nil-union, union-nil}

module _ {W : Type 0} (add : W → W → W) where
  module _ {xs ys : List (ℕ × W)} {p : ℕ × W} {ps : List (ℕ × W)} where
    pub neither : xs ≡ [] → ys ≡ [] → union add xs ys ≡ p ∷ ps → ⊥
    neither wa wb e = cc (rw (wa, wb) at e, nil-union add [])

  pub left_only : {xs ys zs : List (ℕ × W)} → xs ≡ zs → ys ≡ [] → union add xs ys ≡ zs
  left_only wa wb = rw (wa, wb) (union-nil add _)

  pub right_only : {xs ys zs : List (ℕ × W)} → xs ≡ [] → ys ≡ zs → union add xs ys ≡ zs
  right_only wa wb = rw (wa, wb) (nil-union add _)
