-- ===== src/Matching/Postings/Union.antt =====
-- The union of two posting lists.
use Prim.Native.Nat.{compare, Ordering}
use whooshy.Common.{
  ap, sym, ◌||◌, ◌<◌, ◌⊎◌, ℕ, ◌+◌, ◌≤◌, ◌≡◌, refl, Option, none, some, List, [], ◌∷◌, arith, length,
}
use whooshy.Matching.Postings.{nonempty, Above, IsSorted, find, from, find-Above, Above-lt}

module _ {W : Type 0} (add : W → W → W) where
  unfoldable pub union : List (ℕ × W) → List (ℕ × W) → List (ℕ × W)
  union [] ys = ys
  union (x ∷ xs) [] = x ∷ xs
  union (x ∷ xs) (y ∷ ys) = elim (compare x.0 y.0) [
    | Ordering.lt ↦ x ∷ union xs (y ∷ ys)
    | Ordering.eq ↦ (x.0, add x.1 y.1) ∷ union xs ys
    | Ordering.gt ↦ y ∷ union (x ∷ xs) ys
  ]

  abbrev pub joined : Option W → Option W → Option W
  joined none v = v
  joined (some w) none = some w
  joined (some w) (some v) = some (add w v)

  pub nil-union : (ys : List (ℕ × W)) → union [] ys ≡ ys
  unfolding union
  nil-union ys = refl

  pub union-nil : (xs : List (ℕ × W)) → union xs [] ≡ xs
  unfolding union
  union-nil [] = refl
  union-nil (x ∷ xs) = refl

  pub Above-union : (k : ℕ) (xs ys : List (ℕ × W)) → Above k xs → Above k ys → Above k (union xs ys)
  unfolding union
  Above-union k [] ys a b = b
  Above-union k (x ∷ xs) [] a b = a
  Above-union k (x ∷ xs) (y ∷ ys) a b =
      ground (arith, Above-union k xs (y ∷ ys), Above-union k xs ys, Above-union k (x ∷ xs) ys)

  pub union-IsSorted : (xs ys : List (ℕ × W)) → IsSorted xs → IsSorted ys → IsSorted (union xs ys)
  unfolding union
  union-IsSorted [] ys s r = r
  union-IsSorted (x ∷ xs) [] s r = s
  union-IsSorted (x ∷ xs) (y ∷ ys) s r = ground (
    arith,
    union-IsSorted xs (y ∷ ys),
    union-IsSorted xs ys,
    union-IsSorted (x ∷ xs) ys,
    Above-union x.0 xs (y ∷ ys),
    Above-union x.0 xs ys,
    Above-union y.0 (x ∷ xs) ys,
    Above-lt {j = x.0} {k = y.0} ys,
    Above-lt {j = y.0} {k = x.0} xs,
  )

  pub length-union : (xs ys : List (ℕ × W)) → length (union xs ys) ≤ length xs + length ys
  unfolding union
  length-union [] ys = omega arith
  length-union (x ∷ xs) [] = omega arith
  length-union (x ∷ xs) (y ∷ ys) =
      ground (arith, length-union xs (y ∷ ys), length-union xs ys, length-union (x ∷ xs) ys)

  pub from-union :
      (t : ℕ) (xs ys : List (ℕ × W)) → from t (union xs ys) ≡ union (from t xs) (from t ys)
  unfolding union from
  from-union t [] ys = refl
  from-union t (x ∷ xs) [] = ground (arith, union-nil (from t xs))
  from-union t (x ∷ xs) (y ∷ ys) =
      ground (arith, from-union t xs (y ∷ ys), from-union t xs ys, from-union t (x ∷ xs) ys)

  pub find-union :
      (d : ℕ) (xs ys : List (ℕ × W))
      → IsSorted xs
      → IsSorted ys
      → find d (union xs ys) ≡ joined (find d xs) (find d ys)
  unfolding union find
  find-union d [] ys s r = refl
  find-union d (x ∷ xs) [] s r = ground arith
  find-union d (x ∷ xs) (y ∷ ys) s r = ground (
    arith,
    find-union d xs (y ∷ ys),
    find-union d xs ys,
    find-union d (x ∷ xs) ys,
    find-Above d x.0 xs,
    find-Above d y.0 ys,
  )

  -- The three ways in which the union of two lists that are not empty begins.
  pub union_cases :
      (x : ℕ × W) (xs : List (ℕ × W)) (y : ℕ × W) (ys : List (ℕ × W))
      → ((x.0 < y.0) × (union (x ∷ xs) (y ∷ ys) ≡ x ∷ union xs (y ∷ ys)))
        ⊎ (((x.0 ≡ y.0) × (union (x ∷ xs) (y ∷ ys) ≡ (x.0, add x.1 y.1) ∷ union xs ys))
            ⊎ ((y.0 < x.0) × (union (x ∷ xs) (y ∷ ys) ≡ y ∷ union (x ∷ xs) ys)))
  unfolding union
  union_cases x xs y ys = ground arith

  pub nonempty-union :
      (xs ys : List (ℕ × W)) → (nonempty xs || nonempty ys) ≡ nonempty (union xs ys)
  nonempty-union [] ys = ap nonempty (sym (nil-union ys))
  nonempty-union (x ∷ xs) [] = ap nonempty (sym (union-nil (x ∷ xs)))
  nonempty-union (x ∷ xs) (y ∷ ys) = ground (arith, union_cases x xs y ys)
