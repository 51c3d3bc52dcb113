-- ===== src/Matching/Postings.antt =====
-- Posting lists: the abstract view of a matcher. A posting is a document number with the score that
-- the document gets.
pub mod Select
pub mod Union
use whooshy.Common.{
  ℕ, ◌≤◌, ◌<◌, ◌≡◌, refl, Bool, true, false, Option, none, some, List, [], ◌∷◌, arith, length, ltb,
  ◌==◌, if◌then◌else◌, Bool-cases, inl, inr,
}

module _ {W : Type 0} where
  -- Every document number of the list is above `k`.
  abbrev pub Above : ℕ → List (ℕ × W) → Type 0
  Above k [] = Unit
  Above k (p ∷ ps) = (k < p.0) × Above k ps

  -- Document numbers grow strictly.
  abbrev pub IsSorted : List (ℕ × W) → Type 0
  IsSorted [] = Unit
  IsSorted (p ∷ ps) = Above p.0 ps × IsSorted ps

  abbrev pub nonempty : List (ℕ × W) → Bool
  nonempty [] = false
  nonempty (p ∷ ps) = true

  -- The document numbers.
  abbrev pub numbers : List (ℕ × W) → List ℕ
  numbers [] = []
  numbers (p ∷ ps) = p.0 ∷ numbers ps

  -- The score of a document, if the list has it.
  unfoldable pub find : ℕ → List (ℕ × W) → Option W
  find d [] = none
  find d (p ∷ ps) = if p.0 == d then some p.1 else find d ps

  -- The postings from document `t` on.
  unfoldable pub from : ℕ → List (ℕ × W) → List (ℕ × W)
  from t [] = []
  from t (p ∷ ps) = let rest = from t ps in if ltb p.0 t then rest else p ∷ rest

  abbrev pub cons_if : Option W → ℕ → List (ℕ × W) → List (ℕ × W)
  cons_if none d ps = ps
  cons_if (some w) d ps = (d, w) ∷ ps

  -- The second list does not begin before the first one.
  abbrev pub Reached : List (ℕ × W) → List (ℕ × W) → Type 0
  Reached [] ys = Unit
  Reached (x ∷ xs) [] = Unit
  Reached (x ∷ xs) (y ∷ ys) = x.0 ≤ y.0

  -- The first document of the first list is not in the second one.
  abbrev pub Clear : List (ℕ × W) → List (ℕ × W) → Type 0
  Clear [] ys = Unit
  Clear (x ∷ xs) ys = find x.0 ys ≡ none

  pub Reached-from : (x : ℕ × W) (xs ys : List (ℕ × W)) → Reached (x ∷ xs) (from x.0 ys)
  unfolding from
  Reached-from x xs [] = tt
  Reached-from x xs (y ∷ ys) = elim (Bool-cases (ltb y.0 x.0)) [
    | inl below ↦ rw below (Reached-from x xs ys)
    | inr high ↦ rw high (ground arith)
  ]

  pub Above-lt : {j k : ℕ} (ps : List (ℕ × W)) → j < k → Above k ps → Above j ps
  Above-lt [] h a = tt
  Above-lt (p ∷ ps) h a = (omega arith, Above-lt ps h a.1)

  pub Above-from : (k t : ℕ) (ps : List (ℕ × W)) → Above k ps → Above k (from t ps)
  unfolding from
  Above-from k t [] a = tt
  Above-from k t (p ∷ ps) a = ground (arith, Above-from k t ps a.1)

  pub from-IsSorted : (t : ℕ) (ps : List (ℕ × W)) → IsSorted ps → IsSorted (from t ps)
  unfolding from
  from-IsSorted t [] h = tt
  from-IsSorted t (p ∷ ps) h = ground (arith, from-IsSorted t ps h.1, Above-from p.0 t ps h.0)

  pub length-from : (t : ℕ) (ps : List (ℕ × W)) → length (from t ps) ≤ length ps
  unfolding from
  length-from t [] = omega arith
  length-from t (p ∷ ps) = ground (arith, length-from t ps)

  pub from-Above : (t : ℕ) (ps : List (ℕ × W)) → Above t ps → from t ps ≡ ps
  unfolding from
  from-Above t [] a = refl
  from-Above t (p ∷ ps) a = ground (arith, from-Above t ps a.1)

  pub from-nil : (t : ℕ) → from t [] ≡ []
  unfolding from
  from-nil t = refl

  pub from_below :
      (t : ℕ) (p : ℕ × W) (ps : List (ℕ × W)) → ltb p.0 t ≡ true → from t (p ∷ ps) ≡ from t ps
  unfolding from
  from_below t p ps h = rw h

  -- On a sorted list nothing is dropped from a head that is high enough on.
  pub from_head :
      (t : ℕ) (p : ℕ × W) (ps : List (ℕ × W))
      → IsSorted (p ∷ ps)
      → t ≤ p.0
      → from t (p ∷ ps) ≡ p ∷ ps
  unfolding from
  from_head t p ps s h = elim (Bool-cases (ltb p.0 t)) [
    | inl below ↦ absurd (ground arith)
    | inr high ↦ rw high (ground (arith, from_weak t p.0 ps h s.0))
  ]
    where
      from_weak : (t k : ℕ) (ps : List (ℕ × W)) → t ≤ k → Above k ps → from t ps ≡ ps
      from_weak t k [] h a = refl
      from_weak t k (p ∷ ps) h a = ground (arith, from_weak t k ps h a.1)

  pub find-Above : (d k : ℕ) (ps : List (ℕ × W)) → d ≤ k → Above k ps → find d ps ≡ none
  unfolding find
  find-Above d k [] h a = refl
  find-Above d k (p ∷ ps) h a = ground (arith, find-Above d k ps h a.1)

  pub find_before :
      (d : ℕ) (p : ℕ × W) (ps : List (ℕ × W)) → IsSorted (p ∷ ps) → d < p.0 → find d (p ∷ ps) ≡ none
  unfolding find
  find_before d p ps s h = ground (arith, find-Above d p.0 ps)

  pub find-from :
      (d t : ℕ) (ps : List (ℕ × W)) → find d (from t ps) ≡ (if ltb d t then none else find d ps)
  unfolding find from
  find-from d t [] = ground arith
  find-from d t (p ∷ ps) = ground (arith, find-from d t ps)
