-- ===== src/IdSets/SortedSet/Arrays.antt =====
-- Sorted arrays: membership, positions and insertion.
use whooshy.Common.{
  ℕ, zero, suc, ◌+◌, ◌≤◌, ◌<◌, ◌≡◌, refl, ap, true, false, ◌||◌, none, some, List, [], ◌∷◌, arith,
  ltb, ◌==◌, if◌then◌else◌, length, get_elem?, Bool-cases, inl, inr, ◌⊎◌, lt→ltb, le→ltb, ne→==,
  ==_iff,
}
use whooshy.Common.Lists.{get_or}
use whooshy.IdSets.BitSet.Iteration.{member}
use whooshy.IdSets.SortedSet.{Bisect, last_of, word, place_at}

-- Strictly rising numbers from `lo` on.
abbrev pub Rises : ℕ → List ℕ → Type 0
Rises lo [] = Unit
Rises lo (x ∷ xs) = (lo ≤ x) × Rises (x + 1) xs

-- Numbers that an array of 32-bit numbers can hold.
abbrev pub Fits : List ℕ → Type 0
Fits [] = Unit
Fits (x ∷ xs) = (x < word) × Fits xs

-- What Python documents of bisect_left on a sorted array.
pub record BisectsLeft (bisect : Bisect) : Type 0 where
  pub within : (xs : List ℕ) (i : ℕ) → Rises 0 xs → bisect xs i ≤ length xs
  pub lower : (xs : List ℕ) (i k : ℕ) → Rises 0 xs → k < bisect xs i → get_or xs k 0 < i
  pub upper :
      (xs : List ℕ) (i k : ℕ) → Rises 0 xs → bisect xs i ≤ k → k < length xs → i ≤ get_or xs k 0

-- The number of elements in front that are below `i`.
pub below : List ℕ → ℕ → ℕ
below [] i = 0
below (x ∷ xs) i = let rest = below xs i in if ltb x i then suc rest else 0

pub below_none : (i : ℕ) (xs : List ℕ) → Rises i xs → 0 ≡ below xs i
unfolding below
below_none i [] r = refl
below_none i (x ∷ xs) r = rw (le→ltb x i r.0) refl

pub position-below :
    (xs : List ℕ) (i p : ℕ)
    → p ≤ length xs
    → ((k : ℕ) → k < p → get_or xs k 0 < i)
    → ((k : ℕ) → p ≤ k → k < length xs → i ≤ get_or xs k 0)
    → p ≡ below xs i
unfolding below
position-below [] i p room low high = omega arith
position-below (x ∷ xs) i zero room low high =
    let h : i ≤ x = high 0 (omega arith) (omega arith) in rw (le→ltb x i h) refl
position-below (x ∷ xs) i (suc p) room low high =
    let h : x < i = low 0 (omega arith) in
    let rest =
      position-below xs i p (omega arith) (λ k a. low (suc k) (omega arith))
        (λ k a b. high (suc k) (omega arith) (omega arith)) in
    rw (lt→ltb x i h) (ap suc rest)

pub member_low : (lo i : ℕ) (xs : List ℕ) → Rises lo xs → i < lo → member i xs ≡ false
member_low lo i [] r h = refl
member_low lo i (x ∷ xs) r h =
    rw (ne→== i x (λ e. absurd (omega arith)), member_low (x + 1) i xs r.1 (omega arith)) refl

pub last_of_ge : (lo y : ℕ) (ys : List ℕ) → Rises lo (y ∷ ys) → lo ≤ last_of ys y
unfolding last_of
last_of_ge lo y [] r = omega arith
last_of_ge lo y (z ∷ zs) r = omega (arith, last_of_ge (y + 1) z zs r.1)

pub member_high :
    (lo i x : ℕ) (xs : List ℕ) → Rises lo (x ∷ xs) → last_of xs x < i → member i (x ∷ xs) ≡ false
unfolding last_of
member_high lo i x [] r h = rw (ne→== i x (λ e. absurd (omega arith))) refl
member_high lo i x (y ∷ ys) r h =
    let rest = member_high (x + 1) i y ys r.1 h in
    let up = last_of_ge (x + 1) y ys r.1 in rw (ne→== i x (λ e. absurd (omega arith)), rest) refl

pub below-last :
    (lo i x : ℕ) (xs : List ℕ)
    → Rises lo (x ∷ xs)
    → last_of xs x < i
    → below (x ∷ xs) i ≡ length (x ∷ xs)
unfolding last_of below
below-last lo i x [] r h = rw (lt→ltb x i h) refl
below-last lo i x (y ∷ ys) r h =
    let low : x < i = omega (arith, last_of_ge (x + 1) y ys r.1) in
    rw (lt→ltb x i low) (ap suc (below-last (x + 1) i y ys r.1 h))

pub below_full : (i x : ℕ) (xs : List ℕ) → below (x ∷ xs) i ≡ length (x ∷ xs) → last_of xs x < i
unfolding last_of below
below_full i x [] e = elim (Bool-cases (ltb x i)) [
  | inl low ↦ ground arith
  | inr high ↦ let bad = rw high at e in absurd (omega (arith, bad))
]
below_full i x (y ∷ ys) e = elim (Bool-cases (ltb x i)) [
  | inl low ↦ below_full i y ys (let e' = rw low at e in omega (arith, e'))
  | inr high ↦ let bad = rw high at e in absurd (omega (arith, bad))
]

pub member_last : (x : ℕ) (xs : List ℕ) → member (last_of xs x) (x ∷ xs) ≡ true
unfolding last_of
member_last x [] = ground arith
member_last x (y ∷ ys) = rw (member_last y ys) (ground arith)

-- A number that is there already may be added to the condition.
pub member_again :
    (i j : ℕ) (xs : List ℕ) → member i xs ≡ true → member j xs ≡ (j == i || member j xs)
member_again i j xs h = elim (Bool-cases (j == i)) [
  | inl e ↦ let same : j ≡ i = (==_iff j i).0 e in rw (e, same) h
  | inr ne ↦ rw ne refl
]

pub member-below :
    (lo i : ℕ) (xs : List ℕ)
    → Rises lo xs
    → member i xs ≡ (elim (get_elem? xs (below xs i)) [ none ↦ false | some d ↦ d == i ])
unfolding below
member-below lo i [] r = refl
member-below lo i (x ∷ xs) r = elim (Bool-cases (ltb x i)) [
  | inl low ↦ rw (low, ne→== i x (ground arith)) (member-below (x + 1) i xs r.1)
  | inr high ↦ rw high (elim (Bool-cases (i == x)) [
    | inl e ↦ rw e (ground arith)
    | inr ne ↦ rw (ne, member_low (x + 1) i xs r.1 (ground arith)) (ground arith)
  ])
]

pub member-place_at :
    (j k v : ℕ) (xs : List ℕ) → member j (place_at xs k v) ≡ (j == v || member j xs)
unfolding place_at
member-place_at j zero v xs = refl
member-place_at j (suc k) v [] = refl
member-place_at j (suc k) v (x ∷ xs) = rw (member-place_at j k v xs) (ground arith)

pub place_at-Rises :
    (lo i : ℕ) (xs : List ℕ)
    → Rises lo xs
    → lo ≤ i
    → member i xs ≡ false
    → Rises lo (place_at xs (below xs i) i)
unfolding below place_at
place_at-Rises lo i [] r h out = (h, tt)
place_at-Rises lo i (x ∷ xs) r h out = elim (Bool-cases (i == x)) [
  | inl same ↦ absurd (let bad = rw same at out in cc bad)
  | inr ne ↦
      let out' : member i xs ≡ false = rw ne at out in
      elim (Bool-cases (ltb x i)) [
        | inl low ↦ rw low (r.0, place_at-Rises (x + 1) i xs r.1 (ground arith) out')
        | inr high ↦ rw high (h, (ground arith, r.1))
      ]
]

pub place_at-Fits : (k v : ℕ) (xs : List ℕ) → Fits xs → v < word → Fits (place_at xs k v)
unfolding place_at
place_at-Fits zero v xs f h = (h, f)
place_at-Fits (suc k) v [] f h = (h, tt)
place_at-Fits (suc k) v (x ∷ xs) f h = (f.0, place_at-Fits k v xs f.1 h)

pub member-Fits : (i : ℕ) (xs : List ℕ) → Fits xs → member i xs ≡ true → i < word
member-Fits i [] f h = absurd (cc h)
member-Fits i (x ∷ xs) f h = elim (Bool-cases (i == x)) [
  | inl e ↦ let same : i ≡ x = (==_iff i x).0 e in rw same f.0
  | inr ne ↦ member-Fits i xs f.1 (rw ne at h)
]

pub position_cases :
    (xs : List ℕ) (p : ℕ)
    → p ≤ length xs
    → ((p ≡ length xs) × (get_elem? xs p ≡ none))
      ⊎ ((p < length xs) × (d : ℕ) × (get_elem? xs p ≡ some d))
position_cases [] zero h = inl (refl, refl)
position_cases [] (suc p) h = absurd (omega arith)
position_cases (x ∷ xs) zero h = inr (omega arith, x, refl)
position_cases (x ∷ xs) (suc p) h = elim (position_cases xs p (omega arith)) [
  | inl (e, g) ↦ inl (ap suc e, g)
  | inr (l, d, g) ↦ inr (omega arith, d, g)
]
