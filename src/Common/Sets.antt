-- ===== src/Common/Sets.antt =====
-- Sets of numbers as strictly rising lists, so that equal sets are equal lists.
use Prim.Native.Nat.{ℕ, suc, ◌+◌, ◌≤◌}
use mathlib.Core.Path.{◌≡◌, refl}
use mathlib.Core.Bool.{Bool, true, false, not, ◌||◌, ◌&&◌}
use mathlib.Core.Logic.{inl, inr}
use mathlib.Core.List.{List, [], ◌∷◌}
use native.Mathlib.Omega.{arith}
use whooshy.Common.Tests.{ltb, ◌==◌, ==_iff, if◌then◌else◌, Bool-cases}
use whooshy.Common.Lists.{length}

abbrev pub member : ℕ → List ℕ → Bool
member j [] = false
member j (x ∷ xs) = j == x || member j xs

abbrev pub Rises : ℕ → List ℕ → Type 0
Rises lo [] = Unit
Rises lo (x ∷ xs) = (lo ≤ x) × Rises (x + 1) xs

pub insert_sorted : ℕ → List ℕ → List ℕ
insert_sorted n [] = n ∷ []
insert_sorted n (x ∷ xs) = if ltb n x then n ∷ x ∷ xs else x ∷ insert_sorted n xs

-- `add`
unfoldable pub insert : ℕ → List ℕ → List ℕ
unfolding insert_sorted
insert n xs = if member n xs then xs else insert_sorted n xs

-- `update`
unfoldable pub update : List ℕ → List ℕ → List ℕ
unfolding insert
update xs [] = xs
update xs (y ∷ ys) = update (insert y xs) ys

unfoldable pub difference : List ℕ → List ℕ → List ℕ
difference [] ys = []
difference (x ∷ xs) ys = let rest = difference xs ys in if member x ys then rest else x ∷ rest

-- Whether the two sets have a member in common.
unfoldable pub intersects : List ℕ → List ℕ → Bool
intersects [] ys = false
intersects (x ∷ xs) ys = member x ys || intersects xs ys

member-insert_sorted :
    (j n : ℕ) (xs : List ℕ) → member j (insert_sorted n xs) ≡ (j == n || member j xs)
unfolding insert_sorted
member-insert_sorted j n [] = refl
member-insert_sorted j n (x ∷ xs) = elim (Bool-cases (ltb n x)) [
  | inl low ↦ rw low refl
  | inr high ↦ rw (high, member-insert_sorted j n xs) (ground arith)
]

pub member-insert : (j n : ℕ) (xs : List ℕ) → member j (insert n xs) ≡ (j == n || member j xs)
unfolding insert
member-insert j n xs = elim (Bool-cases (member n xs)) [
  | inl there ↦ elim (Bool-cases (j == n)) [
    | inl e ↦ let same : j ≡ n = (==_iff j n).0 e in rw (there, e, same) there
    | inr ne ↦ rw (there, ne) refl
  ]
  | inr new ↦ rw (new, member-insert_sorted j n xs) refl
]

pub member-update :
    (j : ℕ) (xs ys : List ℕ) → member j (update xs ys) ≡ (member j xs || member j ys)
unfolding update
member-update j xs [] = ground arith
member-update j xs (y ∷ ys) =
    rw (member-update j (insert y xs) ys, member-insert j y xs) (ground arith)

pub member-difference :
    (j : ℕ) (xs ys : List ℕ) → member j (difference xs ys) ≡ (member j xs && not (member j ys))
unfolding difference
member-difference j [] ys = refl
member-difference j (x ∷ xs) ys = elim (Bool-cases (member x ys)) [
  | inl out ↦
      rw (out, member-difference j xs ys)
        (elim (Bool-cases (j == x)) [
          | inl e ↦ let same : j ≡ x = (==_iff j x).0 e in rw (e, same, out) (ground arith)
          | inr ne ↦ rw ne refl
        ])
  | inr kept ↦
      rw (kept, member-difference j xs ys)
        (elim (Bool-cases (j == x)) [
          | inl e ↦ let same : j ≡ x = (==_iff j x).0 e in rw (e, same, kept) refl
          | inr ne ↦ rw ne refl
        ])
]

-- A set is not changed by members of its own.
pub update_same :
    (xs ys : List ℕ) → ((j : ℕ) → member j ys ≡ true → member j xs ≡ true) → update xs ys ≡ xs
unfolding update insert
update_same xs [] h = refl
update_same xs (y ∷ ys) h =
    let there : member y xs ≡ true = h y (ground arith) in
    rw there (update_same xs ys (λ j m. h j (rw m (ground arith))))

insert_sorted-Rises :
    (lo n : ℕ) (xs : List ℕ)
    → lo ≤ n
    → Rises lo xs
    → member n xs ≡ false
    → Rises lo (insert_sorted n xs)
unfolding insert_sorted
insert_sorted-Rises lo n [] h r out = (h, tt)
insert_sorted-Rises lo n (x ∷ xs) h r out = elim (Bool-cases (ltb n x)) [
  | inl low ↦ rw low (h, (ground arith, r.1))
  | inr high ↦ elim (Bool-cases (n == x)) [
    | inl e ↦ absurd (let bad = rw e at out in cc bad)
    | inr ne ↦ rw high (r.0, insert_sorted-Rises (x + 1) n xs (ground arith) r.1 (rw ne at out))
  ]
]

pub update-Rises : (xs ys : List ℕ) → Rises 0 xs → Rises 0 (update xs ys)
unfolding update insert
update-Rises xs [] r = r
update-Rises xs (y ∷ ys) r = update-Rises (insert y xs) ys (elim (Bool-cases (member y xs)) [
  | inl there ↦ rw there r
  | inr new ↦ rw new (insert_sorted-Rises 0 y xs (omega arith) r new)
])

length-insert_sorted : (n : ℕ) (xs : List ℕ) → length (insert_sorted n xs) ≡ suc (length xs)
unfolding insert_sorted
length-insert_sorted n [] = refl
length-insert_sorted n (x ∷ xs) = ground (arith, length-insert_sorted n xs)

pub length-insert : (n : ℕ) (xs : List ℕ) → length (insert n xs) ≤ suc (length xs)
unfolding insert
length-insert n xs = ground (arith, length-insert_sorted n xs)

pub length-update : (xs ys : List ℕ) → length (update xs ys) ≤ length xs + length ys
unfolding update
length-update xs [] = omega arith
length-update xs (y ∷ ys) = omega (arith, length-update (insert y xs) ys, length-insert y xs)

pub insert_there : (n : ℕ) (xs : List ℕ) → member n xs ≡ true → insert n xs ≡ xs
unfolding insert
insert_there n xs h = rw h refl
