-- ===== src/IdSets/SortedSet/Runs.antt =====
-- The theorems on sorted arrays at concrete arrays, with a bisection that counts.
use whooshy.Common.{
  ℕ, zero, suc, ◌+◌, ◌≤◌, ◌<◌, ◌≡◌, refl, List, [], ◌∷◌, arith, length, ltb, if◌then◌else◌,
  Bool-cases, inl, inr,
}
use whooshy.Common.Lists.{get_or}
use whooshy.Common.Result.{ok, err, overflow_error}
use whooshy.IdSets.BitSet.Iteration.{member}
use whooshy.IdSets.SortedSet.{word, last_of, place_at, insert_at, sorted_contains, sorted_add}
use whooshy.IdSets.SortedSet.Arrays.{Rises, BisectsLeft}
use whooshy.IdSets.SortedSet.Members.{Adds, sorted_contains-member, sorted_add-Rises}

count : List ℕ → ℕ → ℕ
count [] i = 0
count (x ∷ xs) i = let rest = count xs i in if ltb x i then suc rest else 0

count-le : (xs : List ℕ) (i : ℕ) → count xs i ≤ length xs
unfolding count
count-le [] i = omega arith
count-le (x ∷ xs) i = ground (arith, count-le xs i)

count_lower : (xs : List ℕ) (i k : ℕ) → k < count xs i → get_or xs k 0 < i
unfolding count
count_lower [] i k h = absurd (omega arith)
count_lower (x ∷ xs) i zero h = ground arith
count_lower (x ∷ xs) i (suc k) h = elim (Bool-cases (ltb x i)) [
  | inl low ↦ count_lower xs i k (let h' = rw low at h in omega arith)
  | inr high ↦ absurd (let h' = rw high at h in omega arith)
]

get_or_ge : (lo : ℕ) (xs : List ℕ) (k : ℕ) → Rises lo xs → k < length xs → lo ≤ get_or xs k 0
get_or_ge lo [] k r h = absurd (omega arith)
get_or_ge lo (x ∷ xs) zero r h = omega arith
get_or_ge lo (x ∷ xs) (suc k) r h = omega (arith, get_or_ge (x + 1) xs k r.1 (omega arith))

count_upper :
    (lo : ℕ) (xs : List ℕ) (i k : ℕ)
    → Rises lo xs
    → count xs i ≤ k
    → k < length xs
    → i ≤ get_or xs k 0
unfolding count
count_upper lo [] i k r h room = absurd (omega arith)
count_upper lo (x ∷ xs) i zero r h room = ground arith
count_upper lo (x ∷ xs) i (suc k) r h room = elim (Bool-cases (ltb x i)) [
  | inl low ↦ count_upper (x + 1) xs i k r.1 (let h' = rw low at h in omega arith) (omega arith)
  | inr high ↦ ground (arith, get_or_ge (x + 1) xs k r.1 (omega arith))
]

count-BisectsLeft : BisectsLeft count
count-BisectsLeft = record {
  within = λ xs i r. count-le xs i;
  lower = λ xs i k r. count_lower xs i k;
  upper = λ xs i k r. count_upper 0 xs i k r;
}

abbrev numbers : List ℕ
numbers = 2 ∷ 5 ∷ 9 ∷ []

sorted_contains-member_example : sorted_contains count count numbers 5 ≡ ok (member 5 numbers)
sorted_contains-member_example =
    sorted_contains-member count count-BisectsLeft numbers 5 (omega arith)

sorted_add-Rises_example : Adds 7 numbers (sorted_add count count 7 numbers)
sorted_add-Rises_example =
    sorted_add-Rises count count-BisectsLeft 7 numbers (omega arith) (omega arith)

-- The runs that the witness is about.
adds_seven : sorted_add count count 7 numbers ≡ ok (2 ∷ 5 ∷ 7 ∷ 9 ∷ [])
unfolding sorted_add insert_at place_at last_of count
adds_seven = refl

overflows : sorted_add count count word numbers ≡ err overflow_error
unfolding sorted_add insert_at last_of
overflows = refl
