-- ===== src/IdSets/SortedSet.antt =====
-- idsets.py, class SortedIntSet: a set of numbers as a sorted array.
pub mod Arrays
pub mod Members
mod Runs
use whooshy.Common.{
  ℕ, zero, suc, ◌+◌, ◌-◌, ◌^◌, Bool, true, false, not, ◌&&◌, ◌||◌, Option, none, some, List, [],
  ◌∷◌, ltb, leb, ◌==◌, if◌then◌else◌, length,
}
use whooshy.Common.Lists.{get_or, take, drop}
use whooshy.Common.Result.{Result, ok, err, index_error, overflow_error, index, ◌>>=◌}

-- bisect_left and bisect_right on a sorted array: the number of its elements that are below `i`, or
-- not above it.
abbrev pub Bisect : Type 0
Bisect = List ℕ → ℕ → ℕ

-- `data[-1]`
pub last_of : List ℕ → ℕ → ℕ
last_of [] x = x
last_of (y ∷ ys) x = last_of ys y

-- An array of typecode "I" holds unsigned numbers of 32 bits.
abbrev pub word : ℕ
word = 2 ^ 32

pub place_at : List ℕ → ℕ → ℕ → List ℕ
place_at xs zero v = v ∷ xs
place_at [] (suc k) v = v ∷ []
place_at (x ∷ xs) (suc k) v = x ∷ place_at xs k v

-- `data.insert(k, v)`, and `data.append(v)` where `k` is the length.
pub insert_at : List ℕ → ℕ → ℕ → Result (List ℕ)
insert_at xs k v = if ltb v word then ok (place_at xs k v) else err overflow_error

pub pop_at : List ℕ → ℕ → List ℕ
pop_at [] k = []
pop_at (x ∷ xs) zero = xs
pop_at (x ∷ xs) (suc k) = x ∷ pop_at xs k

module _ (bisect_left bisect_right : Bisect) where
  pub sorted_contains : List ℕ → ℕ → Result Bool
  unfolding last_of
  sorted_contains [] i = ok false
  sorted_contains (x ∷ xs) i =
      if ltb i x || ltb (last_of xs x) i
      then ok false
      else let pos = bisect_left (x ∷ xs) i in
        if pos == length (x ∷ xs) then ok false else do d ← index (x ∷ xs) pos; ok (d == i)

  pub sorted_add : ℕ → List ℕ → Result (List ℕ)
  unfolding last_of insert_at
  sorted_add i [] = insert_at [] 0 i
  sorted_add i (x ∷ xs) =
      let mx = last_of xs x in
      if ltb mx i
      then insert_at (x ∷ xs) (length (x ∷ xs)) i
      else if i == x || i == mx
      then ok (x ∷ xs)
      else if ltb i x
      then insert_at (x ∷ xs) 0 i
      else let pos = bisect_left (x ∷ xs) i in
        do d ← index (x ∷ xs) pos; if not (d == i) then insert_at (x ∷ xs) pos i else ok (x ∷ xs)

  pub sorted_discard : ℕ → List ℕ → Result (List ℕ)
  unfolding pop_at
  sorted_discard i xs =
      let pos = bisect_left xs i in do d ← index xs pos; ok (if d == i then pop_at xs pos else xs)

  pub sorted_first : List ℕ → Result ℕ
  sorted_first xs = index xs 0

  pub sorted_last : List ℕ → Result ℕ
  unfolding last_of
  sorted_last [] = err index_error
  sorted_last (x ∷ xs) = ok (last_of xs x)

  pub sorted_before : ℕ → List ℕ → Result (Option ℕ)
  sorted_before i xs =
      let pos = bisect_left xs i in
      if ltb pos 1 then ok none else do d ← index xs (pos - 1); ok (some d)

  pub sorted_after : ℕ → List ℕ → Result (Option ℕ)
  unfolding last_of
  sorted_after i [] = ok none
  sorted_after i (x ∷ xs) =
      if leb (last_of xs x) i
      then ok none
      else if ltb i x
      then ok (some x)
      else do d ← index (x ∷ xs) (bisect_right (x ∷ xs) i); ok (some d)
