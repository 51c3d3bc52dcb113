-- ===== src/IdSets/BitSet/Members.antt =====
-- What the operations of a BitSet do to its members.
use whooshy.Common.{
  ℕ, zero, suc, ◌+◌, ◌-◌, ◌*◌, ◌/◌, ◌%◌, ◌^◌, ◌≤◌, ◌<◌, ◌≡◌, refl, ◌∙◌, ap, bit_and, bit_or, false,
  not, ◌&&◌, ◌||◌, List, [], ◌∷◌, ◌++◌, arith, leb, ◌==◌, if◌then◌else◌, length, length-append,
  Bool-cases, inl, inr, ==_iff, lt→ltb, le→ltb, lt→leb,
}
use whooshy.Common.Lists.{get_or, set, replicate}
use whooshy.Common.Bits.{
  and_not, bit, bit-lt, bit-zero, bit-pow_self, bit-pow_ne, bit-and_not, bit_and_pow, bit_and_seven,
  bit-bit_or,
}
use whooshy.Common.Result.{ok, err, index_error}
use whooshy.IdSets.BitSet.{bytes_for_bits, has_bit, contains, resize, add, discard}
use native.Mathlib.Nat.{one-le-pow}

-- The bit that stands for `i`: 0 beyond the end.
abbrev pub digit : List ℕ → ℕ → ℕ
digit bits i = bit (get_or bits (i / 8) 0) (i % 8)

has_bit-bit : (b i : ℕ) → has_bit b i ≡ (bit b (i % 8) == 1)
unfolding has_bit
has_bit-bit b i =
    rw (bit_and_seven i, bit_and_pow b (i % 8))
      (ground (arith, bit-lt b (i % 8), one-le-pow (i % 8) 2))

pub length-set : (xs : List ℕ) (i v : ℕ) → length (set xs i v) ≡ length xs
length-set [] i v = refl
length-set (x ∷ xs) zero v = refl
length-set (x ∷ xs) (suc i) v = ap suc (length-set xs i v)

pub get_or_beyond : (xs : List ℕ) (i : ℕ) → length xs ≤ i → get_or xs i 0 ≡ 0
get_or_beyond [] i h = refl
get_or_beyond (x ∷ xs) zero h = absurd (omega arith)
get_or_beyond (x ∷ xs) (suc i) h = get_or_beyond xs i (omega arith)

-- A number is a member exactly if its bit is 1.
pub contains-digit : (bits : List ℕ) (i : ℕ) → contains bits i ≡ (digit bits i == 1)
unfolding contains
contains-digit bits i = elim (Bool-cases (leb (length bits) (i / 8))) [
  | inl out ↦ rw (out, get_or_beyond bits (i / 8) (ground arith), bit-zero (i % 8)) refl
  | inr within ↦ rw within (has_bit-bit (get_or bits (i / 8) 0) i)
]

get_or-append_zeros : (xs : List ℕ) (n k : ℕ) → get_or (xs ++ replicate n 0) k 0 ≡ get_or xs k 0
get_or-append_zeros [] zero k = refl
get_or-append_zeros [] (suc n) zero = refl
get_or-append_zeros [] (suc n) (suc k) = get_or-append_zeros [] n k
get_or-append_zeros (x ∷ xs) n zero = refl
get_or-append_zeros (x ∷ xs) n (suc k) = get_or-append_zeros xs n k

length-replicate : (n : ℕ) → length (replicate {A = ℕ} n 0) ≡ n
length-replicate zero = refl
length-replicate (suc n) = ap suc (length-replicate n)

pub get_or-set :
    (xs : List ℕ) (i k v : ℕ)
    → i < length xs
    → get_or (set xs i v) k 0 ≡ (if i == k then v else get_or xs k 0)
get_or-set [] i k v h = absurd (omega arith)
get_or-set (x ∷ xs) zero zero v h = refl
get_or-set (x ∷ xs) zero (suc k) v h = ground arith
get_or-set (x ∷ xs) (suc i) zero v h = ground arith
get_or-set (x ∷ xs) (suc i) (suc k) v h = get_or-set xs i k v (omega arith) ∙ ground arith

-- The array that `add` writes to has the byte, and the same bits as before.
abbrev grown : ℕ → List ℕ → List ℕ
grown i bits = if leb (length bits) (i / 8) then resize bits (i + 1) else bits

grown_room : (i : ℕ) (bits : List ℕ) → i / 8 < length (grown i bits)
unfolding resize
grown_room i bits = ground (
  arith,
  length-append bits (replicate (bytes_for_bits (i + 1) - length bits) 0),
  length-replicate (bytes_for_bits (i + 1) - length bits),
)

grown_same : (i : ℕ) (bits : List ℕ) (k : ℕ) → get_or (grown i bits) k 0 ≡ get_or bits k 0
unfolding resize
grown_same i bits k =
    ground (arith, get_or-append_zeros bits (bytes_for_bits (i + 1) - length bits) k)

bit-or_pow : (b m k : ℕ) → bit (bit_or b (2 ^ m)) k ≡ (if m == k then 1 else bit b k)
bit-or_pow b m k = elim (Bool-cases (m == k)) [
  | inl e ↦
      let same : m ≡ k = (==_iff m k).0 e in
      rw (e, bit-bit_or b (2 ^ m) k, ← same, bit-pow_self m) (omega (arith, bit-lt b m))
  | inr n ↦ rw (n, bit-bit_or b (2 ^ m) k, bit-pow_ne m k (ground arith)) (omega arith)
]

bit-and_not_pow : (b m k : ℕ) → bit (and_not b (2 ^ m)) k ≡ (if m == k then 0 else bit b k)
bit-and_not_pow b m k = elim (Bool-cases (m == k)) [
  | inl e ↦
      let same : m ≡ k = (==_iff m k).0 e in
      rw (e, bit-and_not b (2 ^ m) k, ← same, bit-pow_self m) (omega (arith, bit-lt b m))
  | inr n ↦ rw (n, bit-and_not b (2 ^ m) k, bit-pow_ne m k (ground arith)) (omega arith)
]

digit-add : (i j : ℕ) (bits : List ℕ) → digit (add i bits) j ≡ (if i == j then 1 else digit bits j)
unfolding add
digit-add i j bits =
    rw
      (
        get_or-set (grown i bits) (i / 8) (j / 8)
            (bit_or (get_or (grown i bits) (i / 8) 0) (2 ^ bit_and i 7)) (grown_room i bits),
        grown_same i bits (j / 8),
        grown_same i bits (i / 8),
        bit_and_seven i,
      )
      (elim (Bool-cases (i / 8 == j / 8)) [
        | inl bucket ↦
            rw (bucket, bit-or_pow (get_or bits (i / 8) 0) (i % 8) (j % 8)) (ground arith)
        | inr other ↦ rw other (ground arith)
      ])

-- `add` makes its argument a member, and changes no other membership.
pub contains-add : (i j : ℕ) (bits : List ℕ) → contains (add i bits) j ≡ (i == j || contains bits j)
contains-add i j bits =
    rw (contains-digit (add i bits) j, contains-digit bits j, digit-add i j bits) (ground arith)

digit-cleared :
    (i j : ℕ) (bits : List ℕ)
    → i / 8 < length bits
    → digit (set bits (i / 8) (and_not (get_or bits (i / 8) 0) (2 ^ bit_and i 7))) j
      ≡ (if i == j then 0 else digit bits j)
digit-cleared i j bits h =
    rw
      (
        get_or-set bits (i / 8) (j / 8) (and_not (get_or bits (i / 8) 0) (2 ^ bit_and i 7)) h,
        bit_and_seven i,
      )
      (elim (Bool-cases (i / 8 == j / 8)) [
        | inl bucket ↦
            rw (bucket, bit-and_not_pow (get_or bits (i / 8) 0) (i % 8) (j % 8)) (ground arith)
        | inr other ↦ rw other (ground arith)
      ])

-- Within the array `discard` removes its argument, and changes neither another membership nor the
-- number of bytes.
pub contains-discard :
    (i : ℕ) (bits : List ℕ)
    → i / 8 < length bits
    → (bits' : List ℕ) × (discard i bits ≡ ok bits')
      × (length bits' ≡ length bits)
      × ((j : ℕ) → contains bits' j ≡ (not (i == j) && contains bits j))
unfolding discard
contains-discard i bits h = rw (lt→ltb (i / 8) (length bits) h) (
  _,
  refl,
  length-set bits (i / 8) _,
  λ j. rw (contains-digit _ j, contains-digit bits j, digit-cleared i j bits h) (ground arith),
)

-- Beyond the array `discard` raises IndexError.
pub discard_beyond :
    (i : ℕ) (bits : List ℕ) → length bits ≤ i / 8 → discard i bits ≡ err index_error
unfolding discard
discard_beyond i bits h = rw (le→ltb (i / 8) (length bits) h)

pub contains_beyond : (bits : List ℕ) (j : ℕ) → length bits ≤ j / 8 → contains bits j ≡ false
unfolding contains
contains_beyond bits j h = ground arith

-- Within the array, membership is the test that the loops make.
pub contains_byte :
    (bits : List ℕ) (i bucket : ℕ)
    → bucket ≡ i / 8
    → i < length bits * 8
    → contains bits i ≡ not (bit_and (get_or bits bucket 0) (2 ^ bit_and i 7) == 0)
unfolding contains
contains_byte bits i bucket e h = rw (e, lt→leb (length bits) (i / 8) (omega arith)) refl

pub contains_zero_byte :
    (bits : List ℕ) (j : ℕ) → get_or bits (j / 8) 0 ≡ 0 → contains bits j ≡ false
contains_zero_byte bits j e = rw (contains-digit bits j, e, bit-zero (j % 8)) refl
