-- ===== src/IdSets/BitSet/Logic.antt =====
-- The set operations of a BitSet, byte by byte.
use whooshy.Common.{
  ℕ, zero, suc, ◌/◌, ◌%◌, ◌<◌, ◌≡◌, refl, bit_and, bit_or, not, ◌&&◌, ◌||◌, List, [], ◌∷◌, arith,
}
use whooshy.Common.Lists.{get_or}
use whooshy.Common.Bits.{and_not, bit, bit-lt, bit-and_not, bit-bit_or, bit-bit_and}
use whooshy.IdSets.BitSet.{contains, trim, logic_loop, logic, union, intersection, difference}
use whooshy.IdSets.BitSet.Members.{digit, contains-digit}

get_or-trim : (bs : List ℕ) (k : ℕ) → get_or (trim bs) k 0 ≡ get_or bs k 0
unfolding trim
get_or-trim [] k = refl
get_or-trim (b ∷ bs) zero = ground arith
get_or-trim (b ∷ bs) (suc k) = ground (arith, get_or-trim bs k)

get_or-logic_loop :
    (op : ℕ → ℕ → ℕ) (bs cs : List ℕ) (k : ℕ)
    → op 0 0 ≡ 0
    → get_or (logic_loop op bs cs) k 0 ≡ bit_and (op (get_or bs k 0) (get_or cs k 0)) 0xFF
unfolding logic_loop
get_or-logic_loop op [] [] k e = rw e refl
get_or-logic_loop op [] (c ∷ cs) zero e = refl
get_or-logic_loop op [] (c ∷ cs) (suc k) e = get_or-logic_loop op [] cs k e
get_or-logic_loop op (b ∷ bs) [] zero e = refl
get_or-logic_loop op (b ∷ bs) [] (suc k) e = get_or-logic_loop op bs [] k e
get_or-logic_loop op (b ∷ bs) (c ∷ cs) zero e = refl
get_or-logic_loop op (b ∷ bs) (c ∷ cs) (suc k) e = get_or-logic_loop op bs cs k e

pub bit-low_byte : (m : ℕ) → m < 8 → bit 0xFF m ≡ 1
bit-low_byte zero h = refl
bit-low_byte (suc zero) h = refl
bit-low_byte (suc (suc zero)) h = refl
bit-low_byte (suc (suc (suc zero))) h = refl
bit-low_byte (suc (suc (suc (suc zero)))) h = refl
bit-low_byte (suc (suc (suc (suc (suc zero))))) h = refl
bit-low_byte (suc (suc (suc (suc (suc (suc zero)))))) h = refl
bit-low_byte (suc (suc (suc (suc (suc (suc (suc zero))))))) h = refl
bit-low_byte (suc (suc (suc (suc (suc (suc (suc (suc m)))))))) h = absurd (omega arith)

digit-logic :
    (op : ℕ → ℕ → ℕ) (bs cs : List ℕ) (i : ℕ)
    → op 0 0 ≡ 0
    → digit (logic op bs cs) i ≡ bit (op (get_or bs (i / 8) 0) (get_or cs (i / 8) 0)) (i % 8)
unfolding logic
digit-logic op bs cs i e =
    let value = op (get_or bs (i / 8) 0) (get_or cs (i / 8) 0) in
    rw
      (
        get_or-trim (logic_loop op bs cs) (i / 8),
        get_or-logic_loop op bs cs (i / 8) e,
        bit-bit_and value 0xFF (i % 8),
        bit-low_byte (i % 8) (omega arith),
      )
      (omega (arith, bit-lt value (i % 8)))

-- The union has the members of either set, whatever the lengths of the two arrays.
contains-union :
    (bs cs : List ℕ) (i : ℕ) → contains (union bs cs) i ≡ (contains bs i || contains cs i)
unfolding union
contains-union bs cs i =
    rw
      (
        contains-digit (logic bit_or bs cs) i,
        contains-digit bs i,
        contains-digit cs i,
        digit-logic bit_or bs cs i refl,
        bit-bit_or (get_or bs (i / 8) 0) (get_or cs (i / 8) 0) (i % 8),
      )
      (ground (arith, bit-lt (get_or bs (i / 8) 0) (i % 8), bit-lt (get_or cs (i / 8) 0) (i % 8)))

-- The intersection has the members of both sets, whatever the lengths of the two arrays.
contains-intersection :
    (bs cs : List ℕ) (i : ℕ) → contains (intersection bs cs) i ≡ (contains bs i && contains cs i)
unfolding intersection
contains-intersection bs cs i =
    rw
      (
        contains-digit (logic bit_and bs cs) i,
        contains-digit bs i,
        contains-digit cs i,
        digit-logic bit_and bs cs i refl,
        bit-bit_and (get_or bs (i / 8) 0) (get_or cs (i / 8) 0) (i % 8),
      )
      (ground (arith, bit-lt (get_or bs (i / 8) 0) (i % 8), bit-lt (get_or cs (i / 8) 0) (i % 8)))

-- The difference has the members of the first set that the second one lacks, whatever the lengths of
-- the two arrays.
contains-difference :
    (bs cs : List ℕ) (i : ℕ)
    → contains (difference bs cs) i ≡ (contains bs i && not (contains cs i))
unfolding difference
contains-difference bs cs i =
    rw
      (
        contains-digit (logic and_not bs cs) i,
        contains-digit bs i,
        contains-digit cs i,
        digit-logic and_not bs cs i refl,
        bit-and_not (get_or bs (i / 8) 0) (get_or cs (i / 8) 0) (i % 8),
      )
      (ground (arith, bit-lt (get_or bs (i / 8) 0) (i % 8), bit-lt (get_or cs (i / 8) 0) (i % 8)))

-- union, intersection and difference have the members of either set, of both sets, and of the first
-- set only, whatever the lengths of the two arrays.
pub contains-logic :
    (bs cs : List ℕ) (i : ℕ)
    → (contains (union bs cs) i ≡ (contains bs i || contains cs i))
      × (contains (intersection bs cs) i ≡ (contains bs i && contains cs i))
      × (contains (difference bs cs) i ≡ (contains bs i && not (contains cs i)))
contains-logic bs cs i =
    (contains-union bs cs i, contains-intersection bs cs i, contains-difference bs cs i)
