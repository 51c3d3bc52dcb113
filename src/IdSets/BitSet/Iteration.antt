-- ===== src/IdSets/BitSet/Iteration.antt =====
-- Iterating over a BitSet.
use whooshy.Common.{
  ℕ, zero, suc, ◌+◌, ◌-◌, ◌*◌, ◌/◌, ◌%◌, ◌^◌, ◌≤◌, ◌≡◌, refl, bit_and, Bool, true, false, not, ◌&&◌,
  ◌||◌, List, [], ◌∷◌, ◌++◌, arith, ltb, leb, ◌==◌, length, Bool-cases, inl, inr,
}
use whooshy.Common.Lists.{get_or}
use whooshy.Common.Bits.{bit, bit-lt, bit-zero, bit_and_pow}
use native.Mathlib.Nat.{one-le-pow}
use whooshy.IdSets.BitSet.{contains, bits_of_byte, iter_from, iter}
use whooshy.IdSets.BitSet.Members.{contains-digit}

-- Rising numbers, from `lo` on and below `hi`.
abbrev pub Between : ℕ → ℕ → List ℕ → Type 0
Between lo hi [] = lo ≤ hi
Between lo hi (x ∷ xs) = (lo ≤ x) × Between (x + 1) hi xs

Between-append :
    (lo mid hi : ℕ) (xs ys : List ℕ)
    → Between lo mid xs
    → Between mid hi ys
    → Between lo hi (xs ++ ys)
Between-append lo mid hi [] [] a b = omega arith
Between-append lo mid hi [] (y ∷ ys) a b = (omega arith, b.1)
Between-append lo mid hi (x ∷ xs) ys a b = (a.0, Between-append (x + 1) mid hi xs ys a.1 b)

abbrev pub member : ℕ → List ℕ → Bool
member j [] = false
member j (x ∷ xs) = j == x || member j xs

member-append : (j : ℕ) (xs ys : List ℕ) → member j (xs ++ ys) ≡ (member j xs || member j ys)
member-append j [] ys = refl
member-append j (x ∷ xs) ys = ground (arith, member-append j xs ys)

abbrev single : Bool → ℕ → List ℕ
single true d = d ∷ []
single false d = []

bits_of_byte-Between : (n base byte : ℕ) → Between base (base + n) (bits_of_byte n base byte)
unfolding bits_of_byte
bits_of_byte-Between zero base byte = omega arith
bits_of_byte-Between (suc n) base byte =
    Between-append base (base + n) (base + suc n) (bits_of_byte n base byte) _
      (bits_of_byte-Between n base byte)
      (elim (Bool-cases (bit_and byte (2 ^ n) == 0)) [
        | inl e ↦ rw e (omega arith)
        | inr e ↦ rw e (omega arith)
      ])

iter_from-Between :
    (base : ℕ) (bits : List ℕ) → Between base (base + 8 * length bits) (iter_from base bits)
unfolding iter_from
iter_from-Between base [] = omega arith
iter_from-Between base (b ∷ bs) =
    let e : base + 8 * suc (length bs) ≡ base + 8 + 8 * length bs = omega arith in
    rw e (
      Between-append base (base + 8) _ (bits_of_byte 8 base b) _ (bits_of_byte-Between 8 base b)
        (iter_from-Between (base + 8) bs))

set_test : (byte n : ℕ) → not (bit byte n * 2 ^ n == 0) ≡ (bit byte n == 1)
set_test byte n = ground (arith, bit-lt byte n, one-le-pow n 2)

member-bits_of_byte :
    (j n base byte : ℕ)
    → member j (bits_of_byte n base byte)
      ≡ (leb base j && (ltb j (base + n) && (bit byte (j - base) == 1)))
unfolding bits_of_byte
member-bits_of_byte j zero base byte = ground arith
member-bits_of_byte j (suc n) base byte =
    rw
      (
        member-append j (bits_of_byte n base byte) _,
        member-bits_of_byte j n base byte,
        bit_and_pow byte n,
        set_test byte n,
      )
      (elim (Bool-cases (j == base + n)) [
        | inl e ↦ let at : j - base ≡ n = ground arith in rw at (ground arith)
        | inr e ↦ ground arith
      ])

member-iter_from :
    (j base : ℕ) (bits : List ℕ)
    → member j (iter_from base bits)
      ≡ (leb base j && (bit (get_or bits ((j - base) / 8) 0) ((j - base) % 8) == 1))
unfolding iter_from
member-iter_from j base [] = rw (bit-zero ((j - base) % 8)) (ground arith)
member-iter_from j base (b ∷ bs) =
    rw
      (
        member-append j (bits_of_byte 8 base b) _,
        member-bits_of_byte j 8 base b,
        member-iter_from j (base + 8) bs,
      )
      (elim (Bool-cases (ltb j (base + 8))) [
        | inl here ↦ elim (Bool-cases (leb base j)) [
          | inl on ↦
              let e : (j - base) / 8 ≡ 0 = ground arith in
              let e' : (j - base) % 8 ≡ j - base = ground arith in rw (e, e') (ground arith)
          | inr before ↦ ground arith
        ]
        | inr later ↦
            let e : (j - base) / 8 ≡ suc ((j - (base + 8)) / 8) = ground arith in
            let e' : (j - base) % 8 ≡ (j - (base + 8)) % 8 = ground arith in
            rw (e, e') (ground arith)
      ])

member-iter : (bits : List ℕ) (j : ℕ) → member j (iter bits) ≡ contains bits j
unfolding iter
member-iter bits j =
    let e : j - 0 ≡ j = omega arith in
    rw (member-iter_from j 0 bits, contains-digit bits j, e) (ground arith)

iter-Between : (bits : List ℕ) → Between 0 (8 * length bits) (iter bits)
unfolding iter
iter-Between bits =
    let e : 0 + 8 * length bits ≡ 8 * length bits = omega arith in
    rw (← e) (iter_from-Between 0 bits)

-- Iteration yields exactly the members, in strictly rising order and each within the array.
pub iter-members :
    (bits : List ℕ)
    → Between 0 (8 * length bits) (iter bits) × ((j : ℕ) → member j (iter bits) ≡ contains bits j)
iter-members bits = (iter-Between bits, member-iter bits)
