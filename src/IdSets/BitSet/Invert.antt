-- ===== src/IdSets/BitSet/Invert.antt =====
-- invert_update of a BitSet.
use whooshy.Common.{
  ℕ, zero, suc, ◌+◌, ◌-◌, ◌*◌, ◌/◌, ◌%◌, ◌^◌, ◌≤◌, ◌<◌, ◌≡◌, refl, ap, bit_and, false, not, ◌&&◌,
  List, [], ◌∷◌, map, arith, ltb, ◌==◌, if◌then◌else◌, length, Bool-cases, inl, inr, ==_iff, le→ltb,
  ne→==,
}
use whooshy.Common.Lists.{get_or, set}
use whooshy.Common.Bits.{and_not, bit, bit-lt, bit-and_not, bit-bit_and, bit-zero}
use whooshy.Common.Result.{ok}
use native.Mathlib.Nat.{pow-suc, one-le-pow}
use whooshy.IdSets.BitSet.{contains, zero_extra_bits, invert_update}
use whooshy.IdSets.BitSet.Members.{
  digit, contains-digit, contains_beyond, get_or-set, get_or_beyond,
}
use whooshy.IdSets.BitSet.Logic.{bit-low_byte}

get_or-map :
    (f : ℕ → ℕ) (bits : List ℕ) (k : ℕ)
    → k < length bits
    → get_or (map f bits) k 0 ≡ f (get_or bits k 0)
get_or-map f [] k h = absurd (omega arith)
get_or-map f (b ∷ bs) zero h = refl
get_or-map f (b ∷ bs) (suc k) h = get_or-map f bs k (omega arith)

length-map : (f : ℕ → ℕ) (bits : List ℕ) → length (map f bits) ≡ length bits
length-map f [] = refl
length-map f (b ∷ bs) = ap suc (length-map f bs)

-- The mask of `s` ones.
bit-mask : (s m : ℕ) → bit (2 ^ s - 1) m ≡ (if ltb m s then 1 else 0)
bit-mask zero m = rw (bit-zero m) (ground arith)
bit-mask (suc s) zero = ground (arith, pow-suc 2 s, one-le-pow s 2)
bit-mask (suc s) (suc m) =
    let half : (2 ^ suc s - 1) / 2 ≡ 2 ^ s - 1 = omega (arith, pow-suc 2 s, one-le-pow s 2) in
    rw (half, bit-mask s m) (ground arith)

digit-inverted :
    (bits : List ℕ) (j : ℕ)
    → j / 8 < length bits
    → digit (map (and_not 0xFF) bits) j ≡ 1 - digit bits j
digit-inverted bits j h =
    rw
      (
        get_or-map (and_not 0xFF) bits (j / 8) h,
        bit-and_not 0xFF (get_or bits (j / 8) 0) (j % 8),
        bit-low_byte (j % 8) (omega arith),
      )
      refl

contains-inverted :
    (bits : List ℕ) (j : ℕ)
    → j / 8 < length bits
    → contains (map (and_not 0xFF) bits) j ≡ not (contains bits j)
contains-inverted bits j h =
    rw (contains-digit (map (and_not 0xFF) bits) j, contains-digit bits j, digit-inverted bits j h)
      (ground (arith, bit-lt (get_or bits (j / 8) 0) (j % 8)))

module _ (size b : ℕ) (bs : List ℕ) (h : length bs * 8 < size) where
  abbrev spill : ℕ
  spill = size - length bs * 8

  abbrev masked : List ℕ
  masked = set (b ∷ bs) (length bs) (bit_and (get_or (b ∷ bs) (length bs) 0) (2 ^ spill - 1))

  zero_extra_bits-masked : zero_extra_bits size (b ∷ bs) ≡ ok masked
  unfolding zero_extra_bits
  zero_extra_bits-masked =
      rw (le→ltb size (length bs * 8) (omega arith), ne→== spill 0 (λ e. omega arith)) refl

  digit-masked : (j : ℕ) → digit masked j ≡ (if ltb j size then digit (b ∷ bs) j else 0)
  digit-masked j =
      rw
        (get_or-set (b ∷ bs) (length bs) (j / 8)
          (bit_and (get_or (b ∷ bs) (length bs) 0) (2 ^ spill - 1)) (omega arith))
        (elim (Bool-cases (length bs == j / 8)) [
          | inl at ↦
              let e : length bs ≡ j / 8 = (==_iff _ _).0 at in
              rw
                (
                  at,
                  bit-bit_and (get_or (b ∷ bs) (length bs) 0) (2 ^ spill - 1) (j % 8),
                  bit-mask spill (j % 8),
                  ← e,
                )
                (ground (arith, bit-lt (get_or (b ∷ bs) (length bs) 0) (j % 8)))
          | inr off ↦ rw off (elim (Bool-cases (ltb j size)) [
            | inl within ↦ rw within refl
            | inr out ↦
                rw (out, get_or_beyond (b ∷ bs) (j / 8) (ground arith), bit-zero (j % 8)) refl
          ])
        ])

contains-empty_part : (bits : List ℕ) (j : ℕ) → length bits * 8 ≤ j → contains bits j ≡ false
contains-empty_part bits j h = contains_beyond bits j (omega arith)

-- Where `size` reaches into the last byte or beyond it, `invert_update` leaves exactly the numbers
-- below `size` and within the array that were no members. A size within the array thus complements
-- the numbers below it; the array is not extended, so that of a larger size the numbers beyond the
-- array stay out.
pub contains-invert_update :
    (size b : ℕ) (bs : List ℕ)
    → length bs * 8 < size
    → (bits' : List ℕ) × (invert_update size (b ∷ bs) ≡ ok bits')
      × ((j : ℕ)
          → contains bits' j
            ≡ (ltb j size && (ltb j (length (b ∷ bs) * 8) && not (contains (b ∷ bs) j))))
unfolding invert_update
contains-invert_update size b bs h =
    let c = and_not 0xFF b in
    let cs = map (and_not 0xFF) bs in
    let n : length cs ≡ length bs = length-map (and_not 0xFF) bs in
    let h' : length cs * 8 < size = rw n h in
    (
      masked size c cs h',
      zero_extra_bits-masked size c cs h',
      λ j.
          rw (contains-digit (masked size c cs h') j, digit-masked size c cs h' j)
            (elim (Bool-cases (ltb j (length (b ∷ bs) * 8))) [
              | inl within ↦
                  rw
                    (
                      within,
                      ← contains-inverted (b ∷ bs) j (ground arith),
                      contains-digit (c ∷ cs) j,
                    )
                    (ground arith)
              | inr out ↦
                  rw (out, get_or_beyond (c ∷ cs) (j / 8) (ground (arith, n)), bit-zero (j % 8))
                    (ground arith)
            ]),
    )

-- Where `size` ends exactly before the last byte, the last byte is not masked: what it lacked
-- becomes a member, although it is not below `size`.
pub invert_update_leaks :
    (b : ℕ) (bs : List ℕ) (j : ℕ)
    → length bs * 8 ≤ j
    → j < length bs * 8 + 8
    → (bits' : List ℕ) × (invert_update (length bs * 8) (b ∷ bs) ≡ ok bits')
      × (contains bits' j ≡ not (contains (b ∷ bs) j))
unfolding invert_update zero_extra_bits
invert_update_leaks b bs j low high =
    let n : length (map (and_not 0xFF) bs) ≡ length bs = length-map (and_not 0xFF) bs in
    let none_left : length bs * 8 - length bs * 8 ≡ 0 = omega arith in
    (
      map (and_not 0xFF) (b ∷ bs),
      rw (n, le→ltb (length bs * 8) (length bs * 8) (omega arith), none_left) refl,
      contains-inverted (b ∷ bs) j (omega arith),
    )
