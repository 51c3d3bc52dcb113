-- ===== src/Util/Varints/RoundTrip.antt =====
-- What varints.py encodes it also decodes.
use whooshy.Common.{
  ℕ, zero, suc, ◌+◌, ◌-◌, ◌*◌, ◌/◌, ◌%◌, ◌^◌, ◌≤◌, ◌<◌, ◌≡◌, refl, ◌∙◌, ap, bit_and, bit_or, List,
  [], ◌∷◌, ◌++◌, arith, ltb, ◌==◌, length, append-nil, Bool-cases, inl, inr, lt→ltb, le→ltb,
}
use whooshy.Common.Bits.{
  and_not, bit, bit_and_pow, bit_and_low7, bit_and-one, bit_or-disjoint, zero-bit_or,
}
use whooshy.Common.Result.{ok, index}
use whooshy.Util.Varints.{
  varint_loop, encode, cache_from, varint_cache, varint, ℤ, pos, negsuc, zigzag, signed_varint,
  decode_signed_varint, to_int_loop, varint_to_int, read_loop, read_varint,
}
use native.Mathlib.Nat.{pow-suc}
use native.Mathlib.Numerals.{towards_suc}

-- `i & ~0x7F` is 0 for one byte of seven bits only.
and_not-low7 : (n : ℕ) → (and_not n 0x7F == 0) ≡ ltb n 128
and_not-low7 n = ground (arith, bit_and_low7 n)

high_bit : (n : ℕ) → n < 256 → (bit_and n 0x80 == 0) ≡ ltb n 128
high_bit n h =
    let e : bit_and n 0x80 ≡ bit n 7 * 2 ^ 7 = bit_and_pow n 7 in
    let digit : bit n 7 ≡ n / 128 = omega arith in ground (arith, e, digit)

group-low : (n : ℕ) → bit_or (bit_and n 0x7F) 0x80 ≡ n % 128 + 128
group-low n = rw (bit_and_low7 n) (bit_or-disjoint 7 (n % 128) 1 (omega arith))

pow-seven : (s : ℕ) → 2 ^ (s + 7) ≡ 128 * 2 ^ s
pow-seven s = simp (towards_suc, pow-suc) (omega arith)

place : (n s i : ℕ) → i < 2 ^ s → bit_or i (bit_and n 0x7F * 2 ^ s) ≡ i + n % 128 * 2 ^ s
place n s i h = rw (bit_and_low7 n) (bit_or-disjoint s i (n % 128) h)

place_room : (m s i : ℕ) → m < 128 → i < 2 ^ s → i + m * 2 ^ s < 2 ^ (s + 7)
place_room m s i h k =
    let e : m + (127 - m) ≡ 127 = omega arith in
    omega (arith, pow-seven s, ap (λ (t : ℕ). t * 2 ^ s) e)

place_rest : (n s i : ℕ) → i + n % 128 * 2 ^ s + n / 128 * 2 ^ (s + 7) ≡ i + n * 2 ^ s
place_rest n s i =
    let e : n % 128 + n / 128 * 128 ≡ n = omega arith in
    omega (arith, ap (λ (t : ℕ). n / 128 * t) (pow-seven s), ap (λ (t : ℕ). t * 2 ^ s) e)

read_loop-stop : (rest : List ℕ) (b i s : ℕ) → b < 128 → read_loop rest b i s ≡ ok (i, rest)
unfolding read_loop
read_loop-stop [] b i s h = rw (high_bit b (omega arith), lt→ltb b 128 h) refl
read_loop-stop (c ∷ cs) b i s h = rw (high_bit b (omega arith), lt→ltb b 128 h) refl

read_loop-step :
    (c : ℕ) (cs : List ℕ) (b i s : ℕ)
    → 128 ≤ b
    → b < 256
    → read_loop (c ∷ cs) b i s ≡ read_loop cs c (bit_or i (bit_and c 0x7F * 2 ^ s)) (s + 7)
unfolding read_loop
read_loop-step c cs b i s h k = rw (high_bit b k, le→ltb b 128 h) refl

-- One round of decoding for each round of encoding: the groups from `shift` on are added to `i`.
read_loop-varint_loop :
    (fuel n s i : ℕ) (rest : List ℕ)
    → n < fuel
    → i < 2 ^ s
    → (b : ℕ) × (bs : List ℕ) × (varint_loop fuel n ≡ ok (b ∷ bs))
      × (read_loop (bs ++ rest) b (bit_or i (bit_and b 0x7F * 2 ^ s)) (s + 7)
          ≡ ok (i + n * 2 ^ s, rest))
unfolding varint_loop
read_loop-varint_loop zero n s i rest h k = absurd (omega arith)
read_loop-varint_loop (suc fuel) n s i rest h k = elim (Bool-cases (ltb n 128)) [
  | inl small ↦
      let low : n % 128 ≡ n = ground arith in
      (
        n,
        [],
        rw (and_not-low7 n, small) refl,
        rw (place n s i k, low) (read_loop-stop rest n _ _ (ground arith)),
      )
  | inr large ↦
      let (b, bs, e, r) =
        read_loop-varint_loop fuel (n / 128) (s + 7) (i + n % 128 * 2 ^ s) rest (ground arith)
          (place_room (n % 128) s i (omega arith) k) in
      let head : ℕ = n % 128 + 128 in
      let low : head % 128 ≡ n % 128 = omega arith in
      (
        head,
        b ∷ bs,
        rw (and_not-low7 n, large, e, group-low n) refl,
        rw
            (
              place head s i k,
              low,
              read_loop-step b (bs ++ rest) head (i + n % 128 * 2 ^ s) (s + 7) (omega arith)
                  (omega arith),
              ← place_rest n s i,
            )
            r,
      )
]

-- read_varint reads back what the encoder writes, whatever follows it, and leaves exactly what
-- follows; the encoder's fuel suffices.
pub read_varint-encode :
    (n : ℕ) (rest : List ℕ)
    → (bs : List ℕ) × (encode n ≡ ok bs) × (read_varint (bs ++ rest) ≡ ok (n, rest))
unfolding encode read_varint
read_varint-encode n rest =
    let (b, bs, e, r) = read_loop-varint_loop (suc n) n 0 0 rest (omega arith) (omega arith) in
    let start : bit_or 0 (bit_and b 0x7F * 2 ^ 0) ≡ bit_and b 0x7F =
      omega (arith, zero-bit_or (bit_and b 0x7F * 1)) in
    let total : 0 + n * 2 ^ 0 ≡ n = omega arith in (b ∷ bs, e, rw (← start) (r ∙ rw total refl))

to_int_loop-read_loop :
    (bs : List ℕ) (b i s n : ℕ) (rest : List ℕ)
    → read_loop bs b i s ≡ ok (n, rest)
    → to_int_loop bs b i s ≡ ok n
unfolding to_int_loop read_loop
to_int_loop-read_loop [] b i s n rest e = elim (Bool-cases (bit_and b 0x80 == 0)) [
  | inl stop ↦ rw stop (let e' = rw stop at e in cc e')
  | inr more ↦ let e' = rw more at e in absurd (cc e')
]
to_int_loop-read_loop (c ∷ cs) b i s n rest e = elim (Bool-cases (bit_and b 0x80 == 0)) [
  | inl stop ↦ rw stop (let e' = rw stop at e in cc e')
  | inr more ↦
      rw more (
        to_int_loop-read_loop cs c (bit_or i (bit_and c 0x7F * 2 ^ s)) (s + 7) n rest
          (rw more at e))
]

-- Wherever read_varint returns a number, varint_to_int returns the same one of the same bytes.
pub varint_to_int-read_varint :
    (bs : List ℕ) (n : ℕ) (rest : List ℕ) → read_varint bs ≡ ok (n, rest) → varint_to_int bs ≡ ok n
unfolding read_varint varint_to_int
varint_to_int-read_varint [] n rest e = absurd (cc e)
varint_to_int-read_varint (b ∷ bs) n rest e = to_int_loop-read_loop bs b (bit_and b 0x7F) 7 n rest e

-- varint_to_int inverts the encoder.
pub varint_to_int-encode : (n : ℕ) → (bs : List ℕ) × (encode n ≡ ok bs) × (varint_to_int bs ≡ ok n)
varint_to_int-encode n =
    let (bs, e, r) = read_varint-encode n [] in
    (bs, e, varint_to_int-read_varint bs n [] (rw (append-nil bs) at r))

length-cache_from : (i n : ℕ) → length (cache_from i n) ≡ n
unfolding cache_from
length-cache_from i zero = refl
length-cache_from i (suc n) = ap suc (length-cache_from (i + 1) n)

index-cache_from : (i n k : ℕ) → k < n → index (cache_from i n) k ≡ ok (encode (i + k))
unfolding cache_from
index-cache_from i zero k h = absurd (omega arith)
index-cache_from i (suc n) zero h = let e : i + 0 ≡ i = omega arith in rw e refl
index-cache_from i (suc n) (suc k) h =
    let e : i + suc k ≡ i + 1 + k = omega arith in rw e (index-cache_from (i + 1) n k (omega arith))

-- The cache changes no result: varint is the encoder.
pub varint-encode : (i : ℕ) → varint i ≡ encode i
unfolding varint varint_cache
varint-encode i = elim (Bool-cases (ltb i 512)) [
  | inl cached ↦
      rw (length-cache_from 0 512, cached, index-cache_from 0 512 i (ground arith))
        (let e : 0 + i ≡ i = omega arith in rw e refl)
  | inr large ↦ rw (length-cache_from 0 512, large) refl
]

zigzag_back : (i : ℤ) → decode_signed_varint (zigzag i) ≡ i
unfolding zigzag decode_signed_varint
zigzag_back (pos n) =
    let low : bit_and (n * 2) 1 ≡ 0 = omega (arith, bit_and-one (n * 2)) in
    let half : n * 2 / 2 ≡ n = omega arith in rw (low, half) refl
zigzag_back (negsuc k) =
    let low : bit_and (k * 2 + 1) 1 ≡ 1 = omega (arith, bit_and-one (k * 2 + 1)) in
    let half : (k * 2 + 1) / 2 ≡ k = omega arith in rw (low, half) refl

-- An integer of either sign is read back through its zig-zag encoding, whatever follows it.
pub decode_signed_varint-signed_varint :
    (i : ℤ) (rest : List ℕ)
    → (bs : List ℕ) × (n : ℕ) × (signed_varint i ≡ ok bs)
      × (read_varint (bs ++ rest) ≡ ok (n, rest))
      × (decode_signed_varint n ≡ i)
unfolding signed_varint
decode_signed_varint-signed_varint i rest =
    let (bs, e, r) = read_varint-encode (zigzag i) rest in
    (bs, zigzag i, varint-encode (zigzag i) ∙ e, r, zigzag_back i)
