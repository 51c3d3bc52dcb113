-- ===== src/Util/Varints.antt =====
-- varints.py: numbers as bytes of seven bits each, the high bit set on all bytes but the last.
pub mod RoundTrip
mod Runs
use whooshy.Common.{
  ℕ, zero, suc, ◌+◌, ◌-◌, ◌*◌, ◌/◌, ◌^◌, bit_and, bit_or, List, [], ◌∷◌, ltb, ◌==◌, if◌then◌else◌,
  length,
}
use whooshy.Common.Bits.{and_not}
use whooshy.Common.Result.{Result, ok, err, stuck, index_error, type_error, index, ◌>>=◌}

-- `while (i & ~0x7F) != 0` of _varint.
pub varint_loop : ℕ → ℕ → Result (List ℕ)
varint_loop zero i = err stuck
varint_loop (suc fuel) i =
    let rest = varint_loop fuel (i / 2 ^ 7) in
    if and_not i 0x7F == 0
    then ok (i ∷ [])
    else (do bs ← rest; ok (bit_or (bit_and i 0x7F) 0x80 ∷ bs))

pub encode : ℕ → Result (List ℕ)
unfolding varint_loop
encode i = varint_loop (suc i) i

-- The loop that fills `_varint_cache`, from `i` on.
pub cache_from : ℕ → ℕ → List (Result (List ℕ))
cache_from i zero = []
cache_from i (suc n) = encode i ∷ cache_from (i + 1) n

pub varint_cache : List (Result (List ℕ))
varint_cache = cache_from 0 512

pub varint : ℕ → Result (List ℕ)
varint i = if ltb i (length varint_cache) then (do bs ← index varint_cache i; bs) else encode i

-- The loop of varint_to_int, with the bytes from `p` on.
pub to_int_loop : List ℕ → ℕ → ℕ → ℕ → Result ℕ
to_int_loop [] b i shift = if bit_and b 0x80 == 0 then ok i else err index_error
to_int_loop (c ∷ cs) b i shift =
    let rest = to_int_loop cs c (bit_or i (bit_and c 0x7F * 2 ^ shift)) (shift + 7) in
    if bit_and b 0x80 == 0 then ok i else rest

pub varint_to_int : List ℕ → Result ℕ
varint_to_int [] = err index_error
varint_to_int (b ∷ bs) = to_int_loop bs b (bit_and b 0x7F) 7

-- The loop of read_varint, with what is left of the file. `ord` of an empty read is a TypeError.
pub read_loop : List ℕ → ℕ → ℕ → ℕ → Result (ℕ × List ℕ)
read_loop [] b i shift = if bit_and b 0x80 == 0 then ok (i, []) else err type_error
read_loop (c ∷ cs) b i shift =
    let rest = read_loop cs c (bit_or i (bit_and c 0x7F * 2 ^ shift)) (shift + 7) in
    if bit_and b 0x80 == 0 then ok (i, c ∷ cs) else rest

pub read_varint : List ℕ → Result (ℕ × List ℕ)
read_varint [] = err type_error
read_varint (b ∷ bs) = read_loop bs b (bit_and b 0x7F) 7

-- Python's integers. `negsuc n` is -(n + 1), so that `~n` is `negsuc n`, and `~negsuc n` is `n`.
pub data ℤ : Type 0 where
  pos : ℕ → ℤ
  negsuc : ℕ → ℤ

-- The argument that signed_varint passes to varint: `i << 1`, and `(i << 1) ^ (~0)`, which is
-- `~(i << 1)`, for a negative number.
pub zigzag : ℤ → ℕ
zigzag (pos n) = n * 2
zigzag (negsuc n) = n * 2 + 1

pub signed_varint : ℤ → Result (List ℕ)
unfolding zigzag
signed_varint i = varint (zigzag i)

-- At a number that is not negative. `(i >> 1) ^ (~0)` is `~(i >> 1)`.
pub decode_signed_varint : ℕ → ℤ
decode_signed_varint i = if bit_and i 1 == 0 then pos (i / 2) else negsuc (i / 2)
