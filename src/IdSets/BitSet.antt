-- ===== src/IdSets/BitSet.antt =====
-- idsets.py, classes BaseBitSet and BitSet: a set of numbers as an array of bytes.
pub mod Members
pub mod Logic
pub mod Neighbours
pub mod Iteration
pub mod Invert
mod Runs
use whooshy.Common.{
  ℕ, zero, suc, ◌+◌, ◌-◌, ◌*◌, ◌/◌, ◌%◌, ◌^◌, bit_and, bit_or, Bool, true, false, not, Option, none,
  some, List, [], ◌∷◌, ◌++◌, map, ltb, leb, ◌==◌, if◌then◌else◌, length,
}
use whooshy.Common.Lists.{get_or, set, take, drop, replicate}
use whooshy.Common.Bits.{and_not}
use whooshy.Common.Result.{Result, ok, err, index_error, type_error, stuck}

-- numeric.py, `ceil((bitcount + 1) / 8.0)`
pub bytes_for_bits : ℕ → ℕ
bytes_for_bits bitcount = (bitcount + 1 + 7) / 8

-- `byte & (1 << (i & 7))`, as a test
pub has_bit : ℕ → ℕ → Bool
has_bit byte i = not (bit_and byte (2 ^ bit_and i 7) == 0)

-- BaseBitSet.__contains__. The byte is read only inside the array.
pub contains : List ℕ → ℕ → Bool
unfolding has_bit
contains bits i =
    let bucket = i / 8 in
    if leb (length bits) bucket then false else has_bit (get_or bits bucket 0) i

pub resize : List ℕ → ℕ → List ℕ
unfolding bytes_for_bits
resize bits tosize =
    let curlength = length bits in
    let newlength = bytes_for_bits tosize in
    if ltb curlength newlength
    then bits ++ replicate (newlength - curlength) 0
    else if ltb newlength curlength
    then take (newlength + 1) bits
    else bits

pub add : ℕ → List ℕ → List ℕ
add i bits =
    let bucket = i / 8 in
    let grown = if leb (length bits) bucket then resize bits (i + 1) else bits in
    set grown bucket (bit_or (get_or grown bucket 0) (2 ^ bit_and i 7))

pub discard : ℕ → List ℕ → Result (List ℕ)
discard i bits =
    let bucket = i / 8 in
    if ltb bucket (length bits)
    then ok (set bits bucket (and_not (get_or bits bucket 0) (2 ^ bit_and i 7)))
    else err index_error

-- The array without its zero bytes at the end.
pub trim : List ℕ → List ℕ
trim [] = []
trim (b ∷ bs) =
    let rest = trim bs in elim rest [ [] ↦ if b == 0 then [] else b ∷ [] | c ∷ cs ↦ b ∷ c ∷ cs ]

-- The loop of _logic over izip_longest with fill value 0.
pub logic_loop : (ℕ → ℕ → ℕ) → List ℕ → List ℕ → List ℕ
logic_loop op [] [] = []
logic_loop op [] (c ∷ cs) = bit_and (op 0 c) 0xFF ∷ logic_loop op [] cs
logic_loop op (b ∷ bs) [] = bit_and (op b 0) 0xFF ∷ logic_loop op bs []
logic_loop op (b ∷ bs) (c ∷ cs) = bit_and (op b c) 0xFF ∷ logic_loop op bs cs

pub logic : (ℕ → ℕ → ℕ) → List ℕ → List ℕ → List ℕ
unfolding trim logic_loop
logic op bits other = trim (logic_loop op bits other)

pub union : List ℕ → List ℕ → List ℕ
union = logic bit_or

pub intersection : List ℕ → List ℕ → List ℕ
intersection = logic bit_and

pub difference : List ℕ → List ℕ → List ℕ
difference = logic and_not

-- BaseBitSet.__iter__, a byte at a time.
bits_of_byte : ℕ → ℕ → ℕ → List ℕ
bits_of_byte zero base byte = []
bits_of_byte (suc n) base byte =
    let rest = bits_of_byte n base byte in
    rest ++ (if not (bit_and byte (2 ^ n) == 0) then (base + n) ∷ [] else [])

pub iter_from : ℕ → List ℕ → List ℕ
unfolding bits_of_byte
iter_from base [] = []
iter_from base (b ∷ bs) = bits_of_byte 8 base b ++ iter_from (base + 8) bs

pub iter : List ℕ → List ℕ
unfolding iter_from
iter bits = iter_from 0 bits

-- The loop of `after` over `i` and `bucket`, below `size`.
pub after_loop : ℕ → List ℕ → ℕ → ℕ → Result (Option ℕ)
after_loop zero bits bucket i = err stuck
after_loop (suc fuel) bits bucket i =
    let next_bucket = after_loop fuel bits (bucket + 1) ((bucket + 1) * 8) in
    let step = after_loop fuel bits (if (i + 1) % 8 == 0 then bucket + 1 else bucket) (i + 1) in
    let byte = get_or bits bucket 0 in
    if ltb i (length bits * 8)
    then (if byte == 0
        then next_bucket
        else if not (bit_and byte (2 ^ bit_and i 7) == 0)
        then ok (some i)
        else step)
    else ok none

-- BaseBitSet.after, at a number that is not negative.
pub after : List ℕ → ℕ → Result (Option ℕ)
after bits i =
    let size = length bits * 8 in
    if leb size i then ok none else after_loop (size + 1) bits ((i + 1) / 8) (i + 1)

-- `first` is `after(-1)`, which starts the loop at 0.
pub first : List ℕ → Result (Option ℕ)
first bits = after_loop (length bits * 8 + 1) bits 0 0

-- The loop of `before`. `n` is `i + 1`, so that the loop ends at 0 and not at -1.
pub before_loop : ℕ → List ℕ → ℕ → ℕ → Result (Option ℕ)
before_loop zero bits bucket n = err stuck
before_loop (suc fuel) bits bucket n =
    let next_bucket = before_loop fuel bits (bucket - 1) (bucket * 8) in
    let i = n - 1 in
    let step = before_loop fuel bits (if i % 8 == 0 then bucket - 1 else bucket) (n - 1) in
    let byte = get_or bits bucket 0 in
    if ltb 0 n
    then (if byte == 0
        then next_bucket
        else if not (bit_and byte (2 ^ bit_and i 7) == 0)
        then ok (some i)
        else step)
    else ok none

-- BaseBitSet.before, at a number that is not negative.
pub before : List ℕ → ℕ → Result (Option ℕ)
before bits i =
    let size = length bits * 8 in
    let n = if leb size i then size else i in
    if i == 0 then ok none else before_loop (size + 1) bits ((n - 1) / 8) n

pub last : List ℕ → Result (Option ℕ)
last bits = before bits (length bits * 8 + 1)

-- `_zero_extra_bits`: a negative `spill` makes the mask a float, and an empty array has no last
-- byte.
pub zero_extra_bits : ℕ → List ℕ → Result (List ℕ)
zero_extra_bits size [] = err index_error
zero_extra_bits size (b ∷ bs) =
    let end = length bs in
    let spill = size - end * 8 in
    if ltb size (end * 8)
    then err type_error
    else if spill == 0
    then ok (b ∷ bs)
    else ok (set (b ∷ bs) end (bit_and (get_or (b ∷ bs) end 0) (2 ^ spill - 1)))

-- `~b & 0xFF` has the bits of 0xFF that `b` lacks.
pub invert_update : ℕ → List ℕ → Result (List ℕ)
invert_update size bits = zero_extra_bits size (map (and_not 0xFF) bits)

-- The number of ones in a byte, as the table `_1SPERBYTE` has it.
pub ones : ℕ → ℕ → ℕ
ones zero byte = 0
ones (suc n) byte = byte % 2 + ones n (byte / 2)

-- BaseBitSet.__len__
pub size : List ℕ → ℕ
unfolding ones
size [] = 0
size (b ∷ bs) = ones 8 b + size bs

pub clear : List ℕ → List ℕ
clear = map (λ _. 0)
