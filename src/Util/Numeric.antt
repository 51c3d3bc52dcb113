-- ===== src/Util/Numeric.antt =====
-- src/whoosh/util/numeric.py: type codes and the ranges of a tiered range query. The integers are
-- natural numbers; where the code may subtract below zero and masks the result, the result is
-- written out.
pub mod Runs
use whooshy.Common.{
  ℕ, zero, suc, ◌+◌, ◌-◌, ◌*◌, ◌%◌, ◌^◌, Bool, true, false, not, ◌||◌, Option, none, some, List, [],
  ◌∷◌, ◌++◌, if◌then◌else◌, ◌==◌, ltb, leb, bit_and, bit_or,
}
use whooshy.Common.Result.{Result, ok, err, value_error, assertion_error, stuck, ◌>>=◌}

pub data Typecode : Type 0 where
  typecode_b typecode_h typecode_i typecode_big_i typecode_q typecode_big_q : Typecode

-- "B", "H", "i", "I", "q" and "Q".
pub typecode_required : ℕ → Typecode
typecode_required maxnum =
    if ltb maxnum 256
    then typecode_b
    else if ltb maxnum (2 ^ 16)
    then typecode_h
    else if ltb maxnum (2 ^ 31 - 1)
    then typecode_i
    else if ltb maxnum (2 ^ 32)
    then typecode_big_i
    else if ltb maxnum (2 ^ 63 - 1)
    then typecode_q
    else typecode_big_q

pub max_value : ℕ → ℕ
max_value bitcount = 2 ^ bitcount - 1

-- A range of a field's terms: the start, the end and the shift.
abbrev pub TermRange : Type 0
TermRange = ℕ × ℕ × ℕ

-- `(end - diff) & not_mask` keeps the low bits of a number that may be negative.
pub minus_masked : ℕ → ℕ → ℕ → ℕ → ℕ
minus_masked intsize end diff not_mask =
    if leb diff end
    then bit_and (end - diff) not_mask
    else bit_and (2 ^ (intsize + 1) - (diff - end) % 2 ^ (intsize + 1)) not_mask

-- `~mask & ((1 << intsize + 1) - 1)`
pub not_mask_of : ℕ → ℕ → ℕ
not_mask_of intsize mask = 2 ^ (intsize + 1) - 1 - bit_and mask (2 ^ (intsize + 1) - 1)

abbrev pub setbits : ℕ → ℕ → ℕ
setbits shift x = bit_or x (2 ^ shift - 1)

abbrev pub if_any : Bool → TermRange → List TermRange
if_any true r = r ∷ []
if_any false r = []

-- The loop, over the shift.
pub split_loop : ℕ → ℕ → ℕ → ℕ → ℕ → ℕ → Result (List TermRange)
unfolding minus_masked not_mask_of
split_loop zero intsize step shift start end = err stuck
split_loop (suc fuel) intsize step shift start end =
    let diff = 2 ^ (shift + step) in
    let mask = (2 ^ step - 1) * 2 ^ shift in
    let haslower = not (bit_and start mask == 0) in
    let hasupper = not (bit_and end mask == mask) in
    let not_mask = not_mask_of intsize mask in
    let nextstart = bit_and (if haslower then start + diff else start) not_mask in
    let nextend =
      if hasupper then minus_masked intsize end diff not_mask else bit_and end not_mask in
    let lower = if_any haslower (start, setbits shift (bit_or start mask), shift) in
    let upper = if_any hasupper (bit_and end not_mask, setbits shift end, shift) in
    let rest = split_loop fuel intsize step (shift + step) nextstart nextend in
    if leb intsize (shift + step) || ltb nextend nextstart
    then ok ((start, setbits shift end, shift) ∷ [])
    else (rest >>= λ ranges. ok (lower ++ (upper ++ ranges)))

-- With a step of at least one, the loop ends before the shift passes intsize.
unfoldable pub split_ranges : ℕ → ℕ → ℕ → ℕ → Result (List TermRange)
unfolding split_loop
split_ranges intsize step start end = split_loop (suc intsize) intsize step 0 start end
