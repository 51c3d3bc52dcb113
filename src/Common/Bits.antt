-- ===== src/Common/Bits.antt =====
-- `&`, `|` and `& ~` on numbers of any width, bit by bit.
use Prim.Native.Nat.{
  ℕ, zero, suc, ◌+◌, ◌-◌, ◌*◌, ◌/◌, ◌%◌, ◌^◌, ◌≤◌, ◌<◌, min, max, bit_and, bit_or, digits,
  bit_and-bitwise, bit_or-bitwise,
}
use mathlib.Core.Logic.{◌≢◌}
use mathlib.Core.Path.{◌≡◌, refl, ap}
use native.Mathlib.Nat.{pow-suc}
use native.Mathlib.Omega.{arith}

-- Bit `i` of `n`, as 0 or 1.
abbrev pub bit : ℕ → ℕ → ℕ
bit w zero = w % 2
bit w (suc i) = bit (w / 2) i

-- `x & ~y`
abbrev pub and_not : ℕ → ℕ → ℕ
and_not x y = x - bit_and x y

-- The library defines the operations by recursion on a count of digits; any count that is large
-- enough gives the same number.
module _ (rest : ℕ → ℕ) (f : ℕ → ℕ → ℕ) where
  digits_enough : (w v x y : ℕ) → x ≤ w → x ≤ v → digits rest f w x y ≡ digits rest f v x y
  digits_enough zero zero x y low q = refl
  digits_enough zero (suc v) zero y low q = refl
  digits_enough zero (suc v) (suc x) y low q = absurd (omega arith)
  digits_enough (suc w) zero zero y low q = refl
  digits_enough (suc w) zero (suc x) y low q = absurd (omega arith)
  digits_enough (suc w) (suc v) zero y low q = refl
  digits_enough (suc w) (suc v) (suc x) y low q =
      omega (arith, digits_enough w v (suc x / 2) (y / 2) (omega arith) (omega arith))

pub zero-bit_and : (y : ℕ) → bit_and 0 y ≡ 0
zero-bit_and y = bit_and-bitwise 0 y

pub zero-bit_or : (y : ℕ) → bit_or 0 y ≡ y
zero-bit_or y = bit_or-bitwise 0 y

pub bit_and_step : (x y : ℕ) → bit_and x y ≡ bit_and (x / 2) (y / 2) * 2 + min (x % 2) (y % 2)
bit_and_step zero y = omega (arith, zero-bit_and y, zero-bit_and (y / 2))
bit_and_step (suc x) y = omega (
  arith,
  bit_and-bitwise (suc x) y,
  bit_and-bitwise (suc x / 2) (y / 2),
  digits_enough (λ y. zero) min x (suc x / 2) (suc x / 2) (y / 2) (omega arith) (omega arith),
)

pub bit_or_step : (x y : ℕ) → bit_or x y ≡ bit_or (x / 2) (y / 2) * 2 + max (x % 2) (y % 2)
bit_or_step zero y = omega (arith, zero-bit_or y, zero-bit_or (y / 2))
bit_or_step (suc x) y = omega (
  arith,
  bit_or-bitwise (suc x) y,
  bit_or-bitwise (suc x / 2) (y / 2),
  digits_enough (λ y. y) max x (suc x / 2) (suc x / 2) (y / 2) (omega arith) (omega arith),
)

pub bit-lt : (w i : ℕ) → bit w i < 2
bit-lt w zero = omega arith
bit-lt w (suc i) = bit-lt (w / 2) i

pub bit-bit_and : (x y i : ℕ) → bit (bit_and x y) i ≡ min (bit x i) (bit y i)
bit-bit_and x y zero = omega (arith, bit_and_step x y)
bit-bit_and x y (suc i) =
    let half : bit_and x y / 2 ≡ bit_and (x / 2) (y / 2) = omega (arith, bit_and_step x y) in
    rw half (bit-bit_and (x / 2) (y / 2) i)

pub bit-bit_or : (x y i : ℕ) → bit (bit_or x y) i ≡ max (bit x i) (bit y i)
bit-bit_or x y zero = omega (arith, bit_or_step x y)
bit-bit_or x y (suc i) =
    let half : bit_or x y / 2 ≡ bit_or (x / 2) (y / 2) = omega (arith, bit_or_step x y) in
    rw half (bit-bit_or (x / 2) (y / 2) i)

bit_and-zero_upto : (w x : ℕ) → x ≤ w → bit_and x 0 ≡ 0
bit_and-zero_upto w zero h = refl
bit_and-zero_upto zero (suc x) h = absurd (omega arith)
bit_and-zero_upto (suc w) (suc x) h =
    omega (arith, bit_and_step (suc x) 0, bit_and-zero_upto w (suc x / 2) (omega arith))

pub bit_and-zero : (x : ℕ) → bit_and x 0 ≡ 0
bit_and-zero x = bit_and-zero_upto x x (omega arith)

bit_or-zero_fuel : (w x : ℕ) → x ≤ w → bit_or x 0 ≡ x
bit_or-zero_fuel w zero h = refl
bit_or-zero_fuel zero (suc x) h = absurd (omega arith)
bit_or-zero_fuel (suc w) (suc x) h =
    omega (arith, bit_or_step (suc x) 0, bit_or-zero_fuel w (suc x / 2) (omega arith))

pub bit_or-zero : (x : ℕ) → bit_or x 0 ≡ x
bit_or-zero x = bit_or-zero_fuel x x (omega arith)

bit_and-le_fuel : (w x y : ℕ) → x ≤ w → bit_and x y ≤ x
bit_and-le_fuel w zero y h = omega (arith, zero-bit_and y)
bit_and-le_fuel zero (suc x) y h = absurd (omega arith)
bit_and-le_fuel (suc w) (suc x) y h =
    omega (arith, bit_and_step (suc x) y, bit_and-le_fuel w (suc x / 2) (y / 2) (omega arith))

pub bit_and-le : (x y : ℕ) → bit_and x y ≤ x
bit_and-le x y = bit_and-le_fuel x x y (omega arith)

pub bit-and_not : (x y i : ℕ) → bit (and_not x y) i ≡ bit x i - bit y i
bit-and_not x y zero = omega (arith, bit_and_step x y, bit_and-le (x / 2) (y / 2))
bit-and_not x y (suc i) =
    let half : (x - bit_and x y) / 2 ≡ x / 2 - bit_and (x / 2) (y / 2) =
      omega (arith, bit_and_step x y, bit_and-le (x / 2) (y / 2)) in
    rw half (bit-and_not (x / 2) (y / 2) i)

pub bit-zero : (i : ℕ) → bit 0 i ≡ 0
bit-zero zero = refl
bit-zero (suc i) = bit-zero i

-- A power of two has one bit.
pub bit-pow_self : (v : ℕ) → bit (2 ^ v) v ≡ 1
bit-pow_self zero = refl
bit-pow_self (suc v) =
    let half : 2 ^ suc v / 2 ≡ 2 ^ v = omega (arith, pow-suc 2 v) in rw half (bit-pow_self v)

pub bit-pow_ne : (v i : ℕ) → v ≢ i → bit (2 ^ v) i ≡ 0
bit-pow_ne zero zero h = absurd (h refl)
bit-pow_ne zero (suc i) h = bit-zero i
bit-pow_ne (suc v) zero h = omega (arith, pow-suc 2 v)
bit-pow_ne (suc v) (suc i) h =
    let half : 2 ^ suc v / 2 ≡ 2 ^ v = omega (arith, pow-suc 2 v) in
    rw half (bit-pow_ne v i (λ e. h (ap suc e)))

times_power : (t n : ℕ) → t * 2 ^ suc n ≡ 2 * (t * 2 ^ n)
times_power t n = let scaled = ap (λ (power : ℕ). t * power) (pow-suc 2 n) in omega (arith, scaled)

-- `n & (1 << i)` keeps bit `i` in its place.
pub bit_and_pow : (w i : ℕ) → bit_and w (2 ^ i) ≡ bit w i * 2 ^ i
bit_and_pow w zero = omega (arith, bit_and_step w 1, bit_and-zero (w / 2))
bit_and_pow w (suc i) = omega (
  arith,
  pow-suc 2 i,
  bit_and_step w (2 ^ suc i),
  ap (λ (t : ℕ). bit_and (w / 2) t)
      (let e : 2 ^ suc i / 2 ≡ 2 ^ i = omega (arith, pow-suc 2 i) in e),
  bit_and_pow (w / 2) i,
  times_power (bit (w / 2) i) i,
)

-- `x | (t << n)` is a sum when `x` has no bit from `n` on.
pub bit_or-disjoint : (n x t : ℕ) → x < 2 ^ n → bit_or x (t * 2 ^ n) ≡ x + t * 2 ^ n
bit_or-disjoint zero x t h =
    let e : x ≡ 0 = omega arith in rw e (omega (arith, zero-bit_or (t * 1)))
bit_or-disjoint (suc n) x t h =
    let smaller = bit_or-disjoint n (x / 2) t (omega (arith, pow-suc 2 n)) in
    ground (arith, pow-suc 2 n, times_power t n, bit_or_step x (t * 2 ^ suc n), smaller)

-- The masks 1, 7 and 0x7f are remainders: one step for each digit of the mask.
pub bit_and-one : (x : ℕ) → bit_and x 1 ≡ x % 2
bit_and-one x = omega (arith, bit_and_step x 1, bit_and-zero (x / 2))

pub bit_and_seven : (x : ℕ) → bit_and x 7 ≡ x % 8
bit_and_seven x = omega (arith, bit_and_step x 7, bit_and_step (x / 2) 3, bit_and-one (x / 2 / 2))

pub bit_and_low7 : (x : ℕ) → bit_and x 0x7f ≡ x % 128
bit_and_low7 x = omega (
  arith,
  bit_and_step x 0x7f,
  bit_and_step (x / 2) 0x3f,
  bit_and_step (x / 2 / 2) 0x1f,
  bit_and_step (x / 2 / 2 / 2) 0xf,
  bit_and_seven (x / 2 / 2 / 2 / 2),
)
