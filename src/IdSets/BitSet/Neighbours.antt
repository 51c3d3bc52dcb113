-- ===== src/IdSets/BitSet/Neighbours.antt =====
-- `after`, `first`, `before` and `last` of a BitSet find the nearest member.
use whooshy.Common.{
  ℕ, zero, suc, ◌+◌, ◌-◌, ◌*◌, ◌/◌, ◌%◌, ◌^◌, ◌≤◌, ◌<◌, ◌≡◌, refl, ◌∙◌, bit_and, true, false,
  Option, none, some, List, arith, ltb, leb, ◌==◌, if◌then◌else◌, length, Bool-cases, inl, inr,
  ==_iff,
}
use whooshy.Common.Lists.{get_or}
use whooshy.Common.Result.{ok}
use whooshy.IdSets.BitSet.{contains, after_loop, after, first, before_loop, before, last}
use whooshy.IdSets.BitSet.Members.{contains_beyond, contains_byte, contains_zero_byte}

-- The first member from `i` on, or that there is none.
abbrev pub IsFirst : List ℕ → ℕ → Option ℕ → Type 0
IsFirst bits i none = (j : ℕ) → i ≤ j → contains bits j ≡ false
IsFirst bits i (some k) =
    (i ≤ k) × (contains bits k ≡ true) × ((j : ℕ) → i ≤ j → j < k → contains bits j ≡ false)

-- The last member below `n`, or that there is none.
abbrev pub IsLast : List ℕ → ℕ → Option ℕ → Type 0
IsLast bits n none = (j : ℕ) → j < n → contains bits j ≡ false
IsLast bits n (some k) =
    (k < n) × (contains bits k ≡ true) × ((j : ℕ) → k < j → j < n → contains bits j ≡ false)

widen-IsFirst :
    (bits : List ℕ) (i m : ℕ) (o : Option ℕ)
    → i ≤ m
    → ((j : ℕ) → i ≤ j → j < m → contains bits j ≡ false)
    → IsFirst bits m o
    → IsFirst bits i o
widen-IsFirst bits i m none h gap f = λ j low. elim (Bool-cases (ltb j m)) [
  | inl below ↦ gap j low (ground arith)
  | inr above ↦ f j (ground arith)
]
widen-IsFirst bits i m (some k) h gap (low, is, f) = (
  omega arith,
  is,
  λ j at up. elim (Bool-cases (ltb j m)) [
    | inl below ↦ gap j at (ground arith)
    | inr above ↦ f j (ground arith) up
  ],
)

widen-IsLast :
    (bits : List ℕ) (m n : ℕ) (o : Option ℕ)
    → m ≤ n
    → ((j : ℕ) → m ≤ j → j < n → contains bits j ≡ false)
    → IsLast bits m o
    → IsLast bits n o
widen-IsLast bits m n none h gap f = λ j up. elim (Bool-cases (ltb j m)) [
  | inl below ↦ f j (ground arith)
  | inr above ↦ gap j (ground arith) up
]
widen-IsLast bits m n (some k) h gap (up, is, f) = (
  omega arith,
  is,
  λ j low high. elim (Bool-cases (ltb j m)) [
    | inl below ↦ f j low (ground arith)
    | inr above ↦ gap j (ground arith) high
  ],
)

after_loop-IsFirst :
    (fuel : ℕ) (bits : List ℕ) (bucket i : ℕ)
    → bucket ≡ i / 8
    → i ≤ length bits * 8
    → length bits * 8 < fuel + i
    → (o : Option ℕ) × (after_loop fuel bits bucket i ≡ ok o) × IsFirst bits i o
unfolding after_loop
after_loop-IsFirst zero bits bucket i e room h = absurd (omega arith)
after_loop-IsFirst (suc fuel) bits bucket i e room h = elim (Bool-cases (ltb i (length bits * 8))) [
  | inr out ↦ (none, rw out refl, λ j low. contains_beyond bits j (ground arith))
  | inl within ↦ elim (Bool-cases (get_or bits bucket 0 == 0)) [
    | inl empty ↦
        let (o, run, f) =
          after_loop-IsFirst fuel bits (bucket + 1) ((bucket + 1) * 8) (omega arith) (ground arith)
            (omega arith) in
        (
          o,
          rw (within, empty) run,
          widen-IsFirst bits i ((bucket + 1) * 8) o (omega arith)
              (λ j low up.
                contains_zero_byte bits j
                  (let at : j / 8 ≡ bucket = omega arith in rw at ((==_iff _ 0).0 empty)))
              f,
        )
    | inr full ↦ elim (Bool-cases (bit_and (get_or bits bucket 0) (2 ^ bit_and i 7) == 0)) [
      | inr hit ↦ (
        some i,
        rw (within, full, hit) refl,
        (
          omega arith,
          contains_byte bits i bucket e (ground arith) ∙ rw hit refl,
          λ j low up. absurd (omega arith),
        ),
      )
      | inl miss ↦
          let (o, run, f) =
            after_loop-IsFirst fuel bits (if (i + 1) % 8 == 0 then bucket + 1 else bucket) (i + 1)
              (ground arith) (ground arith) (omega arith) in
          (
            o,
            rw (within, full, miss) run,
            widen-IsFirst bits i (i + 1) o (omega arith)
                (λ j low up.
                  let at : j ≡ i = omega arith in
                  rw at (contains_byte bits i bucket e (ground arith) ∙ rw miss refl))
                f,
          )
    ]
  ]
]

-- `after i` returns the smallest member above `i`, or None if there is none.
pub after-IsFirst :
    (bits : List ℕ) (i : ℕ) → (o : Option ℕ) × (after bits i ≡ ok o) × IsFirst bits (i + 1) o
unfolding after
after-IsFirst bits i = elim (Bool-cases (leb (length bits * 8) i)) [
  | inl out ↦ (none, rw out refl, λ j low. contains_beyond bits j (ground arith))
  | inr within ↦ rw within (
      after_loop-IsFirst (length bits * 8 + 1) bits ((i + 1) / 8) (i + 1) refl (ground arith)
        (omega arith))
]

-- `first` returns the smallest member, or None if there is none.
pub first-IsFirst : (bits : List ℕ) → (o : Option ℕ) × (first bits ≡ ok o) × IsFirst bits 0 o
unfolding first
first-IsFirst bits =
    after_loop-IsFirst (length bits * 8 + 1) bits 0 0 refl (omega arith) (omega arith)

before_loop-IsLast :
    (fuel : ℕ) (bits : List ℕ) (bucket n : ℕ)
    → bucket ≡ (n - 1) / 8
    → n ≤ length bits * 8
    → n < fuel
    → (o : Option ℕ) × (before_loop fuel bits bucket n ≡ ok o) × IsLast bits n o
unfolding before_loop
before_loop-IsLast zero bits bucket n e room h = absurd (omega arith)
before_loop-IsLast (suc fuel) bits bucket n e room h = elim (Bool-cases (ltb 0 n)) [
  | inr out ↦ (none, rw out refl, λ j up. absurd (ground arith))
  | inl within ↦ elim (Bool-cases (get_or bits bucket 0 == 0)) [
    | inl empty ↦
        let (o, run, f) =
          before_loop-IsLast fuel bits (bucket - 1) (bucket * 8) (omega arith) (ground arith)
            (ground arith) in
        (
          o,
          rw (within, empty) run,
          widen-IsLast bits (bucket * 8) n o (ground arith)
              (λ j low up.
                contains_zero_byte bits j
                  (let at : j / 8 ≡ bucket = ground arith in rw at ((==_iff _ 0).0 empty)))
              f,
        )
    | inr full ↦ elim (Bool-cases (bit_and (get_or bits bucket 0) (2 ^ bit_and (n - 1) 7) == 0)) [
      | inr hit ↦ (
        some (n - 1),
        rw (within, full, hit) refl,
        (
          ground arith,
          contains_byte bits (n - 1) bucket e (ground arith) ∙ rw hit refl,
          λ j low up. absurd (omega arith),
        ),
      )
      | inl miss ↦
          let (o, run, f) =
            before_loop-IsLast fuel bits (if (n - 1) % 8 == 0 then bucket - 1 else bucket) (n - 1)
              (ground arith) (omega arith) (ground arith) in
          (
            o,
            rw (within, full, miss) run,
            widen-IsLast bits (n - 1) n o (omega arith)
                (λ j low up.
                  let at : j ≡ n - 1 = omega arith in
                  rw at (contains_byte bits (n - 1) bucket e (ground arith) ∙ rw miss refl))
                f,
          )
    ]
  ]
]

-- `before i` returns the largest member below `i`, or None if there is none.
pub before-IsLast :
    (bits : List ℕ) (i : ℕ) → (o : Option ℕ) × (before bits i ≡ ok o) × IsLast bits i o
unfolding before
before-IsLast bits i = elim (Bool-cases (i == 0)) [
  | inl none_below ↦ (none, rw none_below refl, λ j up. absurd (ground arith))
  | inr some_below ↦ elim (Bool-cases (leb (length bits * 8) i)) [
    | inl out ↦
        let (o, run, f) =
          before_loop-IsLast (length bits * 8 + 1) bits ((length bits * 8 - 1) / 8)
            (length bits * 8) refl (omega arith) (omega arith) in
        (
          o,
          rw (some_below, out) run,
          widen-IsLast bits (length bits * 8) i o (ground arith)
              (λ j low up. contains_beyond bits j (omega arith)) f,
        )
    | inr within ↦
        rw (some_below, within)
          (before_loop-IsLast (length bits * 8 + 1) bits ((i - 1) / 8) i refl (ground arith)
            (ground arith))
  ]
]

-- `last` returns the largest member, or None if there is none.
pub last-IsLast :
    (bits : List ℕ) → (o : Option ℕ) × (last bits ≡ ok o) × IsLast bits (length bits * 8 + 1) o
unfolding last
last-IsLast bits = before-IsLast bits (length bits * 8 + 1)
