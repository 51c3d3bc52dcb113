-- ===== src/Util/Times/Filled.antt =====
-- The units that an admitted adatetime gives, and those filled in for the others.
use whooshy.Common.{
  ℕ, ◌≤◌, ◌≡◌, refl, Bool, true, false, ◌&&◌, ◌||◌, Option, none, some, arith, ltb, leb, le→leb,
  Bool-cases, inl, inr,
}
use whooshy.Common.Result.{ok}
use whooshy.Util.Times.{monthrange, Adatetime, or_else, is_zero, above, day_out, new_adatetime}

pub monthrange_bounds : (y m : ℕ) → (28 ≤ monthrange y m) × (monthrange y m ≤ 31)
monthrange_bounds y m = ground arith

-- The tests of the constructors on one unit, and on the month and the day.
pub time_filled :
    (o : Option ℕ) (hi : ℕ)
    → above o hi ≡ false
    → (leb (or_else o 0) hi ≡ true) × (leb (or_else o hi) hi ≡ true)
time_filled none hi h = ground arith
time_filled (some v) hi h = ground (arith, h)

abbrev month_day : ℕ → ℕ → ℕ → Bool
month_day y m d = (leb 1 m && leb m 12) && (leb 1 d && leb d (monthrange y m))

abbrev pub AtMost : ℕ → Option ℕ → Type 0
AtMost hi none = Unit
AtMost hi (some v) = v ≤ hi

month_day-true : (y m d : ℕ) → 1 ≤ m → m ≤ 12 → 1 ≤ d → d ≤ monthrange y m → month_day y m d ≡ true
month_day-true y m d m1 m2 d1 d2 =
    rw (le→leb 1 m m1, le→leb m 12 m2, le→leb 1 d d1, le→leb d (monthrange y m) d2) refl

pub date_filled :
    (y : ℕ) (m d : Option ℕ)
    → (is_zero m || above m 12) ≡ false
    → (is_zero d || day_out (some y) m d) ≡ false
    → AtMost 31 d
    → (month_day y (or_else m 1) (or_else d 1) ≡ true)
      × (month_day y (or_else m 12) (or_else d (monthrange y (or_else m 12))) ≡ true)
date_filled y none none hm hd b = ground arith
date_filled y none (some d) hm hd b = ground (arith, hd)
date_filled y (some m) none hm hd b =
    let (lo, hi) = monthrange_bounds y m in
    let m1 : 1 ≤ m = ground (arith, hm) in
    let m2 : m ≤ 12 = ground (arith, hm) in
    (
      month_day-true y m 1 m1 m2 (omega arith) (omega (arith, lo)),
      month_day-true y m (monthrange y m) m1 m2 (omega (arith, lo)) (omega arith),
    )
date_filled y (some m) (some d) hm hd b = elim (Bool-cases (ltb (monthrange y m) d)) [
  | inl out ↦ absurd (let bad = rw out at hd in ground (arith, bad))
  | inr fits ↦
      let m1 : 1 ≤ m = ground (arith, hm) in
      let m2 : m ≤ 12 = ground (arith, hm) in
      let d1 : 1 ≤ d = (let h = rw fits at hd in ground (arith, h)) in
      let in_month = month_day-true y m d m1 m2 d1 (ground (arith, fits)) in (in_month, in_month)
]

neither : (x y : Bool) → (x || y) ≡ false → (x ≡ false) × (y ≡ false)
neither x y h = (ground (arith, h), ground (arith, h))

pub admitted :
    (a : Adatetime) (y : ℕ)
    → new_adatetime a ≡ ok a
    → a.year ≡ some y
    → ((is_zero a.month || above a.month 12) ≡ false)
      × ((is_zero a.day || day_out (some y) a.month a.day) ≡ false)
      × (above a.hour 23 ≡ false)
      × (above a.minute 59 ≡ false)
      × (above a.second 59 ≡ false)
      × (above a.microsecond 999999 ≡ false)
unfolding new_adatetime
admitted a y h known =
    let date = is_zero a.month || above a.month 12 in
    let day = is_zero a.day || day_out a.year a.month a.day in
    let clock =
      (above a.hour 23 || above a.minute 59) || (above a.second 59 || above a.microsecond 999999) in
    elim (Bool-cases (date || (day || clock))) [
      | inl out ↦ absurd (let bad = rw out at h in cc bad)
      | inr fits ↦
          let (h1, h2) = neither date (day || clock) fits in
          let (h3, h4) = neither day clock h2 in
          let (h5, h6) =
            neither (above a.hour 23 || above a.minute 59)
              (above a.second 59 || above a.microsecond 999999) h4 in
          let (h7, h8) = neither (above a.hour 23) (above a.minute 59) h5 in
          let (h9, h10) = neither (above a.second 59) (above a.microsecond 999999) h6 in
          (h1, rw known at h3, h7, h8, h9, h10)
    ]
