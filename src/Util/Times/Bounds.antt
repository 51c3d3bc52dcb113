-- ===== src/Util/Times/Bounds.antt =====
-- The lowest and the highest datetime of an adatetime.
use whooshy.Common.{
  ℕ, ◌+◌, ◌-◌, ◌*◌, ◌/◌, ◌%◌, ◌≤◌, ◌<◌, ◌≡◌, refl, sym, true, false, ◌&&◌, Option, none, some,
  arith, leb, le→leb, Bool-cases, Option-cases, inl, inr,
}
use whooshy.Common.Result.{Error, Result, ok, err, value_error}
use whooshy.Util.Times.{
  Datetime, monthrange, date_fits, time_fits, new_datetime, Timedelta, timedelta_to_usecs,
  usecs_to_timedelta, next_days, last_days, Adatetime, or_else, lowest, highest, new_adatetime,
  floor_adatetime, ceil_adatetime,
}
use whooshy.Util.Times.Span.{date_after, time_after}
use whooshy.Util.Times.Filled.{monthrange_bounds, time_filled, AtMost, date_filled, admitted}

-- A number of microseconds is turned into the days, seconds and microseconds it is made of.
pub usecs_to_timedelta-timedelta_to_usecs :
    (td : Timedelta)
    → td.seconds < 86400
    → td.microseconds < 1000000
    → usecs_to_timedelta (timedelta_to_usecs td) ≡ td
unfolding usecs_to_timedelta timedelta_to_usecs
usecs_to_timedelta-timedelta_to_usecs td hs hm =
    let total = td.days * 86400000000 + td.seconds * 1000000 + td.microseconds in
    let whole : total / 86400000000 ≡ td.days = omega arith in
    let rest : (total - td.days * 86400000000) / 1000000 ≡ td.seconds = omega arith in
    let last : total - td.days * 86400000000 - td.seconds * 1000000 ≡ td.microseconds =
      omega arith in
    rw (whole, rest, last) refl

-- next_days and last_days are from 1 to 7, and lead from the one weekday to the other.
pub next_days-weekday :
    (c w : ℕ)
    → c < 7
    → w < 7
    → ((1 ≤ next_days c w) × (next_days c w ≤ 7) × ((c + next_days c w) % 7 ≡ w))
      × ((1 ≤ last_days c w) × (last_days c w ≤ 7) × ((w + last_days c w) % 7 ≡ c))
unfolding next_days last_days
next_days-weekday c w hc hw = ground arith

pub new_datetime_fits :
    (d x : Datetime) → new_datetime d ≡ ok x → (x ≡ d) × (date_fits d ≡ true) × (time_fits d ≡ true)
unfolding new_datetime
new_datetime_fits d x h = elim (Bool-cases (date_fits d && time_fits d)) [
  | inl fits ↦
      let h' = rw fits at h in
      let same : d ≡ x = cc h' in (sym same, ground (arith, fits), ground (arith, fits))
  | inr out ↦ absurd (let bad = rw out at h in cc bad)
]

-- No unit is above that of the other datetime.
pub record Below (f c : Datetime) : Type 0 where
  pub years : f.year ≡ c.year
  pub months : f.month ≤ c.month
  pub days : f.day ≤ c.day
  pub hours : f.hour ≤ c.hour
  pub minutes : f.minute ≤ c.minute
  pub seconds : f.second ≤ c.second
  pub microseconds : f.microsecond ≤ c.microsecond

filled : (o : Option ℕ) (lo hi : ℕ) → lo ≤ hi → or_else o lo ≤ or_else o hi
filled none lo hi h = h
filled (some v) lo hi h = omega arith

-- Where floor and ceil return, they are in order.
pub floor_adatetime-Below :
    (a : Adatetime) (f c : Datetime)
    → floor_adatetime a ≡ ok f
    → ceil_adatetime a ≡ ok c
    → Below f c
unfolding floor_adatetime ceil_adatetime
floor_adatetime-Below a f c hf hc = elim (Option-cases a.year) [
  | inl unknown ↦ absurd (let bad = rw unknown at hf in cc bad)
  | inr (y, known) ↦
      let hf' = rw known at hf in
      let hc' = rw known at hc in
      let (ef, df, tf) = new_datetime_fits (lowest y a) f hf' in
      let (ec, dc, tc) = new_datetime_fits (highest y a) c hc' in
      rw (ef, ec)
        record {
          years = refl;
          months = filled a.month 1 12 (omega arith);
          days =
              filled a.day 1 (monthrange y (or_else a.month 12))
                (omega (arith, (monthrange_bounds y (or_else a.month 12)).0));
          hours = filled a.hour 0 23 (omega arith);
          minutes = filled a.minute 0 59 (omega arith);
          seconds = filled a.second 0 59 (omega arith);
          microseconds = filled a.microsecond 0 999999 (omega arith);
        }
]

pub Below-date_after : (f c : Datetime) → Below f c → date_after f c ≡ false
unfolding date_after
Below-date_after f c b = ground (arith, b.years, b.months, b.days)

pub Below-time_after : (f c : Datetime) → Below f c → time_after f c ≡ false
unfolding time_after
Below-time_after f c b = ground (arith, b.hours, b.minutes, b.seconds, b.microseconds)

floor_adatetime_returns :
    (a : Adatetime) (y : ℕ)
    → new_adatetime a ≡ ok a
    → a.year ≡ some y
    → 1 ≤ y
    → y ≤ 9999
    → AtMost 31 a.day
    → (f c : Datetime) × (floor_adatetime a ≡ ok f) × (ceil_adatetime a ≡ ok c) × Below f c
unfolding floor_adatetime ceil_adatetime new_datetime
floor_adatetime_returns a y h known y1 y2 b =
    let (hm, hd, t1, t2, t3, t4) = admitted a y h known in
    let (dlo, dhi) = date_filled y a.month a.day hm hd b in
    let in_year : (leb 1 y && leb y 9999) ≡ true = rw (le→leb 1 y y1, le→leb y 9999 y2) refl in
    let hours = time_filled a.hour 23 t1 in
    let minutes = time_filled a.minute 59 t2 in
    let seconds = time_filled a.second 59 t3 in
    let micros = time_filled a.microsecond 999999 t4 in
    let hf : floor_adatetime a ≡ ok (lowest y a) =
      rw (known, in_year, dlo, hours.0, minutes.0, seconds.0, micros.0) refl in
    let hc : ceil_adatetime a ≡ ok (highest y a) =
      rw (known, in_year, dhi, hours.1, minutes.1, seconds.1, micros.1) refl in
    (lowest y a, highest y a, hf, hc, floor_adatetime-Below a (lowest y a) (highest y a) hf hc)

-- A year is known, and a datetime can be of this year.
abbrev HasYear : Option ℕ → Type 0
HasYear none = ⊥
HasYear (some y) = (1 ≤ y) × (y ≤ 9999)

-- Without a year both errors are ValueError.
abbrev YearError : Option ℕ → Error → Error → Type 0
YearError none e e' = (e ≡ value_error) × (e' ≡ value_error)
YearError (some y) e e' = Unit

-- What floor and ceil may give for an adatetime: both return, in order, or both raise.
abbrev pub InOrder : Adatetime → Result Datetime → Result Datetime → Type 0
InOrder a (ok f) (ok c) = HasYear a.year × AtMost 31 a.day × Below f c
InOrder a (err e) (err e') = YearError a.year e e' × ¬ (HasYear a.year × AtMost 31 a.day)
InOrder a (ok f) (err e) = ⊥
InOrder a (err e) (ok c) = ⊥

both_return :
    (a : Adatetime) {f c : Datetime} {r r' : Result Datetime}
    → r ≡ ok f
    → r' ≡ ok c
    → HasYear a.year
    → AtMost 31 a.day
    → Below f c
    → InOrder a r r'
both_return a ef ec y d b = rw (ef, ec) (y, d, b)

HasYear_cases : (o : Option ℕ) → Dec (HasYear o)
HasYear_cases none = no (λ x. x)
HasYear_cases (some y) = elim (Bool-cases (leb 1 y && leb y 9999)) [
  | inl h ↦ yes (ground (arith, h))
  | inr h ↦ no (λ b. ground (arith, h, b))
]

AtMost_cases : (hi : ℕ) (o : Option ℕ) → Dec (AtMost hi o)
AtMost_cases hi none = yes tt
AtMost_cases hi (some v) = elim (Bool-cases (leb v hi)) [
  | inl h ↦ yes (ground arith)
  | inr h ↦ no (λ b. ground (arith, h, b))
]

no_such_year : (d : Datetime) → ¬ HasYear (some d.year) → new_datetime d ≡ err value_error
unfolding new_datetime
no_such_year d h = elim (Bool-cases (leb 1 d.year && leb d.year 9999)) [
  | inl y ↦ absurd (h (ground (arith, y)))
  | inr y ↦ rw y refl
]

no_such_day : (d : Datetime) → 31 < d.day → new_datetime d ≡ err value_error
unfolding new_datetime
no_such_day d h = elim (Bool-cases (date_fits d && time_fits d)) [
  | inl fits ↦ absurd (ground (arith, fits, (monthrange_bounds d.year d.month).1))
  | inr out ↦ rw out refl
]

given_day : (o : Option ℕ) (n : ℕ) → ¬ AtMost 31 o → 31 < or_else o n
given_day none n h = absurd (h tt)
given_day (some v) n h = ground (arith, h)

-- For every adatetime that the constructor admits, floor and ceil either both return, and no unit of
-- the lowest datetime is above that of the highest, or both raise. They return if the year is given and
-- from 1 to 9999 and no day above the 31st is given, and raise otherwise: ValueError where no year is
-- given.
pub floor_adatetime-ceil :
    (a : Adatetime) → new_adatetime a ≡ ok a → InOrder a (floor_adatetime a) (ceil_adatetime a)
unfolding floor_adatetime ceil_adatetime
floor_adatetime-ceil a h = elim (Option-cases a.year) [
  | inl unknown ↦ rw unknown ((refl, refl), λ b. b.0)
  | inr (y, known) ↦ elim (HasYear_cases (some y)) [
    | yes in_year ↦ elim (AtMost_cases 31 a.day) [
      | yes in_month ↦
          let (f, c, hf, hc, b) =
            floor_adatetime_returns a y h known in_year.0 in_year.1 in_month in
          both_return a hf hc (rw known in_year) in_month b
      | no late ↦
          rw
            (
              known,
              no_such_day (lowest y a) (given_day a.day _ late),
              no_such_day (highest y a) (given_day a.day _ late),
            )
            (tt, λ b. late b.1)
    ]
    | no other ↦
        rw (known, no_such_year (lowest y a) other, no_such_year (highest y a) other)
          (tt, λ b. other b.0)
  ]
]
