-- ===== src/Util/Times.antt =====
-- src/whoosh/util/times.py: points in time of which some units may be unknown, and spans between them.
-- The units are natural numbers, so the tests for negative ones are left out.
pub mod Span
pub mod Filled
pub mod Bounds
pub mod Order
pub mod Runs
use whooshy.Common.{
  ℕ, zero, suc, ◌+◌, ◌-◌, ◌*◌, ◌/◌, ◌%◌, Bool, true, false, not, ◌&&◌, ◌||◌, Option, none, some,
  if◌then◌else◌, ◌==◌, ltb, leb,
}
use whooshy.Common.Result.{Result, ok, err, value_error, time_error, ◌>>=◌}

-- Python's datetime.
pub record Datetime : Type 0 where
  pub year : ℕ
  pub month : ℕ
  pub day : ℕ
  pub hour : ℕ
  pub minute : ℕ
  pub second : ℕ
  pub microsecond : ℕ

abbrev pub is_leap : ℕ → Bool
is_leap y = y % 4 == 0 && (not (y % 100 == 0) || y % 400 == 0)

-- `calendar.monthrange(y, m)[1]`
abbrev pub monthrange : ℕ → ℕ → ℕ
monthrange y m =
    if m == 2
    then (if is_leap y then 29 else 28)
    else if m == 4 || (m == 6 || (m == 9 || m == 11))
    then 30
    else 31

abbrev pub date_fits : Datetime → Bool
date_fits d =
    (leb 1 d.year && leb d.year 9999)
    && ((leb 1 d.month && leb d.month 12) && (leb 1 d.day && leb d.day (monthrange d.year d.month)))

abbrev pub time_fits : Datetime → Bool
time_fits d = (leb d.hour 23 && leb d.minute 59) && (leb d.second 59 && leb d.microsecond 999999)

-- The constructor of datetime. Of a number beyond C's int its error is named ValueError too, where
-- Python raises OverflowError.
pub new_datetime : Datetime → Result Datetime
new_datetime d = if date_fits d && time_fits d then ok d else err value_error

-- relative_days, for the next weekday and for the last one, whose number of days is negative.
pub next_days : ℕ → ℕ → ℕ
next_days current_wday wday = if current_wday == wday then 7 else (wday + 7 - current_wday) % 7

pub last_days : ℕ → ℕ → ℕ
last_days current_wday wday = if current_wday == wday then 7 else (current_wday + 7 - wday) % 7

-- Python's timedelta in its normal form.
pub record Timedelta : Type 0 where
  pub days : ℕ
  pub seconds : ℕ
  pub microseconds : ℕ

pub timedelta_to_usecs : Timedelta → ℕ
timedelta_to_usecs td = td.days * 86400000000 + td.seconds * 1000000 + td.microseconds

-- The timedelta that long_to_datetime adds to the smallest datetime.
pub usecs_to_timedelta : ℕ → Timedelta
usecs_to_timedelta x =
    let days = x / 86400000000 in
    let x1 = x - days * 86400000000 in
    let seconds = x1 / 1000000 in
    record { days = days; seconds = seconds; microseconds = x1 - seconds * 1000000 }

-- The class adatetime.
pub record Adatetime : Type 0 where
  pub year : Option ℕ
  pub month : Option ℕ
  pub day : Option ℕ
  pub hour : Option ℕ
  pub minute : Option ℕ
  pub second : Option ℕ
  pub microsecond : Option ℕ

abbrev pub or_else : Option ℕ → ℕ → ℕ
or_else none d = d
or_else (some v) d = v

abbrev pub is_none : Option ℕ → Bool
is_none none = true
is_none (some v) = false

abbrev pub above : Option ℕ → ℕ → Bool
above none limit = false
above (some v) limit = ltb limit v

abbrev pub is_zero : Option ℕ → Bool
is_zero none = false
is_zero (some v) = v == 0

-- `day > calendar.monthrange(year, month)[1]`, where all three are given.
abbrev pub day_out : Option ℕ → Option ℕ → Option ℕ → Bool
day_out (some y) (some m) (some d) = ltb (monthrange y m) d
day_out _ _ _ = false

-- The constructor.
pub new_adatetime : Adatetime → Result Adatetime
new_adatetime a =
    if (is_zero a.month || above a.month 12)
      || ((is_zero a.day || day_out a.year a.month a.day)
          || ((above a.hour 23 || above a.minute 59)
              || (above a.second 59 || above a.microsecond 999999)))
    then err time_error
    else ok a

pub copy : Adatetime → Result Adatetime
unfolding new_adatetime
copy a = new_adatetime a

-- The lowest values for what is not given, and the highest ones.
abbrev pub lowest : ℕ → Adatetime → Datetime
lowest y a = record {
  year = y;
  month = or_else a.month 1;
  day = or_else a.day 1;
  hour = or_else a.hour 0;
  minute = or_else a.minute 0;
  second = or_else a.second 0;
  microsecond = or_else a.microsecond 0;
}

abbrev pub highest : ℕ → Adatetime → Datetime
highest y a = record {
  year = y;
  month = or_else a.month 12;
  day = or_else a.day (monthrange y (or_else a.month 12));
  hour = or_else a.hour 23;
  minute = or_else a.minute 59;
  second = or_else a.second 59;
  microsecond = or_else a.microsecond 999999;
}

pub floor_adatetime : Adatetime → Result Datetime
unfolding new_datetime
floor_adatetime a = elim a.year [ none ↦ err value_error | some y ↦ new_datetime (lowest y a) ]

pub ceil_adatetime : Adatetime → Result Datetime
unfolding new_datetime
ceil_adatetime a = elim a.year [ none ↦ err value_error | some y ↦ new_datetime (highest y a) ]

-- A datetime or an adatetime.
pub data At : Type 0 where
  exact : Datetime → At
  amb : Adatetime → At

pub floor : At → Result Datetime
unfolding floor_adatetime
floor (exact d) = ok d
floor (amb a) = floor_adatetime a

pub ceil : At → Result Datetime
unfolding ceil_adatetime
ceil (exact d) = ok d
ceil (amb a) = ceil_adatetime a

pub has_no_date : At → Bool
has_no_date (exact d) = false
has_no_date (amb a) = is_none a.year && (is_none a.month && is_none a.day)

pub has_no_time : At → Bool
has_no_time (exact d) = false
has_no_time (amb a) =
    is_none a.hour && (is_none a.minute && (is_none a.second && is_none a.microsecond))

abbrev pub date_ambiguous : Adatetime → Bool
date_ambiguous a = is_none a.year || (is_none a.month || is_none a.day)

abbrev pub time_ambiguous : Adatetime → Bool
time_ambiguous a =
    is_none a.hour || (is_none a.minute || (is_none a.second || is_none a.microsecond))

pub is_ambiguous : At → Bool
is_ambiguous (exact d) = false
is_ambiguous (amb a) = date_ambiguous a || time_ambiguous a

pub is_void : At → Bool
unfolding has_no_date has_no_time
is_void (exact d) = false
is_void (amb a) = has_no_date (amb a) && has_no_time (amb a)

-- `datetime(year=at.year, ...)` of an adatetime that has all units.
pub fix : At → Result At
unfolding is_ambiguous new_datetime
fix (exact d) = ok (exact d)
fix (amb a) = if is_ambiguous (amb a) then ok (amb a) else do
  d ← new_datetime record {
    year = or_else a.year 0;
    month = or_else a.month 0;
    day = or_else a.day 0;
    hour = or_else a.hour 0;
    minute = or_else a.minute 0;
    second = or_else a.second 0;
    microsecond = or_else a.microsecond 0;
  }
  ok (exact d)

-- fill_in with all units, from a datetime.
pub fill_in : At → Datetime → Result At
unfolding new_adatetime fix
fill_in (exact d) basedate = ok (exact d)
fill_in (amb a) basedate = do
  filled ← new_adatetime record {
    year = some (or_else a.year basedate.year);
    month = some (or_else a.month basedate.month);
    day = some (or_else a.day basedate.day);
    hour = some (or_else a.hour basedate.hour);
    minute = some (or_else a.minute basedate.minute);
    second = some (or_else a.second basedate.second);
    microsecond = some (or_else a.microsecond basedate.microsecond);
  }
  fix (amb filled)
