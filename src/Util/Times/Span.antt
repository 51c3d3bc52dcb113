-- ===== src/Util/Times/Span.antt =====
-- times.py: the comparison of datetimes, and timespan.disambiguated.
use whooshy.Common.{
  ℕ, ◌+◌, ◌-◌, Bool, true, false, not, ◌&&◌, ◌||◌, Option, none, some, if◌then◌else◌, ◌==◌, ltb,
  max,
}
use whooshy.Common.Result.{Result, ok, err, attribute_error, overflow_error, ◌>>=◌}
use whooshy.Util.Times.{
  Datetime, monthrange, Adatetime, is_none, copy, floor_adatetime, At, exact, amb, floor, ceil,
  ceil_adatetime, has_no_date, fix, is_ambiguous,
}

-- `a.date() > b.date()`
unfoldable pub date_after : Datetime → Datetime → Bool
date_after a b =
    ltb b.year a.year
    || (a.year == b.year && (ltb b.month a.month || (a.month == b.month && ltb b.day a.day)))

unfoldable pub same_date : Datetime → Datetime → Bool
same_date a b = a.year == b.year && (a.month == b.month && a.day == b.day)

-- `a.time() > b.time()`
unfoldable pub time_after : Datetime → Datetime → Bool
time_after a b =
    ltb b.hour a.hour
    || (a.hour == b.hour
        && (ltb b.minute a.minute
            || (a.minute == b.minute
                && (ltb b.second a.second
                    || (a.second == b.second && ltb b.microsecond a.microsecond)))))

-- `d + timedelta(days=1)`, which raises behind the last day of the year 9999.
unfoldable pub next_day : Datetime → Result Datetime
next_day d =
    if ltb d.day (monthrange d.year d.month)
    then ok (record d { day = d.day + 1 })
    else if ltb d.month 12
    then ok (record d { month = d.month + 1; day = 1 })
    else if ltb d.year 9999
    then ok (record d { year = d.year + 1; month = 1; day = 1 })
    else err overflow_error

unfoldable pub year_of : At → Option ℕ
year_of (exact d) = some d.year
year_of (amb a) = a.year

-- The assignments to attributes, which only an adatetime allows.
unfoldable pub set_year : ℕ → At → Result At
set_year y (exact d) = err attribute_error
set_year y (amb a) = ok (amb (record a { year = some y }))

pub set_day : ℕ → ℕ → At → Result At
set_day m d (exact x) = err attribute_error
set_day m d (amb a) = ok (amb (record a { month = some m; day = some d }))

pub copy_day : At → At → Result At
copy_day (amb a) (amb b) = ok (amb (record b { month = a.month; day = a.day }))
copy_day (exact d) (amb b) = ok (amb (record b { month = some d.month; day = some d.day }))
copy_day _ (exact x) = err attribute_error

-- `replace(year=by, month=bm, day=bd)` of an adatetime.
pub replace_date : Datetime → At → Result At
unfolding copy
replace_date base (exact d) = err attribute_error
replace_date base (amb a) = do
  c ← copy a
  ok (amb (record c { year = some base.year; month = some base.month; day = some base.day }))

-- The dates of both ends: the base date's for two times of day, the year of one end for the other.
pub fill_years : At → At → Datetime → Result (At × At)
unfolding has_no_date replace_date year_of set_year
fill_years start end base =
    if has_no_date start && has_no_date end
    then (do start' ← replace_date base start; end' ← replace_date base end; ok (start', end'))
    else elim (year_of start) [
      | none ↦ elim (year_of end) [
        | none ↦ do
          start' ← set_year base.year start
          end' ← set_year base.year end
          ok (start', end')
        | some y ↦ do start' ← set_year y start; ok (start', end)
      ]
      | some y ↦ elim (year_of end) [
        | none ↦ do end' ← set_year (max y base.year) end; ok (start, end')
        | some z ↦ ok (start, end)
      ]
    ]

-- `not (at.month is None and at.day is None)`
pub has_day : At → Bool
has_day (exact d) = true
has_day (amb a) = not (is_none a.month && is_none a.day)

-- `end.ceil()`: a datetime has no such method.
pub ceil_method : At → Result Datetime
unfolding ceil_adatetime
ceil_method (exact d) = err attribute_error
ceil_method (amb a) = ceil_adatetime a

abbrev pub same_year : Option ℕ → Option ℕ → Bool
same_year none none = true
same_year (some y) (some z) = y == z
same_year _ _ = false

pub fill_days : At → At → Datetime → Result (At × At)
unfolding year_of has_day floor_adatetime ceil_method set_day copy_day time_after
fill_days start end base =
    let from_end = (do
      f ← floor start
      c ← ceil_method end
      start' ← if time_after f c then set_day base.month base.day start else copy_day end start
      ok (start', end)) in
    let from_base = (do end' ← set_day base.month base.day end; ok (start, end')) in
    if same_year (year_of start) (year_of end)
    then (if has_day end && not (has_day start)
        then from_end
        else if has_day start && not (has_day end)
        then from_base
        else ok (start, end))
    else ok (start, end)

abbrev pub year_or_zero : Option ℕ → ℕ
year_or_zero none = 0
year_or_zero (some y) = y

-- Dates out of order: the year that was not given is changed, or the ends are swapped.
unfoldable pub order_dates : Bool → Bool → At → At → Result (At × At)
unfolding floor ceil date_after year_of set_year
order_dates start_was_amb end_was_amb start end = do
  f ← floor start
  c ← ceil end
  let lower_start = (do start' ← set_year (year_or_zero (year_of end) - 1) start; ok (start', end))
  let raise_end = (do end' ← set_year (year_or_zero (year_of start) + 1) end; ok (start, end'))
  let swapped =
      if start_was_amb then lower_start else if end_was_amb then raise_end else ok (end, start)
  if date_after f c then swapped else ok (start, end)

-- On one day, an end before the start is moved to the next day.
unfoldable pub order_times : Datetime → Datetime → Result (Datetime × Datetime)
unfolding same_date time_after next_day
order_times start end =
    if same_date start end && time_after start end
    then (do end' ← next_day end; ok (start, end'))
    else ok (start, end)

unfoldable pub disambiguated : At → At → Datetime → Result (Datetime × Datetime)
unfolding fill_years fill_days order_dates order_times
disambiguated start end base = do
  (start1, end1) ← fill_years start end base
  (start2, end2) ← fill_days start1 end1 base
  (start3, end3) ← order_dates (is_none (year_of start)) (is_none (year_of end)) start2 end2
  s ← floor start3
  e ← ceil end3
  order_times s e

-- adatetime.disambiguated: a datetime, or the two ends of a span.
pub disambiguate_one : Adatetime → Datetime → Result (Datetime × Datetime)
unfolding is_ambiguous fix disambiguated
disambiguate_one a base =
    if is_ambiguous (amb a)
    then disambiguated (amb a) (amb a) base
    else do d ← fix (amb a); elim d [ exact x ↦ ok (x, x) | amb b ↦ err attribute_error ]
