-- ===== src/Util/Times/Runs.antt =====
-- times.py: runs on concrete times.
use whooshy.Common.{◌≡◌, refl, false, none, some}
use whooshy.Common.Result.{ok}
use whooshy.Util.Times.{
  Datetime, Timedelta, Adatetime, new_adatetime, floor_adatetime, ceil_adatetime, amb,
}
use whooshy.Util.Times.Span.{disambiguated}
use whooshy.Util.Times.Bounds.{InOrder, floor_adatetime-ceil}
use whooshy.Util.Times.Order.{is_later, disambiguated-is_later}

abbrev base : Datetime
base = record {
  year = 2010;
  month = 9;
  day = 20;
  hour = 15;
  minute = 16;
  second = 6;
  microsecond = 454000;
}

-- March of a year, and a day in November.
abbrev march_2009 : Adatetime
march_2009 = record {
  year = some 2009;
  month = some 3;
  day = none;
  hour = none;
  minute = none;
  second = none;
  microsecond = none;
}

abbrev november_2 : Adatetime
november_2 = record {
  year = none;
  month = some 11;
  day = some 2;
  hour = none;
  minute = none;
  second = none;
  microsecond = none;
}

abbrev november_start : Datetime
november_start = record {
  year = 2008;
  month = 11;
  day = 2;
  hour = 0;
  minute = 0;
  second = 0;
  microsecond = 0;
}

abbrev march_end : Datetime
march_end = record {
  year = 2009;
  month = 3;
  day = 31;
  hour = 23;
  minute = 59;
  second = 59;
  microsecond = 999999;
}

-- From the second of November to March 2009.
disambiguated_run :
    disambiguated (amb november_2) (amb march_2009) base ≡ ok (november_start, march_end)
unfolding disambiguated
disambiguated_run = refl

disambiguated-is_later_example : is_later november_start march_end ≡ false
disambiguated-is_later_example =
    disambiguated-is_later (amb november_2) (amb march_2009) base (november_start, march_end)
      disambiguated_run

march_2009_admitted : new_adatetime march_2009 ≡ ok march_2009
unfolding new_adatetime
march_2009_admitted = refl

floor_adatetime-ceil_example :
    InOrder march_2009 (floor_adatetime march_2009) (ceil_adatetime march_2009)
floor_adatetime-ceil_example = floor_adatetime-ceil march_2009 march_2009_admitted

abbrev one_week : Timedelta
one_week = record { days = 7; seconds = 86399; microseconds = 999999 }
