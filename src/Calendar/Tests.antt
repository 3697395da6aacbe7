-- ===== src/Calendar/Tests.antt =====
-- Runs of the functions on dates, and the theorems at them.
use polaris_os.Calendar.{
  Tm, bcd_to_bin, elapsed_leap_years, is_leap_year, month_loop, localtime, mktime, get_yday,
  time_read,
}
use polaris_os.Calendar.Days.{seconds, mktime-seconds}
use polaris_os.Prelude.{◌≡◌, refl, some, arith}

-- The first of March 2000, 12:34:56, as the clock gives it, and read.
abbrev raw : Tm
raw = record {
  tm_sec = 0x56;
  tm_min = 0x34;
  tm_hour = 0x12;
  tm_mday = 1;
  tm_mon = 3;
  tm_year = 0;
  tm_wday = 4;
  tm_yday = 0;
}

abbrev date : Tm
date = record {
  tm_sec = 56;
  tm_min = 34;
  tm_hour = 12;
  tm_mday = 1;
  tm_mon = 3;
  tm_year = 0;
  tm_wday = 4;
  tm_yday = 61;
}

reads : time_read raw ≡ some date
unfolding time_read bcd_to_bin get_yday
reads = refl

epoch : mktime date ≡ some 951914096
unfolding mktime
epoch = refl

-- `localtime` of that time is the last of January: in a leap year it takes the days modulo 366.
back :
    localtime 951914096
    ≡ some (record date { tm_year = 100; tm_mon = 1; tm_mday = 31; tm_wday = 3; tm_yday = 30 })
unfolding localtime month_loop is_leap_year elapsed_leap_years
back = refl

mktime-seconds_example : mktime date ≡ some (seconds date 30 2)
mktime-seconds_example = mktime-seconds date 30 2 (record {
  year = refl;
  years = omega arith;
  mon = refl;
  months = omega arith;
  day = omega arith;
  days = omega arith;
  hours = omega arith;
  minutes = omega arith;
  secs = omega arith;
})
