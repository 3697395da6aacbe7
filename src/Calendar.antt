-- ===== src/Calendar.antt =====
-- src/kernel/time.c and the bcd functions of src/lib/stdlib.c: seconds since 1970 and calendar dates.
-- The fields of `tm` are ints that are not negative here; `time_t` is a `u32`.
-- Months are 1 to 12 and years below 70 those from 2000 on, as `mktime`, `localtime` and the clock have
-- them. `tm_isdst` and the century, which nothing here reads, are left out.
pub mod Days
mod Tests
use polaris_os.Prelude.{
  ltb, leb, ◌==◌, if◌then◌else◌, get_elem?, ◌>>=◌, ◌>>◌, ℕ, zero, suc, ◌+◌, ◌-◌, ◌*◌, ◌/◌, ◌%◌, ◌^◌,
  Bool, not, ◌&&◌, ◌||◌, Option, some, List, [], ◌∷◌,
}

pub record Tm : Type 0 where
  pub tm_sec : ℕ
  pub tm_min : ℕ
  pub tm_hour : ℕ
  pub tm_mday : ℕ
  pub tm_mon : ℕ
  pub tm_year : ℕ
  pub tm_wday : ℕ
  pub tm_yday : ℕ

-- The days of a leap year before each month, from 1 on.
abbrev pub month : List ℕ
month = 0 ∷ 0 ∷ 31 ∷ 60 ∷ 91 ∷ 121 ∷ 152 ∷ 182 ∷ 213 ∷ 244 ∷ 274 ∷ 305 ∷ 335 ∷ []

unfoldable pub bcd_to_bin : ℕ → ℕ
bcd_to_bin value = (value % 16 + value / 16 * 10) % 256

unfoldable pub bin_to_bcd : ℕ → ℕ
bin_to_bcd value = (value / 10 * 16 + value % 10) % 256

-- For the years from 1970 on, which are those that `localtime` asks for.
unfoldable pub elapsed_leap_years : ℕ → ℕ
elapsed_leap_years year = (year - 1) / 4 - (year - 1) / 100 + (year + 299) / 400 - (1970 - 1900) / 4

unfoldable pub is_leap_year : ℕ → Bool
is_leap_year year = ((year % 4 == 0) && not (year % 100 == 0)) || ((year + 1900) % 400 == 0)

-- The loop of `localtime`, on the months left; `month[mon] - offset > yday` on ints.
unfoldable pub month_loop : (left : ℕ) → (offset yday mon : ℕ) → Option ℕ
month_loop zero offset yday mon = some mon
month_loop (suc left) offset yday mon = do
  days ← get_elem? month mon
  let rest = month_loop left offset yday (mon + 1)
  if ltb (yday + offset) days then some mon else rest

unfoldable pub localtime : ℕ → Option Tm
localtime stamp = do
  let days = stamp / 60 / 60 / 24
  let years = days / 365 + 70
  let offset = if is_leap_year years then 0 else 1
  let days' = (days + 2 ^ 32 - elapsed_leap_years years) % 2 ^ 32
  let yday = days' % (366 - offset)
  mon ← month_loop 12 offset yday 1
  before ← get_elem? month (mon - 1)
  some (record {
    tm_sec = stamp % 60;
    tm_min = stamp / 60 % 60;
    tm_hour = stamp / 60 / 60 % 24;
    tm_mday = yday + offset + 1 - before;
    tm_mon = mon - 1;
    tm_year = years;
    tm_wday = (days + 4) % 7;
    tm_yday = yday;
  })

-- Years of two digits below 70 are those from 2000 on.
abbrev pub since_1970 : ℕ → ℕ
since_1970 tm_year = if leb 70 tm_year then tm_year - 70 else tm_year + 100 - 70

-- One day less from March on, where the year is no leap year.
abbrev pub no_leap_day : Tm → Bool
no_leap_day time = ltb 2 time.tm_mon && not ((since_1970 time.tm_year + 2) % 4 == 0)

unfoldable pub mktime : Tm → Option ℕ
mktime time = do
  let year = since_1970 time.tm_year
  before ← get_elem? month time.tm_mon
  let res = (31536000 * year + 86400 * ((year + 1) / 4) + before * 86400) % 2 ^ 32
  let res' = if no_leap_day time then (res + 2 ^ 32 - 86400) % 2 ^ 32 else res
  let days = (res' + 86400 * (time.tm_mday + 2 ^ 32 - 1)) % 2 ^ 32
  some ((days + 3600 * time.tm_hour + 60 * time.tm_min + time.tm_sec) % 2 ^ 32)

unfoldable pub get_yday : Tm → Option ℕ
get_yday time = do
  before ← get_elem? month time.tm_mon
  some (if no_leap_day time then before + time.tm_mday - 1 else before + time.tm_mday)

-- `time_read` on what it has read from the clock.
unfoldable pub time_read : Tm → Option Tm
time_read raw = do
  let time = record raw {
    tm_sec = bcd_to_bin raw.tm_sec;
    tm_min = bcd_to_bin raw.tm_min;
    tm_hour = bcd_to_bin raw.tm_hour;
    tm_wday = bcd_to_bin raw.tm_wday;
    tm_mday = bcd_to_bin raw.tm_mday;
    tm_mon = bcd_to_bin raw.tm_mon;
    tm_year = bcd_to_bin raw.tm_year;
  }
  yday ← get_yday time
  some (record time { tm_yday = yday })
