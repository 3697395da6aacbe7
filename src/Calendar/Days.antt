-- ===== src/Calendar/Days.antt =====
-- The calendar that `mktime` computes with, against one that counts days.
use polaris_os.Calendar.{
  Tm, month, bcd_to_bin, bin_to_bcd, is_leap_year, since_1970, no_leap_day, mktime,
}
use polaris_os.Prelude.{
  ltb, ◌==◌, if◌then◌else◌, get_elem?, get_or, get_elem?-eq-get_or, ℕ, zero, suc, ◌+◌, ◌-◌, ◌*◌,
  ◌/◌, ◌%◌, ◌^◌, ◌≤◌, ◌<◌, ◌≡◌, refl, sym, ap, ◌∙◌, Bool, true, false, not, ◌&&◌, ◌||◌, some, arith,
}

-- The Gregorian rule.
abbrev pub leap : ℕ → Bool
leap y = (y % 4 == 0) && (not (y % 100 == 0) || (y % 400 == 0))

abbrev pub year_length : ℕ → ℕ
year_length y = if leap y then 366 else 365

abbrev pub month_length : ℕ → ℕ → ℕ
month_length y m =
    if m == 2
    then (if leap y then 29 else 28)
    else if (m == 4) || ((m == 6) || ((m == 9) || (m == 11)))
    then 30
    else 31

-- The days from 1970 to the year `1970 + k`, and those of a year before month `m + 1`.
abbrev pub years_days : ℕ → ℕ
years_days zero = 0
years_days (suc k) = years_days k + year_length (1970 + k)

abbrev pub months_days : ℕ → ℕ → ℕ
months_days y zero = 0
months_days y (suc m) = months_days y m + month_length y (suc m)

-- `is_leap_year` of a year counted from 1900 is the Gregorian rule.
pub is_leap_year-leap : (y : ℕ) → is_leap_year y ≡ leap (1900 + y)
unfolding is_leap_year
is_leap_year-leap y = ground arith

leap_now : (k : ℕ) → k < 130 → leap (1970 + k) ≡ ((k + 2) % 4 == 0)
leap_now k h = ground arith

years_closed : (k : ℕ) → k < 130 → years_days k ≡ 365 * k + (k + 1) / 4
years_closed zero h = refl
years_closed (suc k) h = ground (arith, leap_now k (omega arith), years_closed k (omega arith))

month_read : (m : ℕ) → m < 12 → get_elem? month (suc m) ≡ some (get_or month (suc m) 0)
month_read m h = get_elem?-eq-get_or month (suc m) 0 (omega arith)

-- The table holds the days of a leap year.
month_days :
    (y m : ℕ)
    → m < 12
    → get_or month (suc m) 0 ≡ months_days y m + (if ltb 2 (suc m) && not (leap y) then 1 else 0)
month_days y zero h = refl
month_days y (suc zero) h = ground arith
month_days y (suc (suc zero)) h = ground arith
month_days y (suc (suc (suc zero))) h = ground arith
month_days y (suc (suc (suc (suc zero)))) h = ground arith
month_days y (suc (suc (suc (suc (suc zero))))) h = ground arith
month_days y (suc (suc (suc (suc (suc (suc zero)))))) h = ground arith
month_days y (suc (suc (suc (suc (suc (suc (suc zero))))))) h = ground arith
month_days y (suc (suc (suc (suc (suc (suc (suc (suc zero)))))))) h = ground arith
month_days y (suc (suc (suc (suc (suc (suc (suc (suc (suc zero))))))))) h = ground arith
month_days y (suc (suc (suc (suc (suc (suc (suc (suc (suc (suc zero)))))))))) h = ground arith
month_days y (suc (suc (suc (suc (suc (suc (suc (suc (suc (suc (suc zero))))))))))) h = ground arith
month_days y (suc (suc (suc (suc (suc (suc (suc (suc (suc (suc (suc (suc m)))))))))))) h =
    absurd (omega arith)

-- The seconds since 1970, by counting days.
abbrev pub seconds : Tm → ℕ → ℕ → ℕ
seconds time k m =
    86400 * (years_days k + months_days (1970 + k) m + (time.tm_mday - 1))
    + 3600 * time.tm_hour
    + 60 * time.tm_min
    + time.tm_sec

-- A date and time of the day with no field too large, in month `m + 1` of the year `1970 + k`, until
-- the year 2099.
pub record IsDate (time : Tm) (k m : ℕ) : Type 0 where
  pub year : since_1970 time.tm_year ≡ k
  pub years : k < 130
  pub mon : time.tm_mon ≡ suc m
  pub months : m < 12
  pub day : 0 < time.tm_mday
  pub days : time.tm_mday ≤ 31
  pub hours : time.tm_hour < 24
  pub minutes : time.tm_min < 60
  pub secs : time.tm_sec < 60

months_bound : (y m : ℕ) → months_days y m ≤ 31 * m
months_bound y zero = omega arith
months_bound y (suc m) =
    let longest : month_length y (suc m) ≤ 31 = ground arith in
    omega (arith, months_bound y m, longest)

-- The arithmetic of `mktime`, where `b` says that the table has one day too many.
sum_of :
    (b : Bool) (y q table days mday rest : ℕ)
    → table ≡ days + (if b then 1 else 0)
    → y < 130
    → q ≤ 33
    → days ≤ 372
    → 0 < mday
    → mday ≤ 31
    → rest < 86400
    → ((if b
            then ((31536000 * y + 86400 * q + table * 86400) % 2 ^ 32 + 2 ^ 32 - 86400) % 2 ^ 32
            else (31536000 * y + 86400 * q + table * 86400) % 2 ^ 32)
          + 86400 * (mday + 2 ^ 32 - 1))
        % 2 ^ 32
      ≡ 86400 * (365 * y + q + days + (mday - 1))
sum_of true y q table days mday rest e a b c d f g = omega arith
sum_of false y q table days mday rest e a b c d f g = omega arith

-- `mktime` of such a date, with months from 1 to 12, years from 70 on counted from 1900 and those below
-- 70 from 2000, returns the seconds since 1970, by the Gregorian calendar.
pub mktime-seconds : (time : Tm) (k m : ℕ) → IsDate time k m → mktime time ≡ some (seconds time k m)
unfolding mktime
mktime-seconds time k m d =
    let leaps : ((since_1970 time.tm_year + 2) % 4 == 0) ≡ leap (1970 + k) =
      ap (λ x. (x + 2) % 4 == 0) d.year ∙ sym (leap_now k d.years) in
    let same : no_leap_day time ≡ (ltb 2 (suc m) && not (leap (1970 + k))) =
      ap (λ x. ltb 2 x && not ((since_1970 time.tm_year + 2) % 4 == 0)) d.mon
      ∙ ap (λ b. ltb 2 (suc m) && not b) leaps in
    let table : get_or month (suc m) 0
        ≡ months_days (1970 + k) m + (if no_leap_day time then 1 else 0) =
      month_days (1970 + k) m d.months
      ∙ ap (λ b. months_days (1970 + k) m + (if b then 1 else 0)) (sym same) in
    let rest = 3600 * time.tm_hour + 60 * time.tm_min + time.tm_sec in
    let whole =
      sum_of (no_leap_day time) (since_1970 time.tm_year) ((since_1970 time.tm_year + 1) / 4)
        (get_or month (suc m) 0) (months_days (1970 + k) m) time.tm_mday rest table
        (omega (arith, d.year, d.years)) (omega (arith, d.year, d.years))
        (omega (arith, months_bound (1970 + k) m, d.months)) d.day d.days
        (omega (arith, d.hours, d.minutes, d.secs)) in
    let closed = years_closed k d.years in
    rw (ap (get_elem? month) d.mon ∙ month_read m d.months, whole)
      (ap some (
        omega (
          arith,
          closed,
          d.year,
          d.years,
          d.days,
          d.hours,
          d.minutes,
          d.secs,
          d.months,
          months_bound (1970 + k) m,
        )))

-- A number of two digits survives the way to bcd and back, and so does a bcd byte the other way.
pub bcd_to_bin-bin_to_bcd :
    (n : ℕ)
    → n < 100
    → (bcd_to_bin (bin_to_bcd n) ≡ n)
      × (bin_to_bcd (bcd_to_bin (n / 10 * 16 + n % 10)) ≡ n / 10 * 16 + n % 10)
unfolding bcd_to_bin bin_to_bcd
bcd_to_bin-bin_to_bcd n h = (omega arith, omega arith)
