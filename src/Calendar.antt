-- ===== src/Calendar.antt =====
-- The calendar: lib/crt/gmtime.c, lib/crt/mktime.c, lib/crt/localtime.c and kernel/time/time.c. Times
-- are seconds since 1970, and the fields of `struct tm` are not negative. An `unsigned long` has 32
-- bits, as on AVR.
mod Months
mod RoundTrip
pub mod Zone
mod Dst
mod Tests
use etaos.Prelude.{
  ℕ, zero, suc, ◌+◌, ◌-◌, ◌*◌, ◌/◌, ◌%◌, Bool, true, false, not, ◌&&◌, ◌||◌, if◌then◌else◌, ◌==◌,
  ltb, leb,
}

-- `struct tm`
pub record Tm : Type 0 where
  pub sec : ℕ
  pub min : ℕ
  pub hour : ℕ
  pub mday : ℕ
  pub mon : ℕ
  pub year : ℕ
  pub wday : ℕ
  pub yday : ℕ
  pub isdst : Bool

abbrev pub day_sec : ℕ
day_sec = 86400

abbrev pub year_sec : ℕ
year_sec = 31536000

abbrev pub four_year_sec : ℕ
four_year_sec = 126230400

-- `_days` and `_lpdays`, each entry one more than in the source: the days before month `m`.
unfoldable pub days_before : Bool → ℕ → ℕ
days_before leap m =
    let late = if leap then 1 else 0 in
    if m == 0
    then 0
    else if m == 1
    then 31
    else late
      + (if m == 2
          then 59
          else if m == 3
          then 90
          else if m == 4
          then 120
          else if m == 5
          then 151
          else if m == 6
          then 181
          else if m == 7
          then 212
          else if m == 8
          then 243
          else if m == 9
          then 273
          else if m == 10
          then 304
          else if m == 11
          then 334
          else 365)

-- `is_leap_year`, of a year since 1900.
unfoldable pub is_leap_year : ℕ → Bool
is_leap_year y =
    let year = y + 1900 in ((year % 4 == 0) && not (year % 100 == 0)) || (year % 400 == 0)

-- A year since 1900, whether it is a leap year, and the seconds since it began.
pub record InYear : Type 0 where
  pub year : ℕ
  pub leap : Bool
  pub rest : ℕ

-- The year within four years that begin with the year `y`, after `c` seconds.
unfoldable pub year_in_four : ℕ → ℕ → InYear
year_in_four y c =
    if ltb c year_sec
    then record { year = y; leap = false; rest = c }
    else if ltb (c - year_sec) year_sec
    then record { year = y + 1; leap = false; rest = c - year_sec }
    else if ltb (c - year_sec - year_sec) (year_sec + day_sec)
    then record { year = y + 2; leap = true; rest = c - year_sec - year_sec }
    else record {
      year = y + 3;
      leap = false;
      rest = c - year_sec - year_sec - (year_sec + day_sec);
    }

-- The number of four years is a `uint32_t`, and the product an `unsigned long`.
unfoldable pub split_years : ℕ → InYear
unfolding year_in_four
split_years n =
    let fours = n / four_year_sec % 4294967296 in
    year_in_four (fours * 4 + 70) (n - fours * four_year_sec % 4294967296)

-- The loop over the months, of which there are twelve.
unfoldable pub find_month : Bool → ℕ → ℕ → ℕ → ℕ
unfolding days_before
find_month leap yday zero m = m
find_month leap yday (suc fuel) m =
    let later = find_month leap yday fuel (m + 1) in
    if leb (days_before leap m) yday then later else m

-- `gmtime_r`
unfoldable pub gmtime : ℕ → Tm
unfolding split_years find_month
gmtime n =
    let y = split_years n in
    let yday = y.rest / day_sec in
    let left = y.rest - yday * day_sec in
    let mon = find_month y.leap yday 12 1 - 1 in
    let in_hour = left - left / 3600 * 3600 in
    record {
      sec = in_hour - in_hour / 60 * 60;
      min = in_hour / 60;
      hour = left / 3600;
      mday = yday + 1 - days_before y.leap mon;
      mon = mon;
      year = y.year;
      wday = (n / day_sec + 4) % 7;
      yday = yday;
      isdst = false;
    }

-- The days from 1970 to the year `y`.
unfoldable pub days_to_year : ℕ → ℕ
days_to_year y = (y - 70) * 365 + ((y - 1) / 4 - 17)

-- `_mktime`, for a time that is not before 1970. A month past December counts into the next years.
unfoldable pub mktime_utc : Tm → ℕ
unfolding days_to_year days_before is_leap_year
mktime_utc t =
    let year = t.year + t.mon / 12 in
    let mon = t.mon % 12 in
    let late = if is_leap_year year && ltb 1 mon then 1 else 0 in
    let days = days_to_year year + (days_before false mon + late) + t.mday - 1 in
    ((days * 24 + t.hour) * 60 + t.min) * 60 + t.sec
