-- ===== src/Calendar/Zone.antt =====
-- Daylight saving time and the local time: kernel/time/time.c and lib/crt/localtime.c.
use etaos.Prelude.{
  ℕ, ◌+◌, ◌-◌, ◌*◌, ◌%◌, Bool, true, false, ◌&&◌, ◌||◌, Option, none, some, if◌then◌else◌, ◌==◌,
  ltb, leb,
}
use etaos.Calendar.{Tm, days_before, is_leap_year, days_to_year, gmtime}

-- `struct transitiondate`; the year -1 is `none`.
pub record Transition : Type 0 where
  pub yr : Option ℕ
  pub yd : ℕ
  pub ms : ℕ

-- `_daylight`, the negated `_timezone`, `dststart` and `dstend`.
pub record Zone : Type 0 where
  pub daylight : Bool
  pub east : ℕ
  pub dststart : Transition
  pub dstend : Transition

abbrev pub day_ms : ℕ
day_ms = 86400000

-- CONFIG_DST_BIAS, of its default, in milliseconds and without its minus sign.
abbrev pub bias_ms : ℕ
bias_ms = 3600000

-- The day `dow` of the week `week`, where 5 is the last, of a month that begins with the day `start`
-- of the year and ends before the day `next`, in a year `past` days after 1970. The sum of days is an `int` of
-- 16 bits that wraps, and its remainder is then that of a negative number.
unfoldable pub day_in_week : ℕ → ℕ → ℕ → ℕ → ℕ → ℕ
day_in_week start next past week dow =
    let sum = (start + past + 4) % 65536 in
    let month_dow = sum % 7 in
    let below = (65536 - sum) % 7 in
    let day =
      if leb 32768 sum
      then start + (dow + below) + (week - 1) * 7
      else if leb month_dow dow
      then start + (dow - month_dow) + (week - 1) * 7
      else start + week * 7 - (month_dow - dow) in
    if (week == 5) && leb next day then day - 7 else day

-- `cvtdate` for a day in a month.
unfoldable pub transition_day : ℕ → ℕ → ℕ → ℕ → ℕ
unfolding day_in_week days_before is_leap_year days_to_year
transition_day year month week dow =
    let leap = is_leap_year year in
    day_in_week (days_before leap (month - 1)) (days_before leap month) (days_to_year year) week dow

-- A date of `cvtdate`: a day in a month, or an absolute day.
pub data Day : Type 0 where
  in_month : ℕ → ℕ → Day
  absolute : ℕ → Day

unfoldable pub year_day : ℕ → ℕ → Day → ℕ
unfolding transition_day
year_day year month (in_month week dow) = transition_day year month week dow
year_day year month (absolute date) = days_before (is_leap_year year) (month - 1) + date - 1

-- `cvtdate` for the start of daylight saving time.
unfoldable pub start_date : ℕ → ℕ → Day → ℕ → Transition
unfolding year_day
start_date year month day ms = record { yr = some year; yd = year_day year month day; ms = ms }

-- `cvtdate` for its end, whose date is moved to standard time.
unfoldable pub end_date : ℕ → ℕ → Day → ℕ → Transition
unfolding year_day
end_date year month day ms =
    let yd = year_day year month day in
    if ltb ms bias_ms
    then record { yr = some year; yd = yd - 1; ms = ms + day_ms - bias_ms }
    else if leb day_ms (ms - bias_ms)
    then record { yr = some year; yd = yd + 1; ms = ms - bias_ms - day_ms }
    else record { yr = some year; yd = yd; ms = ms - bias_ms }

-- The last Sunday of March and the last Sunday of October, at two o'clock.
unfoldable pub march_date : ℕ → Transition
unfolding start_date
march_date year = start_date year 3 (in_month 5 0) 7200000

unfoldable pub october_date : ℕ → Transition
unfolding end_date
october_date year = end_date year 10 (in_month 5 0) 7200000

abbrev pub is_year : Option ℕ → ℕ → Bool
is_year none y = false
is_year (some x) y = x == y

-- The dates are computed again if either is of another year.
unfoldable pub refresh : ℕ → Zone → Zone
unfolding march_date october_date
refresh year z =
    if is_year z.dststart.yr year && is_year z.dstend.yr year
    then z
    else record z { dststart = march_date year; dstend = october_date year }

abbrev pub ms_of : Tm → ℕ
ms_of t = 1000 * (t.sec + 60 * t.min + 3600 * t.hour)

-- The comparison with the two dates.
unfoldable pub within_dst : Tm → Transition → Transition → Bool
within_dst t s e =
    let edge = if t.yday == s.yd then leb s.ms (ms_of t) else ltb (ms_of t) e.ms in
    if ltb s.yd e.yd
    then if ltb t.yday s.yd || ltb e.yd t.yday
      then false
      else if ltb s.yd t.yday && ltb t.yday e.yd
      then true
      else edge
    else if ltb t.yday e.yd || ltb s.yd t.yday
    then true
    else if ltb e.yd t.yday && ltb t.yday s.yd
    then false
    else edge

-- `time_isindst`
unfoldable pub time_isindst : Tm → Zone → Bool × Zone
unfolding refresh within_dst
time_isindst t z =
    let z' = refresh t.year z in
    if z.daylight then (within_dst t z'.dststart z'.dstend, z') else (false, z)

-- `localtime_r`
unfoldable pub localtime : ℕ → Zone → Tm × Zone
unfolding gmtime time_isindst
localtime n z =
    let t = gmtime (n + z.east) in
    let r = time_isindst t z in
    if z.daylight && r.0
    then (record (gmtime (n + z.east + 3600)) { isdst = true }, r.1)
    else if z.daylight
    then (t, r.1)
    else (t, z)

-- `time_inc`: the time in seconds, and the milliseconds of the second that runs.
unfoldable pub time_inc : ℕ × ℕ → ℕ × ℕ
time_inc (time, millis) = if millis + 1 == 1000 then (time + 1, 0) else (time, millis + 1)

-- `stime`
unfoldable pub stime : ℕ → ℕ × ℕ → ℕ × ℕ
stime new (time, millis) = (new, millis)
