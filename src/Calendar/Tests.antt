-- ===== src/Calendar/Tests.antt =====
-- Runs of the calendar, and its theorems at concrete times.
use etaos.Prelude.{◌≡◌, refl, true, false, none, arith}
use etaos.Calendar.{Tm, gmtime, mktime_utc, days_before}
use etaos.Calendar.RoundTrip.{SameDate, mktime_utc-gmtime, gmtime-mktime_utc}
use etaos.Calendar.Zone.{Zone, march_date, localtime}

-- The 29th of February 2016, a Monday, at 12:34:56.
abbrev leap_day : Tm
leap_day = record {
  sec = 56;
  min = 34;
  hour = 12;
  mday = 29;
  mon = 1;
  year = 116;
  wday = 1;
  yday = 59;
  isdst = false;
}

gmtime_runs : gmtime 1456749296 ≡ leap_day
unfolding gmtime
gmtime_runs = refl

mktime_runs : mktime_utc leap_day ≡ 1456749296
unfolding mktime_utc
mktime_runs = refl

-- The 27th of March 2016.
march_runs : (march_date 116).yd ≡ 86
unfolding march_date
march_runs = refl

-- No dates are kept yet.
abbrev fresh : Zone
fresh = record {
  daylight = true;
  east = 3600;
  dststart = record { yr = none; yd = 0; ms = 0 };
  dstend = record { yr = none; yd = 0; ms = 0 };
}

local_runs : (localtime 1468000000 fresh).0.hour ≡ 19
unfolding localtime
local_runs = refl

mktime_utc-gmtime_example : mktime_utc (gmtime 1456749296) ≡ 1456749296
mktime_utc-gmtime_example = mktime_utc-gmtime 1456749296 (omega arith)

gmtime-mktime_utc_example : SameDate leap_day (gmtime (mktime_utc leap_day))
unfolding days_before
gmtime-mktime_utc_example = gmtime-mktime_utc leap_day (
  omega arith,
  omega arith,
  omega arith,
  omega arith,
  omega arith,
  omega arith,
  omega arith,
  omega arith,
)
