-- ===== src/Calendar/RoundTrip.antt =====
-- `gmtime_r` and `_mktime` undo each other, from 1970 to 2099.
use etaos.Prelude.{
  ℕ, ◌+◌, ◌-◌, ◌*◌, ◌/◌, ◌%◌, ◌≤◌, ◌<◌, ◌≡◌, refl, sym, ap, subst, ◌∙◌, Bool, if◌then◌else◌, ◌==◌,
  arith,
}
use etaos.Calendar.{
  Tm, days_before, InYear, year_in_four, split_years, gmtime, days_to_year, mktime_utc,
}
use etaos.Calendar.Months.{
  InMonth-unique, year_unique, find_month-InMonth, is_leap_year_lem, days_before_late,
}

-- The first second of 2100.
abbrev pub end_time : ℕ
end_time = 4102444800

-- What the split of a time into a year and a rest amounts to.
abbrev Splits : ℕ → InYear → Type 0
Splits n y =
    (70 ≤ y.year)
    × (y.year < 200)
    × (y.leap ≡ (y.year % 4 == 0))
    × (y.rest < (365 + (if y.leap then 1 else 0)) * 86400)
    × (n ≡ days_to_year y.year * 86400 + y.rest)

split_years_lem : (n : ℕ) → n < end_time → Splits n (split_years n)
unfolding split_years year_in_four days_to_year
split_years_lem n h = ground arith

mktime_utc_lem :
    (t : Tm)
    → t.mon < 12
    → 70 ≤ t.year
    → t.year < 200
    → 1 ≤ t.mday
    → let leap = t.year % 4 == 0 in
      mktime_utc t
      ≡ (days_to_year t.year + days_before leap t.mon + (t.mday - 1)) * 86400
        + t.hour * 3600
        + t.min * 60
        + t.sec
unfolding mktime_utc
mktime_utc_lem t m a b d =
    let year : t.year + t.mon / 12 ≡ t.year = omega arith in
    let mon : t.mon % 12 ≡ t.mon = omega arith in
    let leap = t.year % 4 == 0 in
    rw (year, mktime_utc)
      (rw (mon, mktime_utc)
        (rw (is_leap_year_lem t.year a b, mktime_utc)
          (omega (arith, days_before_late leap t.mon m))))

-- The fields that `gmtime_r` computes from the year and the seconds in it.
gmtime-mktime_fields :
    (n : ℕ)
    → n < end_time
    → let t = gmtime n in
      let y = split_years n in
      (t.mon < 12)
      × (t.year ≡ y.year)
      × (days_before y.leap t.mon + (t.mday - 1) ≡ y.rest / 86400)
      × (1 ≤ t.mday)
      × (y.rest / 86400 * 86400 + t.hour * 3600 + t.min * 60 + t.sec ≡ y.rest)
unfolding gmtime
gmtime-mktime_fields n h =
    let y = split_years n in
    let (a, b, c, d, e) = split_years_lem n h in
    let (p, q, r) = find_month-InMonth y.leap (y.rest / 86400) (omega arith) in
    (p, refl, omega (arith, q), omega (arith, q), omega arith)

-- `_mktime` undoes `gmtime_r` for every time from 1970 to 2099.
pub mktime_utc-gmtime : (n : ℕ) → n < end_time → mktime_utc (gmtime n) ≡ n
mktime_utc-gmtime n h =
    let y = split_years n in
    let t = gmtime n in
    let (a, b, c, d, e) = split_years_lem n h in
    let (m, ye, days, md, secs) = gmtime-mktime_fields n h in
    let leap : (t.year % 4 == 0) ≡ y.leap = ap (λ x. x % 4 == 0) ye ∙ sym c in
    let before = ap (λ b. days_before b t.mon) leap in
    let to_year = ap days_to_year ye in
    mktime_utc_lem t m (omega (arith, a, ye)) (omega (arith, b, ye)) md
    ∙ omega (arith, before, to_year, days, secs, e)

-- A date and a time of day, from 1970 to 2099.
abbrev pub IsDate : Tm → Type 0
IsDate t =
    (70 ≤ t.year)
    × (t.year < 200)
    × (t.mon < 12)
    × (1 ≤ t.mday)
    × (days_before (t.year % 4 == 0) t.mon + t.mday ≤ days_before (t.year % 4 == 0) (t.mon + 1))
    × (t.hour < 24)
    × (t.min < 60)
    × (t.sec < 60)

abbrev pub SameDate : Tm → Tm → Type 0
SameDate t u =
    (u.year ≡ t.year)
    × (u.mon ≡ t.mon)
    × (u.mday ≡ t.mday)
    × (u.hour ≡ t.hour)
    × (u.min ≡ t.min)
    × (u.sec ≡ t.sec)

-- The seconds of a date since its year began.
abbrev in_year : Tm → ℕ
in_year t =
    (days_before (t.year % 4 == 0) t.mon + (t.mday - 1)) * 86400
    + t.hour * 3600
    + t.min * 60
    + t.sec

days_before_year :
    (leap : Bool) (m : ℕ) → m ≤ 12 → days_before leap m ≤ 365 + (if leap then 1 else 0)
unfolding days_before
days_before_year leap m h = ground arith

IsDate-bounds :
    (t : Tm)
    → IsDate t
    → (in_year t < (365 + (if t.year % 4 == 0 then 1 else 0)) * 86400)
      × (mktime_utc t ≡ days_to_year t.year * 86400 + in_year t)
      × (mktime_utc t < end_time)
unfolding days_to_year
IsDate-bounds t (a, b, m, d, e, h, i, s) =
    let leap = t.year % 4 == 0 in
    let top = days_before_year leap (t.mon + 1) (omega arith) in
    let rest : in_year t < (365 + (if leap then 1 else 0)) * 86400 = omega (arith, top) in
    let time = mktime_utc_lem t m a b d in (rest, omega (arith, time), ground (arith, time, rest))

gmtime-time :
    (n : ℕ)
    → n < end_time
    → let t = gmtime n in
      (t.hour < 24)
      × (t.min < 60)
      × (t.sec < 60)
      × (days_before (split_years n).leap t.mon + t.mday
          ≤ days_before (split_years n).leap (t.mon + 1))
unfolding gmtime
gmtime-time n h =
    let y = split_years n in
    let (a, b, c, d, e) = split_years_lem n h in
    let (p, q, r) = find_month-InMonth y.leap (y.rest / 86400) (omega arith) in
    (omega arith, omega arith, omega arith, omega (arith, q, r))

gmtime-IsDate : (n : ℕ) → n < end_time → IsDate (gmtime n)
gmtime-IsDate n h =
    let y = split_years n in
    let t = gmtime n in
    let (a, b, c, d, e) = split_years_lem n h in
    let (m, ye, days, md, secs) = gmtime-mktime_fields n h in
    let (hour, min, sec, last) = gmtime-time n h in
    let leap : y.leap ≡ (t.year % 4 == 0) = c ∙ ap (λ x. x % 4 == 0) (sym ye) in
    (
      omega (arith, a, ye),
      omega (arith, b, ye),
      m,
      md,
      subst (λ l. days_before l t.mon + t.mday ≤ days_before l (t.mon + 1)) leap last,
      hour,
      min,
      sec,
    )

-- Two dates with the same time are the same.
mktime_utc-inj : (t u : Tm) → IsDate t → IsDate u → mktime_utc t ≡ mktime_utc u → SameDate t u
mktime_utc-inj t u v w e =
    let (rt, et, _) = IsDate-bounds t v in
    let (ru, eu, _) = IsDate-bounds u w in
    let (ta, tb, tm, td, te, th, ti, ts) = v in
    let (ua, ub, um, ud, ue, uh, ui, us) = w in
    let year = year_unique t.year u.year (in_year t) (in_year u) ta ua rt ru (sym et ∙ e ∙ eu) in
    let l = t.year % 4 == 0 in
    let same : (u.year % 4 == 0) ≡ l = ap (λ x. x % 4 == 0) (sym year) in
    let before = ap (λ b. days_before b u.mon) same in
    let after = ap (λ b. days_before b (u.mon + 1)) same in
    let to_year = ap days_to_year year in
    let day : days_before l t.mon + (t.mday - 1) ≡ days_before l u.mon + (u.mday - 1) =
      omega (arith, e, et, eu, to_year, before) in
    let month =
      InMonth-unique l (days_before l t.mon + (t.mday - 1)) t.mon u.mon
        (tm, omega arith, omega arith)
        (um, omega (arith, day), omega (arith, day, before, after)) in
    let first = ap (days_before l) month in
    let mday : u.mday ≡ t.mday = omega (arith, day, first) in
    (
      sym year,
      sym month,
      mday,
      omega (arith, e, et, eu, to_year, before, day),
      omega (arith, e, et, eu, to_year, before, day),
      omega (arith, e, et, eu, to_year, before, day),
    )

-- `gmtime_r` gives back the date and the time of day that `_mktime` was given, for every valid date
-- from 1970 to 2099.
pub gmtime-mktime_utc : (t : Tm) → IsDate t → SameDate t (gmtime (mktime_utc t))
gmtime-mktime_utc t v =
    let (_, _, bound) = IsDate-bounds t v in
    let n = mktime_utc t in
    mktime_utc-inj t (gmtime n) v (gmtime-IsDate n bound) (sym (mktime_utc-gmtime n bound))
