-- ===== src/Calendar/Dst.antt =====
-- When daylight saving time begins and ends, and that the dates kept from the call before are right.
use etaos.Prelude.{
  ℕ, ◌+◌, ◌-◌, ◌*◌, ◌%◌, ◌≤◌, ◌<◌, ◌≡◌, refl, sym, ap, subst, ◌∙◌, inl, inr, Bool, true, false,
  ◌&&◌, Option, none, some, if◌then◌else◌, ltb, leb, arith, Bool-cases, some_inj,
}
use etaos.Calendar.{Tm, days_before, is_leap_year, days_to_year}
use etaos.Calendar.Zone.{
  Transition, Zone, day_ms, day_in_week, transition_day, start_date, march_date, october_date,
  is_year, refresh, ms_of, within_dst, time_isindst,
}

day_in_week_lem :
    (start next past dow : ℕ)
    → start + 28 ≤ next
    → next ≤ start + 31
    → dow < 7
    → start + past + 4 < 32768
    → let day = day_in_week start next past 5 dow in
      ((day + past + 4) % 7 ≡ dow) × (day < next) × (next ≤ day + 7)
unfolding day_in_week
day_in_week_lem start next past dow a b c d = ground arith

month_length :
    (leap : Bool) (month : ℕ)
    → 1 ≤ month
    → month ≤ 12
    → (days_before leap (month - 1) + 28 ≤ days_before leap month)
      × (days_before leap month ≤ days_before leap (month - 1) + 31)
unfolding days_before
month_length leap month a b = ground arith

days_before_small : (leap : Bool) (month : ℕ) → month ≤ 12 → days_before leap (month - 1) ≤ 335
unfolding days_before
days_before_small leap month h = ground (arith, h)

sum_small :
    (year month : ℕ)
    → 70 ≤ year
    → year < 159
    → 1 ≤ month
    → month ≤ 12
    → days_before (is_leap_year year) (month - 1) + days_to_year year + 4 < 32768
unfolding days_to_year
sum_small year month a b c d = omega (arith, a, b, days_before_small (is_leap_year year) month d)

-- From 1970 to 2058 the day is the last of its kind in the month: of that day of the week, not after
-- the month's end, and less than a week before it.
pub transition_day_lem :
    (year month dow : ℕ)
    → 70 ≤ year
    → year < 159
    → 1 ≤ month
    → month ≤ 12
    → dow < 7
    → let leap = is_leap_year year in
      let day = transition_day year month 5 dow in
      ((day + days_to_year year + 4) % 7 ≡ dow)
      × (day < days_before leap month)
      × (days_before leap month ≤ day + 7)
unfolding transition_day
transition_day_lem year month dow a b c d e =
    let leap = is_leap_year year in
    let (p, q) = month_length leap month c d in
    day_in_week_lem (days_before leap (month - 1)) (days_before leap month) (days_to_year year) dow
      p q e (sum_small year month a b c d)

-- Daylight saving time lasts from the first instant to the second, where the first comes on an earlier
-- day.
pub within_dst_lem :
    (t : Tm) (s e : Transition)
    → s.yd < e.yd
    → s.ms < day_ms
    → e.ms < day_ms
    → ms_of t < day_ms
    → let now = t.yday * day_ms + ms_of t in
      within_dst t s e ≡ leb (s.yd * day_ms + s.ms) now && ltb now (e.yd * day_ms + e.ms)
unfolding within_dst
within_dst_lem t s e a b c d = ground arith

-- The dates that are kept are those of the year they are of.
abbrev pub IsKept : Zone → Type 0
IsKept z =
    (y : ℕ)
    → z.dststart.yr ≡ some y
    → z.dstend.yr ≡ some y
    → (z.dststart ≡ march_date y) × (z.dstend ≡ october_date y)

is_year-true : (o : Option ℕ) (y : ℕ) → is_year o y ≡ true → o ≡ some y
is_year-true none y h = ground arith
is_year-true (some x) y h = ground arith

some_year : (x y : ℕ) → ◌≡◌ {A = Option ℕ} (some x) (some y) → x ≡ y
some_year x y h = some_inj x y h

new-IsKept :
    (z : Zone) (y : ℕ) → IsKept (record z { dststart = march_date y; dstend = october_date y })
unfolding march_date start_date
new-IsKept z y x a b = let e = some_year y x a in (ap march_date e, ap october_date e)

refresh_lem :
    (y : ℕ) (z : Zone)
    → IsKept z
    → let z' = refresh y z in
      (z'.dststart ≡ march_date y) × (z'.dstend ≡ october_date y) × IsKept z'
unfolding refresh
refresh_lem y z k = elim (Bool-cases (is_year z.dststart.yr y && is_year z.dstend.yr y)) [
  | inl e ↦
      let (p, q) =
        k y (is_year-true z.dststart.yr y (ground arith))
          (is_year-true z.dstend.yr y (ground arith)) in
      rw (e, refresh) (p, q, k)
  | inr e ↦ rw (e, refresh) (refl, refl, new-IsKept z y)
]

pub time_isindst_lem :
    (t : Tm) (z : Zone)
    → IsKept z
    → z.daylight ≡ true
    → ((time_isindst t z).0 ≡ within_dst t (march_date t.year) (october_date t.year))
      × IsKept (time_isindst t z).1
unfolding time_isindst
time_isindst_lem t z k d =
    let z' = refresh t.year z in
    let (p, q, k') = refresh_lem t.year z k in
    let answer : Bool → Bool × Zone =
      λ b. if b then (within_dst t z'.dststart z'.dstend, z') else (false, z) in
    subst
      (λ (r : Bool × Zone).
        (r.0 ≡ within_dst t (march_date t.year) (october_date t.year)) × IsKept r.1)
      (sym (ap answer d))
      (ap (λ s. within_dst t s z'.dstend) p ∙ ap (within_dst t (march_date t.year)) q, k')
