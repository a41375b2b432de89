-- ===== src/Calendar/Months.antt =====
-- The months of `gmtime_r` and `_mktime`, and the leap years of the two.
use etaos.Prelude.{
  ℕ, zero, suc, ◌+◌, ◌-◌, ◌*◌, ◌%◌, ◌≤◌, ◌<◌, ◌≡◌, refl, inl, inr, Bool, true, false, ◌&&◌,
  if◌then◌else◌, ◌==◌, ltb, leb, arith, Bool-cases, ℕ_discrete, subst, dec_lt,
}
use etaos.Calendar.{days_before, is_leap_year, find_month, days_to_year}

-- The month `m` is the one that the day `yday` of a year is in.
abbrev pub InMonth : Bool → ℕ → ℕ → Type 0
InMonth leap yday m = (m < 12) × (days_before leap m ≤ yday) × (yday < days_before leap (m + 1))

find_month-from :
    (leap : Bool) (yday fuel m : ℕ)
    → 0 < m
    → m + fuel ≡ 13
    → 0 < fuel
    → days_before leap (m - 1) ≤ yday
    → yday < days_before leap 12
    → InMonth leap yday (find_month leap yday fuel m - 1)
unfolding find_month
find_month-from leap yday zero m p e z h k = absurd (omega arith)
find_month-from leap yday (suc fuel) m p e z h k =
    elim (Bool-cases (leb (days_before leap m) yday)) [
      | inl later ↦ elim (ℕ_discrete fuel 0) [
        | yes last ↦
            let twelve : m ≡ 12 = omega arith in
            let late = subst (λ x. leb (days_before leap x) yday ≡ true) twelve later in
            absurd (too_late late k)
        | no more ↦
            rw (later, find_month)
              (find_month-from leap yday fuel (m + 1) (omega arith) (omega arith) (omega arith)
                (subst (λ x. days_before leap x ≤ yday) (back m) (reached later)) k)
      ]
      | inr here ↦
          rw (here, find_month)
            (omega arith, h, subst (λ x. yday < days_before leap x) (again m p) (passed here))
    ]
  where
    too_late : leb (days_before leap 12) yday ≡ true → yday < days_before leap 12 → ⊥
    too_late a b = ground arith

    reached : leb (days_before leap m) yday ≡ true → days_before leap m ≤ yday
    reached a = ground arith

    passed : leb (days_before leap m) yday ≡ false → yday < days_before leap m
    passed a = ground arith

    back : (x : ℕ) → x ≡ x + 1 - 1
    back x = omega arith

    again : (x : ℕ) → 0 < x → x ≡ x - 1 + 1
    again x q = omega arith

pub find_month-InMonth :
    (leap : Bool) (yday : ℕ)
    → yday < 365 + (if leap then 1 else 0)
    → InMonth leap yday (find_month leap yday 12 1 - 1)
unfolding days_before
find_month-InMonth leap yday h =
    find_month-from leap yday 12 1 (omega arith) refl (omega arith) (ground arith) (ground arith)

-- From 1970 to 2099 every fourth year is a leap year.
pub is_leap_year_lem : (y : ℕ) → 70 ≤ y → y < 200 → is_leap_year y ≡ (y % 4 == 0)
unfolding is_leap_year
is_leap_year_lem y p q = ground arith

-- The days before a month, as `_mktime` computes them.
pub days_before_late :
    (leap : Bool) (m : ℕ)
    → m < 12
    → days_before false m + (if leap && ltb 1 m then 1 else 0) ≡ days_before leap m
unfolding days_before
days_before_late leap m h = ground arith

days_before_mono :
    (leap : Bool) (m m' : ℕ) → m ≤ m' → m' ≤ 12 → days_before leap m ≤ days_before leap m'
unfolding days_before
days_before_mono leap m m' p q = ground arith

-- A day is in one month only.
pub InMonth-unique :
    (leap : Bool) (yday m m' : ℕ) → InMonth leap yday m → InMonth leap yday m' → m ≡ m'
InMonth-unique leap yday m m' (a, b, c) (a', b', c') = elim (dec_lt m m') [
  | yes h ↦ absurd (omega (arith, days_before_mono leap (m + 1) m' (omega arith) (omega arith)))
  | no h ↦ elim (dec_lt m' m) [
    | yes h' ↦ absurd (omega (arith, days_before_mono leap (m' + 1) m (omega arith) (omega arith)))
    | no h' ↦ omega arith
  ]
]

-- A time is in one year only.
pub year_unique :
    (y y' r r' : ℕ)
    → 70 ≤ y
    → 70 ≤ y'
    → r < (365 + (if y % 4 == 0 then 1 else 0)) * 86400
    → r' < (365 + (if y' % 4 == 0 then 1 else 0)) * 86400
    → days_to_year y * 86400 + r ≡ days_to_year y' * 86400 + r'
    → y ≡ y'
unfolding days_to_year
year_unique y y' r r' a a' b b' e = ground arith
