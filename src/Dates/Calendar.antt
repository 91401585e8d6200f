-- ===== src/Dates/Calendar.antt =====
-- The Gregorian calendar, and the day numbers of DateTime.cpp on natural numbers: years from March,
-- split into centuries.
use firebird_odbc_driver.Base.{
  ℕ, ◌+◌, ◌-◌, ◌*◌, ◌/◌, ◌%◌, ◌≤◌, ◌<◌, ◌≡◌, ◌≢◌, ◌⊎◌, Bool, not, ◌&&◌, ◌||◌, arith, ◌==◌,
  if◌then◌else◌,
}

unfoldable pub is_leap : ℕ → Bool
is_leap y = y % 4 == 0 && (not (y % 100 == 0) || y % 400 == 0)

-- The days of a month from 1 to 12.
unfoldable pub days_in_month : ℕ → ℕ → ℕ
days_in_month y m =
    if m == 2
    then (if is_leap y then 29 else 28)
    else if m == 4 || m == 6 || m == 9 || m == 11
    then 30
    else 31

pub record IsDate (y m d : ℕ) : Type 0 where
  pub year_in : 1 ≤ y
  pub month_in : (1 ≤ m) × (m ≤ 12)
  pub day_in : (1 ≤ d) × (d ≤ days_in_month y m)

-- Days before a month counted from March, 0 to 11.
abbrev pub before_month : ℕ → ℕ
before_month m = (153 * m + 2) / 5

-- The day number of day `d` of month `m` from March of year `a` of century `c`.
unfoldable pub day_number : (c a m d : ℕ) → ℕ
day_number c a m d = 146097 * c / 4 + 1461 * a / 4 + before_month m + d

-- The day of the year from March, from 0, is within the year: 365 only where the next year leaps.
abbrev pub InYear : (c a p : ℕ) → Type 0
InYear c a p = (p ≤ 364) ⊎ ((p ≡ 365) × (a % 4 ≡ 3) × ((a ≢ 99) ⊎ (c % 4 ≡ 3)))

module _ (c a m d : ℕ) (a_in : a < 100) (d_in : 1 ≤ d)
    (year : InYear c a (before_month m + d - 1)) where
  pub century_of : (4 * day_number c a m d - 1) / 146097 ≡ c
  unfolding day_number
  century_of = ground arith

  pub day_of_century :
      (4 * day_number c a m d - 1 - 146097 * c) / 4 ≡ 1461 * a / 4 + (before_month m + d - 1)
  unfolding day_number
  day_of_century = ground arith

  pub year_of : (4 * (1461 * a / 4 + (before_month m + d - 1)) + 3) / 1461 ≡ a
  year_of = ground arith

  pub day_of_year :
      (4 * (1461 * a / 4 + (before_month m + d - 1)) + 3 - 1461 * a + 4) / 4 ≡ before_month m + d
  day_of_year = ground arith
