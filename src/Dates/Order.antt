-- ===== src/Dates/Order.antt =====
-- The day numbers of `encodeDate` count the days of the calendar.
use firebird_odbc_driver.Base.{
  ℕ, zero, suc, ◌+◌, ◌-◌, ◌/◌, ◌%◌, ◌≤◌, ◌<◌, ◌≡◌, refl, sym, ap, ◌∙◌, inl, inr, ◌≢◌, true, false,
  arith, ltb, ◌==◌, if◌then◌else◌, Bool-cases,
}
use firebird_odbc_driver.Base.Int.{pos, ◌+ℤ◌, eq_of_parts, +ℤ_parts, -ℤ_parts}
use firebird_odbc_driver.Dates.{Tm, encode_date}
use firebird_odbc_driver.Dates.Calendar.{is_leap, days_in_month, IsDate, before_month, day_number}
use firebird_odbc_driver.Dates.Shift.{shifted_year, shifted_month}
use firebird_odbc_driver.Dates.Decode.{on_date, date_number, from_base, encode_date-on_date}

-- The day after a date of the calendar.
unfoldable pub next_date : (y m d : ℕ) → ℕ × ℕ × ℕ
next_date y m d =
    if ltb d (days_in_month y m)
    then (y, m, d + 1)
    else if ltb m 12
    then (y, m + 1, 1)
    else (y + 1, 1, 1)

next_date-IsDate :
    (y m d : ℕ) → IsDate y m d → IsDate (next_date y m d).0 (next_date y m d).1 (next_date y m d).2
unfolding next_date days_in_month is_leap
next_date-IsDate y m d v = ground arith

february-end :
    (y : ℕ)
    → 1 ≤ y
    → day_number ((y - 1) / 100) ((y - 1) % 100) 11 (if is_leap y then 29 else 28) + 1
      ≡ day_number (y / 100) (y % 100) 0 1
unfolding day_number is_leap
february-end y h = ground arith

february-days : (y : ℕ) → days_in_month y 2 ≡ (if is_leap y then 29 else 28)
unfolding days_in_month
february-days y = refl

december-days : (y : ℕ) → days_in_month y 12 ≡ 31
unfolding days_in_month
december-days y = refl

-- The last day of a month other than February, and the first of the next.
month-end :
    (y m : ℕ)
    → 1 ≤ y
    → 1 ≤ m
    → m < 12
    → m ≢ 2
    → (shifted_year y (m + 1) ≡ shifted_year y m)
      × (shifted_month (m + 1) ≡ shifted_month m + 1)
      × (before_month (shifted_month m) + days_in_month y m ≡ before_month (shifted_month m + 1))
unfolding days_in_month
month-end y m hy hm h12 h2 = elim (Bool-cases (ltb 2 m)) [
  | inl late ↦
      let test : ltb 2 (m + 1) ≡ true = ground arith in
      rw late (rw test (refl, ground arith, ground arith))
  | inr early ↦
      let first : m ≡ 1 = ground arith in
      let test : ltb 2 (m + 1) ≡ false = ground arith in
      rw early (rw test (refl, ground arith, ground arith))
]

-- A day later in the same month of the calendar, or the first day of the next month.
day-later : (c a m d : ℕ) → day_number c a m (d + 1) ≡ day_number c a m d + 1
unfolding day_number
day-later c a m d = omega arith

month-later :
    (c a m d : ℕ)
    → before_month m + d ≡ before_month (m + 1)
    → day_number c a (m + 1) 1 ≡ day_number c a m d + 1
unfolding day_number
month-later c a m d h = omega arith

year-end : (y : ℕ) → date_number (y + 1) 1 1 ≡ date_number y 12 31 + 1
unfolding day_number
year-end y = let back : y + 1 - 1 ≡ y = omega arith in rw back (omega arith)

-- The first day of the next month or year, behind the last day of the month.
more-number :
    (y m d : ℕ)
    → IsDate y m d
    → d ≡ days_in_month y m
    → m < 12
    → date_number y (m + 1) 1 ≡ date_number y m d + 1
more-number y m d v last more = elim (Bool-cases (m == 2)) [
  | inl feb ↦
      let two : m ≡ 2 = ground arith in
      let days : d ≡ (if is_leap y then 29 else 28) =
        last ∙ ap (days_in_month y) two ∙ february-days y in
      rw two (rw days (sym (february-end y v.year_in)))
  | inr other ↦
      let (year, month, day) = month-end y m v.year_in v.month_in.0 more (ground arith) in
      rw year (rw month (month-later _ _ (shifted_month m) d (omega (arith, day))))
]

last-number :
    (y m d : ℕ)
    → IsDate y m d
    → d ≡ days_in_month y m
    → ltb m 12 ≡ false
    → date_number (y + 1) 1 1 ≡ date_number y m d + 1
last-number y m d v last h =
    let twelve : m ≡ 12 = ground arith in
    let days : d ≡ 31 = last ∙ ap (days_in_month y) twelve ∙ december-days y in
    rw twelve (rw days (year-end y))

pub next_date-number :
    (y m d : ℕ)
    → IsDate y m d
    → date_number (next_date y m d).0 (next_date y m d).1 (next_date y m d).2
      ≡ date_number y m d + 1
unfolding next_date
next_date-number y m d v = elim (Bool-cases (ltb d (days_in_month y m))) [
  | inl inside ↦ rw inside (day-later _ _ _ d)
  | inr end ↦ elim (Bool-cases (ltb m 12)) [
    | inl more ↦ rw (end, more) (more-number y m d v (ground arith) (ground arith))
    | inr last ↦ rw (end, last) (last-number y m d v (ground arith) last)
  ]
]

-- The date `n` days after 1858-11-17.
unfoldable pub date_after : ℕ → ℕ × ℕ × ℕ
date_after zero = (1858, 11, 17)
date_after (suc n) = let (y, m, d) = date_after n in next_date y m d

abbrev number_of : ℕ × ℕ × ℕ → ℕ
number_of (y, m, d) = date_number y m d

date_after-IsDate : (n : ℕ) → IsDate (date_after n).0 (date_after n).1 (date_after n).2
unfolding date_after days_in_month
date_after-IsDate zero = ground arith
date_after-IsDate (suc n) = next_date-IsDate _ _ _ (date_after-IsDate n)

date_after-number :
    (n : ℕ) → date_number (date_after n).0 (date_after n).1 (date_after n).2 ≡ 678882 + n
unfolding date_after day_number
date_after-number zero = refl
date_after-number (suc n) =
    next_date-number _ _ _ (date_after-IsDate n) ∙ omega (arith, date_after-number n)

from_base-after : (n : ℕ) → from_base (678882 + n) ≡ pos n
from_base-after n = eq_of_parts (from_base (678882 + n)) (pos n) (
    omega (
      arith,
      -ℤ_parts (pos (678882 + n) +ℤ pos 1721119) (pos 2400001),
      +ℤ_parts (pos (678882 + n)) (pos 1721119),
    ))

-- `encodeDate` counts the days of the Gregorian calendar from 1858-11-17: the date `n` days later
-- has the number `n`, up to the year 32767.
pub encode_date-date_after :
    (n : ℕ) (times : Tm)
    → (date_after n).0 < 32768
    → encode_date (on_date (date_after n).0 (date_after n).1 (date_after n).2 times) ≡ pos n
encode_date-date_after n times small =
    encode_date-on_date _ _ _ times (date_after-IsDate n) small
    ∙ ap from_base (date_after-number n)
    ∙ from_base-after n
