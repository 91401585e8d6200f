-- ===== src/Dates/YearDay.antt =====
-- `yday` of IscDbc/DateTime.cpp against `encodeDate`.
use firebird_odbc_driver.Base.{
  ℕ, ◌+◌, ◌-◌, ◌*◌, ◌/◌, ◌≤◌, ◌<◌, ◌≡◌, inl, inr, true, not, ◌&&◌, ◌||◌, arith, ltb, ◌==◌,
  if◌then◌else◌, Bool-cases,
}
use firebird_odbc_driver.Base.Int.{
  pos, pos_part, neg_part, ◌+ℤ◌, ◌-ℤ◌, eq_of_parts, +ℤ_parts, -ℤ_parts,
}
use firebird_odbc_driver.Dates.{Tm, rem, encode_date, yday}
use firebird_odbc_driver.Dates.Calendar.{is_leap, days_in_month, IsDate, before_month, day_number}
use firebird_odbc_driver.Dates.Shift.{+ℤ-pos, -ℤ-pos, *ℤ-pos, quot-pos, to_short-pos, -ℤ-+ℤ, day-le}
use firebird_odbc_driver.Dates.Decode.{on_date, date_number, from_base, encode_date-on_date}

-- The day of the year from 0, of a date of the calendar.
unfoldable pub year_day : (y m d : ℕ) → ℕ
year_day y m d =
    let day = (214 * (m - 1) + 3) / 7 + d - 1 in
    if ltb m 3 then day else if is_leap y then day - 1 else day - 2

-- The first of March is day 59 or 60 of the year.
march-first :
    (y : ℕ) → 1 ≤ y → date_number y 3 1 ≡ date_number y 1 1 + (if is_leap y then 60 else 59)
unfolding day_number is_leap
march-first y h = ground arith

-- From March on, the days before a month of the year, counted in both ways.
months-agree : (m : ℕ) → 3 ≤ m → m ≤ 12 → before_month (m - 3) + 61 ≡ (214 * (m - 1) + 3) / 7
months-agree m a b = omega arith

early-number :
    (y m d : ℕ)
    → 1 ≤ m
    → m < 3
    → 1 ≤ d
    → date_number y m d ≡ date_number y 1 1 + ((214 * (m - 1) + 3) / 7 + d - 1)
unfolding day_number
early-number y m d a b one = ground arith

number-march :
    (y m d : ℕ)
    → 3 ≤ m
    → 1 ≤ d
    → date_number y m d + 1 ≡ date_number y 3 1 + before_month (m - 3) + d
unfolding day_number
number-march y m d h one = let late : ltb 2 m ≡ true = ground arith in rw late (omega arith)

pub year_day-number :
    (y m d : ℕ) → IsDate y m d → date_number y m d ≡ date_number y 1 1 + year_day y m d
unfolding year_day
year_day-number y m d v = elim (Bool-cases (ltb m 3)) [
  | inl early ↦ rw early (early-number y m d v.month_in.0 (ground arith) v.day_in.0)
  | inr late ↦
      let march = march-first y v.year_in in
      let agree = months-agree m (ground arith) v.month_in.1 in
      let number = number-march y m d (ground arith) v.day_in.0 in
      rw late (elim (Bool-cases (is_leap y)) [
        | inl leap ↦ rw leap (ground (arith, march, agree, number))
        | inr common ↦ rw common (ground (arith, march, agree, number))
      ])
]

-- The tests of `yday`, on a day of the year of a leap year.
tests_of_yday :
    (y m day : ℕ)
    → 1 ≤ m
    → (3 ≤ m → 2 ≤ day)
    → (let zero_at = λ (n : ℕ). pos_part (rem (pos y) n) == 0 && neg_part (rem (pos y) n) == 0 in
        if ltb (m - 1 + 0) (2 + 0)
        then pos day
        else if zero_at 4 && not (zero_at 100) || zero_at 400
        then pos day -ℤ pos 1
        else pos day -ℤ pos 2)
      ≡ pos (if ltb m 3 then day else if is_leap y then day - 1 else day - 2)
unfolding rem is_leap ◌-ℤ◌
tests_of_yday y m day h late = elim (Bool-cases (ltb m 3)) [
  | inl early ↦ ground arith
  | inr after ↦ let two = late (ground arith) in ground arith
]

yday-year_day :
    (y m d : ℕ) (times : Tm)
    → IsDate y m d
    → y < 32768
    → yday (on_date y m d times) ≡ pos (year_day y m d)
unfolding yday year_day is_leap rem
yday-year_day y m d times v small =
    let lt = day-le y m d v in
    rw (-ℤ-+ℤ y 1900) (
      rw (to_short-pos y small) (
        rw (-ℤ-pos m 1 v.month_in.0) (
          rw (to_short-pos (m - 1) (omega (arith, v.month_in))) (
            rw (*ℤ-pos 214 (m - 1)) (
              rw (+ℤ-pos (214 * (m - 1)) 3) (
                rw (quot-pos (214 * (m - 1) + 3) 7) (
                  rw (+ℤ-pos ((214 * (m - 1) + 3) / 7) d) (
                    rw (-ℤ-pos ((214 * (m - 1) + 3) / 7 + d) 1 (omega (arith, v.day_in))) (
                      rw
                        (to_short-pos ((214 * (m - 1) + 3) / 7 + d - 1) (omega (arith, v.month_in)))
                        (tests_of_yday y m ((214 * (m - 1) + 3) / 7 + d - 1) v.month_in.0
                          (λ late. omega (arith, v.day_in))))))))))))

first-IsDate : (y : ℕ) → 1 ≤ y → IsDate y 1 1
unfolding days_in_month
first-IsDate y h = ground arith

from_base-add : (a b : ℕ) → from_base (a + b) ≡ from_base a +ℤ pos b
from_base-add a b = eq_of_parts (from_base (a + b)) (from_base a +ℤ pos b) (
    omega (
      arith,
      -ℤ_parts (pos (a + b) +ℤ pos 1721119) (pos 2400001),
      +ℤ_parts (pos (a + b)) (pos 1721119),
      -ℤ_parts (pos a +ℤ pos 1721119) (pos 2400001),
      +ℤ_parts (pos a) (pos 1721119),
      +ℤ_parts (from_base a) (pos b),
    ))

-- `yday` is the number of days that a date of the calendar stands behind the first of January of its
-- year, which `encodeDate` counts too.
pub yday-encode_date :
    (y m d : ℕ) (times : Tm)
    → IsDate y m d
    → y < 32768
    → encode_date (on_date y m d times)
      ≡ encode_date (on_date y 1 1 times) +ℤ yday (on_date y m d times)
yday-encode_date y m d times v small = rw (encode_date-on_date y m d times v small) (
    rw (encode_date-on_date y 1 1 times (first-IsDate y v.year_in) small) (
      rw (yday-year_day y m d times v small)
        (rw (year_day-number y m d v) (from_base-add (date_number y 1 1) (year_day y m d)))))
