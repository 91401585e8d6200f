-- ===== src/Dates/Decode.antt =====
-- `decodeDate` and `encodeDate` of IscDbc/DateTime.cpp on the dates of the calendar.
use firebird_odbc_driver.Base.{
  ℕ, ◌+◌, ◌-◌, ◌*◌, ◌/◌, ◌%◌, ◌≤◌, ◌<◌, ◌≡◌, refl, ap, ◌∙◌, inl, inr, true, false, arith, ltb,
  Bool-cases,
}
use firebird_odbc_driver.Base.Int.{ℤ, pos, ◌+ℤ◌, ◌-ℤ◌, eq_of_parts, +ℤ_parts, -ℤ_parts}
use firebird_odbc_driver.Dates.{
  Tm, to_short, days_from, encode_date, split_century, split_year, split_month, set_date,
  decode_date,
}
use firebird_odbc_driver.Dates.Calendar.{
  IsDate, before_month, day_number, InYear, century_of, day_of_century, year_of, day_of_year,
}
use firebird_odbc_driver.Dates.Shift.{
  +ℤ-pos, -ℤ-pos, *ℤ-pos, quot-pos, to_short-pos, -ℤ-+ℤ, shifted_year, shifted_month, day-fits,
  day-InYear, day-le,
}

-- The fields that stand for the date, in `struct tm`.
abbrev pub on_date : (y m d : ℕ) → Tm → Tm
on_date y m d times = record times {
  tm_mday = pos d;
  tm_mon = pos m -ℤ pos 1;
  tm_year = pos y -ℤ pos 1900;
}

-- The day number of a date of the calendar, from the first day of March of the year 0.
abbrev pub date_number : (y m d : ℕ) → ℕ
date_number y m d =
    let y' = shifted_year y m in day_number (y' / 100) (y' % 100) (shifted_month m) d

days_from-pos :
    (y m d : ℕ)
    → days_from (pos y) (pos m) (pos d)
      ≡ (pos (day_number (y / 100) (y % 100) m d) +ℤ pos 1721119) -ℤ pos 2400001
unfolding days_from day_number
days_from-pos y m d =
    let ya : pos y -ℤ pos (100 * (y / 100)) ≡ pos (y % 100) =
      -ℤ-pos y (100 * (y / 100)) (omega arith) ∙ ap pos (omega arith) in
    simp (*ℤ-pos, +ℤ-pos, quot-pos, ya)

number-positive : (c a m d : ℕ) → 1 ≤ d → 1 ≤ day_number c a m d
unfolding day_number
number-positive c a m d h = omega arith

split_century-pos :
    (n : ℕ)
    → 1 ≤ n
    → split_century (pos n)
      ≡ (pos ((4 * n - 1) / 146097), pos ((4 * n - 1 - 146097 * ((4 * n - 1) / 146097)) / 4))
unfolding split_century
split_century-pos n h =
    let first : pos (4 * n) -ℤ pos 1 ≡ pos (4 * n - 1) = -ℤ-pos (4 * n) 1 (omega arith) in
    let c : ℕ = (4 * n - 1) / 146097 in
    let second : pos (4 * n - 1) -ℤ pos (146097 * c) ≡ pos (4 * n - 1 - 146097 * c) =
      -ℤ-pos (4 * n - 1) (146097 * c) (omega arith) in
    simp (*ℤ-pos, quot-pos, first, second)

split_year-pos :
    (n : ℕ)
    → split_year (pos n)
      ≡ (pos ((4 * n + 3) / 1461), pos ((4 * n + 3 - 1461 * ((4 * n + 3) / 1461) + 4) / 4))
unfolding split_year
split_year-pos n =
    let a : ℕ = (4 * n + 3) / 1461 in
    let second : pos (4 * n + 3) -ℤ pos (1461 * a) ≡ pos (4 * n + 3 - 1461 * a) =
      -ℤ-pos (4 * n + 3) (1461 * a) (omega arith) in
    simp (*ℤ-pos, +ℤ-pos, quot-pos, second)

split_month-pos :
    (m d : ℕ)
    → 1 ≤ d
    → before_month m + d ≤ before_month (m + 1)
    → split_month (pos (before_month m + d)) ≡ (pos m, pos d)
unfolding split_month
split_month-pos m d h fits =
    let n : ℕ = before_month m + d in
    let first : pos (5 * n) -ℤ pos 3 ≡ pos (5 * n - 3) = -ℤ-pos (5 * n) 3 (omega arith) in
    let month : (5 * n - 3) / 153 ≡ m = omega arith in
    let second : pos (5 * n - 3) -ℤ pos (153 * m) ≡ pos (5 * n - 3 - 153 * m) =
      -ℤ-pos (5 * n - 3) (153 * m) (omega arith) in
    let day : (5 * n - 3 - 153 * m + 5) / 5 ≡ d = omega arith in
    simp (*ℤ-pos, +ℤ-pos, quot-pos, first, month, second, day)

-- The number returned for a date, whose base is 1858-11-17.
abbrev pub from_base : ℕ → ℤ
from_base n = (pos n +ℤ pos 1721119) -ℤ pos 2400001

encode-late :
    (y m d : ℕ)
    → 2 < m
    → m ≤ 12
    → days_from (pos y) (to_short (pos m -ℤ pos 3)) (pos d) ≡ from_base (date_number y m d)
encode-late y m d late h =
    let test : ltb 2 m ≡ true = ground arith in
    rw (-ℤ-pos m 3 late)
      (rw (to_short-pos (m - 3) (omega arith)) (rw test (days_from-pos y (m - 3) d)))

encode-early :
    (y m d : ℕ)
    → m ≤ 2
    → 1 ≤ y
    → y < 32768
    → days_from (to_short (pos y -ℤ pos 1)) (to_short (pos m +ℤ pos 9)) (pos d)
      ≡ from_base (date_number y m d)
encode-early y m d early h small =
    let test : ltb 2 m ≡ false = ground arith in
    let year = to_short-pos (y - 1) (omega arith) in
    let month = to_short-pos (m + 9) (omega arith) in
    rw (-ℤ-pos y 1 h)
      (rw (+ℤ-pos m 9) (rw year (rw month (rw test (days_from-pos (y - 1) (m + 9) d)))))

pub encode_date-on_date :
    (y m d : ℕ) (times : Tm)
    → IsDate y m d
    → y < 32768
    → encode_date (on_date y m d times) ≡ from_base (date_number y m d)
unfolding encode_date
encode_date-on_date y m d times v small =
    let lt = day-le y m d v in
    let year = to_short-pos y small in
    let month = to_short-pos m (omega (arith, v.month_in)) in
    let day = to_short-pos d (omega arith) in
    rw (-ℤ-+ℤ m 1) (
      rw (-ℤ-+ℤ y 1900) (
        rw year (
          rw month (
            rw day (elim (Bool-cases (ltb 2 (m + 0))) [
              | inl late ↦ rw late (encode-late y m d (ground arith) v.month_in.1)
              | inr early ↦ rw early (encode-early y m d (ground arith) v.year_in small)
            ])))))

from_base-back : (n : ℕ) → from_base n +ℤ pos 678882 ≡ pos n
from_base-back n = eq_of_parts (from_base n +ℤ pos 678882) (pos n) (
    omega (
      arith,
      +ℤ_parts (from_base n) (pos 678882),
      -ℤ_parts (pos n +ℤ pos 1721119) (pos 2400001),
      +ℤ_parts (pos n) (pos 1721119),
    ))

set_date-on_date :
    (y m d : ℕ) (times : Tm)
    → IsDate y m d
    → set_date times (pos (shifted_year y m)) (pos (shifted_month m)) (pos d) ≡ on_date y m d times
unfolding set_date
set_date-on_date y m d times v = elim (Bool-cases (ltb 2 m)) [
  | inl late ↦
      let test : ltb (m - 3 + 0) (10 + 0) ≡ true = ground arith in
      let month : m - 3 + 3 ≡ m = ground arith in
      rw late (rw test (rw (+ℤ-pos (m - 3) 3) (rw month refl)))
  | inr early ↦
      let test : ltb (m + 9 + 0) (10 + 0) ≡ false = ground arith in
      let month : m + 9 - 9 ≡ m = omega arith in
      let year : y - 1 + 1 ≡ y = omega (arith, v.year_in) in
      rw early (
        rw test
          (rw (-ℤ-pos (m + 9) 9 (omega arith)) (rw month (rw (+ℤ-pos (y - 1) 1) (rw year refl)))))
]

module _ (c a m d : ℕ) (below : a < 100) (one : 1 ≤ d)
    (inside : InYear c a (before_month m + d - 1)) where
  pub century-step :
      split_century (pos (day_number c a m d))
      ≡ (pos c, pos (1461 * a / 4 + (before_month m + d - 1)))
  century-step =
      split_century-pos (day_number c a m d) (number-positive c a m d one)
      ∙ rw (century_of c a m d below one inside) (rw (day_of_century c a m d below one inside) refl)

  pub year-step :
      split_year (pos (1461 * a / 4 + (before_month m + d - 1))) ≡ (pos a, pos (before_month m + d))
  year-step =
      split_year-pos (1461 * a / 4 + (before_month m + d - 1))
      ∙ rw (year_of c a m d below one inside) (rw (day_of_year c a m d below one inside) refl)

-- A date of the calendar in the years 1 to 32767 comes back from `decodeDate` as it was given to
-- `encodeDate`, and the other fields of `times` are left alone.
pub decode_date-encode_date :
    (y m d : ℕ) (from times : Tm)
    → IsDate y m d
    → y < 32768
    → decode_date (encode_date (on_date y m d from)) times ≡ on_date y m d times
unfolding decode_date
decode_date-encode_date y m d from times v small =
    let c : ℕ = shifted_year y m / 100 in
    let a : ℕ = shifted_year y m % 100 in
    let sm : ℕ = shifted_month m in
    let inside = day-InYear y m d v in
    let one : 1 ≤ d = v.day_in.0 in
    let below : a < 100 = omega arith in
    let whole : 100 * c + a ≡ shifted_year y m = omega arith in
    rw (encode_date-on_date y m d from v small) (
      rw (from_base-back (date_number y m d)) (
        rw (century-step c a sm d below one inside) (
          rw (year-step c a sm d below one inside) (
            rw (split_month-pos sm d one (day-fits y m d v)) (
              rw (*ℤ-pos 100 c)
                (rw (+ℤ-pos (100 * c) a) (rw whole (set_date-on_date y m d times v))))))))
