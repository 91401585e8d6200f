-- ===== src/Convert/Days/RoundTrip.antt =====
-- Dates and times through OdbcConvert.cpp to the database and back.
use firebird_odbc_driver.Base.{
  ℕ, ◌+◌, ◌-◌, ◌*◌, ◌/◌, ◌%◌, ◌^◌, ◌≤◌, ◌<◌, ◌≡◌, refl, ap, ◌∙◌, inl, inr, true, false, arith, ltb,
  Bool-cases,
}
use firebird_odbc_driver.Base.Int.{ℤ, pos, ◌+ℤ◌, ◌-ℤ◌, eq_of_parts, +ℤ_parts, -ℤ_parts}
use firebird_odbc_driver.Convert.Days.{
  sql_days, encode_sql_date, month_day, march_month, from_march, decode_sql_date, encode_sql_time,
  decode_sql_time, transfer_tag_date_time, conv_date_time_to_tag,
}
use firebird_odbc_driver.Dates.{quot, rem}
use firebird_odbc_driver.Dates.Calendar.{IsDate, before_month, day_number}
use firebird_odbc_driver.Dates.Decode.{date_number, century-step, year-step}
use firebird_odbc_driver.Dates.Shift.{
  +ℤ-pos, -ℤ-pos, *ℤ-pos, quot-pos, to_short-pos, shifted_year, shifted_month, shifted_month-lt,
  day-fits, day-InYear, day-le,
}
use firebird_odbc_driver.Dates.Stamps.{to_int}
use firebird_odbc_driver.Dates.Stamps.RoundTrip.{to_ushort-pos, to_int-pos, ticks, timestamp_struct}

-- A day number in the count of the database.
abbrev from_sql_base : ℕ → ℤ
from_sql_base n = pos n -ℤ pos 678882

sql_days-pos :
    (y m d : ℕ) → sql_days (pos y) m d ≡ from_sql_base (day_number (y / 100) (y % 100) m d)
unfolding sql_days day_number
sql_days-pos y m d =
    let ya : pos y -ℤ pos (100 * (y / 100)) ≡ pos (y % 100) =
      -ℤ-pos y (100 * (y / 100)) (omega arith) ∙ ap pos (omega arith) in
    simp (*ℤ-pos, +ℤ-pos, quot-pos, ya)

encode_sql_date-number :
    (y m d : ℕ)
    → IsDate y m d
    → y < 32768
    → encode_sql_date d m (pos y) ≡ from_sql_base (date_number y m d)
unfolding encode_sql_date
encode_sql_date-number y m d v small = elim (Bool-cases (ltb 2 m)) [
  | inl late ↦ rw late (sql_days-pos y (m - 3) d)
  | inr early ↦
      rw (-ℤ-pos y 1 v.year_in)
        (rw (to_short-pos (y - 1) (omega arith)) (rw early (sql_days-pos (y - 1) (m + 9) d)))
]

from_sql_base-back : (n : ℕ) → from_sql_base n +ℤ pos 678882 ≡ pos n
from_sql_base-back n =
    eq_of_parts (from_sql_base n +ℤ pos 678882) (pos n)
      (omega (arith, +ℤ_parts (from_sql_base n) (pos 678882), -ℤ_parts (pos n) (pos 678882)))

march_month-pos :
    (m d : ℕ)
    → 1 ≤ d
    → before_month m + d ≤ before_month (m + 1)
    → m < 12
    → march_month (pos (before_month m + d)) ≡ m
unfolding march_month
march_month-pos m d h fits small =
    let n : ℕ = before_month m + d in
    let first : pos (5 * n) -ℤ pos 3 ≡ pos (5 * n - 3) = -ℤ-pos (5 * n) 3 (omega arith) in
    let month : (5 * n - 3) / 153 ≡ m = omega arith in
    simp (*ℤ-pos, quot-pos, first, month, to_ushort-pos m (omega arith))

month_day-pos :
    (m d : ℕ)
    → 1 ≤ d
    → before_month m + d ≤ before_month (m + 1)
    → month_day (pos (before_month m + d)) m ≡ pos d
unfolding month_day
month_day-pos m d h fits =
    let n : ℕ = before_month m + d in
    let first : pos (5 * n) -ℤ pos 3 ≡ pos (5 * n - 3) = -ℤ-pos (5 * n) 3 (omega arith) in
    let second : pos (5 * n - 3) -ℤ pos (153 * m) ≡ pos (5 * n - 3 - 153 * m) =
      -ℤ-pos (5 * n - 3) (153 * m) (omega arith) in
    let day : (5 * n - 3 - 153 * m + 5) / 5 ≡ d = omega arith in
    simp (*ℤ-pos, +ℤ-pos, quot-pos, first, second, day)

from_march-shifted :
    (y m d : ℕ)
    → IsDate y m d
    → y < 32768
    → from_march d (shifted_month m) (pos (shifted_year y m)) ≡ (d, m, pos y)
from_march-shifted y m d v small = elim (Bool-cases (ltb 2 m)) [
  | inl late ↦
      let test : ltb (m - 3) 10 ≡ true = ground arith in
      let month : m - 3 + 3 ≡ m = ground arith in rw late (rw test (rw month refl))
  | inr early ↦
      let test : ltb (m + 9) 10 ≡ false = ground arith in
      let month : m + 9 - 9 ≡ m = omega arith in
      let year : y - 1 + 1 ≡ y = omega (arith, v.year_in) in
      rw early
        (rw test (rw month (rw (+ℤ-pos (y - 1) 1) (rw year (rw (to_short-pos y small) refl)))))
]

-- A date of the calendar in the years 1 to 32767 comes back from the day number of the database.
pub decode_sql_date-encode_sql_date :
    (y m d : ℕ)
    → IsDate y m d
    → y < 32768
    → decode_sql_date (encode_sql_date d m (pos y)) ≡ (d, m, pos y)
unfolding decode_sql_date
decode_sql_date-encode_sql_date y m d v small =
    let c : ℕ = shifted_year y m / 100 in
    let a : ℕ = shifted_year y m % 100 in
    let sm : ℕ = shifted_month m in
    let inside = day-InYear y m d v in
    let one : 1 ≤ d = v.day_in.0 in
    let below : a < 100 = omega arith in
    let whole : 100 * c + a ≡ shifted_year y m = omega arith in
    let sm_small = shifted_month-lt m v.month_in.0 v.month_in.1 in
    rw (encode_sql_date-number y m d v small) (
      rw (from_sql_base-back (date_number y m d)) (
        rw (century-step c a sm d below one inside) (
          rw (year-step c a sm d below one inside) (
            rw (march_month-pos sm d one (day-fits y m d v) sm_small) (
              rw (month_day-pos sm d one (day-fits y m d v)) (
                rw (to_ushort-pos d (omega (arith, day-le y m d v))) (
                  rw (*ℤ-pos 100 c) (
                    rw (+ℤ-pos (100 * c) a) (
                      rw whole (
                        rw (to_short-pos (shifted_year y m) (ground arith))
                          (from_march-shifted y m d v small)))))))))))

module _ (h mi s f : ℕ) (h_in : h < 24) (mi_in : mi < 60) (s_in : s < 60)
    (f_in : f < 1000000000) where
  time-ticks : to_int (encode_sql_time h mi s +ℤ pos (f / 100000)) ≡ pos (ticks h mi s f)
  unfolding encode_sql_time
  time-ticks =
      let seconds : ℕ = ((h * 60 + mi) * 60 + s) * 10000 in
      rw (to_int-pos seconds (omega arith))
        (rw (+ℤ-pos seconds (f / 100000)) (to_int-pos (ticks h mi s f) (omega arith)))

  decode_sql_time-ticks : decode_sql_time (pos (ticks h mi s f)) ≡ (h, mi, s)
  unfolding decode_sql_time quot rem
  decode_sql_time-ticks =
      let n : ℕ = ticks h mi s f in
      let hour : n / 600000 / 60 ≡ h = omega arith in
      let minute : n / 600000 % 60 ≡ mi = omega arith in
      let second : n / 10000 % 60 ≡ s = omega arith in
      rw (hour, minute, second)
        (rw (to_ushort-pos h (omega arith))
          (rw (to_ushort-pos mi (omega arith)) (rw (to_ushort-pos s (omega arith)) refl)))

  -- A time stamp of an application, of a date of the calendar in the years 1 to 32767 and a time of the
  -- day, comes back from the value that is sent to the database as it was, with its fraction cut to ten
  -- thousandths of a second.
  pub conv_date_time-transfer_tag_date_time :
      (y m d : ℕ)
      → IsDate y m d
      → y < 32768
      → conv_date_time_to_tag (transfer_tag_date_time (timestamp_struct y m d h mi s f))
        ≡ timestamp_struct y m d h mi s (f / 100000 * 100000)
  unfolding conv_date_time_to_tag transfer_tag_date_time rem
  conv_date_time-transfer_tag_date_time y m d v small =
      let fraction : ticks h mi s f % 10000 * 100000 % 2 ^ 32 ≡ f / 100000 * 100000 = omega arith in
      rw time-ticks (
        rw (decode_sql_date-encode_sql_date y m d v small)
          (rw decode_sql_time-ticks (rw fraction refl)))
