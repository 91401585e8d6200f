-- ===== src/Dates/Stamps/RoundTrip.antt =====
-- The structures of ODBC through OdbcDateTime.cpp and back.
use firebird_odbc_driver.Base.{ℕ, ◌+◌, ◌-◌, ◌*◌, ◌/◌, ◌%◌, ◌^◌, ◌<◌, ◌≡◌, refl, ap, ◌∙◌, arith}
use firebird_odbc_driver.Base.Int.{ℤ, pos}
use firebird_odbc_driver.Dates.{Tm, quot, rem, decode_date, encode_date}
use firebird_odbc_driver.Dates.Calendar.{IsDate}
use firebird_odbc_driver.Dates.Shift.{to_short-pos, -ℤ-+ℤ, day-le, *ℤ-pos}
use firebird_odbc_driver.Dates.Decode.{on_date, decode_date-encode_date}
use firebird_odbc_driver.Dates.Stamps.{
  DateStruct, TimestampStruct, to_int, to_ushort, no_time, nday, decode_time, ndate, date_of,
  date_of_timestamp, time_stamp_of, date_struct_of, timestamp_struct_of,
}

pub to_ushort-pos : (a : ℕ) → a < 65536 → to_ushort (pos a) ≡ a
unfolding to_ushort
to_ushort-pos a h = omega arith

pub to_int-pos : (a : ℕ) → a < 2 ^ 31 → to_int (pos a) ≡ pos a
unfolding to_int
to_int-pos a h = ground arith

nday-encode_date : (times : Tm) → nday times ≡ encode_date times
unfolding nday encode_date
nday-encode_date times = refl

ndate-decode_date :
    (n nsec : ℤ) (times : Tm) → ndate n nsec times ≡ decode_time nsec (decode_date n times)
unfolding ndate decode_date
ndate-decode_date n nsec times = refl

-- A date, and a time stamp, of ODBC.
abbrev pub date_struct : (y m d : ℕ) → DateStruct
date_struct y m d = record { year = pos y; month = m; day = d }

ndate-nday :
    (y m d : ℕ) (nsec : ℤ) (from times : Tm)
    → IsDate y m d
    → y < 32768
    → ndate (nday (on_date y m d from)) nsec times ≡ decode_time nsec (on_date y m d times)
ndate-nday y m d nsec from times v small =
    ndate-decode_date (nday (on_date y m d from)) nsec times
    ∙ ap (λ (n : ℤ). decode_time nsec (decode_date n times)) (nday-encode_date (on_date y m d from))
    ∙ ap (decode_time nsec) (decode_date-encode_date y m d from times v small)

-- A DATE_STRUCT of the calendar, in the years 1 to 32767, comes back from a `DateTime`.
pub date_struct_of-date_of :
    (y m d : ℕ)
    → IsDate y m d
    → y < 32768
    → date_struct_of (date_of (date_struct y m d)) ≡ date_struct y m d
unfolding date_struct_of date_of decode_time
date_struct_of-date_of y m d v small = rw (ndate-nday y m d (pos 0) no_time no_time v small) (
    rw (-ℤ-+ℤ m 1) (
      rw (-ℤ-+ℤ y 1900) (
        rw (to_short-pos y small) (
          rw (to_ushort-pos m (omega (arith, v.month_in)))
            (rw (to_ushort-pos d (omega (arith, day-le y m d v))) refl)))))

-- The part of a time that a `TimeStamp` keeps, in ten thousandths of a second.
abbrev pub ticks : (hour minute second fraction : ℕ) → ℕ
ticks hour minute second fraction = ((hour * 60 + minute) * 60 + second) * 10000 + fraction / 100000

abbrev pub timestamp_struct : (y m d h mi s f : ℕ) → TimestampStruct
timestamp_struct y m d h mi s f = record {
  year = pos y;
  month = m;
  day = d;
  hour = h;
  minute = mi;
  second = s;
  fraction = f;
}

module _ (h mi s f : ℕ) (h_in : h < 24) (mi_in : mi < 60) (s_in : s < 60)
    (f_in : f < 1000000000) where
  ticks-hour : ticks h mi s f / 600000 / 60 ≡ h
  ticks-hour = omega arith

  ticks-minute : ticks h mi s f / 600000 % 60 ≡ mi
  ticks-minute = omega arith

  ticks-second : ticks h mi s f / 10000 % 60 ≡ s
  ticks-second = omega arith

  ticks-fraction :
      (ticks h mi s f % 10000 * 100000 % 2 ^ 32 + (2 ^ 32 - 0 % 2 ^ 32)) % 2 ^ 32
      ≡ f / 100000 * 100000
  ticks-fraction = omega arith

  ticks-to_int : to_int (pos (ticks h mi s f)) ≡ pos (ticks h mi s f)
  ticks-to_int = to_int-pos (ticks h mi s f) (omega arith)

  decode_time-ticks :
      (times : Tm)
      → decode_time (pos (ticks h mi s f)) times
        ≡ record times { tm_hour = pos h; tm_min = pos mi; tm_sec = pos s }
  unfolding decode_time quot rem
  decode_time-ticks times = rw ticks-hour (rw ticks-minute (rw ticks-second refl))

  -- A TIMESTAMP_STRUCT of a date of the calendar in the years 1 to 32767 and a time of the day comes
  -- back from a `TimeStamp`, with its fraction cut to ten thousandths of a second.
  pub timestamp_struct_of-time_stamp_of :
      (y m d : ℕ)
      → IsDate y m d
      → y < 32768
      → timestamp_struct_of (time_stamp_of (timestamp_struct y m d h mi s f))
        ≡ timestamp_struct y m d h mi s (f / 100000 * 100000)
  unfolding timestamp_struct_of time_stamp_of date_of_timestamp rem
  timestamp_struct_of-time_stamp_of y m d v small =
      let from = record no_time { tm_hour = pos h; tm_min = pos mi; tm_sec = pos s } in
      rw ticks-to_int (
        rw (ndate-nday y m d (pos (ticks h mi s f)) from no_time v small) (
          rw (decode_time-ticks (on_date y m d no_time)) (
            rw (-ℤ-+ℤ m 1) (
              rw (-ℤ-+ℤ y 1900) (
                rw (to_short-pos y small) (
                  rw (to_ushort-pos m (omega (arith, v.month_in))) (
                    rw (to_ushort-pos d (omega (arith, day-le y m d v))) (
                      rw (to_ushort-pos h (omega arith)) (
                        rw (to_ushort-pos mi (omega arith)) (
                          rw (to_ushort-pos s (omega arith)) (
                            rw (*ℤ-pos (ticks h mi s f % 10000) 100000)
                              (rw ticks-fraction refl))))))))))))
