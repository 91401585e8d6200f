-- ===== src/Convert/Days.antt =====
-- The dates and times of OdbcConvert.cpp: day numbers and ten thousandths of a second of the database to
-- the structures of ODBC and back. A `QUAD` of a time stamp is the pair of its day number and its time. A
-- day number of a `short` year has no more than 32 bits, so that its `int` is an integer here.
pub mod RoundTrip
use firebird_odbc_driver.Base.{ℕ, ◌+◌, ◌-◌, ◌*◌, ◌/◌, ◌%◌, ◌^◌, ltb, if◌then◌else◌}
use firebird_odbc_driver.Base.Int.{ℤ, pos, negsuc, pos_part, ◌+ℤ◌, ◌-ℤ◌, ◌*ℤ◌, ltb_ℤ}
use firebird_odbc_driver.Dates.{to_short, quot, rem, split_century, split_year}
use firebird_odbc_driver.Dates.Stamps.{TimestampStruct, to_int, to_ushort}

-- The value that `encode_sql_date` returns, of the shifted year and month.
unfoldable pub sql_days : (year : ℤ) (month day : ℕ) → ℤ
sql_days year month day =
    let c = quot year 100 in
    let ya = year -ℤ pos 100 *ℤ c in
    quot (pos 146097 *ℤ c) 4
    +ℤ quot (pos 1461 *ℤ ya) 4
    +ℤ pos ((153 * month + 2) / 5)
    +ℤ pos day
    -ℤ pos 678882

unfoldable pub encode_sql_date : (day month : ℕ) (year : ℤ) → ℤ
encode_sql_date day month year =
    if ltb 2 month
    then sql_days year (month - 3) day
    else sql_days (to_short (year -ℤ pos 1)) (month + 9) day

-- The day of the month, of the day behind the first of March and the month from March.
unfoldable pub month_day : ℤ → (month : ℕ) → ℤ
month_day day month = quot (pos 5 *ℤ day -ℤ pos 3 -ℤ pos 153 *ℤ pos month +ℤ pos 5) 5

unfoldable pub march_month : ℤ → ℕ
march_month day = to_ushort (quot (pos 5 *ℤ day -ℤ pos 3) 153)

-- The end of `decode_sql_date`: the day, the month and the year, from a month that counts from March.
abbrev pub from_march : (mday month : ℕ) (year : ℤ) → ℕ × ℕ × ℤ
from_march mday month year =
    if ltb month 10 then (mday, month + 3, year) else (mday, month - 9, to_short (year +ℤ pos 1))

unfoldable pub decode_sql_date : ℤ → ℕ × ℕ × ℤ
decode_sql_date nday =
    let (century, day) = split_century (nday +ℤ pos 678882) in
    let (year, day) = split_year day in
    let month = march_month day in
    from_march (to_ushort (month_day day month)) month (to_short (pos 100 *ℤ century +ℤ year))

-- ISC_TIME_SECONDS_PRECISION is 10000 and STD_TIME_SECONDS_PRECISION 100000.
unfoldable pub encode_sql_time : (hour minute second : ℕ) → ℤ
encode_sql_time hour minute second = to_int (pos (((hour * 60 + minute) * 60 + second) * 10000))

unfoldable pub decode_sql_time : ℤ → ℕ × ℕ × ℕ
decode_sql_time ntime =
    let minutes = quot ntime 600000 in
    (to_ushort (quot minutes 60), to_ushort (rem minutes 60), to_ushort (rem (quot ntime 10000) 60))

-- `transferTagDateTimeToDateTime`, of a parameter that is not NULL.
unfoldable pub transfer_tag_date_time : TimestampStruct → ℤ × ℤ
transfer_tag_date_time t = (
  encode_sql_date t.day t.month t.year,
  to_int (encode_sql_time t.hour t.minute t.second +ℤ pos (t.fraction / 100000)),
)

-- `if ( ntime < 0 ) ntime = 0`
abbrev pub not_negative : ℤ → ℤ
not_negative (pos n) = pos n
not_negative (negsuc n) = pos 0

-- `convDateTimeToTagDateTime`, of a column that is not NULL.
unfoldable pub conv_date_time_to_tag : ℤ × ℤ → TimestampStruct
conv_date_time_to_tag (nday, time) =
    let ntime = not_negative time in
    let (mday, month, year) = decode_sql_date nday in
    let (hour, minute, second) = decode_sql_time ntime in
    record {
      year = year;
      month = month;
      day = mday;
      hour = hour;
      minute = minute;
      second = second;
      fraction = pos_part (rem ntime 10000) * 100000 % 2 ^ 32;
    }
