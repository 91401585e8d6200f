-- ===== src/Dates/Tests.antt =====
-- Runs of IscDbc/DateTime.cpp and OdbcDateTime.cpp on dates.
use firebird_odbc_driver.Base.{◌<◌, ◌≡◌, arith}
use firebird_odbc_driver.Base.Int.{pos}
use firebird_odbc_driver.Dates.{encode_date, decode_date}
use firebird_odbc_driver.Dates.Calendar.{IsDate, days_in_month, is_leap}
use firebird_odbc_driver.Dates.Decode.{on_date, decode_date-encode_date}
use firebird_odbc_driver.Dates.Order.{next_date, date_after, encode_date-date_after}
use firebird_odbc_driver.Dates.Stamps.{no_time}

leap_day-IsDate : IsDate 2000 2 29
unfolding days_in_month is_leap
leap_day-IsDate = record {
  year_in = omega arith;
  month_in = (omega arith, omega arith);
  day_in = (omega arith, omega arith);
}

in_1859 : (date_after 45).0 < 32768
unfolding date_after next_date days_in_month is_leap
in_1859 = omega arith

decode_date-encode_date_example :
    decode_date (encode_date (on_date 2000 2 29 no_time)) no_time ≡ on_date 2000 2 29 no_time
decode_date-encode_date_example =
    decode_date-encode_date 2000 2 29 no_time no_time leap_day-IsDate (omega arith)

encode_date-date_after_example :
    encode_date (on_date (date_after 45).0 (date_after 45).1 (date_after 45).2 no_time) ≡ pos 45
encode_date-date_after_example = encode_date-date_after 45 no_time in_1859
