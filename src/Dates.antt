-- ===== src/Dates.antt =====
-- The dates of IscDbc/DateTime.cpp and OdbcDateTime.cpp. An `int` is an integer here: on the dates of
-- the years 1 to 32767 no intermediate result leaves 32 bits. A `short` keeps its wrap-around, and
-- division is that of C, which rounds to zero.
pub mod Calendar
pub mod Shift
pub mod Decode
pub mod Order
pub mod YearDay
pub mod Stamps
mod Tests
use firebird_odbc_driver.Base.{
  ℕ, ◌+◌, ◌-◌, ◌*◌, ◌/◌, ◌%◌, ◌^◌, Bool, true, false, not, ◌&&◌, ◌||◌, ltb, leb, ◌==◌,
  if◌then◌else◌,
}
use firebird_odbc_driver.Base.Int.{
  ℤ, pos, negsuc, pos_part, neg_part, sub_ℕ, ◌+ℤ◌, ◌-ℤ◌, ◌*ℤ◌, ltb_ℤ,
}

-- The fields of `struct tm` that the members read and set.
pub record Tm : Type 0 where
  pub tm_sec : ℤ
  pub tm_min : ℤ
  pub tm_hour : ℤ
  pub tm_mday : ℤ
  pub tm_mon : ℤ
  pub tm_year : ℤ

-- The conversion to a signed short.
unfoldable pub to_short : ℤ → ℤ
to_short z =
    let n = (pos_part z % 65536 + (65536 - neg_part z % 65536)) % 65536 in
    if ltb n 32768 then pos n else negsuc (65535 - n)

-- Division and remainder by a positive constant.
unfoldable pub quot : ℤ → ℕ → ℤ
quot (pos a) n = pos (a / n)
quot (negsuc a) n = sub_ℕ 0 ((a + 1) / n)

unfoldable pub rem : ℤ → ℕ → ℤ
rem (pos a) n = pos (a % n)
rem (negsuc a) n = sub_ℕ 0 ((a + 1) % n)

-- The value returned by `encodeDate`, of the shifted year and month.
unfoldable pub days_from : (year month day : ℤ) → ℤ
days_from year month day =
    let c = quot year 100 in
    let ya = year -ℤ pos 100 *ℤ c in
    quot (pos 146097 *ℤ c) 4
    +ℤ quot (pos 1461 *ℤ ya) 4
    +ℤ quot (pos 153 *ℤ month +ℤ pos 2) 5
    +ℤ day
    +ℤ pos 1721119
    -ℤ pos 2400001

-- `DateTime::encodeDate`
unfoldable pub encode_date : Tm → ℤ
encode_date times =
    let day = to_short times.tm_mday in
    let month = to_short (times.tm_mon +ℤ pos 1) in
    let year = to_short (times.tm_year +ℤ pos 1900) in
    if ltb_ℤ (pos 2) month
    then days_from year (to_short (month -ℤ pos 3)) day
    else days_from (to_short (year -ℤ pos 1)) (to_short (month +ℤ pos 9)) day

-- The steps of `decodeDate`: the century and the day in it, the year and its day, the month and its
-- day.
unfoldable pub split_century : ℤ → ℤ × ℤ
split_century nday =
    let century = quot (pos 4 *ℤ nday -ℤ pos 1) 146097 in
    (century, quot (pos 4 *ℤ nday -ℤ pos 1 -ℤ pos 146097 *ℤ century) 4)

unfoldable pub split_year : ℤ → ℤ × ℤ
split_year day =
    let nday = quot (pos 4 *ℤ day +ℤ pos 3) 1461 in
    (nday, quot (pos 4 *ℤ day +ℤ pos 3 -ℤ pos 1461 *ℤ nday +ℤ pos 4) 4)

unfoldable pub split_month : ℤ → ℤ × ℤ
split_month day =
    let month = quot (pos 5 *ℤ day -ℤ pos 3) 153 in
    (month, quot (pos 5 *ℤ day -ℤ pos 3 -ℤ pos 153 *ℤ month +ℤ pos 5) 5)

-- The end of `decodeDate`, on the year and month that count from March.
unfoldable pub set_date : Tm → (year month day : ℤ) → Tm
set_date times year month day =
    if ltb_ℤ month (pos 10)
    then record times {
      tm_mday = day;
      tm_mon = month +ℤ pos 3 -ℤ pos 1;
      tm_year = year -ℤ pos 1900;
    }
    else record times {
      tm_mday = day;
      tm_mon = month -ℤ pos 9 -ℤ pos 1;
      tm_year = year +ℤ pos 1 -ℤ pos 1900;
    }

-- `DateTime::decodeDate`
unfoldable pub decode_date : ℤ → Tm → Tm
decode_date nday times =
    let (century, day) = split_century (nday +ℤ pos 678882) in
    let (year, day) = split_year day in
    let (month, day) = split_month day in set_date times (pos 100 *ℤ century +ℤ year) month day

-- `DateTime::yday`
unfoldable pub yday : Tm → ℤ
yday times =
    let month = to_short times.tm_mon in
    let year = to_short (times.tm_year +ℤ pos 1900) in
    let day = to_short (quot (pos 214 *ℤ month +ℤ pos 3) 7 +ℤ times.tm_mday -ℤ pos 1) in
    let zero_at = λ (n : ℕ). pos_part (rem year n) == 0 && neg_part (rem year n) == 0 in
    if ltb_ℤ month (pos 2)
    then day
    else if zero_at 4 && not (zero_at 100) || zero_at 400
    then day -ℤ pos 1
    else day -ℤ pos 2
