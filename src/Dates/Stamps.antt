-- ===== src/Dates/Stamps.antt =====
-- OdbcDateTime.cpp: the structures of ODBC to the dates and time stamps of the driver and back. The
-- functions `nday`, `ndate` and `yday` repeat those of IscDbc/DateTime.cpp.
pub mod RoundTrip
use firebird_odbc_driver.Base.{ℕ, ◌+◌, ◌-◌, ◌*◌, ◌/◌, ◌%◌, ◌^◌, ltb, if◌then◌else◌}
use firebird_odbc_driver.Base.Int.{ℤ, pos, negsuc, pos_part, neg_part, ◌+ℤ◌, ◌-ℤ◌, ◌*ℤ◌, ltb_ℤ}
use firebird_odbc_driver.Dates.{
  Tm, to_short, quot, rem, days_from, split_century, split_year, split_month, set_date,
}

-- `tagDATE_STRUCT` and `tagTIMESTAMP_STRUCT`: the year is a signed short, the rest is unsigned.
pub record DateStruct : Type 0 where
  pub year : ℤ
  pub month : ℕ
  pub day : ℕ

pub record TimestampStruct : Type 0 where
  pub year : ℤ
  pub month : ℕ
  pub day : ℕ
  pub hour : ℕ
  pub minute : ℕ
  pub second : ℕ
  pub fraction : ℕ

-- `TimeStamp`: the day number, and the ten thousandths of a second of the day.
pub record TimeStamp : Type 0 where
  pub date : ℤ
  pub nanos : ℤ

-- The conversions to `int` and to an unsigned short.
unfoldable pub to_int : ℤ → ℤ
to_int z =
    let n = (pos_part z % 2 ^ 32 + (2 ^ 32 - neg_part z % 2 ^ 32)) % 2 ^ 32 in
    if ltb n (2 ^ 31) then pos n else negsuc (2 ^ 32 - 1 - n)

unfoldable pub to_ushort : ℤ → ℕ
to_ushort z = (pos_part z % 65536 + (65536 - neg_part z % 65536)) % 65536

-- A buffer of zeros.
abbrev pub no_time : Tm
no_time = record {
  tm_sec = pos 0;
  tm_min = pos 0;
  tm_hour = pos 0;
  tm_mday = pos 0;
  tm_mon = pos 0;
  tm_year = pos 0;
}

-- `OdbcDateTime::nday`
unfoldable pub nday : Tm → ℤ
nday times =
    let day = to_short times.tm_mday in
    let month = to_short (times.tm_mon +ℤ pos 1) in
    let year = to_short (times.tm_year +ℤ pos 1900) in
    if ltb_ℤ (pos 2) month
    then days_from year (to_short (month -ℤ pos 3)) day
    else days_from (to_short (year -ℤ pos 1)) (to_short (month +ℤ pos 9)) day

-- The time of the day that `ndate` sets, which is `TimeStamp::decodeTime` too.
-- ISC_TIME_SECONDS_PRECISION is 10000.
unfoldable pub decode_time : ℤ → Tm → Tm
decode_time nsec times =
    let minutes = quot nsec 600000 in
    record times {
      tm_hour = quot minutes 60;
      tm_min = rem minutes 60;
      tm_sec = rem (quot nsec 10000) 60;
    }

-- `OdbcDateTime::ndate`
unfoldable pub ndate : (day_number nsec : ℤ) → Tm → Tm
ndate day_number nsec times =
    let (century, day) = split_century (day_number +ℤ pos 678882) in
    let (year, day) = split_year day in
    let (month, day) = split_month day in
    decode_time nsec (set_date times (pos 100 *ℤ century +ℤ year) month day)

-- `convert (tagDateIn, dateTimeOut)`
unfoldable pub date_of : DateStruct → ℤ
date_of t = nday (record no_time {
  tm_year = t.year -ℤ pos 1900;
  tm_mon = pos t.month -ℤ pos 1;
  tm_mday = pos t.day;
})

-- `convert (tagTimeStampIn, dateTimeOut)`
unfoldable pub date_of_timestamp : TimestampStruct → ℤ
date_of_timestamp t = nday (record {
  tm_sec = pos t.second;
  tm_min = pos t.minute;
  tm_hour = pos t.hour;
  tm_mday = pos t.day;
  tm_mon = pos t.month -ℤ pos 1;
  tm_year = t.year -ℤ pos 1900;
})

-- `convert (tagTimeStampIn, timeStampOut)`. STD_TIME_SECONDS_PRECISION is 100000.
unfoldable pub time_stamp_of : TimestampStruct → TimeStamp
unfolding date_of_timestamp
time_stamp_of t = record {
  date = date_of_timestamp t;
  nanos = to_int (pos (((t.hour * 60 + t.minute) * 60 + t.second) * 10000 + t.fraction / 100000));
}

-- `convert (dateTimeIn, tagDateOut)`; the day of the year and of the week that it also computes
-- stay in its buffer.
unfoldable pub date_struct_of : ℤ → DateStruct
date_struct_of date =
    let times = ndate date (pos 0) no_time in
    record {
      year = to_short (times.tm_year +ℤ pos 1900);
      month = to_ushort (times.tm_mon +ℤ pos 1);
      day = to_ushort times.tm_mday;
    }

-- `convert (timeStampIn, tagTimeStampOut)`; a fraction that is negative wraps to 32 bits.
unfoldable pub timestamp_struct_of : TimeStamp → TimestampStruct
timestamp_struct_of t =
    let times = ndate t.date t.nanos no_time in
    let fraction = rem t.nanos 10000 *ℤ pos 100000 in
    record {
      year = to_short (times.tm_year +ℤ pos 1900);
      month = to_ushort (times.tm_mon +ℤ pos 1);
      day = to_ushort times.tm_mday;
      hour = to_ushort times.tm_hour;
      minute = to_ushort times.tm_min;
      second = to_ushort times.tm_sec;
      fraction = (pos_part fraction % 2 ^ 32 + (2 ^ 32 - neg_part fraction % 2 ^ 32)) % 2 ^ 32;
    }
