-- ===== src/Convert/Tests.antt =====
-- Runs of the transfers of OdbcConvert.cpp, and their theorems at concrete records.
use firebird_odbc_driver.Base.{
  ℕ, suc, ◌-◌, ◌/◌, ◌≤◌, ◌≡◌, refl, true, false, some, List, [], ◌∷◌, arith, length, replicate,
  take, ◌++◌,
}
use firebird_odbc_driver.Convert.Days.{transfer_tag_date_time, conv_date_time_to_tag}
use firebird_odbc_driver.Convert.Days.RoundTrip.{conv_date_time-transfer_tag_date_time}
use firebird_odbc_driver.Dates.Calendar.{IsDate, days_in_month, is_leap}
use firebird_odbc_driver.Dates.Stamps.RoundTrip.{timestamp_struct}
use firebird_odbc_driver.Base.Int.{pos, negsuc}
use firebird_odbc_driver.Multibyte.Utf8.{utf8_bytes, utf8_mbstowcs}
use firebird_odbc_driver.Multibyte.Utf8.RoundTrip.{utf8, utf16}
use firebird_odbc_driver.Convert.{
  DescRecord, sql_success, memory, conv_string_to_string, conv_string_to_binary,
}
use firebird_odbc_driver.Convert.Gather.{bound, fetch_all}
use firebird_odbc_driver.Convert.Whole.{IsFresh, conv_string-whole}
use firebird_odbc_driver.Convert.Pieces.{IsFine, conv_string-IsFine}
use mathlib.Core.List.{reverse}
use firebird_odbc_driver.Convert.Digits.{temp, digits, string_of, conv_to_string}
use firebird_odbc_driver.Convert.Digits.Value.{value, places, string_of-value}
use firebird_odbc_driver.Convert.Digits.Overrun.{conv_to_string-overrun}
use firebird_odbc_driver.Convert.Wide.{conv_var_string_to_string_w}
use firebird_odbc_driver.Convert.Wide.Utf8.{conv_var_string_to_string_w-utf8}

-- A column of the row before the one with number 1, and a target with room for `size` bytes.
abbrev column : List ℕ → DescRecord
column chars = record {
  data_ptr = some chars;
  indicator = some (pos 0);
  is_indicator_sql_da = true;
  data_length = length chars;
  data_offset = 0;
  current_fetched = 0;
  started_return_sql_data = false;
  sql_len = 0;
  local_data = [];
}

abbrev target : (size : ℕ) → DescRecord
target size = record {
  data_ptr = some (replicate size 0xff);
  indicator = some (pos 0);
  is_indicator_sql_da = false;
  data_length = size;
  data_offset = 0;
  current_fetched = 0;
  started_return_sql_data = false;
  sql_len = 0;
  local_data = [];
}

abbrev hello : List ℕ
hello = 104 ∷ 101 ∷ 108 ∷ 108 ∷ 111 ∷ []

abbrev buffer : List ℕ
buffer = 0xff ∷ 0xff ∷ 0xff ∷ []

column-IsFresh : (chars : List ℕ) → IsFresh 1 (column chars)
column-IsFresh chars = (refl, ground arith)

conv_string-whole_example :
    (fetch_all 1
        (conv_string_to_string false 1)
        6
        (3 - 1)
        (column hello)
        (bound buffer (pos 0) (target 3))
      ≡ hello)
    × (fetch_all 1
          (conv_string_to_binary false 1)
          6
          (3 - 0)
          (column hello)
          (bound buffer (pos 0) (target 3))
        ≡ hello)
conv_string-whole_example =
    conv_string-whole 1 (column hello) (target 3) (column-IsFresh hello) buffer (pos 0)
      (ground arith) refl

conv_string-IsFine_example :
    IsFine 5 (target 3) (conv_string_to_string true 1 (column hello) (target 3))
    × IsFine 5 (target 3) (conv_string_to_binary true 1 (column hello) (target 3))
conv_string-IsFine_example =
    conv_string-IsFine true 1 (column hello) (target 3) (ground arith) (ground arith) (ground arith)

-- "é€"
abbrev text : List ℕ
text = 0xe9 ∷ 0x20ac ∷ []

conv_var_string_to_string_w-utf8_example :
    fetch_all 2
      (conv_var_string_to_string_w utf8_mbstowcs 1)
      (suc (length (utf16 text)))
      (6 / 2 - 1)
      (column (5 ∷ 0 ∷ utf8 text))
      (bound buffer (pos 0) (target 6))
    ≡ utf16 text
unfolding utf8 utf8_bytes
conv_var_string_to_string_w-utf8_example =
    conv_var_string_to_string_w-utf8 1 (column (5 ∷ 0 ∷ utf8 text)) (target 6) buffer (pos 0) 5 0
      text (column-IsFresh (5 ∷ 0 ∷ utf8 text)) (ground arith) (ground arith) refl refl
      (ground arith)

-- 12.34 of a SMALLINT with scale 2, and 1234567 in a buffer of three chars
size_1234 : length (digits 2 false 1234) ≤ 6
unfolding temp
size_1234 = ground arith

string_of-value_example :
    (value (reverse (string_of 5 16 2 6 (pos 1234))) ≡ 1234)
    × (places (reverse (string_of 5 16 2 6 (pos 1234))) ≡ some 2)
    × (string_of 5 16 2 7 (negsuc 1233) ≡ 45 ∷ string_of 5 16 2 6 (pos 1234))
string_of-value_example =
    string_of-value 5 16 2 6 1233 (ground arith) (ground arith) (ground arith) (ground arith)
      size_1234

size_1234567 : 3 ≤ length (digits 0 false 1234567)
unfolding temp
size_1234567 = ground arith

conv_to_string-overrun_example :
    let o = conv_to_string 10 32 0 (pos 1234567) (column []) (target 3) in
    (memory o.to ≡ reverse (take 3 (digits 0 false 1234567)) ++ 0 ∷ [])
    × (length (memory o.to) ≡ 4)
    × (o.ret ≡ sql_success)
    × (o.truncated ≡ false)
conv_to_string-overrun_example =
    conv_to_string-overrun 10 32 0 1234566 (column []) (target 3) buffer refl refl refl
      (ground arith) (ground arith) size_1234567

leap-IsDate : IsDate 2000 2 29
unfolding days_in_month is_leap
leap-IsDate = record {
  year_in = omega arith;
  month_in = (omega arith, omega arith);
  day_in = (omega arith, omega arith);
}

conv_date_time-transfer_tag_date_time_example :
    conv_date_time_to_tag (transfer_tag_date_time (timestamp_struct 2000 2 29 23 59 58 999950000))
    ≡ timestamp_struct 2000 2 29 23 59 58 999900000
conv_date_time-transfer_tag_date_time_example =
    conv_date_time-transfer_tag_date_time 23 59 58 999950000 (omega arith) (omega arith)
      (omega arith) (omega arith) 2000 2 29 leap-IsDate (omega arith)
