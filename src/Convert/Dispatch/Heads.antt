-- ===== src/Convert/Dispatch/Heads.antt =====
-- `getAdressFunction` of OdbcConvert.cpp: a text that is passed on to the server finds a text parameter.
use firebird_odbc_driver.Base.{
  Bool, true, false, Option, none, some, if◌then◌else◌, ◌≡◌, arith, subst,
}
use firebird_odbc_driver.Convert.Dispatch.{
  ConciseType, Head, HeadType, type_text, is_text, DescType, Answer,
}
use firebird_odbc_driver.Convert.Dispatch.Names.{
  Conversion, transfer_string_to_allowed_type, transfer_string_w_to_allowed_type,
  transfer_string_to_tiny_int, transfer_string_to_date_time, transfer_string_w_to_date_time,
  transfer_array_string_to_allowed_type, transfer_binary_string_to_allowed_type,
}
use firebird_odbc_driver.Convert.Dispatch.Numbers.{tiny_int_to, short_to, long_to}
use firebird_odbc_driver.Convert.Dispatch.Decimals.{float_to, double_to, bigint_to, numeric_to}
use firebird_odbc_driver.Convert.Dispatch.Times.{date_to, time_to, timestamp_to}
use firebird_odbc_driver.Convert.Dispatch.Binaries.{binary_to, guid_to}
use firebird_odbc_driver.Convert.Dispatch.Texts.{var_char_to, text_char_to}
use firebird_odbc_driver.Convert.Dispatch.Wides.{var_wchar_to, text_wchar_to}
use firebird_odbc_driver.Convert.Dispatch.Select.{char_to, wchar_to, select, get_adress_function}

-- The conversions that hand a text of the application to the server as it is.
unfoldable pub is_text_transfer : Conversion → Bool
is_text_transfer transfer_string_to_allowed_type = true
is_text_transfer transfer_string_w_to_allowed_type = true
is_text_transfer transfer_string_to_tiny_int = true
is_text_transfer transfer_string_to_date_time = true
is_text_transfer transfer_string_w_to_date_time = true
is_text_transfer transfer_array_string_to_allowed_type = true
is_text_transfer transfer_binary_string_to_allowed_type = true
is_text_transfer _ = false

unfoldable pub has_text : Option Answer → Bool
has_text none = true
has_text (some a) = if is_text_transfer a.function then is_text a.head.sql_type else true

has_text-tiny_int_to :
    (t : ConciseType) (h : Head) (from to : DescType) → has_text (tiny_int_to t h from to) ≡ true
unfolding tiny_int_to has_text is_text_transfer
has_text-tiny_int_to t h from to = ground arith

has_text-short_to :
    (t : ConciseType) (h : Head) (from to : DescType) → has_text (short_to t h from to) ≡ true
unfolding short_to has_text is_text_transfer
has_text-short_to t h from to = ground arith

has_text-long_to :
    (t : ConciseType) (h : Head) (from to : DescType) → has_text (long_to t h from to) ≡ true
unfolding long_to has_text is_text_transfer
has_text-long_to t h from to = ground arith

has_text-float_to :
    (t : ConciseType) (h : Head) (from to : DescType) → has_text (float_to t h from to) ≡ true
unfolding float_to has_text is_text_transfer
has_text-float_to t h from to = ground arith

has_text-double_to :
    (t : ConciseType) (h : Head) (from to : DescType) → has_text (double_to t h from to) ≡ true
unfolding double_to has_text is_text_transfer
has_text-double_to t h from to = ground arith

has_text-bigint_to :
    (t : ConciseType) (h : Head) (from to : DescType) → has_text (bigint_to t h from to) ≡ true
unfolding bigint_to has_text is_text_transfer
has_text-bigint_to t h from to = ground arith

has_text-numeric_to :
    (t : ConciseType) (h : Head) (from to : DescType) → has_text (numeric_to t h from to) ≡ true
unfolding numeric_to has_text is_text_transfer
has_text-numeric_to t h from to = ground arith

has_text-date_to :
    (t : ConciseType) (h : Head) (from to : DescType) → has_text (date_to t h from to) ≡ true
unfolding date_to has_text is_text_transfer
has_text-date_to t h from to = ground arith

has_text-time_to :
    (t : ConciseType) (h : Head) (from to : DescType) → has_text (time_to t h from to) ≡ true
unfolding time_to has_text is_text_transfer
has_text-time_to t h from to = ground arith

has_text-timestamp_to :
    (t : ConciseType) (h : Head) (from to : DescType) → has_text (timestamp_to t h from to) ≡ true
unfolding timestamp_to has_text is_text_transfer
has_text-timestamp_to t h from to = ground arith

has_text-binary_to :
    (t : ConciseType) (h : Head) (from to : DescType) → has_text (binary_to t h from to) ≡ true
unfolding binary_to has_text is_text_transfer
has_text-binary_to t h from to = ground arith

has_text-guid_to :
    (t : ConciseType) (h : Head) (from to : DescType) → has_text (guid_to t h from to) ≡ true
unfolding guid_to has_text is_text_transfer
has_text-guid_to t h from to = ground arith

has_text-var_char_to :
    (system_catalog : Bool) (t : ConciseType) (h : Head) (from to : DescType)
    → has_text (var_char_to system_catalog t h from to) ≡ true
unfolding var_char_to has_text is_text_transfer
has_text-var_char_to system_catalog t h from to = ground arith

has_text-text_char_to :
    (t : ConciseType) (h : Head) (from to : DescType) → has_text (text_char_to t h from to) ≡ true
unfolding text_char_to has_text is_text_transfer
has_text-text_char_to t h from to = ground arith

has_text-var_wchar_to :
    (system_catalog : Bool) (t : ConciseType) (h : Head) (from to : DescType)
    → has_text (var_wchar_to system_catalog t h from to) ≡ true
unfolding var_wchar_to has_text is_text_transfer
has_text-var_wchar_to system_catalog t h from to = ground arith

has_text-text_wchar_to :
    (t : ConciseType) (h : Head) (from to : DescType) → has_text (text_wchar_to t h from to) ≡ true
unfolding text_wchar_to has_text is_text_transfer
has_text-text_wchar_to t h from to = ground arith

has_text-char_to :
    (system_catalog : Bool) (t : ConciseType) (h : Head) (from to : DescType)
    → has_text (char_to system_catalog t h from to) ≡ true
unfolding char_to has_text is_text_transfer
has_text-char_to system_catalog t h from to =
    ground
      (arith, has_text-var_char_to system_catalog t h from to, has_text-text_char_to t h from to)

has_text-wchar_to :
    (system_catalog : Bool) (t : ConciseType) (h : Head) (from to : DescType)
    → has_text (wchar_to system_catalog t h from to) ≡ true
unfolding wchar_to has_text is_text_transfer
has_text-wchar_to system_catalog t h from to =
    ground
      (arith, has_text-var_wchar_to system_catalog t h from to, has_text-text_wchar_to t h from to)

has_text-select :
    (system_catalog : Bool) (s t : ConciseType) (h : Head) (from to : DescType)
    → has_text (select system_catalog s t h from to) ≡ true
unfolding select has_text is_text_transfer
has_text-select system_catalog s t h from to = ground (
  arith,
  has_text-tiny_int_to t h from to,
  has_text-short_to t h from to,
  has_text-long_to t h from to,
  has_text-float_to t h from to,
  has_text-double_to t h from to,
  has_text-bigint_to t h from to,
  has_text-numeric_to t h from to,
  has_text-date_to t h from to,
  has_text-time_to t h from to,
  has_text-timestamp_to t h from to,
  has_text-binary_to t h from to,
  has_text-guid_to t h from to,
  has_text-char_to system_catalog t h from to,
  has_text-wchar_to system_catalog t h from to,
)

is_text_type : (o : HeadType) → is_text o ≡ true → o ≡ type_text
is_text_type o h = ground arith

has_text_transfer :
    (a : Answer)
    → is_text_transfer a.function ≡ true
    → has_text (some a) ≡ true
    → is_text a.head.sql_type ≡ true
unfolding has_text
has_text_transfer a f h = ground arith

-- Whatever the records are, a conversion that hands a text of the application to the server as it is
-- comes with a parameter whose type was set to text.
pub get_adress_function-HasText :
    (system_catalog : Bool) (source target : ConciseType) (from to : DescType) (a : Answer)
    → get_adress_function system_catalog source target from to ≡ some a
    → is_text_transfer a.function ≡ true
    → a.head.sql_type ≡ type_text
unfolding get_adress_function
get_adress_function-HasText system_catalog source target from to a e f =
    is_text_type a.head.sql_type (
      has_text_transfer a f
        (subst (λ o. has_text o ≡ true) e (has_text-select system_catalog source target _ from to)))
