-- ===== src/Convert/Dispatch/Nulls.antt =====
-- `getAdressFunction` of OdbcConvert.cpp: where it answers NULL.
use firebird_odbc_driver.Base.{
  Bool, true, false, Option, none, some, ◌&&◌, ◌≡◌, ◌↔◌, refl, sym, ◌∙◌, arith,
}
use firebird_odbc_driver.Convert.Dispatch.{
  ConciseType, Head, DescType, Answer, sql_c_bit, sql_c_tinyint, sql_c_utinyint, sql_c_stinyint,
  sql_c_short, sql_c_ushort, sql_c_sshort, sql_c_guid, sql_other,
}
use firebird_odbc_driver.Convert.Dispatch.Numbers.{tiny_int_to, short_to, long_to}
use firebird_odbc_driver.Convert.Dispatch.Decimals.{float_to, double_to, bigint_to, numeric_to}
use firebird_odbc_driver.Convert.Dispatch.Times.{date_to, time_to, timestamp_to}
use firebird_odbc_driver.Convert.Dispatch.Binaries.{binary_to, guid_to}
use firebird_odbc_driver.Convert.Dispatch.Texts.{var_char_to, text_char_to}
use firebird_odbc_driver.Convert.Dispatch.Wides.{var_wchar_to, text_wchar_to}
use firebird_odbc_driver.Convert.Dispatch.Select.{char_to, wchar_to, select, get_adress_function}

-- The types whose inner switches have no default.
unfoldable pub is_short : ConciseType → Bool
is_short sql_c_bit = true
is_short sql_c_tinyint = true
is_short sql_c_utinyint = true
is_short sql_c_stinyint = true
is_short sql_c_short = true
is_short sql_c_ushort = true
is_short sql_c_sshort = true
is_short _ = false

-- The types that those switches do not name.
unfoldable pub is_unnamed : ConciseType → Bool
is_unnamed sql_c_guid = true
is_unnamed sql_other = true
is_unnamed _ = false

abbrev is_null : Option Answer → Bool
is_null none = true
is_null (some a) = false

is_null-tiny_int_to :
    (t : ConciseType) (h : Head) (from to : DescType)
    → is_null (tiny_int_to t h from to) ≡ is_unnamed t
unfolding tiny_int_to is_unnamed
is_null-tiny_int_to t h from to = ground arith

is_null-short_to :
    (t : ConciseType) (h : Head) (from to : DescType)
    → is_null (short_to t h from to) ≡ is_unnamed t
unfolding short_to is_unnamed
is_null-short_to t h from to = ground arith

is_null-long_to :
    (t : ConciseType) (h : Head) (from to : DescType) → is_null (long_to t h from to) ≡ false
unfolding long_to is_unnamed
is_null-long_to t h from to = ground arith

is_null-float_to :
    (t : ConciseType) (h : Head) (from to : DescType) → is_null (float_to t h from to) ≡ false
unfolding float_to is_unnamed
is_null-float_to t h from to = ground arith

is_null-double_to :
    (t : ConciseType) (h : Head) (from to : DescType) → is_null (double_to t h from to) ≡ false
unfolding double_to is_unnamed
is_null-double_to t h from to = ground arith

is_null-bigint_to :
    (t : ConciseType) (h : Head) (from to : DescType) → is_null (bigint_to t h from to) ≡ false
unfolding bigint_to is_unnamed
is_null-bigint_to t h from to = ground arith

is_null-numeric_to :
    (t : ConciseType) (h : Head) (from to : DescType) → is_null (numeric_to t h from to) ≡ false
unfolding numeric_to is_unnamed
is_null-numeric_to t h from to = ground arith

is_null-date_to :
    (t : ConciseType) (h : Head) (from to : DescType) → is_null (date_to t h from to) ≡ false
unfolding date_to is_unnamed
is_null-date_to t h from to = ground arith

is_null-time_to :
    (t : ConciseType) (h : Head) (from to : DescType) → is_null (time_to t h from to) ≡ false
unfolding time_to is_unnamed
is_null-time_to t h from to = ground arith

is_null-timestamp_to :
    (t : ConciseType) (h : Head) (from to : DescType) → is_null (timestamp_to t h from to) ≡ false
unfolding timestamp_to is_unnamed
is_null-timestamp_to t h from to = ground arith

is_null-binary_to :
    (t : ConciseType) (h : Head) (from to : DescType) → is_null (binary_to t h from to) ≡ false
unfolding binary_to is_unnamed
is_null-binary_to t h from to = ground arith

is_null-guid_to :
    (t : ConciseType) (h : Head) (from to : DescType) → is_null (guid_to t h from to) ≡ false
unfolding guid_to is_unnamed
is_null-guid_to t h from to = ground arith

is_null-var_char_to :
    (system_catalog : Bool) (t : ConciseType) (h : Head) (from to : DescType)
    → is_null (var_char_to system_catalog t h from to) ≡ false
unfolding var_char_to is_unnamed
is_null-var_char_to system_catalog t h from to = ground arith

is_null-text_char_to :
    (t : ConciseType) (h : Head) (from to : DescType) → is_null (text_char_to t h from to) ≡ false
unfolding text_char_to is_unnamed
is_null-text_char_to t h from to = ground arith

is_null-var_wchar_to :
    (system_catalog : Bool) (t : ConciseType) (h : Head) (from to : DescType)
    → is_null (var_wchar_to system_catalog t h from to) ≡ false
unfolding var_wchar_to is_unnamed
is_null-var_wchar_to system_catalog t h from to = ground arith

is_null-text_wchar_to :
    (t : ConciseType) (h : Head) (from to : DescType) → is_null (text_wchar_to t h from to) ≡ false
unfolding text_wchar_to is_unnamed
is_null-text_wchar_to t h from to = ground arith

is_null-char_to :
    (system_catalog : Bool) (t : ConciseType) (h : Head) (from to : DescType)
    → is_null (char_to system_catalog t h from to) ≡ false
unfolding char_to
is_null-char_to system_catalog t h from to =
    ground (arith, is_null-var_char_to system_catalog t h from to, is_null-text_char_to t h from to)

is_null-wchar_to :
    (system_catalog : Bool) (t : ConciseType) (h : Head) (from to : DescType)
    → is_null (wchar_to system_catalog t h from to) ≡ false
unfolding wchar_to
is_null-wchar_to system_catalog t h from to =
    ground
      (arith, is_null-var_wchar_to system_catalog t h from to, is_null-text_wchar_to t h from to)

is_null-select :
    (system_catalog : Bool) (s t : ConciseType) (h : Head) (from to : DescType)
    → is_null (select system_catalog s t h from to) ≡ (is_short s && is_unnamed t)
unfolding select is_short
is_null-select system_catalog s t h from to = ground (
  arith,
  is_null-tiny_int_to t h from to,
  is_null-short_to t h from to,
  is_null-long_to t h from to,
  is_null-float_to t h from to,
  is_null-double_to t h from to,
  is_null-bigint_to t h from to,
  is_null-numeric_to t h from to,
  is_null-date_to t h from to,
  is_null-time_to t h from to,
  is_null-timestamp_to t h from to,
  is_null-binary_to t h from to,
  is_null-guid_to t h from to,
  is_null-char_to system_catalog t h from to,
  is_null-wchar_to system_catalog t h from to,
)

is_null_iff : (o : Option Answer) → (o ≡ none) ↔ (is_null o ≡ true)
is_null_iff none = (λ e. refl, λ e. refl)
is_null_iff (some a) = (λ e. ground arith, λ e. ground arith)

-- Whatever the records are, the answer is NULL exactly if the source is a bit, a byte or a short and the
-- target a GUID or a type that no switch names; for any other pair there is a conversion.
pub get_adress_function_null :
    (system_catalog : Bool) (source target : ConciseType) (from to : DescType)
    → (get_adress_function system_catalog source target from to ≡ none)
      ↔ ((is_short source && is_unnamed target) ≡ true)
unfolding get_adress_function
get_adress_function_null system_catalog source target from to =
    let e = is_null-select system_catalog source target _ from to in
    let (there, back) = is_null_iff (select system_catalog source target _ from to) in
    (λ h. sym e ∙ there h, λ h. back (e ∙ h))
