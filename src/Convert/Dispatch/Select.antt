-- ===== src/Convert/Dispatch/Select.antt =====
-- `getAdressFunction` of OdbcConvert.cpp: the outer switch.
use firebird_odbc_driver.Base.{Bool, ◌&&◌, Option, if◌then◌else◌}
use firebird_odbc_driver.Convert.Dispatch.{
  ConciseType, Head, DescType, Answer, give, set_type_text, is_varying, is_varying_w,
  set_head_sql_var, sql_c_bit, sql_c_tinyint, sql_c_utinyint, sql_c_stinyint, sql_c_short,
  sql_c_ushort, sql_c_sshort, sql_c_long, sql_c_ulong, sql_c_slong, sql_c_float, sql_c_double,
  sql_c_sbigint, sql_c_ubigint, sql_c_char, sql_c_wchar, sql_decimal, sql_c_numeric, sql_c_binary,
  sql_c_type_date, sql_c_date, sql_c_type_timestamp, sql_c_timestamp, sql_c_type_time, sql_c_time,
  sql_c_guid,
}
use firebird_odbc_driver.Convert.Dispatch.Names.{
  not_yet_implemented, transfer_array_string_to_allowed_type,
}
use firebird_odbc_driver.Convert.Dispatch.Numbers.{tiny_int_to, short_to, long_to}
use firebird_odbc_driver.Convert.Dispatch.Decimals.{float_to, double_to, bigint_to, numeric_to}
use firebird_odbc_driver.Convert.Dispatch.Times.{date_to, time_to, timestamp_to}
use firebird_odbc_driver.Convert.Dispatch.Binaries.{binary_to, guid_to}
use firebird_odbc_driver.Convert.Dispatch.Texts.{var_char_to, text_char_to}
use firebird_odbc_driver.Convert.Dispatch.Wides.{var_wchar_to, text_wchar_to}

-- From SQL_C_CHAR.
unfoldable pub char_to :
    (system_catalog : Bool) → ConciseType → Head → DescType → DescType → Option Answer
char_to system_catalog t h from to =
    if is_varying from.column_type
    then var_char_to system_catalog t h from to
    else if to.is_indicator_sql_da && to.is_replace_for_param_array
    then give transfer_array_string_to_allowed_type (set_type_text h)
    else text_char_to t h from to

-- From SQL_C_WCHAR.
unfoldable pub wchar_to :
    (system_catalog : Bool) → ConciseType → Head → DescType → DescType → Option Answer
wchar_to system_catalog t h from to =
    if is_varying_w from.column_type
    then var_wchar_to system_catalog t h from to
    else if to.is_indicator_sql_da && to.is_replace_for_param_array
    then give transfer_array_string_to_allowed_type (set_type_text h)
    else text_wchar_to t h from to

-- The outer switch, over the type of the source.
unfoldable pub select :
    (system_catalog : Bool)
    → (source target : ConciseType) → Head
    → DescType
    → DescType
    → Option Answer
select system_catalog sql_c_bit t h from to = tiny_int_to t h from to
select system_catalog sql_c_tinyint t h from to = tiny_int_to t h from to
select system_catalog sql_c_utinyint t h from to = tiny_int_to t h from to
select system_catalog sql_c_stinyint t h from to = tiny_int_to t h from to
select system_catalog sql_c_short t h from to = short_to t h from to
select system_catalog sql_c_ushort t h from to = short_to t h from to
select system_catalog sql_c_sshort t h from to = short_to t h from to
select system_catalog sql_c_long t h from to = long_to t h from to
select system_catalog sql_c_ulong t h from to = long_to t h from to
select system_catalog sql_c_slong t h from to = long_to t h from to
select system_catalog sql_c_float t h from to = float_to t h from to
select system_catalog sql_c_double t h from to = double_to t h from to
select system_catalog sql_c_sbigint t h from to = bigint_to t h from to
select system_catalog sql_c_ubigint t h from to = bigint_to t h from to
select system_catalog sql_c_char t h from to = char_to system_catalog t h from to
select system_catalog sql_c_wchar t h from to = wchar_to system_catalog t h from to
select system_catalog sql_decimal t h from to = numeric_to t h from to
select system_catalog sql_c_numeric t h from to = numeric_to t h from to
select system_catalog sql_c_binary t h from to = binary_to t h from to
select system_catalog sql_c_type_date t h from to = date_to t h from to
select system_catalog sql_c_date t h from to = date_to t h from to
select system_catalog sql_c_type_timestamp t h from to = timestamp_to t h from to
select system_catalog sql_c_timestamp t h from to = timestamp_to t h from to
select system_catalog sql_c_type_time t h from to = time_to t h from to
select system_catalog sql_c_time t h from to = time_to t h from to
select system_catalog sql_c_guid t h from to = guid_to t h from to
select system_catalog _ t h from to = give not_yet_implemented h

-- `OdbcConvert::getAdressFunction`; `source` and `target` are the types of the
-- records, `system_catalog` is `parentStmt->isResultSetFromSystemCatalog`.
unfoldable pub get_adress_function :
    (system_catalog : Bool) → (source target : ConciseType) → DescType → DescType → Option Answer
get_adress_function system_catalog source target from to =
    let h = if to.is_indicator_sql_da then set_head_sql_var target to else to.head in
    select system_catalog source target h from to
