-- ===== src/Convert/Dispatch/Times.antt =====
-- `getAdressFunction` of OdbcConvert.cpp, from dates, times and time stamps: the inner switches, with the head `h` of the target
-- as the function has found it.
use firebird_odbc_driver.Base.{Option, if◌then◌else◌}
use firebird_odbc_driver.Convert.Dispatch.{
  ConciseType, Head, DescType, Answer, give, identical, sql_c_binary, sql_c_char, sql_c_date,
  sql_c_double, sql_c_float, sql_c_long, sql_c_sbigint, sql_c_slong, sql_c_time, sql_c_timestamp,
  sql_c_type_date, sql_c_type_time, sql_c_type_timestamp, sql_c_ubigint, sql_c_ulong, sql_c_wchar,
}
use firebird_odbc_driver.Convert.Dispatch.Names.{
  conv_date_time_to_bigint, conv_date_time_to_binary, conv_date_time_to_double,
  conv_date_time_to_string, conv_date_time_to_string_w, conv_date_time_to_tag_date,
  conv_date_time_to_tag_date_time, conv_date_time_to_tag_time, conv_date_to_bigint,
  conv_date_to_binary, conv_date_to_double, conv_date_to_float, conv_date_to_long,
  conv_date_to_string, conv_date_to_string_w, conv_date_to_tag_date, conv_date_to_tag_timestamp,
  conv_time_to_bigint, conv_time_to_binary, conv_time_to_double, conv_time_to_float,
  conv_time_to_long, conv_time_to_string, conv_time_to_string_w, conv_time_to_tag_time,
  conv_time_to_tag_timestamp, not_yet_implemented, transfer_tag_date_time_to_date,
  transfer_tag_date_time_to_date_time, transfer_tag_date_time_to_time, transfer_tag_date_to_date,
  transfer_tag_date_to_date_time, transfer_tag_time_to_date_time, transfer_tag_time_to_time,
}

-- From SQL_C_DATE and SQL_C_TYPE_DATE.
unfoldable pub date_to : ConciseType → Head → DescType → DescType → Option Answer
date_to sql_c_long h from to = give conv_date_to_long h
date_to sql_c_ulong h from to = give conv_date_to_long h
date_to sql_c_slong h from to = give conv_date_to_long h
date_to sql_c_float h from to = give conv_date_to_float h
date_to sql_c_double h from to = give conv_date_to_double h
date_to sql_c_sbigint h from to = give conv_date_to_bigint h
date_to sql_c_ubigint h from to = give conv_date_to_bigint h
date_to sql_c_char h from to = give conv_date_to_string h
date_to sql_c_wchar h from to = give conv_date_to_string_w h
date_to sql_c_binary h from to = give conv_date_to_binary h
date_to sql_c_type_date h from to =
    if to.is_indicator_sql_da
    then (give transfer_tag_date_to_date h)
    else (identical conv_date_to_tag_date h)
date_to sql_c_date h from to =
    if to.is_indicator_sql_da
    then (give transfer_tag_date_to_date h)
    else (identical conv_date_to_tag_date h)
date_to sql_c_type_timestamp h from to =
    if to.is_indicator_sql_da
    then (give transfer_tag_date_to_date_time h)
    else (give conv_date_to_tag_timestamp h)
date_to sql_c_timestamp h from to =
    if to.is_indicator_sql_da
    then (give transfer_tag_date_to_date_time h)
    else (give conv_date_to_tag_timestamp h)
date_to _ h from to = give not_yet_implemented h

-- From SQL_C_TIME and SQL_C_TYPE_TIME.
unfoldable pub time_to : ConciseType → Head → DescType → DescType → Option Answer
time_to sql_c_long h from to = give conv_time_to_long h
time_to sql_c_ulong h from to = give conv_time_to_long h
time_to sql_c_slong h from to = give conv_time_to_long h
time_to sql_c_float h from to = give conv_time_to_float h
time_to sql_c_double h from to = give conv_time_to_double h
time_to sql_c_sbigint h from to = give conv_time_to_bigint h
time_to sql_c_ubigint h from to = give conv_time_to_bigint h
time_to sql_c_char h from to = give conv_time_to_string h
time_to sql_c_wchar h from to = give conv_time_to_string_w h
time_to sql_c_binary h from to = give conv_time_to_binary h
time_to sql_c_type_timestamp h from to =
    if to.is_indicator_sql_da
    then (give transfer_tag_time_to_date_time h)
    else (give conv_time_to_tag_timestamp h)
time_to sql_c_timestamp h from to =
    if to.is_indicator_sql_da
    then (give transfer_tag_time_to_date_time h)
    else (give conv_time_to_tag_timestamp h)
time_to sql_c_type_time h from to =
    if to.is_indicator_sql_da
    then (give transfer_tag_time_to_time h)
    else (identical conv_time_to_tag_time h)
time_to sql_c_time h from to =
    if to.is_indicator_sql_da
    then (give transfer_tag_time_to_time h)
    else (identical conv_time_to_tag_time h)
time_to _ h from to = give not_yet_implemented h

-- From SQL_C_TIMESTAMP and SQL_C_TYPE_TIMESTAMP.
unfoldable pub timestamp_to : ConciseType → Head → DescType → DescType → Option Answer
timestamp_to sql_c_double h from to = give conv_date_time_to_double h
timestamp_to sql_c_sbigint h from to = give conv_date_time_to_bigint h
timestamp_to sql_c_ubigint h from to = give conv_date_time_to_bigint h
timestamp_to sql_c_char h from to = give conv_date_time_to_string h
timestamp_to sql_c_wchar h from to = give conv_date_time_to_string_w h
timestamp_to sql_c_binary h from to = give conv_date_time_to_binary h
timestamp_to sql_c_type_date h from to =
    if to.is_indicator_sql_da
    then (give transfer_tag_date_time_to_date h)
    else (give conv_date_time_to_tag_date h)
timestamp_to sql_c_date h from to =
    if to.is_indicator_sql_da
    then (give transfer_tag_date_time_to_date h)
    else (give conv_date_time_to_tag_date h)
timestamp_to sql_c_type_timestamp h from to =
    if to.is_indicator_sql_da
    then (give transfer_tag_date_time_to_date_time h)
    else (identical conv_date_time_to_tag_date_time h)
timestamp_to sql_c_timestamp h from to =
    if to.is_indicator_sql_da
    then (give transfer_tag_date_time_to_date_time h)
    else (identical conv_date_time_to_tag_date_time h)
timestamp_to sql_c_type_time h from to =
    if to.is_indicator_sql_da
    then (give transfer_tag_date_time_to_time h)
    else (give conv_date_time_to_tag_time h)
timestamp_to sql_c_time h from to =
    if to.is_indicator_sql_da
    then (give transfer_tag_date_time_to_time h)
    else (give conv_date_time_to_tag_time h)
timestamp_to _ h from to = give not_yet_implemented h
