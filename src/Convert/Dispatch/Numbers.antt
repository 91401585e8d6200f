-- ===== src/Convert/Dispatch/Numbers.antt =====
-- `getAdressFunction` of OdbcConvert.cpp, from the short types of numbers: the inner switches, with the head `h` of the target
-- as the function has found it.
use firebird_odbc_driver.Base.{Option, none, if◌then◌else◌}
use firebird_odbc_driver.Convert.Dispatch.{
  ConciseType, Head, DescType, Answer, give, identical, scaled, sql_c_binary, sql_c_bit, sql_c_char,
  sql_c_date, sql_c_double, sql_c_float, sql_c_long, sql_c_numeric, sql_c_sbigint, sql_c_short,
  sql_c_slong, sql_c_sshort, sql_c_stinyint, sql_c_time, sql_c_timestamp, sql_c_tinyint,
  sql_c_type_date, sql_c_type_time, sql_c_type_timestamp, sql_c_ubigint, sql_c_ulong, sql_c_ushort,
  sql_c_utinyint, sql_c_wchar, sql_decimal,
}
use firebird_odbc_driver.Convert.Dispatch.Names.{
  conv_long_to_bigint, conv_long_to_bigint_with_scale, conv_long_to_boolean, conv_long_to_double,
  conv_long_to_double_with_scale, conv_long_to_float, conv_long_to_float_with_scale,
  conv_long_to_long, conv_long_to_long_with_scale, conv_long_to_short,
  conv_long_to_short_with_scale, conv_long_to_string, conv_long_to_string_w,
  conv_long_to_tag_numeric, conv_long_to_tiny_int, conv_long_to_tiny_int_with_scale,
  conv_short_to_bigint, conv_short_to_boolean, conv_short_to_double,
  conv_short_to_double_with_scale, conv_short_to_float, conv_short_to_float_with_scale,
  conv_short_to_long, conv_short_to_long_with_scale, conv_short_to_short,
  conv_short_to_short_with_scale, conv_short_to_string, conv_short_to_string_w,
  conv_short_to_tag_numeric, conv_short_to_tiny_int, conv_short_to_tiny_int_with_scale,
  conv_tiny_int_to_bigint, conv_tiny_int_to_boolean, conv_tiny_int_to_double,
  conv_tiny_int_to_float, conv_tiny_int_to_long, conv_tiny_int_to_short, conv_tiny_int_to_string,
  conv_tiny_int_to_string_w, conv_tiny_int_to_tag_numeric, conv_tiny_int_to_tiny_int,
  not_yet_implemented,
}

-- From SQL_C_BIT and the types of a byte.
unfoldable pub tiny_int_to : ConciseType → Head → DescType → DescType → Option Answer
tiny_int_to sql_c_bit h from to = identical conv_tiny_int_to_boolean h
tiny_int_to sql_c_tinyint h from to = identical conv_tiny_int_to_tiny_int h
tiny_int_to sql_c_utinyint h from to = identical conv_tiny_int_to_tiny_int h
tiny_int_to sql_c_stinyint h from to = identical conv_tiny_int_to_tiny_int h
tiny_int_to sql_c_short h from to = identical conv_tiny_int_to_short h
tiny_int_to sql_c_ushort h from to = identical conv_tiny_int_to_short h
tiny_int_to sql_c_sshort h from to = identical conv_tiny_int_to_short h
tiny_int_to sql_c_long h from to = give conv_tiny_int_to_long h
tiny_int_to sql_c_ulong h from to = give conv_tiny_int_to_long h
tiny_int_to sql_c_slong h from to = give conv_tiny_int_to_long h
tiny_int_to sql_c_float h from to = give conv_tiny_int_to_float h
tiny_int_to sql_c_double h from to = give conv_tiny_int_to_double h
tiny_int_to sql_c_sbigint h from to = give conv_tiny_int_to_bigint h
tiny_int_to sql_c_ubigint h from to = give conv_tiny_int_to_bigint h
tiny_int_to sql_c_char h from to = give conv_tiny_int_to_string h
tiny_int_to sql_c_wchar h from to = give conv_tiny_int_to_string_w h
tiny_int_to sql_decimal h from to = give conv_tiny_int_to_tag_numeric h
tiny_int_to sql_c_numeric h from to = give conv_tiny_int_to_tag_numeric h
tiny_int_to sql_c_binary h from to = give not_yet_implemented h
tiny_int_to sql_c_type_date h from to = give not_yet_implemented h
tiny_int_to sql_c_date h from to = give not_yet_implemented h
tiny_int_to sql_c_type_timestamp h from to = give not_yet_implemented h
tiny_int_to sql_c_timestamp h from to = give not_yet_implemented h
tiny_int_to sql_c_type_time h from to = give not_yet_implemented h
tiny_int_to sql_c_time h from to = give not_yet_implemented h
tiny_int_to _ h from to = none

-- From SQL_C_SHORT and its variants.
unfoldable pub short_to : ConciseType → Head → DescType → DescType → Option Answer
short_to sql_c_bit h from to = give conv_short_to_boolean h
short_to sql_c_tinyint h from to =
    if scaled from to
    then (give conv_short_to_tiny_int_with_scale h)
    else (give conv_short_to_tiny_int h)
short_to sql_c_utinyint h from to =
    if scaled from to
    then (give conv_short_to_tiny_int_with_scale h)
    else (give conv_short_to_tiny_int h)
short_to sql_c_stinyint h from to =
    if scaled from to
    then (give conv_short_to_tiny_int_with_scale h)
    else (give conv_short_to_tiny_int h)
short_to sql_c_short h from to =
    if scaled from to
    then (identical conv_short_to_short_with_scale h)
    else (identical conv_short_to_short h)
short_to sql_c_ushort h from to =
    if scaled from to
    then (identical conv_short_to_short_with_scale h)
    else (identical conv_short_to_short h)
short_to sql_c_sshort h from to =
    if scaled from to
    then (identical conv_short_to_short_with_scale h)
    else (identical conv_short_to_short h)
short_to sql_c_long h from to =
    if scaled from to then (give conv_short_to_long_with_scale h) else (give conv_short_to_long h)
short_to sql_c_ulong h from to =
    if scaled from to then (give conv_short_to_long_with_scale h) else (give conv_short_to_long h)
short_to sql_c_slong h from to =
    if scaled from to then (give conv_short_to_long_with_scale h) else (give conv_short_to_long h)
short_to sql_c_float h from to =
    if scaled from to then (give conv_short_to_float_with_scale h) else (give conv_short_to_float h)
short_to sql_c_double h from to =
    if scaled from to
    then (give conv_short_to_double_with_scale h)
    else (give conv_short_to_double h)
short_to sql_c_sbigint h from to = give conv_short_to_bigint h
short_to sql_c_ubigint h from to = give conv_short_to_bigint h
short_to sql_c_char h from to = give conv_short_to_string h
short_to sql_c_wchar h from to = give conv_short_to_string_w h
short_to sql_decimal h from to = give conv_short_to_tag_numeric h
short_to sql_c_numeric h from to = give conv_short_to_tag_numeric h
short_to sql_c_binary h from to = give not_yet_implemented h
short_to sql_c_type_date h from to = give not_yet_implemented h
short_to sql_c_date h from to = give not_yet_implemented h
short_to sql_c_type_timestamp h from to = give not_yet_implemented h
short_to sql_c_timestamp h from to = give not_yet_implemented h
short_to sql_c_type_time h from to = give not_yet_implemented h
short_to sql_c_time h from to = give not_yet_implemented h
short_to _ h from to = none

-- From SQL_C_LONG and its variants.
unfoldable pub long_to : ConciseType → Head → DescType → DescType → Option Answer
long_to sql_c_bit h from to = give conv_long_to_boolean h
long_to sql_c_tinyint h from to =
    if scaled from to
    then (give conv_long_to_tiny_int_with_scale h)
    else (give conv_long_to_tiny_int h)
long_to sql_c_utinyint h from to =
    if scaled from to
    then (give conv_long_to_tiny_int_with_scale h)
    else (give conv_long_to_tiny_int h)
long_to sql_c_stinyint h from to =
    if scaled from to
    then (give conv_long_to_tiny_int_with_scale h)
    else (give conv_long_to_tiny_int h)
long_to sql_c_short h from to =
    if scaled from to then (give conv_long_to_short_with_scale h) else (give conv_long_to_short h)
long_to sql_c_ushort h from to =
    if scaled from to then (give conv_long_to_short_with_scale h) else (give conv_long_to_short h)
long_to sql_c_sshort h from to =
    if scaled from to then (give conv_long_to_short_with_scale h) else (give conv_long_to_short h)
long_to sql_c_long h from to =
    if scaled from to
    then (identical conv_long_to_long_with_scale h)
    else (identical conv_long_to_long h)
long_to sql_c_ulong h from to =
    if scaled from to
    then (identical conv_long_to_long_with_scale h)
    else (identical conv_long_to_long h)
long_to sql_c_slong h from to =
    if scaled from to
    then (identical conv_long_to_long_with_scale h)
    else (identical conv_long_to_long h)
long_to sql_c_float h from to =
    if scaled from to then (give conv_long_to_float_with_scale h) else (give conv_long_to_float h)
long_to sql_c_double h from to =
    if scaled from to then (give conv_long_to_double_with_scale h) else (give conv_long_to_double h)
long_to sql_c_sbigint h from to =
    if scaled from to then (give conv_long_to_bigint_with_scale h) else (give conv_long_to_bigint h)
long_to sql_c_ubigint h from to =
    if scaled from to then (give conv_long_to_bigint_with_scale h) else (give conv_long_to_bigint h)
long_to sql_c_char h from to = give conv_long_to_string h
long_to sql_c_wchar h from to = give conv_long_to_string_w h
long_to sql_decimal h from to = give conv_long_to_tag_numeric h
long_to sql_c_numeric h from to = give conv_long_to_tag_numeric h
long_to _ h from to = give not_yet_implemented h
