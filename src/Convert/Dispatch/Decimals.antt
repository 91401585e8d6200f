-- ===== src/Convert/Dispatch/Decimals.antt =====
-- `getAdressFunction` of OdbcConvert.cpp, from the long types of numbers: the inner switches, with the head `h` of the target
-- as the function has found it.
use firebird_odbc_driver.Base.{Option, if◌then◌else◌}
use firebird_odbc_driver.Convert.Dispatch.{
  ConciseType, Head, DescType, Answer, give, identical, scaled, sql_c_binary, sql_c_bit, sql_c_char,
  sql_c_double, sql_c_float, sql_c_long, sql_c_numeric, sql_c_sbigint, sql_c_short, sql_c_slong,
  sql_c_sshort, sql_c_stinyint, sql_c_tinyint, sql_c_ubigint, sql_c_ulong, sql_c_ushort,
  sql_c_utinyint, sql_c_wchar, sql_decimal,
}
use firebird_odbc_driver.Convert.Dispatch.Names.{
  conv_bigint_to_bigint, conv_bigint_to_binary, conv_bigint_to_boolean, conv_bigint_to_double,
  conv_bigint_to_double_with_scale, conv_bigint_to_float, conv_bigint_to_float_with_scale,
  conv_bigint_to_long, conv_bigint_to_short, conv_bigint_to_string, conv_bigint_to_string_w,
  conv_bigint_to_tag_numeric, conv_bigint_to_tiny_int, conv_double_to_bigint,
  conv_double_to_boolean, conv_double_to_double, conv_double_to_float, conv_double_to_long,
  conv_double_to_short, conv_double_to_string, conv_double_to_string_w, conv_double_to_tag_numeric,
  conv_double_to_tiny_int, conv_float_to_bigint, conv_float_to_boolean, conv_float_to_double,
  conv_float_to_float, conv_float_to_long, conv_float_to_short, conv_float_to_string,
  conv_float_to_string_w, conv_float_to_tiny_int, conv_numeric_to_bigint, conv_numeric_to_boolean,
  conv_numeric_to_double, conv_numeric_to_float, conv_numeric_to_long, conv_numeric_to_short,
  conv_numeric_to_tag_numeric, conv_numeric_to_tiny_int, conv_tag_numeric_to_bigint,
  conv_tag_numeric_to_double, conv_tag_numeric_to_float, conv_tag_numeric_to_long,
  conv_tag_numeric_to_short, conv_tag_numeric_to_tiny_int, not_yet_implemented,
}

-- From SQL_C_FLOAT.
unfoldable pub float_to : ConciseType → Head → DescType → DescType → Option Answer
float_to sql_c_bit h from to = give conv_float_to_boolean h
float_to sql_c_tinyint h from to = give conv_float_to_tiny_int h
float_to sql_c_utinyint h from to = give conv_float_to_tiny_int h
float_to sql_c_stinyint h from to = give conv_float_to_tiny_int h
float_to sql_c_short h from to = give conv_float_to_short h
float_to sql_c_ushort h from to = give conv_float_to_short h
float_to sql_c_sshort h from to = give conv_float_to_short h
float_to sql_c_long h from to = give conv_float_to_long h
float_to sql_c_ulong h from to = give conv_float_to_long h
float_to sql_c_slong h from to = give conv_float_to_long h
float_to sql_c_float h from to = identical conv_float_to_float h
float_to sql_c_double h from to = give conv_float_to_double h
float_to sql_c_sbigint h from to = give conv_float_to_bigint h
float_to sql_c_ubigint h from to = give conv_float_to_bigint h
float_to sql_c_char h from to = give conv_float_to_string h
float_to sql_c_wchar h from to = give conv_float_to_string_w h
float_to _ h from to = give not_yet_implemented h

-- From SQL_C_DOUBLE.
unfoldable pub double_to : ConciseType → Head → DescType → DescType → Option Answer
double_to sql_c_bit h from to = give conv_double_to_boolean h
double_to sql_c_tinyint h from to = give conv_double_to_tiny_int h
double_to sql_c_utinyint h from to = give conv_double_to_tiny_int h
double_to sql_c_stinyint h from to = give conv_double_to_tiny_int h
double_to sql_c_short h from to = give conv_double_to_short h
double_to sql_c_ushort h from to = give conv_double_to_short h
double_to sql_c_sshort h from to = give conv_double_to_short h
double_to sql_c_long h from to = give conv_double_to_long h
double_to sql_c_ulong h from to = give conv_double_to_long h
double_to sql_c_slong h from to = give conv_double_to_long h
double_to sql_c_float h from to = give conv_double_to_float h
double_to sql_c_double h from to = identical conv_double_to_double h
double_to sql_c_sbigint h from to = give conv_double_to_bigint h
double_to sql_c_ubigint h from to = give conv_double_to_bigint h
double_to sql_c_char h from to = give conv_double_to_string h
double_to sql_c_wchar h from to = give conv_double_to_string_w h
double_to sql_decimal h from to = give conv_double_to_tag_numeric h
double_to sql_c_numeric h from to = give conv_double_to_tag_numeric h
double_to _ h from to = give not_yet_implemented h

-- From SQL_C_SBIGINT and SQL_C_UBIGINT.
unfoldable pub bigint_to : ConciseType → Head → DescType → DescType → Option Answer
bigint_to sql_c_bit h from to = give conv_bigint_to_boolean h
bigint_to sql_c_tinyint h from to = give conv_bigint_to_tiny_int h
bigint_to sql_c_utinyint h from to = give conv_bigint_to_tiny_int h
bigint_to sql_c_stinyint h from to = give conv_bigint_to_tiny_int h
bigint_to sql_c_short h from to = give conv_bigint_to_short h
bigint_to sql_c_ushort h from to = give conv_bigint_to_short h
bigint_to sql_c_sshort h from to = give conv_bigint_to_short h
bigint_to sql_c_long h from to = give conv_bigint_to_long h
bigint_to sql_c_ulong h from to = give conv_bigint_to_long h
bigint_to sql_c_slong h from to = give conv_bigint_to_long h
bigint_to sql_c_float h from to =
    if scaled from to
    then (give conv_bigint_to_float_with_scale h)
    else (give conv_bigint_to_float h)
bigint_to sql_c_double h from to =
    if scaled from to
    then (give conv_bigint_to_double_with_scale h)
    else (give conv_bigint_to_double h)
bigint_to sql_c_sbigint h from to = identical conv_bigint_to_bigint h
bigint_to sql_c_ubigint h from to = identical conv_bigint_to_bigint h
bigint_to sql_c_char h from to = give conv_bigint_to_string h
bigint_to sql_c_wchar h from to = give conv_bigint_to_string_w h
bigint_to sql_decimal h from to = give conv_bigint_to_tag_numeric h
bigint_to sql_c_numeric h from to = give conv_bigint_to_tag_numeric h
bigint_to sql_c_binary h from to = give conv_bigint_to_binary h
bigint_to _ h from to = give not_yet_implemented h

-- From SQL_DECIMAL and SQL_C_NUMERIC.
unfoldable pub numeric_to : ConciseType → Head → DescType → DescType → Option Answer
numeric_to sql_c_bit h from to = give conv_numeric_to_boolean h
numeric_to sql_c_tinyint h from to =
    if to.is_indicator_sql_da
    then (give conv_tag_numeric_to_tiny_int h)
    else (give conv_numeric_to_tiny_int h)
numeric_to sql_c_utinyint h from to =
    if to.is_indicator_sql_da
    then (give conv_tag_numeric_to_tiny_int h)
    else (give conv_numeric_to_tiny_int h)
numeric_to sql_c_stinyint h from to =
    if to.is_indicator_sql_da
    then (give conv_tag_numeric_to_tiny_int h)
    else (give conv_numeric_to_tiny_int h)
numeric_to sql_c_short h from to =
    if to.is_indicator_sql_da
    then (give conv_tag_numeric_to_short h)
    else (give conv_numeric_to_short h)
numeric_to sql_c_ushort h from to =
    if to.is_indicator_sql_da
    then (give conv_tag_numeric_to_short h)
    else (give conv_numeric_to_short h)
numeric_to sql_c_sshort h from to =
    if to.is_indicator_sql_da
    then (give conv_tag_numeric_to_short h)
    else (give conv_numeric_to_short h)
numeric_to sql_c_long h from to =
    if to.is_indicator_sql_da
    then (give conv_tag_numeric_to_long h)
    else (give conv_numeric_to_long h)
numeric_to sql_c_ulong h from to =
    if to.is_indicator_sql_da
    then (give conv_tag_numeric_to_long h)
    else (give conv_numeric_to_long h)
numeric_to sql_c_slong h from to =
    if to.is_indicator_sql_da
    then (give conv_tag_numeric_to_long h)
    else (give conv_numeric_to_long h)
numeric_to sql_c_float h from to =
    if to.is_indicator_sql_da
    then (give conv_tag_numeric_to_float h)
    else (give conv_numeric_to_float h)
numeric_to sql_c_double h from to =
    if to.is_indicator_sql_da
    then (give conv_tag_numeric_to_double h)
    else (give conv_numeric_to_double h)
numeric_to sql_c_sbigint h from to =
    if to.is_indicator_sql_da
    then (give conv_tag_numeric_to_bigint h)
    else (give conv_numeric_to_bigint h)
numeric_to sql_c_ubigint h from to =
    if to.is_indicator_sql_da
    then (give conv_tag_numeric_to_bigint h)
    else (give conv_numeric_to_bigint h)
numeric_to sql_decimal h from to =
    if to.is_indicator_sql_da
    then (give conv_tag_numeric_to_bigint h)
    else (identical conv_numeric_to_tag_numeric h)
numeric_to sql_c_numeric h from to =
    if to.is_indicator_sql_da
    then (give conv_tag_numeric_to_bigint h)
    else (identical conv_numeric_to_tag_numeric h)
numeric_to _ h from to = give not_yet_implemented h
