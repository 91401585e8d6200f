-- ===== src/Convert/Dispatch/Texts.antt =====
-- `getAdressFunction` of OdbcConvert.cpp, from texts of chars: the inner switches, with the head `h` of the target
-- as the function has found it.
use firebird_odbc_driver.Base.{Bool, Option, if◌then◌else◌, ◌&&◌}
use firebird_odbc_driver.Convert.Dispatch.{
  ConciseType, Head, DescType, Answer, give, identical, set_type_text, is_varying, sql_c_binary,
  sql_c_char, sql_c_date, sql_c_double, sql_c_float, sql_c_long, sql_c_sbigint, sql_c_short,
  sql_c_slong, sql_c_sshort, sql_c_stinyint, sql_c_time, sql_c_timestamp, sql_c_tinyint,
  sql_c_type_date, sql_c_type_time, sql_c_type_timestamp, sql_c_ubigint, sql_c_ulong, sql_c_ushort,
  sql_c_utinyint, sql_c_wchar,
}
use firebird_odbc_driver.Convert.Dispatch.Names.{
  conv_blob_to_blob, conv_blob_to_string, conv_blob_to_string_w, conv_string_to_bigint,
  conv_string_to_binary, conv_string_to_blob, conv_string_to_double, conv_string_to_float,
  conv_string_to_long, conv_string_to_short, conv_string_to_string, conv_string_to_string_w,
  conv_string_to_tiny_int, conv_string_to_var_string, conv_var_string_system_to_string,
  conv_var_string_system_to_string_w, conv_var_string_to_bigint, conv_var_string_to_binary,
  conv_var_string_to_double, conv_var_string_to_float, conv_var_string_to_long,
  conv_var_string_to_short, conv_var_string_to_string, conv_var_string_to_string_w,
  conv_var_string_to_tiny_int, not_yet_implemented, transfer_string_to_allowed_type,
  transfer_string_to_date_time, transfer_string_to_tiny_int,
}

-- From SQL_C_CHAR, a varying text.
unfoldable pub var_char_to :
    (system_catalog : Bool) → ConciseType → Head → DescType → DescType → Option Answer
var_char_to system_catalog sql_c_tinyint h from to = give conv_var_string_to_tiny_int h
var_char_to system_catalog sql_c_utinyint h from to = give conv_var_string_to_tiny_int h
var_char_to system_catalog sql_c_stinyint h from to = give conv_var_string_to_tiny_int h
var_char_to system_catalog sql_c_short h from to = give conv_var_string_to_short h
var_char_to system_catalog sql_c_ushort h from to = give conv_var_string_to_short h
var_char_to system_catalog sql_c_sshort h from to = give conv_var_string_to_short h
var_char_to system_catalog sql_c_long h from to = give conv_var_string_to_long h
var_char_to system_catalog sql_c_ulong h from to = give conv_var_string_to_long h
var_char_to system_catalog sql_c_slong h from to = give conv_var_string_to_long h
var_char_to system_catalog sql_c_float h from to = give conv_var_string_to_float h
var_char_to system_catalog sql_c_double h from to = give conv_var_string_to_double h
var_char_to system_catalog sql_c_sbigint h from to = give conv_var_string_to_bigint h
var_char_to system_catalog sql_c_ubigint h from to = give conv_var_string_to_bigint h
var_char_to system_catalog sql_c_char h from to =
    if from.is_indicator_sql_da && from.has_data_blob
    then (give conv_blob_to_string h)
    else (if system_catalog
        then (identical conv_var_string_system_to_string h)
        else (identical conv_var_string_to_string h))
var_char_to system_catalog sql_c_wchar h from to =
    if from.is_indicator_sql_da && from.has_data_blob
    then (give conv_blob_to_string_w h)
    else (if system_catalog
        then (give conv_var_string_system_to_string_w h)
        else (give conv_var_string_to_string_w h))
var_char_to system_catalog sql_c_binary h from to =
    if from.is_indicator_sql_da && from.has_data_blob
    then (give conv_blob_to_blob h)
    else (give conv_var_string_to_binary h)
var_char_to system_catalog _ h from to = give not_yet_implemented h

-- From SQL_C_CHAR, any other text.
unfoldable pub text_char_to : ConciseType → Head → DescType → DescType → Option Answer
text_char_to sql_c_tinyint h from to =
    if to.is_indicator_sql_da
    then (give transfer_string_to_tiny_int (set_type_text h))
    else (give conv_string_to_tiny_int h)
text_char_to sql_c_utinyint h from to =
    if to.is_indicator_sql_da
    then (give transfer_string_to_tiny_int (set_type_text h))
    else (give conv_string_to_tiny_int h)
text_char_to sql_c_stinyint h from to =
    if to.is_indicator_sql_da
    then (give transfer_string_to_tiny_int (set_type_text h))
    else (give conv_string_to_tiny_int h)
text_char_to sql_c_short h from to =
    if to.is_indicator_sql_da
    then (give transfer_string_to_allowed_type (set_type_text h))
    else (give conv_string_to_short h)
text_char_to sql_c_ushort h from to =
    if to.is_indicator_sql_da
    then (give transfer_string_to_allowed_type (set_type_text h))
    else (give conv_string_to_short h)
text_char_to sql_c_sshort h from to =
    if to.is_indicator_sql_da
    then (give transfer_string_to_allowed_type (set_type_text h))
    else (give conv_string_to_short h)
text_char_to sql_c_long h from to =
    if to.is_indicator_sql_da
    then (give transfer_string_to_allowed_type (set_type_text h))
    else (give conv_string_to_long h)
text_char_to sql_c_ulong h from to =
    if to.is_indicator_sql_da
    then (give transfer_string_to_allowed_type (set_type_text h))
    else (give conv_string_to_long h)
text_char_to sql_c_slong h from to =
    if to.is_indicator_sql_da
    then (give transfer_string_to_allowed_type (set_type_text h))
    else (give conv_string_to_long h)
text_char_to sql_c_float h from to =
    if to.is_indicator_sql_da
    then (give transfer_string_to_allowed_type (set_type_text h))
    else (give conv_string_to_float h)
text_char_to sql_c_double h from to =
    if to.is_indicator_sql_da
    then (give transfer_string_to_allowed_type (set_type_text h))
    else (give conv_string_to_double h)
text_char_to sql_c_sbigint h from to =
    if to.is_indicator_sql_da
    then (give transfer_string_to_allowed_type (set_type_text h))
    else (give conv_string_to_bigint h)
text_char_to sql_c_ubigint h from to =
    if to.is_indicator_sql_da
    then (give transfer_string_to_allowed_type (set_type_text h))
    else (give conv_string_to_bigint h)
text_char_to sql_c_char h from to =
    if is_varying to.column_type
    then (if to.is_indicator_sql_da
        then (if to.is_blob_or_array
            then (give conv_string_to_blob h)
            else (give transfer_string_to_allowed_type (set_type_text h)))
        else (give conv_string_to_var_string h))
    else (if to.is_indicator_sql_da
        then (give transfer_string_to_allowed_type (set_type_text h))
        else (identical conv_string_to_string h))
text_char_to sql_c_wchar h from to =
    if is_varying to.column_type
    then (if to.is_indicator_sql_da
        then (if to.is_blob_or_array
            then (give conv_string_to_blob h)
            else (give transfer_string_to_allowed_type (set_type_text h)))
        else (give conv_string_to_var_string h))
    else (if to.is_indicator_sql_da
        then (give transfer_string_to_allowed_type (set_type_text h))
        else (give conv_string_to_string_w h))
text_char_to sql_c_binary h from to =
    if to.is_indicator_sql_da then (give conv_string_to_blob h) else (give conv_string_to_binary h)
text_char_to sql_c_type_date h from to =
    if to.is_indicator_sql_da
    then (give transfer_string_to_date_time (set_type_text h))
    else (give not_yet_implemented h)
text_char_to sql_c_date h from to =
    if to.is_indicator_sql_da
    then (give transfer_string_to_date_time (set_type_text h))
    else (give not_yet_implemented h)
text_char_to sql_c_type_timestamp h from to =
    if to.is_indicator_sql_da
    then (give transfer_string_to_date_time (set_type_text h))
    else (give not_yet_implemented h)
text_char_to sql_c_timestamp h from to =
    if to.is_indicator_sql_da
    then (give transfer_string_to_date_time (set_type_text h))
    else (give not_yet_implemented h)
text_char_to sql_c_type_time h from to =
    if to.is_indicator_sql_da
    then (give transfer_string_to_date_time (set_type_text h))
    else (give not_yet_implemented h)
text_char_to sql_c_time h from to =
    if to.is_indicator_sql_da
    then (give transfer_string_to_date_time (set_type_text h))
    else (give not_yet_implemented h)
text_char_to _ h from to = give not_yet_implemented h
