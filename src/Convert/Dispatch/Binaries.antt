-- ===== src/Convert/Dispatch/Binaries.antt =====
-- `getAdressFunction` of OdbcConvert.cpp, from binary data and GUIDs: the inner switches, with the head `h` of the target
-- as the function has found it.
use firebird_odbc_driver.Base.{Option, if◌then◌else◌, ◌&&◌}
use firebird_odbc_driver.Convert.Dispatch.{
  ConciseType, Head, DescType, Answer, give, set_type_text, sql_c_binary, sql_c_char, sql_c_double,
  sql_c_float, sql_c_long, sql_c_sbigint, sql_c_short, sql_c_slong, sql_c_sshort, sql_c_stinyint,
  sql_c_tinyint, sql_c_ubigint, sql_c_ulong, sql_c_ushort, sql_c_utinyint, sql_c_wchar,
}
use firebird_odbc_driver.Convert.Dispatch.Names.{
  conv_binary_to_blob, conv_blob_to_bigint, conv_blob_to_blob, conv_blob_to_double,
  conv_blob_to_float, conv_blob_to_long, conv_blob_to_short, conv_blob_to_string,
  conv_blob_to_string_w, conv_blob_to_tiny_int, conv_guid_to_string, conv_guid_to_string_w,
  conv_long_to_long, not_yet_implemented, transfer_binary_string_to_allowed_type,
}

-- From SQL_C_BINARY.
unfoldable pub binary_to : ConciseType → Head → DescType → DescType → Option Answer
binary_to sql_c_tinyint h from to =
    if to.is_indicator_sql_da
    then (give transfer_binary_string_to_allowed_type (set_type_text h))
    else (give conv_blob_to_tiny_int h)
binary_to sql_c_utinyint h from to =
    if to.is_indicator_sql_da
    then (give transfer_binary_string_to_allowed_type (set_type_text h))
    else (give conv_blob_to_tiny_int h)
binary_to sql_c_stinyint h from to =
    if to.is_indicator_sql_da
    then (give transfer_binary_string_to_allowed_type (set_type_text h))
    else (give conv_blob_to_tiny_int h)
binary_to sql_c_short h from to =
    if to.is_indicator_sql_da
    then (give transfer_binary_string_to_allowed_type (set_type_text h))
    else (give conv_blob_to_short h)
binary_to sql_c_ushort h from to =
    if to.is_indicator_sql_da
    then (give transfer_binary_string_to_allowed_type (set_type_text h))
    else (give conv_blob_to_short h)
binary_to sql_c_sshort h from to =
    if to.is_indicator_sql_da
    then (give transfer_binary_string_to_allowed_type (set_type_text h))
    else (give conv_blob_to_short h)
binary_to sql_c_long h from to =
    if to.is_indicator_sql_da
    then (give transfer_binary_string_to_allowed_type (set_type_text h))
    else (give conv_blob_to_long h)
binary_to sql_c_ulong h from to =
    if to.is_indicator_sql_da
    then (give transfer_binary_string_to_allowed_type (set_type_text h))
    else (give conv_blob_to_long h)
binary_to sql_c_slong h from to =
    if to.is_indicator_sql_da
    then (give transfer_binary_string_to_allowed_type (set_type_text h))
    else (give conv_blob_to_long h)
binary_to sql_c_float h from to =
    if to.is_indicator_sql_da
    then (give transfer_binary_string_to_allowed_type (set_type_text h))
    else (give conv_blob_to_float h)
binary_to sql_c_double h from to =
    if to.is_indicator_sql_da
    then (give transfer_binary_string_to_allowed_type (set_type_text h))
    else (give conv_blob_to_double h)
binary_to sql_c_sbigint h from to =
    if to.is_indicator_sql_da
    then (give transfer_binary_string_to_allowed_type (set_type_text h))
    else (give conv_blob_to_bigint h)
binary_to sql_c_ubigint h from to =
    if to.is_indicator_sql_da
    then (give transfer_binary_string_to_allowed_type (set_type_text h))
    else (give conv_blob_to_bigint h)
binary_to sql_c_char h from to =
    if to.is_indicator_sql_da && to.is_blob_or_array
    then (give conv_binary_to_blob h)
    else (give conv_blob_to_string h)
binary_to sql_c_wchar h from to = give conv_blob_to_string_w h
binary_to sql_c_binary h from to =
    if to.is_indicator_sql_da
    then (give conv_binary_to_blob h)
    else (if to.is_zero_column then (give conv_long_to_long h) else (give conv_blob_to_blob h))
binary_to _ h from to = give not_yet_implemented h

-- From SQL_C_GUID.
unfoldable pub guid_to : ConciseType → Head → DescType → DescType → Option Answer
guid_to sql_c_char h from to = give conv_guid_to_string h
guid_to sql_c_wchar h from to = give conv_guid_to_string_w h
guid_to _ h from to = give not_yet_implemented h
