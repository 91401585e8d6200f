-- ===== src/Convert/Dispatch/Names.antt =====
-- The conversions of OdbcConvert.cpp, by the names of the member functions.

pub data Conversion : Type 0 where
  conv_tiny_int_to_boolean : Conversion
  conv_tiny_int_to_tiny_int : Conversion
  conv_tiny_int_to_short : Conversion
  conv_tiny_int_to_long : Conversion
  conv_tiny_int_to_float : Conversion
  conv_tiny_int_to_double : Conversion
  conv_tiny_int_to_bigint : Conversion
  conv_tiny_int_to_string : Conversion
  conv_tiny_int_to_string_w : Conversion
  conv_tiny_int_to_tag_numeric : Conversion
  not_yet_implemented : Conversion
  conv_short_to_boolean : Conversion
  conv_short_to_tiny_int_with_scale : Conversion
  conv_short_to_tiny_int : Conversion
  conv_short_to_short_with_scale : Conversion
  conv_short_to_short : Conversion
  conv_short_to_long_with_scale : Conversion
  conv_short_to_long : Conversion
  conv_short_to_float_with_scale : Conversion
  conv_short_to_float : Conversion
  conv_short_to_double_with_scale : Conversion
  conv_short_to_double : Conversion
  conv_short_to_bigint : Conversion
  conv_short_to_string : Conversion
  conv_short_to_string_w : Conversion
  conv_short_to_tag_numeric : Conversion
  conv_long_to_boolean : Conversion
  conv_long_to_tiny_int_with_scale : Conversion
  conv_long_to_tiny_int : Conversion
  conv_long_to_short_with_scale : Conversion
  conv_long_to_short : Conversion
  conv_long_to_long_with_scale : Conversion
  conv_long_to_long : Conversion
  conv_long_to_float_with_scale : Conversion
  conv_long_to_float : Conversion
  conv_long_to_double_with_scale : Conversion
  conv_long_to_double : Conversion
  conv_long_to_bigint_with_scale : Conversion
  conv_long_to_bigint : Conversion
  conv_long_to_string : Conversion
  conv_long_to_string_w : Conversion
  conv_long_to_tag_numeric : Conversion
  conv_float_to_boolean : Conversion
  conv_float_to_tiny_int : Conversion
  conv_float_to_short : Conversion
  conv_float_to_long : Conversion
  conv_float_to_float : Conversion
  conv_float_to_double : Conversion
  conv_float_to_bigint : Conversion
  conv_float_to_string : Conversion
  conv_float_to_string_w : Conversion
  conv_double_to_boolean : Conversion
  conv_double_to_tiny_int : Conversion
  conv_double_to_short : Conversion
  conv_double_to_long : Conversion
  conv_double_to_float : Conversion
  conv_double_to_double : Conversion
  conv_double_to_bigint : Conversion
  conv_double_to_string : Conversion
  conv_double_to_string_w : Conversion
  conv_double_to_tag_numeric : Conversion
  conv_bigint_to_boolean : Conversion
  conv_bigint_to_tiny_int : Conversion
  conv_bigint_to_short : Conversion
  conv_bigint_to_long : Conversion
  conv_bigint_to_float_with_scale : Conversion
  conv_bigint_to_float : Conversion
  conv_bigint_to_double_with_scale : Conversion
  conv_bigint_to_double : Conversion
  conv_bigint_to_bigint : Conversion
  conv_bigint_to_binary : Conversion
  conv_bigint_to_string : Conversion
  conv_bigint_to_string_w : Conversion
  conv_bigint_to_tag_numeric : Conversion
  conv_numeric_to_boolean : Conversion
  conv_tag_numeric_to_tiny_int : Conversion
  conv_numeric_to_tiny_int : Conversion
  conv_tag_numeric_to_short : Conversion
  conv_numeric_to_short : Conversion
  conv_tag_numeric_to_long : Conversion
  conv_numeric_to_long : Conversion
  conv_tag_numeric_to_float : Conversion
  conv_numeric_to_float : Conversion
  conv_tag_numeric_to_double : Conversion
  conv_numeric_to_double : Conversion
  conv_tag_numeric_to_bigint : Conversion
  conv_numeric_to_bigint : Conversion
  conv_numeric_to_tag_numeric : Conversion
  conv_date_to_long : Conversion
  conv_date_to_float : Conversion
  conv_date_to_double : Conversion
  conv_date_to_bigint : Conversion
  transfer_tag_date_to_date : Conversion
  conv_date_to_tag_date : Conversion
  transfer_tag_date_to_date_time : Conversion
  conv_date_to_tag_timestamp : Conversion
  conv_date_to_binary : Conversion
  conv_date_to_string : Conversion
  conv_date_to_string_w : Conversion
  conv_time_to_long : Conversion
  conv_time_to_float : Conversion
  conv_time_to_double : Conversion
  conv_time_to_bigint : Conversion
  transfer_tag_time_to_time : Conversion
  conv_time_to_tag_time : Conversion
  transfer_tag_time_to_date_time : Conversion
  conv_time_to_tag_timestamp : Conversion
  conv_time_to_binary : Conversion
  conv_time_to_string : Conversion
  conv_time_to_string_w : Conversion
  conv_date_time_to_double : Conversion
  conv_date_time_to_bigint : Conversion
  transfer_tag_date_time_to_date : Conversion
  conv_date_time_to_tag_date : Conversion
  transfer_tag_date_time_to_time : Conversion
  conv_date_time_to_tag_time : Conversion
  transfer_tag_date_time_to_date_time : Conversion
  conv_date_time_to_tag_date_time : Conversion
  conv_date_time_to_binary : Conversion
  conv_date_time_to_string : Conversion
  conv_date_time_to_string_w : Conversion
  transfer_binary_string_to_allowed_type : Conversion
  conv_blob_to_tiny_int : Conversion
  conv_blob_to_short : Conversion
  conv_blob_to_long : Conversion
  conv_blob_to_float : Conversion
  conv_blob_to_double : Conversion
  conv_blob_to_bigint : Conversion
  conv_binary_to_blob : Conversion
  conv_blob_to_blob : Conversion
  conv_blob_to_string : Conversion
  conv_blob_to_string_w : Conversion
  conv_var_string_to_tiny_int : Conversion
  conv_var_string_to_long : Conversion
  conv_var_string_to_short : Conversion
  conv_var_string_to_float : Conversion
  conv_var_string_to_double : Conversion
  conv_var_string_to_bigint : Conversion
  conv_var_string_system_to_string : Conversion
  conv_var_string_to_string : Conversion
  conv_var_string_system_to_string_w : Conversion
  conv_var_string_to_string_w : Conversion
  conv_var_string_to_binary : Conversion
  transfer_string_to_allowed_type : Conversion
  conv_string_to_long : Conversion
  transfer_string_to_tiny_int : Conversion
  conv_string_to_tiny_int : Conversion
  conv_string_to_short : Conversion
  conv_string_to_float : Conversion
  conv_string_to_double : Conversion
  conv_string_to_bigint : Conversion
  conv_string_to_blob : Conversion
  conv_string_to_var_string : Conversion
  conv_string_to_string : Conversion
  conv_string_to_string_w : Conversion
  conv_string_to_binary : Conversion
  transfer_string_to_date_time : Conversion
  conv_var_string_w_to_tiny_int : Conversion
  conv_var_string_w_to_long : Conversion
  conv_var_string_w_to_short : Conversion
  conv_var_string_w_to_float : Conversion
  conv_var_string_w_to_double : Conversion
  conv_var_string_w_to_bigint : Conversion
  transfer_string_w_to_allowed_type : Conversion
  conv_string_w_to_blob : Conversion
  transfer_string_w_to_date_time : Conversion
  conv_guid_to_string : Conversion
  conv_guid_to_string_w : Conversion
  transfer_array_string_to_allowed_type : Conversion
