-- ===== src/Convert/Dispatch.antt =====
-- `getAdressFunction` of OdbcConvert.cpp: the conversion for a pair of records is chosen by their types.
-- The pointer to a member function is its name in `Conversion`, NULL is `none`.
pub mod Names
pub mod Numbers
pub mod Decimals
pub mod Times
pub mod Binaries
pub mod Texts
pub mod Wides
pub mod Select
pub mod Aliases
pub mod Heads
pub mod Nulls
mod Tests
use firebird_odbc_driver.Base.{
  ℕ, zero, suc, Bool, true, false, ◌||◌, ◌&&◌, Option, none, some, if◌then◌else◌,
}
use firebird_odbc_driver.Base.Int.{ℤ, pos, negsuc, ◌-ℤ◌}
use firebird_odbc_driver.Convert.Dispatch.Names.{Conversion}

-- The codes of `conciseType` that the switches name, and any other.
pub data ConciseType : Type 0 where
  sql_c_bit : ConciseType
  sql_c_tinyint : ConciseType
  sql_c_utinyint : ConciseType
  sql_c_stinyint : ConciseType
  sql_c_short : ConciseType
  sql_c_ushort : ConciseType
  sql_c_sshort : ConciseType
  sql_c_long : ConciseType
  sql_c_ulong : ConciseType
  sql_c_slong : ConciseType
  sql_c_float : ConciseType
  sql_c_double : ConciseType
  sql_c_sbigint : ConciseType
  sql_c_ubigint : ConciseType
  sql_c_char : ConciseType
  sql_c_wchar : ConciseType
  sql_decimal : ConciseType
  sql_c_numeric : ConciseType
  sql_c_binary : ConciseType
  sql_c_type_date : ConciseType
  sql_c_date : ConciseType
  sql_c_type_timestamp : ConciseType
  sql_c_timestamp : ConciseType
  sql_c_type_time : ConciseType
  sql_c_time : ConciseType
  sql_c_guid : ConciseType
  sql_other : ConciseType

-- The types that `HeadSqlVar` gives a parameter or tests for, and any other.
pub data HeadType : Type 0 where
  type_text : HeadType
  type_varying : HeadType
  type_short : HeadType
  type_long : HeadType
  type_float : HeadType
  type_double : HeadType
  type_int64 : HeadType
  type_boolean : HeadType
  type_date : HeadType
  type_time : HeadType
  type_timestamp : HeadType
  type_array : HeadType
  type_blob : HeadType
  type_other : HeadType

-- The fields of `sqlvar` behind `to->headSqlVarPtr` that its members set.
pub record Head : Type 0 where
  pub sql_type : HeadType
  pub sql_len : ℕ
  pub sql_scale : ℤ
  pub sql_subtype : ℕ

-- The values of `type` that the tests name, and any other.
pub data ColumnType : Type 0 where
  jdbc_varchar : ColumnType
  jdbc_longvarchar : ColumnType
  jdbc_wchar : ColumnType
  jdbc_wvarchar : ColumnType
  jdbc_wlongvarchar : ColumnType
  jdbc_other : ColumnType

-- The fields of `DescRecord` that the choice reads, but for `conciseType`, which is an argument of its own. `has_data_blob` says that `dataBlobPtr` is not NULL,
-- `is_array` what it answers, `is_replace_for_param_array` what `headSqlVarPtr` answers; `head` is what it leads
-- to when the choice begins.
pub record DescType : Type 0 where
  pub column_type : ColumnType
  pub scale : ℤ
  pub is_indicator_sql_da : Bool
  pub is_zero_column : Bool
  pub is_blob_or_array : Bool
  pub has_data_blob : Bool
  pub is_array : Bool
  pub is_replace_for_param_array : Bool
  pub head : Head

-- The conversion, `bIdentity`, and what became of the head.
pub record Answer : Type 0 where
  pub function : Conversion
  pub identity : Bool
  pub head : Head

abbrev pub give : Conversion → Head → Option Answer
give f h = some (record { function = f; identity = false; head = h })

abbrev pub identical : Conversion → Head → Option Answer
identical f h = some (record { function = f; identity = true; head = h })

abbrev pub is_text : HeadType → Bool
is_text type_text = true
is_text _ = false

abbrev pub is_text_or_varying : HeadType → Bool
is_text_or_varying type_text = true
is_text_or_varying type_varying = true
is_text_or_varying _ = false

abbrev pub is_blob_head : HeadType → Bool
is_blob_head type_blob = true
is_blob_head type_array = true
is_blob_head _ = false

-- `IscHeadSqlVar::setTypeText`, which keeps the length, the scale of a text, and the subtype of a text or a
-- varying text.
abbrev pub set_type_text : Head → Head
set_type_text h = record h {
  sql_type = type_text;
  sql_scale = if is_text h.sql_type then h.sql_scale else pos 0;
  sql_subtype = if is_text_or_varying h.sql_type then h.sql_subtype else 0;
}

-- `MAKEHEAD`
abbrev pub make_head : HeadType → (size : ℕ) → Head → Head
make_head t size h = record h {
  sql_type = t;
  sql_len = size;
  sql_scale = pos 0;
  sql_subtype = if is_blob_head t then h.sql_subtype else 0;
}

abbrev pub is_zero : ℤ → Bool
is_zero (pos zero) = true
is_zero _ = false

-- `from->scale || to->scale`
abbrev pub scaled : DescType → DescType → Bool
scaled from to = if is_zero from.scale then (if is_zero to.scale then false else true) else true

-- The tests of `type`; SQL_VARCHAR and SQL_LONGVARCHAR are the codes of JDBC_VARCHAR and
-- JDBC_LONGVARCHAR.
abbrev pub is_varying : ColumnType → Bool
is_varying jdbc_varchar = true
is_varying jdbc_longvarchar = true
is_varying _ = false

abbrev pub is_varying_w : ColumnType → Bool
is_varying_w jdbc_varchar = true
is_varying_w jdbc_wvarchar = true
is_varying_w jdbc_longvarchar = true
is_varying_w jdbc_wlongvarchar = true
is_varying_w _ = false

abbrev pub is_wide : ColumnType → Bool
is_wide jdbc_wvarchar = true
is_wide jdbc_wchar = true
is_wide _ = false

-- A type of a size, and `setSqlScale (-to->scale)`.
abbrev with_scale : HeadType → (size : ℕ) → DescType → Head
with_scale t size to = record (make_head t size to.head) { sql_scale = pos 0 -ℤ to.scale }

abbrev text_or_blob : DescType → Head
text_or_blob to =
    if to.is_indicator_sql_da && to.has_data_blob
    then (if to.is_array then make_head type_array 8 to.head else make_head type_blob 8 to.head)
    else set_type_text to.head

-- `OdbcConvert::setHeadSqlVar`: what it leaves of `to.head`.
unfoldable pub set_head_sql_var : ConciseType → DescType → Head
set_head_sql_var sql_c_char to = text_or_blob to
set_head_sql_var sql_c_wchar to = text_or_blob to
set_head_sql_var sql_c_tinyint to = record (set_type_text to.head) { sql_len = 1 }
set_head_sql_var sql_c_stinyint to = record (set_type_text to.head) { sql_len = 1 }
set_head_sql_var sql_c_utinyint to = record (set_type_text to.head) { sql_len = 1 }
set_head_sql_var sql_c_short to = with_scale type_short 2 to
set_head_sql_var sql_c_sshort to = with_scale type_short 2 to
set_head_sql_var sql_c_ushort to = with_scale type_short 2 to
set_head_sql_var sql_c_long to = with_scale type_long 4 to
set_head_sql_var sql_c_slong to = with_scale type_long 4 to
set_head_sql_var sql_c_ulong to = with_scale type_long 4 to
set_head_sql_var sql_c_float to = make_head type_float 4 to.head
set_head_sql_var sql_c_double to = with_scale type_double 8 to
set_head_sql_var sql_c_sbigint to = with_scale type_int64 8 to
set_head_sql_var sql_c_ubigint to = with_scale type_int64 8 to
set_head_sql_var sql_c_bit to = make_head type_boolean 1 to.head
set_head_sql_var sql_c_date to = make_head type_date 4 to.head
set_head_sql_var sql_c_type_date to = make_head type_date 4 to.head
set_head_sql_var sql_c_time to = make_head type_time 4 to.head
set_head_sql_var sql_c_type_time to = make_head type_time 4 to.head
set_head_sql_var sql_c_timestamp to = make_head type_timestamp 8 to.head
set_head_sql_var sql_c_type_timestamp to = make_head type_timestamp 8 to.head
set_head_sql_var _ to = to.head
