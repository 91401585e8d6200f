-- ===== src/Convert/Dispatch/Tests.antt =====
-- Choices of `getAdressFunction`, and its theorems at concrete records.
use firebird_odbc_driver.Base.{true, false, none, some, ◌&&◌, ◌≡◌, ◌↔◌, refl}
use firebird_odbc_driver.Base.Int.{pos}
use firebird_odbc_driver.Convert.Dispatch.{
  Head, type_varying, DescType, Answer, jdbc_other, sql_c_ulong, sql_c_numeric, sql_c_sshort,
  sql_c_guid, sql_c_char, sql_c_long, set_head_sql_var, set_type_text,
}
use firebird_odbc_driver.Convert.Dispatch.Names.{transfer_string_to_allowed_type}
use firebird_odbc_driver.Convert.Dispatch.Texts.{text_char_to}
use firebird_odbc_driver.Convert.Dispatch.Select.{char_to, select, get_adress_function}
use firebird_odbc_driver.Convert.Dispatch.Aliases.{canon, get_adress_function-canon}
use firebird_odbc_driver.Convert.Dispatch.Heads.{is_text_transfer}
use firebird_odbc_driver.Convert.Dispatch.Nulls.{is_short, is_unnamed, get_adress_function_null}

-- A column of varying text.
abbrev varying_head : Head
varying_head = record { sql_type = type_varying; sql_len = 30; sql_scale = pos 0; sql_subtype = 4 }

-- A record of the application, and one of a parameter of the server.
abbrev of_app : DescType
of_app = record {
  column_type = jdbc_other;
  scale = pos 0;
  is_indicator_sql_da = false;
  is_zero_column = false;
  is_blob_or_array = false;
  has_data_blob = false;
  is_array = false;
  is_replace_for_param_array = false;
  head = varying_head;
}

abbrev of_server : DescType
of_server = record of_app { is_indicator_sql_da = true; scale = pos 2 }

get_adress_function-canon_example :
    get_adress_function false (canon sql_c_ulong) (canon sql_c_numeric) of_server of_app
    ≡ get_adress_function false sql_c_ulong sql_c_numeric of_server of_app
get_adress_function-canon_example =
    get_adress_function-canon false sql_c_ulong sql_c_numeric of_server of_app

abbrev text_answer : Answer
text_answer = record {
  function = transfer_string_to_allowed_type;
  identity = false;
  head = set_type_text (set_head_sql_var sql_c_long of_server);
}

text_chosen : get_adress_function false sql_c_char sql_c_long of_app of_server ≡ some text_answer
unfolding get_adress_function select char_to text_char_to
text_chosen = refl

text_transferred : is_text_transfer text_answer.function ≡ true
unfolding is_text_transfer
text_transferred = refl

get_adress_function_null_example :
    (get_adress_function true sql_c_sshort sql_c_guid of_server of_app ≡ none)
    ↔ ((is_short sql_c_sshort && is_unnamed sql_c_guid) ≡ true)
get_adress_function_null_example =
    get_adress_function_null true sql_c_sshort sql_c_guid of_server of_app
