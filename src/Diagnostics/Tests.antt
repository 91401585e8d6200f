-- ===== src/Diagnostics/Tests.antt =====
-- Runs of OdbcError.cpp and OdbcObject.cpp.
use firebird_odbc_driver.Base.{◌≡◌, refl, true, false, none, some, [], ◌∷◌}
use firebird_odbc_driver.Base.Int.{pos}
use firebird_odbc_driver.Diagnostics.Tables.{
  chars, minus, list_sql_error_link, default_calc_hash, find_error,
}
use firebird_odbc_driver.Diagnostics.Record.{OdbcError, Targets}
use firebird_odbc_driver.Diagnostics.Object.{OdbcObject, rec_of, transfer, object_diag_rec}
use firebird_odbc_driver.Diagnostics.Lookup.{scan, find_error-scan}
use firebird_odbc_driver.Diagnostics.Queue.{post_all, object_diag_rec-post_all, transfer-first}

abbrev sample : OdbcError
sample = record {
  sql_state = chars "42S02";
  native_code = minus 204;
  msg = chars "[ODBC Firebird Driver]no table";
  row_number = pos 0;
  column_number = pos 0;
  connection = none;
}

abbrev other_sample : OdbcError
other_sample = record sample { sql_state = chars "HY000"; native_code = pos 5 }

abbrev empty_object : OdbcObject
empty_object = record {
  errors = [];
  info_posted = false;
  sql_diag_cursor_row_count = pos 0;
  sql_diag_dynamic_function_code = pos 0;
  sql_diag_number = pos 0;
  sql_diag_return_code = pos 0;
  sql_diag_row_count = pos 0;
}

abbrev full_object : OdbcObject
full_object = record empty_object { errors = sample ∷ other_sample ∷ [] }

abbrev all_targets : Targets
all_targets = record { has_state = true; has_native = true; has_text = true; has_length = true }

find_error-scan_example :
    find_error default_calc_hash list_sql_error_link (minus 204)
    ≡ scan (minus 204) list_sql_error_link none
find_error-scan_example = find_error-scan default_calc_hash (minus 204) list_sql_error_link

object_diag_rec-post_all_example :
    object_diag_rec
      (post_all empty_object none (sample ∷ other_sample ∷ []))
      (pos 2)
      all_targets
      (pos 10)
    ≡ rec_of (some other_sample) all_targets (pos 10)
object_diag_rec-post_all_example =
    object_diag_rec-post_all empty_object none (sample ∷ other_sample ∷ []) 1 all_targets (pos 10)
      refl

transfer-first_example :
    ((transfer empty_object none full_object).0.errors ≡ sample ∷ [])
    × ((transfer empty_object none full_object).1.errors ≡ [])
    × ((transfer empty_object none full_object).0.info_posted ≡ false)
    × ((transfer empty_object none full_object).0.sql_diag_row_count ≡ pos 0)
transfer-first_example =
    transfer-first empty_object full_object none sample (other_sample ∷ []) refl
