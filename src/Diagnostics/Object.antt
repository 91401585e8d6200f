-- ===== src/Diagnostics/Object.antt =====
-- The class OdbcObject of OdbcObject.cpp: the errors and header fields of a handle.
use firebird_odbc_driver.Base.{
  ℕ, zero, suc, ltb, ◌==◌, get_elem?, ◌+◌, Bool, true, false, not, ◌||◌, Option, none, some, List,
  [], ◌∷◌, ◌++◌, if◌then◌else◌, length,
}
use firebird_odbc_driver.Base.Int.{ℤ, pos}
use firebird_odbc_driver.Diagnostics.Tables.{chars, same_code}
use firebird_odbc_driver.Diagnostics.Record.{
  DiagId, OdbcError, Sqlreturn, Stored, Targets, get_diag_field, get_diag_rec, given, new_error,
  nothing_stored, sql_no_data_found, sql_success, sql_success_with_info,
}

-- The part of a handle that OdbcObject.cpp keeps: the list of errors and the header fields.
pub record OdbcObject : Type 0 where
  pub errors : List OdbcError
  pub info_posted : Bool
  pub sql_diag_cursor_row_count : ℤ
  pub sql_diag_dynamic_function_code : ℤ
  pub sql_diag_number : ℤ
  pub sql_diag_return_code : ℤ
  pub sql_diag_row_count : ℤ

unfoldable pub new : OdbcObject
new = record {
  errors = [];
  info_posted = false;
  sql_diag_cursor_row_count = pos 0;
  sql_diag_dynamic_function_code = pos 0;
  sql_diag_number = pos 0;
  sql_diag_return_code = pos 0;
  sql_diag_row_count = pos 0;
}

-- `postError (error)`; `connection` is what `getConnection ()` of the handle answers.
unfoldable pub post_error : OdbcObject → Option (List ℕ × Option (List ℕ)) → OdbcError → OdbcObject
post_error o connection e = record o {
  errors = o.errors ++ record e { connection = connection } ∷ [];
  info_posted = true;
}

-- `sqlReturn`: the code given, once the error is posted.
unfoldable pub sql_return :
    OdbcObject
    → Option (List ℕ × Option (List ℕ))
    → Sqlreturn
    → (state message : List ℕ) → ℤ
    → OdbcObject × Sqlreturn
unfolding post_error new_error
sql_return o connection code state message native_code =
    (post_error o connection (new_error native_code state message), code)

unfoldable pub sql_success_of : OdbcObject → Sqlreturn
sql_success_of o = if o.info_posted then sql_success_with_info else sql_success

-- `clearErrors` leaves the cursor row count.
unfoldable pub clear_errors : OdbcObject → OdbcObject
clear_errors o = record o {
  errors = [];
  info_posted = false;
  sql_diag_dynamic_function_code = pos 0;
  sql_diag_number = pos 0;
  sql_diag_return_code = pos 0;
  sql_diag_row_count = pos 0;
}

-- The pointers `next` of the errors of a handle, each error at its place in the list: the last one has none.
unfoldable pub next_of : (count place : ℕ) → Option ℕ
next_of count place = if ltb (suc place) count then some (suc place) else none

-- `error->next = NULL`
unfoldable pub cut : (ℕ → Option ℕ) → (place : ℕ) → ℕ → Option ℕ
cut next place other = if other == place then none else next other

abbrev pub post_at : OdbcObject → Option (List ℕ × Option (List ℕ)) → Option OdbcError → OdbcObject
post_at o connection none = o
post_at o connection (some e) = post_error o connection e

-- The loop of `operator <<` over the errors `es` of the other handle. `postError` cuts the error that it takes
-- off those behind it, and the loop steps by the pointer that is left. A round for each error, and one more.
unfoldable pub transfer_loop :
    (fuel : ℕ)
    → List OdbcError
    → (next : ℕ → Option ℕ) → (place : Option ℕ) → OdbcObject
    → Option (List ℕ × Option (List ℕ))
    → OdbcObject
unfolding post_error cut
transfer_loop zero es next place o connection = o
transfer_loop (suc fuel) es next none o connection = o
transfer_loop (suc fuel) es next (some place) o connection =
    let left = cut next place in
    transfer_loop fuel es left (left place) (post_at o connection (get_elem? es place)) connection

abbrev pub first_place : List OdbcError → Option ℕ
first_place [] = none
first_place (e ∷ es) = some 0

unfoldable pub transfer_errors :
    OdbcObject → Option (List ℕ × Option (List ℕ)) → List OdbcError → OdbcObject
unfolding next_of transfer_loop
transfer_errors o connection es =
    transfer_loop (suc (length es)) es (next_of (length es)) (first_place es) o connection

-- `operator <<`: this object, then the other.
unfoldable pub transfer :
    OdbcObject → Option (List ℕ × Option (List ℕ)) → OdbcObject → OdbcObject × OdbcObject
unfolding transfer_errors clear_errors
transfer o connection obj = (
  record (transfer_errors o connection obj.errors) {
    info_posted = obj.info_posted;
    sql_diag_cursor_row_count = obj.sql_diag_cursor_row_count;
    sql_diag_dynamic_function_code = obj.sql_diag_dynamic_function_code;
    sql_diag_number = obj.sql_diag_number;
    sql_diag_return_code = obj.sql_diag_return_code;
    sql_diag_row_count = obj.sql_diag_row_count;
  },
  clear_errors obj,
)

-- `sqlError`: the first error is taken off the list. With none it stores through all pointers but
-- that of the native code, unchecked.
abbrev pub dequeue : OdbcObject → List OdbcError → Targets → ℤ → OdbcObject × Stored
dequeue o [] p size = (
  o,
  record {
    state = some (chars "00000");
    native = none;
    text = some [];
    text_length = some (pos 0);
    code = sql_no_data_found;
  },
)
dequeue o (e ∷ es) p size = (record o { errors = es }, get_diag_rec e p size)

unfoldable pub sql_error : OdbcObject → Targets → ℤ → OdbcObject × Stored
sql_error o p size = dequeue o o.errors p size

-- The walk to record `recNumber`, at the error of number `n`.
unfoldable pub find_record : List OdbcError → (n : ℕ) → ℤ → Option OdbcError
find_record [] n rec_number = none
find_record (e ∷ es) n rec_number =
    if same_code (pos n) rec_number then some e else find_record es (n + 1) rec_number

abbrev pub rec_of : Option OdbcError → Targets → ℤ → Stored
rec_of none p size = record {
  state = some (chars "00000");
  native = none;
  text = given p.has_text [];
  text_length = given p.has_length (pos 0);
  code = sql_no_data_found;
}
rec_of (some e) p size = get_diag_rec e p size

-- `OdbcObject::sqlGetDiagRec`
unfoldable pub object_diag_rec : OdbcObject → ℤ → Targets → ℤ → Stored
unfolding find_record get_diag_rec
object_diag_rec o rec_number p size = rec_of (find_record o.errors 1 rec_number) p size

-- The header fields of `OdbcObject::sqlGetDiagField`, and the fields of a record.
pub data Identifier : Type 0 where
  cursor_row_count : Identifier
  dynamic_function : Identifier
  dynamic_function_code : Identifier
  number_of_records : Identifier
  return_code : Identifier
  row_count : Identifier
  record_field : DiagId → Identifier

-- What stands at `ptr`, where a terminator was put first.
abbrev pub or_empty : Option ℤ → Option (List ℕ) → Option (List ℕ)
or_empty (some n) t = t
or_empty none none = some []
or_empty none (some t) = some t

-- The fields of a record need a buffer: with the length 0, or NULL, there is no data.
abbrev pub record_field_of : Option OdbcError → DiagId → Targets → ℤ → Stored
record_field_of none id p size = record (nothing_stored sql_no_data_found) { text = some [] }
record_field_of (some e) id p size =
    let r = get_diag_field e id p size in record r { text = or_empty r.native r.text }

-- `OdbcObject::sqlGetDiagField`. A header field goes through `ptr` unchecked.
unfoldable pub object_diag_field : OdbcObject → ℤ → Identifier → Targets → ℤ → Stored
unfolding find_record get_diag_field
object_diag_field o rec_number cursor_row_count p size = record (nothing_stored sql_success) {
  native = some o.sql_diag_cursor_row_count;
}
object_diag_field o rec_number dynamic_function p size = record (nothing_stored sql_success) {
  text = some [];
}
object_diag_field o rec_number dynamic_function_code p size = record (nothing_stored sql_success) {
  native = some o.sql_diag_dynamic_function_code;
}
object_diag_field o rec_number number_of_records p size = record (nothing_stored sql_success) {
  native = some (pos (length o.errors));
}
object_diag_field o rec_number return_code p size = record (nothing_stored sql_success) {
  native = some o.sql_diag_return_code;
}
object_diag_field o rec_number row_count p size = record (nothing_stored sql_success) {
  native = some o.sql_diag_row_count;
}
object_diag_field o rec_number (record_field id) p size =
    if same_code size (pos 0) || not p.has_text
    then nothing_stored sql_no_data_found
    else record_field_of (find_record o.errors 1 rec_number) id p size
