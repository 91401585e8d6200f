-- ===== src/Diagnostics/Record.antt =====
-- The class OdbcError of OdbcError.cpp: one diagnostic record.
use firebird_odbc_driver.Base.{
  ℕ, ◌-◌, ◌%◌, ltb, Bool, false, not, ◌&&◌, ◌||◌, Option, none, some, List, [], ◌++◌, leb, ◌==◌,
  if◌then◌else◌, length, take, get_or,
}
use firebird_odbc_driver.Base.Int.{ℤ, pos, negsuc, pos_part}
use firebird_odbc_driver.Diagnostics.Tables.{
  chars, same_code, list_sql_error_link, list_error_link, codes, default_calc_hash,
  fb_error_calc_hash, find_error, find_state,
}

pub data Sqlreturn : Type 0 where
  sql_success : Sqlreturn
  sql_success_with_info : Sqlreturn
  sql_no_data_found : Sqlreturn
  sql_error_code : Sqlreturn

-- An error. `connection` holds the `dsn` of the connection and, while it is connected, the name of
-- the database product.
pub record OdbcError : Type 0 where
  pub sql_state : List ℕ
  pub native_code : ℤ
  pub msg : List ℕ
  pub row_number : ℤ
  pub column_number : ℤ
  pub connection : Option (List ℕ × Option (List ℕ))

-- The state of `codes [link]`.
abbrev pub state_at : ℕ → List ℕ
state_at link = (get_or codes link (false, [])).1

abbrev pub or_state : Option ℕ → List ℕ → List ℕ
or_state none state = state
or_state (some link) state = state_at link

-- `code && listSqlError.findError (code, link)`
abbrev pub find_sql : ℤ → Option ℕ
find_sql code =
    if same_code code (pos 0) then none else find_error default_calc_hash list_sql_error_link code

abbrev pub find_server : ℤ → Option ℕ
find_server fbcode =
    if same_code fbcode (pos 0) then none else find_error fb_error_calc_hash list_error_link fbcode

-- `OdbcError (code, state, errorMsg)`
unfoldable pub new_error : ℤ → List ℕ → List ℕ → OdbcError
new_error code state error_msg = record {
  sql_state = or_state (find_sql code) state;
  native_code = code;
  msg = chars "[ODBC Firebird Driver]" ++ error_msg;
  row_number = pos 0;
  column_number = pos 0;
  connection = none;
}

-- `OdbcError (code, fbcode, state, errorMsg)`
unfoldable pub new_server_error : (code fbcode : ℤ) → List ℕ → List ℕ → OdbcError
new_server_error code fbcode state error_msg =
    let label = chars "[ODBC Firebird Driver]" in
    record {
      sql_state = or_state (find_server fbcode) (or_state (find_sql code) state);
      native_code = code;
      msg = (if same_code fbcode (pos 0) then label else label ++ chars "[Firebird]") ++ error_msg;
      row_number = pos 0;
      column_number = pos 0;
      connection = none;
    }

-- `setRowNumber` and `setColumnNumber`
unfoldable pub set_row_number : OdbcError → ℤ → OdbcError
set_row_number e number = record e { row_number = number }

unfoldable pub set_column_number : OdbcError → (column row : ℤ) → OdbcError
set_column_number e column row = record e { column_number = column; row_number = row }

-- A length that is stored through a pointer to 16 bits with a sign.
abbrev pub short_of : ℕ → ℤ
short_of n = if ltb (n % 65536) 32768 then pos (n % 65536) else negsuc (65535 - n % 65536)

-- What a function stores: the SQLSTATE, the native code, the text, and its length; and what it
-- returns.
pub record Stored : Type 0 where
  pub state : Option (List ℕ)
  pub native : Option ℤ
  pub text : Option (List ℕ)
  pub text_length : Option ℤ
  pub code : Sqlreturn

-- Which pointers are not NULL.
pub record Targets : Type 0 where
  pub has_state : Bool
  pub has_native : Bool
  pub has_text : Bool
  pub has_length : Bool

abbrev pub given {ℓ} : {A : Type ℓ} → Bool → A → Option A
given b a = if b then some a else none

-- `--msgBufferLength`, with a result that is not positive as 0.
abbrev pub room : ℤ → ℕ
room size = pos_part size - 1

-- The text put into a buffer with the given room, and the code returned.
abbrev pub put_text : (has_text : Bool) → ℤ → List ℕ → Option (List ℕ) × Sqlreturn
put_text has_text size text =
    if room size == 0 || not has_text
    then (none, sql_success_with_info)
    else if leb (length text) (room size)
    then (some text, sql_success)
    else (some (take (room size) text), sql_success_with_info)

-- `OdbcError::sqlGetDiagRec`
unfoldable pub get_diag_rec : OdbcError → Targets → ℤ → Stored
get_diag_rec e p size =
    let (text, code) = put_text p.has_text size e.msg in
    record {
      state = given p.has_state e.sql_state;
      native = given p.has_native e.native_code;
      text = text;
      text_length = given p.has_length (short_of (length e.msg));
      code = code;
    }

-- The fields of a record; `other` is any other identifier.
pub data DiagId : Type 0 where
  class_origin : DiagId
  subclass_origin : DiagId
  connection_name : DiagId
  server_name : DiagId
  message_text : DiagId
  native : DiagId
  sqlstate : DiagId
  row_number : DiagId
  column_number : DiagId
  other : DiagId

-- What the `switch` of `OdbcError::sqlGetDiagField` finds: a text, a number, or an error.
pub data Field : Type 0 where
  text : List ℕ → Field
  number : ℤ → Field
  unknown : Field

abbrev pub starts_im : List ℕ → Bool
starts_im s = get_or s 0 0 == b'I' && get_or s 1 0 == b'M'

abbrev pub origin : Bool → List ℕ
origin b = if b then chars "ODBC 3.0" else chars "ISO 9075"

abbrev pub is_odbc_subclass : Option Bool → Bool
is_odbc_subclass none = false
is_odbc_subclass (some o) = o

abbrev pub dsn_of : Option (List ℕ × Option (List ℕ)) → List ℕ
dsn_of none = []
dsn_of (some (dsn, product)) = dsn

abbrev pub product_of : Option (List ℕ × Option (List ℕ)) → List ℕ
product_of none = []
product_of (some (dsn, none)) = []
product_of (some (dsn, some product)) = product

unfoldable pub field_of : OdbcError → DiagId → Field
field_of e class_origin = text (origin (starts_im e.sql_state))
field_of e subclass_origin = text (origin (is_odbc_subclass (find_state e.sql_state)))
field_of e connection_name = text (dsn_of e.connection)
field_of e server_name = text (product_of e.connection)
field_of e message_text = text e.msg
field_of e native = number e.native_code
field_of e sqlstate = text e.sql_state
field_of e row_number = number e.row_number
field_of e column_number = number e.column_number
field_of e other = unknown

abbrev pub nothing_stored : Sqlreturn → Stored
nothing_stored c = record { state = none; native = none; text = none; text_length = none; code = c }

-- The rest of `OdbcError::sqlGetDiagField`. A number goes through `ptr` unchecked; the only caller
-- tests it.
abbrev pub put_field : Field → Targets → ℤ → Stored
put_field unknown p size = nothing_stored sql_error_code
put_field (number n) p size = record (nothing_stored sql_success) { native = some n }
put_field (text t) p size =
    let (stored, code) = put_text p.has_text size t in
    record (nothing_stored code) {
      text = stored;
      text_length = given p.has_length (short_of (length t));
    }

unfoldable pub get_diag_field : OdbcError → DiagId → Targets → ℤ → Stored
unfolding field_of
get_diag_field e id p size = put_field (field_of e id) p size
