-- ===== src/Diagnostics/Text.antt =====
-- The members of OdbcObject.cpp that put a text into a caller's buffer.
use firebird_odbc_driver.Base.{
  ℕ, zero, suc, ◌-◌, Bool, true, false, not, ◌&&◌, Option, none, some, List, leb, if◌then◌else◌,
  length, take,
}
use firebird_odbc_driver.Base.Int.{ℤ, pos, negsuc, pos_part, ltb_ℤ}
use firebird_odbc_driver.Diagnostics.Tables.{chars}
use firebird_odbc_driver.Diagnostics.Record.{Sqlreturn, sql_success_with_info, new_error}
use firebird_odbc_driver.Diagnostics.Object.{OdbcObject, post_error, sql_return, sql_success_of}

-- What a call stores, the length that it reports, before the type behind the pointer cuts it (to 16 bits, but for
-- the second `returnStringInfo`), and the handle afterwards.
pub record Put (R : Type 0) : Type 0 where
  pub text : Option (List ℕ)
  pub reported : ℕ
  pub object : OdbcObject
  pub result : R

abbrev pub truncated : List ℕ
truncated = chars "String data, right truncated"

-- `returnStringInfo (ptr, maxLength, returnLength, value)`, the same for both types of length.
unfoldable pub return_string_info :
    OdbcObject → Option (List ℕ × Option (List ℕ)) → (has_ptr : Bool) → ℤ → List ℕ → Put Sqlreturn
unfolding sql_return sql_success_of
return_string_info o connection has_ptr max_length value =
    let (o', code) =
      sql_return o connection sql_success_with_info (chars "01004") truncated (pos 0) in
    let room = pos_part max_length - 1 in
    if has_ptr && ltb_ℤ (pos 0) max_length
    then (if leb (length value) room
        then record {
          text = some value;
          reported = length value;
          object = o;
          result = sql_success_of o;
        }
        else record { text = some (take room value); reported = room; object = o'; result = code })
    else record { text = none; reported = length value; object = o'; result = code }

-- `stringLength (string, givenLength)` of the text before the terminator; `none` for NULL. The
-- length SQL_NTS is -3.
unfoldable pub string_length : Option (List ℕ) → ℤ → ℤ
string_length none given_length = pos 0
string_length (some s) (negsuc (suc (suc zero))) = pos (length s)
string_length (some s) given_length = given_length

-- `setString (string, stringLength, target, targetSize, targetLength)`, true on overflow. With a
-- target and no room at all `memcpy` is called with the size -1: `none`.
unfoldable pub set_string :
    OdbcObject
    → Option (List ℕ × Option (List ℕ))
    → List ℕ
    → (has_target : Bool) → ℤ
    → Option (Put Bool)
unfolding post_error new_error
set_string o connection s has_target target_size =
    let room = pos_part target_size - 1 in
    let posted = post_error o connection (new_error (pos 0) (chars "01004") truncated) in
    if not has_target
    then some (record { text = none; reported = length s; object = o; result = true })
    else if not (ltb_ℤ (pos 0) target_size)
    then none
    else if leb (length s) room
    then some (record { text = some s; reported = length s; object = o; result = false })
    else some
        (record { text = some (take room s); reported = length s; object = posted; result = true })
