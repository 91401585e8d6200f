-- ===== src/Convert.antt =====
-- OdbcConvert.cpp: the transfers of texts and bytes between the database's buffers and the
-- application's. A buffer is the list of what stands at its address; a text or binary column may be
-- fetched in pieces, and its record keeps how far the pieces of the current row have come.
pub mod Wide
pub mod Gather
pub mod Whole
pub mod Pieces
pub mod Dispatch
pub mod Digits
pub mod Days
mod Tests
use firebird_odbc_driver.Base.{
  ℕ, zero, suc, ◌+◌, ◌-◌, ◌*◌, min, Bool, true, false, not, ◌&&◌, ◌||◌, Option, none, some, List,
  [], ◌∷◌, ◌++◌, ltb, ◌==◌, if◌then◌else◌, length, take, drop,
}
use firebird_odbc_driver.Base.Int.{ℤ, pos, negsuc}

-- The fields of `DescRecord` that the transfers use, with what its pointers lead to: `data_ptr` is
-- `none` for a NULL `dataPtr`, `indicator` for a NULL `indicatorPtr`, `sql_len` the length kept by
-- `headSqlVarPtr`, `local_data` what stands at `localDataPtr`; `data_length` is the field `length`.
pub record DescRecord : Type 0 where
  pub data_ptr : Option (List ℕ)
  pub indicator : Option ℤ
  pub is_indicator_sql_da : Bool
  pub data_length : ℕ
  pub data_offset : ℕ
  pub current_fetched : ℕ
  pub started_return_sql_data : Bool
  pub sql_len : ℕ
  pub local_data : List ℕ

pub data SqlReturn : Type 0 where
  sql_success : SqlReturn
  sql_success_with_info : SqlReturn
  sql_no_data : SqlReturn

-- What a transfer leaves: its result, the two records, and whether 01004 "Data truncated" was posted.
pub record Outcome : Type 0 where
  pub ret : SqlReturn
  pub from : DescRecord
  pub to : DescRecord
  pub truncated : Bool

-- What is read at `dataPtr`.
abbrev pub memory : DescRecord → List ℕ
memory d = elim d.data_ptr [ none ↦ [] | some m ↦ m ]

-- A write at the start of a buffer.
abbrev pub overwrite : List ℕ → List ℕ → List ℕ
overwrite xs m = xs ++ drop (length xs) m

-- `checkIndicatorPtr (indicator, SQL_NULL_DATA, from)`, of the value read at either width.
abbrev pub is_null_data : Option ℤ → Bool
is_null_data (some (negsuc zero)) = true
is_null_data _ = false

-- `setIndicatorPtr`, for a value that a short holds
abbrev pub set_indicator : ℤ → Option ℤ → Option ℤ
set_indicator value none = none
set_indicator value (some old) = some value

-- `ODBCCONVERT_CHECKNULL` and `ODBCCONVERT_CHECKNULLW`: a NULL column stores a terminator and
-- SQL_NULL_DATA, and a NULL target ends the transfer.
unfoldable pub check_null : DescRecord → DescRecord → (List ℕ → Outcome) → Outcome
check_null from to transfer =
    if is_null_data from.indicator
    then record {
      ret = sql_success;
      from = from;
      to = record to {
        indicator = set_indicator (negsuc zero) to.indicator;
        data_ptr = elim to.data_ptr [ none ↦ none | some m ↦ some (overwrite (0 ∷ []) m) ];
      };
      truncated = false;
    }
    else elim to.data_ptr [
      | none ↦ record { ret = sql_success; from = from; to = to; truncated = false }
      | some m ↦ transfer m
    ]

-- The start of a row: `current` is `parentStmt->getCurrentFetched ()`.
unfoldable pub start_row : (current : ℕ) → DescRecord → DescRecord
start_row current from =
    if from.current_fetched == current
    then from
    else record from { data_offset = 0; started_return_sql_data = false; current_fetched = current }

-- The length goes to `headSqlVarPtr` or to the indicator.
unfoldable pub set_length : ℕ → DescRecord → DescRecord
set_length n to =
    if to.is_indicator_sql_da
    then record to { sql_len = n }
    else record to { indicator = set_indicator (pos n) to.indicator }

-- Nothing is left of a column that pieces of were returned.
abbrev pub is_done : (fetched : Bool) (remaining : ℕ) → DescRecord → Bool
is_done fetched remaining from =
    remaining == 0 && (ltb 0 from.data_offset || fetched) && from.started_return_sql_data

-- The body behind the start of a row of `chars`, whose number is `n`: `tail` is the terminator of the
-- target, if it has one, `status_return_data` the flag of that name, and `m` what stands in the target.
unfoldable pub return_piece :
    (tail : List ℕ) (status_return_data fetched : Bool) (n : ℕ) (chars : List ℕ)
    → DescRecord
    → DescRecord
    → List ℕ
    → Outcome
return_piece tail status_return_data fetched n chars from to m =
    let remaining = n - from.data_offset in
    let len = min remaining (to.data_length - length tail) in
    let offset = if status_return_data then from.data_offset else from.data_offset + len in
    let piece = take len (drop from.data_offset chars) in
    let truncated = ltb 0 len && ltb len remaining in
    if to.data_length == 0
    then record { ret = sql_success; from = from; to = set_length remaining to; truncated = false }
    else if is_done fetched remaining from
    then record {
      ret = sql_no_data;
      from = record from { data_offset = 0 };
      to = set_length n to;
      truncated = false;
    }
    else record {
      ret = if truncated then sql_success_with_info else sql_success;
      from = record from { started_return_sql_data = true; data_offset = offset };
      to = set_length remaining (record to { data_ptr = some (overwrite (piece ++ tail) m) });
      truncated = truncated;
    }

-- `OdbcConvert::convStringToString` and `convStringToBinary`, of a text of `from->length` chars.
unfoldable pub conv_string_to_string :
    (status_return_data : Bool) (current : ℕ) → DescRecord → DescRecord → Outcome
conv_string_to_string status_return_data current from to =
    let fetched = from.current_fetched == current in
    check_null from to (
      return_piece (0 ∷ []) status_return_data fetched from.data_length (memory from)
        (start_row current from) to)

unfoldable pub conv_string_to_binary :
    (status_return_data : Bool) (current : ℕ) → DescRecord → DescRecord → Outcome
conv_string_to_binary status_return_data current from to =
    let fetched = from.current_fetched == current in
    check_null from to (
      return_piece [] status_return_data fetched from.data_length (memory from)
        (start_row current from) to)

-- The length of a varying text, in the two bytes before it.
abbrev pub var_length : List ℕ → ℕ
var_length (low ∷ high ∷ chars) = low + 256 * high
var_length _ = 0

-- `convVarStringToString` and `convVarStringToBinary`
unfoldable pub conv_var_string_to_string :
    (status_return_data : Bool) (current : ℕ) → DescRecord → DescRecord → Outcome
conv_var_string_to_string status_return_data current from to =
    let fetched = from.current_fetched == current in
    check_null from to (
      return_piece (0 ∷ []) status_return_data fetched (var_length (memory from))
        (drop 2 (memory from)) (start_row current from) to)

unfoldable pub conv_var_string_to_binary :
    (status_return_data : Bool) (current : ℕ) → DescRecord → DescRecord → Outcome
conv_var_string_to_binary status_return_data current from to =
    let fetched = from.current_fetched == current in
    check_null from to (
      return_piece [] status_return_data fetched (var_length (memory from)) (drop 2 (memory from))
        (start_row current from) to)
