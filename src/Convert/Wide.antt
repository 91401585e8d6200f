-- ===== src/Convert/Wide.antt =====
-- `convStringToStringW` and `convVarStringToStringW` of OdbcConvert.cpp, for a `wchar_t` of two bytes: the
-- first call of a row converts the text as a whole into the target's `localDataPtr`, and the calls return
-- pieces of that. `mbs_to_wcs` is `from->MbsToWcs`, which the connection's character set chooses: the units
-- that it stores before their terminator. The target's buffer is a list of units.
pub mod Text
pub mod Utf8
use firebird_odbc_driver.Base.{
  ℕ, zero, suc, ◌+◌, ◌-◌, ◌*◌, ◌/◌, min, Bool, true, false, not, ◌&&◌, ◌||◌, Option, none, some,
  List, [], ◌∷◌, ◌++◌, ltb, ◌==◌, if◌then◌else◌, length, take, drop, replicate,
}
use firebird_odbc_driver.Convert.{
  DescRecord, SqlReturn, sql_success, sql_success_with_info, sql_no_data, Outcome, memory,
  overwrite, check_null, start_row, set_length, is_done, var_length,
}

-- `wcslen` of what stands at an address: a list that ends is followed by a terminator.
unfoldable pub wcslen : List ℕ → ℕ
wcslen [] = 0
wcslen (w ∷ ws) = let rest = wcslen ws in if w == 0 then 0 else suc rest

-- `wcsncpy`, which fills up with zeros behind a terminator.
unfoldable pub wcsncpy : List ℕ → (len : ℕ) → List ℕ
wcsncpy ws zero = []
wcsncpy [] (suc n) = replicate (suc n) 0
wcsncpy (w ∷ ws) (suc n) =
    let rest = wcsncpy ws n in if w == 0 then replicate (suc n) 0 else w ∷ rest

-- The body behind the conversion, of `n` units at `localDataPtr`.
unfoldable pub return_wide_piece :
    (fetched : Bool) (n : ℕ) → DescRecord → DescRecord → List ℕ → Outcome
return_wide_piece fetched n from to m =
    let remaining = n - from.data_offset in
    let len = min remaining (to.data_length / 2 - 1) in
    let piece = wcsncpy (drop from.data_offset to.local_data) len in
    let truncated = ltb 0 len && ltb len remaining in
    if to.data_length == 0
    then record {
      ret = sql_success;
      from = from;
      to = set_length (remaining * 2) to;
      truncated = false;
    }
    else if is_done fetched remaining from
    then record {
      ret = sql_no_data;
      from = record from { data_offset = 0 };
      to = set_length (remaining * 2) to;
      truncated = false;
    }
    else record {
      ret = if truncated then sql_success_with_info else sql_success;
      from = record from { started_return_sql_data = true; data_offset = from.data_offset + len };
      to =
          set_length (remaining * 2)
            (record to { data_ptr = some (overwrite (piece ++ 0 ∷ []) m) });
      truncated = truncated;
    }

-- In a row that was fetched from before, the text that still stands at `localDataPtr` goes on.
abbrev continue_wide : DescRecord → DescRecord → List ℕ → Outcome
continue_wide from to m =
    return_wide_piece true (wcslen (drop from.data_offset to.local_data) + from.data_offset) from to
      m

-- `units` at `localDataPtr`, cut or filled up with spaces to `n` of them.
abbrev pub pad : (n : ℕ) → List ℕ → List ℕ
pad n units = take n (units ++ replicate (n - length units) 0x20)

-- `OdbcConvert::convStringToStringW`
unfoldable pub conv_string_to_string_w :
    (mbs_to_wcs : List ℕ → List ℕ) (current : ℕ) → DescRecord → DescRecord → Outcome
conv_string_to_string_w mbs_to_wcs current from to = check_null from to (λ m.
    if from.current_fetched == current
    then continue_wide from to m
    else return_wide_piece false from.data_length (start_row current from)
        (record to { local_data = pad from.data_length (mbs_to_wcs (memory from)) }) m)

-- The bytes that `MbsToWcs` is given: the length is read as a short, of which a negative one is huge as
-- an unsigned int.
abbrev pub bytes_of_var : List ℕ → List ℕ
bytes_of_var m = if ltb (var_length m) 0x8000 then take (var_length m) (drop 2 m) else drop 2 m

-- `OdbcConvert::convVarStringToStringW`
unfoldable pub conv_var_string_to_string_w :
    (mbs_to_wcs : List ℕ → List ℕ) (current : ℕ) → DescRecord → DescRecord → Outcome
conv_var_string_to_string_w mbs_to_wcs current from to = check_null from to (λ m.
    if from.current_fetched == current
    then continue_wide from to m
    else let units = mbs_to_wcs (bytes_of_var (memory from)) in
      return_wide_piece false (length units) (start_row current from)
        (record to { local_data = units }) m)
