-- ===== src/Fetch/Tests.antt =====
-- Fetches from result sets that go forward, and the theorems at them.
use firebird_odbc_driver.Base.{
  ℕ, ◌≡◌, inl, inr, refl, true, false, Option, none, some, List, [], ◌∷◌, ◌++◌, arith,
}
use firebird_odbc_driver.Base.Int.{pos}
use firebird_odbc_driver.Scroll.{Settings, opened, sql_fetch_next, sql_fetch_prior, fetch_error}
use firebird_odbc_driver.Fetch.{
  Reader, Statement, Application, none_fetch, scroll_fetch, fetch_data,
}
use firebird_odbc_driver.Fetch.Rowset.{somes, places}
use firebird_odbc_driver.Fetch.All.{read_all, at_rows, read_all-whole, read_all-limited}
use firebird_odbc_driver.Fetch.Mixed.{Call, fetch, scroll, extended, answer_all, answer_all-rows}
use firebird_odbc_driver.Fetch.Failure.{fetch_data_thrown}

-- Two rows at a time, `max_rows` at most.
abbrev pairs : (max_rows : ℕ) → Settings
pairs max_rows = record {
  row_count = 0;
  rowset_size = 2;
  max_rows = max_rows;
  fetch_ret_data = true;
  fetch_bookmark = none;
  bookmark_needed = false;
}

abbrev five_rows : List ℕ
five_rows = 10 ∷ 11 ∷ 12 ∷ 13 ∷ 14 ∷ []

-- A limit of three rows limits nothing when two are fetched at a time.
read_all-whole_example : read_all 6 (pairs 3) 8 0 false (at_rows 0 0 five_rows) ≡ five_rows
read_all-whole_example =
    read_all-whole (pairs 3) 8 0 five_rows refl (ground arith) (inr (ground arith))

read_all-limited_example : read_all 6 (pairs 1) 8 0 false (at_rows 0 0 five_rows) ≡ 10 ∷ []
read_all-limited_example =
    read_all-limited 5 (pairs 1) 8 0 five_rows refl (ground arith) (ground arith)

-- Three rows, with an exception before the last.
abbrev broken : List (Option ℕ)
broken = some 10 ∷ none ∷ some 12 ∷ []

abbrev forward_statement : Statement
forward_statement = record {
  has_result_set = true;
  cancel = false;
  forward_only = true;
  scrollable = false;
  from_system_catalog = false;
  en_fetch = none_fetch;
  rebindings = 0;
  is_fetch_static_cursor = false;
  schema_fetch_data = false;
  cursor = opened;
  reader = record { count_fetched = 0; row_number = 0; pending = broken };
}

abbrev by_columns : Application
by_columns = record { settings = pairs 0; bind_type = 0; bind_offset = none; odbc3 = true }

-- The same statement, behind a first call of SQLFetchScroll.
abbrev begun_statement : Statement
begun_statement = record forward_statement { en_fetch = scroll_fetch }

abbrev some_calls : List Call
some_calls = fetch ∷ scroll sql_fetch_prior (pos 1) ∷ extended sql_fetch_next (pos 0) ∷ []

answer_all-rows_example :
    (answer_all by_columns forward_statement some_calls).0
      ++ somes (answer_all by_columns forward_statement some_calls).1.reader.pending
    ≡ 10 ∷ 12 ∷ []
unfolding somes
answer_all-rows_example =
    answer_all-rows by_columns forward_statement some_calls refl (refl, refl, refl)

abbrev broken_reader : Reader
broken_reader = record { count_fetched = 0; row_number = 0; pending = broken }

fetch_data_thrown_example :
    ((fetch_data (pairs 0) 8 0 false broken_reader).ret ≡ fetch_error)
    × ((fetch_data (pairs 0) 8 0 false broken_reader).error_row ≡ some 1)
    × ((fetch_data (pairs 0) 8 0 false broken_reader).stored ≡ places 8 0 (10 ∷ []))
    × ((fetch_data (pairs 0) 8 0 false broken_reader).row_count ≡ none)
    × ((fetch_data (pairs 0) 8 0 false broken_reader).statuses ≡ [])
    × ((fetch_data (pairs 0) 8 0 false broken_reader).reader.pending ≡ some 12 ∷ [])
fetch_data_thrown_example =
    fetch_data_thrown (pairs 0) 8 0 0 0 (10 ∷ []) (some 12 ∷ []) refl (ground arith) (inl refl)
