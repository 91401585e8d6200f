-- ===== src/Fetch.antt =====
-- Fetching by rowset in OdbcStatement.cpp: `fetchData` of a cursor that only goes forward, and the calls
-- SQLFetch, SQLFetchScroll and SQLExtendedFetch, which lead to it or to the static cursor of Scroll.antt.
-- The result set is what `nextFetch` is going to answer, a row or an exception, a row being named by a
-- number. Row numbers stay below 2^31, and the offset of the application's buffers is at least 0. The
-- addresses at which the count and the statuses are stored, and the bookmark column, are left out.

pub mod Rowset
pub mod All
pub mod Calls
pub mod Mixed
pub mod Failure
mod Tests
use firebird_odbc_driver.Base.{
  ℕ, zero, suc, ◌+◌, ◌-◌, Bool, true, false, not, ◌&&◌, ◌||◌, Option, none, some, List, [], ◌∷◌,
  ◌++◌, map, ltb, ◌==◌, if◌then◌else◌, length, replicate,
}
use firebird_odbc_driver.Base.Int.{ℤ, pos}
use firebird_odbc_driver.Scroll.{
  Settings, Cursor, Orientation, sql_fetch_next, FetchReturn, fetch_success, fetch_no_data,
  fetch_error, Fetched, fetch_scroll,
}

-- What fetching changes: `countFetched`, `rowNumber`, and what the result set has left.
pub record Reader : Type 0 where
  pub count_fetched : ℕ
  pub row_number : ℕ
  pub pending : List (Option ℕ)

-- The loop of a rowset: the rows it took, each with the offset that `bindOffsetPtr` then leads to, what
-- is left, and whether `nextFetch` threw.
pub record Copied : Type 0 where
  pub taken : List (ℕ × ℕ)
  pub left : List (Option ℕ)
  pub failed : Bool

-- `room` rounds, `n` rows taken before.
unfoldable pub copy_fetched : (room max_rows n step offset : ℕ) → List (Option ℕ) → Copied
copy_fetched zero max_rows n step offset rows = record { taken = []; left = rows; failed = false }
copy_fetched (suc room) max_rows n step offset [] = record { taken = []; left = []; failed = false }
copy_fetched (suc room) max_rows n step offset (none ∷ rows) = record {
  taken = [];
  left = rows;
  failed = true;
}
copy_fetched (suc room) max_rows n step offset (some row ∷ rows) =
    let rest = copy_fetched room max_rows (suc n) step (offset + step) rows in
    if not (max_rows == 0) && suc n == max_rows
    then record { taken = (offset, row) ∷ []; left = rows; failed = false }
    else record rest { taken = (offset, row) ∷ rest.taken }

-- What `fetchData` leaves: `stored` are the rows put into the application's buffers, `row_count` and
-- `statuses` (whether there is a row) what is stored for the call, and `error_row` the number of the row
-- in the error that is posted.
pub record Page : Type 0 where
  pub ret : FetchReturn
  pub eof : Bool
  pub reader : Reader
  pub stored : List (ℕ × ℕ)
  pub row_count : Option ℕ
  pub statuses : List Bool
  pub error_row : Option ℕ

-- `OdbcStatement::fetchData`, with the first offset and the step from a row to the next.
unfoldable pub fetch_data : Settings → (step offset : ℕ) (eof : Bool) → Reader → Page
fetch_data s step offset eof r =
    let c = copy_fetched s.rowset_size s.max_rows 0 step offset r.pending in
    let n = length c.taken in
    let stored = if s.fetch_ret_data then c.taken else [] in
    let here : Reader = record {
      count_fetched = r.count_fetched + n;
      row_number = r.row_number + n;
      pending = c.left;
    } in
    if eof
    then record {
      ret = fetch_no_data;
      eof = true;
      reader = r;
      stored = [];
      row_count = some 0;
      statuses = [];
      error_row = none;
    }
    else if c.failed
    then record {
      ret = fetch_error;
      eof = false;
      reader = here;
      stored = stored;
      row_count = none;
      statuses = [];
      error_row = some here.row_number;
    }
    else record {
      ret = if n == 0 then fetch_no_data else fetch_success;
      eof = n == 0 || ltb n s.rowset_size;
      reader = here;
      stored = stored;
      row_count = some n;
      statuses = if n == 0 then [] else replicate n true ++ replicate (s.rowset_size - n) false;
      error_row = none;
    }

-- `enFetchType`
pub data FetchType : Type 0 where
  none_fetch : FetchType
  plain_fetch : FetchType
  extended_fetch : FetchType
  scroll_fetch : FetchType

abbrev pub is_none_fetch : FetchType → Bool
is_none_fetch none_fetch = true
is_none_fetch _ = false

abbrev pub is_scroll_fetch : FetchType → Bool
is_scroll_fetch scroll_fetch = true
is_scroll_fetch _ = false

abbrev pub is_next : Orientation → Bool
is_next sql_fetch_next = true
is_next _ = false

-- The fields of a statement that the calls read and change. `eof` is that of `cursor`; a position of the
-- static cursor and a reader are the two views of one result set. `rebindings` counts the calls of
-- `rebindColumn`, which binds the columns that the application has set in its descriptor.
pub record Statement : Type 0 where
  pub has_result_set : Bool
  pub cancel : Bool
  pub forward_only : Bool
  pub scrollable : Bool
  pub from_system_catalog : Bool
  pub en_fetch : FetchType
  pub is_fetch_static_cursor : Bool
  pub schema_fetch_data : Bool
  pub rebindings : ℕ
  pub cursor : Cursor
  pub reader : Reader

-- The descriptor of the application's rows, and whether the application is of ODBC 3.
pub record Application : Type 0 where
  pub settings : Settings
  pub bind_type : ℕ
  pub bind_offset : Option ℕ
  pub odbc3 : Bool

abbrev pub is_given : Option ℕ → Bool
is_given none = false
is_given (some offset) = true

-- `getSchemaFetchData` and `isStaticCursor`
abbrev pub get_schema_fetch_data : Application → Bool
get_schema_fetch_data a = not (a.bind_type == 0) || is_given a.bind_offset

abbrev pub is_static_cursor : Statement → Bool
is_static_cursor st = not st.forward_only && st.scrollable || st.from_system_catalog

-- SQLFetch alone calls `rebindColumn`.
abbrev pub rebinds : FetchType → ℕ
rebinds plain_fetch = 1
rebinds _ = 0

-- What the first call for a result set fixes.
unfoldable pub begin_fetch : FetchType → Application → Statement → Statement
begin_fetch kind a st =
    if is_none_fetch st.en_fetch
    then record st {
      en_fetch = kind;
      schema_fetch_data = get_schema_fetch_data a;
      rebindings = st.rebindings + rebinds kind;
      is_fetch_static_cursor = is_static_cursor st;
    }
    else st

-- `releaseResultSet`
unfoldable pub release_result_set : Statement → Statement
release_result_set st = record st {
  has_result_set = false;
  from_system_catalog = false;
  cursor = record st.cursor { last_rowset_size = 0 };
  reader = record st.reader { count_fetched = 0; pending = [] };
}

-- The states 24000, S1008 and HY106.
pub data Refusal : Type 0 where
  invalid_cursor_state : Refusal
  operation_canceled : Refusal
  fetch_type_out_of_range : Refusal

pub data Reply : Type 0 where
  refused : Refusal → Reply
  static_rows : Fetched → Reply
  forward_rows : Page → Reply

abbrev pub first_offset : Option ℕ → ℕ
first_offset none = 0
first_offset (some offset) = offset

abbrev pub settings_of : Application → Statement → Settings
settings_of a st = record a.settings { bookmark_needed = is_scroll_fetch st.en_fetch && a.odbc3 }

-- The end of each call.
unfoldable pub fetch_rows : Application → Statement → Orientation → ℤ → Statement × Reply
fetch_rows a st orientation offset =
    let step = if st.schema_fetch_data then a.bind_type else 1 in
    let o = fetch_scroll (settings_of a st) st.cursor orientation offset in
    let page =
      fetch_data (settings_of a st) step (first_offset a.bind_offset) st.cursor.eof st.reader in
    if st.is_fetch_static_cursor then (record st { cursor = o.cursor }, static_rows o) else (
      record st { cursor = record st.cursor { eof = page.eof }; reader = page.reader },
      forward_rows page,
    )

unfoldable pub sql_fetch : Application → Statement → Statement × Reply
sql_fetch a st =
    if not st.has_result_set
    then (st, refused invalid_cursor_state)
    else if st.cancel
    then (release_result_set st, refused operation_canceled)
    else fetch_rows a (begin_fetch plain_fetch a st) sql_fetch_next (pos 1)

unfoldable pub sql_fetch_scroll : Application → Statement → Orientation → ℤ → Statement × Reply
sql_fetch_scroll a st orientation offset =
    let begun = begin_fetch scroll_fetch a st in
    if not st.has_result_set
    then (st, refused invalid_cursor_state)
    else if begun.forward_only && not (is_next orientation)
    then (begun, refused fetch_type_out_of_range)
    else if begun.cancel
    then (release_result_set begun, refused operation_canceled)
    else fetch_rows a begun orientation offset

unfoldable pub sql_extended_fetch : Application → Statement → Orientation → ℤ → Statement × Reply
sql_extended_fetch a st orientation offset =
    if not st.has_result_set
    then (st, refused invalid_cursor_state)
    else if st.cancel
    then (release_result_set st, refused operation_canceled)
    else if st.forward_only && not (is_next orientation)
    then (st, refused fetch_type_out_of_range)
    else fetch_rows a (begin_fetch extended_fetch a st) orientation offset
