-- ===== src/Scroll.antt =====
-- Scrolling a static cursor: `OdbcStatement::sqlFetchScrollCursorStatic` of OdbcStatement.cpp on the
-- position that IscDbc/IscResultSet.cpp keeps. Every value that the code gives `setPosRowInSet` is at
-- least 0. `rowNumber` is set anew from that position by every call. Rows are named by their places.
pub mod Rows
pub mod Inside
pub mod Forward
pub mod Back
mod Tests
use firebird_odbc_driver.Base.{
  ℕ, zero, suc, ◌+◌, ◌-◌, Bool, true, false, not, ◌&&◌, ◌||◌, Option, none, some, List, [], ◌∷◌,
  ◌++◌, ltb, leb, ◌==◌, if◌then◌else◌, length, replicate,
}
use firebird_odbc_driver.Base.Int.{ℤ, pos, negsuc, pos_part, neg_part, ◌+ℤ◌, ◌-ℤ◌, ltb_ℤ}

-- `statysPositionRow`
pub data Position : Type 0 where
  before_first : Position
  rowset : Position
  after_last : Position

pub data Orientation : Type 0 where
  sql_fetch_next : Orientation
  sql_fetch_first : Orientation
  sql_fetch_last : Orientation
  sql_fetch_prior : Orientation
  sql_fetch_absolute : Orientation
  sql_fetch_relative : Orientation
  sql_fetch_bookmark : Orientation
  sql_fetch_other : Orientation

-- What the statement and its result set keep between the calls: `pos_row` is `activePosRowInSet`.
pub record Cursor : Type 0 where
  pub position : Position
  pub pos_row : ℕ
  pub eof : Bool
  pub last_rowset_size : ℕ

-- What the calls read: `row_count` is `sqlDiagCursorRowCount`, `rowset_size` `headArraySize`,
-- `fetch_bookmark` what `fetchBookmarkPtr` leads to, `bookmark_needed` that the call is SQLFetchScroll of
-- an application of ODBC 3.
pub record Settings : Type 0 where
  pub row_count : ℕ
  pub rowset_size : ℕ
  pub max_rows : ℕ
  pub fetch_ret_data : Bool
  pub fetch_bookmark : Option ℤ
  pub bookmark_needed : Bool

pub data FetchReturn : Type 0 where
  fetch_success : FetchReturn
  fetch_no_data : FetchReturn
  fetch_error : FetchReturn

-- What a call leaves: the rows that were returned, the statuses that were stored (whether there is a
-- row), and whether 01S06 was posted.
pub record Fetched : Type 0 where
  pub ret : FetchReturn
  pub cursor : Cursor
  pub rows : List ℕ
  pub statuses : List Bool
  pub warned : Bool

-- Where the `switch` leads: to a row, out of the rows, or to an end that changes nothing.
pub data Placed : Type 0 where
  at_row : ℤ → (warned : Bool) → Placed
  leave : Position → ℕ → (forget : Bool) → Placed
  stay : FetchReturn → Placed

abbrev pub before_start : Placed
before_start = leave before_first 0 false

-- `sqlDiagCursorRowCount ? sqlDiagCursorRowCount - 1 : 0`
abbrev pub behind_end : Settings → Placed
behind_end s = leave after_last (s.row_count - 1) false

abbrev pub is_negative : ℤ → Bool
is_negative (pos n) = false
is_negative (negsuc n) = true

abbrev pub is_positive : ℤ → Bool
is_positive (pos zero) = false
is_positive (pos (suc n)) = true
is_positive (negsuc n) = false

abbrev pub size : ℤ → ℕ
size z = pos_part z + neg_part z

-- The last rowset, from the first row on if there are fewer.
abbrev pub last_rowset : Settings → ℕ
last_rowset s = s.row_count - s.rowset_size

unfoldable pub place_absolute : Settings → ℤ → Placed
place_absolute s (pos zero) = before_start
place_absolute s (pos (suc n)) = at_row (pos n) false
place_absolute s (negsuc zero) = at_row (pos (last_rowset s)) false
place_absolute s (negsuc (suc n)) =
    if ltb s.row_count (suc (suc n))
    then (if ltb s.rowset_size (suc (suc n)) then before_start else at_row (pos 0) true)
    else at_row (pos (s.row_count - suc (suc n))) false

-- Inside a rowset. A row before the first one that the rowset size allows is warned of, and then fetched
-- all the same.
unfoldable pub place_relative_inside : Settings → (row : ℕ) → ℤ → Placed
place_relative_inside s row offset =
    let check_row = pos row +ℤ offset in
    if row == 0 && is_negative offset
    then before_start
    else if ltb 0 row && is_negative check_row
    then (if ltb s.rowset_size (size offset) then before_start else at_row check_row true)
    else if ltb_ℤ (pos s.row_count) check_row
    then behind_end s
    else at_row check_row false

unfoldable pub place_relative : Settings → Cursor → ℤ → Placed
place_relative s c offset = elim c.position [
  | rowset ↦ place_relative_inside s c.pos_row offset
  | before_first ↦ if is_positive offset then place_absolute s offset else before_start
  | after_last ↦ if is_negative offset then place_absolute s offset else behind_end s
]

unfoldable pub place_prior : Settings → Cursor → Placed
place_prior s c =
    let back = pos c.pos_row -ℤ pos s.rowset_size in
    let row : ℤ = elim c.position [ after_last ↦ back +ℤ pos 1 | _ ↦ back ] in
    if not (s.row_count == 0) && ltb 0 c.pos_row
    then (if is_negative row then at_row (pos 0) true else at_row row false)
    else leave before_first 0 true

unfoldable pub place_bookmark : Settings → ℤ → Placed
place_bookmark s offset =
    let row : ℤ = elim s.fetch_bookmark [
      | none ↦ offset -ℤ pos 1
      | some b ↦ b +ℤ offset -ℤ pos 1
    ] in
    let missing : Bool = elim s.fetch_bookmark [ none ↦ s.bookmark_needed | some b ↦ false ] in
    if missing
    then stay fetch_error
    else if is_negative row
    then before_start
    else if ltb_ℤ row (pos s.row_count)
    then at_row row false
    else behind_end s

-- The `switch` over the orientation.
unfoldable pub place : Settings → Cursor → Orientation → ℤ → Placed
place s c sql_fetch_relative offset = place_relative s c offset
place s c sql_fetch_absolute offset = place_absolute s offset
place s c sql_fetch_next offset =
    if c.eof && suc c.pos_row == s.row_count
    then stay fetch_no_data
    else at_row (pos (c.pos_row + c.last_rowset_size)) false
place s c sql_fetch_last offset =
    if s.row_count == 0 then at_row (pos c.pos_row) false else at_row (pos (last_rowset s)) false
place s c sql_fetch_first offset = at_row (pos 0) false
place s c sql_fetch_prior offset = place_prior s c
place s c sql_fetch_bookmark offset = place_bookmark s offset
place s c sql_fetch_other offset = stay fetch_error

-- The loop that copies rows, `left` of them at most: `n` were copied before `row`.
unfoldable pub copy_rows : (left max_rows row_count n row : ℕ) → List ℕ
copy_rows zero max_rows row_count n row = []
copy_rows (suc left) max_rows row_count n row =
    let rest = copy_rows left max_rows row_count (suc n) (suc row) in
    if ltb row row_count
    then row ∷ (if not (max_rows == 0) && suc n == max_rows then [] else rest)
    else []

-- The rowset from `row` on, which is a row.
unfoldable pub return_rowset : Settings → (row : ℕ) (warned : Bool) → Fetched
return_rowset s row warned =
    let rows = copy_rows s.rowset_size s.max_rows s.row_count 0 row in
    let n = length rows in
    let short = n == 0 || ltb n s.rowset_size in
    let eof = short && (n == 0 || row + n == s.row_count) in
    let none_left = n == 0 && eof in
    let here : Cursor = record {
      position = rowset;
      pos_row = row;
      eof = eof;
      last_rowset_size = s.rowset_size;
    } in
    if not s.fetch_ret_data
    then record {
      ret = fetch_success;
      cursor = record here { eof = false };
      rows = [];
      statuses = [];
      warned = warned;
    }
    else record {
      ret = if none_left then fetch_no_data else fetch_success;
      cursor = if none_left then record here { position = after_last } else here;
      rows = rows;
      statuses = replicate n true ++ (if n == 0 then [] else replicate (s.rowset_size - n) false);
      warned = warned;
    }

abbrev no_rows : Cursor → (warned : Bool) → Fetched
no_rows c warned = record {
  ret = fetch_no_data;
  cursor = c;
  rows = [];
  statuses = [];
  warned = warned;
}

-- Behind the `switch`, at a row: the end of the function.
unfoldable pub fetch_at : Settings → Cursor → ℤ → (warned : Bool) → Fetched
fetch_at s c (negsuc n) warned =
    no_rows (record c { position = before_first; pos_row = 0; last_rowset_size = s.rowset_size })
      warned
fetch_at s c (pos row) warned =
    if ltb row s.row_count
    then return_rowset s row warned
    else no_rows
        (record c {
          position = if s.row_count == 0 then before_first else after_last;
          pos_row = s.row_count - 1;
          last_rowset_size = s.rowset_size;
        })
        warned

abbrev pub fetch_placed : Settings → Cursor → Placed → Fetched
fetch_placed s c (at_row row warned) = fetch_at s c row warned
fetch_placed s c (leave position row forget) =
    no_rows
      (record c {
        position = position;
        pos_row = row;
        last_rowset_size = if forget then 0 else c.last_rowset_size;
      })
      false
fetch_placed s c (stay ret) = record {
  ret = ret;
  cursor = c;
  rows = [];
  statuses = [];
  warned = false;
}

-- `OdbcStatement::sqlFetchScrollCursorStatic`
unfoldable pub fetch_scroll : Settings → Cursor → Orientation → ℤ → Fetched
fetch_scroll s c orientation offset = fetch_placed s c (place s c orientation offset)

-- A result set as `setResultSet` leaves it.
abbrev pub opened : Cursor
opened = record { position = before_first; pos_row = 0; eof = false; last_rowset_size = 0 }
