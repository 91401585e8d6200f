-- ===== src/Scroll/Tests.antt =====
-- Fetches from a static cursor, and the theorems at concrete sets of rows.
use firebird_odbc_driver.Base.{ℕ, ◌≡◌, refl, true, false, none, [], arith}
use firebird_odbc_driver.Base.Int.{pos, negsuc}
use firebird_odbc_driver.Scroll.{
  Settings, Cursor, rowset, fetch_no_data, fetch_scroll, opened, sql_fetch_next, sql_fetch_last,
  sql_fetch_prior, sql_fetch_absolute, sql_fetch_relative,
}
use firebird_odbc_driver.Scroll.Rows.{run_of, rowset_len}
use firebird_odbc_driver.Scroll.Inside.{IsInside, IsRowset, just_opened, fetched, Reached-IsRowset}
use firebird_odbc_driver.Scroll.Forward.{ReturnsAll, read_next, read_next-all}
use firebird_odbc_driver.Scroll.Back.{relative_lost, absolute_zero-next}

-- Five rows, fetched two by two, or three by three.
abbrev by : ℕ → Settings
by n = record {
  row_count = 5;
  rowset_size = n;
  max_rows = 0;
  fetch_ret_data = true;
  fetch_bookmark = none;
  bookmark_needed = false;
}

by-ReturnsAll : ReturnsAll (by 2)
by-ReturnsAll = (ground arith, refl, refl)

-- At the rowset of the rows 2 and 3.
abbrev second : Cursor
second = record { position = rowset; pos_row = 2; eof = false; last_rowset_size = 2 }

-- At the rowset of the rows 0 and 1.
abbrev first : Cursor
first = record { position = rowset; pos_row = 0; eof = false; last_rowset_size = 2 }

read_next-all_example : read_next 6 (by 2) opened ≡ run_of 5 0
read_next-all_example = read_next-all (by 2) by-ReturnsAll

Reached-IsRowset_example :
    IsInside 5
      (fetch_scroll
        (by 2)
        (fetch_scroll (by 3) opened sql_fetch_last (pos 0)).cursor
        sql_fetch_prior
        (pos 0)).cursor
    × IsRowset
        (by 2)
        (fetch_scroll
          (by 2)
          (fetch_scroll (by 3) opened sql_fetch_last (pos 0)).cursor
          sql_fetch_prior
          (pos 0)).rows
Reached-IsRowset_example =
    Reached-IsRowset (by 2) (fetch_scroll (by 3) opened sql_fetch_last (pos 0)).cursor
      sql_fetch_prior (pos 0) (fetched (by 3) opened sql_fetch_last (pos 0) refl just_opened)

relative_lost_example :
    ((fetch_scroll (by 4) second sql_fetch_relative (negsuc 2)).ret ≡ fetch_no_data)
    × ((fetch_scroll (by 4) second sql_fetch_relative (negsuc 2)).warned ≡ true)
    × ((fetch_scroll (by 4) second sql_fetch_relative (negsuc 2)).rows ≡ [])
relative_lost_example =
    relative_lost (by 4) second 2 refl (ground arith) (ground arith) (ground arith)

absolute_zero-next_example :
    (fetch_scroll
      (by 2)
      (fetch_scroll (by 2) second sql_fetch_absolute (pos 0)).cursor
      sql_fetch_next
      (pos 1)).rows
    ≡ run_of (rowset_len (by 2) 2) 2
absolute_zero-next_example = absolute_zero-next (by 2) second by-ReturnsAll refl (ground arith)
