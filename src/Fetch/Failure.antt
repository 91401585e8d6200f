-- ===== src/Fetch/Failure.antt =====
-- An exception of the database in the middle of a rowset, in `fetchData` of OdbcStatement.cpp.
use firebird_odbc_driver.Base.{
  ℕ, zero, suc, ◌+◌, ◌<◌, ◌≡◌, ◌⊎◌, refl, true, false, not, ◌&&◌, Option, none, some, List, [], ◌∷◌,
  ◌++◌, map, arith, ◌==◌, length,
}
use firebird_odbc_driver.Fetch.{Reader, copy_fetched, fetch_data}
use firebird_odbc_driver.Fetch.Rowset.{places, length-places}
use firebird_odbc_driver.Scroll.{Settings, fetch_error}

copy_fetched-failed :
    (room max_rows n step offset : ℕ) (rows : List ℕ) (behind : List (Option ℕ))
    → length rows < room
    → (max_rows ≡ 0) ⊎ (n + length rows < max_rows)
    → copy_fetched room max_rows n step offset (map some rows ++ none ∷ behind)
      ≡ record { taken = places step offset rows; left = behind; failed = true }
unfolding copy_fetched places
copy_fetched-failed zero max_rows n step offset rows behind h k = absurd (omega arith)
copy_fetched-failed (suc room) max_rows n step offset [] behind h k = refl
copy_fetched-failed (suc room) max_rows n step offset (row ∷ rows) behind h k =
    let more : (not (max_rows == 0) && suc n == max_rows) ≡ false = ground arith in
    let next : (max_rows ≡ 0) ⊎ (suc n + length rows < max_rows) = ground arith in
    let rest =
      copy_fetched-failed room max_rows (suc n) step (offset + step) rows behind (omega arith)
        next in
    rw (more, rest) refl

-- When the database throws at a row of a rowset that no limit ends before, the call is SQL_ERROR, and the
-- error names the last row that came. The rows before are in the buffers, at the places of their rows, but
-- neither their number nor a status is stored for the application, and the next call goes on behind them.
pub fetch_data_thrown :
    (s : Settings) (step offset count row : ℕ) (rows : List ℕ) (behind : List (Option ℕ))
    → s.fetch_ret_data ≡ true
    → length rows < s.rowset_size
    → (s.max_rows ≡ 0) ⊎ (length rows < s.max_rows)
    → let r : Reader = record {
      count_fetched = count;
      row_number = row;
      pending = map some rows ++ none ∷ behind;
    } in
      let page = fetch_data s step offset false r in
      (page.ret ≡ fetch_error)
      × (page.error_row ≡ some (row + length rows))
      × (page.stored ≡ places step offset rows)
      × (page.row_count ≡ none)
      × (page.statuses ≡ [])
      × (page.reader.pending ≡ behind)
unfolding fetch_data
fetch_data_thrown s step offset count row rows behind on h k =
    let copied =
      copy_fetched-failed s.rowset_size s.max_rows 0 step offset rows behind h (ground arith) in
    rw (copied, on, length-places step offset rows) (refl, refl, refl, refl, refl, refl)
