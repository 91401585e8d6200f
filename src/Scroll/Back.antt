-- ===== src/Scroll/Back.antt =====
-- A static cursor moved back and to a row, in OdbcStatement.cpp.
use firebird_odbc_driver.Base.{
  ℕ, suc, ◌+◌, ◌-◌, ◌≤◌, ◌<◌, ◌≡◌, refl, sym, ap, ◌∙◌, inl, true, false, not, ◌&&◌, [], arith, ltb,
  ◌==◌,
}
use firebird_odbc_driver.Base.Int.{pos, negsuc, ◌+ℤ◌, ◌-ℤ◌}
use firebird_odbc_driver.Scroll.{
  Settings, Cursor, before_first, rowset, Fetched, fetch_no_data, at_row, fetch_placed, place,
  place_absolute, place_relative, place_relative_inside, place_prior, return_rowset, fetch_at,
  fetch_scroll, sql_fetch_next, sql_fetch_prior, sql_fetch_absolute, sql_fetch_relative,
}
use firebird_odbc_driver.Scroll.Rows.{
  run_of, rowset_len, return_rowset_rows, return_rowset_pos, return_rowset_some,
}
use firebird_odbc_driver.Scroll.Forward.{ReturnsAll, next_inside}

-- SQL_FETCH_ABSOLUTE with the number of a row goes to it, wherever the cursor was.
absolute_row :
    (s : Settings) (c : Cursor) (n : ℕ)
    → n < s.row_count
    → fetch_scroll s c sql_fetch_absolute (pos (suc n)) ≡ return_rowset s n false
unfolding fetch_scroll place place_absolute fetch_at
absolute_row s c n k = let inside : ltb n s.row_count ≡ true = ground arith in rw inside refl

-- SQL_FETCH_PRIOR from a rowset that begins behind the first one.
take_off : (a b : ℕ) → pos (a + b) -ℤ pos b ≡ pos a
unfolding ◌-ℤ◌
take_off a b = ground arith

prior_place :
    (s : Settings) (c : Cursor) (row : ℕ)
    → c.position ≡ rowset
    → c.pos_row ≡ row + s.rowset_size
    → 0 < s.rowset_size
    → row < s.row_count
    → place_prior s c ≡ at_row (pos row) false
unfolding place_prior
prior_place s c row p e z k =
    let goes : (not (s.row_count == 0) && ltb 0 (row + s.rowset_size)) ≡ true = ground arith in
    rw (p, e, goes, take_off row s.rowset_size) refl

prior_inside :
    (s : Settings) (c : Cursor) (row : ℕ)
    → c.position ≡ rowset
    → c.pos_row ≡ row + s.rowset_size
    → 0 < s.rowset_size
    → row < s.row_count
    → fetch_scroll s c sql_fetch_prior (pos 1) ≡ return_rowset s row false
unfolding fetch_scroll place fetch_at
prior_inside s c row p e z k =
    let inside : ltb row s.row_count ≡ true = ground arith in
    ap (fetch_placed s c) (prior_place s c row p e z k) ∙ rw inside refl

-- In a static cursor that stands at a rowset with another one behind it, where every row is returned,
-- SQL_FETCH_PRIOR after SQL_FETCH_NEXT returns the rowset that the cursor stood at, the one that
-- SQL_FETCH_ABSOLUTE returns with the number of its first row, and leaves the cursor there.
pub prior-next :
    (s : Settings) (c : Cursor)
    → ReturnsAll s
    → c.eof ≡ false
    → c.last_rowset_size ≡ s.rowset_size
    → c.pos_row + s.rowset_size < s.row_count
    → fetch_scroll s (fetch_scroll s c sql_fetch_next (pos 1)).cursor sql_fetch_prior (pos 1)
      ≡ fetch_scroll s c sql_fetch_absolute (pos (suc c.pos_row))
prior-next s c h m l k =
    let row = c.pos_row + c.last_rowset_size in
    let less : row < s.row_count = omega arith in
    let len : 0 < rowset_len s row = ground arith in
    let next = next_inside s c (inl m) less in
    let o = return_rowset s row false in
    let stands = (return_rowset_some s row false len).1 in
    let there : o.cursor.pos_row ≡ c.pos_row + s.rowset_size =
      (return_rowset_pos s row false).0 ∙ omega arith in
    ap (λ (f : Fetched). fetch_scroll s f.cursor sql_fetch_prior (pos 1)) next
    ∙ prior_inside s o.cursor c.pos_row stands there h.0 (omega arith)
    ∙ sym (absolute_row s c c.pos_row (omega arith))

relative_place :
    (s : Settings) (row k : ℕ)
    → 0 < row
    → row ≤ k
    → k < s.rowset_size
    → place_relative_inside s row (negsuc k) ≡ at_row (negsuc (k - row)) true
unfolding place_relative_inside ◌+ℤ◌
relative_place s row k z l r = ground arith

-- At a rowset behind the first row, SQL_FETCH_RELATIVE to a place before the first row that the rowset
-- size still allows posts 01S06 and returns no row: the answer is SQL_NO_DATA.
pub relative_lost :
    (s : Settings) (c : Cursor) (k : ℕ)
    → c.position ≡ rowset
    → 0 < c.pos_row
    → c.pos_row ≤ k
    → k < s.rowset_size
    → let o = fetch_scroll s c sql_fetch_relative (negsuc k) in
      (o.ret ≡ fetch_no_data) × (o.warned ≡ true) × (o.rows ≡ [])
unfolding fetch_scroll place place_relative fetch_at
relative_lost s c k p z l r = rw (p, relative_place s c.pos_row k z l r) (refl, refl, refl)

absolute_zero :
    (s : Settings) (c : Cursor)
    → (fetch_scroll s c sql_fetch_absolute (pos 0)).cursor
      ≡ record c { position = before_first; pos_row = 0 }
unfolding fetch_scroll place place_absolute
absolute_zero s c = refl

-- SQL_FETCH_ABSOLUTE with 0 goes before the first row and keeps the size of the last rowset, so that
-- SQL_FETCH_NEXT behind it passes over as many rows.
pub absolute_zero-next :
    (s : Settings) (c : Cursor)
    → ReturnsAll s
    → c.eof ≡ false
    → c.last_rowset_size < s.row_count
    → (fetch_scroll s
        (fetch_scroll s c sql_fetch_absolute (pos 0)).cursor
        sql_fetch_next
        (pos 1)).rows
      ≡ run_of (rowset_len s c.last_rowset_size) c.last_rowset_size
absolute_zero-next s c h e k =
    let start : Cursor = record c { position = before_first; pos_row = 0 } in
    let row : 0 + c.last_rowset_size ≡ c.last_rowset_size = omega arith in
    ap (λ f. (fetch_scroll s f sql_fetch_next (pos 1)).rows) (absolute_zero s c)
    ∙ ap (λ (f : Fetched). f.rows) (next_inside s start (inl e) (omega arith))
    ∙ return_rowset_rows s (0 + c.last_rowset_size) false
    ∙ rw (h.2, row) refl
