-- ===== src/Scroll/Inside.antt =====
-- Whatever is fetched from a static cursor, OdbcStatement.cpp stays inside the rows.
use firebird_odbc_driver.Base.{
  ℕ, ◌+◌, ◌-◌, ◌≤◌, ◌<◌, ◌≡◌, ◌⊎◌, refl, sym, ◌∙◌, inl, inr, Bool, List, [], arith, ltb, Bool-cases,
  subst,
}
use firebird_odbc_driver.Base.Int.{ℤ, pos, negsuc}
use firebird_odbc_driver.Scroll.{
  Settings, Cursor, Orientation, Placed, at_row, leave, stay, place, place_absolute, place_relative,
  place_relative_inside, place_prior, place_bookmark, return_rowset, fetch_at, fetch_placed,
  fetch_scroll, opened,
}
use firebird_odbc_driver.Scroll.Rows.{run_of, rowset_len, return_rowset_rows, return_rowset_pos}

-- The position is that of a row, or 0 if there are no rows.
abbrev pub IsInside : (row_count : ℕ) → Cursor → Type 0
IsInside row_count c = c.pos_row ≤ row_count - 1

-- The rows are neighbours in order, rows of the set, and no more than the rowset's size.
abbrev pub IsRowset : Settings → List ℕ → Type 0
IsRowset s rows =
    (n row : ℕ) × (rows ≡ run_of n row) × (n ≤ s.rowset_size) × ((n ≡ 0) ⊎ (row + n ≤ s.row_count))

-- Where the `switch` leads it leaves the position inside.
abbrev Leads : Settings → Placed → Type 0
Leads s (at_row row warned) = Unit
Leads s (leave position row forget) = row ≤ s.row_count - 1
Leads s (stay ret) = Unit

place-Leads :
    (s : Settings) (c : Cursor) (orientation : Orientation) (offset : ℤ)
    → Leads s (place s c orientation offset)
unfolding place place_absolute place_relative place_relative_inside place_prior place_bookmark
place-Leads s c orientation offset = ground arith

no_rows-IsRowset : (s : Settings) → IsRowset s []
unfolding run_of
no_rows-IsRowset s = (0, 0, refl, omega arith, inl refl)

rows-IsRowset :
    (s : Settings) (row : ℕ) → row < s.row_count → IsRowset s (run_of (rowset_len s row) row)
rows-IsRowset s row k = (rowset_len s row, row, refl, ground arith, inr (ground arith))

return_rowset-IsRowset :
    (s : Settings) (row : ℕ) (warned : Bool)
    → row < s.row_count
    → IsRowset s (return_rowset s row warned).rows
return_rowset-IsRowset s row warned k =
    let e = return_rowset_rows s row warned in
    elim (Bool-cases s.fetch_ret_data) [
      | inl on ↦ subst (IsRowset s) (sym (e ∙ rw on refl)) (rows-IsRowset s row k)
      | inr off ↦ subst (IsRowset s) (sym (e ∙ rw off refl)) (no_rows-IsRowset s)
    ]

fetch_at-IsInside :
    (s : Settings) (c : Cursor) (row : ℤ) (warned : Bool)
    → IsInside s.row_count (fetch_at s c row warned).cursor
      × IsRowset s (fetch_at s c row warned).rows
unfolding fetch_at
fetch_at-IsInside s c (negsuc n) warned = (omega arith, no_rows-IsRowset s)
fetch_at-IsInside s c (pos row) warned = elim (Bool-cases (ltb row s.row_count)) [
  | inl inside ↦
      let less : row < s.row_count = ground arith in
      rw inside (
        subst (λ n. n ≤ s.row_count - 1) (sym (return_rowset_pos s row warned).0) (omega arith),
        return_rowset-IsRowset s row warned less,
      )
  | inr out ↦ rw out (omega arith, no_rows-IsRowset s)
]

fetch_placed-IsInside :
    (s : Settings) (c : Cursor) (p : Placed)
    → IsInside s.row_count c
    → Leads s p
    → IsInside s.row_count (fetch_placed s c p).cursor × IsRowset s (fetch_placed s c p).rows
fetch_placed-IsInside s c (at_row row warned) h l = fetch_at-IsInside s c row warned
fetch_placed-IsInside s c (leave position row forget) h l = (l, no_rows-IsRowset s)
fetch_placed-IsInside s c (stay ret) h l = (h, no_rows-IsRowset s)

fetch_scroll-IsInside :
    (s : Settings) (c : Cursor) (orientation : Orientation) (offset : ℤ)
    → IsInside s.row_count c
    → IsInside s.row_count (fetch_scroll s c orientation offset).cursor
      × IsRowset s (fetch_scroll s c orientation offset).rows
unfolding fetch_scroll
fetch_scroll-IsInside s c orientation offset h =
    fetch_placed-IsInside s c (place s c orientation offset) h (place-Leads s c orientation offset)

-- The cursors that fetches of any kind reach in a set of `row_count` rows, whatever the application
-- sets between them.
pub data Reached (row_count : ℕ) : Cursor → Type 0 where
  just_opened : Reached row_count opened
  fetched :
      (s : Settings) (c : Cursor) (orientation : Orientation) (offset : ℤ)
      → s.row_count ≡ row_count
      → Reached row_count c
      → Reached row_count (fetch_scroll s c orientation offset).cursor

Reached-IsInside : (row_count : ℕ) (c : Cursor) → Reached row_count c → IsInside row_count c
Reached-IsInside row_count _ just_opened = omega arith
Reached-IsInside row_count _ (fetched s c orientation offset e r) =
    subst (λ n. IsInside n (fetch_scroll s c orientation offset).cursor) e
      (fetch_scroll-IsInside s c orientation offset
        (subst (λ n. IsInside n c) (sym e) (Reached-IsInside row_count c r))).0

-- After any fetches from the opening of a static cursor on, the position is that of a row of the set, or
-- 0 in an empty one, and one more fetch returns rows of the set only: neighbours in order, and no more
-- than the rowset's size.
pub Reached-IsRowset :
    (s : Settings) (c : Cursor) (orientation : Orientation) (offset : ℤ)
    → Reached s.row_count c
    → IsInside s.row_count (fetch_scroll s c orientation offset).cursor
      × IsRowset s (fetch_scroll s c orientation offset).rows
Reached-IsRowset s c orientation offset r =
    fetch_scroll-IsInside s c orientation offset (Reached-IsInside s.row_count c r)
