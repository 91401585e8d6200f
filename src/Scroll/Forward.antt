-- ===== src/Scroll/Forward.antt =====
-- A static cursor read to its end with SQL_FETCH_NEXT, in OdbcStatement.cpp.
use firebird_odbc_driver.Base.{
  ℕ, zero, suc, ◌+◌, ◌-◌, ◌≤◌, ◌<◌, ◌≡◌, ◌⊎◌, refl, sym, ap, ◌∙◌, inl, inr, Bool, true, false, ◌&&◌,
  List, [], ◌++◌, arith, ltb, ◌==◌, if◌then◌else◌, Bool-cases, subst, append-nil,
}
use firebird_odbc_driver.Base.Int.{pos}
use firebird_odbc_driver.Scroll.{
  Settings, Cursor, FetchReturn, fetch_success, fetch_no_data, place, return_rowset, fetch_at,
  fetch_scroll, opened, sql_fetch_next,
}
use firebird_odbc_driver.Scroll.Rows.{
  run_of, run_of_zero, run_of-add, rowset_len, return_rowset_rows, return_rowset_pos,
  return_rowset_some,
}

abbrev pub succeeded : FetchReturn → Bool
succeeded fetch_success = true
succeeded _ = false

-- The rows of the calls of SQLFetch, as long as they succeed.
unfoldable pub read_next : (fuel : ℕ) → Settings → Cursor → List ℕ
read_next zero s c = []
read_next (suc fuel) s c =
    let o = fetch_scroll s c sql_fetch_next (pos 1) in
    let rest = read_next fuel s o.cursor in o.rows ++ (if succeeded o.ret then rest else [])

-- Settings under which every row is returned.
abbrev pub ReturnsAll : Settings → Type 0
ReturnsAll s = (0 < s.rowset_size) × (s.max_rows ≡ 0) × (s.fetch_ret_data ≡ true)

-- A cursor that is not held at the end.
abbrev pub Moves : Settings → Cursor → Type 0
Moves s c = (c.eof ≡ false) ⊎ (0 < c.last_rowset_size)

pub next_inside :
    (s : Settings) (c : Cursor)
    → Moves s c
    → c.pos_row + c.last_rowset_size < s.row_count
    → fetch_scroll s c sql_fetch_next (pos 1)
      ≡ return_rowset s (c.pos_row + c.last_rowset_size) false
unfolding fetch_scroll place fetch_at
next_inside s c h k =
    let moves : (c.eof && suc c.pos_row == s.row_count) ≡ false = ground arith in
    let inside : ltb (c.pos_row + c.last_rowset_size) s.row_count ≡ true = ground arith in
    rw (moves, inside) refl

next_outside :
    (s : Settings) (c : Cursor)
    → s.row_count ≤ c.pos_row + c.last_rowset_size
    → ((fetch_scroll s c sql_fetch_next (pos 1)).rows ≡ [])
      × ((fetch_scroll s c sql_fetch_next (pos 1)).ret ≡ fetch_no_data)
unfolding fetch_scroll place fetch_at
next_outside s c k =
    let out : ltb (c.pos_row + c.last_rowset_size) s.row_count ≡ false = ground arith in
    elim (Bool-cases (c.eof && suc c.pos_row == s.row_count)) [
      | inl held ↦ rw held (refl, refl)
      | inr moves ↦ rw (moves, out) (refl, refl)
    ]

-- A rowset and the rows behind it.
rowset-rest :
    (s : Settings) (row : ℕ)
    → ReturnsAll s
    → row < s.row_count
    → run_of (rowset_len s row) row
        ++ run_of (s.row_count - (row + s.rowset_size)) (row + s.rowset_size)
      ≡ run_of (s.row_count - row) row
rowset-rest s row (p, m, f) k = elim (Bool-cases (ltb (s.row_count - row) s.rowset_size)) [
  | inl short ↦
      let len : rowset_len s row ≡ s.row_count - row = ground arith in
      let none_ : s.row_count - (row + s.rowset_size) ≡ 0 = ground arith in
      rw (len, none_)
        (ap (λ rows. run_of (s.row_count - row) row ++ rows) (run_of_zero (row + s.rowset_size))
          ∙ append-nil (run_of (s.row_count - row) row))
  | inr full ↦
      let len : rowset_len s row ≡ s.rowset_size = ground arith in
      let whole : s.rowset_size + (s.row_count - (row + s.rowset_size)) ≡ s.row_count - row =
        ground arith in
      rw len (
        sym (run_of-add s.rowset_size (s.row_count - (row + s.rowset_size)) row)
        ∙ ap (λ n. run_of n row) whole)
]

read_next-run_of :
    (fuel : ℕ) (s : Settings) (c : Cursor)
    → ReturnsAll s
    → Moves s c
    → let row = c.pos_row + c.last_rowset_size in
      s.row_count - row < fuel → read_next fuel s c ≡ run_of (s.row_count - row) row
unfolding read_next
read_next-run_of zero s c h m k = absurd (omega arith)
read_next-run_of (suc fuel) s c h m k =
    let row = c.pos_row + c.last_rowset_size in
    elim (Bool-cases (ltb row s.row_count)) [
      | inr out ↦
          let (rows, ret) = next_outside s c (ground arith) in
          let none_ : s.row_count - row ≡ 0 = ground arith in
          rw (rows, ret, none_) (sym (run_of_zero row))
      | inl inside ↦
          let less : row < s.row_count = ground arith in
          let o = return_rowset s row false in
          let (at_pos, at_size) = return_rowset_pos s row false in
          let len : 0 < rowset_len s row = ground arith in
          let success = (return_rowset_some s row false len).0 in
          let place_ : o.cursor.pos_row + o.cursor.last_rowset_size ≡ row + s.rowset_size =
            omega arith in
          let rest = read_next-run_of fuel s o.cursor h (inr (omega arith)) (omega arith) in
          let behind =
            subst (λ n. read_next fuel s o.cursor ≡ run_of (s.row_count - n) n) place_ rest in
          let rows : o.rows ≡ run_of (rowset_len s row) row =
            return_rowset_rows s row false ∙ rw h.2 refl in
          rw (next_inside s c m less, rows, success, behind) (rowset-rest s row h less)
    ]

-- Every row of the set, in order and once, is what the calls of SQLFetch return from the opening of a
-- static cursor on, as long as they succeed: one call more than there are rows is enough, with any
-- rowset size but 0, no limit on the rows and the rows wanted.
pub read_next-all :
    (s : Settings) → ReturnsAll s → read_next (suc s.row_count) s opened ≡ run_of s.row_count 0
read_next-all s h =
    let whole : s.row_count - (0 + 0) ≡ s.row_count = omega arith in
    read_next-run_of (suc s.row_count) s opened h (inl refl) (omega arith)
    ∙ ap (λ n. run_of n 0) whole
