-- ===== src/Fetch/All.antt =====
-- A result set that is read to its end by the calls of `fetchData`, in OdbcStatement.cpp.
use firebird_odbc_driver.Base.{
  ℕ, zero, suc, ◌+◌, ◌≤◌, ◌<◌, min, ◌≡◌, ◌⊎◌, refl, ap, ◌∙◌, inl, inr, Bool, true, false, not, ◌||◌,
  length-take, length-drop, take_of_ge, some, List, [], ◌++◌, map, append-nil, arith, ltb, ◌==◌,
  if◌then◌else◌, length, take, drop, Bool-cases, take-append-drop,
}
use firebird_odbc_driver.Fetch.{Reader, fetch_data}
use firebird_odbc_driver.Fetch.Rowset.{rows_of, rows_of-places, length-places, copy_fetched-places}
use firebird_odbc_driver.Scroll.{Settings}
use firebird_odbc_driver.Scroll.Rows.{limit}
use firebird_odbc_driver.Scroll.Forward.{succeeded}

-- The rows of the calls, as long as they succeed.
unfoldable pub read_all : (fuel : ℕ) → Settings → (step offset : ℕ) (eof : Bool) → Reader → List ℕ
read_all zero s step offset eof r = []
read_all (suc fuel) s step offset eof r =
    let page = fetch_data s step offset eof r in
    let rest = read_all fuel s step offset page.eof page.reader in
    rows_of page.stored ++ (if succeeded page.ret then rest else [])

-- A reader in front of rows.
abbrev pub at_rows : (fetched row_number : ℕ) → List ℕ → Reader
at_rows fetched row_number rows = record {
  count_fetched = fetched;
  row_number = row_number;
  pending = map some rows;
}

-- Of a result set that only gives rows and is not at its end, a call takes `limit` rows, or those that are
-- left.
fetch_data-at_rows :
    (s : Settings) (step offset f m : ℕ) (rows : List ℕ)
    → s.fetch_ret_data ≡ true
    → let k = limit s.rowset_size s.max_rows 0 in
      let n = length (take k rows) in
      let page = fetch_data s step offset false (at_rows f m rows) in
      (rows_of page.stored ≡ take k rows)
      × (page.reader ≡ at_rows (f + n) (m + n) (drop k rows))
      × (page.eof ≡ (n == 0 || ltb n s.rowset_size))
      × (succeeded page.ret ≡ not (n == 0))
unfolding fetch_data
fetch_data-at_rows s step offset f m rows on =
    let start : (s.max_rows ≡ 0) ⊎ (0 < s.max_rows) = ground arith in
    let k = limit s.rowset_size s.max_rows 0 in
    let copied = copy_fetched-places s.rowset_size s.max_rows 0 step offset rows start in
    rw (on, copied, length-places step offset (take k rows))
      (
        rows_of-places step offset (take k rows),
        refl,
        refl,
        elim (Bool-cases (length (take k rows) == 0)) [ inl e ↦ rw e refl | inr e ↦ rw e refl ],
      )

read_all_eof :
    (fuel : ℕ) (s : Settings) (step offset : ℕ) (r : Reader)
    → read_all fuel s step offset true r ≡ []
unfolding read_all fetch_data rows_of
read_all_eof zero s step offset r = refl
read_all_eof (suc fuel) s step offset r = refl

-- One call, and those behind it.
read_all-step :
    (fuel : ℕ) (s : Settings) (step offset f m : ℕ) (rows : List ℕ)
    → s.fetch_ret_data ≡ true
    → let k = limit s.rowset_size s.max_rows 0 in
      let n = length (take k rows) in
      read_all (suc fuel) s step offset false (at_rows f m rows)
      ≡ take k rows
        ++ (if n == 0 || ltb n s.rowset_size
            then []
            else read_all fuel s step offset false (at_rows (f + n) (m + n) (drop k rows)))
unfolding read_all
read_all-step fuel s step offset f m rows on =
    let k = limit s.rowset_size s.max_rows 0 in
    let n = length (take k rows) in
    let (stored, reader, eof, ret) = fetch_data-at_rows s step offset f m rows on in
    rw (stored, reader, eof, ret)
      (ap (λ rest. take k rows ++ rest)
        (elim (Bool-cases (n == 0)) [
          | inl e ↦ rw e refl
          | inr e ↦ elim (Bool-cases (ltb n s.rowset_size)) [
            | inl short ↦
                rw (e, short)
                  (read_all_eof fuel s step offset (at_rows (f + n) (m + n) (drop k rows)))
            | inr full ↦ rw (e, full) refl
          ]
        ]))

read_all-rows :
    (fuel : ℕ) (s : Settings) (step offset f m : ℕ) (rows : List ℕ)
    → s.fetch_ret_data ≡ true
    → 0 < s.rowset_size
    → (s.max_rows ≡ 0) ⊎ (s.rowset_size ≤ s.max_rows)
    → length rows < fuel
    → read_all fuel s step offset false (at_rows f m rows) ≡ rows
read_all-rows zero s step offset f m rows on size beyond h = absurd (omega arith)
read_all-rows (suc fuel) s step offset f m rows on size beyond h =
    let k = limit s.rowset_size s.max_rows 0 in
    let n = length (take k rows) in
    let whole : k ≡ s.rowset_size = ground arith in
    let taken : n ≡ min k (length rows) = length-take k rows in
    read_all-step fuel s step offset f m rows on
    ∙ elim (Bool-cases (n == 0 || ltb n s.rowset_size)) [
      | inl last ↦
          let all : length rows ≤ k = ground arith in
          rw last (append-nil (take k rows) ∙ take_of_ge k rows all)
      | inr more ↦
          let left = length-drop k rows in
          let fewer : length (drop k rows) < fuel = ground arith in
          rw more (
            ap (λ rest. take k rows ++ rest)
              (read_all-rows fuel s step offset (f + n) (m + n) (drop k rows) on size beyond fewer)
            ∙ take-append-drop k rows)
    ]

-- Every row is returned, in order and once, however many calls are needed: a limit on the rows that is
-- no smaller than the rowset limits nothing. One call more than there are rows is enough, with any rowset
-- size but 0 and the rows wanted.
pub read_all-whole :
    (s : Settings) (step offset : ℕ) (rows : List ℕ)
    → s.fetch_ret_data ≡ true
    → 0 < s.rowset_size
    → (s.max_rows ≡ 0) ⊎ (s.rowset_size ≤ s.max_rows)
    → read_all (suc (length rows)) s step offset false (at_rows 0 0 rows) ≡ rows
read_all-whole s step offset rows on size beyond =
    read_all-rows (suc (length rows)) s step offset 0 0 rows on size beyond (omega arith)

-- A limit on the rows that is smaller than the rowset, and not 0, is kept: its first call returns as many
-- rows as the limit allows, and is the last to return any, with the rows wanted.
pub read_all-limited :
    (fuel : ℕ) (s : Settings) (step offset : ℕ) (rows : List ℕ)
    → s.fetch_ret_data ≡ true
    → 0 < s.max_rows
    → s.max_rows < s.rowset_size
    → read_all (suc fuel) s step offset false (at_rows 0 0 rows) ≡ take s.max_rows rows
read_all-limited fuel s step offset rows on limits less =
    let k = limit s.rowset_size s.max_rows 0 in
    let n = length (take k rows) in
    let limited : k ≡ s.max_rows = ground arith in
    let taken : n ≡ min k (length rows) = length-take k rows in
    let last : (n == 0 || ltb n s.rowset_size) ≡ true = ground arith in
    read_all-step fuel s step offset 0 0 rows on
    ∙ rw last (append-nil (take k rows))
    ∙ ap (λ j. take j rows) limited
