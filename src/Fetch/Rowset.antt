-- ===== src/Fetch/Rowset.antt =====
-- The loop of `fetchData` in OdbcStatement.cpp, on any result set and on one that only gives rows.
use firebird_odbc_driver.Base.{
  ℕ, zero, suc, ◌+◌, ◌-◌, ◌<◌, ◌≡◌, ◌⊎◌, refl, ap, inl, inr, false, not, ◌&&◌, Option, none, some,
  List, [], ◌∷◌, ◌++◌, map, arith, ◌==◌, length, take, drop, Bool-cases,
}
use firebird_odbc_driver.Fetch.{copy_fetched}
use firebird_odbc_driver.Scroll.Rows.{limit}

-- The rows of a result set, exceptions left out.
unfoldable pub somes : List (Option ℕ) → List ℕ
somes [] = []
somes (none ∷ rows) = somes rows
somes (some row ∷ rows) = row ∷ somes rows

unfoldable pub rows_of : List (ℕ × ℕ) → List ℕ
rows_of [] = []
rows_of ((offset, row) ∷ taken) = row ∷ rows_of taken

-- Rows with the offsets of their places.
unfoldable pub places : (step offset : ℕ) → List ℕ → List (ℕ × ℕ)
places step offset [] = []
places step offset (row ∷ rows) = (offset, row) ∷ places step (offset + step) rows

pub rows_of-places : (step offset : ℕ) (rows : List ℕ) → rows_of (places step offset rows) ≡ rows
unfolding rows_of places
rows_of-places step offset [] = refl
rows_of-places step offset (row ∷ rows) =
    ap (λ rest. row ∷ rest) (rows_of-places step (offset + step) rows)

pub length-places :
    (step offset : ℕ) (rows : List ℕ) → length (places step offset rows) ≡ length rows
unfolding places
length-places step offset [] = refl
length-places step offset (row ∷ rows) = ap suc (length-places step (offset + step) rows)

-- Whatever the result set answers, the rows that a rowset takes and those that are left are all its rows.
pub copy_fetched-rows :
    (room max_rows n step offset : ℕ) (rows : List (Option ℕ))
    → let c = copy_fetched room max_rows n step offset rows in
      rows_of c.taken ++ somes c.left ≡ somes rows
unfolding copy_fetched somes rows_of
copy_fetched-rows zero max_rows n step offset rows = refl
copy_fetched-rows (suc room) max_rows n step offset [] = refl
copy_fetched-rows (suc room) max_rows n step offset (none ∷ rows) = refl
copy_fetched-rows (suc room) max_rows n step offset (some row ∷ rows) =
    elim (Bool-cases (not (max_rows == 0) && suc n == max_rows)) [
      | inl last ↦ rw last refl
      | inr more ↦ rw more (
          ap (λ rest. row ∷ rest)
            (copy_fetched-rows room max_rows (suc n) step (offset + step) rows))
    ]

-- Of a result set that only gives rows, a rowset takes as many as there is room for, and as the limit
-- leaves.
pub copy_fetched-places :
    (room max_rows n step offset : ℕ) (rows : List ℕ)
    → (max_rows ≡ 0) ⊎ (n < max_rows)
    → let k = limit room max_rows n in
      copy_fetched room max_rows n step offset (map some rows) ≡ record {
        taken = places step offset (take k rows);
        left = map some (drop k rows);
        failed = false;
      }
unfolding copy_fetched places
copy_fetched-places zero max_rows n step offset rows h =
    let e : limit zero max_rows n ≡ 0 = ground arith in rw e refl
copy_fetched-places (suc room) max_rows n step offset [] h =
    let e : limit (suc room) max_rows n ≡ suc (limit (suc room) max_rows n - 1) = ground arith in
    rw e refl
copy_fetched-places (suc room) max_rows n step offset (row ∷ rows) h =
    elim (Bool-cases (not (max_rows == 0) && suc n == max_rows)) [
      | inl last ↦ let e : limit (suc room) max_rows n ≡ 1 = ground arith in rw (last, e) refl
      | inr more ↦
          let e : limit (suc room) max_rows n ≡ suc (limit room max_rows (suc n)) = ground arith in
          let next : (max_rows ≡ 0) ⊎ (suc n < max_rows) = ground arith in
          rw (more, e, copy_fetched-places room max_rows (suc n) step (offset + step) rows next)
            refl
    ]
