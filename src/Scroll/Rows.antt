-- ===== src/Scroll/Rows.antt =====
-- The rowset that OdbcStatement.cpp copies from a static cursor.
use firebird_odbc_driver.Base.{
  ℕ, zero, suc, ◌+◌, ◌-◌, ◌<◌, min, ◌≡◌, ◌⊎◌, refl, ap, ◌∙◌, inl, inr, Bool, true, false, not, ◌&&◌,
  List, [], ◌∷◌, ◌++◌, arith, ltb, ◌==◌, if◌then◌else◌, length, Bool-cases,
}
use firebird_odbc_driver.Scroll.{Settings, Cursor, rowset, fetch_success, copy_rows, return_rowset}

-- `n` rows from `row` on.
unfoldable pub run_of : (n row : ℕ) → List ℕ
run_of zero row = []
run_of (suc n) row = row ∷ run_of n (suc row)

pub run_of_zero : (row : ℕ) → run_of 0 row ≡ []
unfolding run_of
run_of_zero row = refl

pub length-run_of : (n row : ℕ) → length (run_of n row) ≡ n
unfolding run_of
length-run_of zero row = refl
length-run_of (suc n) row = ap suc (length-run_of n (suc row))

pub run_of-add : (a b row : ℕ) → run_of (a + b) row ≡ run_of a row ++ run_of b (row + a)
unfolding run_of
run_of-add zero b row =
    let e : zero + b ≡ b = omega arith in let f : row + zero ≡ row = omega arith in rw (e, f) refl
run_of-add (suc a) b row =
    let e : suc a + b ≡ suc (a + b) = omega arith in
    let f : row + suc a ≡ suc row + a = omega arith in
    rw (e, f) (ap (λ rows. row ∷ rows) (run_of-add a b (suc row)))

-- How many rows the loop copies: `left`, and what `max_rows` leaves of `n` copied ones.
abbrev pub limit : (left max_rows n : ℕ) → ℕ
limit left max_rows n = if max_rows == 0 then left else min left (max_rows - n)

pub copy_rows-run_of :
    (left max_rows row_count n row : ℕ)
    → (max_rows ≡ 0) ⊎ (n < max_rows)
    → copy_rows left max_rows row_count n row
      ≡ run_of (min (limit left max_rows n) (row_count - row)) row
unfolding copy_rows run_of
copy_rows-run_of zero max_rows row_count n row h =
    let e : min (limit zero max_rows n) (row_count - row) ≡ 0 = ground arith in rw e refl
copy_rows-run_of (suc left) max_rows row_count n row h = elim (Bool-cases (ltb row row_count)) [
  | inr out ↦
      let e : min (limit (suc left) max_rows n) (row_count - row) ≡ 0 = ground arith in
      rw (out, e) refl
  | inl inside ↦ elim (Bool-cases (not (max_rows == 0) && suc n == max_rows)) [
    | inl last ↦
        let e : min (limit (suc left) max_rows n) (row_count - row) ≡ 1 = ground arith in
        rw (inside, last, e) refl
    | inr more ↦
        let e : min (limit (suc left) max_rows n) (row_count - row)
            ≡ suc (min (limit left max_rows (suc n)) (row_count - suc row)) =
          ground arith in
        let next : (max_rows ≡ 0) ⊎ (suc n < max_rows) = ground arith in
        rw (inside, more, e)
          (ap (λ rows. row ∷ rows)
            (copy_rows-run_of left max_rows row_count (suc n) (suc row) next))
  ]
]

-- The size of the rowset from `row` on.
abbrev pub rowset_len : Settings → (row : ℕ) → ℕ
rowset_len s row = min (limit s.rowset_size s.max_rows 0) (s.row_count - row)

pub copy_rows-rowset :
    (s : Settings) (row : ℕ)
    → copy_rows s.rowset_size s.max_rows s.row_count 0 row ≡ run_of (rowset_len s row) row
copy_rows-rowset s row = copy_rows-run_of s.rowset_size s.max_rows s.row_count 0 row (ground arith)

-- The rows of a rowset, unless the rows are not wanted.
pub return_rowset_rows :
    (s : Settings) (row : ℕ) (warned : Bool)
    → (return_rowset s row warned).rows
      ≡ (if s.fetch_ret_data then run_of (rowset_len s row) row else [])
unfolding return_rowset
return_rowset_rows s row warned = elim (Bool-cases s.fetch_ret_data) [
  | inl on ↦ rw on (copy_rows-rowset s row)
  | inr off ↦ rw off refl
]

kept :
    (b : Bool) (x y : Cursor) (row : ℕ)
    → x.pos_row ≡ row
    → y.pos_row ≡ row
    → (if b then x else y).pos_row ≡ row
kept true x y row h k = h
kept false x y row h k = k

kept_size :
    (b : Bool) (x y : Cursor) (n : ℕ)
    → x.last_rowset_size ≡ n
    → y.last_rowset_size ≡ n
    → (if b then x else y).last_rowset_size ≡ n
kept_size true x y n h k = h
kept_size false x y n h k = k

pub return_rowset_pos :
    (s : Settings) (row : ℕ) (warned : Bool)
    → ((return_rowset s row warned).cursor.pos_row ≡ row)
      × ((return_rowset s row warned).cursor.last_rowset_size ≡ s.rowset_size)
unfolding return_rowset
return_rowset_pos s row warned = elim (Bool-cases s.fetch_ret_data) [
  | inl on ↦ rw on (kept _ _ _ row refl refl, kept_size _ _ _ s.rowset_size refl refl)
  | inr off ↦ rw off (refl, refl)
]

-- With rows in the rowset the call succeeds at it.
pub return_rowset_some :
    (s : Settings) (row : ℕ) (warned : Bool)
    → 0 < rowset_len s row
    → ((return_rowset s row warned).ret ≡ fetch_success)
      × ((return_rowset s row warned).cursor.position ≡ rowset)
unfolding return_rowset
return_rowset_some s row warned k =
    let n = copy_rows s.rowset_size s.max_rows s.row_count 0 row in
    let len : length n ≡ rowset_len s row =
      ap length (copy_rows-rowset s row) ∙ length-run_of (rowset_len s row) row in
    let there : (length n == 0) ≡ false = ground arith in
    elim (Bool-cases s.fetch_ret_data) [
      | inl on ↦ rw (on, there) (refl, refl)
      | inr off ↦ rw off (refl, refl)
    ]
