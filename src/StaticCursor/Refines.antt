-- ===== src/StaticCursor/Refines.antt =====
-- A static cursor of IscDbc/Sqlda.cpp that is filled and read, as the list of its rows.
use firebird_odbc_driver.Base.{
  ℕ, zero, suc, ◌+◌, ◌≤◌, ◌<◌, ◌≡◌, refl, sym, ap, ◌∙◌, inl, inr, Option, none, some, List, [], ◌∷◌,
  ◌++◌, append-nil, append_assoc, arith, ltb, subst, length, get_elem?, set, take, drop, map,
  replicate, length-append, length-replicate, Bool-cases,
}
use firebird_odbc_driver.StaticCursor.{
  RowBlocks, new_block, new_cursor, next_position, current_row, copy_to_current, add_row, current,
}
use firebird_odbc_driver.StaticCursor.Blocks.{flat, nil, cons}
use firebird_odbc_driver.StaticCursor.Rows.{
  Stands, current_row-get, copy_to_current-Stands, next_position-Stands, next_position-fresh,
  current-Stands,
}

module _ {ℓ} {A : Type ℓ} (blank : A) where
  -- The rows that were fetched, each added behind the others.
  unfoldable pub fill_cursor : RowBlocks A → List A → RowBlocks A
  fill_cursor c [] = c
  fill_cursor c (row ∷ rows) = fill_cursor (add_row blank row c) rows

  -- `copyNextSqldaFromBufferStaticCursor`, `count` times.
  unfoldable pub read_rows : (count : ℕ) → RowBlocks A → List (Option A)
  read_rows zero c = []
  read_rows (suc count) c =
      let next = next_position blank c in let rest = read_rows count next in current_row next ∷ rest

  -- `current`, and the rows from there on.
  unfoldable pub read_from : (n_row count : ℕ) → RowBlocks A → Option (List (Option A))
  read_from n_row count c = elim (current c n_row) [
    | none ↦ none
    | some c' ↦ some (read_rows count c')
  ]

  -- The rows of a cursor in use: those added, and fresh ones, the first of which is the next to be written.
  pub record Filled (c : RowBlocks A) (rows : List A) : Type ℓ where
    pub fresh : ℕ
    pub stands : Stands c (rows ++ replicate (suc fresh) blank) (suc (length rows))
    pub inside : c.min_row ≤ length rows
    pub count : c.count_all_rows ≡ length rows

  new_cursor-Filled : Filled (new_cursor blank) []
  unfolding new_cursor flat
  new_cursor-Filled = record {
    fresh = 39;
    stands = record {
      made = new_block blank ∷ [];
      empty = 9;
      whole = cons (length-replicate 40 blank) nil;
      blocks = refl;
      held = append-nil (new_block blank);
      block = omega arith;
      min_row = refl;
      max_row = refl;
      above = omega arith;
      below = omega arith;
      place = refl;
      next = refl;
    };
    inside = omega arith;
    count = refl;
  }

  set-behind :
      (rows fresh : List A) (row : A)
      → set (rows ++ blank ∷ fresh) (length rows) row ≡ (rows ++ row ∷ []) ++ fresh
  set-behind [] fresh row = refl
  set-behind (x ∷ rows) fresh row = ap (λ rest. x ∷ rest) (set-behind rows fresh row)

  written_count :
      (c : RowBlocks A) (row : A) → (copy_to_current row c).count_all_rows ≡ c.count_all_rows
  unfolding copy_to_current
  written_count c row = refl

  counted-Stands :
      (c : RowBlocks A) (rows : List A) (n count : ℕ)
      → Stands c rows n
      → Stands (record c { count_all_rows = count }) rows n
  counted-Stands c rows n count s = record {
    made = s.made;
    empty = s.empty;
    whole = s.whole;
    blocks = s.blocks;
    held = s.held;
    block = s.block;
    min_row = s.min_row;
    max_row = s.max_row;
    above = s.above;
    below = s.below;
    place = s.place;
    next = s.next;
  }

  next_position-count :
      (c : RowBlocks A) → (next_position blank c).count_all_rows ≡ c.count_all_rows
  unfolding next_position
  next_position-count c = elim (Bool-cases (ltb c.next_row c.max_row)) [
    | inl within ↦ rw within refl
    | inr behind ↦ rw behind refl
  ]

  -- A row that was written over the first fresh one, and the iterator behind it.
  next-fresh :
      (c : RowBlocks A) (rows : List A) (fresh : ℕ)
      → 0 < length rows
      → Stands c (rows ++ replicate fresh blank) (length rows)
      → (left : ℕ) × Stands
          (next_position blank c)
          (rows ++ replicate (suc left) blank)
          (suc (length rows))
        × ((next_position blank c).min_row ≤ length rows)
  next-fresh c rows zero some_ s =
      let all : rows ++ replicate 0 blank ≡ rows = append-nil rows in
      let s' : Stands c rows (length rows) = subst (λ all. Stands c all (length rows)) all s in
      let (stands, inside) = next_position-fresh blank c rows (length rows) s' refl in
      (39, stands, inside)
  next-fresh c rows (suc fresh) some_ s =
      let size : length (rows ++ replicate (suc fresh) blank) ≡ length rows + suc fresh =
        length-append rows (replicate (suc fresh) blank)
        ∙ ap (λ n. length rows + n) (length-replicate (suc fresh) blank) in
      let (stands, inside) =
        next_position-Stands blank c (rows ++ replicate (suc fresh) blank) (length rows) s
          (omega (arith, size)) in
      (fresh, stands, inside)

  add_row-Filled :
      (c : RowBlocks A) (rows : List A) (row : A)
      → Filled c rows
      → Filled (add_row blank row c) (rows ++ row ∷ [])
  unfolding add_row
  add_row-Filled c rows row f =
      let more : length (rows ++ row ∷ []) ≡ suc (length rows) =
        length-append rows (row ∷ []) ∙ omega arith in
      let w : RowBlocks A = copy_to_current row c in
      let written =
        copy_to_current-Stands c (rows ++ replicate (suc f.fresh) blank) (length rows) row f.stands
          f.inside in
      let held : Stands w ((rows ++ row ∷ []) ++ replicate f.fresh blank) (suc (length rows)) =
        subst (λ all. Stands w all (suc (length rows)))
          (set-behind rows (replicate f.fresh blank) row) written in
      let at_end =
        subst (λ n. Stands w ((rows ++ row ∷ []) ++ replicate f.fresh blank) n) (sym more) held in
      let (left, stands, inside) =
        next-fresh w (rows ++ row ∷ []) f.fresh (omega (arith, more)) at_end in
      record {
        fresh = left;
        stands =
            counted-Stands (next_position blank w)
              ((rows ++ row ∷ []) ++ replicate (suc left) blank) (suc (length (rows ++ row ∷ [])))
              (suc (next_position blank w).count_all_rows) stands;
        inside = inside;
        count = ap suc (next_position-count w ∙ written_count c row ∙ f.count) ∙ sym more;
      }

  pub fill_cursor-Filled :
      (c : RowBlocks A) (before rows : List A)
      → Filled c before
      → Filled (fill_cursor c rows) (before ++ rows)
  unfolding fill_cursor
  fill_cursor-Filled c before [] f = subst (Filled c) (sym (append-nil before)) f
  fill_cursor-Filled c before (row ∷ rows) f =
      subst (Filled (fill_cursor (add_row blank row c) rows)) (append_assoc before (row ∷ []) rows)
        (fill_cursor-Filled (add_row blank row c) (before ++ row ∷ []) rows
          (add_row-Filled c before row f))

  take-drop-get :
      (count n : ℕ) (rows : List A)
      → n < length rows
      → map some (take (suc count) (drop n rows))
        ≡ get_elem? rows n ∷ map some (take count (drop (suc n) rows))
  take-drop-get count n [] h = absurd (omega arith)
  take-drop-get count zero (x ∷ rows) h = refl
  take-drop-get count (suc n) (x ∷ rows) h = take-drop-get count n rows (omega arith)

  read_rows-take :
      (count : ℕ) (c : RowBlocks A) (rows : List A) (n : ℕ)
      → Stands c rows n
      → n + count ≤ length rows
      → read_rows count c ≡ map some (take count (drop n rows))
  unfolding read_rows
  read_rows-take zero c rows n s h = refl
  read_rows-take (suc count) c rows n s h =
      let (stands, inside) = next_position-Stands blank c rows n s (omega arith) in
      let next = next_position blank c in
      let row = current_row-get next rows n stands inside in
      let rest = read_rows-take count next rows (suc n) stands (omega arith) in
      rw (row, rest) (sym (take-drop-get count n rows (omega arith)))

  take-drop-append :
      (count n : ℕ) (rows fresh : List A)
      → n + count ≤ length rows
      → take count (drop n (rows ++ fresh)) ≡ take count (drop n rows)
  take-drop-append zero n rows fresh h = refl
  take-drop-append (suc count) n [] fresh h = absurd (omega arith)
  take-drop-append (suc count) zero (x ∷ rows) fresh h =
      ap (λ rest. x ∷ rest) (take-drop-append count 0 rows fresh (omega arith))
  take-drop-append (suc count) (suc n) (x ∷ rows) fresh h =
      take-drop-append (suc count) n rows fresh (omega arith)

  -- A static cursor is the list of the rows that were fetched into it, however many blocks they fill:
  -- `getCountRowsStaticCursor` is their number, and from any row on the rows are read in order, for as many
  -- as there are, none of them outside the blocks.
  pub fill_cursor-refines :
      (rows : List A) (n count : ℕ)
      → n + count ≤ length rows
      → let c = fill_cursor (new_cursor blank) rows in
        (c.count_all_rows ≡ length rows)
        × (read_from n count c ≡ some (map some (take count (drop n rows))))
  unfolding read_from
  fill_cursor-refines rows n count h =
      let c = fill_cursor (new_cursor blank) rows in
      let f = fill_cursor-Filled (new_cursor blank) [] rows new_cursor-Filled in
      let fresh = replicate (suc f.fresh) blank in
      let size = length-append rows fresh in
      let (c', found, stands) =
        current-Stands c (rows ++ fresh) (suc (length rows)) n f.stands (omega (arith, size)) in
      let read = read_rows-take count c' (rows ++ fresh) n stands (omega (arith, size)) in
      (
        f.count,
        rw (read_from, found)
            (ap some (read ∙ ap (map some) (take-drop-append count n rows fresh h))),
      )
