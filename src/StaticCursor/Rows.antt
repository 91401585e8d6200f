-- ===== src/StaticCursor/Rows.antt =====
-- A static cursor of IscDbc/Sqlda.cpp as the list of its rows: its blocks hold them one behind the other,
-- and the iterator stands before one of them.
use firebird_odbc_driver.Base.{
  ℕ, suc, ◌+◌, ◌-◌, ◌*◌, ◌/◌, ◌≤◌, ◌<◌, ◌≡◌, refl, sym, ap, ◌∙◌, inl, inr, false, ◌&&◌, some, List,
  [], ◌∷◌, ◌++◌, arith, ltb, leb, ◌==◌, length, get_elem?, set, get_or, replicate, length-append,
  length-set, length-replicate, Bool-cases,
}
use firebird_odbc_driver.StaticCursor.{
  RowBlocks, new_block, grown, next_position, current_row, copy_to_current, find_block, current,
}
use firebird_odbc_driver.StaticCursor.Blocks.{
  flat, Whole, length-flat, length-block_at, get_elem?-block_at, flat-set, set-Whole, append-Whole,
  flat-append, block_at-made, set-made, grown-made, grown-new, find_block-made,
}

module _ {ℓ} {A : Type ℓ} where
  -- The cursor holds `rows`, and stands before row `n`.
  pub record Stands (c : RowBlocks A) (rows : List A) (n : ℕ) : Type ℓ where
    pub made : List (List A)
    pub empty : ℕ
    pub whole : Whole made
    pub blocks : c.list_blocks ≡ made ++ replicate empty []
    pub held : flat made ≡ rows
    pub block : c.cur_block < length made
    pub min_row : c.min_row ≡ 40 * c.cur_block
    pub max_row : c.max_row ≡ 40 * c.cur_block + 40
    pub above : c.min_row ≤ n
    pub below : n ≤ c.max_row
    pub place : c.it_current_row ≡ n - c.min_row
    pub next : c.next_row ≡ n

  -- Before row `n + 1` the iterator leads to row `n`.
  pub current_row-get :
      (c : RowBlocks A) (rows : List A) (n : ℕ)
      → Stands c rows (suc n)
      → c.min_row ≤ n
      → current_row c ≡ get_elem? rows n
  unfolding current_row
  current_row-get c rows n s above =
      let some_ : (c.it_current_row == 0) ≡ false = ground (arith, s.place) in
      let r : c.it_current_row - 1 ≡ n - c.min_row = omega (arith, s.place) in
      let small : n - c.min_row < 40 = omega (arith, s.below, s.max_row, s.min_row) in
      let sum : 40 * c.cur_block + (n - c.min_row) ≡ n = omega (arith, s.min_row) in
      rw (some_, r, s.blocks, block_at-made s.made s.empty c.cur_block s.block)
        (get_elem?-block_at c.cur_block (n - c.min_row) s.whole s.block small
          ∙ rw (sum, s.held) refl)

  -- A row that is written stands before the iterator, and nothing else changes.
  pub copy_to_current-Stands :
      (c : RowBlocks A) (rows : List A) (n : ℕ) (row : A)
      → Stands c rows (suc n)
      → c.min_row ≤ n
      → Stands (copy_to_current row c) (set rows n row) (suc n)
  unfolding copy_to_current
  copy_to_current-Stands c rows n row s above =
      let r : c.it_current_row - 1 ≡ n - c.min_row = omega (arith, s.place) in
      let small : n - c.min_row < 40 = omega (arith, s.below, s.max_row, s.min_row) in
      let sum : 40 * c.cur_block + (n - c.min_row) ≡ n = omega (arith, s.min_row) in
      let b = get_or s.made c.cur_block [] in
      let written = set b (n - c.min_row) row in
      record {
        made = set s.made c.cur_block written;
        empty = s.empty;
        whole =
            set-Whole c.cur_block written s.whole
              (length-set b (n - c.min_row) row ∙ length-block_at c.cur_block s.whole s.block);
        blocks =
            rw (r, s.blocks, block_at-made s.made s.empty c.cur_block s.block)
              (set-made s.made s.empty c.cur_block written s.block);
        held =
            flat-set c.cur_block (n - c.min_row) row s.whole s.block small ∙ rw (sum, s.held) refl;
        block = rw (length-set s.made c.cur_block written) s.block;
        min_row = s.min_row;
        max_row = s.max_row;
        above = s.above;
        below = s.below;
        place = s.place;
        next = s.next;
      }

  length-rows :
      (c : RowBlocks A) (rows : List A) (n : ℕ) (s : Stands c rows n)
      → length rows ≡ 40 * length s.made
  length-rows c rows n s = ap length (sym s.held) ∙ length-flat s.whole

  -- The iterator is moved on within the rows.
  pub next_position-Stands :
      (blank : A) (c : RowBlocks A) (rows : List A) (n : ℕ)
      → Stands c rows n
      → n < length rows
      → Stands (next_position blank c) rows (suc n) × ((next_position blank c).min_row ≤ n)
  unfolding next_position
  next_position-Stands blank c rows n s inside = elim (Bool-cases (ltb c.next_row c.max_row)) [
    | inl within ↦ rw within (
      record {
        made = s.made;
        empty = s.empty;
        whole = s.whole;
        blocks = s.blocks;
        held = s.held;
        block = s.block;
        min_row = s.min_row;
        max_row = s.max_row;
        above = omega (arith, s.above);
        below = ground (arith, s.next);
        place = omega (arith, s.place, s.above);
        next = omega (arith, s.next);
      },
      s.above,
    )
    | inr behind ↦
        let size = length-rows c rows n s in
        let at_end : n ≡ 40 * c.cur_block + 40 = ground (arith, s.next, s.below, s.max_row) in
        let block : suc c.cur_block < length s.made = omega arith in
        let grown_ : grown blank c.list_blocks (suc c.cur_block) ≡ s.made ++ replicate s.empty [] =
          rw s.blocks (grown-made blank s.made s.empty (suc c.cur_block) s.whole block) in
        let full : length
              (get_or (grown blank c.list_blocks (suc c.cur_block)) (suc c.cur_block) [])
            ≡ 40 =
          rw (grown_, block_at-made s.made s.empty (suc c.cur_block) block)
            (length-block_at (suc c.cur_block) s.whole block) in
        rw behind (
          record {
            made = s.made;
            empty = s.empty;
            whole = s.whole;
            blocks = grown_;
            held = s.held;
            block = block;
            min_row = omega (arith, s.next);
            max_row = omega (arith, s.next, full);
            above = omega (arith, s.next);
            below = omega (arith, s.next, full);
            place = omega (arith, s.next);
            next = omega (arith, s.next);
          },
          omega (arith, s.next),
        )
  ]

  -- Behind the last row a block of fresh rows is made.
  pub next_position-fresh :
      (blank : A) (c : RowBlocks A) (rows : List A) (n : ℕ)
      → Stands c rows n
      → n ≡ length rows
      → Stands (next_position blank c) (rows ++ new_block blank) (suc n)
        × ((next_position blank c).min_row ≤ n)
  unfolding next_position
  next_position-fresh blank c rows n s end =
      let size = length-rows c rows n s in
      let block : suc c.cur_block ≡ length s.made = omega (arith, s.below, s.max_row, s.block) in
      let at_end : n ≡ 40 * c.cur_block + 40 = omega arith in
      let behind : ltb c.next_row c.max_row ≡ false = ground (arith, s.next, s.max_row) in
      let (left, made_) = grown-new blank s.made s.empty in
      let grown_ : grown blank c.list_blocks (suc c.cur_block)
          ≡ (s.made ++ new_block blank ∷ []) ++ replicate left [] =
        rw (s.blocks, block) made_ in
      let made = s.made ++ new_block blank ∷ [] in
      let whole : Whole made = append-Whole (new_block blank) s.whole (length-replicate 40 blank) in
      let longer : length made ≡ length s.made + 1 = length-append s.made (new_block blank ∷ []) in
      let inside : suc c.cur_block < length made = omega arith in
      let full : length (get_or (grown blank c.list_blocks (suc c.cur_block)) (suc c.cur_block) [])
          ≡ 40 =
        rw (grown_, block_at-made made left (suc c.cur_block) inside)
          (length-block_at (suc c.cur_block) whole inside) in
      rw behind (
        record {
          made = made;
          empty = left;
          whole = whole;
          blocks = grown_;
          held = flat-append s.made (new_block blank) ∙ rw s.held refl;
          block = inside;
          min_row = omega (arith, s.next);
          max_row = omega (arith, s.next, full);
          above = omega (arith, s.next);
          below = omega (arith, s.next, full);
          place = omega (arith, s.next);
          next = omega (arith, s.next);
        },
        omega (arith, s.next),
      )

  -- `current` leads before any row, and before the end.
  pub current-Stands :
      (c : RowBlocks A) (rows : List A) (n m : ℕ)
      → Stands c rows n
      → m ≤ length rows
      → (c' : RowBlocks A) × (current c m ≡ some c') × Stands c' rows m
  unfolding current
  current-Stands c rows n m s h = elim (Bool-cases (leb c.min_row m && ltb m c.max_row)) [
    | inl same ↦
        let c' : RowBlocks A = record c { it_current_row = m - c.min_row; next_row = m } in
        (
          c',
          rw same refl,
          record {
            made = s.made;
            empty = s.empty;
            whole = s.whole;
            blocks = s.blocks;
            held = s.held;
            block = s.block;
            min_row = s.min_row;
            max_row = s.max_row;
            above = ground arith;
            below = ground arith;
            place = refl;
            next = refl;
          },
        )
    | inr other ↦
        let size = length-rows c rows n s in
        let q : ℕ = (m - 0 - 1) / 40 in
        let found =
          find_block-made s.made s.empty 0 0 m s.whole (omega arith) (omega arith)
            (omega (arith, s.block)) in
        let block : q < length s.made = omega (arith, s.block) in
        let full : length (get_or c.list_blocks q []) ≡ 40 =
          rw (s.blocks, block_at-made s.made s.empty q block) (length-block_at q s.whole block) in
        let e : 0 + q ≡ q = omega arith in
        let f : 0 + 40 * (q + 1) ≡ 40 * (q + 1) = omega arith in
        let there : find_block c.list_blocks 0 0 m ≡ some (q, 40 * (q + 1)) =
          rw s.blocks (found ∙ rw (e, f) refl) in
        let start : 40 * (q + 1) - length (get_or c.list_blocks q []) ≡ 40 * q =
          omega (arith, full) in
        let c' : RowBlocks A = record c {
          cur_block = q;
          min_row = 40 * q;
          max_row = 40 * (q + 1);
          it_current_row = m - 40 * q;
          next_row = m;
        } in
        (
          c',
          rw (other, there, start) refl,
          record {
            made = s.made;
            empty = s.empty;
            whole = s.whole;
            blocks = s.blocks;
            held = s.held;
            block = block;
            min_row = refl;
            max_row = omega arith;
            above = omega arith;
            below = omega arith;
            place = refl;
            next = refl;
          },
        )
  ]
