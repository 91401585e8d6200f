-- ===== src/StaticCursor.antt =====
-- `CDataStaticCursor` of IscDbc/Sqlda.cpp, the rows of a static cursor in blocks of 40. A row is what its
-- buffer holds once the blobs of its columns are detached, and `blank` is a fresh buffer.
pub mod Blocks
pub mod Rows
pub mod Refines
mod Tests
use firebird_odbc_driver.Base.{
  ℕ, zero, suc, ◌+◌, ◌-◌, Bool, true, false, not, ◌&&◌, Option, none, some, List, [], ◌∷◌, ◌++◌,
  ltb, leb, ◌==◌, if◌then◌else◌, length, get_elem?, set, get_or, replicate,
}

-- The blocks, those not yet made being empty. `it_current_row` is how far the iterator stands from
-- `rend ()` of the rows of `cur_block`, so that it leads to the row before that number. `next_row` is
-- `curRow + 1`: `curRow` itself is -1 before the first row.
pub record RowBlocks {ℓ} (A : Type ℓ) : Type ℓ where
  pub list_blocks : List (List A)
  pub it_current_row : ℕ
  pub count_all_rows : ℕ
  pub cur_block : ℕ
  pub min_row : ℕ
  pub max_row : ℕ
  pub next_row : ℕ

abbrev pub max_row_block : ℕ
max_row_block = 40

module _ {ℓ} {A : Type ℓ} where
  abbrev pub block_at : List (List A) → ℕ → List A
  block_at blocks j = get_or blocks j []

  -- `*itCurrentRow`, which is no row at `rend ()`.
  unfoldable pub current_row : RowBlocks A → Option A
  current_row c =
      if c.it_current_row == 0
      then none
      else get_elem? (block_at c.list_blocks c.cur_block) (c.it_current_row - 1)

  -- `copyToCurrentSqlda`
  unfoldable pub copy_to_current : A → RowBlocks A → RowBlocks A
  copy_to_current row c = record c {
    list_blocks =
        set c.list_blocks c.cur_block
          (set (block_at c.list_blocks c.cur_block) (c.it_current_row - 1) row);
  }

  -- The loop of `current`: the block whose rows end at `n_row` or behind, and where they end. `n` is where
  -- those of the block `i` end; without such a block `at` throws.
  unfoldable pub find_block : List (List A) → (i n n_row : ℕ) → Option (ℕ × ℕ)
  find_block [] i n n_row = none
  find_block (block ∷ blocks) i n n_row =
      let rest = find_block blocks (suc i) (n + length block) n_row in
      if leb n_row (n + length block) then some (i, n + length block) else rest

  abbrev pub placed : RowBlocks A → (n_row : ℕ) → Option (ℕ × ℕ) → Option (RowBlocks A)
  placed c n_row none = none
  placed c n_row (some (i, n)) =
      let min_row = n - length (block_at c.list_blocks i) in
      some (record c {
        cur_block = i;
        min_row = min_row;
        max_row = n;
        it_current_row = n_row - min_row;
        next_row = n_row;
      })

  -- `current`, which leaves the cursor before the row.
  unfoldable pub current : RowBlocks A → (n_row : ℕ) → Option (RowBlocks A)
  current c n_row =
      if leb c.min_row n_row && ltb n_row c.max_row
      then some (record c { it_current_row = n_row - c.min_row; next_row = n_row })
      else placed c n_row (find_block c.list_blocks 0 0 n_row)

module _ {ℓ} {A : Type ℓ} (blank : A) where
  -- `RowBlock { nMAXROWBLOCK, lenRow }`
  abbrev pub new_block : List A
  new_block = replicate max_row_block blank

  -- The constructor.
  unfoldable pub new_cursor : RowBlocks A
  new_cursor = record {
    list_blocks = new_block ∷ replicate 9 [];
    it_current_row = 1;
    count_all_rows = 0;
    cur_block = 0;
    min_row = 0;
    max_row = max_row_block;
    next_row = 1;
  }

  -- The block behind the current one is made when it is not there.
  unfoldable pub grown : List (List A) → (cur_block : ℕ) → List (List A)
  grown blocks cur_block =
      let longer = if cur_block == length blocks then blocks ++ replicate 10 [] else blocks in
      if length (block_at longer cur_block) == 0 then set longer cur_block new_block else longer

  unfoldable pub next_position : RowBlocks A → RowBlocks A
  next_position c =
      let blocks = grown c.list_blocks (suc c.cur_block) in
      if ltb c.next_row c.max_row
      then record c { it_current_row = suc c.it_current_row; next_row = suc c.next_row }
      else record c {
        list_blocks = blocks;
        it_current_row = 1;
        cur_block = suc c.cur_block;
        min_row = c.next_row;
        max_row = c.next_row + length (block_at blocks (suc c.cur_block));
        next_row = suc c.next_row;
      }

  unfoldable pub add_row : A → RowBlocks A → RowBlocks A
  add_row row c =
      let next = next_position (copy_to_current row c) in
      record next { count_all_rows = suc next.count_all_rows }
