-- ===== src/StaticCursor/Tests.antt =====
-- A static cursor of 45 rows, which fill a block and a part of the next.
use firebird_odbc_driver.Base.{ℕ, zero, suc, ◌≡◌, some, List, [], ◌∷◌, arith}
use firebird_odbc_driver.StaticCursor.{new_cursor}
use firebird_odbc_driver.StaticCursor.Refines.{fill_cursor, read_from, fill_cursor-refines}

abbrev numbers : (count from : ℕ) → List ℕ
numbers zero from = []
numbers (suc count) from = from ∷ numbers count (suc from)

fill_cursor-refines_example :
    ((fill_cursor 0 (new_cursor 0) (numbers 45 1)).count_all_rows ≡ 45)
    × (read_from 0 39 3 (fill_cursor 0 (new_cursor 0) (numbers 45 1))
        ≡ some (some 40 ∷ some 41 ∷ some 42 ∷ []))
fill_cursor-refines_example = fill_cursor-refines 0 (numbers 45 1) 39 3 (ground arith)
