-- ===== src/Mlist/Tests.antt =====
-- Runs of IscDbc/Mlist.h on bound columns.
use firebird_odbc_driver.Base.{zero, suc, refl, [], ◌∷◌, arith}
use firebird_odbc_driver.Mlist.{Mlist, bind_item, search}
use firebird_odbc_driver.Mlist.Bisect.{
  IsNegative, IsSorted, Finds, search-Finds, get_elem-lt, same-elem,
}
use firebird_odbc_driver.Mlist.Sorted.{IsValid, Binds, bind_item-Binds}
use firebird_odbc_driver.Mlist.Columns.{
  BindColumn, compare_columns, no_column, compare_columns-IsOrder,
}

abbrev third : BindColumn
third = record { column = 3; imp_record = 30; app_record = 31 }

abbrev seventh : BindColumn
seventh = record { column = 7; imp_record = 70; app_record = 71 }

abbrev two_columns : Mlist BindColumn
two_columns = record {
  items = third ∷ seventh ∷ [];
  count_cache = 3;
  diff_cache = 3;
  row_active = 0;
}

in_order : IsNegative (compare_columns third seventh)
unfolding compare_columns
in_order = refl

two_columns-IsSorted : IsSorted compare_columns two_columns.items
two_columns-IsSorted i zero x y lt at at' = absurd (omega arith)
two_columns-IsSorted zero (suc zero) x y lt at at' =
    rw
      (
        ← same-elem two_columns.items 0 0 third x refl refl at,
        ← same-elem two_columns.items 1 1 seventh y refl refl at',
      )
      in_order
two_columns-IsSorted (suc i) (suc zero) x y lt at at' = absurd (omega arith)
two_columns-IsSorted i (suc (suc j)) x y lt at at' =
    absurd (omega (arith, get_elem-lt two_columns.items (suc (suc j)) y at'))

two_columns-IsValid : IsValid compare_columns compare_columns-IsOrder two_columns
two_columns-IsValid = record {
  sorted = two_columns-IsSorted;
  room = omega arith;
  grows = omega arith;
}

abbrev fifth : BindColumn
fifth = record { column = 5; imp_record = 50; app_record = 51 }

search-Finds_example :
    Finds compare_columns two_columns.items seventh (search compare_columns two_columns seventh)
search-Finds_example =
    search-Finds compare_columns two_columns seventh compare_columns-IsOrder two_columns-IsSorted

bind_item-Binds_example :
    Binds compare_columns compare_columns-IsOrder two_columns fifth
      (bind_item compare_columns no_column two_columns fifth)
bind_item-Binds_example =
    bind_item-Binds compare_columns compare_columns-IsOrder no_column two_columns fifth
      two_columns-IsValid
