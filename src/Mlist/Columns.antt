-- ===== src/Mlist/Columns.antt =====
-- The bound columns of a statement: the lists of OdbcStatement.cpp that OdbcDesc.h declares over
-- IscDbc/Mlist.h. A descriptor record is its number; a column number is not negative.
use firebird_odbc_driver.Base.{
  ℕ, ◌≡◌, refl, Option, none, some, List, [], ◌∷◌, arith, Option-cases, inl, inr, subst,
}
use firebird_odbc_driver.Base.Int.{ℤ, sub_ℕ}
use firebird_odbc_driver.Mlist.{Mlist, bind_item}
use firebird_odbc_driver.Mlist.Bisect.{IsOrder}
use firebird_odbc_driver.Mlist.Sorted.{IsValid, Binds, bind_item-Binds}

-- `CBindColumn`
pub record BindColumn : Type 0 where
  pub column : ℕ
  pub imp_record : ℕ
  pub app_record : ℕ

-- `CBindColumnComparator::compare`
unfoldable pub compare_columns : BindColumn → BindColumn → ℤ
compare_columns a b = sub_ℕ a.column b.column

-- `memset` of a new slot.
abbrev pub no_column : BindColumn
no_column = record { column = 0; imp_record = 0; app_record = 0 }

pub compare_columns-IsOrder : IsOrder compare_columns
unfolding compare_columns
compare_columns-IsOrder = record {
  flip_negative = λ a b h. ground arith;
  flip_positive = λ a b h. ground arith;
  trans = λ a b c h g. ground arith;
  same_left = λ a b c h g. ground arith;
  same_right = λ a b c h g. ground arith;
}

abbrev then_bind :
    (Mlist BindColumn → Option (Mlist BindColumn))
    → Option (Mlist BindColumn)
    → Option (Mlist BindColumn)
then_bind next none = none
then_bind next (some m) = next m

-- Columns bound one after the other.
pub bind_columns : Mlist BindColumn → List BindColumn → Option (Mlist BindColumn)
bind_columns m [] = some m
bind_columns m (c ∷ cs) =
    then_bind (λ m'. bind_columns m' cs) (bind_item compare_columns no_column m c)

-- However many columns are bound, in whatever order and however often each, every binding ends and
-- writes inside the array, and the list is in order, with a slot left.
pub bind_columns-IsValid :
    (m : Mlist BindColumn) (cs : List BindColumn)
    → IsValid compare_columns compare_columns-IsOrder m
    → (m' : Mlist BindColumn) × (bind_columns m cs ≡ some m')
      × IsValid compare_columns compare_columns-IsOrder m'
unfolding bind_columns
bind_columns-IsValid m [] v = (m, refl, v)
bind_columns-IsValid m (c ∷ cs) v = elim (Option-cases (bind_item compare_columns no_column m c)) [
  | inl fault ↦ absurd (
      subst (Binds compare_columns compare_columns-IsOrder m c) fault
        (bind_item-Binds compare_columns compare_columns-IsOrder no_column m c v))
  | inr (m', e) ↦
      let (valid, held, kept) =
        subst (Binds compare_columns compare_columns-IsOrder m c) e
          (bind_item-Binds compare_columns compare_columns-IsOrder no_column m c v) in
      rw e (bind_columns-IsValid m' cs valid)
]
