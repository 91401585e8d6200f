-- ===== src/Dates/Shift.antt =====
-- The shift of `encodeDate` to years from March, and integers that are not negative.
use firebird_odbc_driver.Base.{
  ℕ, ◌+◌, ◌-◌, ◌*◌, ◌/◌, ◌%◌, ◌≤◌, ◌<◌, ◌≡◌, refl, ◌≢◌, ◌⊎◌, inl, inr, true, false, arith, ltb,
  if◌then◌else◌, Bool-cases,
}
use firebird_odbc_driver.Base.Int.{pos, ◌+ℤ◌, ◌-ℤ◌, ◌*ℤ◌}
use firebird_odbc_driver.Dates.{to_short, quot}
use firebird_odbc_driver.Dates.Calendar.{is_leap, days_in_month, IsDate, before_month, InYear}

pub +ℤ-pos : (a b : ℕ) → pos a +ℤ pos b ≡ pos (a + b)
unfolding ◌+ℤ◌
+ℤ-pos a b = ground arith

pub -ℤ-pos : (a b : ℕ) → b ≤ a → pos a -ℤ pos b ≡ pos (a - b)
unfolding ◌-ℤ◌
-ℤ-pos a b h = ground arith

pub *ℤ-pos : (a b : ℕ) → pos a *ℤ pos b ≡ pos (a * b)
unfolding ◌*ℤ◌
*ℤ-pos a b = ground arith

pub quot-pos : (a n : ℕ) → quot (pos a) n ≡ pos (a / n)
unfolding quot
quot-pos a n = refl

pub to_short-pos : (a : ℕ) → a < 32768 → to_short (pos a) ≡ pos a
unfolding to_short
to_short-pos a h = ground arith

-- What is taken off a field is put back.
pub -ℤ-+ℤ : (a b : ℕ) → (pos a -ℤ pos b) +ℤ pos b ≡ pos a
unfolding ◌-ℤ◌ ◌+ℤ◌
-ℤ-+ℤ a b = ground arith

-- The year and the month counted from March.
abbrev pub shifted_year : (y m : ℕ) → ℕ
shifted_year y m = if ltb 2 m then y else y - 1

abbrev pub shifted_month : ℕ → ℕ
shifted_month m = if ltb 2 m then m - 3 else m + 9

pub shifted_month-lt : (m : ℕ) → 1 ≤ m → m ≤ 12 → shifted_month m < 12
shifted_month-lt m a b = ground arith

-- What the rest needs of the lengths of months.
month_lengths :
    (y m d : ℕ)
    → IsDate y m d
    → (d ≤ 31)
      × ((m ≡ 2) → d ≤ 29)
      × ((m ≡ 2) → is_leap y ≡ false → d ≤ 28)
      × (((m ≡ 4) ⊎ (m ≡ 6) ⊎ (m ≡ 9) ⊎ (m ≡ 11)) → d ≤ 30)
unfolding days_in_month
month_lengths y m d v = ground arith

leap-rest :
    (y : ℕ)
    → 1 ≤ y
    → is_leap y ≡ true
    → ((y - 1) % 100 % 4 ≡ 3) × (((y - 1) % 100 ≢ 99) ⊎ ((y - 1) / 100 % 4 ≡ 3))
unfolding is_leap
leap-rest y h leap = ground arith

-- A day ends at the latest where the next month starts.
pub day-fits :
    (y m d : ℕ)
    → IsDate y m d
    → before_month (shifted_month m) + d ≤ before_month (shifted_month m + 1)
day-fits y m d v =
    let lengths = month_lengths y m d v in
    elim (Bool-cases (ltb 2 m)) [
      | inl late ↦ rw late (ground arith)
      | inr early ↦ rw early (ground arith)
    ]

pub day-InYear :
    (y m d : ℕ)
    → IsDate y m d
    → InYear
        (shifted_year y m / 100)
        (shifted_year y m % 100)
        (before_month (shifted_month m) + d - 1)
day-InYear y m d v =
    let lengths = month_lengths y m d v in
    elim (Bool-cases (ltb 2 m)) [
      | inl late ↦ rw late (ground arith)
      | inr early ↦ rw early (elim (Bool-cases (is_leap y)) [
        | inl leap ↦ let rest = leap-rest y v.year_in leap in ground arith
        | inr common ↦ ground arith
      ])
    ]

pub day-le : (y m d : ℕ) → IsDate y m d → d ≤ 31
day-le y m d v = (month_lengths y m d v).0
