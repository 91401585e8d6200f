-- ===== src/Convert/Digits.antt =====
-- `ODBCCONVERT_CONV_TO_STRING` of OdbcConvert.cpp: a number with a scale becomes a decimal text. A number
-- of `width` bits is its sign and its size; the size of the least of them, which has no negative, is
-- negated to itself, so that its digits are counted down from '0'.
pub mod Value
pub mod Overrun
use firebird_odbc_driver.Base.{
  ℕ, zero, suc, ◌+◌, ◌-◌, ◌*◌, ◌/◌, ◌%◌, ◌^◌, Bool, true, false, not, ◌&&◌, ◌||◌, Option, none,
  some, List, [], ◌∷◌, ◌++◌, ltb, leb, ◌==◌, if◌then◌else◌, length, take, replicate,
}
use mathlib.Core.List.{reverse}
use firebird_odbc_driver.Base.Int.{ℤ, pos, negsuc}
use firebird_odbc_driver.Convert.{
  DescRecord, sql_success, Outcome, overwrite, check_null, set_length,
}

-- `'0' + (char) (number % 10)`, of a number at or below 0 if `below`
abbrev pub digit : (below : Bool) → ℕ → ℕ
digit below d = if below then 48 - d else 48 + d

-- The zeros and the point behind the last digit, if it is a place behind the point.
abbrev pub places_left : (scale k : ℕ) → List ℕ
places_left scale k = if leb k scale then replicate (scale - k) 48 ++ 46 ∷ [] else []

-- `temp`, from its start on, of which `k` digits are there: the scale is that of `from`, which the code
-- negates as it does `k`. On fuel for the digits.
unfoldable pub temp : (fuel scale : ℕ) (below : Bool) (k number : ℕ) → List ℕ
temp zero scale below k number = []
temp (suc fuel) scale below k number =
    let rest = digit below (number % 10) ∷ temp fuel scale below (suc k) (number / 10) in
    if number == 0
    then places_left scale k
    else if not (scale == 0) && scale == k
    then 46 ∷ rest
    else rest

-- 20 digits are enough for 64 bits.
abbrev pub digits : (scale : ℕ) (below : Bool) → ℕ → List ℕ
digits scale below number = temp 20 scale below 0 number

-- The text of a number that is not 0, in a buffer of `len` chars: what does not fit is dropped from the
-- front.
abbrev pub number_text : (width scale len : ℕ) → ℤ → List ℕ
number_text width scale len (pos n) = reverse (take len (digits scale false n))
number_text width scale len (negsuc n) =
    45 ∷ reverse (take (len - 1) (digits scale (suc n == 2 ^ (width - 1)) (suc n)))

abbrev pub is_zero : ℤ → Bool
is_zero (pos zero) = true
is_zero _ = false

-- What is stored before the terminator.
unfoldable pub string_of : (def_scale width scale len : ℕ) → ℤ → List ℕ
string_of def_scale width scale len number =
    if is_zero number
    then 48 ∷ []
    else if ltb def_scale scale
    then 42 ∷ 42 ∷ 42 ∷ []
    else number_text width scale len number

-- `convTinyIntToString` with 3 and 8, `convShortToString` with 5 and 16, `convLongToString` with 10 and 32,
-- `convBigintToString` with 18 and 64: `scale` is `from->scale`, `number` what stands at `dataPtr`.
unfoldable pub conv_to_string :
    (def_scale width scale : ℕ) (number : ℤ) → DescRecord → DescRecord → Outcome
conv_to_string def_scale width scale number from to = check_null from to (λ m.
    let text = string_of def_scale width scale to.data_length number in
    if to.data_length == 0
    then record {
      ret = sql_success;
      from = from;
      to = set_length 0 (record to { data_ptr = some (overwrite (0 ∷ []) m) });
      truncated = false;
    }
    else record {
      ret = sql_success;
      from = from;
      to = set_length (length text) (record to { data_ptr = some (overwrite (text ++ 0 ∷ []) m) });
      truncated = false;
    })
