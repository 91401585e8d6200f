-- ===== src/Convert/Digits/Overrun.antt =====
-- Numbers that have no room as texts in OdbcConvert.cpp.
use firebird_odbc_driver.Base.{
  ℕ, suc, ◌≤◌, ◌<◌, ◌≡◌, refl, ap, ◌∙◌, false, some, List, [], ◌∷◌, ◌++◌, arith, ltb, ◌==◌, length,
  take, drop, length-append, length-take, drop_of_ge, append-nil,
}
use mathlib.Core.List.{reverse, reverse-cons}
use firebird_odbc_driver.Base.Int.{pos}
use firebird_odbc_driver.Convert.{
  DescRecord, sql_success, memory, overwrite, is_null_data, check_null,
}
use firebird_odbc_driver.Convert.Pieces.{memory-set_length}
use firebird_odbc_driver.Convert.Digits.{conv_to_string, string_of, digits}

length-reverse : (xs : List ℕ) → length (reverse xs) ≡ length xs
length-reverse [] = refl
length-reverse (x ∷ xs) =
    ap length (reverse-cons x xs)
    ∙ omega (arith, length-append (reverse xs) (x ∷ []), length-reverse xs)

-- Of a positive number whose digits do not fit beside a terminator, into a buffer of `len` chars that
-- `to` has, the last `len` digits are stored, and the terminator behind the buffer; the answer is
-- SQL_SUCCESS and no truncation is posted.
pub conv_to_string-overrun :
    (def_scale width scale n : ℕ) (from to : DescRecord) (m : List ℕ)
    → is_null_data from.indicator ≡ false
    → to.data_ptr ≡ some m
    → length m ≡ to.data_length
    → 0 < to.data_length
    → scale ≤ def_scale
    → to.data_length ≤ length (digits scale false (suc n))
    → let o = conv_to_string def_scale width scale (pos (suc n)) from to in
      (memory o.to ≡ reverse (take to.data_length (digits scale false (suc n))) ++ 0 ∷ [])
      × (length (memory o.to) ≡ suc to.data_length)
      × (o.ret ≡ sql_success)
      × (o.truncated ≡ false)
unfolding conv_to_string check_null string_of
conv_to_string-overrun def_scale width scale n from to m there e size k d room =
    let allowed : ltb def_scale scale ≡ false = ground arith in
    let open_ : (to.data_length == 0) ≡ false = ground arith in
    let text = reverse (take to.data_length (digits scale false (suc n))) in
    let stored : length (text ++ 0 ∷ []) ≡ suc to.data_length = omega (
      arith,
      length-append text (0 ∷ []),
      length-reverse (take to.data_length (digits scale false (suc n))),
      length-take to.data_length (digits scale false (suc n)),
    ) in
    let past : drop (length (text ++ 0 ∷ [])) m ≡ [] =
      drop_of_ge (length (text ++ 0 ∷ [])) m (omega arith) in
    let all : overwrite (text ++ 0 ∷ []) m ≡ text ++ 0 ∷ [] =
      ap (λ r. (text ++ 0 ∷ []) ++ r) past ∙ append-nil (text ++ 0 ∷ []) in
    rw (there, e, open_, allowed)
      (let w =
          memory-set_length (length text)
            (record to { data_ptr = some (overwrite (text ++ 0 ∷ []) m) }) in
        (w ∙ all, ap length (w ∙ all) ∙ stored, refl, refl))
