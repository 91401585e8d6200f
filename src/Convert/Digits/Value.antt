-- ===== src/Convert/Digits/Value.antt =====
-- The decimal text of a number in OdbcConvert.cpp, read back.
use firebird_odbc_driver.Base.{
  ℕ, zero, suc, ◌+◌, ◌-◌, ◌*◌, ◌/◌, ◌%◌, ◌^◌, ◌≤◌, ◌<◌, ◌≡◌, refl, ap, ◌∙◌, inl, inr, true, false,
  not, ◌&&◌, Option, none, some, List, [], ◌∷◌, ◌++◌, arith, ltb, leb, ◌==◌, if◌then◌else◌, length,
  take_of_ge, replicate, Bool-cases,
}
use mathlib.Core.List.{reverse, reverse-reverse}
use native.Mathlib.Numerals.{unary_clauses}
use firebird_odbc_driver.Base.Int.{pos, negsuc}
use firebird_odbc_driver.Convert.Digits.{string_of, places_left, temp, digits}

-- A decimal text from its end on: the value of its digits, and how many of them are behind the point.
unfoldable pub value : List ℕ → ℕ
value [] = 0
value (c ∷ cs) = let rest = value cs in if c == 46 then rest else c - 48 + 10 * rest

unfoldable pub places : List ℕ → Option ℕ
places [] = none
places (c ∷ cs) =
    let rest = places cs in
    if c == 46 then some 0 else elim rest [ none ↦ none | some n ↦ some (suc n) ]

value_zeros : (n : ℕ) → value (replicate n 48 ++ 46 ∷ []) ≡ 0
unfolding value
value_zeros zero = refl
value_zeros (suc n) = let rest = value_zeros n in omega arith

value_nil : value [] ≡ 0
unfolding value
value_nil = refl

value-places_left : (scale k : ℕ) → value (places_left scale k) ≡ 0
value-places_left scale k = elim (Bool-cases (leb k scale)) [
  | inl h ↦ rw h (value_zeros (scale - k))
  | inr h ↦ rw h value_nil
]

value_digit : (d : ℕ) (cs : List ℕ) → d < 10 → value ((48 + d) ∷ cs) ≡ d + 10 * value cs
unfolding value
value_digit d cs h = ground arith

value_point : (cs : List ℕ) → value (46 ∷ cs) ≡ value cs
unfolding value
value_point cs = refl

power : (fuel number : ℕ) → number < 10 ^ suc fuel → number / 10 < 10 ^ fuel
power fuel number h = let k = simp unary_clauses at h in omega arith

value-temp :
    (fuel scale k number : ℕ) → number < 10 ^ fuel → value (temp fuel scale false k number) ≡ number
unfolding temp
value-temp zero scale k number h = value_nil ∙ omega arith
value-temp (suc fuel) scale k number h =
    let rest = value-temp fuel scale (suc k) (number / 10) (power fuel number h) in
    let digits =
      value_digit (number % 10) (temp fuel scale false (suc k) (number / 10)) (omega arith)
      ∙ rw rest (omega arith) in
    elim (Bool-cases (number == 0)) [
      | inl z ↦ rw z (value-places_left scale k ∙ ground arith)
      | inr z ↦ elim (Bool-cases (not (scale == 0) && scale == k)) [
        | inl p ↦
            rw (z, p)
              (value_point ((48 + number % 10) ∷ temp fuel scale false (suc k) (number / 10))
                ∙ digits)
        | inr p ↦ rw (z, p) digits
      ]
    ]

places_zeros : (n : ℕ) → places (replicate n 48 ++ 46 ∷ []) ≡ some n
unfolding places
places_zeros zero = refl
places_zeros (suc n) = rw (places_zeros n) refl

places_digit :
    (d : ℕ) (cs : List ℕ) (n : ℕ)
    → d < 10
    → places cs ≡ some n
    → places ((48 + d) ∷ cs) ≡ some (suc n)
unfolding places
places_digit d cs n h e = let digit_ : (48 + d == 46) ≡ false = ground arith in rw (digit_, e) refl

places_point : (cs : List ℕ) → places (46 ∷ cs) ≡ some 0
unfolding places
places_point cs = refl

places-temp :
    (fuel scale k number : ℕ)
    → number < 10 ^ fuel
    → 0 < scale
    → k ≤ scale
    → places (temp (suc fuel) scale false k number) ≡ some (scale - k)
unfolding temp
places-temp zero scale k number h s l =
    let end : (number == 0) ≡ true = ground arith in
    let more : leb k scale ≡ true = ground arith in rw (end, more) (places_zeros (scale - k))
places-temp (suc fuel) scale k number h s l = elim (Bool-cases (number == 0)) [
  | inl z ↦ let more : leb k scale ≡ true = ground arith in rw (z, more) (places_zeros (scale - k))
  | inr z ↦ elim (Bool-cases (scale == k)) [
    | inl p ↦
        let some_ : (not (scale == 0) && scale == k) ≡ true = ground arith in
        let none_ : 0 ≡ scale - k = ground arith in
        rw (z, some_)
          (places_point ((48 + number % 10) ∷ temp (suc fuel) scale false (suc k) (number / 10))
            ∙ ap some none_)
    | inr p ↦
        let other : (not (scale == 0) && scale == k) ≡ false = ground arith in
        let less : suc k ≤ scale = ground arith in
        let rest = places-temp fuel scale (suc k) (number / 10) (power fuel number h) s less in
        let left : suc (scale - suc k) ≡ scale - k = omega arith in
        rw (z, other)
          (places_digit (number % 10) _ (scale - suc k) (omega arith) rest ∙ ap some left)
  ]
]

-- What is stored of a number that is not 0, whose scale is allowed and whose digits have room.
string_of-digits :
    (def_scale width scale len n : ℕ)
    → scale ≤ def_scale
    → length (digits scale false (suc n)) ≤ len
    → string_of def_scale width scale len (pos (suc n)) ≡ reverse (digits scale false (suc n))
unfolding string_of
string_of-digits def_scale width scale len n d room =
    let all = take_of_ge len (digits scale false (suc n)) room in
    let allowed : ltb def_scale scale ≡ false = ground arith in rw (allowed, all) refl

string_of_negative :
    (def_scale width scale len n : ℕ)
    → scale ≤ def_scale
    → length (digits scale false (suc n)) ≤ len
    → suc n < 2 ^ (width - 1)
    → string_of def_scale width scale (suc len) (negsuc n)
      ≡ 45 ∷ reverse (digits scale false (suc n))
unfolding string_of
string_of_negative def_scale width scale len n d room w =
    let all = take_of_ge len (digits scale false (suc n)) room in
    let allowed : ltb def_scale scale ≡ false = ground arith in
    let other : (suc n == 2 ^ (width - 1)) ≡ false = ground arith in
    let one : suc len - 1 ≡ len = omega arith in rw (allowed, other, one, all) refl

-- A number `n + 1` below 10^19 and of `width` bits, whose scale is allowed and whose digits have room,
-- becomes a text that has the number as the value of its digits and as many places behind the point as
-- the scale says, which is not 0 here; its negative becomes a minus sign and the same text.
pub string_of-value :
    (def_scale width scale len n : ℕ)
    → suc n < 10 ^ 19
    → suc n < 2 ^ (width - 1)
    → 0 < scale
    → scale ≤ def_scale
    → length (digits scale false (suc n)) ≤ len
    → let text = string_of def_scale width scale len (pos (suc n)) in
      (value (reverse text) ≡ suc n)
      × (places (reverse text) ≡ some scale)
      × (string_of def_scale width scale (suc len) (negsuc n) ≡ 45 ∷ text)
string_of-value def_scale width scale len n k w s d room =
    let stored = string_of-digits def_scale width scale len n d room in
    let back = reverse-reverse (digits scale false (suc n)) in
    let whole : scale - 0 ≡ scale = omega arith in
    rw (stored, back)
      (
        value-temp 20 scale 0 (suc n) (omega arith),
        places-temp 19 scale 0 (suc n) k s (omega arith) ∙ ap some whole,
        string_of_negative def_scale width scale len n d room w,
      )
