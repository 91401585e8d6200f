-- ===== src/Multibyte/Utf8/Bounds.antt =====
-- What the loops of MultibyteConvert.cpp do with any input: room is kept, and no unit stands alone.
use firebird_odbc_driver.Base.{
  ℕ, zero, suc, ◌+◌, ◌-◌, ◌*◌, ◌/◌, ◌%◌, ◌≤◌, ◌<◌, ◌≡◌, refl, ap, inl, inr, Bool, true, false, not,
  ◌&&◌, Option, none, some, List, [], ◌∷◌, ◌++◌, arith, ltb, leb, ◌==◌, if◌then◌else◌, length,
  Bool-cases, length-append,
}
use firebird_odbc_driver.Multibyte.Utf8.{
  u8_length, utf8_bytes, utf16_units, next_code, next_char, put_code, put_units, wcs_loop,
  utf8_wcstombs, mbs_loop, utf8_mbstowcs, legal, safe_body, is_surrogate, is_surrogate_lead,
  is_trail, count_trail_bytes, is_u8_trail,
}
use firebird_odbc_driver.Multibyte.Utf8.Code.{IsScalar, length-utf8_bytes}
use firebird_odbc_driver.Multibyte.Utf8.RoundTrip.{utf16, IsText}

-- Units of 16 bits.
abbrev pub AllUnits : List ℕ → Type 0
AllUnits [] = Unit
AllUnits (w ∷ ws) = (w < 65536) × AllUnits ws

abbrev Coded : Option (ℕ × List ℕ) → Type 0
Coded none = Unit
Coded (some (c, rest)) = IsScalar c × AllUnits rest

Coded-if :
    (b : Bool) (c : ℕ) (rest : List ℕ)
    → (b ≡ true → IsScalar c)
    → AllUnits rest
    → Coded (if b then some (c, rest) else none)
Coded-if true c rest h u = (h refl, u)
Coded-if false c rest h u = tt

single : (w : ℕ) → w < 65536 → is_surrogate w ≡ false → IsScalar w
single w k h = ground arith

pair :
    (w v : ℕ)
    → w < 65536
    → v < 65536
    → is_surrogate w ≡ true
    → (is_surrogate_lead w && is_trail v) ≡ true
    → IsScalar (w * 1024 + v - 0x35fdc00)
pair w v k l h i =
    let lead : w / 1024 ≡ 54 = ground arith in
    let behind : v / 1024 ≡ 55 = ground arith in (omega arith, inr (omega arith))

next_code-Coded : (w : ℕ) (ws : List ℕ) → w < 65536 → AllUnits ws → Coded (next_code w ws)
unfolding next_code
next_code-Coded w [] k u = elim (Bool-cases (is_surrogate w)) [
  | inl h ↦ rw h tt
  | inr h ↦ rw h (single w k h, tt)
]
next_code-Coded w (v ∷ ws) k (l, u) = elim (Bool-cases (is_surrogate w)) [
  | inl h ↦ rw h (
      Coded-if (is_surrogate_lead w && is_trail v) (w * 1024 + v - 0x35fdc00) ws (pair w v k l h) u)
  | inr h ↦ rw h (single w k h, (l, u))
]

put_code_fits :
    (next : ℕ → List ℕ → List ℕ) (room : ℕ) (o : Option (ℕ × List ℕ))
    → ((n : ℕ) (ws : List ℕ) → AllUnits ws → length (next n ws) ≤ n)
    → Coded o
    → length (put_code next room o) ≤ room
put_code_fits next room none h s = omega arith
put_code_fits next room (some (c, ws)) h (s, u) =
    let all = length-append (utf8_bytes c) (next (room - u8_length c) ws) in
    let own = length-utf8_bytes c s in
    let rest = h (room - u8_length c) ws u in
    elim (Bool-cases (c == 0)) [
      | inl z ↦ rw z (omega arith)
      | inr z ↦ elim (Bool-cases (leb (u8_length c) room)) [
        | inl i ↦ rw (z, i) (ground arith)
        | inr i ↦ rw (z, i) (omega arith)
      ]
    ]

wcs_loop_fits : (fuel room : ℕ) (ws : List ℕ) → AllUnits ws → length (wcs_loop fuel room ws) ≤ room
unfolding wcs_loop
wcs_loop_fits zero room ws u = omega arith
wcs_loop_fits (suc fuel) room [] u = omega arith
wcs_loop_fits (suc fuel) room (w ∷ ws) (k, u) =
    let put =
      put_code_fits (wcs_loop fuel) room (next_code w ws) (wcs_loop_fits fuel)
        (next_code-Coded w ws k u) in
    elim (Bool-cases (room == 0)) [ inl h ↦ rw h (omega arith) | inr h ↦ rw h put ]

-- For any units of 16 bits, well formed or not, `utf8_wcstombs` stores no more bytes before the
-- terminator than `length_for_mbs` says.
pub utf8_wcstombs-fits :
    (length_for_mbs : ℕ) (ws : List ℕ)
    → AllUnits ws
    → length (utf8_wcstombs length_for_mbs ws) ≤ length_for_mbs
unfolding utf8_wcstombs
utf8_wcstombs-fits length_for_mbs ws u = wcs_loop_fits (length ws) length_for_mbs ws u

-- What a reader of a code point answers is a scalar.
abbrev Decoded : Option (ℕ × List ℕ) → Type 0
Decoded none = Unit
Decoded (some (c, rest)) = IsScalar c

-- Some code points have these units.
abbrev pub IsUtf16 : List ℕ → Type 0
IsUtf16 ws = (cs : List ℕ) × IsText cs × (ws ≡ utf16 cs)

legal-Decoded :
    (ok : Bool) (least c : ℕ) (rest : List ℕ)
    → (ok ≡ true → c ≤ 0x10ffff)
    → Decoded (legal ok least c rest)
legal-Decoded false least c rest h = tt
legal-Decoded true least c rest h =
    let top = h refl in
    elim (Bool-cases (leb least c && not (is_surrogate c))) [
      | inl i ↦ rw i (top, ground arith)
      | inr i ↦ rw i tt
    ]

safe_body-Decoded : (count b : ℕ) (bs : List ℕ) → Decoded (safe_body count b bs)
unfolding safe_body
safe_body-Decoded (suc zero) b (t ∷ rest) =
    legal-Decoded (is_u8_trail t) 0x80 (b % 32 * 64 + t % 64) rest (λ h. omega arith)
safe_body-Decoded (suc (suc zero)) b (t ∷ u ∷ rest) =
    legal-Decoded (is_u8_trail t && is_u8_trail u) 0x800 ((b % 16 * 64 + t % 64) * 64 + u % 64) rest
      (λ h. omega arith)
safe_body-Decoded (suc (suc (suc zero))) b (t ∷ u ∷ v ∷ rest) =
    let c = b % 8 * 64 + t % 64 in
    legal-Decoded (ltb c 0x110 && is_u8_trail t && is_u8_trail u && is_u8_trail v) 0x10000
      ((c * 64 + u % 64) * 64 + v % 64) rest (λ h. last c u v (ground arith))
  where
    last : (c u v : ℕ) → c < 0x110 → (c * 64 + u % 64) * 64 + v % 64 ≤ 0x10ffff
    last c u v h = omega arith
safe_body-Decoded _ b bs = tt

next_char-Decoded : (b : ℕ) (bs : List ℕ) → Decoded (next_char b bs)
unfolding next_char
next_char-Decoded b bs = elim (Bool-cases (leb b 0x7f)) [
  | inl h ↦ rw h (ground arith)
  | inr h ↦ rw h (safe_body-Decoded (count_trail_bytes b) b bs)
]

put_units-IsUtf16 :
    (next : List ℕ → List ℕ) (o : Option (ℕ × List ℕ))
    → ((bs : List ℕ) → IsUtf16 (next bs))
    → Decoded o
    → IsUtf16 (put_units next o)
unfolding utf16
put_units-IsUtf16 next none h d = ([], tt, refl)
put_units-IsUtf16 next (some (c, bs)) h d =
    let (cs, t, e) = h bs in
    elim (Bool-cases (c == 0)) [
      | inl z ↦ rw z ([], tt, refl)
      | inr z ↦ rw z (c ∷ cs, (d, ground arith, t), ap (λ ws. utf16_units c ++ ws) e)
    ]

mbs_loop-IsUtf16 : (fuel : ℕ) (bs : List ℕ) → IsUtf16 (mbs_loop fuel bs)
unfolding mbs_loop utf16
mbs_loop-IsUtf16 zero bs = ([], tt, refl)
mbs_loop-IsUtf16 (suc fuel) [] = ([], tt, refl)
mbs_loop-IsUtf16 (suc fuel) (b ∷ bs) =
    put_units-IsUtf16 (mbs_loop fuel) (next_char b bs) (mbs_loop-IsUtf16 fuel)
      (next_char-Decoded b bs)

-- Whatever bytes `utf8_mbstowcs` is given, the units that it stores are the UTF-16 of some code points
-- of Unicode, none of which is 0 or a surrogate.
pub utf8_mbstowcs-IsUtf16 : (bs : List ℕ) → IsUtf16 (utf8_mbstowcs bs)
unfolding utf8_mbstowcs
utf8_mbstowcs-IsUtf16 bs = mbs_loop-IsUtf16 (length bs) bs
