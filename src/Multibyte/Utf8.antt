-- ===== src/Multibyte/Utf8.antt =====
-- `utf8_wcstombs` and `utf8_mbstowcs` of IscDbc/MultibyteConvert.cpp, for a `wchar_t` of 16 bits, as
-- the casts of the source to USHORT want it. `|` of bits that are 0 is written as a sum, `&` with a
-- mask of low bits as a remainder. The error codes of the source are set and never read.
pub mod Code
pub mod RoundTrip
pub mod Bounds
use firebird_odbc_driver.Base.{
  ℕ, zero, suc, ◌+◌, ◌-◌, ◌*◌, ◌/◌, ◌%◌, Bool, true, false, not, ◌&&◌, ◌||◌, Option, none, some,
  List, [], ◌∷◌, ◌++◌, ltb, leb, ◌==◌, if◌then◌else◌, length,
}

-- `U_IS_SURROGATE`, `U_IS_SURROGATE_LEAD` and `U16_IS_TRAIL` of a unit
abbrev pub is_surrogate : ℕ → Bool
is_surrogate c = leb 0xd800 c && leb c 0xdfff

abbrev pub is_surrogate_lead : ℕ → Bool
is_surrogate_lead c = c / 1024 % 2 == 0

abbrev pub is_trail : ℕ → Bool
is_trail c = c / 1024 == 55

-- `U8_LENGTH`
unfoldable pub u8_length : ℕ → ℕ
u8_length c =
    if leb c 0x7f
    then 1
    else if leb c 0x7ff
    then 2
    else if leb c 0xd7ff
    then 3
    else if leb c 0xdfff || ltb 0x10ffff c
    then 0
    else if leb c 0xffff
    then 3
    else 4

-- The bytes that `utf8_wcstombs` stores for a code point.
unfoldable pub utf8_bytes : ℕ → List ℕ
utf8_bytes c =
    if leb c 0x7f
    then c ∷ []
    else if leb c 0x7ff
    then (c / 64 + 0xc0) ∷ (c % 64 + 0x80) ∷ []
    else if leb c 0xffff
    then (c / 4096 + 0xe0) ∷ (c / 64 % 64 + 0x80) ∷ (c % 64 + 0x80) ∷ []
    else (c / 262144 + 0xf0) ∷ (c / 4096 % 64 + 0x80) ∷ (c / 64 % 64 + 0x80) ∷ (c % 64 + 0x80) ∷ []

-- The code point of the units from `w` on, with the units behind it; `none` for a surrogate that
-- stands alone.
unfoldable pub next_code : ℕ → List ℕ → Option (ℕ × List ℕ)
next_code w [] = if is_surrogate w then none else some (w, [])
next_code w (v ∷ ws) =
    if is_surrogate w
    then (if is_surrogate_lead w && is_trail v then some (w * 1024 + v - 0x35fdc00, ws) else none)
    else some (w, v ∷ ws)

-- The rest of a round, with `room` bytes left in the buffer.
abbrev pub put_code : (ℕ → List ℕ → List ℕ) → (room : ℕ) → Option (ℕ × List ℕ) → List ℕ
put_code next room none = []
put_code next room (some (c, ws)) =
    if c == 0
    then []
    else if leb (u8_length c) room
    then utf8_bytes c ++ next (room - u8_length c) ws
    else []

-- The loop, on fuel for its rounds, each of which takes a unit.
unfoldable pub wcs_loop : (fuel room : ℕ) → List ℕ → List ℕ
wcs_loop zero room ws = []
wcs_loop (suc fuel) room [] = []
wcs_loop (suc fuel) room (w ∷ ws) =
    if room == 0 then [] else put_code (wcs_loop fuel) room (next_code w ws)

-- `utf8_wcstombs (mbs, wcs, lengthForMBS)` of the units before the terminator: the bytes stored
-- before the terminator, whose number is returned.
unfoldable pub utf8_wcstombs : (length_for_mbs : ℕ) → List ℕ → List ℕ
utf8_wcstombs length_for_mbs ws = wcs_loop (length ws) length_for_mbs ws

-- `utf8_countTrailBytes`
unfoldable pub count_trail_bytes : ℕ → ℕ
count_trail_bytes b =
    if ltb b 0xc0
    then 0
    else if ltb b 0xe0
    then 1
    else if ltb b 0xf0
    then 2
    else if ltb b 0xf8
    then 3
    else if ltb b 0xfc
    then 4
    else if ltb b 0xfe
    then 5
    else 0

-- `U8_IS_TRAIL`
abbrev pub is_u8_trail : ℕ → Bool
is_u8_trail t = t / 64 == 2

-- The tests behind the `switch` of `utf8_nextCharSafeBody`, for `strict` below 0.
abbrev pub legal : (ok : Bool) → (least c : ℕ) → List ℕ → Option (ℕ × List ℕ)
legal ok least c rest = if ok && leb least c && not (is_surrogate c) then some (c, rest) else none

-- `utf8_nextCharSafeBody` behind the lead byte `b`: the code point and the bytes behind it, or
-- `U_SENTINEL`.
unfoldable pub safe_body : (count b : ℕ) → List ℕ → Option (ℕ × List ℕ)
safe_body (suc zero) b (t ∷ rest) = legal (is_u8_trail t) 0x80 (b % 32 * 64 + t % 64) rest
safe_body (suc (suc zero)) b (t ∷ u ∷ rest) =
    legal (is_u8_trail t && is_u8_trail u) 0x800 ((b % 16 * 64 + t % 64) * 64 + u % 64) rest
safe_body (suc (suc (suc zero))) b (t ∷ u ∷ v ∷ rest) =
    let c = b % 8 * 64 + t % 64 in
    legal (ltb c 0x110 && is_u8_trail t && is_u8_trail u && is_u8_trail v) 0x10000
      ((c * 64 + u % 64) * 64 + v % 64) rest
safe_body _ b bs = none

unfoldable pub next_char : ℕ → List ℕ → Option (ℕ × List ℕ)
next_char b bs = if leb b 0x7f then some (b, bs) else safe_body (count_trail_bytes b) b bs

-- The units that `utf8_mbstowcs` stores for a code point.
unfoldable pub utf16_units : ℕ → List ℕ
utf16_units c = if leb c 0xffff then c ∷ [] else (c / 1024 + 0xd7c0) ∷ (c % 1024 + 0xdc00) ∷ []

abbrev pub put_units : (List ℕ → List ℕ) → Option (ℕ × List ℕ) → List ℕ
put_units next none = []
put_units next (some (c, bs)) = if c == 0 then [] else utf16_units c ++ next bs

-- The loop, on fuel for its rounds, each of which takes a byte.
unfoldable pub mbs_loop : (fuel : ℕ) → List ℕ → List ℕ
mbs_loop zero bs = []
mbs_loop (suc fuel) [] = []
mbs_loop (suc fuel) (b ∷ bs) = put_units (mbs_loop fuel) (next_char b bs)

-- `utf8_mbstowcs (wcs, mbs, lengthForMBS)` of `lengthForMBS` bytes: the units stored before the
-- terminator, whose number is returned.
unfoldable pub utf8_mbstowcs : List ℕ → List ℕ
utf8_mbstowcs bs = mbs_loop (length bs) bs
