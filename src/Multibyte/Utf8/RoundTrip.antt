-- ===== src/Multibyte/Utf8/RoundTrip.antt =====
-- Texts of MultibyteConvert.cpp: what the loops do with a text of code points.
use firebird_odbc_driver.Base.{
  ℕ, zero, suc, ◌-◌, ◌≤◌, ◌<◌, ◌≡◌, refl, ◌∙◌, inl, inr, Bool, true, false, List, [], ◌∷◌, ◌++◌,
  arith, leb, ◌==◌, if◌then◌else◌, length, Bool-cases, length-append,
}
use firebird_odbc_driver.Multibyte.Utf8.{
  u8_length, utf8_bytes, utf16_units, put_code, put_units, wcs_loop, utf8_wcstombs, mbs_loop,
  utf8_mbstowcs,
}
use firebird_odbc_driver.Multibyte.Utf8.Code.{
  IsScalar, decode, first_code, decode-utf8_bytes, first_code-utf16_units, length-utf8_bytes,
}

-- UTF-8 and UTF-16 of a list of code points.
unfoldable pub utf8 : List ℕ → List ℕ
utf8 [] = []
utf8 (c ∷ cs) = utf8_bytes c ++ utf8 cs

unfoldable pub utf16 : List ℕ → List ℕ
utf16 [] = []
utf16 (c ∷ cs) = utf16_units c ++ utf16 cs

-- Code points of a text without its terminator.
abbrev pub IsText : List ℕ → Type 0
IsText [] = Unit
IsText (c ∷ cs) = IsScalar c × (0 < c) × IsText cs

-- The code points whose bytes fit into `room` as a whole.
unfoldable pub fitting : (room : ℕ) → List ℕ → List ℕ
fitting room [] = []
fitting room (c ∷ cs) =
    let rest = fitting (room - u8_length c) cs in if leb (u8_length c) room then c ∷ rest else []

mbs_loop_nil : (fuel : ℕ) → mbs_loop fuel [] ≡ []
unfolding mbs_loop
mbs_loop_nil zero = refl
mbs_loop_nil (suc fuel) = refl

wcs_loop_nil : (fuel room : ℕ) → wcs_loop fuel room [] ≡ []
unfolding wcs_loop
wcs_loop_nil zero room = refl
wcs_loop_nil (suc fuel) room = refl

mbs_loop-suc :
    (fuel : ℕ) (bs : List ℕ) → mbs_loop (suc fuel) bs ≡ put_units (mbs_loop fuel) (decode bs)
unfolding mbs_loop
mbs_loop-suc fuel [] = refl
mbs_loop-suc fuel (b ∷ bs) = refl

wcs_loop-suc :
    (fuel room : ℕ) (ws : List ℕ)
    → 0 < room
    → wcs_loop (suc fuel) room ws ≡ put_code (wcs_loop fuel) room (first_code ws)
unfolding wcs_loop
wcs_loop-suc fuel room [] k = refl
wcs_loop-suc fuel room (w ∷ ws) k = ground arith

positive : (c : ℕ) → 0 < c → (c == 0) ≡ false
positive c k = ground arith

u8_length_positive : (c : ℕ) → IsScalar c → 0 < u8_length c
unfolding u8_length
u8_length_positive c (k, s) = ground arith

mbs_loop-utf8 :
    (fuel : ℕ) (cs : List ℕ) → IsText cs → length cs ≤ fuel → mbs_loop fuel (utf8 cs) ≡ utf16 cs
unfolding utf8 utf16
mbs_loop-utf8 zero [] t k = mbs_loop_nil 0
mbs_loop-utf8 zero (c ∷ cs) t k = absurd (omega arith)
mbs_loop-utf8 (suc fuel) [] t k = mbs_loop_nil (suc fuel)
mbs_loop-utf8 (suc fuel) (c ∷ cs) (s, p, t) k =
    let rest = mbs_loop-utf8 fuel cs t (omega arith) in
    mbs_loop-suc fuel (utf8_bytes c ++ utf8 cs)
    ∙ rw (decode-utf8_bytes c (utf8 cs) s, positive c p, rest)

wcs_loop_zero : (fuel : ℕ) (ws : List ℕ) → wcs_loop fuel 0 ws ≡ []
unfolding wcs_loop
wcs_loop_zero zero ws = refl
wcs_loop_zero (suc fuel) [] = refl
wcs_loop_zero (suc fuel) (w ∷ ws) = refl

-- A code point is stored with the rest, or ends the text.
stored :
    (fits : Bool) (c : ℕ) (rest : List ℕ)
    → (if fits then utf8_bytes c ++ utf8 rest else []) ≡ utf8 (if fits then c ∷ rest else [])
unfolding utf8
stored true c rest = refl
stored false c rest = refl

wcs_loop-utf16 :
    (fuel room : ℕ) (cs : List ℕ)
    → IsText cs
    → length cs ≤ fuel
    → wcs_loop fuel room (utf16 cs) ≡ utf8 (fitting room cs)
unfolding utf8 utf16 fitting
wcs_loop-utf16 zero room [] t k = wcs_loop_nil 0 room
wcs_loop-utf16 zero room (c ∷ cs) t k = absurd (omega arith)
wcs_loop-utf16 (suc fuel) room [] t k = wcs_loop_nil (suc fuel) room
wcs_loop-utf16 (suc fuel) zero (c ∷ cs) (s, p, t) k =
    let shut : leb (u8_length c) 0 ≡ false = ground (arith, u8_length_positive c s) in
    wcs_loop_zero (suc fuel) (utf16_units c ++ utf16 cs) ∙ rw shut refl
wcs_loop-utf16 (suc fuel) (suc room) (c ∷ cs) (s, p, t) k =
    let rest = wcs_loop-utf16 fuel (suc room - u8_length c) cs t (omega arith) in
    wcs_loop-suc fuel (suc room) (utf16_units c ++ utf16 cs) (omega arith)
    ∙ rw (first_code-utf16_units c (utf16 cs) s, positive c p, rest)
        (stored (leb (u8_length c) (suc room)) c (fitting (suc room - u8_length c) cs))

-- Enough fuel is given: a code point has a byte and a unit at least.
length-utf8 : (cs : List ℕ) → IsText cs → length cs ≤ length (utf8 cs)
unfolding utf8
length-utf8 [] t = omega arith
length-utf8 (c ∷ cs) (s, p, t) = omega (
  arith,
  length-append (utf8_bytes c) (utf8 cs),
  length-utf8 cs t,
  length-utf8_bytes c s,
  u8_length_positive c s,
)

length-utf16 : (cs : List ℕ) → length cs ≤ length (utf16 cs)
unfolding utf16 utf16_units
length-utf16 [] = omega arith
length-utf16 (c ∷ cs) = elim (Bool-cases (leb c 0xffff)) [
  | inl h ↦ rw h (omega (arith, length-utf16 cs))
  | inr h ↦ rw h (omega (arith, length-utf16 cs))
]

-- In the text of some code points, none of them 0, `utf8_wcstombs` stores the UTF-8 of the longest
-- part at its start whose bytes fit into `length_for_mbs`, whatever the room is.
pub utf8_wcstombs-utf16 :
    (room : ℕ) (cs : List ℕ) → IsText cs → utf8_wcstombs room (utf16 cs) ≡ utf8 (fitting room cs)
unfolding utf8_wcstombs
utf8_wcstombs-utf16 room cs t = wcs_loop-utf16 (length (utf16 cs)) room cs t (length-utf16 cs)

pub utf8_mbstowcs-utf8 : (cs : List ℕ) → IsText cs → utf8_mbstowcs (utf8 cs) ≡ utf16 cs
unfolding utf8_mbstowcs
utf8_mbstowcs-utf8 cs t = mbs_loop-utf8 (length (utf8 cs)) cs t (length-utf8 cs t)

fitting-IsText : (room : ℕ) (cs : List ℕ) → IsText cs → IsText (fitting room cs)
unfolding fitting
fitting-IsText room [] t = t
fitting-IsText room (c ∷ cs) (s, p, t) =
    let rest = fitting-IsText (room - u8_length c) cs t in
    elim (Bool-cases (leb (u8_length c) room)) [ inl h ↦ rw h (s, p, rest) | inr h ↦ rw h tt ]

fitting_all : (room : ℕ) (cs : List ℕ) → IsText cs → length (utf8 cs) ≤ room → fitting room cs ≡ cs
unfolding fitting utf8
fitting_all room [] t k = refl
fitting_all room (c ∷ cs) (s, p, t) k =
    let own = length-utf8_bytes c s in
    let all = length-append (utf8_bytes c) (utf8 cs) in
    let open_ : leb (u8_length c) room ≡ true = ground arith in
    rw (open_, fitting_all (room - u8_length c) cs t (omega arith)) refl

-- For code points of which none is 0, and whose UTF-8 fits into the room, `utf8_mbstowcs` reads from
-- what `utf8_wcstombs` stored of their UTF-16 the same units.
pub utf8_mbstowcs-utf8_wcstombs :
    (room : ℕ) (cs : List ℕ)
    → IsText cs
    → length (utf8 cs) ≤ room
    → utf8_mbstowcs (utf8_wcstombs room (utf16 cs)) ≡ utf16 cs
utf8_mbstowcs-utf8_wcstombs room cs t k =
    rw (utf8_wcstombs-utf16 room cs t, fitting_all room cs t k) (utf8_mbstowcs-utf8 cs t)
