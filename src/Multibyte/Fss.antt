-- ===== src/Multibyte/Fss.antt =====
-- `fss_mbstowcs` and `fss_wcstombs` of IscDbc/MultibyteConvert.cpp, for a `wchar_t` of 16 bits. `&` with
-- a mask is written as a remainder or as what a division keeps, `|` of bits that are 0 as a sum.
pub mod RoundTrip
use firebird_odbc_driver.Base.{
  ℕ, zero, suc, ◌+◌, ◌-◌, ◌*◌, ◌/◌, ◌%◌, ◌^◌, Bool, true, false, List, [], ◌∷◌, ◌++◌, ltb, leb,
  ◌==◌, if◌then◌else◌, length,
}

pub record Tab : Type 0 where
  pub cmask : ℕ
  pub cval : ℕ
  pub shift : ℕ
  pub lmask : ℕ
  pub lval : ℕ

abbrev pub row : (cmask cval shift lmask lval : ℕ) → Tab
row cmask cval shift lmask lval = record {
  cmask = cmask;
  cval = cval;
  shift = shift;
  lmask = lmask;
  lval = lval;
}

-- `tab`, without the row of zeros that ends it
abbrev pub tab : List Tab
tab =
    row 0x80 0x00 0 0x7f 0
    ∷ row 0xe0 0xc0 6 0x7ff 0x80
    ∷ row 0xf0 0xe0 12 0xffff 0x800
    ∷ row 0xf8 0xf0 18 0x1fffff 0x10000
    ∷ row 0xfc 0xf8 24 0x3ffffff 0x200000
    ∷ row 0xfe 0xfc 30 0x7fffffff 0x4000000
    ∷ []

-- How a round of `fss_mbstowcs` ends: with the text, behind some bytes, or with a character and the bytes
-- behind it.
pub data Round : Type 0 where
  stop : Round
  skip : List ℕ → Round
  found : ℕ → List ℕ → Round

-- `(*mbs ^ 0x80) & 0xff`
abbrev pub trail_bits : ℕ → ℕ
trail_bits b = if ltb b 0x80 then b + 0x80 else b - 0x80

-- The rows from `t` on: `c0` is the first byte, `l` the bits so far, and the bytes are those from `mbs`
-- to `mbsEnd`. A byte at `mbsEnd` that does not belong to the text ends it, whatever it is.
unfoldable pub try_rows : List Tab → (c0 l : ℕ) → List ℕ → Round
try_rows [] c0 l bs = skip bs
try_rows (t ∷ ts) c0 l [] = stop
try_rows (t ∷ ts) c0 l (b ∷ []) =
    if c0 / (256 - t.cmask) * (256 - t.cmask) == t.cval
    then (if ltb (l % suc t.lmask) t.lval then stop else found (l % suc t.lmask) [])
    else stop
try_rows (t ∷ ts) c0 l (b ∷ m ∷ bs) =
    let rest = try_rows ts c0 (l * 64 + trail_bits m) (m ∷ bs) in
    if c0 / (256 - t.cmask) * (256 - t.cmask) == t.cval
    then (if ltb (l % suc t.lmask) t.lval then stop else found (l % suc t.lmask) (m ∷ bs))
    else if m == 0
    then stop
    else if leb 64 (trail_bits m)
    then skip (m ∷ bs)
    else rest

unfoldable pub read_char : List ℕ → Round
read_char [] = stop
read_char (b ∷ bs) = try_rows tab b b (b ∷ bs)

-- What a round stores, before the rest.
abbrev pub put_round : (List ℕ → List ℕ) → Round → List ℕ
put_round next stop = []
put_round next (skip bs) = next bs
put_round next (found l bs) = if l % 65536 == 0 then [] else l % 65536 ∷ next bs

unfoldable pub mbs_loop : (fuel : ℕ) → List ℕ → List ℕ
mbs_loop zero bs = []
mbs_loop (suc fuel) bs = put_round (mbs_loop fuel) (read_char bs)

-- `fss_mbstowcs (wcs, mbs, lengthForMBS)` of `lengthForMBS` bytes, on fuel for its rounds, each of which
-- takes a byte: the units stored before the terminator, whose number is returned.
unfoldable pub fss_mbstowcs : List ℕ → List ℕ
fss_mbstowcs bs = mbs_loop (length bs) bs

-- The same with `wcs` NULL: units are counted only.
abbrev pub count_round : (List ℕ → ℕ) → Round → ℕ
count_round next stop = 0
count_round next (skip bs) = next bs
count_round next (found l bs) = if l % 65536 == 0 then 0 else suc (next bs)

unfoldable pub count_loop : (fuel : ℕ) → List ℕ → ℕ
count_loop zero bs = 0
count_loop (suc fuel) bs = count_round (count_loop fuel) (read_char bs)

unfoldable pub fss_mbstowcs_length : List ℕ → ℕ
fss_mbstowcs_length bs = count_loop (length bs) bs

-- The loop over `c`, which counts down by 6.
unfoldable pub trail_bytes : (rounds l : ℕ) → List ℕ
trail_bytes zero l = []
trail_bytes (suc n) l = (0x80 + l / 2 ^ (6 * n) % 64) ∷ trail_bytes n l

-- The bytes of a unit, by the first row whose mask is large enough.
unfoldable pub put_rows : List Tab → ℕ → List ℕ
put_rows [] l = []
put_rows (t ∷ ts) l =
    let rest = put_rows ts l in
    if leb l t.lmask then (t.cval + l / 2 ^ t.shift) ∷ trail_bytes (t.shift / 6) l else rest

-- `fss_wcstombs (mbs, wcs, lengthForMBS)` of the units before the terminator, whose room is not read.
unfoldable pub fss_wcstombs : List ℕ → List ℕ
fss_wcstombs [] = []
fss_wcstombs (w ∷ ws) = put_rows tab w ++ fss_wcstombs ws

-- The same with `mbs` NULL: bytes are counted only.
unfoldable pub count_rows : List Tab → ℕ → ℕ
count_rows [] l = 0
count_rows (t ∷ ts) l =
    let rest = count_rows ts l in if leb l t.lmask then suc (t.shift / 6) else rest

unfoldable pub fss_wcstombs_length : List ℕ → ℕ
fss_wcstombs_length [] = 0
fss_wcstombs_length (w ∷ ws) = count_rows tab w + fss_wcstombs_length ws
