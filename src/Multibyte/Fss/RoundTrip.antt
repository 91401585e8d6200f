-- ===== src/Multibyte/Fss/RoundTrip.antt =====
-- The bytes of FSS_UTF in MultibyteConvert.cpp: counted and stored, there and back.
use firebird_odbc_driver.Base.{
  ℕ, zero, suc, ◌+◌, ◌-◌, ◌*◌, ◌/◌, ◌%◌, ◌≤◌, ◌<◌, ◌≡◌, refl, sym, ap, ◌∙◌, inl, inr, true, false,
  List, [], ◌∷◌, ◌++◌, arith, ltb, leb, ◌==◌, length, Bool-cases, length-append, drop,
}
use firebird_odbc_driver.Multibyte.Fss.{
  Tab, row, tab, Round, stop, skip, found, try_rows, read_char, put_round, mbs_loop, fss_mbstowcs,
  count_round, count_loop, fss_mbstowcs_length, trail_bytes, put_rows, fss_wcstombs, count_rows,
  fss_wcstombs_length,
}

count-put_round :
    (f : List ℕ → List ℕ) (g : List ℕ → ℕ) (r : Round)
    → ((bs : List ℕ) → length (f bs) ≡ g bs)
    → length (put_round f r) ≡ count_round g r
count-put_round f g stop h = refl
count-put_round f g (skip bs) h = h bs
count-put_round f g (found l bs) h = elim (Bool-cases (l % 65536 == 0)) [
  | inl z ↦ rw z refl
  | inr z ↦ rw z (ap suc (h bs))
]

length-mbs_loop : (fuel : ℕ) (bs : List ℕ) → length (mbs_loop fuel bs) ≡ count_loop fuel bs
unfolding mbs_loop count_loop
length-mbs_loop zero bs = refl
length-mbs_loop (suc fuel) bs =
    count-put_round (mbs_loop fuel) (count_loop fuel) (read_char bs) (length-mbs_loop fuel)

length-trail_bytes : (n l : ℕ) → length (trail_bytes n l) ≡ n
unfolding trail_bytes
length-trail_bytes zero l = refl
length-trail_bytes (suc n) l = ap suc (length-trail_bytes n l)

length-put_rows : (ts : List Tab) (l : ℕ) → length (put_rows ts l) ≡ count_rows ts l
unfolding put_rows count_rows
length-put_rows [] l = refl
length-put_rows (t ∷ ts) l =
    let rest = length-put_rows ts l in
    elim (Bool-cases (leb l t.lmask)) [
      | inl h ↦ rw h (ap suc (length-trail_bytes (t.shift / 6) l))
      | inr h ↦ rw h rest
    ]

length-fss_wcstombs : (ws : List ℕ) → length (fss_wcstombs ws) ≡ fss_wcstombs_length ws
unfolding fss_wcstombs fss_wcstombs_length
length-fss_wcstombs [] = refl
length-fss_wcstombs (w ∷ ws) =
    length-append (put_rows tab w) (fss_wcstombs ws)
    ∙ rw (length-put_rows tab w, length-fss_wcstombs ws) refl

-- With a NULL target each of the two conversions counts what it stores with a target.
pub fss_length-agree :
    (bs ws : List ℕ)
    → (fss_mbstowcs_length bs ≡ length (fss_mbstowcs bs))
      × (fss_wcstombs_length ws ≡ length (fss_wcstombs ws))
unfolding fss_mbstowcs fss_mbstowcs_length
fss_length-agree bs ws = (sym (length-mbs_loop (length bs) bs), sym (length-fss_wcstombs ws))

-- A unit that is not 0.
abbrev pub AllNonzero : List ℕ → Type 0
AllNonzero [] = Unit
AllNonzero (w ∷ ws) = (0 < w) × (w < 65536) × AllNonzero ws

-- The row of a first byte ends the round, and the rows before it take a byte each.
try_rows_found :
    (t : Tab) (ts : List Tab) (c0 l b w : ℕ) (bs : List ℕ)
    → (c0 / (256 - t.cmask) * (256 - t.cmask) == t.cval) ≡ true
    → l % suc t.lmask ≡ w
    → t.lval ≤ w
    → try_rows (t ∷ ts) c0 l (b ∷ bs) ≡ found w bs
unfolding try_rows
try_rows_found t ts c0 l b w [] h e k =
    let large : ltb w t.lval ≡ false = ground arith in rw (h, e, large) refl
try_rows_found t ts c0 l b w (m ∷ bs) h e k =
    let large : ltb w t.lval ≡ false = ground arith in rw (h, e, large) refl

try_rows_next :
    (t : Tab) (ts : List Tab) (c0 l b n : ℕ) (bs : List ℕ)
    → (c0 / (256 - t.cmask) * (256 - t.cmask) == t.cval) ≡ false
    → n < 64
    → try_rows (t ∷ ts) c0 l (b ∷ (128 + n) ∷ bs) ≡ try_rows ts c0 (l * 64 + n) ((128 + n) ∷ bs)
unfolding try_rows
try_rows_next t ts c0 l b n bs h k =
    let high : ltb (128 + n) 0x80 ≡ false = ground arith in
    let bits : 128 + n - 128 ≡ n = omega arith in
    let trail : leb 64 n ≡ false = ground arith in
    let present : (128 + n == 0) ≡ false = ground arith in rw (h, present, high, bits, trail) refl

abbrev first : Tab
first = row 0x80 0x00 0 0x7f 0

abbrev second : Tab
second = row 0xe0 0xc0 6 0x7ff 0x80

abbrev third : Tab
third = row 0xf0 0xe0 12 0xffff 0x800

read_one : (w : ℕ) (rest : List ℕ) → w ≤ 0x7f → read_char ((0 + w / 1) ∷ rest) ≡ found w rest
unfolding read_char
read_one w rest k =
    try_rows_found first (drop 1 tab) (0 + w / 1) (0 + w / 1) (0 + w / 1) w rest (ground arith)
      (omega arith) (omega arith)

read_two :
    (w : ℕ) (rest : List ℕ)
    → 0x80 ≤ w
    → w ≤ 0x7ff
    → read_char ((192 + w / 64) ∷ (128 + w / 1 % 64) ∷ rest) ≡ found w rest
unfolding read_char
read_two w rest h k =
    let b = 192 + w / 64 in
    try_rows_next first (drop 1 tab) b b b (w / 1 % 64) rest (ground arith) (omega arith)
    ∙ try_rows_found second (drop 2 tab) b (b * 64 + w / 1 % 64) (128 + w / 1 % 64) w rest
        (ground arith) (omega arith) (omega arith)

read_three :
    (w : ℕ) (rest : List ℕ)
    → 0x800 ≤ w
    → w ≤ 0xffff
    → read_char ((224 + w / 4096) ∷ (128 + w / 64 % 64) ∷ (128 + w / 1 % 64) ∷ rest) ≡ found w rest
unfolding read_char
read_three w rest h k =
    let b = 224 + w / 4096 in
    let l = b * 64 + w / 64 % 64 in
    try_rows_next first (drop 1 tab) b b b (w / 64 % 64) ((128 + w / 1 % 64) ∷ rest) (ground arith)
      (omega arith)
    ∙ try_rows_next second (drop 2 tab) b l (128 + w / 64 % 64) (w / 1 % 64) rest (ground arith)
        (omega arith)
    ∙ try_rows_found third (drop 3 tab) b (l * 64 + w / 1 % 64) (128 + w / 1 % 64) w rest
        (ground arith) (omega arith) (omega arith)

read_char-put_rows :
    (w : ℕ) (rest : List ℕ) → w < 65536 → read_char (put_rows tab w ++ rest) ≡ found w rest
unfolding put_rows trail_bytes
read_char-put_rows w rest k = elim (Bool-cases (leb w 0x7f)) [
  | inl h ↦ rw h (read_one w rest (ground arith))
  | inr h ↦ elim (Bool-cases (leb w 0x7ff)) [
    | inl i ↦ rw (h, i) (read_two w rest (ground arith) (ground arith))
    | inr i ↦
        let j : leb w 0xffff ≡ true = ground arith in
        rw (h, i, j) (read_three w rest (ground arith) (ground arith))
  ]
]

read_char_nil : read_char [] ≡ stop
unfolding read_char
read_char_nil = refl

mbs_loop-fss_wcstombs :
    (fuel : ℕ) (ws : List ℕ)
    → AllNonzero ws
    → length ws ≤ fuel
    → mbs_loop fuel (fss_wcstombs ws) ≡ ws
unfolding mbs_loop fss_wcstombs
mbs_loop-fss_wcstombs zero [] u k = refl
mbs_loop-fss_wcstombs zero (w ∷ ws) u k = absurd (omega arith)
mbs_loop-fss_wcstombs (suc fuel) [] u k = rw read_char_nil refl
mbs_loop-fss_wcstombs (suc fuel) (w ∷ ws) (p, small, u) k =
    let rest = mbs_loop-fss_wcstombs fuel ws u (omega arith) in
    let own : w % 65536 ≡ w = omega arith in
    let present : (w == 0) ≡ false = ground arith in
    rw (read_char-put_rows w (fss_wcstombs ws) small, own, present) (ap (λ vs. w ∷ vs) rest)

put_rows_positive : (w : ℕ) → w < 65536 → 0 < length (put_rows tab w)
unfolding put_rows
put_rows_positive w k = ground arith

length_le-fss_wcstombs : (ws : List ℕ) → AllNonzero ws → length ws ≤ length (fss_wcstombs ws)
unfolding fss_wcstombs
length_le-fss_wcstombs [] u = omega arith
length_le-fss_wcstombs (w ∷ ws) (p, small, u) = omega (
  arith,
  length-append (put_rows tab w) (fss_wcstombs ws),
  length_le-fss_wcstombs ws u,
  put_rows_positive w small,
)

-- For units of 16 bits of which none is 0, surrogates among them, `fss_mbstowcs` reads from what
-- `fss_wcstombs` stored the same units.
pub fss_mbstowcs-fss_wcstombs : (ws : List ℕ) → AllNonzero ws → fss_mbstowcs (fss_wcstombs ws) ≡ ws
unfolding fss_mbstowcs
fss_mbstowcs-fss_wcstombs ws u =
    mbs_loop-fss_wcstombs (length (fss_wcstombs ws)) ws u (length_le-fss_wcstombs ws u)
