-- ===== src/Multibyte/Utf8/Code.antt =====
-- One code point of MultibyteConvert.cpp: its bytes and its units, there and back.
use firebird_odbc_driver.Base.{
  ℕ, ◌+◌, ◌-◌, ◌*◌, ◌/◌, ◌%◌, ◌≤◌, ◌<◌, ◌≡◌, inl, inr, false, Option, none, some, List, [], ◌∷◌,
  ◌++◌, arith, leb, length, Bool-cases, ◌⊎◌,
}
use firebird_odbc_driver.Multibyte.Utf8.{
  u8_length, utf8_bytes, next_code, count_trail_bytes, safe_body, next_char, utf16_units,
}

-- A code point of Unicode that is no surrogate.
abbrev pub IsScalar : ℕ → Type 0
IsScalar c = (c ≤ 0x10ffff) × ((c < 0xd800) ⊎ (0xdfff < c))

one_byte : (c : ℕ) (rest : List ℕ) → c ≤ 0x7f → next_char c rest ≡ some (c, rest)
unfolding next_char
one_byte c rest k = ground arith

count_one : (n : ℕ) → n < 32 → count_trail_bytes (n + 0xc0) ≡ 1
unfolding count_trail_bytes
count_one n h = ground arith

count_two : (n : ℕ) → n < 16 → count_trail_bytes (n + 0xe0) ≡ 2
unfolding count_trail_bytes
count_two n h = ground arith

count_three : (n : ℕ) → n < 8 → count_trail_bytes (n + 0xf0) ≡ 3
unfolding count_trail_bytes
count_three n h = ground arith

-- A trail byte is one, and its bits are found.
trail : (n : ℕ) → n < 64 → ((n + 0x80) / 64 ≡ 2) × ((n + 0x80) % 64 ≡ n)
trail n h = (omega arith, omega arith)

two_bytes :
    (c : ℕ) (rest : List ℕ)
    → 0x80 ≤ c
    → c ≤ 0x7ff
    → next_char (c / 64 + 0xc0) ((c % 64 + 0x80) ∷ rest) ≡ some (c, rest)
unfolding next_char safe_body
two_bytes c rest h k =
    let count = count_one (c / 64) (omega arith) in
    let back : (c / 64 + 0xc0) % 32 * 64 + (c % 64 + 0x80) % 64 ≡ c = omega arith in
    let far : leb (c / 64 + 0xc0) 0x7f ≡ false = ground arith in
    rw (far, count, back) (ground arith)

three_bytes :
    (c : ℕ) (rest : List ℕ)
    → 0x800 ≤ c
    → c ≤ 0xffff
    → (c < 0xd800) ⊎ (0xdfff < c)
    → next_char (c / 4096 + 0xe0) ((c / 64 % 64 + 0x80) ∷ (c % 64 + 0x80) ∷ rest) ≡ some (c, rest)
unfolding next_char safe_body
three_bytes c rest h k s =
    let count = count_two (c / 4096) (omega arith) in
    let back : ((c / 4096 + 0xe0) % 16 * 64 + (c / 64 % 64 + 0x80) % 64) * 64 + (c % 64 + 0x80) % 64
        ≡ c =
      omega arith in
    let far : leb (c / 4096 + 0xe0) 0x7f ≡ false = ground arith in
    rw (far, count, back) (ground arith)

four_bytes :
    (c : ℕ) (rest : List ℕ)
    → 0x10000 ≤ c
    → c ≤ 0x10ffff
    → next_char
        (c / 262144 + 0xf0)
        ((c / 4096 % 64 + 0x80) ∷ (c / 64 % 64 + 0x80) ∷ (c % 64 + 0x80) ∷ rest)
      ≡ some (c, rest)
unfolding next_char safe_body
four_bytes c rest h k =
    let count = count_three (c / 262144) (omega arith) in
    let first : (c / 262144 + 0xf0) % 8 * 64 + (c / 4096 % 64 + 0x80) % 64 ≡ c / 4096 =
      omega arith in
    let back : (c / 4096 * 64 + (c / 64 % 64 + 0x80) % 64) * 64 + (c % 64 + 0x80) % 64 ≡ c =
      omega arith in
    let far : leb (c / 262144 + 0xf0) 0x7f ≡ false = ground arith in
    rw (far, count, first, back) (ground arith)

-- The first code point of a list of bytes, and of a list of units.
abbrev pub decode : List ℕ → Option (ℕ × List ℕ)
decode [] = none
decode (b ∷ bs) = next_char b bs

abbrev pub first_code : List ℕ → Option (ℕ × List ℕ)
first_code [] = none
first_code (w ∷ ws) = next_code w ws

-- The bytes of a code point, whatever follows them, decode to it.
pub decode-utf8_bytes :
    (c : ℕ) (rest : List ℕ) → IsScalar c → decode (utf8_bytes c ++ rest) ≡ some (c, rest)
unfolding utf8_bytes
decode-utf8_bytes c rest (k, s) = elim (Bool-cases (leb c 0x7f)) [
  | inl h ↦ rw h (one_byte c rest (ground arith))
  | inr h ↦ elim (Bool-cases (leb c 0x7ff)) [
    | inl i ↦ rw (h, i) (two_bytes c rest (ground arith) (ground arith))
    | inr i ↦ elim (Bool-cases (leb c 0xffff)) [
      | inl j ↦ rw (h, i, j) (three_bytes c rest (ground arith) (ground arith) s)
      | inr j ↦ rw (h, i, j) (four_bytes c rest (ground arith) k)
    ]
  ]
]

-- A unit that is no surrogate stands for itself.
unit_alone :
    (c : ℕ) (rest : List ℕ) → (c < 0xd800) ⊎ (0xdfff < c) → next_code c rest ≡ some (c, rest)
unfolding next_code
unit_alone c [] s = ground arith
unit_alone c (v ∷ rest) s = ground arith

-- A pair of surrogates stands for a code point behind the first 65536.
unit_pair :
    (c : ℕ) (rest : List ℕ)
    → 0x10000 ≤ c
    → c ≤ 0x10ffff
    → next_code (c / 1024 + 0xd7c0) ((c % 1024 + 0xdc00) ∷ rest) ≡ some (c, rest)
unfolding next_code
unit_pair c rest h k =
    let back : (c / 1024 + 0xd7c0) * 1024 + (c % 1024 + 0xdc00) - 0x35fdc00 ≡ c = omega arith in
    let lead : (c / 1024 + 0xd7c0) / 1024 % 2 ≡ 0 = omega arith in
    let behind : (c % 1024 + 0xdc00) / 1024 ≡ 55 = omega arith in
    rw (back, lead, behind) (ground arith)

-- The units of a code point, whatever follows them, are read as it.
pub first_code-utf16_units :
    (c : ℕ) (rest : List ℕ) → IsScalar c → first_code (utf16_units c ++ rest) ≡ some (c, rest)
unfolding utf16_units
first_code-utf16_units c rest (k, s) = elim (Bool-cases (leb c 0xffff)) [
  | inl h ↦ rw h (unit_alone c rest s)
  | inr h ↦ rw h (unit_pair c rest (ground arith) k)
]

-- `U8_LENGTH` is the number of the bytes.
pub length-utf8_bytes : (c : ℕ) → IsScalar c → length (utf8_bytes c) ≡ u8_length c
unfolding utf8_bytes u8_length
length-utf8_bytes c (k, s) = ground arith
