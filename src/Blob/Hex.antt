-- ===== src/Blob/Hex.antt =====
-- Bytes to hexadecimal digits and back.
use firebird_odbc_driver.Base.{
  ℕ, ◌+◌, ◌*◌, ◌/◌, ◌%◌, ◌<◌, ◌≡◌, refl, ap, ◌∙◌, List, [], ◌∷◌, map, arith, length,
}
use firebird_odbc_driver.Stream.Read.{hex_digit, bin_to_hex_str}
use firebird_odbc_driver.Blob.{char_hex_to_digit, conv_str_hex_to_binary}

-- The chars of a buffer of shorts: of each the low byte, then the high byte.
abbrev pub chars_of : List ℕ → List ℕ
chars_of [] = []
chars_of (w ∷ ws) = w % 256 ∷ w / 256 ∷ chars_of ws

abbrev pub AllBytes : List ℕ → Type 0
AllBytes [] = Unit
AllBytes (b ∷ bs) = (b < 256) × AllBytes bs

digit_back : (d : ℕ) → d < 16 → char_hex_to_digit (hex_digit d) ≡ d
unfolding char_hex_to_digit hex_digit
digit_back d h = ground arith

hex_digit-lt : (d : ℕ) → d < 16 → hex_digit d < 256
unfolding hex_digit
hex_digit-lt d h = ground arith

-- The short that `getSegmentToHexStr` stores for a byte holds its high digit in the low byte.
halves :
    (b : ℕ)
    → b < 256
    → (bin_to_hex_str b % 256 ≡ hex_digit (b / 16)) × (bin_to_hex_str b / 256 ≡ hex_digit (b % 16))
unfolding bin_to_hex_str
halves b h =
    let lo = hex_digit-lt (b / 16) (omega arith) in
    let hi = hex_digit-lt (b % 16) (omega arith) in (omega arith, omega arith)

-- `convStrHexToBinary` gives back the bytes of which `getSegmentToHexStr` stored the digits.
pub conv_str_hex_to_binary-bin_to_hex_str :
    (bs : List ℕ)
    → AllBytes bs
    → conv_str_hex_to_binary (length bs) (chars_of (map bin_to_hex_str bs)) ≡ bs
unfolding conv_str_hex_to_binary
conv_str_hex_to_binary-bin_to_hex_str [] h = refl
conv_str_hex_to_binary-bin_to_hex_str (b ∷ bs) (byte, rest) =
    let (lo, hi) = halves b byte in
    let first : char_hex_to_digit (bin_to_hex_str b % 256) ≡ b / 16 =
      ap char_hex_to_digit lo ∙ digit_back (b / 16) (omega arith) in
    let second : char_hex_to_digit (bin_to_hex_str b / 256) ≡ b % 16 =
      ap char_hex_to_digit hi ∙ digit_back (b % 16) (omega arith) in
    let whole : (b / 16 * 16 % 256 + b % 16) % 256 ≡ b = omega arith in
    rw (first, second) (rw (whole, conv_str_hex_to_binary-bin_to_hex_str bs rest))
