-- ===== src/Password.antt =====
-- SecurityPassword.h: a password under a key that is made of it, as hexadecimal letters. A char is a number
-- below 256, and a text that is given ends before its terminator. The conversions to letters and back run inside one buffer, where each char is read before it is
-- overwritten.
pub mod RoundTrip
mod Tests
use firebird_odbc_driver.Base.{
  ℕ, zero, suc, ◌+◌, ◌-◌, ◌*◌, ◌/◌, ◌%◌, Bool, true, false, List, [], ◌∷◌, ◌++◌, ltb, ◌==◌,
  if◌then◌else◌, length, get_or, take, drop, replicate,
}

-- Exclusive or of the lowest bits.
unfoldable pub xor_bits : (bits a b : ℕ) → ℕ
xor_bits zero a b = 0
xor_bits (suc bits) a b = (a + b) % 2 + 2 * xor_bits bits (a / 2) (b / 2)

abbrev pub xor : ℕ → ℕ → ℕ
xor a b = xor_bits 8 a b

-- `sizeof(securityKey)`
abbrev pub key_size : ℕ
key_size = 40

-- The loop of `buildKey`, whose two pointers lead to the same char.
unfoldable pub key_chars : (left off : ℕ) → List ℕ → List ℕ
key_chars zero off pass = []
key_chars (suc left) off pass =
    let ch = get_or pass (off % length pass) 0 in
    (ch * (17 * (ch + suc off)) + ch) % 256 ∷ key_chars left (suc off) pass

unfoldable pub build_key : List ℕ → List ℕ
build_key [] = replicate key_size 0
build_key (c ∷ pass) = key_chars key_size 0 (c ∷ pass)

-- `get`, the `n`-th time: `initShifts` sets four segments of six chars, seven apart, behind the third char.
unfoldable pub get_shift : (key : List ℕ) → ℕ → ℕ
get_shift key n =
    let i = n % 6 in
    xor (xor (xor (xor 0 (get_or key (3 + i) 0)) (get_or key (10 + i) 0)) (get_or key (17 + i) 0))
      (get_or key (24 + i) 0)

-- `make`, `n` chars having been made.
unfoldable pub make : (key : List ℕ) (n : ℕ) → List ℕ → List ℕ
make key n [] = []
make key n (c ∷ buf) = xor c (get_shift key n) ∷ make key (suc n) buf

-- A char as two letters, the lower half first.
unfoldable pub to_letters : List ℕ → List ℕ
to_letters [] = []
to_letters (c ∷ cs) = (c % 16 + 65) ∷ (c / 16 % 16 + 65) ∷ to_letters cs

unfoldable pub encode : List ℕ → List ℕ
encode password = let key = build_key password in to_letters (key ++ make key 0 password)

-- The chars of letters, of which there is an even number.
unfoldable pub from_letters : List ℕ → List ℕ
from_letters (low ∷ high ∷ letters) = (low + 191 + (high + 191) * 16) % 256 ∷ from_letters letters
from_letters _ = []

-- What `decode` does to the buffer of its caller: nothing, a text stored there, or a copy of a negative size.
pub data Decoded : Type 0 where
  untouched : Decoded
  stored : List ℕ → Decoded
  negative_copy : Decoded

unfoldable pub decode : List ℕ → Decoded
decode passkey =
    let chars = from_letters passkey in
    if length passkey == 0
    then untouched
    else if length passkey % 2 == 1
    then untouched
    else if ltb (length passkey / 2) key_size
    then negative_copy
    else stored (make (take key_size chars) 0 (drop key_size chars))
