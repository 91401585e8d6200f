-- ===== src/Password/RoundTrip.antt =====
-- A password through SecurityPassword.h and back.
use firebird_odbc_driver.Base.{
  ℕ, zero, suc, ◌+◌, ◌*◌, ◌/◌, ◌%◌, ◌^◌, ◌<◌, ◌≡◌, refl, ap, ◌∙◌, false, List, [], ◌∷◌, ◌++◌, arith,
  ltb, ◌==◌, length, take, drop, replicate, length-append, length-replicate, subst,
}
use native.Mathlib.Numerals.{unary_clauses}
use firebird_odbc_driver.Password.{
  xor_bits, key_chars, build_key, get_shift, make, to_letters, encode, from_letters, stored, decode,
}

-- A text of chars.
pub data IsChars : List ℕ → Type 0 where
  nil : IsChars []
  cons : {c : ℕ} {cs : List ℕ} → c < 256 → IsChars cs → IsChars (c ∷ cs)

power : (bits : ℕ) → 2 ^ suc bits ≡ 2 * 2 ^ bits
power bits = simp unary_clauses (omega arith)

xor_bits-lt : (bits a b : ℕ) → xor_bits bits a b < 2 ^ bits
unfolding xor_bits
xor_bits-lt zero a b = omega arith
xor_bits-lt (suc bits) a b = omega (arith, xor_bits-lt bits (a / 2) (b / 2), power bits)

xor_bits-twice : (bits a b : ℕ) → a < 2 ^ bits → xor_bits bits (xor_bits bits a b) b ≡ a
unfolding xor_bits
xor_bits-twice zero a b h = omega arith
xor_bits-twice (suc bits) a b h =
    let x : ℕ = xor_bits bits (a / 2) (b / 2) in
    let half : ((a + b) % 2 + 2 * x) / 2 ≡ x = omega arith in
    let low : ((a + b) % 2 + 2 * x + b) % 2 ≡ a % 2 = omega arith in
    let rest = xor_bits-twice bits (a / 2) (b / 2) (omega (arith, power bits)) in
    rw (half, low, rest) (omega arith)

make-make : (key : List ℕ) (n : ℕ) {cs : List ℕ} → IsChars cs → make key n (make key n cs) ≡ cs
unfolding make
make-make key n nil = refl
make-make key n (cons {c} {cs} h w) =
    let here = xor_bits-twice 8 c (get_shift key n) h in rw (here, make-make key (suc n) w) refl

make-IsChars : (key : List ℕ) (n : ℕ) (cs : List ℕ) → IsChars (make key n cs)
unfolding make
make-IsChars key n [] = nil
make-IsChars key n (c ∷ cs) = cons (xor_bits-lt 8 c (get_shift key n)) (make-IsChars key (suc n) cs)

key_chars-IsChars : (left off : ℕ) (pass : List ℕ) → IsChars (key_chars left off pass)
unfolding key_chars
key_chars-IsChars zero off pass = nil
key_chars-IsChars (suc left) off pass = cons (omega arith) (key_chars-IsChars left (suc off) pass)

length-key_chars : (left off : ℕ) (pass : List ℕ) → length (key_chars left off pass) ≡ left
unfolding key_chars
length-key_chars zero off pass = refl
length-key_chars (suc left) off pass = ap suc (length-key_chars left (suc off) pass)

replicate-IsChars : (n : ℕ) → IsChars (replicate n 0)
replicate-IsChars zero = nil
replicate-IsChars (suc n) = cons (omega arith) (replicate-IsChars n)

build_key-IsChars : (pass : List ℕ) → IsChars (build_key pass)
unfolding build_key
build_key-IsChars [] = replicate-IsChars 40
build_key-IsChars (c ∷ pass) = key_chars-IsChars 40 0 (c ∷ pass)

length-build_key : (pass : List ℕ) → length (build_key pass) ≡ 40
unfolding build_key
length-build_key [] = length-replicate {A = ℕ} 40 0
length-build_key (c ∷ pass) = length-key_chars 40 0 (c ∷ pass)

append-IsChars : {cs ds : List ℕ} → IsChars cs → IsChars ds → IsChars (cs ++ ds)
append-IsChars nil w = w
append-IsChars (cons h v) w = cons h (append-IsChars v w)

from_letters-to_letters : {cs : List ℕ} → IsChars cs → from_letters (to_letters cs) ≡ cs
unfolding from_letters to_letters
from_letters-to_letters nil = refl
from_letters-to_letters (cons {c} {cs} h w) =
    let char : (c % 16 + 65 + 191 + (c / 16 % 16 + 65 + 191) * 16) % 256 ≡ c = omega arith in
    rw (char, from_letters-to_letters w) refl

pub length-to_letters : (cs : List ℕ) → length (to_letters cs) ≡ 2 * length cs
unfolding to_letters
length-to_letters [] = refl
length-to_letters (c ∷ cs) = omega (arith, length-to_letters cs)

length-make : (key : List ℕ) (n : ℕ) (cs : List ℕ) → length (make key n cs) ≡ length cs
unfolding make
length-make key n [] = refl
length-make key n (c ∷ cs) = ap suc (length-make key (suc n) cs)

take-append : (cs ds : List ℕ) → take (length cs) (cs ++ ds) ≡ cs
take-append [] ds = refl
take-append (c ∷ cs) ds = ap (λ rest. c ∷ rest) (take-append cs ds)

drop-append : (cs ds : List ℕ) → drop (length cs) (cs ++ ds) ≡ ds
drop-append [] ds = refl
drop-append (c ∷ cs) ds = drop-append cs ds

-- `encode` makes two letters of each char of its key and of the password.
pub length-encode : (password : List ℕ) → length (encode password) ≡ 2 * (40 + length password)
unfolding encode
length-encode password =
    let key = build_key password in
    length-to_letters (key ++ make key 0 password)
    ∙ omega (
      arith,
      length-append key (make key 0 password),
      length-build_key password,
      length-make key 0 password,
    )

chars-encode :
    (password : List ℕ)
    → from_letters (encode password) ≡ build_key password ++ make (build_key password) 0 password
unfolding encode
chars-encode password =
    from_letters-to_letters
      (append-IsChars (build_key-IsChars password) (make-IsChars (build_key password) 0 password))

-- A password comes back from `decode` as it was given to `encode`, whatever its chars and its length.
pub decode-encode :
    (password : List ℕ) → IsChars password → decode (encode password) ≡ stored password
unfolding decode
decode-encode password w =
    let key = build_key password in
    let made = make key 0 password in
    let size = length-encode password in
    let some_ : (length (encode password) == 0) ≡ false = ground arith in
    let even : (length (encode password) % 2 == 1) ≡ false = ground arith in
    let long : ltb (length (encode password) / 2) 40 ≡ false = ground arith in
    let front =
      subst (λ n. take n (key ++ made) ≡ key) (length-build_key password) (take-append key made) in
    let behind =
      subst (λ n. drop n (key ++ made) ≡ made) (length-build_key password) (drop-append key made) in
    rw (some_, even, long, chars-encode password, front, behind) (ap stored (make-make key 0 w))
