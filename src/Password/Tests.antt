-- ===== src/Password/Tests.antt =====
-- A password of ten chars of every kind.
use firebird_odbc_driver.Base.{ℕ, ◌≡◌, List, [], ◌∷◌, arith}
use firebird_odbc_driver.Password.{encode, stored, decode}
use firebird_odbc_driver.Password.RoundTrip.{IsChars, nil, cons, decode-encode}

abbrev pass : List ℕ
pass = 109 ∷ 97 ∷ 115 ∷ 255 ∷ 59 ∷ 32 ∷ 1 ∷ 123 ∷ 125 ∷ 61 ∷ []

pass-IsChars : IsChars pass
pass-IsChars = cons (omega arith) (
    cons (omega arith) (
      cons (omega arith) (
        cons (omega arith) (
          cons (omega arith) (
            cons (omega arith) (
              cons (omega arith)
                (cons (omega arith) (cons (omega arith) (cons (omega arith) nil)))))))))

decode-encode_example : decode (encode pass) ≡ stored pass
decode-encode_example = decode-encode pass pass-IsChars
