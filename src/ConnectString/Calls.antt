-- ===== src/ConnectString/Calls.antt =====
-- A call of `OdbcConnection::sqlDriverConnect` that connects, and the string that it gives to the next one.
use firebird_odbc_driver.Base.{
  ℕ, ◌-◌, ◌≤◌, ◌<◌, ◌≡◌, refl, sym, ap, ◌∙◌, Bool, true, false, Option, some, List, [], ◌∷◌, ◌++◌,
  append_assoc, arith, leb, ltb, ◌==◌, length, length-append, take_of_ge,
}
use firebird_odbc_driver.Diagnostics.Tables.{chars}
use firebird_odbc_driver.Password.RoundTrip.{length-encode}
use firebird_odbc_driver.ConnectString.{Attribute, semicolon, read_attributes}
use firebird_odbc_driver.ConnectString.Settings.{Settings}
use firebird_odbc_driver.ConnectString.Connect.{
  assign, parts, head_parts, returned_password, tail_attributes, return_string, Request,
  is_bad_length, connected, first_parts, finish, after_expand, and_expand, set_attributes, Sources,
  sql_driver_connect,
}
use firebird_odbc_driver.ConnectString.Again.{
  IsReturnable, given_again, set_attributes-return_string,
}

parts-append : (xs ys : List Attribute) → parts (xs ++ ys) ≡ parts xs ++ parts ys
unfolding parts
parts-append [] ys = refl
parts-append ((key, []) ∷ xs) ys = parts-append xs ys
parts-append ((key, c ∷ cs) ∷ xs) ys =
    ap (λ others. semicolon ∷ (assign key (c ∷ cs) ++ others)) (parts-append xs ys)
    ∙ ap (λ others. semicolon ∷ others)
        (sym (append_assoc (assign key (c ∷ cs)) (parts xs) (parts ys)))

length-first_parts : (s : Settings) → length (first_parts s) ≤ length (return_string true s)
unfolding return_string
length-first_parts s =
    let data_ : List Attribute =
      (chars "Dbname", s.database_name) ∷ (chars "CHARSET", s.charset) ∷ [] in
    let user : List Attribute =
      (chars "PWD", returned_password true s.password)
      ∷ (chars "UID", s.account)
      ∷ (chars "Role", s.role)
      ∷ (chars "Client", s.client)
      ∷ (chars "FILEDSN", s.filedsn)
      ∷ [] in
    omega (
      arith,
      length-append (head_parts s) (parts data_),
      length-append (head_parts s) (parts (tail_attributes true s) ++ semicolon ∷ []),
      length-append (parts (tail_attributes true s)) (semicolon ∷ []),
      ap length (parts-append data_ user),
      length-append (parts data_) (parts user),
    )

length-returned_password :
    (password : List ℕ)
    → length password < 88
    → ltb (length (returned_password true password)) 256 ≡ true
length-returned_password [] h = ground arith
length-returned_password (c ∷ cs) h = ground (arith, length-encode (c ∷ cs))

finish-connected :
    (n : ℕ) (s : Settings)
    → length s.password < 88
    → length (return_string true s) < 1024
    → length (return_string true s) < n
    → finish true true n s ≡ connected s (return_string true s) true
finish-connected n s short fits whole =
    let first : leb (length (first_parts s)) 1024 ≡ true = ground (arith, length-first_parts s) in
    let some_ : (n == 0) ≡ false = ground arith in
    let buffer : ltb (length (return_string true s)) 1024 ≡ true = ground arith in
    let all : ltb (length (return_string true s)) n ≡ true = ground arith in
    rw (first, some_, buffer, length-returned_password s.password short, all)
      (ap (λ text. connected s text true) (take_of_ge (n - 1) (return_string true s) (omega arith)))

-- What a call has before it expands the settings.
abbrev pub given_settings : Settings → Request → Option Settings
given_settings s r =
    set_attributes (record s { driver = chars "Firebird ODBC Driver"; warned = false })
      (read_attributes r.text)

-- A call that no guard refuses, of a string that is read and expanded to settings with which the database
-- connects, answers with the whole string of these settings when it fits the buffers; and another connection
-- takes from that string the values of these settings that are not empty, and keeps its own settings elsewhere.
-- The application is one of ODBC 3; a driver is named, no value has a semicolon or a terminator or starts with a
-- space or a brace, and each of them fits its buffer, as does the password when it is encoded.
pub sql_driver_connect-return_string :
    (sources : Sources) (connects : Settings → Bool) (s t fresh : Settings) (r : Request)
    → r.connected ≡ false
    → is_bad_length r.given_length ≡ false
    → r.no_window ≡ false
    → and_expand sources (given_settings s r) ≡ some t
    → connects t ≡ true
    → IsReturnable t
    → length (return_string true t) < 1024
    → length (return_string true t) < r.out_size
    → (sql_driver_connect sources connects true s r ≡ connected t (return_string true t) true)
      × (set_attributes fresh (read_attributes (return_string true t)) ≡ some (given_again t fresh))
unfolding sql_driver_connect
sql_driver_connect-return_string sources connects s t fresh r free good window set made w fits
      whole =
    let guards : sql_driver_connect sources connects true s r
        ≡ after_expand connects true r.out_size (and_expand sources (given_settings s r)) =
      rw (sql_driver_connect, free, good, window) refl in
    (
      guards
          ∙ ap (after_expand connects true r.out_size) set
          ∙ ap (λ made. finish made true r.out_size t) made
          ∙ finish-connected r.out_size t w.password_short fits whole,
      set_attributes-return_string t fresh w,
    )
