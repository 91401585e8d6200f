-- ===== src/ConnectString/Again.antt =====
-- The connection string that `OdbcConnection::sqlDriverConnect` returns, given to another connection.
use firebird_odbc_driver.Base.{
  ℕ, ◌≤◌, ◌<◌, ◌≡◌, refl, ap, ◌∙◌, ◌⊎◌, inl, Bool, true, false, not, ◌||◌, ◌&&◌, some, List, [],
  ◌∷◌, arith, ltb, ◌==◌, length,
}
use firebird_odbc_driver.Diagnostics.Tables.{chars, same_text}
use firebird_odbc_driver.Password.{to_letters, encode}
use firebird_odbc_driver.Password.RoundTrip.{IsChars, length-encode, decode-encode}
use firebird_odbc_driver.ConnectString.{equals, semicolon, Attribute, buffer_size, read_attributes}
use firebird_odbc_driver.ConnectString.RoundTrip.{Without, IsName, Written, read_attributes-Prints}
use firebird_odbc_driver.ConnectString.Settings.{
  Keyword, keywords, find_keyword, Settings, c_string, password_of, apply_keyword, apply_attributes,
}
use firebird_odbc_driver.ConnectString.Connect.{
  is_empty, or_read, returned_password, tail_attributes, return_string, set_attributes,
}
use firebird_odbc_driver.ConnectString.Printed.{
  IsPlain, given, IsKey, key, ArePlain, nil, cons, printed-Prints, head-printed,
}

-- An attribute that is given again sets its field, and one that is empty leaves it.
attribute_again :
    (name : List ℕ) {keyword : Keyword} (set : List ℕ → Settings → Settings)
    → find_keyword keywords name ≡ some keyword
    → ((s : Settings) → set [] s ≡ s)
    → ((c : ℕ) (cs : List ℕ) (s : Settings)
        → apply_keyword keyword (c ∷ cs) s ≡ some (set (c ∷ cs) s))
    → (value : List ℕ) (rest : List Attribute) (s : Settings) → c_string value ≡ value
    → apply_attributes (given ((name, value) ∷ rest)) (some s)
      ≡ apply_attributes (given rest) (some (set value s))
unfolding given apply_attributes
attribute_again name set f leave put [] rest s e = rw (leave s) refl
attribute_again name set f leave put (c ∷ cs) rest s e =
    rw (given, apply_attributes, e, f, put c cs s) refl

letters-Without : (c : ℕ) (cs : List ℕ) → (c < 65) ⊎ (81 ≤ c) → Without c (to_letters cs)
unfolding to_letters
letters-Without c [] h = Without.nil
letters-Without c (d ∷ ds) h =
    Without.cons (ground arith) (Without.cons (ground arith) (letters-Without c ds h))

c_string-whole : {cs : List ℕ} → Without 0 cs → c_string cs ≡ cs
unfolding c_string
c_string-whole Without.nil = refl
c_string-whole (Without.cons h w) = rw (h, c_string-whole w) refl

letters-Written : (cs : List ℕ) → Written (to_letters cs) (to_letters cs)
unfolding to_letters
letters-Written [] = Written.empty
letters-Written (d ∷ ds) =
    Written.plain (ground arith) (letters-Without semicolon (d ∷ ds) (inl (omega arith)))

encode-IsPlain : (password : List ℕ) → length password < 88 → IsPlain (encode password)
unfolding encode
encode-IsPlain password h = record {
  written = letters-Written _;
  whole = c_string-whole (letters-Without 0 _ (inl (omega arith)));
  short = omega (arith, length-encode password);
}

returned-IsPlain :
    (password : List ℕ) → length password < 88 → IsPlain (returned_password true password)
unfolding c_string
returned-IsPlain [] h = record { written = Written.empty; whole = refl; short = omega arith }
returned-IsPlain (c ∷ cs) h = encode-IsPlain (c ∷ cs) h

-- An encoded password is decoded to what it was.
password_of-encode :
    (password : List ℕ)
    → IsChars password
    → c_string password ≡ password
    → password_of (encode password) ≡ some password
unfolding password_of
password_of-encode password chars e =
    let long : ltb 40 (length (encode password)) ≡ true = ground (arith, length-encode password) in
    rw (long, decode-encode password chars, e) refl

given-some :
    (name value : List ℕ) (rest : List Attribute)
    → 0 < length value
    → given ((name, value) ∷ rest) ≡ (name, value) ∷ given rest
unfolding given
given-some name [] rest h = absurd (omega arith)
given-some name (c ∷ cs) rest h = refl

password_again :
    (password : List ℕ) (rest : List Attribute) (s : Settings)
    → IsChars password
    → length password < 88
    → c_string password ≡ password
    → apply_attributes (given ((chars "PWD", returned_password true password) ∷ rest)) (some s)
      ≡ apply_attributes (given rest) (some (record s { password = or_read password s.password }))
unfolding apply_attributes find_keyword apply_keyword same_text given
password_again [] rest s chars h e = refl
password_again (c ∷ cs) rest s is_chars h e =
    let some_ =
      given-some (chars "PWD") (encode (c ∷ cs)) rest (omega (arith, length-encode (c ∷ cs))) in
    let whole = IsPlain.whole (encode-IsPlain (c ∷ cs) h) in
    rw (some_, apply_attributes, whole, password_of-encode (c ∷ cs) is_chars e) refl

-- Settings whose string can be read: the values are plain, a driver is named, and the password is of chars that
-- leave room for its encoding.
pub record IsReturnable (s : Settings) : Type 0 where
  pub dsn : IsPlain s.dsn
  pub driver : IsPlain s.driver
  pub driven : is_empty s.driver ≡ false
  pub database_name : IsPlain s.database_name
  pub charset : IsPlain s.charset
  pub password : IsChars s.password
  pub password_short : length s.password < 88
  pub password_whole : c_string s.password ≡ s.password
  pub account : IsPlain s.account
  pub role : IsPlain s.role
  pub client : IsPlain s.client
  pub filedsn : IsPlain s.filedsn

-- What settings become that are given the values of others, where these have one.
abbrev pub given_again : (s fresh : Settings) → Settings
given_again s fresh = record fresh {
  dsn = or_read s.dsn fresh.dsn;
  driver = or_read s.driver fresh.driver;
  database_name = or_read s.database_name fresh.database_name;
  charset = or_read s.charset fresh.charset;
  password = or_read s.password fresh.password;
  account = or_read s.account fresh.account;
  role = or_read s.role fresh.role;
  client = or_read s.client fresh.client;
  filedsn = or_read s.filedsn fresh.filedsn;
}

abbrev all_attributes : Settings → List Attribute
all_attributes s = (chars "DSN", s.dsn) ∷ (chars "Driver", s.driver) ∷ tail_attributes true s

attributes_again :
    (s fresh : Settings)
    → IsReturnable s
    → apply_attributes (given (all_attributes s)) (some fresh) ≡ some (given_again s fresh)
unfolding find_keyword apply_keyword same_text apply_attributes given
attributes_again s fresh w =
    attribute_again (chars "DSN") (λ v t. record t { dsn = or_read v t.dsn }) refl (λ t. refl)
      (λ c cs t. refl) s.dsn _ fresh w.dsn.whole
    ∙ attribute_again (chars "Driver") (λ v t. record t { driver = or_read v t.driver }) refl
        (λ t. refl) (λ c cs t. refl) s.driver _ _ w.driver.whole
    ∙ attribute_again (chars "Dbname")
        (λ v t. record t { database_name = or_read v t.database_name }) refl (λ t. refl)
        (λ c cs t. refl) s.database_name _ _ w.database_name.whole
    ∙ attribute_again (chars "CHARSET") (λ v t. record t { charset = or_read v t.charset }) refl
        (λ t. refl) (λ c cs t. refl) s.charset _ _ w.charset.whole
    ∙ password_again s.password _ _ w.password w.password_short w.password_whole
    ∙ attribute_again (chars "UID") (λ v t. record t { account = or_read v t.account }) refl
        (λ t. refl) (λ c cs t. refl) s.account _ _ w.account.whole
    ∙ attribute_again (chars "Role") (λ v t. record t { role = or_read v t.role }) refl (λ t. refl)
        (λ c cs t. refl) s.role _ _ w.role.whole
    ∙ attribute_again (chars "Client") (λ v t. record t { client = or_read v t.client }) refl
        (λ t. refl) (λ c cs t. refl) s.client _ _ w.client.whole
    ∙ attribute_again (chars "FILEDSN") (λ v t. record t { filedsn = or_read v t.filedsn }) refl
        (λ t. refl) (λ c cs t. refl) s.filedsn _ _ w.filedsn.whole

-- The keys are names, as a test finds.
unfoldable is_name : List ℕ → Bool
is_name [] = true
is_name (c ∷ cs) = not (c == 0 || c == equals || c == semicolon) && is_name cs

is_name-IsName : (cs : List ℕ) → is_name cs ≡ true → IsName cs
unfolding is_name
is_name-IsName [] h = IsName.nil
is_name-IsName (c ∷ cs) h = IsName.cons (ground arith) (is_name-IsName cs (ground arith))

is_name-IsKey :
    (c : ℕ) (cs : List ℕ)
    → is_name (c ∷ cs) ≡ true
    → ltb (length (c ∷ cs)) buffer_size ≡ true
    → IsKey (c ∷ cs)
is_name-IsKey c cs h short = key (is_name-IsName (c ∷ cs) h) (ground arith)

all_attributes-ArePlain : (s : Settings) → IsReturnable s → ArePlain (all_attributes s)
unfolding is_name
all_attributes-ArePlain s w = cons (is_name-IsKey _ _ refl refl) w.dsn (
    cons (is_name-IsKey _ _ refl refl) w.driver (
      cons (is_name-IsKey _ _ refl refl) w.database_name (
        cons (is_name-IsKey _ _ refl refl) w.charset (
          cons (is_name-IsKey _ _ refl refl) (returned-IsPlain s.password w.password_short) (
            cons (is_name-IsKey _ _ refl refl) w.account (
              cons (is_name-IsKey _ _ refl refl) w.role (
                cons (is_name-IsKey _ _ refl refl) w.client
                  (cons (is_name-IsKey _ _ refl refl) w.filedsn nil))))))))

-- The string that a connection returns to an application of ODBC 3 is read by another connection, which takes
-- from it the source, the driver, the database, the character set, the password, the account, the role, the
-- client library and the file of the first, where these are not empty, and keeps its own settings elsewhere. A
-- driver is named, no value has a semicolon or a terminator or starts with a space or a brace, and each of them
-- fits its buffer, as does the password when it is encoded.
pub set_attributes-return_string :
    (s fresh : Settings)
    → IsReturnable s
    → set_attributes fresh (read_attributes (return_string true s)) ≡ some (given_again s fresh)
unfolding return_string
set_attributes-return_string s fresh w =
    let text = head-printed s.dsn s.driver (tail_attributes true s) w.driven in
    let read = read_attributes-Prints (printed-Prints (all_attributes-ArePlain s w)) in
    ap (λ text. set_attributes fresh (read_attributes text)) text
    ∙ ap (set_attributes fresh) read
    ∙ attributes_again s fresh w
