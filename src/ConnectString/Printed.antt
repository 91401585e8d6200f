-- ===== src/ConnectString/Printed.antt =====
-- The attributes of the string that `OdbcConnection::sqlDriverConnect` returns, as they are written.
use firebird_odbc_driver.Base.{
  ℕ, ◌<◌, ◌≡◌, refl, false, List, [], ◌∷◌, ◌++◌, append_assoc, append-nil, if◌then◌else◌, length,
}
use mathlib.Core.Bool.{true≢false}
use firebird_odbc_driver.Diagnostics.Tables.{chars}
use firebird_odbc_driver.ConnectString.{equals, semicolon, Attribute, buffer_size}
use firebird_odbc_driver.ConnectString.RoundTrip.{IsName, Written, Prints}
use firebird_odbc_driver.ConnectString.Settings.{c_string}
use firebird_odbc_driver.ConnectString.Connect.{is_empty, assign, parts}

-- A value that can be returned: it is empty, or starts with no space and no brace, and has no semicolon and
-- no terminator; it fits its buffer.
pub record IsPlain (value : List ℕ) : Type 0 where
  pub written : Written value value
  pub whole : c_string value ≡ value
  pub short : length value < buffer_size

-- The attributes that have a value, and how they are written.
unfoldable pub given : List Attribute → List Attribute
given [] = []
given ((key, []) ∷ rest) = given rest
given ((key, c ∷ cs) ∷ rest) = (key, c ∷ cs) ∷ given rest

unfoldable pub printed : List Attribute → List ℕ
printed [] = []
printed ((key, []) ∷ rest) = printed rest
printed ((key, c ∷ cs) ∷ rest) = assign key (c ∷ cs) ++ semicolon ∷ printed rest

pub parts-printed :
    (attributes : List Attribute)
    → parts attributes ++ semicolon ∷ [] ≡ semicolon ∷ printed attributes
unfolding parts given printed
parts-printed [] = refl
parts-printed ((key, []) ∷ rest) = parts-printed rest
parts-printed ((key, c ∷ cs) ∷ rest) =
    rw (append_assoc (assign key (c ∷ cs)) (parts rest) (semicolon ∷ []), parts-printed rest) refl

-- A key, and attributes whose keys are names and whose values are plain.
pub data IsKey : List ℕ → Type 0 where
  key : {c : ℕ} {cs : List ℕ} → IsName (c ∷ cs) → length (c ∷ cs) < buffer_size → IsKey (c ∷ cs)

pub data ArePlain : List Attribute → Type 0 where
  nil : ArePlain []
  cons :
      {name value : List ℕ} {rest : List Attribute}
      → IsKey name
      → IsPlain value
      → ArePlain rest
      → ArePlain ((name, value) ∷ rest)

pub printed-Prints :
    {attributes : List Attribute}
    → ArePlain attributes
    → Prints (given attributes) (printed attributes)
unfolding given printed
printed-Prints nil = Prints.nil
printed-Prints (cons {value = []} k v w) = printed-Prints w
printed-Prints (cons {value = c ∷ cs} {rest = rest} (key {c = k} {cs = ks} n short) v w) =
    rw (append_assoc ks (equals ∷ c ∷ cs) (semicolon ∷ printed rest))
      (Prints.cons n short v.written v.short (printed-Prints w))

-- The head of the string, which is never without a driver.
pub head-printed :
    (dsn driver : List ℕ) (tail : List Attribute)
    → is_empty driver ≡ false
    → (if is_empty dsn
          then (if is_empty driver then [] else assign (chars "Driver") driver)
          else assign (chars "DSN") dsn ++ parts ((chars "Driver", driver) ∷ []))
        ++ (parts tail ++ semicolon ∷ [])
      ≡ printed ((chars "DSN", dsn) ∷ (chars "Driver", driver) ∷ tail)
unfolding printed parts
head-printed dsn [] tail e = absurd (true≢false e)
head-printed [] (d ∷ ds) tail e = rw (parts-printed tail) refl
head-printed (c ∷ cs) (d ∷ ds) tail e =
    let driver = assign (chars "Driver") (d ∷ ds) in
    let end = semicolon ∷ printed tail in
    rw
      (
        parts-printed tail,
        append-nil driver,
        append_assoc (assign (chars "DSN") (c ∷ cs)) (semicolon ∷ driver) end,
      )
      refl
