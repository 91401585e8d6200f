-- ===== src/ConnectString/RoundTrip.antt =====
-- Connection strings that are printed and read again by OdbcConnection.cpp.
use firebird_odbc_driver.Base.{
  ℕ, zero, suc, ◌≤◌, ◌<◌, ◌≡◌, refl, true, false, ◌||◌, some, List, [], ◌∷◌, ◌++◌, append_assoc,
  arith, leb, ◌==◌, length, length-append,
}
use firebird_odbc_driver.ConnectString.{
  equals, semicolon, space, open_brace, close_brace, read_name, skip_spaces, read_until, read_value,
  buffer_size, Attribute, and_others, read_loop, read_attributes,
}

-- A text without a char, and a name, which ends at no char of its own.
pub data Without (c : ℕ) : List ℕ → Type 0 where
  nil : Without c []
  cons : {d : ℕ} {ds : List ℕ} → (d == c) ≡ false → Without c ds → Without c (d ∷ ds)

pub data IsName : List ℕ → Type 0 where
  nil : IsName []
  cons :
      {d : ℕ} {ds : List ℕ}
      → (d == 0 || d == equals || d == semicolon) ≡ false
      → IsName ds
      → IsName (d ∷ ds)

read_name-equals :
    {name : List ℕ} (behind : List ℕ)
    → IsName name
    → read_name (name ++ equals ∷ behind)
      ≡ record { text = name; has_value = true; behind = behind }
unfolding read_name
read_name-equals behind nil = refl
read_name-equals behind (cons h w) = rw (h, read_name-equals behind w) refl

read_until-term :
    (term : ℕ) {text : List ℕ} (behind : List ℕ)
    → Without term text
    → read_until term (text ++ term ∷ behind) ≡ (text, behind)
unfolding read_until
read_until-term term behind nil = let e : (term == term) ≡ true = ground arith in rw e refl
read_until-term term behind (cons h w) = rw (h, read_until-term term behind w) refl

-- A value as it may be written: plain, or in braces.
pub data Written : List ℕ → List ℕ → Type 0 where
  empty : Written [] []
  plain :
      {c : ℕ} {value : List ℕ}
      → (c == space || c == open_brace) ≡ false
      → Without semicolon (c ∷ value)
      → Written (c ∷ value) (c ∷ value)
  braced :
      {value : List ℕ}
      → Without close_brace value
      → Written value (open_brace ∷ (value ++ close_brace ∷ []))

read_value-Written :
    {value text : List ℕ} (behind : List ℕ)
    → Written value text
    → read_value (text ++ semicolon ∷ behind) ≡ (value, behind)
unfolding read_value skip_spaces read_until
read_value-Written behind empty = refl
read_value-Written behind (plain {c} {value} h w) =
    let s : (c == space) ≡ false = ground arith in
    let b : (c == open_brace) ≡ false = ground arith in
    rw (s, b) (read_until-term semicolon behind w)
read_value-Written behind (braced {value} w) =
    let e = append_assoc value (close_brace ∷ []) (semicolon ∷ behind) in
    rw (e, read_until-term close_brace (semicolon ∷ behind) w) refl

-- Attributes and a string that writes them, each with a semicolon behind it.
pub data Prints : List Attribute → List ℕ → Type 0 where
  nil : Prints [] []
  cons :
      {c : ℕ} {name value text rest : List ℕ} {others : List Attribute}
      → IsName (c ∷ name)
      → length (c ∷ name) < buffer_size
      → Written value text
      → length value < buffer_size
      → Prints others rest
      → Prints ((c ∷ name, value) ∷ others) (c ∷ (name ++ equals ∷ (text ++ semicolon ∷ rest)))

and_others-fits :
    (name value : List ℕ) (others : List Attribute)
    → length name < buffer_size
    → length value < buffer_size
    → and_others (name, value) (some others) ≡ some ((name, value) ∷ others)
unfolding and_others
and_others-fits name value others short small =
    let fits : (leb 256 (length name) || leb 256 (length value)) ≡ false = ground arith in
    rw fits refl

read_loop-Prints :
    {attributes : List Attribute} {text : List ℕ} (fuel : ℕ)
    → Prints attributes text
    → length text ≤ fuel
    → read_loop fuel text ≡ some attributes
unfolding read_loop
read_loop-Prints zero nil h = refl
read_loop-Prints (suc fuel) nil h = refl
read_loop-Prints zero (cons name short written small others) h = absurd (omega arith)
read_loop-Prints (suc fuel) (cons {c} {name} {value} {text} {rest} {others} n short w small p) h =
    let behind = text ++ semicolon ∷ rest in
    let size : length rest ≤ fuel =
      omega (arith, length-append name (equals ∷ behind), length-append text (semicolon ∷ rest)) in
    let long : (length (c ∷ name) == 0) ≡ false = ground arith in
    rw (read_name-equals behind n, long, read_value-Written rest w, read_loop-Prints fuel p size)
      (and_others-fits (c ∷ name) value others short small)

-- A connection string reads as the attributes that it writes, in order, whether a value is plain or in
-- braces, when every name and value fits its buffer. A plain value has no semicolon, and starts neither
-- with a space nor with a brace; a value in braces may have any char but the closing brace; a name has
-- chars, none of which ends a name.
pub read_attributes-Prints :
    {attributes : List Attribute} {text : List ℕ}
    → Prints attributes text
    → read_attributes text ≡ some attributes
unfolding read_attributes
read_attributes-Prints {text} p = read_loop-Prints (length text) p (omega arith)
