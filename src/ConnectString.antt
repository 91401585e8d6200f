-- ===== src/ConnectString.antt =====
-- The attributes of a connection string, as `OdbcConnection::sqlDriverConnect` of OdbcConnection.cpp reads them.
-- A text is the list of its chars up to `end`. What stands at `end` may be read, and changes nothing.
pub mod RoundTrip
pub mod Settings
pub mod Connect
pub mod Keeps
pub mod Kept
pub mod Printed
pub mod Again
pub mod Calls
mod Tests
use firebird_odbc_driver.Base.{
  ℕ, zero, suc, Bool, true, false, ◌||◌, Option, none, some, List, [], ◌∷◌, ◌++◌, leb, ◌==◌,
  if◌then◌else◌, length,
}

abbrev pub equals : ℕ
equals = 61

abbrev pub semicolon : ℕ
semicolon = 59

abbrev pub space : ℕ
space = 32

abbrev pub open_brace : ℕ
open_brace = 123

abbrev pub close_brace : ℕ
close_brace = 125

-- What the loop over a name gives: the name, whether it ended at '=', and what is behind.
pub record Name : Type 0 where
  pub text : List ℕ
  pub has_value : Bool
  pub behind : List ℕ

unfoldable pub read_name : List ℕ → Name
read_name [] = record { text = []; has_value = false; behind = [] }
read_name (c ∷ p) =
    let rest = read_name p in
    if c == 0 || c == equals || c == semicolon
    then record { text = []; has_value = c == equals; behind = p }
    else record rest { text = c ∷ rest.text }

unfoldable pub skip_spaces : List ℕ → List ℕ
skip_spaces [] = []
skip_spaces (c ∷ p) = let rest = skip_spaces p in if c == space then rest else c ∷ p

-- The chars up to the terminator, and what is behind it.
unfoldable pub read_until : (term : ℕ) → List ℕ → List ℕ × List ℕ
read_until term [] = ([], [])
read_until term (c ∷ p) =
    let (text, behind) = read_until term p in if c == term then ([], p) else (c ∷ text, behind)

abbrev pub read_braced : List ℕ → List ℕ × List ℕ
read_braced p =
    let (text, behind) = read_until close_brace p in (text, (read_until semicolon behind).1)

abbrev pub read_plain : List ℕ → List ℕ × List ℕ
read_plain [] = ([], [])
read_plain (c ∷ p) = if c == open_brace then read_braced p else read_until semicolon (c ∷ p)

unfoldable pub read_value : List ℕ → List ℕ × List ℕ
read_value p = read_plain (skip_spaces p)

-- `char name [256]` and `char value [256]`, with their terminators.
abbrev pub buffer_size : ℕ
buffer_size = 256

abbrev pub Attribute : Type 0
Attribute = List ℕ × List ℕ

-- An attribute before others, unless it overruns a buffer.
unfoldable pub and_others : Attribute → Option (List Attribute) → Option (List Attribute)
and_others (name, value) none = none
and_others (name, value) (some others) =
    if leb buffer_size (length name) || leb buffer_size (length value)
    then none
    else some ((name, value) ∷ others)

-- One round for each attribute, and each round reads a char. A name without chars is passed over.
unfoldable pub read_loop : (fuel : ℕ) → List ℕ → Option (List Attribute)
read_loop zero p = some []
read_loop (suc fuel) [] = some []
read_loop (suc fuel) (c ∷ p) =
    let name = read_name (c ∷ p) in
    let (value, behind) = read_value name.behind in
    let past_name = read_loop fuel name.behind in
    let past_value = read_loop fuel behind in
    if length name.text == 0
    then past_name
    else if name.has_value
    then and_others (name.text, value) past_value
    else and_others (name.text, []) past_name

unfoldable pub read_attributes : List ℕ → Option (List Attribute)
read_attributes p = read_loop (length p) p
