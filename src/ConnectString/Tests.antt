-- ===== src/ConnectString/Tests.antt =====
-- A connection string with a value in braces, and sources of data that hold one driver and one host.
use firebird_odbc_driver.Base.{
  Bool, not, ◌&&◌, length, ℕ, ◌≡◌, refl, ◌<◌, true, false, some, List, [], ◌∷◌, arith, ◌==◌,
}
use firebird_odbc_driver.Base.Int.{pos, negsuc}
use firebird_odbc_driver.Diagnostics.Tables.{chars, same_text}
use firebird_odbc_driver.ConnectString.{
  semicolon, read_attributes, read_loop, read_name, and_others, read_value, skip_spaces, read_until,
}
use firebird_odbc_driver.ConnectString.RoundTrip.{
  Without, IsName, Written, Prints, read_attributes-Prints,
}
use firebird_odbc_driver.ConnectString.Settings.{
  Keyword, DatabaseAccess, Given, Settings, c_string, apply_attributes, apply_keyword, password_of,
  find_keyword,
}
use firebird_odbc_driver.ConnectString.Connect.{
  Sources, expand, return_string, expand_from, parts, set_attributes, Request, connected,
  and_expand, sql_driver_connect,
}
use firebird_odbc_driver.ConnectString.Printed.{IsPlain}
use firebird_odbc_driver.ConnectString.Keeps.{Keeps}
use firebird_odbc_driver.ConnectString.Again.{IsReturnable, given_again}
use firebird_odbc_driver.ConnectString.Calls.{given_settings, sql_driver_connect-return_string}
use firebird_odbc_driver.Password.{encode, build_key, key_chars, make, to_letters}
use firebird_odbc_driver.Password.RoundTrip.{IsChars}
use firebird_odbc_driver.ConnectString.Kept.{Short, expand-Keeps}

-- "DB=a b;PWD={;};"
abbrev text : List ℕ
text = 68 ∷ 66 ∷ 61 ∷ 97 ∷ 32 ∷ 98 ∷ 59 ∷ 80 ∷ 87 ∷ 68 ∷ 61 ∷ 123 ∷ 59 ∷ 125 ∷ 59 ∷ []

text-Prints : Prints ((68 ∷ 66 ∷ [], 97 ∷ 32 ∷ 98 ∷ []) ∷ (80 ∷ 87 ∷ 68 ∷ [], 59 ∷ []) ∷ []) text
text-Prints =
    Prints.cons (IsName.cons refl (IsName.cons refl IsName.nil)) (omega arith)
      (Written.plain refl (Without.cons refl (Without.cons refl (Without.cons refl Without.nil))))
      (omega arith)
      (Prints.cons (IsName.cons refl (IsName.cons refl (IsName.cons refl IsName.nil))) (omega arith)
        (Written.braced (Without.cons refl Without.nil)) (omega arith) Prints.nil)

read_attributes-Prints_example :
    read_attributes text
    ≡ some ((68 ∷ 66 ∷ [], 97 ∷ 32 ∷ 98 ∷ []) ∷ (80 ∷ 87 ∷ 68 ∷ [], 59 ∷ []) ∷ [])
read_attributes-Prints_example = read_attributes-Prints text-Prints

abbrev host : Keyword → List ℕ
host Keyword.database = 104 ∷ []
host Keyword.user = 117 ∷ []
host Keyword.password = 112 ∷ []
host Keyword.read_only = 89 ∷ []
host Keyword.safe_thread = 78 ∷ []
host _ = []

abbrev sources : Sources
sources = record { read = λ dsn. host; read_file = λ filedsn. host }

abbrev given : Given
given = record {
  readonly_tpb = true;
  nowait_tpb = false;
  dialect = false;
  quoted = false;
  sensitive = false;
  autoquoted = false;
  safethread = false;
  compatmode = false;
  wirecompression = false;
}

-- A file that names no source, an account and an option given.
abbrev settings : Settings
settings = record {
  dsn = [];
  description = [];
  filedsn = 102 ∷ [];
  savedsn = [];
  database_name = [];
  database_access = DatabaseAccess.open_db;
  page_size = [];
  connection_timeout = pos 0;
  client = [];
  account = 97 ∷ [];
  password = [];
  role = [];
  charset = [];
  driver = 70 ∷ [];
  jdbc_driver = [];
  readonly_tpb = false;
  nowait_tpb = false;
  dialect3 = true;
  quoted_identifier = true;
  sensitive_identifier = false;
  auto_quoted_identifier = false;
  use_schema_identifier = [];
  lock_timeout = [];
  safe_thread = true;
  set_compat_bind = [];
  enable_compat_bind = true;
  enable_wire_compression = false;
  given = given;
  warned = false;
}

sources-Short : Short sources
sources-Short = (λ dsn. omega arith, λ filedsn. omega arith)

expand-Keeps_example : (t : Settings) × (expand sources settings ≡ some t) × Keeps settings t
expand-Keeps_example = expand-Keeps sources settings sources-Short

-- A call with "UID=b", where the file holds a database and a password, and what it connects with.
abbrev request : Request
request = record {
  connected = false;
  given_length = negsuc 2;
  no_window = false;
  text = 85 ∷ 73 ∷ 68 ∷ 61 ∷ 98 ∷ [];
  out_size = 200;
}

abbrev sent : Settings
sent = record settings {
  database_name = 104 ∷ [];
  account = 98 ∷ [];
  password = 112 ∷ [];
  driver = chars "Firebird ODBC Driver";
  jdbc_driver = chars "IscDbc";
  safe_thread = false;
}

empty-IsPlain : IsPlain []
unfolding c_string
empty-IsPlain = record { written = Written.empty; whole = refl; short = omega arith }

one-IsPlain : (c : ℕ) → (64 < c) → (c < 123) → IsPlain (c ∷ [])
unfolding c_string
one-IsPlain c low high = record {
  written = Written.plain (ground arith) (Without.cons (ground arith) Without.nil);
  whole = let e : (c == 0) ≡ false = ground arith in rw e refl;
  short = omega arith;
}

is_without : (c : ℕ) → List ℕ → Bool
is_without c [] = true
is_without c (d ∷ ds) = not (d == c) && is_without c ds

is_without-Without : (c : ℕ) (ds : List ℕ) → is_without c ds ≡ true → Without c ds
unfolding is_without
is_without-Without c [] h = Without.nil
is_without-Without c (d ∷ ds) h =
    Without.cons (ground arith) (is_without-Without c ds (ground arith))

sent-IsReturnable : IsReturnable sent
unfolding c_string is_without
sent-IsReturnable = record {
  dsn = empty-IsPlain;
  driver = record {
    written = Written.plain refl (is_without-Without semicolon _ refl);
    whole = refl;
    short = omega arith;
  };
  driven = refl;
  database_name = one-IsPlain 104 (omega arith) (omega arith);
  charset = empty-IsPlain;
  password = IsChars.cons (omega arith) IsChars.nil;
  password_short = omega arith;
  password_whole = refl;
  account = one-IsPlain 98 (omega arith) (omega arith);
  role = empty-IsPlain;
  client = empty-IsPlain;
  filedsn = one-IsPlain 102 (omega arith) (omega arith);
}

sent-expanded : and_expand sources (given_settings settings request) ≡ some sent
unfolding expand read_attributes read_loop read_name and_others read_value skip_spaces read_until
    apply_attributes apply_keyword expand_from password_of find_keyword same_text c_string
sent-expanded = refl

length-sent : length (return_string true sent) ≡ 140
unfolding return_string parts encode build_key key_chars make to_letters
length-sent = refl

sql_driver_connect-return_string_example :
    (sql_driver_connect sources (λ s. true) true settings request
      ≡ connected sent (return_string true sent) true)
    × (set_attributes settings (read_attributes (return_string true sent))
        ≡ some (given_again sent settings))
sql_driver_connect-return_string_example =
    sql_driver_connect-return_string sources (λ s. true) settings sent settings request refl refl
      refl sent-expanded refl sent-IsReturnable (omega (arith, length-sent))
      (omega (arith, length-sent))
