-- ===== src/ConnectString/Settings.antt =====
-- What the attributes of a connection string set in an `OdbcConnection`: the keywords of SetupAttributes.h and the
-- branches of `sqlDriverConnect` in OdbcConnection.cpp. A text is a C string, cut at its terminator.
use firebird_odbc_driver.Base.{
  ℕ, ◌+◌, ◌-◌, ◌*◌, Bool, true, false, ◌&&◌, Option, none, some, List, [], ◌∷◌, leb, ltb, ◌==◌,
  if◌then◌else◌, length,
}
use firebird_odbc_driver.Base.Int.{ℤ, pos}
use firebird_odbc_driver.Diagnostics.Tables.{chars, same_text, minus}
use firebird_odbc_driver.Password.{Decoded, untouched, stored, negative_copy, decode}
use firebird_odbc_driver.ConnectString.{Attribute, skip_spaces}

pub data Keyword : Type 0 where
  dsn : Keyword
  description : Keyword
  filedsn : Keyword
  savedsn : Keyword
  database : Keyword
  create_db : Keyword
  drop_db : Keyword
  page_size : Keyword
  timeout : Keyword
  client : Keyword
  user : Keyword
  password : Keyword
  role : Keyword
  charset : Keyword
  driver : Keyword
  jdbc_driver : Keyword
  read_only : Keyword
  dialect : Keyword
  no_wait : Keyword
  quoted : Keyword
  sensitive : Keyword
  auto_quoted : Keyword
  use_schema : Keyword
  lock_timeout : Keyword
  safe_thread : Keyword
  set_compat_bind : Keyword
  enable_compat_bind : Keyword
  wire_compression : Keyword
  odbc : Keyword

-- The tests of the branches, in their order.
abbrev pub keywords : List (List ℕ × Keyword)
keywords =
    (chars "DSN", dsn)
    ∷ (chars "Description", description)
    ∷ (chars "FILEDSN", filedsn)
    ∷ (chars "SAVEDSN", savedsn)
    ∷ (chars "DATABASE", database)
    ∷ (chars "Dbname", database)
    ∷ (chars "DbnameAlways", create_db)
    ∷ (chars "CREATE_DB", create_db)
    ∷ (chars "DROP_DB", drop_db)
    ∷ (chars "PageSize", page_size)
    ∷ (chars "Timeout", timeout)
    ∷ (chars "Client", client)
    ∷ (chars "UID", user)
    ∷ (chars "User", user)
    ∷ (chars "PWD", password)
    ∷ (chars "Password", password)
    ∷ (chars "Role", role)
    ∷ (chars "CHARSET", charset)
    ∷ (chars "CharacterSet", charset)
    ∷ (chars "Driver", driver)
    ∷ (chars "JDBC_DRIVER", jdbc_driver)
    ∷ (chars "JdbcDriver", jdbc_driver)
    ∷ (chars "ReadOnly", read_only)
    ∷ (chars "Dialect", dialect)
    ∷ (chars "NoWait", no_wait)
    ∷ (chars "QUOTED", quoted)
    ∷ (chars "QuotedIdentifier", quoted)
    ∷ (chars "SENSITIVE", sensitive)
    ∷ (chars "SensitiveIdentifier", sensitive)
    ∷ (chars "AUTOQUOTED", auto_quoted)
    ∷ (chars "AutoQuotedIdentifier", auto_quoted)
    ∷ (chars "USESCHEMA", use_schema)
    ∷ (chars "UseSchemaIdentifier", use_schema)
    ∷ (chars "LOCKTIMEOUT", lock_timeout)
    ∷ (chars "LockTimeoutWaitTransactions", lock_timeout)
    ∷ (chars "SAFETHREAD", safe_thread)
    ∷ (chars "SafeThread", safe_thread)
    ∷ (chars "SetCompatBind", set_compat_bind)
    ∷ (chars "SETCOMPATBIND", set_compat_bind)
    ∷ (chars "EnableCompatBind", enable_compat_bind)
    ∷ (chars "ENABLECOMPATBIND", enable_compat_bind)
    ∷ (chars "EnableWireCompression", wire_compression)
    ∷ (chars "ENABLEWIRECOMPRESSION", wire_compression)
    ∷ (chars "ODBC", odbc)
    ∷ []

-- `IS_KEYWORD`
abbrev pub is_keyword : List ℕ → List ℕ → Bool
is_keyword name keyword = length name == length keyword && same_text (length keyword) name keyword

unfoldable pub find_keyword : List (List ℕ × Keyword) → List ℕ → Option Keyword
unfolding same_text
find_keyword [] name = none
find_keyword ((text, keyword) ∷ rest) name =
    if is_keyword name text then some keyword else find_keyword rest name

pub data DatabaseAccess : Type 0 where
  open_db : DatabaseAccess
  create : DatabaseAccess
  drop : DatabaseAccess

-- The bits of `defOptions`: the options that the connection string gives.
pub record Given : Type 0 where
  pub readonly_tpb : Bool
  pub nowait_tpb : Bool
  pub dialect : Bool
  pub quoted : Bool
  pub sensitive : Bool
  pub autoquoted : Bool
  pub safethread : Bool
  pub compatmode : Bool
  pub wirecompression : Bool

-- `optTpb` is `readonly_tpb` and `nowait_tpb`; `warned` that 01S00 was posted. `driver` is a local variable.
pub record Settings : Type 0 where
  pub dsn : List ℕ
  pub description : List ℕ
  pub filedsn : List ℕ
  pub savedsn : List ℕ
  pub database_name : List ℕ
  pub database_access : DatabaseAccess
  pub page_size : List ℕ
  pub connection_timeout : ℤ
  pub client : List ℕ
  pub account : List ℕ
  pub password : List ℕ
  pub role : List ℕ
  pub charset : List ℕ
  pub driver : List ℕ
  pub jdbc_driver : List ℕ
  pub readonly_tpb : Bool
  pub nowait_tpb : Bool
  pub dialect3 : Bool
  pub quoted_identifier : Bool
  pub sensitive_identifier : Bool
  pub auto_quoted_identifier : Bool
  pub use_schema_identifier : List ℕ
  pub lock_timeout : List ℕ
  pub safe_thread : Bool
  pub set_compat_bind : List ℕ
  pub enable_compat_bind : Bool
  pub enable_wire_compression : Bool
  pub given : Given
  pub warned : Bool

-- The chars before the terminator.
unfoldable pub c_string : List ℕ → List ℕ
c_string [] = []
c_string (c ∷ cs) = let rest = c_string cs in if c == 0 then [] else c ∷ rest

-- `*value == c`
abbrev pub starts_with : ℕ → List ℕ → Bool
starts_with c [] = false
starts_with c (d ∷ ds) = d == c

-- The digits of `atoi`, behind a number.
unfoldable pub number_of : (before : ℕ) → List ℕ → ℕ
number_of before [] = before
number_of before (c ∷ cs) =
    let rest = number_of (before * 10 + (c - 48)) cs in
    if leb 48 c && leb c 57 then rest else before

-- `atoi`, with no white space but spaces before the number.
unfoldable pub atoi : List ℕ → ℤ
unfolding number_of skip_spaces
atoi value = signed (skip_spaces value)
  where
    signed : List ℕ → ℤ
    signed [] = pos 0
    signed (c ∷ cs) =
        if c == 45
        then minus (number_of 0 cs)
        else if c == 43
        then pos (number_of 0 cs)
        else pos (number_of 0 (c ∷ cs))

-- The password that a value means: one of more than 40 chars is decoded. A buffer that `decode` leaves
-- alone is read without a value.
abbrev pub decoded_text : Decoded → Option (List ℕ)
decoded_text untouched = none
decoded_text negative_copy = none
decoded_text (stored text) = some (c_string text)

unfoldable pub password_of : List ℕ → Option (List ℕ)
unfolding c_string
password_of value = if ltb 40 (length value) then decoded_text (decode value) else some value

abbrev pub with_password : Settings → Option (List ℕ) → Option Settings
with_password s none = none
with_password s (some text) = some (record s { password = text })

unfoldable pub apply_keyword : Keyword → List ℕ → Settings → Option Settings
unfolding c_string atoi
apply_keyword dsn value s = some (record s { dsn = value })
apply_keyword description value s = some (record s { description = value })
apply_keyword filedsn value s = some (record s { filedsn = value })
apply_keyword savedsn value s = some (record s { savedsn = value })
apply_keyword database value s = some (record s { database_name = value })
apply_keyword create_db value s =
    some (record s { database_name = value; database_access = create })
apply_keyword drop_db value s = some (record s { database_name = value; database_access = drop })
apply_keyword page_size value s = some (record s { page_size = value })
apply_keyword timeout value s = some (record s { connection_timeout = atoi value })
apply_keyword client value s = some (record s { client = value })
apply_keyword user value s = some (record s { account = value })
apply_keyword password value s = with_password s (password_of value)
apply_keyword role value s = some (record s { role = value })
apply_keyword charset value s = some (record s { charset = value })
apply_keyword driver value s = some (record s { driver = value })
apply_keyword jdbc_driver value s = some (record s { jdbc_driver = value })
apply_keyword read_only value s = some (record s {
  readonly_tpb = if starts_with 89 value then true else s.readonly_tpb;
  given = record s.given { readonly_tpb = true };
})
apply_keyword dialect value s = some (record s {
  dialect3 = if starts_with 49 value then false else s.dialect3;
  given = record s.given { dialect = true };
})
apply_keyword no_wait value s = some (record s {
  nowait_tpb = if starts_with 89 value then true else s.nowait_tpb;
  given = record s.given { nowait_tpb = true };
})
apply_keyword quoted value s = some (record s {
  quoted_identifier = if starts_with 78 value then false else s.quoted_identifier;
  given = record s.given { quoted = true };
})
apply_keyword sensitive value s = some (record s {
  sensitive_identifier = if starts_with 89 value then true else s.sensitive_identifier;
  given = record s.given { sensitive = true };
})
apply_keyword auto_quoted value s = some (record s {
  auto_quoted_identifier = if starts_with 89 value then true else s.auto_quoted_identifier;
  given = record s.given { autoquoted = true };
})
apply_keyword use_schema value s = some (record s { use_schema_identifier = value })
apply_keyword lock_timeout value s = some (record s { lock_timeout = value })
apply_keyword safe_thread value s = some (record s {
  safe_thread = if starts_with 78 value then false else s.safe_thread;
  given = record s.given { safethread = true };
})
apply_keyword set_compat_bind value s = some (record s { set_compat_bind = value })
apply_keyword enable_compat_bind value s = some (record s {
  enable_compat_bind = if starts_with 78 value then false else s.enable_compat_bind;
  given = record s.given { compatmode = true };
})
apply_keyword wire_compression value s = some (record s {
  enable_wire_compression = if starts_with 78 value then false else s.enable_wire_compression;
  given = record s.given { wirecompression = true };
})
apply_keyword odbc value s = some s

abbrev pub apply_found : Option Keyword → List ℕ → Settings → Option Settings
apply_found none value s = some (record s { warned = true })
apply_found (some keyword) value s = apply_keyword keyword value s

-- The settings that attributes leave, none when a password has no value. Every value is read as a C string.
unfoldable pub apply_attributes : List Attribute → Option Settings → Option Settings
unfolding c_string find_keyword
apply_attributes [] s = s
apply_attributes (attribute ∷ rest) none = none
apply_attributes ((name, value) ∷ rest) (some s) =
    apply_attributes rest (apply_found (find_keyword keywords name) (c_string value) s)
