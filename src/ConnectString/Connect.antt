-- ===== src/ConnectString/Connect.antt =====
-- `OdbcConnection::sqlDriverConnect` of OdbcConnection.cpp, with `expandConnectParameters` and the connection string that
-- is returned. What the sources of data hold and whether `connect` succeeds are parameters; the dialogue of
-- Windows and the saving of a data source are left out.
use firebird_odbc_driver.Base.{
  ℕ, ◌-◌, Bool, true, false, not, ◌&&◌, ◌||◌, Option, none, some, List, [], ◌∷◌, ◌++◌, leb, ltb,
  ◌==◌, if◌then◌else◌, length, take,
}
use firebird_odbc_driver.Base.Int.{ℤ, pos, negsuc}
use firebird_odbc_driver.Diagnostics.Tables.{chars}
use firebird_odbc_driver.Password.{encode}
use firebird_odbc_driver.ConnectString.{Attribute, equals, semicolon, read_attributes}
use firebird_odbc_driver.ConnectString.Settings.{
  Keyword, Settings, starts_with, password_of, with_password, apply_attributes,
}

abbrev pub is_empty : List ℕ → Bool
is_empty [] = true
is_empty (c ∷ cs) = false

abbrev pub or_read : (text read : List ℕ) → List ℕ
or_read text read = if is_empty text then read else text

-- A branch of `expandConnectParameters`: `read` answers an attribute of the source, and `read_flag` three of
-- the options, which the branch of a file asks of the other kind of source.
unfoldable pub expand_from : (read read_flag : Keyword → List ℕ) → Settings → Option Settings
expand_from read read_flag s =
    let expanded : Settings = record s {
      description = or_read s.description (read Keyword.description);
      enable_compat_bind =
          if not s.given.compatmode && starts_with 78 (read Keyword.enable_compat_bind)
          then false
          else s.enable_compat_bind;
      set_compat_bind = or_read s.set_compat_bind (read Keyword.set_compat_bind);
      enable_wire_compression =
          if not s.given.wirecompression && starts_with 89 (read Keyword.wire_compression)
          then true
          else s.enable_wire_compression;
      database_name = or_read s.database_name (read Keyword.database);
      client = or_read s.client (read Keyword.client);
      account = or_read s.account (read Keyword.user);
      jdbc_driver = or_read s.jdbc_driver (read Keyword.jdbc_driver);
      role = or_read s.role (read Keyword.role);
      charset = or_read s.charset (read Keyword.charset);
      readonly_tpb =
          if not s.given.readonly_tpb && starts_with 89 (read Keyword.read_only)
          then true
          else s.readonly_tpb;
      nowait_tpb =
          if not s.given.nowait_tpb && starts_with 89 (read Keyword.no_wait)
          then true
          else s.nowait_tpb;
      dialect3 =
          if not s.given.dialect && starts_with 49 (read Keyword.dialect)
          then false
          else s.dialect3;
      use_schema_identifier = or_read s.use_schema_identifier (read Keyword.use_schema);
      lock_timeout = or_read s.lock_timeout (read Keyword.lock_timeout);
      safe_thread =
          if not s.given.safethread && starts_with 78 (read_flag Keyword.safe_thread)
          then false
          else s.safe_thread;
      quoted_identifier =
          if not s.given.quoted && starts_with 78 (read Keyword.quoted)
          then false
          else s.quoted_identifier;
      sensitive_identifier =
          if not s.given.sensitive && starts_with 89 (read_flag Keyword.sensitive)
          then true
          else s.sensitive_identifier;
      auto_quoted_identifier =
          if not s.given.autoquoted && starts_with 89 (read_flag Keyword.auto_quoted)
          then true
          else s.auto_quoted_identifier;
    } in
    with_password expanded
      (if is_empty s.password then password_of (read Keyword.password) else some s.password)

-- What the sources of data hold: `readAttribute` of a name, and `readAttributeFileDSN` of a file.
pub record Sources : Type 0 where
  pub read : (dsn : List ℕ) → Keyword → List ℕ
  pub read_file : (filedsn : List ℕ) → Keyword → List ℕ

abbrev default_driver : Settings → Settings
default_driver s = record s { jdbc_driver = or_read s.jdbc_driver (chars "IscDbc") }

abbrev pub and_default : Option Settings → Option Settings
and_default none = none
and_default (some s) = some (default_driver s)

-- The name of a source that a file has given, which is expanded too.
abbrev pub expand_named : Sources → Option Settings → Option Settings
expand_named sources none = none
expand_named sources (some s) =
    let named : Settings = record s { dsn = sources.read_file s.filedsn Keyword.dsn } in
    if is_empty named.dsn
    then some named
    else and_default (expand_from (sources.read named.dsn) (sources.read named.dsn) named)

-- `expandConnectParameters`
unfoldable pub expand : Sources → Settings → Option Settings
expand sources s =
    let named = expand_from (sources.read s.dsn) (sources.read s.dsn) s in
    let filed = expand_from (sources.read_file s.filedsn) (sources.read s.dsn) s in
    and_default (
      if not (is_empty s.dsn)
      then named
      else if not (is_empty s.filedsn)
      then expand_named sources filed
      else some s)

-- `appendString` of a keyword and its value.
abbrev pub assign : (key value : List ℕ) → List ℕ
assign key value = key ++ equals ∷ value

-- The values that are not empty, each behind a semicolon.
unfoldable pub parts : List Attribute → List ℕ
parts [] = []
parts ((key, value) ∷ rest) =
    let others = parts rest in
    if is_empty value then others else semicolon ∷ (assign key value ++ others)

-- `DSN` and `Driver`, which come first.
abbrev pub head_parts : Settings → List ℕ
head_parts s =
    if is_empty s.dsn
    then (if is_empty s.driver then [] else assign (chars "Driver") s.driver)
    else assign (chars "DSN") s.dsn ++ parts ((chars "Driver", s.driver) ∷ [])

-- The password as it is returned, to an application of ODBC 3 encoded.
abbrev pub returned_password : (odbc3 : Bool) → List ℕ → List ℕ
returned_password odbc3 [] = []
returned_password odbc3 (c ∷ cs) = if odbc3 then encode (c ∷ cs) else c ∷ cs

abbrev pub tail_attributes : (odbc3 : Bool) → Settings → List Attribute
tail_attributes odbc3 s =
    (chars "Dbname", s.database_name)
    ∷ (chars "CHARSET", s.charset)
    ∷ (chars "PWD", returned_password odbc3 s.password)
    ∷ (chars "UID", s.account)
    ∷ (chars "Role", s.role)
    ∷ (chars "Client", s.client)
    ∷ (chars "FILEDSN", s.filedsn)
    ∷ []

unfoldable pub return_string : (odbc3 : Bool) → Settings → List ℕ
unfolding parts
return_string odbc3 s = head_parts s ++ (parts (tail_attributes odbc3 s) ++ semicolon ∷ [])

-- The call: whether the handle is connected, the length it gives (SQL_NTS is -3), and whether it asks for a
-- prompt without a window. Without a buffer the size is 0.
pub record Request : Type 0 where
  pub connected : Bool
  pub given_length : ℤ
  pub no_window : Bool
  pub text : List ℕ
  pub out_size : ℕ

-- A length below 0 but SQL_NTS.
abbrev pub is_bad_length : ℤ → Bool
is_bad_length (pos n) = false
is_bad_length (negsuc n) = not (n == 2)

-- The states 08002, HY090 and HY092; a use of memory that the language leaves undefined; a connection that
-- the database refused; and one that is made, with the string that is stored and whether all of it is.
pub data Connected : Type 0 where
  name_in_use : Connected
  invalid_length : Connected
  invalid_option : Connected
  undefined : Connected
  failed : Settings → Connected
  connected : Settings → List ℕ → (whole : Bool) → Connected

-- The buffers of the returned string and of the encoded password.
abbrev pub fits_buffers : (odbc3 : Bool) → Settings → Bool
fits_buffers odbc3 s =
    ltb (length (return_string odbc3 s)) 1024
    && (not odbc3 || ltb (length (returned_password odbc3 s.password)) 256)

-- What is written before the connection is tried, without a terminator.
abbrev pub first_parts : Settings → List ℕ
first_parts s =
    head_parts s ++ parts ((chars "Dbname", s.database_name) ∷ (chars "CHARSET", s.charset) ∷ [])

abbrev pub finish : (connects odbc3 : Bool) (out_size : ℕ) → Settings → Connected
finish connects odbc3 out_size s =
    let text = return_string odbc3 s in
    if not (leb (length (first_parts s)) 1024)
    then undefined
    else if not connects
    then failed s
    else if out_size == 0
    then connected s [] true
    else if not (fits_buffers odbc3 s)
    then undefined
    else connected s (take (out_size - 1) text) (ltb (length text) out_size)

abbrev pub after_expand :
    (connects : Settings → Bool) (odbc3 : Bool) (out_size : ℕ) → Option Settings → Connected
after_expand connects odbc3 out_size none = undefined
after_expand connects odbc3 out_size (some s) = finish (connects s) odbc3 out_size s

abbrev pub and_expand : Sources → Option Settings → Option Settings
and_expand sources none = none
and_expand sources (some s) = expand sources s

abbrev pub set_attributes : Settings → Option (List Attribute) → Option Settings
set_attributes s none = none
set_attributes s (some attributes) = apply_attributes attributes (some s)

unfoldable pub sql_driver_connect :
    Sources → (connects : Settings → Bool) (odbc3 : Bool) → Settings → Request → Connected
sql_driver_connect sources connects odbc3 s r =
    let start : Settings = record s { driver = chars "Firebird ODBC Driver"; warned = false } in
    if r.connected
    then name_in_use
    else if is_bad_length r.given_length
    then invalid_length
    else if r.no_window
    then invalid_option
    else after_expand connects odbc3 r.out_size
        (and_expand sources (set_attributes start (read_attributes r.text)))
