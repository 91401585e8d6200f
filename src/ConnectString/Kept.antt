-- ===== src/ConnectString/Kept.antt =====
-- What a connection string gives stands against the sources of data, in `expandConnectParameters` of OdbcConnection.cpp.
use firebird_odbc_driver.Base.{
  ℕ, ◌≡◌, refl, sym, ap, inl, inr, true, false, Option, none, some, List, [], ◌∷◌, if◌then◌else◌,
  Bool-cases, arith, ltb, length, ◌≤◌,
}
use firebird_odbc_driver.ConnectString.Settings.{Keyword, Settings, with_password, password_of}
use firebird_odbc_driver.Diagnostics.Tables.{chars}
use firebird_odbc_driver.ConnectString.Connect.{
  or_read, Sources, is_empty, expand_from, expand_named, and_default, expand,
}
use firebird_odbc_driver.ConnectString.Keeps.{
  KeepsText, Keeps, or_read-Keeps, flag-Keeps, Keeps-trans, Keeps-refl,
}

-- Sources whose passwords are not decoded.
abbrev pub Short : Sources → Type 0
Short sources =
    ((dsn : List ℕ) → length (sources.read dsn Keyword.password) ≤ 40)
    × ((filedsn : List ℕ) → length (sources.read_file filedsn Keyword.password) ≤ 40)

-- Settings that are there, and kept.
data Kept (s : Settings) : Option Settings → Type 0 where
  kept : {t : Settings} → Keeps s t → Kept s (some t)

password-Keeps :
    (s t : Settings) (text : List ℕ)
    → Keeps s t
    → KeepsText s.password text
    → Keeps s (record t { password = text })
password-Keeps s t text h k = record {
  given = h.given;
  dsn = h.dsn;
  database_name = h.database_name;
  client = h.client;
  account = h.account;
  password = k;
  role = h.role;
  charset = h.charset;
  jdbc_driver = h.jdbc_driver;
  description = h.description;
  set_compat_bind = h.set_compat_bind;
  use_schema_identifier = h.use_schema_identifier;
  lock_timeout = h.lock_timeout;
  filedsn = h.filedsn;
  savedsn = h.savedsn;
  page_size = h.page_size;
  driver = h.driver;
  readonly_tpb = h.readonly_tpb;
  nowait_tpb = h.nowait_tpb;
  dialect = h.dialect;
  quoted = h.quoted;
  sensitive = h.sensitive;
  autoquoted = h.autoquoted;
  safethread = h.safethread;
  compatmode = h.compatmode;
  wirecompression = h.wirecompression;
}

with_password-Kept :
    (s t : Settings) (password read : List ℕ)
    → s.password ≡ password
    → Keeps s t
    → Kept s (with_password t (if is_empty password then some read else some password))
with_password-Kept s t [] read e h = kept (password-Keeps s t read h (inl (ap is_empty e)))
with_password-Kept s t (c ∷ cs) read e h = kept (password-Keeps s t (c ∷ cs) h (inr (sym e)))

password_of-short : (text : List ℕ) → length text ≤ 40 → password_of text ≡ some text
unfolding password_of
password_of-short text h = let t : ltb 40 (length text) ≡ false = ground arith in rw t refl

expand_from-Kept :
    (read read_flag : Keyword → List ℕ) (s : Settings)
    → length (read Keyword.password) ≤ 40
    → Kept s (expand_from read read_flag s)
unfolding expand_from
expand_from-Kept read read_flag s short = rw (password_of-short (read Keyword.password) short) (
    with_password-Kept s _ s.password (read Keyword.password) refl (record {
      given = refl;
      dsn = inr refl;
      database_name = or_read-Keeps s.database_name _;
      client = or_read-Keeps s.client _;
      account = or_read-Keeps s.account _;
      password = inr refl;
      role = or_read-Keeps s.role _;
      charset = or_read-Keeps s.charset _;
      jdbc_driver = or_read-Keeps s.jdbc_driver _;
      description = or_read-Keeps s.description _;
      set_compat_bind = or_read-Keeps s.set_compat_bind _;
      use_schema_identifier = or_read-Keeps s.use_schema_identifier _;
      lock_timeout = or_read-Keeps s.lock_timeout _;
      filedsn = refl;
      savedsn = refl;
      page_size = refl;
      driver = refl;
      readonly_tpb = flag-Keeps s.given.readonly_tpb _ _ _;
      nowait_tpb = flag-Keeps s.given.nowait_tpb _ _ _;
      dialect = flag-Keeps s.given.dialect _ _ _;
      quoted = flag-Keeps s.given.quoted _ _ _;
      sensitive = flag-Keeps s.given.sensitive _ _ _;
      autoquoted = flag-Keeps s.given.autoquoted _ _ _;
      safethread = flag-Keeps s.given.safethread _ _ _;
      compatmode = flag-Keeps s.given.compatmode _ _ _;
      wirecompression = flag-Keeps s.given.wirecompression _ _ _;
    }))

default-Keeps :
    (t : Settings) → Keeps t (record t { jdbc_driver = or_read t.jdbc_driver (chars "IscDbc") })
default-Keeps t = record {
  given = refl;
  dsn = inr refl;
  database_name = inr refl;
  client = inr refl;
  account = inr refl;
  password = inr refl;
  role = inr refl;
  charset = inr refl;
  jdbc_driver = or_read-Keeps t.jdbc_driver (chars "IscDbc");
  description = inr refl;
  set_compat_bind = inr refl;
  use_schema_identifier = inr refl;
  lock_timeout = inr refl;
  filedsn = refl;
  savedsn = refl;
  page_size = refl;
  driver = refl;
  readonly_tpb = inr refl;
  nowait_tpb = inr refl;
  dialect = inr refl;
  quoted = inr refl;
  sensitive = inr refl;
  autoquoted = inr refl;
  safethread = inr refl;
  compatmode = inr refl;
  wirecompression = inr refl;
}

dsn-Keeps :
    (s t : Settings) (name : List ℕ)
    → is_empty s.dsn ≡ true
    → Keeps s t
    → Keeps s (record t { dsn = name })
dsn-Keeps s t name e h = record {
  given = h.given;
  dsn = inl e;
  database_name = h.database_name;
  client = h.client;
  account = h.account;
  password = h.password;
  role = h.role;
  charset = h.charset;
  jdbc_driver = h.jdbc_driver;
  description = h.description;
  set_compat_bind = h.set_compat_bind;
  use_schema_identifier = h.use_schema_identifier;
  lock_timeout = h.lock_timeout;
  filedsn = h.filedsn;
  savedsn = h.savedsn;
  page_size = h.page_size;
  driver = h.driver;
  readonly_tpb = h.readonly_tpb;
  nowait_tpb = h.nowait_tpb;
  dialect = h.dialect;
  quoted = h.quoted;
  sensitive = h.sensitive;
  autoquoted = h.autoquoted;
  safethread = h.safethread;
  compatmode = h.compatmode;
  wirecompression = h.wirecompression;
}

Kept-trans : (s t : Settings) (o : Option Settings) → Keeps s t → Kept t o → Kept s o
Kept-trans s t none h x = elim x [ ]
Kept-trans s t (some u) h (kept k) = kept (Keeps-trans s t u h k)

and_default-Kept : (s : Settings) (o : Option Settings) → Kept s o → Kept s (and_default o)
and_default-Kept s none x = elim x [ ]
and_default-Kept s (some t) (kept h) = kept (Keeps-trans s t _ h (default-Keeps t))

expand_named-Kept :
    (sources : Sources) (s : Settings) (o : Option Settings)
    → Short sources
    → is_empty s.dsn ≡ true
    → Kept s o
    → Kept s (expand_named sources o)
expand_named-Kept sources s none short e x = elim x [ ]
expand_named-Kept sources s (some t) short e (kept h) =
    let name = sources.read_file t.filedsn Keyword.dsn in
    let named : Settings = record t { dsn = name } in
    let k = dsn-Keeps s t name e h in
    elim (Bool-cases (is_empty name)) [
      | inl none_ ↦ rw none_ (kept k)
      | inr some_ ↦ rw some_ (
          and_default-Kept s _ (
            Kept-trans s named _ k
              (expand_from-Kept (sources.read name) (sources.read name) named (short.0 name))))
    ]

expand-Kept : (sources : Sources) (s : Settings) → Short sources → Kept s (expand sources s)
unfolding expand
expand-Kept sources s short = and_default-Kept s _ (elim (Bool-cases (is_empty s.dsn)) [
  | inr named ↦
      rw named (expand_from-Kept (sources.read s.dsn) (sources.read s.dsn) s (short.0 s.dsn))
  | inl unnamed ↦ elim (Bool-cases (is_empty s.filedsn)) [
    | inr filed ↦
        rw (unnamed, filed)
          (expand_named-Kept sources s _ short unnamed (
            expand_from-Kept (sources.read_file s.filedsn) (sources.read s.dsn) s
              (short.1 s.filedsn)))
    | inl none_ ↦ rw (unnamed, none_) (kept (Keeps-refl s))
  ]
])

result-Kept :
    (s : Settings) (o : Option Settings) → Kept s o → (t : Settings) × (o ≡ some t) × Keeps s t
result-Kept s none x = elim x [ ]
result-Kept s (some t) (kept h) = (t, refl, h)

-- Whatever the sources of data hold, and whatever source a file names, the settings are expanded, and what
-- the connection string gave stands: every text that is not empty, and every option that it gives. The
-- passwords of the sources have at most 40 chars, those that are not decoded.
pub expand-Keeps :
    (sources : Sources) (s : Settings)
    → Short sources
    → (t : Settings) × (expand sources s ≡ some t) × Keeps s t
expand-Keeps sources s short = result-Kept s (expand sources s) (expand-Kept sources s short)
