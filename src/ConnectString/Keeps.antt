-- ===== src/ConnectString/Keeps.antt =====
-- What a connection string gives and settings keep, for `expandConnectParameters` of OdbcConnection.cpp.
use firebird_odbc_driver.Base.{
  ℕ, ◌≡◌, refl, sym, ap, ◌∙◌, ◌⊎◌, inl, inr, Bool, true, false, not, ◌&&◌, List, [], ◌∷◌,
  if◌then◌else◌,
}
use firebird_odbc_driver.ConnectString.Settings.{Given, Settings}
use firebird_odbc_driver.ConnectString.Connect.{or_read, is_empty}

-- A text that is given is kept, and an option that is given.
abbrev pub KeepsText : (given kept : List ℕ) → Type 0
KeepsText given kept = (is_empty given ≡ true) ⊎ (kept ≡ given)

abbrev pub KeepsOption : (given before after : Bool) → Type 0
KeepsOption given before after = (given ≡ false) ⊎ (after ≡ before)

pub record Keeps (s t : Settings) : Type 0 where
  pub given : t.given ≡ s.given
  pub dsn : KeepsText s.dsn t.dsn
  pub database_name : KeepsText s.database_name t.database_name
  pub client : KeepsText s.client t.client
  pub account : KeepsText s.account t.account
  pub password : KeepsText s.password t.password
  pub role : KeepsText s.role t.role
  pub charset : KeepsText s.charset t.charset
  pub jdbc_driver : KeepsText s.jdbc_driver t.jdbc_driver
  pub description : KeepsText s.description t.description
  pub set_compat_bind : KeepsText s.set_compat_bind t.set_compat_bind
  pub use_schema_identifier : KeepsText s.use_schema_identifier t.use_schema_identifier
  pub lock_timeout : KeepsText s.lock_timeout t.lock_timeout
  pub filedsn : t.filedsn ≡ s.filedsn
  pub savedsn : t.savedsn ≡ s.savedsn
  pub page_size : t.page_size ≡ s.page_size
  pub driver : t.driver ≡ s.driver
  pub readonly_tpb : KeepsOption s.given.readonly_tpb s.readonly_tpb t.readonly_tpb
  pub nowait_tpb : KeepsOption s.given.nowait_tpb s.nowait_tpb t.nowait_tpb
  pub dialect : KeepsOption s.given.dialect s.dialect3 t.dialect3
  pub quoted : KeepsOption s.given.quoted s.quoted_identifier t.quoted_identifier
  pub sensitive : KeepsOption s.given.sensitive s.sensitive_identifier t.sensitive_identifier
  pub autoquoted : KeepsOption s.given.autoquoted s.auto_quoted_identifier t.auto_quoted_identifier
  pub safethread : KeepsOption s.given.safethread s.safe_thread t.safe_thread
  pub compatmode : KeepsOption s.given.compatmode s.enable_compat_bind t.enable_compat_bind
  pub wirecompression :
      KeepsOption s.given.wirecompression s.enable_wire_compression t.enable_wire_compression

-- A text that is kept twice, and an option.
text_twice : (a b c : List ℕ) → KeepsText a b → KeepsText b c → KeepsText a c
text_twice a b c (inl e) k = inl e
text_twice a b c (inr h) (inl e) = inl (ap is_empty (sym h) ∙ e)
text_twice a b c (inr h) (inr k) = inr (k ∙ h)

option_twice :
    (g g' a b c : Bool) → g' ≡ g → KeepsOption g a b → KeepsOption g' b c → KeepsOption g a c
option_twice g g' a b c same (inl e) k = inl e
option_twice g g' a b c same (inr h) (inl e) = inl (sym same ∙ e)
option_twice g g' a b c same (inr h) (inr k) = inr (k ∙ h)

-- What the branches of a source keep.
pub or_read-Keeps : (text read : List ℕ) → KeepsText text (or_read text read)
or_read-Keeps [] read = inl refl
or_read-Keeps (c ∷ cs) read = inr refl

pub flag-Keeps :
    (given test set before : Bool)
    → KeepsOption given before (if not given && test then set else before)
flag-Keeps false test set before = inl refl
flag-Keeps true test set before = inr refl

pub Keeps-trans : (s t u : Settings) → Keeps s t → Keeps t u → Keeps s u
Keeps-trans s t u h k = record {
  given = k.given ∙ h.given;
  dsn = text_twice s.dsn t.dsn u.dsn h.dsn k.dsn;
  database_name =
      text_twice s.database_name t.database_name u.database_name h.database_name k.database_name;
  client = text_twice s.client t.client u.client h.client k.client;
  account = text_twice s.account t.account u.account h.account k.account;
  password = text_twice s.password t.password u.password h.password k.password;
  role = text_twice s.role t.role u.role h.role k.role;
  charset = text_twice s.charset t.charset u.charset h.charset k.charset;
  jdbc_driver = text_twice s.jdbc_driver t.jdbc_driver u.jdbc_driver h.jdbc_driver k.jdbc_driver;
  description = text_twice s.description t.description u.description h.description k.description;
  set_compat_bind =
      text_twice s.set_compat_bind t.set_compat_bind u.set_compat_bind h.set_compat_bind
        k.set_compat_bind;
  use_schema_identifier =
      text_twice s.use_schema_identifier t.use_schema_identifier u.use_schema_identifier
        h.use_schema_identifier k.use_schema_identifier;
  lock_timeout =
      text_twice s.lock_timeout t.lock_timeout u.lock_timeout h.lock_timeout k.lock_timeout;
  filedsn = k.filedsn ∙ h.filedsn;
  savedsn = k.savedsn ∙ h.savedsn;
  page_size = k.page_size ∙ h.page_size;
  driver = k.driver ∙ h.driver;
  readonly_tpb =
      option_twice s.given.readonly_tpb t.given.readonly_tpb s.readonly_tpb t.readonly_tpb
        u.readonly_tpb (ap (λ (g : Given). g.readonly_tpb) h.given) h.readonly_tpb k.readonly_tpb;
  nowait_tpb =
      option_twice s.given.nowait_tpb t.given.nowait_tpb s.nowait_tpb t.nowait_tpb u.nowait_tpb
        (ap (λ (g : Given). g.nowait_tpb) h.given) h.nowait_tpb k.nowait_tpb;
  dialect =
      option_twice s.given.dialect t.given.dialect s.dialect3 t.dialect3 u.dialect3
        (ap (λ (g : Given). g.dialect) h.given) h.dialect k.dialect;
  quoted =
      option_twice s.given.quoted t.given.quoted s.quoted_identifier t.quoted_identifier
        u.quoted_identifier (ap (λ (g : Given). g.quoted) h.given) h.quoted k.quoted;
  sensitive =
      option_twice s.given.sensitive t.given.sensitive s.sensitive_identifier t.sensitive_identifier
        u.sensitive_identifier (ap (λ (g : Given). g.sensitive) h.given) h.sensitive k.sensitive;
  autoquoted =
      option_twice s.given.autoquoted t.given.autoquoted s.auto_quoted_identifier
        t.auto_quoted_identifier u.auto_quoted_identifier (ap (λ (g : Given). g.autoquoted) h.given)
        h.autoquoted k.autoquoted;
  safethread =
      option_twice s.given.safethread t.given.safethread s.safe_thread t.safe_thread u.safe_thread
        (ap (λ (g : Given). g.safethread) h.given) h.safethread k.safethread;
  compatmode =
      option_twice s.given.compatmode t.given.compatmode s.enable_compat_bind t.enable_compat_bind
        u.enable_compat_bind (ap (λ (g : Given). g.compatmode) h.given) h.compatmode k.compatmode;
  wirecompression =
      option_twice s.given.wirecompression t.given.wirecompression s.enable_wire_compression
        t.enable_wire_compression u.enable_wire_compression
        (ap (λ (g : Given). g.wirecompression) h.given) h.wirecompression k.wirecompression;
}

pub Keeps-refl : (s : Settings) → Keeps s s
Keeps-refl s = record {
  given = refl;
  dsn = inr refl;
  database_name = inr refl;
  client = inr refl;
  account = inr refl;
  password = inr refl;
  role = inr refl;
  charset = inr refl;
  jdbc_driver = inr refl;
  description = inr refl;
  set_compat_bind = inr refl;
  use_schema_identifier = inr refl;
  lock_timeout = inr refl;
  filedsn = refl;
  savedsn = refl;
  page_size = refl;
  driver = refl;
  readonly_tpb = inr refl;
  nowait_tpb = inr refl;
  dialect = inr refl;
  quoted = inr refl;
  sensitive = inr refl;
  autoquoted = inr refl;
  safethread = inr refl;
  compatmode = inr refl;
  wirecompression = inr refl;
}
