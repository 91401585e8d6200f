-- ===== src/Convert/Dispatch/Aliases.antt =====
-- `getAdressFunction` of OdbcConvert.cpp: the codes that name one type are treated alike.
use firebird_odbc_driver.Base.{Bool, Option, if◌then◌else◌, ◌≡◌, refl, ap, ◌∙◌}
use firebird_odbc_driver.Convert.Dispatch.{
  ConciseType, Head, DescType, Answer, set_head_sql_var, sql_c_bit, sql_c_tinyint, sql_c_utinyint,
  sql_c_stinyint, sql_c_short, sql_c_ushort, sql_c_sshort, sql_c_long, sql_c_ulong, sql_c_slong,
  sql_c_float, sql_c_double, sql_c_sbigint, sql_c_ubigint, sql_c_char, sql_c_wchar, sql_decimal,
  sql_c_numeric, sql_c_binary, sql_c_type_date, sql_c_date, sql_c_type_timestamp, sql_c_timestamp,
  sql_c_type_time, sql_c_time, sql_c_guid, sql_other,
}
use firebird_odbc_driver.Convert.Dispatch.Numbers.{tiny_int_to, short_to, long_to}
use firebird_odbc_driver.Convert.Dispatch.Decimals.{float_to, double_to, bigint_to, numeric_to}
use firebird_odbc_driver.Convert.Dispatch.Times.{date_to, time_to, timestamp_to}
use firebird_odbc_driver.Convert.Dispatch.Binaries.{binary_to, guid_to}
use firebird_odbc_driver.Convert.Dispatch.Texts.{var_char_to, text_char_to}
use firebird_odbc_driver.Convert.Dispatch.Wides.{var_wchar_to, text_wchar_to}
use firebird_odbc_driver.Convert.Dispatch.Select.{char_to, wchar_to, select, get_adress_function}

-- The code that stands for a type, of its signed and unsigned variants and its names of ODBC 3.
unfoldable pub canon : ConciseType → ConciseType
canon sql_c_utinyint = sql_c_tinyint
canon sql_c_stinyint = sql_c_tinyint
canon sql_c_ushort = sql_c_short
canon sql_c_sshort = sql_c_short
canon sql_c_ulong = sql_c_long
canon sql_c_slong = sql_c_long
canon sql_c_ubigint = sql_c_sbigint
canon sql_c_numeric = sql_decimal
canon sql_c_type_date = sql_c_date
canon sql_c_type_time = sql_c_time
canon sql_c_type_timestamp = sql_c_timestamp
canon t = t

-- What holds of two codes of one type, and of a code and itself, holds of `canon t` and `t`.
abbrev Alike {ℓ} : {A : Type ℓ} → (ConciseType → A) → Type ℓ
Alike f =
    (f sql_c_tinyint ≡ f sql_c_utinyint)
    × (f sql_c_tinyint ≡ f sql_c_stinyint)
    × (f sql_c_short ≡ f sql_c_ushort)
    × (f sql_c_short ≡ f sql_c_sshort)
    × (f sql_c_long ≡ f sql_c_ulong)
    × (f sql_c_long ≡ f sql_c_slong)
    × (f sql_c_sbigint ≡ f sql_c_ubigint)
    × (f sql_decimal ≡ f sql_c_numeric)
    × (f sql_c_date ≡ f sql_c_type_date)
    × (f sql_c_time ≡ f sql_c_type_time)
    × (f sql_c_timestamp ≡ f sql_c_type_timestamp)

canon-Alike {ℓ} :
    {A : Type ℓ} (f : ConciseType → A) → Alike f → (t : ConciseType) → f (canon t) ≡ f t
unfolding canon
canon-Alike f _ sql_c_bit = refl
canon-Alike f _ sql_c_tinyint = refl
canon-Alike f (p, _, _, _, _, _, _, _, _, _, _) sql_c_utinyint = p
canon-Alike f (_, p, _, _, _, _, _, _, _, _, _) sql_c_stinyint = p
canon-Alike f _ sql_c_short = refl
canon-Alike f (_, _, p, _, _, _, _, _, _, _, _) sql_c_ushort = p
canon-Alike f (_, _, _, p, _, _, _, _, _, _, _) sql_c_sshort = p
canon-Alike f _ sql_c_long = refl
canon-Alike f (_, _, _, _, p, _, _, _, _, _, _) sql_c_ulong = p
canon-Alike f (_, _, _, _, _, p, _, _, _, _, _) sql_c_slong = p
canon-Alike f _ sql_c_float = refl
canon-Alike f _ sql_c_double = refl
canon-Alike f _ sql_c_sbigint = refl
canon-Alike f (_, _, _, _, _, _, p, _, _, _, _) sql_c_ubigint = p
canon-Alike f _ sql_c_char = refl
canon-Alike f _ sql_c_wchar = refl
canon-Alike f _ sql_decimal = refl
canon-Alike f (_, _, _, _, _, _, _, p, _, _, _) sql_c_numeric = p
canon-Alike f _ sql_c_binary = refl
canon-Alike f (_, _, _, _, _, _, _, _, p, _, _) sql_c_type_date = p
canon-Alike f _ sql_c_date = refl
canon-Alike f (_, _, _, _, _, _, _, _, _, _, p) sql_c_type_timestamp = p
canon-Alike f _ sql_c_timestamp = refl
canon-Alike f (_, _, _, _, _, _, _, _, _, p, _) sql_c_type_time = p
canon-Alike f _ sql_c_time = refl
canon-Alike f _ sql_c_guid = refl
canon-Alike f _ sql_other = refl

tiny_int_to-Alike :
    (h : Head) (from to : DescType) → Alike {A = Option Answer} (λ t. tiny_int_to t h from to)
unfolding tiny_int_to
tiny_int_to-Alike h from to = (refl, refl, refl, refl, refl, refl, refl, refl, refl, refl, refl)

short_to-Alike :
    (h : Head) (from to : DescType) → Alike {A = Option Answer} (λ t. short_to t h from to)
unfolding short_to
short_to-Alike h from to = (refl, refl, refl, refl, refl, refl, refl, refl, refl, refl, refl)

long_to-Alike :
    (h : Head) (from to : DescType) → Alike {A = Option Answer} (λ t. long_to t h from to)
unfolding long_to
long_to-Alike h from to = (refl, refl, refl, refl, refl, refl, refl, refl, refl, refl, refl)

float_to-Alike :
    (h : Head) (from to : DescType) → Alike {A = Option Answer} (λ t. float_to t h from to)
unfolding float_to
float_to-Alike h from to = (refl, refl, refl, refl, refl, refl, refl, refl, refl, refl, refl)

double_to-Alike :
    (h : Head) (from to : DescType) → Alike {A = Option Answer} (λ t. double_to t h from to)
unfolding double_to
double_to-Alike h from to = (refl, refl, refl, refl, refl, refl, refl, refl, refl, refl, refl)

bigint_to-Alike :
    (h : Head) (from to : DescType) → Alike {A = Option Answer} (λ t. bigint_to t h from to)
unfolding bigint_to
bigint_to-Alike h from to = (refl, refl, refl, refl, refl, refl, refl, refl, refl, refl, refl)

numeric_to-Alike :
    (h : Head) (from to : DescType) → Alike {A = Option Answer} (λ t. numeric_to t h from to)
unfolding numeric_to
numeric_to-Alike h from to = (refl, refl, refl, refl, refl, refl, refl, refl, refl, refl, refl)

date_to-Alike :
    (h : Head) (from to : DescType) → Alike {A = Option Answer} (λ t. date_to t h from to)
unfolding date_to
date_to-Alike h from to = (refl, refl, refl, refl, refl, refl, refl, refl, refl, refl, refl)

time_to-Alike :
    (h : Head) (from to : DescType) → Alike {A = Option Answer} (λ t. time_to t h from to)
unfolding time_to
time_to-Alike h from to = (refl, refl, refl, refl, refl, refl, refl, refl, refl, refl, refl)

timestamp_to-Alike :
    (h : Head) (from to : DescType) → Alike {A = Option Answer} (λ t. timestamp_to t h from to)
unfolding timestamp_to
timestamp_to-Alike h from to = (refl, refl, refl, refl, refl, refl, refl, refl, refl, refl, refl)

binary_to-Alike :
    (h : Head) (from to : DescType) → Alike {A = Option Answer} (λ t. binary_to t h from to)
unfolding binary_to
binary_to-Alike h from to = (refl, refl, refl, refl, refl, refl, refl, refl, refl, refl, refl)

guid_to-Alike :
    (h : Head) (from to : DescType) → Alike {A = Option Answer} (λ t. guid_to t h from to)
unfolding guid_to
guid_to-Alike h from to = (refl, refl, refl, refl, refl, refl, refl, refl, refl, refl, refl)

char_to-Alike :
    (system_catalog : Bool) (h : Head) (from to : DescType)
    → Alike {A = Option Answer} (λ t. char_to system_catalog t h from to)
unfolding char_to var_char_to text_char_to
char_to-Alike system_catalog h from to =
    (refl, refl, refl, refl, refl, refl, refl, refl, refl, refl, refl)

wchar_to-Alike :
    (system_catalog : Bool) (h : Head) (from to : DescType)
    → Alike {A = Option Answer} (λ t. wchar_to system_catalog t h from to)
unfolding wchar_to var_wchar_to text_wchar_to
wchar_to-Alike system_catalog h from to =
    (refl, refl, refl, refl, refl, refl, refl, refl, refl, refl, refl)

select-Alike :
    (system_catalog : Bool) (source : ConciseType) (h : Head) (from to : DescType)
    → Alike {A = Option Answer} (λ t. select system_catalog source t h from to)
unfolding select
select-Alike system_catalog sql_c_bit h from to = tiny_int_to-Alike h from to
select-Alike system_catalog sql_c_tinyint h from to = tiny_int_to-Alike h from to
select-Alike system_catalog sql_c_utinyint h from to = tiny_int_to-Alike h from to
select-Alike system_catalog sql_c_stinyint h from to = tiny_int_to-Alike h from to
select-Alike system_catalog sql_c_short h from to = short_to-Alike h from to
select-Alike system_catalog sql_c_ushort h from to = short_to-Alike h from to
select-Alike system_catalog sql_c_sshort h from to = short_to-Alike h from to
select-Alike system_catalog sql_c_long h from to = long_to-Alike h from to
select-Alike system_catalog sql_c_ulong h from to = long_to-Alike h from to
select-Alike system_catalog sql_c_slong h from to = long_to-Alike h from to
select-Alike system_catalog sql_c_float h from to = float_to-Alike h from to
select-Alike system_catalog sql_c_double h from to = double_to-Alike h from to
select-Alike system_catalog sql_c_sbigint h from to = bigint_to-Alike h from to
select-Alike system_catalog sql_c_ubigint h from to = bigint_to-Alike h from to
select-Alike system_catalog sql_c_char h from to = char_to-Alike system_catalog h from to
select-Alike system_catalog sql_c_wchar h from to = wchar_to-Alike system_catalog h from to
select-Alike system_catalog sql_decimal h from to = numeric_to-Alike h from to
select-Alike system_catalog sql_c_numeric h from to = numeric_to-Alike h from to
select-Alike system_catalog sql_c_binary h from to = binary_to-Alike h from to
select-Alike system_catalog sql_c_type_date h from to = date_to-Alike h from to
select-Alike system_catalog sql_c_date h from to = date_to-Alike h from to
select-Alike system_catalog sql_c_type_timestamp h from to = timestamp_to-Alike h from to
select-Alike system_catalog sql_c_timestamp h from to = timestamp_to-Alike h from to
select-Alike system_catalog sql_c_type_time h from to = time_to-Alike h from to
select-Alike system_catalog sql_c_time h from to = time_to-Alike h from to
select-Alike system_catalog sql_c_guid h from to = guid_to-Alike h from to
select-Alike system_catalog sql_other h from to =
    (refl, refl, refl, refl, refl, refl, refl, refl, refl, refl, refl)

set_head_sql_var-Alike : (to : DescType) → Alike {A = Head} (λ t. set_head_sql_var t to)
unfolding set_head_sql_var
set_head_sql_var-Alike to = (refl, refl, refl, refl, refl, refl, refl, refl, refl, refl, refl)

source-Alike :
    (system_catalog : Bool) (target : ConciseType) (h : Head) (from to : DescType)
    → Alike {A = Option Answer} (λ s. select system_catalog s target h from to)
unfolding select
source-Alike system_catalog target h from to =
    (refl, refl, refl, refl, refl, refl, refl, refl, refl, refl, refl)

abbrev head_of : ConciseType → DescType → Head
head_of t to = if to.is_indicator_sql_da then set_head_sql_var t to else to.head

head_of-canon : (t : ConciseType) (to : DescType) → head_of (canon t) to ≡ head_of t to
head_of-canon t to =
    ap (λ (h : Head). if to.is_indicator_sql_da then h else to.head)
      (canon-Alike (λ s. set_head_sql_var s to) (set_head_sql_var-Alike to) t)

-- Whatever the records are, the codes of one type are treated alike, as the type of the source and as
-- that of the target: the conversion, `bIdentity` and the head of the parameter are those of the codes
-- that stand for the types.
pub get_adress_function-canon :
    (system_catalog : Bool) (source target : ConciseType) (from to : DescType)
    → get_adress_function system_catalog (canon source) (canon target) from to
      ≡ get_adress_function system_catalog source target from to
unfolding get_adress_function
get_adress_function-canon system_catalog source target from to =
    let t = canon target in
    let first =
      canon-Alike (λ s. select system_catalog s t (head_of t to) from to)
        (source-Alike system_catalog t (head_of t to) from to) source in
    let second =
      canon-Alike (λ t. select system_catalog source t (head_of (canon target) to) from to)
        (select-Alike system_catalog source (head_of (canon target) to) from to) target in
    first
    ∙ second
    ∙ ap (λ h. select system_catalog source target h from to) (head_of-canon target to)
