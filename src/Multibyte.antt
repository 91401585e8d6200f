-- ===== src/Multibyte.antt =====
-- IscDbc/MultibyteConvert.cpp, the character sets of the server: a name is looked up by the first row
-- whose name it starts with, in any case of its letters, and a size by the place of its row.
pub mod Lookup
pub mod Utf8
pub mod Fss
mod Tests
use firebird_odbc_driver.Base.{
  ℕ, zero, suc, ◌%◌, Bool, true, false, Option, none, some, List, [], ◌∷◌, ltb, if◌then◌else◌,
  length, get_elem?,
}
use firebird_odbc_driver.Base.Int.{ℤ, pos, negsuc}
use firebird_odbc_driver.Diagnostics.Tables.{chars, same_text}

-- `IntlCharsets`: `lengthName` is the length of the name.
pub record IntlCharsets : Type 0 where
  pub name : List ℕ
  pub code : ℕ
  pub size : ℕ

abbrev row : List ℕ → ℕ → ℕ → IntlCharsets
row name code size = record { name = name; code = code; size = size }

-- `listCharsets`
unfoldable pub list_charsets : List IntlCharsets
list_charsets =
    row (chars "NONE") 0 1
    ∷ row (chars "OCTETS") 1 1
    ∷ row (chars "ASCII") 2 1
    ∷ row (chars "UNICODE_FSS") 3 3
    ∷ row (chars "UTF8") 4 4
    ∷ row (chars "SJIS_0208") 5 2
    ∷ row (chars "EUJC_0208") 6 2
    ∷ row (chars "JIS_0208") 7 2
    ∷ row (chars "UNICODE_UCS2") 8 3
    ∷ row (chars "DOS737") 9 1
    ∷ row (chars "DOS437") 10 1
    ∷ row (chars "DOS850") 11 1
    ∷ row (chars "DOS865") 12 1
    ∷ row (chars "DOS860") 13 1
    ∷ row (chars "DOS863") 14 1
    ∷ row (chars "DOS775") 15 1
    ∷ row (chars "DOS858") 16 1
    ∷ row (chars "DOS862") 17 1
    ∷ row (chars "DOS864") 18 1
    ∷ row (chars "NEXT") 19 1
    ∷ row (chars "NEXT") 20 1
    ∷ row (chars "ISO8859_1") 21 1
    ∷ row (chars "ISO8859_2") 22 1
    ∷ row (chars "ISO8859_3") 23 1
    ∷ row (chars "NEXT") 24 1
    ∷ row (chars "NEXT") 25 1
    ∷ row (chars "NEXT") 26 1
    ∷ row (chars "NEXT") 27 1
    ∷ row (chars "NEXT") 28 1
    ∷ row (chars "NEXT") 29 1
    ∷ row (chars "NEXT") 30 1
    ∷ row (chars "NEXT") 31 1
    ∷ row (chars "NEXT") 32 1
    ∷ row (chars "NEXT") 33 1
    ∷ row (chars "ISO8859_4") 34 1
    ∷ row (chars "ISO8859_5") 35 1
    ∷ row (chars "ISO8859_6") 36 1
    ∷ row (chars "ISO8859_7") 37 1
    ∷ row (chars "ISO8859_8") 38 1
    ∷ row (chars "ISO8859_9") 39 1
    ∷ row (chars "ISO8859_13") 40 1
    ∷ row (chars "NEXT") 41 1
    ∷ row (chars "NEXT") 42 1
    ∷ row (chars "NEXT") 43 1
    ∷ row (chars "KSC_5601") 44 2
    ∷ row (chars "DOS852") 45 1
    ∷ row (chars "DOS857") 46 1
    ∷ row (chars "DOS861") 47 1
    ∷ row (chars "DOS866") 48 1
    ∷ row (chars "DOS869") 49 1
    ∷ row (chars "CYRL") 50 1
    ∷ row (chars "WIN1250") 51 1
    ∷ row (chars "WIN1251") 52 1
    ∷ row (chars "WIN1252") 53 1
    ∷ row (chars "WIN1253") 54 1
    ∷ row (chars "WIN1254") 55 1
    ∷ row (chars "BIG_5") 56 2
    ∷ row (chars "GB2312") 57 2
    ∷ row (chars "WIN1255") 58 1
    ∷ row (chars "WIN1256") 59 1
    ∷ row (chars "WIN1257") 60 1
    ∷ []

-- `findCharsetsCode (charset)`, a text without its terminator: 0 if no row fits.
unfoldable pub find_charset : List ℕ → List IntlCharsets → ℕ
find_charset charset [] = 0
find_charset charset (r ∷ rs) =
    if same_text (length r.name) charset r.name then r.code else find_charset charset rs

unfoldable pub find_charsets_code : List ℕ → ℕ
unfolding find_charset list_charsets
find_charsets_code charset = find_charset charset list_charsets

abbrev pub size_at : Option IntlCharsets → Option ℕ
size_at none = none
size_at (some r) = some r.size

-- `getCharsetSize (charsetCode)`: `none` is a read behind the table.
unfoldable pub get_charset_size : ℤ → Option ℕ
get_charset_size (negsuc n) = some 1
get_charset_size (pos n) =
    let code = n % 256 in
    if ltb (length list_charsets) code then some 1 else size_at (get_elem? list_charsets code)
