-- ===== src/Multibyte/Tests.antt =====
-- Runs of MultibyteConvert.cpp, and its theorems at concrete texts.
use firebird_odbc_driver.Base.{ℕ, ◌≡◌, refl, List, [], ◌∷◌, arith}
use firebird_odbc_driver.Diagnostics.Tables.{chars, same_text}
use firebird_odbc_driver.Multibyte.{list_charsets, find_charset, find_charsets_code}
use firebird_odbc_driver.Multibyte.Utf8.{utf8_bytes, utf8_wcstombs, utf8_mbstowcs}
use firebird_odbc_driver.Multibyte.Utf8.RoundTrip.{utf8, utf16, IsText, utf8_mbstowcs-utf8_wcstombs}
use firebird_odbc_driver.Multibyte.Utf8.Bounds.{AllUnits}
use firebird_odbc_driver.Multibyte.Fss.{fss_wcstombs, fss_mbstowcs}
use firebird_odbc_driver.Multibyte.Fss.RoundTrip.{fss_mbstowcs-fss_wcstombs}

-- A name that begins as a row's does is taken for it: that of ISO8859_13 for ISO8859_1.
iso_shadowed : find_charsets_code (chars "ISO8859_13") ≡ 21
unfolding find_charsets_code find_charset list_charsets same_text
iso_shadowed = refl

-- "aé€😀"
abbrev text : List ℕ
text = 0x61 ∷ 0xe9 ∷ 0x20ac ∷ 0x1f600 ∷ []

text-IsText : IsText text
text-IsText = ground arith

units-AllUnits : AllUnits (0x61 ∷ 0xdc00 ∷ 0xd83d ∷ 0xde00 ∷ [])
units-AllUnits = ground arith

utf8_mbstowcs-utf8_wcstombs_example : utf8_mbstowcs (utf8_wcstombs 10 (utf16 text)) ≡ utf16 text
unfolding utf8 utf8_bytes
utf8_mbstowcs-utf8_wcstombs_example = utf8_mbstowcs-utf8_wcstombs 10 text text-IsText (ground arith)

fss_mbstowcs-fss_wcstombs_example :
    fss_mbstowcs (fss_wcstombs (0x61 ∷ 0xe9 ∷ 0xd83d ∷ [])) ≡ 0x61 ∷ 0xe9 ∷ 0xd83d ∷ []
fss_mbstowcs-fss_wcstombs_example =
    fss_mbstowcs-fss_wcstombs (0x61 ∷ 0xe9 ∷ 0xd83d ∷ []) (ground arith)
