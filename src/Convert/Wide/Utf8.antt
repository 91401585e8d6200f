-- ===== src/Convert/Wide/Utf8.antt =====
-- A varying column of UTF-8 fetched in wide pieces: OdbcConvert.cpp with IscDbc/MultibyteConvert.cpp.
use firebird_odbc_driver.Base.{
  ℕ, suc, ◌+◌, ◌-◌, ◌*◌, ◌/◌, ◌≤◌, ◌<◌, ◌≡◌, inl, inr, some, List, [], ◌∷◌, ◌++◌, arith, length,
  Bool-cases, leb, subst,
}
use firebird_odbc_driver.Base.Int.{ℤ}
use firebird_odbc_driver.Multibyte.Utf8.{utf16_units, utf8_mbstowcs}
use firebird_odbc_driver.Multibyte.Utf8.RoundTrip.{utf8, utf16, IsText, utf8_mbstowcs-utf8}
use firebird_odbc_driver.Convert.{DescRecord}
use firebird_odbc_driver.Convert.Gather.{bound, fetch_all}
use firebird_odbc_driver.Convert.Whole.{IsFresh}
use firebird_odbc_driver.Convert.Wide.{conv_var_string_to_string_w}
use firebird_odbc_driver.Convert.Wide.Text.{AllWide, conv_var_string_to_string_w-whole}

AllWide-append : (vs ws : List ℕ) → AllWide vs → AllWide ws → AllWide (vs ++ ws)
AllWide-append [] ws a b = b
AllWide-append (v ∷ vs) ws (p, a) b = (p, AllWide-append vs ws a b)

AllWide-utf16_units : (c : ℕ) → 0 < c → AllWide (utf16_units c)
unfolding utf16_units
AllWide-utf16_units c p = elim (Bool-cases (leb c 0xffff)) [
  | inl h ↦ rw h (p, tt)
  | inr h ↦ rw h (omega arith, (omega arith, tt))
]

AllWide-utf16 : (cs : List ℕ) → IsText cs → AllWide (utf16 cs)
unfolding utf16
AllWide-utf16 [] t = tt
AllWide-utf16 (c ∷ cs) (s, p, t) =
    AllWide-append (utf16_units c) (utf16 cs) (AllWide-utf16_units c p) (AllWide-utf16 cs t)

-- Of a varying column that holds UTF-8 of code points of which none is 0, shorter than 32768 bytes, the
-- calls of `convVarStringToStringW` with `utf8_mbstowcs`, in a new row and with a buffer of four bytes at
-- least and an indicator, made as long as each reports a truncation, return the UTF-16 of them all.
pub conv_var_string_to_string_w-utf8 :
    (current : ℕ) (d t : DescRecord) (m : List ℕ) (i : ℤ) (low high : ℕ) (cs : List ℕ)
    → IsFresh current d
    → 4 ≤ t.data_length
    → IsText cs
    → d.data_ptr ≡ some (low ∷ high ∷ utf8 cs)
    → low + 256 * high ≡ length (utf8 cs)
    → length (utf8 cs) < 0x8000
    → fetch_all 2
        (conv_var_string_to_string_w utf8_mbstowcs current)
        (suc (length (utf16 cs)))
        (t.data_length / 2 - 1)
        d
        (bound m i t)
      ≡ utf16 cs
conv_var_string_to_string_w-utf8 current d t m i low high cs fresh k text p e s =
    let read = utf8_mbstowcs-utf8 cs text in
    subst
      (λ units.
        fetch_all 2 (conv_var_string_to_string_w utf8_mbstowcs current) (suc (length units))
          (t.data_length / 2 - 1) d (bound m i t)
        ≡ units)
      read
      (conv_var_string_to_string_w-whole utf8_mbstowcs current d t m i low high (utf8 cs) fresh k p
        e s (rw read (AllWide-utf16 cs text)))
