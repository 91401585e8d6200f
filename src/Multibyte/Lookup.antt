-- ===== src/Multibyte/Lookup.antt =====
-- The rows of the character sets in MultibyteConvert.cpp, looked up by place and by name.
use firebird_odbc_driver.Base.{
  ℕ, zero, suc, ◌%◌, ◌≤◌, ◌<◌, ◌≡◌, refl, ◌↔◌, inl, inr, false, none, List, [], ◌∷◌, arith, ltb,
  Bool-cases, length, get_elem?, ltb→lt, subst,
}
use firebird_odbc_driver.Base.Int.{pos}
use firebird_odbc_driver.Multibyte.{IntlCharsets, list_charsets, get_charset_size, size_at}

length-list_charsets : length list_charsets ≡ 61
unfolding list_charsets
length-list_charsets = refl

size_at-none :
    (rs : List IntlCharsets) (i : ℕ) → (size_at (get_elem? rs i) ≡ none) ↔ (length rs ≤ i)
size_at-none [] i = (λ h. omega arith, λ h. refl)
size_at-none (r ∷ rs) zero = (λ h. ground arith, λ h. absurd (omega arith))
size_at-none (r ∷ rs) (suc i) =
    let (there, back) = size_at-none rs i in (λ h. omega (arith, there h), λ h. back (omega arith))

at_most : (rows i : ℕ) → rows ≡ 61 → ltb rows i ≡ false → rows ≤ i → i ≡ 61
at_most rows i e h k = ground arith

-- For a code that is not negative, `getCharsetSize` reads behind the table exactly if the code's low
-- byte is the number of rows, which the test of its range lets pass.
pub get_charset_size_fault : (n : ℕ) → (get_charset_size (pos n) ≡ none) ↔ (n % 256 ≡ 61)
unfolding get_charset_size
get_charset_size_fault n =
    let (there, back) = size_at-none list_charsets (n % 256) in
    elim (Bool-cases (ltb (length list_charsets) (n % 256))) [
      | inl h ↦
          let far : 61 < n % 256 =
            subst (λ rows. rows < n % 256) length-list_charsets
              (ltb→lt (length list_charsets) (n % 256) h) in
          rw h (λ e. ground arith, λ e. absurd (omega arith))
      | inr h ↦ rw h (
        λ e. at_most (length list_charsets) (n % 256) length-list_charsets h (there e),
        λ e. back (omega (arith, length-list_charsets)),
      )
    ]
