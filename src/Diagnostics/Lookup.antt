-- ===== src/Diagnostics/Lookup.antt =====
-- The hash tables of OdbcError.cpp against a scan of their rows, and the SQLSTATE of an error.
use firebird_odbc_driver.Base.{
  ℕ, ◌<◌, ◌≡◌, refl, ap, ◌∙◌, inl, inr, Bool, true, false, ◌&&◌, Option, none, some, List, [], ◌∷◌,
  arith, ltb, ◌==◌, ==_iff, Bool-cases, if◌then◌else◌, length,
}
use firebird_odbc_driver.Base.Int.{ℤ, eq_of_parts}
use firebird_odbc_driver.Diagnostics.Tables.{
  Table, chain, fill, empty_table, same_code, find_code, find_error, list_sql_error_link,
  list_error_link, codes, default_calc_hash, fb_error_calc_hash,
}

-- A scan of the rows, with the answer `found` so far: the last row with the code counts, and
-- answers nothing if its place is 0.
unfoldable pub scan : ℤ → List (ℕ × ℤ) → Option ℕ → Option ℕ
scan c [] found = found
scan c ((link, d) ∷ rs) found =
    scan c rs (if same_code c d then (if link == 0 then none else some link) else found)

same_code-eq : (a b : ℤ) → same_code a b ≡ true → a ≡ b
same_code-eq a b h = eq_of_parts a b (ground arith)

module _ (hash : ℤ → ℕ) (c : ℤ) where
  abbrev row_hash : ℕ × ℤ → ℕ
  row_hash r = hash r.1

  find_code-chain :
      (link : ℕ) (d : ℤ) (t : Table (ℕ × ℤ))
      → find_code c (chain (hash d) (link, d) t (hash c)) ≡ (
          if same_code c d
          then (if link == 0 then none else some link)
          else find_code c (t (hash c)))
  unfolding find_code
  find_code-chain link d t = elim (Bool-cases (same_code c d)) [
    | inl same ↦
        let e : c ≡ d = same_code-eq c d same in
        let slot : (hash c == hash d) ≡ true = (==_iff (hash c) (hash d)).1 (ap hash e) in
        rw slot refl
    | inr other ↦ elim (Bool-cases (hash c == hash d)) [
      | inl slot ↦ rw slot refl
      | inr apart ↦ rw apart (rw other)
    ]
  ]

  find_code-fill :
      (rows : List (ℕ × ℤ)) (t : Table (ℕ × ℤ))
      → find_code c (fill row_hash rows t (hash c)) ≡ scan c rows (find_code c (t (hash c)))
  unfolding fill scan
  find_code-fill [] t = refl
  find_code-fill ((link, d) ∷ rs) t =
      find_code-fill rs (chain (hash d) (link, d) t) ∙ ap (scan c rs) (find_code-chain link d t)

  -- Whatever the hash function, `findError` answers what a scan of all rows of the table answers.
  pub find_error-scan : (rows : List (ℕ × ℤ)) → find_error hash rows c ≡ scan c rows none
  unfolding find_error find_code
  find_error-scan rows = find_code-fill rows empty_table

links_below : ℕ → List (ℕ × ℤ) → Bool
links_below k [] = true
links_below k ((link, d) ∷ rs) = ltb link k && links_below k rs

abbrev pub Below : ℕ → Option ℕ → Type 0
Below k none = Unit
Below k (some link) = link < k

link-Below :
    (k link : ℕ) (zero_place : Bool) → link < k → Below k (if zero_place then none else some link)
link-Below k link true h = tt
link-Below k link false h = h

scan-Below :
    (k : ℕ) (c : ℤ) (rows : List (ℕ × ℤ)) (found : Option ℕ)
    → links_below k rows ≡ true
    → Below k found
    → Below k (scan c rows found)
unfolding scan links_below
scan-Below k c [] found h b = b
scan-Below k c ((link, d) ∷ rs) found h b = elim (Bool-cases (same_code c d)) [
  | inl same ↦
      rw same (scan-Below k c rs _ (ground arith) (link-Below k link (link == 0) (ground arith)))
  | inr other ↦ rw other (scan-Below k c rs found (ground arith) b)
]

sql_links : links_below (length codes) list_sql_error_link ≡ true
unfolding links_below codes list_sql_error_link
sql_links = refl

server_links : links_below (length codes) list_error_link ≡ true
unfolding links_below codes list_error_link
server_links = refl

-- For every code, a place that `findError` of either table answers is one of `codes`: the state is
-- never read behind the table.
pub find_error-in_codes :
    (c : ℤ)
    → Below (length codes) (find_error default_calc_hash list_sql_error_link c)
      × Below (length codes) (find_error fb_error_calc_hash list_error_link c)
find_error-in_codes c = (
  rw (find_error-scan default_calc_hash c list_sql_error_link)
      (scan-Below (length codes) c list_sql_error_link none sql_links tt),
  rw (find_error-scan fb_error_calc_hash c list_error_link)
      (scan-Below (length codes) c list_error_link none server_links tt),
)
