-- ===== src/Stream/RoundTrip.antt =====
-- `decompress` after `compress`: the record comes back.
use firebird_odbc_driver.Base.{
  ℕ, zero, suc, ◌+◌, ◌-◌, ◌*◌, ◌%◌, ◌≤◌, ◌<◌, ◌≡◌, refl, sym, ap, ◌∙◌, inl, inr, false, ◌||◌, List,
  [], ◌∷◌, ◌++◌, append-nil, append_assoc, arith, leb, ◌==◌, ==_iff, Bool-cases, length,
  length-append, replicate, length-replicate,
}
use firebird_odbc_driver.Base.Int.{ℤ, pos, negsuc}
use firebird_odbc_driver.Stream.Compress.{
  run_starts, literal, run_of, emit, emit_run, compress_loop, compress, going, returned, take_short,
  onward, take_shorts, decompress,
}

pub literal-append : (past : ℕ) (xs : List ℕ) → (literal past xs).0 ++ (literal past xs).1 ≡ xs
unfolding literal
literal-append past [] = refl
literal-append past (a ∷ xs) = elim (Bool-cases (run_starts past (a ∷ xs))) [
  | inl stops ↦ rw stops
  | inr goes ↦ rw goes (ap (λ (t : List ℕ). a ∷ t) (literal-append past xs))
]

run_of-append : (a : ℕ) (xs : List ℕ) → replicate (run_of a xs).0 a ++ (run_of a xs).1 ≡ xs
unfolding run_of
run_of-append a [] = refl
run_of-append a (b ∷ xs) = elim (Bool-cases (b == a)) [
  | inl same ↦ rw same (
      let e : (run_of a xs).0 + 1 ≡ suc (run_of a xs).0 = omega arith in
      rw (e, (==_iff b a).0 same) (ap (λ (t : List ℕ). a ∷ t) (run_of-append a xs)))
  | inr other ↦ rw other
]

take_shorts-step :
    (size n : ℕ) (q q' ns : List ℕ) (run run' : ℤ)
    → take_short size q run n ≡ going q' run'
    → take_shorts size q run (n ∷ ns) ≡ take_shorts size q' run' ns
unfolding take_shorts
take_shorts-step size n q q' ns run run' e = ap (onward (λ q' run'. take_shorts size q' run' ns)) e

take_negative :
    (size j : ℕ) (q l rest : List ℕ)
    → length l ≡ j + 1
    → take_shorts size q (negsuc j) (l ++ rest) ≡ take_shorts size (q ++ l) (pos 0) rest
unfolding take_shorts
take_negative size j q [] rest h = absurd (omega arith)
take_negative size zero q (a ∷ []) rest h = refl
take_negative size zero q (a ∷ b ∷ l) rest h = absurd (omega arith)
take_negative size (suc j) q (a ∷ l) rest h =
    take_negative size j (q ++ a ∷ []) l rest (omega arith)
    ∙ ap (λ (t : List ℕ). take_shorts size t (pos 0) rest) (append_assoc q (a ∷ []) l)

take-emit :
    (size : ℕ) (q l rest : List ℕ)
    → length l < 32768
    → 2 * length q ≤ size
    → take_shorts size q (pos 0) (emit l ++ rest) ≡ take_shorts size (q ++ l) (pos 0) rest
take-emit size q [] rest h fits =
    ap (λ (t : List ℕ). take_shorts size t (pos 0) rest) (sym (append-nil q))
take-emit size q (a ∷ l) rest h fits =
    take_shorts-step size ((65536 - length (a ∷ l) % 65536) % 65536) q q (a ∷ l ++ rest) (pos 0)
      (negsuc (length l)) (ground arith)
    ∙ take_negative size (length l) q (a ∷ l) rest (omega arith)

take-run :
    (size n a : ℕ) (q rest : List ℕ)
    → n + 1 < 32768
    → 2 * (length q + (n + 1)) ≤ size
    → take_shorts size q (pos 0) ((n + 1) % 65536 ∷ a ∷ rest)
      ≡ take_shorts size (q ++ a ∷ replicate n a) (pos 0) rest
take-run size n a q rest h fits =
    take_shorts-step size ((n + 1) % 65536) q q (a ∷ rest) (pos 0) (pos (suc n)) (ground arith)
    ∙ take_shorts-step size a q (q ++ a ∷ replicate n a) rest (pos (suc n)) (pos 0) refl

pub length-run_of : (a : ℕ) (xs : List ℕ) → (run_of a xs).0 + length (run_of a xs).1 ≡ length xs
length-run_of a xs = omega (
  arith,
  ap (λ (t : List ℕ). length t) (run_of-append a xs),
  length-append (replicate (run_of a xs).0 a) (run_of a xs).1,
  length-replicate (run_of a xs).0 a,
)

pub length-parts : (l r xs : List ℕ) → l ++ r ≡ xs → length l + length r ≡ length xs
length-parts l r xs e = omega (arith, ap (λ (t : List ℕ). length t) e, length-append l r)

-- The bytes behind `q` once a literal `l` and the run of `a` in front of `r` are decoded.
regroup :
    (q l r : List ℕ) (a : ℕ)
    → ((q ++ l) ++ a ∷ replicate (run_of a r).0 a) ++ (run_of a r).1 ≡ q ++ (l ++ a ∷ r)
regroup q l r a =
    append_assoc (q ++ l) (a ∷ replicate (run_of a r).0 a) (run_of a r).1
    ∙ ap (λ (t : List ℕ). (q ++ l) ++ a ∷ t) (run_of-append a r)
    ∙ append_assoc q l (a ∷ r)

module _ (past fuel size : ℕ) (small : size < 32768) where
  -- That the shorts made of a record of at most `fuel` shorts decode to it.
  abbrev Decodes : Type 0
  Decodes =
      (q xs : List ℕ)
      → length xs ≤ fuel
      → 2 * (length q + length xs) ≤ size
      → take_shorts size q (pos 0) (compress_loop past fuel xs) ≡ going (q ++ xs) (pos 0)

  take-round :
      (q l r xs : List ℕ)
      → l ++ r ≡ xs
      → length xs ≤ suc fuel
      → 2 * (length q + length xs) ≤ size
      → Decodes
      → take_shorts size q (pos 0) (emit l ++ emit_run (compress_loop past fuel) r)
        ≡ going (q ++ xs) (pos 0)
  unfolding take_shorts
  take-round q l [] xs e h fits next =
      take-emit size q l [] (omega (arith, length-parts l [] xs e)) (omega arith)
      ∙ ap (λ (t : List ℕ). going (q ++ t) (pos 0)) (sym (append-nil l) ∙ e)
  take-round q l (a ∷ r) xs e h fits next =
      let n : ℕ = (run_of a r).0 in
      let rest : List ℕ = (run_of a r).1 in
      let q' : List ℕ = (q ++ l) ++ a ∷ replicate n a in
      let parts = length-parts l (a ∷ r) xs e in
      let run = length-run_of a r in
      let l' = length-append q l in
      let l'' = length-append (q ++ l) (a ∷ replicate n a) in
      let ln = length-replicate n a in
      take-emit size q l ((n + 1) % 65536 ∷ a ∷ compress_loop past fuel rest) (omega arith)
        (omega arith)
      ∙ take-run size n a (q ++ l) (compress_loop past fuel rest) (omega arith) (omega arith)
      ∙ next q' rest (omega arith) (omega arith)
      ∙ ap (λ (t : List ℕ). going t (pos 0)) (regroup q l r a ∙ ap (λ (t : List ℕ). q ++ t) e)

-- Whatever stands behind the record, the shorts of `compress` decode to the record.
take-compress : (past fuel size : ℕ) (small : size < 32768) → Decodes past fuel size small
unfolding compress_loop take_shorts
take-compress past zero size small q [] h fits =
    ap (λ (t : List ℕ). going t (pos 0)) (sym (append-nil q))
take-compress past zero size small q (a ∷ xs) h fits = absurd (omega arith)
take-compress past (suc fuel) size small q [] h fits =
    ap (λ (t : List ℕ). going t (pos 0)) (sym (append-nil q))
take-compress past (suc fuel) size small q (b ∷ xs) h fits =
    take-round past fuel size small q (literal past (b ∷ xs)).0 (literal past (b ∷ xs)).1 (b ∷ xs)
      (literal-append past (b ∷ xs)) h fits (take-compress past fuel size small)

-- A record of an even number of bytes, above 0 and below 32768, comes back from `decompress` as it was given to
-- `compress`, whatever short `compress` reads behind its end.
pub decompress-compress :
    (past : ℕ) (xs : List ℕ)
    → 0 < length xs
    → 2 * length xs < 32768
    → decompress (compress past (2 * length xs) xs ∷ []) ≡ returned xs
unfolding compress decompress
decompress-compress past xs some_shorts small =
    let size : ℕ = 2 * length xs in
    let e : size % 65536 ≡ size = omega arith in
    let t : (size == 0 || leb 32768 size) ≡ false = ground arith in
    rw e (rw (t, take-compress past (length xs) size small [] xs (omega arith) (omega arith)))
