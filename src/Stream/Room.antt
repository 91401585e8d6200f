-- ===== src/Stream/Room.antt =====
-- How much `Stream::compress` writes, and the records that `Stream::decompress` refuses.
use firebird_odbc_driver.Base.{
  ℕ, zero, suc, ◌+◌, ◌*◌, ◌/◌, ◌%◌, ◌≤◌, ◌<◌, ◌≡◌, refl, ap, ◌∙◌, ◌⊎◌, inl, inr, true, false, ◌||◌,
  List, [], ◌∷◌, ◌++◌, arith, leb, ◌==◌, Bool-cases, length, length-append, replicate,
}
use firebird_odbc_driver.Base.Int.{pos}
use firebird_odbc_driver.Stream.Compress.{
  run_starts, literal, run_of, emit, emit_run, compress_loop, compress, allocated, Progress,
  corrupted, take_short, onward, take_shorts, take_segments, decompress,
}
use firebird_odbc_driver.Stream.RoundTrip.{literal-append, length-run_of, length-parts}

-- A literal ends at the end of the record or where a run starts.
literal-stops :
    (past : ℕ) (xs : List ℕ)
    → ((literal past xs).1 ≡ []) ⊎ (run_starts past (literal past xs).1 ≡ true)
unfolding literal
literal-stops past [] = inl refl
literal-stops past (a ∷ xs) = elim (Bool-cases (run_starts past (a ∷ xs))) [
  | inl stops ↦ rw stops (inr stops)
  | inr goes ↦ rw goes (literal-stops past xs)
]

-- A run has two shorts at the end of the record, three or more elsewhere.
run-long :
    (past a : ℕ) (r : List ℕ)
    → run_starts past (a ∷ r) ≡ true
    → (2 ≤ (run_of a r).0) ⊎ ((1 ≤ (run_of a r).0) × ((run_of a r).1 ≡ []))
unfolding run_of
run-long past a [] h = cc
run-long past a (b ∷ []) h = inr (ground arith, ground arith)
run-long past a (b ∷ c ∷ r) h = inl (ground arith)

length-emit : (l : List ℕ) → length (emit l) ≤ length l + 1
length-emit [] = omega arith
length-emit (a ∷ l) = omega arith

length-compress_nil : (past fuel : ℕ) → compress_loop past fuel [] ≡ []
unfolding compress_loop
length-compress_nil past zero = refl
length-compress_nil past (suc fuel) = refl

length-round :
    (past fuel : ℕ) (l r xs : List ℕ)
    → l ++ r ≡ xs
    → length xs ≤ suc fuel
    → (r ≡ []) ⊎ (run_starts past r ≡ true)
    → ((ys : List ℕ) → length ys ≤ fuel → length (compress_loop past fuel ys) ≤ length ys + 1)
    → length (emit l ++ emit_run (compress_loop past fuel) r) ≤ length xs + 1
length-round past fuel l [] xs e h stop next =
    omega (arith, length-parts l [] xs e, length-append (emit l) [], length-emit l)
length-round past fuel l (a ∷ r) xs e h (inl stop) next = cc
length-round past fuel l (a ∷ r) xs e h (inr starts) next =
    let rest : List ℕ = (run_of a r).1 in
    let out =
      length-append (emit l) (((run_of a r).0 + 1) % 65536 ∷ a ∷ compress_loop past fuel rest) in
    let parts = length-parts l (a ∷ r) xs e in
    let run = length-run_of a r in
    elim (run-long past a r starts) [
      | inl long ↦ omega (arith, out, parts, run, length-emit l, next rest (omega arith))
      | inr (two, last) ↦
          let none_left : length (compress_loop past fuel rest) ≡ 0 =
            ap (λ (t : List ℕ). length (compress_loop past fuel t)) last
            ∙ ap (λ (t : List ℕ). length t) (length-compress_nil past fuel) in
          omega (arith, out, parts, run, length-emit l, none_left)
    ]

length-compress_loop :
    (past fuel : ℕ) (xs : List ℕ)
    → length xs ≤ fuel
    → length (compress_loop past fuel xs) ≤ length xs + 1
unfolding compress_loop
length-compress_loop past zero xs h = omega arith
length-compress_loop past (suc fuel) [] h = omega arith
length-compress_loop past (suc fuel) (b ∷ xs) h =
    length-round past fuel (literal past (b ∷ xs)).0 (literal past (b ∷ xs)).1 (b ∷ xs)
      (literal-append past (b ∷ xs)) h (literal-stops past (b ∷ xs))
      (length-compress_loop past fuel)

-- `compress` never writes more bytes than the `size + 5` that it allocates, whatever the record
-- of that size, in shorts, and whatever short stands behind its end.
pub compress-fits :
    (past size : ℕ) (xs : List ℕ)
    → length xs ≡ (size + 1) / 2
    → 2 * length (compress past size xs) ≤ allocated size
unfolding compress
compress-fits past size xs h = omega (arith, length-compress_loop past (length xs) xs (omega arith))

run_of-replicate : (a n : ℕ) → run_of a (replicate n a) ≡ (n, [])
unfolding run_of
run_of-replicate a zero = refl
run_of-replicate a (suc n) =
    let t : (a == a) ≡ true = ground arith in
    let e : n + 1 ≡ suc n = omega arith in rw (t, run_of-replicate a n) (ap (λ (m : ℕ). (m, [])) e)

literal-replicate :
    (past a n : ℕ)
    → literal past (replicate (suc (suc (suc n))) a) ≡ ([], replicate (suc (suc (suc n))) a)
unfolding literal
literal-replicate past a n = let t : (a == a) ≡ true = ground arith in rw t

compress-replicate :
    (past fuel a n : ℕ)
    → compress_loop past (suc fuel) (replicate (suc (suc (suc n))) a) ≡ (n + 3) % 65536 ∷ a ∷ []
unfolding compress_loop
compress-replicate past fuel a n =
    let e : suc (suc n) + 1 ≡ n + 3 = omega arith in
    rw (literal-replicate past a n)
      (rw (run_of-replicate a (suc (suc n)), length-compress_nil past fuel, e))

-- A record of three or more equal shorts whose size is odd, and below 32005, the last byte being
-- that of the padding, is refused by `decompress` as corrupted: the test of a run counts whole shorts against
-- a limit in bytes.
pub decompress-odd_run :
    (past a n : ℕ)
    → n < 16000
    → decompress (compress past (2 * n + 5) (replicate (suc (suc (suc n))) a) ∷ []) ≡ corrupted
unfolding compress decompress take_shorts
decompress-odd_run past a n h =
    let size : ℕ = 2 * n + 5 in
    let e : size % 65536 ≡ size = omega arith in
    let t : (size == 0 || leb 32768 size) ≡ false = ground arith in
    let step : take_short size [] (pos 0) ((n + 3) % 65536) ≡ corrupted = ground arith in
    rw (compress-replicate past (suc (suc (length (replicate n a)))) a n) (
      rw e (
        rw t (
          ap
            (λ (p : Progress).
              take_segments size (onward (λ q run. take_shorts size q run (a ∷ [])) p) [])
            step)))
