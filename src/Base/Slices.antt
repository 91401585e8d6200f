-- ===== src/Base/Slices.antt =====
-- Laws of `take` and `drop` on lists measured by native numbers.
use Prim.Native.Nat.{ℕ, zero, suc, ◌+◌, ◌-◌, ◌≤◌}
use mathlib.Core.Path.{◌≡◌, refl, sym, ap, ◌∙◌}
use mathlib.Core.List.{List, [], ◌∷◌, ◌++◌}
use native.Mathlib.Omega.{arith}
use firebird_odbc_driver.Base.Lists.{length, take, drop}

module _ {ℓ} {A : Type ℓ} where
  pub take_of_ge : (k : ℕ) (xs : List A) → length xs ≤ k → take k xs ≡ xs
  take_of_ge zero [] h = refl
  take_of_ge zero (x ∷ xs) h = absurd (omega arith)
  take_of_ge (suc k) [] h = refl
  take_of_ge (suc k) (x ∷ xs) h = ap (λ (t : List A). x ∷ t) (take_of_ge k xs (omega arith))

  pub drop_of_ge : (k : ℕ) (xs : List A) → length xs ≤ k → drop k xs ≡ []
  drop_of_ge zero [] h = refl
  drop_of_ge zero (x ∷ xs) h = absurd (omega arith)
  drop_of_ge (suc k) [] h = refl
  drop_of_ge (suc k) (x ∷ xs) h = drop_of_ge k xs (omega arith)

  pub take-append_le : (k : ℕ) (xs ys : List A) → k ≤ length xs → take k (xs ++ ys) ≡ take k xs
  take-append_le zero xs ys h = refl
  take-append_le (suc k) [] ys h = absurd (omega arith)
  take-append_le (suc k) (x ∷ xs) ys h =
      ap (λ (t : List A). x ∷ t) (take-append_le k xs ys (omega arith))

  pub take-append_add : (k : ℕ) (xs ys : List A) → take (length xs + k) (xs ++ ys) ≡ xs ++ take k ys
  take-append_add k [] ys = ap (λ (n : ℕ). take n ys) (omega arith)
  take-append_add k (x ∷ xs) ys =
      let e : suc (length xs) + k ≡ suc (length xs + k) = omega arith in
      rw e (ap (λ (t : List A). x ∷ t) (take-append_add k xs ys))

  pub drop-append_le :
      (k : ℕ) (xs ys : List A) → k ≤ length xs → drop k (xs ++ ys) ≡ drop k xs ++ ys
  drop-append_le zero xs ys h = refl
  drop-append_le (suc k) [] ys h = absurd (omega arith)
  drop-append_le (suc k) (x ∷ xs) ys h = drop-append_le k xs ys (omega arith)

  pub drop-append_ge :
      (k : ℕ) (xs ys : List A) → length xs ≤ k → drop k (xs ++ ys) ≡ drop (k - length xs) ys
  drop-append_ge k [] ys h = ap (λ (n : ℕ). drop n ys) (omega arith)
  drop-append_ge zero (x ∷ xs) ys h = absurd (omega arith)
  drop-append_ge (suc k) (x ∷ xs) ys h =
      drop-append_ge k xs ys (omega arith) ∙ ap (λ (n : ℕ). drop n ys) (omega arith)

  -- A request that goes past `xs` takes all of it and the rest from `ys`.
  pub take-append_ge :
      (k : ℕ) (xs ys : List A) → length xs ≤ k → take k (xs ++ ys) ≡ xs ++ take (k - length xs) ys
  take-append_ge k xs ys h =
      ap (λ (n : ℕ). take n (xs ++ ys)) (omega arith) ∙ take-append_add (k - length xs) xs ys

  pub take-take-drop : (a b : ℕ) (xs : List A) → take a xs ++ take b (drop a xs) ≡ take (a + b) xs
  take-take-drop zero b xs = ap (λ (n : ℕ). take n xs) (omega arith)
  take-take-drop (suc a) zero [] = sym (take_of_ge (suc a + zero) [] (omega arith))
  take-take-drop (suc a) (suc b) [] = sym (take_of_ge (suc a + suc b) [] (omega arith))
  take-take-drop (suc a) b (x ∷ xs) =
      let e : suc a + b ≡ suc (a + b) = omega arith in
      rw e (ap (λ (t : List A). x ∷ t) (take-take-drop a b xs))

  pub drop-drop : (a b : ℕ) (xs : List A) → drop b (drop a xs) ≡ drop (a + b) xs
  drop-drop zero b xs = ap (λ (n : ℕ). drop n xs) (omega arith)
  drop-drop (suc a) zero [] = sym (drop_of_ge (suc a + zero) [] (omega arith))
  drop-drop (suc a) (suc b) [] = sym (drop_of_ge (suc a + suc b) [] (omega arith))
  drop-drop (suc a) b (x ∷ xs) =
      let e : suc a + b ≡ suc (a + b) = omega arith in rw e (drop-drop a b xs)

  pub take-length-take : (k : ℕ) (xs : List A) → take (length (take k xs)) xs ≡ take k xs
  take-length-take zero xs = refl
  take-length-take (suc k) [] = refl
  take-length-take (suc k) (x ∷ xs) = ap (λ (t : List A). x ∷ t) (take-length-take k xs)

  pub length-snoc : (xs : List A) (x : A) → length (xs ++ x ∷ []) ≡ length xs + 1
  length-snoc [] x = omega arith
  length-snoc (y ∷ xs) x = omega (arith, length-snoc xs x)
