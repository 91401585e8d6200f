-- ===== src/StaticCursor/Blocks.antt =====
-- Blocks of 40 rows, in a row: the lists under `CDataStaticCursor` of IscDbc/Sqlda.cpp.
use firebird_odbc_driver.Base.{
  ℕ, zero, suc, ◌+◌, ◌-◌, ◌*◌, ◌/◌, ◌≤◌, ◌<◌, ◌≡◌, refl, sym, ap, ◌∙◌, inl, inr, true, false, some,
  List, [], ◌∷◌, ◌++◌, append-nil, append_assoc, arith, ltb, leb, ◌==◌, if◌then◌else◌, length,
  get_elem?, set, get_or, replicate, length-append, length-replicate, Bool-cases,
}
use firebird_odbc_driver.StaticCursor.{new_block, grown, find_block}

module _ {ℓ} {A : Type ℓ} where
  unfoldable pub flat : List (List A) → List A
  flat [] = []
  flat (b ∷ bs) = b ++ flat bs

  pub data Whole : List (List A) → Type ℓ where
    nil : Whole []
    cons : {b : List A} {bs : List (List A)} → length b ≡ 40 → Whole bs → Whole (b ∷ bs)

  get_elem?-append :
      (xs ys : List A) (i : ℕ)
      → get_elem? (xs ++ ys) i
        ≡ (if ltb i (length xs) then get_elem? xs i else get_elem? ys (i - length xs))
  get_elem?-append [] ys i =
      let t : ltb i zero ≡ false = ground arith in
      let e : i - zero ≡ i = omega arith in rw (t, e) refl
  get_elem?-append (x ∷ xs) ys zero =
      let t : ltb zero (suc (length xs)) ≡ true = ground arith in rw t refl
  get_elem?-append (x ∷ xs) ys (suc i) = elim (Bool-cases (ltb i (length xs))) [
    | inl h ↦
        let t : ltb (suc i) (suc (length xs)) ≡ true = ground arith in
        rw t (get_elem?-append xs ys i ∙ rw h refl)
    | inr h ↦
        let t : ltb (suc i) (suc (length xs)) ≡ false = ground arith in
        let e : suc i - suc (length xs) ≡ i - length xs = omega arith in
        rw (t, e) (get_elem?-append xs ys i ∙ rw h refl)
  ]

  set-append :
      (xs ys : List A) (i : ℕ) (v : A)
      → set (xs ++ ys) i v
        ≡ (if ltb i (length xs) then set xs i v ++ ys else xs ++ set ys (i - length xs) v)
  set-append [] ys i v =
      let t : ltb i zero ≡ false = ground arith in
      let e : i - zero ≡ i = omega arith in rw (t, e) refl
  set-append (x ∷ xs) ys zero v =
      let t : ltb zero (suc (length xs)) ≡ true = ground arith in rw t refl
  set-append (x ∷ xs) ys (suc i) v = elim (Bool-cases (ltb i (length xs))) [
    | inl h ↦
        let t : ltb (suc i) (suc (length xs)) ≡ true = ground arith in
        rw t (ap (λ zs. x ∷ zs) (set-append xs ys i v ∙ rw h refl))
    | inr h ↦
        let t : ltb (suc i) (suc (length xs)) ≡ false = ground arith in
        let e : suc i - suc (length xs) ≡ i - length xs = omega arith in
        rw (t, e) (ap (λ zs. x ∷ zs) (set-append xs ys i v ∙ rw h refl))
  ]

  pub length-flat : {bs : List (List A)} → Whole bs → length (flat bs) ≡ 40 * length bs
  unfolding flat
  length-flat nil = refl
  length-flat (cons {b} {bs} h w) = length-append b (flat bs) ∙ omega (arith, h, length-flat w)

  pub length-block_at :
      {bs : List (List A)} (j : ℕ) → Whole bs → j < length bs → length (get_or bs j []) ≡ 40
  length-block_at j nil k = absurd (omega arith)
  length-block_at zero (cons h w) k = h
  length-block_at (suc j) (cons h w) k = length-block_at j w (omega arith)

  pub get_elem?-block_at :
      {bs : List (List A)} (j r : ℕ)
      → Whole bs
      → j < length bs
      → r < 40
      → get_elem? (get_or bs j []) r ≡ get_elem? (flat bs) (40 * j + r)
  unfolding flat
  get_elem?-block_at j r nil k l = absurd (omega arith)
  get_elem?-block_at zero r (cons {b} {bs} h w) k l =
      let inside : ltb (40 * zero + r) (length b) ≡ true = ground arith in
      let e : 40 * zero + r ≡ r = omega arith in
      sym (get_elem?-append b (flat bs) (40 * zero + r) ∙ rw (inside, e) refl)
  get_elem?-block_at (suc j) r (cons {b} {bs} h w) k l =
      let outside : ltb (40 * suc j + r) (length b) ≡ false = ground arith in
      let e : 40 * suc j + r - length b ≡ 40 * j + r = omega (arith, h) in
      get_elem?-block_at j r w (omega arith) l
      ∙ sym (get_elem?-append b (flat bs) (40 * suc j + r) ∙ rw (outside, e) refl)

  -- A row written in its block is the row written in all.
  pub flat-set :
      {bs : List (List A)} (j r : ℕ) (v : A)
      → Whole bs
      → j < length bs
      → r < 40
      → flat (set bs j (set (get_or bs j []) r v)) ≡ set (flat bs) (40 * j + r) v
  unfolding flat
  flat-set j r v nil k l = absurd (omega arith)
  flat-set zero r v (cons {b} {bs} h w) k l =
      let inside : ltb (40 * zero + r) (length b) ≡ true = ground arith in
      let e : 40 * zero + r ≡ r = omega arith in
      sym (set-append b (flat bs) (40 * zero + r) v ∙ rw (inside, e) refl)
  flat-set (suc j) r v (cons {b} {bs} h w) k l =
      let outside : ltb (40 * suc j + r) (length b) ≡ false = ground arith in
      let e : 40 * suc j + r - length b ≡ 40 * j + r = omega (arith, h) in
      ap (λ rows. b ++ rows) (flat-set j r v w (omega arith) l)
      ∙ sym (set-append b (flat bs) (40 * suc j + r) v ∙ rw (outside, e) refl)

  pub set-Whole :
      {bs : List (List A)} (j : ℕ) (b : List A) → Whole bs → length b ≡ 40 → Whole (set bs j b)
  set-Whole j b nil h = nil
  set-Whole zero b (cons k w) h = cons h w
  set-Whole (suc j) b (cons k w) h = cons k (set-Whole j b w h)

  pub append-Whole :
      {bs : List (List A)} (b : List A) → Whole bs → length b ≡ 40 → Whole (bs ++ b ∷ [])
  append-Whole b nil h = cons h nil
  append-Whole b (cons k w) h = cons k (append-Whole b w h)

  pub flat-append : (bs : List (List A)) (b : List A) → flat (bs ++ b ∷ []) ≡ flat bs ++ b
  unfolding flat
  flat-append [] b = append-nil b
  flat-append (c ∷ bs) b =
      ap (λ rows. c ++ rows) (flat-append bs b) ∙ sym (append_assoc c (flat bs) b)

  -- Behind the blocks that were made, the rest are empty.
  pub block_at-made :
      (bs : List (List A)) (empty j : ℕ)
      → j < length bs
      → get_or (bs ++ replicate empty []) j [] ≡ get_or bs j []
  block_at-made [] empty j h = absurd (omega arith)
  block_at-made (b ∷ bs) empty zero h = refl
  block_at-made (b ∷ bs) empty (suc j) h = block_at-made bs empty j (omega arith)

  pub set-made :
      (bs : List (List A)) (empty j : ℕ) (b : List A)
      → j < length bs
      → set (bs ++ replicate empty []) j b ≡ set bs j b ++ replicate empty []
  set-made [] empty j b h = absurd (omega arith)
  set-made (c ∷ bs) empty zero b h = refl
  set-made (c ∷ bs) empty (suc j) b h = ap (λ rest. c ∷ rest) (set-made bs empty j b (omega arith))

  set-empty :
      (bs : List (List A)) (empty : ℕ) (b : List A)
      → set (bs ++ replicate (suc empty) []) (length bs) b ≡ (bs ++ b ∷ []) ++ replicate empty []
  set-empty [] empty b = refl
  set-empty (c ∷ bs) empty b = ap (λ rest. c ∷ rest) (set-empty bs empty b)

  block_at-empty :
      (bs : List (List A)) (empty : ℕ) → get_or (bs ++ replicate empty []) (length bs) [] ≡ []
  block_at-empty [] zero = refl
  block_at-empty [] (suc empty) = refl
  block_at-empty (b ∷ bs) empty = block_at-empty bs empty

  append-ten :
      (bs : List (List A)) → (bs ++ replicate 0 []) ++ replicate 10 [] ≡ bs ++ replicate 10 []
  append-ten bs = ap (λ rest. rest ++ replicate 10 []) (append-nil bs)

  -- A block that was made is left as it is, and the one behind the last is made.
  pub grown-made :
      (blank : A) (bs : List (List A)) (empty j : ℕ)
      → Whole bs
      → j < length bs
      → grown blank (bs ++ replicate empty []) j ≡ bs ++ replicate empty []
  unfolding grown
  grown-made blank bs empty j w h =
      let size : length (bs ++ replicate empty []) ≡ length bs + empty =
        length-append bs (replicate empty [])
        ∙ ap (λ n. length bs + n) (length-replicate empty []) in
      let short : (j == length (bs ++ replicate empty [])) ≡ false = ground arith in
      let full : length (get_or (bs ++ replicate empty []) j []) ≡ 40 =
        ap length (block_at-made bs empty j h) ∙ length-block_at j w h in
      rw (short, full) refl

  pub grown-new :
      (blank : A) (bs : List (List A)) (empty : ℕ)
      → (left : ℕ) × (grown blank (bs ++ replicate empty []) (length bs)
          ≡ (bs ++ new_block blank ∷ []) ++ replicate left [])
  unfolding grown
  grown-new blank bs zero =
      let size : (length bs == length (bs ++ replicate 0 [])) ≡ true =
        let e : length (bs ++ replicate 0 []) ≡ length bs = ap length (append-nil bs) in
        ground arith in
      (9, rw (size, append-ten bs, block_at-empty bs 10) (set-empty bs 9 (new_block blank)))
  grown-new blank bs (suc empty) =
      let size : length (bs ++ replicate (suc empty) []) ≡ length bs + suc empty =
        length-append bs (replicate (suc empty) [])
        ∙ ap (λ n. length bs + n) (length-replicate (suc empty) []) in
      let short : (length bs == length (bs ++ replicate (suc empty) [])) ≡ false = ground arith in
      (empty, rw (short, block_at-empty bs (suc empty)) (set-empty bs empty (new_block blank)))

  -- The block of a row, which ends `n_row` or behind, is looked for from one that starts at `n`.
  pub find_block-made :
      (bs : List (List A)) (empty i n n_row : ℕ)
      → Whole bs
      → n ≤ n_row
      → n_row ≤ n + 40 * length bs
      → 0 < length bs
      → let q = (n_row - n - 1) / 40 in
        find_block (bs ++ replicate empty []) i n n_row ≡ some (i + q, n + 40 * (q + 1))
  unfolding find_block
  find_block-made [] empty i n n_row w h k l = absurd (omega arith)
  find_block-made (b ∷ bs) empty i n n_row (cons full w) h k l =
      elim (Bool-cases (leb n_row (n + length b))) [
        | inl here ↦
            let q : (n_row - n - 1) / 40 ≡ 0 = ground arith in
            let e : i + 0 ≡ i = omega arith in rw (here, q, e, full) refl
        | inr further ↦
            let q : (n_row - n - 1) / 40 ≡ suc ((n_row - (n + length b) - 1) / 40) = ground arith in
            let x : ℕ = (n_row - (n + length b) - 1) / 40 in
            let e : suc i + x ≡ i + suc x = omega arith in
            let f : n + length b + 40 * (x + 1) ≡ n + 40 * (suc x + 1) = omega (arith, full) in
            rw (further, q)
              (find_block-made bs empty (suc i) (n + length b) n_row w (ground arith) (ground arith)
                  (ground arith)
                ∙ rw (e, f) refl)
      ]
