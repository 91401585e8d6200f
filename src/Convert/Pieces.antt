-- ===== src/Convert/Pieces.antt =====
-- One call that returns a piece of a column: what it keeps, and when it says what.
use firebird_odbc_driver.Base.{
  ℕ, ◌+◌, ◌-◌, ◌≤◌, ◌<◌, min, ◌≡◌, ◌↔◌, refl, ap, ◌∙◌, inl, inr, Bool, true, false, ◌&&◌, Option,
  none, some, List, [], ◌∷◌, ◌++◌, arith, ltb, ◌==◌, if◌then◌else◌, length, take, drop, Bool-cases,
  length-take, length-drop, length-append, drop-append_ge, drop-drop, Option-cases, subst,
}
use firebird_odbc_driver.Convert.{
  DescRecord, sql_success, sql_success_with_info, Outcome, memory, overwrite, is_null_data,
  check_null, start_row, set_length, is_done, return_piece, conv_string_to_string,
  conv_string_to_binary, conv_var_string_to_string, conv_var_string_to_binary, var_length,
}

-- The buffer of the target keeps its size, and the chars behind its `length` stay as they were.
abbrev pub Keeps : (before after : DescRecord) → Type 0
Keeps before after =
    (length (memory after) ≡ length (memory before))
    × (drop before.data_length (memory after) ≡ drop before.data_length (memory before))

overwrite-Keeps :
    (xs m : List ℕ) (n : ℕ)
    → length xs ≤ n
    → n ≤ length m
    → (length (overwrite xs m) ≡ length m) × (drop n (overwrite xs m) ≡ drop n m)
overwrite-Keeps xs m n h k =
    let back : length xs + (n - length xs) ≡ n = omega arith in
    (
      omega (arith, length-append xs (drop (length xs) m), length-drop (length xs) m),
      drop-append_ge n xs (drop (length xs) m) h
          ∙ drop-drop (length xs) (n - length xs) m
          ∙ ap (λ j. drop j m) back,
    )

pub memory-set_length : (n : ℕ) (to : DescRecord) → memory (set_length n to) ≡ memory to
unfolding set_length
memory-set_length n to = elim (Bool-cases to.is_indicator_sql_da) [
  | inl h ↦ rw h refl
  | inr h ↦ rw h refl
]

-- What a call may leave of a target, and of an offset in a text of `n` chars.
abbrev pub IsFine : (n : ℕ) → DescRecord → Outcome → Type 0
IsFine n to o =
    (o.from.data_offset ≤ n)
    × Keeps to o.to
    × ((o.truncated ≡ true) ↔ (o.ret ≡ sql_success_with_info))

with_info :
    (b : Bool)
    → (b ≡ true) ↔ ((if b then sql_success_with_info else sql_success) ≡ sql_success_with_info)
with_info true = (λ e. refl, λ e. refl)
with_info false = (λ e. ground arith, λ e. ground arith)

Keeps-set_length :
    (n : ℕ) (before to : DescRecord) → Keeps before to → Keeps before (set_length n to)
Keeps-set_length n before to h = rw (memory-set_length n to) h

size_of_memory :
    (m : List ℕ) (to : DescRecord)
    → to.data_ptr ≡ some m
    → to.data_length ≤ length (memory to)
    → to.data_length ≤ length m
size_of_memory m to e k =
    subst (λ o. to.data_length ≤ length (elim o [ none ↦ [] | some m ↦ m ])) e k

Keeps-overwrite :
    (xs m : List ℕ) (to : DescRecord)
    → to.data_ptr ≡ some m
    → length xs ≤ to.data_length
    → to.data_length ≤ length (memory to)
    → Keeps to (record to { data_ptr = some (overwrite xs m) })
Keeps-overwrite xs m to e l k =
    rw e (overwrite-Keeps xs m to.data_length l (size_of_memory m to e k))

-- A NULL target ends the transfer, any other is what it writes to.
no_target :
    (n : ℕ) (from to : DescRecord) (o : Option (List ℕ)) (transfer : List ℕ → Outcome)
    → from.data_offset ≤ n
    → ((m : List ℕ) → o ≡ some m → IsFine n to (transfer m))
    → IsFine n to (elim o [
      | none ↦ record { ret = sql_success; from = from; to = to; truncated = false }
      | some m ↦ transfer m
    ])
no_target n from to none transfer h f = (h, (refl, refl), with_info false)
no_target n from to (some m) transfer h f = f m refl

check_null-IsFine :
    (n : ℕ) (from to : DescRecord) (transfer : List ℕ → Outcome)
    → 0 < to.data_length
    → to.data_length ≤ length (memory to)
    → from.data_offset ≤ n
    → ((m : List ℕ) → to.data_ptr ≡ some m → IsFine n to (transfer m))
    → IsFine n to (check_null from to transfer)
unfolding check_null
check_null-IsFine n from to transfer p k h f = elim (Bool-cases (is_null_data from.indicator)) [
  | inl null ↦ elim (Option-cases to.data_ptr) [
    | inl e ↦ rw (null, e) (h, (refl, refl), with_info false)
    | inr (m, e) ↦ rw null (
        rw e (
          h,
          overwrite-Keeps (0 ∷ []) m to.data_length p (size_of_memory m to e k),
          with_info false,
        ))
  ]
  | inr there ↦ rw there (no_target n from to to.data_ptr transfer h f)
]

return_piece-IsFine :
    (tail : List ℕ) (status_return_data fetched : Bool) (n : ℕ) (chars m : List ℕ)
    (from to : DescRecord)
    → length tail ≤ to.data_length
    → 0 < to.data_length
    → to.data_length ≤ length (memory to)
    → from.data_offset ≤ n
    → to.data_ptr ≡ some m
    → IsFine n to (return_piece tail status_return_data fetched n chars from to m)
unfolding return_piece
return_piece-IsFine tail status_return_data fetched n chars m from to l p k h e =
    let open_ : (to.data_length == 0) ≡ false = ground arith in
    let len = min (n - from.data_offset) (to.data_length - length tail) in
    let piece = take len (drop from.data_offset chars) in
    let size : length (piece ++ tail) ≤ to.data_length =
      omega (arith, length-append piece tail, length-take len (drop from.data_offset chars)) in
    let kept = Keeps-overwrite (piece ++ tail) m to e size k in
    elim (Bool-cases (is_done fetched (n - from.data_offset) from)) [
      | inl done ↦
          rw (open_, done)
            (
              omega arith,
              Keeps-set_length n to to (refl, refl),
              (λ e. ground arith, λ e. ground arith),
            )
      | inr more ↦
          rw (open_, more)
            (
              moved status_return_data,
              Keeps-set_length (n - from.data_offset) to _ kept,
              with_info (ltb 0 len && ltb len (n - from.data_offset)),
            )
    ]
  where
    moved :
        (b : Bool)
        → (if b
            then from.data_offset
            else from.data_offset + min (n - from.data_offset) (to.data_length - length tail))
          ≤ n
    moved true = h
    moved false = omega arith

start_row_offset :
    (n current : ℕ) (from : DescRecord)
    → from.data_offset ≤ n
    → (start_row current from).data_offset ≤ n
unfolding start_row
start_row_offset n current from h = elim (Bool-cases (from.current_fetched == current)) [
  | inl e ↦ rw e h
  | inr e ↦ rw e (omega arith)
]

-- Whatever the state of the column is, with an offset inside its text and a target of at least one
-- char, a call of `convStringToString` or `convStringToBinary` leaves the offset inside the text, writes
-- nothing behind the `length` chars of the target, and posts a truncation exactly if it answers
-- SQL_SUCCESS_WITH_INFO.
pub conv_string-IsFine :
    (status_return_data : Bool) (current : ℕ) (from to : DescRecord)
    → 0 < to.data_length
    → to.data_length ≤ length (memory to)
    → from.data_offset ≤ from.data_length
    → IsFine from.data_length to (conv_string_to_string status_return_data current from to)
      × IsFine from.data_length to (conv_string_to_binary status_return_data current from to)
unfolding conv_string_to_string conv_string_to_binary
conv_string-IsFine status_return_data current from to p k h =
    let n = from.data_length in
    let fetched = from.current_fetched == current in
    let started = start_row_offset n current from h in
    (
      check_null-IsFine n from to _ p k h (λ m.
          return_piece-IsFine (0 ∷ []) status_return_data fetched n (memory from) m
            (start_row current from) to p p k started),
      check_null-IsFine n from to _ p k h (λ m.
          return_piece-IsFine [] status_return_data fetched n (memory from) m
            (start_row current from) to (omega arith) p k started),
    )

-- The same of `convVarStringToString` and `convVarStringToBinary`, with the length in the two bytes before
-- the text.
pub conv_var_string-IsFine :
    (status_return_data : Bool) (current : ℕ) (from to : DescRecord)
    → 0 < to.data_length
    → to.data_length ≤ length (memory to)
    → from.data_offset ≤ var_length (memory from)
    → IsFine
        (var_length (memory from))
        to
        (conv_var_string_to_string status_return_data current from to)
      × IsFine
          (var_length (memory from))
          to
          (conv_var_string_to_binary status_return_data current from to)
unfolding conv_var_string_to_string conv_var_string_to_binary
conv_var_string-IsFine status_return_data current from to p k h =
    let n = var_length (memory from) in
    let fetched = from.current_fetched == current in
    let started = start_row_offset n current from h in
    (
      check_null-IsFine n from to _ p k h (λ m.
          return_piece-IsFine (0 ∷ []) status_return_data fetched n (drop 2 (memory from)) m
            (start_row current from) to p p k started),
      check_null-IsFine n from to _ p k h (λ m.
          return_piece-IsFine [] status_return_data fetched n (drop 2 (memory from)) m
            (start_row current from) to (omega arith) p k started),
    )
