-- ===== src/Convert/Whole.antt =====
-- A column of a row fetched piece by piece: what an application gathers of it.
use firebird_odbc_driver.Base.{
  ℕ, zero, suc, ◌+◌, ◌-◌, ◌*◌, ◌/◌, ◌≤◌, ◌<◌, min, ◌≡◌, ◌≢◌, refl, sym, ◌∙◌, Bool, true, false,
  ◌&&◌, some, List, [], ◌∷◌, ◌++◌, arith, ltb, ◌==◌, if◌then◌else◌, length, take, drop, length-take,
  length-drop,
}
use firebird_odbc_driver.Base.Int.{ℤ, pos}
use firebird_odbc_driver.Convert.Gather.{
  bound, part, received, fetch_all, take-min, take-append-append, gather,
}
use firebird_odbc_driver.Convert.{
  DescRecord, sql_success, sql_success_with_info, Outcome, memory, overwrite, is_null_data,
  check_null, start_row, set_length, is_done, return_piece, conv_string_to_string,
  conv_string_to_binary, conv_var_string_to_string, conv_var_string_to_binary,
}

-- What a call leaves that returns `len` chars, of which `more` says whether others follow.
abbrev stepped : (tail chars m : List ℕ) (remaining len : ℕ) → DescRecord → DescRecord → Outcome
stepped tail chars m remaining len f t = record {
  ret = if ltb 0 len && ltb len remaining then sql_success_with_info else sql_success;
  from = record f { started_return_sql_data = true; data_offset = f.data_offset + len };
  to = bound (overwrite (take len (drop f.data_offset chars) ++ tail) m) (pos remaining) t;
  truncated = ltb 0 len && ltb len remaining;
}

return_piece_step :
    (tail chars m : List ℕ) (fetched : Bool) (n : ℕ) (i : ℤ) (f t : DescRecord)
    → is_done fetched (n - f.data_offset) f ≡ false
    → 0 < t.data_length
    → return_piece tail false fetched n chars f (bound m i t) m
      ≡ stepped tail chars m
          (n - f.data_offset)
          (min (n - f.data_offset) (t.data_length - length tail))
          f
          t
unfolding return_piece set_length
return_piece_step tail chars m fetched n i f t h k =
    let open_ : (t.data_length == 0) ≡ false = ground arith in rw (open_, h) refl

-- The buffer holds the piece that the indicator and the room announce.
received-stepped :
    (tail chars m : List ℕ) (room : ℕ) (f t : DescRecord)
    → let left = length chars - f.data_offset in
      received 1 room (stepped tail chars m left (min left room) f t).to
      ≡ take room (drop f.data_offset chars)
received-stepped tail chars m room f t =
    let ys = drop f.data_offset chars in
    let own : length ys ≡ length chars - f.data_offset = length-drop f.data_offset chars in
    let xs = take (min (length ys) room) ys in
    let size : length xs ≡ min (length ys) room =
      length-take (min (length ys) room) ys ∙ omega arith in
    let whole =
      take-append-append (min (length ys) room) xs tail (drop (length (xs ++ tail)) m) size in
    let unit : length ys / 1 ≡ length ys = omega arith in
    rw (sym own, unit) (whole ∙ take-min room ys)

-- The record as a call of the row finds it.
abbrev at : (current offset : ℕ) (started : Bool) → DescRecord → DescRecord
at current offset started d = record d {
  data_offset = offset;
  started_return_sql_data = started;
  current_fetched = current;
}

-- A conversion that returns pieces of `chars`, whatever it has returned of them.
module _ (conv : DescRecord → DescRecord → Outcome) (tail chars : List ℕ) (current : ℕ)
    (d t : DescRecord) (room_enough : length tail < t.data_length) where
  abbrev room : ℕ
  room = t.data_length - length tail

  fetch_all_step :
      (fuel offset : ℕ) (fetched started : Bool) (m : List ℕ) (i : ℤ) (from : DescRecord)
      → conv from (bound m i t)
        ≡ return_piece tail false fetched
            (length chars)
            chars
            (at current offset started d)
            (bound m i t)
            m
      → is_done fetched (length chars - offset) (at current offset started d) ≡ false
      → ((m : List ℕ) (i : ℤ)
          → room < length chars - offset
          → fetch_all 1 conv fuel room (part current (offset + room) d) (bound m i t)
            ≡ drop (offset + room) chars)
      → fetch_all 1 conv (suc fuel) room from (bound m i t) ≡ drop offset chars
  fetch_all_step fuel offset fetched started m i from e open_ next =
      let left = length chars - offset in
      let f = at current offset started d in
      let step =
        e ∙ return_piece_step tail chars m fetched (length chars) i f t open_ (omega arith) in
      let o = stepped tail chars m left (min left room) f t in
      gather 1 conv fuel room offset chars from (bound m i t) o step (omega arith) refl
        (received-stepped tail chars m room f t)
        (λ large. let len : min left room ≡ room = omega arith in rw len (next _ _ large))

  fetch_all-part :
      (fuel offset : ℕ) (m : List ℕ) (i : ℤ)
      → ((offset : ℕ) (m : List ℕ) (i : ℤ)
          → conv (part current offset d) (bound m i t)
            ≡ return_piece tail false true
                (length chars)
                chars
                (part current offset d)
                (bound m i t)
                m)
      → length chars - offset ≤ fuel
      → offset < length chars
      → fetch_all 1 conv fuel room (part current offset d) (bound m i t) ≡ drop offset chars
  fetch_all-part zero offset m i c k h = absurd (omega arith)
  fetch_all-part (suc fuel) offset m i c k h =
      fetch_all_step fuel offset true true m i (part current offset d) (c offset m i) (ground arith)
        (λ m i more. fetch_all-part fuel (offset + room) m i c (omega arith) (omega arith))

  -- From the first call of a row on.
  fetch_all_row :
      (m : List ℕ) (i : ℤ)
      → conv d (bound m i t)
        ≡ return_piece tail false false (length chars) chars (at current 0 false d) (bound m i t) m
      → ((offset : ℕ) (m : List ℕ) (i : ℤ)
          → conv (part current offset d) (bound m i t)
            ≡ return_piece tail false true
                (length chars)
                chars
                (part current offset d)
                (bound m i t)
                m)
      → fetch_all 1 conv (suc (length chars)) room d (bound m i t) ≡ chars
  fetch_all_row m i first c =
      fetch_all_step (length chars) 0 false false m i d first (is_done_first (length chars))
        (λ m i more. fetch_all-part (length chars) (0 + room) m i c (omega arith) (omega arith))
    where
      is_done_first : (n : ℕ) → is_done false (n - 0) (at current 0 false d) ≡ false
      is_done_first n = ground arith

-- A column that is not NULL and whose row is not `current`.
abbrev pub IsFresh : (current : ℕ) → DescRecord → Type 0
IsFresh current d = (is_null_data d.indicator ≡ false) × (d.current_fetched ≢ current)

module _ (current : ℕ) (d t : DescRecord) (fresh : IsFresh current d) (m : List ℕ) (i : ℤ) where
  -- A conversion that tests for NULL, starts the row and returns a piece.
  check_null-whole :
      (conv : DescRecord → DescRecord → Outcome) (tail chars : List ℕ)
      → length tail < t.data_length
      → ((before offset : ℕ) (started : Bool) (to : DescRecord)
          → let from = at before offset started d in
            conv from to
            ≡ check_null from to (
                return_piece tail false
                  (before == current)
                  (length chars)
                  chars
                  (start_row current from)
                  to))
      → fetch_all 1 conv (suc (length chars)) (t.data_length - length tail) d (bound m i t) ≡ chars
  unfolding check_null start_row
  check_null-whole conv tail chars k c =
      let new : (d.current_fetched == current) ≡ false = ground (arith, fresh.1) in
      let same : (current == current) ≡ true = ground arith in
      fetch_all_row conv tail chars current d t k m i
        (c d.current_fetched d.data_offset d.started_return_sql_data (bound m i t)
          ∙ rw (fresh.0, new) refl)
        (λ offset m i. c current offset true (bound m i t) ∙ rw (fresh.0, same) refl)

  -- In a new row, of a text that is not NULL, the calls of `convStringToString` and of
  -- `convStringToBinary` for SQLGetData, with a buffer of two chars at least and an indicator, made as
  -- long as each reports a truncation, return the whole text: one call more than it has chars is enough.
  pub conv_string-whole :
      1 < t.data_length
      → d.data_length ≡ length (memory d)
      → (fetch_all 1
            (conv_string_to_string false current)
            (suc (length (memory d)))
            (t.data_length - 1)
            d
            (bound m i t)
          ≡ memory d)
        × (fetch_all 1
              (conv_string_to_binary false current)
              (suc (length (memory d)))
              (t.data_length - 0)
              d
              (bound m i t)
            ≡ memory d)
  unfolding conv_string_to_string conv_string_to_binary
  conv_string-whole k e = (
    check_null-whole (conv_string_to_string false current) (0 ∷ []) (memory d) k
        (λ before offset started to. rw e refl),
    check_null-whole (conv_string_to_binary false current) [] (memory d) (omega arith)
        (λ before offset started to. rw e refl),
  )

  -- The same of `convVarStringToString` and `convVarStringToBinary`, of a text behind the two bytes of
  -- its length.
  pub conv_var_string-whole :
      (low high : ℕ) (chars : List ℕ)
      → 1 < t.data_length
      → d.data_ptr ≡ some (low ∷ high ∷ chars)
      → low + 256 * high ≡ length chars
      → (fetch_all 1
            (conv_var_string_to_string false current)
            (suc (length chars))
            (t.data_length - 1)
            d
            (bound m i t)
          ≡ chars)
        × (fetch_all 1
              (conv_var_string_to_binary false current)
              (suc (length chars))
              (t.data_length - 0)
              d
              (bound m i t)
            ≡ chars)
  unfolding conv_var_string_to_string conv_var_string_to_binary
  conv_var_string-whole low high chars k p e = (
    check_null-whole (conv_var_string_to_string false current) (0 ∷ []) chars k
        (λ before offset started to. rw (p, e) refl),
    check_null-whole (conv_var_string_to_binary false current) [] chars (omega arith)
        (λ before offset started to. rw (p, e) refl),
  )
