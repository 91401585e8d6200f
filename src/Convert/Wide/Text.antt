-- ===== src/Convert/Wide/Text.antt =====
-- A text of bytes fetched in wide pieces: what an application gathers of it.
use firebird_odbc_driver.Base.{
  ℕ, zero, suc, ◌+◌, ◌-◌, ◌*◌, ◌/◌, ◌≤◌, ◌<◌, min, ◌≡◌, refl, sym, ap, ◌∙◌, Bool, true, false, ◌&&◌,
  some, List, [], ◌∷◌, ◌++◌, arith, ltb, ◌==◌, if◌then◌else◌, length, take, drop, length-take,
  length-drop, take_of_ge,
}
use firebird_odbc_driver.Base.Int.{ℤ, pos}
use firebird_odbc_driver.Convert.{
  DescRecord, sql_success, sql_success_with_info, Outcome, overwrite, check_null, start_row,
  set_length, is_done,
}
use firebird_odbc_driver.Convert.Gather.{
  bound, part, received, fetch_all, take-min, take-append-append, gather,
}
use firebird_odbc_driver.Convert.Whole.{IsFresh}
use firebird_odbc_driver.Convert.Wide.{
  wcslen, wcsncpy, return_wide_piece, conv_var_string_to_string_w,
}

-- Units before a terminator.
abbrev pub AllWide : List ℕ → Type 0
AllWide [] = Unit
AllWide (w ∷ ws) = (0 < w) × AllWide ws

wcslen_all : (ws : List ℕ) → AllWide ws → wcslen ws ≡ length ws
unfolding wcslen
wcslen_all [] a = refl
wcslen_all (w ∷ ws) (p, a) =
    let there : (w == 0) ≡ false = ground arith in rw there (ap suc (wcslen_all ws a))

wcsncpy-take : (ws : List ℕ) (n : ℕ) → AllWide ws → n ≤ length ws → wcsncpy ws n ≡ take n ws
unfolding wcsncpy
wcsncpy-take ws zero a k = refl
wcsncpy-take [] (suc n) a k = absurd (omega arith)
wcsncpy-take (w ∷ ws) (suc n) (p, a) k =
    let there : (w == 0) ≡ false = ground arith in
    rw there (ap (λ vs. w ∷ vs) (wcsncpy-take ws n a (omega arith)))

AllWide-drop : (n : ℕ) (ws : List ℕ) → AllWide ws → AllWide (drop n ws)
AllWide-drop zero ws a = a
AllWide-drop (suc n) [] a = a
AllWide-drop (suc n) (w ∷ ws) (p, a) = AllWide-drop n ws a

-- The target with a text at `localDataPtr`.
abbrev holding : (units m : List ℕ) → ℤ → DescRecord → DescRecord
holding units m i t = record t {
  data_ptr = some m;
  indicator = some i;
  is_indicator_sql_da = false;
  local_data = units;
}

abbrev stepped : (units m : List ℕ) (left len : ℕ) → DescRecord → DescRecord → Outcome
stepped units m left len f t = record {
  ret = if ltb 0 len && ltb len left then sql_success_with_info else sql_success;
  from = record f { started_return_sql_data = true; data_offset = f.data_offset + len };
  to =
      holding units (overwrite (take len (drop f.data_offset units) ++ 0 ∷ []) m) (pos (left * 2))
        t;
  truncated = ltb 0 len && ltb len left;
}

return_wide_piece_step :
    (units m : List ℕ) (fetched : Bool) (i : ℤ) (f t : DescRecord)
    → AllWide units
    → is_done fetched (length units - f.data_offset) f ≡ false
    → 0 < t.data_length
    → let left = length units - f.data_offset in
      return_wide_piece fetched (length units) f (holding units m i t) m
      ≡ stepped units m left (min left (t.data_length / 2 - 1)) f t
unfolding return_wide_piece set_length
return_wide_piece_step units m fetched i f t a h k =
    let open_ : (t.data_length == 0) ≡ false = ground arith in
    let len = min (length units - f.data_offset) (t.data_length / 2 - 1) in
    let copy =
      wcsncpy-take (drop f.data_offset units) len (AllWide-drop f.data_offset units a)
        (omega (arith, length-drop f.data_offset units)) in
    rw (open_, h, copy) refl

received-stepped :
    (units m : List ℕ) (room : ℕ) (f t : DescRecord)
    → let left = length units - f.data_offset in
      received 2 room (stepped units m left (min left room) f t).to
      ≡ take room (drop f.data_offset units)
received-stepped units m room f t =
    let ys = drop f.data_offset units in
    let own : length ys ≡ length units - f.data_offset = length-drop f.data_offset units in
    let xs = take (min (length ys) room) ys in
    let size : length xs ≡ min (length ys) room =
      length-take (min (length ys) room) ys ∙ omega arith in
    let whole =
      take-append-append (min (length ys) room) xs (0 ∷ []) (drop (length (xs ++ 0 ∷ [])) m) size in
    let unit : length ys * 2 / 2 ≡ length ys = omega arith in
    rw (sym own, unit) (whole ∙ take-min room ys)

module _ (conv : DescRecord → DescRecord → Outcome) (units : List ℕ) (wide : AllWide units)
    (current : ℕ) (d t : DescRecord) (room_enough : 4 ≤ t.data_length) where
  abbrev room : ℕ
  room = t.data_length / 2 - 1

  abbrev Continues : Type 0
  Continues =
      (offset : ℕ) (m : List ℕ) (i : ℤ)
      → offset ≤ length units
      → conv (part current offset d) (holding units m i t)
        ≡ return_wide_piece true (length units) (part current offset d) (holding units m i t) m

  fetch_all_step :
      (fuel : ℕ) (fetched : Bool) (m : List ℕ) (i : ℤ) (from to f : DescRecord)
      → conv from to ≡ return_wide_piece fetched (length units) f (holding units m i t) m
      → is_done fetched (length units - f.data_offset) f ≡ false
      → ((m : List ℕ) (i : ℤ)
          → room < length units - f.data_offset
          → fetch_all 2 conv fuel room
              (record f { started_return_sql_data = true; data_offset = f.data_offset + room })
              (holding units m i t)
            ≡ drop (f.data_offset + room) units)
      → fetch_all 2 conv (suc fuel) room from to ≡ drop f.data_offset units
  fetch_all_step fuel fetched m i from to f e open_ next =
      let left = length units - f.data_offset in
      let step = e ∙ return_wide_piece_step units m fetched i f t wide open_ (omega arith) in
      let o = stepped units m left (min left room) f t in
      gather 2 conv fuel room f.data_offset units from to o step (omega arith) refl
        (received-stepped units m room f t)
        (λ large. let len : min left room ≡ room = omega arith in rw len (next _ _ large))

  fetch_all-part :
      (fuel offset : ℕ) (m : List ℕ) (i : ℤ)
      → Continues
      → length units - offset ≤ fuel
      → offset < length units
      → fetch_all 2 conv fuel room (part current offset d) (holding units m i t) ≡ drop offset units
  fetch_all-part zero offset m i c k h = absurd (omega arith)
  fetch_all-part (suc fuel) offset m i c k h =
      fetch_all_step fuel true m i (part current offset d) (holding units m i t)
        (part current offset d) (c offset m i (omega arith)) (ground arith)
        (λ m i more. fetch_all-part fuel (offset + room) m i c (omega arith) (omega arith))

  fetch_all_row :
      (m : List ℕ) (i : ℤ)
      → conv d (bound m i t)
        ≡ return_wide_piece false
            (length units)
            (record d {
              data_offset = 0;
              started_return_sql_data = false;
              current_fetched = current;
            })
            (holding units m i t)
            m
      → Continues
      → fetch_all 2 conv (suc (length units)) room d (bound m i t) ≡ units
  fetch_all_row m i first c =
      fetch_all_step (length units) false m i d (bound m i t)
        (record d { data_offset = 0; started_return_sql_data = false; current_fetched = current })
        first (ground arith)
        (λ m i more. fetch_all-part (length units) (0 + room) m i c (omega arith) (omega arith))

-- In a new row, of a varying text that is not NULL and shorter than 32768 bytes, which `mbs_to_wcs`
-- reads as units of which none is 0, the calls of `convVarStringToStringW` for SQLGetData, with a buffer
-- of four bytes at least and an indicator, made as long as each reports a truncation, return all the
-- units: one call more than there are units is enough.
pub conv_var_string_to_string_w-whole :
    (mbs_to_wcs : List ℕ → List ℕ) (current : ℕ) (d t : DescRecord) (m : List ℕ) (i : ℤ)
    (low high : ℕ) (chars : List ℕ)
    → IsFresh current d
    → 4 ≤ t.data_length
    → d.data_ptr ≡ some (low ∷ high ∷ chars)
    → low + 256 * high ≡ length chars
    → length chars < 0x8000
    → AllWide (mbs_to_wcs chars)
    → fetch_all 2
        (conv_var_string_to_string_w mbs_to_wcs current)
        (suc (length (mbs_to_wcs chars)))
        (t.data_length / 2 - 1)
        d
        (bound m i t)
      ≡ mbs_to_wcs chars
unfolding conv_var_string_to_string_w check_null start_row
conv_var_string_to_string_w-whole mbs_to_wcs current d t m i low high chars fresh k p e s wide =
    let units = mbs_to_wcs chars in
    let new : (d.current_fetched == current) ≡ false = ground (arith, fresh.1) in
    let same : (current == current) ≡ true = ground arith in
    let short : ltb (length chars) 0x8000 ≡ true = ground arith in
    let all : take (length chars) chars ≡ chars = take_of_ge (length chars) chars (omega arith) in
    fetch_all_row (conv_var_string_to_string_w mbs_to_wcs current) units wide current d t k m i
      (rw (fresh.0, new, p, e, short, all) refl)
      (λ offset m i inside.
        let rest : wcslen (drop offset units) + offset ≡ length units = omega (
          arith,
          wcslen_all (drop offset units) (AllWide-drop offset units wide),
          length-drop offset units,
        ) in
        rw (fresh.0, same, rest) refl)
