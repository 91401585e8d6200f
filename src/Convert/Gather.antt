-- ===== src/Convert/Gather.antt =====
-- What an application gathers that fetches a column piece by piece with SQLGetData.
use firebird_odbc_driver.Base.{
  ℕ, zero, suc, ◌+◌, ◌-◌, ◌/◌, ◌≤◌, ◌<◌, min, ◌≡◌, refl, sym, ap, ◌∙◌, inl, inr, Bool, true, false,
  ◌&&◌, some, List, [], ◌∷◌, ◌++◌, arith, ltb, if◌then◌else◌, length, take, drop, Bool-cases,
  length-drop, take-append_le, take_of_ge, length-append, append-nil, take-append-drop, drop-drop,
}
use firebird_odbc_driver.Base.Int.{ℤ, pos}
use firebird_odbc_driver.Convert.{
  DescRecord, SqlReturn, sql_success, sql_success_with_info, Outcome, memory,
}

-- A target whose buffer holds `m`, with an indicator of the application.
abbrev pub bound : List ℕ → ℤ → DescRecord → DescRecord
bound m i t = record t { data_ptr = some m; indicator = some i; is_indicator_sql_da = false }

-- A column of which `offset` chars were returned in the current row.
abbrev pub part : (current offset : ℕ) → DescRecord → DescRecord
part current offset d = record d {
  data_offset = offset;
  started_return_sql_data = true;
  current_fetched = current;
}

-- What the indicator announces in bytes, as far as the buffer has room for it, in chars of `size` bytes.
abbrev pub received : (size room : ℕ) → DescRecord → List ℕ
received size room to = elim to.indicator [
  | some (pos n) ↦ take (min (n / size) room) (memory to)
  | _ ↦ []
]

abbrev pub has_more : SqlReturn → Bool
has_more sql_success_with_info = true
has_more _ = false

-- The calls of SQLGetData, as long as each of them reports a truncation: the pieces, joined.
unfoldable pub fetch_all :
    (size : ℕ)
    → (DescRecord → DescRecord → Outcome)
    → (fuel room : ℕ) → DescRecord
    → DescRecord
    → List ℕ
fetch_all size conv zero room from to = []
fetch_all size conv (suc fuel) room from to =
    let o = conv from to in
    let rest = fetch_all size conv fuel room o.from o.to in
    received size room o.to ++ (if has_more o.ret then rest else [])

pub take-min {ℓ} : {A : Type ℓ} (k : ℕ) (ys : List A) → take (min (length ys) k) ys ≡ take k ys
take-min zero ys = let e : min (length ys) 0 ≡ 0 = omega arith in rw e refl
take-min (suc k) [] = let e : min 0 (suc k) ≡ 0 = omega arith in rw e refl
take-min (suc k) (y ∷ ys) =
    let e : min (suc (length ys)) (suc k) ≡ suc (min (length ys) k) = omega arith in
    rw e (ap (λ zs. y ∷ zs) (take-min k ys))

pub take-append-append {ℓ} :
    {A : Type ℓ} (k : ℕ) (xs tail m : List A) → length xs ≡ k → take k ((xs ++ tail) ++ m) ≡ xs
take-append-append k xs tail m e =
    take-append_le k (xs ++ tail) m (omega (arith, length-append xs tail))
    ∙ take-append_le k xs tail (omega arith)
    ∙ take_of_ge k xs (omega arith)

goes_on :
    (left room : ℕ)
    → 0 < room
    → room < left
    → (ltb 0 (min left room) && ltb (min left room) left) ≡ true
goes_on left room h k = let e : min left room ≡ room = omega arith in rw e (ground arith)

stops : (left room : ℕ) → left ≤ room → (ltb 0 (min left room) && ltb (min left room) left) ≡ false
stops left room k = let e : min left room ≡ left = omega arith in rw e (ground arith)

-- A call gathers what is left, if the next ones gather what it leaves: it answers `o`, which has
-- `left` chars in all and room for some.
pub gather :
    (size : ℕ) (conv : DescRecord → DescRecord → Outcome) (fuel room offset : ℕ) (chars : List ℕ)
    (from to : DescRecord) (o : Outcome)
    → conv from to ≡ o
    → 0 < room
    → let left = length chars - offset in
      o.ret ≡ (
        if ltb 0 (min left room) && ltb (min left room) left
        then sql_success_with_info
        else sql_success)
      → received size room o.to ≡ take room (drop offset chars)
      → (room < length chars - offset
          → fetch_all size conv fuel room o.from o.to ≡ drop (offset + room) chars)
      → fetch_all size conv (suc fuel) room from to ≡ drop offset chars
unfolding fetch_all
gather size conv fuel room offset chars from to o step k ret got next =
    let left = length chars - offset in
    let ys = drop offset chars in
    rw (step, got, ret)
      (elim (Bool-cases (ltb room left)) [
        | inl more ↦
            let large : room < left = ground arith in
            rw (goes_on left room k large) (
              ap (λ r. take room ys ++ r) (next large ∙ sym (drop-drop offset room chars))
              ∙ take-append-drop room ys)
        | inr last ↦
            let small : left ≤ room = ground arith in
            rw (stops left room small) (
              append-nil (take room ys)
              ∙ take_of_ge room ys (omega (arith, length-drop offset chars)))
      ])
