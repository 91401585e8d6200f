-- ===== src/Diagnostics/Buffers.antt =====
-- What the callers' buffers hold after the members of OdbcError.cpp and OdbcObject.cpp.
use firebird_odbc_driver.Base.{
  ℕ, zero, suc, ◌+◌, ◌-◌, ◌<◌, ◌≡◌, refl, sym, ◌↔◌, inl, inr, Bool, true, false, ◌&&◌, Option, none,
  some, List, arith, ltb, leb, Bool-cases, if◌then◌else◌, length, length-take, take, take_of_ge,
  take-length-take, length-snoc,
}
use firebird_odbc_driver.Base.Int.{ℤ, pos, pos_part}
use firebird_odbc_driver.Diagnostics.Record.{sql_success}
use firebird_odbc_driver.Diagnostics.Object.{OdbcObject}
use firebird_odbc_driver.Diagnostics.Text.{Put, return_string_info, set_string}

-- A text in a buffer of `size` bytes: with its terminator it fits, and it is the start of `whole`.
abbrev pub InBuffer : (size : ℕ) → List ℕ → Option (List ℕ) → Type 0
InBuffer size whole none = Unit
InBuffer size whole (some t) = (length t < size) × (t ≡ take (length t) whole)

take-InBuffer : (size k : ℕ) (whole : List ℕ) → k < size → InBuffer size whole (some (take k whole))
take-InBuffer size k whole h = (omega (arith, length-take k whole), sym (take-length-take k whole))

whole-InBuffer :
    (size : ℕ) (whole : List ℕ) → length whole < size → InBuffer size whole (some whole)
whole-InBuffer size whole h = (h, sym (take_of_ge (length whole) whole (omega arith)))

-- `returnStringInfo` into a buffer of `size` bytes stores a start of the value that fits with its
-- terminator. It posts no error exactly when the whole value fits the buffer, and posts one else;
-- SQL_SUCCESS also needs that nothing was posted before.
pub return_string_info-InBuffer :
    (o : OdbcObject) (c : Option (List ℕ × Option (List ℕ))) (has_ptr : Bool) (size : ℕ)
    (value : List ℕ)
    → (let r = return_string_info o c has_ptr (pos size) value in
        let fits = has_ptr && ltb (length value) size in
        InBuffer size value r.text
        × (length r.object.errors ≡ (if fits then length o.errors else length o.errors + 1))
        × ((r.result ≡ sql_success) ↔ ((fits ≡ true) × (o.info_posted ≡ false))))
unfolding return_string_info
return_string_info-InBuffer o c false size value = (tt, length-snoc o.errors _, ground arith)
return_string_info-InBuffer o c true zero value =
    let over : ltb (length value) 0 ≡ false = ground arith in
    (tt, rw over (length-snoc o.errors _), rw over (ground arith))
return_string_info-InBuffer o c true (suc n) value =
    let sized : ltb 0 (suc n + 0) ≡ true = ground arith in
    elim (Bool-cases (leb (length value) (suc n - 1))) [
      | inl fits ↦
          let t : ltb (length value) (suc n) ≡ true = ground arith in
          rw sized
            (rw fits (rw t (whole-InBuffer (suc n) value (ground arith), refl, ground arith)))
      | inr long ↦
          let t : ltb (length value) (suc n) ≡ false = ground arith in
          rw sized (
            rw long (
              rw t (
                take-InBuffer (suc n) (suc n - 1) value (ground arith),
                length-snoc o.errors _,
                ground arith,
              )))
    ]

-- A return from `setString`: the text in the target, the length reported, whether it overflowed,
-- and the errors.
abbrev pub Sets : OdbcObject → (size : ℕ) → List ℕ → Option (Put Bool) → Type 0
Sets o size s none = ⊥
Sets o size s (some r) =
    InBuffer size s r.text
    × (r.reported ≡ length s)
    × ((r.result ≡ false) ↔ (length s < size))
    × (length r.object.errors ≡ (if r.result then length o.errors + 1 else length o.errors))

-- `setString` with a target of one byte or more returns. It stores a start of the text that fits with
-- its terminator, assigns the whole length to its pointer, and says that there was no overflow exactly when the
-- whole text fits; on overflow alone an error is posted.
pub set_string-Sets :
    (o : OdbcObject) (c : Option (List ℕ × Option (List ℕ))) (s : List ℕ) (size : ℕ)
    → 0 < size
    → Sets o size s (set_string o c s true (pos size))
unfolding set_string
set_string-Sets o c s zero h = absurd (omega arith)
set_string-Sets o c s (suc n) h =
    let sized : ltb 0 (suc n + 0) ≡ true = ground arith in
    elim (Bool-cases (leb (length s) (suc n - 1))) [
      | inl fits ↦
          rw sized (rw fits (whole-InBuffer (suc n) s (ground arith), refl, ground arith, refl))
      | inr long ↦ rw sized (
          rw long (
            take-InBuffer (suc n) (suc n - 1) s (ground arith),
            refl,
            ground arith,
            length-snoc o.errors _,
          ))
    ]

-- `setString` with a target copies a negative size exactly when the size given is 0 or less.
pub set_string_fault :
    (o : OdbcObject) (c : Option (List ℕ × Option (List ℕ))) (s : List ℕ) (size : ℤ)
    → (set_string o c s true size ≡ none) ↔ (pos_part size ≡ 0)
unfolding set_string
set_string_fault o c s size = ground arith
