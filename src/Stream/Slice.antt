-- ===== src/Stream/Slice.antt =====
-- What the reading loop of Stream.cpp stores, and where it leaves the cursor.
use mathlib.Core.List.{map-append}
use firebird_odbc_driver.Base.{
  ℕ, suc, ◌+◌, ◌-◌, ◌≤◌, ◌<◌, min, ◌≡◌, refl, sym, ap, ◌∙◌, subst, inl, inr, Bool, true, false,
  ◌||◌, Option, none, some, List, [], ◌∷◌, ◌++◌, map, append-nil, append_assoc, arith, ltb, ◌==◌,
  Bool-cases, length, length-append, length-map, length-take, length-drop, take, drop, take_of_ge,
  drop_of_ge, take-append_le, take-append_ge, drop-append_le, drop-append_ge,
}
use firebird_odbc_driver.Stream.{Segment, flatten}
use firebird_odbc_driver.Stream.Read.{Reading, park, has_next, read_loop}

-- A cursor that a request leaves: the place `r` of a segment `k` places on, and its first byte
-- `m`, at or before the end of the request; or no place, with the first byte of the last segment.
abbrev pub Parked : List Segment → (i n stop : ℕ) → Option (Option ℕ × ℕ) → Type 0
Parked ss i n stop none = Unit
Parked ss i n stop (some (none, m)) = Unit
Parked ss i n stop (some (some j, m)) =
    (k : ℕ) × (j ≡ i + k) × (m ≡ n + length (flatten (take k ss))) × (m ≤ stop)

-- The part of a request of `left` bytes from byte `off` that one segment meets.
abbrev part : Segment → (off left : ℕ) → List ℕ
part seg off left = take (min left (length seg - off)) (drop off seg)

-- The request met: the bytes are those of the segment.
met :
    (seg : Segment) (rest : List ℕ) (off left : ℕ)
    → off < length seg
    → left ≤ length seg - off
    → take left (drop off (seg ++ rest)) ≡ part seg off left
met seg rest off left h fits =
    let e : min left (length seg - off) ≡ left = omega arith in
    rw (drop-append_le off seg rest (omega arith), e)
      (take-append_le left (drop off seg) rest (omega (arith, length-drop off seg)))

unmet :
    (seg : Segment) (rest : List ℕ) (off left : ℕ)
    → off < length seg
    → length seg - off ≤ left
    → take left (drop off (seg ++ rest))
      ≡ part seg off left ++ take (left - (length seg - off)) rest
unmet seg rest off left h more =
    let e : min left (length seg - off) ≡ length seg - off = omega arith in
    let d : length (drop off seg) ≡ length seg - off = length-drop off seg in
    rw
      (
        drop-append_le off seg rest (omega arith),
        e,
        take_of_ge (length seg - off) (drop off seg) (omega arith),
      )
      (take-append_ge left (drop off seg) rest (omega arith) ∙ rw d)

lift :
    (seg : Segment) (ss : List Segment) (i n stop : ℕ) (c : Option (Option ℕ × ℕ))
    → Parked ss (i + 1) (n + length seg) stop c
    → Parked (seg ∷ ss) i n stop c
lift seg ss i n stop none h = tt
lift seg ss i n stop (some (none, m)) h = tt
lift seg ss i n stop (some (some j, m)) (k, place, first, before) =
    (suc k, omega arith, omega (arith, length-append seg (flatten (take k ss))), before)

park-Parked :
    (short more : Bool) (seg : Segment) (ss : List Segment) (i n stop : ℕ)
    → n ≤ stop
    → (short ≡ false → n + length seg ≤ stop)
    → Parked (seg ∷ ss) i n stop (some (park i n short seg more))
park-Parked true more seg ss i n stop h f = (0, omega arith, omega arith, h)
park-Parked false true seg ss i n stop h f = (1, refl, omega (arith, length-append seg []), f refl)
park-Parked false false seg ss i n stop h f = tt

map_take-append :
    (put : ℕ → ℕ) (out xs ys : List ℕ)
    → (out ++ map put xs) ++ map put ys ≡ out ++ map put (xs ++ ys)
map_take-append put out xs ys = rw (map-append, append_assoc)

length-out :
    (put : ℕ → ℕ) (seg : Segment) (out : List ℕ) (off left : ℕ)
    → length (out ++ map put (part seg off left)) ≡ length out + min left (length seg - off)
length-out put seg out off left = omega (
  arith,
  length-append out (map put (part seg off left)),
  length-map (part seg off left) put,
  length-take (min left (length seg - off)) (drop off seg),
  length-drop off seg,
)

module _ (put : ℕ → ℕ) (counts_down : Bool) where
  -- What a read of `left` bytes from byte `off` on has stored behind `out`.
  abbrev pub Meets : List Segment → (i n offset left : ℕ) → List ℕ → Option Reading → Type 0
  Meets ss i n offset left out r =
      (reading : Reading) × (r ≡ some reading)
      × (reading.bytes ≡ out ++ map put (take left (drop (offset - n) (flatten ss))))
      × Parked ss i n (offset + left) reading.cursor
      × (length reading.bytes + reading.length_left ≡ length out + left)

  skip-Meets :
      (seg : Segment) (ss : List Segment) (i n offset left : ℕ) (out : List ℕ) (r : Option Reading)
      → n + length seg ≤ offset
      → Meets ss (i + 1) (n + length seg) offset left out r
      → Meets (seg ∷ ss) i n offset left out r
  skip-Meets seg ss i n offset left out r after (reading, e, bytes, parked, counted) =
      let d : offset - n - length seg ≡ offset - (n + length seg) = omega arith in
      (
        reading,
        e,
        rw (drop-append_ge (offset - n) seg (flatten ss) (omega arith), d) bytes,
        lift seg ss i n (offset + left) reading.cursor parked,
        counted,
      )

  go_on-Meets :
      (seg : Segment) (ss : List Segment) (i n offset left : ℕ) (out : List ℕ) (r : Option Reading)
      → n ≤ offset
      → offset < n + length seg
      → length seg - (offset - n) ≤ left
      → (let l = min left (length seg - (offset - n)) in
          Meets ss
            (i + 1)
            (n + length seg)
            (offset + l)
            (left - l)
            (out ++ map put (part seg (offset - n) left))
            r)
      → Meets (seg ∷ ss) i n offset left out r
  go_on-Meets seg ss i n offset left out r h inside more (reading, e, bytes, parked, counted) =
      let off = offset - n in
      let l : ℕ = min left (length seg - off) in
      let start : offset + l - (n + length seg) ≡ 0 = omega arith in
      let wanted : left - l ≡ left - (length seg - off) = omega arith in
      let stop : offset + l + (left - l) ≡ offset + left = omega arith in
      (
        reading,
        e,
        bytes
            ∙ rw (start, wanted, unmet seg (flatten ss) off left (omega arith) more)
                (map_take-append put out (part seg off left)
                  (take (left - (length seg - off)) (flatten ss))),
        lift seg ss i n (offset + left) reading.cursor (
            subst (λ (stop : ℕ). Parked ss (i + 1) (n + length seg) stop reading.cursor) stop
              parked),
        omega (arith, counted, length-out put seg out off left),
      )

  pub read_loop-Meets :
      (ss : List Segment) (i n offset left : ℕ) (out : List ℕ)
      → n ≤ offset
      → Meets ss i n offset left out (read_loop put counts_down ss i n offset left out)
  unfolding read_loop
  read_loop-Meets [] i n offset left out h =
      let e : take left (drop {A = ℕ} (offset - n) []) ≡ [] =
        ap (take left) (drop_of_ge (offset - n) [] (omega arith))
        ∙ take_of_ge left [] (omega arith) in
      (_, refl, rw (e, append-nil), tt, refl)
  read_loop-Meets (seg ∷ ss) i n offset left out h =
      let off : ℕ = offset - n in
      let l : ℕ = min left (length seg - off) in
      let early : ltb offset n ≡ false = ground arith in
      elim (Bool-cases (ltb offset (n + length seg))) [
        | inl here ↦ rw here (
            rw early (elim (Bool-cases (left - l == 0)) [
              | inl done ↦ rw done (
                _,
                refl,
                ap (λ (t : List ℕ). out ++ map put t)
                    (sym (met seg (flatten ss) off left (ground arith) (ground arith))),
                park-Parked (counts_down || ltb l (length seg)) (has_next ss) seg ss i n
                    (offset + left) (omega arith) (ground arith),
                ground (arith, length-out put seg out off left),
              )
              | inr more ↦ rw more (
                  go_on-Meets seg ss i n offset left out _ h (ground arith) (ground arith) (
                    read_loop-Meets ss (i + 1) (n + length seg) (offset + l) (left - l)
                      (out ++ map put (part seg off left)) (ground arith)))
            ]))
        | inr later ↦ rw later (
            skip-Meets seg ss i n offset left out _ (ground arith)
              (read_loop-Meets ss (i + 1) (n + length seg) offset left out (ground arith)))
      ]
