-- ===== src/Stream/Lines.antt =====
-- `getSegment (offset, len, ptr, delimiter)` of IscDbc/Stream.cpp, which stops behind a delimiter.
-- Unlike the other readings it does not move `offset` on from segment to segment.
use firebird_odbc_driver.Base.{
  ℕ, suc, ◌+◌, ◌-◌, ◌≤◌, ◌<◌, min, ◌≡◌, ◌⊎◌, refl, sym, ap, ◌∙◌, inl, inr, Bool, true, false,
  Option, none, some, List, [], ◌∷◌, ◌++◌, arith, ltb, leb, ◌==◌, if◌then◌else◌, Bool-cases, length,
  length-append, length-take, length-drop, take, drop, take_of_ge,
}
use firebird_odbc_driver.Stream.{Segment, Stream, flatten}
use firebird_odbc_driver.Stream.Read.{Reading, park, has_next, start, start_of, move, moved, finish}

-- The copy loop: the bytes copied, and whether the last is the delimiter.
unfoldable pub copy_until : ℕ → List ℕ → List ℕ × Bool
copy_until d [] = ([], false)
copy_until d (c ∷ cs) =
    let (got, hit) = copy_until d cs in if c == d then (c ∷ [], true) else (c ∷ got, hit)

-- The loop at the segment of place `i`, which starts at byte `n`. A copy from in front of the
-- segment is `none`.
unfoldable pub until_loop : ℕ → List Segment → (i n offset left : ℕ) → List ℕ → Option Reading
until_loop d [] i n offset left out =
    some (record { bytes = out; length_left = left; cursor = none })
until_loop d (seg ∷ ss) i n offset left out =
    let skip = until_loop d ss (i + 1) (n + length seg) offset left out in
    let l = min left (length seg - (offset - n)) in
    let (got, hit) = copy_until d (take l (drop (offset - n) seg)) in
    let next = until_loop d ss (i + 1) (n + length seg) offset (left - length got) (out ++ got) in
    if ltb offset (n + length seg)
    then (if ltb offset n
        then none
        else if hit
        then some (record {
          bytes = out ++ got;
          length_left = left - length got;
          cursor = some (some i, n);
        })
        else if left - length got == 0
        then some (record {
          bytes = out ++ got;
          length_left = 0;
          cursor = some (park i n (ltb l (length seg)) seg (has_next ss));
        })
        else next)
    else skip

unfoldable pub get_segment_until :
    Stream → (offset len : ℕ) (delimiter : ℕ) → Option (ℕ × List ℕ × Stream)
get_segment_until s offset len d =
    let (ss, i, n) = start s in finish s len (until_loop d ss i n offset len [])

until_loop-skip :
    (d : ℕ) (pre ss : List Segment) (i n offset left : ℕ)
    → n + length (flatten pre) ≤ offset
    → until_loop d (pre ++ ss) i n offset left []
      ≡ until_loop d ss (i + length pre) (n + length (flatten pre)) offset left []
unfolding until_loop
until_loop-skip d [] ss i n offset left h =
    let a : i + 0 ≡ i = omega arith in let b : n + 0 ≡ n = omega arith in rw (a, b) refl
until_loop-skip d (seg ∷ pre) ss i n offset left h =
    let far : ltb offset (n + length seg) ≡ false =
      ground (arith, length-append seg (flatten pre)) in
    let a : i + suc (length pre) ≡ i + 1 + length pre = omega arith in
    let b : n + length (seg ++ flatten pre) ≡ n + length seg + length (flatten pre) =
      omega (arith, length-append seg (flatten pre)) in
    rw far (rw (a, b) (until_loop-skip d pre ss (i + 1) (n + length seg) offset left (omega arith)))

copy_until-le : (d : ℕ) (cs : List ℕ) → length (copy_until d cs).0 ≤ length cs
unfolding copy_until
copy_until-le d [] = omega arith
copy_until-le d (c ∷ cs) = elim (Bool-cases (c == d)) [
  | inl hit ↦ rw hit (omega arith)
  | inr miss ↦ rw miss (omega (arith, copy_until-le d cs))
]

copy_until-miss : (d : ℕ) (cs : List ℕ) → (copy_until d cs).1 ≡ false → (copy_until d cs).0 ≡ cs
unfolding copy_until
copy_until-miss d [] h = refl
copy_until-miss d (c ∷ cs) h = elim (Bool-cases (c == d)) [
  | inl hit ↦ absurd (ground arith)
  | inr miss ↦ rw miss (ap (λ (l : List ℕ). c ∷ l) (copy_until-miss d cs (ground arith)))
]

take-min : (k : ℕ) (cs : List ℕ) → take (min k (length cs)) cs ≡ take k cs
take-min k cs = elim (Bool-cases (leb k (length cs))) [
  | inl short ↦ ap (λ (n : ℕ). take n cs) (ground arith)
  | inr long ↦
      ap (λ (n : ℕ). take n cs) (ground arith)
      ∙ take_of_ge (length cs) cs (omega arith)
      ∙ sym (take_of_ge k cs (ground arith))
]

module _ (d : ℕ) (seg : Segment) (post : List Segment) (i n offset len : ℕ) (first : n ≤ offset)
    (inside : offset < n + length seg) where
  -- The bytes from the offset to the end of the segment.
  abbrev piece : List ℕ
  piece = drop (offset - n) seg

  same-take : take (min len (length seg - (offset - n))) piece ≡ take len piece
  same-take =
      ap (λ (k : ℕ). take (min len k) piece) (sym (length-drop (offset - n) seg))
      ∙ take-min len piece

  abbrev got : List ℕ × Bool
  got = copy_until d (take len piece)

  until_loop-hit :
      got.1 ≡ true
      → until_loop d (seg ∷ post) i n offset len []
        ≡ some
            (record { bytes = got.0; length_left = len - length got.0; cursor = some (some i, n) })
  unfolding until_loop
  until_loop-hit h =
      let near : ltb offset (n + length seg) ≡ true = ground arith in
      let ahead : ltb offset n ≡ false = ground arith in rw (near, ahead) (rw same-take (rw h refl))

  until_loop-end :
      got.1 ≡ false
      → len ≤ length piece
      → (c : Option (Option ℕ × ℕ)) × (until_loop d (seg ∷ post) i n offset len []
          ≡ some (record { bytes = got.0; length_left = 0; cursor = c }))
        × (length got.0 ≡ len)
  unfolding until_loop
  until_loop-end h short =
      let near : ltb offset (n + length seg) ≡ true = ground arith in
      let ahead : ltb offset n ≡ false = ground arith in
      let all : length got.0 ≡ len =
        ap (λ (l : List ℕ). length l) (copy_until-miss d (take len piece) h)
        ∙ omega (arith, length-take len piece) in
      let done : (len - length got.0 == 0) ≡ true = ground arith in
      (
        some
            (park i n (ltb (min len (length seg - (offset - n))) (length seg)) seg (has_next post)),
        rw (near, ahead) (rw same-take (rw h (rw done refl))),
        all,
      )

  until_loop-none :
      (next : Segment) (rest : List Segment)
      → post ≡ next ∷ rest
      → got.1 ≡ false
      → length piece < len
      → until_loop d (seg ∷ post) i n offset len [] ≡ none
  unfolding until_loop
  until_loop-none next rest e h long =
      let near : ltb offset (n + length seg) ≡ true = ground arith in
      let ahead : ltb offset n ≡ false = ground arith in
      let some_left : (len - length got.0 == 0) ≡ false =
        ground (arith, copy_until-le d (take len piece), length-take len piece) in
      let near' : ltb offset (n + length seg + length next) ≡ true = ground arith in
      let behind : ltb offset (n + length seg) ≡ true = ground arith in
      rw (near, ahead) (rw same-take (rw h (rw some_left (rw e (rw near' (rw behind refl))))))

-- A stream whose bytes at `offset` stand in the segment `seg`, read from its start.
pub record Reaches (s : Stream) (pre : List Segment) (seg : Segment) (post : List Segment)
    (offset : ℕ) : Type 0 where
  pub segments : s.segments ≡ pre ++ seg ∷ post
  pub apart : s.consecutive_read ≡ false
  pub first : length (flatten pre) ≤ offset
  pub inside : offset < length (flatten pre) + length seg

-- The line at `offset` of the segment, of at most `len` bytes.
abbrev pub line : ℕ → List Segment → Segment → (offset len : ℕ) → List ℕ × Bool
line d pre seg offset len = copy_until d (take len (drop (offset - length (flatten pre)) seg))

module _ (d : ℕ) (s : Stream) (pre : List Segment) (seg : Segment) (post : List Segment)
    (offset len : ℕ) (reaches : Reaches s pre seg post offset) where
  from-start :
      get_segment_until s offset len d
      ≡ finish s len (until_loop d (seg ∷ post) (length pre) (length (flatten pre)) offset len [])
  unfolding get_segment_until
  from-start =
      let apart : start s ≡ (s.segments, 0, 0) = ap (λ (c : Bool). start_of c s) reaches.apart in
      let a : 0 + length pre ≡ length pre = omega arith in
      let b : 0 + length (flatten pre) ≡ length (flatten pre) = omega arith in
      let skip : until_loop d (pre ++ seg ∷ post) 0 0 offset len []
          ≡ until_loop d (seg ∷ post) (length pre) (length (flatten pre)) offset len [] =
        until_loop-skip d pre (seg ∷ post) 0 0 offset len (omega (arith, reaches.first))
        ∙ rw (a, b) refl in
      ap (λ (t : List Segment × ℕ × ℕ). finish s len (until_loop d t.0 t.1 t.2 offset len [])) apart
      ∙ ap (λ (ss : List Segment). finish s len (until_loop d ss 0 0 offset len []))
          reaches.segments
      ∙ ap (finish s len) skip

  stay : (c : Option (Option ℕ × ℕ)) → moved s c ≡ s
  stay none = refl
  stay (some (r, n)) = ap (λ (b : Bool). move b s r n) reaches.apart

  -- A line that ends, or a request that is met, in the segment where it starts is returned as it
  -- stands there, up to its delimiter, and a stream without consecutive reads is left as it is.
  pub get_segment_until-line :
      ((line d pre seg offset len).1 ≡ true)
        ⊎ (len ≤ length (drop (offset - length (flatten pre)) seg))
      → (let got = (line d pre seg offset len).0 in
          get_segment_until s offset len d ≡ some (length got, got, s))
  get_segment_until-line h =
      let n : ℕ = length (flatten pre) in
      let got = line d pre seg offset len in
      let le = copy_until-le d (take len (drop (offset - n) seg)) in
      let le' = length-take len (drop (offset - n) seg) in
      elim (Bool-cases got.1) [
        | inl hit ↦
            let count : len - (len - length got.0) ≡ length got.0 = omega arith in
            from-start
            ∙ ap (finish s len) (
                until_loop-hit d seg post (length pre) n offset len reaches.first reaches.inside
                  hit)
            ∙ rw (count, stay (some (some (length pre), n))) refl
        | inr miss ↦
            let short : len ≤ length (drop (offset - n) seg) = ground (arith, h) in
            let (c, e, all) =
              until_loop-end d seg post (length pre) n offset len reaches.first reaches.inside miss
                short in
            let count : len - 0 ≡ length got.0 = omega (arith, all) in
            from-start ∙ ap (finish s len) e ∙ rw (count, stay c) refl
      ]

  -- A line that goes on behind the segment where it starts, into another segment, is not read: the
  -- loop copies from in front of that segment.
  pub get_segment_until-fault :
      (next : Segment) (rest : List Segment)
      → post ≡ next ∷ rest
      → (line d pre seg offset len).1 ≡ false
      → length (drop (offset - length (flatten pre)) seg) < len
      → get_segment_until s offset len d ≡ none
  get_segment_until-fault next rest e h long =
      from-start
      ∙ ap (finish s len) (
          until_loop-none d seg post (length pre) (length (flatten pre)) offset len reaches.first
            reaches.inside next rest e h long)
