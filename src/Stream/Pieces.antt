-- ===== src/Stream/Pieces.antt =====
-- `getSegmentLength (offset)`, `getSegment (offset)` and `putSegment (blob)` of Stream.cpp: a blob
-- is walked piece by piece, each piece from an offset to the end of the segment that holds it.
use firebird_odbc_driver.Base.{
  ℕ, zero, suc, ◌+◌, ◌-◌, ◌≤◌, ◌<◌, ◌≡◌, refl, sym, ap, ◌∙◌, inl, inr, true, false, ◌&&◌, Option,
  none, some, List, [], ◌∷◌, ◌++◌, append-nil, append_assoc, arith, ltb, leb, ◌==◌, Bool-cases,
  if◌then◌else◌, length, length-append, length-drop, take, drop, drop-append_le, drop-append_ge,
  take_of_ge, drop_of_ge,
}
use firebird_odbc_driver.Stream.{Segment, Stream, flatten, contents, put_segment}
use firebird_odbc_driver.Stream.Append.{put_segment-contents}
use firebird_odbc_driver.Stream.Read.{
  segment_length_loop, get_segment_length, segment_at_loop, get_segment_at,
}

-- A copy of `n` bytes from a pointer that blob->getSegment returned, and the rest of the loop.
abbrev put_piece : (Stream → Option Stream) → Stream → ℕ → Option (List ℕ) → Option Stream
put_piece next s n none = none
put_piece next s n (some bytes) = next (put_segment s (take n bytes) true)

-- `putSegment (blob)`: the loop, on fuel for its rounds. `none` is a read through NULL, or the end
-- of the fuel.
unfoldable pub put_blob :
    (segment_length : ℕ → ℕ) (segment : ℕ → Option (List ℕ)) (fuel : ℕ)
    → Stream
    → (offset : ℕ) → Option Stream
put_blob segment_length segment zero s offset = none
put_blob segment_length segment (suc fuel) s offset =
    let n = segment_length offset in
    let rest =
      put_piece (λ t. put_blob segment_length segment fuel t (offset + n)) s n (segment offset) in
    if n == 0 then some s else rest

-- What a caller may rely on of a blob that holds `bytes`: inside, a piece that is not empty, its
-- length and its bytes; at the end, nothing.
pub record IsBlob (bytes : List ℕ) (segment_length : ℕ → ℕ) (segment : ℕ → Option (List ℕ))
    : Type 0 where
  pub inside :
      (offset : ℕ)
      → offset < length bytes
      → (piece : List ℕ) × (segment offset ≡ some piece)
        × (segment_length offset ≡ length piece)
        × (0 < length piece)
        × (piece ++ drop (offset + length piece) bytes ≡ drop offset bytes)
  pub outside :
      (offset : ℕ) → length bytes ≤ offset → (segment offset ≡ none) × (segment_length offset ≡ 0)

-- What the loops answer about `offset`, `k` bytes behind the first byte of `ss`.
abbrev Piece : List Segment → (n k offset : ℕ) → Type 0
Piece ss n k offset =
    (piece : List ℕ) × (segment_at_loop ss n offset ≡ some piece)
    × (segment_length_loop ss n offset ≡ length piece)
    × (0 < length piece)
    × (piece ++ drop (k + length piece) (flatten ss) ≡ drop k (flatten ss))

split-here :
    (k : ℕ) (seg rest : List ℕ)
    → k ≤ length seg
    → drop k seg ++ drop (k + length (drop k seg)) (seg ++ rest) ≡ drop k (seg ++ rest)
split-here k seg rest h =
    let e : k + length (drop k seg) ≡ length seg = omega (arith, length-drop k seg) in
    let z : length seg - length seg ≡ 0 = omega arith in
    rw (drop-append_le k seg rest h, e) (rw (drop-append_ge (length seg) seg rest (omega arith), z))

split-later :
    (k m : ℕ) (seg rest piece : List ℕ)
    → length seg + m ≡ k
    → piece ++ drop (m + length piece) rest ≡ drop m rest
    → piece ++ drop (k + length piece) (seg ++ rest) ≡ drop k (seg ++ rest)
split-later k m seg rest piece e split =
    let a : k + length piece - length seg ≡ m + length piece = omega arith in
    let b : k - length seg ≡ m = omega arith in
    rw (drop-append_ge (k + length piece) seg rest (omega arith), a)
      (rw (drop-append_ge k seg rest (omega arith), b) split)

loop-inside :
    (ss : List Segment) (n k offset : ℕ)
    → n + k ≡ offset
    → k < length (flatten ss)
    → Piece ss n k offset
unfolding segment_at_loop segment_length_loop
loop-inside [] n k offset h inside = absurd (omega arith)
loop-inside (seg ∷ ss) n k offset h inside =
    let e : offset - n ≡ k = omega arith in
    elim (Bool-cases (leb n offset && ltb offset (n + length seg))) [
      | inl here ↦ rw here (
        drop k seg,
        rw e,
        ground (arith, length-drop k seg),
        ground (arith, length-drop k seg),
        split-here k seg (flatten ss) (ground arith),
      )
      | inr later ↦ rw later (
          let (piece, at, len, some_bytes, split) =
            loop-inside ss (n + length seg) (k - length seg) offset (ground arith)
              (ground (arith, length-append seg (flatten ss))) in
          (
            piece,
            at,
            len,
            some_bytes,
            split-later k (k - length seg) seg (flatten ss) piece (ground arith) split,
          ))
    ]

loop-outside :
    (ss : List Segment) (n offset : ℕ)
    → n + length (flatten ss) ≤ offset
    → (segment_at_loop ss n offset ≡ none) × (segment_length_loop ss n offset ≡ 0)
unfolding segment_at_loop segment_length_loop
loop-outside [] n offset h = (refl, refl)
loop-outside (seg ∷ ss) n offset h =
    ground (arith, length-append seg (flatten ss), loop-outside ss (n + length seg) offset)

-- A stream is a blob that holds its contents: from any offset before the end `getSegment` points
-- at a piece that is not empty, `getSegmentLength` is its length, and the piece is what the contents
-- have there; from the end on they answer NULL and 0.
pub Stream-IsBlob : (s : Stream) → IsBlob (contents s) (get_segment_length s) (get_segment_at s)
unfolding get_segment_length get_segment_at
Stream-IsBlob s = record {
  inside = λ offset h. loop-inside s.segments 0 offset offset (omega arith) h;
  outside = λ offset h. loop-outside s.segments 0 offset (omega arith);
}

module _ (bytes : List ℕ) (segment_length : ℕ → ℕ) (segment : ℕ → Option (List ℕ)) where
  -- A run from `offset` that copies the bytes from there on.
  abbrev Copies : (fuel offset : ℕ) → Stream → Type 0
  Copies fuel offset s =
      (t : Stream) × (put_blob segment_length segment fuel s offset ≡ some t)
      × (contents t ≡ contents s ++ drop offset bytes)

  put_blob-step :
      (fuel offset : ℕ) (s : Stream) (piece : List ℕ)
      → segment offset ≡ some piece
      → segment_length offset ≡ length piece
      → 0 < length piece
      → put_blob segment_length segment (suc fuel) s offset
        ≡ put_blob segment_length segment fuel (put_segment s piece true) (offset + length piece)
  unfolding put_blob
  put_blob-step fuel offset s piece at len some_bytes =
      let go : (segment_length offset == 0) ≡ false = ground arith in
      let whole : take (length piece) piece ≡ piece =
        take_of_ge (length piece) piece (omega arith) in
      let onto = λ (n : ℕ) (l : List ℕ).
        put_blob segment_length segment fuel (put_segment s l true) (offset + n) in
      rw go (
        rw at (
          ap (λ (n : ℕ). onto n (take n piece)) len
          ∙ ap (λ (l : List ℕ). onto (length piece) l) whole))

  put_blob-end :
      (fuel offset : ℕ) (s : Stream)
      → segment_length offset ≡ 0
      → put_blob segment_length segment (suc fuel) s offset ≡ some s
  unfolding put_blob
  put_blob-end fuel offset s len =
      let stop : (segment_length offset == 0) ≡ true = ground arith in rw stop

  inside-le :
      (offset : ℕ) (piece : List ℕ)
      → offset ≤ length bytes
      → 0 < length piece
      → piece ++ drop (offset + length piece) bytes ≡ drop offset bytes
      → offset + length piece ≤ length bytes
  inside-le offset piece h some_bytes split = omega (
    arith,
    ap (λ (l : List ℕ). length l) split,
    length-append piece (drop (offset + length piece) bytes),
    length-drop (offset + length piece) bytes,
    length-drop offset bytes,
  )

  Copies-step :
      (fuel offset : ℕ) (s : Stream) (piece : List ℕ)
      → segment offset ≡ some piece
      → segment_length offset ≡ length piece
      → 0 < length piece
      → piece ++ drop (offset + length piece) bytes ≡ drop offset bytes
      → Copies fuel (offset + length piece) (put_segment s piece true)
      → Copies (suc fuel) offset s
  Copies-step fuel offset s piece at len some_bytes split (t, e, copied) = (
    t,
    put_blob-step fuel offset s piece at len some_bytes ∙ e,
    copied
        ∙ rw (put_segment-contents s piece true) (
            append_assoc (contents s) piece (drop (offset + length piece) bytes)
            ∙ ap (λ (l : List ℕ). contents s ++ l) split),
  )

  -- From any blob, `putSegment (blob)` copies all bytes from the offset on, and its loop ends
  -- within one round more than there are bytes from there.
  pub put_blob-contents :
      (fuel offset : ℕ) (s : Stream)
      → IsBlob bytes segment_length segment
      → length bytes < fuel + offset
      → offset ≤ length bytes
      → (t : Stream) × (put_blob segment_length segment fuel s offset ≡ some t)
        × (contents t ≡ contents s ++ drop offset bytes)
  put_blob-contents zero offset s blob enough h = absurd (omega arith)
  put_blob-contents (suc fuel) offset s blob enough h =
      elim (Bool-cases (ltb offset (length bytes))) [
        | inl more ↦
            let (piece, at, len, some_bytes, split) = blob.inside offset (ground arith) in
            Copies-step fuel offset s piece at len some_bytes split (
              put_blob-contents fuel (offset + length piece) (put_segment s piece true) blob
                (omega arith) (inside-le offset piece h some_bytes split))
        | inr end ↦ (
          s,
          put_blob-end fuel offset s (blob.outside offset (ground arith)).1,
          rw (drop_of_ge offset bytes (ground arith)) (sym (append-nil (contents s))),
        )
      ]
