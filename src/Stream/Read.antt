-- ===== src/Stream/Read.antt =====
-- The reading members of IscDbc/Stream.cpp. The bytes stored through `address` are the list that a
-- read returns. `currentRead` is the place of a segment in the list of segments. A read before the
-- segment where a consecutive read resumes would copy from before that segment: `none`.
use firebird_odbc_driver.Base.{
  ℕ, ◌+◌, ◌-◌, ◌*◌, ◌/◌, ◌%◌, min, Bool, true, false, ◌&&◌, ◌||◌, Option, none, some, List, [], ◌∷◌,
  ◌++◌, map, ltb, leb, ◌==◌, if◌then◌else◌, length, take, drop,
}
use firebird_odbc_driver.Stream.{Segment, Stream}

-- What a read leaves: the bytes that it stored, what it still wanted, and the new
-- `currentRead` and `currentN` if it reached the end of its request.
pub record Reading : Type 0 where
  pub bytes : List ℕ
  pub length_left : ℕ
  pub cursor : Option (Option ℕ × ℕ)

-- `currentRead` and `currentN` once a request is met in the segment of place `i`. `short` is the
-- test `l < segment->length`, and `more` says whether the segment has a successor.
abbrev pub park : (i n : ℕ) (short : Bool) → Segment → (more : Bool) → Option ℕ × ℕ
park i n short seg more =
    if short then (some i, n) else if more then (some (i + 1), n + length seg) else (none, n)

abbrev pub has_next : List Segment → Bool
has_next [] = false
has_next (s ∷ ss) = true

-- The members that read bytes, and those that store a short for each byte, are one loop: `put` is
-- what is stored for a byte, and `counts_down` says that the copy loop ends with `l` at -1, so that
-- the test `l < segment->length` holds.
module _ (put : ℕ → ℕ) (counts_down : Bool) where
  -- The loop at the segment of place `i`, which starts at byte `n`.
  unfoldable pub read_loop : List Segment → (i n offset left : ℕ) → List ℕ → Option Reading
  read_loop [] i n offset left out =
      some (record { bytes = out; length_left = left; cursor = none })
  read_loop (seg ∷ ss) i n offset left out =
      let skip = read_loop ss (i + 1) (n + length seg) offset left out in
      let off = offset - n in
      let l = min left (length seg - off) in
      let out' = out ++ map put (take l (drop off seg)) in
      let go_on = read_loop ss (i + 1) (n + length seg) (offset + l) (left - l) out' in
      if ltb offset (n + length seg)
      then (if ltb offset n
          then none
          else if left - l == 0
          then some (record {
            bytes = out';
            length_left = 0;
            cursor = some (park i n (counts_down || ltb l (length seg)) seg (has_next ss));
          })
          else go_on)
      else skip

-- Where a read starts: the segments left, the place and the first byte of the first of them.
abbrev pub start_at : Stream → Option ℕ → List Segment × ℕ × ℕ
start_at s none = (s.segments, 0, 0)
start_at s (some i) = (drop i s.segments, i, s.current_n)

abbrev pub start_of : Bool → Stream → List Segment × ℕ × ℕ
start_of true s = start_at s s.current_read
start_of false s = (s.segments, 0, 0)

abbrev pub start : Stream → List Segment × ℕ × ℕ
start s = start_of s.consecutive_read s

-- The state after a read, which moves the cursor only under `consecutiveRead`.
abbrev pub move : Bool → Stream → Option ℕ → ℕ → Stream
move true s r n = record s { current_read = r; current_n = n }
move false s r n = s

abbrev pub moved : Stream → Option (Option ℕ × ℕ) → Stream
moved s none = s
moved s (some (r, n)) = move s.consecutive_read s r n

-- A read of `len` bytes returns `len - length`, what it stored, and the new state.
abbrev pub finish : Stream → ℕ → Option Reading → Option (ℕ × List ℕ × Stream)
finish s len none = none
finish s len (some r) = some (len - r.length_left, r.bytes, moved s r.cursor)

-- `getSegment (offset, len, ptr)`
unfoldable pub get_segment : Stream → (offset len : ℕ) → Option (ℕ × List ℕ × Stream)
get_segment s offset len =
    let (ss, i, n) = start s in finish s len (read_loop (λ b. b) false ss i n offset len [])

-- `getSegmentToBinary` widens each byte to a short.
unfoldable pub get_segment_to_binary : Stream → (offset len : ℕ) → Option (ℕ × List ℕ × Stream)
get_segment_to_binary s offset len =
    let (ss, i, n) = start s in finish s len (read_loop (λ b. b) true ss i n offset len [])

unfoldable pub hex_digit : ℕ → ℕ
hex_digit d = if ltb d 10 then b'0' + d else b'A' + (d - 10)

-- `conwBinToHexStr`: the short whose low byte is the first hexadecimal digit of the byte.
unfoldable pub bin_to_hex_str : ℕ → ℕ
unfolding hex_digit
bin_to_hex_str b = hex_digit (b % 16) * 256 + hex_digit (b / 16)

unfoldable pub get_segment_to_hex_str : Stream → (offset len : ℕ) → Option (ℕ × List ℕ × Stream)
get_segment_to_hex_str s offset len =
    let (ss, i, n) = start s in finish s len (read_loop bin_to_hex_str true ss i n offset len [])

-- `getSegmentLength (offset)`: the bytes from `offset` to the end of its segment.
unfoldable pub segment_length_loop : List Segment → (n offset : ℕ) → ℕ
segment_length_loop [] n offset = 0
segment_length_loop (seg ∷ ss) n offset =
    if leb n offset && ltb offset (n + length seg)
    then n + length seg - offset
    else segment_length_loop ss (n + length seg) offset

unfoldable pub get_segment_length : Stream → ℕ → ℕ
unfolding segment_length_loop
get_segment_length s offset = segment_length_loop s.segments 0 offset

-- `getSegment (offset)`: the bytes from the pointer that it returns to the end of the segment.
unfoldable pub segment_at_loop : List Segment → (n offset : ℕ) → Option (List ℕ)
segment_at_loop [] n offset = none
segment_at_loop (seg ∷ ss) n offset =
    if leb n offset && ltb offset (n + length seg)
    then some (drop (offset - n) seg)
    else segment_at_loop ss (n + length seg) offset

unfoldable pub get_segment_at : Stream → ℕ → Option (List ℕ)
unfolding segment_at_loop
get_segment_at s offset = segment_at_loop s.segments 0 offset
