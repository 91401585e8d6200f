-- ===== src/Stream/Cursor.antt =====
-- The members `getSegment`, `getSegmentToBinary` and `getSegmentToHexStr` of Stream.cpp, from the
-- start of the stream and from the cursor of consecutive reads.
use mathlib.Core.List.{map-id}
use firebird_odbc_driver.Base.{
  ℕ, ◌+◌, ◌-◌, ◌≤◌, ◌≡◌, refl, sym, ap, ◌∙◌, Bool, true, false, Option, none, some, List, [], ◌∷◌,
  ◌++◌, map, arith, length, length-append, take, drop, take-append-drop, drop-append_ge, drop-drop,
  take-take-drop,
}
use firebird_odbc_driver.Stream.{Segment, Stream, flatten, contents}
use firebird_odbc_driver.Stream.Append.{flatten-append}
use firebird_odbc_driver.Stream.Read.{
  read_loop, start_at, start_of, move, moved, finish, get_segment, get_segment_to_binary,
  bin_to_hex_str, get_segment_to_hex_str,
}
use firebird_odbc_driver.Stream.Slice.{Parked, read_loop-Meets}

-- A cursor at a segment knows the first byte of the segment, which is at or before `pos`.
abbrev pub AtSegment : List Segment → Option ℕ → (n pos : ℕ) → Type 0
AtSegment ss none n pos = Unit
AtSegment ss (some i) n pos = (n ≡ length (flatten (take i ss))) × (n ≤ pos)

-- A read at `pos` may resume at the cursor, if reads are consecutive.
abbrev pub IsBefore : Stream → ℕ → Type 0
IsBefore s pos = s.consecutive_read ≡ true → AtSegment s.segments s.current_read s.current_n pos

-- What a read of `len` bytes at `offset` returns: `put` of each byte there, their number, and a
-- stream that differs in the cursor alone, which a read at the end of the request may resume.
abbrev pub Reads : (ℕ → ℕ) → Stream → (offset len : ℕ) → Option (ℕ × List ℕ × Stream) → Type 0
Reads put s offset len r =
    let got = map put (take len (drop offset (contents s))) in
    (t : Stream) × (r ≡ some (length got, got, t))
    × (t ≡ record s { current_read = t.current_read; current_n = t.current_n })
    × IsBefore t (offset + len)

flatten-take-drop :
    (i : ℕ) (ss : List Segment) → flatten (take i ss) ++ flatten (drop i ss) ≡ flatten ss
flatten-take-drop i ss =
    sym (flatten-append (take i ss) (drop i ss)) ∙ ap flatten (take-append-drop i ss)

take-add :
    (i k : ℕ) (ss : List Segment)
    → length (flatten (take (i + k) ss))
      ≡ length (flatten (take i ss)) + length (flatten (take k (drop i ss)))
take-add i k ss =
    ap (λ (t : List Segment). length (flatten t)) (sym (take-take-drop i k ss))
    ∙ ap (λ (t : List ℕ). length t) (flatten-append (take i ss) (take k (drop i ss)))
    ∙ length-append (flatten (take i ss)) (flatten (take k (drop i ss)))

-- The bytes from `offset` on, counted from the cursor.
drop-cursor :
    (s : Stream) (i n offset : ℕ)
    → n ≡ length (flatten (take i s.segments))
    → n ≤ offset
    → drop (offset - n) (flatten (drop i s.segments)) ≡ drop offset (contents s)
drop-cursor s i n offset e h = sym (
    ap (λ (t : List ℕ). drop offset t) (sym (flatten-take-drop i s.segments))
    ∙ drop-append_ge offset (flatten (take i s.segments)) (flatten (drop i s.segments))
        (omega arith)
    ∙ ap (λ (m : ℕ). drop (offset - m) (flatten (drop i s.segments))) (sym e))

move-IsBefore :
    (b : Bool) (s : Stream) (r : Option ℕ) (m stop : ℕ)
    → b ≡ s.consecutive_read
    → AtSegment s.segments r m stop
    → IsBefore (move b s r m) stop
move-IsBefore true s r m stop e p = λ _. p
move-IsBefore false s r m stop e p = λ t. cc

moved-IsBefore :
    (s : Stream) (i n stop : ℕ) (c : Option (Option ℕ × ℕ))
    → n ≡ length (flatten (take i s.segments))
    → Parked (drop i s.segments) i n stop c
    → IsBefore s stop
    → IsBefore (moved s c) stop
moved-IsBefore s i n stop none e p b = b
moved-IsBefore s i n stop (some (none, m)) e p b =
    move-IsBefore s.consecutive_read s none m stop refl tt
moved-IsBefore s i n stop (some (some j, m)) e (k, place, first, before) b =
    let at : m ≡ length (flatten (take (i + k) s.segments)) =
      omega (arith, take-add i k s.segments) in
    move-IsBefore s.consecutive_read s (some j) m stop refl (rw place at, before)

move-same :
    (b : Bool) (s : Stream) (r : Option ℕ) (m : ℕ)
    → move b s r m ≡ record s {
      current_read = (move b s r m).current_read;
      current_n = (move b s r m).current_n;
    }
move-same true s r m = refl
move-same false s r m = refl

moved-same :
    (s : Stream) (c : Option (Option ℕ × ℕ))
    → moved s c
      ≡ record s { current_read = (moved s c).current_read; current_n = (moved s c).current_n }
moved-same s none = refl
moved-same s (some (r, m)) = move-same s.consecutive_read s r m

AtSegment-mono :
    (ss : List Segment) (r : Option ℕ) (n a b : ℕ) → a ≤ b → AtSegment ss r n a → AtSegment ss r n b
AtSegment-mono ss none n a b h p = tt
AtSegment-mono ss (some i) n a b h (first, before) = (first, omega arith)

module _ (put : ℕ → ℕ) (counts_down : Bool) (s : Stream) (offset len : ℕ)
    (b : IsBefore s offset) where
  from-Reads :
      (i n : ℕ)
      → n ≡ length (flatten (take i s.segments))
      → n ≤ offset
      → Reads put s offset len
          (finish s len (read_loop put counts_down (drop i s.segments) i n offset len []))
  from-Reads i n e h =
      let (r, er, bytes, parked, counted) =
        read_loop-Meets put counts_down (drop i s.segments) i n offset len [] h in
      let got = map put (take len (drop offset (contents s))) in
      let same : r.bytes ≡ got =
        bytes ∙ ap (λ (t : List ℕ). map put (take len t)) (drop-cursor s i n offset e h) in
      let number : len - r.length_left ≡ length got =
        omega (arith, counted, ap (λ (t : List ℕ). length t) same) in
      (
        moved s r.cursor,
        rw (er, finish) (rw (number, same)),
        moved-same s r.cursor,
        moved-IsBefore s i n (offset + len) r.cursor e parked (λ c.
            AtSegment-mono s.segments s.current_read s.current_n offset (offset + len) (omega arith)
              (b c)),
      )

  at-Reads :
      (r : Option ℕ)
      → AtSegment s.segments r s.current_n offset
      → (let (ss, i, n) = start_at s r in
          Reads put s offset len (finish s len (read_loop put counts_down ss i n offset len [])))
  at-Reads none a = from-Reads 0 0 refl (omega arith)
  at-Reads (some i) (first, before) = from-Reads i s.current_n first before

  start_of-Reads :
      (c : Bool)
      → c ≡ s.consecutive_read
      → (let (ss, i, n) = start_of c s in
          Reads put s offset len (finish s len (read_loop put counts_down ss i n offset len [])))
  start_of-Reads true e = at-Reads s.current_read (b (sym e))
  start_of-Reads false e = at-Reads none tt

module _ (s : Stream) (offset len : ℕ) (b : IsBefore s offset) where
  -- Whether it starts at the first segment or at the cursor of consecutive reads, `getSegment`
  -- stores the bytes of the stream from `offset` on, at most `len`, returns their number, and
  -- changes the cursor alone, so that a consecutive read may go on where this one ended. Under
  -- consecutive reads the cursor is at the start of a segment, at or before `offset`.
  pub get_segment-Reads : Reads (λ b. b) s offset len (get_segment s offset len)
  unfolding get_segment
  get_segment-Reads = start_of-Reads (λ b. b) false s offset len b s.consecutive_read refl

  -- `getSegmentToBinary` reads the same bytes, stores a short for each, and changes the cursor alone.
  pub get_segment_to_binary-Reads : Reads (λ b. b) s offset len (get_segment_to_binary s offset len)
  unfolding get_segment_to_binary
  get_segment_to_binary-Reads = start_of-Reads (λ b. b) true s offset len b s.consecutive_read refl

  -- `getSegmentToHexStr` reads the same bytes, stores the two hexadecimal digits of each, and
  -- changes the cursor alone.
  pub get_segment_to_hex_str-Reads :
      Reads bin_to_hex_str s offset len (get_segment_to_hex_str s offset len)
  unfolding get_segment_to_hex_str
  get_segment_to_hex_str-Reads =
      start_of-Reads bin_to_hex_str true s offset len b s.consecutive_read refl

abbrev prepend : List ℕ → Option (List ℕ) → Option (List ℕ)
prepend got none = none
prepend got (some rest) = some (got ++ rest)

abbrev then_chunks : (Stream → Option (List ℕ)) → Option (ℕ × List ℕ × Stream) → Option (List ℕ)
then_chunks next none = none
then_chunks next (some (count, got, t)) = prepend got (next t)

-- Requests one after the other, each from where the last one ended.
pub read_chunks : Stream → ℕ → List ℕ → Option (List ℕ)
read_chunks s pos [] = some []
read_chunks s pos (len ∷ lens) =
    then_chunks (λ t. read_chunks t (pos + len) lens) (get_segment s pos len)

abbrev pub sum : List ℕ → ℕ
sum [] = 0
sum (n ∷ ns) = n + sum ns

-- Requests of any sizes, one after the other from where a read may resume, return together the
-- bytes of the stream from `pos` on: they lose and repeat none.
pub read_chunks-take :
    (s : Stream) (pos : ℕ) (lens : List ℕ)
    → IsBefore s pos
    → read_chunks s pos lens ≡ some (take (sum lens) (drop pos (contents s)))
unfolding read_chunks
read_chunks-take s pos [] b = refl
read_chunks-take s pos (len ∷ lens) b =
    let (t, e, same, next) = get_segment-Reads s pos len b in
    let whole : contents t ≡ contents s = ap contents same in
    let rest = read_chunks-take t (pos + len) lens next in
    rw e (
      rw rest (
        ap (λ (l : List ℕ). some l)
          (rw (whole, ← drop-drop pos len (contents s))
            (rw (map-id (take len (drop pos (contents s))))
              (take-take-drop len (sum lens) (drop pos (contents s)))))))
