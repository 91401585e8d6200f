-- ===== src/Blob/Segments.antt =====
-- Reading and writing a BinaryBlob, on the bytes of its stream.
use firebird_odbc_driver.Base.{
  ℕ, zero, suc, ◌+◌, ◌<◌, ◌≡◌, refl, sym, ap, ◌∙◌, inl, inr, true, Option, some, List, [], ◌∷◌,
  ◌++◌, map, append-nil, append_assoc, arith, leb, ◌==◌, Bool-cases, if◌then◌else◌, length,
  length-drop, take, drop, take-append-drop,
}
use firebird_odbc_driver.Stream.{Stream, contents, put_segment}
use firebird_odbc_driver.Stream.Append.{put_segment-contents}
use firebird_odbc_driver.Stream.Cursor.{
  IsBefore, Reads, get_segment-Reads, get_segment_to_binary-Reads, get_segment_to_hex_str-Reads,
}
use firebird_odbc_driver.Stream.Read.{bin_to_hex_str}
use firebird_odbc_driver.Blob.{
  BinaryBlob, ready, advance, with_stream, get_bytes, get_binary, get_hex_string, put_long,
  put_long_segment, default_blob_buffer_length,
}

put_long-contents :
    (fuel : ℕ) (s : Stream) (d : List ℕ)
    → length d < fuel
    → (t : Stream) × (put_long fuel s d ≡ some t) × (contents t ≡ contents s ++ d)
unfolding put_long
put_long-contents zero s d h = absurd (omega arith)
put_long-contents (suc fuel) s d h =
    let k = default_blob_buffer_length in
    elim (Bool-cases (leb k (length d))) [
      | inl block ↦
          let (t, e, copied) =
            put_long-contents fuel (put_segment s (take k d) true) (drop k d)
              (ground (arith, length-drop k d)) in
          (
            t,
            rw block e,
            copied
                ∙ rw (put_segment-contents s (take k d) true) (
                    append_assoc (contents s) (take k d) (drop k d)
                    ∙ ap (λ (l : List ℕ). contents s ++ l) (take-append-drop k d)),
          )
      | inr last ↦ (if length d == 0 then s else put_segment s d true, rw last, tail s d)
    ]
  where
    tail :
        (s : Stream) (d : List ℕ)
        → contents (if length d == 0 then s else put_segment s d true) ≡ contents s ++ d
    tail s [] = sym (append-nil (contents s))
    tail s (b ∷ d) = ground (arith, put_segment-contents s (b ∷ d) true)

-- `putLongSegment` ends, adds exactly the data at the end of the blob, however many blocks they make,
-- and leaves the reading offset and the reference count as they were.
pub put_long_segment-contents :
    (b : BinaryBlob) (d : List ℕ)
    → (c : BinaryBlob) × (put_long_segment b d ≡ some c)
      × (contents c.stream ≡ contents b.stream ++ d)
      × (c.offset ≡ b.offset)
      × (c.use_count ≡ b.use_count)
unfolding put_long_segment
put_long_segment-contents b d =
    let (t, e, copied) = put_long-contents (length d + 1) b.stream d (omega arith) in
    (record b { stream = t }, ap (with_stream b) e, copied, refl, refl)

-- What a read of `len` bytes at `position` returns, and the blob it leaves: ready, with an offset
-- that has grown by the number of bytes returned, and with the same bytes.
abbrev pub Gets : (ℕ → ℕ) → BinaryBlob → (position len : ℕ) → Option (List ℕ × BinaryBlob) → Type 0
Gets put b position len r =
    let got = map put (take len (drop position (contents b.stream))) in
    (c : BinaryBlob) × (r ≡ some (got, c))
    × (c.offset ≡ b.offset + length got)
    × (c.populated ≡ true)
    × (c.use_count ≡ b.use_count)
    × (contents c.stream ≡ contents b.stream)

advance-Gets :
    (put : ℕ → ℕ) (b : BinaryBlob) (position len : ℕ) (r : Option (ℕ × List ℕ × Stream))
    → Reads put b.stream position len r
    → Gets put b position len (advance (ready b) r)
advance-Gets put b position len r (t, e, same, next) = (
  record (ready b) {
    stream = t;
    offset = (ready b).offset + length (map put (take len (drop position (contents b.stream))));
  },
  rw e,
  ground arith,
  ground arith,
  ground arith,
  ap contents same,
)

module _ (b : BinaryBlob) (position len : ℕ) (before : IsBefore b.stream position) where
  -- At a position where a consecutive read may resume, `getBytes` and `getBinary` return the bytes of the blob from the position on, `getHexString` two
  -- digits for each; all three move the offset by the number of bytes read and keep the bytes.
  pub get_bytes-Gets :
      Gets (λ x. x) b position len (get_bytes b position len)
      × Gets (λ x. x) b position len (get_binary b position len)
      × Gets bin_to_hex_str b position len (get_hex_string b position len)
  unfolding get_bytes get_binary get_hex_string
  get_bytes-Gets = (
    advance-Gets (λ x. x) b position len _ (get_segment-Reads b.stream position len before),
    advance-Gets (λ x. x) b position len _
        (get_segment_to_binary-Reads b.stream position len before),
    advance-Gets bin_to_hex_str b position len _
        (get_segment_to_hex_str-Reads b.stream position len before),
  )
