-- ===== src/Blob.antt =====
-- IscDbc/BinaryBlob.cpp: a stream with a reading offset, as the blob of a column, and the reading of
-- hexadecimal text that Stream.cpp offers to it. `populate` only sets its flag.
pub mod Segments
pub mod Hex
mod Tests
use firebird_odbc_driver.Base.{
  ℕ, zero, suc, ◌+◌, ◌-◌, ◌*◌, ◌%◌, Bool, true, false, Option, none, some, List, [], ◌∷◌, leb, ltb,
  ◌==◌, if◌then◌else◌, length, take, drop, ◌&&◌,
}
use firebird_odbc_driver.Stream
use firebird_odbc_driver.Stream.{Stream, put_segment}
use firebird_odbc_driver.Stream.Read.{
  get_segment, get_segment_to_binary, get_segment_to_hex_str, get_segment_length,
}

pub record BinaryBlob : Type 0 where
  pub stream : Stream
  pub offset : ℕ
  pub populated : Bool
  pub use_count : ℕ

-- `BinaryBlob (minSegmentSize)`
unfoldable pub new : (garbage : ℕ) (garbage_flag : Bool) → ℕ → BinaryBlob
unfolding Stream.new
new garbage garbage_flag min_segment_size = record {
  stream = Stream.new garbage garbage_flag min_segment_size;
  offset = 0;
  populated = true;
  use_count = 1;
}

unfoldable pub add_ref : BinaryBlob → BinaryBlob
add_ref b = record b { use_count = b.use_count + 1 }

-- `release`: `none` in place of the blob once it is deleted, and the count that is returned. The
-- caller holds a reference, so the count is not 0 before.
unfoldable pub release : BinaryBlob → Option BinaryBlob × ℕ
release b =
    let n = b.use_count - 1 in if n == 0 then (none, 0) else (some (record b { use_count = n }), n)

unfoldable pub clear : BinaryBlob → BinaryBlob
unfolding Stream.clear
clear b = record b { stream = Stream.clear b.stream; offset = 0 }

unfoldable pub populate : BinaryBlob → BinaryBlob
populate b = record b { populated = true }

abbrev pub ready : BinaryBlob → BinaryBlob
ready b = if b.populated then b else record b { populated = true }

-- A read: the offset grows by the number of bytes that the stream returned.
abbrev pub advance : BinaryBlob → Option (ℕ × List ℕ × Stream) → Option (List ℕ × BinaryBlob)
advance b none = none
advance b (some (count, got, t)) = some (got, record b { stream = t; offset = b.offset + count })

unfoldable pub get_bytes : BinaryBlob → (position len : ℕ) → Option (List ℕ × BinaryBlob)
get_bytes b position len = advance (ready b) (get_segment b.stream position len)

unfoldable pub get_binary : BinaryBlob → (position len : ℕ) → Option (List ℕ × BinaryBlob)
get_binary b position len = advance (ready b) (get_segment_to_binary b.stream position len)

unfoldable pub get_hex_string : BinaryBlob → (position len : ℕ) → Option (List ℕ × BinaryBlob)
get_hex_string b position len = advance (ready b) (get_segment_to_hex_str b.stream position len)

-- `length ()`: the blob that is asked, populated, and the length.
unfoldable pub length_of : BinaryBlob → ℕ × BinaryBlob
length_of b = (b.stream.total_length, ready b)

abbrev pub default_blob_buffer_length : ℕ
default_blob_buffer_length = 16384

-- `putLongSegment (length, data)`: the loop, on fuel for its rounds, and the copy of what is left.
unfoldable pub put_long : (fuel : ℕ) → Stream → List ℕ → Option Stream
put_long zero s d = none
put_long (suc fuel) s d =
    let rest =
      put_long fuel (put_segment s (take default_blob_buffer_length d) true)
        (drop default_blob_buffer_length d) in
    if leb default_blob_buffer_length (length d)
    then rest
    else some (if length d == 0 then s else put_segment s d true)

abbrev pub with_stream : BinaryBlob → Option Stream → Option BinaryBlob
with_stream b none = none
with_stream b (some s) = some (record b { stream = s })

-- A round takes 16384 bytes, so as many rounds as bytes, and one more, are enough.
unfoldable pub put_long_segment : BinaryBlob → List ℕ → Option BinaryBlob
put_long_segment b d = with_stream b (put_long (length d + 1) b.stream d)

-- `charTableHexToDigit`, with a char read as unsigned; 0 at a char that is no digit.
unfoldable pub char_hex_to_digit : ℕ → ℕ
char_hex_to_digit c =
    if leb b'0' c && leb c b'9'
    then c - b'0'
    else if leb b'A' c && leb c b'F'
    then c - b'A' + 10
    else if leb b'a' c && leb c b'f'
    then c - b'a' + 10
    else 0

-- `convStrHexToBinary`: the bytes that `len / 2` rounds store from the start of the text.
unfoldable pub conv_str_hex_to_binary : (rounds : ℕ) → List ℕ → List ℕ
unfolding char_hex_to_digit
conv_str_hex_to_binary zero cs = []
conv_str_hex_to_binary (suc n) (a ∷ b ∷ cs) =
    (char_hex_to_digit a * 16 % 256 + char_hex_to_digit b) % 256 ∷ conv_str_hex_to_binary n cs
conv_str_hex_to_binary (suc n) cs = []
