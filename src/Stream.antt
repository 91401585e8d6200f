-- ===== src/Stream.antt =====
-- IscDbc/Stream.cpp, the state and the writing members. A segment is the list of the bytes in use;
-- `current` is the last segment, since each member that links a segment in makes it `current`.
-- A segment that is put without a copy stands for the caller's bytes, which the caller keeps unchanged while
-- the stream is in use. `current_length` is `currentLength`, which the first such segment leaves as it was;
-- `capacity` is the size of the block that `current` really leads to, and `overrun` whether a byte was stored
-- behind the end of such a block: it stands among the bytes of the segment then, as a reader finds it.
pub mod Append
pub mod Placed
pub mod Log
pub mod Read
pub mod Slice
pub mod Cursor
pub mod Compress
pub mod RoundTrip
pub mod Room
pub mod Pieces
pub mod Lines
mod Tests
use firebird_odbc_driver.Base.{
  ℕ, ◌+◌, ◌-◌, ◌%◌, max, min, Bool, true, false, ◌||◌, Option, none, List, [], ◌∷◌, ◌++◌, map, ltb,
  leb, ◌==◌, if◌then◌else◌, length, take, drop,
}

abbrev pub Segment : Type 0
Segment = List ℕ

pub record Stream : Type 0 where
  pub segments : List Segment
  pub current_length : ℕ
  pub capacity : ℕ
  pub overrun : Bool
  pub total_length : ℕ
  pub min_segment : ℕ
  pub copy_flag : Bool
  pub b_clear : Bool
  pub consecutive_read : Bool
  pub current_read : Option ℕ
  pub current_n : ℕ

-- The bytes of all segments, in order.
abbrev pub flatten : List Segment → List ℕ
flatten [] = []
flatten (s ∷ ss) = s ++ flatten ss

abbrev pub contents : Stream → List ℕ
contents s = flatten s.segments

-- `current->length`
abbrev pub last_length : List Segment → ℕ
last_length [] = 0
last_length (s ∷ []) = length s
last_length (s ∷ t ∷ ss) = last_length (t ∷ ss)

-- Bytes stored behind those that `current` holds.
abbrev pub extend_last : List Segment → List ℕ → List Segment
extend_last [] d = []
extend_last (s ∷ []) d = (s ++ d) ∷ []
extend_last (s ∷ t ∷ ss) d = s ∷ extend_last (t ∷ ss) d

abbrev pub is_empty : List Segment → Bool
is_empty [] = true
is_empty (s ∷ ss) = false

-- `Stream::Stream`. The constructors leave `currentLength` and `copyFlag` as they find them.
unfoldable pub new : (garbage : ℕ) (garbage_flag : Bool) → ℕ → Stream
new garbage garbage_flag min_segment_size = record {
  segments = [];
  current_length = garbage;
  capacity = 0;
  overrun = false;
  total_length = 0;
  min_segment = min_segment_size;
  copy_flag = garbage_flag;
  b_clear = true;
  consecutive_read = false;
  current_read = none;
  current_n = 0;
}

-- `allocSegment (tail)`, and the bytes that the caller then stores in the new segment.
abbrev pub alloc_segment : Stream → ℕ → List ℕ → Stream
alloc_segment s tail d = record s {
  segments = s.segments ++ d ∷ [];
  current_length = tail;
  capacity = tail;
}

-- `alloc`: the caller fills the `length` bytes of the new segment.
unfoldable pub alloc : Stream → List ℕ → Stream
alloc s d = record (alloc_segment s (length d) d) { total_length = s.total_length + length d }

unfoldable pub put_character : Stream → ℕ → Stream
put_character s c =
    let t =
      if is_empty s.segments
      then alloc_segment s (max 100 s.min_segment) []
      else if leb s.current_length (last_length s.segments)
      then alloc_segment s (max 100 s.min_segment) []
      else s in
    record t {
      segments = extend_last t.segments (c ∷ []);
      total_length = s.total_length + 1;
      overrun = t.overrun || leb t.capacity (last_length t.segments);
    }

-- What is left of the data after `current` is filled up goes into a new segment.
abbrev pub spill : Stream → List ℕ → Stream
spill s d = if length d == 0 then s else alloc_segment s (max (length d) s.min_segment) d

-- The branch that copies behind the bytes of `current`.
abbrev pub put_copy : Stream → List ℕ → Stream
put_copy s d =
    let l = s.current_length - last_length s.segments in
    let l2 = min l (length d) in
    if ltb 0 l
    then spill
        (record s {
          segments = extend_last s.segments (take l2 d);
          overrun = s.overrun || ltb s.capacity (last_length s.segments + l2);
        })
        (drop l2 d)
    else spill s d

-- `putSegment (length, ptr, copy)`
unfoldable pub put_segment : Stream → List ℕ → Bool → Stream
put_segment s d copy =
    let t = record s { total_length = s.total_length + length d } in
    if is_empty s.segments
    then (if copy
        then alloc_segment (record t { copy_flag = true }) (max (length d) s.min_segment) d
        else record t { copy_flag = false; segments = d ∷ []; capacity = length d })
    else if s.copy_flag
    then put_copy t d
    else alloc_segment t 0 d

-- `putSegment (string)`: the bytes before the terminator.
unfoldable pub put_string : Stream → List ℕ → Stream
unfolding put_segment
put_string s d = if length d == 0 then s else put_segment s d true

-- `putSegment (length, chars)`, which keeps the low byte of each unsigned short.
unfoldable pub put_shorts : Stream → List ℕ → Stream
put_shorts s ws =
    let d = map (λ w. w % 256) ws in
    let t = record s { total_length = s.total_length + length d } in
    if is_empty s.segments then alloc_segment t (max (length d) s.min_segment) d else put_copy t d

-- `putSegment (stream)`, for a stream other than this one.
unfoldable pub put_segments : Stream → List Segment → Stream
put_segments s [] = s
put_segments s (d ∷ ds) = put_segments (put_segment s d true) ds

unfoldable pub put_stream : Stream → Stream → Stream
unfolding put_segments
put_stream s other = put_segments s other.segments

-- `attach (dst, clear)`: the segments are shared with `dst`.
unfoldable pub attach : Stream → Stream → Bool → Stream
attach s dst clear = record s {
  b_clear = clear;
  segments = dst.segments;
  total_length = dst.total_length;
  min_segment = dst.min_segment;
  current_length = dst.current_length;
  capacity = dst.capacity;
  overrun = dst.overrun;
  copy_flag = dst.copy_flag;
}

unfoldable pub clear : Stream → Stream
clear s =
    if s.b_clear
    then record s { segments = []; current_read = none; current_n = 0; total_length = 0 }
    else s

unfoldable pub set_min_segment : Stream → ℕ → Stream
set_min_segment s n = record s { min_segment = n }

unfoldable pub get_length : Stream → ℕ
get_length s = s.total_length
