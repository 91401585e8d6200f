-- ===== src/Stream/Compress.antt =====
-- `Stream::compress` and `Stream::decompress` of IscDbc/Stream.cpp, run-length coding of records.
-- A `short` is its 16-bit pattern, below 65536, and a segment is the list of its shorts; a pattern
-- from 32768 on is negative. The dumps that `decompress` prints are left out.
use firebird_odbc_driver.Base.{
  ℕ, zero, suc, ◌+◌, ◌-◌, ◌*◌, ◌%◌, Bool, false, ◌&&◌, ◌||◌, List, [], ◌∷◌, ◌++◌, ltb, leb, ◌==◌,
  if◌then◌else◌, length, replicate,
}
use firebird_odbc_driver.Base.Int.{ℤ, pos, negsuc}

-- The short at the pointer, which is `past`, whatever stands behind the record, at its end.
abbrev pub at_or : ℕ → List ℕ → ℕ
at_or past [] = past
at_or past (a ∷ xs) = a

-- The test that ends a literal: not behind `yellow`, and three shorts alike.
abbrev pub run_starts : ℕ → List ℕ → Bool
run_starts past [] = false
run_starts past (a ∷ []) = false
run_starts past (a ∷ b ∷ xs) = a == b && b == at_or past xs

-- The loop that copies a literal: the shorts copied, and those left.
unfoldable pub literal : ℕ → List ℕ → List ℕ × List ℕ
literal past [] = ([], [])
literal past (a ∷ xs) =
    let (l, r) = literal past xs in if run_starts past (a ∷ xs) then ([], a ∷ xs) else (a ∷ l, r)

-- The loop that counts a run behind its first short: how many are alike, and those left.
unfoldable pub run_of : ℕ → List ℕ → ℕ × List ℕ
run_of a [] = (0, [])
run_of a (b ∷ xs) = let (n, r) = run_of a xs in if b == a then (n + 1, r) else (0, b ∷ xs)

-- `start [-1] = -n`, then the shorts of the literal; nothing if there are none.
abbrev pub emit : List ℕ → List ℕ
emit [] = []
emit (a ∷ l) = (65536 - length (a ∷ l) % 65536) % 65536 ∷ a ∷ l

-- The second half of a round: nothing at the end of the record, else a run and what follows it.
abbrev pub emit_run : (List ℕ → List ℕ) → List ℕ → List ℕ
emit_run next [] = []
emit_run next (a ∷ r) = let (n, rest) = run_of a r in (n + 1) % 65536 ∷ a ∷ next rest

-- The outer loop, on fuel for its rounds: each consumes a short, so as many rounds as shorts do.
unfoldable pub compress_loop : (past fuel : ℕ) → List ℕ → List ℕ
compress_loop past zero xs = []
compress_loop past (suc fuel) [] = []
compress_loop past (suc fuel) (a ∷ xs) =
    let (l, r) = literal past (a ∷ xs) in emit l ++ emit_run (compress_loop past fuel) r

-- The shorts of the segment that `compress (size, address)` makes of the (size + 1) / 2 shorts at
-- `address`.
unfoldable pub compress : (past size : ℕ) → List ℕ → List ℕ
compress past size xs = size % 65536 ∷ compress_loop past (length xs) xs

-- The bytes that `compress` asks of `allocSegment`, and those that it makes the segment's length.
abbrev pub allocated : ℕ → ℕ
allocated size = size + 5

-- `run`: a short as the integer that it stands for.
abbrev pub signed16 : ℕ → ℤ
signed16 n = if ltb n 32768 then pos n else negsuc (65535 - n)

-- What a stream of shorts has come to: the buffer in use and `run`; or `data` returned; or the
-- exception "corrupted record".
pub data Progress : Type 0 where
  going : List ℕ → ℤ → Progress
  returned : List ℕ → Progress
  corrupted : Progress

-- A short read when `run` is 0: the test `q + run > limit`, in bytes.
abbrev pub start_run : (size : ℕ) → List ℕ → ℤ → Progress
start_run size q (pos n) =
    if ltb size (2 * (length q + n))
    then (if 2 * length q == size then returned q else corrupted)
    else going q (pos n)
start_run size q (negsuc n) =
    if ltb (size + 2 * (n + 1)) (2 * length q)
    then (if 2 * length q == size then returned q else corrupted)
    else going q (negsuc n)

-- The body of the inner loop at the short `n`.
abbrev pub take_short : (size : ℕ) → List ℕ → ℤ → ℕ → Progress
take_short size q (pos zero) n = start_run size q (signed16 n)
take_short size q (pos (suc run)) n = going (q ++ replicate (suc run) n) (pos 0)
take_short size q (negsuc zero) n = going (q ++ n ∷ []) (pos 0)
take_short size q (negsuc (suc run)) n = going (q ++ n ∷ []) (negsuc run)

abbrev pub onward : (List ℕ → ℤ → Progress) → Progress → Progress
onward next (going q run) = next q run
onward next (returned d) = returned d
onward next corrupted = corrupted

-- The inner loop, over the shorts of a segment.
unfoldable pub take_shorts : (size : ℕ) → List ℕ → ℤ → List ℕ → Progress
take_shorts size q run [] = going q run
take_shorts size q run (n ∷ ns) =
    onward (λ q' run'. take_shorts size q' run' ns) (take_short size q run n)

-- The outer loop once `decompressedLength` is known.
unfoldable pub take_segments : (size : ℕ) → Progress → List (List ℕ) → Progress
unfolding take_shorts
take_segments size (going q run) [] = returned q
take_segments size (going q run) (s ∷ ss) = take_segments size (take_shorts size q run s) ss
take_segments size (returned d) ss = returned d
take_segments size corrupted ss = corrupted

-- `decompress`: the first short of the first segment with shorts is the size in bytes. With no
-- such segment the source returns a pointer that it never set, here an empty buffer.
unfoldable pub decompress : List (List ℕ) → Progress
unfolding take_segments
decompress [] = returned []
decompress ([] ∷ ss) = decompress ss
decompress ((n ∷ ns) ∷ ss) =
    if n == 0 || leb 32768 n then corrupted else take_segments n (take_shorts n [] (pos 0) ns) ss
