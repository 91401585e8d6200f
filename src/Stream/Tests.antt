-- ===== src/Stream/Tests.antt =====
-- Runs of Stream.cpp on small inputs.
use firebird_odbc_driver.Base.{
  inl, inr, false, none, ℕ, ◌≡◌, refl, true, some, List, [], ◌∷◌, arith,
}
use firebird_odbc_driver.Stream.{Stream, contents}
use firebird_odbc_driver.Stream.Log.{
  Write, character, segment, string, shorts, filled, write_all, IsValid, is_tame, write_all-refines,
}
use firebird_odbc_driver.Stream.Cursor.{read_chunks, read_chunks-take}
use firebird_odbc_driver.Stream.Compress.{compress, decompress, returned, corrupted}
use firebird_odbc_driver.Stream.RoundTrip.{decompress-compress}
use firebird_odbc_driver.Stream.Room.{decompress-odd_run}
use firebird_odbc_driver.Stream.Lines.{copy_until, get_segment_until, line, get_segment_until-fault}

-- Two segments, with room behind the bytes of the second, and the cursor at the second.
abbrev two_segments : Stream
two_segments = record {
  segments = (1 ∷ 2 ∷ 3 ∷ []) ∷ (4 ∷ 5 ∷ []) ∷ [];
  current_length = 4;
  capacity = 4;
  overrun = false;
  total_length = 5;
  min_segment = 4;
  copy_flag = true;
  b_clear = true;
  consecutive_read = true;
  current_read = some 1;
  current_n = 3;
}

abbrev writes : List Write
writes =
    segment (6 ∷ 7 ∷ 8 ∷ []) true
    ∷ character 9
    ∷ shorts (266 ∷ [])
    ∷ string []
    ∷ filled (11 ∷ [])
    ∷ []

write_all-refines_example :
    (contents (write_all two_segments writes) ≡ 1 ∷ 2 ∷ 3 ∷ 4 ∷ 5 ∷ 6 ∷ 7 ∷ 8 ∷ 9 ∷ 10 ∷ 11 ∷ [])
    × IsValid (write_all two_segments writes)
unfolding is_tame
write_all-refines_example =
    write_all-refines false two_segments writes
      (record { owns = refl; inside = refl; counted = refl }) (inr (inl (omega arith))) refl

read_chunks-take_example : read_chunks two_segments 3 (1 ∷ 4 ∷ []) ≡ some (4 ∷ 5 ∷ [])
read_chunks-take_example = read_chunks-take two_segments 3 (1 ∷ 4 ∷ []) (λ _. (refl, omega arith))

abbrev shorts_of_record : List ℕ
shorts_of_record = 5 ∷ 6 ∷ 7 ∷ 7 ∷ 7 ∷ 7 ∷ 65535 ∷ []

decompress-compress_example :
    decompress (compress 7 14 shorts_of_record ∷ []) ≡ returned shorts_of_record
decompress-compress_example = decompress-compress 7 shorts_of_record (omega arith) (omega arith)

decompress-odd_run_example : decompress (compress 0 5 (9 ∷ 9 ∷ 9 ∷ []) ∷ []) ≡ corrupted
decompress-odd_run_example = decompress-odd_run 0 9 0 (omega arith)

abbrev apart_segments : Stream
apart_segments = record two_segments {
  consecutive_read = false;
  current_read = none;
  current_n = 0;
}

line_ends : (line 2 [] (1 ∷ 2 ∷ 3 ∷ []) 0 9).1 ≡ true
unfolding copy_until
line_ends = refl

no_end : (line 9 [] (1 ∷ 2 ∷ 3 ∷ []) 1 4).1 ≡ false
unfolding copy_until
no_end = refl

get_segment_until-fault_example : get_segment_until apart_segments 1 4 9 ≡ none
get_segment_until-fault_example =
    get_segment_until-fault 9 apart_segments [] (1 ∷ 2 ∷ 3 ∷ []) ((4 ∷ 5 ∷ []) ∷ []) 1 4
      (record { segments = refl; apart = refl; first = omega arith; inside = omega arith })
      (4 ∷ 5 ∷ []) [] refl no_end (omega arith)
