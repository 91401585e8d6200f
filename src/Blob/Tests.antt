-- ===== src/Blob/Tests.antt =====
-- Runs of BinaryBlob.cpp on a small blob.
use firebird_odbc_driver.Base.{◌≡◌, true, false, none, some, [], ◌∷◌}
use firebird_odbc_driver.Stream.{contents}
use firebird_odbc_driver.Blob.{BinaryBlob, put_long_segment}
use firebird_odbc_driver.Blob.Segments.{put_long_segment-contents}

abbrev small_blob : BinaryBlob
small_blob = record {
  stream = record {
    segments = (10 ∷ 20 ∷ []) ∷ (30 ∷ []) ∷ [];
    current_length = 1;
    capacity = 1;
    overrun = false;
    total_length = 3;
    min_segment = 1;
    copy_flag = true;
    b_clear = true;
    consecutive_read = false;
    current_read = none;
    current_n = 0;
  };
  offset = 2;
  populated = true;
  use_count = 1;
}

put_long_segment-contents_example :
    (c : BinaryBlob) × (put_long_segment small_blob (40 ∷ 50 ∷ []) ≡ some c)
    × (contents c.stream ≡ 10 ∷ 20 ∷ 30 ∷ 40 ∷ 50 ∷ [])
    × (c.offset ≡ 2)
    × (c.use_count ≡ 1)
put_long_segment-contents_example = put_long_segment-contents small_blob (40 ∷ 50 ∷ [])
