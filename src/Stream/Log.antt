-- ===== src/Stream/Log.antt =====
-- The writing members of Stream.cpp as events, against a plain log of bytes.
use firebird_odbc_driver.Base.{
  ℕ, ◌+◌, ◌%◌, ◌≡◌, refl, ◌∙◌, ap, Bool, true, false, not, ◌&&◌, ◌||◌, inl, inr, sym, List, [], ◌∷◌,
  ◌++◌, map, arith, length, length-append,
}
use mathlib.Core.Bool.{true≢false}
use firebird_odbc_driver.Stream.Placed.{
  IsPlaced, put_character-Placed, put_segment-Placed, put_string-Placed, put_segments-Placed,
  put_shorts-Placed,
}
use firebird_odbc_driver.Stream.{
  Segment, Stream, flatten, contents, alloc, put_character, put_segment, put_string, put_shorts,
  put_segments, put_stream, clear,
}
use firebird_odbc_driver.Stream.Append.{
  put_character-contents, put_segment-contents, put_string-contents, put_shorts-contents,
  put_segments-contents, alloc-contents,
}

-- The calls that a client makes. `stream` carries the stream whose segments are copied.
pub data Write : Type 0 where
  character : ℕ → Write
  segment : List ℕ → Bool → Write
  string : List ℕ → Write
  shorts : List ℕ → Write
  stream : Stream → Write
  filled : List ℕ → Write
  cleared : Write

pub write : Stream → Write → Stream
write s (character c) = put_character s c
write s (segment d copy) = put_segment s d copy
write s (string d) = put_string s d
write s (shorts ws) = put_shorts s ws
write s (stream other) = put_stream s other
write s (filled d) = alloc s d
write s cleared = clear s

pub write_all : Stream → List Write → Stream
write_all s [] = s
write_all s (w ∷ ws) = write_all (write s w) ws

-- The log: what a write leaves of the bytes `log`.
abbrev pub logged : List ℕ → Write → List ℕ
logged log (character c) = log ++ c ∷ []
logged log (segment d copy) = log ++ d
logged log (string d) = log ++ d
logged log (shorts ws) = log ++ map (λ w. w % 256) ws
logged log (stream other) = log ++ contents other
logged log (filled d) = log ++ d
logged log cleared = []

abbrev pub log_all : List ℕ → List Write → List ℕ
log_all log [] = log
log_all log (w ∷ ws) = log_all (logged log w) ws

-- The stream owns its segments, its length field is that of its bytes, and every byte was stored inside the
-- block of a segment.
pub record IsValid (s : Stream) : Type 0 where
  pub owns : s.b_clear ≡ true
  pub inside : s.overrun ≡ false
  pub counted : s.total_length ≡ length (contents s)

put_segment-total :
    (s : Stream) (d : List ℕ) (copy : Bool)
    → ((put_segment s d copy).total_length ≡ s.total_length + length d)
      × ((put_segment s d copy).b_clear ≡ s.b_clear)
unfolding put_segment
put_segment-total s d copy = ground arith

put_segments-total :
    (s : Stream) (ds : List Segment)
    → ((put_segments s ds).total_length ≡ s.total_length + length (flatten ds))
      × ((put_segments s ds).b_clear ≡ s.b_clear)
unfolding put_segments
put_segments-total s [] = ground arith
put_segments-total s (d ∷ ds) = ground (
  arith,
  put_segments-total (put_segment s d true) ds,
  put_segment-total s d true,
  length-append d (flatten ds),
)

write-contents :
    (s : Stream) (w : Write) → s.b_clear ≡ true → contents (write s w) ≡ logged (contents s) w
unfolding write put_stream clear
write-contents s (character c) h = put_character-contents s c
write-contents s (segment d copy) h = put_segment-contents s d copy
write-contents s (string d) h = put_string-contents s d
write-contents s (shorts ws) h = put_shorts-contents s ws
write-contents s (stream other) h = put_segments-contents s other.segments
write-contents s (filled d) h = alloc-contents s d
write-contents s cleared h = ground arith

write-total :
    (s : Stream) (w : Write)
    → IsValid s
    → ((write s w).total_length ≡ length (logged (contents s) w)) × ((write s w).b_clear ≡ true)
unfolding write put_stream clear alloc put_character put_string put_shorts
write-total s (character c) v = ground (arith, length-append (contents s) (c ∷ []))
write-total s (segment d copy) v =
    ground (arith, put_segment-total s d copy, length-append (contents s) d)
write-total s (string d) v =
    ground (arith, put_segment-total s d true, length-append (contents s) d)
write-total s (shorts ws) v =
    let d = map (λ (w : ℕ). w % 256) ws in ground (arith, length-append (contents s) d)
write-total s (stream other) v =
    ground (arith, put_segments-total s other.segments, length-append (contents s) (contents other))
write-total s (filled d) v = ground (arith, length-append (contents s) d)
write-total s cleared v = ground arith

-- Whether a block of the caller may come first after a write, and the writes that then may follow.
abbrev pub lent_after : Bool → Write → Bool
lent_after lent (segment d copy) = lent || not copy
lent_after lent (filled d) = false
lent_after lent cleared = false
lent_after lent _ = lent

abbrev pub may_follow : Bool → Write → Bool
may_follow lent (character c) = not lent
may_follow lent (shorts ws) = not lent
may_follow lent _ = true

unfoldable pub is_tame : (lent : Bool) → List Write → Bool
is_tame lent [] = true
is_tame lent (w ∷ ws) = may_follow lent w && is_tame (lent_after lent w) ws

write-Placed :
    (lent : Bool) (s : Stream) (w : Write)
    → s.b_clear ≡ true
    → may_follow lent w ≡ true
    → IsPlaced lent s
    → ((write s w).overrun ≡ s.overrun) × IsPlaced (lent_after lent w) (write s w)
unfolding write put_stream clear alloc
write-Placed false s (character c) o m h =
    let (same, room) = put_character-Placed s c h in (same, inr (inl room))
write-Placed true s (character c) o m h = absurd (true≢false (sym m))
write-Placed lent s (segment d copy) o m h = put_segment-Placed lent s d copy h
write-Placed lent s (string d) o m h = put_string-Placed lent s d h
write-Placed false s (shorts ws) o m h = put_shorts-Placed s ws h
write-Placed true s (shorts ws) o m h = absurd (true≢false (sym m))
write-Placed lent s (stream other) o m h = put_segments-Placed lent s other.segments h
write-Placed lent s (filled d) o m h = (refl, inr (inl (omega arith)))
write-Placed lent s cleared o m h = rw o (refl, inl refl)

write-IsValid :
    (lent : Bool) (s : Stream) (w : Write)
    → may_follow lent w ≡ true
    → IsPlaced lent s
    → IsValid s
    → IsValid (write s w)
write-IsValid lent s w m h v = record {
  owns = (write-total s w v).1;
  inside = (write-Placed lent s w v.owns m h).0 ∙ v.inside;
  counted = (write-total s w v).0 ∙ ap length (sym (write-contents s w v.owns));
}

-- However a client mixes the writing calls, a stream that owns its segments holds exactly the bytes of the log, its
-- length field is their number, every byte is stored inside the block of a segment, and it still owns its
-- segments. At the start the size that the stream keeps is not beyond its last block, or it is empty, or a block of
-- the caller comes first. While such a block may come first, put there without a copy, the client puts no
-- character and no shorts: the stream does not know its size. `alloc` and `clear` end that.
pub write_all-refines :
    (lent : Bool) (s : Stream) (ws : List Write)
    → IsValid s
    → IsPlaced lent s
    → is_tame lent ws ≡ true
    → (contents (write_all s ws) ≡ log_all (contents s) ws) × IsValid (write_all s ws)
unfolding write_all is_tame
write_all-refines lent s [] v h tame = (refl, v)
write_all-refines lent s (w ∷ ws) v h tame =
    let may : may_follow lent w ≡ true = ground arith in
    let rest =
      write_all-refines (lent_after lent w) (write s w) ws (write-IsValid lent s w may h v)
        (write-Placed lent s w v.owns may h).1 (ground arith) in
    (rest.0 ∙ ap (λ (t : List ℕ). log_all t ws) (write-contents s w v.owns), rest.1)
