-- ===== src/Stream/Append.antt =====
-- What the writing members of Stream.cpp do to the bytes of a stream.
use firebird_odbc_driver.Base.{
  ℕ, ◌+◌, ◌-◌, ◌%◌, max, min, ◌≡◌, refl, sym, ap, ◌∙◌, inl, inr, Bool, true, false, ◌||◌, List, [],
  ◌∷◌, ◌++◌, map, append-nil, append_assoc, arith, ltb, leb, Bool-cases, if◌then◌else◌, length,
  take, drop, take-append-drop,
}
use firebird_odbc_driver.Stream.{
  Segment, Stream, flatten, contents, last_length, extend_last, is_empty, alloc_segment, alloc,
  put_character, spill, put_copy, put_segment, put_string, put_shorts, put_segments,
}

pub flatten-append : (ss ts : List Segment) → flatten (ss ++ ts) ≡ flatten ss ++ flatten ts
flatten-append [] ts = refl
flatten-append (s ∷ ss) ts = rw (flatten-append ss ts, append_assoc)

flatten-snoc : (ss : List Segment) (d : Segment) → flatten (ss ++ d ∷ []) ≡ flatten ss ++ d
flatten-snoc ss d = flatten-append ss (d ∷ []) ∙ ap (λ (t : List ℕ). flatten ss ++ t) (append-nil d)

flatten-extend_last :
    (ss : List Segment) (d : List ℕ)
    → is_empty ss ≡ false
    → flatten (extend_last ss d) ≡ flatten ss ++ d
flatten-extend_last [] d h = cc
flatten-extend_last (s ∷ []) d h = simp (append-nil)
flatten-extend_last (s ∷ t ∷ ss) d h = rw (flatten-extend_last (t ∷ ss) d refl) (simp append_assoc)

is_empty-extend_last : (ss : List Segment) (d : List ℕ) → is_empty (extend_last ss d) ≡ is_empty ss
is_empty-extend_last [] d = refl
is_empty-extend_last (s ∷ []) d = refl
is_empty-extend_last (s ∷ t ∷ ss) d = refl

is_empty-snoc : (ss : List Segment) (d : List ℕ) → is_empty (ss ++ d ∷ []) ≡ false
is_empty-snoc [] d = refl
is_empty-snoc (s ∷ ss) d = refl

flatten_of_is_empty : (ss : List Segment) → is_empty ss ≡ true → flatten ss ≡ []
flatten_of_is_empty [] h = refl
flatten_of_is_empty (s ∷ ss) h = cc

spill-contents : (s : Stream) (d : List ℕ) → contents (spill s d) ≡ contents s ++ d
spill-contents s [] = sym (append-nil (contents s))
spill-contents s (b ∷ d) = ground (arith, flatten-snoc s.segments (b ∷ d))

put_copy-contents :
    (s : Stream) (d : List ℕ)
    → is_empty s.segments ≡ false
    → contents (put_copy s d) ≡ contents s ++ d
put_copy-contents s d h = elim (Bool-cases (ltb 0 (s.current_length - last_length s.segments))) [
  | inl roomy ↦ rw roomy (
      let l2 = min (s.current_length - last_length s.segments) (length d) in
      spill-contents
        (record s {
          segments = extend_last s.segments (take l2 d);
          overrun = s.overrun || ltb s.capacity (last_length s.segments + l2);
        })
        (drop l2 d)
      ∙ rw (flatten-extend_last s.segments (take l2 d) h, append_assoc, take-append-drop l2 d))
  | inr full ↦ rw full (spill-contents s d)
]

pub put_character-contents :
    (s : Stream) (c : ℕ) → contents (put_character s c) ≡ contents s ++ c ∷ []
unfolding put_character
put_character-contents s c = elim (Bool-cases (is_empty s.segments)) [
  | inl none_yet ↦ rw none_yet (fresh s c)
  | inr some_there ↦
      rw some_there (elim (Bool-cases (leb s.current_length (last_length s.segments))) [
        | inl full ↦ rw full (fresh s c)
        | inr roomy ↦ rw roomy (flatten-extend_last s.segments (c ∷ []) some_there)
      ])
]
  where
    fresh :
        (s : Stream) (c : ℕ)
        → flatten (extend_last (s.segments ++ [] ∷ []) (c ∷ [])) ≡ contents s ++ c ∷ []
    fresh s c =
        flatten-extend_last (s.segments ++ [] ∷ []) (c ∷ []) (is_empty-snoc s.segments [])
        ∙ ap (λ (t : List ℕ). t ++ c ∷ []) (flatten-snoc s.segments [] ∙ append-nil _)

put_more-contents :
    (copies : Bool) (s : Stream) (d : List ℕ)
    → is_empty s.segments ≡ false
    → contents (if copies then put_copy s d else alloc_segment s 0 d) ≡ contents s ++ d
put_more-contents true s d h = put_copy-contents s d h
put_more-contents false s d h = flatten-snoc s.segments d

put_first-contents :
    (copy : Bool) (s : Stream) (d : List ℕ)
    → is_empty s.segments ≡ true
    → contents (
        if copy
        then alloc_segment (record s { copy_flag = true }) (max (length d) s.min_segment) d
        else record s { copy_flag = false; segments = d ∷ []; capacity = length d })
      ≡ contents s ++ d
put_first-contents true s d h = flatten-snoc s.segments d
put_first-contents false s d h = rw (flatten_of_is_empty s.segments h) (append-nil d)

pub put_segment-contents :
    (s : Stream) (d : List ℕ) (copy : Bool) → contents (put_segment s d copy) ≡ contents s ++ d
unfolding put_segment
put_segment-contents s d copy =
    let t : Stream = record s { total_length = s.total_length + length d } in
    elim (Bool-cases (is_empty s.segments)) [
      | inl fresh ↦ rw fresh (put_first-contents copy t d fresh)
      | inr more ↦ rw more (put_more-contents s.copy_flag t d more)
    ]

pub put_string-contents : (s : Stream) (d : List ℕ) → contents (put_string s d) ≡ contents s ++ d
unfolding put_string
put_string-contents s [] = sym (append-nil (contents s))
put_string-contents s (b ∷ d) = ground (arith, put_segment-contents s (b ∷ d) true)

pub put_shorts-contents :
    (s : Stream) (ws : List ℕ) → contents (put_shorts s ws) ≡ contents s ++ map (λ w. w % 256) ws
unfolding put_shorts
put_shorts-contents s ws =
    let d = map (λ (w : ℕ). w % 256) ws in
    elim (Bool-cases (is_empty s.segments)) [
      | inl fresh ↦ rw fresh (flatten-snoc s.segments d)
      | inr more ↦
          rw more (put_copy-contents (record s { total_length = s.total_length + length d }) d more)
    ]

pub put_segments-contents :
    (s : Stream) (ds : List Segment) → contents (put_segments s ds) ≡ contents s ++ flatten ds
unfolding put_segments
put_segments-contents s [] = sym (append-nil (contents s))
put_segments-contents s (d ∷ ds) =
    put_segments-contents (put_segment s d true) ds
    ∙ rw (put_segment-contents s d true) (append_assoc (contents s) d (flatten ds))

pub alloc-contents : (s : Stream) (d : List ℕ) → contents (alloc s d) ≡ contents s ++ d
unfolding alloc
alloc-contents s d = flatten-snoc s.segments d
