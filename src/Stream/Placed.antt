-- ===== src/Stream/Placed.antt =====
-- Where the writing members of Stream.cpp store their bytes: inside the block of `current`, as long as its
-- size is the one that the stream keeps.
use firebird_odbc_driver.Base.{
  ℕ, ◌+◌, ◌≤◌, ◌%◌, max, ◌≡◌, refl, sym, ◌∙◌, ◌⊎◌, inl, inr, Bool, true, false, not, ◌||◌, List, [],
  ◌∷◌, ◌++◌, map, arith, ◌==◌, Bool-cases, if◌then◌else◌, length, subst,
}
use mathlib.Core.Bool.{true≢false}
use firebird_odbc_driver.Stream.{
  Segment, Stream, last_length, is_empty, alloc_segment, put_character, put_copy, put_segment,
  put_string, put_shorts, put_segments,
}

-- The size that is kept is not beyond the block, or there is no block, or a block of the caller comes
-- first, behind which nothing is copied.
abbrev pub IsPlaced : (lent : Bool) → Stream → Type 0
IsPlaced lent s =
    (is_empty s.segments ≡ true)
    ⊎ (s.current_length ≤ s.capacity)
    ⊎ ((lent ≡ true) × (s.copy_flag ≡ false))

last_length-snoc : (ss : List Segment) (d : Segment) → last_length (ss ++ d ∷ []) ≡ length d
last_length-snoc [] d = refl
last_length-snoc (s ∷ []) d = refl
last_length-snoc (s ∷ t ∷ ss) d = last_length-snoc (t ∷ ss) d

pub put_character-Placed :
    (s : Stream) (c : ℕ)
    → IsPlaced false s
    → ((put_character s c).overrun ≡ s.overrun)
      × ((put_character s c).current_length ≤ (put_character s c).capacity)
unfolding put_character
put_character-Placed s c h = ground (arith, last_length-snoc s.segments [])

put_copy-Placed :
    (s : Stream) (d : List ℕ)
    → s.current_length ≤ s.capacity
    → ((put_copy s d).overrun ≡ s.overrun)
      × ((put_copy s d).current_length ≤ (put_copy s d).capacity)
put_copy-Placed s d h = ground arith

put_first-Placed :
    (lent copy : Bool) (s : Stream) (d : List ℕ)
    → (let r =
          if copy
          then alloc_segment (record s { copy_flag = true }) (max (length d) s.min_segment) d
          else record s { copy_flag = false; segments = d ∷ []; capacity = length d } in
        (r.overrun ≡ s.overrun) × IsPlaced (lent || not copy) r)
put_first-Placed lent true s d = (refl, inr (inl (omega arith)))
put_first-Placed false false s d = (refl, inr (inr (refl, refl)))
put_first-Placed true false s d = (refl, inr (inr (refl, refl)))

put_more-Placed :
    (lent copies : Bool) (s : Stream) (d : List ℕ)
    → s.copy_flag ≡ copies
    → is_empty s.segments ≡ false
    → IsPlaced lent s
    → (let r = if copies then put_copy s d else alloc_segment s 0 d in
        (r.overrun ≡ s.overrun) × (r.current_length ≤ r.capacity))
put_more-Placed lent false s d e more h = (refl, omega arith)
put_more-Placed lent true s d e more (inl none_) = absurd (true≢false (sym none_ ∙ more))
put_more-Placed lent true s d e more (inr (inl h)) = put_copy-Placed s d h
put_more-Placed lent true s d e more (inr (inr (l, f))) = absurd (true≢false (sym e ∙ f))

pub put_segment-Placed :
    (lent : Bool) (s : Stream) (d : List ℕ) (copy : Bool)
    → IsPlaced lent s
    → ((put_segment s d copy).overrun ≡ s.overrun)
      × IsPlaced (lent || not copy) (put_segment s d copy)
unfolding put_segment
put_segment-Placed lent s d copy h =
    let t : Stream = record s { total_length = s.total_length + length d } in
    elim (Bool-cases (is_empty s.segments)) [
      | inl fresh ↦ rw fresh (put_first-Placed lent copy t d)
      | inr more ↦ rw more (
          let (same, room) = put_more-Placed lent s.copy_flag t d refl more h in
          (same, inr (inl room)))
    ]

if_false : (b : Bool) (x y : Stream) → b ≡ false → (if b then x else y) ≡ y
if_false false x y h = refl
if_false true x y h = absurd (true≢false h)

put_string-none : (s : Stream) → put_string s [] ≡ s
unfolding put_string
put_string-none s = refl

put_string-some :
    (s : Stream) (b : ℕ) (d : List ℕ) → put_string s (b ∷ d) ≡ put_segment s (b ∷ d) true
unfolding put_string
put_string-some s b d = if_false (length (b ∷ d) == 0) s _ (ground arith)

or_false : (b : Bool) → (b || false) ≡ b
or_false false = refl
or_false true = refl

copied-Placed :
    (lent : Bool) (s : Stream) (d : List ℕ)
    → IsPlaced lent s
    → ((put_segment s d true).overrun ≡ s.overrun) × IsPlaced lent (put_segment s d true)
copied-Placed lent s d h =
    let (same, placed) = put_segment-Placed lent s d true h in
    (same, subst (λ b. IsPlaced b (put_segment s d true)) (or_false lent) placed)

pub put_string-Placed :
    (lent : Bool) (s : Stream) (d : List ℕ)
    → IsPlaced lent s
    → ((put_string s d).overrun ≡ s.overrun) × IsPlaced lent (put_string s d)
put_string-Placed lent s [] h =
    subst (λ (t : Stream). (t.overrun ≡ s.overrun) × IsPlaced lent t) (sym (put_string-none s))
      (refl, h)
put_string-Placed lent s (b ∷ d) h =
    subst (λ (t : Stream). (t.overrun ≡ s.overrun) × IsPlaced lent t) (sym (put_string-some s b d))
      (copied-Placed lent s (b ∷ d) h)

pub put_segments-Placed :
    (lent : Bool) (s : Stream) (ds : List Segment)
    → IsPlaced lent s
    → ((put_segments s ds).overrun ≡ s.overrun) × IsPlaced lent (put_segments s ds)
unfolding put_segments
put_segments-Placed lent s [] h = (refl, h)
put_segments-Placed lent s (d ∷ ds) h =
    let (same, placed) = copied-Placed lent s d h in
    let (rest, there) = put_segments-Placed lent (put_segment s d true) ds placed in
    (rest ∙ same, there)

pub put_shorts-Placed :
    (s : Stream) (ws : List ℕ)
    → IsPlaced false s
    → ((put_shorts s ws).overrun ≡ s.overrun) × IsPlaced false (put_shorts s ws)
unfolding put_shorts
put_shorts-Placed s ws h =
    let d = map (λ (w : ℕ). w % 256) ws in
    let t : Stream = record s { total_length = s.total_length + length d } in
    elim (Bool-cases (is_empty s.segments)) [
      | inl fresh ↦ rw fresh (refl, inr (inl (omega arith)))
      | inr more ↦
          let (same, room) = put_copy-Placed t d (ground arith) in rw more (same, inr (inl room))
    ]
