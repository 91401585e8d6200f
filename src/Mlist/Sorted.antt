-- ===== src/Mlist/Sorted.antt =====
-- `SearchAndInsert`, and the binding of a column that stores the item at the place that it answers.
use firebird_odbc_driver.Base.{
  ℕ, zero, suc, ◌+◌, ◌≤◌, ◌<◌, ◌≡◌, refl, sym, ap, subst, ◌∙◌, ◌≢◌, ◌↔◌, ◌⊎◌, inl, inr, true,
  Option, none, some, List, [], ◌∷◌, ◌++◌, arith, ltb, ◌==◌, if◌then◌else◌, Bool-cases, length,
  length-set, take, drop, get_elem?, set, get_elem?-set_self, get_elem?-set_ne,
}
use firebird_odbc_driver.Base.Int.{ℤ, pos, negsuc}
use firebird_odbc_driver.Mlist.{
  Mlist, re_init, Spot, found, missing, insert_slot, then_insert, store_at, bind_item, slot_at,
}
use firebird_odbc_driver.Mlist.Bisect.{
  IsNegative, IsOrder, IsSorted, Before, Behind, At, find_spot-At, get_elem-lt, same-elem,
}

-- The list with the item at a new place.
abbrev pub insert : {T : Type 0} → List T → ℕ → T → List T
insert xs zero k = k ∷ xs
insert [] (suc i) k = k ∷ []
insert (x ∷ xs) (suc i) k = x ∷ insert xs i k

set-insert :
    {T : Type 0} (xs : List T) (i : ℕ) (blank k : T)
    → i ≤ length xs
    → set (take i xs ++ blank ∷ drop i xs) i k ≡ insert xs i k
set-insert [] zero blank k h = refl
set-insert (x ∷ xs) zero blank k h = refl
set-insert [] (suc i) blank k h = absurd (omega arith)
set-insert (x ∷ xs) (suc i) blank k h =
    ap (λ (l : List _). x ∷ l) (set-insert xs i blank k (omega arith))

get-insert_before :
    {T : Type 0} (xs : List T) (i j : ℕ) (k : T)
    → j < i
    → i ≤ length xs
    → get_elem? (insert xs i k) j ≡ get_elem? xs j
get-insert_before xs zero j k h inside = absurd (omega arith)
get-insert_before [] (suc i) j k h inside = absurd (omega arith)
get-insert_before (x ∷ xs) (suc i) zero k h inside = refl
get-insert_before (x ∷ xs) (suc i) (suc j) k h inside =
    get-insert_before xs i j k (omega arith) (omega arith)

get-insert_at :
    {T : Type 0} (xs : List T) (i : ℕ) (k : T)
    → i ≤ length xs
    → get_elem? (insert xs i k) i ≡ some k
get-insert_at xs zero k inside = refl
get-insert_at [] (suc i) k inside = absurd (omega arith)
get-insert_at (x ∷ xs) (suc i) k inside = get-insert_at xs i k (omega arith)

get-insert_behind :
    {T : Type 0} (xs : List T) (i j : ℕ) (k : T)
    → i ≤ j
    → i ≤ length xs
    → get_elem? (insert xs i k) (suc j) ≡ get_elem? xs j
get-insert_behind xs zero j k h inside = refl
get-insert_behind [] (suc i) j k h inside = absurd (omega arith)
get-insert_behind (x ∷ xs) (suc i) zero k h inside = absurd (omega arith)
get-insert_behind (x ∷ xs) (suc i) (suc j) k h inside =
    get-insert_behind xs i j k (omega arith) (omega arith)

-- Where an entry of the longer list comes from.
abbrev Entry : {T : Type 0} → List T → (i : ℕ) → T → (j : ℕ) → T → Type 0
Entry xs i k j y =
    ((j ≡ i) × (y ≡ k))
    ⊎ ((j < i) × (get_elem? xs j ≡ some y))
    ⊎ ((n : ℕ) × (j ≡ suc n) × (i ≤ n) × (get_elem? xs n ≡ some y))

entry :
    {T : Type 0} (xs : List T) (i : ℕ) (k : T) (j : ℕ) (y : T)
    → i ≤ length xs
    → get_elem? (insert xs i k) j ≡ some y
    → Entry xs i k j y
entry xs zero k zero y h at = inl (refl, cc)
entry xs zero k (suc j) y h at = inr (inr (j, refl, omega arith, at))
entry [] (suc i) k j y h at = absurd (omega arith)
entry (x ∷ xs) (suc i) k zero y h at = inr (inl (omega arith, at))
entry (x ∷ xs) (suc i) k (suc j) y h at = elim (entry xs i k j y (omega arith) at) [
  | inl (e, e') ↦ inl (ap suc e, e')
  | inr (inl (less, at')) ↦ inr (inl (omega arith, at'))
  | inr (inr (n, e, le, at')) ↦ inr (inr (suc n, ap suc e, omega arith, at'))
]

set-entry :
    {T : Type 0} (xs : List T) (i : ℕ) (k : T) (j : ℕ) (y : T)
    → i < length xs
    → get_elem? (set xs i k) j ≡ some y
    → ((j ≡ i) × (y ≡ k)) ⊎ ((j ≢ i) × (get_elem? xs j ≡ some y))
set-entry xs i k j y h at = elim (Bool-cases (j == i)) [
  | inl same ↦ let e : j ≡ i = ground arith in let here = get_elem?-set_self xs i k h in inl (e, cc)
  | inr other ↦
      let e : i ≢ j = ground arith in inr (λ f. e (sym f), sym (get_elem?-set_ne xs k e) ∙ at)
]

module _ {T : Type 0} (compare : T → T → ℤ) (order : IsOrder compare) where
  insert-IsSorted :
      (xs : List T) (key : T) (i : ℕ)
      → IsSorted compare xs
      → i ≤ length xs
      → Before compare xs key i
      → Behind compare xs key i
      → IsSorted compare (insert xs i key)
  insert-IsSorted xs key i sorted inside before behind a b x y lt ax ay =
      ordered (entry xs i key a x inside ax) (entry xs i key b y inside ay)
    where
      ordered : Entry xs i key a x → Entry xs i key b y → IsNegative (compare x y)
      ordered (inl (e, e')) (inl (f, f')) = absurd (omega arith)
      ordered (inl (e, e')) (inr (inl (less, at))) = absurd (omega arith)
      ordered (inl (e, e')) (inr (inr (n, f, le, at))) = rw e' (behind n y le at)
      ordered (inr (inl (less, at))) (inl (f, f')) =
          rw f' (order.flip_positive key x (before a x less at))
      ordered (inr (inl (less, at))) (inr (inl (less', at'))) = sorted a b x y lt at at'
      ordered (inr (inl (less, at))) (inr (inr (n, f, le, at'))) =
          sorted a n x y (omega arith) at at'
      ordered (inr (inr (m, e, le, at))) (inl (f, f')) = absurd (omega arith)
      ordered (inr (inr (m, e, le, at))) (inr (inl (less, at'))) = absurd (omega arith)
      ordered (inr (inr (m, e, le, at))) (inr (inr (n, f, le', at'))) =
          sorted m n x y (omega arith) at at'

  -- Storing an item that compares as equal to the one there.
  set-IsSorted :
      (xs : List T) (key : T) (i : ℕ) (x : T)
      → IsSorted compare xs
      → get_elem? xs i ≡ some x
      → compare key x ≡ pos 0
      → IsSorted compare (set xs i key)
  set-IsSorted xs key i x sorted at same a b y z lt ay az =
      ordered (set-entry xs i key a y (get_elem-lt xs i x at) ay)
        (set-entry xs i key b z (get_elem-lt xs i x at) az)
    where
      ordered :
          ((a ≡ i) × (y ≡ key)) ⊎ ((a ≢ i) × (get_elem? xs a ≡ some y))
          → ((b ≡ i) × (z ≡ key)) ⊎ ((b ≢ i) × (get_elem? xs b ≡ some z))
          → IsNegative (compare y z)
      ordered (inl (e, e')) (inl (f, f')) = absurd (omega arith)
      ordered (inl (e, e')) (inr (f, at')) =
          rw e' (order.same_left key x z same (sorted i b x z (omega arith) at at'))
      ordered (inr (e, at')) (inl (f, f')) =
          rw f' (order.same_right key x y same (sorted a i y x (omega arith) at' at))
      ordered (inr (e, at')) (inr (f, at'')) = sorted a b y z lt at' at''

  -- A list with its items in order, with a slot left, that grows when it is full.
  pub record IsValid (m : Mlist T) : Type 0 where
    pub sorted : IsSorted compare m.items
    pub room : length m.items < m.count_cache
    pub grows : 0 < m.diff_cache

  -- What storing an item must leave: a valid list that holds the item, and every item of before that
  -- does not compare as equal to it.
  abbrev pub Binds : Mlist T → T → Option (Mlist T) → Type 0
  Binds m key none = ⊥
  Binds m key (some m') =
      IsValid m'
      × ((i : ℕ) × (get_elem? m'.items i ≡ some key))
      × ((j : ℕ) (x : T)
          → get_elem? m.items j ≡ some x
          → compare key x ≢ pos 0
          → (k : ℕ) × (get_elem? m'.items k ≡ some x))

  found-Binds :
      (m : Mlist T) (key : T) (i : ℕ)
      → IsValid m
      → At compare m.items key (found i)
      → Binds m key (some (record m { items = set m.items i key }))
  found-Binds m key i v (x, at, same) =
      let inside = get_elem-lt m.items i x at in
      (
        record {
          sorted = set-IsSorted m.items key i x v.sorted at same;
          room = omega (arith, v.room, length-set m.items i key);
          grows = v.grows;
        },
        (i, get_elem?-set_self m.items i key inside),
        λ j y at' other. (
          j,
          get_elem?-set_ne m.items key (λ e. other (
                subst (λ (z : T). compare key z ≡ pos 0) (same-elem m.items i j x y e at at') same))
              ∙ at',
        ),
      )

  grown_when_full : Mlist T → List T → Mlist T
  grown_when_full m ys =
      let grown = record m { items = ys } in
      if length m.items + 1 == m.count_cache then re_init grown 0 else grown

  grown_when_full_lem :
      (m : Mlist T) (ys : List T)
      → ((grown_when_full m ys).items ≡ ys)
        × ((grown_when_full m ys).diff_cache ≡ m.diff_cache)
        × (length m.items < m.count_cache
            → 0 < m.diff_cache
            → length m.items + 1 < (grown_when_full m ys).count_cache)
  unfolding grown_when_full re_init
  grown_when_full_lem m ys = elim (Bool-cases (length m.items + 1 == m.count_cache)) [
    | inl full ↦ rw full (refl, refl, λ h g. ground arith)
    | inr space ↦ rw space (refl, refl, λ h g. ground arith)
  ]

  insert_slot-some :
      (blank : T) (m : Mlist T) (i : ℕ)
      → length m.items < m.count_cache
      → insert_slot compare blank m i
        ≡ some (negsuc i, grown_when_full m (take i m.items ++ blank ∷ drop i m.items))
  unfolding grown_when_full
  insert_slot-some blank m i h =
      let t : ltb (length m.items) m.count_cache ≡ true = ground arith in rw t refl

  length-insert :
      (xs : List T) (i : ℕ) (k : T) → i ≤ length xs → length (insert xs i k) ≡ length xs + 1
  length-insert xs zero k h = omega arith
  length-insert [] (suc i) k h = absurd (omega arith)
  length-insert (x ∷ xs) (suc i) k h = omega (arith, length-insert xs i k (omega arith))

  kept :
      (xs : List T) (i : ℕ) (k : T) (j : ℕ) (y : T)
      → i ≤ length xs
      → get_elem? xs j ≡ some y
      → (n : ℕ) × (get_elem? (insert xs i k) n ≡ some y)
  kept xs i k j y inside at = elim (Bool-cases (ltb j i)) [
    | inl less ↦ (j, get-insert_before xs i j k (ground arith) inside ∙ at)
    | inr more ↦ (suc j, get-insert_behind xs i j k (ground arith) inside ∙ at)
  ]

  missing-Binds :
      (blank : T) (m : Mlist T) (key : T) (i : ℕ)
      → IsValid m
      → At compare m.items key (missing i)
      → Binds m key (store_at compare key (insert_slot compare blank m i))
  missing-Binds blank m key i v (inside, before, behind) =
      let ys : List T = take i m.items ++ blank ∷ drop i m.items in
      let (items, diff, space) = grown_when_full_lem m ys in
      let e : set (grown_when_full m ys).items i key ≡ insert m.items i key =
        ap (λ (l : List T). set l i key) items ∙ set-insert m.items i blank key inside in
      rw (insert_slot-some blank m i v.room) (
        rw e (
          record {
            sorted = insert-IsSorted m.items key i v.sorted inside before behind;
            room = omega (arith, space v.room v.grows, length-insert m.items i key inside);
            grows = omega (arith, diff, v.grows);
          },
          (i, get-insert_at m.items i key inside),
          λ j x at other. kept m.items i key j x inside at,
        ))

  -- Over a comparator that is an order, storing an item in a valid list by `SearchAndInsert` ends and
  -- writes inside the array. It leaves a list in order, with a slot left, that holds the item and
  -- all items of before that do not compare as equal to it.
  pub bind_item-Binds :
      (blank : T) (m : Mlist T) (key : T) → IsValid m → Binds m key (bind_item compare blank m key)
  unfolding bind_item
  bind_item-Binds blank m key v =
      let (s, e, at) = find_spot-At compare m key order v.sorted in rw e (spot-Binds s at)
    where
      spot-Binds :
          (s : Spot)
          → At compare m.items key s
          → Binds m key (store_at compare key (then_insert compare blank m (some s)))
      spot-Binds (found i) at = found-Binds m key i v at
      spot-Binds (missing i) at = missing-Binds blank m key i v at

-- The slot that `operator ()` answers is behind the array exactly if its place is the sum of the
-- size of the array and of the step by which it grows.
pub slot_at_fault :
    {T : Type 0} (rest : ℕ → T) (m : Mlist T) (p : ℕ)
    → 0 < m.diff_cache
    → (slot_at rest m p ≡ none) ↔ (p ≡ m.count_cache + m.diff_cache)
unfolding slot_at re_init
slot_at_fault rest m p h = ground arith
