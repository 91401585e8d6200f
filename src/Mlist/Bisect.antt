-- ===== src/Mlist/Bisect.antt =====
-- Search by bisection in a list that the comparator keeps in order.
use firebird_odbc_driver.Base.{
  ℕ, zero, suc, ◌+◌, ◌-◌, ◌/◌, ◌≤◌, ◌<◌, ◌≡◌, refl, sym, subst, ◌≢◌, inl, inr, Bool, true, false,
  Option, none, some, List, [], ◌∷◌, arith, ltb, leb, if◌then◌else◌, Bool-cases, length, get_elem?,
}
use firebird_odbc_driver.Base.Int.{ℤ, pos, negsuc, ltb_ℤ}
use firebird_odbc_driver.Mlist.{Mlist, Spot, found, missing, bisect, find_spot, search, then_place}

abbrev pub IsNegative : ℤ → Type 0
IsNegative z = ltb_ℤ z (pos 0) ≡ true

abbrev pub IsPositive : ℤ → Type 0
IsPositive z = ltb_ℤ (pos 0) z ≡ true

-- What a comparator must keep to: it tells both orders of two items alike, and is transitive.
pub record IsOrder {T : Type 0} (compare : T → T → ℤ) : Type 0 where
  pub flip_negative : (a b : T) → IsNegative (compare a b) → IsPositive (compare b a)
  pub flip_positive : (a b : T) → IsPositive (compare a b) → IsNegative (compare b a)
  pub trans :
      (a b c : T) → IsNegative (compare a b) → IsNegative (compare b c) → IsNegative (compare a c)
  pub same_left :
      (a b c : T) → compare a b ≡ pos 0 → IsNegative (compare b c) → IsNegative (compare a c)
  pub same_right :
      (a b c : T) → compare a b ≡ pos 0 → IsNegative (compare c b) → IsNegative (compare c a)

pub get_elem-some :
    {T : Type 0} (xs : List T) (i : ℕ) → i < length xs → (x : T) × (get_elem? xs i ≡ some x)
get_elem-some [] i h = absurd (omega arith)
get_elem-some (x ∷ xs) zero h = (x, refl)
get_elem-some (x ∷ xs) (suc i) h = get_elem-some xs i (omega arith)

pub get_elem-lt :
    {T : Type 0} (xs : List T) (i : ℕ) (x : T) → get_elem? xs i ≡ some x → i < length xs
get_elem-lt [] i x at = cc
get_elem-lt (y ∷ xs) zero x at = omega arith
get_elem-lt (y ∷ xs) (suc i) x at = omega (arith, get_elem-lt xs i x at)

positive-ne : (z : ℤ) → IsPositive z → z ≢ pos 0
positive-ne z h = ground arith

negative-ne : (z : ℤ) → IsNegative z → z ≢ pos 0
negative-ne z h = ground arith

pub same-elem :
    {T : Type 0} (xs : List T) (i j : ℕ) (x y : T)
    → i ≡ j
    → get_elem? xs i ≡ some x
    → get_elem? xs j ≡ some y
    → x ≡ y
same-elem xs i j x y e at at' = cc

ends : (above : Bool) (l e : ℕ) → l ≡ e → (if above then l else e) ≡ l
ends true l e h = refl
ends false l e h = sym h

zero-of : (z : ℤ) → ltb_ℤ z (pos 0) ≡ false → ltb_ℤ (pos 0) z ≡ false → z ≡ pos 0
zero-of z a b = ground arith

module _ {T : Type 0} (compare : T → T → ℤ) where
  -- Each item is before the items behind it.
  abbrev pub IsSorted : List T → Type 0
  IsSorted xs =
      (i j : ℕ) (x y : T)
      → i < j
      → get_elem? xs i ≡ some x
      → get_elem? xs j ≡ some y
      → IsNegative (compare x y)

  -- The items in front of a place are before the key; those from a place on are behind it.
  abbrev pub Before : List T → T → ℕ → Type 0
  Before xs key l = (j : ℕ) (x : T) → j < l → get_elem? xs j ≡ some x → IsPositive (compare key x)

  abbrev pub Behind : List T → T → ℕ → Type 0
  Behind xs key e = (j : ℕ) (x : T) → e ≤ j → get_elem? xs j ≡ some x → IsNegative (compare key x)

  -- What a search must answer: an item that compares as equal, or the place of the key.
  abbrev pub At : List T → T → Spot → Type 0
  At xs key (found i) = (x : T) × (get_elem? xs i ≡ some x) × (compare key x ≡ pos 0)
  At xs key (missing i) = (i ≤ length xs) × Before xs key i × Behind xs key i

  module _ (order : IsOrder compare) (xs : List T) (key : T) (sorted : IsSorted xs) where
    Before-step :
        (i : ℕ) (x : T)
        → get_elem? xs i ≡ some x
        → IsPositive (compare key x)
        → Before xs key (i + 1)
    Before-step i x at above j y lt at' = elim (Bool-cases (ltb j i)) [
      | inl less ↦ order.flip_negative y key (
          order.trans y x key (sorted j i y x (ground arith) at' at)
            (order.flip_positive key x above))
      | inr same ↦
          subst (λ (z : T). IsPositive (compare key z)) (same-elem xs i j x y (ground arith) at at')
            above
    ]

    Behind-step :
        (i : ℕ) (x : T) → get_elem? xs i ≡ some x → IsNegative (compare key x) → Behind xs key i
    Behind-step i x at below j y le at' = elim (Bool-cases (ltb i j)) [
      | inl more ↦ order.trans key x y below (sorted i j x y (ground arith) at at')
      | inr same ↦
          subst (λ (z : T). IsNegative (compare key z)) (same-elem xs i j x y (ground arith) at at')
            below
    ]

    bisect-At :
        (fuel l e : ℕ) (above : Bool)
        → e < fuel + l
        → l ≤ e
        → e ≤ length xs
        → Before xs key l
        → Behind xs key e
        → (s : Spot) × (bisect compare fuel xs key l e above ≡ some s) × At xs key s
    unfolding bisect
    bisect-At zero l e above enough le inside before behind = absurd (omega arith)
    bisect-At (suc fuel) l e above enough le inside before behind = elim (Bool-cases (leb e l)) [
      | inl over ↦
          let place : (if above then l else e) ≡ l = ends above l e (ground arith) in
          (
            missing l,
            rw over (rw place refl),
            (omega arith, before, subst (λ (n : ℕ). Behind xs key n) (ground arith) behind),
          )
      | inr more ↦
          let i : ℕ = (l + e - 1) / 2 in
          let lower : l ≤ i = ground arith in
          let upper : i < e = ground arith in
          let (x, at) = get_elem-some xs i (omega arith) in
          rw more (
            rw at (elim (Bool-cases (ltb_ℤ (compare key x) (pos 0))) [
              | inl below ↦ rw below (
                  bisect-At fuel l i false (omega arith) lower (omega arith) before
                    (Behind-step i x at below))
              | inr not_below ↦ elim (Bool-cases (ltb_ℤ (pos 0) (compare key x))) [
                | inl above' ↦
                    rw (not_below, above')
                      (bisect-At fuel (i + 1) e true (omega arith) (omega arith) inside
                        (Before-step i x at above') behind)
                | inr not_above ↦
                    rw (not_below, not_above)
                      (found i, refl, (x, at, zero-of (compare key x) not_below not_above))
              ]
            ]))
    ]

  -- What `Search` must answer: the place of an item that compares as equal, or -1 if none does.
  abbrev pub Finds : List T → T → Option ℤ → Type 0
  Finds xs key none = ⊥
  Finds xs key (some (pos i)) = (x : T) × (get_elem? xs i ≡ some x) × (compare key x ≡ pos 0)
  Finds xs key (some (negsuc n)) =
      (n ≡ 0) × ((j : ℕ) (x : T) → get_elem? xs j ≡ some x → compare key x ≢ pos 0)

  pub find_spot-At :
      (m : Mlist T) (key : T)
      → IsOrder compare
      → IsSorted m.items
      → (s : Spot) × (find_spot compare m key ≡ some s) × At m.items key s
  find_spot-At m key order sorted =
      bisect-At order m.items key sorted (length m.items + 1) 0 (length m.items) true (omega arith)
        (omega arith) (omega arith) (λ j x lt at. absurd (omega arith))
        (λ j x le at. absurd (omega (arith, get_elem-lt m.items j x at)))

  At-Finds :
      (xs : List T) (key : T) (s : Spot) → At xs key s → Finds xs key (then_place compare (some s))
  At-Finds xs key (found i) a = a
  At-Finds xs key (missing i) (inside, before, behind) = (
    refl,
    λ j x at. elim (Bool-cases (ltb j i)) [
      | inl less ↦ positive-ne (compare key x) (before j x (ground arith) at)
      | inr more ↦ negative-ne (compare key x) (behind j x (ground arith) at)
    ],
  )

  -- Over a comparator that is an order, and on a list that it has sorted, `Search` ends; it answers
  -- the place of an item that compares as equal to the key, or -1 exactly if no item does.
  pub search-Finds :
      (m : Mlist T) (key : T)
      → IsOrder compare
      → IsSorted m.items
      → Finds m.items key (search compare m key)
  unfolding search
  search-Finds m key order sorted =
      let (s, e, at) = find_spot-At m key order sorted in rw e (At-Finds m.items key s at)
