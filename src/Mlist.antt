-- ===== src/Mlist.antt =====
-- IscDbc/Mlist.h: a growing array that a comparator keeps in order, with search by bisection. The
-- list of the items in use stands for the first `count` slots; allocation succeeds. The bounds of a
-- search are `l` and `e`, one more than `u`, which may be -1.
pub mod Bisect
pub mod Sorted
pub mod Columns
pub mod Walk
mod Tests
use firebird_odbc_driver.Base.{
  ℕ, zero, suc, ◌+◌, ◌-◌, ◌*◌, ◌/◌, Bool, true, false, not, ◌&&◌, ◌||◌, Option, none, some, List,
  [], ◌∷◌, ◌++◌, ltb, leb, ◌==◌, if◌then◌else◌, length, take, drop, get_elem?, set,
}
use firebird_odbc_driver.Base.Int.{ℤ, pos, negsuc, pos_part, neg_part, ltb_ℤ}

pub record Mlist (T : Type 0) : Type 0 where
  pub items : List T
  pub count_cache : ℕ
  pub diff_cache : ℕ
  pub row_active : ℕ

-- `MList (cache)`
unfoldable pub new : {T : Type 0} → ℕ → Mlist T
new cache = record { items = []; count_cache = cache; diff_cache = cache; row_active = 0 }

-- `reInit (checkCount)`
unfoldable pub re_init : {T : Type 0} → Mlist T → ℕ → Mlist T
re_init m check_count =
    if not (check_count == 0) && ltb check_count m.count_cache then m else record m {
      count_cache =
          if ltb (m.count_cache + m.diff_cache) check_count
          then check_count + m.diff_cache
          else m.count_cache + m.diff_cache;
    }

-- Where a search ends: at an item that compares as equal, or at the place where it would stand.
pub data Spot : Type 0 where
  found : ℕ → Spot
  missing : ℕ → Spot

-- A round of the loop: it ends, or goes on with other bounds and with whether `ret` is positive.
pub data Round : Type 0 where
  stop : Spot → Round
  go_on : (l e : ℕ) (above : Bool) → Round
  outside : Round

abbrev pub bounds : (i l e : ℕ) → ℤ → Round
bounds i l e ret =
    if ltb_ℤ ret (pos 0)
    then go_on l i false
    else if ltb_ℤ (pos 0) ret
    then go_on (i + 1) e true
    else stop (found i)

abbrev pub then_round : (ℕ → ℕ → Bool → Option Spot) → Round → Option Spot
then_round next (stop s) = some s
then_round next (go_on l e above) = next l e above
then_round next outside = none

module _ {T : Type 0} (compare : T → T → ℤ) where
  abbrev pub probe : T → (i l e : ℕ) → Option T → Round
  probe key i l e none = outside
  probe key i l e (some x) = bounds i l e (compare key x)

  -- The loop of both searches, on fuel for its rounds. `none` is a read outside of the items in use,
  -- or the end of the fuel.
  unfoldable pub bisect : (fuel : ℕ) → List T → T → (l e : ℕ) (above : Bool) → Option Spot
  bisect zero xs key l e above = none
  bisect (suc fuel) xs key l e above =
      let i = (l + e - 1) / 2 in
      let round =
        if leb e l
        then stop (missing (if above then l else e))
        else probe key i l e (get_elem? xs i) in
      then_round (λ l' e' above'. bisect fuel xs key l' e' above') round

  -- A round drops an item, so one round more than there are items is enough.
  abbrev pub find_spot : Mlist T → T → Option Spot
  find_spot m key = bisect (length m.items + 1) m.items key 0 (length m.items) true

  abbrev pub then_place : Option Spot → Option ℤ
  then_place none = none
  then_place (some (found i)) = some (pos i)
  then_place (some (missing i)) = some (negsuc 0)

  -- `Search (key)`: the place of the item, or -1.
  unfoldable pub search : Mlist T → T → Option ℤ
  search m key = then_place (find_spot m key)

  -- The insertion of a slot of zeros, `blank`, at a place. `memmove` moves the items behind it by one
  -- slot, so with no slot left it writes behind the array: `none`.
  abbrev pub insert_slot : T → Mlist T → ℕ → Option (ℤ × Mlist T)
  insert_slot blank m i =
      let grown = record m { items = take i m.items ++ blank ∷ drop i m.items } in
      if ltb (length m.items) m.count_cache
      then some (negsuc i, if length m.items + 1 == m.count_cache then re_init grown 0 else grown)
      else none

  abbrev pub then_insert : T → Mlist T → Option Spot → Option (ℤ × Mlist T)
  then_insert blank m none = none
  then_insert blank m (some (found i)) = some (pos i, m)
  then_insert blank m (some (missing i)) = insert_slot blank m i

  -- `SearchAndInsert (key)`: the place of the item, or -1 less the place of the new slot.
  unfoldable pub search_and_insert : T → Mlist T → T → Option (ℤ × Mlist T)
  unfolding re_init
  search_and_insert blank m key = then_insert blank m (find_spot m key)

  -- The callers of `SearchAndInsert` store the item at its place: `~j` if `j` is negative.
  abbrev pub store_at : T → Option (ℤ × Mlist T) → Option (Mlist T)
  store_at key none = none
  store_at key (some (pos j, m)) = some (record m { items = set m.items j key })
  store_at key (some (negsuc j, m)) = some (record m { items = set m.items j key })

  unfoldable pub bind_item : T → Mlist T → T → Option (Mlist T)
  unfolding search_and_insert
  bind_item blank m key = store_at key (search_and_insert blank m key)

-- The slots up to `pos`, where those behind the items in use hold `rest`.
abbrev pub fill_to : {T : Type 0} → List T → (n : ℕ) → (ℕ → T) → List T
fill_to xs zero rest = []
fill_to [] (suc n) rest = rest 0 ∷ fill_to [] n (λ i. rest (i + 1))
fill_to (x ∷ xs) (suc n) rest = x ∷ fill_to xs n rest

-- `operator () (pos)`: the list afterwards, or `none` where the slot that it answers is behind the
-- array.
unfoldable pub slot_at : {T : Type 0} → (ℕ → T) → Mlist T → ℕ → Option (Mlist T)
unfolding re_init
slot_at rest m p =
    let grown = re_init m p in
    let used =
      if leb (length m.items) p
      then record grown { items = fill_to m.items (p + 1) rest }
      else grown in
    if ltb p grown.count_cache then some used else none

-- `GetHeadPosition (pos)` and `GetNext ()`: the list afterwards and the item, or NULL.
unfoldable pub get_head_position : {T : Type 0} → Mlist T → ℕ → Mlist T × Option T
get_head_position m p =
    if length m.items == 0
    then (m, none)
    else if ltb p (length m.items)
    then (record m { row_active = p }, get_elem? m.items p)
    else (record m { row_active = 0 }, get_elem? m.items 0)

unfoldable pub get_next : {T : Type 0} → Mlist T → Mlist T × Option T
get_next m =
    if leb (length m.items) (m.row_active + 1)
    then (m, none)
    else (record m { row_active = m.row_active + 1 }, get_elem? m.items (m.row_active + 1))
