-- ===== src/Mlist/Walk.antt =====
-- The walk over a list of IscDbc/Mlist.h, as the fetching of rows in OdbcStatement.cpp does it.
use firebird_odbc_driver.Base.{
  ℕ, zero, suc, ◌+◌, ◌≤◌, ◌≡◌, refl, sym, ap, ◌∙◌, inl, inr, true, false, Option, none, some, List,
  [], ◌∷◌, arith, ltb, leb, ◌==◌, Bool-cases, length, drop, drop_of_ge, get_elem?,
}
use firebird_odbc_driver.Mlist.{Mlist, get_head_position, get_next}
use firebird_odbc_driver.Mlist.Bisect.{get_elem-some}

abbrev visit : {T : Type 0} → (Mlist T → List T) → Mlist T × Option T → List T
visit next (m, none) = []
visit next (m, some x) = x ∷ next m

-- The items that `GetNext` answers until it answers NULL, in at most `fuel` calls.
pub visit_rest : {T : Type 0} → (fuel : ℕ) → Mlist T → List T
visit_rest zero m = []
visit_rest (suc fuel) m = visit (visit_rest fuel) (get_next m)

-- The same from `GetHeadPosition (0)`.
pub visit_all : {T : Type 0} → (fuel : ℕ) → Mlist T → List T
visit_all fuel m = visit (visit_rest fuel) (get_head_position m 0)

drop-elem :
    {T : Type 0} (xs : List T) (i : ℕ) (x : T)
    → get_elem? xs i ≡ some x
    → drop i xs ≡ x ∷ drop (suc i) xs
drop-elem [] i x at = cc
drop-elem (y ∷ xs) zero x at = cc
drop-elem (y ∷ xs) (suc i) x at = drop-elem xs i x at

visit_rest-drop :
    {T : Type 0} (fuel : ℕ) (m : Mlist T)
    → length m.items ≤ fuel + m.row_active + 1
    → visit_rest fuel m ≡ drop (m.row_active + 1) m.items
unfolding visit_rest get_next
visit_rest-drop zero m h = sym (drop_of_ge (m.row_active + 1) m.items (omega arith))
visit_rest-drop (suc fuel) m h = elim (Bool-cases (leb (length m.items) (m.row_active + 1))) [
  | inl end ↦ rw end (sym (drop_of_ge (m.row_active + 1) m.items (ground arith)))
  | inr more ↦
      let (x, at) = get_elem-some m.items (m.row_active + 1) (ground arith) in
      let next : m.row_active + 1 + 1 ≡ suc (m.row_active + 1) = omega arith in
      rw (more, at)
        (ap (λ (l : List _). x ∷ l)
            (visit_rest-drop fuel (record m { row_active = m.row_active + 1 }) (omega arith))
          ∙ ap (λ (n : ℕ). x ∷ drop n m.items) next
          ∙ sym (drop-elem m.items (m.row_active + 1) x at))
]

visit_all-list :
    {T : Type 0} (m : Mlist T) (xs : List T) → m.items ≡ xs → visit_all (length xs) m ≡ xs
unfolding visit_all get_head_position
visit_all-list m [] e = rw e refl
visit_all-list m (x ∷ xs) e =
    let rest =
      visit_rest-drop (suc (length xs)) (record m { row_active = 0 })
        (omega (arith, ap (λ (l : List _). length l) e)) in
    let some_items : (length m.items == 0) ≡ false =
      ground (arith, ap (λ (l : List _). length l) e) in
    let inside : ltb 0 (length m.items) ≡ true = ground (arith, ap (λ (l : List _). length l) e) in
    rw (some_items, inside)
      (let first : get_elem? m.items 0 ≡ some x = ap (λ (l : List _). get_elem? l 0) e in
        rw first (ap (λ (l : List _). x ∷ l) (rest ∙ ap (λ (l : List _). drop 1 l) e)))

-- A walk from the first item by `GetNext` visits all items in their order, each once, wherever the
-- list was left before.
pub visit_all-items : {T : Type 0} (m : Mlist T) → visit_all (length m.items) m ≡ m.items
visit_all-items m = visit_all-list m m.items refl
