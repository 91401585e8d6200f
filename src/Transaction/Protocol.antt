-- ===== src/Transaction/Protocol.antt =====
-- The requests of TransactionResourceAsync.cpp against the two-phase commit protocol.
use firebird_odbc_driver.Base.{
  ◌≡◌, refl, inl, inr, subst, Bool-cases, ◌≢◌, ◌↔◌, ◌⊎◌, Bool, true, false, ◌&&◌, List, [], ◌∷◌,
  arith, if◌then◌else◌,
}
use firebird_odbc_driver.Transaction.{
  Trstate, tr_none, tr_enlisting, tr_enlisted, tr_preparing, tr_prepared, tr_committing,
  tr_committed, tr_aborting, tr_aborted, tr_tmdown, tr_invalid_state, refuse, prepare_single,
  prepare_double, aborting, is_enlisted, is_prepared, s_ok, Call, prepare_transaction, commit_auto,
  rollback_auto, returns, Environment, Resource, prepare_request, commit_request, abort_request,
  tm_down, Request, prepare, commit, abort, down, handle, handle_all,
}

-- The calls of a connection in the order that the protocol allows, of a part that an unexpected request or the
-- end of the transaction manager may have stopped at any place. Only a commit in one phase or a preparation that
-- failed is followed by a rollback, and nothing follows a commit that was done.
abbrev pub is_part : List Call → Bool
is_part [] = true
is_part (prepare_transaction true ∷ []) = true
is_part (prepare_transaction true ∷ commit_auto done ∷ []) = true
is_part (prepare_transaction true ∷ rollback_auto done ∷ []) = true
is_part (prepare_transaction false ∷ rollback_auto done ∷ []) = true
is_part (commit_auto true ∷ []) = true
is_part (commit_auto false ∷ rollback_auto done ∷ []) = true
is_part (rollback_auto done ∷ []) = true
is_part _ = false

-- A rollback that was done, alone or behind a preparation.
abbrev pub is_rolled_back : List Call → Bool
is_rolled_back (rollback_auto true ∷ []) = true
is_rolled_back (prepare_transaction done ∷ rollback_auto true ∷ []) = true
is_rolled_back _ = false

-- What `PrepareRequest` leaves in `TR_PREPARING`: a commit in one phase, or a rollback that threw.
abbrev pub is_left_preparing : List Call → Bool
is_left_preparing (commit_auto true ∷ []) = true
is_left_preparing (commit_auto false ∷ rollback_auto false ∷ []) = true
is_left_preparing (prepare_transaction false ∷ rollback_auto false ∷ []) = true
is_left_preparing _ = false

-- What the calls made so far are in each state. No handler leaves `TR_COMMITTING` or `TR_ABORTING`.
abbrev pub Follows : Trstate → List Call → Type 0
Follows tr_none cs = cs ≡ []
Follows tr_enlisting cs = cs ≡ []
Follows tr_enlisted cs = cs ≡ []
Follows tr_preparing cs = is_left_preparing cs ≡ true
Follows tr_prepared cs = cs ≡ prepare_transaction true ∷ []
Follows tr_committing cs = ⊥
Follows tr_committed cs = cs ≡ prepare_transaction true ∷ commit_auto true ∷ []
Follows tr_aborting cs = ⊥
Follows tr_aborted cs = is_rolled_back cs ≡ true
Follows tr_tmdown cs = is_part cs ≡ true
Follows tr_invalid_state cs = is_part cs ≡ true

pub record IsValid (r : Resource) : Type 0 where
  pub linked : r.connected ≡ true
  pub follows : Follows r.state r.calls

rolled_back_part : (cs : List Call) → is_rolled_back cs ≡ true → is_part cs ≡ true
rolled_back_part [] h = refl
rolled_back_part (c ∷ []) h = ground arith
rolled_back_part (c ∷ d ∷ []) h = ground arith
rolled_back_part (c ∷ d ∷ b ∷ cs) h = ground arith

preparing_part : (cs : List Call) → is_left_preparing cs ≡ true → is_part cs ≡ true
preparing_part [] h = refl
preparing_part (c ∷ []) h = ground arith
preparing_part (c ∷ d ∷ []) h = ground arith
preparing_part (c ∷ d ∷ b ∷ cs) h = ground arith

part_of_Follows : (t : Trstate) (cs : List Call) → Follows t cs → is_part cs ≡ true
part_of_Follows tr_none cs h = rw h
part_of_Follows tr_enlisting cs h = rw h
part_of_Follows tr_enlisted cs h = rw h
part_of_Follows tr_preparing cs h = preparing_part cs h
part_of_Follows tr_prepared cs h = rw h
part_of_Follows tr_committing cs h = elim h [ ]
part_of_Follows tr_committed cs h = rw h
part_of_Follows tr_aborting cs h = elim h [ ]
part_of_Follows tr_aborted cs h = rolled_back_part cs h
part_of_Follows tr_tmdown cs h = h
part_of_Follows tr_invalid_state cs h = h

-- A request that is refused makes no call.
refuse-IsValid :
    (e : Environment) (r : Resource)
    → r.connected ≡ true
    → Follows r.state r.calls
    → IsValid (refuse e r).0
refuse-IsValid e r c h = record { linked = c; follows = part_of_Follows r.state r.calls h }

enlisted_state : (t : Trstate) → is_enlisted t ≡ true → t ≡ tr_enlisted
enlisted_state t h = ground arith

prepared_state : (t : Trstate) → is_prepared t ≡ true → t ≡ tr_prepared
prepared_state t h = ground arith

at_state : (t : Trstate) (r : Resource) → r.state ≡ t → Follows r.state r.calls → Follows t r.calls
at_state t r e h = subst (λ t. Follows t r.calls) e h

prepare_single-IsValid :
    (e : Environment) (r : Resource)
    → r.connected ≡ true
    → r.calls ≡ []
    → IsValid (prepare_single e r).0
prepare_single-IsValid e r c h = ground arith

prepare_double-IsValid :
    (e : Environment) (r : Resource)
    → r.connected ≡ true
    → r.calls ≡ []
    → IsValid (prepare_double e r).0
prepare_double-IsValid e r c h = ground arith

prepare-IsValid :
    (single : Bool) (e : Environment) (r : Resource)
    → IsValid r
    → IsValid (prepare_request single e r).0
unfolding prepare_request
prepare-IsValid single e r v = elim (Bool-cases (is_enlisted r.state)) [
  | inl open_ ↦
      let none_ : r.calls ≡ [] = at_state tr_enlisted r (enlisted_state r.state open_) v.follows in
      rw open_ (elim (Bool-cases single) [
        | inl one ↦ rw one (prepare_single-IsValid e r v.linked none_)
        | inr two ↦ rw two (prepare_double-IsValid e r v.linked none_)
      ])
  | inr shut ↦ rw shut (refuse-IsValid e r v.linked v.follows)
]

commit-IsValid : (e : Environment) (r : Resource) → IsValid r → IsValid (commit_request e r).0
unfolding commit_request
commit-IsValid e r v = elim (Bool-cases (is_prepared r.state)) [
  | inl open_ ↦
      let one : r.calls ≡ prepare_transaction true ∷ [] =
        at_state tr_prepared r (prepared_state r.state open_) v.follows in
      let linked = v.linked in rw open_ (ground (arith, one, linked))
  | inr shut ↦ rw shut (refuse-IsValid e r v.linked v.follows)
]

aborting-IsValid :
    (e : Environment) (r : Resource)
    → r.connected ≡ true
    → (r.calls ≡ []) ⊎ (r.calls ≡ prepare_transaction true ∷ [])
    → IsValid (aborting e r).0
aborting-IsValid e r c (inl none_) = ground arith
aborting-IsValid e r c (inr one) = ground arith

abort-IsValid : (e : Environment) (r : Resource) → IsValid r → IsValid (abort_request e r).0
unfolding abort_request
abort-IsValid e r v = elim (Bool-cases (is_enlisted r.state)) [
  | inl open_ ↦
      let none_ = at_state tr_enlisted r (enlisted_state r.state open_) v.follows in
      rw open_ (aborting-IsValid e r v.linked (inl none_))
  | inr shut ↦ elim (Bool-cases (is_prepared r.state)) [
    | inl open_ ↦
        let one = at_state tr_prepared r (prepared_state r.state open_) v.follows in
        rw (shut, open_) (aborting-IsValid e r v.linked (inr one))
    | inr closed ↦ rw (shut, closed) (refuse-IsValid e r v.linked v.follows)
  ]
]

handle-IsValid :
    (q : Request) (e : Environment) (r : Resource) → IsValid r → IsValid (handle q e r).0
unfolding handle tm_down
handle-IsValid (prepare single) e r v = prepare-IsValid single e r v
handle-IsValid commit e r v = commit-IsValid e r v
handle-IsValid abort e r v = abort-IsValid e r v
handle-IsValid down e r v = record {
  linked = v.linked;
  follows = part_of_Follows r.state r.calls v.follows;
}

-- From a connected resource of which this holds, whatever requests arrive, in whatever order, and however the calls of the connection end, the
-- calls that a connected resource makes are those of its state: none while it is just enlisted, one
-- successful preparation while it is prepared, that and a successful commit when it is committed, and
-- a successful rollback, alone or behind a preparation, when it is aborted. `TR_PREPARING` is left
-- behind a successful commit in one phase and behind a rollback that threw; in the invalid state and
-- after `TMDown` the calls are a part that the protocol allows, which may have stopped at any place.
pub handle_all-IsValid :
    (r : Resource) (qs : List (Request × Environment)) → IsValid r → IsValid (handle_all r qs)
unfolding handle_all
handle_all-IsValid r [] v = v
handle_all-IsValid r ((q, e) ∷ qs) v =
    handle_all-IsValid (handle q e r).0 qs (handle-IsValid q e r v)

abbrev pub is_commit : Call → Bool
is_commit (commit_auto done) = done
is_commit _ = false

abbrev pub is_rollback : Call → Bool
is_rollback (rollback_auto done) = done
is_rollback _ = false

abbrev pub any_call : (Call → Bool) → List Call → Bool
any_call p [] = false
any_call p (c ∷ cs) = if p c then true else any_call p cs

part_exclusive :
    (cs : List Call)
    → is_part cs ≡ true
    → (any_call is_commit cs && any_call is_rollback cs) ≡ false
part_exclusive [] h = refl
part_exclusive (c ∷ []) h = ground arith
part_exclusive (c ∷ d ∷ []) h = ground arith
part_exclusive (c ∷ d ∷ b ∷ cs) h = ground arith

-- No run of requests both commits and rolls back: if one call of `commitAuto` returned, no call of
-- `rollbackAuto` did.
pub handle_all_exclusive :
    (r : Resource) (qs : List (Request × Environment))
    → IsValid r
    → (let cs = (handle_all r qs).calls in any_call is_commit cs && any_call is_rollback cs) ≡ false
handle_all_exclusive r qs v =
    let done = handle_all r qs in
    part_exclusive done.calls
      (part_of_Follows done.state done.calls (handle_all-IsValid r qs v).follows)

-- From a state other than committed, a commit is answered with success exactly when the transaction was prepared and `commitAuto`
-- returned, or there is no connection; the resource is committed then, and in no other case.
pub commit_request_iff :
    (e : Environment) (r : Resource)
    → r.state ≢ tr_committed
    → (((commit_request e r).1 ≡ returns s_ok)
        ↔ ((r.state ≡ tr_prepared) × ((r.connected ≡ false) ⊎ (e.commits ≡ true))))
      × (((commit_request e r).0.state ≡ tr_committed)
          ↔ ((r.state ≡ tr_prepared) × ((r.connected ≡ false) ⊎ (e.commits ≡ true))))
unfolding commit_request
commit_request_iff e r h = ground arith
