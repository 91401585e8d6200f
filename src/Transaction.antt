-- ===== src/Transaction.antt =====
-- TransactionResourceAsync.cpp: the part that a connection plays in a distributed transaction. The
-- transaction manager sends requests; each handler calls the connection and replies through
-- `enlist`. How those calls end is chosen by the environment of the request.
pub mod Protocol
pub mod Refusals
pub mod Enlist
mod Tests
use firebird_odbc_driver.Base.{ℕ, Bool, true, false, not, ◌&&◌, List, [], ◌∷◌, ◌++◌, if◌then◌else◌}

-- `TRSTATE`
pub data Trstate : Type 0 where
  tr_none : Trstate
  tr_enlisting : Trstate
  tr_enlisted : Trstate
  tr_preparing : Trstate
  tr_prepared : Trstate
  tr_committing : Trstate
  tr_committed : Trstate
  tr_aborting : Trstate
  tr_aborted : Trstate
  tr_tmdown : Trstate
  tr_invalid_state : Trstate

pub data Hresult : Type 0 where
  s_ok : Hresult
  xact_s_singlephase : Hresult
  e_fail : Hresult
  e_unexpected : Hresult

-- The calls of the connection, each with whether it returned; it throws otherwise.
pub data Call : Type 0 where
  prepare_transaction : (done : Bool) → Call
  commit_auto : (done : Bool) → Call
  rollback_auto : (done : Bool) → Call

-- The calls of `enlist`.
pub data Reply : Type 0 where
  prepare_request_done : Hresult → Reply
  commit_request_done : Hresult → Reply
  abort_request_done : Hresult → Reply

-- What a handler does: it returns, or lets an exception of `rollbackAuto` escape.
pub data Outcome : Type 0 where
  returns : Hresult → Outcome
  escapes : Outcome

-- Which calls of the connection return, and whether the reply is taken with `S_OK`.
pub record Environment : Type 0 where
  pub prepares : Bool
  pub commits : Bool
  pub rolls_back : Bool
  pub taken : Bool

-- `connected` says that `odbcConnection` is not NULL. The calls and replies made so far come with
-- the state, oldest first.
pub record Resource : Type 0 where
  pub state : Trstate
  pub connected : Bool
  pub calls : List Call
  pub replies : List Reply

abbrev pub set_state : Trstate → Resource → Resource
set_state t r = record r { state = t }

abbrev pub call : Call → Resource → Resource
call c r = if r.connected then record r { calls = r.calls ++ c ∷ [] } else r

abbrev pub reply : Reply → Resource → Resource
reply a r = record r { replies = r.replies ++ a ∷ [] }

-- The answer to a request that the state does not allow.
abbrev pub refuse : Environment → Resource → Resource × Outcome
refuse e r = (
  reply (prepare_request_done e_unexpected) (set_state tr_invalid_state r),
  returns (if e.taken then e_unexpected else e_fail),
)

abbrev pub or_not : Bool → Bool → Bool
or_not connected done = if connected then done else true

-- `PrepareRequest` in the state `TR_ENLISTED`, with `fSinglePhase`.
abbrev pub prepare_single : Environment → Resource → Resource × Outcome
prepare_single e r =
    let r1 = call (commit_auto e.commits) (set_state tr_preparing r) in
    if or_not r.connected e.commits
    then (
      reply (prepare_request_done xact_s_singlephase) r1,
      returns (if e.taken then s_ok else e_fail),
    )
    else (let r2 = call (rollback_auto e.rolls_back) r1 in
        if or_not r.connected e.rolls_back
        then (set_state tr_invalid_state (reply (prepare_request_done e_fail) r2), returns e_fail)
        else (r2, escapes))

-- `PrepareRequest` in the state `TR_ENLISTED`, for two phases.
abbrev pub prepare_double : Environment → Resource → Resource × Outcome
prepare_double e r =
    let r1 = call (prepare_transaction e.prepares) (set_state tr_preparing r) in
    if or_not r.connected e.prepares
    then (reply (prepare_request_done s_ok) (set_state tr_prepared r1), returns s_ok)
    else (let r2 = call (rollback_auto e.rolls_back) r1 in
        if or_not r.connected e.rolls_back
        then (reply (prepare_request_done e_fail) (set_state tr_aborted r2), returns e_fail)
        else (r2, escapes))

abbrev pub is_enlisted : Trstate → Bool
is_enlisted tr_enlisted = true
is_enlisted _ = false

abbrev pub is_prepared : Trstate → Bool
is_prepared tr_prepared = true
is_prepared _ = false

unfoldable pub prepare_request : (single_phase : Bool) → Environment → Resource → Resource × Outcome
prepare_request single_phase e r =
    if not (is_enlisted r.state)
    then refuse e r
    else if single_phase
    then prepare_single e r
    else prepare_double e r

unfoldable pub commit_request : Environment → Resource → Resource × Outcome
commit_request e r =
    if not (is_prepared r.state)
    then refuse e r
    else (let r1 = call (commit_auto e.commits) (set_state tr_committing r) in
        if or_not r.connected e.commits
        then (reply (commit_request_done s_ok) (set_state tr_committed r1), returns s_ok)
        else (reply (commit_request_done e_fail) (set_state tr_invalid_state r1), returns e_fail))

-- The rest of `AbortRequest`, in a state that it allows.
abbrev pub aborting : Environment → Resource → Resource × Outcome
aborting e r =
    let r1 = call (rollback_auto e.rolls_back) (set_state tr_aborting r) in
    if or_not r.connected e.rolls_back
    then (reply (abort_request_done s_ok) (set_state tr_aborted r1), returns s_ok)
    else (reply (abort_request_done e_fail) (set_state tr_invalid_state r1), returns e_fail)

unfoldable pub abort_request : Environment → Resource → Resource × Outcome
abort_request e r =
    if not (is_enlisted r.state) && not (is_prepared r.state) then refuse e r else aborting e r

-- `TMDown` also releases the interfaces of the transaction manager.
unfoldable pub tm_down : Resource → Resource × Outcome
tm_down r = (set_state tr_tmdown r, returns s_ok)

pub data Request : Type 0 where
  prepare : (single_phase : Bool) → Request
  commit : Request
  abort : Request
  down : Request

pub handle : Request → Environment → Resource → Resource × Outcome
unfolding prepare_request commit_request abort_request tm_down
handle (prepare single_phase) e r = prepare_request single_phase e r
handle commit e r = commit_request e r
handle abort e r = abort_request e r
handle down e r = tm_down r

-- Requests one after the other, whatever their order.
pub handle_all : Resource → List (Request × Environment) → Resource
handle_all r [] = r
handle_all r ((q, e) ∷ qs) = handle_all (handle q e r).0 qs
