-- ===== src/Transaction/Refusals.antt =====
-- The requests of TransactionResourceAsync.cpp that the state does not allow.
use firebird_odbc_driver.Base.{
  ◌≡◌, refl, sym, ◌∙◌, ap, inl, inr, ◌||◌, append_assoc, append-nil, ◌⊎◌, Bool, true, false, List,
  [], ◌∷◌, ◌++◌, arith,
}
use mathlib.Core.Bool.{true≢false}
use firebird_odbc_driver.Transaction.{
  Trstate, tr_tmdown, tr_invalid_state, Reply, is_enlisted, is_prepared, e_unexpected,
  prepare_request_done, Environment, Resource, prepare_request, commit_request, abort_request,
  tm_down, Request, prepare, commit, abort, down, handle, handle_all,
}

-- Which requests a state allows.
abbrev pub is_allowed : Request → Trstate → Bool
is_allowed (prepare single) t = is_enlisted t
is_allowed commit t = is_prepared t
is_allowed abort t = is_enlisted t || is_prepared t
is_allowed down t = true

-- A reply to each request but `TMDown`.
unfoldable pub refusals : List (Request × Environment) → List Reply
refusals [] = []
refusals ((down, e) ∷ qs) = refusals qs
refusals ((q, e) ∷ qs) = prepare_request_done e_unexpected ∷ refusals qs

-- What a refused resource has of another: its calls, its replies and one, and a state that is not open.
pub record Refused (r s : Resource) (more : List Reply) : Type 0 where
  pub calls : s.calls ≡ r.calls
  pub replies : s.replies ≡ r.replies ++ more
  pub state : (s.state ≡ tr_invalid_state) ⊎ (s.state ≡ tr_tmdown)

refuse-Refused :
    (q : Request) (e : Environment) (r : Resource)
    → is_allowed q r.state ≡ false
    → Refused r (handle q e r).0 (prepare_request_done e_unexpected ∷ [])
unfolding handle prepare_request commit_request abort_request
refuse-Refused (prepare single) e r h = ground arith
refuse-Refused commit e r h = ground arith
refuse-Refused abort e r h = ground arith
refuse-Refused down e r h = absurd (true≢false h)

shut_refuses :
    (t : Trstate)
    → (t ≡ tr_invalid_state) ⊎ (t ≡ tr_tmdown)
    → (is_enlisted t ≡ false) × (is_prepared t ≡ false)
shut_refuses t (inl h) = rw h (refl, refl)
shut_refuses t (inr h) = rw h (refl, refl)

Refused-trans :
    (r s t : Resource) (xs ys : List Reply)
    → Refused r s xs
    → Refused s t ys
    → Refused r t (xs ++ ys)
Refused-trans r s t xs ys h k = record {
  calls = k.calls ∙ h.calls;
  replies = k.replies ∙ ap (λ (l : List Reply). l ++ ys) h.replies ∙ append_assoc r.replies xs ys;
  state = k.state;
}

down-Refused : (e : Environment) (r : Resource) → Refused r (handle down e r).0 []
unfolding handle tm_down
down-Refused e r = record { calls = refl; replies = sym (append-nil r.replies); state = inr refl }

handle_all-Refused :
    (r : Resource) (qs : List (Request × Environment))
    → (r.state ≡ tr_invalid_state) ⊎ (r.state ≡ tr_tmdown)
    → Refused r (handle_all r qs) (refusals qs)
unfolding handle_all refusals
handle_all-Refused r [] h = record { calls = refl; replies = sym (append-nil r.replies); state = h }
handle_all-Refused r ((down, e) ∷ qs) h =
    let s = (handle down e r).0 in
    let one = down-Refused e r in
    Refused-trans r s (handle_all s qs) [] (refusals qs) one (handle_all-Refused s qs one.state)
handle_all-Refused r ((prepare single, e) ∷ qs) h =
    let s = (handle (prepare single) e r).0 in
    let one = refuse-Refused (prepare single) e r (shut_refuses r.state h).0 in
    Refused-trans r s (handle_all s qs) (prepare_request_done e_unexpected ∷ []) (refusals qs) one
      (handle_all-Refused s qs one.state)
handle_all-Refused r ((commit, e) ∷ qs) h =
    let s = (handle commit e r).0 in
    let one = refuse-Refused commit e r (shut_refuses r.state h).1 in
    Refused-trans r s (handle_all s qs) (prepare_request_done e_unexpected ∷ []) (refusals qs) one
      (handle_all-Refused s qs one.state)
handle_all-Refused r ((abort, e) ∷ qs) h =
    let s = (handle abort e r).0 in
    let (enlisted, prepared) = shut_refuses r.state h in
    let one = refuse-Refused abort e r (rw (enlisted, prepared) refl) in
    Refused-trans r s (handle_all s qs) (prepare_request_done e_unexpected ∷ []) (refusals qs) one
      (handle_all-Refused s qs one.state)

-- The first request that its state does not allow ends the part, whichever it is: a preparation that is not
-- just enlisted, a commit that is not prepared, an abort that is neither. From it on, whatever requests follow,
-- no call of the connection is made any more, and each of the requests but `TMDown`, that one and a commit and an abort as
-- well, is answered by one `PrepareRequestDone` with E_UNEXPECTED; `CommitRequestDone` and `AbortRequestDone` are
-- not called. The state is invalid then, or that of `TMDown`.
pub refused_lem :
    (q : Request) (e : Environment) (r : Resource) (qs : List (Request × Environment))
    → is_allowed q r.state ≡ false
    → Refused r (handle_all r ((q, e) ∷ qs)) (prepare_request_done e_unexpected ∷ refusals qs)
unfolding handle_all
refused_lem q e r qs h =
    let s = (handle q e r).0 in
    let one = refuse-Refused q e r h in
    Refused-trans r s (handle_all s qs) (prepare_request_done e_unexpected ∷ []) (refusals qs) one
      (handle_all-Refused s qs one.state)
