-- ===== src/Transaction/Enlist.antt =====
-- `OdbcConnection::enlistTransaction` and `clearAtlResource` of TransactionResourceAsync.cpp: the
-- interfaces of the transaction manager, and the flag that allows one enlistment at a time.
use firebird_odbc_driver.Base.{◌≡◌, Bool, true, false, not, ◌&&◌, arith, if◌then◌else◌}
use firebird_odbc_driver.Transaction.{Trstate, tr_enlisted}

-- Which pointers are not NULL, `enlistConnect` of the connection, and the state of the resource that
-- the connection enlisted last (`TR_NONE` before).
pub record Manager : Type 0 where
  pub transaction_manager : Bool
  pub resource_manager_factory : Bool
  pub enlist_connect : Bool
  pub resource : Trstate

-- How the calls of the transaction manager end: with `S_OK` and an interface, or without one.
pub record Replies : Type 0 where
  pub gets_manager : Bool
  pub gets_factory : Bool
  pub creates : Bool

-- A call through a NULL pointer, or the value returned.
pub data Enlisting : Type 0 where
  fault : Enlisting
  answer : Bool → Manager → Enlisting

-- From the test of `enlistConnect` on.
abbrev pub enlist : Replies → Manager → Enlisting
enlist e m =
    if m.enlist_connect
    then answer false m
    else if not m.resource_manager_factory
    then fault
    else if not e.creates
    then fault
    else answer true (record m { enlist_connect = true; resource = tr_enlisted })

unfoldable pub enlist_transaction : Replies → Manager → Enlisting
enlist_transaction e m =
    let found = record m { transaction_manager = true } in
    if m.transaction_manager
    then enlist e m
    else if not e.gets_manager
    then answer false m
    else if m.resource_manager_factory
    then enlist e found
    else if not e.gets_factory
    then answer false found
    else enlist e (record found { resource_manager_factory = true })

unfoldable pub clear_atl_resource : Manager → Manager
clear_atl_resource m = record m { transaction_manager = false; resource_manager_factory = false }

-- An answer that is no fault: true exactly when the connection was free and the interfaces were
-- there or could be had, which enlists it; false changes neither the flag nor the resource.
abbrev pub Answers : Replies → Manager → Enlisting → Type 0
Answers e m fault = ⊥
Answers e m (answer done n) =
    (done ≡ (
      not m.enlist_connect
      && (if m.transaction_manager
          then true
          else e.gets_manager && (if m.resource_manager_factory then true else e.gets_factory))))
    × (n.enlist_connect ≡ (if done then true else m.enlist_connect))
    × (n.resource ≡ (if done then tr_enlisted else m.resource))

-- Where a manager that is held comes with its factory, and resource managers are created,
-- `enlistTransaction` makes no call through NULL; it answers true exactly when the connection was not
-- enlisted and the interfaces were there or could be had; only then is the connection enlisted.
pub enlist_transaction-Answers :
    (e : Replies) (m : Manager)
    → (m.transaction_manager ≡ true → m.resource_manager_factory ≡ true)
    → e.creates ≡ true
    → Answers e m (enlist_transaction e m)
unfolding enlist_transaction
enlist_transaction-Answers e m paired creates = ground arith

-- If the manager was got and its factory refused, the connection is not enlisted, and the next
-- attempt calls through the NULL factory, whatever the transaction manager answers then.
pub enlist_after_refusal :
    (first second : Replies) (m : Manager)
    → m.transaction_manager ≡ false
    → m.resource_manager_factory ≡ false
    → m.enlist_connect ≡ false
    → first.gets_manager ≡ true
    → first.gets_factory ≡ false
    → (n : Manager) × (enlist_transaction first m ≡ answer false n)
      × (enlist_transaction second n ≡ fault)
unfolding enlist_transaction
enlist_after_refusal first second m a b c d f =
    (record m { transaction_manager = true }, ground arith, ground arith)
