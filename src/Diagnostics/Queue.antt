-- ===== src/Diagnostics/Queue.antt =====
-- The errors of a handle as a queue: posting, reading and taking them off.
use firebird_odbc_driver.Base.{
  ℕ, zero, suc, ◌+◌, ◌≡◌, refl, ap, ◌∙◌, sym, true, false, Option, List, [], ◌∷◌, ◌++◌, map,
  append-nil, append_assoc, arith, length, get_elem?,
}
use firebird_odbc_driver.Base.Int.{ℤ, pos}
use firebird_odbc_driver.Diagnostics.Tables.{same_code}
use firebird_odbc_driver.Diagnostics.Record.{OdbcError, Targets, Stored, get_diag_rec}
use firebird_odbc_driver.Diagnostics.Object.{
  OdbcObject, post_error, transfer_errors, transfer_loop, cut, transfer, sql_error, rec_of,
  find_record, object_diag_rec,
}

abbrev Connection : Type 0
Connection = Option (List ℕ × Option (List ℕ))

-- Errors posted one after the other.
pub post_all : OdbcObject → Connection → List OdbcError → OdbcObject
post_all o connection [] = o
post_all o connection (e ∷ es) = post_all (post_error o connection e) connection es

abbrev pub owned : Connection → OdbcError → OdbcError
owned connection e = record e { connection = connection }

post_all-errors :
    (o : OdbcObject) (connection : Connection) (es : List OdbcError)
    → (post_all o connection es).errors ≡ o.errors ++ map (owned connection) es
unfolding post_all post_error
post_all-errors o connection [] = sym (append-nil o.errors)
post_all-errors o connection (e ∷ es) =
    post_all-errors (post_error o connection e) connection es
    ∙ append_assoc o.errors (owned connection e ∷ []) (map (owned connection) es)

find_record-get_elem :
    (es : List OdbcError) (n k : ℕ) → find_record es n (pos (n + k)) ≡ get_elem? es k
unfolding find_record
find_record-get_elem [] n k = refl
find_record-get_elem (e ∷ es) n zero =
    let t : same_code (pos n) (pos (n + zero)) ≡ true = ground arith in rw t
find_record-get_elem (e ∷ es) n (suc k) =
    let t : same_code (pos n) (pos (n + suc k)) ≡ false = ground arith in
    let m : n + suc k ≡ n + 1 + k = omega arith in rw t (rw m (find_record-get_elem es (n + 1) k))

-- After errors are posted to a handle that had none, record `k + 1` is the `k`-th posted, with the
-- connection of the handle; past the last one the answer is SQL_NO_DATA with the state 00000.
pub object_diag_rec-post_all :
    (o : OdbcObject) (connection : Connection) (es : List OdbcError) (k : ℕ) (p : Targets)
    (size : ℤ)
    → o.errors ≡ []
    → object_diag_rec (post_all o connection es) (pos (1 + k)) p size
      ≡ rec_of (get_elem? (map (owned connection) es) k) p size
unfolding object_diag_rec
object_diag_rec-post_all o connection es k p size h =
    let posted =
      post_all-errors o connection es
      ∙ ap (λ (l : List OdbcError). l ++ map (owned connection) es) h in
    ap (λ (r : Option OdbcError). rec_of r p size)
      (find_record-get_elem (post_all o connection es).errors 1 k
        ∙ ap (λ (l : List OdbcError). get_elem? l k) posted)

-- What `fuel` calls of `sqlError` store, one after the other.
pub take_all : (fuel : ℕ) → OdbcObject → Targets → ℤ → List Stored
take_all zero o p size = []
take_all (suc fuel) o p size =
    let (o', stored) = sql_error o p size in stored ∷ take_all fuel o' p size

dequeue_all :
    (es : List OdbcError) (o : OdbcObject) (p : Targets) (size : ℤ)
    → o.errors ≡ es
    → take_all (length es) o p size ≡ map (λ e. get_diag_rec e p size) es
unfolding take_all sql_error
dequeue_all [] o p size h = refl
dequeue_all (e ∷ es) o p size h = rw h (
    ap (λ (l : List Stored). get_diag_rec e p size ∷ l)
      (dequeue_all es (record o { errors = es }) p size refl))

-- Errors posted to a handle that had none come off the list by `sqlError` in the order in which
-- they were posted, each once.
pub take_all-post_all :
    (o : OdbcObject) (connection : Connection) (es : List OdbcError) (p : Targets) (size : ℤ)
    → o.errors ≡ []
    → (let all = map (owned connection) es in
        take_all (length all) (post_all o connection es) p size
        ≡ map (λ e. get_diag_rec e p size) all)
take_all-post_all o connection es p size h =
    dequeue_all (map (owned connection) es) (post_all o connection es) p size (
      post_all-errors o connection es
      ∙ ap (λ (l : List OdbcError). l ++ map (owned connection) es) h)

transfer_errors-first :
    (o : OdbcObject) (connection : Connection) (e : OdbcError) (es : List OdbcError)
    → transfer_errors o connection (e ∷ es) ≡ post_error o connection e
unfolding transfer_errors transfer_loop cut
transfer_errors-first o connection e es = refl

-- Of the errors of the other handle `operator <<` takes over the first alone; the other handle has
-- none left, so the errors behind the first are lost. The flag of posted errors
-- and the row count are copied.
pub transfer-first :
    (o obj : OdbcObject) (connection : Connection) (e : OdbcError) (es : List OdbcError)
    → obj.errors ≡ e ∷ es
    → ((transfer o connection obj).0.errors ≡ o.errors ++ owned connection e ∷ [])
      × ((transfer o connection obj).1.errors ≡ [])
      × ((transfer o connection obj).0.info_posted ≡ obj.info_posted)
      × ((transfer o connection obj).0.sql_diag_row_count ≡ obj.sql_diag_row_count)
unfolding transfer post_error
transfer-first o obj connection e es h = (
  ap (λ errors. (transfer_errors o connection errors).errors) h
      ∙ ap (λ (t : OdbcObject). t.errors) (transfer_errors-first o connection e es),
  refl,
  refl,
  refl,
)
