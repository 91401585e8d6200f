-- ===== src/Transaction/Tests.antt =====
-- Runs of TransactionResourceAsync.cpp.
use firebird_odbc_driver.Base.{refl, true, false, List, [], ◌∷◌}
use firebird_odbc_driver.Transaction.{
  tr_none, tr_enlisted, e_unexpected, prepare_request_done, Environment, Resource, Request, prepare,
  commit, abort, handle_all,
}
use firebird_odbc_driver.Transaction.Protocol.{IsValid, handle_all-IsValid}
use firebird_odbc_driver.Transaction.Refusals.{Refused, refusals, refused_lem}
use firebird_odbc_driver.Transaction.Enlist.{Manager, Replies}

abbrev enlisted_resource : Resource
enlisted_resource = record { state = tr_enlisted; connected = true; calls = []; replies = [] }

abbrev all_returns : Environment
all_returns = record { prepares = true; commits = true; rolls_back = true; taken = true }

abbrev two_phases : List (Request × Environment)
two_phases = (prepare false, all_returns) ∷ (commit, all_returns) ∷ (abort, all_returns) ∷ []

handle_all-IsValid_example : IsValid (handle_all enlisted_resource two_phases)
handle_all-IsValid_example =
    handle_all-IsValid enlisted_resource two_phases (record { linked = refl; follows = refl })

-- A commit of a resource that is just enlisted, and an abort and a preparation behind it.
abbrev later : List (Request × Environment)
later = (abort, all_returns) ∷ (prepare true, all_returns) ∷ []

refused_lem_example :
    Refused enlisted_resource
      (handle_all enlisted_resource ((commit, all_returns) ∷ later))
      (prepare_request_done e_unexpected ∷ refusals later)
refused_lem_example = refused_lem commit all_returns enlisted_resource later refl

abbrev new_manager : Manager
new_manager = record {
  transaction_manager = false;
  resource_manager_factory = false;
  enlist_connect = false;
  resource = tr_none;
}

abbrev all_given : Replies
all_given = record { gets_manager = true; gets_factory = true; creates = true }

abbrev no_factory : Replies
no_factory = record { gets_manager = true; gets_factory = false; creates = true }
