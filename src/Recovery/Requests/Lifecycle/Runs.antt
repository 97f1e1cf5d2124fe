-- ===== src/Recovery/Requests/Lifecycle/Runs.antt =====
-- The commands of src/lib/cashierRecovery.ts as a whole, and the table of requests.
use backend_v.Prelude.{String, All}
use backend_v.Recovery.Requests.Decisions.{approve_recovery_request, reject_recovery_request}
use backend_v.Recovery.Requests.Lifecycle.Writes.{requests}
use backend_v.Recovery.Requests.Lifecycle.{Evolves, IsChecked, Evolves-IsChecked}
use backend_v.Recovery.Requests.Redeem.{RedeemInput, reset_password_with_code}
use backend_v.Recovery.Requests.Listing.{RequestFilter, list_recovery_requests}
use backend_v.Recovery.Requests.{RequestEnv, submit_recovery_request}
use backend_v.Recovery.{RecoveryContext}
use backend_v.Store.Schema.{RowId, Db}
use backend_v.Recovery.Requests.Lifecycle.Filing.{submit-Keeps, list-Keeps}
use backend_v.Recovery.Requests.Lifecycle.Deciding.{OthersKeep, approve-Keeps, reject-Keeps}
use backend_v.Recovery.Requests.Lifecycle.Redeeming.{reset-Keeps}

-- What clients can ask of the flow.
pub data Command : Type 0 where
  submit : String → RecoveryContext → Command
  list : RequestFilter → Command
  approve_request reject_request : RowId → RowId → Command
  reset : RedeemInput → Command

-- The requests' table after a command, whether it succeeded or failed.
unfoldable pub run : RequestEnv → Command → Db → Db
run env (submit email ctx) d = (submit_recovery_request env email ctx d).1
run env (list chosen) d = (list_recovery_requests env chosen d).1
run env (approve_request id admin_id) d = (approve_recovery_request env id admin_id d).1
run env (reject_request id admin_id) d = (reject_recovery_request env id admin_id d).1
run env (reset i) d = (reset_password_with_code env i d).1

-- Every command, however it ends, moves requests along the steps of their life alone, loses none
-- and files only new ones whose deadline is 15 minutes off, where other requests do so too.
pub run-Evolves :
    (env : RequestEnv) (c : Command) (d : Db)
    → OthersKeep env
    → Evolves (requests d) (requests (run env c d))
unfolding run
run-Evolves env (submit email ctx) d others = (submit-Keeps env email ctx).evolves d
run-Evolves env (list chosen) d others = (list-Keeps env chosen).evolves d
run-Evolves env (approve_request id admin_id) d others =
    (approve-Keeps env id admin_id others).evolves d
run-Evolves env (reject_request id admin_id) d others =
    (reject-Keeps env id admin_id others).evolves d
run-Evolves env (reset i) d others = (reset-Keeps env i others).evolves d

-- No command leaves a request whose code and status the table's check refuses.
pub run-IsChecked :
    (env : RequestEnv) (c : Command) (d : Db)
    → OthersKeep env
    → All IsChecked (requests d)
    → All IsChecked (requests (run env c d))
run-IsChecked env c d others h =
    Evolves-IsChecked (requests d) (requests (run env c d)) (run-Evolves env c d others) h
