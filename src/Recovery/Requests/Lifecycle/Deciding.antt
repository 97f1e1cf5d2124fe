-- ===== src/Recovery/Requests/Lifecycle/Deciding.antt =====
-- Approval and rejection (src/lib/cashierRecovery.ts), and the table of requests.
use backend_v.Prelude.{ℕ}
use backend_v.Recovery.Requests.Decisions.{
  Verb, approve_recovery_request, reject_recovery_request, claim_approval, claim_rejection, decided,
  classify_decision_failure, approve_pending, approvable, rejectable, approve, reject, issued_hash,
  approve_existing, reject_existing,
}
use backend_v.Recovery.Requests.Lifecycle.Writes.{
  Keeps, blocks, pure-Keeps, >>=-Keeps, update_requests-Keeps, approve_row-Advances,
  reject_row-Advances,
}
use backend_v.Recovery.Requests.{RequestEnv, meanwhile}
use backend_v.Store.Accounts.{CashierRecoveryRequest}
use backend_v.Store.Schema.{
  RowId, Db, AuditAction, cashier_recovery_approved, cashier_recovery_rejected,
}
use backend_v.Recovery.Requests.Lifecycle.Filing.{
  expire_stale_requests-Keeps, record_account_audit-Keeps, configured-Keeps,
}

pub classify-Keeps :
    (env : RequestEnv) (id : RowId) (verb : Verb) (count : ℕ)
    → Keeps (classify_decision_failure env id verb count)
unfolding classify_decision_failure
classify-Keeps env id verb count = search blocks depth 12

pub decided-Keeps :
    (action : AuditAction) (admin_id id : RowId) → Keeps (decided action admin_id id)
unfolding decided
decided-Keeps action admin_id id = search (blocks, record_account_audit-Keeps) depth 20

pub approve_pending-Keeps :
    (env : RequestEnv) (admin_id : RowId) (existing : CashierRecoveryRequest) (x : Db)
    → Keeps (approve_pending env admin_id existing x)
unfolding approve_pending
approve_pending-Keeps env admin_id existing x =
    >>=-Keeps
      (update_requests-Keeps (approvable x existing.id env.now) _
        (approve_row-Advances x existing.id env.now admin_id (issued_hash env existing)))
      (classify-Keeps env existing.id approve)

pub claim_approval-Keeps :
    (env : RequestEnv) (admin_id : RowId) (existing : CashierRecoveryRequest)
    → Keeps (claim_approval env admin_id existing)
unfolding claim_approval
claim_approval-Keeps env admin_id existing = search (blocks, approve_pending-Keeps)

pub claim_rejection-Keeps :
    (env : RequestEnv) (admin_id : RowId) (existing : CashierRecoveryRequest)
    → Keeps (claim_rejection env admin_id existing)
unfolding claim_rejection
claim_rejection-Keeps env admin_id existing =
    >>=-Keeps
      (update_requests-Keeps (rejectable existing.id env.now) _
        (reject_row-Advances existing.id env.now admin_id))
      (classify-Keeps env existing.id reject)

-- Other requests' commits let the table evolve.
abbrev pub OthersKeep : RequestEnv → Type 0
OthersKeep env = Keeps (meanwhile env)

pub approve_existing-Keeps :
    (env : RequestEnv) (admin_id : RowId) (existing : CashierRecoveryRequest)
    → OthersKeep env
    → Keeps (approve_existing env admin_id existing)
unfolding approve_existing
approve_existing-Keeps env admin_id existing others = >>=-Keeps others (λ _.
    >>=-Keeps (claim_approval-Keeps env admin_id existing) (λ _.
      >>=-Keeps (decided-Keeps cashier_recovery_approved admin_id existing.id)
        (λ row. pure-Keeps _)))

pub reject_existing-Keeps :
    (env : RequestEnv) (admin_id : RowId) (existing : CashierRecoveryRequest)
    → OthersKeep env
    → Keeps (reject_existing env admin_id existing)
unfolding reject_existing
reject_existing-Keeps env admin_id existing others = >>=-Keeps others (λ _.
    >>=-Keeps (claim_rejection-Keeps env admin_id existing)
      (λ _. decided-Keeps cashier_recovery_rejected admin_id existing.id))

pub approve-Keeps :
    (env : RequestEnv) (id admin_id : RowId)
    → OthersKeep env
    → Keeps (approve_recovery_request env id admin_id)
unfolding approve_recovery_request
approve-Keeps env id admin_id others =
    search (blocks, configured-Keeps, expire_stale_requests-Keeps, approve_existing-Keeps) depth 20

pub reject-Keeps :
    (env : RequestEnv) (id admin_id : RowId)
    → OthersKeep env
    → Keeps (reject_recovery_request env id admin_id)
unfolding reject_recovery_request
reject-Keeps env id admin_id others =
    search (blocks, expire_stale_requests-Keeps, reject_existing-Keeps) depth 20
