-- ===== src/Recovery/Requests/Decisions.antt =====
-- src/lib/cashierRecovery.ts: the administrator approves or rejects a request.
use backend_v.Prelude.{
  ℕ, String, Bool, ◌&&◌, not, true, false, Option, none, some, nat_beq, ltb, leb, get_or, ◌∷◌, [],
  if◌then◌else◌,
}
use backend_v.Errors
use backend_v.Errors.{Failure, app, db, record_not_found}
use backend_v.Errors.Code.{
  recovery_request_not_found, recovery_request_expired, recovery_account_not_active,
  recovery_request_not_actionable,
}
use backend_v.Recovery.Crypto.{Text, some_text, normalize_recovery_code, generate_recovery_code}
use backend_v.Recovery.Requests.Listing.{
  AdminRecoveryRequest, to_admin_recovery_request, find_request,
}
use backend_v.Recovery.Requests.{
  RequestEnv, meanwhile, require_cashier_recovery_configured, expire_stale_requests,
  update_requests, is_live,
}
use backend_v.Recovery.{find_user, eligible, record_account_audit}
use backend_v.Store.Accounts.{
  CashierRecoveryRequest, CashierRecoveryStatus, pending, approved, rejected, expired, User, Role,
}
use backend_v.Store.Action.{Action, pure, query, throw, or_throw, ◌>>=◌, ◌>>◌}
use backend_v.Store.Schema.{
  RowId, Time, Db, AuditAction, cashier_recovery_approved, cashier_recovery_rejected,
}

pub data Verb : Type 0 where
  approve reject : Verb

abbrev is_approval : Verb → Bool
is_approval approve = true
is_approval reject = false

abbrev is_expired : CashierRecoveryStatus → Bool
is_expired expired = true
is_expired s = false

abbrev pub is_pending : CashierRecoveryStatus → Bool
is_pending pending = true
is_pending s = false

abbrev pub is_eligible : Option User → Bool
is_eligible none = false
is_eligible (some u) = eligible Role.cashier u

-- Why a decision was not taken, from the row as it is then.
unfoldable pub decision_failure :
    Time → Verb → Option CashierRecoveryRequest → Option User → Failure
decision_failure now verb none user = app (Errors.not_found recovery_request_not_found)
decision_failure now verb (some r) user =
    if is_expired r.status
    then app (Errors.conflict recovery_request_expired)
    else (if leb r.expires_at now
        then app (Errors.conflict recovery_request_expired)
        else (if is_approval verb && not (is_eligible user)
            then app (Errors.conflict recovery_account_not_active)
            else app (Errors.conflict recovery_request_not_actionable)))

abbrev pub user_of_request : Option CashierRecoveryRequest → Db → Option User
user_of_request none d = none
user_of_request (some r) d = find_user r.user_id d

-- `throw await classifyDecisionFailure(…)`, where the count is not 1.
unfoldable pub classify_decision_failure : RequestEnv → RowId → Verb → ℕ → Action (Unit {0})
classify_decision_failure env request_id verb count = if nat_beq count 1 then pure tt else (do
  row ← query (find_request request_id)
  user ← query (user_of_request row)
  throw (decision_failure env.failed_now verb row user))

-- `{ id, status: "PENDING", expiresAt: { gt: now }, user: { role: "CASHIER", status: "ACTIVE" } }`
abbrev pub approvable : Db → RowId → Time → CashierRecoveryRequest → Bool
approvable d id now r =
    nat_beq r.id id
    && (is_pending r.status && (ltb now r.expires_at && is_eligible (find_user r.user_id d)))

abbrev pub approve_row : Time → RowId → String → CashierRecoveryRequest → CashierRecoveryRequest
approve_row now admin_id code_hash r = record r {
  status = approved;
  approved_at = some now;
  decided_by_id = some admin_id;
  code_hash = some code_hash;
}

abbrev pub rejectable : RowId → Time → CashierRecoveryRequest → Bool
rejectable id now r = nat_beq r.id id && (is_live r.status && ltb now r.expires_at)

abbrev pub reject_row : Time → RowId → CashierRecoveryRequest → CashierRecoveryRequest
reject_row now admin_id r = record r {
  status = rejected;
  rejected_at = some now;
  decided_by_id = some admin_id;
  code_hash = none;
}

-- The row as it is after the decision, with the audit of the decision.
unfoldable pub decided : AuditAction → RowId → RowId → Action AdminRecoveryRequest
decided action admin_id request_id = do
  found ← query (find_request request_id)
  row ← or_throw found (db record_not_found)
  owner ← query (find_user row.user_id)
  user ← or_throw owner (db record_not_found)
  record_account_audit action (some admin_id) user.shop_id (some row.id)
  query (λ d. to_admin_recovery_request d row user)

-- `normalizeCashierRecoveryCode(code)!` within a template text: an absent one would be "null".
abbrev pub normal_code : Text → Text
normal_code code = get_or (normalize_recovery_code (some_text code)) (110 ∷ 117 ∷ 108 ∷ 108 ∷ [])

-- The hash of the code of the request's random bytes.
abbrev pub issued_hash : RequestEnv → CashierRecoveryRequest → String
issued_hash env r =
    env.config.hash_cashier_recovery_code r.id r.user_id
      (normal_code (generate_recovery_code env.random_bytes))

pub record ApprovedRequest : Type 0 where
  pub code : Text
  pub expires_at : Time
  pub request : AdminRecoveryRequest

abbrev pub approved_answer : Text → AdminRecoveryRequest → ApprovedRequest
approved_answer code row = record { code = code; expires_at = row.expires_at; request = row }

-- The conditional write, whose test reads the accounts of `d`.
unfoldable pub approve_pending :
    RequestEnv → RowId → CashierRecoveryRequest → Db → Action (Unit {0})
approve_pending env admin_id existing d = do
  count ←
      update_requests (approvable d existing.id env.now)
        (approve_row env.now admin_id (issued_hash env existing))
  classify_decision_failure env existing.id approve count

unfoldable pub claim_approval : RequestEnv → RowId → CashierRecoveryRequest → Action (Unit {0})
claim_approval env admin_id existing = do
  d ← query (λ d. d)
  approve_pending env admin_id existing d

-- What follows a claim that succeeded.
abbrev pub approved_rest : RequestEnv → RowId → RowId → Action ApprovedRequest
approved_rest env admin_id request_id = do
  row ← decided cashier_recovery_approved admin_id request_id
  pure (approved_answer (generate_recovery_code env.random_bytes) row)

-- What follows the first reading of the row.
unfoldable pub approve_existing :
    RequestEnv → RowId → CashierRecoveryRequest → Action ApprovedRequest
approve_existing env admin_id existing = do
  meanwhile env
  claim_approval env admin_id existing
  approved_rest env admin_id existing.id

unfoldable pub approve_recovery_request : RequestEnv → RowId → RowId → Action ApprovedRequest
approve_recovery_request env request_id admin_id = do
  require_cashier_recovery_configured env.config
  expire_stale_requests env.stale_now none
  found ← query (find_request request_id)
  existing ← or_throw found (app (Errors.not_found recovery_request_not_found))
  approve_existing env admin_id existing

unfoldable pub claim_rejection : RequestEnv → RowId → CashierRecoveryRequest → Action (Unit {0})
claim_rejection env admin_id existing = do
  count ← update_requests (rejectable existing.id env.now) (reject_row env.now admin_id)
  classify_decision_failure env existing.id reject count

unfoldable pub reject_existing :
    RequestEnv → RowId → CashierRecoveryRequest → Action AdminRecoveryRequest
reject_existing env admin_id existing = do
  meanwhile env
  claim_rejection env admin_id existing
  decided cashier_recovery_rejected admin_id existing.id

unfoldable pub reject_recovery_request : RequestEnv → RowId → RowId → Action AdminRecoveryRequest
reject_recovery_request env request_id admin_id = do
  expire_stale_requests env.stale_now none
  found ← query (find_request request_id)
  existing ← or_throw found (app (Errors.not_found recovery_request_not_found))
  reject_existing env admin_id existing
