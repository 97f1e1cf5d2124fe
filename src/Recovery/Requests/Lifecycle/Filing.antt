-- ===== src/Recovery/Requests/Lifecycle/Filing.antt =====
-- Filing and listing of requests (src/lib/cashierRecovery.ts), and the table of requests.
use mathlib.Core.Path.{subst}
use backend_v.Audit.{insert_log-accounts}
use backend_v.Prelude.{ℕ, sym, refl, Option, none, some, String, not, leb}
use backend_v.Errors.{
  Failure, app, db, unique_violation, foreign_key_violation, record_not_found, log_rejected,
}
use backend_v.Recovery.Requests.Lifecycle.Writes.{
  Keeps, requests, blocks, if-Keeps, pure-Keeps, throw-Keeps, >>=-Keeps, transaction-Keeps,
  catching-Keeps, update_requests-Keeps, create_request-Keeps, lapsed-Advances,
}
use backend_v.Recovery.Requests.Lifecycle.{Evolves, Evolves-refl, IsFiled, stay}
use backend_v.Recovery.Requests.Listing.{RequestFilter, list_recovery_requests}
use backend_v.Recovery.Requests.{
  RequestEnv, submit_recovery_request, Filed, expire_stale_requests,
  require_cashier_recovery_configured, limit_ip, file_request, submit_for, new_request,
  file_within_limit, created, throttled, duplicate, audit_filed, catch_duplicate,
}
use backend_v.Recovery.{
  RecoveryConfig, RecoveryContext, record_account_audit, record_ledger, change_password,
  require_recovery_configured, eligible,
}
use backend_v.Store.Accounts.{User, Role, Event, AdminRecoveryMethod}
use backend_v.Store.Schema.{RowId, Time, AuditAction}
use backend_v.Throttle.{AttemptContext}

pub expire_stale_requests-Keeps :
    (now : Time) (user_id : Option RowId) → Keeps (expire_stale_requests now user_id)
unfolding expire_stale_requests
expire_stale_requests-Keeps now user_id = update_requests-Keeps _ _ (lapsed-Advances now user_id)

pub record_account_audit-Keeps :
    (action : AuditAction) (actor_id shop_id entity_id : Option RowId)
    → Keeps (record_account_audit action actor_id shop_id entity_id)
unfolding record_account_audit
record_account_audit-Keeps action actor_id shop_id entity_id = record {
  evolves = λ d.
      subst (λ a. Evolves (requests d) a.recovery_requests) (sym (insert_log-accounts _ d))
        (Evolves-refl (requests d));
}

pub record_ledger-Keeps :
    (event : Event) (method : AdminRecoveryMethod) (ctx : AttemptContext) (now : Time)
    → Keeps (record_ledger event method ctx now)
unfolding record_ledger
record_ledger-Keeps event method ctx now = record { evolves = λ d. Evolves-refl (requests d) }

pub change_password-Keeps :
    (id : RowId) (hash : String) (now : Time) → Keeps (change_password id hash now)
unfolding change_password
change_password-Keeps id hash now = record { evolves = λ d. Evolves-refl (requests d) }

pub configured-Keeps :
    (config : RecoveryConfig) → Keeps (require_cashier_recovery_configured config)
unfolding require_cashier_recovery_configured require_recovery_configured
configured-Keeps config = search blocks depth 8

pub limit_ip-Keeps : (now : Time) (ip : Option String) → Keeps (limit_ip now ip)
unfolding limit_ip
limit_ip-Keeps now none = search blocks
limit_ip-Keeps now (some ip) = search (blocks, record_account_audit-Keeps) depth 12

pub new_request-IsFiled :
    (env : RequestEnv) (ctx : RecoveryContext) (user : User) → IsFiled (new_request env ctx user)
new_request-IsFiled env ctx user = record { steps = stay; deadline = refl; checked = refl }

pub file_within_limit-Keeps :
    (env : RequestEnv) (ctx : RecoveryContext) (user : User) (recent : ℕ)
    → Keeps (file_within_limit env ctx user recent)
unfolding file_within_limit
file_within_limit-Keeps env ctx user recent =
    let filed =
      create_request-Keeps (new_request env ctx user) (new_request-IsFiled env ctx user) in
    if-Keeps (leb 5 recent) _ _ (pure-Keeps throttled) (>>=-Keeps filed (λ _. pure-Keeps created))

pub file_request-Keeps :
    (env : RequestEnv) (ctx : RecoveryContext) (user : User) → Keeps (file_request env ctx user)
unfolding file_request
file_request-Keeps env ctx user =
    search (blocks, expire_stale_requests-Keeps, file_within_limit-Keeps) depth 12

pub catch_duplicate-Keeps : (e : Failure) → Keeps (catch_duplicate e)
catch_duplicate-Keeps (app e) = throw-Keeps _
catch_duplicate-Keeps (db unique_violation) = pure-Keeps _
catch_duplicate-Keeps (db foreign_key_violation) = throw-Keeps _
catch_duplicate-Keeps (db record_not_found) = throw-Keeps _
catch_duplicate-Keeps (db log_rejected) = throw-Keeps _

pub audit_filed-Keeps : (user : User) (filed : Filed) → Keeps (audit_filed user filed)
audit_filed-Keeps user created = record_account_audit-Keeps _ _ _ _
audit_filed-Keeps user throttled = record_account_audit-Keeps _ _ _ _
audit_filed-Keeps user duplicate = pure-Keeps _

pub submit_for-Keeps :
    (env : RequestEnv) (ctx : RecoveryContext) (user : Option User)
    → Keeps (submit_for env ctx user)
unfolding submit_for
submit_for-Keeps env ctx none = pure-Keeps _
submit_for-Keeps env ctx (some user) =
    let filed =
      catching-Keeps (transaction-Keeps (file_request-Keeps env ctx user)) catch_duplicate-Keeps in
    if-Keeps (not (eligible Role.cashier user)) _ _ (pure-Keeps tt)
      (>>=-Keeps filed (audit_filed-Keeps user))

pub submit-Keeps :
    (env : RequestEnv) (email : String) (ctx : RecoveryContext)
    → Keeps (submit_recovery_request env email ctx)
unfolding submit_recovery_request
submit-Keeps env email ctx =
    search (blocks, configured-Keeps, limit_ip-Keeps, submit_for-Keeps) depth 12

pub list-Keeps :
    (env : RequestEnv) (chosen : RequestFilter) → Keeps (list_recovery_requests env chosen)
unfolding list_recovery_requests
list-Keeps env chosen = search (blocks, expire_stale_requests-Keeps) depth 8
