-- ===== src/Recovery.antt =====
-- Recovery of accounts: src/lib/recoveryAudit.ts, the checks that the flows of src/lib/adminRecovery.ts
-- and src/lib/cashierRecovery.ts share, and what they take from the server.
pub mod Crypto
pub mod Frame
pub mod Codes
pub mod Grants
pub mod Admin
pub mod Requests
use text.Mathlib.Text.{◌==◌ as str_eq}
use mathlib.Core.Option
use backend_v.Prelude.{
  ℕ, String, Bool, ◌&&◌, not, true, false, Option, none, some, List, [], ◌∷◌, ◌++◌, nat_beq, find,
  get_or, is_some, update, update_all, if◌then◌else◌,
}
use backend_v.Prelude.Text.{truncate}
use backend_v.Audit.{insert_log}
use backend_v.Errors
use backend_v.Errors.{AppError, Failure, app}
use backend_v.Errors.Code.{
  recovery_not_configured, recovery_throttled, recovery_verification_failed,
}
use backend_v.Recovery.Crypto.{Text, Unknown, has_pepper}
use backend_v.Store.Accounts.{
  Accounts, User, Role, AccountStatus, Attempt, Event, AdminRecoveryMethod, LoginSession,
}
use backend_v.Store.Action.{Action, pure, query, throw, throw_if, modify, ◌>>=◌, ◌>>◌}
use backend_v.Store.Schema.{RowId, Time, Db, AuditAction}
use backend_v.Throttle.{
  AttemptContext, ThrottleDecision, check_recovery_throttle, record_attempt, recovery_row,
}

-- The environment of src/config/env.ts, and the hashes of node:crypto, keyed by the pepper.
pub record RecoveryConfig : Type 0 where
  pub pepper : Option String
  pub central_admin_user_id : Option RowId
  pub grant_expiry_minutes : ℕ
  pub hash_cashier_recovery_code : RowId → RowId → Text → String
  pub hash_recovery_code : RowId → Text → String
  pub hash_recovery_subject : String → String
  pub hash_grant_token : Text → String
  pub sha256 : String → String

pub record RecoveryContext : Type 0 where
  pub ip : Option String
  pub user_agent : Option String

-- `verificationFailed`
abbrev pub error_400 : Failure
error_400 = app (Errors.bad_request recovery_verification_failed)

abbrev pub error_429 : Failure
error_429 = app (record { status_code = 429; code = recovery_throttled })

abbrev pub error_503 : Failure
error_503 = app (record { status_code = 503; code = recovery_not_configured })

abbrev pub modify_accounts : (Accounts → Accounts) → Action (Unit {0})
modify_accounts f = modify (λ d. record d { accounts = f d.accounts })

-- `recordAudit` of src/lib/audit.ts, where the actor, the shop or the row may be absent.
unfoldable pub record_account_audit :
    AuditAction → Option RowId → Option RowId → Option RowId → Action (Unit {0})
record_account_audit action actor_id shop_id entity_id =
    insert_log
      (record { action = action; actor_id = actor_id; shop_id = shop_id; entity_id = entity_id })

-- `recordRecoveryAudit`, at a time.
unfoldable pub record_recovery_audit :
    AttemptContext → Event → Bool → Option AdminRecoveryMethod → Time → Action (Unit {0})
record_recovery_audit ctx event is_failure method now = modify_accounts (λ a. record a {
  recovery_audit = a.recovery_audit ++ recovery_row ctx event is_failure method now ∷ [];
})

-- The failed or throttled attempt that the throttle's ledger gets.
unfoldable pub record_ledger :
    Event → AdminRecoveryMethod → AttemptContext → Time → Action (Unit {0})
record_ledger event method ctx now =
    modify_accounts (λ a. record a {
      recovery_audit = record_attempt event (some method) ctx now a.recovery_audit;
    })

abbrev pub attempt_context : Option RowId → Option String → RecoveryContext → AttemptContext
attempt_context user_id subject_hash ctx = record {
  user_id = user_id;
  subject_hash = subject_hash;
  ip = ctx.ip;
  user_agent = ctx.user_agent;
}

-- What a decision of the throttle leads to.
unfoldable pub reject_blocked :
    String → RecoveryContext → AdminRecoveryMethod → Time → ThrottleDecision → Action (Unit {0})
reject_blocked subject_hash ctx method now decision =
    if decision.blocked
    then (do
      record_ledger Event.attempt_throttled method (attempt_context none (some subject_hash) ctx)
          now
      throw error_429)
    else pure tt

-- `enforceThrottle`
unfoldable pub enforce_throttle :
    String → RecoveryContext → AdminRecoveryMethod → Time → Action (Unit {0})
enforce_throttle subject_hash ctx method now = do
  decision ←
      query (λ d. check_recovery_throttle d.accounts.recovery_audit (some subject_hash) ctx.ip now)
  reject_blocked subject_hash ctx method now decision

-- `requireRecoveryConfigured`
unfoldable pub require_recovery_configured : RecoveryConfig → Action (Unit {0})
require_recovery_configured config = throw_if (not (has_pepper config.pepper)) error_503

-- `user.findUnique({ where: { email } })`
unfoldable pub find_by_email : String → Db → Option User
find_by_email email d = find (λ u. str_eq u.email email) d.accounts.users

unfoldable pub find_user : RowId → Db → Option User
find_user id d = find (λ u. nat_beq u.id id) d.accounts.users

abbrev pub role_beq : Role → Role → Bool
role_beq Role.admin Role.admin = true
role_beq Role.cashier Role.cashier = true
role_beq a b = false

abbrev pub is_active : AccountStatus → Bool
is_active AccountStatus.active = true
is_active s = false

-- An active account of a role.
abbrev pub eligible : Role → User → Bool
eligible role u = role_beq u.role role && is_active u.status

-- `hashUserAgent`
unfoldable pub hash_user_agent : RecoveryConfig → Option String → String
hash_user_agent config user_agent = config.sha256 (truncate 512 (get_or user_agent ""))

abbrev pub of_user : RowId → User → Bool
of_user id u = nat_beq u.id id

abbrev pub is_open_session : RowId → LoginSession → Bool
is_open_session id s = nat_beq s.user_id id && not (is_some s.revoked_at)

abbrev pub with_password : String → User → User
with_password hash u = record u { password_hash = hash }

abbrev pub revoked_session : Time → LoginSession → LoginSession
revoked_session now s = record s { revoked_at = some now }

-- The new password of an account, and the end of its sessions.
abbrev pub with_new_password : RowId → String → Time → Accounts → Accounts
with_new_password id password_hash now a = record a {
  users = update (of_user id) (with_password password_hash) a.users;
  login_sessions = update_all (is_open_session id) (revoked_session now) a.login_sessions;
}

-- `user.update({ where: { id }, data: { passwordHash } })`, and `session.updateMany` on the
-- sessions that are not revoked.
unfoldable pub change_password : RowId → String → Time → Action (Unit {0})
change_password id password_hash now = modify_accounts (with_new_password id password_hash now)
