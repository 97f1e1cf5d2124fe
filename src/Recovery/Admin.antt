-- ===== src/Recovery/Admin.antt =====
-- src/lib/adminRecovery.ts: an administrator proves a recovery code, and resets the password.
pub mod Recovered
pub mod Reset
use mathlib.Core.Option
use text.Mathlib.Text.{◌==◌ as str_eq}
use backend_v.Prelude.{
  ℕ, ◌+◌, ◌*◌, String, Bool, ◌&&◌, not, true, false, Option, none, some, List, [], ◌∷◌, ◌++◌,
  nat_beq, ltb, leb, find, filter, any, length, map, update_all, is_some, if◌then◌else◌,
}
use backend_v.Errors
use backend_v.Errors.{Failure, app, db, unique_violation}
use backend_v.Errors.Code.{role_not_allowed, recovery_grant_invalid}
use backend_v.Recovery.Crypto.{
  Text, Unknown, some_text, not_text, normalize_recovery_code, generate_recovery_code, has_pepper,
  is_well_formed_grant_token, is_password_strong_enough,
}
use backend_v.Recovery.Requests.Decisions.{normal_code}
use backend_v.Recovery.{
  RecoveryConfig, RecoveryContext, error_400, error_503, modify_accounts, record_account_audit,
  record_recovery_audit, record_ledger, attempt_context, enforce_throttle, find_by_email, find_user,
  eligible, hash_user_agent, require_recovery_configured, change_password,
}
use backend_v.Store.Accounts.{
  AdminRecoveryCode, AdminRecoveryGrant, AdminRecoveryMethod, recovery_code, User, Role, Event,
}
use backend_v.Store.Action.{
  catching, Action, pure, query, throw, or_throw, throw_if, modify, transaction, ◌>>=◌, ◌>>◌,
}
use backend_v.Store.Schema.{RowId, Time, Db, AuditAction, password_reset_completed}
use backend_v.Recovery.Codes.{
  code_of, code_row, of_owner, is_usable, revoked_code, is_eligible_admin, same_code, has_clash,
  insert_codes, revoke_codes, replace_codes, generate_body, generated, generate_recovery_code_set,
  fits_code, used_code, use_code, consume_normalized, consume_recovery_code,
  count_active_recovery_codes, AdminEnv,
}
use backend_v.Recovery.Grants.{
  new_grant, has_token, issued, issue_recovery_grant, fits_grant, consumed_grant, use_grant,
  consume_recovery_grant, is_outstanding, invalidate_outstanding_grants, IssuedRecoveryGrant,
}

unfoldable pub find_eligible_admin : String → Db → Option User
find_eligible_admin email d = elim (find_by_email email d) [
  | none ↦ none
  | some u ↦ if eligible Role.admin u then some u else none
]

unfoldable pub grant_verified :
    AdminEnv → String → RecoveryContext → User → Bool → Action (Option IssuedRecoveryGrant)
grant_verified env subject_hash ctx admin consumed = if not consumed then pure none else (do
  grant ← issue_recovery_grant env admin.id recovery_code ctx.user_agent
  record_recovery_audit (attempt_context (some admin.id) (some subject_hash) ctx)
      Event.code_verification false (some recovery_code) env.now
  record_recovery_audit (attempt_context (some admin.id) none ctx) Event.grant_issued false
      (some recovery_code) env.now
  pure (some grant))

-- The transaction. The nil id owns no code.
unfoldable pub verify_body :
    AdminEnv
    → String
    → RecoveryContext
    → Unknown
    → Option User
    → Action (Option IssuedRecoveryGrant)
verify_body env subject_hash ctx code none = pure none
verify_body env subject_hash ctx code (some admin) = do
  consumed ← consume_recovery_code env admin.id code
  grant_verified env subject_hash ctx admin consumed

unfoldable pub answer_verified :
    AdminEnv
    → String
    → RecoveryContext
    → Option User
    → Option IssuedRecoveryGrant
    → Action IssuedRecoveryGrant
answer_verified env subject_hash ctx admin (some grant) = pure grant
answer_verified env subject_hash ctx admin none = do
  record_ledger Event.code_verification recovery_code
      (attempt_context (Option.map (λ (u : User). u.id) admin) (some subject_hash) ctx) env.now
  throw error_400

unfoldable pub verify_recovery_code :
    AdminEnv → String → Unknown → RecoveryContext → Action IssuedRecoveryGrant
verify_recovery_code env email code ctx = do
  let subject_hash : String = env.config.hash_recovery_subject email
  require_recovery_configured env.config
  enforce_throttle subject_hash ctx recovery_code env.now
  admin ← query (find_eligible_admin email)
  modify env.others
  grant ← transaction (verify_body env subject_hash ctx code admin)
  answer_verified env subject_hash ctx admin grant

pub record ResetInput : Type 0 where
  pub grant_token : Unknown
  pub new_password : Text
  pub ctx : RecoveryContext

abbrev pub invalid_grant : Failure
invalid_grant = app (Errors.bad_request recovery_grant_invalid)

abbrev is_live_grant : Time → Option AdminRecoveryGrant → Bool
is_live_grant now none = false
is_live_grant now (some g) = not (is_some g.consumed_at) && ltb now g.expires_at

abbrev grant_of : AdminEnv → Unknown → Db → Option AdminRecoveryGrant
grant_of env not_text d = none
grant_of env (some_text token) d =
    find (has_token (env.config.hash_grant_token token)) d.accounts.recovery_grants

-- The checks before the password is hashed.
unfoldable pub check_reset : AdminEnv → ResetInput → Action (Unit {0})
check_reset env i = do
  throw_if (not (is_well_formed_grant_token i.grant_token)) invalid_grant
  throw_if (not (is_password_strong_enough i.new_password)) (app Errors.validation)
  known ← query (grant_of env i.grant_token)
  throw_if (not (is_live_grant env.now known)) invalid_grant

abbrev base_context : ResetInput → AdminRecoveryGrant → RowId → Time → Event → Action (Unit {0})
base_context i g user_id now event =
    record_recovery_audit (attempt_context (some user_id) none i.ctx) event false (some g.method)
      now

unfoldable pub reset_allowed : AdminEnv → ResetInput → AdminRecoveryGrant → User → Action User
reset_allowed env i g user = do
  change_password user.id env.password_hash env.now
  invalidate_outstanding_grants user.id env.now
  base_context i g user.id env.now Event.grant_consumed
  base_context i g user.id env.now Event.password_recovered
  pure user

-- The transaction after the grant was consumed and the owner's row locked.
unfoldable pub reset_owner : AdminEnv → ResetInput → AdminRecoveryGrant → User → Action User
reset_owner env i g user = do
  throw_if (not (eligible Role.admin user)) invalid_grant
  reset_allowed env i g user

unfoldable pub reset_consumed : AdminEnv → ResetInput → AdminRecoveryGrant → Action User
reset_consumed env i g = do
  locked ← query (find_user g.user_id)
  user ← or_throw locked invalid_grant
  reset_owner env i g user

unfoldable pub reset_body : AdminEnv → ResetInput → Action User
reset_body env i = do
  grant ← consume_recovery_grant env i.grant_token i.ctx.user_agent
  g ← or_throw grant invalid_grant
  reset_consumed env i g

pub record ResetAnswer : Type 0 where
  pub user_id : RowId
  pub notified : Bool

abbrev pub notified : AdminEnv → Option User → Bool
notified env none = false
notified env (some u) = env.notice_sent u

abbrev pub reset_answer : RowId → Bool → ResetAnswer
reset_answer user_id sent = record { user_id = user_id; notified = sent }

-- `recordAudit(…).catch(() => undefined)`
unfoldable pub audit_reset : User → Action (Unit {0})
audit_reset user =
    catching
      (record_account_audit password_reset_completed (some user.id) user.shop_id (some user.id))
      (λ e. pure tt)

unfoldable pub reset_password_with_grant : AdminEnv → ResetInput → Action ResetAnswer
reset_password_with_grant env i = do
  check_reset env i
  modify env.others
  user ← transaction (reset_body env i)
  audit_reset user
  fresh ← query (find_user user.id)
  pure (reset_answer user.id (notified env fresh))
