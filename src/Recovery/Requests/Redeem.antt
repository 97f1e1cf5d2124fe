-- ===== src/Recovery/Requests/Redeem.antt =====
-- src/lib/cashierRecovery.ts: a cashier redeems the code of an approved request.
use text.Mathlib.Text.{◌==◌ as str_eq}
use mathlib.Core.Option
use backend_v.Prelude.{
  ℕ, ◌+◌, String, Bool, ◌&&◌, not, true, false, Option, none, some, nat_beq, ltb, find, is_some,
  if◌then◌else◌,
}
use backend_v.Errors
use backend_v.Errors.{app}
use backend_v.Recovery.Crypto.{Text, Unknown, normalize_recovery_code, is_password_strong_enough}
use backend_v.Recovery.Requests.Listing.{newest_first}
use backend_v.Recovery.Requests.{
  RequestEnv, meanwhile, require_cashier_recovery_configured, update_requests,
}
use backend_v.Recovery.{
  RecoveryContext, error_400, find_by_email, eligible, enforce_throttle, record_ledger,
  attempt_context, change_password, record_account_audit,
}
use backend_v.Store.Accounts.{
  CashierRecoveryRequest, CashierRecoveryStatus, approved, completed, User, Role, Event,
  recovery_code,
}
use backend_v.Store.Action.{Action, pure, query, throw, throw_if, transaction, ◌>>=◌, ◌>>◌}
use backend_v.Store.Schema.{RowId, Time, Db, cashier_recovery_completed, cashier_recovery_failed}

pub record RedeemInput : Type 0 where
  pub email : String
  pub code : Unknown
  pub new_password : Text
  pub ctx : RecoveryContext

abbrev pub is_approved : CashierRecoveryStatus → Bool
is_approved approved = true
is_approved s = false

-- An approved request of the user whose deadline has not passed.
abbrev pub is_redeemable : RowId → Time → CashierRecoveryRequest → Bool
is_redeemable user_id now r =
    nat_beq r.user_id user_id
    && (is_approved r.status && (ltb now r.expires_at && not (is_some r.consumed_at)))

-- `findFirst`, the newest first.
unfoldable pub find_redeemable : RowId → Time → Db → Option CashierRecoveryRequest
find_redeemable user_id now d =
    find (is_redeemable user_id now) (newest_first d.accounts.recovery_requests)

-- The cashier that may recover.
unfoldable pub eligible_user : String → Db → Option User
eligible_user email d = elim (find_by_email email d) [
  | none ↦ none
  | some u ↦ if eligible Role.cashier u then some u else none
]

abbrev pub request_of : Option User → Time → Db → Option CashierRecoveryRequest
request_of none now d = none
request_of (some u) now d = find_redeemable u.id now d

abbrev pub hash_is : String → Option String → Bool
hash_is hash none = false
hash_is hash (some h) = str_eq h hash

-- The row that a code claims.
abbrev pub redeems : RowId → RowId → String → Time → CashierRecoveryRequest → Bool
redeems request_id user_id hash now r =
    nat_beq r.id request_id && (hash_is hash r.code_hash && is_redeemable user_id now r)

abbrev pub complete_row : Time → CashierRecoveryRequest → CashierRecoveryRequest
complete_row now r = record r {
  status = completed;
  consumed_at = some now;
  completed_at = some now;
  code_hash = none;
}

-- `usable`
pub record Usable : Type 0 where
  pub user : User
  pub request : CashierRecoveryRequest
  pub code : Text

abbrev pub as_usable : Option User → Option CashierRecoveryRequest → Option Text → Option Usable
as_usable (some u) (some r) (some c) = some (record { user = u; request = r; code = c })
as_usable u r c = none

abbrev pub redeems_usable : RequestEnv → Usable → CashierRecoveryRequest → Bool
redeems_usable env u =
    redeems u.request.id u.user.id
      (env.config.hash_cashier_recovery_code u.request.id u.user.id u.code) env.now

unfoldable pub redeem_counted : RequestEnv → Usable → ℕ → Action Bool
redeem_counted env u count =
    if nat_beq count 1
    then (do change_password u.user.id env.password_hash env.now; pure true)
    else pure false

-- The transaction. What is not usable writes to the request of the nil id, which is no row's.
unfoldable pub redeem : RequestEnv → Option Usable → Action Bool
redeem env none = pure false
redeem env (some u) = do
  count ← update_requests (redeems_usable env u) (complete_row env.now)
  redeem_counted env u count

abbrev pub count_failure : Option CashierRecoveryRequest → Action (Unit {0})
count_failure none = pure tt
count_failure (some r) = do
  update_requests (λ x. nat_beq x.id r.id)
      (λ x. record x { failed_attempts = x.failed_attempts + 1 })
  pure tt

abbrev pub audit_failure : Option User → Action (Unit {0})
audit_failure none = pure tt
audit_failure (some u) =
    record_account_audit cashier_recovery_failed (some u.id) u.shop_id (some u.id)

-- What follows a code that did not claim a request.
unfoldable pub redeem_failed :
    RequestEnv → RedeemInput → Option User → Option CashierRecoveryRequest → Action (Unit {0})
redeem_failed env i user request = do
  record_ledger Event.code_verification recovery_code
      (attempt_context (Option.map (λ (u : User). u.id) user)
        (some (env.config.hash_recovery_subject i.email)) i.ctx)
      env.failed_now
  count_failure request
  audit_failure user
  throw error_400

unfoldable pub finish_redeem :
    RequestEnv
    → RedeemInput
    → Option User
    → Option CashierRecoveryRequest
    → Bool
    → Action (Unit {0})
finish_redeem env i (some u) (some r) true =
    record_account_audit cashier_recovery_completed (some u.id) u.shop_id (some r.id)
finish_redeem env i user request done = redeem_failed env i user request

-- What comes before the account is looked at.
unfoldable pub check_redeem : RequestEnv → RedeemInput → Action (Unit {0})
check_redeem env i = do
  require_cashier_recovery_configured env.config
  enforce_throttle (env.config.hash_recovery_subject i.email) i.ctx recovery_code env.stale_now
  throw_if (not (is_password_strong_enough i.new_password)) (app Errors.validation)

-- What follows the first reading of the account and its request.
unfoldable pub redeem_for :
    RequestEnv → RedeemInput → Option User → Option CashierRecoveryRequest → Action (Unit {0})
redeem_for env i user request = do
  meanwhile env
  done ← transaction (redeem env (as_usable user request (normalize_recovery_code i.code)))
  finish_redeem env i user request done

abbrev pub redeem_found : RequestEnv → RedeemInput → Action (Unit {0})
redeem_found env i = do
  user ← query (eligible_user i.email)
  request ← query (request_of user env.now)
  redeem_for env i user request

unfoldable pub reset_password_with_code : RequestEnv → RedeemInput → Action (Unit {0})
reset_password_with_code env i = do check_redeem env i; redeem_found env i
