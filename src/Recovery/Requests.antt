-- ===== src/Recovery/Requests.antt =====
-- src/lib/cashierRecovery.ts: a cashier files a request, and the requests that lapsed expire.
pub mod Listing
pub mod Decisions
pub mod Redeem
pub mod Lifecycle
pub mod Race
pub mod Once
pub mod Reset
use mathlib.Core.Option
use text.Mathlib.Text.{◌==◌ as str_eq}
use backend_v.Prelude.{
  ℕ, ◌+◌, String, Bool, ◌&&◌, not, true, false, Option, none, some, List, [], ◌∷◌, ◌++◌, nat_beq,
  leb, find, filter, any, length, update_all, map, if◌then◌else◌,
}
use backend_v.Prelude.Text.{truncate, is_present}
use backend_v.Errors.{Failure, db, unique_violation}
use backend_v.Recovery.{
  RecoveryConfig, RecoveryContext, error_429, error_503, modify_accounts, record_account_audit,
  require_recovery_configured, find_by_email, find_user, eligible,
}
use backend_v.Store.Accounts.{
  CashierRecoveryRequest, CashierRecoveryStatus, pending, approved, expired, User, Role,
}
use backend_v.Store.Action.{
  Action, pure, query, throw, throw_if, modify, transaction, catching, ◌>>=◌, ◌>>◌,
}
use backend_v.Store.Schema.{
  RowId, Time, Db, is_set, AuditAction, cashier_recovery_requested, cashier_recovery_throttled,
}
use backend_v.Throttle.{same_text}

-- What a request takes from the server: the clock where the code reads it, the id of a new row,
-- the random bytes of a code, the hash of the new password, and what other requests commit
-- between the first reading of the row and the write that decides.
pub record RequestEnv : Type 0 where
  pub config : RecoveryConfig
  pub now : Time
  pub stale_now : Time
  pub failed_now : Time
  pub request_id : RowId
  pub random_bytes : List ℕ
  pub password_hash : String
  pub others : Db → Db

-- What other requests commit.
unfoldable pub meanwhile : RequestEnv → Action (Unit {0})
meanwhile env = modify env.others

-- `requireCashierRecoveryConfigured`
unfoldable pub require_cashier_recovery_configured : RecoveryConfig → Action (Unit {0})
require_cashier_recovery_configured config = do
  require_recovery_configured config
  throw_if (not (is_set config.central_admin_user_id)) error_503

-- `{ in: ["PENDING", "APPROVED"] }`
abbrev pub is_live : CashierRecoveryStatus → Bool
is_live pending = true
is_live approved = true
is_live s = false

abbrev pub belongs : Option RowId → CashierRecoveryRequest → Bool
belongs none r = true
belongs (some id) r = nat_beq r.user_id id

abbrev pub is_stale : Time → Option RowId → CashierRecoveryRequest → Bool
is_stale now user_id r = is_live r.status && (leb r.expires_at now && belongs user_id r)

abbrev pub lapsed : CashierRecoveryRequest → CashierRecoveryRequest
lapsed r = record r { status = expired; code_hash = none }

-- A write to the requests that a test holds of.
abbrev pub update_requests :
    (CashierRecoveryRequest → Bool) → (CashierRecoveryRequest → CashierRecoveryRequest) → Action ℕ
update_requests p f = do
  count ← query (λ d. length (filter p d.accounts.recovery_requests))
  modify_accounts (λ a. record a { recovery_requests = update_all p f a.recovery_requests })
  pure count

unfoldable pub expire_stale_requests : Time → Option RowId → Action ℕ
expire_stale_requests now user_id = update_requests (is_stale now user_id) lapsed

-- `createdAt >= now - 60 minutes`
abbrev is_recent : Time → CashierRecoveryRequest → Bool
is_recent now r = leb now (r.created_at + 3_600_000)

abbrev count_requests : (CashierRecoveryRequest → Bool) → Action ℕ
count_requests p = query (λ d. length (filter p d.accounts.recovery_requests))

abbrev reject_flood : ℕ → Action (Unit {0})
reject_flood count =
    if leb 10 count
    then (do record_account_audit cashier_recovery_throttled none none none; throw error_429)
    else pure tt

-- The requests from an address.
unfoldable pub limit_ip : Time → Option String → Action (Unit {0})
limit_ip now none = pure tt
limit_ip now (some ip) =
    if is_present (some ip)
    then (do count ← count_requests (λ r. same_text ip r.ip && is_recent now r); reject_flood count)
    else pure tt

-- A request as it is created: the deadline is 15 minutes after the creation.
abbrev pub new_request : RequestEnv → RecoveryContext → User → CashierRecoveryRequest
new_request env ctx user = record {
  id = env.request_id;
  user_id = user.id;
  status = pending;
  created_at = env.now;
  expires_at = env.now + 900_000;
  approved_at = none;
  rejected_at = none;
  decided_by_id = none;
  code_hash = none;
  failed_attempts = 0;
  consumed_at = none;
  completed_at = none;
  ip = Option.map (truncate 64) ctx.ip;
  user_agent = Option.map (truncate 255) ctx.user_agent;
}

-- A request of the user that `cashier_recovery_one_active_per_user` counts.
abbrev pub is_live_of : RowId → CashierRecoveryRequest → Bool
is_live_of user_id r = nat_beq r.user_id user_id && is_live r.status

unfoldable pub insert_request : CashierRecoveryRequest → Bool → Action (Unit {0})
insert_request r taken =
    if taken
    then throw (db unique_violation)
    else modify_accounts (λ a. record a { recovery_requests = a.recovery_requests ++ r ∷ [] })

unfoldable pub create_request : CashierRecoveryRequest → Action (Unit {0})
create_request r = do
  taken ← query (λ d. any (is_live_of r.user_id) d.accounts.recovery_requests)
  insert_request r taken

pub data Filed : Type 0 where
  created throttled duplicate : Filed

unfoldable pub file_within_limit : RequestEnv → RecoveryContext → User → ℕ → Action Filed
file_within_limit env ctx user recent =
    if leb 5 recent
    then pure throttled
    else (do create_request (new_request env ctx user); pure created)

-- The transaction.
unfoldable pub file_request : RequestEnv → RecoveryContext → User → Action Filed
file_request env ctx user = do
  expire_stale_requests env.stale_now (some user.id)
  recent ← count_requests (λ r. nat_beq r.user_id user.id && is_recent env.now r)
  file_within_limit env ctx user recent

-- `.catch`: an active request is there already.
abbrev pub catch_duplicate : Failure → Action Filed
catch_duplicate (db unique_violation) = pure duplicate
catch_duplicate e = throw e

abbrev pub audit_filed : User → Filed → Action (Unit {0})
audit_filed user created =
    record_account_audit cashier_recovery_requested (some user.id) user.shop_id (some user.id)
audit_filed user throttled =
    record_account_audit cashier_recovery_throttled (some user.id) user.shop_id (some user.id)
audit_filed user duplicate = pure tt

-- An account that is unknown, no cashier's or not active gets the same answer as any other.
unfoldable pub submit_for : RequestEnv → RecoveryContext → Option User → Action (Unit {0})
submit_for env ctx none = pure tt
submit_for env ctx (some user) = if not (eligible Role.cashier user) then pure tt else (do
  filed ← catching (transaction (file_request env ctx user)) catch_duplicate
  audit_filed user filed)

unfoldable pub submit_recovery_request : RequestEnv → String → RecoveryContext → Action (Unit {0})
submit_recovery_request env email ctx = do
  require_cashier_recovery_configured env.config
  limit_ip env.now ctx.ip
  user ← query (find_by_email email)
  submit_for env ctx user
