-- ===== src/Recovery/Codes.antt =====
-- src/lib/recoveryCodes.ts: an administrator's emergency recovery codes.
pub mod Laws
use mathlib.Core.Option
use text.Mathlib.Text.{◌==◌ as str_eq}
use backend_v.Prelude.{
  ℕ, ◌+◌, ◌*◌, String, Bool, ◌&&◌, not, true, false, Option, none, some, List, [], ◌∷◌, ◌++◌,
  nat_beq, ltb, leb, find, filter, any, length, map, update_all, is_some, if◌then◌else◌,
}
use backend_v.Errors
use backend_v.Errors.{Failure, app, db, unique_violation}
use backend_v.Errors.Code.{role_not_allowed, recovery_grant_invalid}
use backend_v.Recovery.Crypto.{
  Text, Unknown, some_text, not_text, normalize_recovery_code, generate_recovery_code, has_pepper,
  is_well_formed_grant_token, is_password_strong_enough,
}
use backend_v.Recovery.Requests.Decisions.{normal_code}
use backend_v.Recovery.{
  RecoveryConfig, RecoveryContext, error_400, error_503, modify_accounts, record_account_audit,
  record_recovery_audit, record_ledger, attempt_context, enforce_throttle, find_by_email, find_user,
  eligible, hash_user_agent, require_recovery_configured, change_password,
}
use backend_v.Store.Accounts.{
  AdminRecoveryCode, AdminRecoveryGrant, AdminRecoveryMethod, recovery_code, User, Role, Event,
}
use backend_v.Store.Action.{
  Action, pure, query, throw, or_throw, throw_if, modify, transaction, ◌>>=◌, ◌>>◌,
}
use backend_v.Store.Schema.{RowId, Time, Db, AuditAction, password_reset_completed}

-- What a request takes from the server: the clock, the random values, the ids of new rows, what
-- others commit before the transaction, and whether the notice is sent.
pub record AdminEnv : Type 0 where
  pub config : RecoveryConfig
  pub now : Time
  pub set_id : RowId
  pub code_ids : List RowId
  pub random_bytes : RowId → List ℕ
  pub grant_token : Text
  pub password_hash : String
  pub notice_sent : User → Bool
  pub others : Db → Db

-- The code of a row, and its row.
abbrev pub code_of : AdminEnv → RowId → Text
code_of env id = generate_recovery_code (env.random_bytes id)

abbrev pub code_row : AdminEnv → RowId → RowId → AdminRecoveryCode
code_row env user_id id = record {
  id = id;
  user_id = user_id;
  set_id = env.set_id;
  code_hash = env.config.hash_recovery_code user_id (normal_code (code_of env id));
  used_at = none;
  revoked_at = none;
}

abbrev pub of_owner : RowId → AdminRecoveryCode → Bool
of_owner user_id c = nat_beq c.user_id user_id

-- `{ userId, usedAt: null, revokedAt: null }`
abbrev pub is_usable : RowId → AdminRecoveryCode → Bool
is_usable user_id c =
    nat_beq c.user_id user_id && (not (is_some c.used_at) && not (is_some c.revoked_at))

abbrev pub revoked_code : Time → AdminRecoveryCode → AdminRecoveryCode
revoked_code now c = record c { revoked_at = some now }

abbrev pub is_eligible_admin : Option User → Bool
is_eligible_admin none = false
is_eligible_admin (some u) = eligible Role.admin u

-- A row with the owner and the hash of another: `@@unique([userId, codeHash])`.
abbrev pub same_code : AdminRecoveryCode → AdminRecoveryCode → Bool
same_code x c = nat_beq c.user_id x.user_id && str_eq c.code_hash x.code_hash

unfoldable pub has_clash : List AdminRecoveryCode → List AdminRecoveryCode → Bool
has_clash rows [] = false
has_clash rows (x ∷ xs) = if any (same_code x) rows then true else has_clash (rows ++ x ∷ []) xs

-- `createMany({ data: rows })`
unfoldable pub insert_codes : List AdminRecoveryCode → Action (Unit {0})
insert_codes rows = do
  clash ← query (λ d. has_clash d.accounts.recovery_codes rows)
  throw_if clash (db unique_violation)
  modify_accounts (λ a. record a { recovery_codes = a.recovery_codes ++ rows })

abbrev codes_event : Bool → Event
codes_event true = Event.codes_regenerated
codes_event false = Event.codes_generated

unfoldable pub revoke_codes : RowId → Time → Action (Unit {0})
revoke_codes user_id now = modify_accounts (λ a. record a {
  recovery_codes = update_all (is_usable user_id) (revoked_code now) a.recovery_codes;
})

-- The transaction after the check of the locked row.
unfoldable pub replace_codes : AdminEnv → RowId → RecoveryContext → Action Bool
replace_codes env user_id ctx = do
  had_previous ← query (λ d. any (of_owner user_id) d.accounts.recovery_codes)
  revoke_codes user_id env.now
  insert_codes (map (code_row env user_id) env.code_ids)
  record_recovery_audit (attempt_context (some user_id) none ctx) (codes_event had_previous) false
      (some recovery_code) env.now
  pure had_previous

unfoldable pub generate_body : AdminEnv → RowId → RecoveryContext → Action Bool
generate_body env user_id ctx = do
  user ← query (find_user user_id)
  throw_if (not (is_eligible_admin user)) (app (Errors.forbidden role_not_allowed))
  replace_codes env user_id ctx

pub record GeneratedRecoveryCodes : Type 0 where
  pub set_id : RowId
  pub codes : List Text
  pub regenerated : Bool

abbrev pub generated : AdminEnv → Bool → GeneratedRecoveryCodes
generated env regenerated = record {
  set_id = env.set_id;
  codes = map (code_of env) env.code_ids;
  regenerated = regenerated;
}

-- Without a pepper the code throws an error of its own, which the server answers with 500.
unfoldable pub generate_recovery_code_set :
    AdminEnv → RowId → RecoveryContext → Action GeneratedRecoveryCodes
generate_recovery_code_set env user_id ctx = do
  throw_if (not (has_pepper env.config.pepper)) (app Errors.internal)
  regenerated ← transaction (generate_body env user_id ctx)
  pure (generated env regenerated)

-- `{ userId, codeHash, usedAt: null, revokedAt: null }`
abbrev pub fits_code : RowId → String → AdminRecoveryCode → Bool
fits_code user_id hash c = str_eq c.code_hash hash && is_usable user_id c

abbrev pub used_code : Time → AdminRecoveryCode → AdminRecoveryCode
used_code now c = record c { used_at = some now }

-- The conditional write of a code that is well formed.
unfoldable pub use_code : RowId → String → Time → Action Bool
use_code user_id hash now = do
  count ← query (λ d. length (filter (fits_code user_id hash) d.accounts.recovery_codes))
  modify_accounts (λ a. record a {
    recovery_codes = update_all (fits_code user_id hash) (used_code now) a.recovery_codes;
  })
  pure (nat_beq count 1)

unfoldable pub consume_normalized : AdminEnv → RowId → Option Text → Action Bool
consume_normalized env user_id none = pure false
consume_normalized env user_id (some code) =
    use_code user_id (env.config.hash_recovery_code user_id code) env.now

unfoldable pub consume_recovery_code : AdminEnv → RowId → Unknown → Action Bool
consume_recovery_code env user_id raw = consume_normalized env user_id (normalize_recovery_code raw)

unfoldable pub count_active_recovery_codes : RowId → Action ℕ
count_active_recovery_codes user_id =
    query (λ d. length (filter (is_usable user_id) d.accounts.recovery_codes))
