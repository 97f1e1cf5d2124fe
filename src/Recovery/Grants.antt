-- ===== src/Recovery/Grants.antt =====
-- src/lib/recoveryGrant.ts: the permit to set a new password, which a verified code yields.
pub mod Laws
use mathlib.Core.Option
use text.Mathlib.Text.{◌==◌ as str_eq}
use backend_v.Prelude.{
  ℕ, ◌+◌, ◌*◌, String, Bool, ◌&&◌, not, true, false, Option, none, some, List, [], ◌∷◌, ◌++◌,
  nat_beq, ltb, leb, find, filter, any, length, map, update_all, is_some, if◌then◌else◌,
}
use backend_v.Errors
use backend_v.Errors.{Failure, app, db, unique_violation}
use backend_v.Errors.Code.{role_not_allowed, recovery_grant_invalid}
use backend_v.Recovery.Crypto.{
  Text, Unknown, some_text, not_text, normalize_recovery_code, generate_recovery_code, has_pepper,
  is_well_formed_grant_token, is_password_strong_enough,
}
use backend_v.Recovery.Requests.Decisions.{normal_code}
use backend_v.Recovery.{
  RecoveryConfig, RecoveryContext, error_400, error_503, modify_accounts, record_account_audit,
  record_recovery_audit, record_ledger, attempt_context, enforce_throttle, find_by_email, find_user,
  eligible, hash_user_agent, require_recovery_configured, change_password,
}
use backend_v.Store.Accounts.{
  AdminRecoveryCode, AdminRecoveryGrant, AdminRecoveryMethod, recovery_code, User, Role, Event,
}
use backend_v.Store.Action.{
  Action, pure, query, throw, or_throw, throw_if, modify, transaction, ◌>>=◌, ◌>>◌,
}
use backend_v.Store.Schema.{RowId, Time, Db, AuditAction, password_reset_completed}
use backend_v.Recovery.Codes.{AdminEnv}

pub record IssuedRecoveryGrant : Type 0 where
  pub token : Text
  pub expires_at : Time

abbrev pub new_grant : AdminEnv → RowId → AdminRecoveryMethod → Option String → AdminRecoveryGrant
new_grant env user_id method user_agent = record {
  user_id = user_id;
  method = method;
  token_hash = env.config.hash_grant_token env.grant_token;
  user_agent_hash = hash_user_agent env.config user_agent;
  expires_at = env.now + env.config.grant_expiry_minutes * 60_000;
  consumed_at = none;
}

abbrev pub has_token : String → AdminRecoveryGrant → Bool
has_token hash g = str_eq g.token_hash hash

abbrev pub issued : AdminEnv → IssuedRecoveryGrant
issued env = record {
  token = env.grant_token;
  expires_at = env.now + env.config.grant_expiry_minutes * 60_000;
}

unfoldable pub issue_recovery_grant :
    AdminEnv → RowId → AdminRecoveryMethod → Option String → Action IssuedRecoveryGrant
issue_recovery_grant env user_id method user_agent = do
  taken ← query (λ d.
      any (has_token (env.config.hash_grant_token env.grant_token)) d.accounts.recovery_grants)
  throw_if taken (db unique_violation)
  modify_accounts (λ a. record a {
    recovery_grants = a.recovery_grants ++ new_grant env user_id method user_agent ∷ [];
  })
  pure (issued env)

-- `{ tokenHash, userAgentHash, consumedAt: null, expiresAt: { gt: now } }`
abbrev pub fits_grant : String → String → Time → AdminRecoveryGrant → Bool
fits_grant hash agent now g =
    str_eq g.token_hash hash
    && (str_eq g.user_agent_hash agent && (not (is_some g.consumed_at) && ltb now g.expires_at))

abbrev pub consumed_grant : Time → AdminRecoveryGrant → AdminRecoveryGrant
consumed_grant now g = record g { consumed_at = some now }

unfoldable pub use_grant : String → String → Time → Action (Option AdminRecoveryGrant)
use_grant hash agent now = do
  count ← query (λ d. length (filter (fits_grant hash agent now) d.accounts.recovery_grants))
  modify_accounts (λ a. record a {
    recovery_grants = update_all (fits_grant hash agent now) (consumed_grant now) a.recovery_grants;
  })
  grant ← query (λ d. find (has_token hash) d.accounts.recovery_grants)
  pure (if nat_beq count 1 then grant else none)

unfoldable pub consume_recovery_grant :
    AdminEnv → Unknown → Option String → Action (Option AdminRecoveryGrant)
consume_recovery_grant env not_text user_agent = pure none
consume_recovery_grant env (some_text token) user_agent =
    if not (is_well_formed_grant_token (some_text token))
    then pure none
    else use_grant (env.config.hash_grant_token token) (hash_user_agent env.config user_agent)
        env.now

-- `{ userId, consumedAt: null }`
abbrev pub is_outstanding : RowId → AdminRecoveryGrant → Bool
is_outstanding user_id g = nat_beq g.user_id user_id && not (is_some g.consumed_at)

unfoldable pub invalidate_outstanding_grants : RowId → Time → Action (Unit {0})
invalidate_outstanding_grants user_id now = modify_accounts (λ a. record a {
  recovery_grants = update_all (is_outstanding user_id) (consumed_grant now) a.recovery_grants;
})
