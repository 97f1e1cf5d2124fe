-- ===== src/Store/Accounts.antt =====
-- The tables of prisma/schema.prisma for accounts, their login sessions and their recovery.
use backend_v.Prelude.{ℕ, String, Bool, Option, List}
use backend_v.Store.Keys.{RowId, Time}

pub data Role : Type 0 where
  admin cashier : Role

pub data AccountStatus : Type 0 where
  pending_admin_approval active rejected suspended : AccountStatus

pub record User : Type 0 where
  pub id : RowId
  pub name : String
  pub email : String
  pub phone : Option String
  pub password_hash : String
  pub role : Role
  pub status : AccountStatus
  pub shop_id : Option RowId
  pub branch_name : Option String

-- A row of `sessions`: a login, not a cashier's session at the till.
pub record LoginSession : Type 0 where
  pub id : RowId
  pub user_id : RowId
  pub expires_at : Time
  pub revoked_at : Option Time

pub data CashierRecoveryStatus : Type 0 where
  pending approved rejected expired completed : CashierRecoveryStatus

pub record CashierRecoveryRequest : Type 0 where
  pub id : RowId
  pub user_id : RowId
  pub status : CashierRecoveryStatus
  pub created_at : Time
  pub expires_at : Time
  pub approved_at : Option Time
  pub rejected_at : Option Time
  pub decided_by_id : Option RowId
  pub code_hash : Option String
  pub failed_attempts : ℕ
  pub consumed_at : Option Time
  pub completed_at : Option Time
  pub ip : Option String
  pub user_agent : Option String

pub data AdminRecoveryMethod : Type 0 where
  recovery_code passkey : AdminRecoveryMethod

pub record AdminRecoveryCode : Type 0 where
  pub id : RowId
  pub user_id : RowId
  pub set_id : RowId
  pub code_hash : String
  pub used_at : Option Time
  pub revoked_at : Option Time

pub record AdminRecoveryGrant : Type 0 where
  pub user_id : RowId
  pub method : AdminRecoveryMethod
  pub token_hash : String
  pub user_agent_hash : String
  pub expires_at : Time
  pub consumed_at : Option Time

pub data Event : Type 0 where
  codes_generated codes_regenerated code_verification grant_issued grant_consumed : Event
  attempt_throttled reauth_failed passkey_registered passkey_registration_failed : Event
  passkey_removed passkey_verification password_recovered manual_ownership_recovery : Event

-- A row of the audit of recoveries, which is also the ledger that the throttle reads.
pub record Attempt : Type 0 where
  pub user_id : Option RowId
  pub event : Event
  pub is_failure : Bool
  pub method : Option AdminRecoveryMethod
  pub subject_hash : Option String
  pub ip : Option String
  pub user_agent : Option String
  pub created_at : Time

pub record Accounts : Type 0 where
  pub users : List User
  pub login_sessions : List LoginSession
  pub recovery_requests : List CashierRecoveryRequest
  pub recovery_codes : List AdminRecoveryCode
  pub recovery_grants : List AdminRecoveryGrant
  pub recovery_audit : List Attempt
