-- ===== src/Recovery/Requests/Lifecycle/Redeeming.antt =====
-- The redemption of a code (src/lib/cashierRecovery.ts), and the table of requests.
use backend_v.Prelude.{ℕ, refl, ◌+◌, Bool, true, false, Option, none, some, String, nat_beq}
use backend_v.Recovery.Crypto.{normalize_recovery_code}
use backend_v.Recovery.Requests.Lifecycle.Writes.{
  Keeps, blocks, if-Keeps, pure-Keeps, >>=-Keeps, transaction-Keeps, update_requests-Keeps,
  complete_row-Advances,
}
use backend_v.Recovery.Requests.Lifecycle.{Advances, stay}
use backend_v.Recovery.Requests.Redeem.{
  RedeemInput, reset_password_with_code, redeem, Usable, redeem_failed, finish_redeem, check_redeem,
  redeem_for, as_usable, redeem_counted, redeems_usable, complete_row, count_failure, audit_failure,
}
use backend_v.Recovery.Requests.{RequestEnv}
use backend_v.Recovery.{RecoveryContext, enforce_throttle, reject_blocked}
use backend_v.Store.Accounts.{User, AdminRecoveryMethod, CashierRecoveryRequest}
use backend_v.Store.Schema.{Time}
use backend_v.Throttle.{ThrottleDecision}
use backend_v.Recovery.Requests.Lifecycle.Filing.{
  record_account_audit-Keeps, record_ledger-Keeps, change_password-Keeps, configured-Keeps,
}
use backend_v.Recovery.Requests.Lifecycle.Deciding.{OthersKeep}

pub redeem_counted-Keeps :
    (env : RequestEnv) (u : Usable) (count : ℕ) → Keeps (redeem_counted env u count)
unfolding redeem_counted
redeem_counted-Keeps env u count =
    if-Keeps (nat_beq count 1) _ _
      (>>=-Keeps (change_password-Keeps u.user.id env.password_hash env.now) (λ _. pure-Keeps true))
      (pure-Keeps false)

pub redeem-Keeps : (env : RequestEnv) (u : Option Usable) → Keeps (redeem env u)
unfolding redeem
redeem-Keeps env none = pure-Keeps _
redeem-Keeps env (some u) =
    >>=-Keeps
      (update_requests-Keeps (redeems_usable env u) (complete_row env.now)
        (complete_row-Advances env u))
      (redeem_counted-Keeps env u)

pub failed_attempt-Advances :
    (r : CashierRecoveryRequest) → Advances r (record r { failed_attempts = r.failed_attempts + 1 })
failed_attempt-Advances r = record {
  id = refl;
  user_id = refl;
  created_at = refl;
  expires_at = refl;
  steps = stay;
  checked = λ h. h;
}

pub count_failure-Keeps : (r : Option CashierRecoveryRequest) → Keeps (count_failure r)
count_failure-Keeps none = pure-Keeps _
count_failure-Keeps (some r) =
    >>=-Keeps (update_requests-Keeps (λ x. nat_beq x.id r.id) _ (λ x _. failed_attempt-Advances x))
      (λ _. pure-Keeps tt)

pub audit_failure-Keeps : (u : Option User) → Keeps (audit_failure u)
audit_failure-Keeps none = pure-Keeps _
audit_failure-Keeps (some u) = record_account_audit-Keeps _ _ _ _

pub redeem_failed-Keeps :
    (env : RequestEnv) (i : RedeemInput) (u : Option User) (r : Option CashierRecoveryRequest)
    → Keeps (redeem_failed env i u r)
unfolding redeem_failed
redeem_failed-Keeps env i u r =
    search (blocks, record_ledger-Keeps, count_failure-Keeps, audit_failure-Keeps) depth 12

pub finish_redeem-Keeps :
    (env : RequestEnv) (i : RedeemInput) (u : Option User) (r : Option CashierRecoveryRequest)
    (done : Bool)
    → Keeps (finish_redeem env i u r done)
unfolding finish_redeem
finish_redeem-Keeps env i none r done = redeem_failed-Keeps env i none r
finish_redeem-Keeps env i (some u) none done = redeem_failed-Keeps env i (some u) none
finish_redeem-Keeps env i (some u) (some r) true = record_account_audit-Keeps _ _ _ _
finish_redeem-Keeps env i (some u) (some r) false = redeem_failed-Keeps env i (some u) (some r)

pub reject_blocked-Keeps :
    (hash : String) (ctx : RecoveryContext) (method : AdminRecoveryMethod) (now : Time)
    (decision : ThrottleDecision)
    → Keeps (reject_blocked hash ctx method now decision)
unfolding reject_blocked
reject_blocked-Keeps hash ctx method now decision = search (blocks, record_ledger-Keeps) depth 12

pub check_redeem-Keeps : (env : RequestEnv) (i : RedeemInput) → Keeps (check_redeem env i)
unfolding check_redeem enforce_throttle
check_redeem-Keeps env i = search (blocks, configured-Keeps, reject_blocked-Keeps) depth 12

pub redeem_for-Keeps :
    (env : RequestEnv) (i : RedeemInput) (u : Option User) (r : Option CashierRecoveryRequest)
    → OthersKeep env
    → Keeps (redeem_for env i u r)
unfolding redeem_for
redeem_for-Keeps env i u r others = >>=-Keeps others (λ _.
    >>=-Keeps
      (transaction-Keeps (redeem-Keeps env (as_usable u r (normalize_recovery_code i.code))))
      (finish_redeem-Keeps env i u r))

pub reset-Keeps :
    (env : RequestEnv) (i : RedeemInput) → OthersKeep env → Keeps (reset_password_with_code env i)
unfolding reset_password_with_code
reset-Keeps env i others = search (blocks, check_redeem-Keeps, redeem_for-Keeps) depth 20
