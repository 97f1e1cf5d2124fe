-- ===== src/Tests/Recovering.antt =====
-- The theorems of src/lib/cashierRecovery.ts, on a cashier who forgot the password.
use mathlib.Core.List.{Memᴰ}
use backend_v.Store.Accounts.{Role, AccountStatus, User, CashierRecoveryRequest, approved}
use backend_v.Recovery.Crypto.{
  Text, some_text, crockford, emit, encode_crockford, groups_of_four, join_dashes,
  generate_recovery_code, normalize_recovery_code, has_pepper, is_password_strong_enough,
}
use backend_v.Recovery.Requests.Reset.{IsRedeemed, reset_password_with_code-eq-ok}
use backend_v.Audit.{insert_log}
use backend_v.Prelude.{
  ℕ, ◌≡◌, refl, arith, true, false, Option, none, some, List, [], ◌∷◌, any, update,
}
use backend_v.Errors.{Failure, ok, err}
use backend_v.Recovery.Requests.Decisions.{
  ApprovedRequest, approved_answer, classify_decision_failure, decided, approve_pending,
  claim_approval, approve_existing,
}
use backend_v.Recovery.Requests.Lifecycle.Deciding.{OthersKeep}
use backend_v.Recovery.Requests.Lifecycle.Runs.{reset, run, run-Evolves}
use backend_v.Recovery.Requests.Lifecycle.Writes.{requests}
use backend_v.Recovery.Requests.Lifecycle.{Evolves, Evolves-refl}
use backend_v.Recovery.Requests.Once.{refusal, redeem_for_once}
use backend_v.Recovery.Requests.Race.{approve_existing_race, HasOneRow}
use backend_v.Recovery.Requests.Redeem.{
  RedeemInput, request_of, find_redeemable, eligible_user, redeem_counted, redeem, finish_redeem,
  check_redeem, redeem_for, reset_password_with_code,
}
use backend_v.Recovery.Requests.Listing.{
  AdminRecoveryRequest, to_admin_recovery_request, find_request, newest_first,
}
use backend_v.Recovery.Requests.{
  RequestEnv, new_request, meanwhile, require_cashier_recovery_configured, expire_stale_requests,
  limit_ip, insert_request, create_request, file_within_limit, file_request, submit_for,
  submit_recovery_request,
}
use backend_v.Recovery.{
  RecoveryConfig, RecoveryContext, is_open_session, with_password, of_user, record_account_audit,
  reject_blocked, enforce_throttle, require_recovery_configured, find_by_email, find_user,
  change_password,
}
use backend_v.Store.Schema.{Db}
use backend_v.Tests.{shop_db, meena}
use backend_v.Prelude.Text.{codes}
use backend_v.Store.Action.{catching, transaction}
use backend_v.Throttle.{
  account_throttle_decision, ip_throttle_decision, combine_throttle_decisions, latest,
  check_account, check_ip, check_recovery_throttle,
}

-- Hashes that tell apart no codes: a stand-in for those of the server.
abbrev pub config : RecoveryConfig
config = record {
  pepper = some "a pepper of at least 32 characters";
  central_admin_user_id = some 9;
  grant_expiry_minutes = 10;
  hash_cashier_recovery_code = λ r u c. "cashier code";
  hash_recovery_code = λ u c. "admin code";
  hash_recovery_subject = λ email. email;
  hash_grant_token = λ t. "token";
  sha256 = λ s. s;
}

abbrev pub bytes : List ℕ
bytes =
    1 ∷ 2 ∷ 3 ∷ 4 ∷ 5 ∷ 6 ∷ 7 ∷ 8 ∷ 9 ∷ 10 ∷ 11 ∷ 12 ∷ 13 ∷ 14 ∷ 15 ∷ 16 ∷ 17 ∷ 18 ∷ 19 ∷ 255 ∷ []

abbrev pub browser : RecoveryContext
browser = record { ip = some "10.0.0.1"; user_agent = some "browser" }

abbrev request_env : RequestEnv
request_env = record {
  config = config;
  now = 1_000;
  stale_now = 1_000;
  failed_now = 1_000;
  request_id = 80;
  random_bytes = bytes;
  password_hash = "new";
  others = λ d. d;
}

abbrev filed_db : Db
filed_db = (submit_recovery_request request_env "meena@eggs.in" browser shop_db).1

abbrev filed : CashierRecoveryRequest
filed = new_request request_env browser meena

abbrev approved_db : Db
approved_db = (approve_existing request_env 9 filed filed_db).1

abbrev view : AdminRecoveryRequest
view = record {
  id = 80;
  status = approved;
  cashier_id = 20;
  name = "Meena";
  email = "meena@eggs.in";
  phone = none;
  branch_name = none;
  shop_id = some 1;
  created_at = 1_000;
  expires_at = 901_000;
  approved_at = some 1_000;
  rejected_at = none;
  completed_at = none;
  decided_by = some (9, "Ravi");
}

abbrev answer : ApprovedRequest
answer = approved_answer (generate_recovery_code bytes) view

approval_done : approve_existing request_env 9 filed filed_db ≡ (ok answer, approved_db)
unfolding insert_log codes record_account_audit require_recovery_configured find_by_email find_user
    has_pepper meanwhile require_cashier_recovery_configured expire_stale_requests limit_ip
    insert_request create_request file_within_limit file_request submit_for submit_recovery_request
    to_admin_recovery_request find_request classify_decision_failure decided approve_pending
    claim_approval approve_existing catching transaction
approval_done = refl

one_row : HasOneRow 80 filed_db
unfolding insert_log codes record_account_audit require_recovery_configured find_by_email has_pepper
    require_cashier_recovery_configured expire_stale_requests limit_ip insert_request create_request
    file_within_limit file_request submit_for submit_recovery_request catching transaction
one_row = omega arith

abbrev late_env : RequestEnv
late_env = record request_env { others = λ d. approved_db }

approve_existing_race_example :
    (e : Failure) × (approve_existing late_env 9 filed filed_db ≡ (err e, approved_db))
approve_existing_race_example =
    approve_existing_race request_env late_env 9 9 filed filed filed_db filed_db answer approved_db
      refl one_row approval_done refl

abbrev pub redemption : RedeemInput
redemption = record {
  email = "meena@eggs.in";
  code = some_text (generate_recovery_code bytes);
  new_password = 115 ∷ 101 ∷ 99 ∷ 114 ∷ 101 ∷ 116 ∷ 49 ∷ 50 ∷ [];
  ctx = browser;
}

abbrev reset_db : Db
reset_db = (reset_password_with_code request_env redemption approved_db).1

reset_done : reset_password_with_code request_env redemption approved_db ≡ (ok tt, reset_db)
unfolding insert_log codes record_account_audit reject_blocked enforce_throttle
    require_recovery_configured find_by_email find_user change_password crockford emit
    encode_crockford groups_of_four join_dashes generate_recovery_code normalize_recovery_code
    has_pepper is_password_strong_enough meanwhile require_cashier_recovery_configured
    expire_stale_requests limit_ip insert_request create_request file_within_limit file_request
    submit_for submit_recovery_request find_request newest_first classify_decision_failure decided
    approve_pending claim_approval approve_existing find_redeemable eligible_user redeem_counted
    redeem finish_redeem check_redeem redeem_for reset_password_with_code catching transaction
    account_throttle_decision ip_throttle_decision combine_throttle_decisions latest check_account
    check_ip check_recovery_throttle
reset_done = refl

reset_password_with_code-eq-ok_example :
    (is_password_strong_enough redemption.new_password ≡ true)
    × (user : User) × (find_by_email "meena@eggs.in" approved_db ≡ some user)
    × (user.role ≡ Role.cashier)
    × (user.status ≡ AccountStatus.active)
    × (code : Text) × (normalize_recovery_code redemption.code ≡ some code)
    × (r : CashierRecoveryRequest) × Memᴰ r approved_db.accounts.recovery_requests
    × IsRedeemed (some "cashier code") user.id 1_000 r
    × (reset_db.accounts.users
        ≡ update (of_user user.id) (with_password "new") approved_db.accounts.users)
    × (any (is_open_session user.id) reset_db.accounts.login_sessions ≡ false)
reset_password_with_code-eq-ok_example =
    reset_password_with_code-eq-ok request_env redemption approved_db reset_db reset_done

abbrev owner : Option User
owner = some meena

abbrev approved_request : Option CashierRecoveryRequest
approved_request = request_of owner 1_000 approved_db

abbrev redeemed_db : Db
redeemed_db = (redeem_for request_env redemption owner approved_request approved_db).1

redeemed_done :
    redeem_for request_env redemption owner approved_request approved_db ≡ (ok tt, redeemed_db)
unfolding insert_log codes record_account_audit require_recovery_configured find_by_email find_user
    change_password crockford emit encode_crockford groups_of_four join_dashes
    generate_recovery_code normalize_recovery_code has_pepper meanwhile
    require_cashier_recovery_configured expire_stale_requests limit_ip insert_request create_request
    file_within_limit file_request submit_for submit_recovery_request find_request newest_first
    classify_decision_failure decided approve_pending claim_approval approve_existing
    find_redeemable redeem_counted redeem finish_redeem redeem_for catching transaction
redeemed_done = refl

abbrev loser_env : RequestEnv
loser_env = record request_env { now = 1_001; others = λ d. redeemed_db }

redeem_for_once_example :
    (redeem_for loser_env redemption owner approved_request approved_db).0
    ≡ err (refusal redeemed_db owner)
redeem_for_once_example =
    redeem_for_once request_env loser_env redemption redemption owner approved_request approved_db
      redeemed_db approved_db refl refl (omega arith) redeemed_done refl

alone : OthersKeep request_env
unfolding meanwhile
alone = record { evolves = λ d. Evolves-refl (requests d) }

run-Evolves_example :
    Evolves (requests approved_db) (requests (run request_env (reset redemption) approved_db))
run-Evolves_example = run-Evolves request_env (reset redemption) approved_db alone
