-- ===== src/Tests/Regaining.antt =====
-- The theorems of src/lib/adminRecovery.ts and the files it calls, on an administrator who forgot
-- the password.
use mathlib.Core.Path.{subst}
use backend_v.Store.Accounts.{AccountStatus, Role, User, AdminRecoveryGrant, recovery_code}
use backend_v.Prelude.{
  find, Bool, ◌<◌, sym, ◌≡◌, ◌≤◌, ◌⊎◌, refl, arith, true, false, none, some, [], ◌∷◌, map, filter,
  length, any, update,
}
use backend_v.Recovery.Crypto.{
  Text, some_text, crockford, emit, encode_crockford, groups_of_four, join_dashes,
  generate_recovery_code, normalize_recovery_code, has_pepper, is_well_formed_grant_token,
  is_password_strong_enough,
}
use backend_v.Recovery.Admin.Recovered.{HasUniqueTokens, users_of}
use backend_v.Audit.{insert_log}
use backend_v.Errors.{ok, err}
use backend_v.Recovery.Admin.{
  ResetInput, reset_answer, invalid_grant, find_eligible_admin, grant_verified, verify_body,
  answer_verified, verify_recovery_code, check_reset, reset_allowed, reset_owner, reset_consumed,
  reset_body, reset_password_with_grant, audit_reset,
}
use backend_v.Recovery.Admin.Reset.{
  reset_password_with_grant_failed, reset_password_with_grant-eq-ok,
}
use backend_v.Recovery.Codes.{
  AdminEnv, is_usable, code_row, code_of, generated, is_eligible_admin, has_clash, insert_codes,
  revoke_codes, replace_codes, generate_body, generate_recovery_code_set, use_code,
  consume_normalized, consume_recovery_code,
}
use backend_v.Recovery.Codes.Laws.{codes_of, generate_recovery_code_set-usable}
use backend_v.Recovery.Crypto.Laws.{normalize_recovery_code-generate_recovery_code}
use backend_v.Recovery.Grants.{
  has_token, is_outstanding, issue_recovery_grant, use_grant, consume_recovery_grant,
  invalidate_outstanding_grants,
}
use backend_v.Recovery.Grants.Laws.{grants_of, use_grant_once}
use backend_v.Recovery.{
  is_open_session, with_password, of_user, record_account_audit, record_recovery_audit,
  reject_blocked, enforce_throttle, require_recovery_configured, find_by_email, find_user,
  hash_user_agent, change_password,
}
use backend_v.Store.Schema.{Db}
use backend_v.Tests.{shop_db}
use backend_v.Prelude.Text.{truncate, codes}
use backend_v.Store.Action.{transaction, catching}
use backend_v.Throttle.{
  account_throttle_decision, ip_throttle_decision, combine_throttle_decisions, latest,
  check_account, check_ip, check_recovery_throttle, record_attempt,
}
use backend_v.Tests.Recovering.{config, bytes, browser, redemption}

abbrev admin_env : AdminEnv
admin_env = record {
  config = config;
  now = 1_000;
  set_id = 1;
  code_ids = 501 ∷ [];
  random_bytes = λ id. bytes;
  grant_token =
      65 ∷ 65 ∷ 65 ∷ 65 ∷ 65 ∷ 65 ∷ 65 ∷ 65 ∷ 65 ∷ 65 ∷ 65 ∷ 65 ∷ 65 ∷ 65 ∷ 65 ∷ 65 ∷ 65 ∷ 65 ∷ 65
      ∷ 65 ∷ 65 ∷ 65 ∷ 65 ∷ 65 ∷ 65 ∷ 65 ∷ 65 ∷ 65 ∷ 65 ∷ 65 ∷ 65 ∷ 65 ∷ 65 ∷ 65 ∷ 65 ∷ 65 ∷ 65 ∷ 65
      ∷ 65 ∷ 65 ∷ 65 ∷ 65 ∷ 65 ∷ [];
  password_hash = "fresh";
  notice_sent = λ u. true;
  others = λ d. d;
}

abbrev codes_db : Db
codes_db = (generate_recovery_code_set admin_env 9 browser shop_db).1

codes_done :
    generate_recovery_code_set admin_env 9 browser shop_db
    ≡ (ok (generated admin_env false), codes_db)
unfolding codes record_recovery_audit find_user has_clash insert_codes revoke_codes replace_codes
    generate_body generate_recovery_code_set has_pepper transaction
codes_done = refl

generate_recovery_code_set-usable_example :
    (is_eligible_admin (find_user 9 shop_db) ≡ true)
    × ((generated admin_env false).codes ≡ map (code_of admin_env) admin_env.code_ids)
    × (filter (is_usable 9) (codes_of codes_db) ≡ map (code_row admin_env 9) admin_env.code_ids)
generate_recovery_code_set-usable_example =
    generate_recovery_code_set-usable admin_env 9 browser shop_db (generated admin_env false)
      codes_db codes_done

abbrev verified_db : Db
verified_db =
    (verify_recovery_code admin_env "ravi@eggs.in" (some_text (generate_recovery_code bytes))
      browser codes_db).1

abbrev grant : AdminRecoveryGrant
grant = record {
  user_id = 9;
  method = recovery_code;
  token_hash = "token";
  user_agent_hash = "browser";
  expires_at = 601_000;
  consumed_at = some 1_000;
}

abbrev spent_db : Db
spent_db = (use_grant "token" "browser" 1_000 verified_db).1

spent_done : use_grant "token" "browser" 1_000 verified_db ≡ (ok (some grant), spent_db)
unfolding truncate codes record_recovery_audit reject_blocked enforce_throttle
    require_recovery_configured find_by_email find_user hash_user_agent find_eligible_admin
    grant_verified verify_body answer_verified verify_recovery_code has_clash insert_codes
    revoke_codes replace_codes generate_body generate_recovery_code_set use_code consume_normalized
    consume_recovery_code crockford emit encode_crockford groups_of_four join_dashes
    generate_recovery_code normalize_recovery_code has_pepper issue_recovery_grant use_grant
    transaction account_throttle_decision ip_throttle_decision combine_throttle_decisions latest
    check_account check_ip check_recovery_throttle record_attempt
spent_done = refl

one_grant : length (filter (has_token "token") (grants_of verified_db)) ≤ 1
unfolding truncate codes record_recovery_audit reject_blocked enforce_throttle
    require_recovery_configured find_by_email find_user find_eligible_admin grant_verified
    verify_body answer_verified verify_recovery_code has_clash insert_codes revoke_codes
    replace_codes generate_body generate_recovery_code_set use_code consume_normalized
    consume_recovery_code crockford emit encode_crockford groups_of_four join_dashes
    generate_recovery_code normalize_recovery_code has_pepper issue_recovery_grant transaction
    account_throttle_decision ip_throttle_decision combine_throttle_decisions latest check_account
    check_ip check_recovery_throttle record_attempt
one_grant = omega arith

use_grant_once_example : (use_grant "token" "another" 2_000 spent_db).0 ≡ ok none
use_grant_once_example =
    use_grant_once "token" "browser" "another" 1_000 2_000 verified_db grant spent_db one_grant
      spent_done

granted : grants_of verified_db ≡ record grant { consumed_at = none } ∷ []
unfolding truncate codes record_recovery_audit reject_blocked enforce_throttle
    require_recovery_configured find_by_email find_user find_eligible_admin grant_verified
    verify_body answer_verified verify_recovery_code has_clash insert_codes revoke_codes
    replace_codes generate_body generate_recovery_code_set use_code consume_normalized
    consume_recovery_code crockford emit encode_crockford groups_of_four join_dashes
    generate_recovery_code normalize_recovery_code has_pepper issue_recovery_grant transaction
    account_throttle_decision ip_throttle_decision combine_throttle_decisions latest check_account
    check_ip check_recovery_throttle record_attempt hash_user_agent
granted = refl

one_at_most :
    (p : AdminRecoveryGrant → Bool) (g : AdminRecoveryGrant) → length (filter p (g ∷ [])) ≤ 1
one_at_most p g = ground arith

unique_tokens : HasUniqueTokens verified_db
unique_tokens hash =
    subst (λ rows. length (filter (has_token hash) rows) ≤ 1) (sym granted)
      (one_at_most (has_token hash) (record grant { consumed_at = none }))

abbrev new_password : ResetInput
new_password = record {
  grant_token = some_text admin_env.grant_token;
  new_password = redemption.new_password;
  ctx = browser;
}

abbrev recovered_db : Db
recovered_db = (reset_password_with_grant admin_env new_password verified_db).1

recovered_done :
    reset_password_with_grant admin_env new_password verified_db
    ≡ (ok (reset_answer 9 true), recovered_db)
unfolding insert_log audit_reset catching truncate codes record_account_audit record_recovery_audit
    reject_blocked enforce_throttle require_recovery_configured find_by_email find_user
    hash_user_agent change_password find_eligible_admin grant_verified verify_body answer_verified
    verify_recovery_code check_reset reset_allowed reset_owner reset_consumed reset_body
    reset_password_with_grant has_clash insert_codes revoke_codes replace_codes generate_body
    generate_recovery_code_set use_code consume_normalized consume_recovery_code crockford emit
    encode_crockford groups_of_four join_dashes generate_recovery_code normalize_recovery_code
    has_pepper is_well_formed_grant_token is_password_strong_enough issue_recovery_grant use_grant
    consume_recovery_grant invalidate_outstanding_grants transaction account_throttle_decision
    ip_throttle_decision combine_throttle_decisions latest check_account check_ip
    check_recovery_throttle record_attempt
recovered_done = refl

reset_password_with_grant-eq-ok_example :
    (token : Text) × (new_password.grant_token ≡ some_text token)
    × (g : AdminRecoveryGrant) × (find (has_token "token") (grants_of verified_db) ≡ some g)
    × (g.user_agent_hash ≡ hash_user_agent config browser.user_agent)
    × (g.consumed_at ≡ none)
    × (1_000 < g.expires_at)
    × (user : User) × (find (of_user g.user_id) (users_of verified_db) ≡ some user)
    × (user.role ≡ Role.admin)
    × (user.status ≡ AccountStatus.active)
    × (users_of recovered_db
        ≡ update (of_user user.id) (with_password "fresh") (users_of verified_db))
    × (any (is_open_session user.id) recovered_db.accounts.login_sessions ≡ false)
    × (any (is_outstanding user.id) recovered_db.accounts.recovery_grants ≡ false)
reset_password_with_grant-eq-ok_example =
    reset_password_with_grant-eq-ok admin_env new_password verified_db (reset_answer 9 true)
      recovered_db unique_tokens recovered_done

-- Another browser presents the token.
abbrev thief : ResetInput
thief = record new_password { ctx = record browser { user_agent = some "another" } }

abbrev refused_db : Db
refused_db = (reset_password_with_grant admin_env thief verified_db).1

refused_done :
    reset_password_with_grant admin_env thief verified_db ≡ (err invalid_grant, refused_db)
unfolding truncate codes record_recovery_audit reject_blocked enforce_throttle
    require_recovery_configured find_by_email find_user hash_user_agent find_eligible_admin
    grant_verified verify_body answer_verified verify_recovery_code check_reset reset_body
    reset_password_with_grant has_clash insert_codes revoke_codes replace_codes generate_body
    generate_recovery_code_set use_code consume_normalized consume_recovery_code crockford emit
    encode_crockford groups_of_four join_dashes generate_recovery_code normalize_recovery_code
    has_pepper is_well_formed_grant_token is_password_strong_enough issue_recovery_grant use_grant
    consume_recovery_grant transaction account_throttle_decision ip_throttle_decision
    combine_throttle_decisions latest check_account check_ip check_recovery_throttle record_attempt
refused_done = refl

reset_password_with_grant_failed_example : (refused_db ≡ verified_db) ⊎ (refused_db ≡ verified_db)
reset_password_with_grant_failed_example =
    reset_password_with_grant_failed admin_env thief verified_db refused_db invalid_grant
      refused_done

normalize_recovery_code-generate_recovery_code_example :
    normalize_recovery_code (some_text (generate_recovery_code bytes))
    ≡ some (encode_crockford bytes)
normalize_recovery_code-generate_recovery_code_example =
    normalize_recovery_code-generate_recovery_code bytes refl
