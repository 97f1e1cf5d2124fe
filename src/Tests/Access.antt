-- ===== src/Tests/Access.antt =====
-- The theorems of the throttle (src/lib/recoveryThrottle.ts) and of the assignment of products
-- (src/lib/branchCatalog.ts), and of the UPI receiver (src/lib/upi.ts).
use backend_v.Prelude.{◌≡◌, refl, ℕ, ◌≤◌, true, false, none, some, List, [], ◌∷◌, arith}
use backend_v.Assignment.{
  AssignmentInput, AssignmentChange, reassigned, set_branch_assignment, assign_existing, update_row,
}
use backend_v.Assignment.Laws.{
  AssignmentEnded, set_branch_assignment-AssignmentEnded, set_branch_assignment_again,
}
use backend_v.Errors.{ok}
use backend_v.Store.Schema.{Db}
use backend_v.Store.Accounts.{Event, Attempt, recovery_code}
use backend_v.Throttle.{AttemptContext, allowed, check_recovery_throttle, record_attempt}
use backend_v.Throttle.Laws.{
  check_recovery_throttle_bound, check_recovery_throttle_expires,
  check_recovery_throttle-record_attempt,
}
use backend_v.Upi.{UpiCommonAccountData, resolve_effective_receiver}
use backend_v.Upi.Laws.{IsPayable, resolve_effective_receiver-IsPayable}
use backend_v.Tests.{shop_db, carries, rupees}

abbrev failure : ℕ → Attempt
failure t = record {
  event = Event.code_verification;
  is_failure = true;
  subject_hash = some "h";
  ip = some "10.0.0.1";
  user_id = none;
  method = some recovery_code;
  user_agent = none;
  created_at = t;
}

abbrev caller : AttemptContext
caller = record {
  user_id = none;
  subject_hash = some "h";
  ip = some "10.0.0.1";
  user_agent = some "browser";
}

abbrev attempts : List Attempt
attempts = failure 1 ∷ failure 2 ∷ failure 3 ∷ failure 4 ∷ failure 5 ∷ failure 6 ∷ []

check_recovery_throttle_bound_example :
    (check_recovery_throttle attempts (some "h") (some "10.0.0.1") 1_000).retry_after_seconds
    ≤ 3_600
check_recovery_throttle_bound_example =
    check_recovery_throttle_bound attempts (some "h") (some "10.0.0.1") 1_000

check_recovery_throttle_expires_example :
    check_recovery_throttle (failure 1 ∷ failure 2 ∷ []) (some "h") (some "10.0.0.1") 4_000_000
    ≡ allowed
check_recovery_throttle_expires_example =
    check_recovery_throttle_expires (failure 1 ∷ failure 2 ∷ []) (some "h") (some "10.0.0.1")
      4_000_000 (omega arith, (omega arith, tt))

check_recovery_throttle-record_attempt_example :
    check_recovery_throttle
      (record_attempt Event.attempt_throttled (some recovery_code) caller 900 attempts)
      (some "h")
      none
      1_000
    ≡ check_recovery_throttle attempts (some "h") none 1_000
check_recovery_throttle-record_attempt_example =
    check_recovery_throttle-record_attempt caller (some recovery_code) 900 attempts (some "h") none
      1_000

-- The eggs leave the branch.
abbrev hide_eggs : AssignmentInput
hide_eggs = record { shop_id = 1; product_id = 10; assigned = false; actor_id = 9 }

abbrev hidden_db : Db
hidden_db = record shop_db {
  branch_products = reassigned 5 hide_eggs (carries 10 none) ∷ carries 11 (some (rupees 89)) ∷ [];
}

abbrev hidden : AssignmentChange
hidden = record { changed = true; is_assigned = false }

eggs_hidden : set_branch_assignment 5 (λ d. d) hide_eggs shop_db ≡ (ok hidden, hidden_db)
unfolding set_branch_assignment assign_existing update_row
eggs_hidden = refl

set_branch_assignment-AssignmentEnded_example :
    AssignmentEnded (λ d. d) hide_eggs shop_db (set_branch_assignment 5 (λ d. d) hide_eggs shop_db)
set_branch_assignment-AssignmentEnded_example =
    set_branch_assignment-AssignmentEnded 5 (λ d. d) hide_eggs shop_db

set_branch_assignment_again_example :
    set_branch_assignment 6 (λ d. d) hide_eggs hidden_db
    ≡ (ok (record { changed = false; is_assigned = false }), hidden_db)
set_branch_assignment_again_example =
    set_branch_assignment_again 5 6 (λ d. d) (λ d. d) hide_eggs shop_db hidden hidden_db eggs_hidden

-- "Ab@ok", with a blank before it.
abbrev common_upi : UpiCommonAccountData
common_upi = record {
  upi_id = 32 ∷ 65 ∷ 98 ∷ 64 ∷ 111 ∷ 107 ∷ [];
  payee_name = 82 ∷ 66 ∷ [];
  enabled = true;
}

resolve_effective_receiver-IsPayable_example :
    IsPayable (resolve_effective_receiver (some common_upi) none).upi_id
resolve_effective_receiver-IsPayable_example =
    resolve_effective_receiver-IsPayable (some common_upi) none
