-- ===== src/Throttle/Laws.antt =====
-- The decisions of src/lib/recoveryThrottle.ts over any ledger.
use Prim.Native.String.{String}
use backend_v.Prelude.{
  ℕ, ◌+◌, ◌-◌, ◌*◌, ◌≤◌, ◌<◌, ◌≡◌, refl, Bool, ◌&&◌, true, false, Option, none, some, List, [], ◌∷◌,
  ◌++◌, leb, filter, length, if◌then◌else◌, All, arith,
}
use backend_v.Throttle.{
  Scope, ThrottleDecision, allowed, blocked_until, delay_ms, account_throttle_decision,
  ip_throttle_decision, combine_throttle_decisions, AttemptContext, recovery_row, is_recent_failure,
  check_account, check_ip, check_recovery_throttle, record_attempt, latest, same_text, nth,
  times_ascending,
}
use backend_v.Store.Accounts.{Event, Attempt, AdminRecoveryMethod}
use backend_v.Store.Keys.{Time}

blocked_until_bound :
    (s : Scope) (ends now : Time) (longest : ℕ) (seconds : ℕ)
    → longest ≤ seconds * 1_000
    → (blocked_until s ends longest now).retry_after_seconds ≤ seconds
blocked_until_bound s ends now longest seconds h = ground arith

account_bound :
    (failures : ℕ) (last : Option Time) (now : Time)
    → (account_throttle_decision failures last now).retry_after_seconds ≤ 900
unfolding account_throttle_decision
account_bound failures none now = omega arith
account_bound failures (some last) now =
    let low : delay_ms failures ≤ 900 * 1_000 = omega arith in
    ground (
      arith,
      blocked_until_bound Scope.account_scope (last + delay_ms failures) now (delay_ms failures) 900
          low,
    )

ip_bound :
    (failures : ℕ) (releasing : Option Time) (now : Time)
    → (ip_throttle_decision failures releasing now).retry_after_seconds ≤ 3_600
unfolding ip_throttle_decision
ip_bound failures none now = omega arith
ip_bound failures (some t) now =
    ground
      (arith, blocked_until_bound Scope.ip_scope (t + 3_600_000) now 3_600_000 3_600 (omega arith))

combine_bound :
    (a b : ThrottleDecision) (n : ℕ)
    → a.retry_after_seconds ≤ n
    → b.retry_after_seconds ≤ n
    → (combine_throttle_decisions a b).retry_after_seconds ≤ n
unfolding combine_throttle_decisions
combine_bound a b n h k = ground arith

check_account_bound :
    (ledger : List Attempt) (hash : Option String) (now : Time)
    → (check_account ledger hash now).retry_after_seconds ≤ 3_600
unfolding check_account
check_account_bound ledger none now = omega arith
check_account_bound ledger (some hash) now =
    let rows =
      filter (λ a. same_text hash a.subject_hash && is_recent_failure 900_000 now a) ledger in
    ground (arith, account_bound (length rows) (latest rows) now)

check_ip_bound :
    (ledger : List Attempt) (ip : Option String) (now : Time)
    → (check_ip ledger ip now).retry_after_seconds ≤ 3_600
unfolding check_ip
check_ip_bound ledger none now = omega arith
check_ip_bound ledger (some ip) now =
    let rows = filter (λ a. same_text ip a.ip && is_recent_failure 3_600_000 now a) ledger in
    ground (
      arith,
      ip_bound (length rows)
          (if leb 20 (length rows) then nth (length rows - 20) (times_ascending rows) else none)
          now,
    )

-- Whatever the ledger holds, a blocked caller is asked to wait an hour at most.
pub check_recovery_throttle_bound :
    (ledger : List Attempt) (subject_hash ip : Option String) (now : Time)
    → (check_recovery_throttle ledger subject_hash ip now).retry_after_seconds ≤ 3_600
unfolding check_recovery_throttle
check_recovery_throttle_bound ledger subject_hash ip now =
    combine_bound (check_account ledger subject_hash now) (check_ip ledger ip now) 3_600
      (check_account_bound ledger subject_hash now) (check_ip_bound ledger ip now)

-- No attempt of the ledger is younger than an hour.
abbrev pub IsOld : Time → List Attempt → Type 0
IsOld now ledger = All (λ a. a.created_at + 3_600_000 < now) ledger

filter_old :
    (p : Attempt → Bool) (window : ℕ) (now : Time) (ledger : List Attempt)
    → window ≤ 3_600_000
    → IsOld now ledger
    → filter (λ a. p a && is_recent_failure window now a) ledger ≡ []
filter_old p window now [] w h = refl
filter_old p window now (a ∷ ledger) w h =
    let old : leb now (a.created_at + window) ≡ false = ground (arith, h.0) in
    ground (arith, filter_old p window now ledger w h.1)

check_account_old :
    (ledger : List Attempt) (hash : Option String) (now : Time)
    → IsOld now ledger
    → check_account ledger hash now ≡ allowed
unfolding check_account account_throttle_decision latest
check_account_old ledger none now old = refl
check_account_old ledger (some hash) now old =
    rw (filter_old (λ a. same_text hash a.subject_hash) 900_000 now ledger (omega arith) old)
      (ground arith)

check_ip_old :
    (ledger : List Attempt) (ip : Option String) (now : Time)
    → IsOld now ledger
    → check_ip ledger ip now ≡ allowed
unfolding check_ip ip_throttle_decision
check_ip_old ledger none now old = refl
check_ip_old ledger (some ip) now old =
    rw (filter_old (λ a. same_text ip a.ip) 3_600_000 now ledger (omega arith) old) (ground arith)

-- Once every attempt is more than an hour old, nobody is blocked: there is no lasting lockout.
pub check_recovery_throttle_expires :
    (ledger : List Attempt) (subject_hash ip : Option String) (now : Time)
    → IsOld now ledger
    → check_recovery_throttle ledger subject_hash ip now ≡ allowed
unfolding check_recovery_throttle combine_throttle_decisions
check_recovery_throttle_expires ledger subject_hash ip now old =
    rw (check_account_old ledger subject_hash now old, check_ip_old ledger ip now old)

filter-append_miss :
    (p : Attempt → Bool) (ledger : List Attempt) (x : Attempt)
    → p x ≡ false
    → filter p (ledger ++ x ∷ []) ≡ filter p ledger
filter-append_miss p [] x h = rw h
filter-append_miss p (a ∷ ledger) x h = ground (arith, filter-append_miss p ledger x h)

not_counted : (b c : Bool) → (b && (false && c)) ≡ false
not_counted true c = refl
not_counted false c = refl

module _ (ctx : AttemptContext) (method : Option AdminRecoveryMethod) (t : Time) where
  abbrev throttled_row : Attempt
  throttled_row = recovery_row ctx Event.attempt_throttled true method t

  check_account-throttled :
      (ledger : List Attempt) (hash : Option String) (now : Time)
      → check_account (ledger ++ throttled_row ∷ []) hash now ≡ check_account ledger hash now
  unfolding check_account recovery_row
  check_account-throttled ledger none now = refl
  check_account-throttled ledger (some hash) now = rw (
      filter-append_miss (λ a. same_text hash a.subject_hash && is_recent_failure 900_000 now a)
        ledger throttled_row (not_counted (same_text hash ctx.subject_hash) true))

  check_ip-throttled :
      (ledger : List Attempt) (ip : Option String) (now : Time)
      → check_ip (ledger ++ throttled_row ∷ []) ip now ≡ check_ip ledger ip now
  unfolding check_ip recovery_row
  check_ip-throttled ledger none now = refl
  check_ip-throttled ledger (some ip) now = rw (
      filter-append_miss (λ a. same_text ip a.ip && is_recent_failure 3_600_000 now a) ledger
        throttled_row (not_counted (same_text ip throttled_row.ip) true))

  -- A rejected attempt is not counted: recording it changes no later decision.
  pub check_recovery_throttle-record_attempt :
      (ledger : List Attempt) (subject_hash ip : Option String) (now : Time)
      → check_recovery_throttle
          (record_attempt Event.attempt_throttled method ctx t ledger)
          subject_hash
          ip
          now
        ≡ check_recovery_throttle ledger subject_hash ip now
  unfolding check_recovery_throttle record_attempt
  check_recovery_throttle-record_attempt ledger subject_hash ip now =
      rw (check_account-throttled ledger subject_hash now, check_ip-throttled ledger ip now)
