-- ===== src/Throttle.antt =====
-- src/lib/recoveryThrottle.ts: how many failed recovery attempts block an account or an address.
pub mod Laws
use Prim.Native.Nat.{◌^◌, min}
use Prim.Native.String.{String}
use text.Mathlib.Text.{◌==◌ as str_eq}
use backend_v.Prelude.{
  ℕ, ◌+◌, ◌-◌, ◌*◌, ◌/◌, Bool, ◌&&◌, true, false, Option, none, some, List, [], ◌∷◌, ◌++◌, ltb, leb,
  filter, length, if◌then◌else◌,
}
use mathlib.Core.Option
use backend_v.Prelude.Text.{truncate}
use backend_v.Store.Accounts.{Event, Attempt, AdminRecoveryMethod}
use backend_v.Store.Keys.{RowId, Time}

pub data Scope : Type 0 where
  account_scope ip_scope : Scope

pub record ThrottleDecision : Type 0 where
  pub blocked : Bool
  pub retry_after_seconds : ℕ
  pub scope : Option Scope

abbrev pub allowed : ThrottleDecision
allowed = record { blocked = false; retry_after_seconds = 0; scope = none }

-- The block that ends at a time, and lasts no longer than `longest`. Where the time has passed the
-- remainder is 0, and so is not above 0 as in the source, where it may be below 0.
abbrev pub blocked_until : Scope → Time → ℕ → Time → ThrottleDecision
blocked_until scope ends longest now =
    let remaining_ms = min (ends - now) longest in
    if ltb 0 remaining_ms
    then record {
      blocked = true;
      retry_after_seconds = (remaining_ms + 999) / 1_000;
      scope = some scope;
    }
    else allowed

-- 30 seconds, doubled with each failure after the fifth, and 15 minutes at most.
abbrev pub delay_ms : ℕ → ℕ
delay_ms failures = min (30_000 * 2 ^ min (failures - 5) 20) 900_000

unfoldable pub account_throttle_decision : ℕ → Option Time → Time → ThrottleDecision
account_throttle_decision failures none now = allowed
account_throttle_decision failures (some last) now =
    if ltb failures 5
    then allowed
    else blocked_until Scope.account_scope (last + delay_ms failures) (delay_ms failures) now

unfoldable pub ip_throttle_decision : ℕ → Option Time → Time → ThrottleDecision
ip_throttle_decision failures none now = allowed
ip_throttle_decision failures (some releasing) now =
    if ltb failures 20
    then allowed
    else blocked_until Scope.ip_scope (releasing + 3_600_000) 3_600_000 now

unfoldable pub combine_throttle_decisions : ThrottleDecision → ThrottleDecision → ThrottleDecision
combine_throttle_decisions a b =
    if a.blocked && b.blocked
    then (if leb b.retry_after_seconds a.retry_after_seconds then a else b)
    else (if a.blocked then a else b)

-- `VERIFICATION_EVENTS`
abbrev pub is_verification : Event → Bool
is_verification Event.code_verification = true
is_verification Event.passkey_verification = true
is_verification e = false

-- `failureWhere(new Date(now - window))`
abbrev pub is_recent_failure : ℕ → Time → Attempt → Bool
is_recent_failure window now a =
    is_verification a.event && (a.is_failure && leb now (a.created_at + window))

abbrev pub same_text : String → Option String → Bool
same_text s none = false
same_text s (some t) = str_eq t s

-- `_max: { createdAt: true }`
unfoldable pub latest : List Attempt → Option Time
latest [] = none
latest (a ∷ rows) = elim (latest rows) [
  | none ↦ some a.created_at
  | some t ↦ if leb t a.created_at then some a.created_at else some t
]

unfoldable pub insert_time : Time → List Time → List Time
insert_time t [] = t ∷ []
insert_time t (u ∷ us) = if ltb u t then u ∷ insert_time t us else t ∷ u ∷ us

-- `orderBy: { createdAt: "asc" }`
unfoldable pub times_ascending : List Attempt → List Time
unfolding insert_time
times_ascending [] = []
times_ascending (a ∷ rows) = insert_time a.created_at (times_ascending rows)

-- `skip: n, take: 1`
unfoldable pub nth : ℕ → List Time → Option Time
nth n [] = none
nth ℕ.zero (t ∷ ts) = some t
nth (ℕ.suc n) (t ∷ ts) = nth n ts

unfoldable pub check_account : List Attempt → Option String → Time → ThrottleDecision
check_account ledger none now = allowed
check_account ledger (some hash) now =
    if str_eq hash ""
    then allowed
    else let rows =
        filter (λ a. same_text hash a.subject_hash && is_recent_failure 900_000 now a) ledger in
      account_throttle_decision (length rows) (latest rows) now

unfoldable pub check_ip : List Attempt → Option String → Time → ThrottleDecision
check_ip ledger none now = allowed
check_ip ledger (some ip) now =
    if str_eq ip ""
    then allowed
    else let rows = filter (λ a. same_text ip a.ip && is_recent_failure 3_600_000 now a) ledger in
      let count = length rows in
      let releasing : Option Time =
        if leb 20 count then nth (count - 20) (times_ascending rows) else none in
      ip_throttle_decision count releasing now

unfoldable pub check_recovery_throttle :
    List Attempt → Option String → Option String → Time → ThrottleDecision
check_recovery_throttle ledger subject_hash ip now =
    combine_throttle_decisions (check_account ledger subject_hash now) (check_ip ledger ip now)

pub record AttemptContext : Type 0 where
  pub user_id : Option RowId
  pub subject_hash : Option String
  pub ip : Option String
  pub user_agent : Option String

-- The row that `recordRecoveryAudit` of src/lib/recoveryAudit.ts writes, without its metadata.
unfoldable pub recovery_row :
    AttemptContext → Event → Bool → Option AdminRecoveryMethod → Time → Attempt
recovery_row ctx event is_failure method now = record {
  user_id = ctx.user_id;
  event = event;
  is_failure = is_failure;
  method = method;
  subject_hash = ctx.subject_hash;
  ip = Option.map (truncate 64) ctx.ip;
  user_agent = Option.map (truncate 255) ctx.user_agent;
  created_at = now;
}

-- `recordThrottledAttempt`, `recordFailedCodeVerification` and `recordFailedPasskeyVerification`.
unfoldable pub record_attempt :
    Event → Option AdminRecoveryMethod → AttemptContext → Time → List Attempt → List Attempt
unfolding recovery_row
record_attempt event method ctx now ledger = ledger ++ recovery_row ctx event true method now ∷ []
