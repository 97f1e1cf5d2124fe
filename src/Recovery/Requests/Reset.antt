-- ===== src/Recovery/Requests/Reset.antt =====
-- `resetPasswordWithCode` of src/lib/cashierRecovery.ts as a whole.
use mathlib.Core.Path.{subst}
use mathlib.Core.List.{Memᴰ}
use text.Mathlib.TextEquality.{eq_iff}
use backend_v.Prelude.Rules.{ltb→lt}
use backend_v.Prelude.{
  ◌<◌, find-one, find-holds, ◌≡◌, refl, sym, ap, ◌∙◌, not, true, false, Option, none, some, List,
  [], ◌∷◌, String, any, update, if◌then◌else◌, update_all, arith, Bool-cases, inl, inr,
}
use backend_v.Errors.{ok, err}
use backend_v.Recovery.Crypto.{Text, normalize_recovery_code, is_password_strong_enough}
use backend_v.Recovery.Requests.Once.{redeem_for-eq-ok, matches}
use backend_v.Recovery.Requests.Redeem.{
  RedeemInput, Usable, as_usable, redeem_for, check_redeem, eligible_user, request_of,
  find_redeemable, reset_password_with_code, redeem_found, redeems, redeems_usable, is_approved,
  hash_is,
}
use backend_v.Recovery.Requests.{RequestEnv, require_cashier_recovery_configured}
use backend_v.Recovery.{
  RecoveryConfig, RecoveryContext, error_429, is_open_session, revoked_session, with_password,
  of_user, find_by_email, eligible, role_beq, is_active, enforce_throttle, reject_blocked,
  record_ledger, require_recovery_configured,
}
use backend_v.Store.Accounts.{
  CashierRecoveryRequest, CashierRecoveryStatus, approved, Role, AccountStatus, User, LoginSession,
  AdminRecoveryMethod, recovery_code,
}
use backend_v.Store.Action.{>>=-eq-ok}
use backend_v.Store.Loops.{Reads, reading, throw_if-eq-ok}
use backend_v.Store.Schema.{RowId, Time, Db}
use backend_v.Throttle.{ThrottleDecision}

pub sessions_revoked :
    (id : RowId) (now : Time) (rows : List LoginSession)
    → any (is_open_session id) (update_all (is_open_session id) (revoked_session now) rows) ≡ false
sessions_revoked id now [] = refl
sessions_revoked id now (s ∷ rows) = ground (arith, sessions_revoked id now rows)

as_usable-eq-some :
    (user : Option User) (request : Option CashierRecoveryRequest) (c : Option Text) (u : Usable)
    → as_usable user request c ≡ some u
    → (user ≡ some u.user) × (request ≡ some u.request) × (c ≡ some u.code)
as_usable-eq-some none request c u h = cc
as_usable-eq-some (some x) none c u h = cc
as_usable-eq-some (some x) (some y) none u h = cc
as_usable-eq-some (some x) (some y) (some c) u h = (cc, cc, cc)

reject_blocked_err :
    (hash : String) (ctx : RecoveryContext) (method : AdminRecoveryMethod) (now : Time)
    (decision : ThrottleDecision) (d : Db)
    → decision.blocked ≡ true
    → (reject_blocked hash ctx method now decision d).0 ≡ err error_429
unfolding reject_blocked record_ledger
reject_blocked_err hash ctx method now decision d stop = rw stop

reject_blocked-eq-ok :
    (hash : String) (ctx : RecoveryContext) (method : AdminRecoveryMethod) (now : Time)
    (decision : ThrottleDecision) (d d' : Db)
    → reject_blocked hash ctx method now decision d ≡ (ok tt, d')
    → (decision.blocked ≡ false) × (d' ≡ d)
unfolding reject_blocked
reject_blocked-eq-ok hash ctx method now decision d d' h = elim (Bool-cases decision.blocked) [
  | inl stop ↦ cc (ap (λ x. x.0) h, reject_blocked_err hash ctx method now decision d stop)
  | inr free ↦ (free, sym (ap (λ x. x.1) (rw free at h)))
]

configured-Reads : (config : RecoveryConfig) → Reads (require_cashier_recovery_configured config)
unfolding require_cashier_recovery_configured require_recovery_configured
configured-Reads config = search reading depth 8

configured-eq-ok :
    (config : RecoveryConfig) (d d' : Db)
    → require_cashier_recovery_configured config d ≡ (ok tt, d')
    → d' ≡ d
configured-eq-ok config d d' h = sym (ap (λ x. x.1) h) ∙ (configured-Reads config).same d

-- What a redemption has checked before it looks at the account: the throttle lets the attempt
-- through, and the password is strong enough. It has written nothing.
check_redeem-eq-ok :
    (env : RequestEnv) (i : RedeemInput) (d d' : Db)
    → check_redeem env i d ≡ (ok tt, d')
    → (is_password_strong_enough i.new_password ≡ true) × (d' ≡ d)
unfolding check_redeem enforce_throttle
check_redeem-eq-ok env i d d' h =
    let (_, d1, first, more) =
      >>=-eq-ok (require_cashier_recovery_configured env.config) _ d tt d' h in
    let (_, d2, second, last) =
      >>=-eq-ok
        (enforce_throttle (env.config.hash_recovery_subject i.email) i.ctx recovery_code
          env.stale_now)
        _ d1 tt d' more in
    let (strong, end) =
      throw_if-eq-ok (not (is_password_strong_enough i.new_password)) _ d2 d' last in
    let free = reject_blocked-eq-ok _ _ _ _ _ d1 d2 second in
    (ground arith, end ∙ free.1 ∙ configured-eq-ok env.config d d1 first)

pub eligible-cases :
    (role : Role) (u : User)
    → eligible role u ≡ true
    → (u.role ≡ role) × (u.status ≡ AccountStatus.active)
eligible-cases role u h =
    (same_role u.role role (ground arith), active_status u.status (ground arith))
  where
    same_role : (a b : Role) → role_beq a b ≡ true → a ≡ b
    same_role a b k = ground arith

    active_status : (a : AccountStatus) → is_active a ≡ true → a ≡ AccountStatus.active
    active_status a k = ground arith

-- The parts of a reset that succeeded.
code_reset_parts :
    (env : RequestEnv) (i : RedeemInput) (d d' : Db)
    → reset_password_with_code env i d ≡ (ok tt, d')
    → (is_password_strong_enough i.new_password ≡ true)
      × (u : Usable) × (eligible_user i.email d ≡ some u.user)
      × (find_redeemable u.user.id env.now d ≡ some u.request)
      × (normalize_recovery_code i.code ≡ some u.code)
      × (matches env u (env.others d) ≡ 1)
      × (d'.accounts.users
          ≡ update
              (of_user u.user.id)
              (with_password env.password_hash)
              (env.others d).accounts.users)
      × (any (is_open_session u.user.id) d'.accounts.login_sessions ≡ false)
unfolding reset_password_with_code
code_reset_parts env i d d' h =
    let (_, d1, checks, rest) =
      >>=-eq-ok (check_redeem env i) (λ _. redeem_found env i) d tt d' h in
    let (strong, same) = check_redeem-eq-ok env i d d1 checks in
    let user = eligible_user i.email d in
    let here : redeem_for env i user (request_of user env.now d) d ≡ (ok tt, d') =
      ap (λ x. redeem_found env i x) (sym same) ∙ rest in
    let (u, fits, one, accounts) =
      redeem_for-eq-ok env i user (request_of user env.now d) d d' here in
    let (who, request, code) =
      as_usable-eq-some user (request_of user env.now d) (normalize_recovery_code i.code) u fits in
    (
      strong,
      u,
      who,
      sym (ap (λ x. request_of x env.now d) who) ∙ request,
      code,
      one,
      ap (λ a. a.users) accounts,
      ap (λ a. any (is_open_session u.user.id) a.login_sessions) accounts
          ∙ sessions_revoked u.user.id env.now (env.others d).accounts.login_sessions,
    )

abbrev as_eligible : Option User → Option User
as_eligible none = none
as_eligible (some u) = if eligible Role.cashier u then some u else none

as_eligible-cases :
    (o : Option User) (u : User)
    → as_eligible o ≡ some u
    → (o ≡ some u) × (eligible Role.cashier u ≡ true)
as_eligible-cases none u h = cc
as_eligible-cases (some x) u h = elim (Bool-cases (eligible Role.cashier x)) [
  | inl fits ↦
      let same : some x ≡ some u = rw fits at h in
      let is : x ≡ u = cc same in (same, ap (eligible Role.cashier) (sym is) ∙ fits)
  | inr other ↦ cc (rw other at h)
]

eligible_user-cases :
    (email : String) (d : Db) (u : User)
    → eligible_user email d ≡ some u
    → (find_by_email email d ≡ some u) × (eligible Role.cashier u ≡ true)
unfolding eligible_user
eligible_user-cases email d u h =
    as_eligible-cases (find_by_email email d) u (go (find_by_email email d) h)
  where
    go :
        (o : Option User)
        → elim o [ none ↦ none | some x ↦ if eligible Role.cashier x then some x else none ]
          ≡ some u
        → as_eligible o ≡ some u
    go none k = k
    go (some x) k = k

-- A request that a code redeems for a user at a time.
pub record IsRedeemed (hash : Option String) (user_id : RowId) (now : Time)
    (r : CashierRecoveryRequest) : Type 0 where
  pub owner : r.user_id ≡ user_id
  pub was_decided : r.status ≡ approved
  pub running : now < r.expires_at
  pub unused : r.consumed_at ≡ none
  pub code : r.code_hash ≡ hash

hash_is-eq : (h : String) (o : Option String) → hash_is h o ≡ true → o ≡ some h
hash_is-eq h none k = cc
hash_is-eq h (some x) k = ap some ((eq_iff x h).0 k)

redeems-IsRedeemed :
    (id user_id : RowId) (hash : String) (now : Time) (r : CashierRecoveryRequest)
    → redeems id user_id hash now r ≡ true
    → (r.id ≡ id) × IsRedeemed (some hash) user_id now r
redeems-IsRedeemed id user_id hash now r h = (
  ground arith,
  record {
    owner = ground arith;
    was_decided = was_approved r.status (ground arith);
    running = ltb→lt now r.expires_at (ground arith);
    unused = ground arith;
    code = hash_is-eq hash r.code_hash (ground arith);
  },
)
  where
    was_approved : (s : CashierRecoveryStatus) → is_approved s ≡ true → s ≡ approved
    was_approved s k = ground arith

-- A reset that succeeds has found a password that is strong enough, an active cashier by the email
-- and a well-formed code, and in the table, when it claimed it, an approved request of that cashier
-- before its deadline, never used, with the hash of the code. It has then changed that cashier's
-- password and no other account, and left them no open session.
pub reset_password_with_code-eq-ok :
    (env : RequestEnv) (i : RedeemInput) (d d' : Db)
    → reset_password_with_code env i d ≡ (ok tt, d')
    → (is_password_strong_enough i.new_password ≡ true)
      × (user : User) × (find_by_email i.email d ≡ some user)
      × (user.role ≡ Role.cashier)
      × (user.status ≡ AccountStatus.active)
      × (code : Text) × (normalize_recovery_code i.code ≡ some code)
      × (r : CashierRecoveryRequest) × Memᴰ r (env.others d).accounts.recovery_requests
      × IsRedeemed
          (some (env.config.hash_cashier_recovery_code r.id user.id code))
          user.id
          env.now
          r
      × (d'.accounts.users
          ≡ update
              (of_user user.id)
              (with_password env.password_hash)
              (env.others d).accounts.users)
      × (any (is_open_session user.id) d'.accounts.login_sessions ≡ false)
reset_password_with_code-eq-ok env i d d' h =
    let (strong, u, who, _, code, one, users, sessions) = code_reset_parts env i d d' h in
    let (here, allowed) = eligible_user-cases i.email d u.user who in
    let (role, status) = eligible-cases Role.cashier u.user allowed in
    let rows = (env.others d).accounts.recovery_requests in
    let hash = env.config.hash_cashier_recovery_code u.request.id u.user.id u.code in
    let (r, found) = find-one (redeems_usable env u) rows one in
    let (there, fits) = find-holds (redeems_usable env u) rows r found in
    let (same, good) = redeems-IsRedeemed u.request.id u.user.id hash env.now r fits in
    let own =
      subst
        (λ id.
          IsRedeemed (some (env.config.hash_cashier_recovery_code id u.user.id u.code)) u.user.id
            env.now r)
        (sym same) good in
    (strong, u.user, here, role, status, u.code, code, r, there, own, users, sessions)
