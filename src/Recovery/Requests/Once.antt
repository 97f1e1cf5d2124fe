-- ===== src/Recovery/Requests/Once.antt =====
-- The redemption of a code (src/lib/cashierRecovery.ts): what it leads to, and that it is done once.
use backend_v.Prelude.{
  ℕ, ◌≤◌, ◌≡◌, refl, sym, ap, ◌∙◌, Bool, true, false, Option, none, some, List, [], ◌∷◌, nat_beq,
  any, filter, length, update_all, arith, if◌then◌else◌, Bool-cases, Option-cases, inl, inr,
}
use backend_v.Audit.{insert_log, insert_log-accounts}
use backend_v.Store.Schema.{cashier_recovery_failed, Db}
use backend_v.Errors.{Failure, db, log_rejected, Result, ok, err}
use backend_v.Recovery.Crypto.{Text, normalize_recovery_code}
use backend_v.Recovery.Requests.Lifecycle.Writes.{requests}
use backend_v.Recovery.Requests.Race.{length-filter_none}
use backend_v.Recovery.Requests.Redeem.{
  RedeemInput, Usable, as_usable, redeem, redeem_counted, redeem_for, redeems_usable, complete_row,
  finish_redeem, redeem_failed,
}
use backend_v.Recovery.Requests.{RequestEnv, meanwhile}
use backend_v.Recovery.{
  error_400, change_password, with_new_password, record_account_audit, record_ledger,
}
use backend_v.Store.Accounts.{CashierRecoveryRequest, User}
use backend_v.Store.Action.{run_rest, transaction}

-- The requests after the claim.
abbrev claimed : RequestEnv → Usable → Db → Db
claimed env u d = record d {
  accounts = record d.accounts {
    recovery_requests = update_all (redeems_usable env u) (complete_row env.now) (requests d);
  };
}

-- The database after the claim and the change of the password.
abbrev pub redeemed : RequestEnv → Usable → Db → Db
redeemed env u d = record d {
  accounts = with_new_password u.user.id env.password_hash env.now (claimed env u d).accounts;
}

abbrev pub matches : RequestEnv → Usable → Db → ℕ
matches env u d = length (filter (redeems_usable env u) (requests d))

redeem_counted_lem :
    (env : RequestEnv) (u : Usable) (n : ℕ) (d : Db)
    → redeem_counted env u n d ≡ (
        if nat_beq n 1
        then (
          ok true,
          record d { accounts = with_new_password u.user.id env.password_hash env.now d.accounts },
        )
        else (ok false, d))
unfolding redeem_counted change_password
redeem_counted_lem env u n d = elim (Bool-cases (nat_beq n 1)) [
  | inl one ↦ rw one
  | inr more ↦ rw more
]

-- One row that fits the code is claimed, and then the password changes; else only claims are made.
redeem_lem :
    (env : RequestEnv) (u : Usable) (d : Db)
    → transaction (redeem env (some u)) d ≡ (
        if nat_beq (matches env u d) 1
        then (ok true, redeemed env u d)
        else (ok false, claimed env u d))
unfolding redeem transaction
redeem_lem env u d = elim (Bool-cases (nat_beq (matches env u d) 1)) [
  | inl one ↦ rw (redeem_counted_lem env u (matches env u d) (claimed env u d), one)
  | inr more ↦ rw (redeem_counted_lem env u (matches env u d) (claimed env u d), more)
]

-- After the claim no row fits the code, at that time or later.
claimed_none :
    (env env2 : RequestEnv) (u : Usable) (rows : List CashierRecoveryRequest)
    → env2.config ≡ env.config
    → env.now ≤ env2.now
    → any (redeems_usable env2 u) (update_all (redeems_usable env u) (complete_row env.now) rows)
      ≡ false
claimed_none env env2 u [] same later = refl
claimed_none env env2 u (r ∷ rows) same later = ground (
  arith,
  ap (λ c. c.hash_cashier_recovery_code u.request.id u.user.id u.code) same,
  claimed_none env env2 u rows same later,
)

-- The answer to a code that is refused: the one error of the flow, unless the row of the log that
-- tells of it is rejected, whose rejection is then the answer.
abbrev pub refusal : Db → Option User → Failure
refusal d none = error_400
refusal d (some u) =
    if d.rejects_log d.audit_logs (record {
      action = cashier_recovery_failed;
      actor_id = some u.id;
      shop_id = u.shop_id;
      entity_id = some u.id;
    })
    then db log_rejected
    else error_400

redeem_failed_err :
    (env : RequestEnv) (i : RedeemInput) (user : Option User)
    (request : Option CashierRecoveryRequest) (d : Db)
    → (redeem_failed env i user request d).0 ≡ err (refusal d user)
unfolding redeem_failed record_ledger record_account_audit insert_log
redeem_failed_err env i none none d = refl
redeem_failed_err env i none (some r) d = refl
redeem_failed_err env i (some u) none d = ground arith
redeem_failed_err env i (some u) (some r) d = ground arith

-- A code that claimed nothing is refused.
finish_redeem_err :
    (env : RequestEnv) (i : RedeemInput) (user : Option User)
    (request : Option CashierRecoveryRequest) (d : Db)
    → (finish_redeem env i user request false d).0 ≡ err (refusal d user)
unfolding finish_redeem
finish_redeem_err env i none request d = redeem_failed_err env i none request d
finish_redeem_err env i (some u) none d = redeem_failed_err env i (some u) none d
finish_redeem_err env i (some u) (some r) d = redeem_failed_err env i (some u) (some r) d

abbrev rest :
    RequestEnv
    → RedeemInput
    → Option User
    → Option CashierRecoveryRequest
    → Result Bool × Db
    → Result (Unit {0}) × Db
rest env i user request = run_rest (finish_redeem env i user request)

redeem_for-none :
    (env : RequestEnv) (i : RedeemInput) (user : Option User)
    (request : Option CashierRecoveryRequest) (d : Db)
    → as_usable user request (normalize_recovery_code i.code) ≡ none
    → (redeem_for env i user request d).0 ≡ err (refusal (env.others d) user)
unfolding redeem_for meanwhile redeem transaction
redeem_for-none env i user request d h =
    ap (λ o. (rest env i user request (transaction (redeem env o) (env.others d))).0) h
    ∙ finish_redeem_err env i user request (env.others d)

redeem_for-some :
    (env : RequestEnv) (i : RedeemInput) (user : Option User)
    (request : Option CashierRecoveryRequest) (d : Db) (u : Usable)
    → as_usable user request (normalize_recovery_code i.code) ≡ some u
    → redeem_for env i user request d
      ≡ rest env i user request (
          if nat_beq (matches env u (env.others d)) 1
          then (ok true, redeemed env u (env.others d))
          else (ok false, claimed env u (env.others d)))
unfolding redeem_for meanwhile
redeem_for-some env i user request d u h =
    ap (λ o. rest env i user request (transaction (redeem env o) (env.others d))) h
    ∙ ap (rest env i user request) (redeem_lem env u (env.others d))

-- A code that fits no row, or more than one, is refused.
redeem_for_unmatched :
    (env : RequestEnv) (i : RedeemInput) (user : Option User)
    (request : Option CashierRecoveryRequest) (d : Db) (u : Usable)
    → as_usable user request (normalize_recovery_code i.code) ≡ some u
    → nat_beq (matches env u (env.others d)) 1 ≡ false
    → (redeem_for env i user request d).0 ≡ err (refusal (env.others d) user)
redeem_for_unmatched env i user request d u h more =
    ap (λ x. x.0)
      (redeem_for-some env i user request d u h
        ∙ ap
            (λ b. rest env i user request (
              if b
              then (ok true, redeemed env u (env.others d))
              else (ok false, claimed env u (env.others d))))
            more)
    ∙ finish_redeem_err env i user request (claimed env u (env.others d))

-- The accounts after a redemption whose code fits one row.
redeem_for_matched :
    (env : RequestEnv) (i : RedeemInput) (user : Option User)
    (request : Option CashierRecoveryRequest) (d : Db) (u : Usable)
    → as_usable user request (normalize_recovery_code i.code) ≡ some u
    → nat_beq (matches env u (env.others d)) 1 ≡ true
    → (redeem_for env i user request d).1.accounts ≡ (redeemed env u (env.others d)).accounts
unfolding finish_redeem record_account_audit
redeem_for_matched env i user request d u h one =
    ap (λ x. x.1.accounts)
      (redeem_for-some env i user request d u h
        ∙ ap
            (λ b. rest env i user request (
              if b
              then (ok true, redeemed env u (env.others d))
              else (ok false, claimed env u (env.others d))))
            one)
    ∙ finished_accounts user request (normalize_recovery_code i.code) h
  where
    finished_accounts :
        (us : Option User) (rs : Option CashierRecoveryRequest) (c : Option Text)
        → as_usable us rs c ≡ some u
        → (finish_redeem env i us rs true (redeemed env u (env.others d))).1.accounts
          ≡ (redeemed env u (env.others d)).accounts
    finished_accounts none rs c k = cc
    finished_accounts (some x) none c k = cc
    finished_accounts (some x) (some y) c k = insert_log-accounts _ (redeemed env u (env.others d))

-- A redemption that succeeds has found exactly one row that fits the code: an approved request of
-- the account, not yet past its deadline, with the hash of the code.
pub redeem_for-eq-ok :
    (env : RequestEnv) (i : RedeemInput) (user : Option User)
    (request : Option CashierRecoveryRequest) (d d' : Db)
    → redeem_for env i user request d ≡ (ok tt, d')
    → (u : Usable) × (as_usable user request (normalize_recovery_code i.code) ≡ some u)
      × (matches env u (env.others d) ≡ 1)
      × (d'.accounts ≡ (redeemed env u (env.others d)).accounts)
redeem_for-eq-ok env i user request d d' h =
    elim (Option-cases (as_usable user request (normalize_recovery_code i.code))) [
      | inl absent ↦ absurd (ok≢err (redeem_for-none env i user request d absent))
      | inr (u, here) ↦ elim (Bool-cases (nat_beq (matches env u (env.others d)) 1)) [
        | inl one ↦ (
          u,
          here,
          ground arith,
          ap (λ x. x.1.accounts) (sym h) ∙ redeem_for_matched env i user request d u here one,
        )
        | inr more ↦ absurd (ok≢err (redeem_for_unmatched env i user request d u here more))
      ]
    ]
  where
    ok≢err : (redeem_for env i user request d).0 ≡ err (refusal (env.others d) user) → ⊥
    ok≢err k = cc (ap (λ x. x.0) h, k)

-- Of two redemptions of a code that both found its request, the second to claim it is refused with
-- the one error of the flow, or with the rejection of the log's row where that is rejected. They are
-- of one code, under the same hashes and a clock that does not run back, and nothing is written
-- between the first and the second's claim.
pub redeem_for_once :
    (env env2 : RequestEnv) (i i2 : RedeemInput) (user : Option User)
    (request : Option CashierRecoveryRequest) (d d1 d2 : Db)
    → i2.code ≡ i.code
    → env2.config ≡ env.config
    → env.now ≤ env2.now
    → redeem_for env i user request d ≡ (ok tt, d1)
    → env2.others d2 ≡ d1
    → (redeem_for env2 i2 user request d2).0 ≡ err (refusal (env2.others d2) user)
redeem_for_once env env2 i i2 user request d d1 d2 code same later h others =
    let (u, here, one, is) = redeem_for-eq-ok env i user request d d1 h in
    let none_left : matches env2 u (env2.others d2) ≡ 0 =
      length-filter_none (redeems_usable env2 u) (requests (env2.others d2)) (
        rw (others, ap (λ a. a.recovery_requests) is)
          (claimed_none env env2 u (requests (env.others d)) same later)) in
    redeem_for_unmatched env2 i2 user request d2 u (rw code here) (rw none_left refl)
