-- ===== src/Recovery/Admin/Reset.antt =====
-- `resetPasswordWithGrant` of src/lib/adminRecovery.ts as a whole.
use backend_v.Recovery.Grants.Laws.{grants_of}
use backend_v.Prelude.{
  find, none, Option, ◌<◌, Bool-cases, ◌≡◌, refl, sym, ap, ◌∙◌, ◌⊎◌, inl, inr, true, false, Option,
  some, [], ◌∷◌, any, update,
}
use backend_v.Audit.{insert_log, with_logs}
use backend_v.Errors.{Failure, Result, ok, err}
use backend_v.Recovery.Admin.{
  ResetInput, ResetAnswer, reset_answer, notified, check_reset, reset_body, reset_consumed,
  reset_password_with_grant, invalid_grant, audit_reset,
}
use backend_v.Recovery.Codes.{AdminEnv}
use backend_v.Recovery.Crypto.{Text, some_text}
use backend_v.Recovery.Grants.{has_token, is_outstanding, consume_recovery_grant}
use backend_v.Recovery.Requests.Reset.{eligible-cases}
use backend_v.Recovery.{
  record_account_audit, eligible, find_user, is_open_session, of_user, with_password,
  hash_user_agent,
}
use backend_v.Store.Accounts.{AccountStatus, Accounts, AdminRecoveryGrant, User, Role}
use backend_v.Store.Action.{
  pure, modify, query, or_throw, transaction, transaction-err, transaction-eq-ok, ◌>>=◌, ◌>>◌,
  >>=-eq-ok, >>=-eq-err, run_rest, catching,
}
use backend_v.Store.Loops.{Reads, reading, or_throw-eq-ok}
use backend_v.Store.Schema.{Db, password_reset_completed, AuditLog}
use backend_v.Recovery.Admin.Recovered.{
  users_of, reset_consumed-Recovered, consume-keeps, HasUniqueTokens, consume-eq-ok,
}

check_reset-Reads : (env : AdminEnv) (i : ResetInput) → Reads (check_reset env i)
unfolding check_reset
check_reset-Reads env i = search reading depth 12

-- What follows a transaction that was committed.
abbrev answer : AdminEnv → User → Db → Result ResetAnswer × Db
answer env user =
    query (find_user user.id) >>= λ fresh. pure (reset_answer user.id (notified env fresh))

abbrev answered : AdminEnv → User → Db → Result ResetAnswer × Db
answered env user = audit_reset user >> answer env user

abbrev reset_row : User → AuditLog
reset_row user = record {
  action = password_reset_completed;
  actor_id = some user.id;
  shop_id = user.shop_id;
  entity_id = some user.id;
}

abbrev committed : AdminEnv → ResetInput → Unit {0} → Db → Result ResetAnswer × Db
committed env i _ = modify env.others >> (transaction (reset_body env i) >>= answered env)

-- The row of the log is written or not; nothing else comes of it.
audit_reset-cases :
    (user : User) (d : Db)
    → (d2 : Db) × (audit_reset user d ≡ (ok tt, d2)) × (d2.accounts ≡ d.accounts)
unfolding audit_reset record_account_audit insert_log catching
audit_reset-cases user d = elim (Bool-cases (d.rejects_log d.audit_logs (reset_row user))) [
  | inl bad ↦ (d, rw bad refl, refl)
  | inr good ↦ (with_logs (reset_row user ∷ []) d, rw good refl, refl)
]

answered_ok :
    (env : AdminEnv) (user : User) (d d' : Db) (e : Failure) → answered env user d ≡ (err e, d') → ⊥
answered_ok env user d d' e h =
    let (d2, done, _) = audit_reset-cases user d in
    cc (ap (run_rest (λ _. answer env user)) (sym done) ∙ h)

-- A reset that fails writes nothing: the grant of another browser, or of an account that is no
-- active administrator's any more, is not consumed by the attempt.
pub reset_password_with_grant_failed :
    (env : AdminEnv) (i : ResetInput) (d d' : Db) (e : Failure)
    → reset_password_with_grant env i d ≡ (err e, d')
    → (d' ≡ d) ⊎ (d' ≡ env.others d)
unfolding reset_password_with_grant
reset_password_with_grant_failed env i d d' e h =
    let body = transaction (reset_body env i) in
    let reads = check_reset-Reads env i in
    elim (>>=-eq-err (check_reset env i) (committed env i) d e d' h) [
      | inl refused ↦ inl (ap_state refused ∙ reads.same d)
      | inr (_, d1, passed, rest) ↦
          let same : d1 ≡ d = ap_state passed ∙ reads.same d in
          elim (>>=-eq-err body (answered env) (env.others d1) e d' rest) [
            | inl undone ↦ inr (
                sym (
                  ap_state (
                    sym undone
                    ∙ transaction-err (reset_body env i) (env.others d1) e (ap (λ x. x.0) undone)))
                ∙ ap env.others same)
            | inr (user, d2, _, last) ↦ absurd (answered_ok env user d2 d' e last)
          ]
    ]
  where
    ap_state : {A : Type 0} {x y : Result A × Db} → x ≡ y → y.1 ≡ x.1
    ap_state k = sym (ap (λ z. z.1) k)

reset_parts :
    (env : AdminEnv) (i : ResetInput) (d : Db) (r : ResetAnswer) (d' : Db)
    → reset_password_with_grant env i d ≡ (ok r, d')
    → (g : AdminRecoveryGrant) × (user : User) × (d2 : Db) × (consume_recovery_grant env
          i.grant_token i.ctx.user_agent
          (env.others d)
        ≡ (ok (some g), d2))
      × (find_user g.user_id d2 ≡ some user)
      × (eligible Role.admin user ≡ true)
      × (users_of d'
          ≡ update (of_user user.id) (with_password env.password_hash) (users_of (env.others d)))
      × (any (is_open_session user.id) d'.accounts.login_sessions ≡ false)
      × (any (is_outstanding user.id) d'.accounts.recovery_grants ≡ false)
unfolding reset_password_with_grant reset_body
reset_parts env i d r d' h =
    let (_, d1, passed, rest) = >>=-eq-ok (check_reset env i) (committed env i) d r d' h in
    let same : d1 ≡ d =
      sym (ap (λ (x : Result (Unit {0}) × Db). x.1) passed) ∙ (check_reset-Reads env i).same d in
    let (user, d3, done, last) =
      >>=-eq-ok (transaction (reset_body env i)) (answered env) (env.others d1) r d' rest in
    let body = transaction-eq-ok (reset_body env i) (env.others d1) user d3 done in
    let consume = consume_recovery_grant env i.grant_token i.ctx.user_agent in
    let (found, d2, consumed, after) =
      >>=-eq-ok consume (λ o. or_throw o invalid_grant >>= reset_consumed env i) (env.others d1)
        user d3 body in
    let (g, d4, some_grant, more) =
      >>=-eq-ok (or_throw found invalid_grant) (reset_consumed env i) d2 user d3 after in
    let (is, same2) = or_throw-eq-ok found invalid_grant g d2 d4 some_grant in
    let rec =
      reset_consumed-Recovered env i g d2 user d3
        (ap (reset_consumed env i g) (sym same2) ∙ more) in
    let (d5, audited, kept) = audit_reset-cases user d3 in
    let accounts : d'.accounts ≡ d3.accounts =
      sym (ap (λ (x : Result ResetAnswer × Db). x.1.accounts) last)
      ∙ ap (λ (x : Result (Unit {0}) × Db). (run_rest (λ _. answer env user) x).1.accounts) audited
      ∙ kept in
    (
      g,
      user,
      d2,
      ap (λ x. consume (env.others x)) (sym same) ∙ consumed ∙ ap (λ o. (ok o, d2)) is,
      rec.owner,
      rec.permitted,
      ap (λ (a : Accounts). a.users) accounts
          ∙ rec.users
          ∙ ap (update (of_user user.id) (with_password env.password_hash)) (
              sym (ap (λ (x : Result (Option AdminRecoveryGrant) × Db). users_of x.1) consumed)
              ∙ consume-keeps env i.grant_token i.ctx.user_agent (env.others d1)
              ∙ ap (λ x. users_of (env.others x)) same),
      ap (λ (a : Accounts). any (is_open_session user.id) a.login_sessions) accounts ∙ rec.sessions,
      ap (λ (a : Accounts). any (is_outstanding user.id) a.recovery_grants) accounts ∙ rec.grants,
    )

-- A reset that succeeds has presented the token of a grant that belongs to this browser, is not
-- consumed and has not reached its end, and whose owner is an active administrator. It has changed
-- that owner's password and no other account, and leaves the owner no open session and no grant
-- outstanding. The table that the transaction finds has at most one grant with the hash of a token.
pub reset_password_with_grant-eq-ok :
    (env : AdminEnv) (i : ResetInput) (d : Db) (r : ResetAnswer) (d' : Db)
    → HasUniqueTokens (env.others d)
    → reset_password_with_grant env i d ≡ (ok r, d')
    → (token : Text) × (i.grant_token ≡ some_text token)
      × (g : AdminRecoveryGrant) × (find
            (has_token (env.config.hash_grant_token token))
            (grants_of (env.others d))
          ≡ some g)
      × (g.user_agent_hash ≡ hash_user_agent env.config i.ctx.user_agent)
      × (g.consumed_at ≡ none)
      × (env.now < g.expires_at)
      × (user : User) × (find (of_user g.user_id) (users_of (env.others d)) ≡ some user)
      × (user.role ≡ Role.admin)
      × (user.status ≡ AccountStatus.active)
      × (users_of d'
          ≡ update (of_user user.id) (with_password env.password_hash) (users_of (env.others d)))
      × (any (is_open_session user.id) d'.accounts.login_sessions ≡ false)
      × (any (is_outstanding user.id) d'.accounts.recovery_grants ≡ false)
unfolding find_user
reset_password_with_grant-eq-ok env i d r d' unique h =
    let (g2, user, d2, consumed, owner, allowed, users, sessions, grants) =
      reset_parts env i d r d' h in
    let agent = i.ctx.user_agent in
    let (token, is, g, there, fits, same) =
      consume-eq-ok env i.grant_token agent (env.others d) g2 d2 unique consumed in
    let (role, status) = eligible-cases Role.admin user allowed in
    let same_users : users_of d2 ≡ users_of (env.others d) =
      sym (ap (λ (x : Result (Option AdminRecoveryGrant) × Db). users_of x.1) consumed)
      ∙ consume-keeps env i.grant_token agent (env.others d) in
    let here : find (of_user g.user_id) (users_of (env.others d)) ≡ some user =
      ap (λ id. find (of_user id) (users_of (env.others d))) (sym same)
      ∙ ap (find (of_user g2.user_id)) (sym same_users)
      ∙ owner in
    (
      token, is, g, there, fits.browser, fits.unused, fits.running, user, here, role, status, users,
      sessions, grants,
    )
