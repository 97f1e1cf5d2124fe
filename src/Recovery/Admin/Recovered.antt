-- ===== src/Recovery/Admin/Recovered.antt =====
-- What the transaction of `resetPasswordWithGrant` in src/lib/adminRecovery.ts does: it consumes the
-- grant and changes the account.
use mathlib.Core.Path.{subst}
use backend_v.Recovery.Grants.Laws.{
  grants_of, use_grant-eq-ok, IsRedeemable, fits_grant-IsRedeemable, redeemed_row,
}
use backend_v.Prelude.{
  find, filter, length, Option, ◌≤◌, String, Bool-cases, ◌≡◌, refl, sym, ap, ◌∙◌, inl, inr, not,
  true, false, Option, some, List, [], ◌∷◌, any, update, update_all, arith,
}
use backend_v.Errors.{ok}
use backend_v.Recovery.Admin.{ResetInput, reset_consumed, reset_owner, reset_allowed, invalid_grant}
use backend_v.Recovery.Codes.{AdminEnv}
use backend_v.Recovery.Crypto.{Text, Unknown, some_text, not_text, is_well_formed_grant_token}
use backend_v.Recovery.Grants.{
  use_grant, has_token, is_outstanding, consumed_grant, consume_recovery_grant,
  invalidate_outstanding_grants,
}
use backend_v.Recovery.Requests.Reset.{sessions_revoked}
use backend_v.Recovery.{
  record_recovery_audit, change_password, eligible, find_user, is_open_session, of_user,
  with_password, hash_user_agent,
}
use backend_v.Store.Accounts.{AdminRecoveryGrant, User, Role}
use backend_v.Store.Action.{or_throw, same_end, >>=-eq-ok, throw_if}
use backend_v.Store.Loops.{throw_if-eq-ok, or_throw-eq-ok}
use backend_v.Store.Schema.{RowId, Time, Db}

spent_none :
    (user_id : RowId) (now : Time) (rows : List AdminRecoveryGrant)
    → any (is_outstanding user_id) (update_all (is_outstanding user_id) (consumed_grant now) rows)
      ≡ false
spent_none user_id now [] = refl
spent_none user_id now (g ∷ rows) = ground (arith, spent_none user_id now rows)

abbrev pub users_of : Db → List User
users_of d = d.accounts.users

-- What the transaction has done to the accounts.
pub record Recovered (env : AdminEnv) (g : AdminRecoveryGrant) (user : User) (d d' : Db)
    : Type 0 where
  pub permitted : eligible Role.admin user ≡ true
  pub owner : find_user g.user_id d ≡ some user
  pub users :
      d'.accounts.users
      ≡ update (of_user user.id) (with_password env.password_hash) d.accounts.users
  pub sessions : any (is_open_session user.id) d'.accounts.login_sessions ≡ false
  pub grants : any (is_outstanding user.id) d'.accounts.recovery_grants ≡ false

reset_allowed-Recovered :
    (env : AdminEnv) (i : ResetInput) (g : AdminRecoveryGrant) (user : User) (d : Db) (r : User)
    (d' : Db)
    → eligible Role.admin user ≡ true
    → find_user g.user_id d ≡ some user
    → reset_allowed env i g user d ≡ (ok r, d')
    → Recovered env g r d d'
unfolding reset_allowed change_password invalidate_outstanding_grants record_recovery_audit
reset_allowed-Recovered env i g user d r d' allowed owner h =
    let (is, end) = same_end user r (reset_allowed env i g user d).1 d' refl h in
    subst (λ x. Recovered env g x d d') (sym is)
      (record {
        permitted = allowed;
        owner = owner;
        users = ap (λ (x : Db). x.accounts.users) (sym end);
        sessions =
            ap (λ (x : Db). any (is_open_session user.id) x.accounts.login_sessions) (sym end)
            ∙ sessions_revoked user.id env.now d.accounts.login_sessions;
        grants =
            ap (λ (x : Db). any (is_outstanding user.id) x.accounts.recovery_grants) (sym end)
            ∙ spent_none user.id env.now d.accounts.recovery_grants;
      })

pub reset_consumed-Recovered :
    (env : AdminEnv) (i : ResetInput) (g : AdminRecoveryGrant) (d : Db) (r : User) (d' : Db)
    → reset_consumed env i g d ≡ (ok r, d')
    → Recovered env g r d d'
unfolding reset_consumed reset_owner
reset_consumed-Recovered env i g d r d' h =
    let (user, d1, locked, rest) =
      >>=-eq-ok (or_throw (find_user g.user_id d) invalid_grant) (reset_owner env i g) d r d' h in
    let (owner, same) = or_throw-eq-ok (find_user g.user_id d) invalid_grant user d d1 locked in
    let stop = not (eligible Role.admin user) in
    let (_, d2, checked, last) =
      >>=-eq-ok (throw_if stop invalid_grant) (λ _. reset_allowed env i g user) d1 r d' rest in
    let (free, same2) = throw_if-eq-ok stop invalid_grant d1 d2 checked in
    reset_allowed-Recovered env i g user d r d' (ground arith) owner
      (ap (reset_allowed env i g user) (sym (same2 ∙ same)) ∙ last)

pub consume-keeps :
    (env : AdminEnv) (token : Unknown) (agent : Option String) (d : Db)
    → (users_of (consume_recovery_grant env token agent d).1 ≡ users_of d)
unfolding consume_recovery_grant use_grant
consume-keeps env not_text agent d = refl
consume-keeps env (some_text token) agent d =
    elim (Bool-cases (not (is_well_formed_grant_token (some_text token)))) [
      | inl bad ↦ rw bad
      | inr good ↦ rw good
    ]

-- At most one grant has the hash of a token: the table's unique index.
abbrev pub HasUniqueTokens : Db → Type 0
HasUniqueTokens d = (hash : String) → length (filter (has_token hash) (grants_of d)) ≤ 1

-- The grant that a token and a browser redeem, as it was before.
pub consume-eq-ok :
    (env : AdminEnv) (token : Unknown) (agent : Option String) (d : Db) (g : AdminRecoveryGrant)
    (d2 : Db)
    → HasUniqueTokens d
    → consume_recovery_grant env token agent d ≡ (ok (some g), d2)
    → (text : Text) × (token ≡ some_text text)
      × (g0 : AdminRecoveryGrant) × (find
            (has_token (env.config.hash_grant_token text))
            (grants_of d)
          ≡ some g0)
      × IsRedeemable (hash_user_agent env.config agent) env.now g0
      × (g.user_id ≡ g0.user_id)
unfolding consume_recovery_grant
consume-eq-ok env not_text agent d g d2 unique h = cc
consume-eq-ok env (some_text text) agent d g d2 unique h =
    elim (Bool-cases (not (is_well_formed_grant_token (some_text text)))) [
      | inl bad ↦ cc (ap (λ x. x.0) (rw bad at h))
      | inr good ↦
          let hash = env.config.hash_grant_token text in
          let agent_hash = hash_user_agent env.config agent in
          let (one, found, rows) = use_grant-eq-ok hash agent_hash env.now d g d2 (rw good at h) in
          let (g0, there, fits, same) =
            redeemed_row hash agent_hash env.now (grants_of d) g one (unique hash)
              (ap (find (has_token hash)) (sym rows) ∙ found) in
          (text, refl, g0, there, fits_grant-IsRedeemable hash agent_hash env.now g0 fits, same)
    ]
