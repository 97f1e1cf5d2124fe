-- ===== src/Recovery/Codes/Laws.antt =====
-- The life of an administrator's recovery codes (src/lib/recoveryCodes.ts).
use backend_v.Prelude.{
  ◌≡◌, refl, sym, ap, ◌∙◌, Bool, not, true, false, Option, none, some, List, [], ◌∷◌, ◌++◌, any,
  filter, map, update_all, arith, String, Bool-cases, inl, inr,
}
use backend_v.Errors
use backend_v.Errors.{Failure, Result, ok, err, app}
use backend_v.Errors.Code.{role_not_allowed}
use backend_v.Recovery.Codes.{
  AdminEnv, is_usable, revoked_code, fits_code, used_code, use_code, code_row, code_of, of_owner,
  generate_recovery_code_set, generate_body, replace_codes, revoke_codes, insert_codes, has_clash,
  generated, GeneratedRecoveryCodes, is_eligible_admin, consume_recovery_code, consume_normalized,
  codes_event,
}
use backend_v.Recovery.Crypto.{Unknown, Text, normalize_recovery_code, has_pepper}
use backend_v.Recovery.Requests.Race.{length-filter_none}
use backend_v.Recovery.{RecoveryContext, find_user, record_recovery_audit, attempt_context}
use backend_v.Store.Accounts.{AdminRecoveryCode, recovery_code}
use backend_v.Store.Action.{
  pure, throw_if, transaction, transaction-eq-ok, same_end, ◌>>=◌, ◌>>◌, >>=-eq-ok,
}
use backend_v.Store.Loops.{throw_if-eq-ok}
use backend_v.Store.Schema.{RowId, Time, Db}

abbrev pub codes_of : Db → List AdminRecoveryCode
codes_of d = d.accounts.recovery_codes

-- A used code fits nothing.
used_none :
    (user_id : RowId) (hash : String) (now : Time) (rows : List AdminRecoveryCode)
    → any (fits_code user_id hash) (update_all (fits_code user_id hash) (used_code now) rows)
      ≡ false
used_none user_id hash now [] = refl
used_none user_id hash now (c ∷ rows) = ground (arith, used_none user_id hash now rows)

use_code_none :
    (user_id : RowId) (hash : String) (now : Time) (d : Db)
    → any (fits_code user_id hash) (codes_of d) ≡ false
    → (use_code user_id hash now d).0 ≡ ok false
unfolding use_code
use_code_none user_id hash now d h =
    rw (length-filter_none (fits_code user_id hash) (codes_of d) h) refl

module _ (env env2 : AdminEnv) (user_id : RowId) (same : env2.config ≡ env.config) where
  consume_again :
      (code : Option Text) (d d' : Db)
      → consume_normalized env user_id code d ≡ (ok true, d')
      → (consume_normalized env2 user_id code d').0 ≡ ok false
  unfolding consume_normalized use_code
  consume_again none d d' h = cc
  consume_again (some code) d d' h =
      let hash = env.config.hash_recovery_code user_id code in
      let hash_is : env2.config.hash_recovery_code user_id code ≡ hash =
        ap (λ c. c.hash_recovery_code user_id code) same in
      let left : any (fits_code user_id hash) (codes_of d') ≡ false =
        ap (λ (x : Result Bool × Db). any (fits_code user_id hash) (codes_of x.1)) (sym h)
        ∙ used_none user_id hash env.now (codes_of d) in
      ap (λ x. (use_code user_id x env2.now d').0) hash_is
      ∙ use_code_none user_id hash env2.now d' left

  -- A code that was consumed is refused from then on.
  pub consume_recovery_code_once :
      (raw : Unknown) (d d' : Db)
      → consume_recovery_code env user_id raw d ≡ (ok true, d')
      → (consume_recovery_code env2 user_id raw d').0 ≡ ok false
  unfolding consume_recovery_code
  consume_recovery_code_once raw d d' h = consume_again (normalize_recovery_code raw) d d' h

revoked_none :
    (user_id : RowId) (now : Time) (rows : List AdminRecoveryCode)
    → filter (is_usable user_id) (update_all (is_usable user_id) (revoked_code now) rows) ≡ []
revoked_none user_id now [] = refl
revoked_none user_id now (c ∷ rows) = ground (arith, revoked_none user_id now rows)

fresh_usable :
    (env : AdminEnv) (user_id : RowId) (ids : List RowId)
    → filter (is_usable user_id) (map (code_row env user_id) ids) ≡ map (code_row env user_id) ids
fresh_usable env user_id [] = refl
fresh_usable env user_id (id ∷ ids) = ground (arith, fresh_usable env user_id ids)

filter-append :
    {A : Type 0} (p : A → Bool) (xs ys : List A) → filter p (xs ++ ys) ≡ filter p xs ++ filter p ys
filter-append p [] ys = refl
filter-append p (x ∷ xs) ys = ground (arith, filter-append p xs ys)

insert_codes-eq-ok :
    (rows : List AdminRecoveryCode) (d d' : Db)
    → insert_codes rows d ≡ (ok tt, d')
    → codes_of d' ≡ codes_of d ++ rows
unfolding insert_codes
insert_codes-eq-ok rows d d' h = elim (Bool-cases (has_clash (codes_of d) rows)) [
  | inl clash ↦ cc (rw clash at h)
  | inr new ↦ ap (λ (x : Result (Unit {0}) × Db). codes_of x.1) (sym (rw new at h))
]

abbrev revoked_db : AdminEnv → RowId → Db → Db
revoked_db env user_id d = record d {
  accounts = record d.accounts {
    recovery_codes = update_all (is_usable user_id) (revoked_code env.now) (codes_of d);
  };
}

replace_codes-usable :
    (env : AdminEnv) (user_id : RowId) (ctx : RecoveryContext) (d : Db) (had : Bool) (d' : Db)
    → replace_codes env user_id ctx d ≡ (ok had, d')
    → filter (is_usable user_id) (codes_of d') ≡ map (code_row env user_id) env.code_ids
unfolding replace_codes revoke_codes record_recovery_audit
replace_codes-usable env user_id ctx d had d' h =
    let before = any (of_owner user_id) (codes_of d) in
    let rows = map (code_row env user_id) env.code_ids in
    let revoked = revoked_db env user_id d in
    let (_, d1, inserted, rest) =
      >>=-eq-ok (insert_codes rows)
        (λ _.
          record_recovery_audit (attempt_context (some user_id) none ctx) (codes_event before) false
            (some recovery_code) env.now
          >> pure before)
        revoked had d' h in
    ap (λ (x : Result Bool × Db). filter (is_usable user_id) (codes_of x.1)) (sym rest)
    ∙ ap (filter (is_usable user_id)) (insert_codes-eq-ok rows revoked d1 inserted)
    ∙ filter-append (is_usable user_id) (codes_of revoked) rows
    ∙ ap (λ x. x ++ filter (is_usable user_id) rows) (revoked_none user_id env.now (codes_of d))
    ∙ fresh_usable env user_id env.code_ids

-- A generation that succeeds shows the codes of the new rows, and leaves the account these rows
-- as its only usable codes: every code from before is void. The account is an active
-- administrator's.
pub generate_recovery_code_set-usable :
    (env : AdminEnv) (user_id : RowId) (ctx : RecoveryContext) (d : Db) (r : GeneratedRecoveryCodes)
    (d' : Db)
    → generate_recovery_code_set env user_id ctx d ≡ (ok r, d')
    → (is_eligible_admin (find_user user_id d) ≡ true)
      × (r.codes ≡ map (code_of env) env.code_ids)
      × (filter (is_usable user_id) (codes_of d') ≡ map (code_row env user_id) env.code_ids)
unfolding generate_recovery_code_set generate_body
generate_recovery_code_set-usable env user_id ctx d r d' h =
    let no_pepper = not (has_pepper env.config.pepper) in
    let not_allowed = not (is_eligible_admin (find_user user_id d)) in
    let (_, d1, peppered, rest) =
      >>=-eq-ok (throw_if no_pepper (app Errors.internal))
        (λ _. transaction (generate_body env user_id ctx) >>= λ x. pure (generated env x)) d r d'
        h in
    let (had, d2, done, last) =
      >>=-eq-ok (transaction (generate_body env user_id ctx)) (λ x. pure (generated env x)) d1 r d'
        rest in
    let (is, end) = same_end (generated env had) r d2 d' refl last in
    let same = (throw_if-eq-ok no_pepper (app Errors.internal) d d1 peppered).1 in
    let body : generate_body env user_id ctx d ≡ (ok had, d2) =
      ap (generate_body env user_id ctx) (sym same)
      ∙ transaction-eq-ok (generate_body env user_id ctx) d1 had d2 done in
    let (_, d3, checked, replaced) =
      >>=-eq-ok (throw_if not_allowed (app (Errors.forbidden role_not_allowed)))
        (λ _. replace_codes env user_id ctx) d had d2 body in
    let (allowed, _) =
      throw_if-eq-ok not_allowed (app (Errors.forbidden role_not_allowed)) d d3 checked in
    (
      ground arith,
      ap (λ (x : GeneratedRecoveryCodes). x.codes) is,
      ap (λ x. filter (is_usable user_id) (codes_of x)) (sym end)
          ∙ replace_codes-usable env user_id ctx d3 had d2 replaced,
    )
