-- ===== src/Recovery/Requests/Race.antt =====
-- Requests for one recovery that race (src/lib/cashierRecovery.ts).
use backend_v.Prelude.{
  String, ℕ, ◌≤◌, ◌≡◌, refl, sym, ap, ◌∙◌, Bool, ◌&&◌, true, false, List, [], ◌∷◌, nat_beq, any,
  filter, length, update_all, arith, Bool-cases, inl, inr, any_weaken,
}
use backend_v.Errors.{Failure, ok, err}
use backend_v.Recovery.Frame.{KeepsAccounts, audits}
use backend_v.Recovery.Requests.Decisions.{
  approved_rest, decision_failure, user_of_request, approvable, is_pending, approve_row,
  issued_hash, approve_pending, claim_approval, approve_existing, classify_decision_failure,
  decided, approve, ApprovedRequest,
}
use backend_v.Recovery.Requests.Lifecycle.Writes.{requests}
use backend_v.Recovery.Requests.Listing.{find_request}
use backend_v.Recovery.Requests.{RequestEnv, meanwhile, update_requests}
use backend_v.Store.Accounts.{CashierRecoveryRequest}
use backend_v.Store.Action.{run_rest, no_result, >>=-eq-ok}
use backend_v.Store.Schema.{RowId, Time, Db}

update_all_none :
    {A : Type 0} (p : A → Bool) (f : A → A) (xs : List A)
    → any p xs ≡ false
    → update_all p f xs ≡ xs
update_all_none p f [] h = refl
update_all_none p f (x ∷ xs) h = ground (arith, update_all_none p f xs)

pub length-filter_none :
    {A : Type 0} (p : A → Bool) (xs : List A) → any p xs ≡ false → length (filter p xs) ≡ 0
length-filter_none p [] h = refl
length-filter_none p (x ∷ xs) h = ground (arith, length-filter_none p xs)

-- A write to rows of which there are none writes nothing.
pub update_requests_none :
    (p : CashierRecoveryRequest → Bool) (f : CashierRecoveryRequest → CashierRecoveryRequest)
    (d : Db)
    → any p (requests d) ≡ false
    → update_requests p f d ≡ (ok 0, d)
update_requests_none p f d h =
    rw (length-filter_none p (requests d) h, update_all_none p f (requests d) h) refl

-- No request with the id is waiting for a decision.
abbrev waits : RowId → CashierRecoveryRequest → Bool
waits id r = nat_beq r.id id && is_pending r.status

abbrev pub IsDecided : RowId → Db → Type 0
IsDecided id d = any (waits id) (requests d) ≡ false

approvable_none :
    (x : Db) (id : RowId) (now : Time) (rows : List CashierRecoveryRequest)
    → any (waits id) rows ≡ false
    → any (approvable x id now) rows ≡ false
approvable_none x id now rows h =
    any_weaken (waits id) (approvable x id now) rows h (λ r k. ground arith)

classify_refused :
    (env : RequestEnv) (id : RowId) (count : ℕ) (d : Db)
    → nat_beq count 1 ≡ false
    → (e : Failure) × (classify_decision_failure env id approve count d ≡ (err e, d))
unfolding classify_decision_failure
classify_refused env id count d more = (
  decision_failure env.failed_now approve (find_request id d)
      (user_of_request (find_request id d) d),
  rw more,
)

approve_pending_late :
    (env : RequestEnv) (admin_id : RowId) (existing : CashierRecoveryRequest) (d : Db)
    → IsDecided existing.id d
    → (e : Failure) × (approve_pending env admin_id existing d d ≡ (err e, d))
unfolding approve_pending
approve_pending_late env admin_id existing d h =
    let (e, fails) = classify_refused env existing.id 0 d refl in
    let none_left =
      update_requests_none (approvable d existing.id env.now)
        (approve_row env.now admin_id (issued_hash env existing)) d
        (approvable_none d existing.id env.now (requests d) h) in
    (e, ap (run_rest (classify_decision_failure env existing.id approve)) none_left ∙ fails)

-- An approval that comes too late fails, and writes nothing.
pub approve_existing_late :
    (env : RequestEnv) (admin_id : RowId) (existing : CashierRecoveryRequest) (d : Db)
    → IsDecided existing.id (env.others d)
    → (e : Failure) × (approve_existing env admin_id existing d ≡ (err e, env.others d))
unfolding approve_existing claim_approval meanwhile
approve_existing_late env admin_id existing d h =
    let (e, fails) = approve_pending_late env admin_id existing (env.others d) h in
    (e, ap (run_rest (λ _. approved_rest env admin_id existing.id)) fails)

-- The id is the primary key.
abbrev pub HasOneRow : RowId → Db → Type 0
HasOneRow id d = length (filter (λ r. nat_beq r.id id) (requests d)) ≤ 1

module _ (x : Db) (id admin_id : RowId) (now : Time) (hash : String) where
  abbrev decided_rows : List CashierRecoveryRequest → List CashierRecoveryRequest
  decided_rows rows = update_all (approvable x id now) (approve_row now admin_id hash) rows

  approvable_bound :
      (rows : List CashierRecoveryRequest)
      → length (filter (approvable x id now) rows) ≤ length (filter (λ r. nat_beq r.id id) rows)
  approvable_bound [] = omega arith
  approvable_bound (r ∷ rows) = ground (arith, approvable_bound rows)

  absent_decided :
      (rows : List CashierRecoveryRequest)
      → length (filter (λ r. nat_beq r.id id) rows) ≡ 0
      → any (waits id) (decided_rows rows) ≡ false
  absent_decided [] h = refl
  absent_decided (r ∷ rows) h = ground (arith, absent_decided rows)

  one_decided :
      (rows : List CashierRecoveryRequest)
      → length (filter (approvable x id now) rows) ≡ 1
      → length (filter (λ r. nat_beq r.id id) rows) ≤ 1
      → any (waits id) (decided_rows rows) ≡ false
  one_decided [] h k = refl
  one_decided (r ∷ rows) h k =
      ground (arith, one_decided rows, absent_decided rows, approvable_bound rows)

approved_rest-KeepsAccounts :
    (env : RequestEnv) (admin_id id : RowId) → KeepsAccounts (approved_rest env admin_id id)
unfolding decided
approved_rest-KeepsAccounts env admin_id id = search audits depth 20

classify_passed :
    (env : RequestEnv) (id : RowId) (count : ℕ) (d d' : Db)
    → nat_beq count 1 ≡ true
    → classify_decision_failure env id approve count d ≡ (ok tt, d')
    → d' ≡ d
unfolding classify_decision_failure
classify_passed env id count d d' one h = sym (ap (λ x. x.1) (rw one at h))

classify-eq-ok :
    (env : RequestEnv) (id : RowId) (count : ℕ) (d d' : Db)
    → classify_decision_failure env id approve count d ≡ (ok tt, d')
    → (count ≡ 1) × (d' ≡ d)
unfolding classify_decision_failure
classify-eq-ok env id count d d' h = elim (Bool-cases (nat_beq count 1)) [
  | inl one ↦ let same : d' ≡ d = classify_passed env id count d d' one h in (ground arith, same)
  | inr more ↦ let (e, fails) = classify_refused env id count d more in no_result tt e d' d h fails
]

approve_pending-eq-ok :
    (env : RequestEnv) (admin_id : RowId) (existing : CashierRecoveryRequest) (d d' : Db)
    → approve_pending env admin_id existing d d ≡ (ok tt, d')
    → (length (filter (approvable d existing.id env.now) (requests d)) ≡ 1)
      × (requests d'
          ≡ decided_rows d existing.id admin_id env.now (issued_hash env existing) (requests d))
unfolding approve_pending
approve_pending-eq-ok env admin_id existing d d' h =
    let (one, same) = classify-eq-ok env existing.id _ _ d' h in (one, ap requests same)

-- An approval that succeeds leaves no request with the id that waits for a decision.
approve_existing-IsDecided :
    (env : RequestEnv) (admin_id : RowId) (existing : CashierRecoveryRequest) (d : Db)
    (r : ApprovedRequest) (d' : Db)
    → approve_existing env admin_id existing d ≡ (ok r, d')
    → HasOneRow existing.id (env.others d)
    → IsDecided existing.id d'
unfolding approve_existing claim_approval meanwhile
approve_existing-IsDecided env admin_id existing d r d' h unique =
    let x = env.others d in
    let (_, d1, claimed, rest) =
      >>=-eq-ok (approve_pending env admin_id existing x)
        (λ _. approved_rest env admin_id existing.id) x r d' h in
    let (one, is) = approve_pending-eq-ok env admin_id existing x d1 claimed in
    let kept : d'.accounts ≡ d1.accounts =
      ap (λ y. y.1.accounts) (sym rest)
      ∙ (approved_rest-KeepsAccounts env admin_id existing.id).accounts d1 in
    ap (λ a. any (waits existing.id) a.recovery_requests) kept
    ∙ ap (any (waits existing.id)) is
    ∙ one_decided x existing.id admin_id env.now (issued_hash env existing) (requests x) one unique

-- Of two approvals of a request that both read it while it waited, the second to claim it fails
-- and writes nothing, where the id is that of one row.
pub approve_existing_race :
    (env env2 : RequestEnv) (admin_id admin_id2 : RowId)
    (existing existing2 : CashierRecoveryRequest) (d d2 : Db) (r : ApprovedRequest) (d1 : Db)
    → existing2.id ≡ existing.id
    → HasOneRow existing.id (env.others d)
    → approve_existing env admin_id existing d ≡ (ok r, d1)
    → env2.others d2 ≡ d1
    → (e : Failure) × (approve_existing env2 admin_id2 existing2 d2 ≡ (err e, d1))
approve_existing_race env env2 admin_id admin_id2 existing existing2 d d2 r d1 same unique h
      others =
    let late : IsDecided existing2.id (env2.others d2) =
      rw (others, same) (approve_existing-IsDecided env admin_id existing d r d1 h unique) in
    let (e, fails) = approve_existing_late env2 admin_id2 existing2 d2 late in
    (e, fails ∙ ap (λ x. (err e, x)) others)
