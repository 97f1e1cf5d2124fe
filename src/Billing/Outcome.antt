-- ===== src/Billing/Outcome.antt =====
-- How a checkout (src/services/billingService.ts) that found no earlier bill can end.
use backend_v.Prelude.{
  ◌≡◌, refl, map, length, ltb, ◌++◌, if◌then◌else◌, sym, ap, ◌∙◌, ◌⊎◌, inl, inr, true, some, List,
  [], ◌∷◌, find, filter, arith, nat_beq, Bool-cases, Option-cases, find-append_last,
}
use backend_v.Audit.{
  Written, whole, cut, for_each-Written, insert_log, log_row, with_logs, record_audit,
}
use backend_v.Billing.Atomic.{prepare-Reads}
use backend_v.Billing.Checkout.{
  checkout_bill, checkout_new, checkout_body, commit_checkout, audit_checkout, recover, find_replay,
}
use backend_v.Billing.Input.{CheckoutInput}
use backend_v.Billing.Prepare.{Prepared, is_credit, prepare}
use backend_v.Billing.Record.{Env}
use backend_v.Billing.Stages.{Stages, checkout_body-Stages, Stages-bills}
use backend_v.Errors.{
  Failure, Result, ok, err, app, db, unique_violation, foreign_key_violation, record_not_found,
  log_rejected,
}
use backend_v.Store.Action.{transaction, for_each, catching, handled, ◌>>◌}
use backend_v.Store.Schema.{
  Db, Bill, AuditLog, is_set, bill_created, payment_created, split_payment_created,
  credit_payment_created,
}

-- `d'` differs from `d` in the audit log at most.
abbrev pub OnlyAudit : Db → Db → Type 0
OnlyAudit d d' = d' ≡ record d { audit_logs = d'.audit_logs }

-- The rows that the log gets for a bill: the bill, its payment or payments, and one for each payment
-- on credit.
abbrev pub checkout_log : CheckoutInput → Prepared → Bill → List AuditLog
checkout_log i p bill =
    log_row bill_created i.cashier_id i.shop_id bill.id
    ∷ log_row (if ltb 1 (length i.payments) then split_payment_created else payment_created)
        i.cashier_id i.shop_id bill.id
    ∷ map (λ _. log_row credit_payment_created i.cashier_id i.shop_id bill.id)
        (filter is_credit p.payments)

for_each-map :
    {A : Type 0} (f : A → AuditLog) (xs : List A)
    → for_each xs (λ x. insert_log (f x)) ≡ for_each (map f xs) insert_log
unfolding for_each
for_each-map f [] = refl
for_each-map f (x ∷ xs) = ap (λ m. insert_log (f x) >> m) (for_each-map f xs)

audit_checkout-Written :
    (i : CheckoutInput) (p : Prepared) (bill : Bill) (d : Db)
    → Written (checkout_log i p bill) d (audit_checkout i p bill d)
unfolding record_audit for_each
audit_checkout-Written i p bill d =
    let row = log_row credit_payment_created i.cashier_id i.shop_id bill.id in
    rw (for_each-map (λ _. row) (filter is_credit p.payments))
      (for_each-Written (checkout_log i p bill) d)

-- What the `try` block leaves behind: a committed bill with its audit rows, one with those before a
-- row that was rejected, or nothing.
data Committed (env : Env) (i : CheckoutInput) (p : Prepared) (d : Db) (r : Result Bill × Db)
    : Type 0 where
  committed :
      (bill b : Bill) (d2 : Db)
      → Stages env i p d bill d2
      → find (λ x. nat_beq x.id bill.id) d2.bills ≡ some b
      → r ≡ (ok b, with_logs (checkout_log i p bill) d2)
      → Committed env i p d r
  half_logged :
      (bill : Bill) (d2 : Db) (written rest : List AuditLog) (row : AuditLog)
      → Stages env i p d bill d2
      → checkout_log i p bill ≡ written ++ row ∷ rest
      → d2.rejects_log (d2.audit_logs ++ written) row ≡ true
      → r ≡ (err (db log_rejected), with_logs written d2)
      → Committed env i p d r
  undone :
      (e : Failure) → (checkout_body env i p d).0 ≡ err e → r ≡ (err e, d) → Committed env i p d r

commit-Committed :
    (env : Env) (i : CheckoutInput) (p : Prepared) (d : Db)
    → Committed env i p d (commit_checkout env i p d)
unfolding commit_checkout transaction
commit-Committed env i p d = go (checkout_body env i p d) refl
  where
    log :
        (bill : Bill) (d2 : Db)
        → checkout_body env i p d ≡ (ok bill, d2)
        → Stages env i p d bill d2
        → Written (checkout_log i p bill) d2 (audit_checkout i p bill d2)
        → Committed env i p d (commit_checkout env i p d)
    log bill d2 h stages (whole audited) =
        let (b, found) = find-append_last (λ x. nat_beq x.id bill.id) d.bills bill (ground arith) in
        let here : find (λ x. nat_beq x.id bill.id) d2.bills ≡ some b =
          rw (Stages-bills stages) found in
        committed bill b d2 stages here (rw h (rw audited (rw here)))
    log bill d2 h stages (cut written rest row split bad audited) =
        half_logged bill d2 written rest row stages split bad (rw h (rw audited))

    go :
        (x : Result Bill × Db)
        → checkout_body env i p d ≡ x
        → Committed env i p d (commit_checkout env i p d)
    go (err e, d2) h = undone e (ap (λ x. x.0) h) (rw h)
    go (ok bill, d2) h =
        log bill d2 h (checkout_body-Stages env i p d bill d2 h)
          (audit_checkout-Written i p bill d2)

-- Every way in which a checkout that began at `d` can end.
pub data Ended (env : Env) (i : CheckoutInput) (d : Db) (r : Result Bill × Db) : Type 0 where
  -- An earlier bill answers the idempotency key.
  replayed :
      (b : Bill)
      → is_set i.idempotency_key ≡ true
      → find_replay i d ≡ some b
      → r ≡ (ok b, d)
      → Ended env i d r
  -- A check refused the input, with its error.
  refused : (e : Failure) → prepare i d ≡ (err e, d) → r ≡ (err e, d) → Ended env i d r
  -- The transaction was undone, and its error is the answer: no other request's bill answers it.
  failed :
      (p : Prepared) (e : Failure)
      → prepare i d ≡ (ok p, d)
      → (checkout_body env i p (env.others d)).0 ≡ err e
      → recover i e (env.others d) ≡ (err e, env.others d)
      → r ≡ (err e, env.others d)
      → Ended env i d r
  -- Another request with the key won: its bill is the answer.
  raced :
      (p : Prepared) (b : Bill)
      → prepare i d ≡ (ok p, d)
      → (checkout_body env i p (env.others d)).0 ≡ err (db unique_violation)
      → is_set i.idempotency_key ≡ true
      → find_replay i (env.others d) ≡ some b
      → r ≡ (ok b, env.others d)
      → Ended env i d r
  -- A bill was committed and logged, and is read again.
  sold :
      (p : Prepared) (bill b : Bill) (d2 : Db)
      → prepare i d ≡ (ok p, d)
      → Stages env i p (env.others d) bill d2
      → find (λ x. nat_beq x.id bill.id) d2.bills ≡ some b
      → r ≡ (ok b, with_logs (checkout_log i p bill) d2)
      → Ended env i d r
  -- A bill was committed, a row of its log was rejected, and the rejection is the answer.
  unlogged :
      (p : Prepared) (bill : Bill) (d2 : Db) (written rest : List AuditLog) (row : AuditLog)
      → prepare i d ≡ (ok p, d)
      → Stages env i p (env.others d) bill d2
      → checkout_log i p bill ≡ written ++ row ∷ rest
      → d2.rejects_log (d2.audit_logs ++ written) row ≡ true
      → r ≡ (err (db log_rejected), with_logs written d2)
      → Ended env i d r

recover-cases :
    (i : CheckoutInput) (e : Failure) (d : Db)
    → ((b : Bill) × (e ≡ db unique_violation)
        × (is_set i.idempotency_key ≡ true)
        × (find_replay i d ≡ some b)
        × (recover i e d ≡ (ok b, d)))
      ⊎ (recover i e d ≡ (err e, d))
unfolding recover
recover-cases i (db unique_violation) d = elim (Bool-cases (is_set i.idempotency_key)) [
  | inr no_key ↦ inr (rw no_key)
  | inl key ↦ elim (Option-cases (find_replay i d)) [
    | inl none_found ↦ inr (rw key (rw none_found))
    | inr (b, found) ↦ inl (b, refl, key, found, rw key (rw found))
  ]
]
recover-cases i (db foreign_key_violation) d = inr refl
recover-cases i (db record_not_found) d = inr refl
recover-cases i (db log_rejected) d = inr refl
recover-cases i (app e) d = inr refl

recover-log_rejected :
    (i : CheckoutInput) (d : Db) → recover i (db log_rejected) d ≡ (err (db log_rejected), d)
unfolding recover
recover-log_rejected i d = refl

new-Ended : (env : Env) (i : CheckoutInput) (d : Db) → Ended env i d (checkout_new env i d)
unfolding checkout_new catching
new-Ended env i d = go (prepare i d) refl
  where
    after :
        (p : Prepared) (x : Result Bill × Db)
        → prepare i d ≡ (ok p, d)
        → Committed env i p (env.others d) x
        → Ended env i d (handled (recover i) x)
    after p x prepared (committed bill b d2 stages found e) =
        rw e (sold p bill b d2 prepared stages found refl)
    after p x prepared (half_logged bill d2 written rest row stages split bad e) = rw e (
        unlogged p bill d2 written rest row prepared stages split bad
          (recover-log_rejected i (with_logs written d2)))
    after p x prepared (undone e body h) = rw h (elim (recover-cases i e (env.others d)) [
      | inl (b, lost, key, found, r) ↦ raced p b prepared (body ∙ ap err lost) key found r
      | inr r ↦ failed p e prepared body r r
    ])

    go : (x : Result Prepared × Db) → prepare i d ≡ x → Ended env i d (checkout_new env i d)
    go (err e, d1) h =
        let same : d1 ≡ d = sym (ap (λ r. r.1) h) ∙ (prepare-Reads i).same d in
        refused e (h ∙ ap (λ x. (err e, x)) same) (rw h (rw same))
    go (ok p, d1) h =
        let same : d1 ≡ d = sym (ap (λ r. r.1) h) ∙ (prepare-Reads i).same d in
        rw h (
          rw same (
            after p (commit_checkout env i p (env.others d)) (h ∙ ap (λ x. (ok p, x)) same)
              (commit-Committed env i p (env.others d))))

-- A checkout ends in one of the ways of `Ended` and no other: with the replay of the key's bill; with
-- the error of the checks or of the transaction, having written nothing; with the answer of a lost
-- race on the key; with a bill committed through the stages of the code and its rows in the log; or
-- with such a bill, the rows before the first that was rejected, and that rejection as the error.
pub checkout_bill-Ended :
    (env : Env) (i : CheckoutInput) (d : Db) → Ended env i d (checkout_bill env i d)
unfolding checkout_bill
checkout_bill-Ended env i d = elim (Bool-cases (is_set i.idempotency_key)) [
  | inr no_key ↦ rw no_key (new-Ended env i d)
  | inl key ↦ rw key (elim (Option-cases (find_replay i d)) [
    | inl none_found ↦ rw none_found (new-Ended env i d)
    | inr (b, found) ↦ rw found (replayed b key found refl)
  ])
]
