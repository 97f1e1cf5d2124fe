-- ===== src/Cancellation/Stages.antt =====
-- The states through which a cancellation (src/services/billCancellationService.ts) goes, and how
-- it can end.
use backend_v.Prelude.{
  ◌≡◌, true, refl, sym, ap, ◌∙◌, Bool, not, some, List, [], ◌∷◌, nat_beq, find, filter, length,
  update_all, arith, Bool-cases, inl, inr,
}
use backend_v.Cancellation.{
  CancelBillInput, CancelEnv, CancelBillResult, claimable, claimed_bill, claim, restored_items,
  restore, reverse_credit, cancel_result, cancel_body, commit_cancel, read_bill, check_status,
  cancel_bill, after_close,
}
use text.Mathlib.Text.{◌==◌ as str_eq}
use backend_v.Audit.{log_row, with_logs, insert_log, record_audit}
use backend_v.Errors
use backend_v.Errors.{Failure, Result, ok, err, app, db, log_rejected}
use backend_v.Money.{Money}
use backend_v.Store.Action.{transaction, for_each, run_rest, ◌>>=◌, >>=-eq-ok, query}
use backend_v.Store.Loops.{Reads, reading, throw_if-eq-ok}
use backend_v.Store.Schema.{RowId, Db, Bill, BillStatus, AuditAction, AuditLog, held, paid}

-- A transaction that began at `d` and was committed at `d'`.
pub record CancelStages (env : CancelEnv) (i : CancelBillInput) (b : Bill) (after : Bool) (d : Db)
    (r : CancelBillResult) (d' : Db) : Type 0 where
  -- After the claim, and after the stock was put back.
  pub claimed : Db
  pub restored : Db
  pub amount : Money
  pub one_paid : length (filter (claimable b.id) d.bills) ≡ 1
  pub claimed_is :
      claimed ≡ record d { bills = update_all (claimable b.id) (claimed_bill env i after) d.bills }
  pub restocked : for_each (restored_items b) (restore i b) claimed ≡ (ok tt, restored)
  pub reversed : reverse_credit i b restored ≡ (ok amount, d')
  pub result_is : r ≡ cancel_result env i b after amount

claim-eq-ok :
    (env : CancelEnv) (i : CancelBillInput) (id : RowId) (after : Bool) (d d' : Db)
    → claim env i id after d ≡ (ok tt, d')
    → (length (filter (claimable id) d.bills) ≡ 1)
      × (d' ≡ record d { bills = update_all (claimable id) (claimed_bill env i after) d.bills })
unfolding claim
claim-eq-ok env i id after d d' h =
    let (one, same) =
      throw_if-eq-ok (not (nat_beq (length (filter (claimable id) d.bills)) 1)) _ _ d' h in
    (ground arith, same)

cancel_body-CancelStages :
    (env : CancelEnv) (i : CancelBillInput) (b : Bill) (after : Bool) (d : Db)
    (r : CancelBillResult) (d' : Db)
    → cancel_body env i b after d ≡ (ok r, d')
    → CancelStages env i b after d r d'
unfolding cancel_body
cancel_body-CancelStages env i b after d r d' h =
    let (_, d1, claimed, h1) = >>=-eq-ok (claim env i b.id after) _ d r d' h in
    let (_, d2, restored, h2) =
      >>=-eq-ok (for_each (restored_items b) (restore i b)) _ d1 r d' h1 in
    let (amount, d3, reversed, h3) = >>=-eq-ok (reverse_credit i b) _ d2 r d' h2 in
    let (one, is) = claim-eq-ok env i b.id after d d1 claimed in
    record {
      claimed = d1;
      restored = d2;
      amount = amount;
      one_paid = one;
      claimed_is = is;
      restocked = restored;
      reversed = cc (reversed, h3);
      result_is = cc h3;
    }

-- What the reading of the bill has checked.
pub read_bill-eq-ok :
    (i : CancelBillInput) (d : Db) (b : Bill) (d' : Db)
    → read_bill i d ≡ (ok b, d')
    → (find (λ x. nat_beq x.id i.bill_id) d.bills ≡ some b) × (b.status ≡ paid)
unfolding read_bill check_status
read_bill-eq-ok i d b d' h = ground arith

check_status-Reads : (s : BillStatus) → Reads (check_status s)
unfolding check_status
check_status-Reads paid = record { same = λ d. refl }
check_status-Reads BillStatus.cancelled = record { same = λ d. refl }
check_status-Reads held = record { same = λ d. refl }

ruleset reading_bill = (reading, check_status-Reads)

read_bill-Reads : (i : CancelBillInput) → Reads (read_bill i)
unfolding read_bill
read_bill-Reads i = search reading_bill depth 8

-- The row that the log gets for a cancellation.
abbrev pub cancel_log : CancelBillInput → CancelBillResult → List AuditLog
cancel_log i r = log_row AuditAction.bill_cancelled i.actor_id r.shop_id r.id ∷ []

-- Every way in which a cancellation that began at `d` can end.
pub data CancelEnded (env : CancelEnv) (i : CancelBillInput) (d : Db)
    (r : Result CancelBillResult × Db) : Type 0 where
  -- No reason was given.
  unexplained :
      str_eq i.reason "" ≡ true → r ≡ (err (app Errors.validation), d) → CancelEnded env i d r
  -- The bill is missing, or is not paid.
  refused : (e : Failure) → read_bill i d ≡ (err e, d) → r ≡ (err e, d) → CancelEnded env i d r
  -- The transaction was undone, and its error is the answer.
  undone :
      (b : Bill) (e : Failure)
      → find (λ x. nat_beq x.id i.bill_id) d.bills ≡ some b
      → (cancel_body env i b (after_close b d) (env.others d)).0 ≡ err e
      → r ≡ (err e, env.others d)
      → CancelEnded env i d r
  -- The stages were committed, and the row of the log is written.
  done :
      (b : Bill) (result : CancelBillResult) (d2 : Db)
      → find (λ x. nat_beq x.id i.bill_id) d.bills ≡ some b
      → b.status ≡ paid
      → CancelStages env i b (after_close b d) (env.others d) result d2
      → r ≡ (ok result, with_logs (cancel_log i result) d2)
      → CancelEnded env i d r
  -- The stages were committed, the row was rejected, and the rejection is the answer.
  unlogged :
      (b : Bill) (result : CancelBillResult) (d2 : Db)
      → find (λ x. nat_beq x.id i.bill_id) d.bills ≡ some b
      → b.status ≡ paid
      → CancelStages env i b (after_close b d) (env.others d) result d2
      → r ≡ (err (db log_rejected), d2)
      → CancelEnded env i d r

commit-CancelEnded :
    (env : CancelEnv) (i : CancelBillInput) (b : Bill) (d : Db)
    → find (λ x. nat_beq x.id i.bill_id) d.bills ≡ some b
    → b.status ≡ paid
    → CancelEnded env i d (commit_cancel env i b (after_close b d) d)
unfolding commit_cancel transaction record_audit insert_log
commit-CancelEnded env i b d found is_paid =
    go (cancel_body env i b (after_close b d) (env.others d)) refl
  where
    go :
        (x : Result CancelBillResult × Db)
        → cancel_body env i b (after_close b d) (env.others d) ≡ x
        → CancelEnded env i d (commit_cancel env i b (after_close b d) d)
    go (err e, d2) h = undone b e found (ap (λ x. x.0) h) (rw h)
    go (ok r, d2) h =
        let row = log_row AuditAction.bill_cancelled i.actor_id r.shop_id r.id in
        let stages = cancel_body-CancelStages env i b (after_close b d) (env.others d) r d2 h in
        elim (Bool-cases (d2.rejects_log d2.audit_logs row)) [
          | inl bad ↦ unlogged b r d2 found is_paid stages (rw h (rw bad))
          | inr good ↦ done b r d2 found is_paid stages (rw h (rw good))
        ]

-- A cancellation ends without a reason given, as a refusal of the bill or a failure of the
-- transaction, which write nothing of their own, or with the stages of the code committed, and then
-- with its row in the log, or with the rejection of that row as the answer; and in no other way.
pub cancel_bill-CancelEnded :
    (env : CancelEnv) (i : CancelBillInput) (d : Db) → CancelEnded env i d (cancel_bill env i d)
unfolding cancel_bill
cancel_bill-CancelEnded env i d = elim (Bool-cases (str_eq i.reason "")) [
  | inl blank ↦ unexplained blank (rw blank)
  | inr given ↦ rw given (go (read_bill i d) refl)
]
  where
    go :
        (x : Result Bill × Db)
        → read_bill i d ≡ x
        → CancelEnded env i d
            (run_rest (λ b. query (after_close b) >>= commit_cancel env i b) (read_bill i d))
    go (err e, d1) h =
        let same : d1 ≡ d = sym (ap (λ r. r.1) h) ∙ (read_bill-Reads i).same d in
        refused e (h ∙ ap (λ x. (err e, x)) same) (rw h (rw same))
    go (ok b, d1) h =
        let same : d1 ≡ d = sym (ap (λ r. r.1) h) ∙ (read_bill-Reads i).same d in
        let (found, is_paid) = read_bill-eq-ok i d b d1 h in
        rw h (rw same (commit-CancelEnded env i b d found is_paid))
