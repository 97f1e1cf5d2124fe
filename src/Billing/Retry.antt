-- ===== src/Billing/Retry.antt =====
-- Failure and repetition of a checkout (src/services/billingService.ts).
use mathlib.Core.Path.{subst}
use backend_v.Prelude.{
  ◌≡◌, [], ◌∷◌, ◌++◌, Bool-cases, refl, sym, ap, ◌∙◌, ◌⊎◌, inl, inr, Bool, ◌&&◌, true, false,
  Option, some, List, any, find, arith, nat_beq, find-append_new, any_weaken,
}
use backend_v.Billing.Checkout.{checkout_bill, find_replay, deduction_order}
use backend_v.Billing.Input.{CheckoutInput}
use backend_v.Audit.{with_logs}
use backend_v.Billing.Outcome.{
  Ended, replayed, refused, failed, raced, sold, unlogged, checkout_log, checkout_bill-Ended,
}
use backend_v.Billing.Prepare.{Prepared}
use backend_v.Billing.Record.{Env, key_beq, clashes}
use backend_v.Billing.Stages.{Stages, Stages-bills, deducted-Tracks}
use backend_v.Errors.{Failure, Result, ok, err, db, log_rejected}
use backend_v.Store.Schema.{RowId, Db, Bill, AuditLog, is_set}

-- A key that is known is answered with its bill, and nothing is written.
checkout_bill_replay :
    (env : Env) (i : CheckoutInput) (d : Db) (b : Bill)
    → is_set i.idempotency_key ≡ true
    → find_replay i d ≡ some b
    → checkout_bill env i d ≡ (ok b, d)
unfolding checkout_bill
checkout_bill_replay env i d b key found = rw key (rw found)

key_beq_refl : (o : Option RowId) → is_set o ≡ true → key_beq o o ≡ true
key_beq_refl o h = ground arith

abbrev answers : CheckoutInput → Bill → Bool
answers i b = nat_beq b.shop_id i.shop_id && key_beq b.idempotency_key i.idempotency_key

own_key :
    (i : CheckoutInput) (b : Bill)
    → b.shop_id ≡ i.shop_id
    → b.idempotency_key ≡ i.idempotency_key
    → is_set i.idempotency_key ≡ true
    → answers i b ≡ true
own_key i b s k h =
    let e = key_beq_refl i.idempotency_key h in
    let shop : nat_beq b.shop_id i.shop_id ≡ true = ground arith in rw shop (rw k e)

answers-clashes :
    (i : CheckoutInput) (b x : Bill)
    → b.shop_id ≡ i.shop_id
    → b.idempotency_key ≡ i.idempotency_key
    → answers i x ≡ true
    → clashes b x ≡ true
answers-clashes i b x s k h =
    let e : (nat_beq x.shop_id b.shop_id && key_beq x.idempotency_key b.idempotency_key) ≡ true =
      rw s (rw k h) in
    rw e

-- The bill of a committed checkout is the one that its key finds.
Stages-find_replay :
    (env : Env) (i : CheckoutInput) (p : Prepared) (d : Db) (bill : Bill) (d2 : Db)
    → Stages env i p d bill d2
    → is_set i.idempotency_key ≡ true
    → find_replay i d2 ≡ some bill
unfolding find_replay
Stages-find_replay env i p d bill d2 s key =
    let same_bills = (deducted-Tracks i (deduction_order i.items) d s.sold s.deducted).bills in
    let no_clash : any (clashes bill) d.bills ≡ false = rw (← same_bills) s.fresh in
    let shop : bill.shop_id ≡ i.shop_id = ap (λ b. b.shop_id) s.bill_is in
    let same_key : bill.idempotency_key ≡ i.idempotency_key =
      ap (λ b. b.idempotency_key) s.bill_is in
    rw (Stages-bills s) (
      find-append_new (answers i) d.bills bill
        (any_weaken (clashes bill) (answers i) d.bills no_clash
          (λ x hit. answers-clashes i bill x shop same_key hit))
        (own_key i bill shop same_key key))

find_replay_log :
    (i : CheckoutInput) (d : Db) (log : List AuditLog)
    → find_replay i (record d { audit_logs = log }) ≡ find_replay i d
unfolding find_replay
find_replay_log i d log = refl

-- The bill that the `try` block reads again is the one that it wrote, where its id is new.
pub read_again :
    (env : Env) (i : CheckoutInput) (p : Prepared) (d : Db) (bill b : Bill) (d2 : Db)
    → Stages env i p d bill d2
    → any (λ x. nat_beq x.id env.bill_id) d.bills ≡ false
    → find (λ x. nat_beq x.id bill.id) d2.bills ≡ some b
    → b ≡ bill
read_again env i p d bill b d2 s new_id found =
    let id_is : bill.id ≡ env.bill_id = ap (λ x. x.id) s.bill_is in
    let no_row : any (λ x. nat_beq x.id bill.id) d.bills ≡ false = rw id_is new_id in
    let hit : nat_beq bill.id bill.id ≡ true = ground arith in
    let there : find (λ x. nat_beq x.id bill.id) d2.bills ≡ some bill =
      rw (Stages-bills s) (find-append_new (λ x. nat_beq x.id bill.id) d.bills bill no_row hit) in
    some-inj (sym found ∙ there)
  where
    some-inj : {x y : Bill} → some x ≡ some y → x ≡ y
    some-inj e = cc e

-- A request sent again with the key of a checkout that succeeded is answered with the same bill
-- and writes nothing, whatever others committed while the first one ran. The id that the first one
-- drew for its row must be new.
pub checkout_bill_retry :
    (env env2 : Env) (i : CheckoutInput) (d : Db) (b : Bill) (d' : Db)
    → is_set i.idempotency_key ≡ true
    → any (λ x. nat_beq x.id env.bill_id) (env.others d).bills ≡ false
    → checkout_bill env i d ≡ (ok b, d')
    → checkout_bill env2 i d' ≡ (ok b, d')
checkout_bill_retry env env2 i d b d' key new_id h = go (checkout_bill-Ended env i d)
  where
    again :
        (b2 : Bill) (d2 : Db)
        → find_replay i d2 ≡ some b2
        → checkout_bill env i d ≡ (ok b2, d2)
        → checkout_bill env2 i d' ≡ (ok b, d')
    again b2 d2 found k =
        let same_db : d2 ≡ d' = ap (λ r. r.1) (sym k ∙ h) in
        let same_bill : b2 ≡ b = cc (k, h) in
        let there : find_replay i d' ≡ some b =
          subst (λ x. find_replay i x ≡ some b) same_db (found ∙ ap some same_bill) in
        checkout_bill_replay env2 i d' b key there

    go : Ended env i d (checkout_bill env i d) → checkout_bill env2 i d' ≡ (ok b, d')
    go (replayed b2 _ found k) = again b2 d found k
    go (refused _ _ k) = cc
    go (failed _ _ _ _ _ k) = cc
    go (unlogged _ _ _ _ _ _ _ _ _ _ k) = cc
    go (raced _ b2 _ _ _ found k) = again b2 _ found k
    go (sold p bill b2 d2 _ s found k) =
        let same = read_again env i p (env.others d) bill b2 d2 s new_id found in
        again b2 (with_logs (checkout_log i p bill) d2)
          (find_replay_log i d2 _
            ∙ Stages-find_replay env i p (env.others d) bill d2 s key
            ∙ ap some (sym same))
          k

-- A checkout that fails has written nothing, or has committed its bill and could not log it. Then
-- it says so, its bill is the one new bill, and where the request had an idempotency key, a request
-- sent again with it finds that bill.
pub checkout_bill_failed :
    (env : Env) (i : CheckoutInput) (d d' : Db) (e : Failure)
    → checkout_bill env i d ≡ (err e, d')
    → (d' ≡ d)
      ⊎ ((d' ≡ env.others d)
          ⊎ ((bill : Bill) × (e ≡ db log_rejected)
              × (d'.bills ≡ (env.others d).bills ++ bill ∷ [])
              × ((is_set i.idempotency_key ≡ false) ⊎ (find_replay i d' ≡ some bill))))
checkout_bill_failed env i d d' e h = go (checkout_bill-Ended env i d)
  where
    state : (x : Result Bill × Db) → checkout_bill env i d ≡ x → d' ≡ x.1
    state x k = ap (λ y. y.1) (sym h ∙ k)

    go :
        Ended env i d (checkout_bill env i d)
        → (d' ≡ d)
          ⊎ ((d' ≡ env.others d)
              ⊎ ((bill : Bill) × (e ≡ db log_rejected)
                  × (d'.bills ≡ (env.others d).bills ++ bill ∷ [])
                  × ((is_set i.idempotency_key ≡ false) ⊎ (find_replay i d' ≡ some bill))))
    go (replayed b _ _ k) = inl (state _ k)
    go (refused _ _ k) = inl (state _ k)
    go (failed _ _ _ _ _ k) = inr (inl (state _ k))
    go (raced _ b _ _ _ _ k) = inr (inl (state _ k))
    go (sold _ _ _ _ _ _ _ k) = cc
    go (unlogged p bill d2 written rest row _ s _ _ k) =
        let at = state _ k in
        inr (
          inr (
            bill,
            cc (h, k),
            ap (λ (x : Db). x.bills) at ∙ Stages-bills s,
            elim (Bool-cases (is_set i.idempotency_key)) [
              | inl key ↦ inr (
                  ap (find_replay i) at
                  ∙ find_replay_log i d2 _
                  ∙ Stages-find_replay env i p (env.others d) bill d2 s key)
              | inr no_key ↦ inl no_key
            ],
          ))
