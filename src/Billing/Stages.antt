-- ===== src/Billing/Stages.antt =====
-- The states through which the transaction of a checkout (src/services/billingService.ts) goes.
use mathlib.Core.Path.{subst}
use backend_v.Prelude.{ℕ, ◌≡◌, refl, sym, ap, ◌∙◌, false, List, [], ◌∷◌, ◌++◌, any, filter, arith}
use backend_v.Billing.BillNumber.{next_bill_number, count_up}
use backend_v.Billing.Checkout.{
  checkout_body, write_bill, recheck_prices, deduction_order, deduct, sale_input, charge_input,
  charge_payment,
}
use backend_v.Billing.Input.{CheckoutInput, CheckoutItem}
use backend_v.Billing.Prepare.{Prepared, CheckedPayment, is_credit}
use backend_v.Billing.Record.{Env, new_bill, create_bill, clashes}
use backend_v.Credit.Ledger.{OnlyCredit, OnlyCredit-trans, charge_credit-OnlyCredit}
use backend_v.Errors.{ok}
use backend_v.Inventory.Adjust.{adjust_stock}
use backend_v.Inventory.Books.{Tracks}
use backend_v.Inventory.Books.Laws.{Tracks-refl, Tracks-trans, adjust_stock-Tracks}
use backend_v.Store.Action.{for_each, pure, >>=-eq-ok}
use backend_v.Store.Loops.{Reads, reading, for_each-keeps}
use backend_v.Store.Schema.{RowId, Db, Bill, BillCounter, BillNumber}

-- A checkout's transaction that began at `d` and was committed at `d'` with `bill`.
pub record Stages (env : Env) (i : CheckoutInput) (p : Prepared) (d : Db) (bill : Bill) (d' : Db)
    : Type 0 where
  -- After the deductions, and after the bill.
  pub sold : Db
  pub billed : Db
  pub number : BillNumber
  pub rechecked : recheck_prices i.shop_id p d ≡ (ok tt, d)
  pub deducted : for_each (deduction_order i.items) (deduct i) d ≡ (ok tt, sold)
  pub bill_is : bill ≡ new_bill env i p number
  pub fresh : any (clashes bill) sold.bills ≡ false
  pub billed_is : billed ≡ record sold {
    bill_counters = count_up i.shop_id env.year sold.bill_counters;
    bills = sold.bills ++ bill ∷ [];
  }
  pub charged : for_each (filter is_credit p.payments) (charge_payment env i) billed ≡ (ok tt, d')

recheck_prices-Reads : (s : RowId) (p : Prepared) → Reads (recheck_prices s p)
unfolding recheck_prices
recheck_prices-Reads s p = search reading depth 8

next_bill_number-eq-ok :
    (s : RowId) (year : ℕ) (d : Db) (number : BillNumber) (d' : Db)
    → next_bill_number s year d ≡ (ok number, d')
    → d' ≡ record d { bill_counters = count_up s year d.bill_counters }
unfolding next_bill_number
next_bill_number-eq-ok s year d number d' h = ground arith

pub create_bill-eq-ok :
    (b : Bill) (d d' : Db)
    → create_bill b d ≡ (ok tt, d')
    → (any (clashes b) d.bills ≡ false) × (d' ≡ record d { bills = d.bills ++ b ∷ [] })
unfolding create_bill
create_bill-eq-ok b d d' h = ground arith

write_bill-eq-ok :
    (env : Env) (i : CheckoutInput) (p : Prepared) (number : BillNumber) (d : Db) (bill : Bill)
    (d' : Db)
    → write_bill env i p number d ≡ (ok bill, d')
    → (bill ≡ new_bill env i p number)
      × (any (clashes (new_bill env i p number)) d.bills ≡ false)
      × (for_each
            (filter is_credit p.payments)
            (charge_payment env i)
            (record d { bills = d.bills ++ new_bill env i p number ∷ [] })
          ≡ (ok tt, d'))
unfolding write_bill
write_bill-eq-ok env i p number d bill d' h =
    let (_, d3, created, h3) = >>=-eq-ok (create_bill (new_bill env i p number)) _ d bill d' h in
    let (fresh, is) = create_bill-eq-ok (new_bill env i p number) d d3 created in
    let (_, d4, charged, h4) =
      >>=-eq-ok (for_each (filter is_credit p.payments) (charge_payment env i))
        (λ _. pure (new_bill env i p number)) d3 bill d' h3 in
    (cc h4, fresh, cc (charged, is, h4))

-- The states between the parts of the transaction.
body_parts :
    (env : Env) (i : CheckoutInput) (p : Prepared) (d : Db) (bill : Bill) (d' : Db)
    → checkout_body env i p d ≡ (ok bill, d')
    → (d0 d1 d2 : Db) × (number : BillNumber) × (recheck_prices i.shop_id p d ≡ (ok tt, d0))
      × (for_each (deduction_order i.items) (deduct i) d0 ≡ (ok tt, d1))
      × (next_bill_number i.shop_id env.year d1 ≡ (ok number, d2))
      × (write_bill env i p number d2 ≡ (ok bill, d'))
unfolding checkout_body
body_parts env i p d bill d' h =
    let (_, d0, rechecked, h0) = >>=-eq-ok (recheck_prices i.shop_id p) _ d bill d' h in
    let (_, d1, deducted, h1) =
      >>=-eq-ok (for_each (deduction_order i.items) (deduct i)) _ d0 bill d' h0 in
    let (number, d2, numbered, h2) =
      >>=-eq-ok (next_bill_number i.shop_id env.year) _ d1 bill d' h1 in
    (d0, d1, d2, number, rechecked, deducted, numbered, h2)

abbrev with_bill : Bill → Db → Db
with_bill b d = record d { bills = d.bills ++ b ∷ [] }

numbered_and_billed :
    (d1 d2 : Db) (counters : List BillCounter) (b b' : Bill)
    → b ≡ b'
    → d2 ≡ record d1 { bill_counters = counters }
    → with_bill b' d2 ≡ record d1 { bill_counters = counters; bills = d1.bills ++ b ∷ [] }
numbered_and_billed d1 d2 counters b b' e c = ap (λ x. with_bill x d2) (sym e) ∙ ap (with_bill b) c

pub checkout_body-Stages :
    (env : Env) (i : CheckoutInput) (p : Prepared) (d : Db) (bill : Bill) (d' : Db)
    → checkout_body env i p d ≡ (ok bill, d')
    → Stages env i p d bill d'
checkout_body-Stages env i p d bill d' h = go (body_parts env i p d bill d' h)
  where
    go :
        ((d0 d1 d2 : Db) × (number : BillNumber) × (recheck_prices i.shop_id p d ≡ (ok tt, d0))
          × (for_each (deduction_order i.items) (deduct i) d0 ≡ (ok tt, d1))
          × (next_bill_number i.shop_id env.year d1 ≡ (ok number, d2))
          × (write_bill env i p number d2 ≡ (ok bill, d')))
        → Stages env i p d bill d'
    go (d0, d1, d2, number, rechecked, deducted, numbered, written) =
        let same : d0 ≡ d =
          sym (ap (λ r. r.1) rechecked) ∙ (recheck_prices-Reads i.shop_id p).same d in
        let (is, fresh, charged) = write_bill-eq-ok env i p number d2 bill d' written in
        let counted = next_bill_number-eq-ok i.shop_id env.year d1 number d2 numbered in
        record {
          sold = d1;
          billed = record d2 { bills = d2.bills ++ new_bill env i p number ∷ [] };
          number = number;
          rechecked = cc (rechecked, same);
          deducted = cc (deducted, same);
          bill_is = is;
          fresh =
              ap (λ b. any (clashes b) d1.bills) is
              ∙ ap (λ x. any (clashes (new_bill env i p number)) x.bills) (sym counted)
              ∙ fresh;
          billed_is = numbered_and_billed d1 d2 _ bill _ is counted;
          charged = charged;
        }

-- The deductions are stock changes, and nothing else.
pub deducted-Tracks :
    (i : CheckoutInput) (items : List CheckoutItem) (d d' : Db)
    → for_each items (deduct i) d ≡ (ok tt, d')
    → Tracks d d'
deducted-Tracks i items d d' h =
    for_each-keeps (Tracks d) (deduct i)
      (λ t x x' tracked moved. Tracks-trans tracked (deduct-Tracks t x x' moved)) items d d'
      (Tracks-refl d) h
  where
    deduct-Tracks : (t : CheckoutItem) (x x' : Db) → deduct i t x ≡ (ok tt, x') → Tracks x x'
    deduct-Tracks t x x' moved =
        let (change, y, adjusted, rest) =
          >>=-eq-ok (adjust_stock (sale_input i t)) (λ _. pure tt) x tt x' moved in
        subst (Tracks x) (ap (λ r. r.1) rest)
          (adjust_stock-Tracks (sale_input i t) x change y adjusted)

pub charges-OnlyCredit :
    (env : Env) (i : CheckoutInput) (ps : List CheckedPayment) (d d' : Db)
    → for_each ps (charge_payment env i) d ≡ (ok tt, d')
    → OnlyCredit d d'
charges-OnlyCredit env i ps d d' h =
    for_each-keeps (OnlyCredit d) (charge_payment env i)
      (λ p x x' only charged.
        OnlyCredit-trans d x x' only (charge_credit-OnlyCredit (charge_input env i p) x x' charged))
      ps d d' refl h

-- The bill is the last row of its table when the transaction ends.
pub Stages-bills :
    {env : Env} {i : CheckoutInput} {p : Prepared} {d : Db} {bill : Bill} {d' : Db}
    (s : Stages env i p d bill d')
    → d'.bills ≡ d.bills ++ bill ∷ []
Stages-bills {env} {i} {p} {d} {bill} {d'} s =
    ap (λ (x : Db). x.bills)
      (charges-OnlyCredit env i (filter is_credit p.payments) s.billed d' s.charged)
    ∙ ap (λ (x : Db). x.bills) s.billed_is
    ∙ ap (λ bs. bs ++ bill ∷ [])
        (deducted-Tracks i (deduction_order i.items) d s.sold s.deducted).bills
