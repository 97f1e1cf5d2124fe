-- ===== src/Billing/Checkout.antt =====
-- `checkoutBill` of src/services/billingService.ts: the replay of a key, the transaction and what
-- follows it.
use backend_v.Prelude.{
  Bool, ◌&&◌, not, false, Option, none, some, List, [], ◌∷◌, nat_beq, ltb, find, filter, length,
  get_or, if◌then◌else◌,
}
use backend_v.Prelude.Int.{negate}
use backend_v.Audit.{record_audit}
use backend_v.Billing.BillNumber.{next_bill_number}
use backend_v.Billing.Input.{CheckoutInput, CheckoutItem, CheckoutPayment, to_int}
use backend_v.Billing.Prepare.{Prepared, ResolvedItem, CheckedPayment, is_credit, prepare, price_at}
use backend_v.Billing.Record.{Env, key_beq, new_bill, create_bill}
use backend_v.Credit.{ChargeInput, charge_credit}
use backend_v.Errors
use backend_v.Errors.{app, db, unique_violation, record_not_found, Failure, ok, err}
use backend_v.Errors.Code.{price_changed}
use backend_v.Inventory.Adjust.{AdjustStockInput, adjust_stock}
use backend_v.Money.{Money, equals}
use backend_v.Pricing.{get_effective_prices}
use backend_v.Store.Action.{
  Action, pure, query, throw, or_throw, throw_if, modify, for_each, transaction, catching, ◌>>=◌,
  ◌>>◌,
}
use backend_v.Store.Schema.{
  RowId, Db, Bill, BillNumber, stock_out, sale, is_set, AuditAction, bill_created, payment_created,
  split_payment_created, credit_payment_created,
}

-- `bill.findUnique({ where: { shopId_idempotencyKey } })`
unfoldable pub find_replay : CheckoutInput → Db → Option Bill
find_replay i d =
    find (λ b. nat_beq b.shop_id i.shop_id && key_beq b.idempotency_key i.idempotency_key) d.bills

abbrev same_price : Money → Option Money → Bool
same_price price none = false
same_price price (some p) = equals p price

-- `if (!current || !r.unitPrice.equals(current)) throw`
abbrev pub recheck_line : List (RowId × Money) → ResolvedItem → Action (Unit {0})
recheck_line prices l =
    throw_if (not (same_price l.unit_price (price_at l.product.id prices)))
      (app (Errors.conflict price_changed))

-- The second look at the prices: the override is read again, the products are those of before.
unfoldable pub recheck_prices : RowId → Prepared → Action (Unit {0})
recheck_prices shop_id p = do
  prices ← query (λ d. get_effective_prices d shop_id p.products)
  for_each p.lines (recheck_line prices)

-- A place in the order of product ids, before what is equal.
unfoldable pub insert_item : CheckoutItem → List CheckoutItem → List CheckoutItem
insert_item t [] = t ∷ []
insert_item t (u ∷ us) = if ltb u.product_id t.product_id then u ∷ insert_item t us else t ∷ u ∷ us

-- `[...items].sort(byProductId)`, which is stable.
unfoldable pub deduction_order : List CheckoutItem → List CheckoutItem
unfolding insert_item
deduction_order [] = []
deduction_order (t ∷ items) = insert_item t (deduction_order items)

abbrev pub sale_input : CheckoutInput → CheckoutItem → AdjustStockInput
sale_input i t = record {
  shop_id = i.shop_id;
  cashier_id = some i.cashier_id;
  product_id = t.product_id;
  delta = negate (to_int t.quantity);
  type = stock_out;
  reason = sale;
  actor_id = some i.cashier_id;
  allow_unassigned = false;
}

-- One round of the deduction loop.
abbrev pub deduct : CheckoutInput → CheckoutItem → Action (Unit {0})
deduct i t = do adjust_stock (sale_input i t); pure tt

-- One round of the loop over the credit payments. The customer is set: `prepare` has checked it.
abbrev pub charge_input : Env → CheckoutInput → CheckedPayment → ChargeInput
charge_input env i p = record {
  shop_id = i.shop_id;
  customer_id = get_or i.customer_id 0;
  bill_id = env.bill_id;
  amount = p.payment.amount;
  actor_id = some i.cashier_id;
}

abbrev pub charge_payment : Env → CheckoutInput → CheckedPayment → Action (Unit {0})
charge_payment env i p = charge_credit (charge_input env i p)

-- The bill with its number, and the charges of its credit payments.
unfoldable pub write_bill : Env → CheckoutInput → Prepared → BillNumber → Action Bill
write_bill env i p number = do
  let bill : Bill = new_bill env i p number
  create_bill bill
  for_each (filter is_credit p.payments) (charge_payment env i)
  pure bill

-- The body of the transaction.
unfoldable pub checkout_body : Env → CheckoutInput → Prepared → Action Bill
unfolding write_bill
checkout_body env i p = do
  recheck_prices i.shop_id p
  for_each (deduction_order i.items) (deduct i)
  number ← next_bill_number i.shop_id env.year
  write_bill env i p number

abbrev payment_action : List CheckoutPayment → AuditAction
payment_action payments = if ltb 1 (length payments) then split_payment_created else payment_created

abbrev pub audit_checkout : CheckoutInput → Prepared → Bill → Action (Unit {0})
audit_checkout i p bill = do
  record_audit bill_created i.cashier_id i.shop_id bill.id
  record_audit (payment_action i.payments) i.cashier_id i.shop_id bill.id
  for_each (filter is_credit p.payments)
      (λ x. record_audit credit_payment_created i.cashier_id i.shop_id bill.id)

-- The `try` block: the transaction, the audit rows and the bill read again.
unfoldable pub commit_checkout : Env → CheckoutInput → Prepared → Action Bill
unfolding record_audit
commit_checkout env i p = do
  bill ← transaction (checkout_body env i p)
  audit_checkout i p bill
  fresh ← query (λ d. find (λ b. nat_beq b.id bill.id) d.bills)
  or_throw fresh (db record_not_found)

-- The `catch` block: a lost race on the idempotency key is answered with the winner's bill.
unfoldable pub recover : CheckoutInput → Failure → Action Bill
recover i (db unique_violation) =
    if is_set i.idempotency_key
    then (do existing ← query (find_replay i); or_throw existing (db unique_violation))
    else throw (db unique_violation)
recover i e = throw e

-- What follows where no bill answers the key. `others` is what the rest of the system commits
-- between this request's reads and its transaction.
unfoldable pub checkout_new : Env → CheckoutInput → Action Bill
checkout_new env i = do
  p ← prepare i
  modify env.others
  catching (commit_checkout env i p) (recover i)

abbrev or_new : Env → CheckoutInput → Option Bill → Action Bill
or_new env i (some bill) = pure bill
or_new env i none = checkout_new env i

unfoldable pub checkout_bill : Env → CheckoutInput → Action Bill
checkout_bill env i =
    if is_set i.idempotency_key
    then (do existing ← query (find_replay i); or_new env i existing)
    else checkout_new env i
