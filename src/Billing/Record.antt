-- ===== src/Billing/Record.antt =====
-- The rows that `checkoutBill` (src/services/billingService.ts) writes for a bill.
use text.Mathlib.Text.{◌==◌ as str_eq}
use backend_v.Prelude.{
  ℕ, Bool, ◌&&◌, ◌||◌, not, true, false, Option, none, some, List, [], ◌∷◌, ◌++◌, nat_beq, any,
  if◌then◌else◌,
}
use backend_v.Prelude.Int.{pos, ltb_ℤ, ◌-ℤ◌}
use backend_v.Billing.Input.{CheckoutInput}
use backend_v.Billing.Prepare.{ResolvedItem, CheckedPayment, Prepared}
use backend_v.Errors.{db, unique_violation, foreign_key_violation}
use backend_v.Money.{Money, mul, round2}
use backend_v.Store.Action.{Action, query, throw_if, modify, ◌>>=◌, ◌>>◌}
use backend_v.Store.Schema.{
  RowId, Time, Db, Bill, BillItem, Payment, PaymentMethod, cash, BillNumber, paid,
}

-- What the request takes from outside: a new row id, the clock, and what other requests commit
-- between this request's reads and its transaction.
pub record Env : Type 0 where
  pub bill_id : RowId
  pub now : Time
  pub year : ℕ
  pub others : Db → Db

unfoldable pub bill_items : List ResolvedItem → List BillItem
bill_items [] = []
bill_items (r ∷ rs) =
    record {
      product_id = r.product.id;
      product_name = r.product.name;
      unit = r.product.unit;
      quantity = r.quantity;
      unit_price = round2 r.unit_price;
      line_total = round2 (mul r.unit_price r.quantity);
    }
    ∷ bill_items rs

abbrev cash_tendered : PaymentMethod → Option Money → Option Money
cash_tendered cash received = received
cash_tendered method received = none

-- `change && change.greaterThan(0) ? change : null`
abbrev positive_change : Money → Option Money → Option Money
positive_change amount none = none
positive_change amount (some received) =
    let change = round2 (received -ℤ amount) in if ltb_ℤ (pos 0) change then some change else none

-- The column is NUMERIC(12, 2), which rounds what is written to it as `round2` does.
abbrev to_column : Option Money → Option Money
to_column none = none
to_column (some v) = some (round2 v)

abbrev pub payment_row : CheckedPayment → Payment
payment_row p = record {
  method = p.method;
  amount = round2 p.payment.amount;
  reference = p.payment.reference;
  cash_received = to_column (cash_tendered p.method p.payment.cash_received);
  change =
      positive_change (round2 p.payment.amount) (cash_tendered p.method p.payment.cash_received);
}

unfoldable pub payment_rows : List CheckedPayment → List Payment
payment_rows [] = []
payment_rows (p ∷ ps) = payment_row p ∷ payment_rows ps

abbrev pub new_bill : Env → CheckoutInput → Prepared → BillNumber → Bill
new_bill env i p number = record {
  id = env.bill_id;
  shop_id = i.shop_id;
  cashier_id = i.cashier_id;
  session_id = some p.session.id;
  customer_id = i.customer_id;
  bill_number = some number;
  subtotal = p.subtotal;
  discount = p.discount;
  tax = p.tax;
  grand_total = p.grand_total;
  status = paid;
  idempotency_key = i.idempotency_key;
  paid_at = some env.now;
  cancelled_at = none;
  cancelled_by_id = none;
  cancel_reason = none;
  cancelled_after_session_close = false;
  items = bill_items p.lines;
  payments = payment_rows p.payments;
}

abbrev number_beq : Option BillNumber → Option BillNumber → Bool
number_beq (some a) (some b) =
    nat_beq a.year b.year && nat_beq a.seq b.seq && str_eq a.shop_code b.shop_code
number_beq a b = false

abbrev pub key_beq : Option RowId → Option RowId → Bool
key_beq (some a) (some b) = nat_beq a b
key_beq a b = false

-- `@@unique([shopId, idempotencyKey])` and `billNumber @unique`. No two nulls clash.
abbrev pub clashes : Bill → Bill → Bool
clashes b c =
    (nat_beq c.shop_id b.shop_id && key_beq c.idempotency_key b.idempotency_key)
    || number_beq c.bill_number b.bill_number

abbrev is_customer : Option RowId → Db → Bool
is_customer none d = true
is_customer (some c) d = any (λ x. nat_beq x.id c) d.customers

-- `bill.create`, with the table's unique indexes and its reference to the customer.
unfoldable pub create_bill : Bill → Action (Unit {0})
create_bill b = do
  clash ← query (λ d. any (clashes b) d.bills)
  throw_if clash (db unique_violation)
  known ← query (is_customer b.customer_id)
  throw_if (not known) (db foreign_key_violation)
  modify (λ d. record d { bills = d.bills ++ b ∷ [] })
