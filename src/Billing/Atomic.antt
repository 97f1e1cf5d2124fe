-- ===== src/Billing/Atomic.antt =====
-- The checks of a checkout (src/services/billingService.ts) as readings of the database.
use backend_v.Prelude.{Bool, true, false, List, [], ◌∷◌, if◌then◌else◌}
use backend_v.Billing.Input.{CheckoutInput, CheckoutPayment, CheckoutItem}
use backend_v.Billing.Prepare.{
  CheckedPayment, prepare, find_active_session, check_customer, check_item, check_payment,
  check_payments, check_cart, check_lines, settle,
}
use backend_v.Billing.StockGate.{Line, assert_stock_available}
use backend_v.Money.{Money, add}
use backend_v.Store.Action.{Action}
use backend_v.Store.Loops.{Reads, reading}
use backend_v.Store.Schema.{RowId, Product, CashierSession}

pub find_active_session-Reads : (s c : RowId) → Reads (find_active_session s c)
unfolding find_active_session
find_active_session-Reads s c = search reading

pub check_item-Reads : (products : List Product) (t : CheckoutItem) → Reads (check_item products t)
unfolding check_item
check_item-Reads products t = search reading

if-Reads : {A : Type 0} (c : Bool) (m k : Action A) → Reads m → Reads k → Reads (if c then m else k)
if-Reads true m k hm hk = hm
if-Reads false m k hm hk = hk

pub check_customer-Reads : (i : CheckoutInput) → Reads (check_customer i)
unfolding check_customer
check_customer-Reads i = search (reading, if-Reads)

pub assert_stock_available-Reads :
    (s c : RowId) (lines : List Line) (zero_only : Bool)
    → Reads (assert_stock_available s c lines zero_only)
unfolding assert_stock_available
assert_stock_available-Reads s c lines zero_only = search reading depth 8

check_payment-Reads :
    (p : CheckoutPayment) (others : Action (List CheckedPayment × Money))
    → Reads others
    → Reads (check_payment p others)
unfolding check_payment
check_payment-Reads p others h = search reading depth 8

pub check_payments-Reads :
    (sum : Money) (payments : List CheckoutPayment) → Reads (check_payments sum payments)
unfolding check_payments
check_payments-Reads sum [] = search reading
check_payments-Reads sum (p ∷ payments) =
    check_payment-Reads p _ (check_payments-Reads (add sum p.amount) payments)

check_lines-Reads : (i : CheckoutInput) (session : CashierSession) → Reads (check_lines i session)
unfolding check_lines
check_lines-Reads i session =
    search (reading, check_item-Reads, assert_stock_available-Reads) depth 12

pub check_cart-Reads : (i : CheckoutInput) → Reads (check_cart i)
unfolding check_cart
check_cart-Reads i =
    search (reading, find_active_session-Reads, check_customer-Reads, check_lines-Reads) depth 12

settle-Reads :
    (i : CheckoutInput) (session : CashierSession) (products : List Product)
    → Reads (settle i session products)
unfolding settle
settle-Reads i session products = search (reading, check_payments-Reads) depth 20

-- The part of a checkout before its transaction writes nothing.
pub prepare-Reads : (i : CheckoutInput) → Reads (prepare i)
unfolding prepare
prepare-Reads i = search (reading, check_cart-Reads, settle-Reads) depth 8
