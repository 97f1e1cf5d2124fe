-- ===== src/Billing/Prepare.antt =====
-- The part of `checkoutBill` (src/services/billingService.ts) before its transaction.
use backend_v.Prelude.{
  Bool, not, ◌&&◌, ◌||◌, true, false, Option, none, some, List, [], ◌∷◌, nat_beq, find, filter, any,
  get_or, is_some, if◌then◌else◌,
}
use backend_v.Prelude.Int.{ℤ, pos, leb_ℤ, ◌+ℤ◌, ◌-ℤ◌}
use backend_v.Billing.Input.{
  is_finite, is_integer, is_at_most_zero, to_int, CheckoutItem, CheckoutPayment, CheckoutInput,
  method_of,
}
use backend_v.Billing.StockGate.{Line, assert_stock_available}
use backend_v.Catalog.{assigned_to_shop}
use backend_v.Errors
use backend_v.Errors.{app}
use backend_v.Errors.Code.{
  empty_bill, no_payments, no_active_session, customer_not_found, product_not_found,
  product_inactive, payment_amount_mismatch, customer_required_for_credit,
}
use backend_v.Money.{Money, zero_money, add, mul, round2, equals_money}
use backend_v.Pricing.{get_effective_prices}
use backend_v.Store.Action.{Action, pure, query, or_throw, throw_if, ◌>>=◌, ◌>>◌, for_each}
use backend_v.Store.Schema.{
  RowId, Db, Product, ProductStatus, active, inactive, Customer, CashierSession, SessionStatus,
  opened, closed, PaymentMethod, credit, is_set,
}

abbrev pub is_empty {ℓ} : {A : Type ℓ} → List A → Bool
is_empty [] = true
is_empty (x ∷ xs) = false

abbrev pub is_open : SessionStatus → Bool
is_open opened = true
is_open closed = false

abbrev pub is_active : ProductStatus → Bool
is_active active = true
is_active inactive = false

-- `findActiveSession`
unfoldable pub find_active_session : RowId → RowId → Action CashierSession
find_active_session shop_id cashier_id = do
  session ← query (λ d.
      find (λ s. nat_beq s.shop_id shop_id && (nat_beq s.cashier_id cashier_id && is_open s.status))
        d.sessions)
  or_throw session (app (Errors.conflict no_active_session))

abbrev pub is_own : RowId → RowId → Option Customer → Bool
is_own shop_id cashier_id none = false
is_own shop_id cashier_id (some c) =
    nat_beq c.shop_id shop_id && nat_beq (get_or c.cashier_id 0) cashier_id && is_some c.cashier_id

-- A customer on the bill must be one that this cashier created.
unfoldable pub check_customer : CheckoutInput → Action (Unit {0})
check_customer i =
    if is_set i.customer_id
    then (do
      found ← query (λ d. find (λ c. nat_beq c.id (get_or i.customer_id 0)) d.customers)
      throw_if (not (is_own i.shop_id i.cashier_id found))
          (app (Errors.not_found customer_not_found)))
    else pure tt

-- `product.findMany({ where: { id: { in: productIds }, ...assignedToShop(shopId) } })`
unfoldable pub find_products : CheckoutInput → Db → List Product
find_products i d =
    filter (λ p. any (λ t. nat_beq t.product_id p.id) i.items && assigned_to_shop i.shop_id d p)
      d.products

-- `productMap.get(id)`
abbrev pub product_at : RowId → List Product → Option Product
product_at id = find (λ p. nat_beq p.id id)

unfoldable pub check_item : List Product → CheckoutItem → Action (Unit {0})
check_item products t = do
  throw_if (not (is_finite t.quantity) || is_at_most_zero t.quantity) (app Errors.validation)
  throw_if (not (is_integer t.quantity)) (app Errors.validation)
  product ← or_throw (product_at t.product_id products) (app (Errors.not_found product_not_found))
  throw_if (not (is_active product.status)) (app (Errors.bad_request product_inactive))

-- A line of the bill with the price that the server resolved.
pub record ResolvedItem : Type 0 where
  pub product : Product
  pub quantity : ℤ
  pub unit_price : Money

-- `effectivePrices.get(id)`
unfoldable pub price_at : RowId → List (RowId × Money) → Option Money
price_at id [] = none
price_at id ((k, v) ∷ prices) = if nat_beq k id then some v else price_at id prices

abbrev resolve_one :
    List (RowId × Money) → CheckoutItem → Option Product → List ResolvedItem → List ResolvedItem
resolve_one prices t none rest = rest
resolve_one prices t (some p) rest =
    record {
      product = p;
      quantity = to_int t.quantity;
      unit_price = get_or (price_at p.id prices) zero_money;
    }
    ∷ rest

-- `resolvedItems`. Every item's product is in the map by now, and every product of the map in the
-- prices, so no item is passed over.
unfoldable pub resolve_items :
    List Product → List (RowId × Money) → List CheckoutItem → List ResolvedItem
resolve_items products prices [] = []
resolve_items products prices (t ∷ items) =
    resolve_one prices t (product_at t.product_id products) (resolve_items products prices items)

abbrev gate_line : CheckoutItem → Option Product → List Line → List Line
gate_line t none rest = rest
gate_line t (some p) rest =
    record { product_id = t.product_id; product_name = p.name; quantity = to_int t.quantity } ∷ rest

-- The lines that the stock gate is asked about.
unfoldable pub gate_lines : List Product → List CheckoutItem → List Line
gate_lines products [] = []
gate_lines products (t ∷ items) =
    gate_line t (product_at t.product_id products) (gate_lines products items)

-- `for (…) subtotal = add(subtotal, mul(unitPrice, item.quantity))`
unfoldable pub subtotal_from : Money → List ResolvedItem → Money
subtotal_from sum [] = sum
subtotal_from sum (r ∷ rs) = subtotal_from (add sum (mul r.unit_price r.quantity)) rs

-- A payment with a valid method.
pub record CheckedPayment : Type 0 where
  pub method : PaymentMethod
  pub payment : CheckoutPayment

-- One round of the payment loop, before the rest of the loop.
unfoldable pub check_payment :
    CheckoutPayment → Action (List CheckedPayment × Money) → Action (List CheckedPayment × Money)
check_payment p others = do
  method ← or_throw (method_of p.method) (app Errors.validation)
  throw_if (leb_ℤ p.amount (pos 0)) (app Errors.validation)
  rest ← others
  pure (record { method = method; payment = p } ∷ rest.0, rest.1)

-- The payment loop: the methods are resolved and the amounts added up.
unfoldable pub check_payments : Money → List CheckoutPayment → Action (List CheckedPayment × Money)
unfolding check_payment
check_payments sum [] = pure ([], sum)
check_payments sum (p ∷ payments) = check_payment p (check_payments (add sum p.amount) payments)

abbrev pub is_credit : CheckedPayment → Bool
is_credit p = elim p.method [ credit ↦ true | _ ↦ false ]

-- What the checks hand to the transaction.
pub record Prepared : Type 0 where
  pub session : CashierSession
  pub products : List Product
  pub lines : List ResolvedItem
  pub subtotal : Money
  pub discount : Money
  pub tax : Money
  pub grand_total : Money
  pub payments : List CheckedPayment

-- The amounts of a bill: `round2(subtotal.minus(discount).plus(tax))`, without discount and tax.
abbrev pub prepared_of :
    CashierSession → List Product → List ResolvedItem → List CheckedPayment → Prepared
prepared_of session products lines payments =
    let subtotal = round2 (subtotal_from zero_money lines) in
    record {
      session = session;
      products = products;
      lines = lines;
      subtotal = subtotal;
      discount = zero_money;
      tax = zero_money;
      grand_total = round2 (subtotal -ℤ zero_money +ℤ zero_money);
      payments = payments;
    }

-- The prices, the totals and the payments.
unfoldable pub settle : CheckoutInput → CashierSession → List Product → Action Prepared
settle i session products = do
  prices ← query (λ d. get_effective_prices d i.shop_id products)
  let lines : List ResolvedItem = resolve_items products prices i.items
  (payments, payment_sum) ← check_payments zero_money i.payments
  let prepared : Prepared = prepared_of session products lines payments
  throw_if (not (equals_money payment_sum prepared.grand_total))
      (app (Errors.bad_request payment_amount_mismatch))
  throw_if (any is_credit payments && not (is_set i.customer_id))
      (app (Errors.bad_request customer_required_for_credit))
  pure prepared

-- The products that the branch sells, the checks of each line and the stock gate.
unfoldable pub check_lines : CheckoutInput → CashierSession → Action (CashierSession × List Product)
check_lines i session = do
  products ← query (find_products i)
  for_each i.items (check_item products)
  assert_stock_available i.shop_id i.cashier_id (gate_lines products i.items) false
  pure (session, products)

-- The checks of the cart, in the source's order.
unfoldable pub check_cart : CheckoutInput → Action (CashierSession × List Product)
check_cart i = do
  throw_if (is_empty i.items) (app (Errors.bad_request empty_bill))
  throw_if (is_empty i.payments) (app (Errors.bad_request no_payments))
  session ← find_active_session i.shop_id i.cashier_id
  check_customer i
  check_lines i session

-- From the first check on the items to the last on the payments.
unfoldable pub prepare : CheckoutInput → Action Prepared
prepare i = do (session, products) ← check_cart i; settle i session products
