-- ===== src/HeldBills.antt =====
-- src/routes/bills.ts: a cashier sets a cart aside as a held bill, lists the held bills and deletes
-- one. The body has been parsed: the cart is not empty. A quantity is a whole number, as the column
-- of the bill's lines requires. The label and the time of holding are left out. The table of bills
-- is in the order of their creation.
pub mod Laws
use backend_v.Prelude.{
  Bool, ◌&&◌, not, true, false, Option, none, some, List, [], ◌∷◌, ◌++◌, map, nat_beq, find, filter,
  any, is_some, if◌then◌else◌,
}
use backend_v.Prelude.Int.{ℤ}
use backend_v.Audit.{record_audit}
use backend_v.Billing.Input.{CheckoutInput, CheckoutItem, whole}
use backend_v.Billing.Prepare.{
  ResolvedItem, check_customer, find_products, product_at, gate_lines, resolve_items, subtotal_from,
}
use backend_v.Billing.Record.{Env, bill_items, create_bill}
use backend_v.Billing.StockGate.{assert_stock_available}
use backend_v.Errors
use backend_v.Errors.Code.{product_not_found, held_bill_not_found}
use backend_v.Errors.{app, db, record_not_found}
use backend_v.Money.{zero_money, round2}
use backend_v.Pricing.{get_effective_prices}
use backend_v.Store.Action.{Action, pure, query, or_throw, throw_if, modify, for_each, ◌>>=◌, ◌>>◌}
use backend_v.Store.Schema.{
  RowId, Db, Product, Bill, BillStatus, held, bill_held, bill_held_deleted,
}

pub record HoldItem : Type 0 where
  pub product_id : RowId
  pub quantity : ℤ

pub record HoldInput : Type 0 where
  pub shop_id : RowId
  pub cashier_id : RowId
  pub customer_id : Option RowId
  pub items : List HoldItem

abbrev pub is_held : BillStatus → Bool
is_held held = true
is_held s = false

abbrev pub is_own_held : RowId → RowId → Bill → Bool
is_own_held shop_id cashier_id b =
    nat_beq b.shop_id shop_id && (nat_beq b.cashier_id cashier_id && is_held b.status)

-- The cart, as the checks that the checkout shares read it.
abbrev pub held_cart : HoldInput → CheckoutInput
held_cart i = record {
  shop_id = i.shop_id;
  cashier_id = i.cashier_id;
  customer_id = i.customer_id;
  items = map (λ t. record { product_id = t.product_id; quantity = whole t.quantity }) i.items;
  payments = [];
  idempotency_key = none;
}

abbrev pub check_known : List Product → CheckoutItem → Action (Unit {0})
check_known products t =
    throw_if (not (is_some (product_at t.product_id products)))
      (app (Errors.not_found product_not_found))

-- The lines with the server's prices, once every check has passed.
unfoldable pub resolve_hold : HoldInput → Action (List ResolvedItem)
resolve_hold i = do
  check_customer (held_cart i)
  products ← query (find_products (held_cart i))
  assert_stock_available i.shop_id i.cashier_id (gate_lines products (held_cart i).items) true
  prices ← query (λ d. get_effective_prices d i.shop_id products)
  for_each (held_cart i).items (check_known products)
  pure (resolve_items products prices (held_cart i).items)

abbrev pub held_bill : Env → HoldInput → List ResolvedItem → Bill
held_bill env i lines =
    let amount = round2 (subtotal_from zero_money lines) in
    record {
      id = env.bill_id;
      shop_id = i.shop_id;
      cashier_id = i.cashier_id;
      session_id = none;
      customer_id = i.customer_id;
      bill_number = none;
      subtotal = amount;
      discount = zero_money;
      tax = zero_money;
      grand_total = amount;
      status = held;
      idempotency_key = none;
      paid_at = none;
      cancelled_at = none;
      cancelled_by_id = none;
      cancel_reason = none;
      cancelled_after_session_close = false;
      items = bill_items lines;
      payments = [];
    }

unfoldable pub save_held : Env → HoldInput → List ResolvedItem → Action Bill
save_held env i lines = do
  modify env.others
  create_bill (held_bill env i lines)
  record_audit bill_held i.cashier_id i.shop_id env.bill_id
  pure (held_bill env i lines)

-- `POST /api/bills/hold`
unfoldable pub hold_bill : Env → HoldInput → Action Bill
hold_bill env i = do lines ← resolve_hold i; save_held env i lines

unfoldable reverse : List Bill → List Bill
reverse [] = []
reverse (b ∷ bills) = reverse bills ++ b ∷ []

-- `GET /api/bills/held`, the newest first.
unfoldable list_held : RowId → RowId → Action (List Bill)
list_held shop_id cashier_id =
    query (λ d. reverse (filter (is_own_held shop_id cashier_id) d.bills))

abbrev pub own_held : RowId → RowId → Option Bill → Option Bill
own_held shop_id cashier_id none = none
own_held shop_id cashier_id (some b) = if is_own_held shop_id cashier_id b then some b else none

-- `bill.delete`, whose lines go with the bill.
unfoldable pub delete_bill : RowId → Action (Unit {0})
delete_bill id = do
  present ← query (λ d. any (λ b. nat_beq b.id id) d.bills)
  throw_if (not present) (db record_not_found)
  modify (λ d. record d { bills = filter (λ b. not (nat_beq b.id id)) d.bills })

unfoldable pub delete_found : (Db → Db) → RowId → RowId → Bill → Action (Unit {0})
delete_found others shop_id cashier_id bill = do
  modify others
  delete_bill bill.id
  record_audit bill_held_deleted cashier_id shop_id bill.id

-- `DELETE /api/bills/held/:id`
unfoldable pub delete_held : (Db → Db) → RowId → RowId → RowId → Action (Unit {0})
delete_held others shop_id cashier_id id = do
  found ← query (λ d. find (λ b. nat_beq b.id id) d.bills)
  bill ← or_throw (own_held shop_id cashier_id found) (app (Errors.not_found held_bill_not_found))
  delete_found others shop_id cashier_id bill
