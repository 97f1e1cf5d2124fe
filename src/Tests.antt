-- ===== src/Tests.antt =====
-- A shop with two products, on which the services run (src/services).
pub mod Sale
pub mod Billing
pub mod Stores
pub mod Access
pub mod Cancelling
pub mod Purchasing
pub mod Holding
pub mod Recovering
pub mod Regaining
use Prim.Native.String.{String}
use backend_v.Prelude.{ℕ, ◌*◌, Bool, true, false, Option, none, some, List, [], ◌∷◌}
use backend_v.Prelude.Int.{ℤ, pos}
use backend_v.Billing.Input.{CheckoutInput, CheckoutPayment, whole}
use backend_v.Billing.Prepare.{Prepared, CheckedPayment, ResolvedItem, prepared_of}
use backend_v.Credit.{CollectInput, ChargeInput}
use backend_v.Inventory.Adjust.{AdjustStockInput}
use backend_v.Billing.Record.{Env}
use backend_v.Cancellation.{CancelEnv, CancelBillInput}
use backend_v.Money.{Money, paisa}
use backend_v.Store.Accounts.{User, Accounts, AccountStatus, admin, cashier}
use backend_v.Store.Schema.{
  Db, Product, active, BranchProduct, Customer, CashierSession, opened, Shop, Bill, PaymentMethod,
  cash, credit, paid, stock_in, Reason,
}

abbrev pub rupees : ℕ → Money
rupees n = pos (n * 100_000_000)

abbrev pub eggs : Product
eggs = record {
  id = 10;
  name = "Eggs";
  selling_price = rupees 180;
  stock = pos 5;
  unit = "tray";
  status = active;
}

abbrev pub oil : Product
oil = record {
  id = 11;
  name = "Oil";
  selling_price = rupees 91;
  stock = pos 7;
  unit = "l";
  status = active;
}

abbrev pub carries : ℕ → Option Money → BranchProduct
carries p price = record {
  shop_id = 1;
  product_id = p;
  is_assigned = true;
  price_override = price;
  assigned_at = 0;
  assigned_by_id = none;
  unassigned_at = none;
  unassigned_by_id = none;
}

abbrev pub asha : Customer
asha = record {
  id = 30;
  shop_id = 1;
  cashier_id = some 20;
  name = "Asha";
  credit_balance = rupees 10;
}

-- A cashier of the shop, and the administrator.
abbrev pub meena : User
meena = record {
  id = 20;
  name = "Meena";
  email = "meena@eggs.in";
  phone = none;
  password_hash = "old";
  role = cashier;
  status = AccountStatus.active;
  shop_id = some 1;
  branch_name = none;
}

abbrev pub ravi : User
ravi = record meena { id = 9; name = "Ravi"; email = "ravi@eggs.in"; role = admin; shop_id = none }

abbrev pub test_accounts : Accounts
test_accounts = record {
  users = meena ∷ ravi ∷ [];
  login_sessions =
      record { id = 70; user_id = 20; expires_at = 9_000_000; revoked_at = none }
      ∷ record { id = 71; user_id = 9; expires_at = 9_000_000; revoked_at = none }
      ∷ [];
  recovery_requests = [];
  recovery_codes = [];
  recovery_grants = [];
  recovery_audit = [];
}

abbrev pub shop_db : Db
shop_db = record {
  inventory_source = some "BRANCH";
  products = eggs ∷ oil ∷ [];
  branch_products = carries 10 none ∷ carries 11 (some (rupees 89)) ∷ [];
  branch_inventory =
      record { key = record { shop_id = 1; product_id = 10 }; quantity = pos 5 }
      ∷ record { key = record { shop_id = 1; product_id = 11 }; quantity = pos 7 }
      ∷ [];
  cashier_inventory = [];
  movements = [];
  customers = asha ∷ [];
  credit_transactions = [];
  bills = [];
  sessions = record { id = 40; cashier_id = 20; shop_id = 1; status = opened } ∷ [];
  bill_counters = [];
  shops = record { id = 1; code = "KLR" } ∷ [];
  audit_logs = [];
  rejects_log = λ rows row. false;
  purchases = [];
  purchase_reversals = [];
  accounts = test_accounts;
}

-- Two trays of eggs and a litre of oil, for 400 rupees in cash and 49 on credit.
abbrev pub cart : CheckoutInput
cart = record {
  shop_id = 1;
  cashier_id = 20;
  customer_id = some 30;
  items =
      record { product_id = 11; quantity = whole (pos 1) }
      ∷ record { product_id = 10; quantity = whole (pos 2) }
      ∷ [];
  payments =
      record {
        method = 99 ∷ 97 ∷ 115 ∷ 104 ∷ [];
        amount = rupees 400;
        reference = none;
        cash_received = some (rupees 500);
      }
      ∷ record {
        method = 67 ∷ 114 ∷ 101 ∷ 100 ∷ 105 ∷ 116 ∷ [];
        amount = rupees 49;
        reference = none;
        cash_received = none;
      }
      ∷ [];
  idempotency_key = some 77;
}

abbrev pub env : Env
env = record { bill_id = 50; now = 1_000; year = 2026; others = λ d. d }

abbrev pub cancel_env : CancelEnv
cancel_env = record { now = 2_000; others = λ d. d }

abbrev pub cancel_input : CancelBillInput
cancel_input = record { bill_id = 50; actor_id = 9; reason = "wrong customer" }

-- The bill of the cart.
abbrev pub sold_bill : Bill
sold_bill = record {
  id = 50;
  shop_id = 1;
  cashier_id = 20;
  session_id = some 40;
  customer_id = some 30;
  bill_number = some (record { shop_code = "KLR"; year = 2026; seq = 1 });
  subtotal = rupees 449;
  discount = pos 0;
  tax = pos 0;
  grand_total = rupees 449;
  status = paid;
  idempotency_key = some 77;
  paid_at = some 1_000;
  cancelled_at = none;
  cancelled_by_id = none;
  cancel_reason = none;
  cancelled_after_session_close = false;
  items =
      record {
        product_id = 11;
        product_name = "Oil";
        unit = "l";
        quantity = pos 1;
        unit_price = rupees 89;
        line_total = rupees 89;
      }
      ∷ record {
        product_id = 10;
        product_name = "Eggs";
        unit = "tray";
        quantity = pos 2;
        unit_price = rupees 180;
        line_total = rupees 360;
      }
      ∷ [];
  payments =
      record {
        method = cash;
        amount = rupees 400;
        reference = none;
        cash_received = some (rupees 500);
        change = some (rupees 100);
      }
      ∷ record {
        method = credit;
        amount = rupees 49;
        reference = none;
        cash_received = none;
        change = none;
      }
      ∷ [];
}

abbrev pub session : CashierSession
session = record { id = 40; cashier_id = 20; shop_id = 1; status = opened }

abbrev pub oil_line : ResolvedItem
oil_line = record { product = oil; quantity = pos 1; unit_price = rupees 89 }

abbrev pub eggs_line : ResolvedItem
eggs_line = record { product = eggs; quantity = pos 2; unit_price = rupees 180 }

abbrev pub first_half : CheckoutPayment
first_half = record {
  method = 99 ∷ 97 ∷ 115 ∷ 104 ∷ [];
  amount = pos 20_000_500_000;
  reference = none;
  cash_received = none;
}

abbrev pub second_half : CheckoutPayment
second_half = record {
  method = 99 ∷ 97 ∷ 115 ∷ 104 ∷ [];
  amount = pos 24_899_500_000;
  reference = none;
  cash_received = none;
}

-- The same cart, for two payments that end in half a paisa: 200.005 and 248.995 rupees.
abbrev pub tie_cart : CheckoutInput
tie_cart = record cart { payments = first_half ∷ second_half ∷ [] }

abbrev pub as_cash : CheckoutPayment → CheckedPayment
as_cash p = record { method = cash; payment = p }

abbrev pub tie_prepared : Prepared
tie_prepared =
    prepared_of session (eggs ∷ oil ∷ []) (oil_line ∷ eggs_line ∷ [])
      (as_cash first_half ∷ as_cash second_half ∷ [])

-- Three more trays of eggs.
abbrev pub delivery : AdjustStockInput
delivery = record {
  shop_id = 1;
  cashier_id = none;
  product_id = 10;
  delta = pos 3;
  type = stock_in;
  reason = Reason.stated "count";
  actor_id = some 9;
  allow_unassigned = false;
}

abbrev pub collect_five : CollectInput
collect_five = record {
  shop_id = 1;
  customer_id = 30;
  amount = rupees 5;
  method = some cash;
  reference = none;
  notes = none;
  actor_id = some 20;
}

-- 1.005 rupees.
abbrev pub collect_half_paisa : CollectInput
collect_half_paisa = record collect_five { amount = pos 100_500_000 }

abbrev pub charge_ten : ChargeInput
charge_ten = record {
  shop_id = 1;
  customer_id = 30;
  bill_id = 50;
  amount = rupees 10;
  actor_id = some 20;
}

-- The shop after the prices of all products were raised.
abbrev pub dearer_db : Db
dearer_db = record shop_db {
  products =
      record eggs { selling_price = rupees 200 } ∷ record oil { selling_price = rupees 99 } ∷ [];
}
