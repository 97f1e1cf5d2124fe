-- ===== src/Tests/Sale.antt =====
-- A sale on the sample shop (src/services/billingService.ts).
use backend_v.Audit.{record_audit, insert_log}
use backend_v.Prelude.{◌≡◌, refl}
use backend_v.Errors.{ok}
use backend_v.Store.Schema.{Db}
use backend_v.Tests.{shop_db, cart, env, sold_bill}
use backend_v.Billing.BillNumber.{count_up, seq_of, next_bill_number}
use backend_v.Billing.Checkout.{
  find_replay, recheck_prices, insert_item, deduction_order, write_bill, checkout_body,
  commit_checkout, recover, checkout_new, checkout_bill,
}
use backend_v.Billing.Input.{method_of}
use backend_v.Billing.Prepare.{
  find_active_session, check_customer, find_products, check_item, price_at, resolve_items,
  gate_lines, subtotal_from, check_payment, check_payments, settle, check_lines, check_cart,
  prepare,
}
use backend_v.Billing.Record.{bill_items, payment_rows, create_bill}
use backend_v.Billing.StockGate.{add_wanted, wanted_from, assert_stock_available}
use backend_v.Catalog.{assigned_to_shop, in_branch_catalog}
use backend_v.Credit.{shop_customer, set_balance, charge_credit, collect_payment}
use backend_v.Inventory.Adjust.{
  increment_stock, move_branch, move_cashier, adjust_branch_stock, adjust_cashier_row,
  adjust_cashier_stock, find_product, adjust_stock,
}
use backend_v.Inventory.Mode.{get_inventory_mode}
use backend_v.Inventory.Table.{
  sum_where, find_unique, quantity_of, create_missing, increment, decrement_if_enough,
}
use backend_v.Inventory.Views.{
  get, branch_entries, cashier_entries, add_to_group, group_entries, get_shop_stock_map,
  get_cashier_stock_map, get_cashier_stock, with_branch_stock, get_recorded_product_ids,
  initialize_cashier_inventory,
}
use backend_v.Money.{add_from, add, sub, mul, round2, to_number, equals_money}
use backend_v.Prelude.Int.{◌+ℤ◌, ◌-ℤ◌, ◌*ℤ◌, negate}
use backend_v.Pricing.{effective_price, override_at, get_effective_prices}
use backend_v.Store.Action.{for_each, catching, transaction}

abbrev pub sold_db : Db
sold_db = (checkout_bill env cart shop_db).1

pub sale_done : checkout_bill env cart shop_db ≡ (ok sold_bill, sold_db)
unfolding insert_log count_up seq_of next_bill_number find_replay recheck_prices insert_item
    deduction_order write_bill checkout_body record_audit commit_checkout recover checkout_new
    checkout_bill method_of find_active_session check_customer find_products check_item price_at
    resolve_items gate_lines subtotal_from check_payment check_payments settle check_lines
    check_cart prepare bill_items payment_rows create_bill add_wanted wanted_from
    assert_stock_available assigned_to_shop in_branch_catalog shop_customer set_balance
    charge_credit collect_payment increment_stock move_branch move_cashier adjust_branch_stock
    adjust_cashier_row adjust_cashier_stock find_product adjust_stock get_inventory_mode sum_where
    find_unique quantity_of create_missing increment decrement_if_enough get branch_entries
    cashier_entries add_to_group group_entries get_shop_stock_map get_cashier_stock_map
    get_cashier_stock with_branch_stock get_recorded_product_ids initialize_cashier_inventory
    add_from add sub mul round2 to_number equals_money ◌+ℤ◌ ◌-ℤ◌ ◌*ℤ◌ negate effective_price
    override_at get_effective_prices for_each catching transaction
sale_done = refl
