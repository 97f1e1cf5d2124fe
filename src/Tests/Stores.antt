-- ===== src/Tests/Stores.antt =====
-- The theorems of stock changes and credit (src/services/inventoryService.ts, creditService.ts).
use backend_v.Audit.{record_audit, insert_log}
use backend_v.Prelude.{◌≡◌, refl, arith}
use backend_v.Prelude.Int.{pos, ◌+ℤ◌, ◌-ℤ◌, ◌*ℤ◌, negate}
use backend_v.Errors.{ok}
use backend_v.Credit.{collection_row, shop_customer, set_balance, charge_credit, collect_payment}
use backend_v.Credit.Collection.{collect_payment-KeepsLedger, collect_payment_tie}
use backend_v.Credit.Ledger.{
  KeepsLedger, HasWholeBalances, customer_at, charge_result, charge_credit_lem, Charges,
  charge_credit-Charges, owed, balance_of,
}
use backend_v.Inventory.Adjust.Effects.{shop_stock-adjust_stock}
use backend_v.Inventory.Adjust.Outcome.{Outcome, adjust_stock-Outcome}
use backend_v.Inventory.Adjust.{
  StockChange, increment_stock, move_branch, move_cashier, adjust_branch_stock, adjust_cashier_row,
  adjust_cashier_stock, find_product, adjust_stock,
}
use backend_v.Inventory.Books.{Tracks}
use backend_v.Inventory.Books.Laws.{adjust_stock-Tracks}
use backend_v.Inventory.Views.Laws.{shop_stock}
use backend_v.Money.{paisa, add_from, add, sub, mul, round2, to_number, equals_money}
use backend_v.Store.Schema.{Db}
use backend_v.Tests.{shop_db, delivery, collect_five, collect_half_paisa, charge_ten, asha, rupees}
use backend_v.Billing.BillNumber.{count_up, seq_of, next_bill_number}
use backend_v.Billing.Checkout.{
  find_replay, recheck_prices, insert_item, deduction_order, write_bill, checkout_body,
  commit_checkout, recover, checkout_new, checkout_bill,
}
use backend_v.Billing.Input.{method_of}
use backend_v.Billing.Prepare.{
  find_active_session, check_customer, find_products, check_item, price_at, resolve_items,
  gate_lines, subtotal_from, check_payment, check_payments, settle, check_lines, check_cart,
  prepare,
}
use backend_v.Billing.Record.{bill_items, payment_rows, create_bill}
use backend_v.Billing.StockGate.{add_wanted, wanted_from, assert_stock_available}
use backend_v.Catalog.{assigned_to_shop, in_branch_catalog}
use backend_v.Inventory.Mode.{get_inventory_mode}
use backend_v.Inventory.Table.{
  sum_where, find_unique, quantity_of, create_missing, increment, decrement_if_enough,
}
use backend_v.Inventory.Views.{
  get, branch_entries, cashier_entries, add_to_group, group_entries, get_shop_stock_map,
  get_cashier_stock_map, get_cashier_stock, with_branch_stock, get_recorded_product_ids,
  initialize_cashier_inventory,
}
use backend_v.Pricing.{effective_price, override_at, get_effective_prices}
use backend_v.Store.Action.{for_each, catching, transaction}

whole_balances : HasWholeBalances shop_db
whole_balances = ((1_000, refl), tt)

abbrev stocked_db : Db
stocked_db = (adjust_stock delivery shop_db).1

abbrev stocked_change : StockChange
stocked_change = record { previous_stock = pos 5; new_stock = pos 8 }

delivered : adjust_stock delivery shop_db ≡ (ok stocked_change, stocked_db)
unfolding insert_log count_up seq_of next_bill_number find_replay recheck_prices insert_item
    deduction_order write_bill checkout_body record_audit commit_checkout recover checkout_new
    checkout_bill method_of find_active_session check_customer find_products check_item price_at
    resolve_items gate_lines subtotal_from check_payment check_payments settle check_lines
    check_cart prepare bill_items payment_rows create_bill add_wanted wanted_from
    assert_stock_available assigned_to_shop in_branch_catalog shop_customer set_balance
    charge_credit collect_payment increment_stock move_branch move_cashier adjust_branch_stock
    adjust_cashier_row adjust_cashier_stock find_product adjust_stock get_inventory_mode sum_where
    find_unique quantity_of create_missing increment decrement_if_enough get branch_entries
    cashier_entries add_to_group group_entries get_shop_stock_map get_cashier_stock_map
    get_cashier_stock with_branch_stock get_recorded_product_ids initialize_cashier_inventory
    add_from add sub mul round2 to_number equals_money ◌+ℤ◌ ◌-ℤ◌ ◌*ℤ◌ negate effective_price
    override_at get_effective_prices for_each catching transaction
delivered = refl

abbrev paid_db : Db
paid_db = (collect_payment collect_five shop_db).1

five_collected :
    collect_payment collect_five shop_db
    ≡ (ok (collection_row collect_five, record asha { credit_balance = rupees 5 }), paid_db)
unfolding insert_log count_up seq_of next_bill_number find_replay recheck_prices insert_item
    deduction_order write_bill checkout_body record_audit commit_checkout recover checkout_new
    checkout_bill method_of find_active_session check_customer find_products check_item price_at
    resolve_items gate_lines subtotal_from check_payment check_payments settle check_lines
    check_cart prepare bill_items payment_rows create_bill add_wanted wanted_from
    assert_stock_available assigned_to_shop in_branch_catalog shop_customer set_balance
    charge_credit collect_payment increment_stock move_branch move_cashier adjust_branch_stock
    adjust_cashier_row adjust_cashier_stock find_product adjust_stock get_inventory_mode sum_where
    find_unique quantity_of create_missing increment decrement_if_enough get branch_entries
    cashier_entries add_to_group group_entries get_shop_stock_map get_cashier_stock_map
    get_cashier_stock with_branch_stock get_recorded_product_ids initialize_cashier_inventory
    add_from add sub mul round2 to_number equals_money ◌+ℤ◌ ◌-ℤ◌ ◌*ℤ◌ negate effective_price
    override_at get_effective_prices for_each catching transaction
five_collected = refl

abbrev half_db : Db
half_db = (collect_payment collect_half_paisa shop_db).1

half_collected :
    collect_payment collect_half_paisa shop_db
    ≡ (ok (collection_row collect_half_paisa, record asha { credit_balance = rupees 9 }), half_db)
unfolding insert_log count_up seq_of next_bill_number find_replay recheck_prices insert_item
    deduction_order write_bill checkout_body record_audit commit_checkout recover checkout_new
    checkout_bill method_of find_active_session check_customer find_products check_item price_at
    resolve_items gate_lines subtotal_from check_payment check_payments settle check_lines
    check_cart prepare bill_items payment_rows create_bill add_wanted wanted_from
    assert_stock_available assigned_to_shop in_branch_catalog shop_customer set_balance
    charge_credit collect_payment increment_stock move_branch move_cashier adjust_branch_stock
    adjust_cashier_row adjust_cashier_stock find_product adjust_stock get_inventory_mode sum_where
    find_unique quantity_of create_missing increment decrement_if_enough get branch_entries
    cashier_entries add_to_group group_entries get_shop_stock_map get_cashier_stock_map
    get_cashier_stock with_branch_stock get_recorded_product_ids initialize_cashier_inventory
    add_from add sub mul round2 to_number equals_money ◌+ℤ◌ ◌-ℤ◌ ◌*ℤ◌ negate effective_price
    override_at get_effective_prices for_each catching transaction
half_collected = refl

abbrev charged_db : Db
charged_db = (charge_credit charge_ten shop_db).1

ten_charged : charge_credit charge_ten shop_db ≡ (ok tt, charged_db)
unfolding insert_log count_up seq_of next_bill_number find_replay recheck_prices insert_item
    deduction_order write_bill checkout_body record_audit commit_checkout recover checkout_new
    checkout_bill method_of find_active_session check_customer find_products check_item price_at
    resolve_items gate_lines subtotal_from check_payment check_payments settle check_lines
    check_cart prepare bill_items payment_rows create_bill add_wanted wanted_from
    assert_stock_available assigned_to_shop in_branch_catalog shop_customer set_balance
    charge_credit collect_payment increment_stock move_branch move_cashier adjust_branch_stock
    adjust_cashier_row adjust_cashier_stock find_product adjust_stock get_inventory_mode sum_where
    find_unique quantity_of create_missing increment decrement_if_enough get branch_entries
    cashier_entries add_to_group group_entries get_shop_stock_map get_cashier_stock_map
    get_cashier_stock with_branch_stock get_recorded_product_ids initialize_cashier_inventory
    add_from add sub mul round2 to_number equals_money ◌+ℤ◌ ◌-ℤ◌ ◌*ℤ◌ negate effective_price
    override_at get_effective_prices for_each catching transaction
ten_charged = refl

adjust_stock-Outcome_example : Outcome delivery shop_db (adjust_stock delivery shop_db)
adjust_stock-Outcome_example = adjust_stock-Outcome delivery shop_db

shop_stock-adjust_stock_example : shop_stock stocked_db 1 10 ≡ shop_stock shop_db 1 10 +ℤ pos 3
shop_stock-adjust_stock_example =
    shop_stock-adjust_stock delivery shop_db stocked_change stocked_db 1 10 delivered

adjust_stock-Tracks_example : Tracks shop_db stocked_db
adjust_stock-Tracks_example =
    adjust_stock-Tracks delivery shop_db stocked_change stocked_db delivered

charge_credit_lem_example :
    charge_credit charge_ten shop_db ≡ charge_result charge_ten shop_db (customer_at 1 30 shop_db)
charge_credit_lem_example = charge_credit_lem charge_ten shop_db

charge_credit-Charges_example : Charges shop_db charged_db
charge_credit-Charges_example =
    charge_credit-Charges charge_ten shop_db charged_db (omega arith) ten_charged

collect_payment-KeepsLedger_example : KeepsLedger shop_db paid_db
collect_payment-KeepsLedger_example =
    collect_payment-KeepsLedger collect_five shop_db
      (collection_row collect_five, record asha { credit_balance = rupees 5 }) paid_db 500_000_000
      whole_balances five_collected refl (omega arith)

collect_payment_tie_example :
    balance_of 30 half_db.customers +ℤ owed 30 shop_db.credit_transactions
    ≡ balance_of 30 shop_db.customers +ℤ owed 30 half_db.credit_transactions +ℤ pos paisa
collect_payment_tie_example =
    collect_payment_tie collect_half_paisa shop_db
      (collection_row collect_half_paisa, record asha { credit_balance = rupees 9 }) half_db
      100_500_000 whole_balances half_collected refl refl
