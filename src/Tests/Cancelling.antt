-- ===== src/Tests/Cancelling.antt =====
-- The theorems of a cancellation (src/services/billCancellationService.ts) on the sample sale.
use backend_v.Audit.{record_audit, insert_log}
use backend_v.Prelude.{
  ◌≡◌, refl, ◌⊎◌, if◌then◌else◌, nat_beq, arith, ◌≤◌, false, [], ◌∷◌, find, filter, length, some,
}
use backend_v.Errors.{Failure, ok, err}
use backend_v.Cancellation.{
  CancelEnv, CancelBillResult, cancel_result, claimable, check_status, after_close, claim,
  merge_line, merge_lines, insert_restored, in_product_order, restored_items, charges_of,
  sum_amounts, reverse_charge, reverse_credit, cancel_body, read_bill, commit_cancel, cancel_bill,
}
use backend_v.Cancellation.Once.{
  IsSettled, cancel_bill-IsSettled, cancel_bill_race, cancel_bill-shop_stock,
  cancel_bill-KeepsLedger,
}
use backend_v.Billing.Effects.{Replays}
use backend_v.Cancellation.RoundTrip.{cancel_bill-checkout_bill}
use backend_v.Cancellation.Restock.{units_of}
use backend_v.Cancellation.Reversal.{HasUniqueIds, HasNoDebit}
use backend_v.Cancellation.Stages.{CancelEnded, cancel_bill-CancelEnded}
use backend_v.Credit.Ledger.{KeepsLedger}
use backend_v.Inventory.Views.Laws.{shop_stock}
use backend_v.Store.Schema.{RowId, Db, Bill, paid, Customer}
use backend_v.Tests.{shop_db, cart, env, sold_bill, cancel_env, cancel_input, asha, rupees}
use backend_v.Tests.Sale.{sold_db, sale_done}
use backend_v.Billing.BillNumber.{count_up, seq_of, next_bill_number}
use backend_v.Billing.Checkout.{
  find_replay, recheck_prices, insert_item, deduction_order, write_bill, checkout_body,
  commit_checkout, recover, checkout_new, checkout_bill,
}
use backend_v.Billing.Input.{method_of}
use backend_v.Billing.Prepare.{
  find_active_session, check_customer, find_products, check_item, price_at, resolve_items,
  gate_lines, subtotal_from, check_payment, check_payments, settle, check_lines, check_cart,
  prepare,
}
use backend_v.Billing.Record.{bill_items, payment_rows, create_bill}
use backend_v.Billing.StockGate.{add_wanted, wanted_from, assert_stock_available}
use backend_v.Catalog.{assigned_to_shop, in_branch_catalog}
use backend_v.Credit.{shop_customer, set_balance, charge_credit, collect_payment}
use backend_v.Inventory.Adjust.{
  increment_stock, move_branch, move_cashier, adjust_branch_stock, adjust_cashier_row,
  adjust_cashier_stock, find_product, adjust_stock,
}
use backend_v.Inventory.Mode.{get_inventory_mode}
use backend_v.Inventory.Table.{
  sum_where, find_unique, quantity_of, create_missing, increment, decrement_if_enough,
}
use backend_v.Inventory.Views.{
  get, branch_entries, cashier_entries, add_to_group, group_entries, get_shop_stock_map,
  get_cashier_stock_map, get_cashier_stock, with_branch_stock, get_recorded_product_ids,
  initialize_cashier_inventory,
}
use backend_v.Money.{add_from, add, sub, mul, round2, to_number, equals_money}
use backend_v.Prelude.Int.{◌+ℤ◌, ◌-ℤ◌, ◌*ℤ◌, negate}
use backend_v.Pricing.{effective_price, override_at, get_effective_prices}
use backend_v.Store.Action.{for_each, catching, transaction}

abbrev cancelled_db : Db
cancelled_db = (cancel_bill cancel_env cancel_input sold_db).1

abbrev cancelled_result : CancelBillResult
cancelled_result = cancel_result cancel_env cancel_input sold_bill false (rupees 49)

cancelled : cancel_bill cancel_env cancel_input sold_db ≡ (ok cancelled_result, cancelled_db)
unfolding insert_log count_up seq_of next_bill_number find_replay recheck_prices insert_item
    deduction_order write_bill checkout_body record_audit commit_checkout recover checkout_new
    checkout_bill method_of find_active_session check_customer find_products check_item price_at
    resolve_items gate_lines subtotal_from check_payment check_payments settle check_lines
    check_cart prepare bill_items payment_rows create_bill add_wanted wanted_from
    assert_stock_available check_status after_close claim merge_line merge_lines insert_restored
    in_product_order restored_items charges_of sum_amounts reverse_charge reverse_credit cancel_body
    read_bill commit_cancel cancel_bill assigned_to_shop in_branch_catalog shop_customer set_balance
    charge_credit collect_payment increment_stock move_branch move_cashier adjust_branch_stock
    adjust_cashier_row adjust_cashier_stock find_product adjust_stock get_inventory_mode sum_where
    find_unique quantity_of create_missing increment decrement_if_enough get branch_entries
    cashier_entries add_to_group group_entries get_shop_stock_map get_cashier_stock_map
    get_cashier_stock with_branch_stock get_recorded_product_ids initialize_cashier_inventory
    add_from add sub mul round2 to_number equals_money ◌+ℤ◌ ◌-ℤ◌ ◌*ℤ◌ negate effective_price
    override_at get_effective_prices for_each catching transaction
cancelled = refl

-- The second request reads the bill while it is paid, and claims it after the first.
abbrev late_env : CancelEnv
late_env = record { now = 3_000; others = λ d. cancelled_db }

sold_customers : sold_db.customers ≡ record asha { credit_balance = rupees 59 } ∷ []
unfolding insert_log count_up seq_of next_bill_number find_replay recheck_prices insert_item
    deduction_order write_bill checkout_body record_audit commit_checkout recover checkout_new
    checkout_bill method_of find_active_session check_customer find_products check_item price_at
    resolve_items gate_lines subtotal_from check_payment check_payments settle check_lines
    check_cart prepare bill_items payment_rows create_bill add_wanted wanted_from
    assert_stock_available check_status after_close claim merge_line merge_lines insert_restored
    in_product_order restored_items charges_of sum_amounts reverse_charge reverse_credit cancel_body
    read_bill commit_cancel cancel_bill assigned_to_shop in_branch_catalog shop_customer set_balance
    charge_credit collect_payment increment_stock move_branch move_cashier adjust_branch_stock
    adjust_cashier_row adjust_cashier_stock find_product adjust_stock get_inventory_mode sum_where
    find_unique quantity_of create_missing increment decrement_if_enough get branch_entries
    cashier_entries add_to_group group_entries get_shop_stock_map get_cashier_stock_map
    get_cashier_stock with_branch_stock get_recorded_product_ids initialize_cashier_inventory
    add_from add sub mul round2 to_number equals_money ◌+ℤ◌ ◌-ℤ◌ ◌*ℤ◌ negate effective_price
    override_at get_effective_prices for_each catching transaction
sold_customers = refl

one_customer :
    (c : RowId)
    → length (
        filter (λ (x : Customer). nat_beq x.id c) (record asha { credit_balance = rupees 59 } ∷ []))
      ≤ 1
one_customer c = ground arith

unique : HasUniqueIds sold_db.customers
unique c = rw sold_customers (one_customer c)

cancel_bill-CancelEnded_example :
    CancelEnded cancel_env cancel_input sold_db (cancel_bill cancel_env cancel_input sold_db)
cancel_bill-CancelEnded_example = cancel_bill-CancelEnded cancel_env cancel_input sold_db

cancel_bill-IsSettled_example :
    (length (filter (claimable 50) sold_db.bills) ≡ 1) × IsSettled 50 cancelled_db
cancel_bill-IsSettled_example =
    cancel_bill-IsSettled cancel_env cancel_input sold_db cancelled_result cancelled_db cancelled

cancel_bill_race_example :
    (e : Failure) × ((cancel_bill late_env cancel_input sold_db ≡ (err e, sold_db))
      ⊎ (cancel_bill late_env cancel_input sold_db ≡ (err e, cancelled_db)))
cancel_bill_race_example =
    cancel_bill_race cancel_env late_env cancel_input cancel_input sold_db cancelled_db
      cancelled_result refl cancelled refl

cancel_bill-shop_stock_example :
    (b : Bill) × (find (λ x. nat_beq x.id 50) sold_db.bills ≡ some b)
    × (b.status ≡ paid)
    × ((s p : RowId)
        → shop_stock cancelled_db s p ≡ (
            if nat_beq s b.shop_id
            then shop_stock sold_db s p +ℤ units_of p b.items
            else shop_stock sold_db s p))
cancel_bill-shop_stock_example =
    cancel_bill-shop_stock cancel_env cancel_input sold_db cancelled_result cancelled_db cancelled

cancel_bill-KeepsLedger_example :
    KeepsLedger sold_db cancelled_db × (HasNoDebit sold_db → HasNoDebit cancelled_db)
cancel_bill-KeepsLedger_example =
    cancel_bill-KeepsLedger cancel_env cancel_input sold_db cancelled_result cancelled_db unique
      cancelled

cancel_bill-checkout_bill_example :
    Replays env cart shop_db sold_bill sold_db
    ⊎ ((s p : RowId) → shop_stock cancelled_db s p ≡ shop_stock shop_db s p)
cancel_bill-checkout_bill_example =
    cancel_bill-checkout_bill env cart shop_db sold_bill sold_db cancel_env cancel_input
      cancelled_result cancelled_db refl sale_done refl refl cancelled
