-- ===== src/Tests/Billing.antt =====
-- The theorems of a checkout (src/services/billingService.ts) on the sample shop.
use backend_v.Audit.{record_audit, insert_log}
use backend_v.Prelude.{◌≡◌, refl, ◌⊎◌, if◌then◌else◌, nat_beq, some, true, false, [], ◌∷◌, arith}
use backend_v.Prelude.Int.{pos, ◌+ℤ◌, ◌-ℤ◌, ◌*ℤ◌, negate}
use backend_v.Errors.{ok, err, db, log_rejected}
use backend_v.Billing.Amounts.{IsBalanced, checkout_bill-IsBalanced}
use backend_v.Billing.Effects.{
  Replays, wanted_units, checkout_bill-shop_stock, checkout_bill-Tracks, checkout_bill-KeepsLedger,
}
use backend_v.Billing.Lines.{HasPrices, prepare-HasWholeLines}
use backend_v.Billing.Outcome.{Ended, checkout_bill-Ended}
use backend_v.Billing.Recheck.{recheck_prices-stale}
use backend_v.Billing.Retry.{checkout_bill_retry, checkout_bill_failed}
use backend_v.Billing.Totals.{stored_amount, HasWholeLines, stored_amount-tie}
use backend_v.Credit.Ledger.{KeepsLedger, HasWholeBalances}
use backend_v.Inventory.Books.{KeepsStock}
use backend_v.Inventory.Views.Laws.{shop_stock}
use backend_v.Money.{paisa, add_from, add, sub, mul, round2, to_number, equals_money}
use backend_v.Store.Schema.{RowId, Db, Bill, is_set}
use backend_v.Tests.{
  shop_db, cart, env, sold_bill, tie_cart, tie_prepared, first_half, second_half, as_cash,
  dearer_db,
}
use backend_v.Tests.Sale.{sold_db, sale_done}
use backend_v.Billing.BillNumber.{count_up, seq_of, next_bill_number}
use backend_v.Billing.Checkout.{
  find_replay, recheck_prices, insert_item, deduction_order, write_bill, checkout_body,
  commit_checkout, recover, checkout_new, checkout_bill,
}
use backend_v.Billing.Input.{method_of}
use backend_v.Billing.Prepare.{
  find_active_session, check_customer, find_products, check_item, price_at, resolve_items,
  gate_lines, subtotal_from, check_payment, check_payments, settle, check_lines, check_cart,
  prepare,
}
use backend_v.Billing.Record.{bill_items, payment_rows, create_bill}
use backend_v.Billing.StockGate.{add_wanted, wanted_from, assert_stock_available}
use backend_v.Catalog.{assigned_to_shop, in_branch_catalog}
use backend_v.Credit.{shop_customer, set_balance, charge_credit, collect_payment}
use backend_v.Inventory.Adjust.{
  increment_stock, move_branch, move_cashier, adjust_branch_stock, adjust_cashier_row,
  adjust_cashier_stock, find_product, adjust_stock,
}
use backend_v.Inventory.Mode.{get_inventory_mode}
use backend_v.Inventory.Table.{
  sum_where, find_unique, quantity_of, create_missing, increment, decrement_if_enough,
}
use backend_v.Inventory.Views.{
  get, branch_entries, cashier_entries, add_to_group, group_entries, get_shop_stock_map,
  get_cashier_stock_map, get_cashier_stock, with_branch_stock, get_recorded_product_ids,
  initialize_cashier_inventory,
}
use backend_v.Pricing.{effective_price, override_at, get_effective_prices}
use backend_v.Store.Action.{for_each, catching, transaction}

whole_balances : HasWholeBalances shop_db
whole_balances = ((1_000, refl), tt)

has_prices : HasPrices shop_db
has_prices = record {
  selling = (omega arith, (omega arith, tt));
  overrides = (tt, (omega arith, tt));
}

tie_prepare : prepare tie_cart shop_db ≡ (ok tie_prepared, shop_db)
unfolding insert_log count_up seq_of next_bill_number find_replay recheck_prices insert_item
    deduction_order write_bill checkout_body record_audit commit_checkout recover checkout_new
    checkout_bill method_of find_active_session check_customer find_products check_item price_at
    resolve_items gate_lines subtotal_from check_payment check_payments settle check_lines
    check_cart prepare bill_items payment_rows create_bill add_wanted wanted_from
    assert_stock_available assigned_to_shop in_branch_catalog shop_customer set_balance
    charge_credit collect_payment increment_stock move_branch move_cashier adjust_branch_stock
    adjust_cashier_row adjust_cashier_stock find_product adjust_stock get_inventory_mode sum_where
    find_unique quantity_of create_missing increment decrement_if_enough get branch_entries
    cashier_entries add_to_group group_entries get_shop_stock_map get_cashier_stock_map
    get_cashier_stock with_branch_stock get_recorded_product_ids initialize_cashier_inventory
    add_from add sub mul round2 to_number equals_money ◌+ℤ◌ ◌-ℤ◌ ◌*ℤ◌ negate effective_price
    override_at get_effective_prices for_each catching transaction
tie_prepare = refl

checkout_bill-Ended_example : Ended env cart shop_db (checkout_bill env cart shop_db)
checkout_bill-Ended_example = checkout_bill-Ended env cart shop_db

checkout_bill-shop_stock_example :
    Replays env cart shop_db sold_bill sold_db
    ⊎ ((s p : RowId)
        → shop_stock sold_db s p ≡ (
            if nat_beq s 1
            then shop_stock shop_db s p -ℤ wanted_units p cart.items
            else shop_stock shop_db s p))
checkout_bill-shop_stock_example =
    checkout_bill-shop_stock env cart shop_db sold_bill sold_db sale_done

checkout_bill_retry_example : checkout_bill env cart sold_db ≡ (ok sold_bill, sold_db)
checkout_bill_retry_example =
    checkout_bill_retry env env cart shop_db sold_bill sold_db refl refl sale_done

-- The shop while its database rejects the rows of the log.
abbrev mute_db : Db
mute_db = record shop_db { rejects_log = λ rows row. true }

abbrev unlogged_db : Db
unlogged_db = (checkout_bill env cart mute_db).1

unlogged_done : checkout_bill env cart mute_db ≡ (err (db log_rejected), unlogged_db)
unfolding insert_log count_up seq_of next_bill_number find_replay recheck_prices insert_item
    deduction_order write_bill checkout_body record_audit commit_checkout recover checkout_new
    checkout_bill method_of find_active_session check_customer find_products check_item price_at
    resolve_items gate_lines subtotal_from check_payment check_payments settle check_lines
    check_cart prepare bill_items payment_rows create_bill add_wanted wanted_from
    assert_stock_available assigned_to_shop in_branch_catalog shop_customer set_balance
    charge_credit collect_payment increment_stock move_branch move_cashier adjust_branch_stock
    adjust_cashier_row adjust_cashier_stock find_product adjust_stock get_inventory_mode sum_where
    find_unique quantity_of create_missing increment decrement_if_enough get branch_entries
    cashier_entries add_to_group group_entries get_shop_stock_map get_cashier_stock_map
    get_cashier_stock with_branch_stock get_recorded_product_ids initialize_cashier_inventory
    add_from add sub mul round2 to_number equals_money ◌+ℤ◌ ◌-ℤ◌ ◌*ℤ◌ negate effective_price
    override_at get_effective_prices for_each catching transaction
unlogged_done = refl

checkout_bill_failed_example :
    (unlogged_db ≡ mute_db)
    ⊎ ((unlogged_db ≡ mute_db)
        ⊎ ((bill : Bill) × (db log_rejected ≡ db log_rejected)
            × (unlogged_db.bills ≡ bill ∷ [])
            × ((is_set cart.idempotency_key ≡ false) ⊎ (find_replay cart unlogged_db ≡ some bill))))
checkout_bill_failed_example =
    checkout_bill_failed env cart mute_db unlogged_db (db log_rejected) unlogged_done

checkout_bill-Tracks_example :
    Replays env cart shop_db sold_bill sold_db ⊎ KeepsStock shop_db sold_db
checkout_bill-Tracks_example = checkout_bill-Tracks env cart shop_db sold_bill sold_db sale_done

checkout_bill-KeepsLedger_example :
    Replays env cart shop_db sold_bill sold_db
    ⊎ (KeepsLedger shop_db sold_db × HasWholeBalances sold_db)
checkout_bill-KeepsLedger_example =
    checkout_bill-KeepsLedger env cart shop_db sold_bill sold_db whole_balances sale_done

checkout_bill-IsBalanced_example :
    Replays env cart shop_db sold_bill sold_db ⊎ IsBalanced cart sold_bill
checkout_bill-IsBalanced_example =
    checkout_bill-IsBalanced env cart shop_db sold_bill sold_db has_prices refl sale_done

stored_amount-tie_example :
    (pos 20_000_500_000 +ℤ pos 24_899_500_000 ≡ tie_prepared.grand_total)
    × (stored_amount (payment_rows tie_prepared.payments) ≡ tie_prepared.grand_total +ℤ pos paisa)
stored_amount-tie_example =
    stored_amount-tie tie_cart tie_prepared shop_db shop_db (as_cash first_half)
      (as_cash second_half) 20_000_500_000 24_899_500_000 tie_prepare refl refl refl refl refl

recheck_prices-stale_example : recheck_prices 1 tie_prepared dearer_db ≡ (ok tt, dearer_db)
recheck_prices-stale_example =
    recheck_prices-stale tie_cart shop_db dearer_db tie_prepared tie_prepare refl

prepare-HasWholeLines_example : HasWholeLines tie_prepared.lines
prepare-HasWholeLines_example =
    prepare-HasWholeLines tie_cart shop_db tie_prepared shop_db has_prices tie_prepare
