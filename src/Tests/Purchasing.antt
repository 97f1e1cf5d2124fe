-- ===== src/Tests/Purchasing.antt =====
-- The theorems of purchases (src/routes/admin/purchases.ts) on a delivery of three trays of eggs.
use backend_v.Prelude.{◌≡◌, refl, none, some, [], ◌∷◌}
use backend_v.Prelude.Int.{pos, ◌+ℤ◌, ◌-ℤ◌, ◌*ℤ◌, negate}
use backend_v.Errors.{ok, err}
use backend_v.Inventory.Views.Laws.{shop_stock}
use backend_v.Purchases.Reversal.{reverse_purchase_again}
use backend_v.Purchases.RoundTrip.{reverse_purchase-create_purchase}
use backend_v.Purchases.Reverse.{
  ReverseInput, already_reversed, check_reversible, check_reversal, insert_reversal, reverse_body,
  commit_reversal, reverse_found, reverse_purchase,
}
use backend_v.Purchases.{
  PurchaseEnv, PurchaseInput, new_purchase, assert_cashier_belongs_to_shop, resolve_stock_cashier,
  catalog_items, purchase_subtotal, check_purchase, receive, commit_purchase, create_purchase,
}
use backend_v.Store.Schema.{Db, Purchase}
use backend_v.Tests.{shop_db, rupees}
use backend_v.Audit.{record_audit, insert_log}
use backend_v.Catalog.{assigned_to_shop, in_branch_catalog}
use backend_v.Inventory.Adjust.{
  increment_stock, move_branch, move_cashier, adjust_branch_stock, adjust_cashier_row,
  adjust_cashier_stock, find_product, adjust_stock,
}
use backend_v.Inventory.Mode.{get_inventory_mode}
use backend_v.Inventory.Table.{
  sum_where, find_unique, quantity_of, create_missing, increment, decrement_if_enough,
}
use backend_v.Money.{add_from, add, sub, mul, round2, to_number, equals_money}
use backend_v.Prelude.Text.{truncate, codes}
use backend_v.Pricing.{effective_price, override_at, get_effective_prices}
use backend_v.Recovery.{
  record_account_audit, record_recovery_audit, record_ledger, reject_blocked, enforce_throttle,
  require_recovery_configured, find_by_email, find_user, hash_user_agent, change_password,
}
use backend_v.Store.Action.{for_each, catching, transaction}

abbrev delivery_env : PurchaseEnv
delivery_env = record { purchase_id = 90; others = λ d. d }

-- Eggs of the catalog, and bags for the record alone.
abbrev eggs_and_bags : PurchaseInput
eggs_and_bags = record {
  supplier_name = "Farm";
  invoice_number = "F-7";
  purchase_date = 500;
  cashier_id = none;
  receiving_shop_id = 1;
  items =
      record {
        product_id = some 10;
        product_name = "Eggs";
        quantity = pos 3;
        purchase_price = rupees 150;
      }
      ∷ record {
        product_id = none;
        product_name = "Bags";
        quantity = pos 20;
        purchase_price = rupees 2;
      }
      ∷ [];
  admin_id = 9;
}

abbrev bought : Purchase
bought = new_purchase delivery_env eggs_and_bags

abbrev bought_db : Db
bought_db = (create_purchase delivery_env eggs_and_bags shop_db).1

bought_done : create_purchase delivery_env eggs_and_bags shop_db ≡ (ok bought, bought_db)
unfolding insert_log record_audit assigned_to_shop in_branch_catalog increment_stock move_branch
    move_cashier adjust_branch_stock adjust_cashier_row adjust_cashier_stock find_product
    adjust_stock get_inventory_mode sum_where find_unique quantity_of create_missing increment
    decrement_if_enough add_from add sub mul round2 to_number equals_money ◌+ℤ◌ ◌-ℤ◌ ◌*ℤ◌ negate
    truncate codes effective_price override_at get_effective_prices assert_cashier_belongs_to_shop
    resolve_stock_cashier catalog_items purchase_subtotal check_purchase receive commit_purchase
    create_purchase check_reversible check_reversal insert_reversal reverse_body commit_reversal
    reverse_found reverse_purchase record_account_audit record_recovery_audit record_ledger
    reject_blocked enforce_throttle require_recovery_configured find_by_email find_user
    hash_user_agent change_password for_each catching transaction
bought_done = refl

abbrev take_back : ReverseInput
take_back = record { purchase_id = 90; reason = "wrong branch"; cashier_id = none; admin_id = 9 }

abbrev returned_db : Db
returned_db = (reverse_purchase delivery_env take_back bought_db).1

returned_done : reverse_purchase delivery_env take_back bought_db ≡ (ok bought, returned_db)
unfolding insert_log record_audit assigned_to_shop in_branch_catalog increment_stock move_branch
    move_cashier adjust_branch_stock adjust_cashier_row adjust_cashier_stock find_product
    adjust_stock get_inventory_mode sum_where find_unique quantity_of create_missing increment
    decrement_if_enough add_from add sub mul round2 to_number equals_money ◌+ℤ◌ ◌-ℤ◌ ◌*ℤ◌ negate
    truncate codes effective_price override_at get_effective_prices assert_cashier_belongs_to_shop
    resolve_stock_cashier catalog_items purchase_subtotal check_purchase receive commit_purchase
    create_purchase check_reversible check_reversal insert_reversal reverse_body commit_reversal
    reverse_found reverse_purchase record_account_audit record_recovery_audit record_ledger
    reject_blocked enforce_throttle require_recovery_configured find_by_email find_user
    hash_user_agent change_password for_each catching transaction
returned_done = refl

reverse_purchase_again_example :
    reverse_purchase delivery_env take_back returned_db ≡ (err already_reversed, returned_db)
reverse_purchase_again_example =
    reverse_purchase_again delivery_env delivery_env take_back take_back bought_db bought
      returned_db refl returned_done

reverse_purchase-create_purchase_example : shop_stock returned_db 1 10 ≡ shop_stock shop_db 1 10
reverse_purchase-create_purchase_example =
    reverse_purchase-create_purchase delivery_env delivery_env eggs_and_bags take_back shop_db
      bought_db returned_db bought bought refl bought_done refl refl returned_done 1 10
