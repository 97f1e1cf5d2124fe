-- ===== src/Inventory/Adjust/Outcome.antt =====
-- How `adjustStock` (src/services/inventoryService.ts) can end.
use backend_v.Prelude.{
  ◌≡◌, refl, true, false, none, some, arith, Bool-cases, Option-cases, inl, inr,
}
use backend_v.Errors
use backend_v.Errors.{Result, app, ok, err}
use backend_v.Errors.Code.{product_not_found}
use backend_v.Inventory.Mode.{InventoryMode, cashier_mode, branch_mode, get_inventory_mode}
use backend_v.Inventory.Table.{quantity_of, create_missing}
use backend_v.Inventory.Adjust.Laws.{
  change_of, branch_changed, cashier_changed, overdraws, adjust_branch_stock_lem,
  adjust_cashier_row_lem,
}
use backend_v.Inventory.Adjust.{
  AdjustStockInput, StockChange, is_zero, branch_key, cashier_key, insufficient, unchanged, named,
  find_product, adjust_cashier_stock, adjust_in_mode, adjust_stock, adjust_cashier_row,
}
use backend_v.Store.Schema.{RowId, Db, Product, branch_key_eq, cashier_key_eq}

-- The end `r` of a stock change that begins at `d`, with the condition that leads to it.
pub data Outcome (i : AdjustStockInput) (d : Db) (r : Result StockChange × Db) : Type 0 where
  missing :
      find_product i d ≡ none
      → r ≡ (err (app (Errors.not_found product_not_found)), d)
      → Outcome i d r
  unnamed :
      (p : Product)
      → find_product i d ≡ some p
      → get_inventory_mode d ≡ cashier_mode
      → named i.cashier_id ≡ none
      → r ≡ (err (app Errors.validation), d)
      → Outcome i d r
  branch_unchanged :
      (p : Product)
      → find_product i d ≡ some p
      → get_inventory_mode d ≡ branch_mode
      → is_zero i.delta ≡ true
      → r ≡ (ok (unchanged (quantity_of (branch_key i) d.branch_inventory)), d)
      → Outcome i d r
  cashier_unchanged :
      (p : Product) (c : RowId)
      → find_product i d ≡ some p
      → get_inventory_mode d ≡ cashier_mode
      → named i.cashier_id ≡ some c
      → is_zero i.delta ≡ true
      → r ≡ (ok (unchanged (quantity_of (cashier_key i c) d.cashier_inventory)), d)
      → Outcome i d r
  branch_overdraft :
      (p : Product)
      → find_product i d ≡ some p
      → get_inventory_mode d ≡ branch_mode
      → is_zero i.delta ≡ false
      → overdraws (quantity_of (branch_key i) d.branch_inventory) i.delta ≡ true
      → r ≡ (
        err insufficient,
        record d { branch_inventory = create_missing (branch_key i) d.branch_inventory },
      )
      → Outcome i d r
  cashier_overdraft :
      (p : Product) (c : RowId)
      → find_product i d ≡ some p
      → get_inventory_mode d ≡ cashier_mode
      → named i.cashier_id ≡ some c
      → is_zero i.delta ≡ false
      → overdraws (quantity_of (cashier_key i c) d.cashier_inventory) i.delta ≡ true
      → r ≡ (
        err insufficient,
        record d { cashier_inventory = create_missing (cashier_key i c) d.cashier_inventory },
      )
      → Outcome i d r
  branch_change :
      (p : Product)
      → find_product i d ≡ some p
      → get_inventory_mode d ≡ branch_mode
      → is_zero i.delta ≡ false
      → overdraws (quantity_of (branch_key i) d.branch_inventory) i.delta ≡ false
      → r ≡ (ok (change_of i (quantity_of (branch_key i) d.branch_inventory)), branch_changed i d)
      → Outcome i d r
  cashier_change :
      (p : Product) (c : RowId)
      → find_product i d ≡ some p
      → get_inventory_mode d ≡ cashier_mode
      → named i.cashier_id ≡ some c
      → is_zero i.delta ≡ false
      → overdraws (quantity_of (cashier_key i c) d.cashier_inventory) i.delta ≡ false
      → r ≡ (
        ok (change_of i (quantity_of (cashier_key i c) d.cashier_inventory)),
        cashier_changed i c d,
      )
      → Outcome i d r

branch_Outcome :
    (i : AdjustStockInput) (d : Db) (p : Product)
    → find_product i d ≡ some p
    → get_inventory_mode d ≡ branch_mode
    → Outcome i d (adjust_in_mode branch_mode i d)
unfolding adjust_in_mode
branch_Outcome i d p found mode =
    let q = quantity_of (branch_key i) d.branch_inventory in
    elim (Bool-cases (is_zero i.delta)) [
      | inl zero ↦ branch_unchanged p found mode zero (ground (arith, adjust_branch_stock_lem i d))
      | inr nonzero ↦ elim (Bool-cases (overdraws q i.delta)) [
        | inl over ↦
            branch_overdraft p found mode nonzero over
              (rw (adjust_branch_stock_lem i d, nonzero, over))
        | inr fits ↦
            branch_change p found mode nonzero fits
              (rw (adjust_branch_stock_lem i d, nonzero, fits))
      ]
    ]

named-Outcome :
    (i : AdjustStockInput) (c : RowId) (d : Db) (p : Product)
    → find_product i d ≡ some p
    → get_inventory_mode d ≡ cashier_mode
    → named i.cashier_id ≡ some c
    → Outcome i d (adjust_cashier_row i c d)
named-Outcome i c d p found mode name =
    let q = quantity_of (cashier_key i c) d.cashier_inventory in
    elim (Bool-cases (is_zero i.delta)) [
      | inl zero ↦
          cashier_unchanged p c found mode name zero (ground (arith, adjust_cashier_row_lem i c d))
      | inr nonzero ↦ elim (Bool-cases (overdraws q i.delta)) [
        | inl over ↦
            cashier_overdraft p c found mode name nonzero over
              (rw (adjust_cashier_row_lem i c d, nonzero, over))
        | inr fits ↦
            cashier_change p c found mode name nonzero fits
              (rw (adjust_cashier_row_lem i c d, nonzero, fits))
      ]
    ]

cashier_Outcome :
    (i : AdjustStockInput) (d : Db) (p : Product)
    → find_product i d ≡ some p
    → get_inventory_mode d ≡ cashier_mode
    → Outcome i d (adjust_in_mode cashier_mode i d)
unfolding adjust_in_mode adjust_cashier_stock
cashier_Outcome i d p found mode = elim (Option-cases (named i.cashier_id)) [
  | inl absent ↦ unnamed p found mode absent (rw absent)
  | inr (c, name) ↦ rw name (named-Outcome i c d p found mode name)
]

in_mode_Outcome :
    (i : AdjustStockInput) (d : Db) (p : Product) (m : InventoryMode)
    → find_product i d ≡ some p
    → get_inventory_mode d ≡ m
    → Outcome i d (adjust_in_mode m i d)
in_mode_Outcome i d p branch_mode found mode = branch_Outcome i d p found mode
in_mode_Outcome i d p cashier_mode found mode = cashier_Outcome i d p found mode

-- A stock change ends in one of the ways of `Outcome`, which fix the condition, the answer and the
-- database: the product is missing, no cashier is named though the mode asks for one, the change is
-- of zero, there is too little stock, or the row, the aggregate and the history are written.
pub adjust_stock-Outcome : (i : AdjustStockInput) (d : Db) → Outcome i d (adjust_stock i d)
unfolding adjust_stock
adjust_stock-Outcome i d = elim (Option-cases (find_product i d)) [
  | inl none_found ↦ missing none_found (rw none_found)
  | inr (p, found) ↦ rw found (in_mode_Outcome i d p (get_inventory_mode d) found refl)
]
