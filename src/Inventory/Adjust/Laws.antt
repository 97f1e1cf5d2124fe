-- ===== src/Inventory/Adjust/Laws.antt =====
-- What a stock change does, in closed form.
use backend_v.Prelude.{
  ◌≡◌, Bool, ◌&&◌, true, some, [], ◌∷◌, ◌++◌, if◌then◌else◌, arith, Bool-cases, inl, inr,
}
use backend_v.Prelude.Int.{ℤ, pos, ◌+ℤ◌, negate, ltb_ℤ, int_laws, negate-negate, add_sub_cancel}
use backend_v.Errors
use backend_v.Errors.{Result, Failure, app, ok, err}
use backend_v.Errors.Code.{insufficient_stock}
use backend_v.Inventory.Table.{quantity_of, create_missing, increment, exists_row}
use backend_v.Inventory.Table.Laws.{
  decrement_if_enough_lem, quantity_of-create_missing, exists_row-create_missing,
  find_unique-increment, quantity_of_lem,
}
use backend_v.Inventory.Adjust.{
  AdjustStockInput, StockChange, is_zero, branch_key, increment_stock, movement_of,
  adjust_branch_stock, move_branch, move_cashier, cashier_key, adjust_cashier_row, insufficient,
}
use backend_v.Store.Schema.{RowId, Db, BranchKey, CashierKey, branch_key_eq, cashier_key_eq}

-- The change of a quantity that starts at `q`.
abbrev pub change_of : AdjustStockInput → ℤ → StockChange
change_of i q = record { previous_stock = q; new_stock = q +ℤ i.delta }

-- The database after a successful change of a branch's stock.
abbrev pub branch_changed : AdjustStockInput → Db → Db
branch_changed i d = record d {
  branch_inventory =
      increment (branch_key i) i.delta (create_missing (branch_key i) d.branch_inventory);
  products = increment_stock i.product_id i.delta d.products;
  movements =
      d.movements
      ++ movement_of i i.cashier_id (change_of i (quantity_of (branch_key i) d.branch_inventory))
        ∷ [];
}

-- The database after a successful change of a cashier's stock.
abbrev pub cashier_changed : AdjustStockInput → RowId → Db → Db
cashier_changed i c d = record d {
  cashier_inventory =
      increment (cashier_key i c) i.delta (create_missing (cashier_key i c) d.cashier_inventory);
  products = increment_stock i.product_id i.delta d.products;
  movements =
      d.movements
      ++ movement_of i (some c) (change_of i (quantity_of (cashier_key i c) d.cashier_inventory))
        ∷ [];
}

-- A change that would leave less than nothing.
abbrev pub overdraws : ℤ → ℤ → Bool
overdraws q delta = ltb_ℤ delta (pos 0) && ltb_ℤ (q +ℤ delta) (pos 0)

move_branch_lem :
    (k : BranchKey) (delta : ℤ) (d : Db)
    → exists_row k d.branch_inventory ≡ true
    → move_branch k delta d ≡ (
        if overdraws (quantity_of k d.branch_inventory) delta
        then (err (app (Errors.conflict insufficient_stock)), d)
        else (ok tt, record d { branch_inventory = increment k delta d.branch_inventory }))
unfolding move_branch
move_branch_lem k delta d h =
    grind
      (int_laws, decrement_if_enough_lem k (negate delta) d.branch_inventory, negate-negate delta)

-- A stock change at a branch, on every path: nothing for 0, a conflict for an overdraft, and else
-- the new quantity, the aggregate and the movement together.
pub adjust_branch_stock_lem :
    (i : AdjustStockInput) (d : Db)
    → let q = quantity_of (branch_key i) d.branch_inventory in
      adjust_branch_stock i d ≡ (
        if is_zero i.delta
        then (ok (record { previous_stock = q; new_stock = q }), d)
        else (if overdraws q i.delta
            then (
              err insufficient,
              record d { branch_inventory = create_missing (branch_key i) d.branch_inventory },
            )
            else (ok (change_of i q), branch_changed i d)))
unfolding adjust_branch_stock
adjust_branch_stock_lem i d = elim (Bool-cases (is_zero i.delta)) [
  | inl zero ↦ ground (arith, quantity_of_lem (branch_key i) d.branch_inventory)
  | inr nonzero ↦
      let created = create_missing (branch_key i) d.branch_inventory in
      let present = exists_row-create_missing (branch_key i) d.branch_inventory in
      ground (
        arith,
        move_branch_lem (branch_key i) i.delta (record d { branch_inventory = created }) present,
        find_unique-increment (branch_key i) i.delta created present,
        quantity_of-create_missing (branch_key i) (branch_key i) d.branch_inventory,
        add_sub_cancel (quantity_of (branch_key i) d.branch_inventory) i.delta,
      )
]

move_cashier_lem :
    (k : CashierKey) (delta : ℤ) (d : Db)
    → exists_row k d.cashier_inventory ≡ true
    → move_cashier k delta d ≡ (
        if overdraws (quantity_of k d.cashier_inventory) delta
        then (err (app (Errors.conflict insufficient_stock)), d)
        else (ok tt, record d { cashier_inventory = increment k delta d.cashier_inventory }))
unfolding move_cashier
move_cashier_lem k delta d h =
    grind
      (int_laws, decrement_if_enough_lem k (negate delta) d.cashier_inventory, negate-negate delta)

-- The same for a cashier's stock.
pub adjust_cashier_row_lem :
    (i : AdjustStockInput) (c : RowId) (d : Db)
    → let q = quantity_of (cashier_key i c) d.cashier_inventory in
      adjust_cashier_row i c d ≡ (
        if is_zero i.delta
        then (ok (record { previous_stock = q; new_stock = q }), d)
        else (if overdraws q i.delta
            then (
              err insufficient,
              record d { cashier_inventory = create_missing (cashier_key i c) d.cashier_inventory },
            )
            else (ok (change_of i q), cashier_changed i c d)))
unfolding adjust_cashier_row
adjust_cashier_row_lem i c d = elim (Bool-cases (is_zero i.delta)) [
  | inl zero ↦ ground (arith, quantity_of_lem (cashier_key i c) d.cashier_inventory)
  | inr nonzero ↦
      let created = create_missing (cashier_key i c) d.cashier_inventory in
      let present = exists_row-create_missing (cashier_key i c) d.cashier_inventory in
      ground (
        arith,
        move_cashier_lem (cashier_key i c) i.delta (record d { cashier_inventory = created })
            present,
        find_unique-increment (cashier_key i c) i.delta created present,
        quantity_of-create_missing (cashier_key i c) (cashier_key i c) d.cashier_inventory,
        add_sub_cancel (quantity_of (cashier_key i c) d.cashier_inventory) i.delta,
      )
]
