-- ===== src/Inventory/Adjust/Effects.antt =====
-- The effect of a successful stock change on the readings, in both modes.
use backend_v.Prelude.{
  ◌≡◌, sym, ap, ◌∙◌, Bool, ◌&&◌, true, false, some, nat_beq, if◌then◌else◌, arith,
}
use backend_v.Prelude.Int.{ℤ, pos, ◌+ℤ◌, int_laws}
use backend_v.Errors.{Result, ok}
use backend_v.Inventory.Mode.{cashier_mode, branch_mode, get_inventory_mode}
use backend_v.Inventory.Table.{quantity_of, create_missing}
use backend_v.Inventory.Table.Laws.{
  exists_row-create_missing, quantity_of-create_missing, quantity_of-increment,
  sum_where-create_missing, sum_where-increment,
}
use backend_v.Inventory.Adjust.Laws.{branch_changed, cashier_changed, overdraws}
use backend_v.Inventory.Adjust.Outcome.{
  Outcome, missing, unnamed, branch_unchanged, cashier_unchanged, branch_overdraft,
  cashier_overdraft, branch_change, cashier_change, adjust_stock-Outcome,
}
use backend_v.Inventory.Adjust.{
  AdjustStockInput, StockChange, is_zero, branch_key, cashier_key, adjust_stock, find_product,
}
use backend_v.Inventory.Views.Laws.{shop_stock, at_branch, of_shop_product}
use backend_v.Store.Schema.{RowId, Db, Product, branch_key_eq, cashier_key_eq}

is_zero_lem : (z : ℤ) → is_zero z ≡ true → z ≡ pos 0
is_zero_lem z h = ground arith

add_zero : (a b : ℤ) → is_zero b ≡ true → a +ℤ b ≡ a
add_zero a b h = rw (is_zero_lem b h) (omega int_laws)

abbrev pub is_target : AdjustStockInput → RowId → RowId → Bool
is_target i s p = nat_beq s i.shop_id && nat_beq p i.product_id

shop_stock-branch_changed :
    (i : AdjustStockInput) (d : Db) (s p : RowId)
    → get_inventory_mode d ≡ branch_mode
    → shop_stock (branch_changed i d) s p
      ≡ (if is_target i s p then shop_stock d s p +ℤ i.delta else shop_stock d s p)
unfolding shop_stock get_inventory_mode
shop_stock-branch_changed i d s p mode =
    let t = d.branch_inventory in
    let created = create_missing (branch_key i) t in
    rw mode (
      ground (
        arith,
        quantity_of-increment (branch_key i) (at_branch s p) i.delta created
            (exists_row-create_missing (branch_key i) t),
        quantity_of-create_missing (branch_key i) (at_branch s p) t,
      ))

shop_stock-cashier_changed :
    (i : AdjustStockInput) (c : RowId) (d : Db) (s p : RowId)
    → get_inventory_mode d ≡ cashier_mode
    → shop_stock (cashier_changed i c d) s p
      ≡ (if is_target i s p then shop_stock d s p +ℤ i.delta else shop_stock d s p)
unfolding shop_stock get_inventory_mode
shop_stock-cashier_changed i c d s p mode =
    let t = d.cashier_inventory in
    let created = create_missing (cashier_key i c) t in
    rw mode (
      ground (
        arith,
        sum_where-increment (of_shop_product s p) (cashier_key i c) i.delta created
            (exists_row-create_missing (cashier_key i c) t),
        sum_where-create_missing (of_shop_product s p) (cashier_key i c) t,
      ))

-- What holds after no change, a branch's change and a cashier's change holds after every
-- successful call.
pub success_cases {ℓ} :
    (P : Db → Type ℓ) (i : AdjustStockInput) (d : Db) (change : StockChange) (d' : Db)
    → adjust_stock i d ≡ (ok change, d')
    → (is_zero i.delta ≡ true → P d)
    → ((q : Product)
        → find_product i d ≡ some q
        → get_inventory_mode d ≡ branch_mode
        → overdraws (quantity_of (branch_key i) d.branch_inventory) i.delta ≡ false
        → P (branch_changed i d))
    → ((q : Product) (c : RowId)
        → find_product i d ≡ some q
        → get_inventory_mode d ≡ cashier_mode
        → overdraws (quantity_of (cashier_key i c) d.cashier_inventory) i.delta ≡ false
        → P (cashier_changed i c d))
    → P d'
success_cases P i d change d' h none_case branch_case cashier_case = go (adjust_stock-Outcome i d)
  where
    state : (x : Result StockChange × Db) → adjust_stock i d ≡ x → d' ≡ x.1
    state x e = ap (λ y. y.1) (sym h ∙ e)

    go : Outcome i d (adjust_stock i d) → P d'
    go (missing _ e) = cc
    go (unnamed _ _ _ _ e) = cc
    go (branch_overdraft _ _ _ _ _ e) = cc
    go (cashier_overdraft _ _ _ _ _ _ _ e) = cc
    go (branch_unchanged _ _ _ zero e) = rw (state _ e) (none_case zero)
    go (cashier_unchanged _ _ _ _ _ zero e) = rw (state _ e) (none_case zero)
    go (branch_change q found mode _ fits e) = rw (state _ e) (branch_case q found mode fits)
    go (cashier_change q c found mode _ _ fits e) =
        rw (state _ e) (cashier_case q c found mode fits)

-- A successful change of a product's stock at a branch moves what every view shows of it by the
-- amount asked for, and the stock of no other product or branch.
pub shop_stock-adjust_stock :
    (i : AdjustStockInput) (d : Db) (change : StockChange) (d' : Db) (s p : RowId)
    → adjust_stock i d ≡ (ok change, d')
    → shop_stock d' s p
      ≡ (if is_target i s p then shop_stock d s p +ℤ i.delta else shop_stock d s p)
shop_stock-adjust_stock i d change d' s p h =
    success_cases
      (λ x.
        shop_stock x s p
        ≡ (if is_target i s p then shop_stock d s p +ℤ i.delta else shop_stock d s p))
      i d change d' h (λ zero. ground (arith, add_zero (shop_stock d s p) i.delta zero))
      (λ q found mode fits. shop_stock-branch_changed i d s p mode)
      (λ q c found mode fits. shop_stock-cashier_changed i c d s p mode)
