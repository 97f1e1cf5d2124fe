-- ===== src/Inventory/Adjust.antt =====
-- `adjustStock` of src/services/inventoryService.ts and its two modes.
pub mod Laws
pub mod Outcome
pub mod Effects
pub mod Series
use backend_v.Prelude.{
  ◌≡◌, Bool, ◌&&◌, true, false, Option, none, some, List, [], ◌∷◌, ◌++◌, nat_beq, find, update,
  if◌then◌else◌,
}
use backend_v.Prelude.Int.{ℤ, pos, ◌+ℤ◌, ◌-ℤ◌, negate, ltb_ℤ}
use backend_v.Errors
use backend_v.Errors.{Failure, app, db, record_not_found}
use backend_v.Errors.Code.{product_not_found, insufficient_stock}
use backend_v.Catalog.{assigned_to_shop, in_branch_catalog}
use backend_v.Inventory.Mode.{InventoryMode, cashier_mode, branch_mode, get_inventory_mode}
use backend_v.Inventory.Table.{
  StockRow, StockTable, find_unique, quantity_or_zero, create_missing, increment,
  decrement_if_enough,
}
use backend_v.Store.Action.{Action, pure, throw, query, or_throw, ◌>>=◌, ◌>>◌, modify, throw_if}
use backend_v.Store.Schema.{
  RowId, Db, Product, BranchKey, CashierKey, StockMovementType, Reason, InventoryMovement, is_set,
  branch_key_eq, cashier_key_eq,
}

pub record AdjustStockInput : Type 0 where
  pub shop_id : RowId
  pub cashier_id : Option RowId
  pub product_id : RowId
  pub delta : ℤ
  pub type : StockMovementType
  pub reason : Reason
  pub actor_id : Option RowId
  pub allow_unassigned : Bool

pub record StockChange : Type 0 where
  pub previous_stock : ℤ
  pub new_stock : ℤ

abbrev pub is_zero : ℤ → Bool
is_zero (pos n) = nat_beq n 0
is_zero n = false

abbrev pub branch_key : AdjustStockInput → BranchKey
branch_key i = record { shop_id = i.shop_id; product_id = i.product_id }

abbrev pub cashier_key : AdjustStockInput → RowId → CashierKey
cashier_key i c = record { shop_id = i.shop_id; cashier_id = c; product_id = i.product_id }

-- `product.update({ where: { id }, data: { stock: { increment: delta } } })`
unfoldable pub increment_stock : RowId → ℤ → List Product → List Product
increment_stock id d ps = update (λ p. nat_beq p.id id) (λ p. record p { stock = p.stock +ℤ d }) ps

-- The row that a change writes to the movement history.
abbrev pub movement_of : AdjustStockInput → Option RowId → StockChange → InventoryMovement
movement_of i c change = record {
  shop_id = i.shop_id;
  product_id = i.product_id;
  cashier_id = c;
  type = i.type;
  quantity = i.delta;
  previous_stock = change.previous_stock;
  new_stock = change.new_stock;
  reason = i.reason;
  actor_id = i.actor_id;
}

abbrev pub insufficient : Failure
insufficient = app (Errors.conflict insufficient_stock)

-- A conditional `updateMany`; a count of 0 is answered with the conflict.
abbrev pub take_branch : BranchKey → ℤ → Action (Unit {0})
take_branch k n d = elim (decrement_if_enough k n d.branch_inventory) [
  | none ↦ throw insufficient d
  | some t ↦ (Errors.ok tt, record d { branch_inventory = t })
]

abbrev pub take_cashier : CashierKey → ℤ → Action (Unit {0})
take_cashier k n d = elim (decrement_if_enough k n d.cashier_inventory) [
  | none ↦ throw insufficient d
  | some t ↦ (Errors.ok tt, record d { cashier_inventory = t })
]

-- A negative change is taken if there is enough; a positive one is added.
unfoldable pub move_branch : BranchKey → ℤ → Action (Unit {0})
move_branch k delta =
    if ltb_ℤ delta (pos 0)
    then take_branch k (negate delta)
    else modify (λ d. record d { branch_inventory = increment k delta d.branch_inventory })

unfoldable pub move_cashier : CashierKey → ℤ → Action (Unit {0})
move_cashier k delta =
    if ltb_ℤ delta (pos 0)
    then take_cashier k (negate delta)
    else modify (λ d. record d { cashier_inventory = increment k delta d.cashier_inventory })

-- The aggregate over all branches and the movement, in the same transaction.
abbrev finish : AdjustStockInput → Option RowId → ℤ → Action StockChange
finish i c new_stock = do
  let change : StockChange = record { previous_stock = new_stock -ℤ i.delta; new_stock = new_stock }
  modify (λ d. record d { movements = d.movements ++ movement_of i c change ∷ [] })
  pure change

abbrev unchanged : ℤ → StockChange
unchanged q = record { previous_stock = q; new_stock = q }

unfoldable pub adjust_branch_stock : AdjustStockInput → Action StockChange
adjust_branch_stock i =
    let key = branch_key i in
    if is_zero i.delta
    then query (λ d. unchanged (quantity_or_zero (find_unique key d.branch_inventory)))
    else do
      modify (λ d. record d { branch_inventory = create_missing key d.branch_inventory })
      move_branch key i.delta
      modify (λ d. record d { products = increment_stock i.product_id i.delta d.products })
      found ← query (λ d. find_unique key d.branch_inventory)
      row ← or_throw found (db record_not_found)
      finish i i.cashier_id row.quantity

-- `if (!input.cashierId) throw`: an absent or empty id.
abbrev named : Option RowId → Option RowId
named c = if is_set c then c else none

unfoldable pub adjust_cashier_row : AdjustStockInput → RowId → Action StockChange
adjust_cashier_row i c =
    let key = cashier_key i c in
    if is_zero i.delta
    then query (λ d. unchanged (quantity_or_zero (find_unique key d.cashier_inventory)))
    else do
      modify (λ d. record d { cashier_inventory = create_missing key d.cashier_inventory })
      move_cashier key i.delta
      modify (λ d. record d { products = increment_stock i.product_id i.delta d.products })
      found ← query (λ d. find_unique key d.cashier_inventory)
      row ← or_throw found (db record_not_found)
      finish i (some c) row.quantity

unfoldable pub adjust_cashier_stock : AdjustStockInput → Action StockChange
adjust_cashier_stock i = do
  c ← or_throw (named i.cashier_id) (app Errors.validation)
  adjust_cashier_row i c

-- `product.findFirst({ where: … })`
unfoldable pub find_product : AdjustStockInput → Db → Option Product
find_product i d =
    find
      (λ p.
        nat_beq p.id i.product_id
        && (if i.allow_unassigned
            then in_branch_catalog i.shop_id d p
            else assigned_to_shop i.shop_id d p))
      d.products

adjust_in_mode : InventoryMode → AdjustStockInput → Action StockChange
adjust_in_mode branch_mode i = adjust_branch_stock i
adjust_in_mode cashier_mode i = adjust_cashier_stock i

unfoldable pub adjust_stock : AdjustStockInput → Action StockChange
unfolding adjust_in_mode
adjust_stock i = do
  mode ← query get_inventory_mode
  product ← query (find_product i)
  or_throw product (app (Errors.not_found product_not_found))
  adjust_in_mode mode i
