-- ===== src/Inventory/Views.antt =====
-- The readings of src/services/inventoryService.ts: the stock that a cashier or an admin sees.
pub mod Laws
pub mod Branches
use backend_v.Prelude.{
  ℕ, Bool, ◌&&◌, true, false, Option, none, some, List, [], ◌∷◌, nat_beq, find, filter, any, map,
  get_or, if◌then◌else◌, length, ◌-◌,
}
use backend_v.Prelude.Int.{ℤ, pos, ◌+ℤ◌}
use backend_v.Catalog.{assigned_to_shop}
use backend_v.Errors.{ok}
use backend_v.Inventory.Mode.{InventoryMode, cashier_mode, branch_mode, get_inventory_mode}
use backend_v.Inventory.Table.{StockRow, StockTable, create_missing}
use backend_v.Store.Action.{Action, pure, query, ◌>>=◌, ◌>>◌, modify}
use backend_v.Store.Schema.{RowId, Db, Product, BranchKey, CashierKey, cashier_key_eq}

-- A JavaScript Map from products to numbers, by its entries. The rows that the entries come from
-- have a unique key, so no product has two.
abbrev pub StockMap : Type 0
StockMap = List (RowId × ℤ)

unfoldable pub get : RowId → StockMap → Option ℤ
get k [] = none
get k ((j, v) ∷ m) = if nat_beq j k then some v else get k m

abbrev pub includes : List RowId → RowId → Bool
includes ids k = any (λ i. nat_beq i k) ids

-- `branchInventory.findMany({ where: { shopId, productId: { in: ids } } })`, as entries.
unfoldable pub branch_entries : RowId → List RowId → StockTable BranchKey → StockMap
branch_entries shop_id ids [] = []
branch_entries shop_id ids (r ∷ t) =
    if nat_beq r.key.shop_id shop_id && includes ids r.key.product_id
    then (r.key.product_id, r.quantity) ∷ branch_entries shop_id ids t
    else branch_entries shop_id ids t

-- The same of one cashier's rows.
unfoldable pub cashier_entries : RowId → RowId → List RowId → StockTable CashierKey → StockMap
cashier_entries shop_id cashier_id ids [] = []
cashier_entries shop_id cashier_id ids (r ∷ t) =
    if nat_beq r.key.shop_id shop_id
      && (nat_beq r.key.cashier_id cashier_id && includes ids r.key.product_id)
    then (r.key.product_id, r.quantity) ∷ cashier_entries shop_id cashier_id ids t
    else cashier_entries shop_id cashier_id ids t

-- One more row in the sum of its product.
unfoldable pub add_to_group : RowId → ℤ → StockMap → StockMap
add_to_group k v [] = (k, v) ∷ []
add_to_group k v ((j, w) ∷ m) = if nat_beq j k then (j, w +ℤ v) ∷ m else (j, w) ∷ add_to_group k v m

-- `cashierInventory.groupBy({ by: ["productId"], where: …, _sum: { quantity: true } })`
unfoldable pub group_entries : RowId → List RowId → StockTable CashierKey → StockMap
unfolding add_to_group
group_entries shop_id ids [] = []
group_entries shop_id ids (r ∷ t) =
    if nat_beq r.key.shop_id shop_id && includes ids r.key.product_id
    then add_to_group r.key.product_id r.quantity (group_entries shop_id ids t)
    else group_entries shop_id ids t

shop_stock_in : InventoryMode → Db → RowId → List RowId → StockMap
shop_stock_in branch_mode d shop_id ids = branch_entries shop_id ids d.branch_inventory
shop_stock_in cashier_mode d shop_id ids = group_entries shop_id ids d.cashier_inventory

-- `getShopStockMap`. Its early return for no ids is the empty map, which the queries give too.
unfoldable pub get_shop_stock_map : Db → RowId → List RowId → StockMap
unfolding shop_stock_in
get_shop_stock_map d shop_id [] = []
get_shop_stock_map d shop_id (i ∷ ids) = shop_stock_in (get_inventory_mode d) d shop_id (i ∷ ids)

cashier_stock_in : InventoryMode → Db → RowId → RowId → List RowId → StockMap
cashier_stock_in branch_mode d shop_id cashier_id ids = get_shop_stock_map d shop_id ids
cashier_stock_in cashier_mode d shop_id cashier_id ids =
    cashier_entries shop_id cashier_id ids d.cashier_inventory

-- `getCashierStockMap`
unfoldable pub get_cashier_stock_map : Db → RowId → RowId → List RowId → StockMap
unfolding cashier_stock_in
get_cashier_stock_map d shop_id cashier_id [] = []
get_cashier_stock_map d shop_id cashier_id (i ∷ ids) =
    cashier_stock_in (get_inventory_mode d) d shop_id cashier_id (i ∷ ids)

-- `getCashierStock`
unfoldable pub get_cashier_stock : Db → RowId → RowId → RowId → ℤ
get_cashier_stock d shop_id cashier_id product_id =
    get_or (get product_id (get_cashier_stock_map d shop_id cashier_id (product_id ∷ []))) (pos 0)

abbrev pub restocked : Product → ℤ → Product
restocked p q = record p { stock = q }

-- `withBranchStock`: the products with the branch's stock in place of the aggregate.
unfoldable pub with_branch_stock : Db → RowId → List Product → List Product
with_branch_stock d shop_id products =
    let stock = get_shop_stock_map d shop_id (map (λ p. p.id) products) in
    map (λ p. restocked p (get_or (get p.id stock) (pos 0))) products

recorded_ids : RowId → List RowId → StockTable BranchKey → List RowId
recorded_ids shop_id ids [] = []
recorded_ids shop_id ids (r ∷ t) =
    if nat_beq r.key.shop_id shop_id && includes ids r.key.product_id
    then r.key.product_id ∷ recorded_ids shop_id ids t
    else recorded_ids shop_id ids t

-- `getRecordedProductIds`: which products have a row at the branch, whatever it holds.
unfoldable pub get_recorded_product_ids : Db → RowId → List RowId → List RowId
unfolding recorded_ids
get_recorded_product_ids d shop_id ids = recorded_ids shop_id ids d.branch_inventory

create_rows : RowId → RowId → List Product → StockTable CashierKey → StockTable CashierKey
create_rows shop_id cashier_id [] t = t
create_rows shop_id cashier_id (p ∷ products) t =
    create_rows shop_id cashier_id products
      (create_missing (record { shop_id = shop_id; cashier_id = cashier_id; product_id = p.id }) t)

initialize_in : InventoryMode → RowId → RowId → Action ℕ
unfolding create_rows
initialize_in branch_mode shop_id cashier_id d = (ok 0, d)
initialize_in cashier_mode shop_id cashier_id d =
    let created =
      create_rows shop_id cashier_id (filter (assigned_to_shop shop_id d) d.products)
        d.cashier_inventory in
    (ok (length created - length d.cashier_inventory), record d { cashier_inventory = created })

-- `initializeCashierInventory`: a row of 0 for each product of the branch that has none yet, and
-- the count of the new rows; nothing after the cutover.
unfoldable pub initialize_cashier_inventory : RowId → RowId → Action ℕ
unfolding initialize_in
initialize_cashier_inventory shop_id cashier_id = do
  mode ← query get_inventory_mode
  initialize_in mode shop_id cashier_id
