-- ===== src/Inventory/Views/Branches.antt =====
-- The reading of several branches at once (src/services/inventoryService.ts).
use backend_v.Prelude.{
  ◌≡◌, refl, ◌&&◌, true, Option, none, some, List, [], ◌∷◌, get_or, if◌then◌else◌, ◌==◌, arith,
}
use backend_v.Prelude.Int.{ℤ, pos, ◌+ℤ◌, int_laws}
use backend_v.Inventory.Mode.{InventoryMode, cashier_mode, branch_mode, get_inventory_mode}
use backend_v.Inventory.Table.{StockTable, quantity_of, sum_where}
use backend_v.Inventory.Views.Laws.{shop_stock, stock_in, at_branch, of_shop_product}
use backend_v.Inventory.Views.{includes}
use backend_v.Store.Schema.{RowId, Db, BranchKey, CashierKey, branch_key_eq}

-- A JavaScript Map whose keys are `${shopId}:${productId}`, by its entries. The ids are UUIDs, in
-- which no colon stands.
abbrev BranchStockMap : Type 0
BranchStockMap = List (BranchKey × ℤ)

unfoldable get_at : BranchKey → BranchStockMap → Option ℤ
get_at k [] = none
get_at k ((j, v) ∷ m) = if j == k then some v else get_at k m

-- `branchInventory.findMany`, as entries.
unfoldable branch_rows : List RowId → List RowId → StockTable BranchKey → BranchStockMap
branch_rows shops ids [] = []
branch_rows shops ids (r ∷ t) =
    if includes shops r.key.shop_id && includes ids r.key.product_id
    then (r.key, r.quantity) ∷ branch_rows shops ids t
    else branch_rows shops ids t

-- One more row in the sum of its branch and product.
unfoldable add_to_sum : BranchKey → ℤ → BranchStockMap → BranchStockMap
add_to_sum k v [] = (k, v) ∷ []
add_to_sum k v ((j, w) ∷ m) = if j == k then (j, w +ℤ v) ∷ m else (j, w) ∷ add_to_sum k v m

-- `cashierInventory.groupBy({ by: ["shopId", "productId"], where: …, _sum: { quantity: true } })`
unfoldable branch_sums : List RowId → List RowId → StockTable CashierKey → BranchStockMap
branch_sums shops ids [] = []
branch_sums shops ids (r ∷ t) =
    if includes shops r.key.shop_id && includes ids r.key.product_id
    then add_to_sum (at_branch r.key.shop_id r.key.product_id) r.quantity (branch_sums shops ids t)
    else branch_sums shops ids t

unfoldable stock_by_branch_in : InventoryMode → Db → List RowId → List RowId → BranchStockMap
stock_by_branch_in branch_mode d shops ids = branch_rows shops ids d.branch_inventory
stock_by_branch_in cashier_mode d shops ids = branch_sums shops ids d.cashier_inventory

-- `getStockByBranchProduct`
unfoldable get_stock_by_branch_product : Db → List RowId → List RowId → BranchStockMap
get_stock_by_branch_product d [] ids = []
get_stock_by_branch_product d (s ∷ shops) [] = []
get_stock_by_branch_product d (s ∷ shops) (i ∷ ids) =
    stock_by_branch_in (get_inventory_mode d) d (s ∷ shops) (i ∷ ids)

get_at-branch_rows :
    (s p : RowId) (shops ids : List RowId) (t : StockTable BranchKey)
    → includes shops s ≡ true
    → includes ids p ≡ true
    → get_or (get_at (at_branch s p) (branch_rows shops ids t)) (pos 0)
      ≡ quantity_of (at_branch s p) t
unfolding get_at branch_rows quantity_of
get_at-branch_rows s p shops ids [] h k = refl
get_at-branch_rows s p shops ids (r ∷ t) h k = grind (arith, get_at-branch_rows s p shops ids t)

get_at-add_to_sum :
    (k j : BranchKey) (v : ℤ) (m : BranchStockMap)
    → get_or (get_at k (add_to_sum j v m)) (pos 0)
      ≡ (if j == k then get_or (get_at k m) (pos 0) +ℤ v else get_or (get_at k m) (pos 0))
unfolding get_at add_to_sum
get_at-add_to_sum k j v [] = grind int_laws
get_at-add_to_sum k j v ((l, w) ∷ m) = ground (arith, get_at-add_to_sum k j v m)

get_at-branch_sums :
    (s p : RowId) (shops ids : List RowId) (t : StockTable CashierKey)
    → includes shops s ≡ true
    → includes ids p ≡ true
    → get_or (get_at (at_branch s p) (branch_sums shops ids t)) (pos 0)
      ≡ sum_where (of_shop_product s p) t
unfolding get_at branch_sums sum_where
get_at-branch_sums s p shops ids [] h k = refl
get_at-branch_sums s p shops ids (r ∷ t) h k = grind (
  int_laws,
  get_at-branch_sums s p shops ids t,
  get_at-add_to_sum (at_branch s p) (at_branch r.key.shop_id r.key.product_id) r.quantity
      (branch_sums shops ids t),
)

get_at-stock_by_branch_in :
    (m : InventoryMode) (d : Db) (shops ids : List RowId) (s p : RowId)
    → includes shops s ≡ true
    → includes ids p ≡ true
    → get_or (get_at (at_branch s p) (stock_by_branch_in m d shops ids)) (pos 0) ≡ stock_in m d s p
unfolding stock_by_branch_in stock_in
get_at-stock_by_branch_in branch_mode d shops ids s p h k =
    get_at-branch_rows s p shops ids d.branch_inventory h k
get_at-stock_by_branch_in cashier_mode d shops ids s p h k =
    get_at-branch_sums s p shops ids d.cashier_inventory h k

-- The reading of many branches has each branch's stock of each product asked for.
get_at-stock_by_branch_product :
    (d : Db) (shops ids : List RowId) (s p : RowId)
    → includes shops s ≡ true
    → includes ids p ≡ true
    → get_or (get_at (at_branch s p) (get_stock_by_branch_product d shops ids)) (pos 0)
      ≡ shop_stock d s p
unfolding get_stock_by_branch_product shop_stock
get_at-stock_by_branch_product d [] ids s p h k = cc
get_at-stock_by_branch_product d (t ∷ shops) [] s p h k = cc
get_at-stock_by_branch_product d (t ∷ shops) (i ∷ ids) s p h k =
    get_at-stock_by_branch_in (get_inventory_mode d) d (t ∷ shops) (i ∷ ids) s p h k
