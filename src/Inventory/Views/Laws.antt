-- ===== src/Inventory/Views/Laws.antt =====
-- The maps of the readings (src/services/inventoryService.ts) and the tables.
use backend_v.Prelude.{
  ◌≡◌, refl, ap, ◌∙◌, Bool, ◌&&◌, true, List, [], ◌∷◌, nat_beq, get_or, if◌then◌else◌, arith,
}
use backend_v.Prelude.Int.{ℤ, pos, ◌+ℤ◌, int_laws}
use backend_v.Inventory.Mode.{mode_of, InventoryMode, cashier_mode, branch_mode, get_inventory_mode}
use backend_v.Inventory.Table.{StockTable, quantity_of, sum_where}
use backend_v.Inventory.Views.{
  get, includes, StockMap, branch_entries, cashier_entries, add_to_group, group_entries,
}
use backend_v.Store.Schema.{RowId, Db, BranchKey, CashierKey, branch_key_eq, cashier_key_eq}

abbrev pub at_branch : RowId → RowId → BranchKey
at_branch s p = record { shop_id = s; product_id = p }

abbrev pub at_cashier : RowId → RowId → RowId → CashierKey
at_cashier s c p = record { shop_id = s; cashier_id = c; product_id = p }

abbrev pub of_shop_product : RowId → RowId → CashierKey → Bool
of_shop_product s p k = nat_beq k.shop_id s && nat_beq k.product_id p

unfoldable pub stock_in : InventoryMode → Db → RowId → RowId → ℤ
stock_in branch_mode d s p = quantity_of (at_branch s p) d.branch_inventory
stock_in cashier_mode d s p = sum_where (of_shop_product s p) d.cashier_inventory

-- The stock of a product at a branch: its row's quantity since the cutover, and before it the sum
-- over the branch's cashiers.
unfoldable pub shop_stock : Db → RowId → RowId → ℤ
unfolding stock_in
shop_stock d s p = stock_in (get_inventory_mode d) d s p

unfoldable pub own_stock_in : InventoryMode → Db → RowId → RowId → RowId → ℤ
own_stock_in branch_mode d s c p = quantity_of (at_branch s p) d.branch_inventory
own_stock_in cashier_mode d s c p = quantity_of (at_cashier s c p) d.cashier_inventory

-- The stock that one cashier can sell.
unfoldable pub own_stock : Db → RowId → RowId → RowId → ℤ
unfolding own_stock_in
own_stock d s c p = own_stock_in (get_inventory_mode d) d s c p

stock_in_frame :
    (m : InventoryMode) (d d' : Db) (s p : RowId)
    → d'.branch_inventory ≡ d.branch_inventory
    → d'.cashier_inventory ≡ d.cashier_inventory
    → stock_in m d' s p ≡ stock_in m d s p
unfolding stock_in
stock_in_frame branch_mode d d' s p branch cashier = ap (quantity_of (at_branch s p)) branch
stock_in_frame cashier_mode d d' s p branch cashier = ap (sum_where (of_shop_product s p)) cashier

-- The stock is read from these columns alone.
pub shop_stock_frame :
    (d d' : Db) (s p : RowId)
    → d'.inventory_source ≡ d.inventory_source
    → d'.branch_inventory ≡ d.branch_inventory
    → d'.cashier_inventory ≡ d.cashier_inventory
    → shop_stock d' s p ≡ shop_stock d s p
unfolding shop_stock get_inventory_mode
shop_stock_frame d d' s p source branch cashier =
    ap (λ f. stock_in (mode_of f) d' s p) source
    ∙ stock_in_frame (get_inventory_mode d) d d' s p branch cashier

pub get-branch_entries :
    (s p : RowId) (ids : List RowId) (t : StockTable BranchKey)
    → includes ids p ≡ true
    → get_or (get p (branch_entries s ids t)) (pos 0) ≡ quantity_of (at_branch s p) t
unfolding get branch_entries quantity_of
get-branch_entries s p ids [] h = refl
get-branch_entries s p ids (r ∷ t) h = grind (arith, get-branch_entries s p ids t)

pub get-cashier_entries :
    (s c p : RowId) (ids : List RowId) (t : StockTable CashierKey)
    → includes ids p ≡ true
    → get_or (get p (cashier_entries s c ids t)) (pos 0) ≡ quantity_of (at_cashier s c p) t
unfolding get cashier_entries quantity_of
get-cashier_entries s c p ids [] h = refl
get-cashier_entries s c p ids (r ∷ t) h = grind (arith, get-cashier_entries s c p ids t)

get-add_to_group :
    (k p : RowId) (v : ℤ) (m : StockMap)
    → get_or (get p (add_to_group k v m)) (pos 0)
      ≡ (if nat_beq k p then get_or (get p m) (pos 0) +ℤ v else get_or (get p m) (pos 0))
unfolding get add_to_group
get-add_to_group k p v [] = grind int_laws
get-add_to_group k p v ((j, w) ∷ m) = ground (arith, get-add_to_group k p v m)

pub get-group_entries :
    (s p : RowId) (ids : List RowId) (t : StockTable CashierKey)
    → includes ids p ≡ true
    → get_or (get p (group_entries s ids t)) (pos 0) ≡ sum_where (of_shop_product s p) t
unfolding get group_entries sum_where
get-group_entries s p ids [] h = refl
get-group_entries s p ids (r ∷ t) h = grind (
  int_laws,
  get-group_entries s p ids t,
  get-add_to_group r.key.product_id p r.quantity (group_entries s ids t),
)
