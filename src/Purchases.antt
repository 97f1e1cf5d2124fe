-- ===== src/Purchases.antt =====
-- src/routes/admin/purchases.ts: a delivery to a branch is recorded, or taken back. Also
-- src/lib/stockActor.ts and src/lib/cashierAccess.ts, which say whose stock a change is about.
-- The check of the caller (src/lib/centralAdmin.ts) has passed, and the body has been parsed. A
-- quantity is a whole number, as the integer columns of the stock require.
pub mod Reverse
pub mod Stock
pub mod Undone
pub mod Reversal
pub mod RoundTrip
use backend_v.Prelude.{
  ℕ, String, Bool, ◌&&◌, not, true, false, Option, none, some, List, [], ◌∷◌, ◌++◌, nat_beq, find,
  filter, any, map, if◌then◌else◌,
}
use backend_v.Prelude.Int.{ℤ, negate}
use backend_v.Audit.{record_audit}
use backend_v.Catalog.{assigned_to_shop}
use backend_v.Errors
use backend_v.Errors.{AppError, Failure, app, db, unique_violation, record_not_found}
use backend_v.Errors.Code.{
  ErrorCode, shop_not_found, product_not_found, insufficient_stock, cashier_not_in_shop,
  purchase_not_found, purchase_already_reversed, purchase_not_reversible, purchase_reversal_blocked,
}
use backend_v.Inventory.Adjust.Series.{change_stock}
use backend_v.Inventory.Adjust.{AdjustStockInput}
use backend_v.Inventory.Mode.{InventoryMode, cashier_mode, branch_mode, get_inventory_mode}
use backend_v.Money.{Money, zero_money, add, mul, round2}
use backend_v.Recovery.{eligible, find_user}
use backend_v.Store.Accounts.{User, Role}
use backend_v.Store.Action.{
  Action, pure, query, throw, or_throw, throw_if, modify, for_each, transaction, catching, ◌>>=◌,
  ◌>>◌,
}
use backend_v.Store.Schema.{
  RowId, Time, Db, is_set, stock_in, stock_out, AuditAction, purchase_created, purchase_reversed,
  Reason, Purchase, PurchaseItem, PurchaseStatus, received, PurchaseReversal,
}

pub record PurchaseLine : Type 0 where
  pub product_id : Option RowId
  pub product_name : String
  pub quantity : ℤ
  pub purchase_price : Money

pub record PurchaseInput : Type 0 where
  pub supplier_name : String
  pub invoice_number : String
  pub purchase_date : Time
  pub cashier_id : Option RowId
  pub receiving_shop_id : RowId
  pub items : List PurchaseLine
  pub admin_id : RowId

-- The id of a new row, and what others commit between the checks and the transaction.
pub record PurchaseEnv : Type 0 where
  pub purchase_id : RowId
  pub others : Db → Db

abbrev of_this_shop : RowId → Option RowId → Bool
of_this_shop shop_id none = false
of_this_shop shop_id (some id) = nat_beq id shop_id

-- An active cashier of the shop.
abbrev pub belongs_to_shop : RowId → Option User → Bool
belongs_to_shop shop_id none = false
belongs_to_shop shop_id (some u) = eligible Role.cashier u && of_this_shop shop_id u.shop_id

unfoldable pub assert_cashier_belongs_to_shop : RowId → RowId → Action (Unit {0})
assert_cashier_belongs_to_shop shop_id cashier_id = do
  cashier ← query (find_user cashier_id)
  throw_if (not (belongs_to_shop shop_id cashier)) (app (Errors.bad_request cashier_not_in_shop))

abbrev is_cashier_mode : InventoryMode → Bool
is_cashier_mode cashier_mode = true
is_cashier_mode branch_mode = false

-- `resolveStockCashier`, of an id that is absent or not empty.
unfoldable pub resolve_stock_cashier : RowId → Option RowId → Action (Option RowId)
resolve_stock_cashier shop_id none = do
  mode ← query get_inventory_mode
  throw_if (is_cashier_mode mode) (app Errors.validation)
  pure none
resolve_stock_cashier shop_id (some cashier_id) = do
  assert_cashier_belongs_to_shop shop_id cashier_id
  pure (some cashier_id)

-- A line whose product is in the catalog: `!!item.productId`.
pub record CatalogLine : Type 0 where
  pub product_id : RowId
  pub quantity : ℤ

unfoldable pub catalog_items : List PurchaseItem → List CatalogLine
catalog_items [] = []
catalog_items (it ∷ items) = elim it.product_id [
  | none ↦ catalog_items items
  | some id ↦
      if nat_beq id 0
      then catalog_items items
      else record { product_id = id; quantity = it.quantity } ∷ catalog_items items
]

-- The rows of the lines.
abbrev pub purchase_item : PurchaseLine → PurchaseItem
purchase_item l = record {
  product_id = l.product_id;
  product_name = l.product_name;
  quantity = l.quantity;
  purchase_price = round2 l.purchase_price;
  total = round2 (mul l.purchase_price l.quantity);
}

abbrev pub catalog_lines : PurchaseInput → List CatalogLine
catalog_lines i = catalog_items (map purchase_item i.items)

-- `for (const item of body.items) subtotal = add(…)`
unfoldable pub purchase_subtotal : Money → List PurchaseLine → Money
purchase_subtotal sum [] = sum
purchase_subtotal sum (l ∷ lines) =
    purchase_subtotal (add sum (mul l.purchase_price l.quantity)) lines

abbrev pub new_purchase : PurchaseEnv → PurchaseInput → Purchase
new_purchase env i = record {
  id = env.purchase_id;
  shop_id = i.receiving_shop_id;
  supplier_name = i.supplier_name;
  invoice_number = i.invoice_number;
  purchase_date = i.purchase_date;
  subtotal = round2 (purchase_subtotal zero_money i.items);
  tax = zero_money;
  grand_total = round2 (purchase_subtotal zero_money i.items);
  status = received;
  created_by_id = i.admin_id;
  items = map purchase_item i.items;
}

abbrev pub receipt : PurchaseInput → Option RowId → CatalogLine → AdjustStockInput
receipt i cashier_id l = record {
  shop_id = i.receiving_shop_id;
  cashier_id = cashier_id;
  product_id = l.product_id;
  delta = l.quantity;
  type = stock_in;
  reason = Reason.purchase i.invoice_number i.supplier_name;
  actor_id = some i.admin_id;
  allow_unassigned = false;
}

-- `productMap.has(item.productId)`
abbrev pub has_product : RowId → Db → CatalogLine → Bool
has_product shop_id d l =
    any (λ p. nat_beq p.id l.product_id && assigned_to_shop shop_id d p) d.products

abbrev check_catalog_line : RowId → Db → CatalogLine → Action (Unit {0})
check_catalog_line shop_id d l =
    throw_if (not (has_product shop_id d l)) (app (Errors.not_found product_not_found))

-- What is checked before anything is written, and whose stock the delivery goes to.
unfoldable pub check_purchase : PurchaseInput → Action (Option RowId)
check_purchase i = do
  shop ← query (λ d. find (λ s. nat_beq s.id i.receiving_shop_id) d.shops)
  or_throw shop (app (Errors.not_found shop_not_found))
  cashier_id ← resolve_stock_cashier i.receiving_shop_id i.cashier_id
  d ← query (λ d. d)
  for_each (catalog_lines i) (check_catalog_line i.receiving_shop_id d)
  pure cashier_id

-- The transaction.
unfoldable pub receive : PurchaseEnv → PurchaseInput → Option RowId → Action Purchase
receive env i cashier_id = do
  modify (λ d. record d { purchases = d.purchases ++ new_purchase env i ∷ [] })
  for_each (catalog_lines i) (change_stock (receipt i cashier_id))
  pure (new_purchase env i)

unfoldable pub commit_purchase : PurchaseEnv → PurchaseInput → Option RowId → Action Purchase
commit_purchase env i cashier_id = do
  modify env.others
  purchase ← transaction (receive env i cashier_id)
  record_audit purchase_created i.admin_id i.receiving_shop_id purchase.id
  pure purchase

-- `POST /api/admin/purchases`
unfoldable pub create_purchase : PurchaseEnv → PurchaseInput → Action Purchase
create_purchase env i = do cashier_id ← check_purchase i; commit_purchase env i cashier_id
