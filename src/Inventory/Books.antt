-- ===== src/Inventory/Books.antt =====
-- The accounts that every stock change of src/services/inventoryService.ts must keep in step.
pub mod Laws
use backend_v.Prelude.{
  ◌≡◌, refl, Bool, true, false, Option, none, some, List, [], ◌∷◌, nat_beq, find, if◌then◌else◌,
}
use backend_v.Prelude.Int.{ℤ, pos, ◌+ℤ◌}
use backend_v.Inventory.Mode.{InventoryMode, cashier_mode, branch_mode, get_inventory_mode}
use backend_v.Inventory.Table.{sum_where, IsNonneg}
use backend_v.Store.Schema.{
  RowId, Db, Product, BranchKey, CashierKey, InventoryMovement, BranchProduct, Customer,
  CreditTransaction, Bill, CashierSession, BillCounter, Shop, AuditLog,
}

abbrev stock_or_zero : Option Product → ℤ
stock_or_zero none = pos 0
stock_or_zero (some p) = p.stock

-- `Product.stock`, the aggregate over all branches.
unfoldable pub stock_of : RowId → List Product → ℤ
stock_of p products = stock_or_zero (find (λ q. nat_beq q.id p) products)

pub stock_in_mode : InventoryMode → Db → RowId → ℤ
stock_in_mode branch_mode d p = sum_where (λ k. nat_beq k.product_id p) d.branch_inventory
stock_in_mode cashier_mode d p = sum_where (λ k. nat_beq k.product_id p) d.cashier_inventory

-- The stock of a product over all rows of the table that holds the stock.
unfoldable pub all_stock : Db → RowId → ℤ
unfolding stock_in_mode
all_stock d p = stock_in_mode (get_inventory_mode d) d p

-- What the movement history of a product adds up to.
unfoldable pub moved : RowId → List InventoryMovement → ℤ
moved p [] = pos 0
moved p (m ∷ ms) = if nat_beq m.product_id p then m.quantity +ℤ moved p ms else moved p ms

-- No branch and no cashier has less than nothing.
abbrev pub IsStocked : Db → Type 0
IsStocked d = IsNonneg d.branch_inventory × IsNonneg d.cashier_inventory

-- `d'` comes from `d` by stock changes alone: the aggregate of each product moved by what the rows
-- and the history moved by, no quantity fell below 0, and every other table is as it was.
pub record Tracks (d d' : Db) : Type 0 where
  pub source : d'.inventory_source ≡ d.inventory_source
  pub rows :
      (p : RowId)
      → stock_of p d'.products +ℤ all_stock d p ≡ stock_of p d.products +ℤ all_stock d' p
  pub history :
      (p : RowId)
      → stock_of p d'.products +ℤ moved p d.movements
        ≡ stock_of p d.products +ℤ moved p d'.movements
  pub stocked : IsStocked d → IsStocked d'
  pub branch_products : d'.branch_products ≡ d.branch_products
  pub customers : d'.customers ≡ d.customers
  pub credit_transactions : d'.credit_transactions ≡ d.credit_transactions
  pub bills : d'.bills ≡ d.bills
  pub sessions : d'.sessions ≡ d.sessions
  pub bill_counters : d'.bill_counters ≡ d.bill_counters
  pub shops : d'.shops ≡ d.shops
  pub audit_logs : d'.audit_logs ≡ d.audit_logs
  pub purchases : d'.purchases ≡ d.purchases
  pub purchase_reversals : d'.purchase_reversals ≡ d.purchase_reversals
  pub accounts : d'.accounts ≡ d.accounts

-- What `Tracks` says of the stock.
pub record KeepsStock (d d' : Db) : Type 0 where
  pub rows :
      (p : RowId)
      → stock_of p d'.products +ℤ all_stock d p ≡ stock_of p d.products +ℤ all_stock d' p
  pub history :
      (p : RowId)
      → stock_of p d'.products +ℤ moved p d.movements
        ≡ stock_of p d.products +ℤ moved p d'.movements
  pub stocked : IsStocked d → IsStocked d'

-- The columns that the stock is kept in are the same.
pub record SameStock (d d' : Db) : Type 0 where
  pub source : d'.inventory_source ≡ d.inventory_source
  pub products : d'.products ≡ d.products
  pub branch : d'.branch_inventory ≡ d.branch_inventory
  pub cashier : d'.cashier_inventory ≡ d.cashier_inventory
  pub movements : d'.movements ≡ d.movements
