-- ===== src/Catalog.antt =====
-- src/lib/branchCatalog.ts: which branch carries which product.
use backend_v.Prelude.{Bool, ◌&&◌, nat_beq, any}
use backend_v.Store.Schema.{RowId, Product, BranchProduct, Db}

-- The row of `@@unique([shopId, productId])`.
abbrev pub branch_product_is : RowId → RowId → BranchProduct → Bool
branch_product_is shop_id product_id r =
    nat_beq r.shop_id shop_id && nat_beq r.product_id product_id

-- `{ branchProducts: { some: { shopId, isAssigned: true } } }`
unfoldable pub assigned_to_shop : RowId → Db → Product → Bool
assigned_to_shop shop_id d p =
    any (λ r. branch_product_is shop_id p.id r && r.is_assigned) d.branch_products

-- `{ branchProducts: { some: { shopId } } }`
unfoldable pub in_branch_catalog : RowId → Db → Product → Bool
in_branch_catalog shop_id d p = any (branch_product_is shop_id p.id) d.branch_products
