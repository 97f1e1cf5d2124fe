-- ===== src/Pricing.antt =====
-- src/lib/pricing.ts: the price of a product at a branch.
use backend_v.Prelude.{Option, none, some, List, [], ◌∷◌, find}
use backend_v.Money.{Money, round2}
use backend_v.Catalog.{branch_product_is}
use backend_v.Store.Schema.{RowId, Product, BranchProduct, Db}

-- `round2(priceOverride != null ? priceOverride : sellingPrice)`
unfoldable pub effective_price : Money → Option Money → Money
effective_price selling_price none = round2 selling_price
effective_price selling_price (some price_override) = round2 price_override

abbrev pub override_of : Option BranchProduct → Option Money
override_of none = none
override_of (some r) = r.price_override

-- `overrides.get(productId)`: absent where the branch has no row or the row has no override.
unfoldable pub override_at : Db → RowId → RowId → Option Money
override_at d shop_id product_id =
    override_of (find (branch_product_is shop_id product_id) d.branch_products)

-- `getEffectivePrices`: the map from product to price, as a list of entries.
unfoldable pub get_effective_prices : Db → RowId → List Product → List (RowId × Money)
get_effective_prices d shop_id [] = []
get_effective_prices d shop_id (p ∷ products) =
    (p.id, effective_price p.selling_price (override_at d shop_id p.id))
    ∷ get_effective_prices d shop_id products
