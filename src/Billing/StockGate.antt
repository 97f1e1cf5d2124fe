-- ===== src/Billing/StockGate.antt =====
-- `assertStockAvailable` of src/services/billingService.ts.
use backend_v.Prelude.{Bool, not, ◌&&◌, List, [], ◌∷◌, nat_beq, map, get_or, if◌then◌else◌, String}
use backend_v.Prelude.Int.{ℤ, pos, ◌+ℤ◌, ltb_ℤ, leb_ℤ}
use backend_v.Errors
use backend_v.Errors.{app}
use backend_v.Errors.Code.{out_of_stock, insufficient_stock}
use backend_v.Inventory.Views.{StockMap, get, get_cashier_stock_map}
use backend_v.Store.Action.{Action, query, throw_if, ◌>>=◌, ◌>>◌, for_each}
use backend_v.Store.Schema.{RowId}

pub record Line : Type 0 where
  pub product_id : RowId
  pub product_name : String
  pub quantity : ℤ

-- One line in the map of what is wanted: a product keeps its place, its name is the last line's.
unfoldable pub add_wanted : Line → List Line → List Line
add_wanted l [] = l ∷ []
add_wanted l (w ∷ ws) =
    if nat_beq w.product_id l.product_id
    then record l { quantity = w.quantity +ℤ l.quantity } ∷ ws
    else w ∷ add_wanted l ws

unfoldable pub wanted_from : List Line → List Line → List Line
unfolding add_wanted
wanted_from wanted [] = wanted
wanted_from wanted (l ∷ ls) = wanted_from (add_wanted l wanted) ls

-- The two refusals for one product.
abbrev pub check_line : StockMap → Bool → Line → Action (Unit {0})
check_line stock zero_only w = do
  let available : ℤ = get_or (get w.product_id stock) (pos 0)
  throw_if (leb_ℤ available (pos 0)) (app (Errors.conflict out_of_stock))
  throw_if (not zero_only && ltb_ℤ available w.quantity) (app (Errors.conflict insufficient_stock))

unfoldable pub assert_stock_available : RowId → RowId → List Line → Bool → Action (Unit {0})
assert_stock_available shop_id cashier_id lines zero_only = do
  let wanted : List Line = wanted_from [] lines
  stock ← query (λ d. get_cashier_stock_map d shop_id cashier_id (map (λ w. w.product_id) wanted))
  for_each wanted (check_line stock zero_only)
