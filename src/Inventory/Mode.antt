-- ===== src/Inventory/Mode.antt =====
-- `getInventoryMode` of src/services/inventoryService.ts.
use Prim.Native.String.{String}
use text.Mathlib.Text.{◌==◌}
use backend_v.Prelude.{Option, none, some, if◌then◌else◌}
use backend_v.Store.Schema.{Db}

-- Which table holds the stock: BRANCH since the cutover, CASHIER before it.
pub data InventoryMode : Type 0 where
  cashier_mode branch_mode : InventoryMode

abbrev pub mode_of : Option String → InventoryMode
mode_of none = cashier_mode
mode_of (some value) = if value == "BRANCH" then branch_mode else cashier_mode

-- A missing flag is the legacy mode. The row lock that a stock change takes is held to the end of
-- its transaction, so within one the mode does not change: the model's transactions are atomic.
unfoldable pub get_inventory_mode : Db → InventoryMode
get_inventory_mode d = mode_of d.inventory_source
