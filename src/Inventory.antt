-- ===== src/Inventory.antt =====
-- src/services/inventoryService.ts: the stock of the branches, its changes and its views.
pub mod Table
pub mod Mode
pub mod Adjust
pub mod Views
pub mod Books
