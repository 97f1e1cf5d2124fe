-- ===== src/Store/Schema.antt =====
-- The tables of prisma/schema.prisma that the modelled code reads or writes.
use backend_v.Prelude.{
  ℕ, String, Bool, ◌&&◌, ◌↔◌, ◌≡◌, true, false, Option, none, some, List, nat_beq, KeyTest, arith,
}
use backend_v.Prelude.Int.{ℤ}
use backend_v.Money.{Money}
use backend_v.Inventory.Table.{StockTable}
use backend_v.Store.Accounts.{Accounts}
pub use backend_v.Store.Keys.{RowId, Time}

-- JavaScript's truth test of an optional text.
abbrev pub is_set : Option RowId → Bool
is_set none = false
is_set (some ℕ.zero) = false
is_set (some (ℕ.suc n)) = true

pub data ProductStatus : Type 0 where
  active inactive : ProductStatus

pub record Product : Type 0 where
  pub id : RowId
  pub name : String
  pub selling_price : Money
  pub stock : ℤ
  pub unit : String
  pub status : ProductStatus

pub record BranchProduct : Type 0 where
  pub shop_id : RowId
  pub product_id : RowId
  pub is_assigned : Bool
  pub price_override : Option Money
  pub assigned_at : Time
  pub assigned_by_id : Option RowId
  pub unassigned_at : Option Time
  pub unassigned_by_id : Option RowId

-- `@@unique([shopId, productId])` of BranchInventory.
pub record BranchKey : Type 0 where
  pub shop_id : RowId
  pub product_id : RowId

-- `@@unique([shopId, cashierId, productId])` of CashierInventory.
pub record CashierKey : Type 0 where
  pub shop_id : RowId
  pub cashier_id : RowId
  pub product_id : RowId

abbrev pub branch_key_beq : BranchKey → BranchKey → Bool
branch_key_beq a b = nat_beq a.shop_id b.shop_id && nat_beq a.product_id b.product_id

pub branch_key_beq_iff : (a b : BranchKey) → (branch_key_beq a b ≡ true) ↔ (a ≡ b)
branch_key_beq_iff a b = ground arith

abbrev pub cashier_key_beq : CashierKey → CashierKey → Bool
cashier_key_beq a b =
    nat_beq a.shop_id b.shop_id
    && (nat_beq a.cashier_id b.cashier_id && nat_beq a.product_id b.product_id)

pub cashier_key_beq_iff : (a b : CashierKey) → (cashier_key_beq a b ≡ true) ↔ (a ≡ b)
cashier_key_beq_iff a b = ground arith

instance abbrev pub branch_key_eq : KeyTest BranchKey
branch_key_eq = record { same_key = branch_key_beq; same_key_iff = branch_key_beq_iff }

instance abbrev pub cashier_key_eq : KeyTest CashierKey
cashier_key_eq = record { same_key = cashier_key_beq; same_key_iff = cashier_key_beq_iff }

-- `EM-<shopCode>-<year>-<seq>`, by its parts: the two last hold no dash, so the text determines them.
pub record BillNumber : Type 0 where
  pub shop_code : String
  pub year : ℕ
  pub seq : ℕ

pub data StockMovementType : Type 0 where
  stock_in stock_out adjustment : StockMovementType

-- The texts that the code writes as the reason of a movement, by what they hold.
pub data Reason : Type 0 where
  sale : Reason
  bill_cancelled : Option BillNumber → RowId → Reason
  purchase : String → String → Reason
  reversal_of_purchase : String → String → Reason
  stated : String → Reason

pub record InventoryMovement : Type 0 where
  pub shop_id : RowId
  pub product_id : RowId
  pub cashier_id : Option RowId
  pub type : StockMovementType
  pub quantity : ℤ
  pub previous_stock : ℤ
  pub new_stock : ℤ
  pub reason : Reason
  pub actor_id : Option RowId

pub record Customer : Type 0 where
  pub id : RowId
  pub shop_id : RowId
  pub cashier_id : Option RowId
  pub name : String
  pub credit_balance : Money

pub data PaymentMethod : Type 0 where
  cash card upi credit : PaymentMethod

pub data CreditTxnType : Type 0 where
  charge collection reversal : CreditTxnType

-- Free text, or the note that a cancellation writes.
pub data Note : Type 0 where
  text : String → Note
  cancelled : Option BillNumber → RowId → String → Note

pub record CreditTransaction : Type 0 where
  pub shop_id : RowId
  pub customer_id : RowId
  pub bill_id : Option RowId
  pub type : CreditTxnType
  pub amount : Money
  pub method : Option PaymentMethod
  pub reference : Option String
  pub notes : Option Note
  pub actor_id : Option RowId

pub data BillStatus : Type 0 where
  held paid cancelled : BillStatus

pub record BillItem : Type 0 where
  pub product_id : RowId
  pub product_name : String
  pub unit : String
  pub quantity : ℤ
  pub unit_price : Money
  pub line_total : Money

pub record Payment : Type 0 where
  pub method : PaymentMethod
  pub amount : Money
  pub reference : Option String
  pub cash_received : Option Money
  pub change : Option Money

pub record Bill : Type 0 where
  pub id : RowId
  pub shop_id : RowId
  pub cashier_id : RowId
  pub session_id : Option RowId
  pub customer_id : Option RowId
  pub bill_number : Option BillNumber
  pub subtotal : Money
  pub discount : Money
  pub tax : Money
  pub grand_total : Money
  pub status : BillStatus
  pub idempotency_key : Option RowId
  pub paid_at : Option Time
  pub cancelled_at : Option Time
  pub cancelled_by_id : Option RowId
  pub cancel_reason : Option String
  pub cancelled_after_session_close : Bool
  pub items : List BillItem
  pub payments : List Payment

pub data SessionStatus : Type 0 where
  opened closed : SessionStatus

pub record CashierSession : Type 0 where
  pub id : RowId
  pub cashier_id : RowId
  pub shop_id : RowId
  pub status : SessionStatus

-- `@@unique([shopId, year])`.
pub record BillCounter : Type 0 where
  pub shop_id : RowId
  pub year : ℕ
  pub seq : ℕ

pub record Shop : Type 0 where
  pub id : RowId
  pub code : String

pub data AuditAction : Type 0 where
  bill_created payment_created split_payment_created credit_payment_created : AuditAction
  bill_cancelled purchase_created purchase_reversed password_reset_completed : AuditAction
  cashier_recovery_requested cashier_recovery_approved cashier_recovery_rejected : AuditAction
  cashier_recovery_completed cashier_recovery_failed cashier_recovery_throttled : AuditAction
  bill_held bill_held_deleted : AuditAction

-- A row of the audit log, without its free-form metadata.
pub record AuditLog : Type 0 where
  pub action : AuditAction
  pub actor_id : Option RowId
  pub shop_id : Option RowId
  pub entity_id : Option RowId

pub data PurchaseStatus : Type 0 where
  received pending cancelled : PurchaseStatus

-- A line of a purchase. Without a product it is for the record alone.
pub record PurchaseItem : Type 0 where
  pub product_id : Option RowId
  pub product_name : String
  pub quantity : ℤ
  pub purchase_price : Money
  pub total : Money

pub record Purchase : Type 0 where
  pub id : RowId
  pub shop_id : RowId
  pub supplier_name : String
  pub invoice_number : String
  pub purchase_date : Time
  pub subtotal : Money
  pub tax : Money
  pub grand_total : Money
  pub status : PurchaseStatus
  pub created_by_id : RowId
  pub items : List PurchaseItem

-- `purchaseId` is unique.
pub record PurchaseReversal : Type 0 where
  pub purchase_id : RowId
  pub reason : String
  pub reversed_by_id : RowId

pub record Db : Type 0 where
  -- The value of system_flags('inventory_source'), if the row is there.
  pub inventory_source : Option String
  pub products : List Product
  pub branch_products : List BranchProduct
  pub branch_inventory : StockTable BranchKey
  pub cashier_inventory : StockTable CashierKey
  pub movements : List InventoryMovement
  pub customers : List Customer
  pub credit_transactions : List CreditTransaction
  pub bills : List Bill
  pub sessions : List CashierSession
  pub bill_counters : List BillCounter
  pub shops : List Shop
  pub audit_logs : List AuditLog
  -- Whether the database rejects a row of the log, after those before it: a parameter.
  pub rejects_log : List AuditLog → AuditLog → Bool
  pub purchases : List Purchase
  pub purchase_reversals : List PurchaseReversal
  pub accounts : Accounts
