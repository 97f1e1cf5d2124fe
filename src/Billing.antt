-- ===== src/Billing.antt =====
-- src/services/billingService.ts: the checkout of a bill.
pub mod Input
pub mod StockGate
pub mod Prepare
pub mod BillNumber
pub mod Record
pub mod Checkout
pub mod Stages
pub mod Atomic
pub mod Outcome
pub mod Retry
pub mod Lines
pub mod Amounts
pub mod Recheck
pub mod Totals
pub mod Settlement
pub mod Effects
