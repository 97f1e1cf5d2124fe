-- ===== src/Lib.antt =====
-- A verification of the stock, billing, credit and purchase services of the backend, and of its
-- recovery of accounts.
--
-- The program sells from the stock of branches. A cashier's checkout (src/services/
-- billingService.ts) checks a cart, takes its units from the stock (inventoryService.ts), numbers
-- and writes a bill (lib/billNumber.ts), charges what is paid on credit (creditService.ts) and
-- logs it (lib/audit.ts), in one transaction but for the log. A cancellation
-- (billCancellationService.ts) takes all of it back. Prices come from lib/pricing.ts and
-- lib/branchCatalog.ts, amounts are computed by lib/money.ts. A purchase (routes/admin/purchases.ts)
-- gives a branch units, and its reversal takes them back.
--
-- A cashier who forgot the password files a request, an administrator approves it and hands out a
-- code, and the code sets a new password (lib/cashierRecovery.ts). An administrator has emergency
-- codes (lib/recoveryCodes.ts): one of them yields a grant (lib/recoveryGrant.ts), and the grant a
-- new password (lib/adminRecovery.ts). Both flows stand behind lib/recoveryThrottle.ts.
--
-- The files:
--   Prelude         names of the library, Boolean tests, integers, lists and rules
--   Errors          src/lib/errors.ts and the errors of the database client
--   Audit           src/lib/audit.ts
--   Money           src/lib/money.ts; Money/Rounding has the arithmetic of round2
--   Store           the database (Store/Schema, of prisma/schema.prisma), handlers as functions
--                   from a database to a result and a database (Store/Action), and the rules of
--                   their loops and inversions (Store/Loops)
--   Catalog         src/lib/branchCatalog.ts, the tests of assignment
--   Pricing         src/lib/pricing.ts
--   Inventory       src/services/inventoryService.ts: the stock tables (Table), the inventory mode
--                   (Mode), adjustStock (Adjust), the readings (Views) and the accounts that every
--                   change keeps in step (Books)
--   Credit          src/services/creditService.ts, with the ledger in Credit/Ledger and
--                   Credit/Collection
--   Billing         src/services/billingService.ts: the input (Input), assertStockAvailable
--                   (StockGate), the checks before the transaction (Prepare), the rows written
--                   (Record, BillNumber) and checkoutBill (Checkout); what is proved of them is in
--                   Stages, Outcome, Retry, Effects, Settlement, Totals, Lines, Amounts, Recheck
--   Cancellation    src/services/billCancellationService.ts, with Stages, Restock, Reversal, Once,
--                   RoundTrip
--   Assignment      src/lib/branchCatalog.ts, the operations that assign products
--   Throttle        src/lib/recoveryThrottle.ts
--   Purchases       src/routes/admin/purchases.ts, the two handlers that write, with
--                   src/lib/stockActor.ts and src/lib/cashierAccess.ts; Stock, Undone, Reversal and
--                   RoundTrip have what is proved
--   HeldBills       src/routes/bills.ts, the three handlers of held bills, with HeldBills/Laws
--   Recovery        what the recovery flows share; Recovery/Crypto is src/lib/recoveryCrypto.ts
--                   and src/lib/password.ts, Recovery/Requests (with Decisions and Redeem)
--                   src/lib/cashierRecovery.ts, Recovery/Codes src/lib/recoveryCodes.ts,
--                   Recovery/Grants src/lib/recoveryGrant.ts, Recovery/Admin
--                   src/lib/adminRecovery.ts; what is proved is in Requests/Lifecycle,
--                   Requests/Race, Requests/Once, Requests/Reset, Admin/Recovered, Admin/Reset and
--                   each Laws
--   Upi             src/lib/upi.ts, on texts as lists of UTF-16 code units
--   Tests           a sample shop, a sale, a delivery and two forgotten passwords, on which the
--                   theorems are applied
--
-- A function of the source keeps its name in snake_case: checkoutBill is checkout_bill. A handler
-- is an `Action`, a function from a database to a result and a database; a throw is the result
-- `err`, and `transaction` undoes the writes of a body that throws. Transactions are atomic: what
-- other requests commit is a function on the database (`others`), which runs between a request's
-- first reads and its transaction, or the point of the transaction where it first locks a row.
-- Identifiers are natural numbers, ordered as the source orders the texts. Amounts are integers
-- of 10^-8 rupee, so a paisa is 10^6 of them, and the rounding of the source is exact on them.
-- Loops are structural on lists. The inner loop of encodeCrockford alone runs on fuel: two rounds,
-- which are enough since it starts with 12 bits at most and a round takes five.
-- The hashes of node:crypto and bcrypt, random values and the mailer are parameters, fields of
-- the records RecoveryConfig, RequestEnv and AdminEnv, and so is whether the database rejects a row
-- of the audit log (`rejects_log` of the database); nothing is assumed of them.
--
-- Not modelled: error messages, the metadata of log rows, the serializers of answers, the schemas
-- of requests, the web routes but for purchases and held bills, the login, the passkeys of an
-- administrator and reports. A lost connection is modelled for the rows of the audit log alone. A
-- reason or an invoice text has no blanks at its ends, as `trim` leaves it. Texts that the recovery
-- flows cut or measure are sequences of code points.
pub mod Prelude
pub mod Errors
pub mod Audit
pub mod Money
pub mod Inventory
pub mod Recovery
pub mod Store
pub mod Catalog
pub mod Pricing
pub mod Credit
pub mod Billing
pub mod Cancellation
pub mod Assignment
pub mod Throttle
pub mod Upi
pub mod Purchases
pub mod HeldBills
pub mod Tests
