-- ===== src/Cancellation.antt =====
-- `cancelBill` of src/services/billCancellationService.ts.
pub mod Stages
pub mod Once
pub mod RoundTrip
pub mod Restock
pub mod Reversal
use Prim.Native.String.{String}
use text.Mathlib.Text.{◌==◌ as str_eq}
use backend_v.Prelude.{
  ℕ, Bool, ◌&&◌, not, true, false, Option, none, some, List, [], ◌∷◌, ◌++◌, nat_beq, ltb, find,
  filter, any, length, update_all, if◌then◌else◌,
}
use backend_v.Prelude.Int.{ℤ, pos, ◌+ℤ◌, leb_ℤ, ltb_ℤ}
use backend_v.Audit.{record_audit}
use backend_v.Errors
use backend_v.Errors.{Failure, app, db, unique_violation}
use backend_v.Errors.Code.{
  bill_not_found, bill_already_cancelled, bill_not_cancellable, credit_reversal_exceeds_balance,
}
use backend_v.Inventory.Adjust.{AdjustStockInput, adjust_stock}
use backend_v.Money.{Money, zero_money, add, sub, round2}
use backend_v.Store.Action.{
  Action, pure, query, throw, or_throw, throw_if, modify, for_each, transaction, ◌>>=◌, ◌>>◌,
}
use backend_v.Store.Schema.{
  RowId, Time, Db, Bill, BillItem, BillStatus, held, paid, BillNumber, CashierSession,
  SessionStatus, opened, closed, stock_in, AuditAction, Reason, CreditTransaction, CreditTxnType,
  charge, collection, reversal, Customer, Note,
}

-- The reason is `input.reason.trim()`: it has no blanks at its ends.
pub record CancelBillInput : Type 0 where
  pub bill_id : RowId
  pub actor_id : RowId
  pub reason : String

-- The clock, and what other requests commit between the reading of the bill and its claim.
pub record CancelEnv : Type 0 where
  pub now : Time
  pub others : Db → Db

pub record RestoredItem : Type 0 where
  pub product_id : RowId
  pub product_name : String
  pub quantity : ℤ

pub record CancelBillResult : Type 0 where
  pub id : RowId
  pub bill_number : Option BillNumber
  pub shop_id : RowId
  pub cancelled_at : Time
  pub cancelled_by_id : RowId
  pub cancel_reason : String
  pub cancelled_after_session_close : Bool
  pub grand_total : Money
  pub restored_items : List RestoredItem
  pub credit_reversed : Money

abbrev pub already_cancelled : Failure
already_cancelled = app (Errors.conflict bill_already_cancelled)

abbrev pub is_paid : BillStatus → Bool
is_paid paid = true
is_paid s = false

-- The two tests of the bill's status.
unfoldable pub check_status : BillStatus → Action (Unit {0})
check_status paid = pure tt
check_status BillStatus.cancelled = throw already_cancelled
check_status held = throw (app (Errors.conflict bill_not_cancellable))

abbrev closed_session : Option CashierSession → Bool
closed_session none = false
closed_session (some s) = elim s.status [ closed ↦ true | opened ↦ false ]

abbrev session_of : Option RowId → Db → Option CashierSession
session_of none d = none
session_of (some s) d = find (λ x. nat_beq x.id s) d.sessions

-- `bill.session?.status === "CLOSED"`
unfoldable pub after_close : Bill → Db → Bool
after_close b d = closed_session (session_of b.session_id d)

abbrev pub claimable : RowId → Bill → Bool
claimable id b = nat_beq b.id id && is_paid b.status

abbrev pub claimed_bill : CancelEnv → CancelBillInput → Bool → Bill → Bill
claimed_bill env i after b = record b {
  status = BillStatus.cancelled;
  cancelled_at = some env.now;
  cancelled_by_id = some i.actor_id;
  cancel_reason = some i.reason;
  cancelled_after_session_close = after;
}

-- `bill.updateMany({ where: { id, status: "PAID" }, … })`, whose count must be 1.
unfoldable pub claim : CancelEnv → CancelBillInput → RowId → Bool → Action (Unit {0})
claim env i id after = do
  count ← query (λ d. length (filter (claimable id) d.bills))
  modify (λ d. record d { bills = update_all (claimable id) (claimed_bill env i after) d.bills })
  throw_if (not (nat_beq count 1)) already_cancelled

-- `perProduct.set(…)`: a known product keeps its place, and takes the name of the later line.
unfoldable pub merge_line : BillItem → List RestoredItem → List RestoredItem
merge_line it [] =
    record {
      product_id = it.product_id;
      product_name = it.product_name;
      quantity = pos 0 +ℤ it.quantity;
    }
    ∷ []
merge_line it (r ∷ rs) =
    if nat_beq r.product_id it.product_id
    then record r { product_name = it.product_name; quantity = r.quantity +ℤ it.quantity } ∷ rs
    else r ∷ merge_line it rs

unfoldable pub merge_lines : List RestoredItem → List BillItem → List RestoredItem
merge_lines merged [] = merged
merge_lines merged (it ∷ items) = merge_lines (merge_line it merged) items

unfoldable pub insert_restored : RestoredItem → List RestoredItem → List RestoredItem
insert_restored r [] = r ∷ []
insert_restored r (x ∷ xs) =
    if ltb x.product_id r.product_id then x ∷ insert_restored r xs else r ∷ x ∷ xs

-- `[...perProduct.keys()].sort()`, with the entry of each key.
unfoldable pub in_product_order : List RestoredItem → List RestoredItem
unfolding insert_restored
in_product_order [] = []
in_product_order (r ∷ rs) = insert_restored r (in_product_order rs)

unfoldable pub restored_items : Bill → List RestoredItem
restored_items b = in_product_order (merge_lines [] b.items)

abbrev pub restore_input : CancelBillInput → Bill → RestoredItem → AdjustStockInput
restore_input i b r = record {
  shop_id = b.shop_id;
  cashier_id = some b.cashier_id;
  product_id = r.product_id;
  delta = r.quantity;
  type = stock_in;
  reason = Reason.bill_cancelled b.bill_number b.id;
  actor_id = some i.actor_id;
  allow_unassigned = true;
}

-- One round of the restoring loop.
abbrev pub restore : CancelBillInput → Bill → RestoredItem → Action (Unit {0})
restore i b r = do adjust_stock (restore_input i b r); pure tt

abbrev id_beq : Option RowId → RowId → Bool
id_beq none id = false
id_beq (some a) id = nat_beq a id

abbrev is_charge : CreditTxnType → Bool
is_charge charge = true
is_charge t = false

abbrev is_reversal : CreditTxnType → Bool
is_reversal reversal = true
is_reversal t = false

-- `creditTransaction.findMany({ where: { billId, type: "CHARGE" } })`
unfoldable pub charges_of : RowId → Db → List CreditTransaction
charges_of id d = filter (λ t. id_beq t.bill_id id && is_charge t.type) d.credit_transactions

unfoldable pub sum_amounts : Money → List CreditTransaction → Money
sum_amounts sum [] = sum
sum_amounts sum (t ∷ ts) = sum_amounts (add sum t.amount) ts

abbrev pub reversal_row : CancelBillInput → Bill → RowId → Money → CreditTransaction
reversal_row i b customer_id amount = record {
  shop_id = b.shop_id;
  customer_id = customer_id;
  bill_id = some b.id;
  type = reversal;
  amount = amount;
  method = none;
  reference = none;
  notes = some (Note.cancelled b.bill_number b.id i.reason);
  actor_id = some i.actor_id;
}

abbrev pub can_pay : RowId → Money → Customer → Bool
can_pay id amount c = nat_beq c.id id && leb_ℤ amount c.credit_balance

-- The conditional decrement of the balance, and the row of the ledger. The table has one reversal
-- for a bill at most (`credit_transactions_one_reversal_per_bill`).
unfoldable pub reverse_charge : CancelBillInput → Bill → RowId → Money → Action (Unit {0})
reverse_charge i b customer_id amount = do
  count ← query (λ d. length (filter (can_pay customer_id amount) d.customers))
  modify (λ d. record d {
    customers =
        update_all (can_pay customer_id amount)
          (λ c. record c { credit_balance = sub c.credit_balance amount }) d.customers;
  })
  throw_if (not (nat_beq count 1)) (app (Errors.conflict credit_reversal_exceeds_balance))
  again ← query (λ d. any (λ t. id_beq t.bill_id b.id && is_reversal t.type) d.credit_transactions)
  throw_if again (db unique_violation)
  modify (λ d. record d {
    credit_transactions = d.credit_transactions ++ reversal_row i b customer_id amount ∷ [];
  })

abbrev pub reverse_charges :
    CancelBillInput → Bill → Money → List CreditTransaction → Action (Unit {0})
reverse_charges i b amount [] = pure tt
reverse_charges i b amount (c ∷ charges) =
    if ltb_ℤ (pos 0) amount then reverse_charge i b c.customer_id amount else pure tt

-- Step 3, which answers with the credit that was reversed.
unfoldable pub reverse_credit : CancelBillInput → Bill → Action Money
reverse_credit i b = do
  charges ← query (charges_of b.id)
  let credit_reversed : Money = round2 (sum_amounts zero_money charges)
  reverse_charges i b credit_reversed charges
  pure credit_reversed

abbrev pub cancel_result : CancelEnv → CancelBillInput → Bill → Bool → Money → CancelBillResult
cancel_result env i b after credit_reversed = record {
  id = b.id;
  bill_number = b.bill_number;
  shop_id = b.shop_id;
  cancelled_at = env.now;
  cancelled_by_id = i.actor_id;
  cancel_reason = i.reason;
  cancelled_after_session_close = after;
  grand_total = b.grand_total;
  restored_items = restored_items b;
  credit_reversed = credit_reversed;
}

-- The transaction after the bill was read: what came before wrote nothing.
unfoldable pub cancel_body : CancelEnv → CancelBillInput → Bill → Bool → Action CancelBillResult
cancel_body env i b after = do
  claim env i b.id after
  for_each (restored_items b) (restore i b)
  credit_reversed ← reverse_credit i b
  pure (cancel_result env i b after credit_reversed)

-- The bill as the transaction first reads it.
unfoldable pub read_bill : CancelBillInput → Action Bill
read_bill i = do
  found ← query (λ d. find (λ b. nat_beq b.id i.bill_id) d.bills)
  bill ← or_throw found (app (Errors.not_found bill_not_found))
  check_status bill.status
  pure bill

-- What follows the reading of the bill.
unfoldable pub commit_cancel : CancelEnv → CancelBillInput → Bill → Bool → Action CancelBillResult
commit_cancel env i bill after = do
  modify env.others
  result ← transaction (cancel_body env i bill after)
  record_audit AuditAction.bill_cancelled i.actor_id result.shop_id result.id
  pure result

unfoldable pub cancel_bill : CancelEnv → CancelBillInput → Action CancelBillResult
cancel_bill env i = do
  throw_if (str_eq i.reason "") (app Errors.validation)
  bill ← read_bill i
  after ← query (after_close bill)
  commit_cancel env i bill after
