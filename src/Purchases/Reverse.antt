-- ===== src/Purchases/Reverse.antt =====
-- src/routes/admin/purchases.ts: a purchase is taken back.
use backend_v.Prelude.{
  String, Bool, not, true, false, Option, some, [], ◌∷◌, ◌++◌, nat_beq, find, any, if◌then◌else◌,
}
use backend_v.Prelude.Int.{negate}
use backend_v.Audit.{record_audit}
use backend_v.Errors
use backend_v.Errors.{AppError, Failure, app, db, unique_violation, record_not_found}
use backend_v.Errors.Code.{
  ErrorCode, product_not_found, insufficient_stock, purchase_not_found, purchase_already_reversed,
  purchase_not_reversible, purchase_reversal_blocked,
}
use backend_v.Inventory.Adjust.Series.{change_stock}
use backend_v.Inventory.Adjust.{AdjustStockInput}
use backend_v.Store.Action.{
  Action, pure, query, throw, or_throw, modify, for_each, transaction, catching, ◌>>=◌, ◌>>◌,
}
use backend_v.Store.Schema.{
  RowId, Db, stock_out, purchase_reversed, Reason, Purchase, PurchaseStatus, received,
  PurchaseReversal,
}
use backend_v.Purchases.{PurchaseEnv, resolve_stock_cashier, CatalogLine, catalog_items}

pub record ReverseInput : Type 0 where
  pub purchase_id : RowId
  pub reason : String
  pub cashier_id : Option RowId
  pub admin_id : RowId

abbrev is_received : PurchaseStatus → Bool
is_received received = true
is_received s = false

abbrev pub reverses : RowId → PurchaseReversal → Bool
reverses id r = nat_beq r.purchase_id id

abbrev pub already_reversed : Failure
already_reversed = app (Errors.conflict purchase_already_reversed)

abbrev pub find_purchase : RowId → Db → Option Purchase
find_purchase id d = find (λ p. nat_beq p.id id) d.purchases

unfoldable pub check_reversible : Purchase → Bool → Action Purchase
check_reversible purchase reversed =
    if reversed
    then throw already_reversed
    else (if not (is_received purchase.status)
        then throw (app (Errors.conflict purchase_not_reversible))
        else pure purchase)

-- The purchase, which must be received and not reversed.
unfoldable pub check_reversal : ReverseInput → Action Purchase
check_reversal i = do
  found ← query (find_purchase i.purchase_id)
  purchase ← or_throw found (app (Errors.not_found purchase_not_found))
  reversed ← query (λ d. any (reverses purchase.id) d.purchase_reversals)
  check_reversible purchase reversed

abbrev pub return_input : ReverseInput → Purchase → Option RowId → CatalogLine → AdjustStockInput
return_input i p cashier_id l = record {
  shop_id = p.shop_id;
  cashier_id = cashier_id;
  product_id = l.product_id;
  delta = negate l.quantity;
  type = stock_out;
  reason = Reason.reversal_of_purchase p.invoice_number i.reason;
  actor_id = some i.admin_id;
  allow_unassigned = false;
}

abbrev blocks_reversal : ErrorCode → Bool
blocks_reversal insufficient_stock = true
blocks_reversal product_not_found = true
blocks_reversal code = false

-- The `catch` around a stock change.
abbrev pub reversal_failure : Failure → Action (Unit {0})
reversal_failure (app e) =
    if blocks_reversal e.code
    then throw (app (Errors.conflict purchase_reversal_blocked))
    else throw (app e)
reversal_failure (db e) = throw (db e)

-- One round of the loop.
abbrev pub give_back : ReverseInput → Purchase → Option RowId → CatalogLine → Action (Unit {0})
give_back i p cashier_id l =
    catching (change_stock (return_input i p cashier_id) l) reversal_failure

abbrev pub new_reversal : ReverseInput → Purchase → PurchaseReversal
new_reversal i p = record { purchase_id = p.id; reason = i.reason; reversed_by_id = i.admin_id }

unfoldable pub insert_reversal : ReverseInput → Purchase → Bool → Action (Unit {0})
insert_reversal i p taken =
    if taken
    then throw (db unique_violation)
    else modify
        (λ d. record d { purchase_reversals = d.purchase_reversals ++ new_reversal i p ∷ [] })

-- The transaction.
unfoldable pub reverse_body : ReverseInput → Purchase → Option RowId → Action (Unit {0})
reverse_body i p cashier_id = do
  taken ← query (λ d. any (reverses p.id) d.purchase_reversals)
  insert_reversal i p taken
  for_each (catalog_items p.items) (give_back i p cashier_id)

abbrev pub catch_reversed : Failure → Action (Unit {0})
catch_reversed (db unique_violation) = throw already_reversed
catch_reversed e = throw e

unfoldable pub commit_reversal :
    PurchaseEnv → ReverseInput → Purchase → Option RowId → Action Purchase
commit_reversal env i p cashier_id = do
  modify env.others
  catching (transaction (reverse_body i p cashier_id)) catch_reversed
  record_audit purchase_reversed i.admin_id p.shop_id p.id
  fresh ← query (find_purchase p.id)
  or_throw fresh (db record_not_found)

-- What follows the reading of the purchase.
unfoldable pub reverse_found : PurchaseEnv → ReverseInput → Purchase → Action Purchase
reverse_found env i p = do
  cashier_id ← resolve_stock_cashier p.shop_id i.cashier_id
  commit_reversal env i p cashier_id

-- `POST /api/admin/purchases/:id/reverse`
unfoldable pub reverse_purchase : PurchaseEnv → ReverseInput → Action Purchase
reverse_purchase env i = do p ← check_reversal i; reverse_found env i p
