-- ===== src/Tests/Holding.antt =====
-- A held bill that is deleted (src/routes/bills.ts).
use backend_v.Audit.{record_audit, insert_log, log_row}
use backend_v.Prelude.{◌≡◌, refl, not, none, some, [], ◌∷◌, ◌++◌, nat_beq, find, filter}
use backend_v.Errors.{ok}
use backend_v.HeldBills.Laws.{delete_held-eq-ok}
use backend_v.HeldBills.{held_bill, delete_bill, delete_found, delete_held}
use backend_v.Store.Schema.{Db, Bill, held, bill_held_deleted}
use backend_v.Tests.{shop_db, env}

-- An empty cart of the cashier's, as a held bill.
abbrev set_aside : Bill
set_aside =
    held_bill env (record { shop_id = 1; cashier_id = 20; customer_id = none; items = [] }) []

abbrev holding_db : Db
holding_db = record shop_db { bills = set_aside ∷ [] }

abbrev deleted_db : Db
deleted_db = (delete_held (λ d. d) 1 20 50 holding_db).1

deletion_done : delete_held (λ d. d) 1 20 50 holding_db ≡ (ok tt, deleted_db)
unfolding delete_held delete_found delete_bill record_audit insert_log
deletion_done = refl

delete_held-eq-ok_example :
    (b : Bill) × (find (λ b. nat_beq b.id 50) holding_db.bills ≡ some b)
    × (b.shop_id ≡ 1)
    × (b.cashier_id ≡ 20)
    × (b.status ≡ held)
    × (deleted_db ≡ record holding_db {
      bills = filter (λ x. not (nat_beq x.id b.id)) holding_db.bills;
      audit_logs = holding_db.audit_logs ++ log_row bill_held_deleted 20 1 b.id ∷ [];
    })
delete_held-eq-ok_example = delete_held-eq-ok (λ d. d) 1 20 50 holding_db deleted_db deletion_done
