-- ===== src/HeldBills/Laws.antt =====
-- Holding a bill and deleting one (src/routes/bills.ts).
use backend_v.Prelude.{
  refl, ◌≡◌, sym, ap, ◌∙◌, not, true, Option, none, some, List, [], ◌∷◌, ◌++◌, nat_beq, find,
  filter, arith,
}
use backend_v.Billing.Atomic.{check_customer-Reads, assert_stock_available-Reads}
use backend_v.Audit.{with_logs, log_row, record_audit, record_audit-eq-ok}
use backend_v.Billing.Prepare.{ResolvedItem}
use backend_v.Billing.Record.{Env, create_bill}
use backend_v.Billing.Stages.{create_bill-eq-ok}
use backend_v.Errors
use backend_v.Errors.Code.{held_bill_not_found}
use backend_v.Errors.{Result, ok, app}
use backend_v.HeldBills.{
  is_held, HoldInput, resolve_hold, held_bill, save_held, hold_bill, is_own_held, own_held,
  delete_bill, delete_found, delete_held,
}
use backend_v.Inventory.Views.Laws.{shop_stock, shop_stock_frame}
use backend_v.Store.Action.{pure, same_end, or_throw, >>=-eq-ok}
use backend_v.Store.Loops.{Reads, reading, or_throw-eq-ok}
use backend_v.Store.Schema.{BillStatus, held, RowId, Db, Bill, bill_held, bill_held_deleted}

resolve_hold-Reads : (i : HoldInput) → Reads (resolve_hold i)
unfolding resolve_hold
resolve_hold-Reads i = search (reading, check_customer-Reads, assert_stock_available-Reads) depth 12

abbrev with_bills : List Bill → Db → Db
with_bills bills d = record d { bills = bills }

save_held-eq-ok :
    (env : Env) (i : HoldInput) (lines : List ResolvedItem) (d : Db) (b : Bill) (d' : Db)
    → save_held env i lines d ≡ (ok b, d')
    → (b ≡ held_bill env i lines)
      × (d'
          ≡ with_logs
              (log_row bill_held i.cashier_id i.shop_id env.bill_id ∷ [])
              (with_bills ((env.others d).bills ++ held_bill env i lines ∷ []) (env.others d)))
unfolding save_held
save_held-eq-ok env i lines d b d' h =
    let (_, d1, created, rest) =
      >>=-eq-ok (create_bill (held_bill env i lines)) _ (env.others d) b d' h in
    let (_, is) = create_bill-eq-ok (held_bill env i lines) (env.others d) d1 created in
    let (_, d2, audited, last) =
      >>=-eq-ok (record_audit bill_held i.cashier_id i.shop_id env.bill_id)
        (λ _. pure (held_bill env i lines)) d1 b d' rest in
    let noted = record_audit-eq-ok bill_held i.cashier_id i.shop_id env.bill_id d1 d2 audited in
    let (same, end) = same_end (held_bill env i lines) b d2 d' refl last in
    (
      same,
      sym end
          ∙ noted
          ∙ ap (with_logs (log_row bill_held i.cashier_id i.shop_id env.bill_id ∷ [])) is,
    )

-- A cart that is held becomes the cashier's own held bill, as the last one, at the prices that the
-- server resolved; no stock and no balance of a customer changes.
hold_bill-eq-ok :
    (env : Env) (i : HoldInput) (d : Db) (b : Bill) (d' : Db)
    → hold_bill env i d ≡ (ok b, d')
    → (lines : List ResolvedItem) × (b ≡ held_bill env i lines)
      × (d'.bills ≡ (env.others d).bills ++ b ∷ [])
      × (d'.customers ≡ (env.others d).customers)
      × ((s p : RowId) → shop_stock d' s p ≡ shop_stock (env.others d) s p)
unfolding hold_bill
hold_bill-eq-ok env i d b d' h =
    let base = env.others d in
    let (lines, d1, checks, rest) = >>=-eq-ok (resolve_hold i) (save_held env i) d b d' h in
    let same : d1 ≡ d =
      sym (ap (λ (r : Result (List ResolvedItem) × Db). r.1) checks)
      ∙ (resolve_hold-Reads i).same d in
    let (is, end) =
      save_held-eq-ok env i lines d b d' (ap (save_held env i lines) (sym same) ∙ rest) in
    (
      lines,
      is,
      ap (λ (x : Db). x.bills) end ∙ ap (λ x. base.bills ++ x ∷ []) (sym is),
      ap (λ (x : Db). x.customers) end,
      λ s p.
          shop_stock_frame base d' s p (ap (λ (x : Db). x.inventory_source) end)
            (ap (λ (x : Db). x.branch_inventory) end) (ap (λ (x : Db). x.cashier_inventory) end),
    )

delete_bill-eq-ok :
    (id : RowId) (d d' : Db)
    → delete_bill id d ≡ (ok tt, d')
    → d' ≡ with_bills (filter (λ b. not (nat_beq b.id id)) d.bills) d
unfolding delete_bill
delete_bill-eq-ok id d d' h = ground arith

own_held-some :
    (s c : RowId) (o : Option Bill) (b : Bill)
    → own_held s c o ≡ some b
    → (o ≡ some b) × (is_own_held s c b ≡ true)
own_held-some s c none b h = cc
own_held-some s c (some x) b h = ground arith

-- The parts of a deletion that succeeded.
delete_parts :
    (others : Db → Db) (s c id : RowId) (d d' : Db)
    → delete_held others s c id d ≡ (ok tt, d')
    → (b : Bill) × (find (λ b. nat_beq b.id id) d.bills ≡ some b)
      × (is_own_held s c b ≡ true)
      × (d'
          ≡ with_logs
              (log_row bill_held_deleted c s b.id ∷ [])
              (with_bills (filter (λ x. not (nat_beq x.id b.id)) (others d).bills) (others d)))
unfolding delete_held delete_found
delete_parts others s c id d d' h =
    let found = find (λ b. nat_beq b.id id) d.bills in
    let missing = app (Errors.not_found held_bill_not_found) in
    let (b, d1, own, rest) =
      >>=-eq-ok (or_throw (own_held s c found) missing) (delete_found others s c) d tt d' h in
    let (is, same) = or_throw-eq-ok (own_held s c found) missing b d d1 own in
    let (here, mine) = own_held-some s c found b is in
    let (_, d2, gone, last) = >>=-eq-ok (delete_bill b.id) _ (others d1) tt d' rest in
    (
      b,
      here,
      mine,
      record_audit-eq-ok bill_held_deleted c s b.id d2 d' last
          ∙ ap (with_logs (log_row bill_held_deleted c s b.id ∷ [])) (
              delete_bill-eq-ok b.id (others d1) d2 gone
              ∙ ap
                  (λ x.
                    with_bills (filter (λ (y : Bill). not (nat_beq y.id b.id)) (others x).bills)
                      (others x))
                  same),
    )

was_held : (s : BillStatus) → is_held s ≡ true → s ≡ held
was_held s h = ground arith

-- A deletion that succeeds was of a bill with that id, of the cashier's own at the branch, and held;
-- it removes the bill of that id alone, changes no other table and logs the deletion.
pub delete_held-eq-ok :
    (others : Db → Db) (s c id : RowId) (d d' : Db)
    → delete_held others s c id d ≡ (ok tt, d')
    → (b : Bill) × (find (λ b. nat_beq b.id id) d.bills ≡ some b)
      × (b.shop_id ≡ s)
      × (b.cashier_id ≡ c)
      × (b.status ≡ held)
      × (d' ≡ record (others d) {
        bills = filter (λ x. not (nat_beq x.id b.id)) (others d).bills;
        audit_logs = (others d).audit_logs ++ log_row bill_held_deleted c s b.id ∷ [];
      })
delete_held-eq-ok others s c id d d' h =
    let (b, here, own, end) = delete_parts others s c id d d' h in
    (b, here, ground arith, ground arith, was_held b.status (ground arith), end)
