-- ===== src/Purchases/Stock.antt =====
-- What a recorded purchase does to the stock (src/routes/admin/purchases.ts).
use mathlib.Core.Path.{subst}
use backend_v.Prelude.{
  ◌≡◌, refl, sym, ap, ◌∙◌, true, false, Option, none, some, List, [], ◌∷◌, ◌++◌, nat_beq, any, find,
  find-append_new, if◌then◌else◌, arith,
}
use backend_v.Prelude.Int.{ℤ, pos, ◌+ℤ◌, int_laws}
use backend_v.Audit
use backend_v.Audit.{record_audit, log_row, record_audit-eq-ok}
use backend_v.Errors.{Result, ok}
use backend_v.Inventory.Adjust.Series.{change_stock, total_change, shop_stock-series, series-Tracks}
use backend_v.Inventory.Views.Laws.{shop_stock, shop_stock_frame}
use backend_v.Purchases.Reverse.{find_purchase}
use backend_v.Purchases.{
  PurchaseEnv, PurchaseInput, CatalogLine, catalog_lines, receipt, new_purchase, receive,
  commit_purchase, create_purchase, check_purchase, resolve_stock_cashier,
  assert_cashier_belongs_to_shop,
}
use backend_v.Store.Action.{
  transaction-eq-ok, pure, for_each, transaction, >>=-eq-ok, same_end, ◌>>◌,
}
use backend_v.Store.Loops.{Reads, reading}
use backend_v.Store.Schema.{RowId, Db, Purchase, AuditLog, purchase_created}

-- The units of a product on the lines.
unfoldable pub units_on : RowId → List CatalogLine → ℤ
units_on p [] = pos 0
units_on p (l ∷ lines) =
    if nat_beq l.product_id p then l.quantity +ℤ units_on p lines else units_on p lines

total_change-receipt :
    (i : PurchaseInput) (c : Option RowId) (s p : RowId) (lines : List CatalogLine)
    → total_change (receipt i c) s p lines
      ≡ (if nat_beq s i.receiving_shop_id then units_on p lines else pos 0)
unfolding total_change units_on
total_change-receipt i c s p [] = ground arith
total_change-receipt i c s p (l ∷ lines) = grind (arith, total_change-receipt i c s p lines)

pub resolve_stock_cashier-Reads : (s : RowId) (c : Option RowId) → Reads (resolve_stock_cashier s c)
unfolding resolve_stock_cashier assert_cashier_belongs_to_shop
resolve_stock_cashier-Reads s none = search reading depth 8
resolve_stock_cashier-Reads s (some c) = search reading depth 8

check_purchase-Reads : (i : PurchaseInput) → Reads (check_purchase i)
unfolding check_purchase
check_purchase-Reads i = search (reading, resolve_stock_cashier-Reads) depth 20

abbrev with_purchase : PurchaseEnv → PurchaseInput → Db → Db
with_purchase env i d = record d { purchases = d.purchases ++ new_purchase env i ∷ [] }

-- A transaction that began at `d` and was committed at `d'`.
record Received (env : PurchaseEnv) (i : PurchaseInput) (c : Option RowId) (d : Db) (r : Purchase)
    (d' : Db) : Type 0 where
  moved :
      for_each (catalog_lines i) (change_stock (receipt i c)) (with_purchase env i d) ≡ (ok tt, d')
  result_is : r ≡ new_purchase env i

abbrev logged : PurchaseInput → Purchase → Db → Db
logged i r = Audit.with_logs (log_row purchase_created i.admin_id i.receiving_shop_id r.id ∷ [])

receive-Received :
    (env : PurchaseEnv) (i : PurchaseInput) (c : Option RowId) (d : Db) (r : Purchase) (d' : Db)
    → receive env i c d ≡ (ok r, d')
    → Received env i c d r d'
unfolding receive
receive-Received env i c d r d' h =
    let (_, d1, moved, rest) =
      >>=-eq-ok (for_each (catalog_lines i) (change_stock (receipt i c)))
        (λ _. pure (new_purchase env i)) (with_purchase env i d) r d' h in
    let (is, same) = same_end (new_purchase env i) r d1 d' refl rest in
    record { moved = moved ∙ ap (λ x. (ok tt, x)) same; result_is = is }

-- The parts of a purchase that was recorded.
record Recorded (env : PurchaseEnv) (i : PurchaseInput) (d : Db) (r : Purchase) (d' : Db)
    : Type 0 where
  cashier_id : Option RowId
  committed : Db
  log : List AuditLog
  checked : check_purchase i d ≡ (ok cashier_id, d)
  received : Received env i cashier_id (env.others d) r committed
  end : d' ≡ record committed { audit_logs = log }

create_purchase-Recorded :
    (env : PurchaseEnv) (i : PurchaseInput) (d : Db) (r : Purchase) (d' : Db)
    → create_purchase env i d ≡ (ok r, d')
    → Recorded env i d r d'
unfolding create_purchase commit_purchase
create_purchase-Recorded env i d r d' h =
    let (c, d1, checks, rest) = >>=-eq-ok (check_purchase i) (commit_purchase env i) d r d' h in
    let same : d1 ≡ d =
      sym (ap (λ (x : Result (Option RowId) × Db). x.1) checks) ∙ (check_purchase-Reads i).same d in
    let (bought, d2, received, last) =
      >>=-eq-ok (transaction (receive env i c))
        (λ x. record_audit purchase_created i.admin_id i.receiving_shop_id x.id >> pure x)
        (env.others d1) r d' rest in
    let (_, d3, audited, ends) =
      >>=-eq-ok (record_audit purchase_created i.admin_id i.receiving_shop_id bought.id)
        (λ _. pure bought) d2 r d' last in
    let noted =
      record_audit-eq-ok purchase_created i.admin_id i.receiving_shop_id bought.id d2 d3 audited in
    let (is, end) = same_end bought r d3 d' refl ends in
    record {
      cashier_id = c;
      committed = d2;
      log = (logged i bought d2).audit_logs;
      checked = checks ∙ ap (λ x. (ok c, x)) same;
      received =
          subst (λ x. Received env i c (env.others x) r d2) same
            (subst (λ x. Received env i c (env.others d1) x d2) (sym is)
              (receive-Received env i c (env.others d1) bought d2
                (transaction-eq-ok (receive env i c) (env.others d1) bought d2 received)));
      end = sym end ∙ noted;
    }

Recorded-shop_stock :
    (env : PurchaseEnv) (i : PurchaseInput) (d : Db) (r : Purchase) (d' : Db) (s p : RowId)
    → Recorded env i d r d'
    → shop_stock d' s p ≡ (
        if nat_beq s i.receiving_shop_id
        then shop_stock (env.others d) s p +ℤ units_on p (catalog_lines i)
        else shop_stock (env.others d) s p)
Recorded-shop_stock env i d r d' s p rec =
    let base = env.others d in
    let first : shop_stock (with_purchase env i base) s p ≡ shop_stock base s p =
      shop_stock_frame base (with_purchase env i base) s p refl refl refl in
    let last : shop_stock d' s p ≡ shop_stock rec.committed s p =
      shop_stock_frame rec.committed d' s p (ap (λ (x : Db). x.inventory_source) rec.end)
        (ap (λ (x : Db). x.branch_inventory) rec.end)
        (ap (λ (x : Db). x.cashier_inventory) rec.end) in
    grind (
      int_laws,
      first,
      last,
      shop_stock-series (receipt i rec.cashier_id) (catalog_lines i) (with_purchase env i base)
          rec.committed s p rec.received.moved,
      total_change-receipt i rec.cashier_id s p (catalog_lines i),
    )

-- A purchase that is recorded gives the receiving branch, for each product, the units on its
-- catalog lines, and changes no other branch's stock.
pub create_purchase-shop_stock :
    (env : PurchaseEnv) (i : PurchaseInput) (d : Db) (r : Purchase) (d' : Db)
    → create_purchase env i d ≡ (ok r, d')
    → (s p : RowId)
    → shop_stock d' s p ≡ (
        if nat_beq s i.receiving_shop_id
        then shop_stock (env.others d) s p +ℤ units_on p (catalog_lines i)
        else shop_stock (env.others d) s p)
create_purchase-shop_stock env i d r d' h s p =
    Recorded-shop_stock env i d r d' s p (create_purchase-Recorded env i d r d' h)

nat_beq_refl : (n : RowId) → nat_beq n n ≡ true
nat_beq_refl n = ground arith

-- The purchase is found under its id, where that is new.
pub create_purchase-find_purchase :
    (env : PurchaseEnv) (i : PurchaseInput) (d : Db) (r : Purchase) (d' : Db)
    → any (λ x. nat_beq x.id env.purchase_id) (env.others d).purchases ≡ false
    → create_purchase env i d ≡ (ok r, d')
    → find_purchase env.purchase_id d' ≡ some (new_purchase env i)
create_purchase-find_purchase env i d r d' new h =
    let rec = create_purchase-Recorded env i d r d' h in
    let x = with_purchase env i (env.others d) in
    let tracks =
      series-Tracks (receipt i rec.cashier_id) (catalog_lines i) x rec.committed
        rec.received.moved in
    let fresh = λ (q : Purchase). nat_beq q.id env.purchase_id in
    ap (λ (y : Db). find fresh y.purchases) rec.end
    ∙ ap (find fresh) tracks.purchases
    ∙ find-append_new fresh (env.others d).purchases (new_purchase env i) new
        (nat_beq_refl env.purchase_id)
