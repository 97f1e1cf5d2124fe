-- ===== src/Purchases/Undone.antt =====
-- The parts of a reversal that succeeded (src/routes/admin/purchases.ts).
use backend_v.Prelude.{
  ◌≡◌, refl, sym, ap, ◌∙◌, Bool, true, false, Option, some, List, [], ◌∷◌, ◌++◌, any, arith,
}
use backend_v.Audit
use backend_v.Audit.{record_audit, log_row, record_audit-eq-ok}
use backend_v.Errors
use backend_v.Errors.Code.{purchase_not_found}
use backend_v.Errors.{
  Failure, Result, ok, err, app, db, AppError, unique_violation, record_not_found, log_rejected,
  foreign_key_violation,
}
use backend_v.Inventory.Adjust.Series.{change_stock}
use backend_v.Purchases.Stock.{resolve_stock_cashier-Reads}
use backend_v.Purchases.Reverse.{
  ReverseInput, return_input, new_reversal, reverses, reversal_failure, give_back, insert_reversal,
  reverse_body, catch_reversed, commit_reversal, reverse_found, reverse_purchase, check_reversal,
  check_reversible, find_purchase,
}
use backend_v.Purchases.{PurchaseEnv, CatalogLine, catalog_items, resolve_stock_cashier}
use backend_v.Store.Action.{
  Action, run_rest, query, or_throw, for_each, transaction, catching, ◌>>=◌, ◌>>◌,
  transaction-eq-ok, >>=-eq-ok,
}
use backend_v.Store.Loops.{for_each-eq-ok, or_throw-eq-ok}
use backend_v.Store.Schema.{RowId, Db, Purchase, purchase_reversed}

-- A handler that ends in an error, whatever it is given.
abbrev AlwaysThrows : {A : Type 0} → (Failure → Action A) → Type 0
AlwaysThrows {A} handler = (e : Failure) (x : Db) (a : A) (x' : Db) → handler e x ≡ (ok a, x') → ⊥

catching-eq-ok :
    {A : Type 0} (m : Action A) (handler : Failure → Action A) (d : Db) (a : A) (d' : Db)
    → AlwaysThrows handler
    → catching m handler d ≡ (ok a, d')
    → m d ≡ (ok a, d')
unfolding catching
catching-eq-ok {A} m handler d a d' throws h = go (m d) refl h
  where
    go : (r : Result A × Db) → m d ≡ r → catching (λ x. r) handler d ≡ (ok a, d') → m d ≡ (ok a, d')
    go (ok b, x) e k = e ∙ k
    go (err b, x) e k = absurd (throws b x a d' k)

reversal_failure-AlwaysThrows : AlwaysThrows reversal_failure
reversal_failure-AlwaysThrows (app e) x a x' h = ground arith
reversal_failure-AlwaysThrows (db e) x a x' h = cc

catch_reversed-AlwaysThrows : AlwaysThrows catch_reversed
catch_reversed-AlwaysThrows (app e) x a x' h = cc
catch_reversed-AlwaysThrows (db unique_violation) x a x' h = cc
catch_reversed-AlwaysThrows (db foreign_key_violation) x a x' h = cc
catch_reversed-AlwaysThrows (db record_not_found) x a x' h = cc
catch_reversed-AlwaysThrows (db log_rejected) x a x' h = cc

-- A loop whose rounds only turn errors into errors has run as the loop without.
give_back_loop :
    (i : ReverseInput) (p : Purchase) (c : Option RowId) (lines : List CatalogLine) (d d' : Db)
    → for_each lines (give_back i p c) d ≡ (ok tt, d')
    → for_each lines (change_stock (return_input i p c)) d ≡ (ok tt, d')
unfolding for_each
give_back_loop i p c [] d d' h = h
give_back_loop i p c (l ∷ lines) d d'' h =
    let (d', first, rest) = for_each-eq-ok l lines (give_back i p c) d d'' h in
    let step =
      catching-eq-ok (change_stock (return_input i p c) l) reversal_failure d tt d'
        reversal_failure-AlwaysThrows first in
    ap (run_rest (λ _. for_each lines (change_stock (return_input i p c)))) step
    ∙ give_back_loop i p c lines d' d'' rest

abbrev pub with_reversal : ReverseInput → Purchase → Db → Db
with_reversal i p d = record d {
  purchase_reversals = d.purchase_reversals ++ new_reversal i p ∷ [];
}

-- A transaction that began at `d` and was committed at `d'`.
pub record Returned (i : ReverseInput) (p : Purchase) (c : Option RowId) (d d' : Db) : Type 0 where
  pub fresh : any (reverses p.id) d.purchase_reversals ≡ false
  pub moved :
      for_each (catalog_items p.items) (change_stock (return_input i p c)) (with_reversal i p d)
      ≡ (ok tt, d')

insert_reversal-eq-ok :
    (i : ReverseInput) (p : Purchase) (taken : Bool) (d d' : Db)
    → insert_reversal i p taken d ≡ (ok tt, d')
    → (taken ≡ false) × (with_reversal i p d ≡ d')
unfolding insert_reversal
insert_reversal-eq-ok i p true d d' h = cc
insert_reversal-eq-ok i p false d d' h = (refl, ap (λ x. x.1) h)

reverse_body-Returned :
    (i : ReverseInput) (p : Purchase) (c : Option RowId) (d d' : Db)
    → reverse_body i p c d ≡ (ok tt, d')
    → Returned i p c d d'
unfolding reverse_body
reverse_body-Returned i p c d d' h =
    let taken = any (reverses p.id) d.purchase_reversals in
    let (_, d1, inserted, rest) =
      >>=-eq-ok (insert_reversal i p taken)
        (λ _. for_each (catalog_items p.items) (give_back i p c)) d tt d' h in
    let (fresh, is) = insert_reversal-eq-ok i p taken d d1 inserted in
    record {
      fresh = fresh;
      moved =
          ap (for_each (catalog_items p.items) (change_stock (return_input i p c))) is
          ∙ give_back_loop i p c (catalog_items p.items) d1 d' rest;
    }

abbrev pub logged : ReverseInput → Purchase → Db → Db
logged i p = Audit.with_logs (log_row purchase_reversed i.admin_id p.shop_id p.id ∷ [])

-- The parts of a reversal that succeeded.
pub record Undone (env : PurchaseEnv) (i : ReverseInput) (d : Db) (r : Purchase) (d' : Db)
    : Type 0 where
  pub p : Purchase
  pub cashier_id : Option RowId
  pub committed : Db
  pub found : find_purchase i.purchase_id d ≡ some p
  pub returned : Returned i p cashier_id (env.others d) committed
  pub still : find_purchase p.id d' ≡ some r
  pub end : d' ≡ logged i p committed

check_reversible-eq-ok :
    (q : Purchase) (reversed : Bool) (d : Db) (p : Purchase) (d' : Db)
    → check_reversible q reversed d ≡ (ok p, d')
    → (q ≡ p) × (d' ≡ d)
unfolding check_reversible
check_reversible-eq-ok q reversed d p d' h = ground arith

check_reversal-eq-ok :
    (i : ReverseInput) (d : Db) (p : Purchase) (d' : Db)
    → check_reversal i d ≡ (ok p, d')
    → (find_purchase i.purchase_id d ≡ some p) × (d' ≡ d)
unfolding check_reversal
check_reversal-eq-ok i d p d' h =
    let missing = app (Errors.not_found purchase_not_found) in
    let (q, d1, found, rest) =
      >>=-eq-ok (or_throw (find_purchase i.purchase_id d) missing)
        (λ q. query (λ d. any (reverses q.id) d.purchase_reversals) >>= check_reversible q) d p d'
        h in
    let (here, same) = or_throw-eq-ok (find_purchase i.purchase_id d) missing q d d1 found in
    let (is, end) =
      check_reversible-eq-ok q (any (reverses q.id) d1.purchase_reversals) d1 p d' rest in
    (here ∙ ap some is, end ∙ same)

commit_reversal-Undone :
    (env : PurchaseEnv) (i : ReverseInput) (d : Db) (p : Purchase) (c : Option RowId) (r : Purchase)
    (d' : Db)
    → find_purchase i.purchase_id d ≡ some p
    → commit_reversal env i p c d ≡ (ok r, d')
    → Undone env i d r d'
unfolding commit_reversal
commit_reversal-Undone env i d p c r d' found h =
    let body = transaction (reverse_body i p c) in
    let (_, d1, done, rest) =
      >>=-eq-ok (catching body catch_reversed)
        (λ _.
          record_audit purchase_reversed i.admin_id p.shop_id p.id
          >> (query (find_purchase p.id) >>= λ fresh. or_throw fresh (db record_not_found)))
        (env.others d) r d' h in
    let committed =
      transaction-eq-ok (reverse_body i p c) (env.others d) tt d1 (
        catching-eq-ok body catch_reversed (env.others d) tt d1 catch_reversed-AlwaysThrows done) in
    let log = record_audit purchase_reversed i.admin_id p.shop_id p.id in
    let again = query (find_purchase p.id) >>= λ fresh. or_throw fresh (db record_not_found) in
    let (_, d2, audited, last) = >>=-eq-ok log (λ _. again) d1 r d' rest in
    let noted = record_audit-eq-ok purchase_reversed i.admin_id p.shop_id p.id d1 d2 audited in
    let (still, end) =
      or_throw-eq-ok (find_purchase p.id (logged i p d1)) (db record_not_found) r (logged i p d1) d'
        (ap again (sym noted) ∙ last) in
    record {
      p = p;
      cashier_id = c;
      committed = d1;
      found = found;
      returned = reverse_body-Returned i p c (env.others d) d1 committed;
      still = ap (find_purchase p.id) end ∙ still;
      end = end;
    }

pub reverse_purchase-Undone :
    (env : PurchaseEnv) (i : ReverseInput) (d : Db) (r : Purchase) (d' : Db)
    → reverse_purchase env i d ≡ (ok r, d')
    → Undone env i d r d'
unfolding reverse_purchase reverse_found
reverse_purchase-Undone env i d r d' h =
    let (p, d1, checks, rest) = >>=-eq-ok (check_reversal i) (reverse_found env i) d r d' h in
    let (found, same) = check_reversal-eq-ok i d p d1 checks in
    let (c, d2, resolved, last) =
      >>=-eq-ok (resolve_stock_cashier p.shop_id i.cashier_id) (commit_reversal env i p) d1 r d'
        rest in
    let same2 : d2 ≡ d1 =
      sym (ap (λ (x : Result (Option RowId) × Db). x.1) resolved)
      ∙ (resolve_stock_cashier-Reads p.shop_id i.cashier_id).same d1 in
    commit_reversal-Undone env i d p c r d' found
      (ap (commit_reversal env i p c) (sym (same2 ∙ same)) ∙ last)
