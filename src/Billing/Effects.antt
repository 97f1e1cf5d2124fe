-- ===== src/Billing/Effects.antt =====
-- What a checkout that succeeds (src/services/billingService.ts) changes in the stock and in the
-- customers' credit.
use mathlib.Core.Path.{subst}
use backend_v.Prelude.{
  ◌≡◌, refl, sym, ap, ◌∙◌, ◌⊎◌, inl, inr, true, some, List, [], ◌∷◌, nat_beq, find, filter,
  if◌then◌else◌, arith, Bool-cases,
}
use backend_v.Prelude.Int.{ℤ, pos, ◌+ℤ◌, ◌-ℤ◌, negate, int_laws}
use backend_v.Billing.Checkout.{
  checkout_bill, sale_input, deduct, insert_item, deduction_order, charge_payment, charge_input,
  find_replay,
}
use backend_v.Billing.Input.{CheckoutInput, CheckoutItem, to_int}
use backend_v.Audit.{with_logs}
use backend_v.Billing.Outcome.{
  Ended, replayed, refused, failed, raced, sold, unlogged, checkout_log, checkout_bill-Ended,
}
use backend_v.Billing.Prepare.{Prepared, CheckedPayment, prepare, is_credit}
use backend_v.Billing.Record.{Env}
use backend_v.Billing.Settlement.{HasAmounts, prepare-Settled}
use backend_v.Billing.Stages.{Stages, deducted-Tracks, charges-OnlyCredit}
use backend_v.Credit.Ledger.{
  OnlyCredit, KeepsLedger, HasWholeBalances, Charges, Charges-refl, Charges-trans,
  charge_credit-Charges,
}
use backend_v.Errors.{ok}
use backend_v.Inventory.Adjust.Series.{total_change, shop_stock-series}
use backend_v.Inventory.Books.{KeepsStock}
use backend_v.Inventory.Books.Laws.{KeepsStock-frame}
use backend_v.Inventory.Views.Laws.{shop_stock, shop_stock_frame}
use backend_v.Store.Action.{for_each}
use backend_v.Store.Loops.{for_each-eq-ok}
use backend_v.Store.Schema.{RowId, Db, Bill, AuditLog, is_set}

-- The units of a product on the lines of a request.
unfoldable pub wanted_units : RowId → List CheckoutItem → ℤ
wanted_units p [] = pos 0
wanted_units p (t ∷ items) =
    if nat_beq t.product_id p
    then to_int t.quantity +ℤ wanted_units p items
    else wanted_units p items

wanted_units-insert_item :
    (p : RowId) (t : CheckoutItem) (items : List CheckoutItem)
    → wanted_units p (insert_item t items) ≡ wanted_units p (t ∷ items)
unfolding wanted_units insert_item
wanted_units-insert_item p t [] = refl
wanted_units-insert_item p t (u ∷ items) = grind (int_laws, wanted_units-insert_item p t items)

wanted_units-deduction_order :
    (p : RowId) (items : List CheckoutItem)
    → wanted_units p (deduction_order items) ≡ wanted_units p items
unfolding wanted_units deduction_order
wanted_units-deduction_order p [] = refl
wanted_units-deduction_order p (t ∷ items) = grind (
  int_laws,
  wanted_units-insert_item p t (deduction_order items),
  wanted_units-deduction_order p items,
)

total_change-sale :
    (i : CheckoutInput) (s p : RowId) (items : List CheckoutItem)
    → total_change (sale_input i) s p items
      ≡ (if nat_beq s i.shop_id then negate (wanted_units p items) else pos 0)
unfolding total_change wanted_units
total_change-sale i s p [] = grind int_laws
total_change-sale i s p (t ∷ items) = grind (int_laws, arith, total_change-sale i s p items)

-- The deduction loop takes from the branch what the lines ask for, in whatever order.
shop_stock-deducted :
    (i : CheckoutInput) (d d' : Db) (s p : RowId)
    → for_each (deduction_order i.items) (deduct i) d ≡ (ok tt, d')
    → shop_stock d' s p ≡ (
        if nat_beq s i.shop_id
        then shop_stock d s p -ℤ wanted_units p i.items
        else shop_stock d s p)
shop_stock-deducted i d d' s p h = grind (
  int_laws,
  shop_stock-series (sale_input i) (deduction_order i.items) d d' s p h,
  total_change-sale i s p (deduction_order i.items),
  wanted_units-deduction_order p i.items,
)

Stages-shop_stock :
    (env : Env) (i : CheckoutInput) (pr : Prepared) (d : Db) (bill : Bill) (d2 : Db)
    (log : List AuditLog) (s p : RowId)
    → Stages env i pr d bill d2
    → shop_stock (record d2 { audit_logs = log }) s p ≡ (
        if nat_beq s i.shop_id
        then shop_stock d s p -ℤ wanted_units p i.items
        else shop_stock d s p)
Stages-shop_stock env i pr d bill d2 log s p st =
    let only : OnlyCredit st.billed d2 =
      charges-OnlyCredit env i (filter is_credit pr.payments) st.billed d2 st.charged in
    let same : shop_stock (record d2 { audit_logs = log }) s p ≡ shop_stock st.sold s p =
      shop_stock_frame st.sold (record d2 { audit_logs = log }) s p
        (ap (λ (x : Db). x.inventory_source) only
          ∙ ap (λ (x : Db). x.inventory_source) st.billed_is)
        (ap (λ (x : Db). x.branch_inventory) only
          ∙ ap (λ (x : Db). x.branch_inventory) st.billed_is)
        (ap (λ (x : Db). x.cashier_inventory) only
          ∙ ap (λ (x : Db). x.cashier_inventory) st.billed_is) in
    same ∙ shop_stock-deducted i d st.sold s p st.deducted

Stages-KeepsStock :
    (env : Env) (i : CheckoutInput) (pr : Prepared) (d : Db) (bill : Bill) (d2 : Db)
    (log : List AuditLog)
    → Stages env i pr d bill d2
    → KeepsStock d (record d2 { audit_logs = log })
Stages-KeepsStock env i pr d bill d2 log st =
    let only : OnlyCredit st.billed d2 =
      charges-OnlyCredit env i (filter is_credit pr.payments) st.billed d2 st.charged in
    KeepsStock-frame d st.sold (record d2 { audit_logs = log })
      (deducted-Tracks i (deduction_order i.items) d st.sold st.deducted)
      (record {
        source =
            ap (λ (x : Db). x.inventory_source) only
            ∙ ap (λ (x : Db). x.inventory_source) st.billed_is;
        products = ap (λ (x : Db). x.products) only ∙ ap (λ (x : Db). x.products) st.billed_is;
        branch =
            ap (λ (x : Db). x.branch_inventory) only
            ∙ ap (λ (x : Db). x.branch_inventory) st.billed_is;
        cashier =
            ap (λ (x : Db). x.cashier_inventory) only
            ∙ ap (λ (x : Db). x.cashier_inventory) st.billed_is;
        movements = ap (λ (x : Db). x.movements) only ∙ ap (λ (x : Db). x.movements) st.billed_is;
      })

-- The answer is an earlier bill of the key, and nothing is written.
abbrev pub Replays : Env → CheckoutInput → Db → Bill → Db → Type 0
Replays env i d b d' =
    (is_set i.idempotency_key ≡ true)
    × (((find_replay i d ≡ some b) × (d' ≡ d))
        ⊎ ((find_replay i (env.others d) ≡ some b) × (d' ≡ env.others d)))

-- The parts of a checkout that succeeded.
pub checkout_bill-eq-ok :
    (env : Env) (i : CheckoutInput) (d : Db) (b : Bill) (d' : Db)
    → checkout_bill env i d ≡ (ok b, d')
    → Replays env i d b d'
      ⊎ ((p : Prepared) × (bill : Bill) × (d2 : Db) × (log : List AuditLog) × (prepare i d
            ≡ (ok p, d))
          × Stages env i p (env.others d) bill d2
          × (find (λ x. nat_beq x.id bill.id) d2.bills ≡ some b)
          × (d' ≡ record d2 { audit_logs = log }))
checkout_bill-eq-ok env i d b d' h = go (checkout_bill-Ended env i d)
  where
    same : (b2 : Bill) (d2 : Db) → checkout_bill env i d ≡ (ok b2, d2) → (b2 ≡ b) × (d' ≡ d2)
    same b2 d2 k = (cc (h, k), ap (λ y. y.1) (sym h ∙ k))

    go :
        Ended env i d (checkout_bill env i d)
        → Replays env i d b d'
          ⊎ ((p : Prepared) × (bill : Bill) × (d2 : Db) × (log : List AuditLog) × (prepare i d
                ≡ (ok p, d))
              × Stages env i p (env.others d) bill d2
              × (find (λ x. nat_beq x.id bill.id) d2.bills ≡ some b)
              × (d' ≡ record d2 { audit_logs = log }))
    go (replayed b2 key found k) =
        let (is, at) = same b2 d k in inl (key, inl (found ∙ ap some is, at))
    go (refused _ _ k) = cc
    go (failed _ _ _ _ _ k) = cc
    go (unlogged _ _ _ _ _ _ _ _ _ _ k) = cc
    go (raced _ b2 _ _ key found k) =
        let (is, at) = same b2 (env.others d) k in inl (key, inr (found ∙ ap some is, at))
    go (sold p bill b2 d2 prepared st found k) =
        let (is, at) = same b2 (with_logs (checkout_log i p bill) d2) k in
        inr (p, bill, d2, _, prepared, st, found ∙ ap some is, at)

-- A checkout that succeeds is the replay of an earlier bill, and changes nothing, or has taken
-- from the branch's stock of each product the units on its lines, and from no other branch's.
pub checkout_bill-shop_stock :
    (env : Env) (i : CheckoutInput) (d : Db) (b : Bill) (d' : Db)
    → checkout_bill env i d ≡ (ok b, d')
    → Replays env i d b d'
      ⊎ ((s p : RowId)
          → shop_stock d' s p ≡ (
              if nat_beq s i.shop_id
              then shop_stock (env.others d) s p -ℤ wanted_units p i.items
              else shop_stock (env.others d) s p))
checkout_bill-shop_stock env i d b d' h = elim (checkout_bill-eq-ok env i d b d' h) [
  | inl again ↦ inl again
  | inr sale ↦
      let (p, bill, d2, log, prepared, st, found, at) = sale in
      inr (λ s q.
        ap (λ x. shop_stock x s q) at ∙ Stages-shop_stock env i p (env.others d) bill d2 log s q st)
]

-- A checkout that succeeds leaves no branch and no cashier with less than no stock, if none had
-- less when its transaction began, and the stock rows, the aggregates of the products and the
-- history of movements move together.
pub checkout_bill-Tracks :
    (env : Env) (i : CheckoutInput) (d : Db) (b : Bill) (d' : Db)
    → checkout_bill env i d ≡ (ok b, d')
    → Replays env i d b d' ⊎ KeepsStock (env.others d) d'
checkout_bill-Tracks env i d b d' h = elim (checkout_bill-eq-ok env i d b d' h) [
  | inl again ↦ inl again
  | inr sale ↦
      let (p, bill, d2, log, prepared, st, found, at) = sale in
      inr (
        subst (KeepsStock (env.others d)) (sym at)
          (Stages-KeepsStock env i p (env.others d) bill d2 log st))
]

charge_loop-Charges :
    (env : Env) (i : CheckoutInput) (ps : List CheckedPayment) (d d' : Db)
    → HasAmounts ps
    → for_each ps (charge_payment env i) d ≡ (ok tt, d')
    → Charges d d'
unfolding for_each
charge_loop-Charges env i [] d d' h e = subst (Charges d) (ap (λ r. r.1) e) (Charges-refl d)
charge_loop-Charges env i (p ∷ ps) d d'' h e =
    let (d', first, rest) = for_each-eq-ok p ps (charge_payment env i) d d'' e in
    Charges-trans (charge_credit-Charges (charge_input env i p) d d' (omega (arith, h.0)) first)
      (charge_loop-Charges env i ps d' d'' h.1 rest)

HasAmounts-filter : (ps : List CheckedPayment) → HasAmounts ps → HasAmounts (filter is_credit ps)
HasAmounts-filter [] h = tt
HasAmounts-filter (p ∷ ps) h = elim (Bool-cases (is_credit p)) [
  | inl hit ↦ rw hit (h.0, HasAmounts-filter ps h.1)
  | inr miss ↦ rw miss (HasAmounts-filter ps h.1)
]

Stages-KeepsLedger :
    (env : Env) (i : CheckoutInput) (p : Prepared) (d : Db) (bill : Bill) (d2 : Db)
    → HasAmounts p.payments
    → HasWholeBalances d
    → Stages env i p d bill d2
    → KeepsLedger d d2 × HasWholeBalances d2
Stages-KeepsLedger env i p d bill d2 amounts whole st =
    let tracks = deducted-Tracks i (deduction_order i.items) d st.sold st.deducted in
    let customers : st.billed.customers ≡ d.customers =
      ap (λ (x : Db). x.customers) st.billed_is ∙ tracks.customers in
    let ledger : st.billed.credit_transactions ≡ d.credit_transactions =
      ap (λ (x : Db). x.credit_transactions) st.billed_is ∙ tracks.credit_transactions in
    let charges =
      charge_loop-Charges env i (filter is_credit p.payments) st.billed d2
        (HasAmounts-filter p.payments amounts) st.charged in
    rw (customers, ledger) at (charges.ledger (rw customers whole))

-- A checkout that succeeds moves the balance of each customer by what it adds to the credit
-- ledger, and keeps the balances whole numbers of paise, if they are so when its transaction
-- begins.
pub checkout_bill-KeepsLedger :
    (env : Env) (i : CheckoutInput) (d : Db) (b : Bill) (d' : Db)
    → HasWholeBalances (env.others d)
    → checkout_bill env i d ≡ (ok b, d')
    → Replays env i d b d' ⊎ (KeepsLedger (env.others d) d' × HasWholeBalances d')
checkout_bill-KeepsLedger env i d b d' whole h = elim (checkout_bill-eq-ok env i d b d' h) [
  | inl again ↦ inl again
  | inr sale ↦
      let (p, bill, d2, log, prepared, st, found, at) = sale in
      let amounts = (prepare-Settled i d p d prepared).amounts in
      inr (
        subst (λ x. KeepsLedger (env.others d) x × HasWholeBalances x) (sym at)
          (Stages-KeepsLedger env i p (env.others d) bill d2 amounts whole st))
]
