-- ===== src/Cancellation/Once.antt =====
-- A cancellation as a whole (src/services/billCancellationService.ts): who claims a bill, and what
-- the claim leads to.
use mathlib.Core.Path.{subst}
use backend_v.Prelude.{
  ◌≡◌, refl, sym, ap, ◌∙◌, ◌⊎◌, inl, inr, Bool, false, some, List, [], ◌∷◌, nat_beq, find, filter,
  any, length, update_all, if◌then◌else◌, arith,
}
use backend_v.Prelude.Int.{◌+ℤ◌}
use backend_v.Audit.{with_logs}
use backend_v.Cancellation.{
  after_close, CancelBillInput, CancelEnv, CancelBillResult, claimable, claimed_bill, cancel_bill,
}
use backend_v.Cancellation.Restock.{units_of, shop_stock-restock, restock-Tracks}
use backend_v.Cancellation.Reversal.{
  HasUniqueIds, HasNoDebit, reverse_credit-OnlyCredit, reverse_credit-KeepsLedger,
}
use backend_v.Cancellation.Stages.{
  CancelStages, CancelEnded, unexplained, refused, undone, done, unlogged, cancel_log,
  cancel_bill-CancelEnded,
}
use backend_v.Credit.Ledger.{KeepsLedger}
use backend_v.Errors.{Failure, Result, ok, err}
use backend_v.Store.Action.{no_result, same_end}
use backend_v.Inventory.Views.Laws.{shop_stock, shop_stock_frame}
use backend_v.Store.Schema.{RowId, Db, Bill, AuditLog, paid}

-- No row with the id has status PAID.
abbrev pub IsSettled : RowId → Db → Type 0
IsSettled id d = any (claimable id) d.bills ≡ false

claimed-IsSettled :
    (env : CancelEnv) (i : CancelBillInput) (id : RowId) (after : Bool) (bills : List Bill)
    → any (claimable id) (update_all (claimable id) (claimed_bill env i after) bills) ≡ false
claimed-IsSettled env i id after [] = refl
claimed-IsSettled env i id after (b ∷ bills) =
    ground (arith, claimed-IsSettled env i id after bills)

settled_none :
    (id : RowId) (bills : List Bill)
    → any (claimable id) bills ≡ false
    → length (filter (claimable id) bills) ≡ 0
settled_none id [] h = refl
settled_none id (b ∷ bills) h = ground (arith, settled_none id bills)

found_id :
    (id : RowId) (bills : List Bill) (b : Bill)
    → find (λ x. nat_beq x.id id) bills ≡ some b
    → b.id ≡ id
found_id id [] b h = cc
found_id id (x ∷ bills) b h = ground (arith, found_id id bills b)

CancelStages-bills :
    (env : CancelEnv) (i : CancelBillInput) (b : Bill) (after : Bool) (d : Db)
    (r : CancelBillResult) (d' : Db) (s : CancelStages env i b after d r d')
    → d'.bills ≡ update_all (claimable b.id) (claimed_bill env i after) d.bills
CancelStages-bills env i b after d r d' s =
    ap (λ (x : Db). x.bills) (reverse_credit-OnlyCredit i b s.restored s.amount d' s.reversed)
    ∙ (restock-Tracks i b s.claimed s.restored s.restocked).bills
    ∙ ap (λ (x : Db). x.bills) s.claimed_is

-- A cancellation that succeeds has found exactly one row of the bill with status PAID when it
-- claimed it, and leaves none.
pub cancel_bill-IsSettled :
    (env : CancelEnv) (i : CancelBillInput) (d : Db) (r : CancelBillResult) (d' : Db)
    → cancel_bill env i d ≡ (ok r, d')
    → (length (filter (claimable i.bill_id) (env.others d).bills) ≡ 1) × IsSettled i.bill_id d'
cancel_bill-IsSettled env i d r d' h = go (cancel_bill-CancelEnded env i d)
  where
    go :
        CancelEnded env i d (cancel_bill env i d)
        → (length (filter (claimable i.bill_id) (env.others d).bills) ≡ 1) × IsSettled i.bill_id d'
    go (unexplained _ k) = cc
    go (refused _ _ k) = cc
    go (undone _ _ _ _ k) = cc
    go (unlogged _ _ _ _ _ _ k) = cc
    go (done b r2 d2 found _ s k) =
        let after = after_close b d in
        let id_is : b.id ≡ i.bill_id = found_id i.bill_id d.bills b found in
        let bills : d'.bills ≡ d2.bills = ap (λ x. x.1.bills) (sym h ∙ k) in
        (
          ap (λ id. length (filter (claimable id) (env.others d).bills)) (sym id_is) ∙ s.one_paid,
          rw (bills ∙ CancelStages-bills env i b after (env.others d) r2 d2 s) (
              ap
                (λ id.
                  any (claimable id)
                    (update_all (claimable b.id) (claimed_bill env i after) (env.others d).bills))
                (sym id_is)
              ∙ claimed-IsSettled env i b.id after (env.others d).bills),
        )

-- Where the bill is no longer paid when a cancellation claims it, the cancellation fails and
-- writes nothing, whatever it read before.
pub cancel_bill_lost :
    (env : CancelEnv) (i : CancelBillInput) (d : Db)
    → IsSettled i.bill_id (env.others d)
    → (e : Failure) × ((cancel_bill env i d ≡ (err e, d))
        ⊎ (cancel_bill env i d ≡ (err e, env.others d)))
cancel_bill_lost env i d settled = go (cancel_bill-CancelEnded env i d)
  where
    go :
        CancelEnded env i d (cancel_bill env i d)
        → (e : Failure) × ((cancel_bill env i d ≡ (err e, d))
            ⊎ (cancel_bill env i d ≡ (err e, env.others d)))
    go (unexplained _ k) = (_, inl k)
    go (refused e _ k) = (e, inl k)
    go (undone _ e _ _ k) = (e, inr k)
    go (unlogged b r2 d2 found _ s k) =
        let id_is : b.id ≡ i.bill_id = found_id i.bill_id d.bills b found in
        let gone : length (filter (claimable b.id) (env.others d).bills) ≡ 0 =
          rw id_is (settled_none i.bill_id (env.others d).bills settled) in
        cc (gone, s.one_paid)
    go (done b r2 d2 found _ s k) =
        let id_is : b.id ≡ i.bill_id = found_id i.bill_id d.bills b found in
        let gone : length (filter (claimable b.id) (env.others d).bills) ≡ 0 =
          rw id_is (settled_none i.bill_id (env.others d).bills settled) in
        cc (gone, s.one_paid)

-- Of two cancellations of a bill that both read it while it was paid, the second to claim it
-- fails and writes nothing.
pub cancel_bill_race :
    (env env2 : CancelEnv) (i i2 : CancelBillInput) (d d1 : Db) (r : CancelBillResult)
    → i2.bill_id ≡ i.bill_id
    → cancel_bill env i d ≡ (ok r, d1)
    → env2.others d ≡ d1
    → (e : Failure) × ((cancel_bill env2 i2 d ≡ (err e, d))
        ⊎ (cancel_bill env2 i2 d ≡ (err e, env2.others d)))
cancel_bill_race env env2 i i2 d d1 r same_bill h others =
    cancel_bill_lost env2 i2 d (rw (others, same_bill) (cancel_bill-IsSettled env i d r d1 h).1)

-- The parts of a cancellation that succeeded.
record CancelDone (env : CancelEnv) (i : CancelBillInput) (d : Db) (r : CancelBillResult) (d' : Db)
    : Type 0 where
  b : Bill
  after : Bool
  committed : Db
  log : List AuditLog
  found : find (λ x. nat_beq x.id i.bill_id) d.bills ≡ some b
  is_paid : b.status ≡ paid
  stages : CancelStages env i b after (env.others d) r committed
  end : d' ≡ record committed { audit_logs = log }

CancelStages-result :
    (env : CancelEnv) (i : CancelBillInput) (b : Bill) (after : Bool) (d : Db)
    (r r2 : CancelBillResult) (d2 : Db)
    → r2 ≡ r
    → CancelStages env i b after d r2 d2
    → CancelStages env i b after d r d2
CancelStages-result env i b after d r r2 d2 same s =
    subst (λ x. CancelStages env i b after d x d2) same s

CancelEnded-CancelDone :
    (env : CancelEnv) (i : CancelBillInput) (d : Db) (r : CancelBillResult) (d' : Db)
    (x : Result CancelBillResult × Db)
    → x ≡ (ok r, d')
    → CancelEnded env i d x
    → CancelDone env i d r d'
CancelEnded-CancelDone env i d r d' x h (unexplained _ k) = no_result r _ d' d h k
CancelEnded-CancelDone env i d r d' x h (refused e _ k) = no_result r e d' d h k
CancelEnded-CancelDone env i d r d' x h (undone _ e _ _ k) = no_result r e d' (env.others d) h k
CancelEnded-CancelDone env i d r d' x h (unlogged _ _ d2 _ _ _ k) = no_result r _ d' d2 h k
CancelEnded-CancelDone env i d r d' x h (done b r2 d2 found is_paid s k) =
    let after = after_close b d in
    let (same, end) = same_end r r2 d' (with_logs (cancel_log i r2) d2) h k in
    record {
      b = b;
      after = after;
      committed = d2;
      log = (with_logs (cancel_log i r2) d2).audit_logs;
      found = found;
      is_paid = is_paid;
      stages = CancelStages-result env i b after (env.others d) r r2 d2 same s;
      end = end;
    }

cancel_bill-eq-ok :
    (env : CancelEnv) (i : CancelBillInput) (d : Db) (r : CancelBillResult) (d' : Db)
    → cancel_bill env i d ≡ (ok r, d')
    → CancelDone env i d r d'
cancel_bill-eq-ok env i d r d' h =
    CancelEnded-CancelDone env i d r d' (cancel_bill env i d) h (cancel_bill-CancelEnded env i d)

CancelStages-shop_stock :
    (env : CancelEnv) (i : CancelBillInput) (b : Bill) (after : Bool) (d : Db)
    (r : CancelBillResult) (d2 : Db) (log : List AuditLog) (s p : RowId)
    → CancelStages env i b after d r d2
    → shop_stock (record d2 { audit_logs = log }) s p
      ≡ (if nat_beq s b.shop_id then shop_stock d s p +ℤ units_of p b.items else shop_stock d s p)
CancelStages-shop_stock env i b after d r d2 log s p st =
    let only = reverse_credit-OnlyCredit i b st.restored st.amount d2 st.reversed in
    let last : shop_stock (record d2 { audit_logs = log }) s p ≡ shop_stock st.restored s p =
      shop_stock_frame st.restored (record d2 { audit_logs = log }) s p
        (ap (λ (x : Db). x.inventory_source) only) (ap (λ (x : Db). x.branch_inventory) only)
        (ap (λ (x : Db). x.cashier_inventory) only) in
    let first : shop_stock st.claimed s p ≡ shop_stock d s p =
      shop_stock_frame d st.claimed s p (ap (λ (x : Db). x.inventory_source) st.claimed_is)
        (ap (λ (x : Db). x.branch_inventory) st.claimed_is)
        (ap (λ (x : Db). x.cashier_inventory) st.claimed_is) in
    last
    ∙ shop_stock-restock i b st.claimed st.restored s p st.restocked
    ∙ ap (λ z. if nat_beq s b.shop_id then z +ℤ units_of p b.items else z) first

-- A cancellation that succeeds gives the bill's own branch, for each product, the units on the
-- lines of the bill, and changes no other branch's stock.
pub cancel_bill-shop_stock :
    (env : CancelEnv) (i : CancelBillInput) (d : Db) (r : CancelBillResult) (d' : Db)
    → cancel_bill env i d ≡ (ok r, d')
    → (b : Bill) × (find (λ x. nat_beq x.id i.bill_id) d.bills ≡ some b)
      × (b.status ≡ paid)
      × ((s p : RowId)
          → shop_stock d' s p ≡ (
              if nat_beq s b.shop_id
              then shop_stock (env.others d) s p +ℤ units_of p b.items
              else shop_stock (env.others d) s p))
cancel_bill-shop_stock env i d r d' h =
    let c = cancel_bill-eq-ok env i d r d' h in
    (
      c.b,
      c.found,
      c.is_paid,
      λ s p.
          ap (λ x. shop_stock x s p) c.end
          ∙ CancelStages-shop_stock env i c.b c.after (env.others d) r c.committed c.log s p
              c.stages,
    )

-- A cancellation that succeeds moves each customer's balance by what it adds to the credit ledger
-- and leaves no balance below 0, where the ids of the customers are unique.
pub cancel_bill-KeepsLedger :
    (env : CancelEnv) (i : CancelBillInput) (d : Db) (r : CancelBillResult) (d' : Db)
    → HasUniqueIds (env.others d).customers
    → cancel_bill env i d ≡ (ok r, d')
    → KeepsLedger (env.others d) d' × (HasNoDebit (env.others d) → HasNoDebit d')
cancel_bill-KeepsLedger env i d r d' unique h =
    let c = cancel_bill-eq-ok env i d r d' h in
    let st = c.stages in
    let tracks = restock-Tracks i c.b st.claimed st.restored st.restocked in
    let customers : st.restored.customers ≡ (env.others d).customers =
      tracks.customers ∙ ap (λ (x : Db). x.customers) st.claimed_is in
    let ledger : st.restored.credit_transactions ≡ (env.others d).credit_transactions =
      tracks.credit_transactions ∙ ap (λ (x : Db). x.credit_transactions) st.claimed_is in
    let kept =
      reverse_credit-KeepsLedger i c.b st.restored st.amount c.committed (rw customers unique)
        st.reversed in
    rw c.end (rw (customers, ledger) at kept)
