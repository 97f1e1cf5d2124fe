-- ===== src/Credit/Collection.antt =====
-- A collection against the ledger.
use backend_v.Prelude.{
  ap, sym, ◌∙◌, ◌%◌, ◌≢◌, ◌≡◌, Option, none, some, [], ◌∷◌, ◌++◌, nat_beq, if◌then◌else◌, arith,
  Option-cases, inl, inr, ℕ,
}
use backend_v.Prelude.Int.{ℤ, pos, ◌+ℤ◌, ◌-ℤ◌, ◌≤ℤ◌, ltb_ℤ, leb_ℤ, int_laws}
use backend_v.Errors
use backend_v.Errors.{Result, ok, err, app}
use backend_v.Errors.Code.{customer_not_found, amount_exceeds_balance}
use backend_v.Money.{paisa, sub, round2}
use backend_v.Money.Rounding.{round2-IsPaise, round2-sub_paise, round2-sub_tie}
use backend_v.Credit.{CollectInput, set_balance, collection_row, collect_payment}
use backend_v.Credit.Ledger.{
  owed, balance_of, owed-append, balance_of-set_balance, of_shop-balance, customer_at, KeepsLedger,
  HasWholeBalances, whole_balance,
}
use backend_v.Store.Schema.{RowId, Db, Customer, CreditTransaction}

abbrev after_collection : CollectInput → Customer → Customer
after_collection i c = record c { credit_balance = round2 (sub c.credit_balance i.amount) }

abbrev pub collected : CollectInput → Customer → Db → Db
collected i c d = record d {
  credit_transactions = d.credit_transactions ++ collection_row i ∷ [];
  customers = set_balance i.customer_id (round2 (sub c.credit_balance i.amount)) d.customers;
}

abbrev pub collection_result :
    CollectInput → Db → Option Customer → Result (CreditTransaction × Customer) × Db
collection_result i d none = (err (app (Errors.not_found customer_not_found)), d)
collection_result i d (some c) =
    if leb_ℤ i.amount (pos 0)
    then (err (app Errors.validation), d)
    else (if ltb_ℤ (round2 c.credit_balance) (round2 i.amount)
        then (err (app (Errors.bad_request amount_exceeds_balance)), d)
        else (ok (collection_row i, after_collection i c), collected i c d))

-- A collection is refused for a customer that is not the shop's, an amount that is not positive
-- and an amount above the balance, and then writes nothing.
pub collect_payment_lem :
    (i : CollectInput) (d : Db)
    → collect_payment i d ≡ collection_result i d (customer_at i.shop_id i.customer_id d)
unfolding collect_payment
collect_payment_lem i d = ground arith

collected-balances :
    (i : CollectInput) (d : Db) (c : Customer) (lost : ℤ) (x : RowId)
    → customer_at i.shop_id i.customer_id d ≡ some c
    → round2 (c.credit_balance -ℤ i.amount) ≡ c.credit_balance -ℤ round2 i.amount +ℤ lost
    → balance_of x (collected i c d).customers +ℤ owed x d.credit_transactions
      ≡ balance_of x d.customers
        +ℤ owed x (collected i c d).credit_transactions
        +ℤ (if nat_beq i.customer_id x then lost else pos 0)
unfolding sub
collected-balances i d c lost x here rounded =
    let (present, balance) = of_shop-balance i.shop_id i.customer_id d c here in
    grind (
      int_laws,
      balance,
      balance_of-set_balance i.customer_id x (round2 (c.credit_balance -ℤ i.amount)) d.customers
          present,
      owed-append x d.credit_transactions (collection_row i),
    )

collected_inversion :
    (i : CollectInput) (d : Db) (c : Customer) (r : CreditTransaction × Customer) (d' : Db)
    → collection_result i d (some c) ≡ (ok r, d')
    → (round2 i.amount ≤ℤ round2 c.credit_balance) × (d' ≡ collected i c d)
collected_inversion i d c r d' h = ground arith

-- What a successful collection has checked and written.
pub collect_payment-eq-ok :
    (i : CollectInput) (d : Db) (r : CreditTransaction × Customer) (d' : Db)
    → collect_payment i d ≡ (ok r, d')
    → (c : Customer) × (customer_at i.shop_id i.customer_id d ≡ some c)
      × (round2 i.amount ≤ℤ round2 c.credit_balance)
      × (d' ≡ collected i c d)
collect_payment-eq-ok i d r d' h = elim (Option-cases (customer_at i.shop_id i.customer_id d)) [
  | inl absent ↦ cc (collect_payment_lem i d, ap (collection_result i d) absent)
  | inr (c, here) ↦
      let e =
        collected_inversion i d c r d'
          (sym (ap (collection_result i d) here) ∙ sym (collect_payment_lem i d) ∙ h) in
      (c, here, e.0, e.1)
]

-- A collection lowers the balance by what it adds to the ledger, unless its amount ends in exactly
-- half a paisa.
pub collect_payment-KeepsLedger :
    (i : CollectInput) (d : Db) (r : CreditTransaction × Customer) (d' : Db) (n : ℕ)
    → HasWholeBalances d
    → collect_payment i d ≡ (ok r, d')
    → i.amount ≡ pos n
    → n % paisa ≢ 500_000
    → KeepsLedger d d'
collect_payment-KeepsLedger i d r d' n whole h amount tie x =
    let (c, here, covered, e) = collect_payment-eq-ok i d r d' h in
    let paise = whole_balance i.shop_id i.customer_id d c whole here in
    let rounded =
      round2-sub_paise c.credit_balance n paise
        (rw (amount, round2-IsPaise c.credit_balance paise) at covered) tie in
    rw e (
      grind
        (int_laws, collected-balances i d c (pos 0) x here (rw amount (grind (int_laws, rounded)))))

-- At exactly half a paisa the ledger records a paisa more than the balance falls by.
pub collect_payment_tie :
    (i : CollectInput) (d : Db) (r : CreditTransaction × Customer) (d' : Db) (n : ℕ)
    → HasWholeBalances d
    → collect_payment i d ≡ (ok r, d')
    → i.amount ≡ pos n
    → n % paisa ≡ 500_000
    → balance_of i.customer_id d'.customers +ℤ owed i.customer_id d.credit_transactions
      ≡ balance_of i.customer_id d.customers
        +ℤ owed i.customer_id d'.credit_transactions
        +ℤ pos paisa
collect_payment_tie i d r d' n whole h amount tie =
    let (c, here, covered, e) = collect_payment-eq-ok i d r d' h in
    let paise = whole_balance i.shop_id i.customer_id d c whole here in
    let rounded =
      round2-sub_tie c.credit_balance n paise
        (rw (amount, round2-IsPaise c.credit_balance paise) at covered) tie in
    rw e (
      grind (int_laws, collected-balances i d c (pos paisa) i.customer_id here (rw amount rounded)))
