-- ===== src/Credit/Ledger.antt =====
-- The balance of a customer against the rows of the credit ledger.
use mathlib.Core.Path.{subst}
use backend_v.Prelude.{
  sym, ap, ◌∙◌, All, All-find, Bool-cases, ◌≡◌, refl, true, Option, none, some, List, [], ◌∷◌, ◌++◌,
  nat_beq, find, if◌then◌else◌, arith, is_some, Option-cases, inl, inr,
}
use backend_v.Prelude.Int.{ℤ, pos, ◌+ℤ◌, ◌-ℤ◌, ◌≤ℤ◌, int_laws, drift_trans}
use backend_v.Errors
use backend_v.Errors.{Result, ok, err, app}
use backend_v.Errors.Code.{customer_not_found}
use backend_v.Money.{Money, add, round2}
use backend_v.Money.Rounding.{IsPaise, add_lem, round2-add_paise, IsPaise-round2-add}
use backend_v.Credit.{ChargeInput, customer_is, of_shop, set_balance, charge_row, charge_credit}
use backend_v.Store.Schema.{
  RowId, Db, Customer, CreditTransaction, CreditTxnType, charge, collection, reversal,
}

-- What one row of the ledger adds to what a customer owes.
abbrev pub signed : CreditTxnType → Money → ℤ
signed charge amount = amount
signed collection amount = pos 0 -ℤ amount
signed reversal amount = pos 0 -ℤ amount

-- What a customer owes by the ledger: charges less collections and reversals.
unfoldable pub owed : RowId → List CreditTransaction → ℤ
owed c [] = pos 0
owed c (t ∷ ts) = if nat_beq t.customer_id c then signed t.type t.amount +ℤ owed c ts else owed c ts

abbrev pub balance_or_zero : Option Customer → ℤ
balance_or_zero none = pos 0
balance_or_zero (some c) = c.credit_balance

-- What a customer owes by the column `creditBalance`.
unfoldable pub balance_of : RowId → List Customer → ℤ
balance_of c customers = balance_or_zero (find (customer_is c) customers)

pub owed-append :
    (c : RowId) (ts : List CreditTransaction) (t : CreditTransaction)
    → owed c (ts ++ t ∷ [])
      ≡ (if nat_beq t.customer_id c then owed c ts +ℤ signed t.type t.amount else owed c ts)
unfolding owed
owed-append c [] t = grind int_laws
owed-append c (x ∷ ts) t = grind (int_laws, owed-append c ts t)

pub balance_of-set_balance :
    (id c : RowId) (balance : Money) (customers : List Customer)
    → is_some (find (customer_is id) customers) ≡ true
    → balance_of c (set_balance id balance customers)
      ≡ (if nat_beq id c then balance else balance_of c customers)
unfolding balance_of set_balance
balance_of-set_balance id c balance [] h = cc
balance_of-set_balance id c balance (x ∷ customers) h =
    ground (arith, balance_of-set_balance id c balance customers)

-- The customer that a call is about, if it is the shop's.
abbrev pub customer_at : RowId → RowId → Db → Option Customer
customer_at shop_id id d = of_shop shop_id (find (customer_is id) d.customers)

pub of_shop-balance :
    (shop_id id : RowId) (d : Db) (c : Customer)
    → customer_at shop_id id d ≡ some c
    → (is_some (find (customer_is id) d.customers) ≡ true)
      × (c.credit_balance ≡ balance_of id d.customers)
unfolding balance_of
of_shop-balance shop_id id d c h = ground arith

abbrev pub charged : ChargeInput → Customer → Db → Db
charged i c d = record d {
  credit_transactions = d.credit_transactions ++ charge_row i ∷ [];
  customers = set_balance i.customer_id (round2 (add c.credit_balance i.amount)) d.customers;
}

abbrev pub charge_result : ChargeInput → Db → Option Customer → Result (Unit {0}) × Db
charge_result i d none = (err (app (Errors.not_found customer_not_found)), d)
charge_result i d (some c) = (ok tt, charged i c d)

-- A charge is refused exactly for a customer that is not the shop's.
pub charge_credit_lem :
    (i : ChargeInput) (d : Db)
    → charge_credit i d ≡ charge_result i d (customer_at i.shop_id i.customer_id d)
unfolding charge_credit
charge_credit_lem i d = ground arith

-- `d'` comes from `d` by credit operations: each balance moved by what its ledger moved by.
abbrev pub KeepsLedger : Db → Db → Type 0
KeepsLedger d d' =
    (x : RowId)
    → balance_of x d'.customers +ℤ owed x d.credit_transactions
      ≡ balance_of x d.customers +ℤ owed x d'.credit_transactions

pub charged-KeepsLedger :
    (i : ChargeInput) (d : Db) (c : Customer)
    → customer_at i.shop_id i.customer_id d ≡ some c
    → IsPaise c.credit_balance
    → pos 0 ≤ℤ i.amount
    → KeepsLedger d (charged i c d)
charged-KeepsLedger i d c here whole positive x =
    let (present, balance) = of_shop-balance i.shop_id i.customer_id d c here in
    grind (
      int_laws,
      balance,
      balance_of-set_balance i.customer_id x (round2 (add c.credit_balance i.amount)) d.customers
          present,
      owed-append x d.credit_transactions (charge_row i),
      add_lem c.credit_balance i.amount,
      round2-add_paise c.credit_balance i.amount whole positive,
    )

-- Every balance is a whole number of paise and not below 0.
abbrev pub HasWholeBalances : Db → Type 0
HasWholeBalances d = All (λ c. IsPaise c.credit_balance) d.customers

pub whole_balance :
    (shop_id id : RowId) (d : Db) (c : Customer)
    → HasWholeBalances d
    → customer_at shop_id id d ≡ some c
    → IsPaise c.credit_balance
whole_balance shop_id id d c h here =
    All-find (λ x. IsPaise x.credit_balance) (customer_is id) c d.customers h (ground arith)

pub set_balance-whole :
    (id : RowId) (balance : Money) (customers : List Customer)
    → IsPaise balance
    → All (λ c. IsPaise c.credit_balance) customers
    → All (λ c. IsPaise c.credit_balance) (set_balance id balance customers)
unfolding set_balance
set_balance-whole id balance [] b h = tt
set_balance-whole id balance (x ∷ customers) b h = elim (Bool-cases (customer_is id x)) [
  | inl hit ↦ rw hit (b, h.1)
  | inr miss ↦ rw miss (h.0, set_balance-whole id balance customers b h.1)
]

-- `d'` differs from `d` in the customers and the ledger at most.
abbrev pub OnlyCredit : Db → Db → Type 0
OnlyCredit d d' =
    d' ≡ record d { customers = d'.customers; credit_transactions = d'.credit_transactions }

pub OnlyCredit-trans : (a b c : Db) → OnlyCredit a b → OnlyCredit b c → OnlyCredit a c
OnlyCredit-trans a b c h k =
    k
    ∙ ap
        (λ (x : Db). record x {
          customers = c.customers;
          credit_transactions = c.credit_transactions;
        })
        h

-- What a successful charge has written.
pub charge_credit-eq-ok :
    (i : ChargeInput) (d d' : Db)
    → charge_credit i d ≡ (ok tt, d')
    → (c : Customer) × (customer_at i.shop_id i.customer_id d ≡ some c) × (d' ≡ charged i c d)
charge_credit-eq-ok i d d' h = elim (Option-cases (customer_at i.shop_id i.customer_id d)) [
  | inl absent ↦ cc (charge_credit_lem i d, ap (charge_result i d) absent)
  | inr (c, here) ↦
      (c, here, ap (λ r. r.1) (sym h ∙ charge_credit_lem i d ∙ ap (charge_result i d) here))
]

-- `d'` comes from `d` by charges: no other table is written, the ledger and the balances move
-- together, and the balances stay whole.
pub record Charges (d d' : Db) : Type 0 where
  pub only : OnlyCredit d d'
  pub ledger : HasWholeBalances d → KeepsLedger d d' × HasWholeBalances d'

-- A charge of an amount that is not negative moves the balance and the ledger alike.
pub charge_credit-Charges :
    (i : ChargeInput) (d d' : Db)
    → pos 0 ≤ℤ i.amount
    → charge_credit i d ≡ (ok tt, d')
    → Charges d d'
charge_credit-Charges i d d' positive h =
    let (c, here, e) = charge_credit-eq-ok i d d' h in
    subst (Charges d) (sym e) (record {
      only = refl;
      ledger = λ whole.
          let paise = whole_balance i.shop_id i.customer_id d c whole here in
          (
            charged-KeepsLedger i d c here paise positive,
            set_balance-whole i.customer_id (round2 (add c.credit_balance i.amount)) d.customers
                (IsPaise-round2-add c.credit_balance i.amount paise positive) whole,
          );
    })

pub Charges-refl : (d : Db) → Charges d d
Charges-refl d = record { only = refl; ledger = λ h. (λ x. refl, h) }

pub Charges-trans : {a b c : Db} → Charges a b → Charges b c → Charges a c
Charges-trans {a} {b} {c} s t = record {
  only = OnlyCredit-trans a b c s.only t.only;
  ledger = λ h.
      let (first, whole) = s.ledger h in
      let (second, whole') = t.ledger whole in
      (λ x. drift_trans _ _ _ _ _ _ (first x) (second x), whole');
}

pub charge_credit-OnlyCredit :
    (i : ChargeInput) (d d' : Db) → charge_credit i d ≡ (ok tt, d') → OnlyCredit d d'
charge_credit-OnlyCredit i d d' h =
    let (c, here, e) = charge_credit-eq-ok i d d' h in subst (OnlyCredit d) (sym e) refl
