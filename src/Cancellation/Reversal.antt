-- ===== src/Cancellation/Reversal.antt =====
-- The credit that a cancellation (src/services/billCancellationService.ts) takes back.
use mathlib.Core.Path.{subst}
use backend_v.Prelude.{
  ◌≡◌, refl, sym, ap, ◌⊎◌, true, false, List, [], ◌∷◌, ◌++◌, nat_beq, filter, ◌≤◌, length,
  update_all, arith, Bool-cases, inl, inr, All,
}
use backend_v.Prelude.Int.{pos, ◌-ℤ◌, ◌≤ℤ◌, int_laws, ltb_ℤ}
use backend_v.Cancellation.{
  CancelBillInput, can_pay, reverse_charge, reverse_charges, reverse_credit, reversal_row,
  charges_of, sum_amounts,
}
use backend_v.Credit.{customer_is}
use backend_v.Credit.Ledger.{balance_of, owed-append, KeepsLedger, OnlyCredit}
use backend_v.Errors.{ok}
use backend_v.Money.{Money, zero_money, round2, sub}
use backend_v.Store.Action.{pure, >>=-eq-ok}
use backend_v.Store.Schema.{RowId, Db, Bill, Customer, CreditTransaction}

-- `id` is the primary key of the customers.
abbrev pub HasUniqueIds : List Customer → Type 0
HasUniqueIds customers = (c : RowId) → length (filter (customer_is c) customers) ≤ 1

-- No customer has a balance below 0.
abbrev pub HasNoDebit : Db → Type 0
HasNoDebit d = All (λ c. pos 0 ≤ℤ c.credit_balance) d.customers

abbrev pub decremented : RowId → Money → List Customer → List Customer
decremented id amount customers =
    update_all (can_pay id amount) (λ c. record c { credit_balance = sub c.credit_balance amount })
      customers

abbrev pub reversed_db : CancelBillInput → Bill → RowId → Money → Db → Db
reversed_db i b id amount d = record d {
  customers = decremented id amount d.customers;
  credit_transactions = d.credit_transactions ++ reversal_row i b id amount ∷ [];
}

reverse_charge-eq-ok :
    (i : CancelBillInput) (b : Bill) (id : RowId) (amount : Money) (d d' : Db)
    → reverse_charge i b id amount d ≡ (ok tt, d')
    → (length (filter (can_pay id amount) d.customers) ≡ 1) × (d' ≡ reversed_db i b id amount d)
unfolding reverse_charge
reverse_charge-eq-ok i b id amount d d' h = ground arith

balance_of-decremented_other :
    (id c : RowId) (amount : Money) (customers : List Customer)
    → nat_beq id c ≡ false
    → balance_of c (decremented id amount customers) ≡ balance_of c customers
unfolding balance_of
balance_of-decremented_other id c amount [] h = refl
balance_of-decremented_other id c amount (x ∷ customers) h =
    ground (arith, balance_of-decremented_other id c amount customers)

no_payer :
    (id : RowId) (amount : Money) (customers : List Customer)
    → length (filter (customer_is id) customers) ≡ 0
    → length (filter (can_pay id amount) customers) ≡ 0
no_payer id amount [] h = refl
no_payer id amount (x ∷ customers) h = ground (arith, no_payer id amount customers)

balance_of-decremented :
    (id : RowId) (amount : Money) (customers : List Customer)
    → length (filter (customer_is id) customers) ≤ 1
    → length (filter (can_pay id amount) customers) ≡ 1
    → balance_of id (decremented id amount customers) ≡ balance_of id customers -ℤ amount
unfolding balance_of sub
balance_of-decremented id amount [] h k = ground arith
balance_of-decremented id amount (x ∷ customers) h k =
    ground (arith, balance_of-decremented id amount customers, no_payer id amount customers)

enough :
    (id : RowId) (amount : Money) (c : Customer)
    → can_pay id amount c ≡ true
    → pos 0 ≤ℤ sub c.credit_balance amount
unfolding sub
enough id amount c h = grind int_laws

decremented-HasNoDebit :
    (id : RowId) (amount : Money) (customers : List Customer)
    → All (λ c. pos 0 ≤ℤ c.credit_balance) customers
    → All (λ c. pos 0 ≤ℤ c.credit_balance) (decremented id amount customers)
decremented-HasNoDebit id amount [] h = tt
decremented-HasNoDebit id amount (x ∷ customers) h = elim (Bool-cases (can_pay id amount x)) [
  | inl hit ↦ rw hit (enough id amount x hit, decremented-HasNoDebit id amount customers h.1)
  | inr miss ↦ rw miss (h.0, decremented-HasNoDebit id amount customers h.1)
]

-- `d'` is `d`, or `d` after one reversal of the amount.
abbrev Reversed : CancelBillInput → Bill → Money → Db → Db → Type 0
Reversed i b amount d d' =
    (d' ≡ d)
    ⊎ ((id : RowId) × (length (filter (can_pay id amount) d.customers) ≡ 1)
        × (d' ≡ reversed_db i b id amount d))

reverse_charges-Reversed :
    (i : CancelBillInput) (b : Bill) (amount : Money) (charges : List CreditTransaction) (d d' : Db)
    → reverse_charges i b amount charges d ≡ (ok tt, d')
    → Reversed i b amount d d'
reverse_charges-Reversed i b amount [] d d' h = inl (sym (ap (λ r. r.1) h))
reverse_charges-Reversed i b amount (c ∷ charges) d d' h =
    elim (Bool-cases (ltb_ℤ (pos 0) amount)) [
      | inl positive ↦
          let (one, is) = reverse_charge-eq-ok i b c.customer_id amount d d' (rw positive at h) in
          inr (c.customer_id, one, is)
      | inr none_left ↦
          let stay : pure tt d ≡ (ok tt, d') = rw none_left at h in inl (sym (ap (λ r. r.1) stay))
    ]

-- The whole of step 3: nothing to reverse, or one reversal of the sum of the bill's charges.
pub reverse_credit-Reversed :
    (i : CancelBillInput) (b : Bill) (d : Db) (amount : Money) (d' : Db)
    → reverse_credit i b d ≡ (ok amount, d')
    → (amount ≡ round2 (sum_amounts zero_money (charges_of b.id d))) × Reversed i b amount d d'
unfolding reverse_credit
reverse_credit-Reversed i b d amount d' h =
    let charges : List CreditTransaction = charges_of b.id d in
    let total : Money = round2 (sum_amounts zero_money charges) in
    let (_, d1, reversed, rest) =
      >>=-eq-ok (reverse_charges i b total charges) (λ _. pure total) d amount d' h in
    let end : d1 ≡ d' = ap (λ r. r.1) rest in
    let is : amount ≡ total = cc rest in
    (
      is,
      subst (Reversed i b amount d) end (
          subst (λ m. Reversed i b m d d1) (sym is)
            (reverse_charges-Reversed i b total charges d d1 reversed)),
    )

pub reverse_credit-OnlyCredit :
    (i : CancelBillInput) (b : Bill) (d : Db) (amount : Money) (d' : Db)
    → reverse_credit i b d ≡ (ok amount, d')
    → OnlyCredit d d'
reverse_credit-OnlyCredit i b d amount d' h = elim (reverse_credit-Reversed i b d amount d' h).1 [
  | inl same ↦ subst (OnlyCredit d) (sym same) refl
  | inr (id, one, is) ↦ subst (OnlyCredit d) (sym is) refl
]

reversed-KeepsLedger :
    (i : CancelBillInput) (b : Bill) (id : RowId) (amount : Money) (d : Db)
    → HasUniqueIds d.customers
    → length (filter (can_pay id amount) d.customers) ≡ 1
    → KeepsLedger d (reversed_db i b id amount d)
reversed-KeepsLedger i b id amount d unique one x = elim (Bool-cases (nat_beq id x)) [
  | inl hit ↦
      let same : id ≡ x = ground arith in
      grind (
        int_laws,
        balance_of-decremented id amount d.customers (unique id) one,
        ap (λ c. balance_of c (decremented id amount d.customers)) same,
        ap (λ c. balance_of c d.customers) same,
        owed-append x d.credit_transactions (reversal_row i b id amount),
      )
  | inr miss ↦ grind (
    int_laws,
    balance_of-decremented_other id x amount d.customers miss,
    owed-append x d.credit_transactions (reversal_row i b id amount),
  )
]

-- The reversal moves a customer's balance and ledger alike, and leaves no balance below 0.
pub reverse_credit-KeepsLedger :
    (i : CancelBillInput) (b : Bill) (d : Db) (amount : Money) (d' : Db)
    → HasUniqueIds d.customers
    → reverse_credit i b d ≡ (ok amount, d')
    → KeepsLedger d d' × (HasNoDebit d → HasNoDebit d')
reverse_credit-KeepsLedger i b d amount d' unique h =
    elim (reverse_credit-Reversed i b d amount d' h).1 [
      | inl same ↦
          subst (λ x. KeepsLedger d x × (HasNoDebit d → HasNoDebit x)) (sym same)
            (λ x. refl, λ k. k)
      | inr (id, one, is) ↦
          subst (λ x. KeepsLedger d x × (HasNoDebit d → HasNoDebit x)) (sym is)
            (
              reversed-KeepsLedger i b id amount d unique one,
              decremented-HasNoDebit id amount d.customers,
            )
    ]
