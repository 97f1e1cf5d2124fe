-- ===== src/Billing/Settlement.antt =====
-- What the checks of a checkout (src/services/billingService.ts) establish about its money.
use mathlib.Core.Path.{subst}
use backend_v.Prelude.{
  ◌≡◌, refl, sym, ap, ◌∙◌, ◌&&◌, not, true, List, [], ◌∷◌, any, arith, Bool-cases, Option-cases,
  inl, inr, All, map,
}
use backend_v.Prelude.Int.{ℤ, pos, ◌+ℤ◌, ◌-ℤ◌, ◌<ℤ◌, leb_ℤ, int_laws}
use backend_v.Billing.Atomic.{check_cart-Reads}
use backend_v.Billing.Input.{CheckoutInput, CheckoutPayment, method_of}
use backend_v.Billing.Prepare.{
  Prepared, CheckedPayment, prepare, check_cart, settle, check_payment, check_payments, prepared_of,
  resolve_items, subtotal_from, is_credit,
}
use backend_v.Errors
use backend_v.Errors.Code.{payment_amount_mismatch, customer_required_for_credit}
use backend_v.Errors.{Failure, Result, ok, err, app}
use backend_v.Money.{Money, zero_money, add, round2, equals_money}
use backend_v.Money.Rounding.{add_lem}
use backend_v.Pricing.{get_effective_prices}
use backend_v.Store.Action.{Action, pure, ◌>>=◌, ◌>>◌, >>=-eq-ok, throw_if}
use backend_v.Store.Loops.{throw_if-eq-ok}
use backend_v.Store.Schema.{Db, Product, CashierSession, is_set}

-- The sum of the amounts of the payments.
unfoldable pub paid_amount : List CheckedPayment → ℤ
paid_amount [] = pos 0
paid_amount (p ∷ ps) = p.payment.amount +ℤ paid_amount ps

-- Every payment has an amount above 0.
abbrev pub HasAmounts : List CheckedPayment → Type 0
HasAmounts ps = All (λ p. pos 0 <ℤ p.payment.amount) ps

-- The parts of a round of the payment loop that ended.
abbrev Round :
    CheckoutPayment
    → Action (List CheckedPayment × Money)
    → Db
    → List CheckedPayment × Money
    → Db
    → Type 0
Round p others d r d' =
    (c : CheckedPayment) × (rest : List CheckedPayment × Money) × (c.payment ≡ p)
    × (pos 0 <ℤ p.amount)
    × (others d ≡ (ok rest, d'))
    × (r ≡ (c ∷ rest.0, rest.1))

ok-inj : {A : Type 0} (a b : A) (d d' : Db) → pure a d ≡ (ok b, d') → (a ≡ b) × (d ≡ d')
ok-inj a b d d' h = (cc h, ap (λ x. x.1) h)

last_part :
    (p : CheckoutPayment) (others : Action (List CheckedPayment × Money)) (d : Db)
    (r : List CheckedPayment × Money) (d' : Db) (c : CheckedPayment)
    → c.payment ≡ p
    → pos 0 <ℤ p.amount
    → (others >>= λ rest. pure (c ∷ rest.0, rest.1)) d ≡ (ok r, d')
    → Round p others d r d'
last_part p others d r d' c is positive h =
    let (rest, d1, first, last) = >>=-eq-ok others (λ x. pure (c ∷ x.0, x.1)) d r d' h in
    let (same, end) = ok-inj (c ∷ rest.0, rest.1) r d1 d' last in
    (c, rest, is, positive, first ∙ ap (λ x. (ok rest, x)) end, sym same)

check_payment-eq-ok :
    (p : CheckoutPayment) (others : Action (List CheckedPayment × Money)) (d : Db)
    (r : List CheckedPayment × Money) (d' : Db)
    → check_payment p others d ≡ (ok r, d')
    → Round p others d r d'
unfolding check_payment
check_payment-eq-ok p others d r d' h = elim (Option-cases (method_of p.method)) [
  | inl unknown ↦
      let refused : (err (app Errors.validation), d) ≡ (ok r, d') = rw unknown at h in cc refused
  | inr (method, known) ↦ elim (Bool-cases (leb_ℤ p.amount (pos 0))) [
    | inl low ↦
        let refused : (err (app Errors.validation), d) ≡ (ok r, d') = rw (known, low) at h in
        cc refused
    | inr positive ↦
        last_part p others d r d' (record { method = method; payment = p }) refl (ground arith)
          (rw (known, positive) at h)
  ]
]

-- The payment loop has added up the amounts, and each is above 0.
check_payments-eq-ok :
    (sum : Money) (payments : List CheckoutPayment) (d : Db) (r : List CheckedPayment × Money)
    (d' : Db)
    → check_payments sum payments d ≡ (ok r, d')
    → HasAmounts r.0 × (r.1 ≡ sum +ℤ paid_amount r.0)
unfolding check_payments paid_amount
check_payments-eq-ok sum [] d r d' h =
    let is : ([], sum) ≡ r = cc h in
    subst (λ r. HasAmounts r.0 × (r.1 ≡ sum +ℤ paid_amount r.0)) is (tt, omega int_laws)
check_payments-eq-ok sum (p ∷ payments) d r d' h =
    let (c, rest, is_p, positive, first, is) = check_payment-eq-ok p _ d r d' h in
    let (amounts, total) = check_payments-eq-ok (add sum p.amount) payments d rest d' first in
    let amount : c.payment.amount ≡ p.amount = ap (λ x. x.amount) is_p in
    subst (λ r. HasAmounts r.0 × (r.1 ≡ sum +ℤ paid_amount r.0)) (sym is)
      ((rw amount positive, amounts), grind (int_laws, total, add_lem sum p.amount, amount))

-- The payments of the result are those of the request.
check_payments-same :
    (sum : Money) (payments : List CheckoutPayment) (d : Db) (r : List CheckedPayment × Money)
    (d' : Db)
    → check_payments sum payments d ≡ (ok r, d')
    → map (λ c. c.payment) r.0 ≡ payments
unfolding check_payments
check_payments-same sum [] d r d' h =
    let is : ([], sum) ≡ r = cc h in subst (λ r. map (λ c. c.payment) r.0 ≡ []) is refl
check_payments-same sum (p ∷ payments) d r d' h =
    let (c, rest, is_p, positive, first, is) = check_payment-eq-ok p _ d r d' h in
    subst (λ r. map (λ c. c.payment) r.0 ≡ p ∷ payments) (sym is)
      (ap (λ x. x ∷ map (λ c. c.payment) rest.0) is_p
        ∙ ap (λ ps. p ∷ ps) (check_payments-same (add sum p.amount) payments d rest d' first))

-- What the checks have established when the transaction begins.
pub record Settled (i : CheckoutInput) (p : Prepared) (d : Db) : Type 0 where
  pub lines_are :
      p.lines ≡ resolve_items p.products (get_effective_prices d i.shop_id p.products) i.items
  pub subtotal_is : p.subtotal ≡ round2 (subtotal_from zero_money p.lines)
  pub grand_total_is : p.grand_total ≡ round2 (p.subtotal -ℤ zero_money +ℤ zero_money)
  pub payments_are : map (λ c. c.payment) p.payments ≡ i.payments
  pub amounts : HasAmounts p.payments
  pub balanced : equals_money (paid_amount p.payments) p.grand_total ≡ true
  pub credited : any is_credit p.payments ≡ true → is_set i.customer_id ≡ true

add_zero : (a : ℤ) → zero_money +ℤ a ≡ a
add_zero a = omega int_laws

abbrev tests : CheckoutInput → Prepared → Money → Action Prepared
tests i p sum = do
  throw_if (not (equals_money sum p.grand_total)) (app (Errors.bad_request payment_amount_mismatch))
  throw_if (any is_credit p.payments && not (is_set i.customer_id))
      (app (Errors.bad_request customer_required_for_credit))
  pure p

tests-eq-ok :
    (i : CheckoutInput) (p q : Prepared) (sum : Money) (d d' : Db)
    → tests i p sum d ≡ (ok q, d')
    → (p ≡ q)
      × (equals_money sum p.grand_total ≡ true)
      × (any is_credit p.payments ≡ true → is_set i.customer_id ≡ true)
tests-eq-ok i p q sum d d' h =
    let unequal = not (equals_money sum p.grand_total) in
    let nameless = any is_credit p.payments && not (is_set i.customer_id) in
    let (_, d1, t1, h1) =
      >>=-eq-ok (throw_if unequal (app (Errors.bad_request payment_amount_mismatch))) _ d q d' h in
    let (_, d2, t2, h2) =
      >>=-eq-ok (throw_if nameless (app (Errors.bad_request customer_required_for_credit)))
        (λ _. pure p) d1 q d' h1 in
    let (equal, _) = throw_if-eq-ok unequal _ d d1 t1 in
    let (named, _) = throw_if-eq-ok nameless _ d1 d2 t2 in
    let (is, _) = ok-inj p q d2 d' h2 in (is, ground arith, λ credit. ground arith)

settle-Settled :
    (i : CheckoutInput) (session : CashierSession) (products : List Product) (d : Db) (p : Prepared)
    (d' : Db)
    → settle i session products d ≡ (ok p, d')
    → Settled i p d
unfolding settle
settle-Settled i session products d p d' h =
    let (r, d1, checked, rest) = >>=-eq-ok (check_payments zero_money i.payments) _ d p d' h in
    let (amounts, total) = check_payments-eq-ok zero_money i.payments d r d1 checked in
    let (is, balanced, credited) = tests-eq-ok i _ p r.1 d1 d' rest in
    let sum : r.1 ≡ paid_amount r.0 = total ∙ add_zero (paid_amount r.0) in
    subst (λ q. Settled i q d) is
      (record {
        lines_are = refl;
        subtotal_is = refl;
        grand_total_is = refl;
        payments_are = check_payments-same zero_money i.payments d r d1 checked;
        amounts = amounts;
        balanced = rw sum at balanced;
        credited = credited;
      })

pub settle-products :
    (i : CheckoutInput) (session : CashierSession) (products : List Product) (d : Db) (p : Prepared)
    (d' : Db)
    → settle i session products d ≡ (ok p, d')
    → products ≡ p.products
unfolding settle
settle-products i session products d p d' h =
    let (r, d1, checked, rest) = >>=-eq-ok (check_payments zero_money i.payments) _ d p d' h in
    ap (λ q. q.products)
      (tests-eq-ok i
        (prepared_of session products
          (resolve_items products (get_effective_prices d i.shop_id products) i.items) r.0)
        p r.1 d1 d' rest).0

pub prepare-Settled :
    (i : CheckoutInput) (d : Db) (p : Prepared) (d' : Db) → prepare i d ≡ (ok p, d') → Settled i p d
unfolding prepare
prepare-Settled i d p d' h =
    let (cart, d1, checked, rest) = >>=-eq-ok (check_cart i) (λ x. settle i x.0 x.1) d p d' h in
    let same : d1 ≡ d = sym (ap (λ r. r.1) checked) ∙ (check_cart-Reads i).same d in
    subst (Settled i p) same (settle-Settled i cart.0 cart.1 d1 p d' rest)
