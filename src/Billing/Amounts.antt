-- ===== src/Billing/Amounts.antt =====
-- The amounts on the bill that a checkout (src/services/billingService.ts) answers with.
use mathlib.Core.Path.{subst}
use backend_v.Prelude.{◌≡◌, sym, ◌⊎◌, inl, inr, false, List, [], ◌∷◌, any, map, All, nat_beq}
use backend_v.Billing.Checkout.{checkout_bill}
use backend_v.Billing.Effects.{Replays, checkout_bill-eq-ok}
use backend_v.Billing.Input.{CheckoutInput}
use backend_v.Billing.Lines.{HasPrices, prepare-HasWholeLines}
use backend_v.Billing.Prepare.{Prepared, CheckedPayment, prepare}
use backend_v.Billing.Record.{Env}
use backend_v.Billing.Retry.{read_again}
use backend_v.Billing.Settlement.{prepare-Settled}
use backend_v.Billing.Stages.{Stages}
use backend_v.Billing.Totals.{
  stored_amount, line_sum, HasWholeAmounts, stored_amount-Settled, line_sum-Settled,
}
use backend_v.Errors.{ok}
use backend_v.Money.Rounding.{IsPaise}
use backend_v.Store.Schema.{Db, Bill}

-- The client's payments are whole numbers of paise.
abbrev pub PaysInPaise : CheckoutInput → Type 0
PaysInPaise i = All (λ x. IsPaise x.amount) i.payments

-- The stored lines add up to the stored total, and so do the stored payments where the client
-- paid whole paise.
pub record IsBalanced (i : CheckoutInput) (b : Bill) : Type 0 where
  pub lines : line_sum b.items ≡ b.grand_total
  pub payments : PaysInPaise i → stored_amount b.payments ≡ b.grand_total

whole_amounts :
    (ps : List CheckedPayment)
    → All (λ x. IsPaise x.amount) (map (λ c. c.payment) ps)
    → HasWholeAmounts ps
whole_amounts [] h = tt
whole_amounts (p ∷ ps) h = (h.0, whole_amounts ps h.1)

Stages-IsBalanced :
    (env : Env) (i : CheckoutInput) (p : Prepared) (d x : Db) (bill : Bill) (d2 : Db)
    → HasPrices d
    → prepare i d ≡ (ok p, d)
    → Stages env i p x bill d2
    → IsBalanced i bill
Stages-IsBalanced env i p d x bill d2 prices prepared st =
    let s = prepare-Settled i d p d prepared in
    subst (IsBalanced i) (sym st.bill_is) (record {
      lines = line_sum-Settled i p d s (prepare-HasWholeLines i d p d prices prepared);
      payments = λ paise. stored_amount-Settled i p d s (
          whole_amounts p.payments
            (subst (λ ps. All (λ x. IsPaise x.amount) ps) (sym s.payments_are) paise));
    })

-- The totals of the lines on a new bill add up to its total, and so do the amounts of its payments
-- where the client paid whole paise, if no price of the catalog is below 0 and the id that the
-- request drew for the bill is new.
pub checkout_bill-IsBalanced :
    (env : Env) (i : CheckoutInput) (d : Db) (b : Bill) (d' : Db)
    → HasPrices d
    → any (λ x. nat_beq x.id env.bill_id) (env.others d).bills ≡ false
    → checkout_bill env i d ≡ (ok b, d')
    → Replays env i d b d' ⊎ IsBalanced i b
checkout_bill-IsBalanced env i d b d' prices new_id h = elim (checkout_bill-eq-ok env i d b d' h) [
  | inl again ↦ inl again
  | inr sale ↦
      let (p, bill, d2, log, prepared, st, found, at) = sale in
      inr (
        subst (IsBalanced i) (sym (read_again env i p (env.others d) bill b d2 st new_id found))
          (Stages-IsBalanced env i p d (env.others d) bill d2 prices prepared st))
]
