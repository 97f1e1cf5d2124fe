-- ===== src/Cancellation/RoundTrip.antt =====
-- A sale (src/services/billingService.ts) and its cancellation (billCancellationService.ts).
use backend_v.Prelude.{
  ◌≡◌, refl, sym, ap, ◌∙◌, ◌⊎◌, inl, inr, Bool, true, false, some, List, [], ◌∷◌, find, any,
  nat_beq, is_some, if◌then◌else◌, arith, All, Option-cases,
}
use backend_v.Prelude.Int.{ℤ, ◌+ℤ◌, ◌-ℤ◌, int_laws}
use backend_v.Billing.Checkout.{checkout_bill}
use backend_v.Billing.Effects.{Replays, wanted_units, checkout_bill-eq-ok, checkout_bill-shop_stock}
use backend_v.Billing.Input.{CheckoutInput, CheckoutItem}
use backend_v.Billing.Lines.{prepare-CheckedLines}
use backend_v.Billing.Prepare.{product_at, resolve_items}
use backend_v.Billing.Record.{Env, bill_items}
use backend_v.Billing.Retry.{read_again}
use backend_v.Billing.Settlement.{prepare-Settled}
use backend_v.Cancellation.{CancelBillInput, CancelEnv, CancelBillResult, cancel_bill}
use backend_v.Cancellation.Once.{cancel_bill-shop_stock}
use backend_v.Cancellation.Restock.{units_of}
use backend_v.Errors.{ok}
use backend_v.Inventory.Views.Laws.{shop_stock}
use backend_v.Money.{Money}
use backend_v.Store.Schema.{RowId, Db, Bill, Product}

product_at_id :
    (id : RowId) (products : List Product) (p : Product)
    → product_at id products ≡ some p
    → p.id ≡ id
product_at_id id [] p h = cc
product_at_id id (q ∷ products) p h = ground (arith, product_at_id id products p)

-- The lines of a bill hold the units that the request asks for.
units_of-bill_items :
    (q : RowId) (products : List Product) (prices : List (RowId × Money))
    (items : List CheckoutItem)
    → All (λ t. is_some (product_at t.product_id products) ≡ true) items
    → units_of q (bill_items (resolve_items products prices items)) ≡ wanted_units q items
unfolding units_of bill_items resolve_items wanted_units
units_of-bill_items q products prices [] h = refl
units_of-bill_items q products prices (t ∷ items) h =
    elim (Option-cases (product_at t.product_id products)) [
      | inl absent ↦ cc (absent, h.0)
      | inr (p, found) ↦
          let same : p.id ≡ t.product_id = product_at_id t.product_id products p found in
          rw found (grind (arith, same, units_of-bill_items q products prices items h.1))
    ]

back : (a b : ℤ) → a -ℤ b +ℤ b ≡ a
back a b = omega int_laws

-- A checkout that is no replay answers with the bill that its id finds, which has the units asked
-- for on its lines.
sale_lines :
    (env : Env) (i : CheckoutInput) (d : Db) (b : Bill) (d' : Db)
    → checkout_bill env i d ≡ (ok b, d')
    → any (λ x. nat_beq x.id env.bill_id) (env.others d).bills ≡ false
    → Replays env i d b d'
      ⊎ ((b.shop_id ≡ i.shop_id)
          × ((p : RowId) → units_of p b.items ≡ wanted_units p i.items)
          × (find (λ x. nat_beq x.id b.id) d'.bills ≡ some b))
sale_lines env i d b d' h new_id = elim (checkout_bill-eq-ok env i d b d' h) [
  | inl again ↦ inl again
  | inr sale ↦
      let (p, bill, d2, log, prepared, st, found, at) = sale in
      let is : b ≡ bill = read_again env i p (env.others d) bill b d2 st new_id found in
      let settled = prepare-Settled i d p d prepared in
      let checked = prepare-CheckedLines i d p d prepared in
      inr (
        ap (λ x. x.shop_id) (is ∙ st.bill_is),
        λ q.
            ap (λ x. units_of q x.items) (is ∙ st.bill_is)
            ∙ ap (λ ls. units_of q (bill_items ls)) settled.lines_are
            ∙ units_of-bill_items q p.products _ i.items checked.known,
        ap (λ x. find (λ y. nat_beq y.id b.id) x.bills) at
            ∙ ap (λ x. find (λ y. nat_beq y.id x.id) d2.bills) is
            ∙ found,
      )
]

undone :
    (here : Bool) (after sold before wanted units : ℤ)
    → after ≡ (if here then sold +ℤ units else sold)
    → sold ≡ (if here then before -ℤ wanted else before)
    → units ≡ wanted
    → after ≡ before
undone true after sold before wanted units h k e = grind (int_laws, back before wanted)
undone false after sold before wanted units h k e = h ∙ k

-- A sale that is cancelled before anything else happens leaves the stock of every product at every
-- branch as it was when the sale's transaction began, unless the sale was the replay of an earlier
-- bill. The id that the sale drew for its bill must be new.
pub cancel_bill-checkout_bill :
    (env : Env) (i : CheckoutInput) (d : Db) (b : Bill) (d' : Db) (env2 : CancelEnv)
    (c : CancelBillInput) (r : CancelBillResult) (d'' : Db)
    → any (λ x. nat_beq x.id env.bill_id) (env.others d).bills ≡ false
    → checkout_bill env i d ≡ (ok b, d')
    → c.bill_id ≡ b.id
    → env2.others d' ≡ d'
    → cancel_bill env2 c d' ≡ (ok r, d'')
    → Replays env i d b d' ⊎ ((s p : RowId) → shop_stock d'' s p ≡ shop_stock (env.others d) s p)
cancel_bill-checkout_bill env i d b d' env2 c r d'' new_id h same_bill quiet k =
    elim (sale_lines env i d b d' h new_id) [
      | inl again ↦ inl again
      | inr sale ↦ elim (checkout_bill-shop_stock env i d b d' h) [
        | inl again ↦ inl again
        | inr taken ↦
            let (shop, units, there) = sale in
            let (b2, found, _, given) = cancel_bill-shop_stock env2 c d' r d'' k in
            let one : some b2 ≡ some b =
              sym found ∙ ap (λ id. find (λ x. nat_beq x.id id) d'.bills) same_bill ∙ there in
            let same : b2 ≡ b = cc one in
            let same_shop : b2.shop_id ≡ i.shop_id = ap (λ x. x.shop_id) same ∙ shop in
            inr (λ s p.
              undone (nat_beq s i.shop_id) (shop_stock d'' s p) (shop_stock d' s p)
                (shop_stock (env.others d) s p) (wanted_units p i.items) (units_of p b2.items)
                (rw (quiet, same_shop) at (given s p)) (taken s p)
                (ap (λ x. units_of p x.items) same ∙ units p))
      ]
    ]
