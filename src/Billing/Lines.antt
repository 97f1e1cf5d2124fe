-- ===== src/Billing/Lines.antt =====
-- The lines that a checkout (src/services/billingService.ts) resolves.
use mathlib.Core.Path.{subst}
use backend_v.Prelude.{
  ◌≡◌, refl, sym, ap, ◌∙◌, Bool, ◌||◌, not, true, false, Option, none, some, List, [], ◌∷◌, filter,
  find, arith, Bool-cases, Option-cases, inl, inr, All, All-find, get_or, nat_beq, is_some,
}
use backend_v.Prelude.Int.{pos, ◌≤ℤ◌}
use backend_v.Billing.Atomic.{
  find_active_session-Reads, check_customer-Reads, check_item-Reads, assert_stock_available-Reads,
}
use backend_v.Billing.Input.{
  CheckoutInput, CheckoutItem, JsNumber, whole, fractional, not_finite, is_finite, is_at_most_zero,
  to_int,
}
use backend_v.Billing.Prepare.{
  Prepared, prepare, check_cart, check_lines, check_item, find_products, product_at, resolve_items,
  price_at, settle, find_active_session, check_customer, gate_lines, is_empty,
}
use backend_v.Billing.Settlement.{prepare-Settled, settle-products}
use backend_v.Billing.StockGate.{assert_stock_available}
use backend_v.Billing.Totals.{HasWholeLines}
use backend_v.Catalog.{branch_product_is}
use backend_v.Errors.{ok}
use backend_v.Money.{Money, zero_money}
use backend_v.Money.Rounding.{IsPaise, IsPaise-round2_nonneg}
use backend_v.Pricing.{get_effective_prices, effective_price, override_at, override_of}
use backend_v.Store.Action.{pure, throw_if, for_each, >>=-eq-ok}
use backend_v.Store.Loops.{throw_if-eq-ok, for_each-eq-ok, for_each-Reads}
use backend_v.Store.Schema.{RowId, Db, Product, BranchProduct, CashierSession}

abbrev NonnegOption : Option Money → Type 0
NonnegOption none = Unit
NonnegOption (some v) = pos 0 ≤ℤ v

-- No price is below 0.
pub record HasPrices (d : Db) : Type 0 where
  pub selling : All (λ p. pos 0 ≤ℤ p.selling_price) d.products
  pub overrides : All (λ r. NonnegOption r.price_override) d.branch_products

override_at-nonneg : (d : Db) (s p : RowId) → HasPrices d → NonnegOption (override_at d s p)
unfolding override_at
override_at-nonneg d s p h = go (find (branch_product_is s p) d.branch_products) refl
  where
    go :
        (o : Option BranchProduct)
        → find (branch_product_is s p) d.branch_products ≡ o
        → NonnegOption (override_of (find (branch_product_is s p) d.branch_products))
    go none e = subst (λ o. NonnegOption (override_of o)) (sym e) tt
    go (some r) e =
        subst (λ o. NonnegOption (override_of o)) (sym e)
          (All-find (λ x. NonnegOption x.price_override) (branch_product_is s p) r d.branch_products
            h.overrides e)

effective_price-IsPaise :
    (v : Money) (o : Option Money) → pos 0 ≤ℤ v → NonnegOption o → IsPaise (effective_price v o)
unfolding effective_price
effective_price-IsPaise v none h k = IsPaise-round2_nonneg v h
effective_price-IsPaise v (some w) h k = IsPaise-round2_nonneg w k

-- Every price that the server resolves is a whole number of paise.
price_at-IsPaise :
    (d : Db) (s id : RowId) (products : List Product)
    → HasPrices d
    → All (λ p. pos 0 ≤ℤ p.selling_price) products
    → IsPaise (get_or (price_at id (get_effective_prices d s products)) zero_money)
unfolding price_at get_effective_prices
price_at-IsPaise d s id [] h k = (0, refl)
price_at-IsPaise d s id (p ∷ products) h k = elim (Bool-cases (nat_beq p.id id)) [
  | inl hit ↦ rw hit (effective_price-IsPaise p.selling_price _ k.0 (override_at-nonneg d s p.id h))
  | inr miss ↦ rw miss (price_at-IsPaise d s id products h k.1)
]

abbrev pub HasCounts : List CheckoutItem → Type 0
HasCounts items = All (λ t. pos 0 ≤ℤ to_int t.quantity) items

resolve_items-HasWholeLines :
    (d : Db) (s : RowId) (products : List Product) (items : List CheckoutItem)
    → HasPrices d
    → All (λ p. pos 0 ≤ℤ p.selling_price) products
    → HasCounts items
    → HasWholeLines (resolve_items products (get_effective_prices d s products) items)
unfolding resolve_items
resolve_items-HasWholeLines d s products [] h k c = tt
resolve_items-HasWholeLines d s products (t ∷ items) h k c =
    let rest = resolve_items-HasWholeLines d s products items h k c.1 in
    elim (Option-cases (product_at t.product_id products)) [
      | inl absent ↦ rw absent rest
      | inr (p, found) ↦ rw found ((price_at-IsPaise d s p.id products h k, c.0), rest)
    ]

positive_count :
    (q : JsNumber) → (not (is_finite q) || is_at_most_zero q) ≡ false → pos 0 ≤ℤ to_int q
positive_count (whole n) h = ground arith
positive_count (fractional n) h = ground arith
positive_count not_finite h = cc

check_item-count :
    (products : List Product) (t : CheckoutItem) (d d' : Db)
    → check_item products t d ≡ (ok tt, d')
    → pos 0 ≤ℤ to_int t.quantity
unfolding check_item
check_item-count products t d d' h =
    let (_, d1, first, rest) =
      >>=-eq-ok (throw_if (not (is_finite t.quantity) || is_at_most_zero t.quantity) _) _ d tt d'
        h in
    positive_count t.quantity (throw_if-eq-ok _ _ d d1 first).0

checked-HasCounts :
    (products : List Product) (items : List CheckoutItem) (d d' : Db)
    → for_each items (check_item products) d ≡ (ok tt, d')
    → HasCounts items
checked-HasCounts products [] d d' h = tt
checked-HasCounts products (t ∷ items) d d'' h =
    let (d', first, rest) = for_each-eq-ok t items (check_item products) d d'' h in
    (check_item-count products t d d' first, checked-HasCounts products items d' d'' rest)

check_item-known :
    (products : List Product) (t : CheckoutItem) (d d' : Db)
    → check_item products t d ≡ (ok tt, d')
    → is_some (product_at t.product_id products) ≡ true
unfolding check_item
check_item-known products t d d' h = ground arith

checked_known :
    (products : List Product) (items : List CheckoutItem) (d d' : Db)
    → for_each items (check_item products) d ≡ (ok tt, d')
    → All (λ t. is_some (product_at t.product_id products) ≡ true) items
checked_known products [] d d' h = tt
checked_known products (t ∷ items) d d'' h =
    let (d', first, rest) = for_each-eq-ok t items (check_item products) d d'' h in
    (check_item-known products t d d' first, checked_known products items d' d'' rest)

All-filter {ℓ} :
    {A : Type 0} (P : A → Type ℓ) (p : A → Bool) (xs : List A) → All P xs → All P (filter p xs)
All-filter P p [] h = tt
All-filter P p (x ∷ xs) h = elim (Bool-cases (p x)) [
  | inl hit ↦ rw hit (h.0, All-filter P p xs h.1)
  | inr miss ↦ rw miss (All-filter P p xs h.1)
]

-- What the checks of the lines have established: the products are the branch's, and every line
-- has passed its checks and the stock gate.
pub record CheckedLines (i : CheckoutInput) (products : List Product) (d : Db) : Type 0 where
  pub products_are : products ≡ find_products i d
  pub counted : HasCounts i.items
  pub known : All (λ t. is_some (product_at t.product_id products) ≡ true) i.items
  pub in_stock :
      assert_stock_available i.shop_id i.cashier_id (gate_lines products i.items) false d
      ≡ (ok tt, d)

check_lines-eq-ok :
    (i : CheckoutInput) (session : CashierSession) (d : Db) (c : CashierSession × List Product)
    (d' : Db)
    → check_lines i session d ≡ (ok c, d')
    → CheckedLines i c.1 d
unfolding check_lines
check_lines-eq-ok i session d c d' h =
    let products : List Product = find_products i d in
    let (_, d1, loop, h1) = >>=-eq-ok (for_each i.items (check_item products)) _ d c d' h in
    let (_, d2, gate, h2) =
      >>=-eq-ok (assert_stock_available i.shop_id i.cashier_id (gate_lines products i.items) false)
        (λ _. pure (session, products)) d1 c d' h1 in
    let same : d1 ≡ d =
      sym (ap (λ r. r.1) loop)
      ∙ (for_each-Reads (check_item products) (check_item-Reads products) i.items).same d in
    let same2 : d2 ≡ d1 =
      sym (ap (λ r. r.1) gate)
      ∙ (assert_stock_available-Reads i.shop_id i.cashier_id (gate_lines products i.items)
            false).same
          d1 in
    let is : products ≡ c.1 = cc h2 in
    subst (λ ps. CheckedLines i ps d) is
      (record {
        products_are = refl;
        counted = checked-HasCounts products i.items d d1 loop;
        known = checked_known products i.items d d1 loop;
        in_stock =
            subst
              (λ x.
                assert_stock_available i.shop_id i.cashier_id (gate_lines products i.items) false x
                ≡ (ok tt, x))
              same (gate ∙ ap (λ x. (ok tt, x)) same2);
      })

check_cart-eq-ok :
    (i : CheckoutInput) (d : Db) (c : CashierSession × List Product) (d' : Db)
    → check_cart i d ≡ (ok c, d')
    → CheckedLines i c.1 d
unfolding check_cart
check_cart-eq-ok i d c d' h =
    let (_, d1, t1, h1) = >>=-eq-ok (throw_if (is_empty i.items) _) _ d c d' h in
    let (_, d2, t2, h2) = >>=-eq-ok (throw_if (is_empty i.payments) _) _ d1 c d' h1 in
    let (session, d3, t3, h3) =
      >>=-eq-ok (find_active_session i.shop_id i.cashier_id) _ d2 c d' h2 in
    let (_, d4, t4, h4) = >>=-eq-ok (check_customer i) (λ _. check_lines i session) d3 c d' h3 in
    let lines = check_lines-eq-ok i session d4 c d' h4 in
    let s1 = (throw_if-eq-ok _ _ d d1 t1).1 in
    let s2 = (throw_if-eq-ok _ _ d1 d2 t2).1 in
    let s3 : d3 ≡ d2 =
      sym (ap (λ r. r.1) t3) ∙ (find_active_session-Reads i.shop_id i.cashier_id).same d2 in
    let s4 : d4 ≡ d3 = sym (ap (λ r. r.1) t4) ∙ (check_customer-Reads i).same d3 in
    subst (CheckedLines i c.1) (s4 ∙ s3 ∙ s2 ∙ s1) lines

-- What a request's lines are when the transaction begins.
pub prepare-CheckedLines :
    (i : CheckoutInput) (d : Db) (p : Prepared) (d' : Db)
    → prepare i d ≡ (ok p, d')
    → CheckedLines i p.products d
unfolding prepare
prepare-CheckedLines i d p d' h =
    let (cart, d1, checked, rest) = >>=-eq-ok (check_cart i) (λ x. settle i x.0 x.1) d p d' h in
    subst (λ ps. CheckedLines i ps d) (settle-products i cart.0 cart.1 d1 p d' rest)
      (check_cart-eq-ok i d cart d1 checked)

-- Every line of a checkout has a whole number of paise for its price and a quantity that is not
-- negative, where no price of the catalog is below 0.
pub prepare-HasWholeLines :
    (i : CheckoutInput) (d : Db) (p : Prepared) (d' : Db)
    → HasPrices d
    → prepare i d ≡ (ok p, d')
    → HasWholeLines p.lines
unfolding find_products
prepare-HasWholeLines i d p d' prices h =
    let lines = prepare-CheckedLines i d p d' h in
    let nonneg : All (λ q. pos 0 ≤ℤ q.selling_price) p.products =
      subst (λ ps. All (λ q. pos 0 ≤ℤ q.selling_price) ps) (sym lines.products_are)
        (All-filter (λ q. pos 0 ≤ℤ q.selling_price) _ d.products prices.selling) in
    subst HasWholeLines (sym (prepare-Settled i d p d' h).lines_are)
      (resolve_items-HasWholeLines d i.shop_id p.products i.items prices nonneg lines.counted)
