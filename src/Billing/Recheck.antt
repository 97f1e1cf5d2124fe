-- ===== src/Billing/Recheck.antt =====
-- The second look at the prices inside the transaction of a checkout
-- (src/services/billingService.ts).
use mathlib.Core.Path.{subst}
use backend_v.Prelude.{
  ◌≡◌, refl, sym, true, some, List, [], ◌∷◌, arith, get_or, Option-cases, inl, inr, All,
}
use backend_v.Billing.Checkout.{recheck_prices, recheck_line}
use backend_v.Billing.Input.{CheckoutInput, CheckoutItem}
use backend_v.Billing.Prepare.{Prepared, ResolvedItem, prepare, product_at, resolve_items, price_at}
use backend_v.Billing.Settlement.{prepare-Settled}
use backend_v.Errors.{ok}
use backend_v.Money.{Money, zero_money, equals}
use backend_v.Pricing.{get_effective_prices, override_at}
use backend_v.Store.Action.{for_each}
use backend_v.Store.Schema.{RowId, Db, Product}

abbrev IsPriced : List (RowId × Money) → ResolvedItem → Type 0
IsPriced prices r = price_at r.product.id prices ≡ some r.unit_price

-- A product that is in the list has a price in the map.
has_price :
    (d : Db) (s id : RowId) (products : List Product) (p : Product)
    → product_at id products ≡ some p
    → price_at p.id (get_effective_prices d s products)
      ≡ some (get_or (price_at p.id (get_effective_prices d s products)) zero_money)
unfolding price_at get_effective_prices
has_price d s id [] p h = cc
has_price d s id (q ∷ products) p h = ground (arith, has_price d s id products p)

resolve_items-IsPriced :
    (d : Db) (s : RowId) (products : List Product) (items : List CheckoutItem)
    → All
        (IsPriced (get_effective_prices d s products))
        (resolve_items products (get_effective_prices d s products) items)
unfolding resolve_items
resolve_items-IsPriced d s products [] = tt
resolve_items-IsPriced d s products (t ∷ items) =
    let rest = resolve_items-IsPriced d s products items in
    elim (Option-cases (product_at t.product_id products)) [
      | inl absent ↦ rw absent rest
      | inr (p, found) ↦ rw found (has_price d s t.product_id products p found, rest)
    ]

get_effective_prices_frame :
    (d x : Db) (s : RowId) (products : List Product)
    → x.branch_products ≡ d.branch_products
    → get_effective_prices x s products ≡ get_effective_prices d s products
unfolding get_effective_prices override_at
get_effective_prices_frame d x s [] h = refl
get_effective_prices_frame d x s (p ∷ products) h =
    rw (h, get_effective_prices_frame d x s products h)

same_prices :
    (prices : List (RowId × Money)) (rs : List ResolvedItem) (d : Db)
    → All (IsPriced prices) rs
    → for_each rs (recheck_line prices) d ≡ (ok tt, d)
unfolding for_each
same_prices prices [] d h = refl
same_prices prices (r ∷ rs) d h =
    let same : equals r.unit_price r.unit_price ≡ true = ground arith in
    rw (h.0, same) (same_prices prices rs d h.1)

-- The second look at the prices passes whenever the branch's own rows are as they were, whatever
-- happened to the products: it sees a new override, and not a new selling price.
pub recheck_prices-stale :
    (i : CheckoutInput) (d x : Db) (p : Prepared)
    → prepare i d ≡ (ok p, d)
    → x.branch_products ≡ d.branch_products
    → recheck_prices i.shop_id p x ≡ (ok tt, x)
unfolding recheck_prices
recheck_prices-stale i d x p prepared rows =
    let prices = get_effective_prices d i.shop_id p.products in
    let priced : All (IsPriced prices) p.lines =
      subst (λ rs. All (IsPriced prices) rs) (sym (prepare-Settled i d p d prepared).lines_are)
        (resolve_items-IsPriced d i.shop_id p.products i.items) in
    rw (get_effective_prices_frame d x i.shop_id p.products rows)
      (same_prices prices p.lines x priced)
