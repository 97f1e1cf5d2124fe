-- ===== src/Purchases/RoundTrip.antt =====
-- A purchase and its reversal (src/routes/admin/purchases.ts).
use mathlib.Core.Path.{subst}
use backend_v.Prelude.{◌≡◌, ap, ◌∙◌, Bool, true, false, some, nat_beq, any, if◌then◌else◌}
use backend_v.Prelude.Int.{ℤ, ◌+ℤ◌, ◌-ℤ◌, add_sub_cancel}
use backend_v.Errors.{ok}
use backend_v.Inventory.Views.Laws.{shop_stock}
use backend_v.Purchases.Reversal.{reverse_purchase-shop_stock}
use backend_v.Purchases.Stock.{units_on, create_purchase-shop_stock, create_purchase-find_purchase}
use backend_v.Purchases.Reverse.{ReverseInput, reverse_purchase, find_purchase}
use backend_v.Purchases.{
  PurchaseEnv, PurchaseInput, create_purchase, new_purchase, catalog_lines, catalog_items,
}
use backend_v.Store.Schema.{RowId, Db, Purchase}

given_and_taken :
    (here : Bool) (after between before units : ℤ)
    → after ≡ (if here then between -ℤ units else between)
    → between ≡ (if here then before +ℤ units else before)
    → after ≡ before
given_and_taken true after between before units h k =
    h ∙ ap (λ x. x -ℤ units) k ∙ add_sub_cancel before units
given_and_taken false after between before units h k = h ∙ k

-- Recording a purchase and reversing it, with nothing in between, leaves every branch's stock of
-- every product as it was, where the id of the purchase is new.
pub reverse_purchase-create_purchase :
    (env env2 : PurchaseEnv) (i : PurchaseInput) (j : ReverseInput) (d d1 d2 : Db) (b r : Purchase)
    → any (λ x. nat_beq x.id env.purchase_id) (env.others d).purchases ≡ false
    → create_purchase env i d ≡ (ok b, d1)
    → j.purchase_id ≡ env.purchase_id
    → env2.others d1 ≡ d1
    → reverse_purchase env2 j d1 ≡ (ok r, d2)
    → (s p : RowId) → shop_stock d2 s p ≡ shop_stock (env.others d) s p
reverse_purchase-create_purchase env env2 i j d d1 d2 b r new made same alone undone s p =
    let (q, found, moved) = reverse_purchase-shop_stock env2 j d1 r d2 undone in
    let here : find_purchase j.purchase_id d1 ≡ some (new_purchase env i) =
      ap (λ id. find_purchase id d1) same ∙ create_purchase-find_purchase env i d b d1 new made in
    let is : q ≡ new_purchase env i = cc (found, here) in
    let taken =
      subst
        (λ (x : Purchase). shop_stock d2 s p ≡ (
          if nat_beq s x.shop_id
          then shop_stock (env2.others d1) s p -ℤ units_on p (catalog_items x.items)
          else shop_stock (env2.others d1) s p))
        is (moved s p) in
    given_and_taken (nat_beq s i.receiving_shop_id) (shop_stock d2 s p) (shop_stock d1 s p)
      (shop_stock (env.others d) s p) (units_on p (catalog_lines i))
      (subst
        (λ (x : Db). shop_stock d2 s p ≡ (
          if nat_beq s i.receiving_shop_id
          then shop_stock x s p -ℤ units_on p (catalog_lines i)
          else shop_stock x s p))
        alone taken)
      (create_purchase-shop_stock env i d b d1 made s p)
