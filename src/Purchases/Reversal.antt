-- ===== src/Purchases/Reversal.antt =====
-- The reversal of a purchase (src/routes/admin/purchases.ts): its stock, and that it is done once.
use backend_v.Prelude.{
  ◌≡◌, refl, sym, ap, ◌∙◌, true, Option, some, List, [], ◌∷◌, ◌++◌, nat_beq, any, find,
  if◌then◌else◌, arith,
}
use backend_v.Prelude.Int.{pos, ◌-ℤ◌, int_laws, negate}
use backend_v.Errors.{ok, err}
use backend_v.Inventory.Adjust.Series.{total_change, shop_stock-series, series-Tracks}
use backend_v.Inventory.Views.Laws.{shop_stock, shop_stock_frame}
use backend_v.Purchases.Stock.{units_on}
use backend_v.Purchases.Reverse.{
  ReverseInput, return_input, new_reversal, reverses, reverse_found, reverse_purchase,
  check_reversal, check_reversible, already_reversed, find_purchase,
}
use backend_v.Purchases.{PurchaseEnv, CatalogLine, catalog_items}
use backend_v.Store.Action.{run_rest}
use backend_v.Store.Schema.{RowId, Db, Purchase, PurchaseReversal}
use backend_v.Purchases.Undone.{Undone, with_reversal, reverse_purchase-Undone}

total_change-return :
    (i : ReverseInput) (b : Purchase) (c : Option RowId) (s p : RowId) (lines : List CatalogLine)
    → total_change (return_input i b c) s p lines
      ≡ (if nat_beq s b.shop_id then negate (units_on p lines) else pos 0)
unfolding total_change units_on
total_change-return i b c s p [] = grind int_laws
total_change-return i b c s p (l ∷ lines) = grind (int_laws, total_change-return i b c s p lines)

Undone-shop_stock :
    (env : PurchaseEnv) (i : ReverseInput) (d : Db) (r : Purchase) (d' : Db) (s p : RowId)
    (u : Undone env i d r d')
    → shop_stock d' s p ≡ (
        if nat_beq s u.p.shop_id
        then shop_stock (env.others d) s p -ℤ units_on p (catalog_items u.p.items)
        else shop_stock (env.others d) s p)
Undone-shop_stock env i d r d' s p u =
    let base = env.others d in
    let first : shop_stock (with_reversal i u.p base) s p ≡ shop_stock base s p =
      shop_stock_frame base (with_reversal i u.p base) s p refl refl refl in
    let last : shop_stock d' s p ≡ shop_stock u.committed s p =
      shop_stock_frame u.committed d' s p (ap (λ (x : Db). x.inventory_source) u.end)
        (ap (λ (x : Db). x.branch_inventory) u.end) (ap (λ (x : Db). x.cashier_inventory) u.end) in
    grind (
      int_laws,
      first,
      last,
      shop_stock-series (return_input i u.p u.cashier_id) (catalog_items u.p.items)
          (with_reversal i u.p base) u.committed s p u.returned.moved,
      total_change-return i u.p u.cashier_id s p (catalog_items u.p.items),
    )

-- A reversal that succeeds takes the units on the purchase's catalog lines from the branch that
-- received them, and changes no other branch's stock.
pub reverse_purchase-shop_stock :
    (env : PurchaseEnv) (i : ReverseInput) (d : Db) (r : Purchase) (d' : Db)
    → reverse_purchase env i d ≡ (ok r, d')
    → (p : Purchase) × (find_purchase i.purchase_id d ≡ some p)
      × ((s product_id : RowId)
          → shop_stock d' s product_id ≡ (
              if nat_beq s p.shop_id
              then shop_stock (env.others d) s product_id
                -ℤ units_on product_id (catalog_items p.items)
              else shop_stock (env.others d) s product_id))
reverse_purchase-shop_stock env i d r d' h =
    let u = reverse_purchase-Undone env i d r d' h in
    (u.p, u.found, λ s p. Undone-shop_stock env i d r d' s p u)

found_id :
    (id : RowId) (rows : List Purchase) (p : Purchase)
    → find (λ x. nat_beq x.id id) rows ≡ some p
    → p.id ≡ id
found_id id [] p h = cc
found_id id (x ∷ rows) p h = ground (arith, found_id id rows p)

any-append_last :
    (id : RowId) (rows : List PurchaseReversal) (x : PurchaseReversal)
    → x.purchase_id ≡ id
    → any (reverses id) (rows ++ x ∷ []) ≡ true
any-append_last id [] x h = ground arith
any-append_last id (r ∷ rows) x h = ground (arith, any-append_last id rows x h)

Undone-reverses :
    (env : PurchaseEnv) (i : ReverseInput) (d : Db) (r : Purchase) (d' : Db)
    (u : Undone env i d r d')
    → any (reverses u.p.id) d'.purchase_reversals ≡ true
Undone-reverses env i d r d' u =
    let x = with_reversal i u.p (env.others d) in
    let tracks =
      series-Tracks (return_input i u.p u.cashier_id) (catalog_items u.p.items) x u.committed
        u.returned.moved in
    ap (λ (y : Db). any (reverses u.p.id) y.purchase_reversals) u.end
    ∙ ap (any (reverses u.p.id)) tracks.purchase_reversals
    ∙ any-append_last u.p.id (env.others d).purchase_reversals (new_reversal i u.p) refl

check_reversal_err :
    (i : ReverseInput) (d : Db) (p : Purchase)
    → find_purchase i.purchase_id d ≡ some p
    → any (reverses p.id) d.purchase_reversals ≡ true
    → check_reversal i d ≡ (err already_reversed, d)
unfolding check_reversal check_reversible
check_reversal_err i d p found reversed = rw (found, reversed) refl

-- A purchase that has been reversed cannot be reversed again: the second request is told so, and
-- writes nothing.
pub reverse_purchase_again :
    (env env2 : PurchaseEnv) (i i2 : ReverseInput) (d : Db) (r : Purchase) (d' : Db)
    → i2.purchase_id ≡ i.purchase_id
    → reverse_purchase env i d ≡ (ok r, d')
    → reverse_purchase env2 i2 d' ≡ (err already_reversed, d')
unfolding reverse_purchase
reverse_purchase_again env env2 i i2 d r d' same h =
    let u = reverse_purchase-Undone env i d r d' h in
    let id_is : u.p.id ≡ i2.purchase_id =
      found_id i.purchase_id d.purchases u.p u.found ∙ sym same in
    let here : find_purchase i2.purchase_id d' ≡ some r =
      ap (λ id. find_purchase id d') (sym id_is) ∙ u.still in
    let row_is : r.id ≡ u.p.id = found_id u.p.id d'.purchases r u.still in
    ap (run_rest (reverse_found env2 i2)) (
      check_reversal_err i2 d' r here (
        ap (λ id. any (reverses id) d'.purchase_reversals) row_is ∙ Undone-reverses env i d r d' u))
