-- ===== src/Cancellation/Restock.antt =====
-- The stock that a cancellation (src/services/billCancellationService.ts) puts back.
use backend_v.Prelude.{◌≡◌, refl, List, [], ◌∷◌, nat_beq, if◌then◌else◌, arith}
use backend_v.Prelude.Int.{ℤ, pos, ◌+ℤ◌, int_laws}
use backend_v.Cancellation.{
  CancelBillInput, RestoredItem, restore_input, restore, merge_line, merge_lines, insert_restored,
  in_product_order, restored_items,
}
use backend_v.Inventory.Adjust.Series.{total_change, shop_stock-series, series-Tracks}
use backend_v.Inventory.Books.{Tracks}
use backend_v.Inventory.Views.Laws.{shop_stock}
use backend_v.Store.Action.{for_each}
use backend_v.Errors.{ok}
use backend_v.Store.Schema.{RowId, Db, Bill, BillItem}

-- The units of a product on the lines of a bill.
unfoldable pub units_of : RowId → List BillItem → ℤ
units_of p [] = pos 0
units_of p (it ∷ items) =
    if nat_beq it.product_id p then it.quantity +ℤ units_of p items else units_of p items

-- The units of a product on the merged lines.
restored_units : RowId → List RestoredItem → ℤ
restored_units p [] = pos 0
restored_units p (r ∷ rs) =
    if nat_beq r.product_id p then r.quantity +ℤ restored_units p rs else restored_units p rs

restored_units-merge_line :
    (p : RowId) (it : BillItem) (rs : List RestoredItem)
    → restored_units p (merge_line it rs) ≡ (
        if nat_beq it.product_id p then restored_units p rs +ℤ it.quantity else restored_units p rs)
unfolding restored_units merge_line
restored_units-merge_line p it [] = grind int_laws
restored_units-merge_line p it (r ∷ rs) = grind (int_laws, arith, restored_units-merge_line p it rs)

restored_units-merge_lines :
    (p : RowId) (rs : List RestoredItem) (items : List BillItem)
    → restored_units p (merge_lines rs items) ≡ restored_units p rs +ℤ units_of p items
unfolding merge_lines units_of
restored_units-merge_lines p rs [] = omega int_laws
restored_units-merge_lines p rs (it ∷ items) = grind (
  int_laws,
  restored_units-merge_lines p (merge_line it rs) items,
  restored_units-merge_line p it rs,
)

restored_units-insert_restored :
    (p : RowId) (r : RestoredItem) (rs : List RestoredItem)
    → restored_units p (insert_restored r rs) ≡ restored_units p (r ∷ rs)
unfolding restored_units insert_restored
restored_units-insert_restored p r [] = refl
restored_units-insert_restored p r (x ∷ rs) =
    grind (int_laws, restored_units-insert_restored p r rs)

restored_units-in_product_order :
    (p : RowId) (rs : List RestoredItem)
    → restored_units p (in_product_order rs) ≡ restored_units p rs
unfolding restored_units in_product_order
restored_units-in_product_order p [] = refl
restored_units-in_product_order p (r ∷ rs) = grind (
  int_laws,
  restored_units-insert_restored p r (in_product_order rs),
  restored_units-in_product_order p rs,
)

-- The merged and sorted lines hold the units of the bill's lines.
restored_units-restored_items :
    (p : RowId) (b : Bill) → restored_units p (restored_items b) ≡ units_of p b.items
unfolding restored_units restored_items
restored_units-restored_items p b = grind (
  int_laws,
  restored_units-in_product_order p (merge_lines [] b.items),
  restored_units-merge_lines p [] b.items,
)

total_change-restore :
    (i : CancelBillInput) (b : Bill) (s p : RowId) (rs : List RestoredItem)
    → total_change (restore_input i b) s p rs
      ≡ (if nat_beq s b.shop_id then restored_units p rs else pos 0)
unfolding restored_units total_change
total_change-restore i b s p [] = ground arith
total_change-restore i b s p (r ∷ rs) = grind (arith, total_change-restore i b s p rs)

-- The loop gives the bill's branch the units of the bill's lines, and changes no other stock.
pub shop_stock-restock :
    (i : CancelBillInput) (b : Bill) (d d' : Db) (s p : RowId)
    → for_each (restored_items b) (restore i b) d ≡ (ok tt, d')
    → shop_stock d' s p
      ≡ (if nat_beq s b.shop_id then shop_stock d s p +ℤ units_of p b.items else shop_stock d s p)
shop_stock-restock i b d d' s p h = grind (
  int_laws,
  shop_stock-series (restore_input i b) (restored_items b) d d' s p h,
  total_change-restore i b s p (restored_items b),
  restored_units-restored_items p b,
)

pub restock-Tracks :
    (i : CancelBillInput) (b : Bill) (d d' : Db)
    → for_each (restored_items b) (restore i b) d ≡ (ok tt, d')
    → Tracks d d'
restock-Tracks i b d d' h = series-Tracks (restore_input i b) (restored_items b) d d' h
