-- ===== src/Inventory/Adjust/Series.antt =====
-- A loop of stock changes, as a sale and its cancellation run it over `adjustStock`
-- (src/services/inventoryService.ts).
use backend_v.Prelude.{◌≡◌, sym, ap, ◌∙◌, List, [], ◌∷◌, if◌then◌else◌}
use backend_v.Prelude.Int.{ℤ, pos, ◌+ℤ◌, int_laws}
use backend_v.Errors.{ok}
use backend_v.Inventory.Adjust.{AdjustStockInput, StockChange, adjust_stock}
use backend_v.Inventory.Adjust.Effects.{is_target, shop_stock-adjust_stock}
use backend_v.Inventory.Books.{Tracks}
use backend_v.Inventory.Books.Laws.{Tracks-refl, Tracks-trans, adjust_stock-Tracks}
use backend_v.Inventory.Views.Laws.{shop_stock}
use backend_v.Store.Action.{Action, pure, for_each, ◌>>◌, >>=-eq-ok}
use backend_v.Store.Loops.{for_each-eq-ok, for_each-keeps}
use backend_v.Store.Schema.{RowId, Db}

module _ {A : Type 0} (input : A → AdjustStockInput) where
  -- One round of the loop.
  abbrev pub change_stock : A → Action (Unit {0})
  change_stock x = adjust_stock (input x) >> pure tt

  -- What the changes of the loop add up to for a product at a branch.
  unfoldable pub total_change : RowId → RowId → List A → ℤ
  total_change s p [] = pos 0
  total_change s p (x ∷ xs) =
      if is_target (input x) s p
      then (input x).delta +ℤ total_change s p xs
      else total_change s p xs

  change_stock-eq-ok :
      (x : A) (d d' : Db)
      → change_stock x d ≡ (ok tt, d')
      → (change : StockChange) × (adjust_stock (input x) d ≡ (ok change, d'))
  change_stock-eq-ok x d d' h =
      let (change, y, adjusted, rest) =
        >>=-eq-ok (adjust_stock (input x)) (λ _. pure tt) d tt d' h in
      (change, adjusted ∙ ap (λ z. (ok change, z)) (ap (λ r. r.1) rest))

  -- A loop that ended has moved each product's stock by the sum of its changes.
  pub shop_stock-series :
      (xs : List A) (d d' : Db) (s p : RowId)
      → for_each xs change_stock d ≡ (ok tt, d')
      → shop_stock d' s p ≡ shop_stock d s p +ℤ total_change s p xs
  unfolding for_each total_change
  shop_stock-series [] d d' s p h =
      let same : d ≡ d' = ap (λ r. r.1) h in rw (sym same) (omega int_laws)
  shop_stock-series (x ∷ xs) d d'' s p h =
      let (d', first, rest) = for_each-eq-ok x xs change_stock d d'' h in
      let (change, adjusted) = change_stock-eq-ok x d d' first in
      grind (
        int_laws,
        shop_stock-adjust_stock (input x) d change d' s p adjusted,
        shop_stock-series xs d' d'' s p rest,
      )

  -- And it has kept the accounts in step.
  pub series-Tracks :
      (xs : List A) (d d' : Db) → for_each xs change_stock d ≡ (ok tt, d') → Tracks d d'
  series-Tracks xs d d' h =
      for_each-keeps (Tracks d) change_stock
        (λ x y y' tracked step.
          let (change, adjusted) = change_stock-eq-ok x y y' step in
          Tracks-trans tracked (adjust_stock-Tracks (input x) y change y' adjusted))
        xs d d' (Tracks-refl d) h
