-- ===== src/Inventory/Books/Laws.antt =====
-- Stock changes (src/services/inventoryService.ts) and the accounts.
use backend_v.Prelude.{
  ◌≡◌, refl, ap, ◌∙◌, Bool, ◌&&◌, true, false, some, List, [], ◌∷◌, ◌++◌, nat_beq, find, is_some,
  KeyTest, if◌then◌else◌, arith,
}
use backend_v.Prelude.Int.{ℤ, pos, ◌+ℤ◌, ◌≤ℤ◌, int_laws, drift_trans}
use backend_v.Errors.{ok}
use backend_v.Inventory.Mode.{InventoryMode, mode_of, cashier_mode, branch_mode, get_inventory_mode}
use backend_v.Inventory.Table.{
  quantity_of, create_missing, increment, sum_where, IsNonneg, StockTable,
}
use backend_v.Inventory.Table.Laws.{
  exists_row-create_missing, quantity_of-create_missing, sum_where-create_missing,
  sum_where-increment, create_missing-IsNonneg, increment-IsNonneg, quantity_of-nonneg,
}
use backend_v.Inventory.Adjust.Laws.{branch_changed, cashier_changed, overdraws}
use backend_v.Inventory.Adjust.Effects.{success_cases}
use backend_v.Inventory.Adjust.{
  AdjustStockInput, StockChange, branch_key, cashier_key, increment_stock, adjust_stock,
  find_product,
}
use backend_v.Inventory.Books.{
  stock_in_mode, stock_of, all_stock, moved, Tracks, KeepsStock, SameStock,
}
use backend_v.Store.Schema.{RowId, Db, Product, InventoryMovement, branch_key_eq, cashier_key_eq}

find-&& {ℓ} :
    {A : Type ℓ} (a b : A → Bool) (x : A) (xs : List A)
    → find (λ y. a y && b y) xs ≡ some x
    → is_some (find a xs) ≡ true
find-&& a b x [] h = cc
find-&& a b x (y ∷ xs) h = ground (arith, find-&& a b x xs)

stock_of-increment_stock :
    (id p : RowId) (delta : ℤ) (products : List Product)
    → is_some (find (λ q. nat_beq q.id id) products) ≡ true
    → stock_of p (increment_stock id delta products)
      ≡ (if nat_beq id p then stock_of p products +ℤ delta else stock_of p products)
unfolding stock_of increment_stock
stock_of-increment_stock id p delta [] h = cc
stock_of-increment_stock id p delta (q ∷ products) h =
    ground (arith, stock_of-increment_stock id p delta products)

moved-append :
    (p : RowId) (ms : List InventoryMovement) (m : InventoryMovement)
    → moved p (ms ++ m ∷ [])
      ≡ (if nat_beq m.product_id p then moved p ms +ℤ m.quantity else moved p ms)
unfolding moved
moved-append p [] m = grind int_laws
moved-append p (n ∷ ms) m = grind (int_laws, moved-append p ms m)

pub Tracks-refl : (d : Db) → Tracks d d
Tracks-refl d = record {
  source = refl;
  rows = λ p. refl;
  history = λ p. refl;
  stocked = λ h. h;
  branch_products = refl;
  customers = refl;
  credit_transactions = refl;
  bills = refl;
  sessions = refl;
  bill_counters = refl;
  shops = refl;
  audit_logs = refl;
  purchases = refl;
  purchase_reversals = refl;
  accounts = refl;
}

pub Tracks-trans : {a b c : Db} → Tracks a b → Tracks b c → Tracks a c
Tracks-trans {a} {b} {c} s t = record {
  source = t.source ∙ s.source;
  rows = λ p. drift_trans _ _ _ _ _ _ (s.rows p) (t.rows p);
  history = λ p. drift_trans _ _ _ _ _ _ (s.history p) (t.history p);
  stocked = λ h. t.stocked (s.stocked h);
  branch_products = t.branch_products ∙ s.branch_products;
  customers = t.customers ∙ s.customers;
  credit_transactions = t.credit_transactions ∙ s.credit_transactions;
  bills = t.bills ∙ s.bills;
  sessions = t.sessions ∙ s.sessions;
  bill_counters = t.bill_counters ∙ s.bill_counters;
  shops = t.shops ∙ s.shops;
  audit_logs = t.audit_logs ∙ s.audit_logs;
  purchases = t.purchases ∙ s.purchases;
  purchase_reversals = t.purchase_reversals ∙ s.purchase_reversals;
  accounts = t.accounts ∙ s.accounts;
}

-- The aggregate, the rows and the history of a product that the stock change is about exist.
product_present :
    (i : AdjustStockInput) (d : Db) (q : Product)
    → find_product i d ≡ some q
    → is_some (find (λ x. nat_beq x.id i.product_id) d.products) ≡ true
unfolding find_product
product_present i d q h = find-&& (λ x. nat_beq x.id i.product_id) _ q d.products h

fits_nonneg : (q delta : ℤ) → pos 0 ≤ℤ q → overdraws q delta ≡ false → pos 0 ≤ℤ q +ℤ delta
fits_nonneg q delta h fits = grind int_laws

added-IsNonneg :
    {K : Type 0} ⦃e : KeyTest K⦄ (k : K) (delta : ℤ) (t : StockTable K)
    → IsNonneg t
    → overdraws (quantity_of k t) delta ≡ false
    → IsNonneg (increment k delta (create_missing k t))
added-IsNonneg k delta t h fits =
    increment-IsNonneg k delta (create_missing k t) (create_missing-IsNonneg k t h) (
      rw (quantity_of-create_missing k k t)
        (fits_nonneg (quantity_of k t) delta (quantity_of-nonneg k t h) fits))

branch_changed-Tracks :
    (i : AdjustStockInput) (d : Db) (q : Product)
    → find_product i d ≡ some q
    → get_inventory_mode d ≡ branch_mode
    → overdraws (quantity_of (branch_key i) d.branch_inventory) i.delta ≡ false
    → Tracks d (branch_changed i d)
unfolding all_stock get_inventory_mode
branch_changed-Tracks i d q found mode fits =
    let t = d.branch_inventory in
    let created = create_missing (branch_key i) t in
    let present = exists_row-create_missing (branch_key i) t in
    let here = product_present i d q found in
    record {
      source = refl;
      rows = λ p. rw mode (
          grind (
            int_laws,
            stock_of-increment_stock i.product_id p i.delta d.products here,
            sum_where-increment (λ k. nat_beq k.product_id p) (branch_key i) i.delta created
                present,
            sum_where-create_missing (λ k. nat_beq k.product_id p) (branch_key i) t,
          ));
      history = λ p. grind (
        int_laws,
        stock_of-increment_stock i.product_id p i.delta d.products here,
        moved-append p d.movements,
      );
      stocked = λ h. (added-IsNonneg (branch_key i) i.delta t h.0 fits, h.1);
      branch_products = refl;
      customers = refl;
      credit_transactions = refl;
      bills = refl;
      sessions = refl;
      bill_counters = refl;
      shops = refl;
      audit_logs = refl;
      purchases = refl;
      purchase_reversals = refl;
      accounts = refl;
    }

cashier_changed-Tracks :
    (i : AdjustStockInput) (c : RowId) (d : Db) (q : Product)
    → find_product i d ≡ some q
    → get_inventory_mode d ≡ cashier_mode
    → overdraws (quantity_of (cashier_key i c) d.cashier_inventory) i.delta ≡ false
    → Tracks d (cashier_changed i c d)
unfolding all_stock get_inventory_mode
cashier_changed-Tracks i c d q found mode fits =
    let t = d.cashier_inventory in
    let created = create_missing (cashier_key i c) t in
    let present = exists_row-create_missing (cashier_key i c) t in
    let here = product_present i d q found in
    record {
      source = refl;
      rows = λ p. rw mode (
          grind (
            int_laws,
            stock_of-increment_stock i.product_id p i.delta d.products here,
            sum_where-increment (λ k. nat_beq k.product_id p) (cashier_key i c) i.delta created
                present,
            sum_where-create_missing (λ k. nat_beq k.product_id p) (cashier_key i c) t,
          ));
      history = λ p. grind (
        int_laws,
        stock_of-increment_stock i.product_id p i.delta d.products here,
        moved-append p d.movements,
      );
      stocked = λ h. (h.0, added-IsNonneg (cashier_key i c) i.delta t h.1 fits);
      branch_products = refl;
      customers = refl;
      credit_transactions = refl;
      bills = refl;
      sessions = refl;
      bill_counters = refl;
      shops = refl;
      audit_logs = refl;
      purchases = refl;
      purchase_reversals = refl;
      accounts = refl;
    }

-- A successful stock change moves the aggregate of each product, the rows that hold its stock and
-- its history by the same amount, takes nothing below 0 and writes no other table.
pub adjust_stock-Tracks :
    (i : AdjustStockInput) (d : Db) (change : StockChange) (d' : Db)
    → adjust_stock i d ≡ (ok change, d')
    → Tracks d d'
adjust_stock-Tracks i d change d' h =
    success_cases (Tracks d) i d change d' h (λ zero. Tracks-refl d) (branch_changed-Tracks i d)
      (λ q c. cashier_changed-Tracks i c d q)

stock_in_mode_frame :
    (m : InventoryMode) (d d' : Db) (p : RowId)
    → d'.branch_inventory ≡ d.branch_inventory
    → d'.cashier_inventory ≡ d.cashier_inventory
    → stock_in_mode m d' p ≡ stock_in_mode m d p
unfolding stock_in_mode
stock_in_mode_frame branch_mode d d' p branch cashier =
    ap (sum_where (λ k. nat_beq k.product_id p)) branch
stock_in_mode_frame cashier_mode d d' p branch cashier =
    ap (sum_where (λ k. nat_beq k.product_id p)) cashier

all_stock_frame : (d d' : Db) (p : RowId) → SameStock d d' → all_stock d' p ≡ all_stock d p
unfolding all_stock get_inventory_mode
all_stock_frame d d' p s =
    ap (λ f. stock_in_mode (mode_of f) d' p) s.source
    ∙ stock_in_mode_frame (get_inventory_mode d) d d' p s.branch s.cashier

pub KeepsStock-frame : (d x y : Db) → Tracks d x → SameStock x y → KeepsStock d y
KeepsStock-frame d x y t s = record {
  rows = λ p. rw (all_stock_frame x y p s, s.products) (t.rows p);
  history = λ p. rw (s.products, s.movements) (t.history p);
  stocked = λ h. rw (s.branch, s.cashier) (t.stocked h);
}
