-- ===== src/Assignment.antt =====
-- src/lib/branchCatalog.ts: which branch carries which product.
pub mod Laws
use backend_v.Prelude.{
  ℕ, ◌-◌, Bool, ◌&&◌, not, true, false, Option, none, some, List, [], ◌∷◌, ◌++◌, find, any, update,
  map, length, nat_beq, if◌then◌else◌,
}
use backend_v.Catalog.{branch_product_is, assigned_to_shop, in_branch_catalog}
use backend_v.Errors
use backend_v.Errors.{app, db, unique_violation, foreign_key_violation, record_not_found}
use backend_v.Errors.Code.{product_not_found}
use backend_v.Store.Action.{Action, pure, query, or_throw, throw_if, modify, ◌>>=◌, ◌>>◌}
use backend_v.Store.Schema.{RowId, Time, Db, Product, BranchProduct, Shop}

pub record AssignmentInput : Type 0 where
  pub shop_id : RowId
  pub product_id : RowId
  pub assigned : Bool
  pub actor_id : RowId

pub record AssignmentChange : Type 0 where
  pub changed : Bool
  pub is_assigned : Bool

-- A row that `createMany` writes for an assigned product.
abbrev pub assigned_row : Time → Option RowId → RowId → RowId → BranchProduct
assigned_row now actor_id shop_id product_id = record {
  shop_id = shop_id;
  product_id = product_id;
  is_assigned = true;
  price_override = none;
  assigned_at = now;
  assigned_by_id = actor_id;
  unassigned_at = none;
  unassigned_by_id = none;
}

-- `createMany({ data, skipDuplicates: true })`
unfoldable pub create_skipping : List BranchProduct → List BranchProduct → List BranchProduct
create_skipping rows [] = rows
create_skipping rows (x ∷ xs) =
    if any (branch_product_is x.shop_id x.product_id) rows
    then create_skipping rows xs
    else create_skipping (rows ++ x ∷ []) xs

-- The two foreign keys of the table. The ids of actors are no references.
abbrev pub is_known : RowId → RowId → Db → Bool
is_known shop_id product_id d =
    any (λ s. nat_beq s.id shop_id) d.shops && any (λ p. nat_beq p.id product_id) d.products

-- A row that is not skipped and breaks a foreign key.
abbrev is_stray : Db → BranchProduct → Bool
is_stray d x =
    not (any (branch_product_is x.shop_id x.product_id) d.branch_products)
    && not (is_known x.shop_id x.product_id d)

-- The count of the rows that were created.
abbrev create_many : List BranchProduct → Action ℕ
create_many data_rows = do
  stray ← query (λ d. any (is_stray d) data_rows)
  throw_if stray (db foreign_key_violation)
  before ← query (λ d. length d.branch_products)
  modify (λ d. record d { branch_products = create_skipping d.branch_products data_rows })
  after ← query (λ d. length d.branch_products)
  pure (after - before)

unfoldable pub assign_product_to_all_branches : Time → RowId → Option RowId → Action ℕ
assign_product_to_all_branches now product_id actor_id = do
  shops ← query (λ d. d.shops)
  create_many (map (λ s. assigned_row now actor_id s.id product_id) shops)

unfoldable pub assign_all_products_to_branch : Time → RowId → Option RowId → Action ℕ
assign_all_products_to_branch now shop_id actor_id = do
  products ← query (λ d. d.products)
  create_many (map (λ p. assigned_row now actor_id shop_id p.id) products)

-- The row that heals a missing one.
abbrev pub healed_row : Time → AssignmentInput → BranchProduct
healed_row now i = record {
  shop_id = i.shop_id;
  product_id = i.product_id;
  is_assigned = i.assigned;
  price_override = none;
  assigned_at = now;
  assigned_by_id = if i.assigned then some i.actor_id else none;
  unassigned_at = if i.assigned then none else some now;
  unassigned_by_id = if i.assigned then none else some i.actor_id;
}

abbrev pub reassigned : Time → AssignmentInput → BranchProduct → BranchProduct
reassigned now i r =
    if i.assigned
    then record r {
      is_assigned = true;
      assigned_at = now;
      assigned_by_id = some i.actor_id;
      unassigned_at = none;
      unassigned_by_id = none;
    }
    else record r {
      is_assigned = false;
      unassigned_at = some now;
      unassigned_by_id = some i.actor_id;
    }

abbrev pub same_bool : Bool → Bool → Bool
same_bool true b = b
same_bool false true = false
same_bool false false = true

abbrev pub change_of_status : Bool → AssignmentInput → AssignmentChange
change_of_status changed i = record { changed = changed; is_assigned = i.assigned }

abbrev pub has_row : AssignmentInput → Db → Bool
has_row i d = any (branch_product_is i.shop_id i.product_id) d.branch_products

-- `branchProduct.create`, with the unique index and the foreign keys of the table.
unfoldable pub create_row : Time → AssignmentInput → Action (Unit {0})
create_row now i = do
  taken ← query (has_row i)
  throw_if taken (db unique_violation)
  known ← query (is_known i.shop_id i.product_id)
  throw_if (not known) (db foreign_key_violation)
  modify (λ d. record d { branch_products = d.branch_products ++ healed_row now i ∷ [] })

-- `branchProduct.update`
unfoldable pub update_row : Time → AssignmentInput → Action (Unit {0})
update_row now i = do
  present ← query (has_row i)
  throw_if (not present) (db record_not_found)
  modify (λ d. record d {
    branch_products =
        update (branch_product_is i.shop_id i.product_id) (reassigned now i) d.branch_products;
  })

-- What the row of the product at the branch, if there is one, leads to. `others` is what the rest
-- of the system commits after the row was read.
unfoldable pub assign_existing :
    Time → (Db → Db) → AssignmentInput → Option BranchProduct → Action AssignmentChange
assign_existing now others i none = do
  modify others
  create_row now i
  pure (change_of_status true i)
assign_existing now others i (some r) =
    if same_bool r.is_assigned i.assigned
    then pure (change_of_status false i)
    else do modify others; update_row now i; pure (change_of_status true i)

unfoldable pub set_branch_assignment : Time → (Db → Db) → AssignmentInput → Action AssignmentChange
set_branch_assignment now others i = do
  existing ← query (λ d. find (branch_product_is i.shop_id i.product_id) d.branch_products)
  assign_existing now others i existing

-- A product that the branch carries at present, by its id.
unfoldable pub get_assigned_product_or_throw : RowId → RowId → Action Product
get_assigned_product_or_throw product_id shop_id = do
  found ←
      query (λ d. find (λ p. nat_beq p.id product_id && assigned_to_shop shop_id d p) d.products)
  or_throw found (app (Errors.not_found product_not_found))

-- A product that has a row at the branch, assigned or not.
unfoldable pub get_product_in_branch_catalog_or_throw : RowId → RowId → Action Product
get_product_in_branch_catalog_or_throw product_id shop_id = do
  found ←
      query (λ d. find (λ p. nat_beq p.id product_id && in_branch_catalog shop_id d p) d.products)
  or_throw found (app (Errors.not_found product_not_found))
