-- ===== src/Assignment/Laws.antt =====
-- The assignment of a product to a branch (src/lib/branchCatalog.ts).
use backend_v.Prelude.{
  ◌≡◌, refl, any, sym, ap, ◌∙◌, Bool, true, false, Option, none, some, List, [], ◌∷◌, ◌++◌, find,
  update, arith, Option-cases, Bool-cases, inl, inr,
}
use backend_v.Assignment.{
  AssignmentInput, AssignmentChange, set_branch_assignment, assign_existing, create_row, update_row,
  has_row, is_known, healed_row, reassigned, same_bool,
}
use backend_v.Catalog.{branch_product_is}
use backend_v.Errors.{
  Result, ok, err, db, unique_violation, foreign_key_violation, record_not_found,
}
use backend_v.Money.{Money}
use backend_v.Store.Schema.{Time, Db, BranchProduct}

abbrev row_at : AssignmentInput → List BranchProduct → Option BranchProduct
row_at i = find (branch_product_is i.shop_id i.product_id)

find-append_missing :
    (p : BranchProduct → Bool) (rows : List BranchProduct) (x : BranchProduct)
    → find p rows ≡ none
    → p x ≡ true
    → find p (rows ++ x ∷ []) ≡ some x
find-append_missing p [] x h k = rw k
find-append_missing p (r ∷ rows) x h k = ground (arith, find-append_missing p rows x)

row_at-update :
    (now : Time) (i : AssignmentInput) (rows : List BranchProduct) (r : BranchProduct)
    → row_at i rows ≡ some r
    → row_at i (update (branch_product_is i.shop_id i.product_id) (reassigned now i) rows)
      ≡ some (reassigned now i r)
row_at-update now i [] r h = cc
row_at-update now i (x ∷ rows) r h = ground (arith, row_at-update now i rows r)

same_bool_refl : (b : Bool) → same_bool b b ≡ true
same_bool_refl true = refl
same_bool_refl false = refl

reassigned_lem :
    (now : Time) (i : AssignmentInput) (r : BranchProduct)
    → ((reassigned now i r).is_assigned ≡ i.assigned)
      × ((reassigned now i r).price_override ≡ r.price_override)
reassigned_lem now i r = ground arith

abbrev price_of : Option BranchProduct → Option Money
price_of none = none
price_of (some r) = r.price_override

-- The row has the status asked for and the price override that it had before, if there was a row,
-- and no other table differs.
pub record IsAssigned (i : AssignmentInput) (d d' : Db) : Type 0 where
  pub row : BranchProduct
  pub found : row_at i d'.branch_products ≡ some row
  pub status : row.is_assigned ≡ i.assigned
  pub price : row.price_override ≡ price_of (row_at i d.branch_products)
  pub only : d' ≡ record d { branch_products = d'.branch_products }

same_bool-eq : (a b : Bool) → same_bool a b ≡ true → a ≡ b
same_bool-eq a b h = ground arith

-- Every way in which an assignment that began at `d` can end.
pub data AssignmentEnded (others : Db → Db) (i : AssignmentInput) (d : Db)
    (r : Result AssignmentChange × Db) : Type 0 where
  -- The row has the status already.
  same :
      (row : BranchProduct)
      → row_at i d.branch_products ≡ some row
      → row.is_assigned ≡ i.assigned
      → r ≡ (ok (record { changed = false; is_assigned = i.assigned }), d)
      → AssignmentEnded others i d r
  -- The row is written.
  written :
      (d' : Db)
      → IsAssigned i (others d) d'
      → r ≡ (ok (record { changed = true; is_assigned = i.assigned }), d')
      → AssignmentEnded others i d r
  -- There was no row, and another request created one.
  lost :
      row_at i d.branch_products ≡ none
      → has_row i (others d) ≡ true
      → r ≡ (err (db unique_violation), others d)
      → AssignmentEnded others i d r
  -- There is no row, and the shop or the product is unknown.
  unknown :
      row_at i d.branch_products ≡ none
      → is_known i.shop_id i.product_id (others d) ≡ false
      → r ≡ (err (db foreign_key_violation), others d)
      → AssignmentEnded others i d r
  -- The row that was read is gone.
  gone :
      (row : BranchProduct)
      → row_at i d.branch_products ≡ some row
      → has_row i (others d) ≡ false
      → r ≡ (err (db record_not_found), others d)
      → AssignmentEnded others i d r

row_at-none :
    (i : AssignmentInput) (rows : List BranchProduct)
    → any (branch_product_is i.shop_id i.product_id) rows ≡ false
    → row_at i rows ≡ none
row_at-none i [] h = refl
row_at-none i (x ∷ rows) h = ground (arith, row_at-none i rows)

row_at-some :
    (i : AssignmentInput) (rows : List BranchProduct)
    → any (branch_product_is i.shop_id i.product_id) rows ≡ true
    → (row : BranchProduct) × (row_at i rows ≡ some row)
row_at-some i rows h = elim (Option-cases (row_at i rows)) [
  | inl absent ↦ absurd (none-any rows absent h)
  | inr there ↦ there
]
  where
    none-any :
        (rows : List BranchProduct)
        → row_at i rows ≡ none
        → any (branch_product_is i.shop_id i.product_id) rows ≡ true
        → ⊥
    none-any [] a k = cc
    none-any (x ∷ rows) a k = ground (arith, none-any rows)

healed_row-IsAssigned :
    (now : Time) (i : AssignmentInput) (d : Db)
    → has_row i d ≡ false
    → IsAssigned i d (record d { branch_products = d.branch_products ++ healed_row now i ∷ [] })
healed_row-IsAssigned now i d free =
    let absent = row_at-none i d.branch_products free in
    record {
      row = healed_row now i;
      found =
          find-append_missing (branch_product_is i.shop_id i.product_id) d.branch_products
            (healed_row now i) absent (ground arith);
      status = refl;
      price = sym (ap price_of absent);
      only = refl;
    }

reassigned-IsAssigned :
    (now : Time) (i : AssignmentInput) (d : Db) (r : BranchProduct)
    → row_at i d.branch_products ≡ some r
    → IsAssigned i d (record d {
      branch_products =
          update (branch_product_is i.shop_id i.product_id) (reassigned now i) d.branch_products;
    })
reassigned-IsAssigned now i d r there = record {
  row = reassigned now i r;
  found = row_at-update now i d.branch_products r there;
  status = (reassigned_lem now i r).0;
  price = (reassigned_lem now i r).1 ∙ sym (ap price_of there);
  only = refl;
}

create_row-AssignmentEnded :
    (now : Time) (others : Db → Db) (i : AssignmentInput) (d : Db)
    → row_at i d.branch_products ≡ none
    → AssignmentEnded others i d (assign_existing now others i none d)
unfolding assign_existing create_row
create_row-AssignmentEnded now others i d absent = elim (Bool-cases (has_row i (others d))) [
  | inl taken ↦ lost absent taken (rw taken refl)
  | inr free ↦ elim (Bool-cases (is_known i.shop_id i.product_id (others d))) [
    | inl known ↦ written _ (healed_row-IsAssigned now i (others d) free) (rw (free, known) refl)
    | inr other ↦ unknown absent other (rw (free, other) refl)
  ]
]

update_row-AssignmentEnded :
    (now : Time) (others : Db → Db) (i : AssignmentInput) (d : Db) (r : BranchProduct)
    → row_at i d.branch_products ≡ some r
    → AssignmentEnded others i d (assign_existing now others i (some r) d)
unfolding assign_existing update_row
update_row-AssignmentEnded now others i d r there =
    elim (Bool-cases (same_bool r.is_assigned i.assigned)) [
      | inl equal ↦ same r there (same_bool-eq r.is_assigned i.assigned equal) (rw equal refl)
      | inr other ↦ elim (Bool-cases (has_row i (others d))) [
        | inl present ↦
            let (row, here) = row_at-some i (others d).branch_products present in
            written _ (reassigned-IsAssigned now i (others d) row here) (rw (other, present) refl)
        | inr missing ↦ gone r there missing (rw (other, missing) refl)
      ]
    ]

-- An assignment leaves the row with the status asked for, its price override as it was and every
-- other table as it was, or it fails and writes nothing: because another request created the row
-- that it missed or removed the row that it read, or for a shop or a product that is unknown.
pub set_branch_assignment-AssignmentEnded :
    (now : Time) (others : Db → Db) (i : AssignmentInput) (d : Db)
    → AssignmentEnded others i d (set_branch_assignment now others i d)
unfolding set_branch_assignment
set_branch_assignment-AssignmentEnded now others i d =
    elim (Option-cases (row_at i d.branch_products)) [
      | inl absent ↦ rw absent (create_row-AssignmentEnded now others i d absent)
      | inr (r, there) ↦ rw there (update_row-AssignmentEnded now others i d r there)
    ]

-- Right after an assignment that succeeded, the same assignment changes nothing and says so, whatever
-- others would commit after its first read: it has no write that they could run before.
pub set_branch_assignment_again :
    (now later : Time) (others others2 : Db → Db) (i : AssignmentInput) (d : Db)
    (c : AssignmentChange) (d' : Db)
    → set_branch_assignment now others i d ≡ (ok c, d')
    → set_branch_assignment later others2 i d'
      ≡ (ok (record { changed = false; is_assigned = i.assigned }), d')
unfolding set_branch_assignment assign_existing
set_branch_assignment_again now later others others2 i d c d' h =
    go (set_branch_assignment-AssignmentEnded now others i d)
  where
    again :
        (row : BranchProduct) (x : Db)
        → row_at i x.branch_products ≡ some row
        → row.is_assigned ≡ i.assigned
        → x ≡ d'
        → set_branch_assignment later others2 i d'
          ≡ (ok (record { changed = false; is_assigned = i.assigned }), d')
    again row x found status is =
        let there : row_at i d'.branch_products ≡ some row =
          ap (λ (y : Db). row_at i y.branch_products) (sym is) ∙ found in
        let equal : same_bool row.is_assigned i.assigned ≡ true =
          ap (λ b. same_bool b i.assigned) status ∙ same_bool_refl i.assigned in
        rw there (rw equal)

    go :
        AssignmentEnded others i d (set_branch_assignment now others i d)
        → set_branch_assignment later others2 i d'
          ≡ (ok (record { changed = false; is_assigned = i.assigned }), d')
    go (same row found status k) = again row d found status (ap (λ x. x.1) (sym k ∙ h))
    go (written x done k) = again done.row x done.found done.status (ap (λ y. y.1) (sym k ∙ h))
    go (lost _ _ k) = cc
    go (unknown _ _ k) = cc
    go (gone _ _ _ k) = cc
