-- ===== src/Inventory/Table/Laws.antt =====
-- What the statements on a stock table do to the quantity of each key and to the sums.
use backend_v.Prelude.{
  ◌≡◌, refl, Bool, true, none, some, [], ◌∷◌, arith, if◌then◌else◌, KeyTest, ◌==◌, Bool-cases, inl,
  inr,
}
use backend_v.Prelude.Int.{ℤ, pos, ◌+ℤ◌, ◌≤ℤ◌, leb_ℤ, negate, int_laws}
use backend_v.Inventory.Table.{
  StockRow, StockTable, find_unique, quantity_of, quantity_or_zero, create_missing, increment,
  decrement_if_enough, sum_where, IsNonneg, exists_row,
}

module _ {K : Type 0} ⦃e : KeyTest K⦄ where
  pub quantity_of_lem :
      (k : K) (t : StockTable K) → quantity_of k t ≡ quantity_or_zero (find_unique k t)
  unfolding quantity_of
  quantity_of_lem k t = refl

  pub quantity_of-create_missing :
      (k j : K) (t : StockTable K) → quantity_of j (create_missing k t) ≡ quantity_of j t
  unfolding quantity_of create_missing
  quantity_of-create_missing k j [] = ground arith
  quantity_of-create_missing k j (r ∷ t) = ground (arith, quantity_of-create_missing k j t)

  pub exists_row-create_missing :
      (k : K) (t : StockTable K) → exists_row k (create_missing k t) ≡ true
  unfolding create_missing
  exists_row-create_missing k [] = ground (arith, e.same_key_iff k k)
  exists_row-create_missing k (r ∷ t) = ground (arith, exists_row-create_missing k t)

  pub quantity_of-increment :
      (k j : K) (d : ℤ) (t : StockTable K)
      → exists_row k t ≡ true
      → quantity_of j (increment k d t) ≡ (if j == k then quantity_of j t +ℤ d else quantity_of j t)
  unfolding quantity_of increment
  quantity_of-increment k j d [] h = ground arith
  quantity_of-increment k j d (r ∷ t) h = ground (
    arith,
    e.same_key_iff j k,
    e.same_key_iff k r.key,
    e.same_key_iff j r.key,
    quantity_of-increment k j d t,
  )

  pub sum_where-create_missing :
      (p : K → Bool) (k : K) (t : StockTable K) → sum_where p (create_missing k t) ≡ sum_where p t
  unfolding sum_where create_missing
  sum_where-create_missing p k [] = grind int_laws
  sum_where-create_missing p k (r ∷ t) = ground (arith, sum_where-create_missing p k t)

  pub sum_where-increment :
      (p : K → Bool) (k : K) (d : ℤ) (t : StockTable K)
      → exists_row k t ≡ true
      → sum_where p (increment k d t) ≡ (if p k then sum_where p t +ℤ d else sum_where p t)
  unfolding sum_where increment
  sum_where-increment p k d [] h = ground arith
  sum_where-increment p k d (r ∷ t) h =
      grind (int_laws, e.same_key_iff k r.key, sum_where-increment p k d t)

  -- A conditional decrement succeeds exactly on a row that holds enough, and is then the increment
  -- by the negated amount.
  pub decrement_if_enough_lem :
      (k : K) (n : ℤ) (t : StockTable K)
      → decrement_if_enough k n t ≡ (
          if exists_row k t
          then (if leb_ℤ n (quantity_of k t) then some (increment k (negate n) t) else none)
          else none)
  unfolding quantity_of increment decrement_if_enough
  decrement_if_enough_lem k n [] = refl
  decrement_if_enough_lem k n (r ∷ t) = grind (int_laws, decrement_if_enough_lem k n t)

  pub create_missing-IsNonneg :
      (k : K) (t : StockTable K) → IsNonneg t → IsNonneg (create_missing k t)
  unfolding create_missing
  create_missing-IsNonneg k [] h = ground arith
  create_missing-IsNonneg k (r ∷ t) h = ground (arith, create_missing-IsNonneg k t h.1)

  pub increment-IsNonneg :
      (k : K) (d : ℤ) (t : StockTable K)
      → IsNonneg t
      → pos 0 ≤ℤ quantity_of k t +ℤ d
      → IsNonneg (increment k d t)
  unfolding quantity_of increment
  increment-IsNonneg k d [] h g = tt
  increment-IsNonneg k d (r ∷ t) h g = ground (arith, increment-IsNonneg k d t h.1)

  pub quantity_of-nonneg : (k : K) (t : StockTable K) → IsNonneg t → pos 0 ≤ℤ quantity_of k t
  unfolding quantity_of
  quantity_of-nonneg k [] h = ground arith
  quantity_of-nonneg k (r ∷ t) h = ground (arith, quantity_of-nonneg k t h.1)

  -- After an increment the row of the key is there, with the sum.
  pub find_unique-increment :
      (k : K) (d : ℤ) (t : StockTable K)
      → exists_row k t ≡ true
      → (r : StockRow K) × (find_unique k (increment k d t) ≡ some r)
        × (r.quantity ≡ quantity_of k t +ℤ d)
  unfolding find_unique quantity_of increment
  find_unique-increment k d [] h = cc
  find_unique-increment k d (r ∷ t) h = elim (Bool-cases (k == r.key)) [
    | inl same ↦ (record r { quantity = r.quantity +ℤ d }, ground arith, ground arith)
    | inr other ↦
        let (s, found, sum) = find_unique-increment k d t (ground arith) in
        (s, ground arith, ground arith)
  ]
