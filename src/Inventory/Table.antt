-- ===== src/Inventory/Table.antt =====
-- A stock table: rows with a unique key and a signed quantity, as the schema's BranchInventory
-- and CashierInventory (prisma/schema.prisma) are. Each function is one statement of
-- src/services/inventoryService.ts on such a table, for any type of keys.
pub mod Laws
use backend_v.Prelude.{
  ◌≡◌, refl, ◌⊎◌, inl, inr, Bool, true, false, Option, none, some, List, [], ◌∷◌, ◌++◌, arith,
  if◌then◌else◌, Bool-cases, KeyTest, ◌==◌, is_some, find, update, All, All-append,
}
use backend_v.Prelude.Int.{ℤ, pos, ◌+ℤ◌, ◌≤ℤ◌, leb_ℤ, negate, ◌-ℤ◌, int_laws}

pub record StockRow (K : Type 0) : Type 0 where
  pub key : K
  pub quantity : ℤ

abbrev pub StockTable : Type 0 → Type 0
StockTable K = List (StockRow K)

module _ {K : Type 0} where
  -- The sum of the quantities of the rows that a test selects: `groupBy … _sum: quantity`.
  unfoldable pub sum_where : (K → Bool) → StockTable K → ℤ
  sum_where p [] = pos 0
  sum_where p (r ∷ t) = if p r.key then r.quantity +ℤ sum_where p t else sum_where p t

  -- No row is below 0.
  abbrev pub IsNonneg : StockTable K → Type 0
  IsNonneg t = All (λ r. pos 0 ≤ℤ r.quantity) t

module _ {K : Type 0} ⦃e : KeyTest K⦄ where
  abbrev pub has_key : K → StockRow K → Bool
  has_key k r = k == r.key

  -- `findUnique({ where: key })`
  unfoldable pub find_unique : K → StockTable K → Option (StockRow K)
  find_unique k t = find (has_key k) t

  -- `existing?.quantity ?? 0`
  abbrev pub quantity_or_zero : Option (StockRow K) → ℤ
  quantity_or_zero none = pos 0
  quantity_or_zero (some r) = r.quantity

  -- The quantity on record for a key, 0 where there is no row.
  unfoldable pub quantity_of : K → StockTable K → ℤ
  unfolding find_unique
  quantity_of k t = quantity_or_zero (find_unique k t)

  -- `createMany({ data: [{ key, quantity: 0 }], skipDuplicates: true })` and the `upsert` with an
  -- empty update: a row is added only where the key has none.
  unfoldable pub create_missing : K → StockTable K → StockTable K
  create_missing k [] = record { key = k; quantity = pos 0 } ∷ []
  create_missing k (r ∷ t) = if k == r.key then r ∷ t else r ∷ create_missing k t

  -- `update({ where: key, data: { quantity: { increment: d } } })`
  unfoldable pub increment : K → ℤ → StockTable K → StockTable K
  increment k d t = update (has_key k) (λ r. record r { quantity = r.quantity +ℤ d }) t

  -- `updateMany({ where: { key, quantity: { gte: n } }, data: { quantity: { decrement: n } } })`.
  -- The key is unique, so at most one row matches; `none` is a count of 0, and then no row changes.
  unfoldable pub decrement_if_enough : K → ℤ → StockTable K → Option (StockTable K)
  decrement_if_enough k n [] = none
  decrement_if_enough k n (r ∷ t) =
      let rest : Option (StockTable K) = decrement_if_enough k n t in
      if k == r.key
      then (if leb_ℤ n r.quantity then some (record r { quantity = r.quantity -ℤ n } ∷ t) else none)
      else elim rest [ none ↦ none | some t' ↦ some (r ∷ t') ]

  abbrev pub exists_row : K → StockTable K → Bool
  exists_row k t = is_some (find (has_key k) t)
