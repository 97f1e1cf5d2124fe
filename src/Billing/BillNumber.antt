-- ===== src/Billing/BillNumber.antt =====
-- src/lib/billNumber.ts: the next bill number of a shop in a year.
use backend_v.Prelude.{
  ℕ, ◌+◌, Bool, ◌&&◌, Option, none, some, List, [], ◌∷◌, nat_beq, find, if◌then◌else◌,
}
use backend_v.Errors.{db, record_not_found}
use backend_v.Store.Action.{Action, pure, query, or_throw, modify, ◌>>=◌, ◌>>◌}
use backend_v.Store.Schema.{RowId, BillCounter, BillNumber}

abbrev pub counter_is : RowId → ℕ → BillCounter → Bool
counter_is shop_id year c = nat_beq c.shop_id shop_id && nat_beq c.year year

-- `INSERT … VALUES (…, 1) ON CONFLICT ("shopId", year) DO UPDATE SET seq = seq + 1`
unfoldable pub count_up : RowId → ℕ → List BillCounter → List BillCounter
count_up shop_id year [] = record { shop_id = shop_id; year = year; seq = 1 } ∷ []
count_up shop_id year (c ∷ cs) =
    if counter_is shop_id year c
    then record c { seq = c.seq + 1 } ∷ cs
    else c ∷ count_up shop_id year cs

abbrev seq_or_one : Option BillCounter → ℕ
seq_or_one none = 1
seq_or_one (some c) = c.seq

-- `RETURNING seq`
unfoldable pub seq_of : RowId → ℕ → List BillCounter → ℕ
seq_of shop_id year cs = seq_or_one (find (counter_is shop_id year) cs)

unfoldable pub next_bill_number : RowId → ℕ → Action BillNumber
next_bill_number shop_id year = do
  found ← query (λ d. find (λ s. nat_beq s.id shop_id) d.shops)
  shop ← or_throw found (db record_not_found)
  modify (λ d. record d { bill_counters = count_up shop_id year d.bill_counters })
  seq ← query (λ d. seq_of shop_id year d.bill_counters)
  pure (record { shop_code = shop.code; year = year; seq = seq })
