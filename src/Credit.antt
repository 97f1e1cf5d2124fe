-- ===== src/Credit.antt =====
-- src/services/creditService.ts: credit sales and collections.
pub mod Ledger
pub mod Collection
use backend_v.Prelude.{
  Bool, not, ◌||◌, true, false, Option, none, some, List, [], ◌∷◌, ◌++◌, nat_beq, find, update,
  if◌then◌else◌, String,
}
use backend_v.Prelude.Int.{ℤ, pos, ltb_ℤ, leb_ℤ}
use backend_v.Errors
use backend_v.Errors.{app}
use backend_v.Errors.Code.{customer_not_found, amount_exceeds_balance}
use backend_v.Money.{Money, add, sub, round2}
use backend_v.Store.Action.{Action, pure, query, or_throw, throw_if, modify, ◌>>=◌, ◌>>◌}
use backend_v.Store.Schema.{
  RowId, Db, Customer, CreditTransaction, charge, collection, PaymentMethod, Note,
}

pub record ChargeInput : Type 0 where
  pub shop_id : RowId
  pub customer_id : RowId
  pub bill_id : RowId
  pub amount : Money
  pub actor_id : Option RowId

pub record CollectInput : Type 0 where
  pub shop_id : RowId
  pub customer_id : RowId
  pub amount : Money
  pub method : Option PaymentMethod
  pub reference : Option String
  pub notes : Option Note
  pub actor_id : Option RowId

abbrev pub customer_is : RowId → Customer → Bool
customer_is id c = nat_beq c.id id

-- `if (!customer || customer.shopId !== input.shopId) throw`
abbrev pub of_shop : RowId → Option Customer → Option Customer
of_shop shop_id none = none
of_shop shop_id (some c) = if nat_beq c.shop_id shop_id then some c else none

unfoldable pub shop_customer : RowId → RowId → Action Customer
shop_customer shop_id customer_id = do
  found ← query (λ d. find (customer_is customer_id) d.customers)
  or_throw (of_shop shop_id found) (app (Errors.not_found customer_not_found))

-- `customer.update({ where: { id }, data: { creditBalance } })`
unfoldable pub set_balance : RowId → Money → List Customer → List Customer
set_balance id balance = update (customer_is id) (λ c. record c { credit_balance = balance })

abbrev pub charge_row : ChargeInput → CreditTransaction
charge_row i = record {
  shop_id = i.shop_id;
  customer_id = i.customer_id;
  bill_id = some i.bill_id;
  type = charge;
  amount = round2 i.amount;
  method = none;
  reference = none;
  notes = none;
  actor_id = i.actor_id;
}

unfoldable pub charge_credit : ChargeInput → Action (Unit {0})
unfolding shop_customer
charge_credit i = do
  customer ← shop_customer i.shop_id i.customer_id
  modify (λ d. record d { credit_transactions = d.credit_transactions ++ charge_row i ∷ [] })
  let balance : Money = round2 (add customer.credit_balance i.amount)
  modify (λ d. record d { customers = set_balance i.customer_id balance d.customers })

abbrev pub collection_row : CollectInput → CreditTransaction
collection_row i = record {
  shop_id = i.shop_id;
  customer_id = i.customer_id;
  bill_id = none;
  type = collection;
  amount = round2 i.amount;
  method = i.method;
  reference = i.reference;
  notes = i.notes;
  actor_id = i.actor_id;
}

unfoldable pub collect_payment : CollectInput → Action (CreditTransaction × Customer)
unfolding shop_customer
collect_payment i = do
  customer ← shop_customer i.shop_id i.customer_id
  throw_if (leb_ℤ i.amount (pos 0)) (app Errors.validation)
  throw_if (ltb_ℤ (round2 customer.credit_balance) (round2 i.amount))
      (app (Errors.bad_request amount_exceeds_balance))
  modify (λ d. record d { credit_transactions = d.credit_transactions ++ collection_row i ∷ [] })
  let balance : Money = round2 (sub customer.credit_balance i.amount)
  modify (λ d. record d { customers = set_balance i.customer_id balance d.customers })
  pure (collection_row i, record customer { credit_balance = balance })
