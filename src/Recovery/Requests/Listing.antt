-- ===== src/Recovery/Requests/Listing.antt =====
-- src/lib/cashierRecovery.ts: what an administrator sees of the requests.
use mathlib.Core.Option
use backend_v.Prelude.{
  ℕ, String, Bool, not, true, Option, none, some, List, [], ◌∷◌, nat_beq, leb, find, filter,
  if◌then◌else◌,
}
use backend_v.Recovery.{find_user}
use backend_v.Store.Accounts.{CashierRecoveryRequest, CashierRecoveryStatus, User}
use backend_v.Store.Action.{Action, query, ◌>>◌}
use backend_v.Store.Schema.{RowId, Time, Db}
use backend_v.Recovery.Requests.{RequestEnv, is_live, expire_stale_requests}

-- What an administrator sees of a request: no hash of a code, no address, no browser.
pub record AdminRecoveryRequest : Type 0 where
  pub id : RowId
  pub status : CashierRecoveryStatus
  pub cashier_id : RowId
  pub name : String
  pub email : String
  pub phone : Option String
  pub branch_name : Option String
  pub shop_id : Option RowId
  pub created_at : Time
  pub expires_at : Time
  pub approved_at : Option Time
  pub rejected_at : Option Time
  pub completed_at : Option Time
  pub decided_by : Option (RowId × String)

abbrev decider : Db → Option RowId → Option (RowId × String)
decider d none = none
decider d (some id) = Option.map (λ u. (u.id, u.name)) (find_user id d)

unfoldable pub to_admin_recovery_request : Db → CashierRecoveryRequest → User → AdminRecoveryRequest
to_admin_recovery_request d r user = record {
  id = r.id;
  status = r.status;
  cashier_id = user.id;
  name = user.name;
  email = user.email;
  phone = user.phone;
  branch_name = user.branch_name;
  shop_id = user.shop_id;
  created_at = r.created_at;
  expires_at = r.expires_at;
  approved_at = r.approved_at;
  rejected_at = r.rejected_at;
  completed_at = r.completed_at;
  decided_by = decider d r.decided_by_id;
}

-- `findUnique({ where: { id } })`
unfoldable pub find_request : RowId → Db → Option CashierRecoveryRequest
find_request id d = find (λ r. nat_beq r.id id) d.accounts.recovery_requests

pub data RequestFilter : Type 0 where
  active history all : RequestFilter

abbrev passes : RequestFilter → CashierRecoveryRequest → Bool
passes active r = is_live r.status
passes history r = not (is_live r.status)
passes all r = true

-- `orderBy: { createdAt: "desc" }`
unfoldable pub insert_newest :
    CashierRecoveryRequest → List CashierRecoveryRequest → List CashierRecoveryRequest
insert_newest r [] = r ∷ []
insert_newest r (x ∷ xs) =
    if leb r.created_at x.created_at then x ∷ insert_newest r xs else r ∷ x ∷ xs

unfoldable pub newest_first : List CashierRecoveryRequest → List CashierRecoveryRequest
unfolding insert_newest
newest_first [] = []
newest_first (r ∷ rs) = insert_newest r (newest_first rs)

-- `take: n`
abbrev first_rows {ℓ} : {A : Type ℓ} → ℕ → List A → List A
first_rows ℕ.zero xs = []
first_rows (ℕ.suc n) [] = []
first_rows (ℕ.suc n) (x ∷ xs) = x ∷ first_rows n xs

-- A row with its user, which the foreign key makes sure of.
abbrev views : Db → List CashierRecoveryRequest → List AdminRecoveryRequest
views d [] = []
views d (r ∷ rs) = elim (find_user r.user_id d) [
  | none ↦ views d rs
  | some u ↦ to_admin_recovery_request d r u ∷ views d rs
]

unfoldable pub list_recovery_requests :
    RequestEnv → RequestFilter → Action (List AdminRecoveryRequest)
list_recovery_requests env chosen = do
  expire_stale_requests env.stale_now none
  query (λ d.
      views d (first_rows 200 (newest_first (filter (passes chosen) d.accounts.recovery_requests))))
