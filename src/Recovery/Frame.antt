-- ===== src/Recovery/Frame.antt =====
-- Blocks of the flows of src/lib/cashierRecovery.ts that write to the audit log alone.
use backend_v.Prelude.{◌≡◌, ap, ◌∙◌, Option}
use backend_v.Errors.{Failure, Result, ok, err}
use backend_v.Audit.{insert_log-accounts}
use backend_v.Recovery.{record_account_audit}
use backend_v.Store.Action.{Action, run_rest, pure, query, or_throw, ◌>>=◌}
use backend_v.Store.Loops.{Reads, pure-Reads, query-Reads, or_throw-Reads}
use backend_v.Store.Schema.{RowId, Db, AuditAction}

-- However the action ends, the accounts are as they were.
pub record KeepsAccounts {A : Type 0} (m : Action A) : Type 0 where
  pub accounts : (d : Db) → (m d).1.accounts ≡ d.accounts

pub >>=-KeepsAccounts :
    {A B : Type 0} {m : Action A} {f : A → Action B}
    → KeepsAccounts m
    → ((a : A) → KeepsAccounts (f a))
    → KeepsAccounts (m >>= f)
>>=-KeepsAccounts {A} {B} {m} {f} hm hf = record { accounts = λ d. go d (m d) (hm.accounts d) }
  where
    go :
        (d : Db) (r : Result A × Db)
        → r.1.accounts ≡ d.accounts
        → (run_rest f r).1.accounts ≡ d.accounts
    go d (ok a, d') e = (hf a).accounts d' ∙ e
    go d (err x, d') e = e

pub Reads-KeepsAccounts : {A : Type 0} {m : Action A} → Reads m → KeepsAccounts m
Reads-KeepsAccounts h = record { accounts = λ d. ap (λ (x : Db). x.accounts) (h.same d) }

pub pure-KeepsAccounts : {A : Type 0} (a : A) → KeepsAccounts (pure a)
pure-KeepsAccounts a = Reads-KeepsAccounts (pure-Reads a)

pub query-KeepsAccounts : {A : Type 0} (f : Db → A) → KeepsAccounts (query f)
query-KeepsAccounts f = Reads-KeepsAccounts (query-Reads f)

pub or_throw-KeepsAccounts :
    {A : Type 0} (o : Option A) (e : Failure) → KeepsAccounts (or_throw o e)
or_throw-KeepsAccounts o e = Reads-KeepsAccounts (or_throw-Reads o e)

pub record_account_audit-KeepsAccounts :
    (action : AuditAction) (actor_id shop_id entity_id : Option RowId)
    → KeepsAccounts (record_account_audit action actor_id shop_id entity_id)
unfolding record_account_audit
record_account_audit-KeepsAccounts action actor_id shop_id entity_id = record {
  accounts = λ d. insert_log-accounts _ d;
}

pub ruleset audits = (
  >>=-KeepsAccounts, pure-KeepsAccounts, query-KeepsAccounts, or_throw-KeepsAccounts,
  record_account_audit-KeepsAccounts,
)
