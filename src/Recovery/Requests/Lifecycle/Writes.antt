-- ===== src/Recovery/Requests/Lifecycle/Writes.antt =====
-- The writes of src/lib/cashierRecovery.ts, and the blocks that they stand in.
use mathlib.Core.Path.{subst}
use backend_v.Prelude.{
  ◌≡◌, refl, sym, String, Bool, true, false, Option, List, arith, if◌then◌else◌,
}
use backend_v.Errors.{Failure, Result, ok, err}
use backend_v.Recovery.Requests.Decisions.{
  approvable, approve_row, rejectable, reject_row, is_pending,
}
use backend_v.Recovery.Requests.Lifecycle.{
  Advances, Steps, stay, next, approves, rejects, revokes, lapses, expires, completes, IsFiled,
  Evolves, Evolves-refl, Evolves-trans, Evolves-update_all, Evolves-append,
}
use backend_v.Recovery.Requests.Redeem.{Usable, redeems_usable, complete_row, is_approved}
use backend_v.Recovery.Requests.{
  RequestEnv, is_stale, lapsed, update_requests, create_request, is_live, insert_request,
}
use backend_v.Store.Accounts.{
  CashierRecoveryRequest, CashierRecoveryStatus, pending, approved, rejected, expired, completed,
}
use backend_v.Store.Action.{
  Action, run_rest, pure, query, throw, throw_if, or_throw, transaction, catching, ◌>>=◌,
}
use backend_v.Store.Loops.{Reads, query-Reads, throw_if-Reads, pure-Reads, or_throw-Reads}
use backend_v.Store.Schema.{RowId, Time, Db}

abbrev pub requests : Db → List CashierRecoveryRequest
requests d = d.accounts.recovery_requests

-- An action that lets the table evolve, however it ends.
pub record Keeps {A : Type 0} (m : Action A) : Type 0 where
  pub evolves : (d : Db) → Evolves (requests d) (requests (m d).1)

pub Reads-Keeps : {A : Type 0} {m : Action A} → Reads m → Keeps m
Reads-Keeps h = record {
  evolves = λ d. subst (λ x. Evolves (requests d) (requests x)) (sym (h.same d)) (Evolves-refl _);
}

pub >>=-Keeps :
    {A B : Type 0} {m : Action A} {f : A → Action B}
    → Keeps m
    → ((a : A) → Keeps (f a))
    → Keeps (m >>= f)
>>=-Keeps {A} {B} {m} {f} hm hf = record { evolves = λ d. go d (m d) (hm.evolves d) }
  where
    go :
        (d : Db) (r : Result A × Db)
        → Evolves (requests d) (requests r.1)
        → Evolves (requests d) (requests (run_rest f r).1)
    go d (ok a, d') e =
        Evolves-trans (requests d) (requests d') (requests (f a d').1) e ((hf a).evolves d')
    go d (err x, d') e = e

pub if-Keeps :
    {A : Type 0} (c : Bool) (m n : Action A) → Keeps m → Keeps n → Keeps (if c then m else n)
if-Keeps true m n h k = h
if-Keeps false m n h k = k

pub pure-Keeps : {A : Type 0} (a : A) → Keeps (pure a)
pure-Keeps a = Reads-Keeps (pure-Reads a)

pub query-Keeps : {A : Type 0} (f : Db → A) → Keeps (query f)
query-Keeps f = Reads-Keeps (query-Reads f)

pub throw-Keeps : {A : Type 0} (e : Failure) → Keeps (throw {A = A} e)
throw-Keeps e = record { evolves = λ d. Evolves-refl (requests d) }

pub throw_if-Keeps : (c : Bool) (e : Failure) → Keeps (throw_if c e)
throw_if-Keeps c e = Reads-Keeps (throw_if-Reads c e)

pub or_throw-Keeps : {A : Type 0} (o : Option A) (e : Failure) → Keeps (or_throw o e)
or_throw-Keeps o e = Reads-Keeps (or_throw-Reads o e)

pub transaction-Keeps : {A : Type 0} {m : Action A} → Keeps m → Keeps (transaction m)
unfolding transaction
transaction-Keeps {A} {m} h = record { evolves = λ d. go d (m d) (h.evolves d) }
  where
    go :
        (d : Db) (r : Result A × Db)
        → Evolves (requests d) (requests r.1)
        → Evolves (requests d) (requests (transaction (λ x. r) d).1)
    go d (ok a, d') e = e
    go d (err x, d') e = Evolves-refl (requests d)

pub catching-Keeps :
    {A : Type 0} {m : Action A} {handler : Failure → Action A}
    → Keeps m
    → ((e : Failure) → Keeps (handler e))
    → Keeps (catching m handler)
unfolding catching
catching-Keeps {A} {m} {handler} h k = record { evolves = λ d. go d (m d) (h.evolves d) }
  where
    go :
        (d : Db) (r : Result A × Db)
        → Evolves (requests d) (requests r.1)
        → Evolves (requests d) (requests (catching (λ x. r) handler d).1)
    go d (ok a, d') e = e
    go d (err x, d') e =
        Evolves-trans (requests d) (requests d') (requests (handler x d').1) e ((k x).evolves d')

pub update_requests-Keeps :
    (p : CashierRecoveryRequest → Bool) (f : CashierRecoveryRequest → CashierRecoveryRequest)
    → ((r : CashierRecoveryRequest) → p r ≡ true → Advances r (f r))
    → Keeps (update_requests p f)
update_requests-Keeps p f h = record { evolves = λ d. Evolves-update_all p f (requests d) h }

pub ruleset blocks =
    (>>=-Keeps, if-Keeps, pure-Keeps, query-Keeps, throw-Keeps, throw_if-Keeps, or_throw-Keeps)

insert_request-Keeps :
    (r : CashierRecoveryRequest) → IsFiled r → (taken : Bool) → Keeps (insert_request r taken)
unfolding insert_request
insert_request-Keeps r f true = throw-Keeps _
insert_request-Keeps r f false = record { evolves = λ d. Evolves-append (requests d) r f }

pub create_request-Keeps : (r : CashierRecoveryRequest) → IsFiled r → Keeps (create_request r)
unfolding create_request
create_request-Keeps r f = search (blocks, insert_request-Keeps r f)

live_expires : (s : CashierRecoveryStatus) → is_live s ≡ true → Steps s expired
live_expires pending h = next stay lapses
live_expires approved h = next stay expires
live_expires rejected h = cc
live_expires expired h = cc
live_expires completed h = cc

live_rejects : (s : CashierRecoveryStatus) → is_live s ≡ true → Steps s rejected
live_rejects pending h = next stay rejects
live_rejects approved h = next stay revokes
live_rejects rejected h = cc
live_rejects expired h = cc
live_rejects completed h = cc

pending_approves : (s : CashierRecoveryStatus) → is_pending s ≡ true → Steps s approved
pending_approves pending h = next stay approves
pending_approves approved h = cc
pending_approves rejected h = cc
pending_approves expired h = cc
pending_approves completed h = cc

approved_completes : (s : CashierRecoveryStatus) → is_approved s ≡ true → Steps s completed
approved_completes pending h = cc
approved_completes approved h = next stay completes
approved_completes rejected h = cc
approved_completes expired h = cc
approved_completes completed h = cc

pub lapsed-Advances :
    (now : Time) (user_id : Option RowId) (r : CashierRecoveryRequest)
    → is_stale now user_id r ≡ true
    → Advances r (lapsed r)
lapsed-Advances now user_id r h = record {
  id = refl;
  user_id = refl;
  created_at = refl;
  expires_at = refl;
  steps = live_expires r.status (ground arith);
  checked = λ _. refl;
}

pub approve_row-Advances :
    (x : Db) (id : RowId) (now : Time) (admin_id : RowId) (hash : String)
    (r : CashierRecoveryRequest)
    → approvable x id now r ≡ true
    → Advances r (approve_row now admin_id hash r)
approve_row-Advances x id now admin_id hash r h = record {
  id = refl;
  user_id = refl;
  created_at = refl;
  expires_at = refl;
  steps = pending_approves r.status (ground arith);
  checked = λ _. refl;
}

pub reject_row-Advances :
    (id : RowId) (now : Time) (admin_id : RowId) (r : CashierRecoveryRequest)
    → rejectable id now r ≡ true
    → Advances r (reject_row now admin_id r)
reject_row-Advances id now admin_id r h = record {
  id = refl;
  user_id = refl;
  created_at = refl;
  expires_at = refl;
  steps = live_rejects r.status (ground arith);
  checked = λ _. refl;
}

pub complete_row-Advances :
    (env : RequestEnv) (u : Usable) (r : CashierRecoveryRequest)
    → redeems_usable env u r ≡ true
    → Advances r (complete_row env.now r)
complete_row-Advances env u r h = record {
  id = refl;
  user_id = refl;
  created_at = refl;
  expires_at = refl;
  steps = approved_completes r.status (ground arith);
  checked = λ _. refl;
}
