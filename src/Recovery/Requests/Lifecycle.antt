-- ===== src/Recovery/Requests/Lifecycle.antt =====
-- The life of a recovery request, and what a write of src/lib/cashierRecovery.ts may do to the
-- table of requests.
pub mod Writes
pub mod Filing
pub mod Deciding
pub mod Redeeming
pub mod Runs
use mathlib.Core.Path.{subst}
use backend_v.Prelude.{
  ℕ, ◌+◌, ◌≡◌, refl, ◌∙◌, Bool, true, List, [], ◌∷◌, ◌++◌, All, All-append, is_some, update_all,
  if◌then◌else◌, Bool-cases, inl, inr, arith,
}
use backend_v.Recovery.Requests.Redeem.{is_approved}
use backend_v.Store.Accounts.{
  CashierRecoveryRequest, CashierRecoveryStatus, pending, approved, rejected, expired, completed,
}

-- What may happen to a request.
pub data Step : CashierRecoveryStatus → CashierRecoveryStatus → Type 0 where
  approves : Step pending approved
  rejects : Step pending rejected
  revokes : Step approved rejected
  lapses : Step pending expired
  expires : Step approved expired
  completes : Step approved completed

-- Any number of steps.
pub data Steps (s : CashierRecoveryStatus) : CashierRecoveryStatus → Type 0 where
  stay : Steps s s
  next : {t u : CashierRecoveryStatus} → Steps s t → Step t u → Steps s u

pub Steps-trans : {s t u : CashierRecoveryStatus} → Steps s t → Steps t u → Steps s u
Steps-trans a stay = a
Steps-trans a (next b x) = next (Steps-trans a b) x

-- `cashier_recovery_requests_codeHash_only_when_approved`: a row has the hash of a code just while
-- it is approved.
abbrev pub IsChecked : CashierRecoveryRequest → Type 0
IsChecked r = is_approved r.status ≡ is_some r.code_hash

-- `r'` is the row `r` later: its status has moved by the steps alone, and the owner, the creation
-- and the deadline are as they were.
pub record Advances (r r' : CashierRecoveryRequest) : Type 0 where
  pub id : r'.id ≡ r.id
  pub user_id : r'.user_id ≡ r.user_id
  pub created_at : r'.created_at ≡ r.created_at
  pub expires_at : r'.expires_at ≡ r.expires_at
  pub steps : Steps r.status r'.status
  pub checked : IsChecked r → IsChecked r'

pub Advances-refl : (r : CashierRecoveryRequest) → Advances r r
Advances-refl r = record {
  id = refl;
  user_id = refl;
  created_at = refl;
  expires_at = refl;
  steps = stay;
  checked = λ h. h;
}

pub Advances-trans : {a b c : CashierRecoveryRequest} → Advances a b → Advances b c → Advances a c
Advances-trans s t = record {
  id = t.id ∙ s.id;
  user_id = t.user_id ∙ s.user_id;
  created_at = t.created_at ∙ s.created_at;
  expires_at = t.expires_at ∙ s.expires_at;
  steps = Steps-trans s.steps t.steps;
  checked = λ h. t.checked (s.checked h);
}

-- A row that was filed and then advanced: its deadline is 15 minutes after its creation.
pub record IsFiled (r : CashierRecoveryRequest) : Type 0 where
  pub steps : Steps pending r.status
  pub deadline : r.expires_at ≡ r.created_at + 900_000
  pub checked : IsChecked r

pub IsFiled-advance : (a b : CashierRecoveryRequest) → IsFiled a → Advances a b → IsFiled b
IsFiled-advance a b f s = record {
  steps = Steps-trans f.steps s.steps;
  deadline = omega (arith, f.deadline, s.expires_at, s.created_at);
  checked = s.checked f.checked;
}

-- The table later: every row has advanced, none is gone, and what is new was filed.
unfoldable pub Evolves : List CashierRecoveryRequest → List CashierRecoveryRequest → Type 0
Evolves [] rows = All IsFiled rows
Evolves (r ∷ rs) [] = ⊥
Evolves (r ∷ rs) (x ∷ xs) = Advances r x × Evolves rs xs

pub Evolves-refl : (rows : List CashierRecoveryRequest) → Evolves rows rows
unfolding Evolves
Evolves-refl [] = tt
Evolves-refl (r ∷ rs) = (Advances-refl r, Evolves-refl rs)

IsFiled-later :
    (xs ys : List CashierRecoveryRequest) → All IsFiled xs → Evolves xs ys → All IsFiled ys
unfolding Evolves
IsFiled-later [] ys f e = e
IsFiled-later (x ∷ xs) [] f e = absurd e
IsFiled-later (x ∷ xs) (y ∷ ys) f e = (IsFiled-advance x y f.0 e.0, IsFiled-later xs ys f.1 e.1)

pub Evolves-trans :
    (xs ys zs : List CashierRecoveryRequest) → Evolves xs ys → Evolves ys zs → Evolves xs zs
unfolding Evolves
Evolves-trans [] ys zs e f = IsFiled-later ys zs e f
Evolves-trans (x ∷ xs) [] zs e f = absurd e
Evolves-trans (x ∷ xs) (y ∷ ys) [] e f = absurd f
Evolves-trans (x ∷ xs) (y ∷ ys) (z ∷ zs) e f =
    (Advances-trans e.0 f.0, Evolves-trans xs ys zs e.1 f.1)

-- A write to the rows that a test holds of.
pub Evolves-update_all :
    (p : CashierRecoveryRequest → Bool) (f : CashierRecoveryRequest → CashierRecoveryRequest)
    (rows : List CashierRecoveryRequest)
    → ((r : CashierRecoveryRequest) → p r ≡ true → Advances r (f r))
    → Evolves rows (update_all p f rows)
unfolding Evolves
Evolves-update_all p f [] h = tt
Evolves-update_all p f (r ∷ rs) h = (
  elim (Bool-cases (p r)) [ inl hit ↦ rw hit (h r hit) | inr miss ↦ rw miss (Advances-refl r) ],
  Evolves-update_all p f rs h,
)

pub Evolves-append :
    (rows : List CashierRecoveryRequest) (x : CashierRecoveryRequest)
    → IsFiled x
    → Evolves rows (rows ++ x ∷ [])
unfolding Evolves
Evolves-append [] x f = (f, tt)
Evolves-append (r ∷ rs) x f = (Advances-refl r, Evolves-append rs x f)

-- Rows that satisfy the checks of the table satisfy them later.
pub Evolves-IsChecked :
    (xs ys : List CashierRecoveryRequest) → Evolves xs ys → All IsChecked xs → All IsChecked ys
unfolding Evolves
Evolves-IsChecked [] [] e h = tt
Evolves-IsChecked [] (y ∷ ys) e h = (e.0.checked, Evolves-IsChecked [] ys e.1 tt)
Evolves-IsChecked (x ∷ xs) [] e h = absurd e
Evolves-IsChecked (x ∷ xs) (y ∷ ys) e h = (e.0.checked h.0, Evolves-IsChecked xs ys e.1 h.1)
