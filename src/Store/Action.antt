-- ===== src/Store/Action.antt =====
-- Handlers run statements on the database and may throw. What was written before a throw stays
-- written, unless a transaction encloses it: `prisma.$transaction` undoes its own writes.
use backend_v.Prelude.{
  ◌⊎◌, inl, inr, ◌≡◌, refl, sym, ap, ◌∙◌, Bool, Option, none, some, List, [], ◌∷◌, if◌then◌else◌,
  arith,
}
use backend_v.Errors.{Failure, Result, ok, err}
use backend_v.Store.Schema.{Db}

abbrev pub Action : Type 0 → Type 0
Action A = Db → Result A × Db

module _ {A : Type 0} where
  abbrev pub pure : A → Action A
  pure a d = (ok a, d)

  abbrev pub throw : Failure → Action A
  throw e d = (err e, d)

  -- A query.
  abbrev pub query : (Db → A) → Action A
  query f d = (ok (f d), d)

  -- `if (!row) throw e`
  abbrev pub or_throw : Option A → Failure → Action A
  or_throw none e = throw e
  or_throw (some a) e = pure a

-- What follows a statement is run only if that has not thrown.
abbrev pub run_rest : {A B : Type 0} → (A → Action B) → Result A × Db → Result B × Db
run_rest f (ok a, d) = f a d
run_rest f (err e, d) = (err e, d)

infixl 5 ◌>>=◌ ◌>>◌
abbrev pub ◌>>=◌ : {A B : Type 0} → Action A → (A → Action B) → Action B
◌>>=◌ m f d = run_rest f (m d)

abbrev pub ◌>>◌ : {A B : Type 0} → Action A → Action B → Action B
m >> k = m >>= λ _. k

-- `if (c) throw e`
abbrev pub throw_if : Bool → Failure → Action (Unit {0})
throw_if c e = if c then throw e else pure tt

abbrev pub modify : (Db → Db) → Action (Unit {0})
modify f d = (ok tt, f d)

-- `for (const x of xs) await f(x)`
unfoldable pub for_each : {A : Type 0} → List A → (A → Action (Unit {0})) → Action (Unit {0})
for_each [] f d = (ok tt, d)
for_each (x ∷ xs) f d = (f x >> for_each xs f) d

abbrev pub handled : {A : Type 0} → (Failure → Action A) → Result A × Db → Result A × Db
handled handler (ok a, d) = (ok a, d)
handled handler (err e, d) = handler e d

-- `try { body } catch (e) { handler(e) }`
unfoldable pub catching : {A : Type 0} → Action A → (Failure → Action A) → Action A
catching body handler d = handled handler (body d)

-- The end of a transaction that began at `d`: its writes stay, or are undone.
abbrev commit : {A : Type 0} → Db → Result A × Db → Result A × Db
commit d (ok a, d') = (ok a, d')
commit d (err e, d') = (err e, d)

-- `prisma.$transaction(body)`: all of the body's writes are committed, or none.
unfoldable pub transaction : {A : Type 0} → Action A → Action A
transaction body d = commit d (body d)

pub transaction-err :
    {A : Type 0} (body : Action A) (d : Db) (e : Failure)
    → (transaction body d).0 ≡ err e
    → transaction body d ≡ (err e, d)
unfolding transaction
transaction-err body d e h = ground arith

-- Inversion of a handler that ended normally.
pub >>=-eq-ok :
    {A B : Type 0} (m : Action A) (f : A → Action B) (d : Db) (b : B) (d'' : Db)
    → (m >>= f) d ≡ (ok b, d'')
    → (a : A) × (d' : Db) × (m d ≡ (ok a, d')) × (f a d' ≡ (ok b, d''))
>>=-eq-ok {A} {B} m f d b d'' h = go (m d) refl h
  where
    go :
        (r : Result A × Db)
        → m d ≡ r
        → run_rest f r ≡ (ok b, d'')
        → (a : A) × (d' : Db) × (m d ≡ (ok a, d')) × (f a d' ≡ (ok b, d''))
    go (ok a, d') e k = (a, d', e, k)
    go (err x, d') e k = cc

-- A handler ends in one way.
pub no_result :
    {A C : Type 0} {x : Result A × Db} (r : A) (e : Failure) (d d2 : Db)
    → x ≡ (ok r, d)
    → x ≡ (err e, d2)
    → C
no_result r e d d2 h k = cc

pub same_end :
    {A : Type 0} {x : Result A × Db} (r r2 : A) (d d2 : Db)
    → x ≡ (ok r, d)
    → x ≡ (ok r2, d2)
    → (r2 ≡ r) × (d ≡ d2)
same_end r r2 d d2 h k = (cc (h, k), ap (λ y. y.1) (sym h ∙ k))

pub transaction-eq-ok :
    {A : Type 0} (m : Action A) (d : Db) (a : A) (d' : Db)
    → transaction m d ≡ (ok a, d')
    → m d ≡ (ok a, d')
unfolding transaction
transaction-eq-ok m d a d' h = go (m d) refl h
  where
    go : (r : Result _ × Db) → m d ≡ r → transaction (λ x. r) d ≡ (ok a, d') → m d ≡ (ok a, d')
    go (ok b, x) e k = e ∙ k
    go (err b, x) e k = cc

failure_or : {A : Type 0} → Failure → Result A → Failure
failure_or e (ok a) = e
failure_or e (err x) = x

same_failure :
    {A B : Type 0} (x e : Failure) (d d' : Db)
    → ◌≡◌ {A = Result B × Db} (err x, d) (err e, d')
    → ◌≡◌ {A = Result A × Db} (err x, d) (err e, d')
unfolding failure_or
same_failure x e d d' h = λ i. (err (failure_or e (h i).0), (h i).1)

-- Inversion of a handler that failed.
pub >>=-eq-err :
    {A B : Type 0} (m : Action A) (f : A → Action B) (d : Db) (e : Failure) (d'' : Db)
    → (m >>= f) d ≡ (err e, d'')
    → (m d ≡ (err e, d'')) ⊎ ((a : A) × (d' : Db) × (m d ≡ (ok a, d')) × (f a d' ≡ (err e, d'')))
>>=-eq-err {A} {B} m f d e d'' h = go (m d) refl h
  where
    go :
        (r : Result A × Db)
        → m d ≡ r
        → run_rest f r ≡ (err e, d'')
        → (m d ≡ (err e, d''))
          ⊎ ((a : A) × (d' : Db) × (m d ≡ (ok a, d')) × (f a d' ≡ (err e, d'')))
    go (ok a, d') k l = inr (a, d', k, l)
    go (err x, d') k l = inl (k ∙ same_failure x e d' d'' l)
