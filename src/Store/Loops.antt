-- ===== src/Store/Loops.antt =====
-- Rules for the loops and the blocks of a handler.
use mathlib.Core.Path.{subst}
use backend_v.Prelude.{
  ◌≡◌, refl, sym, ap, ◌∙◌, List, [], ◌∷◌, Bool, true, false, arith, Option, none, some,
}
use backend_v.Errors.{Failure, Result, ok, err}
use backend_v.Store.Action.{
  Action, throw_if, or_throw, run_rest, pure, for_each, ◌>>=◌, >>=-eq-ok, query,
}
use backend_v.Store.Schema.{Db}

-- The first round of a loop that ended normally, and the rest.
pub for_each-eq-ok :
    {A : Type 0} (x : A) (xs : List A) (f : A → Action (Unit {0})) (d d'' : Db)
    → for_each (x ∷ xs) f d ≡ (ok tt, d'')
    → (d' : Db) × (f x d ≡ (ok tt, d')) × (for_each xs f d' ≡ (ok tt, d''))
unfolding for_each
for_each-eq-ok x xs f d d'' h =
    let (a, d', first, rest) = >>=-eq-ok (f x) (λ _. for_each xs f) d tt d'' h in (d', first, rest)

-- What a round keeps, the loop keeps, on any path.
pub for_each-keeps {ℓ} :
    {A : Type 0} (P : Db → Type ℓ) (f : A → Action (Unit {0}))
    → ((x : A) (d d' : Db) → P d → f x d ≡ (ok tt, d') → P d')
    → (xs : List A) (d d' : Db) → P d
    → for_each xs f d ≡ (ok tt, d')
    → P d'
unfolding for_each
for_each-keeps P f keep [] d d' p h = subst P (ap (λ r. r.1) h) p
for_each-keeps P f keep (x ∷ xs) d d'' p h =
    let (d', first, rest) = for_each-eq-ok x xs f d d'' h in
    for_each-keeps P f keep xs d' d'' (keep x d d' p first) rest

-- An action that writes nothing, however it ends.
pub record Reads {A : Type 0} (m : Action A) : Type 0 where
  pub same : (d : Db) → (m d).1 ≡ d

pub >>=-Reads :
    {A B : Type 0} {m : Action A} {f : A → Action B}
    → Reads m
    → ((a : A) → Reads (f a))
    → Reads (m >>= f)
>>=-Reads {A} {B} {m} {f} hm hf = record { same = λ d. go d (m d) refl }
  where
    go : (d : Db) (r : Result A × Db) → m d ≡ r → ◌≡◌ {A = Db} (run_rest f r).1 d
    go d (ok a, d') e = (hf a).same d' ∙ sym (ap (λ r. r.1) e) ∙ hm.same d
    go d (err x, d') e = sym (ap (λ r. r.1) e) ∙ hm.same d

pub pure-Reads : {A : Type 0} (a : A) → Reads (pure a)
pure-Reads a = record { same = λ d. refl }

pub query-Reads : {A : Type 0} (f : Db → A) → Reads (query f)
query-Reads f = record { same = λ d. refl }

pub throw_if-Reads : (c : Bool) (e : Failure) → Reads (throw_if c e)
throw_if-Reads true e = record { same = λ d. refl }
throw_if-Reads false e = record { same = λ d. refl }

pub or_throw-Reads : {A : Type 0} (o : Option A) (e : Failure) → Reads (or_throw o e)
or_throw-Reads none e = record { same = λ d. refl }
or_throw-Reads (some a) e = record { same = λ d. refl }

pub for_each-Reads :
    {A : Type 0} (f : A → Action (Unit {0}))
    → ((x : A) → Reads (f x))
    → (xs : List A) → Reads (for_each xs f)
unfolding for_each
for_each-Reads f reads [] = record { same = λ d. refl }
for_each-Reads f reads (x ∷ xs) =
    >>=-Reads {m = f x} {f = λ _. for_each xs f} (reads x) (λ _. for_each-Reads f reads xs)

pub ruleset reading =
    (>>=-Reads, pure-Reads, query-Reads, throw_if-Reads, or_throw-Reads, for_each-Reads)

-- A test that let the block go on.
pub throw_if-eq-ok :
    (c : Bool) (e : Failure) (d d' : Db) → throw_if c e d ≡ (ok tt, d') → (c ≡ false) × (d' ≡ d)
throw_if-eq-ok c e d d' h = ground arith

pub or_throw-eq-ok :
    {A : Type 0} (o : Option A) (e : Failure) (a : A) (d d' : Db)
    → or_throw o e d ≡ (ok a, d')
    → (o ≡ some a) × (d' ≡ d)
or_throw-eq-ok o e a d d' h = ground arith
