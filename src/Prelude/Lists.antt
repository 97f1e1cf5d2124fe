-- ===== src/Prelude/Lists.antt =====
-- Lists over the native numbers, and what the queries of a table do with its rows.
use Prim.Native.Nat.{ℕ, suc, ◌+◌}
use mathlib.Core.Path.{◌≡◌, refl, subst, sym, ap, ◌∙◌}
use mathlib.Core.List.{Memᴰ, List, [], ◌∷◌, ◌++◌}
use mathlib.Core.Logic.{inl, inr}
use mathlib.Core.Bool.{Bool, true, false, ◌||◌}
use mathlib.Core.Option.{Option, none, some}
use native.Mathlib.Omega.{arith}
use backend_v.Prelude.Tests.{if◌then◌else◌, Bool-cases}

module _ {ℓ} {A : Type ℓ} where
  abbrev pub length : List A → ℕ
  length [] = 0
  length (x ∷ xs) = suc (length xs)

  -- The first row that a test holds of: `findUnique`, `findFirst`, `Array.find`.
  abbrev pub find : (A → Bool) → List A → Option A
  find p [] = none
  find p (x ∷ xs) = if p x then some x else find p xs

  -- Every row that a test holds of: `findMany`, `Array.filter`.
  abbrev pub filter : (A → Bool) → List A → List A
  filter p [] = []
  filter p (x ∷ xs) = if p x then x ∷ filter p xs else filter p xs

  abbrev pub any : (A → Bool) → List A → Bool
  any p [] = false
  any p (x ∷ xs) = p x || any p xs

  -- A write to the row of a unique key.
  abbrev pub update : (A → Bool) → (A → A) → List A → List A
  update p f [] = []
  update p f (x ∷ xs) = if p x then f x ∷ xs else x ∷ update p f xs

  -- A write to every row that a test holds of: `updateMany`.
  abbrev pub update_all : (A → Bool) → (A → A) → List A → List A
  update_all p f [] = []
  update_all p f (x ∷ xs) = (if p x then f x else x) ∷ update_all p f xs

  abbrev pub All {κ} : (A → Type κ) → List A → Type κ
  All P [] = Unit
  All P (x ∷ xs) = P x × All P xs

  pub length-append : (xs ys : List A) → length (xs ++ ys) ≡ length xs + length ys
  length-append [] ys = omega arith
  length-append (x ∷ xs) ys = omega (arith, length-append xs ys)

  pub All-append {κ} : (P : A → Type κ) (xs ys : List A) → All P xs → All P ys → All P (xs ++ ys)
  All-append P [] ys h k = k
  All-append P (x ∷ xs) ys h k = (h.0, All-append P xs ys h.1 k)

  pub All-find {κ} :
      (P : A → Type κ) (p : A → Bool) (x : A) (xs : List A) → All P xs → find p xs ≡ some x → P x
  All-find P p x [] h e = cc
  All-find P p x (y ∷ xs) h e = elim (Bool-cases (p y)) [
    | inl hit ↦ let same : y ≡ x = ground arith in subst P same h.0
    | inr miss ↦ All-find P p x xs h.1 (rw miss at e)
  ]

  pub find-append_last :
      (p : A → Bool) (xs : List A) (x : A) → p x ≡ true → (y : A) × (find p (xs ++ x ∷ []) ≡ some y)
  find-append_last p [] x h = (x, rw h)
  find-append_last p (y ∷ xs) x h = elim (Bool-cases (p y)) [
    | inl hit ↦ (y, rw hit)
    | inr miss ↦ rw miss (find-append_last p xs x h)
  ]

  -- Where no earlier row fits, the first that fits is the one put last.
  pub find-append_new :
      (p : A → Bool) (xs : List A) (x : A)
      → any p xs ≡ false
      → p x ≡ true
      → find p (xs ++ x ∷ []) ≡ some x
  find-append_new p [] x h k = rw k
  find-append_new p (y ∷ xs) x h k = ground (arith, find-append_new p xs x)

  pub any_weaken :
      (p q : A → Bool) (xs : List A)
      → any p xs ≡ false
      → ((x : A) → q x ≡ true → p x ≡ true)
      → any q xs ≡ false
  any_weaken p q [] h imp = refl
  any_weaken p q (x ∷ xs) h imp = ground (arith, any_weaken p q xs, imp x)

  -- What is found is in the list and passes the test.
  pub find-holds :
      (p : A → Bool) (xs : List A) (x : A) → find p xs ≡ some x → Memᴰ x xs × (p x ≡ true)
  find-holds p [] x h = cc
  find-holds p (y ∷ xs) x h = elim (Bool-cases (p y)) [
    | inl hit ↦ let same : y ≡ x = cc (rw hit at h) in (Memᴰ.head (sym same), ap p (sym same) ∙ hit)
    | inr miss ↦ let (there, holds) = find-holds p xs x (rw miss at h) in (Memᴰ.tail there, holds)
  ]

  -- Where one element passes, one is found.
  pub find-one :
      (p : A → Bool) (xs : List A) → length (filter p xs) ≡ 1 → (x : A) × (find p xs ≡ some x)
  find-one p [] h = absurd (omega arith)
  find-one p (y ∷ xs) h = elim (Bool-cases (p y)) [
    | inl hit ↦ (y, rw hit refl)
    | inr miss ↦ rw miss (find-one p xs (rw miss at h))
  ]
