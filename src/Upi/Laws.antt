-- ===== src/Upi/Laws.antt =====
-- The receiver that src/lib/upi.ts resolves.
use backend_v.Prelude.{ℕ, ◌+◌, ◌≡◌, refl, true, Option, none, some, [], ◌∷◌, map, arith}
use backend_v.Upi.{
  Text, is_provider, matches_upi_id, to_lower, normalize_upi_id, validate_upi_id, trim,
  resolve_effective_receiver, custom_account, common_account, or_custom, usable,
  UpiCommonAccountData, UpiShopAccountData,
}

is_provider-to_lower :
    (n : ℕ) (t : Text) → is_provider n t ≡ true → is_provider n (map to_lower t) ≡ true
unfolding is_provider
is_provider-to_lower n [] h = h
is_provider-to_lower n (c ∷ t) h = ground (arith, is_provider-to_lower (n + 1) t)

matches_upi_id-to_lower :
    (n : ℕ) (t : Text) → matches_upi_id n t ≡ true → matches_upi_id n (map to_lower t) ≡ true
unfolding matches_upi_id
matches_upi_id-to_lower n [] h = h
matches_upi_id-to_lower n (c ∷ t) h =
    ground (arith, matches_upi_id-to_lower (n + 1) t, is_provider-to_lower 0 t)

-- An absent id, or one of the accepted form.
abbrev pub IsPayable : Option Text → Type 0
IsPayable none = Unit
IsPayable (some id) = matches_upi_id 0 id ≡ true

usable-IsPayable :
    (u n : Option Text) (a : Text × Text) → usable u n ≡ some a → matches_upi_id 0 a.0 ≡ true
unfolding usable validate_upi_id normalize_upi_id
usable-IsPayable none n a h = cc
usable-IsPayable (some u) none a h = cc
usable-IsPayable (some u) (some n) a h = ground (arith, matches_upi_id-to_lower 0 (trim u))

custom_account-IsPayable :
    (shop : Option UpiShopAccountData) (a : Text × Text)
    → custom_account shop ≡ some a
    → matches_upi_id 0 a.0 ≡ true
unfolding custom_account
custom_account-IsPayable none a h = cc
custom_account-IsPayable (some s) a h =
    ground (arith, usable-IsPayable s.custom_upi_id s.custom_payee_name a)

common_account-IsPayable :
    (common : Option UpiCommonAccountData) (a : Text × Text)
    → common_account common ≡ some a
    → matches_upi_id 0 a.0 ≡ true
unfolding common_account
common_account-IsPayable none a h = cc
common_account-IsPayable (some c) a h =
    ground (arith, usable-IsPayable (some c.upi_id) (some c.payee_name) a)

-- Whatever is saved, the receiver's id has the accepted form as it stands, or there is no receiver.
pub resolve_effective_receiver-IsPayable :
    (common : Option UpiCommonAccountData) (shop : Option UpiShopAccountData)
    → IsPayable (resolve_effective_receiver common shop).upi_id
unfolding resolve_effective_receiver
resolve_effective_receiver-IsPayable common shop =
    go (custom_account shop) (common_account common) refl refl
  where
    go :
        (x y : Option (Text × Text))
        → custom_account shop ≡ x
        → common_account common ≡ y
        → IsPayable (or_custom (custom_account shop) (common_account common)).upi_id
    go (some a) y e f = rw e (custom_account-IsPayable shop a e)
    go none (some a) e f = rw (e, f) (common_account-IsPayable common a f)
    go none none e f = rw (e, f) tt
