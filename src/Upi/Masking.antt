-- ===== src/Upi/Masking.antt =====
-- src/lib/upi.ts: a UPI id as a log row shows it.
use backend_v.Prelude.{
  ℕ, zero, suc, ◌≡◌, refl, Bool, true, false, Option, none, some, [], ◌∷◌, ◌++◌, nat_beq, length,
  ltb, min, any, if◌then◌else◌, arith,
}
use backend_v.Upi.{Text}

-- `slice(0, n)`
unfoldable take : ℕ → Text → Text
take zero t = []
take (suc n) [] = []
take (suc n) (c ∷ t) = c ∷ take n t

-- `slice(n)`
unfoldable drop : ℕ → Text → Text
drop zero t = t
drop (suc n) [] = []
drop (suc n) (c ∷ t) = drop n t

abbrev after_head : Bool → Option ℕ → Option ℕ
after_head here (some n) = some (suc n)
after_head true none = some 0
after_head false none = none

-- `lastIndexOf`, whose -1 is `none`.
unfoldable last_index_of : ℕ → Text → Option ℕ
last_index_of u [] = none
last_index_of u (c ∷ t) = after_head (nat_beq c u) (last_index_of u t)

-- `***`
abbrev stars : Text
stars = 42 ∷ 42 ∷ 42 ∷ []

abbrev masked : Text → Option ℕ → Text
masked upi_id none = stars
masked upi_id (some at) =
    if ltb at 1 then stars else take (min 2 at) upi_id ++ stars ++ drop at upi_id

unfoldable mask_upi_id : Text → Text
mask_upi_id upi_id = masked upi_id (last_index_of 64 upi_id)

last_index_of-none :
    (u : ℕ) (t : Text) → any (λ c. nat_beq c u) t ≡ false → last_index_of u t ≡ none
unfolding last_index_of
last_index_of-none u [] h = refl
last_index_of-none u (c ∷ t) h = ground (arith, last_index_of-none u t)

last_index_of-append :
    (u : ℕ) (name t : Text)
    → any (λ c. nat_beq c u) t ≡ false
    → last_index_of u (name ++ u ∷ t) ≡ some (length name)
unfolding last_index_of
last_index_of-append u [] t h = ground (arith, last_index_of-none u t)
last_index_of-append u (c ∷ name) t h = ground (arith, last_index_of-append u name t)

drop-length : (name t : Text) → drop (length name) (name ++ t) ≡ t
unfolding drop
drop-length [] t = refl
drop-length (c ∷ name) t = drop-length name t

-- A masked id shows the first two units of the name and the provider, and nothing else of it.
mask_upi_id_lem :
    (a b : ℕ) (name provider : Text)
    → any (λ c. nat_beq c 64) provider ≡ false
    → mask_upi_id (a ∷ b ∷ name ++ 64 ∷ provider) ≡ a ∷ b ∷ stars ++ 64 ∷ provider
unfolding mask_upi_id take drop
mask_upi_id_lem a b name provider h =
    let long : ltb (length (a ∷ b ∷ name)) 1 ≡ false = ground arith in
    let two : min 2 (length (a ∷ b ∷ name)) ≡ 2 = omega arith in
    rw
      (
        last_index_of-append 64 (a ∷ b ∷ name) provider h,
        drop-length name (64 ∷ provider),
        long,
        two,
      )
      refl
