-- ===== src/Recovery/Grants/Laws.antt =====
-- The life of a recovery grant (src/lib/recoveryGrant.ts).
use text.Mathlib.TextEquality.{eq_iff}
use backend_v.Prelude.Rules.{ltb→lt}
use backend_v.Prelude.{
  true, ◌<◌, ℕ, ◌≤◌, ◌≡◌, refl, sym, ap, ◌∙◌, false, Option, none, some, List, [], ◌∷◌, nat_beq,
  any, find, filter, length, update_all, arith, String, if◌then◌else◌, Bool-cases, inl, inr,
}
use backend_v.Errors.{Result, ok}
use backend_v.Recovery.Grants.{use_grant, fits_grant, consumed_grant, has_token}
use backend_v.Recovery.Requests.Race.{length-filter_none}
use backend_v.Store.Accounts.{AdminRecoveryGrant}
use backend_v.Store.Schema.{Time, Db}

abbrev pub grants_of : Db → List AdminRecoveryGrant
grants_of d = d.accounts.recovery_grants

module _ (hash agent agent2 : String) (now now2 : Time) where
  abbrev spent : List AdminRecoveryGrant → List AdminRecoveryGrant
  spent rows = update_all (fits_grant hash agent now) (consumed_grant now) rows

  fits_bound :
      (rows : List AdminRecoveryGrant)
      → length (filter (fits_grant hash agent now) rows) ≤ length (filter (has_token hash) rows)
  fits_bound [] = omega arith
  fits_bound (g ∷ rows) = ground (arith, fits_bound rows)

  absent_spent :
      (rows : List AdminRecoveryGrant)
      → length (filter (has_token hash) rows) ≡ 0
      → any (fits_grant hash agent2 now2) (spent rows) ≡ false
  absent_spent [] h = refl
  absent_spent (g ∷ rows) h = ground (arith, absent_spent rows)

  one_spent :
      (rows : List AdminRecoveryGrant)
      → length (filter (fits_grant hash agent now) rows) ≡ 1
      → length (filter (has_token hash) rows) ≤ 1
      → any (fits_grant hash agent2 now2) (spent rows) ≡ false
  one_spent [] h k = refl
  one_spent (g ∷ rows) h k = ground (arith, one_spent rows, absent_spent rows, fits_bound rows)

picked :
    (n : ℕ) (o : Option AdminRecoveryGrant) (g : AdminRecoveryGrant)
    → (if nat_beq n 1 then o else none) ≡ some g
    → (n ≡ 1) × (o ≡ some g)
picked n o g h = elim (Bool-cases (nat_beq n 1)) [
  | inl one ↦ (ground arith, rw one at h)
  | inr more ↦ cc (rw more at h)
]

-- What a grant that was redeemed has met: one row with the hash of the token and of the browser,
-- not consumed and not past its end. The row is consumed now.
pub use_grant-eq-ok :
    (hash agent : String) (now : Time) (d : Db) (g : AdminRecoveryGrant) (d' : Db)
    → use_grant hash agent now d ≡ (ok (some g), d')
    → (length (filter (fits_grant hash agent now) (grants_of d)) ≡ 1)
      × (find (has_token hash) (grants_of d') ≡ some g)
      × (grants_of d' ≡ update_all (fits_grant hash agent now) (consumed_grant now) (grants_of d))
unfolding use_grant
use_grant-eq-ok hash agent now d g d' h =
    let rows = update_all (fits_grant hash agent now) (consumed_grant now) (grants_of d) in
    let end : grants_of d' ≡ rows =
      sym (ap (λ (x : Result (Option AdminRecoveryGrant) × Db). grants_of x.1) h) in
    let (one, here) =
      picked (length (filter (fits_grant hash agent now) (grants_of d)))
        (find (has_token hash) rows) g (some_ok (ap (λ x. x.0) h)) in
    (one, ap (find (has_token hash)) end ∙ here, end)
  where
    some_ok : {a b : Option AdminRecoveryGrant} → ok a ≡ ok b → a ≡ b
    some_ok k = cc

-- What a grant must be to be redeemed by a browser at a time.
pub record IsRedeemable (agent : String) (now : Time) (g : AdminRecoveryGrant) : Type 0 where
  pub browser : g.user_agent_hash ≡ agent
  pub unused : g.consumed_at ≡ none
  pub running : now < g.expires_at

pub fits_grant-IsRedeemable :
    (hash agent : String) (now : Time) (g : AdminRecoveryGrant)
    → fits_grant hash agent now g ≡ true
    → IsRedeemable agent now g
fits_grant-IsRedeemable hash agent now g h = record {
  browser = (eq_iff g.user_agent_hash agent).0 (ground arith);
  unused = ground arith;
  running = ltb→lt now g.expires_at (ground arith);
}

-- The one row with a token's hash, before it was redeemed.
module _ (hash agent : String) (now : Time) where
  pub redeemed_row :
      (rows : List AdminRecoveryGrant) (g : AdminRecoveryGrant)
      → length (filter (fits_grant hash agent now) rows) ≡ 1
      → length (filter (has_token hash) rows) ≤ 1
      → find (has_token hash) (update_all (fits_grant hash agent now) (consumed_grant now) rows)
        ≡ some g
      → (g0 : AdminRecoveryGrant) × (find (has_token hash) rows ≡ some g0)
        × (fits_grant hash agent now g0 ≡ true)
        × (g.user_id ≡ g0.user_id)
  redeemed_row [] g one unique found = cc
  redeemed_row (x ∷ rows) g one unique found = elim (Bool-cases (fits_grant hash agent now x)) [
    | inl fits ↦
        let hit : has_token hash x ≡ true = ground arith in
        let is : some (consumed_grant now x) ≡ some g = rw (fits, hit) at found in
        (x, rw hit refl, fits, cc)
    | inr other ↦ elim (Bool-cases (has_token hash x)) [
      | inl hit ↦
          let bound = fits_bound hash agent agent now now rows in absurd (ground (arith, bound))
      | inr miss ↦
          let (g0, there, fits, same) =
            redeemed_row rows g (ground arith) (ground arith) (rw (other, miss) at found) in
          (g0, rw miss there, fits, same)
    ]
  ]

-- A grant that was redeemed is never redeemed again, by whatever browser and whenever, where one
-- row at most has the hash of the token, as the table's unique index has it.
pub use_grant_once :
    (hash agent agent2 : String) (now now2 : Time) (d : Db) (g : AdminRecoveryGrant) (d' : Db)
    → length (filter (has_token hash) (grants_of d)) ≤ 1
    → use_grant hash agent now d ≡ (ok (some g), d')
    → (use_grant hash agent2 now2 d').0 ≡ ok none
unfolding use_grant
use_grant_once hash agent agent2 now now2 d g d' unique h =
    let (one, _, rows) = use_grant-eq-ok hash agent now d g d' h in
    let left : any (fits_grant hash agent2 now2) (grants_of d') ≡ false =
      ap (any (fits_grant hash agent2 now2)) rows
      ∙ one_spent hash agent agent2 now now2 (grants_of d) one unique in
    rw (length-filter_none (fits_grant hash agent2 now2) (grants_of d') left) refl
