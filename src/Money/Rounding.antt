-- ===== src/Money/Rounding.antt =====
-- The arithmetic of src/lib/money.ts: when rounding commutes with a sum.
use backend_v.Prelude.{ℕ, ◌+◌, ◌*◌, ◌≤◌, ◌≡◌, refl, ap, ◌/◌, ◌%◌, ◌-◌, ◌≢◌, arith}
use backend_v.Prelude.Int.{pos, negsuc, negate, ◌+ℤ◌, ◌-ℤ◌, ◌≤ℤ◌, int_laws}
use native.Mathlib.Decide.{dec_le}
use backend_v.Money.{Money, paisa, add, add_from, round2, round_half_up}

-- A whole number of paise that is not negative.
abbrev pub IsPaise : Money → Type 0
IsPaise a = (k : ℕ) × (a ≡ pos (k * paisa))

pub add_lem : (a b : Money) → add a b ≡ a +ℤ b
unfolding add add_from ◌+ℤ◌
add_lem a b = ground arith

round_half_up_whole : (k n : ℕ) → round_half_up (k * paisa + n) ≡ k * paisa + round_half_up n
round_half_up_whole k n = omega arith

pos_add : (a b : ℕ) → pos (a + b) ≡ pos a +ℤ pos b
unfolding ◌+ℤ◌
pos_add a b = ground arith

pub round2-pos : (n : ℕ) → round2 (pos n) ≡ pos (round_half_up n)
unfolding round2
round2-pos n = refl

-- Rounding leaves a whole number of paise alone.
pub round2-IsPaise : (a : Money) → IsPaise a → round2 a ≡ a
unfolding round2
round2-IsPaise a (k, e) = rw e (ap pos (omega arith))

-- What is rounded is a whole number of paise, at most half a paisa away.
pub IsPaise-round2 : (n : ℕ) → IsPaise (round2 (pos n))
unfolding round2
IsPaise-round2 n = ((n + 500_000) / paisa, refl)

-- Rounding a sum with a whole number of paise rounds the other term.
pub round2-add_paise : (a b : Money) → IsPaise a → pos 0 ≤ℤ b → round2 (a +ℤ b) ≡ a +ℤ round2 b
round2-add_paise a (pos n) (k, e) h =
    rw (e, ← pos_add (k * paisa) n, round2-pos, round2-pos, round_half_up_whole k n, pos_add)
round2-add_paise a (negsuc n) (k, e) h = absurd (omega arith)

pub round_half_up_mono : (a b : ℕ) → a ≤ b → round_half_up a ≤ round_half_up b
round_half_up_mono a b h = omega arith

sub_pos : (a b : ℕ) → b ≤ a → pos a -ℤ pos b ≡ pos (a - b)
unfolding ◌-ℤ◌
sub_pos a b h = ground arith

round_half_up_sub :
    (k n : ℕ)
    → n ≤ k * paisa
    → n % paisa ≢ 500_000
    → round_half_up (k * paisa - n) ≡ k * paisa - round_half_up n
round_half_up_sub k n h tie = omega arith

round_half_up_tie :
    (k n : ℕ)
    → n ≤ k * paisa
    → n % paisa ≡ 500_000
    → round_half_up (k * paisa - n) ≡ k * paisa - round_half_up n + paisa
round_half_up_tie k n h tie = omega arith

-- A little less than nothing rounds to nothing.
round2_small :
    (k n : ℕ)
    → k * paisa ≤ n
    → round_half_up n ≤ k * paisa
    → round2 (pos (k * paisa) -ℤ pos n) ≡ pos 0
unfolding round2 ◌-ℤ◌ negate
round2_small k n h le = ground arith

round_half_up_le : (k n : ℕ) → n ≤ k * paisa → round_half_up n ≤ k * paisa
round_half_up_le k n h = omega arith

bound_of :
    (a : Money) (k n : ℕ) → a ≡ pos (k * paisa) → round2 (pos n) ≤ℤ a → round_half_up n ≤ k * paisa
unfolding round2
bound_of a k n e le = ground arith

sub-round2 :
    (k n : ℕ)
    → round_half_up n ≤ k * paisa
    → pos (k * paisa) -ℤ round2 (pos n) ≡ pos (k * paisa - round_half_up n)
sub-round2 k n bound = rw (round2-pos n, sub_pos (k * paisa) (round_half_up n) bound)

round2-sub :
    (k n : ℕ)
    → n ≤ k * paisa
    → round2 (pos (k * paisa) -ℤ pos n) ≡ pos (round_half_up (k * paisa - n))
round2-sub k n h = rw (sub_pos (k * paisa) n h, round2-pos (k * paisa - n))

-- Taking an amount from whole paise rounds the amount, except at exactly half a paisa.
pub round2-sub_paise :
    (a : Money) (n : ℕ)
    → IsPaise a
    → round2 (pos n) ≤ℤ a
    → n % paisa ≢ 500_000
    → round2 (a -ℤ pos n) ≡ a -ℤ round2 (pos n)
round2-sub_paise a n (k, e) le tie =
    let bound = bound_of a k n e le in
    rw (e, sub-round2 k n bound)
      (elim (dec_le n (k * paisa)) [
        | yes h ↦ rw (round2-sub k n h) (ap pos (round_half_up_sub k n h tie))
        | no h ↦ rw (round2_small k n (omega arith) bound) (ap pos (omega arith))
      ])

-- At exactly half a paisa both roundings go up, and a paisa is lost between them.
pub round2-sub_tie :
    (a : Money) (n : ℕ)
    → IsPaise a
    → round2 (pos n) ≤ℤ a
    → n % paisa ≡ 500_000
    → round2 (a -ℤ pos n) ≡ a -ℤ round2 (pos n) +ℤ pos paisa
round2-sub_tie a n (k, e) le tie =
    let bound = bound_of a k n e le in
    rw (e, sub-round2 k n bound, ← pos_add (k * paisa - round_half_up n) paisa)
      (rw (round2-sub k n (omega arith)) (ap pos (round_half_up_tie k n (omega arith) tie)))

pub IsPaise-round2_nonneg : (a : Money) → pos 0 ≤ℤ a → IsPaise (round2 a)
IsPaise-round2_nonneg (pos n) h = IsPaise-round2 n
IsPaise-round2_nonneg (negsuc n) h = absurd (omega arith)

pub IsPaise-round2-add : (a b : Money) → IsPaise a → pos 0 ≤ℤ b → IsPaise (round2 (add a b))
IsPaise-round2-add a b (k, e) h =
    IsPaise-round2_nonneg (add a b) (rw (add_lem a b, e) (omega int_laws))
