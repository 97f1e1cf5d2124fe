-- ===== src/Money.antt =====
-- src/lib/money.ts. A Decimal is a whole number of hundred-millionths of a rupee, a numeral of at
-- most eight decimal places, so that sums and products with whole numbers are exact, as decimal.js
-- computes them within its 20 significant digits. JSON numbers are such values too.
pub mod Rounding
use backend_v.Prelude.{ℕ, suc, ◌+◌, ◌*◌, ◌/◌, nat_beq, Bool, Option, none, some, List, [], ◌∷◌}
use backend_v.Prelude.Int.{ℤ, pos, negsuc, pos_part, neg_part, ◌+ℤ◌, ◌-ℤ◌, ◌*ℤ◌, negate}

abbrev pub Money : Type 0
Money = ℤ

-- One paisa, a hundredth of a rupee.
abbrev pub paisa : ℕ
paisa = 1_000_000

abbrev pub zero_money : Money
zero_money = pos 0

-- Equality of Decimals.
abbrev pub equals : Money → Money → Bool
equals a b = nat_beq (pos_part a + neg_part b) (pos_part b + neg_part a)

-- `values.reduce((sum, v) => sum.plus(v), ZERO)`
unfoldable pub add_from : Money → List Money → Money
add_from sum [] = sum
add_from sum (v ∷ values) = add_from (sum +ℤ v) values

unfoldable pub add : Money → Money → Money
add a b = add_from zero_money (a ∷ b ∷ [])

unfoldable pub sub : Money → Money → Money
sub a b = a -ℤ b

unfoldable pub mul : Money → ℤ → Money
mul a b = a *ℤ b

-- Whole paise, half a paisa going up.
abbrev pub round_half_up : ℕ → ℕ
round_half_up n = (n + 500_000) / paisa * paisa

-- `toDecimalPlaces(2, ROUND_HALF_UP)`: decimal.js rounds a tie away from zero.
unfoldable pub round2 : Money → Money
round2 (pos n) = pos (round_half_up n)
round2 (negsuc n) = negate (pos (round_half_up (suc n)))

-- `Number(value.toFixed(2))`, and 0 for an absent value.
unfoldable pub to_number : Option Money → Money
unfolding round2
to_number none = zero_money
to_number (some value) = round2 value

unfoldable pub equals_money : Money → Money → Bool
unfolding round2
equals_money a b = equals (round2 a) (round2 b)
