-- ===== src/Prelude/Rules.antt =====
-- Lemmas on numbers that several components use, with the rule set that names them.
use backend_v.Prelude.{ℕ, ◌≤◌, ◌<◌, ◌≡◌, Bool, true, false, ltb, leb, arith}

pub ltb→lt : (a b : ℕ) → ltb a b ≡ true → a < b
ltb→lt a b h = ground arith

pub lt→ltb : (a b : ℕ) → a < b → ltb a b ≡ true
lt→ltb a b h = ground arith

pub leb→le : (a b : ℕ) → leb a b ≡ true → a ≤ b
leb→le a b h = ground arith

pub le→leb : (a b : ℕ) → a ≤ b → leb a b ≡ true
le→leb a b h = ground arith

pub ruleset tests = (arith, ltb→lt, lt→ltb, leb→le, le→leb)
