-- ===== src/Store/Keys.antt =====
-- Identifiers and times, as the tables of prisma/schema.prisma hold them.
use backend_v.Prelude.{ℕ}

abbrev pub RowId : Type 0
RowId = ℕ

-- Milliseconds since the epoch.
abbrev pub Time : Type 0
Time = ℕ
