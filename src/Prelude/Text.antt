-- ===== src/Prelude/Text.antt =====
-- What the source asks of texts. A text is a sequence of code points.
use Prim.Native.Char.{code}
use Prim.Native.Nat.{ℕ, zero, suc}
use Prim.Native.String.{String, [], ◌∷◌}
use mathlib.Core.Bool.{Bool, true, false}
use mathlib.Core.List.{List}
use mathlib.Core.Option.{Option, none, some}

-- `text.slice(0, n)`
unfoldable pub truncate : ℕ → String → String
truncate zero s = []
truncate (suc n) [] = []
truncate (suc n) (c ∷ s) = c ∷ truncate n s

unfoldable pub codes : String → List ℕ
codes [] = List.[]
codes (c ∷ s) = List.◌∷◌ (code c) (codes s)

-- JavaScript's truth test of an optional text.
abbrev pub is_present : Option String → Bool
is_present none = false
is_present (some []) = false
is_present (some (c ∷ s)) = true
