-- ===== src/Prelude/Texts.antt =====
-- Texts: code points, Python's order on strings, and truth of a string.
use Prim.Native.Char.{code}
use Prim.Native.Nat.{ℕ, Ordering}
use Prim.Native.String.{String, compare}
use mathlib.Core.Bool.{Bool, true, false, not}
use mathlib.Core.Option.{Option, none, some}
use mathlib.Core.List.{List, [], ◌∷◌}
use text.Mathlib.Text.{◌==◌}

-- The code points of a text. `String` has its own `[]` and `∷`.
abbrev pub codes : String → List ℕ
codes String.[] = []
codes (String.◌∷◌ c s) = code c ∷ codes s

-- `s < t` and `s <= t` on Python strings, by code points; SQLite compares TEXT alike.
unfoldable pub str_lt : String → String → Bool
str_lt s t = elim (compare s t) [ Ordering.lt ↦ true | _ ↦ false ]

unfoldable pub str_le : String → String → Bool
str_le s t = elim (compare s t) [ Ordering.gt ↦ false | _ ↦ true ]

-- `bool(s)` for a string, and for an optional string.
abbrev pub truthy : String → Bool
truthy s = not (s == "")

abbrev pub truthy? : Option String → Bool
truthy? none = false
truthy? (some s) = truthy s

-- `s in (a, b, …)`
abbrev pub str_in : String → List String → Bool
str_in s [] = false
str_in s (x ∷ xs) = elim (s == x) [ true ↦ true | false ↦ str_in s xs ]
