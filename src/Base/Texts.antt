-- ===== src/Base/Texts.antt =====
-- Texts as lists of code units, and JavaScript's truth of a text.
use Prim.Native.Char.{code}
use Prim.Native.String.{String}
use Prim.Native.Nat.{ℕ}
use mathlib.Core.Bool.{Bool, true, false}
use mathlib.Core.Option.{Option, none, some}
use mathlib.Core.List.{List, [], ◌∷◌}

abbrev pub Text : Type 0
Text = List ℕ

-- A literal.
abbrev pub codes : String → Text
codes String.[] = []
codes (String.◌∷◌ c s) = code c ∷ codes s

-- `!text`
abbrev pub is_empty : Text → Bool
is_empty [] = true
is_empty (c ∷ text) = false

-- `a || b`
abbrev pub or_else : Text → Text → Text
or_else [] other = other
or_else (c ∷ text) other = c ∷ text

-- `a ?? b`
abbrev pub with_default {ℓ} : {A : Type ℓ} → Option A → A → A
with_default none other = other
with_default (some a) other = a

-- An optional text that counts as true.
abbrev pub present : Option Text → Option Text
present none = none
present (some []) = none
present (some (c ∷ text)) = some (c ∷ text)
