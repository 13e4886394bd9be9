-- ===== src/Base/Maps.antt =====
-- JavaScript's `Map` with numbers for keys: its entries in the order of insertion.
use Prim.Native.Nat.{ℕ, ◌≤◌, ◌<◌}
use mathlib.Core.Path.{◌≡◌, refl}
use mathlib.Core.Bool.{Bool, true, false}
use mathlib.Core.Option.{Option, none, some}
use mathlib.Core.List.{List, [], ◌∷◌}
use native.Mathlib.Omega.{arith}
use baltica.Base.Tests.{◌==◌, if◌then◌else◌}
use baltica.Base.Lists.{length}

-- The entries' type, and the operations behind its name.
abbrev pub Map {ℓ} : Type ℓ → Type ℓ
Map V = List (ℕ × V)

module _ {ℓ} {V : Type ℓ} where
  unfoldable pub lookup : (key : ℕ) (entries : Map V) → Option V
  lookup key [] = none
  lookup key ((first, value) ∷ entries) = if first == key then some value else lookup key entries

  -- `map.set(k, v)`: a key that is there already keeps its place.
  unfoldable pub insert : (key : ℕ) (value : V) (entries : Map V) → Map V
  insert key value [] = (key, value) ∷ []
  insert key value ((first, old) ∷ entries) =
      if first == key then (key, value) ∷ entries else (first, old) ∷ insert key value entries

  unfoldable pub erase : (key : ℕ) (entries : Map V) → Map V
  erase key [] = []
  erase key ((first, value) ∷ entries) =
      if first == key then erase key entries else (first, value) ∷ erase key entries

  abbrev pub has_key : ℕ → Map V → Bool
  has_key k m = elim (lookup k m) [ none ↦ false | some v ↦ true ]

  pub lookup-insert :
      (key other : ℕ) (value : V) (entries : Map V)
      → lookup other (insert key value entries)
        ≡ (if key == other then some value else lookup other entries)
  unfolding lookup insert
  lookup-insert key other value [] = refl
  lookup-insert key other value ((first, old) ∷ entries) =
      ground (arith, lookup-insert key other value entries)

  pub lookup-erase :
      (key other : ℕ) (entries : Map V)
      → lookup other (erase key entries) ≡ (if key == other then none else lookup other entries)
  unfolding lookup erase
  lookup-erase key other [] = ground arith
  lookup-erase key other ((first, value) ∷ entries) = ground (arith, lookup-erase key other entries)

  length-erase-le : (k : ℕ) (m : Map V) → length (erase k m) ≤ length m
  unfolding erase
  length-erase-le k [] = omega arith
  length-erase-le k ((j, v) ∷ m) = ground (arith, length-erase-le k m)

  -- Erasing a key that is there makes the map smaller.
  pub length-erase :
      (k : ℕ) (m : Map V) (v : V) → lookup k m ≡ some v → length (erase k m) < length m
  unfolding lookup erase
  length-erase k [] v e = cc
  length-erase k ((j, w) ∷ m) v e = ground (arith, length-erase k m v, length-erase-le k m)

  pub lookup-none_of_empty : (k : ℕ) (m : Map V) → length m ≤ 0 → lookup k m ≡ none
  unfolding lookup
  lookup-none_of_empty k [] h = refl
  lookup-none_of_empty k (x ∷ m) h = absurd (omega arith)
