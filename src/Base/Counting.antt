-- ===== src/Base/Counting.antt =====
-- The size of a map whose keys are bounded, for the maps of packages/raknet.
use Prim.Native.Nat.{ℕ, zero, suc, ◌+◌, ◌≤◌, ◌<◌}
use mathlib.Core.Path.{◌≡◌, refl}
use mathlib.Core.Logic.{inl, inr}
use mathlib.Core.Bool.{true, false}
use mathlib.Core.List.{[], ◌∷◌}
use native.Mathlib.Omega.{arith}
use baltica.Base.Tests.{◌==◌, if◌then◌else◌, Option-cases}
use baltica.Base.Lists.{length}
use baltica.Base.Maps.{
  Map, lookup, insert, erase, has_key, lookup-insert, lookup-erase, length-erase,
}

module _ {ℓ} {V : Type ℓ} where
  -- No key stands twice.
  abbrev pub Distinct : Map V → Type 0
  Distinct [] = Unit {0}
  Distinct ((k, v) ∷ m) = (has_key k m ≡ false) × Distinct m

  has_key-insert :
      (k j : ℕ) (v : V) (m : Map V)
      → has_key j (insert k v m) ≡ (if k == j then true else has_key j m)
  has_key-insert k j v m = ground (arith, lookup-insert k j v m)

  pub insert-Distinct : (k : ℕ) (v : V) (m : Map V) → Distinct m → Distinct (insert k v m)
  unfolding insert
  insert-Distinct k v [] d = (unfold lookup in refl, tt)
  insert-Distinct k v ((j, w) ∷ m) d = ground (arith, insert-Distinct k v m, has_key-insert k j v m)

  has_key-erase :
      (k j : ℕ) (m : Map V) → has_key j (erase k m) ≡ (if k == j then false else has_key j m)
  has_key-erase k j m = ground (arith, lookup-erase k j m)

  pub erase-Distinct : (k : ℕ) (m : Map V) → Distinct m → Distinct (erase k m)
  unfolding erase
  erase-Distinct k [] d = tt
  erase-Distinct k ((j, w) ∷ m) d = ground (arith, erase-Distinct k m, has_key-erase k j m)

  erase-absent : (k : ℕ) (m : Map V) → has_key k m ≡ false → length (erase k m) ≡ length m
  unfolding erase lookup
  erase-absent k [] e = refl
  erase-absent k ((j, w) ∷ m) e = ground (arith, erase-absent k m)

  length-erase-Distinct : (k : ℕ) (m : Map V) → Distinct m → length m ≤ length (erase k m) + 1
  unfolding erase
  length-erase-Distinct k [] d = omega arith
  length-erase-Distinct k ((j, w) ∷ m) d =
      ground (arith, length-erase-Distinct k m, erase-absent k m)

  -- Every key is below `n`.
  abbrev pub Below : ℕ → Map V → Type 0
  Below n m = (j : ℕ) → n ≤ j → has_key j m ≡ false

  erase-Below : (n : ℕ) (m : Map V) → Below (suc n) m → Below n (erase n m)
  erase-Below n m b j h = ground (arith, has_key-erase n j m, b j)

  nothing-Below_zero : (m : Map V) → Below 0 m → length m ≤ 0
  unfolding lookup
  nothing-Below_zero [] b = omega arith
  nothing-Below_zero ((k, v) ∷ m) b = ground (arith, b k)

  pub length-le_of_Below : (n : ℕ) (m : Map V) → Distinct m → Below n m → length m ≤ n
  length-le_of_Below zero m d b = nothing-Below_zero m b
  length-le_of_Below (suc n) m d b = omega (
    arith,
    length-le_of_Below n (erase n m) (erase-Distinct n m d) (erase-Below n m b),
    length-erase-Distinct n m d,
  )

  -- A map with a key missing is not full.
  pub length-lt_of_missing :
      (n : ℕ) (m : Map V) (j : ℕ)
      → Distinct m
      → Below n m
      → j < n
      → has_key j m ≡ false
      → length m < n
  length-lt_of_missing zero m j d b h e = absurd (omega arith)
  length-lt_of_missing (suc n) m j d b h e = ground (
    arith,
    erase-absent n m,
    length-le_of_Below n (erase n m) (erase-Distinct n m d) (erase-Below n m b),
    length-lt_of_missing n (erase n m) j (erase-Distinct n m d) (erase-Below n m b),
    has_key-erase n j m,
    length-erase-Distinct n m d,
  )

  erase-shrinks : (k : ℕ) (m : Map V) → has_key k m ≡ true → length (erase k m) < length m
  erase-shrinks k m e = elim (Option-cases (lookup k m)) [
    | inl q ↦ absurd (false_ne (rw (q, has_key) at e))
    | inr (v, q) ↦ length-erase k m v q
  ]
    where
      false_ne : false ≡ true → ⊥
      false_ne q = cc

  pub length-ge_of_all : (n : ℕ) (m : Map V) → ((j : ℕ) → j < n → has_key j m ≡ true) → n ≤ length m
  length-ge_of_all zero m a = omega arith
  length-ge_of_all (suc n) m a = omega (
    arith,
    length-ge_of_all n (erase n m) (λ j h. ground (arith, has_key-erase n j m, a j)),
    erase-shrinks n m (a n (omega arith)),
  )
