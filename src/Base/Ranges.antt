-- ===== src/Base/Ranges.antt =====
-- Ranges of numbers as sets.
use Prim.Native.Nat.{ℕ, zero, suc, ◌+◌, ◌≤◌, ◌<◌}
use mathlib.Core.Path.{◌≡◌, refl}
use mathlib.Core.Logic.{inl, inr}
use mathlib.Core.Bool.{true}
use mathlib.Core.List.{List, [], ◌∷◌, map}
use native.Mathlib.Omega.{arith}
use baltica.Base.Tests.{ltb, Bool-cases, ltb→lt}
use baltica.Base.Lists.{All}
use baltica.Base.Sets.{has}

-- The numbers below `n`, the last one first.
abbrev pub below : ℕ → List ℕ
below zero = []
below (suc n) = n ∷ below n

pub has-below : (j n : ℕ) → has j (below n) ≡ ltb j n
unfolding has
has-below j zero = ground arith
has-below j (suc n) = ground (arith, has-below j n)

pub has-shift : (k j : ℕ) (is : List ℕ) → has (k + j) (map (◌+◌ k) is) ≡ has j is
unfolding has
has-shift k j [] = refl
has-shift k j (i ∷ is) = ground (arith, has-shift k j is)

All-has : (n j : ℕ) (is : List ℕ) → All (λ i. i < n) is → has j is ≡ true → j < n
unfolding has
All-has n j [] h e = cc
All-has n j (i ∷ is) (hi, h) e = ground (arith, All-has n j is h)

pub in_range :
    (n m : ℕ) (is : List ℕ) → All (λ i. i < n) is → ((j : ℕ) → j < m → has j is ≡ true) → m ≤ n
in_range n m is h came = elim (Bool-cases (ltb n m)) [
  | inl e ↦ let low = All-has n n is h (came n (ltb→lt n m e)) in absurd (omega arith)
  | inr e ↦ ground arith
]
