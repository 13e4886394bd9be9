-- ===== src/Base/Sets.antt =====
-- JavaScript's `Set` of numbers: its members in the order of insertion.
use Prim.Native.Nat.{ℕ}
use mathlib.Core.Path.{◌≡◌, refl}
use mathlib.Core.Bool.{Bool, false, not, ◌&&◌, ◌||◌}
use mathlib.Core.List.{List, [], ◌∷◌, ◌++◌}
use native.Mathlib.Omega.{arith}
use baltica.Base.Tests.{ltb, ◌==◌, if◌then◌else◌}

unfoldable pub has : ℕ → List ℕ → Bool
has x [] = false
has x (y ∷ ys) = y == x || has x ys

-- A member that is there already keeps its place.
unfoldable pub add : ℕ → List ℕ → List ℕ
add x [] = x ∷ []
add x (y ∷ ys) = if y == x then y ∷ ys else y ∷ add x ys

unfoldable pub delete : ℕ → List ℕ → List ℕ
delete x [] = []
delete x (y ∷ ys) = if y == x then delete x ys else y ∷ delete x ys

-- `for (const s of set) if (s < bound) set.delete(s)`
unfoldable pub delete_below : ℕ → List ℕ → List ℕ
delete_below b [] = []
delete_below b (y ∷ ys) = if ltb y b then delete_below b ys else y ∷ delete_below b ys

pub has-add : (x y : ℕ) (s : List ℕ) → has y (add x s) ≡ x == y || has y s
unfolding has add
has-add x y [] = refl
has-add x y (z ∷ s) = ground (arith, has-add x y s)

pub has-delete : (x y : ℕ) (s : List ℕ) → has y (delete x s) ≡ not (x == y) && has y s
unfolding has delete
has-delete x y [] = ground arith
has-delete x y (z ∷ s) = ground (arith, has-delete x y s)

pub has-delete_below : (b y : ℕ) (s : List ℕ) → has y (delete_below b s) ≡ not (ltb y b) && has y s
unfolding has delete_below
has-delete_below b y [] = ground arith
has-delete_below b y (z ∷ s) = ground (arith, has-delete_below b y s)

pub has-append : (y : ℕ) (s t : List ℕ) → has y (s ++ t) ≡ has y s || has y t
unfolding has
has-append y [] t = refl
has-append y (z ∷ s) t = ground (arith, has-append y s t)

-- Arrivals, the last one first.
unfoldable pub onto : List ℕ → List ℕ → List ℕ
onto [] arrived = arrived
onto (i ∷ is) arrived = onto is (i ∷ arrived)

pub has-onto : (j : ℕ) (is arrived : List ℕ) → has j (onto is arrived) ≡ has j is || has j arrived
unfolding onto has
has-onto j [] arrived = refl
has-onto j (i ∷ is) arrived = ground (arith, has-onto j is (i ∷ arrived))
