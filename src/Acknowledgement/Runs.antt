-- ===== src/Acknowledgement/Runs.antt =====
-- The runs that `serialize` of packages/raknet/src/shared/proto/packets/online/acknowledgement.ts
-- cuts a sorted list into, and what they stand for.
use baltica.Base.{ℕ, zero, suc, ◌+◌, ◌-◌, ◌≤◌, ◌≡◌, refl, ap, ◌∙◌}
use baltica.Base.{◌&&◌, ◌||◌, List, [], ◌∷◌, ◌++◌, arith}
use baltica.Base.Tests.{◌==◌, ltb, leb, if◌then◌else◌}
use baltica.Base.Lists.{length, All}
use baltica.Base.Sets.{has, has-append}
use baltica.Acknowledgement.{insert_sorted, sort, count_up, interval}

-- Strictly ascending, from `b` on.
abbrev pub Ascends : ℕ → List ℕ → Type 0
Ascends b [] = Unit {0}
Ascends b (x ∷ xs) = (b ≤ x) × Ascends (x + 1) xs

-- Ascending, from `b` on.
abbrev pub IsSorted : ℕ → List ℕ → Type 0
IsSorted b [] = Unit {0}
IsSorted b (x ∷ xs) = (b ≤ x) × IsSorted x xs

insert_sorted-IsSorted :
    (b x : ℕ) (xs : List ℕ) → b ≤ x → IsSorted b xs → IsSorted b (insert_sorted x xs)
unfolding insert_sorted
insert_sorted-IsSorted b x [] h s = (h, tt)
insert_sorted-IsSorted b x (y ∷ ys) h s = ground (arith, insert_sorted-IsSorted y x ys)

pub sort-IsSorted : (xs : List ℕ) → IsSorted 0 (sort xs)
unfolding sort
sort-IsSorted [] = tt
sort-IsSorted (x ∷ xs) = insert_sorted-IsSorted 0 x (sort xs) (omega arith) (sort-IsSorted xs)

has-insert_sorted : (x y : ℕ) (xs : List ℕ) → has y (insert_sorted x xs) ≡ x == y || has y xs
unfolding insert_sorted has
has-insert_sorted x y [] = refl
has-insert_sorted x y (z ∷ xs) = ground (arith, has-insert_sorted x y xs)

pub has-sort : (y : ℕ) (xs : List ℕ) → has y (sort xs) ≡ has y xs
unfolding sort has
has-sort y [] = refl
has-sort y (x ∷ xs) = has-insert_sorted x y (sort xs) ∙ ap (λ b. x == y || b) (has-sort y xs)

All-insert_sorted :
    (P : ℕ → Type 0) (x : ℕ) (xs : List ℕ) → P x → All P xs → All P (insert_sorted x xs)
unfolding insert_sorted
All-insert_sorted P x [] h a = (h, tt)
All-insert_sorted P x (y ∷ ys) h a = ground (arith, All-insert_sorted P x ys h)

pub All-sort : (P : ℕ → Type 0) (xs : List ℕ) → All P xs → All P (sort xs)
unfolding sort
All-sort P [] a = tt
All-sort P (x ∷ xs) a = All-insert_sorted P x (sort xs) a.0 (All-sort P xs a.1)

length-insert_sorted : (x : ℕ) (xs : List ℕ) → length (insert_sorted x xs) ≡ suc (length xs)
unfolding insert_sorted
length-insert_sorted x [] = refl
length-insert_sorted x (y ∷ ys) = ground (arith, length-insert_sorted x ys)

pub length-sort : (xs : List ℕ) → length (sort xs) ≡ length xs
unfolding sort
length-sort [] = refl
length-sort (x ∷ xs) = omega (arith, length-insert_sorted x (sort xs), length-sort xs)

-- The runs of what the loop has read (`start` to `last`) and what it has not.
unfoldable pub runs : ℕ → ℕ → List ℕ → List (ℕ × ℕ)
runs start last [] = (start, last) ∷ []
runs start last (current ∷ rest) =
    let extended = runs start current rest in
    let closed = (start, last) ∷ runs current current rest in
    let skipped = runs start last rest in
    if current == last + 1 then extended else if ltb (last + 1) current then closed else skipped

unfoldable pub expand : List (ℕ × ℕ) → List ℕ
expand [] = []
expand ((start, last) ∷ rs) = interval start last ++ expand rs

pub Ascends-mono : (a b : ℕ) (xs : List ℕ) → a ≤ b → Ascends b xs → Ascends a xs
Ascends-mono a b [] h s = tt
Ascends-mono a b (x ∷ xs) h s = (omega arith, s.1)

Ascends-count_up :
    (n start : ℕ) (xs : List ℕ) → Ascends (start + n) xs → Ascends start (count_up n start ++ xs)
unfolding count_up
Ascends-count_up zero start xs h = Ascends-mono start (start + 0) xs (omega arith) h
Ascends-count_up (suc n) start xs h = (
  omega arith,
  Ascends-count_up n (start + 1) xs
      (Ascends-mono (start + 1 + n) (start + suc n) xs (omega arith) h),
)

pub Ascends-expand :
    (start last : ℕ) (rest : List ℕ)
    → start ≤ last
    → IsSorted last rest
    → Ascends start (expand (runs start last rest))
unfolding runs expand
Ascends-expand start last [] h s = Ascends-count_up (last + 1 - start) start [] tt
Ascends-expand start last (current ∷ rest) h s = ground (
  arith,
  Ascends-expand start current rest,
  Ascends-expand current current rest,
  Ascends-expand start last rest,
  Ascends-mono (start + (last + 1 - start)) current (expand (runs current current rest)),
  Ascends-count_up (last + 1 - start) start (expand (runs current current rest)),
)

has-count_up : (n start y : ℕ) → has y (count_up n start) ≡ leb start y && ltb y (start + n)
unfolding has count_up
has-count_up zero start y = ground arith
has-count_up (suc n) start y = ground (arith, has-count_up n (start + 1) y)

has-interval : (start last y : ℕ) → has y (interval start last) ≡ leb start y && leb y last
has-interval start last y = has-count_up (last + 1 - start) start y ∙ ground arith

-- The runs stand for the members of the list that they were cut from.
pub has-expand :
    (start last y : ℕ) (rest : List ℕ)
    → start ≤ last
    → IsSorted last rest
    → has y (expand (runs start last rest)) ≡ (leb start y && leb y last) || has y rest
unfolding runs expand has
has-expand start last y [] h s =
    ground (arith, has-append y (interval start last) [], has-interval start last y)
has-expand start last y (current ∷ rest) h s = ground (
  arith,
  has-append y (interval start last) (expand (runs current current rest)),
  has-interval start last y,
  has-expand start current y rest,
  has-expand current current y rest,
  has-expand start last y rest,
)

pub length-runs : (start last : ℕ) (rest : List ℕ) → length (runs start last rest) ≤ length rest + 1
unfolding runs
length-runs start last [] = omega arith
length-runs start last (current ∷ rest) = ground (
  arith,
  length-runs start current rest,
  length-runs current current rest,
  length-runs start last rest,
)
