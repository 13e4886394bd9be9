-- ===== src/Fragment/Chunks.antt =====
-- The chunks that `sendSplit` of packages/raknet/src/shared/network-session.ts cuts.
use baltica.Base.{ℕ, zero, suc, ◌+◌, ◌-◌, ◌*◌, ◌≤◌, ◌<◌, ◌≡◌, refl, sym, ◌∙◌, min}
use baltica.Base.{List, [], ◌∷◌, ◌++◌, arith}
use native.Mathlib.Nat.{zero-add, zero-mul, div-add-mod}
use native.Mathlib.Decide.{dec_le}
use baltica.Base.Lists.{length, take, drop, take-drop, take_all, length-take, length-drop}
use baltica.Fragment.{chunk, ceil_div}

-- `n` payloads from `i` on.
unfoldable pub concat : (ℕ → List ℕ) → ℕ → ℕ → List ℕ
concat c zero i = []
concat c (suc n) i = c i ++ concat c n (i + 1)

drop_nil : (n : ℕ) → drop {A = ℕ} n [] ≡ []
drop_nil zero = refl
drop_nil (suc n) = refl

drop-drop : (m n : ℕ) (xs : List ℕ) → drop n (drop m xs) ≡ drop (m + n) xs
drop-drop zero n xs = rw zero-add refl
drop-drop (suc m) n [] = rw (drop_nil n, drop_nil (suc m + n)) refl
drop-drop (suc m) n (x ∷ xs) =
    let e : suc m + n ≡ suc (m + n) = omega arith in rw e (drop-drop m n xs)

drop_all : (n : ℕ) (xs : List ℕ) → length xs ≤ n → drop n xs ≡ []
drop_all n [] h = drop_nil n
drop_all zero (x ∷ xs) h = absurd (omega arith)
drop_all (suc n) (x ∷ xs) h = drop_all n xs (omega arith)

take_clamped : (n k : ℕ) (xs : List ℕ) → n ≡ min k (length xs) → take n xs ≡ take k xs
take_clamped n k xs e = elim (dec_le k (length xs)) [
  | yes h ↦ let same : n ≡ k = omega arith in rw same refl
  | no h ↦ take_all n xs (omega arith) ∙ sym (take_all k xs (omega arith))
]

-- Every chunk fits the size that the payload was cut for.
pub length-chunk : (k : ℕ) (payload : List ℕ) (i : ℕ) → length (chunk k payload i) ≤ k
length-chunk k payload i =
    omega (arith, length-take (min ((i + 1) * k) (length payload) - i * k) (drop (i * k) payload))

chunk-drop :
    (k : ℕ) (payload : List ℕ) (i : ℕ)
    → chunk k payload i ++ drop ((i + 1) * k) payload ≡ drop (i * k) payload
chunk-drop k payload i =
    let next : (i + 1) * k ≡ i * k + k = omega arith in
    let clamp : take (min ((i + 1) * k) (length payload) - i * k) (drop (i * k) payload)
        ≡ take k (drop (i * k) payload) =
      take_clamped _ k (drop (i * k) payload) (omega (arith, length-drop (i * k) payload)) in
    rw (clamp, next, ← drop-drop (i * k) k payload) (take-drop k (drop (i * k) payload))

-- What the chunks from `i` on make together.
concat-chunk_from :
    (k : ℕ) (payload : List ℕ) (n i : ℕ)
    → length payload ≤ (i + n) * k
    → concat (chunk k payload) n i ≡ drop (i * k) payload
unfolding concat
concat-chunk_from k payload zero i e = sym (drop_all (i * k) payload (omega arith))
concat-chunk_from k payload (suc n) i e =
    rw (concat-chunk_from k payload n (i + 1) (omega arith)) (chunk-drop k payload i)

ceil_enough : (a k : ℕ) → 0 < k → a ≤ (0 + ceil_div a k) * k
ceil_enough a k h = grind (arith, div-add-mod (a + k - 1) k)

-- `sendSplit` cuts a payload into enough chunks, and in order they are the payload again.
pub concat-chunk :
    (k : ℕ) (payload : List ℕ)
    → 0 < k
    → concat (chunk k payload) (ceil_div (length payload) k) 0 ≡ payload
concat-chunk k payload h =
    concat-chunk_from k payload (ceil_div (length payload) k) 0 (ceil_enough (length payload) k h)
    ∙ rw zero-mul refl
