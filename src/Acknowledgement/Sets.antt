-- ===== src/Acknowledgement/Sets.antt =====
-- What an acknowledgement of packages/raknet/src/shared/proto/packets/online/acknowledgement.ts stands
-- for: the set of its sequence numbers, whatever their order and repetitions.
use mathlib.Core.Quot
use mathlib.Core.Quot.{Quot}
use mathlib.Core.Logic.{◌↔◌}
use baltica.Base.{
  ℕ, ◌+◌, ◌^◌, ◌≤◌, ◌<◌, ◌≡◌, refl, sym, ap, ◌∙◌, ◌&&◌, true, false, List, [], ◌∷◌, ◌++◌, subst,
  inl, inr, arith,
}
use baltica.Base.Tests.{◌==◌, ltb, if◌then◌else◌, some_injective, Bool-cases}
use baltica.Base.Lists.{length, All}
use baltica.Base.Sets.{has}
use baltica.Stream.{BinaryStream, Laws}
use baltica.Stream.Buffers.{payload}
use baltica.Acknowledgement.{
  Kind, sort, write_record, write_loop, write_records, serialize, deserialize,
}
use baltica.Acknowledgement.Runs.{Ascends, IsSorted, sort-IsSorted, has-sort}
use baltica.Acknowledgement.RoundTrip.{deserialize-serialize-Ascends}

-- What is above `last` in an ascending list, each number once.
unfoldable above : ℕ → List ℕ → List ℕ
above last [] = []
above last (x ∷ xs) = if ltb last x then x ∷ above x xs else above last xs

abbrev distinct : List ℕ → List ℕ
distinct [] = []
distinct (x ∷ xs) = x ∷ above x xs

above-Ascends : (last : ℕ) (xs : List ℕ) → IsSorted last xs → Ascends (last + 1) (above last xs)
unfolding above
above-Ascends last [] s = tt
above-Ascends last (x ∷ xs) s = ground (arith, above-Ascends x xs, above-Ascends last xs)

has_below_sorted : (b y : ℕ) (xs : List ℕ) → IsSorted b xs → has y xs ≡ true → b ≤ y
unfolding has
has_below_sorted b y [] s h = cc
has_below_sorted b y (x ∷ xs) s h = ground (arith, has_below_sorted x y xs)

has-above :
    (last y : ℕ) (xs : List ℕ) → IsSorted last xs → has y (above last xs) ≡ ltb last y && has y xs
unfolding above has
has-above last y [] s = ground arith
has-above last y (x ∷ xs) s =
    ground (arith, has-above x y xs, has-above last y xs, has_below_sorted x y xs)

distinct-Ascends : (xs : List ℕ) → IsSorted 0 xs → Ascends 0 (distinct xs)
distinct-Ascends [] s = tt
distinct-Ascends (x ∷ xs) s = (omega arith, above-Ascends x xs s.1)

has-distinct : (y : ℕ) (xs : List ℕ) → IsSorted 0 xs → has y (distinct xs) ≡ has y xs
unfolding has
has-distinct y [] s = refl
has-distinct y (x ∷ xs) s = ground (arith, has-above x y xs, has_below_sorted x y xs)

has_below_ascending : (b y : ℕ) (xs : List ℕ) → Ascends b xs → has y xs ≡ true → b ≤ y
unfolding has
has_below_ascending b y [] s h = cc
has_below_ascending b y (x ∷ xs) s h = ground (arith, has_below_ascending (x + 1) y xs)

abbrev pub SameMembers : List ℕ → List ℕ → Type 0
SameMembers xs ys = (y : ℕ) → has y xs ≡ has y ys

-- A strictly ascending list is determined by its members.
ascending_unique :
    (b c : ℕ) (xs ys : List ℕ) → Ascends b xs → Ascends c ys → SameMembers xs ys → xs ≡ ys
unfolding has
ascending_unique b c [] [] s t h = refl
ascending_unique b c [] (y ∷ ys) s t h = ground (arith, h y)
ascending_unique b c (x ∷ xs) [] s t h = ground (arith, h x)
ascending_unique b c (x ∷ xs) (y ∷ ys) (s0, s) (t0, t) h =
    let low_x = has_below_ascending (x + 1) y xs s in
    let low_y = has_below_ascending (y + 1) x ys t in
    let same : x ≡ y = ground (arith, h x, h y) in
    let rest : SameMembers xs ys = λ z.
      ground (arith, h z, has_below_ascending (x + 1) z xs s, has_below_ascending (y + 1) z ys t) in
    rw same (ap (◌∷◌ y) (ascending_unique (x + 1) (y + 1) xs ys s t rest))

module _ (io : BinaryStream) where
  -- The loop passes over repetitions.
  write_loop-above :
      (start last : ℕ) (rest stream : List ℕ) (records : ℕ)
      → IsSorted last rest
      → write_loop io start last rest stream records
        ≡ write_loop io start last (above last rest) stream records
  unfolding write_loop above
  write_loop-above start last [] stream records s = refl
  write_loop-above start last (x ∷ rest) stream records (h, s) = elim (Bool-cases (ltb last x)) [
    | inl e ↦ elim (Bool-cases (x == last + 1)) [
      | inl f ↦ rw (e, f, write_loop, above) (write_loop-above start x rest stream records s)
      | inr f ↦
          let gap : ltb (last + 1) x ≡ true = ground arith in
          rw (e, f, gap, write_loop, above)
            (write_loop-above x x rest (stream ++ write_record io start last) (records + 1) s)
    ]
    | inr e ↦
        let same : x ≡ last = ground arith in
        let near : x == last + 1 ≡ false = ground arith in
        let low : ltb (last + 1) x ≡ false = ground arith in
        rw (e, near, low, write_loop, above)
          (write_loop-above start last rest stream records (subst (λ k. IsSorted k rest) same s))
  ]

  write_records-distinct :
      (xs : List ℕ) → IsSorted 0 xs → write_records io xs ≡ write_records io (distinct xs)
  unfolding write_records
  write_records-distinct [] s = refl
  write_records-distinct (x ∷ xs) s = write_loop-above x x xs [] 0 s.1

  pub serialize-resp :
      (kind : Kind) (xs ys : List ℕ)
      → SameMembers xs ys
      → serialize io kind xs ≡ serialize io kind ys
  unfolding serialize
  serialize-resp kind xs ys h =
      let s = sort-IsSorted xs in
      let t = sort-IsSorted ys in
      let same : distinct (sort xs) ≡ distinct (sort ys) =
        ascending_unique 0 0 _ _ (distinct-Ascends (sort xs) s) (distinct-Ascends (sort ys) t) λ y.
          has-distinct y (sort xs) s
          ∙ has-sort y xs
          ∙ h y
          ∙ sym (has-sort y ys)
          ∙ sym (has-distinct y (sort ys) t) in
      let records : write_records io (sort xs) ≡ write_records io (sort ys) =
        write_records-distinct (sort xs) s
        ∙ ap (write_records io) same
        ∙ sym (write_records-distinct (sort ys) t) in
      rw records refl

-- Sets of sequence numbers: lists up to order and repetition.
abbrev pub SequenceSet : Type 0
SequenceSet = Quot SameMembers

abbrev pub of_list : List ℕ → SequenceSet
of_list = Quot.mk

module _ (io : BinaryStream) where
  -- `serialize` on sets.
  unfoldable pub serialize_set : Kind → SequenceSet → List ℕ
  serialize_set kind = Quot.lift (hlevel) (serialize io kind) (serialize-resp io kind)

module _ (io : BinaryStream) (laws : Laws io) where
  serialize_injective :
      (kind : Kind) (xs ys : List ℕ)
      → All (λ x. x < 2 ^ 24) xs
      → All (λ y. y < 2 ^ 24) ys
      → length xs < 2 ^ 16
      → length ys < 2 ^ 16
      → serialize io kind xs ≡ serialize io kind ys
      → SameMembers xs ys
  serialize_injective kind xs ys a b h k e y =
      let (us, eu, cu, mu) = deserialize-serialize-Ascends io laws kind xs a h in
      let (vs, ev, cv, mv) = deserialize-serialize-Ascends io laws kind ys b k in
      let same : us ≡ vs =
        some_injective (sym eu ∙ ap (λ bytes. deserialize io (payload bytes)) e ∙ ev) in
      sym (mu y) ∙ ap (has y) same ∙ mv y

  -- On lists that the wire has room for, two lists of sequence numbers make the same datagram exactly
  -- when they are equal as elements of the quotient of lists by having the same members, that is, as
  -- sets, in whatever order and with whatever repetitions.
  pub serialize-SequenceSet :
      (kind : Kind) (xs ys : List ℕ)
      → All (λ x. x < 2 ^ 24) xs
      → All (λ y. y < 2 ^ 24) ys
      → length xs < 2 ^ 16
      → length ys < 2 ^ 16
      → (serialize io kind xs ≡ serialize io kind ys) ↔ (of_list xs ≡ of_list ys)
  unfolding serialize_set
  serialize-SequenceSet kind xs ys a b h k = (
    λ e. Quot.sound (serialize_injective kind xs ys a b h k e),
    λ e. ap (serialize_set io kind) e,
  )
